-- ===== src/Tests/Trie.antt =====
-- The domain trie (component/trie) on the domains of its tests.
use rule_base_proxy.Common.{
  List, Text, [], codes, get_or_else, none, refl, reverse, some, text_eq, ℕ, ◌∷◌, ◌≡◌, ◌≢◌,
}
use rule_base_proxy.Trie.Domain.{
  split_dot, ends_with_dot, has_empty, check_parts, valid_and_split_domain,
}
use rule_base_proxy.Trie.Split.{IsDomain, join_dot, valid_and_split_domain_sound}
use rule_base_proxy.Trie.Node.{
  Node, Children, node, content, find_child, put_child, get_child, has_child, add_child, new_node,
  insert_path, insert_parts, insert_domain_parts, insert, search_path, search_parts, search_domain,
  new_trie,
}
use rule_base_proxy.Trie.Store.{find_node, content_at}
use rule_base_proxy.Trie.Priority.{
  candidates, first_node, Covers, star, done, exact, search_path-first_node, search_path_complete,
}
use rule_base_proxy.Trie.Search.{lookup_domain, search_domain-Covers, search_domain-insert_hides}

program : Unit {0}
unfolding split_dot ends_with_dot has_empty check_parts valid_and_split_domain find_child put_child
    get_child has_child add_child new_node insert_path insert_parts insert_domain_parts insert
    search_path search_parts search_domain new_trie text_eq find_node content_at join_dot
program = tt

abbrev example_com : Text
example_com = codes "example.com"

abbrev labels : List Text
labels = codes "example" ∷ codes "com" ∷ []

split : valid_and_split_domain (codes "sub.example.com") ≡ some (codes "sub" ∷ labels)
unfolding program
split = refl

split_bad :
    (valid_and_split_domain [] ≡ none)
    × (valid_and_split_domain (codes ".") ≡ none)
    × (valid_and_split_domain (codes "..dev") ≡ none)
    × (valid_and_split_domain (codes "example.com.") ≡ none)
unfolding program
split_bad = (refl, refl, refl, refl)

-- Inserts in order; a refused domain changes nothing.
abbrev build : List (Text × ℕ) → Node ℕ → Node ℕ
build [] t = t
build ((d, x) ∷ ds) t = build ds (get_or_else (insert d (some x) t) t)

-- The priorities of the program's own test.
abbrev priorities : Node ℕ
priorities =
    build
      ((codes ".dev", 10)
        ∷ (codes "example.dev", 11)
        ∷ (codes "*.example.dev", 12)
        ∷ (codes "test.example.dev", 13)
        ∷ [])
      new_trie

priority :
    (lookup_domain (codes "test.dev") priorities ≡ some 10)
    × (lookup_domain (codes "foo.bar.dev") priorities ≡ some 10)
    × (lookup_domain (codes "example.dev") priorities ≡ some 11)
    × (lookup_domain (codes "foo.example.dev") priorities ≡ some 12)
    × (lookup_domain (codes "test.example.dev") priorities ≡ some 13)
unfolding program
priority = (refl, refl, refl, refl, refl)

labels-IsDomain : IsDomain labels
unfolding program
labels-IsDomain = (valid_and_split_domain_sound example_com refl).0

-- A trie with one wildcard.
abbrev stars : Node ℕ
stars = build ((codes "*.com", 7) ∷ []) new_trie

abbrev path : List Text
path = codes "com" ∷ codes "example" ∷ []

search_path-first_node_example : search_path path stars ≡ first_node (candidates path) stars
search_path-first_node_example = search_path-first_node path stars

search_path_complete_example : search_path path stars ≢ none
unfolding program
search_path_complete_example =
    search_path_complete {p = codes "com" ∷ codes "*" ∷ []} {ds = path} stars
      {m = node (some 7) Children.nil} (exact (codes "com") (star (codes "example") done)) refl

search_domain-Covers_example :
    (ps : List Text) × (q : List Text) × (x : ℕ) × (valid_and_split_domain example_com ≡ some ps)
    × Covers q (reverse ps)
    × (content_at q stars ≡ some x)
    × (content (node (some 7) Children.nil) ≡ some x)
unfolding program
search_domain-Covers_example =
    search_domain-Covers example_com stars {m = node (some 7) Children.nil} refl

abbrev after : Text → Node ℕ
after d = get_or_else (insert d (some 5) stars) stars

abbrev plus : Text
plus = codes "+.example.com"

abbrev sub : Text
sub = codes "sub.example.com"

-- The wildcard `*.com` covers `example.com` until a sub-domain of it is inserted.
covered_before : lookup_domain example_com stars ≡ some 7
unfolding program
covered_before = refl

search_domain-insert_hides_example : search_domain example_com (after sub) ≡ none
unfolding program
search_domain-insert_hides_example =
    search_domain-insert_hides example_com sub (codes "sub") labels (some 5) stars {n' = after sub}
      refl refl (λ e. cc) (λ e. cc) refl refl
