-- ===== src/Trie/Search.antt =====
-- `Insert` and `Search` of component/trie/domain.go together: what a search returns after an
-- insert, and which earlier patterns an insert can hide.
use mathlib.Core.List.{reverse-reverse, reverse-cons}
use rule_base_proxy.Common.{
  >>=-eq-some, Bool-cases, List, Option, Text, [], ap, arith, false, inl, inr, length, none, refl,
  reverse, some, some_inj, sym, text_eq_refl, text_eq_ne, ◌++◌, ◌>>=◌, ◌∙◌, ◌∷◌, ◌≡◌, ◌≢◌,
}
use rule_base_proxy.Trie.Domain.{valid_and_split_domain}
use rule_base_proxy.Trie.Node.{
  Node, node, content, search_path, search_parts, search_domain, insert_path, insert_parts,
  insert_domain_parts, insert, get_child, with_content, dot_wildcard, complex_wildcard,
}
use rule_base_proxy.Trie.Store.{
  find_node, content_at, path_eq, path_eq_iff, path_eq_refl, content_at-insert_path,
  insert_path-cons, content-insert_path, child_or_new, content_at-child_or_new,
}
use rule_base_proxy.Trie.Priority.{Covers, search_path-Covers}

-- A first label as `Search` wants it.
abbrev pub Searchable : List Text → Type 0
Searchable [] = ⊥
Searchable (p ∷ ps) = p ≢ []

-- A first label that `Insert` does not expand.
abbrev pub IsPlain : List Text → Type 0
IsPlain [] = ⊥
IsPlain (p ∷ ps) = p ≢ complex_wildcard

-- A path is not the path of one more label.
reverse-cons-ne : (p : Text) (ps : List Text) → path_eq (reverse (p ∷ ps)) (reverse ps) ≡ false
reverse-cons-ne p ps = elim (Bool-cases (path_eq (reverse (p ∷ ps)) (reverse ps))) [
  | inl e ↦
      let same : p ∷ ps ≡ ps =
        sym (reverse-reverse (p ∷ ps)) ∙ ap reverse (path_eq_iff _ _ e) ∙ reverse-reverse ps in
      absurd (omega (arith, ap length same))
  | inr e ↦ e
]

module _ {ℓ} {A : Type ℓ} where
  -- A path that the trie has is what the search of that path returns.
  search_path-find_node :
      (ps : List Text) (n : Node A) {m : Node A}
      → find_node ps n ≡ some m
      → search_path ps n ≡ some m
  unfolding search_path find_node
  search_path-find_node [] n h = h
  search_path-find_node (p ∷ ps) n h =
      let (c, e, found) = >>=-eq-some (get_child n p) (find_node ps) h in
      rw (e, search_path-find_node ps c found)

  -- The node at a path that holds data.
  find_node_of_content :
      (ps : List Text) (n : Node A) {x : A}
      → content_at ps n ≡ some x
      → (m : Node A) × (find_node ps n ≡ some m) × (content m ≡ some x)
  unfolding content_at
  find_node_of_content ps n h = >>=-eq-some (find_node ps n) content h

  with_content_of_content : (m : Node A) {x : A} → content m ≡ some x → with_content m ≡ some m
  with_content_of_content (node none cs) h = cc
  with_content_of_content (node (some d) cs) h = refl

  content_at_of_found :
      (q : List Text) (n k : Node A) {x : A}
      → find_node q n ≡ some k
      → content k ≡ some x
      → content_at q n ≡ some x
  unfolding content_at
  content_at_of_found q n k at h = rw at h

  with_content_of_none : (m : Node A) → content m ≡ none → with_content m ≡ none
  with_content_of_none (node none cs) h = refl
  with_content_of_none (node (some d) cs) h = cc

  with_content-content :
      (k : Node A) {m : Node A} → with_content k ≡ some m → (x : A) × (content k ≡ some x) × (m ≡ k)
  with_content-content (node none cs) h = cc
  with_content-content (node (some d) cs) h = (d, refl, sym (some_inj h))

  -- The data that `Search` yields.
  abbrev pub lookup_domain : Text → Node A → Option A
  lookup_domain domain n = search_domain domain n >>= content

  search_parts-search_path :
      (ps : List Text) (n : Node A) → Searchable ps → search_parts ps n ≡ search_path (reverse ps) n
  unfolding search_parts
  search_parts-search_path [] n h = absurd h
  search_parts-search_path ([] ∷ ps) n h = absurd (h refl)
  search_parts-search_path ((c ∷ p) ∷ ps) n h = refl

  search_parts-found :
      (ps : List Text) (n : Node A) {m : Node A}
      → search_parts ps n ≡ some m
      → search_path (reverse ps) n ≡ some m
  unfolding search_parts
  search_parts-found [] n h = cc
  search_parts-found ([] ∷ ps) n h = cc
  search_parts-found ((c ∷ p) ∷ ps) n h = h

  pub lookup_domain_of_content :
      (domain : Text) (ps : List Text) (n : Node A) {x : A}
      → valid_and_split_domain domain ≡ some ps
      → Searchable ps
      → content_at (reverse ps) n ≡ some x
      → lookup_domain domain n ≡ some x
  unfolding search_domain
  lookup_domain_of_content domain ps n v s h =
      let (m, at, holds) = find_node_of_content (reverse ps) n h in
      rw (
        v,
        search_parts-search_path ps n s,
        search_path-find_node (reverse ps) n at,
        with_content_of_content m holds,
        holds,
      )

  insert_plain :
      (domain : Text) (ps : List Text) (n : Node A) {n' : Node A} (d : Option A)
      → valid_and_split_domain domain ≡ some ps
      → IsPlain ps
      → insert domain d n ≡ some n'
      → insert_path (reverse ps) d n ≡ n'
  unfolding insert insert_domain_parts insert_parts
  insert_plain domain [] n d v p i = absurd p
  insert_plain domain (q ∷ ps) n {n'} d v p i =
      let e : some (insert_domain_parts (q ∷ ps) d n) ≡ some n' = rw v at i in
      some_inj (rw (text_eq_ne q complex_wildcard p) at e)

  insert_plus :
      (domain : Text) (ps : List Text) (n : Node A) {n' : Node A} (d : Option A)
      → valid_and_split_domain domain ≡ some (complex_wildcard ∷ ps)
      → insert domain d n ≡ some n'
      → insert_path (reverse (dot_wildcard ∷ ps)) d (insert_path (reverse ps) d n) ≡ n'
  unfolding insert insert_domain_parts insert_parts
  insert_plus domain ps n {n'} d v i =
      let e : some (insert_domain_parts (complex_wildcard ∷ ps) d n) ≡ some n' = rw v at i in
      some_inj (rw (text_eq_refl complex_wildcard) at e)

  -- An exact domain (no leading `+` or dot) is found with its own data right after its insert.
  pub search_domain-insert :
      (domain : Text) (ps : List Text) (n : Node A) {n' : Node A} (x : A)
      → valid_and_split_domain domain ≡ some ps
      → Searchable ps
      → IsPlain ps
      → insert domain (some x) n ≡ some n'
      → lookup_domain domain n' ≡ some x
  search_domain-insert domain ps n {n'} x v s p i =
      lookup_domain_of_content domain ps n' v s
        (rw (← insert_plain domain ps n (some x) v p i, content_at-insert_path, path_eq_refl))

  -- `+.example.com` is found under `example.com` with its data right after its insert.
  pub search_domain-insert_plus :
      (domain plus : Text) (ps : List Text) (n : Node A) {n' : Node A} (x : A)
      → valid_and_split_domain domain ≡ some ps
      → valid_and_split_domain plus ≡ some (complex_wildcard ∷ ps)
      → Searchable ps
      → insert plus (some x) n ≡ some n'
      → lookup_domain domain n' ≡ some x
  search_domain-insert_plus domain plus ps n {n'} x v w s i =
      lookup_domain_of_content domain ps n' v s (
        rw (← insert_plus plus ps n (some x) w i) (
          content_at-insert_path _ (reverse ps) (some x) _
          ∙ rw (reverse-cons-ne dot_wildcard ps, content_at-insert_path, path_eq_refl)))

  -- What `Search` returns was stored under a pattern that matches the domain, and has data.
  pub search_domain-Covers :
      (domain : Text) (n : Node A) {m : Node A}
      → search_domain domain n ≡ some m
      → (ps : List Text) × (q : List Text) × (x : A) × (valid_and_split_domain domain ≡ some ps)
        × Covers q (reverse ps)
        × (content_at q n ≡ some x)
        × (content m ≡ some x)
  unfolding search_domain
  search_domain-Covers domain n {m} h =
      let (ps, v, h') = >>=-eq-some (valid_and_split_domain domain) _ h in
      let (k, found, held) = >>=-eq-some (search_parts ps n) with_content h' in
      let (x, holds, same) = with_content-content k held in
      let (q, at, covers) = search_path-Covers (reverse ps) n (search_parts-found ps n found) in
      (ps, q, x, v, covers, content_at_of_found q n k at holds, rw same holds)

  -- A node on the way to an inserted path exists afterwards, with the data that it had.
  find_node-insert_path :
      (ps : List Text) (l : Text) (d : Option A) (n : Node A)
      → (m : Node A) × (find_node ps (insert_path (ps ++ l ∷ []) d n) ≡ some m)
        × (content m ≡ content_at ps n)
  unfolding find_node content_at
  find_node-insert_path [] l d n = (_, refl, content-insert_path l [] d n)
  find_node-insert_path (p ∷ ps) l d n =
      let (m, at, kept) = find_node-insert_path ps l d (child_or_new p n) in
      (m, rw (insert_path-cons, text_eq_refl) at, kept ∙ content_at-child_or_new ps p n)

  -- After the insert of a sub-domain of a domain that has no data of its own, `Search` finds
  -- nothing for the domain, whatever wildcards the trie holds.
  pub search_domain-insert_hides :
      (domain sub : Text) (l : Text) (ps : List Text) (d : Option A) (n : Node A) {n' : Node A}
      → valid_and_split_domain domain ≡ some ps
      → valid_and_split_domain sub ≡ some (l ∷ ps)
      → Searchable ps
      → l ≢ complex_wildcard
      → content_at (reverse ps) n ≡ none
      → insert sub d n ≡ some n'
      → search_domain domain n' ≡ none
  unfolding search_domain
  search_domain-insert_hides domain sub l ps d n {n'} v w s plain e i =
      let (m, at, kept) = find_node-insert_path (reverse ps) l d n in
      let built : insert_path (reverse ps ++ l ∷ []) d n ≡ n' =
        rw (← reverse-cons l ps) (insert_plain sub (l ∷ ps) n d w plain i) in
      rw (
        v,
        search_parts-search_path ps n' s,
        search_path-find_node (reverse ps) n' (rw built at at),
        with_content_of_none m (kept ∙ e),
      )
