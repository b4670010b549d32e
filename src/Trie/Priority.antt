-- ===== src/Trie/Priority.antt =====
-- `search` against its documented priority: exact label, then `*`, then the dot wildcard.
use rule_base_proxy.Common.{
  <|>-eq-none, <|>-eq-some, >>=-at-some, >>=-eq-some, List, Option, Text, [], arith, fun_ext, inl,
  inr, map, none, refl, some, sym, ◌++◌, ◌<|>◌, ◌>>=◌, ◌∷◌, ◌≡◌, ◌≢◌,
}
use rule_base_proxy.Trie.Node.{Node, get_child, search_path, wildcard, dot_wildcard}
use rule_base_proxy.Trie.Store.{find_node}

-- The stored paths that match a domain (labels from the last), most specific first.
unfoldable pub candidates : List Text → List (List Text)
candidates [] = [] ∷ []
candidates (d ∷ ds) =
    map (◌∷◌ d) (candidates ds)
    ++ (map (◌∷◌ wildcard) (candidates ds) ++ ((dot_wildcard ∷ []) ∷ []))

-- A pattern matches a domain: label by label, `*` for one label, and a leading dot for one or
-- more labels.
pub data Covers : List Text → List Text → Type 0 where
  done : Covers [] []
  exact : (d : Text) {ps ds : List Text} → Covers ps ds → Covers (d ∷ ps) (d ∷ ds)
  star : (d : Text) {ps ds : List Text} → Covers ps ds → Covers (wildcard ∷ ps) (d ∷ ds)
  dot : (d : Text) (ds : List Text) → Covers (dot_wildcard ∷ []) (d ∷ ds)

module _ {ℓ} {A : Type ℓ} where
  -- The first of the paths that ends at a node.
  unfoldable pub first_node : List (List Text) → Node A → Option (Node A)
  first_node [] n = none
  first_node (p ∷ ps) n = find_node p n <|> first_node ps n

  first_node-append :
      (ps qs : List (List Text)) (n : Node A)
      → first_node (ps ++ qs) n ≡ (first_node ps n <|> first_node qs n)
  unfolding first_node
  first_node-append [] qs n = refl
  first_node-append (p ∷ ps) qs n = ground (arith, first_node-append ps qs n)

  first_node-map :
      (d : Text) (ps : List (List Text)) (n : Node A)
      → first_node (map (◌∷◌ d) ps) n ≡ (get_child n d >>= first_node ps)
  unfolding first_node find_node
  first_node-map d [] n = ground arith
  first_node-map d (p ∷ ps) n = ground (arith, first_node-map d ps n)

  first_node-candidates :
      (d : Text) (ds : List Text) (n : Node A)
      → first_node (candidates (d ∷ ds)) n ≡ (
          (get_child n d >>= first_node (candidates ds))
          <|> (get_child n wildcard >>= first_node (candidates ds))
          <|> get_child n dot_wildcard)
  unfolding candidates
  first_node-candidates d ds n =
      simp (first_node-append, first_node-map) (unfold first_node find_node in ground arith)

  -- The search returns the node of the most specific matching path that exists.
  pub search_path-first_node :
      (ds : List Text) (n : Node A) → search_path ds n ≡ first_node (candidates ds) n
  unfolding search_path candidates first_node find_node
  search_path-first_node [] n = refl
  search_path-first_node (d ∷ ds) n =
      rw (fun_ext (search_path-first_node ds)) (sym (first_node-candidates d ds n))

  below :
      (d p : Text) (ds : List Text) (n : Node A) {m : Node A}
      → ((k : Node A)
          → search_path ds k ≡ some m
          → (q : List Text) × (find_node q k ≡ some m) × Covers q ds)
      → ((q : List Text) → Covers q ds → Covers (p ∷ q) (d ∷ ds))
      → (get_child n p >>= search_path ds) ≡ some m
      → (q : List Text) × (find_node q n ≡ some m) × Covers q (d ∷ ds)
  unfolding find_node
  below d p ds n ih rule h =
      let (c, e, found) = >>=-eq-some (get_child n p) (search_path ds) h in
      let (q, at, covers) = ih c found in (p ∷ q, rw e at, rule q covers)

  -- Whatever the search returns stands at the path of a pattern that matches the domain.
  pub search_path-Covers :
      (ds : List Text) (n : Node A) {m : Node A}
      → search_path ds n ≡ some m
      → (p : List Text) × (find_node p n ≡ some m) × Covers p ds
  unfolding search_path find_node
  search_path-Covers [] n h = ([], h, done)
  search_path-Covers (d ∷ ds) n {m} h = elim (<|>-eq-some _ _ h) [
    | inl e ↦ below d d ds n (λ k r. search_path-Covers ds k r) (λ q c. exact d c) e
    | inr (_, h') ↦ elim (<|>-eq-some _ _ h') [
      | inl e ↦ below d wildcard ds n (λ k r. search_path-Covers ds k r) (λ q c. star d c) e
      | inr (_, e) ↦ (dot_wildcard ∷ [], rw e, dot d ds)
    ]
  ]

  -- If a pattern that matches the domain is a path of the trie, the search returns some node.
  pub search_path_complete :
      {p ds : List Text} (n : Node A) {m : Node A}
      → Covers p ds
      → find_node p n ≡ some m
      → search_path ds n ≢ none
  unfolding search_path find_node
  search_path_complete n done h = ground arith
  search_path_complete n (exact d {ps} {ds} c) h = λ e.
      let (k, at, found) = >>=-eq-some (get_child n d) (find_node ps) h in
      let (no₁, _) = <|>-eq-none _ _ e in
      search_path_complete k c found (>>=-at-some (get_child n d) (search_path ds) no₁ at)
  search_path_complete n (star d {ps} {ds} c) h = λ e.
      let (k, at, found) = >>=-eq-some (get_child n wildcard) (find_node ps) h in
      let (_, no₂) = <|>-eq-none _ _ e in
      let (no₃, _) = <|>-eq-none _ _ no₂ in
      search_path_complete k c found (>>=-at-some (get_child n wildcard) (search_path ds) no₃ at)
  search_path_complete n (dot d ds) h = λ e.
      let (_, no₂) = <|>-eq-none (get_child n d >>= search_path ds) _ e in
      let (_, no₃) = <|>-eq-none (get_child n wildcard >>= search_path ds) _ no₂ in
      let (k, at, found) = >>=-eq-some (get_child n dot_wildcard) (find_node []) h in
      absurd (ground arith)
