-- ===== src/Trie/Store.antt =====
-- What the trie stores: the data at each exact path of labels, and how `insert` changes it.
use rule_base_proxy.Common.{
  Bool, Bool-cases, List, Option, Option-cases, Text, [], ap, arith, false, get_or_else,
  if◌then◌else◌, inl, inr, none, refl, some, text_eq, text_eq_refl, text_eq_iff, true, ◌&&◌, ◌>>=◌,
  ◌∙◌, ◌∷◌, ◌≡◌,
}
use rule_base_proxy.Trie.Node.{
  Node, Children, node, nil, cons, content, find_child, put_child, get_child, has_child, add_child,
  new_node, insert_path,
}

-- Two paths have the same labels.
unfoldable pub path_eq : List Text → List Text → Bool
path_eq [] [] = true
path_eq (x ∷ xs) (y ∷ ys) = text_eq x y && path_eq xs ys
path_eq _ _ = false

pub path_eq_iff : (a b : List Text) → (path_eq a b ≡ true) → a ≡ b
unfolding path_eq
path_eq_iff (x ∷ a) (y ∷ b) h = ground (arith, path_eq_iff a b, text_eq_iff x y)
path_eq_iff [] [] h = refl
path_eq_iff [] (y ∷ b) h = cc
path_eq_iff (x ∷ a) [] h = cc

pub path_eq_refl : (a : List Text) → path_eq a a ≡ true
unfolding path_eq
path_eq_refl [] = refl
path_eq_refl (x ∷ a) = ground (arith, path_eq_refl a, text_eq_iff x x)

module _ {ℓ} {A : Type ℓ} where
  -- The node at the end of a path of exact labels.
  unfoldable pub find_node : List Text → Node A → Option (Node A)
  find_node [] n = some n
  find_node (p ∷ ps) n = get_child n p >>= find_node ps

  -- The data stored at a path.
  unfoldable pub content_at : List Text → Node A → Option A
  content_at ps n = find_node ps n >>= content

  find_child-put_child :
      (cs : Children A) (s t : Text) (c : Node A)
      → find_child (put_child cs s c) t ≡ (if text_eq s t then some c else find_child cs t)
  unfolding find_child put_child
  find_child-put_child nil s t c = refl
  find_child-put_child (cons k d cs) s t c =
      ground
        (arith, find_child-put_child cs s t c, text_eq_iff s t, text_eq_iff k s, text_eq_iff k t)

  get_child-add_child :
      (n : Node A) (s t : Text) (c : Node A)
      → get_child (add_child n s c) t ≡ (if text_eq s t then some c else get_child n t)
  unfolding get_child add_child
  get_child-add_child (node d cs) s t c = find_child-put_child cs s t c

  content-add_child : (n : Node A) (s : Text) (c : Node A) → content (add_child n s c) ≡ content n
  unfolding add_child
  content-add_child (node d cs) s c = refl

  get_child-new_node : (d : Option A) (s : Text) → get_child (new_node d) s ≡ none
  unfolding get_child new_node find_child
  get_child-new_node d s = refl

  -- The child that the loop of `insert` goes on with.
  pub child_or_new : Text → Node A → Node A
  child_or_new p n = get_or_else (get_child n p) (new_node none)

  pub insert_path-cons :
      (p t : Text) (ps : List Text) (d : Option A) (n : Node A)
      → get_child (insert_path (p ∷ ps) d n) t
        ≡ (if text_eq p t then some (insert_path ps d (child_or_new p n)) else get_child n t)
  unfolding insert_path child_or_new has_child
  insert_path-cons p t ps d n = elim (Option-cases (get_child n p)) [
    | inl e ↦
        rw (e, get_child-add_child, get_child-add_child, get_child-add_child, text_eq_refl)
          (ground (arith, text_eq_iff p t))
    | inr (c, e) ↦ rw (e, get_child-add_child, e)
  ]

  pub content-insert_path :
      (p : Text) (ps : List Text) (d : Option A) (n : Node A)
      → content (insert_path (p ∷ ps) d n) ≡ content n
  unfolding insert_path
  content-insert_path p ps d n =
      content-add_child _ p _ ∙ ground (arith, content-add_child n p (new_node none))

  content_at-new_node : (q : List Text) → content_at q (new_node none) ≡ none
  unfolding content_at find_node new_node
  content_at-new_node [] = refl
  content_at-new_node (x ∷ q) = rw get_child-new_node

  pub content_at-child_or_new :
      (q : List Text) (p : Text) (n : Node A)
      → content_at q (child_or_new p n) ≡ content_at (p ∷ q) n
  unfolding content_at find_node child_or_new
  content_at-child_or_new q p n = elim (Option-cases (get_child n p)) [
    | inl e ↦ rw e (content_at-new_node q)
    | inr (c, e) ↦ rw e
  ]

  -- Inserting at a path sets the data there and changes the data at no other path.
  pub content_at-insert_path :
      (p q : List Text) (d : Option A) (n : Node A)
      → content_at q (insert_path p d n) ≡ (if path_eq p q then d else content_at q n)
  unfolding content_at find_node path_eq insert_path get_child
  content_at-insert_path [] [] d (node _ cs) = refl
  content_at-insert_path [] (x ∷ q) d (node _ cs) = refl
  content_at-insert_path (x ∷ p) [] d n = content-insert_path x p d n
  content_at-insert_path (x ∷ p) (y ∷ q) d n = elim (Bool-cases (text_eq x y)) [
    | inl same ↦
        rw (insert_path-cons, same)
          (content_at-insert_path p q d (child_or_new x n)
            ∙ ap (λ t. if path_eq p q then d else t)
                (content_at-child_or_new q x n
                  ∙ ap (λ z. content_at (z ∷ q) n) ((text_eq_iff x y).0 same)))
    | inr other ↦ rw (insert_path-cons, other)
  ]
