-- ===== src/Trie/Node.antt =====
-- component/trie/node.go and the methods of `DomainTrie` in component/trie/domain.go. A node's
-- map of children is an association list with at most one entry written per name; a part list is
-- walked from its end, as the source's index does, by reversing it first.
use rule_base_proxy.Common.{
  Bool, List, Option, Text, [], codes, get_or_else, if◌then◌else◌, is_some, none, reverse, some,
  text_eq, ◌<|>◌, ◌>>=◌, ◌∷◌,
}
use rule_base_proxy.Trie.Domain.{valid_and_split_domain}

abbrev pub wildcard : Text
wildcard = codes "*"

abbrev pub dot_wildcard : Text
dot_wildcard = []

abbrev pub complex_wildcard : Text
complex_wildcard = codes "+"

-- `content` is the field `Data`; `none` is nil.
mutual
  pub data Node {ℓ} (A : Type ℓ) : Type ℓ where
    node : Option A → Children A → Node A

  pub data Children {ℓ} (A : Type ℓ) : Type ℓ where
    nil : Children A
    cons : Text → Node A → Children A → Children A

module _ {ℓ} {A : Type ℓ} where
  abbrev pub content : Node A → Option A
  content (node d cs) = d

  abbrev pub children : Node A → Children A
  children (node d cs) = cs

  unfoldable pub find_child : Children A → Text → Option (Node A)
  find_child nil s = none
  find_child (cons k c cs) s = if text_eq k s then some c else find_child cs s

  unfoldable pub put_child : Children A → Text → Node A → Children A
  put_child nil s child = cons s child nil
  put_child (cons k c cs) s child =
      if text_eq k s then cons k child cs else cons k c (put_child cs s child)

  unfoldable pub get_child : Node A → Text → Option (Node A)
  unfolding find_child
  get_child (node d cs) s = find_child cs s

  unfoldable pub has_child : Node A → Text → Bool
  has_child n s = is_some (get_child n s)

  unfoldable pub add_child : Node A → Text → Node A → Node A
  unfolding put_child
  add_child (node d cs) s child = node d (put_child cs s child)

  unfoldable pub new_node : Option A → Node A
  new_node d = node d nil

  -- The loop of `insert`, over the parts from the last to the first.
  unfoldable pub insert_path : List Text → Option A → Node A → Node A
  insert_path [] d (node _ cs) = node d cs
  insert_path (part ∷ parts) d n =
      let n' = if has_child n part then n else add_child n part (new_node none) in
      add_child n' part (insert_path parts d (get_or_else (get_child n' part) (new_node none)))

  unfoldable pub insert_parts : List Text → Option A → Node A → Node A
  insert_parts parts d n = insert_path (reverse parts) d n

  -- `parts[0] == complexWildcard` and the two branches of `Insert`; there is always a first part.
  unfoldable pub insert_domain_parts : List Text → Option A → Node A → Node A
  insert_domain_parts [] d n = n
  insert_domain_parts (p ∷ ps) d n =
      if text_eq p complex_wildcard
      then insert_parts (dot_wildcard ∷ ps) d (insert_parts ps d n)
      else insert_parts (p ∷ ps) d n

  -- `Insert`: the new trie, or `none` for `ErrInvalidDomain`.
  unfoldable pub insert : Text → Option A → Node A → Option (Node A)
  insert domain d n =
      valid_and_split_domain domain >>= λ parts. some (insert_domain_parts parts d n)

  -- `search`, over the parts from the last to the first.
  unfoldable pub search_path : List Text → Node A → Option (Node A)
  search_path [] n = some n
  search_path (part ∷ parts) n =
      (get_child n part >>= search_path parts)
      <|> (get_child n wildcard >>= search_path parts)
      <|> get_child n dot_wildcard

  -- `!valid || parts[0] == ""`
  unfoldable pub search_parts : List Text → Node A → Option (Node A)
  search_parts [] n = none
  search_parts ([] ∷ ps) n = none
  search_parts ((c ∷ p) ∷ ps) n = search_path (reverse ((c ∷ p) ∷ ps)) n

  -- `n == nil || n.Data == nil`
  abbrev pub with_content : Node A → Option (Node A)
  with_content (node none cs) = none
  with_content (node (some d) cs) = some (node (some d) cs)

  -- `Search`: the node, always one with data.
  unfoldable pub search_domain : Text → Node A → Option (Node A)
  search_domain domain n =
      valid_and_split_domain domain >>= λ parts. search_parts parts n >>= with_content

  unfoldable pub new_trie : Node A
  unfolding new_node
  new_trie = new_node none
