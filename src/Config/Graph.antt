-- ===== src/Config/Graph.antt =====
-- The graph of `proxyGroupsDagSort` (config/utils.go): a map from names to nodes, as a list of
-- pairs, written so that a name has one pair.
use rule_base_proxy.Common.{
  Bool, List, Option, Text, [], false, if◌then◌else◌, none, some, text_eq, true, ℕ, ◌+◌, ◌==◌, ◌∷◌,
  ◌≡◌,
}

-- What the sort reads of the options of a group (`GroupCommonOption`).
pub record Group : Type 0 where
  pub name : Text
  pub proxies : List Text

-- `graphNode`; `group` is `data` with `option`, which are set together.
pub record GraphNode {ℓ} (M : Type ℓ) : Type ℓ where
  pub indegree : ℕ
  pub group : Option (M × Group)
  pub outdegree : ℕ
  pub from : List Text

abbrev pub Graph {ℓ} : Type ℓ → Type ℓ
Graph M = List (Text × GraphNode M)

unfoldable pub has_name : Text → List Text → Bool
has_name s [] = false
has_name s (x ∷ xs) = if text_eq x s then true else has_name s xs

-- How often a name stands in a list.
unfoldable pub occurrences : Text → List Text → ℕ
occurrences s [] = 0
occurrences s (x ∷ xs) = (if text_eq x s then 1 else 0) + occurrences s xs

module _ {ℓ} {M : Type ℓ} where
  unfoldable pub get_node : Text → Graph M → Option (GraphNode M)
  get_node s [] = none
  get_node s ((k, n) ∷ g) = if text_eq k s then some n else get_node s g

  -- A change of the node that a name points to.
  unfoldable pub change : Text → (GraphNode M → GraphNode M) → Graph M → Graph M
  change s f [] = []
  change s f ((k, n) ∷ g) = if text_eq k s then (k, f n) ∷ g else (k, n) ∷ change s f g

  unfoldable pub delete_node : Text → Graph M → Graph M
  delete_node s [] = []
  delete_node s ((k, n) ∷ g) = if text_eq k s then g else (k, n) ∷ delete_node s g

  abbrev pub members : GraphNode M → List Text
  members n = elim n.group [ none ↦ [] | some o ↦ o.1.proxies ]

  -- How often the groups of the graph name `s` as a member.
  unfoldable pub references : Text → Graph M → ℕ
  references s [] = 0
  references s ((k, n) ∷ g) = occurrences s (members n) + references s g

  unfoldable pub indegree_of : Text → Graph M → ℕ
  indegree_of s g = elim (get_node s g) [ none ↦ 0 | some n ↦ n.indegree ]

  -- A node that is there, with no edge into it.
  unfoldable pub is_source : Text → Graph M → Bool
  is_source s g = elim (get_node s g) [ none ↦ false | some n ↦ n.indegree == 0 ]

  -- The weight of a node's group, and of the groups of a graph, for weights of configurations.
  abbrev pub grouped : (M → ℕ) → GraphNode M → ℕ
  grouped c n = elim n.group [ none ↦ 0 | some o ↦ c o.0 ]

  unfoldable pub weight : (M → ℕ) → Graph M → ℕ
  weight c [] = 0
  weight c ((k, n) ∷ g) = grouped c n + weight c g

  abbrev pub Distinct : Graph M → Type ℓ
  Distinct [] = Unit
  Distinct ((k, n) ∷ g) = (get_node k g ≡ none) × Distinct g
