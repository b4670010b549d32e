-- ===== src/Tests/Config.antt =====
-- The order of proxy groups on small configurations.
use rule_base_proxy.Common.{List, Text, [], codes, length, refl, some, text_eq, ℕ, ◌<◌, ◌∷◌, ◌≡◌}
use rule_base_proxy.Config.Graph.{
  Group, GraphNode, Graph, has_name, get_node, change, delete_node, is_source, references,
}
use rule_base_proxy.Config.Sorting.{
  sorted, loop_detected, Walk, add_edges, add_group, build, decrement, visit, walk, sources,
  link_members, link_all, unlink, prune, sinks, loop_elements, start_walk, proxy_groups_dag_sort,
}
use rule_base_proxy.Config.Rounds.{total_weight, IsOrdered, IsWalk}
use rule_base_proxy.Config.Order.{Walks, walk_total, proxy_groups_dag_sort-IsOrdered}

program : Unit {0}
unfolding has_name get_node change delete_node is_source add_edges add_group build decrement visit
    walk sources link_members link_all unlink prune sinks loop_elements proxy_groups_dag_sort
    text_eq
program = tt

abbrev top : Group
top = record { name = codes "top"; proxies = codes "auto" ∷ codes "direct" ∷ codes "auto" ∷ [] }

abbrev auto : Group
auto = record { name = codes "auto"; proxies = codes "node" ∷ [] }

abbrev direct : Group
direct = record { name = codes "direct"; proxies = [] }

-- A group that names the first one as its member.
abbrev around : Group
around = record { name = codes "auto"; proxies = codes "top" ∷ [] }

abbrev some_order : List Text → List Text
some_order l = l

some_order-Walks : Walks some_order
some_order-Walks l = (λ s. refl, λ a. a)

sorts :
    proxy_groups_dag_sort some some_order (top ∷ auto ∷ direct ∷ [])
    ≡ some (sorted (auto ∷ direct ∷ top ∷ []))
unfolding program
sorts = refl

finds_loop :
    proxy_groups_dag_sort some some_order (top ∷ around ∷ direct ∷ [])
    ≡ some (loop_detected (codes "auto" ∷ codes "top" ∷ []))
unfolding program
finds_loop = refl

proxy_groups_dag_sort-IsOrdered_example :
    IsOrdered some (auto ∷ direct ∷ top ∷ [])
    × ((c : Group → ℕ)
        → total_weight c (auto ∷ direct ∷ top ∷ []) ≡ total_weight c (top ∷ auto ∷ direct ∷ []))
proxy_groups_dag_sort-IsOrdered_example =
    proxy_groups_dag_sort-IsOrdered some some_order some_order-Walks (top ∷ auto ∷ direct ∷ [])
      (auto ∷ direct ∷ top ∷ []) sorts

abbrev built : Graph Group
built = elim (build some (top ∷ around ∷ direct ∷ []) []) [ sorted g ↦ g | _ ↦ [] ]

walk_total_example :
    (w : Walk Group) × (walk (length built) 3 (start_walk some_order built) ≡ some w)
    × IsWalk some (top ∷ around ∷ direct ∷ []) w
    × ((s : Text) (n : GraphNode Group) → get_node s w.graph ≡ some n → 0 < references s w.graph)
unfolding program
walk_total_example =
    walk_total some some_order some_order-Walks (top ∷ around ∷ direct ∷ []) built refl
