-- ===== src/Config/Sorting.antt =====
-- `proxyGroupsDagSort` of config/utils.go, for configurations of any type `M` with a decoder to
-- their options; `none` of the decoder is its error, and `none` as a result is a panic. `order`
-- is the order in which Go walks a map.
use rule_base_proxy.Common.{
  List, Option, Text, [], empty, if◌then◌else◌, is_some, leb, length, map, none, some, suc, take,
  zero, ℕ, ◌++◌, ◌+◌, ◌-◌, ◌==◌, ◌>>=◌, ◌∷◌,
}
use rule_base_proxy.Config.Graph.{
  Group, GraphNode, Graph, get_node, change, delete_node, is_source, members,
}

pub data Outcome {ℓ} (A : Type ℓ) : Type ℓ where
  sorted : A → Outcome A
  bad_options : Outcome A
  duplicate_name : Text → Outcome A
  loop_detected : List Text → Outcome A

-- The state of a walk: the graph, the queue, and the groups written so far, from the end of the
-- slice on.
pub record Walk {ℓ} (M : Type ℓ) : Type ℓ where
  pub graph : Graph M
  pub queue : List Text
  pub written : List M

module _ {ℓ} {M : Type ℓ} where
  abbrev pub one_more : GraphNode M → GraphNode M
  one_more n = record n { indegree = n.indegree + 1 }

  abbrev pub one_less : GraphNode M → GraphNode M
  one_less n = record n { indegree = n.indegree - 1 }

  abbrev pub with_group : M → Group → GraphNode M → GraphNode M
  with_group m o n = record n { group = some (m, o) }

  abbrev pub new_graph_node : ℕ → Option (M × Group) → GraphNode M
  new_graph_node d o = record { indegree = d; group = o; outdegree = 0; from = [] }

  -- Step 1.1, the loop over the members of a group.
  unfoldable pub add_edges : List Text → Graph M → Graph M
  add_edges [] g = g
  add_edges (p ∷ ps) g =
      add_edges ps
        (if is_some (get_node p g) then change p one_more g else (p, new_graph_node 1 none) ∷ g)

  -- One group of step 1.1; `none` is the error of a duplicate name.
  unfoldable pub add_group : M → Group → Graph M → Option (Graph M)
  add_group m o g = elim (get_node o.name g) [
    | none ↦ some (add_edges o.proxies ((o.name, new_graph_node 0 (some (m, o))) ∷ g))
    | some n ↦
        if is_some n.group
        then none
        else some (add_edges o.proxies (change o.name (with_group m o) g))
  ]

  unfoldable pub build : (M → Option Group) → List M → Graph M → Outcome (Graph M)
  build decode [] g = sorted g
  build decode (m ∷ ms) g = elim (decode m) [
    | none ↦ bad_options
    | some o ↦ elim (add_group m o g) [
      | none ↦ duplicate_name o.name
      | some g' ↦ build decode ms g'
    ]
  ]

  -- The loop over the members of a group that is taken from the queue. The indegree of a member
  -- is positive there, so that it does not fall below 0.
  unfoldable pub decrement : List Text → Graph M → List Text → Option (Graph M × List Text)
  decrement [] g q = some (g, q)
  decrement (p ∷ ps) g q =
      (get_node p g >>= λ child.
      decrement ps (change p one_less g) (if child.indegree == 1 then q ++ p ∷ [] else q))

  -- One round of step 1.2, for the first name of the queue and the rest of it; a slice of `total`
  -- groups has no place for one more.
  unfoldable pub visit : ℕ → Text → List Text → Walk M → Option (Walk M)
  visit total name q w = get_node name w.graph >>= λ node. elim node.group [
    | none ↦ some (record w { graph = delete_node name w.graph; queue = q })
    | some o ↦
        if leb total (length w.written)
        then none
        else if empty o.1.proxies
        then some
            (record { graph = delete_node name w.graph; queue = q; written = o.0 ∷ w.written })
        else (decrement o.1.proxies w.graph q >>= λ st.
            some
              (record { graph = delete_node name st.0; queue = st.1; written = o.0 ∷ w.written }))
  ]

  -- The loop of step 1.2, on fuel: a round removes a node, so as many rounds as nodes are enough.
  unfoldable pub walk : ℕ → ℕ → Walk M → Option (Walk M)
  walk zero total w = if empty w.queue then some w else none
  walk (suc fuel) total w = elim w.queue [
    | [] ↦ some w
    | name ∷ q ↦ visit total name q w >>= walk fuel total
  ]

  abbrev pub names : Graph M → List Text
  names g = map (λ (x : Text × GraphNode M). x.0) g

  unfoldable pub sources : Graph M → List Text → List Text
  sources g [] = []
  sources g (k ∷ ks) = if is_source k g then k ∷ sources g ks else sources g ks

  abbrev pub start_walk : (List Text → List Text) → Graph M → Walk M
  start_walk order g = record { graph = g; queue = sources g (order (names g)); written = [] }

  -- Step 2.1, for one group and its members.
  unfoldable pub link_members : Text → List Text → Graph M → Option (Graph M)
  link_members name [] g = some g
  link_members name (p ∷ ps) g =
      let g' = change name (λ n. record n { outdegree = n.outdegree + 1 }) g in
      (get_node p g' >>= λ child.
      link_members name ps (change p (λ n. record n { from = n.from ++ name ∷ [] }) g'))

  unfoldable pub link_all : List Text → Graph M → Option (Graph M)
  link_all [] g = some g
  link_all (k ∷ ks) g = (get_node k g >>= λ node. link_members k (members node) g >>= link_all ks)

  -- Step 2.2, for the groups that name a node without outgoing edges.
  unfoldable pub unlink : List Text → Graph M → List Text → Option (Graph M × List Text)
  unlink [] g q = some (g, q)
  unlink (f ∷ fs) g q =
      (get_node f g >>= λ node.
      unlink fs (change f (λ n. record n { outdegree = n.outdegree - 1 }) g)
        (if node.outdegree == 1 then q ++ f ∷ [] else q))

  unfoldable pub prune : ℕ → Graph M → List Text → Option (Graph M)
  prune fuel g [] = some g
  prune zero g (k ∷ q) = none
  prune (suc fuel) g (k ∷ q) =
      (get_node k g >>= λ node. unlink node.from g q >>= λ st. prune fuel (delete_node k st.0) st.1)

  unfoldable pub sinks : Graph M → List Text → List Text
  sinks g [] = []
  sinks g (k ∷ ks) =
      let rest = sinks g ks in
      elim (get_node k g) [ none ↦ rest | some n ↦ if n.outdegree == 0 then k ∷ rest else rest ]

  -- Steps 2.1 to 2.3: the names on loops.
  unfoldable pub loop_elements : (List Text → List Text) → Graph M → Option (List Text)
  loop_elements order g = link_all (order (names g)) g >>= λ linked.
      prune (length linked) linked (sinks linked (order (names linked))) >>= λ left.
      some (order (names left))

  unfoldable pub proxy_groups_dag_sort :
      (M → Option Group) → (List Text → List Text) → List M → Option (Outcome (List M))
  proxy_groups_dag_sort decode order groups = elim (build decode groups []) [
    | bad_options ↦ some bad_options
    | duplicate_name s ↦ some (duplicate_name s)
    | loop_detected l ↦ some (loop_detected l)
    | sorted g ↦ walk (length g) (length groups) (start_walk order g) >>= λ w.
        if empty w.graph
        then some (sorted (take (length groups - length w.written) groups ++ w.written))
        else (loop_elements order w.graph >>= λ l. some (loop_detected l))
  ]
