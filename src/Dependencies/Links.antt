-- ===== src/Dependencies/Links.antt =====
-- The dependencies of the nodes of `buildDependencyGraph` in
-- internal/health/composite/dependency.go are edges of its graph.
use roost_keeper.Prelude.{
  ◌<◌, ◌≡◌, ◌∙◌, ◌&&◌, ◌||◌, ◌∷◌, ◌++◌, if◌then◌else◌, String, List, Option, Bool, pos, true, false,
  none, some, [], refl, sym, inl, inr, arith, eq_iff, str_eq, Bool-cases, Option-cases, inc,
  max_int64, lookup, lookup-insert, member, keys,
}
use mathlib.Core.Option
use mathlib.Core.Path.{subst}
use roost_keeper.Roost.{HealthCheckSpec, Reply, ok, err}
use roost_keeper.Dependencies.{
  Node, Graph, slice_at, add_nodes, add_edge, add_edges, add_dependencies, and_then,
  build_dependency_graph, update_node,
}
use roost_keeper.Dependencies.Order.{count}
use roost_keeper.Dependencies.Edges.{keys-update_node, count-slice_at}
use roost_keeper.Dependencies.Build.{add_edges_step, no_edges}

-- whether a node depends on `d`
abbrev pub has : String → Option Node → Bool
has d none = false
has d (some n) = member d n.dependencies

-- a dependency of a node has a node, and an edge to the node
abbrev pub IsLinked : Graph → Type 0
IsLinked g =
    (d v : String)
    → has d (lookup v g.nodes) ≡ true
    → (0 < count v (slice_at d g.edges)) × (0 < count d (keys g.nodes))

member-append :
    (d x : String) (xs : List String) → member d (xs ++ (x ∷ [])) ≡ member d xs || str_eq x d
member-append d x [] = ground arith
member-append d x (y ∷ ys) = ground (arith, member-append d x ys)

has-update_node :
    (f : Node → Node) (k v d : String) (m : List (String × Node))
    → has d (lookup v (update_node f k m))
      ≡ (if str_eq k v then has d (Option.map f (lookup k m)) else has d (lookup v m))
has-update_node f k v d m = elim (Option-cases (lookup k m)) [
  | inl e ↦ ground (arith, eq_iff k v)
  | inr (n, e) ↦ ground (arith, eq_iff k v, lookup-insert k v (f n) m)
]

abbrev with_dependency : String → Node → Node
with_dependency dep n = record n {
  dependencies = n.dependencies ++ (dep ∷ []);
  in_degree = inc max_int64 n.in_degree;
}

abbrev with_dependent : String → Node → Node
with_dependent check n = record n { dependents = n.dependents ++ (check ∷ []) }

has-with_dependent :
    (d check : String) (o : Option Node) → has d (Option.map (with_dependent check) o) ≡ has d o
has-with_dependent d check none = refl
has-with_dependent d check (some n) = refl

has-with_dependency :
    (d dep : String) (o : Option Node)
    → has d (Option.map (with_dependency dep) o) ≡ true
    → has d o || str_eq dep d ≡ true
has-with_dependency d dep none h = absurd (cc)
has-with_dependency d dep (some n) h = sym (member-append d dep n.dependencies) ∙ h

has-add_edge :
    (check dep d v : String) (g : Graph)
    → has d (lookup v (add_edge check dep g).nodes) ≡ true
    → has d (lookup v g.nodes) || (str_eq check v && str_eq dep d) ≡ true
unfolding add_edge
has-add_edge check dep d v g h =
    let depending = update_node (with_dependency dep) check g.nodes in
    let second = has-update_node (with_dependent check) dep v d depending in
    let first = has-update_node (with_dependency dep) check v d g.nodes in
    ground (
      arith,
      h,
      second,
      first,
      has-with_dependent d check (lookup dep depending),
      has-with_dependency d dep (lookup check g.nodes),
      eq_iff dep v,
      eq_iff check v,
    )

add_edge-IsLinked :
    (check dep : String) (g : Graph)
    → 0 < count dep (keys g.nodes)
    → IsLinked g
    → IsLinked (add_edge check dep g)
unfolding add_edge
add_edge-IsLinked check dep g there linked d v h =
    let edges = count-slice_at g (add_edge check dep g) dep check v d refl in
    let same : keys (add_edge check dep g).nodes ≡ keys g.nodes =
      keys-update_node _ dep _ ∙ keys-update_node _ check g.nodes in
    elim (Bool-cases (has d (lookup v g.nodes))) [
      | inl old ↦ (ground (arith, linked d v old, edges), rw same ((linked d v old).1))
      | inr new ↦
          let known = has-add_edge check dep d v g h in
          let c : check ≡ v = (eq_iff check v).0 (ground (arith, known, new)) in
          let e : dep ≡ d = (eq_iff dep d).0 (ground (arith, known, new)) in
          (
            ground (arith, edges, (eq_iff check v).1 c, (eq_iff d dep).1 (sym e)),
            rw (same, sym e) there,
          )
    ]

-- what holds of the graph that a call returns, if it does
abbrev Returns : Reply Graph → Type 0
Returns (err e) = Unit
Returns (ok g) = IsLinked g

Returns-and_then :
    (r : Reply Graph) (f : Graph → Reply Graph)
    → Returns r
    → ((g : Graph) → IsLinked g → Returns (f g))
    → Returns (and_then r f)
Returns-and_then (err e) f h k = tt
Returns-and_then (ok g) f h k = k g h

add_edges-Returns :
    (check : String) (deps : List String) (g : Graph)
    → IsLinked g
    → Returns (add_edges check deps g)
unfolding add_edges
add_edges-Returns check [] g h = h
add_edges-Returns check (dep ∷ deps) g h = elim (add_edges_step check dep deps g) [
  | inl e ↦ subst Returns (sym e) tt
  | inr (there, e) ↦
      subst Returns (sym e) (
        add_edges-Returns check deps (add_edge check dep g) (add_edge-IsLinked check dep g there h))
]

add_dependencies-Returns :
    (extract : HealthCheckSpec → List String) (cs : List HealthCheckSpec) (g : Graph)
    → IsLinked g
    → Returns (add_dependencies extract cs g)
unfolding add_dependencies
add_dependencies-Returns extract [] g h = h
add_dependencies-Returns extract (c ∷ cs) g h =
    Returns-and_then (add_edges c.name (extract c) g) (add_dependencies extract cs)
      (add_edges-Returns c.name (extract c) g h)
      (λ g' h'. add_dependencies-Returns extract cs g' h')

add_nodes-has :
    (cs : List HealthCheckSpec) (g : Graph)
    → ((d v : String) → has d (lookup v g.nodes) ≡ false)
    → (d v : String) → has d (lookup v (add_nodes cs g).nodes) ≡ false
unfolding add_nodes
add_nodes-has [] g h d v = h d v
add_nodes-has (c ∷ cs) g h d v =
    let node : Node = record {
      name = c.name;
      dependencies = [];
      dependents = [];
      in_degree = pos 0;
    } in
    add_nodes-has cs _
      (λ d v. ground (arith, h d v, eq_iff c.name v, lookup-insert c.name v node g.nodes)) d v

pub build_dependency_graph-IsLinked :
    (extract : HealthCheckSpec → List String) (checks : List HealthCheckSpec) (g : Graph)
    → build_dependency_graph extract checks ≡ ok g
    → IsLinked g
unfolding build_dependency_graph lookup
build_dependency_graph-IsLinked extract checks g e =
    let empty : Graph = record { nodes = []; edges = []; reverse_edges = [] } in
    subst Returns e (
      add_dependencies-Returns extract checks (no_edges checks)
        (λ d v h. absurd (ground (arith, h, add_nodes-has checks empty (λ d v. refl) d v))))
