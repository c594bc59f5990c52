-- ===== src/Dependencies/Nodes.antt =====
-- The nodes of the graph of `buildDependencyGraph` in internal/health/composite/dependency.go,
-- before it has edges.
use roost_keeper.Prelude.{
  ◌≤◌, ◌<◌, ◌≡◌, ◌∙◌, ◌∷◌, String, List, pos, [], refl, sym, ap, arith, eq_iff, All, lookup,
  lookup-insert, keys,
}
use roost_keeper.Roost.{HealthCheckSpec}
use roost_keeper.Dependencies.{Node, Graph, slice_at, add_nodes}
use roost_keeper.Dependencies.Order.{count, into}
use roost_keeper.Dependencies.Edges.{degree_of, degree_at-degrees_of, count-keys-insert, Counted}

-- a graph without edges
pub record Fresh (g : Graph) : Type 0 where
  pub edges : (u : String) → slice_at u g.edges ≡ []
  pub degree : (v : String) → degree_of (lookup v g.nodes) ≡ pos 0
  pub once : (v : String) → count v (keys g.nodes) ≤ 1

pub add_nodes-Fresh : (cs : List HealthCheckSpec) (g : Graph) → Fresh g → Fresh (add_nodes cs g)
unfolding add_nodes degree_of
add_nodes-Fresh [] g f = f
add_nodes-Fresh (c ∷ cs) g f =
    let node : Node = record {
      name = c.name;
      dependencies = [];
      dependents = [];
      in_degree = pos 0;
    } in
    add_nodes-Fresh cs _ (record {
      edges = λ u. ground (arith, f.edges u, eq_iff c.name u, lookup-insert c.name u [] g.edges);
      degree =
          λ v. ground (arith, f.degree v, eq_iff c.name v, lookup-insert c.name v node g.nodes);
      once = λ v. ground (arith, f.once v, count-keys-insert c.name node v g.nodes);
    })

add_nodes-kept :
    (cs : List HealthCheckSpec) (g : Graph) (v : String)
    → 0 < count v (keys g.nodes)
    → 0 < count v (keys (add_nodes cs g).nodes)
unfolding add_nodes
add_nodes-kept [] g v h = h
add_nodes-kept (c ∷ cs) g v h =
    let node : Node = record {
      name = c.name;
      dependencies = [];
      dependents = [];
      in_degree = pos 0;
    } in
    add_nodes-kept cs _ v (ground (arith, count-keys-insert c.name node v g.nodes))

pub add_nodes-there :
    (cs : List HealthCheckSpec) (g : Graph)
    → All (λ c. 0 < count c.name (keys (add_nodes cs g).nodes)) cs
unfolding add_nodes
add_nodes-there [] g = tt
add_nodes-there (c ∷ cs) g =
    let node : Node = record {
      name = c.name;
      dependencies = [];
      dependents = [];
      in_degree = pos 0;
    } in
    (
      add_nodes-kept cs _ c.name
          (ground (arith, eq_iff c.name c.name, count-keys-insert c.name node c.name g.nodes)),
      add_nodes-there cs _,
    )

pub into-Fresh : (g : Graph) → Fresh g → (v : String) (us : List String) → into g v us ≡ 0
unfolding into
into-Fresh g f v [] = refl
into-Fresh g f v (u ∷ us) = ground (arith, f.edges u, into-Fresh g f v us)

pub Fresh-Counted : (g : Graph) → Fresh g → Counted 0 g
Fresh-Counted g f = record {
  well_formed = record {
    degree = λ v.
        degree_at-degrees_of v g.nodes
        ∙ f.degree v
        ∙ ap pos (sym (into-Fresh g f v (keys g.nodes)));
    once = f.once;
    closed = λ v h. absurd (omega (arith, into-Fresh g f v (keys g.nodes)));
  };
  bounded = λ v. omega (arith, into-Fresh g f v (keys g.nodes));
}
