-- ===== src/Dependencies/Edges.antt =====
-- What one more edge does to the graph of `buildDependencyGraph` of
-- internal/health/composite/dependency.go: the counts that it keeps.
use roost_keeper.Prelude.{
  ◌+◌, ◌≤◌, ◌<◌, ◌≡◌, ◌∙◌, ◌≢◌, ◌↔◌, ◌∷◌, ◌++◌, if◌then◌else◌, ℕ, ℤ, String, List, Option, suc, pos,
  none, some, [], refl, sym, inl, inr, arith, eq_iff, ltb, str_eq, Bool-cases, Option-cases, inc,
  max_int64, inc-pos, lookup, insert, lookup-insert, keys,
}
use mathlib.Core.Option
use roost_keeper.Dependencies.{
  Node, Graph, slice_at, degree_at, degrees_of, add_edge, update_node, append_at,
}
use roost_keeper.Dependencies.Order.{count, into, count-append}
use roost_keeper.Dependencies.Sort.{IsWellFormed}

unfoldable pub degree_of : Option Node → ℤ
degree_of none = pos 0
degree_of (some n) = n.in_degree

pub degree_at-degrees_of :
    (v : String) (m : List (String × Node)) → degree_at v (degrees_of m) ≡ degree_of (lookup v m)
unfolding lookup degree_of
degree_at-degrees_of v [] = refl
degree_at-degrees_of v ((j, n) ∷ m) = ground (arith, degree_at-degrees_of v m)

keys-insert {ℓ} :
    {V : Type ℓ} (k : String) (v w : V) (m : List (String × V))
    → lookup k m ≡ some w
    → keys (insert k v m) ≡ keys m
unfolding lookup insert
keys-insert k v w [] h = cc
keys-insert k v w ((j, u) ∷ m) h = ground (arith, eq_iff j k, keys-insert k v w m)

pub count-lookup {ℓ} :
    {V : Type ℓ} (k : String) (m : List (String × V)) → (0 < count k (keys m)) ↔ (lookup k m ≢ none)
unfolding lookup
count-lookup k [] = ground arith
count-lookup k ((j, u) ∷ m) = ground (arith, count-lookup k m)

-- the keys of a map that a key is added to
pub count-keys-insert {ℓ} :
    {V : Type ℓ} (k : String) (v : V) (j : String) (m : List (String × V))
    → count j (keys (insert k v m)) ≡ (
        if str_eq k j
        then (if ltb 0 (count j (keys m)) then count j (keys m) else 1)
        else count j (keys m))
unfolding insert
count-keys-insert k v j [] = ground arith
count-keys-insert k v j ((i, u) ∷ m) =
    ground (arith, eq_iff i k, eq_iff i j, eq_iff k j, count-keys-insert k v j m)

slice_at-append_at :
    (k x j : String) (m : List (String × List String))
    → slice_at j (append_at k x m) ≡ (if str_eq k j then slice_at j m ++ (x ∷ []) else slice_at j m)
slice_at-append_at k x j m =
    ground (arith, eq_iff k j, lookup-insert k j (slice_at k m ++ (x ∷ [])) m)

pub count-slice_at :
    (g g' : Graph) (dep check v u : String)
    → g'.edges ≡ append_at dep check g.edges
    → count v (slice_at u g'.edges)
      ≡ count v (slice_at u g.edges)
        + (if str_eq u dep then (if str_eq check v then 1 else 0) else 0)
count-slice_at g g' dep check v u e =
    rw (e, slice_at-append_at dep check u g.edges)
      (elim (Bool-cases (str_eq dep u)) [
        | inl same ↦
            rw (same, (eq_iff u dep).1 (sym ((eq_iff dep u).0 same)))
              (ground (arith, count-append v (slice_at u g.edges) (check ∷ [])))
        | inr other ↦ ground (arith, eq_iff u dep, eq_iff dep u)
      ])

-- one more edge, from `dep` to `check`
into-append_at :
    (g g' : Graph) (dep check v : String) (us : List String)
    → g'.edges ≡ append_at dep check g.edges
    → into g' v us ≡ into g v us + (if str_eq check v then count dep us else 0)
unfolding into
into-append_at g g' dep check v [] e = ground arith
into-append_at g g' dep check v (u ∷ us) e =
    let same = count-slice_at g g' dep check v u e in
    let more = into-append_at g g' dep check v us e in
    rw (same, more)
      (elim (Bool-cases (str_eq check v)) [
        | inl yes_ ↦ rw yes_ (ground arith)
        | inr no_ ↦ rw no_ (ground arith)
      ])

pub keys-update_node :
    (f : Node → Node) (k : String) (m : List (String × Node)) → keys (update_node f k m) ≡ keys m
keys-update_node f k m = elim (Option-cases (lookup k m)) [
  | inl e ↦ rw (e, keys) refl
  | inr (n, e) ↦ rw (e, keys) (keys-insert k (f n) n m e)
]

lookup-update_node :
    (f : Node → Node) (k v : String) (m : List (String × Node))
    → degree_of (lookup v (update_node f k m))
      ≡ (if str_eq k v then degree_of (Option.map f (lookup k m)) else degree_of (lookup v m))
unfolding degree_of
lookup-update_node f k v m = elim (Option-cases (lookup k m)) [
  | inl e ↦ ground (arith, eq_iff k v)
  | inr (n, e) ↦ ground (arith, eq_iff k v, lookup-insert k v (f n) m)
]

-- the graph after `n` edges or fewer
pub record Counted (n : ℕ) (g : Graph) : Type 0 where
  pub well_formed : IsWellFormed g
  pub bounded : (v : String) → into g v (keys g.nodes) ≤ n

module _ (n : ℕ) (g : Graph) (check dep : String) (c : Counted n g) where
  pub keys-add_edge : keys (add_edge check dep g).nodes ≡ keys g.nodes
  unfolding add_edge
  keys-add_edge = keys-update_node _ dep _ ∙ keys-update_node _ check g.nodes

  module _ (fits : n < max_int64) (here : 0 < count check (keys g.nodes))
      (there : 0 < count dep (keys g.nodes)) where
    into-add_edge :
        (v : String)
        → into (add_edge check dep g) v (keys (add_edge check dep g).nodes)
          ≡ into g v (keys g.nodes) + (if str_eq check v then 1 else 0)
    unfolding add_edge
    into-add_edge v = rw keys-add_edge (
        into-append_at g (add_edge check dep g) dep check v (keys g.nodes) refl
        ∙ ground (arith, c.well_formed.once dep))

    degree-add_edge :
        (v : String)
        → degree_at v (degrees_of (add_edge check dep g).nodes) ≡ (
            if str_eq check v
            then inc max_int64 (degree_at check (degrees_of g.nodes))
            else degree_at v (degrees_of g.nodes))
    unfolding add_edge degree_of
    degree-add_edge v =
        let depending =
          update_node
            (λ n. record n {
              dependencies = n.dependencies ++ (dep ∷ []);
              in_degree = inc max_int64 n.in_degree;
            })
            check g.nodes in
        let second =
          lookup-update_node (λ n. record n { dependents = n.dependents ++ (check ∷ []) }) dep v
            depending in
        let first =
          lookup-update_node
            (λ n. record n {
              dependencies = n.dependencies ++ (dep ∷ []);
              in_degree = inc max_int64 n.in_degree;
            })
            check v g.nodes in
        let known = (count-lookup check g.nodes).0 here in
        degree_at-degrees_of v (add_edge check dep g).nodes
        ∙ ground (
          arith,
          second,
          first,
          known,
          eq_iff dep v,
          degree_at-degrees_of v g.nodes,
          degree_at-degrees_of check g.nodes,
        )

    pub add_edge-Counted : Counted (suc n) (add_edge check dep g)
    add_edge-Counted = record {
      well_formed = record {
        degree = λ v. ground (
          arith,
          degree-add_edge v,
          into-add_edge v,
          c.well_formed.degree v,
          c.well_formed.degree check,
          c.bounded check,
          inc-pos max_int64 (into g check (keys g.nodes)),
          eq_iff check v,
        );
        once = λ v. rw keys-add_edge (c.well_formed.once v);
        closed = λ v h.
            rw keys-add_edge
              (ground (arith, into-add_edge v, c.well_formed.closed v, eq_iff check v));
      };
      bounded = λ v. ground (arith, into-add_edge v, c.bounded v);
    }
