-- ===== src/Dependencies/Sort.antt =====
-- Kahn's algorithm in `topologicalSort` of internal/health/composite/dependency.go gives a
-- topological order, and stops short of it only at a cycle.
use roost_keeper.Prelude.{
  ◌+◌, ◌≤◌, ◌<◌, ◌≡◌, ◌∙◌, ◌⊎◌, ◌∷◌, ◌++◌, ◌==◌, if◌then◌else◌, ℕ, ℤ, String, List, zero, suc, pos,
  [], refl, ap, inl, inr, arith, eq_iff, ltb, str_eq, Bool-cases, length, lookup, insert,
  lookup-insert, keys_where, keys,
}
use roost_keeper.Roost.{ok, err}
use mathlib.Core.List.{append-nil, append_assoc}
use roost_keeper.Dependencies.{
  Node, topological_sort, Node, Graph, slice_at, dec, degree_at, is_zero, release_all, sort_loop,
  degrees_of, topological_sort,
}
use roost_keeper.Dependencies.Order.{
  count, erase, into, Topological, left_of, count-erase, into-erase, length-erase, count-append,
  length-left_of,
}
use roost_keeper.Roost.{ok, err, text}

-- the degrees count the edges from the nodes to do, the queue holds those without any, and every
-- edge from a node to do goes to a node to do
record Inv (g : Graph) (todo : List String) (degrees : List (String × ℤ)) (queue : List String)
    : Type 0 where
  degree : (v : String) → degree_at v degrees ≡ pos (into g v todo)
  once : (v : String) → count v todo ≤ 1
  queued : (v : String) → count v queue ≡ (if ltb 0 (into g v todo) then 0 else count v todo)
  closed : (v : String) → 0 < into g v todo → 0 < count v todo

degree_at-insert :
    (k v : String) (d : ℤ) (m : List (String × ℤ))
    → degree_at v (insert k d m) ≡ (if str_eq k v then d else degree_at v m)
degree_at-insert k v d m = ground (arith, lookup-insert k v d m)

released :
    (f : String → ℕ) (d : String) (ds : List String) (degrees : List (String × ℤ))
    → ((v : String) → degree_at v degrees ≡ pos (count v (d ∷ ds) + f v))
    → (w : String)
    → degree_at w (insert d (dec (degree_at d degrees)) degrees) ≡ pos (count w ds + f w)
unfolding dec
released f d ds degrees h w = ground (
  arith,
  eq_iff d w,
  eq_iff d d,
  h d,
  h w,
  degree_at-insert d w (dec (degree_at d degrees)) degrees,
)

dec_degree :
    (f : String → ℕ) (d : String) (ds : List String) (degrees : List (String × ℤ))
    → degree_at d degrees ≡ pos (count d (d ∷ ds) + f d)
    → dec (degree_at d degrees) ≡ pos (count d ds + f d)
unfolding dec
dec_degree f d ds degrees h = ground (arith, eq_iff d d)

-- the loop over the dependents takes each occurrence off the degrees, and queues a node whose
-- degree comes down to 0
release_all_lem :
    (f : String → ℕ) (ds : List String) (degrees : List (String × ℤ)) (queue : List String)
    → ((v : String) → degree_at v degrees ≡ pos (count v ds + f v))
    → (v : String)
    → (degree_at v (release_all ds degrees queue).0 ≡ pos (f v))
      × (count v (release_all ds degrees queue).1
          ≡ count v queue + (if ltb 0 (f v) then 0 else if ltb 0 (count v ds) then 1 else 0))
unfolding release_all
release_all_lem f [] degrees queue h v = ground (arith, h v)
release_all_lem f (d ∷ ds) degrees queue h v =
    let now = dec (degree_at d degrees) in
    let degrees' = insert d now degrees in
    let queue' = if is_zero now then queue ++ (d ∷ []) else queue in
    let h' : (w : String) → degree_at w degrees' ≡ pos (count w ds + f w) =
      released f d ds degrees h in
    let (a, b) = release_all_lem f ds degrees' queue' h' v in
    (
      a,
      b
          ∙ ground
              (arith, dec_degree f d ds degrees (h d), eq_iff d v, count-append v queue (d ∷ [])),
    )

-- one round of the loop keeps the invariant, for the nodes without the one that is taken
module _ (g : Graph) (todo : List String) (degrees : List (String × ℤ)) (current : String)
    (queue : List String) (inv : Inv g todo degrees (current ∷ queue)) where
  -- the node that is taken is to do, and no edge into it is left
  taken : (0 < count current todo) × (into g current todo ≡ 0)
  taken = ground (arith, inv.queued current, eq_iff current current)

  split :
      (v : String)
      → into g v todo ≡ count v (slice_at current g.edges) + into g v (erase current todo)
  split v = into-erase g v current todo taken.0

  round :
      (v : String)
      → (degree_at v (release_all (slice_at current g.edges) degrees queue).0
          ≡ pos (into g v (erase current todo)))
        × (count v (release_all (slice_at current g.edges) degrees queue).1
            ≡ count v queue
              + (if ltb 0 (into g v (erase current todo))
                  then 0
                  else if ltb 0 (count v (slice_at current g.edges))
                  then 1
                  else 0))
  round =
      release_all_lem (λ w. into g w (erase current todo)) (slice_at current g.edges) degrees queue
        (λ w. inv.degree w ∙ ap pos (split w))

  keep :
      Inv g
        (erase current todo)
        (release_all (slice_at current g.edges) degrees queue).0
        (release_all (slice_at current g.edges) degrees queue).1
  keep = record {
    degree = λ v. (round v).0;
    once = λ v. omega (arith, inv.once v, count-erase v current todo);
    queued = λ v. ground (
      arith,
      (round v).1,
      inv.queued v,
      split v,
      taken.0,
      taken.1,
      count-erase v current todo,
      eq_iff current v,
      inv.once v,
      inv.closed v,
    );
    closed = λ v h.
        ground
          (arith, inv.closed v, split v, taken.1, count-erase v current todo, eq_iff current v);
  }

-- With fuel for one round more than there are nodes to do, the loop lists some of them in a
-- topological order, and then every node that is left has an edge into it from a node that is left.
sort_loop_lem :
    (fuel : ℕ) (g : Graph) (todo : List String) (degrees : List (String × ℤ))
    (queue result : List String)
    → Inv g todo degrees queue
    → length todo < fuel
    → (out : List String) × (sort_loop fuel g degrees queue result ≡ result ++ out)
      × Topological g todo out
      × ((v : String) → 0 < count v (left_of todo out) → 0 < into g v (left_of todo out))
unfolding sort_loop
sort_loop_lem zero g todo degrees queue result inv h = absurd (omega arith)
sort_loop_lem (suc fuel) g todo degrees [] result inv h =
    ([], rw append-nil, tt, λ v c. ground (arith, inv.queued v))
sort_loop_lem (suc fuel) g todo degrees (current ∷ queue) result inv h =
    let (before, free) = taken g todo degrees current queue inv in
    let (degrees', queue') = release_all (slice_at current g.edges) degrees queue in
    let (out, e, sorted, rest) =
      sort_loop_lem fuel g (erase current todo) degrees' queue' (result ++ (current ∷ []))
        (keep g todo degrees current queue inv) (omega (arith, length-erase current todo before)) in
    (current ∷ out, e ∙ append_assoc result (current ∷ []) out, (before, free, sorted), rest)

-- the graph's in-degrees count its edges, each of which goes to a node
pub record IsWellFormed (g : Graph) : Type 0 where
  pub degree : (v : String) → degree_at v (degrees_of g.nodes) ≡ pos (into g v (keys g.nodes))
  pub once : (v : String) → count v (keys g.nodes) ≤ 1
  pub closed : (v : String) → 0 < into g v (keys g.nodes) → 0 < count v (keys g.nodes)

keys-degrees_of : (m : List (String × Node)) → keys (degrees_of m) ≡ keys m
keys-degrees_of [] = refl
keys-degrees_of ((name, node) ∷ m) = ap (◌∷◌ name) (keys-degrees_of m)

count-keys_where_le :
    (v : String) (m : List (String × ℤ)) → count v (keys_where is_zero m) ≤ count v (keys m)
unfolding keys_where
count-keys_where_le v [] = omega arith
count-keys_where_le v ((j, d) ∷ m) = ground (arith, count-keys_where_le v m)

-- the queue at the start holds the nodes of degree 0
count-keys_where :
    (v : String) (m : List (String × ℤ))
    → count v (keys m) ≤ 1
    → count v (keys_where is_zero m) ≡ (if is_zero (degree_at v m) then count v (keys m) else 0)
unfolding keys_where lookup
count-keys_where v [] h = refl
count-keys_where v ((j, d) ∷ m) h =
    ground (arith, count-keys_where v m, count-keys_where_le v m, eq_iff j v)

start-Inv :
    (g : Graph)
    → IsWellFormed g
    → Inv g (keys g.nodes) (degrees_of g.nodes) (keys_where is_zero (degrees_of g.nodes))
start-Inv g wf = record {
  degree = wf.degree;
  once = wf.once;
  queued = λ v. ground (
    arith,
    count-keys_where v (degrees_of g.nodes),
    keys-degrees_of g.nodes,
    wf.degree v,
    wf.once v,
  );
  closed = wf.closed;
}

pub length-keys : (m : List (String × Node)) → length (keys m) ≡ length m
length-keys [] = refl
length-keys (e ∷ m) = ap suc (length-keys m)

-- some nodes of a graph, each of which has an edge into it from one of them: a cycle among them
pub record Stuck (g : Graph) (rest : List String) : Type 0 where
  pub some_left : 0 < length rest
  pub entered : (v : String) → 0 < count v rest → 0 < into g v rest

-- `topologicalSort` of a well-formed graph lists nodes in a topological order. It either lists all
-- of them, and returns the list, or it returns an error, and then some nodes are left, each of
-- which has an edge into it from one that is left: they hold a cycle.
pub topological_sort_lem :
    (g : Graph)
    → IsWellFormed g
    → (out : List String) × Topological g (keys g.nodes) out
      × (((topological_sort g ≡ ok out) × (length out ≡ length g.nodes))
          ⊎ ((topological_sort g
                ≡ err (text "graph contains cycles, cannot perform topological sort"))
              × Stuck g (left_of (keys g.nodes) out)))
unfolding topological_sort
topological_sort_lem g wf =
    let (out, e, sorted, rest) =
      sort_loop_lem (length g.nodes + 1) g (keys g.nodes) (degrees_of g.nodes)
        (keys_where is_zero (degrees_of g.nodes)) [] (start-Inv g wf)
        (omega (arith, length-keys g.nodes)) in
    (
      out,
      sorted,
      elim (Bool-cases (length out == length g.nodes)) [
        | inl all ↦ inl (rw (e, all) refl, ground arith)
        | inr few ↦ inr (
          rw (e, few) refl,
          record {
            some_left =
                ground (arith, length-left_of g (keys g.nodes) out sorted, length-keys g.nodes);
            entered = rest;
          },
        )
      ],
    )
