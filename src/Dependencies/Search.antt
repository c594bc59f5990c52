-- ===== src/Dependencies/Search.antt =====
-- The depth-first search of `detectCycles` in internal/health/composite/dependency.go ends by
-- itself: its fuel is enough.
use roost_keeper.Prelude.{
  ◌+◌, ◌≤◌, ◌<◌, ◌≡◌, ◌∙◌, ◌∷◌, if◌then◌else◌, ℕ, String, List, Bool, zero, suc, true, false, [],
  refl, ap, inl, inr, arith, eq_iff, Bool-cases, length, All, member, keys,
}
use roost_keeper.Dependencies.{
  unmark, Node, Graph, Marks, slice_at, any_cycle, has_cycle_dfs, detect_from, detect_cycles,
}
use roost_keeper.Dependencies.Order.{count, into}
use roost_keeper.Dependencies.Sort.{length-keys, IsWellFormed}

-- how many names of a list are not visited
abbrev unvisited : List String → List String → ℕ
unvisited [] visited = 0
unvisited (k ∷ ks) visited = (if member k visited then 0 else 1) + unvisited ks visited

unvisited_le :
    (k : String) (ks visited : List String) → unvisited ks (k ∷ visited) ≤ unvisited ks visited
unvisited_le k [] visited = omega arith
unvisited_le k (j ∷ ks) visited = ground (arith, unvisited_le k ks visited)

-- a name that is visited for the first time
unvisited_lt :
    (k : String) (ks visited : List String)
    → 0 < count k ks
    → member k visited ≡ false
    → unvisited ks (k ∷ visited) < unvisited ks visited
unvisited_lt k [] visited h new = absurd (omega arith)
unvisited_lt k (j ∷ ks) visited h new =
    ground (arith, eq_iff j k, eq_iff k j, unvisited_le k ks visited, unvisited_lt k ks visited)

-- a search does not forget what it has visited
abbrev Grows : List String → (String → Marks → Bool × Marks) → Type 0
Grows ks dfs = (d : String) (m : Marks) → unvisited ks (dfs d m).1.visited ≤ unvisited ks m.visited

any_cycle-Grows :
    (ks : List String) (dfs : String → Marks → Bool × Marks) (ds : List String) (m : Marks)
    → Grows ks dfs
    → unvisited ks (any_cycle dfs ds m).1.visited ≤ unvisited ks m.visited
unfolding any_cycle
any_cycle-Grows ks dfs [] m g = omega arith
any_cycle-Grows ks dfs (d ∷ ds) m g =
    ground (arith, g d m, any_cycle-Grows ks dfs ds m g, any_cycle-Grows ks dfs ds (dfs d m).1 g)

has_cycle_dfs-Grows : (ks : List String) (fuel : ℕ) (g : Graph) → Grows ks (has_cycle_dfs fuel g)
unfolding has_cycle_dfs
has_cycle_dfs-Grows ks zero g node m = omega arith
has_cycle_dfs-Grows ks (suc fuel) g node m =
    let m₁ : Marks = record { visited = node ∷ m.visited; stack = node ∷ m.stack } in
    ground (
      arith,
      unvisited_le node ks m.visited,
      any_cycle-Grows ks (has_cycle_dfs fuel g) (slice_at node g.edges) m₁
          (has_cycle_dfs-Grows ks fuel g),
    )

-- two searches agree where few enough names are not visited
abbrev Agree :
    List String → ℕ → (String → Marks → Bool × Marks) → (String → Marks → Bool × Marks) → Type 0
Agree ks n dfs dfs' =
    (d : String) (m : Marks)
    → unvisited ks m.visited < n
    → member d m.visited ≡ false
    → 0 < count d ks
    → dfs d m ≡ dfs' d m

any_cycle-Agree :
    (ks : List String) (n : ℕ) (dfs dfs' : String → Marks → Bool × Marks) (ds : List String)
    (m : Marks)
    → Grows ks dfs
    → Agree ks n dfs dfs'
    → unvisited ks m.visited < n
    → All (λ d. 0 < count d ks) ds
    → any_cycle dfs ds m ≡ any_cycle dfs' ds m
unfolding any_cycle
any_cycle-Agree ks n dfs dfs' [] m g a few here = refl
any_cycle-Agree ks n dfs dfs' (d ∷ ds) m g a few (h, here) =
    elim (Bool-cases (member d m.visited)) [
      | inl seen ↦ ground (arith, any_cycle-Agree ks n dfs dfs' ds m g a few here)
      | inr new ↦
          let same = a d m few new h in
          let next = any_cycle-Agree ks n dfs dfs' ds (dfs d m).1 g a (omega (arith, g d m)) here in
          ground (arith, same, next)
    ]

counted_here :
    (ds ks : List String)
    → ((d : String) → 0 < count d ds → 0 < count d ks)
    → All (λ d. 0 < count d ks) ds
counted_here [] ks h = tt
counted_here (d ∷ ds) ks h =
    (h d (ground (arith, eq_iff d d)), counted_here ds ks (λ x c. h x (omega arith)))

count-into :
    (g : Graph) (v u : String) (us : List String)
    → 0 < count u us
    → count v (slice_at u g.edges) ≤ into g v us
unfolding into
count-into g v u [] h = absurd (omega arith)
count-into g v u (w ∷ us) h = ground (arith, eq_iff w u, count-into g v u us)

-- the edges of a node go to nodes
edges_here :
    (g : Graph) (node : String)
    → IsWellFormed g
    → 0 < count node (keys g.nodes)
    → All (λ d. 0 < count d (keys g.nodes)) (slice_at node g.edges)
edges_here g node wf h =
    counted_here (slice_at node g.edges) (keys g.nodes)
      (λ d c. wf.closed d (omega (arith, count-into g d node (keys g.nodes) h)))

one_more :
    (fuel : ℕ) (g : Graph)
    → IsWellFormed g
    → Agree (keys g.nodes) fuel (has_cycle_dfs fuel g) (has_cycle_dfs (suc fuel) g)
unfolding has_cycle_dfs
one_more zero g wf node m few new here = absurd (omega arith)
one_more (suc fuel) g wf node m few new here =
    let ks = keys g.nodes in
    let m₁ : Marks = record { visited = node ∷ m.visited; stack = node ∷ m.stack } in
    let same =
      any_cycle-Agree ks fuel (has_cycle_dfs fuel g) (has_cycle_dfs (suc fuel) g)
        (slice_at node g.edges) m₁ (has_cycle_dfs-Grows ks fuel g) (one_more fuel g wf)
        (omega (arith, unvisited_lt node ks m.visited here new)) (edges_here g node wf here) in
    ap
      (λ (r : Bool × Marks).
        if r.0 then (true, r.1) else (false, record (r.1) { stack = unmark node r.1.stack }))
      same

more :
    (extra fuel : ℕ) (g : Graph)
    → IsWellFormed g
    → Agree (keys g.nodes) fuel (has_cycle_dfs fuel g) (has_cycle_dfs (extra + fuel) g)
more zero fuel g wf node m few new here = ap (λ k. has_cycle_dfs k g node m) (omega arith)
more (suc extra) fuel g wf node m few new here =
    more extra fuel g wf node m few new here
    ∙ one_more (extra + fuel) g wf node m (omega arith) new here
    ∙ ap (λ k. has_cycle_dfs k g node m) (omega arith)

unvisited-length : (ks visited : List String) → unvisited ks visited ≤ length ks
unvisited-length [] visited = omega arith
unvisited-length (k ∷ ks) visited = ground (arith, unvisited-length ks visited)

detect_from_more :
    (extra fuel : ℕ) (g : Graph) (nodes : List (String × Node)) (m : Marks)
    → IsWellFormed g
    → length (keys g.nodes) < fuel
    → All (λ d. 0 < count d (keys g.nodes)) (keys nodes)
    → detect_from (extra + fuel) g nodes m ≡ detect_from fuel g nodes m
unfolding detect_from
detect_from_more extra fuel g [] m wf few here = refl
detect_from_more extra fuel g ((name, node) ∷ rest) m wf few (h, here) =
    elim (Bool-cases (member name m.visited)) [
      | inl seen ↦ ground (arith, detect_from_more extra fuel g rest m wf few here)
      | inr new ↦
          let same =
            more extra fuel g wf name m (omega (arith, unvisited-length (keys g.nodes) m.visited))
              new h in
          let next =
            detect_from_more extra fuel g rest (has_cycle_dfs fuel g name m).1 wf few here in
          ground (arith, same, next)
    ]

-- On a well-formed graph the fuel of `detectCycles` is enough: with any amount more the search gives
-- the same answer.
pub detect_cycles-detect_from :
    (extra : ℕ) (g : Graph)
    → IsWellFormed g
    → detect_from (extra + (length g.nodes + 1)) g g.nodes (record { visited = []; stack = [] })
      ≡ detect_cycles g
unfolding detect_cycles
detect_cycles-detect_from extra g wf =
    detect_from_more extra (length g.nodes + 1) g g.nodes _ wf (omega (arith, length-keys g.nodes))
      (counted_here (keys g.nodes) (keys g.nodes) (λ d c. c))
