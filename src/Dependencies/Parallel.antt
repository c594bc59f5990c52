-- ===== src/Dependencies/Parallel.antt =====
-- `OptimizeExecutionOrder` of internal/health/composite/dependency.go runs a check in a later phase
-- than those that it depends on.
use roost_keeper.Prelude.{
  ◌+◌, ◌<◌, ◌≡◌, ◌∙◌, ◌∷◌, ◌==◌, ℕ, String, List, zero, suc, [], refl, arith, eq_iff, length,
  member, keys,
}
use roost_keeper.Dependencies.{Graph}
use roost_keeper.Dependencies.Order.{
  count, erase, Topological, left_of, count-erase, length-left_of,
}
use roost_keeper.Dependencies.Sort.{length-keys}
use roost_keeper.Dependencies.Levels.{Phase}

Topological-count :
    (g : Graph) (v : String) (todo out : List String)
    → Topological g todo out
    → count v todo ≡ count v out + count v (left_of todo out)
Topological-count g v todo [] t = omega arith
Topological-count g v todo (x ∷ out) (there, free, t) =
    ground
      (arith, there, count-erase v x todo, Topological-count g v (erase x todo) out t, eq_iff x v)

empty_if_zero : (xs : List String) → length xs ≡ 0 → xs ≡ []
empty_if_zero [] h = refl
empty_if_zero (x ∷ xs) h = absurd (omega (arith, h))

-- an order that lists all nodes has none left
pub all_listed :
    (g : Graph) (out : List String)
    → Topological g (keys g.nodes) out
    → length out ≡ length g.nodes
    → (v : String) → count v (keys g.nodes) ≡ count v out
all_listed g out t all v =
    let rest = length-left_of g (keys g.nodes) out t in
    let none_left : left_of (keys g.nodes) out ≡ [] =
      empty_if_zero (left_of (keys g.nodes) out) (omega (arith, rest, length-keys g.nodes, all)) in
    Topological-count g v (keys g.nodes) out t ∙ rw none_left (omega arith)

-- the checks of a phase, by its number
abbrev pub checks_at : ℕ → List Phase → List String
checks_at k [] = []
checks_at zero (p ∷ ps) = p.checks
checks_at (suc k) (p ∷ ps) = checks_at k ps

-- a check stands in the phase of this number and in no other
abbrev pub IsOnlyIn : String → ℕ → List Phase → Type 0
IsOnlyIn v i phases = (k : ℕ) → member v (checks_at k phases) ≡ (k == i)

-- `d` is in one phase and `v` in a later one
abbrev pub ArePhased : List Phase → String → String → Type 0
ArePhased phases d v = (i : ℕ) × (j : ℕ) × (i < j) × IsOnlyIn d i phases × IsOnlyIn v j phases
