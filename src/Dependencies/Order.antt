-- ===== src/Dependencies/Order.antt =====
-- What a topological order of a dependency graph is, and how the edges into a node are counted
-- (internal/health/composite/dependency.go).
use roost_keeper.Prelude.{
  ◌+◌, ◌<◌, ◌≡◌, ◌∷◌, ◌++◌, if◌then◌else◌, ℕ, String, List, [], inl, inr, arith, eq_iff, ltb,
  str_eq, Bool-cases, length,
}
use roost_keeper.Dependencies.{Graph, slice_at}

-- how often a name stands in a list
abbrev pub count : String → List String → ℕ
count v [] = 0
count v (x ∷ xs) = (if str_eq x v then 1 else 0) + count v xs

-- a list without one occurrence of a name
unfoldable pub erase : String → List String → List String
erase v [] = []
erase v (x ∷ xs) = let rest = erase v xs in if str_eq x v then xs else x ∷ rest

-- the number of edges into `v` from the nodes of a list
unfoldable pub into : Graph → String → List String → ℕ
into g v [] = 0
into g v (u ∷ us) = count v (slice_at u g.edges) + into g v us

-- `out` lists nodes of `todo`, each once, and none while an edge into it comes from a node of
-- `todo` that is not listed before it
abbrev pub Topological : Graph → List String → List String → Type 0
Topological g todo [] = Unit
Topological g todo (v ∷ out) =
    (0 < count v todo) × (into g v todo ≡ 0) × Topological g (erase v todo) out

-- what is left of `todo`
abbrev pub left_of : List String → List String → List String
left_of todo [] = todo
left_of todo (v ∷ out) = left_of (erase v todo) out

pub count-erase :
    (v x : String) (xs : List String)
    → count v (erase x xs) + (if str_eq x v then (if ltb 0 (count x xs) then 1 else 0) else 0)
      ≡ count v xs
unfolding erase
count-erase v x [] = ground arith
count-erase v x (y ∷ ys) = ground (arith, eq_iff x v, eq_iff y v, eq_iff y x, count-erase v x ys)

pub into-erase :
    (g : Graph) (v x : String) (xs : List String)
    → 0 < count x xs
    → into g v xs ≡ count v (slice_at x g.edges) + into g v (erase x xs)
unfolding into erase
into-erase g v x [] h = elim h [ ]
into-erase g v x (y ∷ ys) h = elim (Bool-cases (str_eq y x)) [
  | inl e ↦ rw (e, (eq_iff y x).0 e)
  | inr e ↦ ground (arith, into-erase g v x ys)
]

pub length-erase :
    (x : String) (xs : List String) → 0 < count x xs → length xs ≡ length (erase x xs) + 1
unfolding erase
length-erase x [] h = elim h [ ]
length-erase x (y ∷ ys) h = ground (arith, length-erase x ys)

pub count-append : (v : String) (xs ys : List String) → count v (xs ++ ys) ≡ count v xs + count v ys
count-append v [] ys = omega arith
count-append v (x ∷ xs) ys = omega (arith, count-append v xs ys)

-- a topological order takes its nodes away from those to do
pub length-left_of :
    (g : Graph) (todo out : List String)
    → Topological g todo out
    → length todo ≡ length out + length (left_of todo out)
length-left_of g todo [] t = omega arith
length-left_of g todo (v ∷ out) t =
    omega (arith, length-erase v todo t.0, length-left_of g (erase v todo) out t.2)
