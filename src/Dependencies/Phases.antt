-- ===== src/Dependencies/Phases.antt =====
-- The phases of internal/health/composite/dependency.go respect the dependencies.
use roost_keeper.Prelude.{
  ◌≤◌, ◌<◌, ◌≡◌, ◌∙◌, ◌&&◌, ◌∷◌, ◌==◌, if◌then◌else◌, ℕ, String, List, Option, Bool, true, false,
  not, none, some, [], refl, sym, inl, inr, arith, eq_iff, str_eq, Bool-cases, lookup, insert,
  lookup-insert, member, Distinct, insert-Distinct, passes,
}
use roost_keeper.Dependencies.{Graph}
use roost_keeper.Dependencies.Levels.{
  dependencies_at, above, level_above, levels_from, calculate_dependency_levels, group,
}

-- no name twice
abbrev pub is_distinct : List String → Bool
is_distinct [] = true
is_distinct (x ∷ xs) = not (member x xs) && is_distinct xs

-- whether `d` comes before `v`
abbrev pub precedes : String → String → List String → Bool
precedes d v [] = false
precedes d v (x ∷ xs) = let rest = precedes d v xs in if str_eq x d then member v xs else rest

above-le : (o : Option ℕ) (most : ℕ) → most ≤ above o most
above-le none most = omega arith
above-le (some level) most = ground arith

level_above-le :
    (levels : List (String × ℕ)) (deps : List String) (most : ℕ)
    → most ≤ level_above levels deps most
level_above-le levels [] most = omega arith
level_above-le levels (dep ∷ deps) most = omega (
  arith,
  above-le (lookup dep levels) most,
  level_above-le levels deps (above (lookup dep levels) most),
)

level_above-lt :
    (levels : List (String × ℕ)) (d : String) (l : ℕ) (deps : List String) (most : ℕ)
    → lookup d levels ≡ some l
    → member d deps ≡ true
    → l < level_above levels deps most
level_above-lt levels d l [] most e h = absurd (cc)
level_above-lt levels d l (x ∷ xs) most e h = elim (Bool-cases (str_eq x d)) [
  | inl same ↦
      let here : lookup x levels ≡ some l = rw ((eq_iff x d).0 same) e in
      ground (arith, here, level_above-le levels xs (above (lookup x levels) most))
  | inr differs ↦
      level_above-lt levels d l xs (above (lookup x levels) most) e (ground (arith, h, differs))
]

levels_from-kept :
    (g : Graph) (v : String) (names : List String) (levels : List (String × ℕ))
    → member v names ≡ false
    → lookup v (levels_from g names levels) ≡ lookup v levels
levels_from-kept g v [] levels h = refl
levels_from-kept g v (x ∷ xs) levels h =
    let level = level_above levels (dependencies_at x g) 0 in
    levels_from-kept g v xs (insert x level levels) (ground (arith, h))
    ∙ ground (arith, h, lookup-insert x v level levels)

-- a check has a level above that of `d`
abbrev pub IsAbove : String → ℕ → List (String × ℕ) → Type 0
IsAbove v l levels = (m : ℕ) × (lookup v levels ≡ some m) × (l < m)

placed :
    (g : Graph) (v : String) (l level : ℕ) (xs : List String) (levels : List (String × ℕ))
    → l < level
    → member v xs ≡ false
    → IsAbove v l (levels_from g xs (insert v level levels))
placed g v l level xs levels lt gone = (
  level,
  levels_from-kept g v xs (insert v level levels) gone
      ∙ lookup-insert v v level levels
      ∙ rw ((eq_iff v v).1 refl) refl,
  lt,
)

levels_from-IsAbove :
    (g : Graph) (d v : String) (l : ℕ) (names : List String) (levels : List (String × ℕ))
    → member d (dependencies_at v g) ≡ true
    → lookup d levels ≡ some l
    → member d names ≡ false
    → member v names ≡ true
    → is_distinct names ≡ true
    → IsAbove v l (levels_from g names levels)
levels_from-IsAbove g d v l [] levels dep e out there distinct = absurd (cc)
levels_from-IsAbove g d v l (x ∷ xs) levels dep e out there distinct =
    let level = level_above levels (dependencies_at x g) 0 in
    elim (Bool-cases (str_eq x v)) [
      | inl same ↦
          let eq : x ≡ v = (eq_iff x v).0 same in
          let gone : member v xs ≡ false = rw (sym eq) (ground (arith, distinct)) in
          rw eq (
            placed g v l (level_above levels (dependencies_at v g) 0) xs levels
              (level_above-lt levels d l (dependencies_at v g) 0 e dep) gone)
      | inr differs ↦
          levels_from-IsAbove g d v l xs (insert x level levels) dep
            (ground (arith, lookup-insert x d level levels, out) ∙ e) (ground (arith, out))
            (ground (arith, there, differs)) (ground (arith, distinct))
    ]

-- the two checks have levels, that of the dependency below
abbrev pub AreOrdered : String → String → List (String × ℕ) → Type 0
AreOrdered d v levels = (l : ℕ) × (lookup d levels ≡ some l) × IsAbove v l levels

levels_from-AreOrdered :
    (g : Graph) (d v : String) (names : List String) (levels : List (String × ℕ))
    → member d (dependencies_at v g) ≡ true
    → is_distinct names ≡ true
    → precedes d v names ≡ true
    → AreOrdered d v (levels_from g names levels)
levels_from-AreOrdered g d v [] levels dep distinct before = absurd (cc)
levels_from-AreOrdered g d v (x ∷ xs) levels dep distinct before =
    let level = level_above levels (dependencies_at x g) 0 in
    elim (Bool-cases (str_eq x d)) [
      | inl same ↦
          let eq : x ≡ d = (eq_iff x d).0 same in
          let gone : member d xs ≡ false = rw (sym eq) (ground (arith, distinct)) in
          let first : lookup d (insert x level levels) ≡ some level =
            ground (arith, lookup-insert x d level levels, same) in
          (
            level,
            levels_from-kept g d xs (insert x level levels) gone ∙ first,
            levels_from-IsAbove g d v level xs (insert x level levels) dep first gone
                (ground (arith, before, same)) (ground (arith, distinct)),
          )
      | inr differs ↦
          levels_from-AreOrdered g d v xs (insert x level levels) dep (ground (arith, distinct))
            (ground (arith, before, differs))
    ]

levels_from-Distinct :
    (g : Graph) (names : List String) (levels : List (String × ℕ))
    → Distinct levels
    → Distinct (levels_from g names levels)
levels_from-Distinct g [] levels h = h
levels_from-Distinct g (x ∷ xs) levels h =
    let level = level_above levels (dependencies_at x g) 0 in
    levels_from-Distinct g xs (insert x level levels) (insert-Distinct x level levels h)

group-absent :
    (level : ℕ) (v : String) (levels : List (String × ℕ))
    → lookup v levels ≡ none
    → member v (group level levels) ≡ false
unfolding lookup
group-absent level v [] h = refl
group-absent level v ((i, l) ∷ levels) h = ground (arith, group-absent level v levels, h)

-- the group of a level has the names with that level
pub group-lookup :
    (level : ℕ) (v : String) (levels : List (String × ℕ))
    → Distinct levels
    → member v (group level levels) ≡ passes (λ l. l == level) (lookup v levels)
unfolding lookup
group-lookup level v [] h = refl
group-lookup level v ((i, l) ∷ levels) h =
    ground (arith, h, eq_iff i v, group-lookup level v levels, group-absent level v levels)

-- A check that depends on one which comes before it in an order without repetitions is put on a
-- higher level than that one, and no check has two levels.
pub calculate_dependency_levels-AreOrdered :
    (g : Graph) (d v : String) (order : List String)
    → member d (dependencies_at v g) ≡ true
    → is_distinct order ≡ true
    → precedes d v order ≡ true
    → AreOrdered d v (calculate_dependency_levels g order)
      × Distinct (calculate_dependency_levels g order)
unfolding calculate_dependency_levels
calculate_dependency_levels-AreOrdered g d v order dep distinct before =
    (levels_from-AreOrdered g d v order [] dep distinct before, levels_from-Distinct g order [] tt)
