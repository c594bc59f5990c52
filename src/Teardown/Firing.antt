-- ===== src/Teardown/Firing.antt =====
-- Which triggers of a policy ask for a teardown, and what the loop of `EvaluateTeardownPolicy` of
-- internal/teardown/manager.go collects.
use roost_keeper.Prelude.{
  ◌≡◌, ◌∙◌, ◌≢◌, ◌↔◌, ◌||◌, ◌∷◌, ℕ, String, List, Option, Bool, true, false, none, some, [], refl,
  sym, ap, inl, inr, arith, eq_iff, str_eq, Bool-cases, lookup, member,
}
use mathlib.Core.List.{Permᴰ}
use roost_keeper.Roost.{Trigger, DataPreservation, Reply, ok, err, Roost}
use roost_keeper.Teardown.{Decision, Evaluator, known, trigger_types, collect, kept}

-- an evaluator answers with a decision, and it is for a teardown
abbrev pub says_so : Reply (Option Decision) → Bool
says_so (err m) = false
says_so (ok none) = false
says_so (ok (some d)) = d.should_teardown

-- the evaluator that is registered for a type of triggers, if there is one, says so
abbrev pub type_fires : ℕ → Roost → List (String × Evaluator) → String → Bool
type_fires now r registry type_ = elim (lookup type_ registry) [
  | none ↦ false
  | some e ↦ says_so (e.should_teardown_of now r)
]

-- the evaluator of one of the triggers says so
abbrev pub any_fires : ℕ → Roost → List (String × Evaluator) → List Trigger → Bool
any_fires now r registry [] = false
any_fires now r registry (t ∷ ts) = type_fires now r registry t.type_ || any_fires now r registry ts

-- the policy preserves the data
abbrev pub is_preserved : Option DataPreservation → Bool
is_preserved none = false
is_preserved (some p) = p.enabled

abbrev pub any_says : ℕ → Roost → List Evaluator → Bool
any_says now r [] = false
any_says now r (e ∷ es) = says_so (e.should_teardown_of now r) || any_says now r es

abbrev pub any_type : ℕ → Roost → List (String × Evaluator) → List String → Bool
any_type now r registry [] = false
any_type now r registry (t ∷ ts) = type_fires now r registry t || any_type now r registry ts

pub any_says-Permᴰ :
    (now : ℕ) (r : Roost) {es es' : List Evaluator}
    → Permᴰ es es'
    → any_says now r es ≡ any_says now r es'
any_says-Permᴰ now r Permᴰ.nil = refl
any_says-Permᴰ now r (Permᴰ.cons {a} {b} e d) =
    let same = any_says-Permᴰ now r d in
    rw (ap (λ x. says_so (x.should_teardown_of now r)) e, same) refl
any_says-Permᴰ now r (Permᴰ.swap {a} {b} {a'} {b'} {l} e e') =
    rw
      (
        ap (λ x. says_so (x.should_teardown_of now r)) e,
        ap (λ x. says_so (x.should_teardown_of now r)) e',
      )
      (or_swap (says_so (b'.should_teardown_of now r)) (says_so (a'.should_teardown_of now r))
        (any_says now r l))
  where
    or_swap : (x y z : Bool) → x || (y || z) ≡ y || (x || z)
    or_swap x y z = ground arith
any_says-Permᴰ now r (Permᴰ.trans d d') = any_says-Permᴰ now r d ∙ any_says-Permᴰ now r d'

kept-says_so :
    (reply : Reply (Option Decision)) (ds : List Decision) (b : Bool)
    → (ds ≢ []) ↔ (b ≡ true)
    → (kept reply ds ≢ []) ↔ (says_so reply || b ≡ true)
kept-says_so (err m) ds b h = h
kept-says_so (ok none) ds b h = h
kept-says_so (ok (some d)) ds b h = elim (Bool-cases d.should_teardown) [
  | inl says ↦ rw says (λ x. refl, λ x e. absurd (ground arith))
  | inr says_not ↦ rw says_not h
]

pub collect-any_says :
    (now : ℕ) (r : Roost) (es : List Evaluator)
    → (collect now r es ≢ []) ↔ (any_says now r es ≡ true)
unfolding collect
collect-any_says now r [] = (λ x. absurd (x refl), λ x. absurd (ground arith))
collect-any_says now r (e ∷ es) =
    kept-says_so (e.should_teardown_of now r) (collect now r es) (any_says now r es)
      (collect-any_says now r es)

pub known-any_type :
    (now : ℕ) (r : Roost) (registry : List (String × Evaluator)) (types : List String)
    → any_says now r (known registry types) ≡ any_type now r registry types
known-any_type now r registry [] = refl
known-any_type now r registry (t ∷ ts) = go (known-any_type now r registry ts) (lookup t registry)
  where
    go :
        (any_says now r (known registry ts) ≡ any_type now r registry ts)
        → (o : Option Evaluator)
        → any_says now r (elim o [ none ↦ known registry ts | some e ↦ e ∷ known registry ts ])
          ≡ elim o [ none ↦ false | some e ↦ says_so (e.should_teardown_of now r) ]
            || any_type now r registry ts
    go same none = same
    go same (some e) = ap (λ b. says_so (e.should_teardown_of now r) || b) same

-- a type that is there twice counts as one
member-any_type :
    (now : ℕ) (r : Roost) (registry : List (String × Evaluator)) (t : String) (types : List String)
    → member t types ≡ true
    → type_fires now r registry t || any_type now r registry types ≡ any_type now r registry types
member-any_type now r registry t [] h = absurd (ground arith)
member-any_type now r registry t (k ∷ ks) h = elim (Bool-cases (str_eq t k)) [
  | inl same ↦
      rw ((eq_iff t k).0 same) (twice (type_fires now r registry k) (any_type now r registry ks))
  | inr differs ↦
      later (type_fires now r registry t) (type_fires now r registry k) (any_type now r registry ks)
        (member-any_type now r registry t ks (member_later t k ks differs h))
]
  where
    member_later :
        (t k : String) (ks : List String)
        → str_eq t k ≡ false
        → member t (k ∷ ks) ≡ true
        → member t ks ≡ true
    member_later t k ks e m = ground (arith, e, m, eq_iff t k, eq_iff k t)

    twice : (x y : Bool) → x || (x || y) ≡ x || y
    twice x y = ground arith

    later : (x y z : Bool) → x || z ≡ z → x || (y || z) ≡ y || z
    later x y z e = ground (arith, e)

pub triggers-any_fires :
    (now : ℕ) (r : Roost) (registry : List (String × Evaluator)) (ts : List Trigger)
    → any_type now r registry (trigger_types ts) ≡ any_fires now r registry ts
triggers-any_fires now r registry [] = refl
triggers-any_fires now r registry (t ∷ ts) = elim (Bool-cases (member t.type_ (trigger_types ts))) [
  | inl there ↦ rw there (
      sym (member-any_type now r registry t.type_ (trigger_types ts) there)
      ∙ rw (triggers-any_fires now r registry ts) refl)
  | inr fresh ↦ rw (fresh, triggers-any_fires now r registry ts) refl
]
