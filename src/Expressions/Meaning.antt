-- ===== src/Expressions/Meaning.antt =====
-- What an expression of evaluator.go means, and that its evaluation finds it.
use roost_keeper.Prelude.{
  ◌≡◌, ◌≢◌, ◌&&◌, ◌||◌, ◌∷◌, ◌++◌, String, List, Bool, true, false, not, none, some, [], refl, inl,
  inr, arith, Option-cases, All, lookup,
}
use roost_keeper.Expressions.{
  and_op, or_op, not_op, Expression, Operands, expression, end, check_operand, expression_operand,
}
use roost_keeper.Expressions.Evaluation.{
  conjoin, disjoin, negation, Results, Details, Value, value, error, flip, evaluate_check_operand,
  operand_count, evaluate_recursive, evaluate_and, evaluate_or, evaluate_not, extract_check_names,
  extract_operands,
}

-- the formula of an expression, under an assignment of the checks
unfoldable mutual
  pub holds : (String → Bool) → Expression → Bool
  holds healthy (expression and_op os raw) = all_hold healthy os
  holds healthy (expression or_op os raw) = any_holds healthy os
  holds healthy (expression not_op os raw) = not (all_hold healthy os)

  pub all_hold : (String → Bool) → Operands → Bool
  all_hold healthy end = true
  all_hold healthy (check_operand name negated os) =
      flip negated (healthy name) && all_hold healthy os
  all_hold healthy (expression_operand e negated os) =
      flip negated (holds healthy e) && all_hold healthy os

  pub any_holds : (String → Bool) → Operands → Bool
  any_holds healthy end = false
  any_holds healthy (check_operand name negated os) =
      flip negated (healthy name) || any_holds healthy os
  any_holds healthy (expression_operand e negated os) =
      flip negated (holds healthy e) || any_holds healthy os

-- a negation has one operand
unfoldable mutual
  pub IsWellFormed : Expression → Type 0
  IsWellFormed (expression and_op os raw) = AreWellFormed os
  IsWellFormed (expression or_op os raw) = AreWellFormed os
  IsWellFormed (expression not_op os raw) = (operand_count os ≡ 1) × AreWellFormed os

  pub AreWellFormed : Operands → Type 0
  AreWellFormed end = Unit {0}
  AreWellFormed (check_operand name negated os) = AreWellFormed os
  AreWellFormed (expression_operand e negated os) = IsWellFormed e × AreWellFormed os

-- the results as an assignment; a check without a result is not healthy
abbrev pub healthy_in : Results → String → Bool
healthy_in results name = elim (lookup name results) [ none ↦ false | some b ↦ b ]

-- every check has a result
abbrev pub Known : Results → List String → Type 0
Known results names = All (λ (n : String). lookup n results ≢ none) names

All-left : (P : String → Type 0) (xs ys : List String) → All P (xs ++ ys) → All P xs
All-left P [] ys h = tt
All-left P (x ∷ xs) ys h = (h.0, All-left P xs ys h.1)

All-right : (P : String → Type 0) (xs ys : List String) → All P (xs ++ ys) → All P ys
All-right P [] ys h = h
All-right P (x ∷ xs) ys h = All-right P xs ys h.1

check-value :
    (name : String) (results : Results) (d : Details)
    → lookup name results ≢ none
    → (evaluate_check_operand name results d).0 ≡ value (healthy_in results name)
unfolding evaluate_check_operand
check-value name results d known = elim (Option-cases (lookup name results)) [
  | inl e ↦ absurd (known e)
  | inr (b, e) ↦ ground (arith, e)
]

conjoin-value :
    (negated b c : Bool) (next : Details → Value × Details) (v : Value × Details)
    → v.0 ≡ value b
    → ((d : Details) → (next d).0 ≡ value c)
    → (conjoin negated next v).0 ≡ value (flip negated b && c)
conjoin-value negated b c next (error e, d) h rest = absurd (cc)
conjoin-value negated b c next (value a, d) h rest = ground (arith, h, rest d)

disjoin-value :
    (negated b c : Bool) (next : Details → Value × Details) (v : Value × Details)
    → v.0 ≡ value b
    → ((d : Details) → (next d).0 ≡ value c)
    → (disjoin negated next v).0 ≡ value (flip negated b || c)
disjoin-value negated b c next (error e, d) h rest = absurd (cc)
disjoin-value negated b c next (value a, d) h rest = ground (arith, h, rest d)

negation-value :
    (negated b : Bool) (v : Value × Details)
    → v.0 ≡ value b
    → (negation negated v).0 ≡ value (not (flip negated b && true))
negation-value negated b (error e, d) h = absurd (cc)
negation-value negated b (value a, d) h = ground (arith, h)

module _ (results : Results) where
  mutual
    unfolding evaluate_recursive holds extract_check_names IsWellFormed

    pub recursive-holds :
        (e : Expression) (d : Details)
        → IsWellFormed e
        → Known results (extract_check_names e)
        → (evaluate_recursive e results d).0 ≡ value (holds (healthy_in results) e)
    recursive-holds (expression and_op os raw) d w k = and-holds os _ w k
    recursive-holds (expression or_op os raw) d w k = or-holds os _ w k
    recursive-holds (expression not_op os raw) d w k = not-holds os _ w.0 w.1 k

    and-holds :
        (os : Operands) (d : Details)
        → AreWellFormed os
        → Known results (extract_operands os)
        → (evaluate_and os results d).0 ≡ value (all_hold (healthy_in results) os)
    and-holds end d w k = refl
    and-holds (check_operand name negated os) d w k =
        conjoin-value negated _ _ (evaluate_and os results) _ (check-value name results d k.0)
          (λ d'. and-holds os d' w k.1)
    and-holds (expression_operand e negated os) d w k =
        conjoin-value negated _ _ (evaluate_and os results) _
          (recursive-holds e d w.0 (All-left _ (extract_check_names e) (extract_operands os) k))
          (λ d'. and-holds os d' w.1 (All-right _ (extract_check_names e) (extract_operands os) k))

    or-holds :
        (os : Operands) (d : Details)
        → AreWellFormed os
        → Known results (extract_operands os)
        → (evaluate_or os results d).0 ≡ value (any_holds (healthy_in results) os)
    or-holds end d w k = refl
    or-holds (check_operand name negated os) d w k =
        disjoin-value negated _ _ (evaluate_or os results) _ (check-value name results d k.0)
          (λ d'. or-holds os d' w k.1)
    or-holds (expression_operand e negated os) d w k =
        disjoin-value negated _ _ (evaluate_or os results) _
          (recursive-holds e d w.0 (All-left _ (extract_check_names e) (extract_operands os) k))
          (λ d'. or-holds os d' w.1 (All-right _ (extract_check_names e) (extract_operands os) k))

    not-holds :
        (os : Operands) (d : Details)
        → operand_count os ≡ 1
        → AreWellFormed os
        → Known results (extract_operands os)
        → (evaluate_not os results d).0 ≡ value (not (all_hold (healthy_in results) os))
    not-holds end d one w k = absurd (omega (arith, one))
    not-holds (check_operand name negated end) d one w k =
        negation-value negated _ _ (check-value name results d k.0)
    not-holds (expression_operand e negated end) d one w k =
        negation-value negated _ _
          (recursive-holds e d w.0 (All-left _ (extract_check_names e) [] k))
    not-holds (check_operand name negated (check_operand n m os)) d one w k =
        absurd (omega (arith, one))
    not-holds (check_operand name negated (expression_operand n m os)) d one w k =
        absurd (omega (arith, one))
    not-holds (expression_operand e negated (check_operand n m os)) d one w k =
        absurd (omega (arith, one))
    not-holds (expression_operand e negated (expression_operand n m os)) d one w k =
        absurd (omega (arith, one))
