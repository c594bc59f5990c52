-- ===== src/Tests/Formulas.antt =====
-- The expressions of internal/health/composite/evaluator.go on concrete texts.
use roost_keeper.Prelude.{◌≡◌, ◌≢◌, ◌∷◌, true, false, some, [], refl, arith, eq_iff, lookup}
use roost_keeper.Expressions.{Expression, parsed, refused, out_of_fuel, invalid_expression}
use roost_keeper.Expressions.Parser.{parse_expression, normalize_expression, split_by_operator}
use roost_keeper.Expressions.Evaluation.{
  non_existent, Results, Details, evaluated, evaluate_expression, validate_expression,
}
use roost_keeper.Expressions.Meaning.{holds, healthy_in}
use roost_keeper.Expressions.Termination.{parse_expression_total}
use roost_keeper.Expressions.Validation.{evaluate_expression-validated}

abbrev results : Results
results = ("API", true) ∷ ("DB", false) ∷ ("WEB", true) ∷ []

normalizes : normalize_expression " api  && !db||web " ≡ "API AND NOT DB OR WEB"
unfolding normalize_expression
normalizes = refl

splits : split_by_operator "A AND (B OR C) OR D" "OR" ≡ "A AND (B OR C)" ∷ "D" ∷ []
unfolding split_by_operator
splits = refl

-- a check whose name has small letters is not found
loses_small_letters : (validate_expression "api" ("api" ∷ [])) ≡ some (non_existent "API" ∷ [])
unfolding validate_expression
loses_small_letters = refl

-- the parentheses of two groups are taken for those of one
splits_groups : parse_expression "(a) AND (b)" ≡ refused (invalid_expression "A) AND (B")
unfolding parse_expression
splits_groups = refl

parse_expression_total_example : parse_expression "(a) AND (b)" ≢ out_of_fuel
parse_expression_total_example = parse_expression_total "(a) AND (b)"

evaluate_expression-validated_example :
    (e : Expression) × (d : Details) × (parse_expression "api && !db" ≡ parsed e)
    × (evaluate_expression "api && !db" results
        ≡ evaluated (holds (healthy_in results) e) "api && !db" d)
unfolding validate_expression lookup
evaluate_expression-validated_example =
    evaluate_expression-validated "api && !db" ("API" ∷ "DB" ∷ []) results
      (ground (arith, eq_iff "api && !db" "")) refl ((λ h. cc), ((λ h. cc), tt))
