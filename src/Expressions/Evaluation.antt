-- ===== src/Expressions/Evaluation.antt =====
-- The evaluation and the validation of expressions: evaluator.go. Of a `HealthResult` is read
-- whether it is healthy.
use roost_keeper.Prelude.{
  ◌&&◌, ◌∷◌, ◌++◌, if◌then◌else◌, ℕ, String, List, Option, Bool, suc, true, false, not, none, some,
  [], str_eq, lookup, insert, member,
}
use roost_keeper.Expressions.{
  and_op, or_op, not_op, Expression, Operands, expression, end, check_operand, expression_operand,
  Error, failed_to_parse, missing_check, wrong_operand_count, Parsed, parsed, refused, out_of_fuel,
}
use roost_keeper.Expressions.Parser.{parse_expression}

-- `map[string]*HealthResult`
abbrev pub Results : Type 0
Results = List (String × Bool)

-- `EvaluationDetails`; the source never fills `SubExpressions` and `TruthTable`
pub record Details : Type 0 where
  pub check_results : List (String × Bool)
  pub evaluation_path : List String

-- a result or an error
pub data Value : Type 0 where
  value : Bool → Value
  error : Error → Value

-- `if operand.Negated`
abbrev pub flip : Bool → Bool → Bool
flip negated b = if negated then not b else b

-- `evaluateCheckOperand`
abbrev check_found : String → Details → Option Bool → Value × Details
check_found name d none = (error (missing_check name), d)
check_found name d (some healthy) =
    (value healthy, record d { check_results = insert name healthy d.check_results })

unfoldable pub evaluate_check_operand : String → Results → Details → Value × Details
evaluate_check_operand name results d = check_found name d (lookup name results)

abbrev pub operand_count : Operands → ℕ
operand_count end = 0
operand_count (check_operand name negated os) = suc (operand_count os)
operand_count (expression_operand e negated os) = suc (operand_count os)

-- the loops of `evaluateAND` and `evaluateOR` after an operand; `next` is the rest of the loop
abbrev pub conjoin : Bool → (Details → Value × Details) → Value × Details → Value × Details
conjoin negated next (error e, d) = (error e, d)
conjoin negated next (value b, d) = if flip negated b then next d else (value false, d)

abbrev pub disjoin : Bool → (Details → Value × Details) → Value × Details → Value × Details
disjoin negated next (error e, d) = (error e, d)
disjoin negated next (value b, d) = if flip negated b then (value true, d) else next d

-- the end of `evaluateNOT`, after its operand
abbrev pub negation : Bool → Value × Details → Value × Details
negation negated (value b, d) = (value (not (flip negated b)), d)
negation negated (error e, d) = (error e, d)

-- `evaluateExpressionRecursive`, `evaluateAND`, `evaluateOR` and `evaluateNOT`, with
-- `evaluateOperand` in each
unfoldable mutual
  unfolding evaluate_check_operand

  pub evaluate_recursive : Expression → Results → Details → Value × Details
  evaluate_recursive (expression op os raw) results d =
      let entered = record d { evaluation_path = d.evaluation_path ++ (raw ∷ []) } in
      elim op [
        | and_op ↦ evaluate_and os results entered
        | or_op ↦ evaluate_or os results entered
        | not_op ↦ evaluate_not os results entered
      ]

  pub evaluate_and : Operands → Results → Details → Value × Details
  evaluate_and end results d = (value true, d)
  evaluate_and (check_operand name negated os) results d =
      conjoin negated (evaluate_and os results) (evaluate_check_operand name results d)
  evaluate_and (expression_operand e negated os) results d =
      conjoin negated (evaluate_and os results) (evaluate_recursive e results d)

  pub evaluate_or : Operands → Results → Details → Value × Details
  evaluate_or end results d = (value false, d)
  evaluate_or (check_operand name negated os) results d =
      disjoin negated (evaluate_or os results) (evaluate_check_operand name results d)
  evaluate_or (expression_operand e negated os) results d =
      disjoin negated (evaluate_or os results) (evaluate_recursive e results d)

  pub evaluate_not : Operands → Results → Details → Value × Details
  evaluate_not end results d = (error (wrong_operand_count 0), d)
  evaluate_not (check_operand name negated end) results d =
      negation negated (evaluate_check_operand name results d)
  evaluate_not (expression_operand e negated end) results d =
      negation negated (evaluate_recursive e results d)
  evaluate_not (check_operand name negated (check_operand n m os)) results d =
      (error (wrong_operand_count (suc (suc (operand_count os)))), d)
  evaluate_not (check_operand name negated (expression_operand n m os)) results d =
      (error (wrong_operand_count (suc (suc (operand_count os)))), d)
  evaluate_not (expression_operand e negated (check_operand n m os)) results d =
      (error (wrong_operand_count (suc (suc (operand_count os)))), d)
  evaluate_not (expression_operand e negated (expression_operand n m os)) results d =
      (error (wrong_operand_count (suc (suc (operand_count os)))), d)

-- `EvaluationResult`, or the error of `EvaluateExpression`
pub data Evaluation : Type 0 where
  evaluated : Bool → String → Details → Evaluation
  not_evaluated : String → Error → Evaluation
  not_parsed : Error → Evaluation
  fuel_ran_out : Evaluation

-- `evaluateDefaultLogic`
unfoldable pub all_healthy : Results → Bool
all_healthy [] = true
all_healthy ((name, healthy) ∷ rs) = healthy && all_healthy rs

unfoldable pub copied : Results → List (String × Bool) → List (String × Bool)
copied [] m = m
copied ((name, healthy) ∷ rs) m = copied rs (insert name healthy m)

unfoldable pub evaluate_default_logic : Results → Evaluation
unfolding all_healthy copied
evaluate_default_logic results =
    evaluated (all_healthy results) "DEFAULT_AND"
      (record { check_results = copied results []; evaluation_path = "DEFAULT_AND" ∷ [] })

abbrev pub concluded : String → Value × Details → Evaluation
concluded text (value b, d) = evaluated b text d
concluded text (error e, d) = not_evaluated text e

-- `evaluateParsedExpression`
unfoldable pub evaluate_parsed_expression : Expression → Results → Value × Details
unfolding evaluate_recursive
evaluate_parsed_expression e results =
    evaluate_recursive e results (record { check_results = []; evaluation_path = [] })

abbrev pub evaluate_after : String → Results → Parsed → Evaluation
evaluate_after text results (parsed e) = concluded text (evaluate_parsed_expression e results)
evaluate_after text results (refused e) = not_parsed (failed_to_parse e)
evaluate_after text results out_of_fuel = fuel_ran_out

-- `EvaluateExpression`
unfoldable pub evaluate_expression : String → Results → Evaluation
unfolding evaluate_default_logic evaluate_parsed_expression parse_expression
evaluate_expression text results =
    if str_eq text ""
    then evaluate_default_logic results
    else evaluate_after text results (parse_expression text)

-- `extractCheckNames`
unfoldable mutual
  pub extract_check_names : Expression → List String
  extract_check_names (expression op os raw) = extract_operands os

  pub extract_operands : Operands → List String
  extract_operands end = []
  extract_operands (check_operand name negated os) = name ∷ extract_operands os
  extract_operands (expression_operand e negated os) = extract_check_names e ++ extract_operands os

-- the warnings of `ValidateExpression`
pub data Warning : Type 0 where
  invalid_syntax : Error → Warning
  non_existent : String → Warning

unfoldable pub unknown_names : List String → List String → List Warning
unknown_names known [] = []
unknown_names known (name ∷ names) =
    let rest = unknown_names known names in
    if member name known then rest else non_existent name ∷ rest

abbrev pub warnings_after : List String → Parsed → Option (List Warning)
warnings_after known (parsed e) = some (unknown_names known (extract_check_names e))
warnings_after known (refused e) = some (invalid_syntax e ∷ [])
warnings_after known out_of_fuel = none

-- `ValidateExpression`, over the names of the health checks; `none` where the fuel runs out
unfoldable pub validate_expression : String → List String → Option (List Warning)
unfolding unknown_names extract_check_names parse_expression
validate_expression text known =
    if str_eq text "" then some [] else warnings_after known (parse_expression text)
