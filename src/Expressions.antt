-- ===== src/Expressions.antt =====
-- The logical expressions over health checks: internal/health/composite/evaluator.go. Texts are
-- ASCII as far as letters and white space go: a letter of another alphabet stays as it is.
pub mod Text
pub mod Parser
pub mod Evaluation
pub mod Meaning
pub mod Validation
pub mod Fuel
pub mod Termination
use roost_keeper.Prelude.{ℕ, String, Bool}

-- `LogicalOperator`
pub data Operator : Type 0 where
  and_op or_op not_op : Operator

-- `LogicalExpression`, and its list of `ExpressionOperand`s: each is a check or an expression, and
-- may be negated
mutual
  pub data Expression : Type 0 where
    expression : Operator → Operands → String → Expression

  pub data Operands : Type 0 where
    end : Operands
    check_operand : String → Bool → Operands → Operands
    expression_operand : Expression → Bool → Operands → Operands

-- the errors of the parser and of the evaluation
pub data Error : Type 0 where
  invalid_expression : String → Error
  in_sub_expression : String → Error → Error
  failed_to_parse : Error → Error
  missing_check : String → Error
  wrong_operand_count : ℕ → Error
  empty_expression : Error
  no_checks_found : Error
  failed_test_case : ℕ → Error → Error

-- a result, an error, or a parse that ran out of fuel
pub data Parsed : Type 0 where
  parsed : Expression → Parsed
  refused : Error → Parsed
  out_of_fuel : Parsed
