-- ===== src/Expressions/Validation.antt =====
-- An expression of evaluator.go that is validated without a warning has a value.
use roost_keeper.Prelude.{
  ◌≡◌, ◌≢◌, ◌&&◌, ◌∷◌, ℕ, String, List, Option, Bool, zero, suc, true, false, none, some, [], refl,
  inl, inr, arith, eq_iff, str_eq, Bool-cases, lookup, member,
}
use roost_keeper.Expressions.{and_op, or_op, Expression, Parsed, parsed, refused, out_of_fuel}
use roost_keeper.Expressions.Text.{trim_space, ends_with, drop_last, drop_first, strip}
use roost_keeper.Expressions.Parser.{
  is_blank, split_by_operator, Created, created, not_created, no_fuel, create_operands,
  create_logical_expression, several, parse_operand, parse_step, parse_logical_expression,
  parse_expression, starts_with_char, is_valid_check_name, fuel_of, normalize_expression, negated,
  add_check, add_expression, finished,
}
use roost_keeper.Expressions.Evaluation.{
  Results, Details, Value, value, error, evaluated, unknown_names, warnings_after, concluded,
  evaluate_after, evaluate_recursive, evaluate_parsed_expression, evaluate_expression,
  validate_expression, extract_check_names,
}
use roost_keeper.Expressions.Meaning.{
  IsWellFormed, AreWellFormed, holds, healthy_in, Known, recursive-holds,
}

-- what a parse or a list of operands holds is well formed
abbrev ParsedWell : Parsed → Type 0
ParsedWell (parsed e) = IsWellFormed e
ParsedWell (refused e) = Unit {0}
ParsedWell out_of_fuel = Unit {0}

abbrev CreatedWell : Created → Type 0
CreatedWell (created os) = AreWellFormed os
CreatedWell (not_created e) = Unit {0}
CreatedWell no_fuel = Unit {0}

add_check-well : (name : String) (c : Created) → CreatedWell c → CreatedWell (add_check name c)
unfolding AreWellFormed
add_check-well name (created os) h = h
add_check-well name (not_created e) h = tt
add_check-well name no_fuel h = tt

add_expression-well :
    (part : String) (p : Parsed) (c : Created)
    → ParsedWell p
    → CreatedWell c
    → CreatedWell (add_expression part p c)
unfolding AreWellFormed
add_expression-well part (parsed e) (created os) w h = (w, h)
add_expression-well part (parsed e) (not_created x) w h = tt
add_expression-well part (parsed e) no_fuel w h = tt
add_expression-well part (refused x) c w h = tt
add_expression-well part out_of_fuel c w h = tt

module _ (parse : String → Parsed) (sound : (t : String) → ParsedWell (parse t)) where
  create-well : (ps : List String) → CreatedWell (create_operands parse ps)
  unfolding create_operands AreWellFormed
  create-well [] = tt
  create-well (p ∷ ps) =
      let name = trim_space p in
      elim (Bool-cases (is_blank name)) [
        | inl blank ↦ rw blank (create-well ps)
        | inr word ↦ elim (Bool-cases (is_valid_check_name name)) [
          | inl check ↦
              rw (word, check) (add_check-well name (create_operands parse ps) (create-well ps))
          | inr other ↦
              rw (word, other)
                (add_expression-well name (parse name) (create_operands parse ps) (sound name)
                  (create-well ps))
        ]
      ]

  and_finished-well :
      (raw : String) (c : Created) → CreatedWell c → ParsedWell (finished and_op raw c)
  unfolding IsWellFormed
  and_finished-well raw (created os) h = h
  and_finished-well raw (not_created e) h = tt
  and_finished-well raw no_fuel h = tt

  or_finished-well :
      (raw : String) (c : Created) → CreatedWell c → ParsedWell (finished or_op raw c)
  unfolding IsWellFormed
  or_finished-well raw (created os) h = h
  or_finished-well raw (not_created e) h = tt
  or_finished-well raw no_fuel h = tt

  negated-well : (raw : String) (p : Parsed) → ParsedWell p → ParsedWell (negated raw p)
  unfolding IsWellFormed
  negated-well raw (parsed e) h = (refl, (h, tt))
  negated-well raw (refused e) h = tt
  negated-well raw out_of_fuel h = tt

  operand-well : (text : String) (o : Option String) → ParsedWell (parse_operand parse text o)
  unfolding parse_operand IsWellFormed
  operand-well text (some r) = negated-well text (parse (trim_space r)) (sound (trim_space r))
  operand-well text none = elim (Bool-cases (is_valid_check_name text)) [
    | inl e ↦ rw e tt
    | inr e ↦ rw e tt
  ]

  step-well : (text : String) → ParsedWell (parse_step parse text)
  unfolding parse_step create_logical_expression
  step-well text = elim (Bool-cases (starts_with_char b'(' text && ends_with b')' text)) [
    | inl nested ↦ rw nested (sound (drop_last (drop_first text)))
    | inr flat ↦ elim (Bool-cases (several (split_by_operator text "OR"))) [
      | inl ors ↦
          rw (flat, ors) (or_finished-well text _ (create-well (split_by_operator text "OR")))
      | inr no_or ↦ elim (Bool-cases (several (split_by_operator text "AND"))) [
        | inl ands ↦
            rw (flat, no_or, ands)
              (and_finished-well text _ (create-well (split_by_operator text "AND")))
        | inr no_and ↦ rw (flat, no_or, no_and) (operand-well text (strip "NOT " text))
      ]
    ]
  ]

logical-well : (fuel : ℕ) (text : String) → ParsedWell (parse_logical_expression fuel text)
unfolding parse_logical_expression
logical-well zero text = tt
logical-well (suc fuel) text =
    step-well (parse_logical_expression fuel) (logical-well fuel) (trim_space text)

parse_expression-well : (text : String) → ParsedWell (parse_expression text)
unfolding parse_expression
parse_expression-well text =
    logical-well (fuel_of (normalize_expression text)) (normalize_expression text)

member-Known :
    (name : String) (known : List String) (results : Results)
    → member name known ≡ true
    → Known results known
    → lookup name results ≢ none
member-Known name [] results m all = absurd (cc)
member-Known name (k ∷ ks) results m all = elim (Bool-cases (str_eq k name)) [
  | inl e ↦ rw ((eq_iff k name).0 e) at all.0
  | inr e ↦ member-Known name ks results (ground (arith, e, m)) all.1
]

-- names without a warning are names of checks
unwarned :
    (known names : List String) (results : Results)
    → unknown_names known names ≡ []
    → Known results known
    → Known results names
unfolding unknown_names
unwarned known [] results h all = tt
unwarned known (name ∷ names) results h all = elim (Bool-cases (member name known)) [
  | inl e ↦ (member-Known name known results e all, unwarned known names results (rw e at h) all)
  | inr e ↦ absurd (ground (arith, e, h))
]

concluded_value :
    (text : String) (b : Bool) (v : Value × Details)
    → v.0 ≡ value b
    → concluded text v ≡ evaluated b text v.1
concluded_value text b (value c, d) h = ground (arith, h)
concluded_value text b (error e, d) h = absurd (cc)

start : Details
start = record { check_results = []; evaluation_path = [] }

validated_parse :
    (text : String) (known : List String) (results : Results) (p : Parsed)
    → ParsedWell p
    → warnings_after known p ≡ some []
    → Known results known
    → (e : Expression) × (d : Details) × (p ≡ parsed e)
      × (evaluate_after text results p ≡ evaluated (holds (healthy_in results) e) text d)
unfolding evaluate_parsed_expression start
validated_parse text known results (parsed e) w quiet all =
    let names = unwarned known (extract_check_names e) results (ground (arith, quiet)) all in
    let meaning = recursive-holds results e start w names in
    (
      e,
      (evaluate_recursive e results start).1,
      refl,
      concluded_value text _ (evaluate_recursive e results start) meaning,
    )
validated_parse text known results (refused x) w quiet all = absurd (ground (arith, quiet))
validated_parse text known results out_of_fuel w quiet all = absurd (cc)

-- An expression that is not empty and that `ValidateExpression` has no warning about is evaluated
-- without an error, over results of all the checks, to the value of the formula that was parsed.
pub evaluate_expression-validated :
    (text : String) (known : List String) (results : Results)
    → text ≢ ""
    → validate_expression text known ≡ some []
    → Known results known
    → (e : Expression) × (d : Details) × (parse_expression text ≡ parsed e)
      × (evaluate_expression text results ≡ evaluated (holds (healthy_in results) e) text d)
unfolding evaluate_expression validate_expression
evaluate_expression-validated text known results some_text quiet all =
    let filled : str_eq text "" ≡ false = ground (arith, eq_iff text "", some_text) in
    let (e, d, read, found) =
      validated_parse text known results (parse_expression text) (parse_expression-well text)
        (rw filled at quiet) all in
    (e, d, read, rw filled found)
