-- ===== src/Expressions/Parser.antt =====
-- The parser of evaluator.go. The recursion has fuel, one unit for a call.
use Prim.Native.Char.{Char, code}
use Prim.Native.String.{count, ◌++◌ as ◌+++◌}
use roost_keeper.Prelude.{
  ◌&&◌, ◌||◌, ◌∷◌, ◌++◌, ◌+ℤ◌, ◌==◌, if◌then◌else◌, ℕ, ℤ, String, List, Option, Bool, zero, suc,
  pos, true, false, not, none, some, [], leb, str_eq, sub_ℕ, leb_ℤ,
}
use roost_keeper.Expressions.{
  Operator, and_op, or_op, not_op, Operands, expression, end, check_operand, expression_operand,
  Error, invalid_expression, in_sub_expression, Parsed, parsed, refused, out_of_fuel,
}
use roost_keeper.Expressions.Text.{
  to_upper_text, trim_space, replace_pairs, replace_char, collapse_spaces, fields, count_char,
  ends_with, drop_last, drop_first, strip,
}

-- `normalizeExpression`
unfoldable pub normalize_expression : String → String
unfolding to_upper_text trim_space replace_pairs replace_char collapse_spaces
normalize_expression text =
    let upper = to_upper_text (trim_space text) in
    let conjunctions = replace_pairs b'&' " AND " upper in
    let disjunctions = replace_pairs b'|' " OR " conjunctions in
    let negations = replace_char b'!' "NOT " disjunctions in trim_space (collapse_spaces negations)

-- `[a-zA-Z0-9_-]+`
unfoldable pub is_name_char : Char → Bool
is_name_char c =
    (leb b'a' (code c) && leb (code c) b'z')
    || (leb b'A' (code c) && leb (code c) b'Z')
    || (leb b'0' (code c) && leb (code c) b'9')
    || code c == b'_'
    || code c == b'-'

unfoldable pub all_name_chars : String → Bool
unfolding is_name_char
all_name_chars String.[] = true
all_name_chars (String.◌∷◌ c s) = is_name_char c && all_name_chars s

abbrev pub is_blank : String → Bool
is_blank String.[] = true
is_blank (String.◌∷◌ c s) = false

-- `strings.HasPrefix` of one character
abbrev pub starts_with_char : ℕ → String → Bool
starts_with_char c String.[] = false
starts_with_char c (String.◌∷◌ x s) = code x == c

-- `isValidCheckName`
unfoldable pub is_valid_check_name : String → Bool
unfolding all_name_chars
is_valid_check_name name =
    not (is_blank name)
    && all_name_chars name
    && not (str_eq name "AND")
    && not (str_eq name "OR")
    && not (str_eq name "NOT")

-- the parts that `splitByOperator` has at the end of a part
abbrev pub closed : List String → String → List String
closed parts current = if is_blank current then parts else parts ++ (trim_space current ∷ [])

-- the loop of `splitByOperator`
unfoldable pub split_loop : String → List String → ℤ → String → List String → List String
unfolding count_char trim_space ◌+ℤ◌
split_loop op [] level current parts = closed parts current
split_loop op (word ∷ words) level current parts =
    let level' = level +ℤ sub_ℕ (count_char b'(' word) (count_char b')' word) in
    let at_top = str_eq word op && leb_ℤ level' (pos 0) && leb_ℤ (pos 0) level' in
    let longer = if is_blank current then word else current +++ " " +++ word in
    split_loop op words level' (if at_top then "" else longer)
      (if at_top then closed parts current else parts)

-- `splitByOperator`
unfoldable pub split_by_operator : String → String → List String
unfolding split_loop fields ◌+ℤ◌
split_by_operator text op = split_loop op (fields text) (pos 0) "" []

-- what `createLogicalExpression` has of the operands, or its error
pub data Created : Type 0 where
  created : Operands → Created
  not_created : Error → Created
  no_fuel : Created

abbrev pub add_check : String → Created → Created
add_check name (created os) = created (check_operand name false os)
add_check name (not_created e) = not_created e
add_check name no_fuel = no_fuel

-- an expression that fails keeps the ones after it from being parsed
abbrev pub add_expression : String → Parsed → Created → Created
add_expression part (parsed e) (created os) = created (expression_operand e false os)
add_expression part (parsed e) (not_created x) = not_created x
add_expression part (parsed e) no_fuel = no_fuel
add_expression part (refused x) later = not_created (in_sub_expression part x)
add_expression part out_of_fuel later = no_fuel

-- the loop of `createLogicalExpression`; `parse` is `parseLogicalExpression`
unfoldable pub create_operands : (String → Parsed) → List String → Created
create_operands parse [] = created end
create_operands parse (part ∷ parts) =
    let rest = create_operands parse parts in
    let name = trim_space part in
    if is_blank name
    then rest
    else if is_valid_check_name name
    then add_check name rest
    else add_expression name (parse name) rest

abbrev pub finished : Operator → String → Created → Parsed
finished op raw (created os) = parsed (expression op os raw)
finished op raw (not_created e) = refused e
finished op raw no_fuel = out_of_fuel

-- `createLogicalExpression`
unfoldable pub create_logical_expression :
    (String → Parsed) → Operator → List String → String → Parsed
unfolding create_operands
create_logical_expression parse op parts raw = finished op raw (create_operands parse parts)

abbrev pub negated : String → Parsed → Parsed
negated raw (parsed e) = parsed (expression not_op (expression_operand e false end) raw)
negated raw (refused e) = refused e
negated raw out_of_fuel = out_of_fuel

-- the parts if there are more than one
abbrev pub several : List String → Bool
several [] = false
several (p ∷ []) = false
several (p ∷ q ∷ ps) = true

-- `parseLogicalExpression` after the operators
unfoldable pub parse_operand : (String → Parsed) → String → Option String → Parsed
unfolding is_valid_check_name trim_space
parse_operand parse text (some rest) = negated text (parse (trim_space rest))
parse_operand parse text none =
    if is_valid_check_name text
    then parsed (expression and_op (check_operand text false end) text)
    else refused (invalid_expression text)

-- `parseLogicalExpression`, with `parse` for its recursive calls
unfoldable pub parse_step : (String → Parsed) → String → Parsed
unfolding split_by_operator create_logical_expression parse_operand strip ends_with drop_last
    drop_first
parse_step parse text =
    if starts_with_char b'(' text && ends_with b')' text
    then parse (drop_last (drop_first text))
    else if several (split_by_operator text "OR")
    then create_logical_expression parse or_op (split_by_operator text "OR") text
    else if several (split_by_operator text "AND")
    then create_logical_expression parse and_op (split_by_operator text "AND") text
    else parse_operand parse text (strip "NOT " text)

unfoldable pub parse_logical_expression : ℕ → String → Parsed
unfolding parse_step trim_space
parse_logical_expression zero text = out_of_fuel
parse_logical_expression (suc fuel) text =
    parse_step (parse_logical_expression fuel) (trim_space text)

-- the fuel that a text needs
abbrev pub fuel_of : String → ℕ
fuel_of text = suc (count text)

-- `parseExpression`
unfoldable pub parse_expression : String → Parsed
unfolding normalize_expression parse_logical_expression
parse_expression text =
    let normalized = normalize_expression text in
    parse_logical_expression (fuel_of normalized) normalized
