-- ===== src/Expressions/Termination.antt =====
-- The parser of evaluator.go ends on every text: its fuel is never used up.
use Prim.Native.String.{count}
use text.Mathlib.TextLemmas.{length-nil, length-cons}
use roost_keeper.Prelude.{
  ◌≤◌, ◌<◌, ◌≡◌, ◌≢◌, ◌⊎◌, ◌&&◌, ◌∷◌, ℕ, String, List, Option, zero, suc, pos, true, none, some, [],
  refl, inl, inr, arith, Bool-cases, All,
}
use roost_keeper.Expressions.{Operator, and_op, or_op, Parsed, parsed, refused, out_of_fuel}
use roost_keeper.Expressions.Text.{trim_space, fields, ends_with, drop_last, drop_first, strip}
use roost_keeper.Expressions.Parser.{
  is_blank, split_by_operator, Created, created, not_created, no_fuel, create_operands,
  create_logical_expression, several, parse_operand, parse_step, parse_logical_expression,
  parse_expression, starts_with_char, is_valid_check_name, fuel_of, normalize_expression, negated,
  add_check, add_expression, finished,
}
use roost_keeper.Expressions.Fuel.{count-trim_space, cost, cost-fields, cost-split_loop, extra-nil}

parts_within : (n : ℕ) (ps : List String) → cost ps ≤ n → All (λ (p : String). count p < n) ps
unfolding cost
parts_within n [] h = tt
parts_within n (p ∷ ps) h = (omega (arith, h), parts_within n ps (omega (arith, h)))

-- each of several parts is shorter than all of them
parts_shorter :
    (n : ℕ) (ps : List String)
    → several ps ≡ true
    → cost ps ≤ suc n
    → All (λ (p : String). count p < n) ps
unfolding cost
parts_shorter n [] s h = absurd (cc)
parts_shorter n (p ∷ []) s h = absurd (cc)
parts_shorter n (p ∷ q ∷ ps) s h = (omega (arith, h), parts_within n (q ∷ ps) (omega (arith, h)))

cost-split : (text op : String) → cost (split_by_operator text op) ≤ suc (count text)
unfolding split_by_operator cost
cost-split text op =
    omega (arith, cost-split_loop op (fields text) (pos 0) "" [], cost-fields text, extra-nil)

count-drop_first : (s : String) → count (drop_first s) ≤ count s
unfolding drop_first
count-drop_first String.[] = omega arith
count-drop_first (String.◌∷◌ c s) = omega (arith, length-cons c s)

count-drop_last : (s : String) → count (drop_last s) ≤ count s
unfolding drop_last
count-drop_last String.[] = omega arith
count-drop_last (String.◌∷◌ c String.[]) = omega (arith, length-cons c String.[], length-nil)
count-drop_last (String.◌∷◌ c (String.◌∷◌ d s)) = omega (
  arith,
  length-cons c (String.◌∷◌ d s),
  length-cons c (drop_last (String.◌∷◌ d s)),
  count-drop_last (String.◌∷◌ d s),
)

-- a text without its parentheses is shorter
count-inner :
    (s : String) → starts_with_char b'(' s ≡ true → count (drop_last (drop_first s)) < count s
unfolding drop_first
count-inner String.[] h = absurd (cc)
count-inner (String.◌∷◌ c s) h = omega (arith, count-drop_last s, length-cons c s)

count-strip : (p s r : String) → strip p s ≡ some r → count r ≤ count s
unfolding strip
count-strip String.[] s r h = ground (arith, h)
count-strip (String.◌∷◌ a p) String.[] r h = absurd (cc)
count-strip (String.◌∷◌ a p) (String.◌∷◌ c s) r h =
    ground (arith, length-cons c s, count-strip p s r)

-- a parser that does not run out of fuel on the shorter texts
Succeeds : ℕ → (String → Parsed) → Type 0
Succeeds n parse = (t : String) → count t < n → parse t ≢ out_of_fuel

add_check_fuel : (name : String) (c : Created) → add_check name c ≡ no_fuel → c ≡ no_fuel
add_check_fuel name (created os) h = absurd (cc)
add_check_fuel name (not_created e) h = absurd (cc)
add_check_fuel name no_fuel h = refl

add_expression_fuel :
    (part : String) (p : Parsed) (later : Created)
    → add_expression part p later ≡ no_fuel
    → (p ≡ out_of_fuel) ⊎ (later ≡ no_fuel)
add_expression_fuel part (parsed e) (created os) h = absurd (cc)
add_expression_fuel part (parsed e) (not_created x) h = absurd (cc)
add_expression_fuel part (parsed e) no_fuel h = inr refl
add_expression_fuel part (refused x) later h = absurd (cc)
add_expression_fuel part out_of_fuel later h = inl refl

finished_fuel :
    (op : Operator) (raw : String) (c : Created) → finished op raw c ≡ out_of_fuel → c ≡ no_fuel
finished_fuel op raw (created os) h = absurd (cc)
finished_fuel op raw (not_created e) h = absurd (cc)
finished_fuel op raw no_fuel h = refl

negated_fuel : (raw : String) (p : Parsed) → negated raw p ≡ out_of_fuel → p ≡ out_of_fuel
negated_fuel raw (parsed e) h = absurd (cc)
negated_fuel raw (refused e) h = absurd (cc)
negated_fuel raw out_of_fuel h = refl

ok_at :
    (parse : String → Parsed) (n : ℕ)
    → Succeeds n parse
    → (t : String) → count t < n
    → parse t ≢ out_of_fuel
unfolding Succeeds
ok_at parse n ok = ok

create-Succeeds :
    (parse : String → Parsed) (n : ℕ) (ps : List String)
    → Succeeds n parse
    → All (λ (p : String). count p < n) ps
    → create_operands parse ps ≢ no_fuel
unfolding create_operands Succeeds
create-Succeeds parse n [] ok within e = cc
create-Succeeds parse n (p ∷ ps) ok within e =
    let name = trim_space p in
    let rest = create-Succeeds parse n ps ok within.1 in
    let fits = ok name (omega (arith, count-trim_space p, within.0)) in
    elim (Bool-cases (is_blank name)) [
      | inl blank ↦ rest (rw blank at e)
      | inr word ↦ elim (Bool-cases (is_valid_check_name name)) [
        | inl check ↦ rest (add_check_fuel name (create_operands parse ps) (rw (word, check) at e))
        | inr other ↦
            elim (add_expression_fuel name (parse name) (create_operands parse ps)
              (rw (word, other) at e)) [ inl x ↦ fits x | inr x ↦ rest x ]
      ]
    ]

logical-Succeeds :
    (parse : String → Parsed) (op : Operator) (n : ℕ) (ps : List String) (raw : String)
    → Succeeds n parse
    → All (λ (p : String). count p < n) ps
    → create_logical_expression parse op ps raw ≢ out_of_fuel
unfolding create_logical_expression
logical-Succeeds parse op n ps raw ok within e =
    create-Succeeds parse n ps ok within (finished_fuel op raw (create_operands parse ps) e)

operand-Succeeds :
    (parse : String → Parsed) (text : String) (o : Option String)
    → Succeeds (count text) parse
    → ((r : String) → o ≡ some r → count r < count text)
    → parse_operand parse text o ≢ out_of_fuel
unfolding parse_operand Succeeds
operand-Succeeds parse text none ok shorter e = ground (arith, e)
operand-Succeeds parse text (some r) ok shorter e =
    ok (trim_space r) (omega (arith, count-trim_space r, shorter r refl))
      (negated_fuel text (parse (trim_space r)) e)

-- the text after the word NOT is shorter
not_shorter : (text r : String) → strip "NOT " text ≡ some r → count r < count text
unfolding strip
not_shorter String.[] r h = absurd (cc)
not_shorter (String.◌∷◌ c s) r h = ground (arith, length-cons c s, count-strip "OT " s r)

step-Succeeds :
    (parse : String → Parsed) (text : String)
    → Succeeds (count text) parse
    → parse_step parse text ≢ out_of_fuel
unfolding parse_step
step-Succeeds parse text ok e =
    elim (Bool-cases (starts_with_char b'(' text && ends_with b')' text)) [
      | inl nested ↦
          ok_at parse (count text) ok (drop_last (drop_first text))
            (count-inner text (ground (arith, nested))) (rw nested at e)
      | inr flat ↦ elim (Bool-cases (several (split_by_operator text "OR"))) [
        | inl ors ↦
            logical-Succeeds parse or_op (count text) (split_by_operator text "OR") text ok
              (parts_shorter (count text) _ ors (cost-split text "OR")) (rw (flat, ors) at e)
        | inr no_or ↦ elim (Bool-cases (several (split_by_operator text "AND"))) [
          | inl ands ↦
              logical-Succeeds parse and_op (count text) (split_by_operator text "AND") text ok
                (parts_shorter (count text) _ ands (cost-split text "AND"))
                (rw (flat, no_or, ands) at e)
          | inr no_and ↦
              operand-Succeeds parse text (strip "NOT " text) ok (not_shorter text)
                (rw (flat, no_or, no_and) at e)
        ]
      ]
    ]

fuel-Succeeds : (fuel : ℕ) → Succeeds fuel (parse_logical_expression fuel)
unfolding parse_logical_expression Succeeds
fuel-Succeeds zero t h = absurd (omega arith)
fuel-Succeeds (suc fuel) t h =
    step-Succeeds (parse_logical_expression fuel) (trim_space t)
      (λ u hu. fuel-Succeeds fuel u (omega (arith, hu, h, count-trim_space t)))

-- The parser answers on every text: it returns an expression or an error, and its fuel, a unit
-- more than the characters of the normalized text, is not used up.
pub parse_expression_total : (text : String) → parse_expression text ≢ out_of_fuel
unfolding parse_expression Succeeds
parse_expression_total text =
    fuel-Succeeds (fuel_of (normalize_expression text)) (normalize_expression text) (omega arith)
