-- ===== src/Expressions/Fuel.antt =====
-- The fuel of the parser of evaluator.go is enough for every text.
use Prim.Native.Char.{Char}
use Prim.Native.String.{count, ◌++◌ as ◌+++◌}
use text.Mathlib.TextLemmas.{length-nil, length-cons, length-append as count-append}
use roost_keeper.Prelude.{
  ◌+◌, ◌≤◌, ◌≡◌, ◌⊎◌, ◌∷◌, ◌++◌, ◌+ℤ◌, if◌then◌else◌, ℕ, ℤ, String, List, suc, true, false, [],
  refl, inl, inr, arith, sub_ℕ,
}
use roost_keeper.Expressions.Text.{
  extend, begins_word, trim_space, trim_left, trim_right, is_space, fields, count_char,
}
use roost_keeper.Expressions.Parser.{is_blank, closed, split_loop}

count-trim_left : (s : String) → count (trim_left s) ≤ count s
unfolding trim_left
count-trim_left String.[] = omega arith
count-trim_left (String.◌∷◌ c s) = ground (arith, length-cons c s, count-trim_left s)

count-trim_right : (s : String) → count (trim_right s) ≤ count s
unfolding trim_right
count-trim_right String.[] = omega arith
count-trim_right (String.◌∷◌ c s) =
    ground (arith, length-nil, length-cons c s, length-cons c (trim_right s), count-trim_right s)

pub count-trim_space : (s : String) → count (trim_space s) ≤ count s
unfolding trim_space
count-trim_space s = omega (arith, count-trim_right (trim_left s), count-trim_left s)

-- the characters of some texts, with one more for each
unfoldable pub cost : List String → ℕ
cost [] = 0
cost (w ∷ ws) = suc (count w) + cost ws

cost-extend :
    (c : Char) (ws : List String) → (cost (extend c ws) ≤ 2) ⊎ (cost (extend c ws) ≤ suc (cost ws))
unfolding cost
cost-extend c [] = inl (omega (arith, length-cons c String.[], length-nil))
cost-extend c (w ∷ ws) = inr (omega (arith, length-cons c w))

cost-word : (c : Char) (ws : List String) → cost (String.◌∷◌ c String.[] ∷ ws) ≡ suc (suc (cost ws))
unfolding cost
cost-word c ws = omega (arith, length-cons c String.[], length-nil)

-- the words after a blank cost less
cost-space :
    (d : Char) (s : String)
    → is_space d ≡ true
    → cost (fields s) ≤ suc (count s)
    → cost (fields (String.◌∷◌ d s)) ≤ count (String.◌∷◌ d s)
unfolding fields
cost-space d s blank h = rw blank (omega (arith, h, length-cons d s))

cost-fields-cons :
    (c : Char) (s : String)
    → cost (fields s) ≤ suc (count s)
    → (begins_word s ≡ false → cost (fields s) ≤ count s)
    → cost (fields (String.◌∷◌ c s)) ≤ suc (count (String.◌∷◌ c s))
unfolding fields
cost-fields-cons c s h blank =
    ground (arith, h, blank, cost-extend c (fields s), cost-word c (fields s), length-cons c s)

pub cost-fields : (s : String) → cost (fields s) ≤ suc (count s)
unfolding fields cost
cost-fields String.[] = omega arith
cost-fields (String.◌∷◌ c String.[]) =
    cost-fields-cons c String.[] (cost-fields String.[]) (λ h. omega arith)
cost-fields (String.◌∷◌ c (String.◌∷◌ d s)) =
    cost-fields-cons c (String.◌∷◌ d s) (cost-fields (String.◌∷◌ d s))
      (λ h. cost-space d s (ground (arith, h)) (cost-fields s))

cost-append : (xs ys : List String) → cost (xs ++ ys) ≡ cost xs + cost ys
unfolding cost
cost-append [] ys = omega arith
cost-append (x ∷ xs) ys = omega (arith, cost-append xs ys)

-- what a part that is not closed yet will cost
unfoldable pub extra : String → ℕ
extra current = if is_blank current then 0 else suc (count current)

extra-le : (current : String) → extra current ≤ suc (count current)
unfolding extra
extra-le current = ground arith

pub extra-nil : extra "" ≡ 0
unfolding extra
extra-nil = refl

extra-some : (current : String) → is_blank current ≡ false → extra current ≡ suc (count current)
unfolding extra
extra-some current h = rw h refl

cost-closed :
    (parts : List String) (current : String)
    → cost (closed parts current) ≤ cost parts + extra current
unfolding cost extra
cost-closed parts current =
    ground (arith, cost-append parts (trim_space current ∷ []), count-trim_space current)

pub cost-split_loop :
    (op : String) (words : List String) (level : ℤ) (current : String) (parts : List String)
    → cost (split_loop op words level current parts) ≤ cost parts + extra current + cost words
unfolding split_loop cost
cost-split_loop op [] level current parts = omega (arith, cost-closed parts current)
cost-split_loop op (word ∷ words) level current parts =
    let next = level +ℤ sub_ℕ (count_char b'(' word) (count_char b')' word) in
    ground (
      arith,
      cost-split_loop op words next "" (closed parts current),
      cost-split_loop op words next word parts,
      cost-split_loop op words next (current +++ " " +++ word) parts,
      cost-closed parts current,
      extra-nil,
      extra-some current,
      extra-le word,
      extra-le (current +++ " " +++ word),
      count-append current (" " +++ word),
      count-append " " word,
    )
