-- ===== src/Expressions/Text.antt =====
-- The functions on texts that evaluator.go uses, of Go's packages `strings` and `regexp`.
use Prim.Native.Char.{Char, code}
use Prim.Native.String.{◌++◌ as ◌+++◌}
use roost_keeper.Prelude.{
  ◌&&◌, ◌||◌, ◌∷◌, ◌==◌, if◌then◌else◌, ℕ, String, List, Option, Bool, suc, true, false, not, none,
  some, [], leb,
}

-- the character of `uppers` at the place of `c` in `lowers`
translate : Char → String → String → Char
translate c (String.◌∷◌ l ls) (String.◌∷◌ u us) = if code l == code c then u else translate c ls us
translate c String.[] us = c
translate c (String.◌∷◌ l ls) String.[] = c

unfoldable pub to_upper : Char → Char
unfolding translate
to_upper c = translate c "abcdefghijklmnopqrstuvwxyz" "ABCDEFGHIJKLMNOPQRSTUVWXYZ"

-- `strings.ToUpper`
unfoldable pub to_upper_text : String → String
unfolding to_upper
to_upper_text String.[] = String.[]
to_upper_text (String.◌∷◌ c s) = String.◌∷◌ (to_upper c) (to_upper_text s)

-- `unicode.IsSpace`: tab, line feed, vertical tab, form feed, carriage return and blank
unfoldable pub is_space : Char → Bool
is_space c = (leb 9 (code c) && leb (code c) 13) || code c == 32

-- `\s` of a regular expression, which has no vertical tab
unfoldable pub is_pattern_space : Char → Bool
unfolding is_space
is_pattern_space c = is_space c && not (code c == 11)

abbrev is_blank : String → Bool
is_blank String.[] = true
is_blank (String.◌∷◌ c s) = false

-- `strings.TrimSpace`
unfoldable pub trim_left : String → String
unfolding is_space
trim_left String.[] = String.[]
trim_left (String.◌∷◌ c s) = let rest = trim_left s in if is_space c then rest else String.◌∷◌ c s

unfoldable pub trim_right : String → String
unfolding is_space
trim_right String.[] = String.[]
trim_right (String.◌∷◌ c s) =
    let rest = trim_right s in if is_blank rest && is_space c then String.[] else String.◌∷◌ c rest

unfoldable pub trim_space : String → String
unfolding trim_left trim_right
trim_space s = trim_right (trim_left s)

-- `strings.ReplaceAll` of a character that stands twice
unfoldable pub replace_pairs : ℕ → String → String → String
replace_pairs c new String.[] = String.[]
replace_pairs c new (String.◌∷◌ x String.[]) = String.◌∷◌ x String.[]
replace_pairs c new (String.◌∷◌ x (String.◌∷◌ y s)) =
    let found = new +++ replace_pairs c new s in
    let kept = String.◌∷◌ x (replace_pairs c new (String.◌∷◌ y s)) in
    if code x == c && code y == c then found else kept

-- `strings.ReplaceAll` of one character
unfoldable pub replace_char : ℕ → String → String → String
replace_char c new String.[] = String.[]
replace_char c new (String.◌∷◌ x s) =
    let rest = replace_char c new s in if code x == c then new +++ rest else String.◌∷◌ x rest

abbrev begins_with_space : String → Bool
begins_with_space String.[] = false
begins_with_space (String.◌∷◌ c s) = is_pattern_space c

-- `\s+` replaced by a blank
unfoldable pub collapse_spaces : String → String
unfolding is_pattern_space
collapse_spaces String.[] = String.[]
collapse_spaces (String.◌∷◌ c s) =
    let rest = collapse_spaces s in
    if is_pattern_space c
    then if begins_with_space s then rest else " " +++ rest
    else String.◌∷◌ c rest

abbrev pub begins_word : String → Bool
begins_word String.[] = false
begins_word (String.◌∷◌ c s) = not (is_space c)

abbrev pub extend : Char → List String → List String
extend c [] = String.◌∷◌ c String.[] ∷ []
extend c (w ∷ ws) = String.◌∷◌ c w ∷ ws

-- `strings.Fields`
unfoldable pub fields : String → List String
unfolding is_space
fields String.[] = []
fields (String.◌∷◌ c s) =
    let rest = fields s in
    if is_space c
    then rest
    else if begins_word s
    then extend c rest
    else String.◌∷◌ c String.[] ∷ rest

-- `strings.Count` of one character
unfoldable pub count_char : ℕ → String → ℕ
count_char c String.[] = 0
count_char c (String.◌∷◌ x s) = let rest = count_char c s in if code x == c then suc rest else rest

-- `strings.HasSuffix` of one character, and the text without its last character
unfoldable pub ends_with : ℕ → String → Bool
ends_with c String.[] = false
ends_with c (String.◌∷◌ x String.[]) = code x == c
ends_with c (String.◌∷◌ x (String.◌∷◌ y s)) = ends_with c (String.◌∷◌ y s)

unfoldable pub drop_last : String → String
drop_last String.[] = String.[]
drop_last (String.◌∷◌ x String.[]) = String.[]
drop_last (String.◌∷◌ x (String.◌∷◌ y s)) = String.◌∷◌ x (drop_last (String.◌∷◌ y s))

-- `s[1:]`
unfoldable pub drop_first : String → String
drop_first String.[] = String.[]
drop_first (String.◌∷◌ x s) = s

-- the text after a prefix, where it has it
unfoldable pub strip : String → String → Option String
strip String.[] s = some s
strip (String.◌∷◌ p ps) String.[] = none
strip (String.◌∷◌ p ps) (String.◌∷◌ x s) =
    let rest = strip ps s in if code p == code x then rest else none
