-- ===== src/Prelude/Text.antt =====
-- Go's `strings`, `strconv` and the line scanner of `bufio`, on texts as lists of runes.
pub mod Words
pub mod Lines
pub mod Decimal
pub mod Base64
use Prim.Native.Char.{code}
use Prim.Native.Nat.{ℕ, zero, suc, ◌+◌, ◌*◌, ◌-◌, ◌/◌, ◌%◌, ◌^◌}
use Prim.Native.String.{String}
use mathlib.Core.List.{List, [], ◌∷◌, ◌++◌}
use mathlib.Core.Option.{Option, none, some}
use mathlib.Core.Bool.{Bool, true, false, not, ◌&&◌, ◌||◌}
use fluidfs.Prelude.Tests.{ltb, leb, ◌==◌, if◌then◌else◌}
use fluidfs.Prelude.Lists.{length, drop}

abbrev pub Text : Type 0
Text = List ℕ

-- The runes of a literal.
abbrev pub text : String → Text
text String.[] = []
text (String.◌∷◌ c s) = code c ∷ text s

abbrev pub text_eq : Text → Text → Bool
text_eq [] [] = true
text_eq [] (d ∷ t) = false
text_eq (c ∷ s) [] = false
text_eq (c ∷ s) (d ∷ t) = c == d && text_eq s t

abbrev pub is_empty : Text → Bool
is_empty [] = true
is_empty (c ∷ s) = false

abbrev pub between : ℕ → ℕ → ℕ → Bool
between lo hi c = leb lo c && leb c hi

-- `unicode.IsSpace`
abbrev pub is_space : ℕ → Bool
is_space c =
    between 9 13 c
    || c == 32
    || c == 0x85
    || c == 0xa0
    || c == 0x1680
    || between 0x2000 0x200a c
    || c == 0x2028
    || c == 0x2029
    || c == 0x202f
    || c == 0x205f
    || c == 0x3000

-- `strings.HasPrefix` and what follows the prefix.
abbrev pub after_prefix : Text → Text → Option Text
after_prefix [] s = some s
after_prefix (c ∷ p) [] = none
after_prefix (c ∷ p) (d ∷ s) = let rest = after_prefix p s in if c == d then rest else none

abbrev pub has_prefix : Text → Text → Bool
has_prefix s p = elim (after_prefix p s) [ none ↦ false | some rest ↦ true ]

-- `strings.TrimSpace`
unfoldable pub trim_left : Text → Text
trim_left [] = []
trim_left (c ∷ s) = let rest = trim_left s in if is_space c then rest else c ∷ s

-- A space at the end goes if nothing is left behind it.
abbrev pub put_back : ℕ → Text → Text
put_back c rest = if is_space c && is_empty rest then [] else c ∷ rest

unfoldable pub trim_right : Text → Text
trim_right [] = []
trim_right (c ∷ s) = put_back c (trim_right s)

unfoldable pub trim_space : Text → Text
unfolding trim_left trim_right
trim_space s = trim_right (trim_left s)

-- `strings.Fields`, with the field that has begun.
unfoldable pub fields_from : Text → Text → List Text
fields_from field [] = if is_empty field then [] else field ∷ []
fields_from field (c ∷ s) = elim (is_space c) [
  | false ↦ fields_from (field ++ c ∷ []) s
  | true ↦ if is_empty field then fields_from [] s else field ∷ fields_from [] s
]

unfoldable pub fields : Text → List Text
unfolding fields_from
fields s = fields_from [] s

-- `strings.Split` at one character, with the part that has begun.
unfoldable pub split_from : Text → ℕ → Text → List Text
split_from part sep [] = part ∷ []
split_from part sep (c ∷ s) = elim (c == sep) [
  | false ↦ split_from (part ++ c ∷ []) sep s
  | true ↦ part ∷ split_from [] sep s
]

unfoldable pub split : ℕ → Text → List Text
unfolding split_from
split sep s = split_from [] sep s

-- `strings.Join` with one character.
unfoldable pub join : ℕ → List Text → Text
join sep [] = []
join sep (s ∷ []) = s
join sep (s ∷ t ∷ ts) = s ++ sep ∷ join sep (t ∷ ts)

-- `bufio.ScanLines`: a last line may lack its newline, and a carriage return before it is dropped.
abbrev pub drop_cr : Text → Text
drop_cr [] = []
drop_cr (c ∷ []) = if c == 13 then [] else c ∷ []
drop_cr (c ∷ d ∷ s) = c ∷ drop_cr (d ∷ s)

unfoldable pub lines_from : Text → Text → List Text
lines_from line [] = if is_empty line then [] else line ∷ []
lines_from line (c ∷ s) = elim (c == 10) [
  | false ↦ lines_from (line ++ c ∷ []) s
  | true ↦ line ∷ lines_from [] s
]

-- `strconv.FormatUint(n, 10)`: the digits of `n` before others. Each round divides by ten, so `n + 1`
-- rounds are enough.
unfoldable pub digits : ℕ → ℕ → Text → Text
digits zero n out = out
digits (suc rounds) n out = elim (ltb n 10) [
  | true ↦ (b'0' + n) ∷ out
  | false ↦ digits rounds (n / 10) ((b'0' + n % 10) ∷ out)
]

unfoldable pub format_uint : ℕ → Text
unfolding digits
format_uint n = digits (suc n) n []

-- The number that a text of digits stands for.
unfoldable pub digits_value : ℕ → Text → Option ℕ
digits_value n [] = some n
digits_value n (c ∷ s) = elim (between b'0' b'9' c) [
  | false ↦ none
  | true ↦ digits_value (n * 10 + (c - b'0')) s
]

-- `strconv.ParseUint(s, 10, bits)`; an error is none.
unfoldable pub parse_uint : ℕ → Text → Option ℕ
unfolding digits_value
parse_uint bits [] = none
parse_uint bits (c ∷ s) = elim (digits_value 0 (c ∷ s)) [
  | none ↦ none
  | some n ↦ if ltb n (2 ^ bits) then some n else none
]

-- `strconv.ParseBool` and `strconv.FormatBool`.
abbrev pub is_one_of : Text → List Text → Bool
is_one_of s [] = false
is_one_of s (t ∷ ts) = text_eq s t || is_one_of s ts

unfoldable pub parse_bool : Text → Option Bool
parse_bool s =
    if is_one_of s (text "1" ∷ text "t" ∷ text "T" ∷ text "TRUE" ∷ text "true" ∷ text "True" ∷ [])
    then some true
    else if is_one_of s
        (text "0" ∷ text "f" ∷ text "F" ∷ text "FALSE" ∷ text "false" ∷ text "False" ∷ [])
    then some false
    else none

abbrev pub format_bool : Bool → Text
format_bool b = if b then text "true" else text "false"
