-- ===== src/Common/Text.antt =====
-- What the program uses of Go's `strings` and `strconv`. A text is a sequence of code points; all
-- the separators and digits that the program looks for are ASCII.
pub mod Decimal
use Prim.Native.Char.{Char, code}
use Prim.Native.String.{[], ◌∷◌}
use mathlib.Core.List
use re_mazarin.Common.{
  ℕ, zero, suc, ◌+◌, ◌-◌, ◌*◌, ◌/◌, ◌%◌, String, Bool, true, false, ◌&&◌, ◌||◌, Option, none, some,
  leb, ◌==◌, if◌then◌else◌,
}
use re_mazarin.Common.Int.{ℤ, pos, negsuc, max_i64}

-- The white space of `unicode.IsSpace`.
unfoldable pub is_space : ℕ → Bool
is_space c =
    (leb 9 c && leb c 13)
    || (c == 32)
    || (c == 133)
    || (c == 160)
    || (c == 5760)
    || (leb 8192 c && leb c 8202)
    || (c == 8232)
    || (c == 8233)
    || (c == 8239)
    || (c == 8287)
    || (c == 12288)

unfoldable pub trim_left : String → String
unfolding is_space
trim_left [] = []
trim_left (c ∷ s) = if is_space (code c) then trim_left s else c ∷ s

cons_trimmed : Char → String → String
unfolding is_space
cons_trimmed c [] = if is_space (code c) then [] else c ∷ []
cons_trimmed c (d ∷ r) = c ∷ d ∷ r

unfoldable pub trim_right : String → String
unfolding cons_trimmed
trim_right [] = []
trim_right (c ∷ s) = cons_trimmed c (trim_right s)

-- strings.TrimSpace
unfoldable pub trim_space : String → String
unfolding trim_left trim_right
trim_space s = trim_right (trim_left s)

cons_head : Char → List.List String → List.List String
cons_head c List.[] = List.◌∷◌ (c ∷ []) List.[]
cons_head c (List.◌∷◌ p ps) = List.◌∷◌ (c ∷ p) ps

-- strings.Split at a separator of one character, given by its code.
unfoldable pub split : ℕ → String → List.List String
unfolding cons_head
split sep [] = List.◌∷◌ [] List.[]
split sep (c ∷ s) = if code c == sep then List.◌∷◌ [] (split sep s) else cons_head c (split sep s)

unfoldable pub contains : ℕ → String → Bool
contains sep [] = false
contains sep (c ∷ s) = code c == sep || contains sep s

-- The text before and after the last occurrence of a character: strings.LastIndex and two slices.
unfoldable pub split_last : ℕ → String → Option (String × String)
split_last sep [] = none
split_last sep (c ∷ s) = elim (split_last sep s) [
  | some (before, after) ↦ some (c ∷ before, after)
  | none ↦ if code c == sep then some ([], s) else none
]

-- The text before and after the first occurrence of a character.
unfoldable pub split_first : ℕ → String → Option (String × String)
split_first sep [] = none
split_first sep (c ∷ s) =
    let rest = split_first sep s in
    if code c == sep
    then some ([], s)
    else elim rest [ some (before, after) ↦ some (c ∷ before, after) | none ↦ none ]

unfoldable pub digit : ℕ → Char
digit d =
    if d == 0
    then "0"
    else if d == 1
    then "1"
    else if d == 2
    then "2"
    else if d == 3
    then "3"
    else if d == 4
    then "4"
    else if d == 5
    then "5"
    else if d == 6
    then "6"
    else if d == 7
    then "7"
    else if d == 8
    then "8"
    else "9"

-- The digits of `n` before `out`; `fuel` above `n` is enough, since a round divides `n` by ten.
unfoldable pub emit : ℕ → ℕ → String → String
unfolding digit
emit zero n out = out
emit (suc fuel) n out =
    let rest = emit fuel (n / 10) (digit (n % 10) ∷ out) in if n == 0 then out else rest

unfoldable pub itoa_ℕ : ℕ → String
unfolding emit
itoa_ℕ n = if n == 0 then "0" else emit (suc n) n []

-- strconv.Itoa
unfoldable pub itoa : ℤ → String
unfolding itoa_ℕ
itoa (pos n) = itoa_ℕ n
itoa (negsuc n) = "-" ∷ itoa_ℕ (suc n)

unfoldable pub scan : String → ℕ → Option ℕ
scan [] n = some n
scan (c ∷ s) n =
    if leb b'0' (code c) && leb (code c) b'9' then scan s (n * 10 + (code c - b'0')) else none

unfoldable pub scan_number : String → Option ℕ
unfolding scan
scan_number [] = none
scan_number (c ∷ s) = scan (c ∷ s) 0

positive : Option ℕ → Option ℤ
positive none = none
positive (some n) = if leb n max_i64 then some (pos n) else none

negative : Option ℕ → Option ℤ
negative none = none
negative (some zero) = some (pos 0)
negative (some (suc n)) = if leb n max_i64 then some (negsuc n) else none

-- strconv.Atoi: a sign or none, one digit or more, within an int64.
unfoldable pub atoi : String → Option ℤ
unfolding scan_number positive negative
atoi [] = none
atoi (c ∷ s) =
    if code c == b'-'
    then negative (scan_number s)
    else if code c == b'+'
    then positive (scan_number s)
    else positive (scan_number (c ∷ s))

-- The character at a position, or `d` behind the end.
char_or : Char → ℕ → String → Char
char_or d i [] = d
char_or d zero (c ∷ s) = c
char_or d (suc i) (c ∷ s) = char_or d i s

-- strings.ToLower on ASCII, which is all that a valid Host header holds.
unfoldable pub to_lower : String → String
unfolding char_or
to_lower [] = []
to_lower (c ∷ s) =
    (if leb b'A' (code c) && leb (code c) b'Z'
      then char_or c (code c - b'A') "abcdefghijklmnopqrstuvwxyz"
      else c)
    ∷ to_lower s

-- strings.ToUpper on ASCII.
unfoldable pub to_upper : String → String
unfolding char_or
to_upper [] = []
to_upper (c ∷ s) =
    (if leb b'a' (code c) && leb (code c) b'z'
      then char_or c (code c - b'a') "ABCDEFGHIJKLMNOPQRSTUVWXYZ"
      else c)
    ∷ to_upper s

same_text : String → String → Bool
same_text [] [] = true
same_text [] (d ∷ t) = false
same_text (c ∷ s) [] = false
same_text (c ∷ s) (d ∷ t) = code c == code d && same_text s t

-- strings.HasSuffix
unfoldable pub has_suffix : (suffix s : String) → Bool
unfolding same_text
has_suffix suffix [] = same_text suffix []
has_suffix suffix (c ∷ s) = same_text suffix (c ∷ s) || has_suffix suffix s

-- The rest of a text behind a prefix: strings.HasPrefix and strings.TrimPrefix.
unfoldable pub strip_prefix : (prefix s : String) → Option String
strip_prefix [] s = some s
strip_prefix (c ∷ p) [] = none
strip_prefix (c ∷ p) (d ∷ s) = if code c == code d then strip_prefix p s else none

cut_at : (s : String) → Option String → Option (String × String) → Option (String × String)
cut_at s (some after) rest = some ([], after)
cut_at [] none rest = none
cut_at (c ∷ s) none none = none
cut_at (c ∷ s) none (some (before, after)) = some (c ∷ before, after)

-- The text before and after the first occurrence of a text: strings.Index and two slices.
unfoldable pub cut : (marker s : String) → Option (String × String)
unfolding strip_prefix cut_at
cut marker [] = cut_at [] (strip_prefix marker []) none
cut marker (c ∷ s) = cut_at (c ∷ s) (strip_prefix marker (c ∷ s)) (cut marker s)
