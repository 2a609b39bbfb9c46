-- ===== src/Prelude/Text.antt =====
-- Go strings as lists of code points, with what `strings` and `unicode` do to them.
pub mod Trim
use Prim.Native.Char.{code}
use Prim.Native.Nat.{◌/◌, ◌%◌}
use Prim.Native.String
use Prim.Native.String.{String}
use mathlib.Core.List.{reverse}
use im_providers_service.Prelude.{
  ℕ, zero, suc, ◌+◌, ◌≡◌, refl, Bool, true, false, ◌||◌, ◌&&◌, List, [], ◌∷◌, map, leb, ltb, ◌==◌,
  nat_eq, string_eq, if◌then◌else◌,
}
use im_providers_service.Prelude.Int.{ℤ, pos, negsuc}

-- `String` has its own `[]` and `∷`.
abbrev pub codes : String → List ℕ
codes String.[] = []
codes (String.◌∷◌ c s) = code c ∷ codes s

-- unicode.IsSpace
unfoldable pub is_space : ℕ → Bool
is_space c =
    (leb 9 c && leb c 13)
    || c == 32
    || c == 0x85
    || c == 0xa0
    || c == 0x1680
    || (leb 0x2000 c && leb c 0x200a)
    || c == 0x2028
    || c == 0x2029
    || c == 0x202f
    || c == 0x205f
    || c == 0x3000

-- unicode.ToLower, as far as a comparison with an ASCII text can tell: the letters A to Z and the
-- two other runes whose lower case is ASCII (U+0130 and the Kelvin sign). Any other rune maps
-- outside ASCII, and is left alone here.
unfoldable pub to_lower_rune : ℕ → ℕ
to_lower_rune c =
    if leb b'A' c && leb c b'Z'
    then c + 32
    else if c == 0x130
    then b'i'
    else if c == 0x212a
    then b'k'
    else c

-- strings.ToLower
unfoldable pub to_lower : List ℕ → List ℕ
unfolding to_lower_rune
to_lower = map to_lower_rune

trim_left : List ℕ → List ℕ
trim_left [] = []
trim_left (c ∷ s) = let rest = trim_left s in if is_space c then rest else c ∷ s

-- strings.TrimSpace
unfoldable pub trim_space : List ℕ → List ℕ
unfolding trim_left is_space
trim_space s = reverse (trim_left (reverse (trim_left s)))

drop_blanks : List ℕ → List ℕ
drop_blanks [] = []
drop_blanks (c ∷ s) = let rest = drop_blanks s in if c == 32 then rest else c ∷ s

-- strings.Trim(s, " ")
unfoldable pub trim_blanks : List ℕ → List ℕ
unfolding drop_blanks
trim_blanks s = reverse (drop_blanks (reverse (drop_blanks s)))

abbrev is_nil : List ℕ → Bool
is_nil [] = true
is_nil (c ∷ s) = false

-- s == "" || strings.Trim(s, " ") == ""
unfoldable pub is_blank : String → Bool
unfolding trim_blanks
is_blank s = s == "" || is_nil (trim_blanks (codes s))

-- Equality of two texts.
abbrev pub text_beq : List ℕ → List ℕ → Bool
text_beq [] [] = true
text_beq [] (d ∷ t) = false
text_beq (c ∷ s) [] = false
text_beq (c ∷ s) (d ∷ t) = c == d && text_beq s t

-- strings.HasPrefix and strings.Contains, the prefix and the part first
abbrev pub has_prefix : List ℕ → List ℕ → Bool
has_prefix [] s = true
has_prefix (c ∷ p) [] = false
has_prefix (c ∷ p) (d ∷ s) = c == d && has_prefix p s

abbrev pub contains : List ℕ → List ℕ → Bool
contains part [] = is_nil part
contains part (c ∷ s) = has_prefix part (c ∷ s) || contains part s

abbrev pub is_digit : ℕ → Bool
is_digit c = leb 48 c && leb c 57

abbrev digit_text : ℕ → String
digit_text d =
    if d == 0
    then "0"
    else if d == 1
    then "1"
    else if d == 2
    then "2"
    else if d == 3
    then "3"
    else if d == 4
    then "4"
    else if d == 5
    then "5"
    else if d == 6
    then "6"
    else if d == 7
    then "7"
    else if d == 8
    then "8"
    else "9"

-- The digits of `n` before `acc`; `n + 1` rounds are enough, since each divides by ten.
decimal_from : ℕ → ℕ → String → String
decimal_from zero n acc = acc
decimal_from (suc fuel) n acc =
    let longer = decimal_from fuel (n / 10) (String.◌++◌ (digit_text (n % 10)) acc) in
    if ltb n 10 then String.◌++◌ (digit_text n) acc else longer

-- fmt's %d
unfoldable pub decimal : ℕ → String
unfolding decimal_from
decimal n = decimal_from (suc n) n ""

unfoldable pub decimal_ℤ : ℤ → String
unfolding decimal
decimal_ℤ (pos n) = decimal n
decimal_ℤ (negsuc n) = String.◌++◌ "-" (decimal (suc n))

decimal_2030 : decimal 2030 ≡ "2030"
unfolding decimal
decimal_2030 = refl
