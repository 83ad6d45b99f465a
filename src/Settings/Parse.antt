-- ===== src/Settings/Parse.antt =====
-- std::stoll in base 10, which metaConfigure and loadIdentity read numbers with, and
-- pilotConfigureValue (pilot-module/src/pilot_meta.cpp).
use logos_pilot.Prelude.{
  ℕ, zero, suc, ◌+◌, ◌-◌, ◌*◌, ◌^◌, Bool, true, false, Option, none, some, [], ◌∷◌, ◌&&◌, ◌||◌,
  ◌==◌, leb, ltb, drop, if◌then◌else◌,
}
use logos_pilot.Prelude.Int.{ℤ, pos, negsuc}
use logos_pilot.Text.{Text, codes, is_empty}
use logos_pilot.Text.Search.{starts_with}
use logos_pilot.Text.Trim.{trim_left}

-- std::isspace
abbrev pub is_space : ℕ → Bool
is_space c = c == b' ' || leb 9 c && leb c 13

abbrev pub is_digit : ℕ → Bool
is_digit c = leb b'0' c && leb c b'9'

-- The number of the leading digits behind `acc`, and the rest.
unfoldable pub read_digits : ℕ → Text → ℕ × Text
read_digits acc [] = (acc, [])
read_digits acc (c ∷ s) = if is_digit c then read_digits (acc * 10 + (c - b'0')) s else (acc, c ∷ s)

abbrev negated : ℕ → ℤ
negated zero = pos 0
negated (suc n) = negsuc n

-- `none` is std::out_of_range of a 64-bit integer.
abbrev pub in_range : Bool → ℕ × Text → Option (ℤ × Text)
in_range true (n, rest) = if ltb (2 ^ 63) n then none else some (negated n, rest)
in_range false (n, rest) = if leb (2 ^ 63) n then none else some (pos n, rest)

-- `none` is std::invalid_argument on a text without digits.
abbrev pub read_number : Bool → Text → Option (ℤ × Text)
read_number negative [] = none
read_number negative (c ∷ s) =
    if is_digit c then in_range negative (read_digits 0 (c ∷ s)) else none

abbrev pub read_signed : Text → Option (ℤ × Text)
read_signed [] = none
read_signed (c ∷ s) =
    if c == b'-'
    then read_number true s
    else if c == b'+'
    then read_number false s
    else read_number false (c ∷ s)

-- The number and the text after it, `none` where std::stoll throws.
unfoldable pub stoll : Text → Option (ℤ × Text)
unfolding trim_left read_digits
stoll s = read_signed (trim_left is_space s)

abbrev whole : Option (ℤ × Text) → Option ℤ
whole none = none
whole (some (n, rest)) = if is_empty rest then some n else none

-- parseLL of metaConfigure: the whole text is a number.
unfoldable pub parse_ll : Text → Option ℤ
unfolding stoll
parse_ll v = whole (stoll v)

unfoldable pub configure_value : Text → Text
unfolding starts_with
configure_value wire = if starts_with (codes "str:") wire then drop 4 wire else wire
