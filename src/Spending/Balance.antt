-- ===== src/Spending/Balance.antt =====
-- pilotLeHexToDecimal and u128LeHex (pilot-module/src/pilot_identity.cpp): the wallet's little-endian
-- hex as a decimal text, and back.
use logos_pilot.Prelude.{
  ℕ, zero, suc, ◌+◌, ◌*◌, ◌-◌, ◌/◌, ◌%◌, List, [], ◌∷◌, ◌++◌, ◌||◌, not, length, every, replicate,
  ltb, leb, ◌==◌, if◌then◌else◌,
}
use logos_pilot.Text.{Text, is_empty}
use logos_pilot.Text.Decimal.{decimal}
use logos_pilot.Text.Search.{is_xdigit}
use logos_pilot.Spending.Amount.{hex_of_bytes}

-- The digit that std::stoul reads in base 16.
abbrev pub digit_of : ℕ → ℕ
digit_of c = if leb c b'9' then c - b'0' else if leb c b'F' then c + 10 - b'A' else c + 10 - b'a'

-- The loop over the bytes, the last one first.
unfoldable pub le_number : Text → ℕ
le_number [] = 0
le_number (h ∷ []) = 0
le_number (h ∷ l ∷ rest) =
    let higher = le_number rest in higher * 256 + (digit_of h * 16 + digit_of l)

unfoldable pub le_hex_to_decimal : Text → Text
le_hex_to_decimal s =
    if is_empty s || (not (length s % 2 == 0) || ltb 32 (length s))
    then []
    else if every is_xdigit s
    then decimal (le_number s)
    else []

-- The first eight bytes of the value.
abbrev pub le_bytes : ℕ → ℕ → List ℕ
le_bytes zero value = []
le_bytes (suc k) value = value % 256 ∷ le_bytes k (value / 256)

unfoldable pub u128_le_hex : ℕ → Text
u128_le_hex value = hex_of_bytes (le_bytes 8 value ++ replicate 8 0)
