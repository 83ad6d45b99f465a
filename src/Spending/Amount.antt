-- ===== src/Spending/Amount.antt =====
-- amountToHexLE (pilot-module/src/pilot_spending.cpp): an amount as the wallet's 16-byte
-- little-endian hex.
use logos_pilot.Prelude.{
  ℕ, zero, suc, ◌+◌, ◌/◌, ◌%◌, List, [], ◌∷◌, ◌++◌, replicate, ltb, ◌-◌, ◌==◌, if◌then◌else◌,
}
use logos_pilot.Prelude.Int.{ℤ, pos, negsuc}
use logos_pilot.Text.{Text}

-- A digit of "%02x".
unfoldable pub hex_digit : ℕ → ℕ
hex_digit d = if ltb d 10 then b'0' + d else b'a' + d - 10

-- snprintf "%02x" of each byte.
unfoldable pub hex_of_bytes : List ℕ → Text
unfolding hex_digit
hex_of_bytes [] = []
hex_of_bytes (b ∷ bs) = hex_digit (b / 16) ∷ hex_digit (b % 16) ∷ hex_of_bytes bs

-- The loop over the first `k` bytes: it stops when nothing is left of the amount, and the bytes that
-- it does not reach are zero.
unfoldable pub low_bytes : ℕ → ℕ → List ℕ
low_bytes zero n = []
low_bytes (suc k) n =
    let rest = low_bytes k (n / 256) in if n == 0 then replicate (suc k) 0 else (n % 256) ∷ rest

unfoldable pub amount_to_hex_le : ℤ → Text
unfolding low_bytes hex_of_bytes
amount_to_hex_le (pos n) = hex_of_bytes (low_bytes 8 n ++ replicate 8 0)
amount_to_hex_le (negsuc n) = hex_of_bytes (replicate 16 0)
