-- ===== src/Spending/Numbers.antt =====
-- The wallet's little-endian hex and the decimal text that owners see.
use logos_pilot.Prelude.{
  ℕ, zero, suc, ◌/◌, ◌%◌, ◌<◌, ◌≡◌, refl, ap, ◌∙◌, inl, inr, true, List, [], ◌∷◌, ◌++◌, length,
  every, replicate, arith, Bool-cases, ◌==◌,
}
use logos_pilot.Prelude.Int.{pos}
use logos_pilot.Text.{Text}
use logos_pilot.Text.Decimal.{decimal}
use logos_pilot.Text.Search.{is_xdigit}
use logos_pilot.Spending.Amount.{amount_to_hex_le, hex_digit, hex_of_bytes, low_bytes}
use logos_pilot.Spending.Balance.{digit_of, le_number, le_hex_to_decimal, le_bytes, u128_le_hex}
use logos_pilot.Spending.Encoding.{
  AllBytes, bytes_value, low_bytes-bytes, low_bytes-value, length-hex_of_bytes, length-low_bytes,
  zeros-bytes,
}

digit_lem : (d : ℕ) → d < 16 → (digit_of (hex_digit d) ≡ d) × (is_xdigit (hex_digit d) ≡ true)
unfolding hex_digit is_xdigit
digit_lem d h = ground (arith, h)

number_lem :
    (bs : List ℕ)
    → AllBytes bs
    → (le_number (hex_of_bytes bs) ≡ bytes_value bs) × (every is_xdigit (hex_of_bytes bs) ≡ true)
unfolding le_number hex_of_bytes bytes_value
number_lem [] h = (refl, refl)
number_lem (b ∷ bs) (h, hs) =
    let high = digit_lem (b / 16) (omega (arith, h)) in
    let low = digit_lem (b % 16) (omega arith) in
    let (value, digits) = number_lem bs hs in
    (rw (high.0, low.0, value) (omega arith), ground (arith, high.1, low.1, digits))

full_lem :
    (s : Text)
    → length s ≡ 32
    → every is_xdigit s ≡ true
    → le_hex_to_decimal s ≡ decimal (le_number s)
unfolding le_hex_to_decimal
full_lem [] size digits = ground (arith, size)
full_lem (c ∷ s) size digits = rw size (ground (arith, digits))

-- An amount from 0 up to the limit of amountToHexLE's loop, written for the wallet by amountToHexLE
-- and read back by pilotLeHexToDecimal, gives the decimal text of the amount.
pub le_hex_to_decimal-amount_to_hex_le :
    (n : ℕ) → n < 18446744073709551616 → le_hex_to_decimal (amount_to_hex_le (pos n)) ≡ decimal n
unfolding amount_to_hex_le bytes_value
le_hex_to_decimal-amount_to_hex_le n h =
    let bytes = low_bytes 8 n ++ replicate 8 0 in
    let (value, digits) =
      number_lem bytes (low_bytes-bytes 8 n (replicate 8 0) (zeros-bytes 8 [] tt)) in
    full_lem (hex_of_bytes bytes)
      (length-hex_of_bytes bytes ∙ omega (arith, length-low_bytes 8 n (replicate 8 0))) digits
    ∙ ap decimal (value ∙ low_bytes-value 8 n (replicate 8 0) h refl)

zero_bytes : (k n : ℕ) → n ≡ 0 → replicate k 0 ≡ le_bytes k n
zero_bytes zero n z = refl
zero_bytes (suc k) n z = ground (arith, z, zero_bytes k (n / 256))

low_le_bytes : (k n : ℕ) → low_bytes k n ≡ le_bytes k n
unfolding low_bytes
low_le_bytes zero n = refl
low_le_bytes (suc k) n = elim (Bool-cases (n == 0)) [
  | inl z ↦ ground (arith, z, zero_bytes k (n / 256))
  | inr nz ↦ ground (arith, nz, low_le_bytes k (n / 256))
]

-- amountToHexLE, whose loop stops when nothing is left, and u128LeHex, which always writes eight bytes,
-- give the same text for every amount that is not negative.
pub amount_to_hex_le-u128_le_hex : (n : ℕ) → amount_to_hex_le (pos n) ≡ u128_le_hex n
unfolding amount_to_hex_le u128_le_hex
amount_to_hex_le-u128_le_hex n = ap (λ bs. hex_of_bytes (bs ++ replicate 8 0)) (low_le_bytes 8 n)
