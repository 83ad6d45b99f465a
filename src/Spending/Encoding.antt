-- ===== src/Spending/Encoding.antt =====
-- The amount that the wallet reads: amountToHexLE against an independent decoder.
use logos_pilot.Prelude.{
  ℕ, zero, suc, ◌+◌, ◌*◌, ◌-◌, ◌/◌, ◌%◌, ◌<◌, ◌≡◌, refl, ◌∙◌, List, [], ◌∷◌, ◌++◌, length,
  replicate, ltb, arith, if◌then◌else◌, inl, inr, Bool-cases, ◌==◌,
}
use logos_pilot.Prelude.Int.{pos}
use logos_pilot.Text.{Text}
use logos_pilot.Spending.Amount.{hex_digit, hex_of_bytes, low_bytes, amount_to_hex_le}

-- The value of a lower-case hex digit.
abbrev pub digit_value : ℕ → ℕ
digit_value c = if ltb c b'a' then c - b'0' else c + 10 - b'a'

-- A little-endian number read from its hex bytes, two digits a byte.
pub le_value : Text → ℕ
le_value [] = 0
le_value (h ∷ []) = 0
le_value (h ∷ l ∷ rest) = digit_value h * 16 + digit_value l + 256 * le_value rest

-- The value of little-endian bytes.
unfoldable pub bytes_value : List ℕ → ℕ
bytes_value [] = 0
bytes_value (b ∷ bs) = b + 256 * bytes_value bs

abbrev pub AllBytes : List ℕ → Type 0
AllBytes [] = Unit
AllBytes (b ∷ bs) = (b < 256) × AllBytes bs

digit_value-hex_digit : (d : ℕ) → d < 16 → digit_value (hex_digit d) ≡ d
unfolding hex_digit
digit_value-hex_digit d h = ground (arith, h)

le_value-hex_of_bytes : (bs : List ℕ) → AllBytes bs → le_value (hex_of_bytes bs) ≡ bytes_value bs
unfolding le_value hex_of_bytes bytes_value
le_value-hex_of_bytes [] h = refl
le_value-hex_of_bytes (b ∷ bs) (h, hs) =
    rw
      (
        digit_value-hex_digit (b / 16) (omega (arith, h)),
        digit_value-hex_digit (b % 16) (omega arith),
        le_value-hex_of_bytes bs hs,
      )
      (omega arith)

abbrev pub bound : ℕ → ℕ
bound zero = 1
bound (suc k) = 256 * bound k

zeros-value :
    (k : ℕ) (tail : List ℕ) → bytes_value tail ≡ 0 → bytes_value (replicate k 0 ++ tail) ≡ 0
unfolding bytes_value
zeros-value zero tail e = e
zeros-value (suc k) tail e = omega (arith, zeros-value k tail e)

pub zeros-bytes : (k : ℕ) (tail : List ℕ) → AllBytes tail → AllBytes (replicate k 0 ++ tail)
zeros-bytes zero tail h = h
zeros-bytes (suc k) tail h = (omega arith, zeros-bytes k tail h)

pub low_bytes-value :
    (k n : ℕ) (tail : List ℕ)
    → n < bound k
    → bytes_value tail ≡ 0
    → bytes_value (low_bytes k n ++ tail) ≡ n
unfolding low_bytes bytes_value
low_bytes-value zero n tail h e = omega (arith, h, e)
low_bytes-value (suc k) n tail h e = elim (Bool-cases (n == 0)) [
  | inl z ↦ ground (arith, z, zeros-value k tail e)
  | inr nz ↦
      let rest = low_bytes-value k (n / 256) tail (omega (arith, h)) e in ground (arith, nz, rest)
]

pub low_bytes-bytes : (k n : ℕ) (tail : List ℕ) → AllBytes tail → AllBytes (low_bytes k n ++ tail)
unfolding low_bytes
low_bytes-bytes zero n tail h = h
low_bytes-bytes (suc k) n tail h = elim (Bool-cases (n == 0)) [
  | inl z ↦ rw z (omega arith, zeros-bytes k tail h)
  | inr nz ↦ rw nz (omega arith, low_bytes-bytes k (n / 256) tail h)
]

pub length-hex_of_bytes : (bs : List ℕ) → length (hex_of_bytes bs) ≡ 2 * length bs
unfolding hex_of_bytes
length-hex_of_bytes [] = refl
length-hex_of_bytes (b ∷ bs) = omega (arith, length-hex_of_bytes bs)

pub length-low_bytes : (k n : ℕ) (tail : List ℕ) → length (low_bytes k n ++ tail) ≡ k + length tail
unfolding low_bytes
length-low_bytes zero n tail = omega arith
length-low_bytes (suc k) n tail = elim (Bool-cases (n == 0)) [
  | inl z ↦ rw z (omega (arith, length-zeros k tail))
  | inr nz ↦ rw nz (omega (arith, length-low_bytes k (n / 256) tail))
]
  where
    length-zeros : (j : ℕ) (t : List ℕ) → length (replicate j 0 ++ t) ≡ j + length t
    length-zeros zero t = omega arith
    length-zeros (suc j) t = omega (arith, length-zeros j t)

-- The text that amountToHexLE gives for an amount from 0 up to the limit of its 8-byte loop has 32
-- characters and reads back, two hex digits a byte and the low byte first, as that amount.
pub amount_to_hex_le-roundtrip :
    (n : ℕ)
    → n < 18446744073709551616
    → (length (amount_to_hex_le (pos n)) ≡ 32) × (le_value (amount_to_hex_le (pos n)) ≡ n)
unfolding amount_to_hex_le bytes_value
amount_to_hex_le-roundtrip n h = (
  length-hex_of_bytes (low_bytes 8 n ++ replicate 8 0)
      ∙ omega (arith, length-low_bytes 8 n (replicate 8 0)),
  le_value-hex_of_bytes (low_bytes 8 n ++ replicate 8 0)
        (low_bytes-bytes 8 n (replicate 8 0) (zeros-bytes 8 [] tt))
      ∙ low_bytes-value 8 n (replicate 8 0) h refl,
)
