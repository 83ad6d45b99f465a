-- ===== src/Crypto/Hex.antt =====
-- bytesToHex, isHexString and hexToBytes (pilot-module/src/pilot_crypto.cpp).
use logos_pilot.Prelude.{
  ℕ, ◌+◌, ◌-◌, ◌*◌, ◌/◌, ◌%◌, ◌<◌, ◌≡◌, refl, Bool, true, List, [], ◌∷◌, ◌&&◌, not, arith, ltb, leb,
  ◌==◌, length, every, if◌then◌else◌,
}
use logos_pilot.Prelude.Lists.{All}
use logos_pilot.Text.{Text, is_empty}
use logos_pilot.Text.Search.{is_xdigit}

-- A std::vector<uint8_t>.
abbrev pub Bytes : Type 0
Bytes = List ℕ

abbrev pub IsBytes : Bytes → Type 0
IsBytes = All (λ (b : ℕ). b < 256)

-- One digit of std::hex.
unfoldable pub digit_char : ℕ → ℕ
digit_char d = if ltb d 10 then b'0' + d else b'a' + d - 10

unfoldable pub bytes_to_hex : Bytes → Text
unfolding digit_char
bytes_to_hex [] = []
bytes_to_hex (b ∷ bs) = digit_char (b / 16) ∷ digit_char (b % 16) ∷ bytes_to_hex bs

unfoldable pub is_hex_string : Text → Bool
unfolding is_xdigit
is_hex_string s = not (is_empty s) && length s % 2 == 0 && every is_xdigit s

-- A digit as std::stoi reads it in base 16.
unfoldable pub char_digit : ℕ → ℕ
char_digit c = if leb c b'9' then c - b'0' else if leb c b'F' then c + 10 - b'A' else c + 10 - b'a'

unfoldable pub byte_pairs : Text → Bytes
unfolding char_digit
byte_pairs [] = []
byte_pairs (x ∷ []) = []
byte_pairs (x ∷ y ∷ s) = (char_digit x * 16 + char_digit y) ∷ byte_pairs s

-- Anything that is not a hex string gives no bytes.
unfoldable pub hex_to_bytes : Text → Bytes
unfolding is_hex_string byte_pairs
hex_to_bytes s = if is_hex_string s then byte_pairs s else []

digit_char-IsXdigit : (d : ℕ) → d < 16 → is_xdigit (digit_char d) ≡ true
unfolding digit_char is_xdigit
digit_char-IsXdigit d h = ground arith

char_digit-digit_char : (d : ℕ) → d < 16 → char_digit (digit_char d) ≡ d
unfolding digit_char char_digit
char_digit-digit_char d h = ground arith

pub every_hex : (bs : Bytes) → IsBytes bs → every is_xdigit (bytes_to_hex bs) ≡ true
unfolding bytes_to_hex
every_hex [] h = refl
every_hex (b ∷ bs) (h, hs) =
    rw
      (
        digit_char-IsXdigit (b / 16) (omega arith),
        digit_char-IsXdigit (b % 16) (omega arith),
        every_hex bs hs,
      )
      refl

pub length-bytes_to_hex : (bs : Bytes) → length (bytes_to_hex bs) ≡ 2 * length bs
unfolding bytes_to_hex
length-bytes_to_hex [] = omega arith
length-bytes_to_hex (b ∷ bs) = omega (arith, length-bytes_to_hex bs)

pub byte_pairs-bytes_to_hex : (bs : Bytes) → IsBytes bs → byte_pairs (bytes_to_hex bs) ≡ bs
unfolding byte_pairs bytes_to_hex
byte_pairs-bytes_to_hex [] h = refl
byte_pairs-bytes_to_hex (b ∷ bs) (h, hs) =
    rw
      (
        char_digit-digit_char (b / 16) (omega arith),
        char_digit-digit_char (b % 16) (omega arith),
        byte_pairs-bytes_to_hex bs hs,
      )
      (ground arith)

bytes_to_hex-IsHexString :
    (b : ℕ) (bs : Bytes) → IsBytes (b ∷ bs) → is_hex_string (bytes_to_hex (b ∷ bs)) ≡ true
unfolding is_hex_string bytes_to_hex
bytes_to_hex-IsHexString b bs h =
    ground (arith, every_hex (b ∷ bs) h, length-bytes_to_hex (b ∷ bs), length-bytes_to_hex bs)

-- Bytes that were written as hex are read back.
pub hex_to_bytes-bytes_to_hex : (bs : Bytes) → IsBytes bs → hex_to_bytes (bytes_to_hex bs) ≡ bs
unfolding hex_to_bytes
hex_to_bytes-bytes_to_hex [] h = unfold bytes_to_hex is_hex_string in refl
hex_to_bytes-bytes_to_hex (b ∷ bs) h =
    rw (bytes_to_hex-IsHexString b bs h) (byte_pairs-bytes_to_hex (b ∷ bs) h)
