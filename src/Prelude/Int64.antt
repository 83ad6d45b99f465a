-- ===== src/Prelude/Int64.antt =====
-- The `int64_t` of the source: its range, and its addition, which wraps round.
use Prim.Native.Nat.{◌-◌, ◌%◌, ◌^◌}
use mathlib.Core.Path.{◌≡◌, refl}
use mathlib.Core.Bool.{Bool, true}
use native.Mathlib.Omega.{arith}
use logos_pilot.Prelude.Tests.{ltb, if◌then◌else◌}
use logos_pilot.Prelude.Int.{ℤ, pos, negsuc, ◌+ℤ◌, ◌≤ℤ◌}

-- From -2^63 to 2^63 - 1.
unfoldable pub fits_int64 : ℤ → Bool
fits_int64 (pos n) = ltb n (2 ^ 63)
fits_int64 (negsuc n) = ltb n (2 ^ 63)

-- The integer in the range that differs by a multiple of 2^64.
unfoldable pub wrap_int64 : ℤ → ℤ
wrap_int64 (pos n) = let m = n % 2 ^ 64 in if ltb m (2 ^ 63) then pos m else negsuc (2 ^ 64 - m - 1)
wrap_int64 (negsuc n) =
    let m = n % 2 ^ 64 in if ltb m (2 ^ 63) then negsuc m else pos (2 ^ 64 - m - 1)

unfoldable pub add_int64 : ℤ → ℤ → ℤ
unfolding wrap_int64
add_int64 a b = wrap_int64 (a +ℤ b)

wrap-fits : (a : ℤ) → fits_int64 a ≡ true → wrap_int64 a ≡ a
unfolding fits_int64 wrap_int64
wrap-fits (pos n) h = ground arith
wrap-fits (negsuc n) h = ground arith

pub add_int64_exact : (a b : ℤ) → fits_int64 (a +ℤ b) ≡ true → add_int64 a b ≡ a +ℤ b
unfolding add_int64
add_int64_exact a b h = wrap-fits (a +ℤ b) h

-- A sum fits that lies between an integer that fits and another.
pub fits-between :
    (a b c : ℤ) → fits_int64 a ≡ true → fits_int64 c ≡ true → a ≤ℤ b → b ≤ℤ c → fits_int64 b ≡ true
unfolding fits_int64
fits-between a b c h k p q = ground arith

wraps :
    (add_int64 (pos 9223372036854775807) (pos 1) ≡ negsuc 9223372036854775807)
    × (add_int64 (negsuc 4) (pos 3) ≡ negsuc 1)
unfolding add_int64 wrap_int64 ◌+ℤ◌
wraps = (refl, refl)
