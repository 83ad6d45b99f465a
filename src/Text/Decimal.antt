-- ===== src/Text/Decimal.antt =====
-- `std::to_string` of the non-negative and the signed integers.
use logos_pilot.Prelude.{ℕ, zero, suc, ◌+◌, ◌/◌, ◌%◌, ◌∷◌, [], ◌==◌, if◌then◌else◌}
use logos_pilot.Prelude.Int.{ℤ, pos, negsuc}
use logos_pilot.Text.{Text}

-- The digits of a number in front of `acc`; the fuel is one more than the number, which is more
-- than it has digits.
unfoldable pub digits_before : ℕ → ℕ → Text → Text
digits_before zero n acc = acc
digits_before (suc f) n acc =
    let acc' = (b'0' + n % 10) ∷ acc in
    let rest = digits_before f (n / 10) acc' in if n / 10 == 0 then acc' else rest

unfoldable pub decimal : ℕ → Text
unfolding digits_before
decimal n = digits_before (suc n) n []

unfoldable pub decimal_ℤ : ℤ → Text
unfolding decimal
decimal_ℤ (pos n) = decimal n
decimal_ℤ (negsuc n) = b'-' ∷ decimal (suc n)
