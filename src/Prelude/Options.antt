-- ===== src/Prelude/Options.antt =====
-- Chains of fallible steps: a step that gives `none` ends the chain, as an exception or an early
-- return does.
use mathlib.Core.Option.{Option, none, some}

infixl 5 ◌>>=◌
abbrev pub ◌>>=◌ {ℓ κ} : {A : Type ℓ} {B : Type κ} → Option A → (A → Option B) → Option B
none >>= f = none
some a >>= f = f a
