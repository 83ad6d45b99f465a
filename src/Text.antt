-- ===== src/Text.antt =====
-- Texts (std::string, QString after toStdString) as their bytes.
pub mod Decimal
pub mod Search
pub mod Flatten
pub mod Trim
use Prim.Native.Char.{code}
use Prim.Native.String.{String}
use logos_pilot.Prelude.{
  ℕ, ◌≡◌, refl, Bool, true, false, List, [], ◌∷◌, ◌||◌, arith, ℕ_discrete, ltb, ◌==◌, if◌then◌else◌,
}

abbrev pub Text : Type 0
Text = List ℕ

-- The bytes of an ASCII literal.
abbrev pub codes : String → Text
codes String.[] = []
codes (String.◌∷◌ c s) = code c ∷ codes s

pub head-eq : (x y : ℕ) (s t : Text) → ◌≡◌ {A = Text} (x ∷ s) (y ∷ t) → x ≡ y
head-eq x y s t e = cc

pub tail-eq : (x y : ℕ) (s t : Text) → ◌≡◌ {A = Text} (x ∷ s) (y ∷ t) → s ≡ t
tail-eq x y s t e = cc

unfoldable pub text_dec : (s t : Text) → Dec (s ≡ t)
text_dec [] [] = yes refl
text_dec [] (y ∷ t) = no (λ e. cc)
text_dec (x ∷ s) [] = no (λ e. cc)
text_dec (x ∷ s) (y ∷ t) = elim (ℕ_discrete x y) [
  | yes p ↦ elim (text_dec s t) [ yes q ↦ yes (cc) | no q ↦ no (λ e. q (tail-eq x y s t e)) ]
  | no p ↦ no (λ e. p (head-eq x y s t e))
]

-- `operator==` on texts.
abbrev pub same : Text → Text → Bool
same s t = elim (text_dec s t) [ yes _ ↦ true | no _ ↦ false ]

-- `empty()` and `isEmpty()`.
abbrev pub is_empty : Text → Bool
is_empty [] = true
is_empty (x ∷ s) = false

-- Whether a text is in a list: std::find, and the count of a std::set.
unfoldable pub is_among : Text → List Text → Bool
is_among x [] = false
is_among x (y ∷ ys) = same x y || is_among x ys

-- The order of SQLite's BINARY collation on TEXT: memcmp, and a proper prefix comes first.
unfoldable pub text_lt : Text → Text → Bool
text_lt [] [] = false
text_lt [] (y ∷ t) = true
text_lt (x ∷ s) [] = false
text_lt (x ∷ s) (y ∷ t) = if x == y then text_lt s t else ltb x y

pub same_refl : (s : Text) → same s s ≡ true
same_refl s = ground arith

pub same-eq : (s t : Text) → same s t ≡ true → s ≡ t
same-eq s t h = ground arith
