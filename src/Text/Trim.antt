-- ===== src/Text/Trim.antt =====
-- The trimming with find_first_not_of, find_last_not_of and substr.
use logos_pilot.Prelude.{ℕ, Bool, [], ◌∷◌, ◌&&◌, ◌||◌, ◌==◌, if◌then◌else◌}
use logos_pilot.Text.{Text, is_empty}

unfoldable pub trim_left : (ℕ → Bool) → Text → Text
trim_left p [] = []
trim_left p (x ∷ s) = let rest = trim_left p s in if p x then rest else x ∷ s

abbrev pub keep_unless : Bool → ℕ → Text → Text
keep_unless dropped x s = if dropped && is_empty s then [] else x ∷ s

unfoldable pub trim_right : (ℕ → Bool) → Text → Text
trim_right p [] = []
trim_right p (x ∷ s) = keep_unless (p x) x (trim_right p s)

-- The text from the first to the last character outside the set `p`.
unfoldable pub trim : (ℕ → Bool) → Text → Text
unfolding trim_left trim_right
trim p s = trim_right p (trim_left p s)

-- " \t\r\n"
abbrev pub is_blank : ℕ → Bool
is_blank c = c == b' ' || c == 9 || c == 13 || c == 10

-- " \t\r\n\"'"
abbrev pub is_blank_or_quote : ℕ → Bool
is_blank_or_quote c = is_blank c || c == b'"' || c == 39
