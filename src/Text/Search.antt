-- ===== src/Text/Search.antt =====
-- std::string::find and compare against a literal, and the character classes of <cctype>.
use logos_pilot.Prelude.{ℕ, ◌+◌, Bool, true, false, [], ◌∷◌, ◌&&◌, ◌||◌, leb, ◌==◌, if◌then◌else◌}
use logos_pilot.Text.{Text}

-- `s.compare(0, t.size(), t) == 0` and `s.rfind(t, 0) == 0`.
unfoldable pub starts_with : Text → Text → Bool
starts_with [] s = true
starts_with (x ∷ t) [] = false
starts_with (x ∷ t) (y ∷ s) = x == y && starts_with t s

-- `s.find(t) != npos`, for a `t` that is not empty.
unfoldable pub contains : Text → Text → Bool
contains t [] = false
contains t (y ∷ s) = starts_with t (y ∷ s) || contains t s

-- std::isxdigit
unfoldable pub is_xdigit : ℕ → Bool
is_xdigit c = (leb b'0' c && leb c b'9') || (leb b'a' c && leb c b'f') || (leb b'A' c && leb c b'F')

-- std::tolower
unfoldable pub to_lower : ℕ → ℕ
to_lower c = if leb b'A' c && leb c b'Z' then c + 32 else c
