-- ===== src/Text/Flatten.antt =====
-- a2aFlattenForPrompt (pilot-module/src/pilot_a2a.cpp).
use logos_pilot.Prelude.{[], ◌∷◌, ◌||◌, ◌==◌, if◌then◌else◌}
use logos_pilot.Text.{Text}

-- CR and LF become spaces, so that a text of a peer cannot add lines to an owner prompt.
unfoldable pub flatten_for_prompt : Text → Text
flatten_for_prompt [] = []
flatten_for_prompt (c ∷ s) = (if c == 10 || c == 13 then b' ' else c) ∷ flatten_for_prompt s
