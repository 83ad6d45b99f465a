-- ===== src/Messaging/Members.antt =====
-- pilotRecipientKey and pilotParseMembers (pilot-module/src/pilot_messaging.cpp).
use logos_pilot.Prelude.{ℕ, Option, none, some, List, [], ◌∷◌, ◌==◌, if◌then◌else◌}
use logos_pilot.Text.{Text}
use logos_pilot.Text.Trim.{trim, is_blank_or_quote}
use logos_pilot.Messaging.Mailbox.{Wire, RecipientFields, MemberValue, string, object, other}

abbrev first_key : Text → Option Text → Option Text → Option Text → Text
first_key whole (some k) b c = k
first_key whole none (some k) c = k
first_key whole none none (some k) = k
first_key whole none none none = whole

unfoldable pub recipient_key_of : Text → Option RecipientFields → Text
recipient_key_of recipient none = recipient
recipient_key_of recipient (some f) =
    first_key recipient f.logos_enc_key f.enc_key f.viewing_public_key

unfoldable pub recipient_key : Wire → Text → Text
unfolding recipient_key_of
recipient_key w recipient = recipient_key_of recipient (w.parse_recipient recipient)

unfoldable pub trim_quotes : Text → Text
unfolding trim
trim_quotes m = trim is_blank_or_quote m

unfoldable pub member_of : Wire → MemberValue → Text
unfolding trim_quotes recipient_key
member_of w (string s) = trim_quotes s
member_of w (object s) = recipient_key w s
member_of w other = []

-- `if (!m.empty()) out.push_back(m)`, in front of what follows.
abbrev pub push_member : Text → List Text → List Text
push_member [] ms = ms
push_member (x ∷ m) ms = (x ∷ m) ∷ ms

unfoldable pub array_members : Wire → List MemberValue → List Text
unfolding member_of
array_members w [] = []
array_members w (v ∷ vs) = push_member (member_of w v) (array_members w vs)

-- `if (!s.empty() && s.front() == '[') s.erase(s.begin())`
unfoldable pub drop_open : Text → Text
drop_open [] = []
drop_open (x ∷ s) = if x == b'[' then s else x ∷ s

-- `if (!s.empty() && s.back() == ']') s.pop_back()`
unfoldable pub drop_close : Text → Text
drop_close [] = []
drop_close (x ∷ []) = if x == b']' then [] else x ∷ []
drop_close (x ∷ y ∷ s) = x ∷ drop_close (y ∷ s)

abbrev pub extend_line : ℕ → List Text → List Text
extend_line c [] = (c ∷ []) ∷ []
extend_line c (l ∷ ls) = (c ∷ l) ∷ ls

-- The lines of std::getline with ','. It does not give a last line that is empty, which is dropped
-- below in any case.
unfoldable pub comma_lines : Text → List Text
comma_lines [] = [] ∷ []
comma_lines (x ∷ s) =
    let lines = comma_lines s in if x == b',' then [] ∷ lines else extend_line x lines

unfoldable pub trimmed_members : List Text → List Text
unfolding trim_quotes
trimmed_members [] = []
trimmed_members (l ∷ ls) = push_member (trim_quotes l) (trimmed_members ls)

unfoldable pub listed_members : Text → List Text
unfolding trimmed_members comma_lines drop_open drop_close
listed_members s = trimmed_members (comma_lines (drop_close (drop_open s)))

unfoldable pub members_of : Wire → Text → Option (List MemberValue) → List Text
unfolding array_members listed_members
members_of w text none = listed_members text
members_of w text (some vs) = array_members w vs

unfoldable pub parse_member_list : Wire → Text → List Text
unfolding members_of
parse_member_list w text = members_of w text (w.parse_members text)
