-- ===== src/Spending/Rails.antt =====
-- The public rail of parseSpendRecipient.
use logos_pilot.Prelude.{
  ℕ, ◌≡◌, inl, inr, Bool, true, some, [], ◌∷◌, arith, Bool-cases, Option-cases, length, drop, every,
  ◌||◌, ◌&&◌, leb,
}
use logos_pilot.Text.{Text}
use logos_pilot.Text.Search.{starts_with, is_xdigit, to_lower}
use logos_pilot.Agent.{SpendRail}
use logos_pilot.Spending.Recipient.{fold_id, parse_spend_recipient, public_prefix}

-- A lower-case hex digit.
abbrev pub is_lower_hex : ℕ → Bool
is_lower_hex c = (leb b'0' c && leb c b'9') || (leb b'a' c && leb c b'f')

to_lower-hex : (c : ℕ) → is_xdigit c ≡ true → is_lower_hex (to_lower c) ≡ true
unfolding is_xdigit to_lower
to_lower-hex c h = ground (arith, h)

-- What the loop gives back: a text as long as the id, of lower-case digits.
fold_id_lem :
    (id out : Text)
    → fold_id id ≡ some out
    → (length out ≡ length id) × (every is_lower_hex out ≡ true)
unfolding fold_id
fold_id_lem [] out e = ground (arith, e)
fold_id_lem (c ∷ id) out e = elim (Bool-cases (is_xdigit c)) [
  | inr bad ↦ ground (arith, e, bad)
  | inl good ↦ elim (Option-cases (fold_id id)) [
    | inl stop ↦ ground (arith, e, good, stop)
    | inr (rest, there) ↦
        let ih = fold_id_lem id rest there in
        ground (arith, e, good, there, ih, to_lower-hex c good)
  ]
]

-- Where parseSpendRecipient selects the public rail, the recipient starts with "public:" and what the
-- wallet receives has 64 characters, each a lower-case hex digit.
pub parse_spend_recipient-public :
    (recipient : Text)
    → (parse_spend_recipient recipient).rail ≡ SpendRail.public_rail
    → (starts_with public_prefix recipient ≡ true)
      × ((length (parse_spend_recipient recipient).target ≡ 64)
          × (every is_lower_hex (parse_spend_recipient recipient).target ≡ true))
unfolding parse_spend_recipient
parse_spend_recipient-public recipient h = elim (Option-cases (fold_id (drop 7 recipient))) [
  | inl stop ↦ ground (arith, h, stop)
  | inr (out, there) ↦ ground (arith, h, there, fold_id_lem (drop 7 recipient) out there)
]
