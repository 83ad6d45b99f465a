-- ===== src/Spending/Recipient.antt =====
-- parseSpendRecipient (pilot-module/src/pilot_spending.cpp): the wallet rail that the form of a
-- recipient selects.
use logos_pilot.Prelude.{Option, none, some, [], ◌∷◌, ◌||◌, drop, length, ◌==◌, if◌then◌else◌}
use logos_pilot.Text.{Text, codes}
use logos_pilot.Text.Search.{starts_with, contains, is_xdigit, to_lower}
use logos_pilot.Agent.{SpendRail}

pub record SpendTarget : Type 0 where
  pub rail : SpendRail
  pub target : Text

abbrev pub public_prefix : Text
public_prefix = codes "public:"

abbrev pub nullifier_key : Text
nullifier_key = codes "nullifier_public_key"

abbrev pub viewing_key : Text
viewing_key = codes "viewing_public_key"

abbrev pub invalid_target : SpendTarget
invalid_target = record { rail = SpendRail.invalid; target = [] }

-- The loop over the id: `none` at the first character that is no hex digit.
unfoldable pub fold_id : Text → Option Text
fold_id [] = some []
fold_id (c ∷ id) =
    if is_xdigit c
    then elim (fold_id id) [ none ↦ none | some rest ↦ some (to_lower c ∷ rest) ]
    else none

abbrev pub public_target : Option Text → SpendTarget
public_target none = invalid_target
public_target (some id) = record { rail = SpendRail.public_rail; target = id }

-- What follows "public:".
abbrev pub parse_public_id : Text → SpendTarget
parse_public_id id = if length id == 64 then public_target (fold_id id) else invalid_target

unfoldable pub parse_spend_recipient : Text → SpendTarget
parse_spend_recipient recipient =
    if contains nullifier_key recipient || contains viewing_key recipient
    then record { rail = SpendRail.private_keys; target = recipient }
    else if starts_with public_prefix recipient
    then parse_public_id (drop 7 recipient)
    else record { rail = SpendRail.private_owned; target = recipient }
