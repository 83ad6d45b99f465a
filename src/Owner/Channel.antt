-- ===== src/Owner/Channel.antt =====
-- sendToOwner and deliverToOwner (pilot-module/src/pilot_owner.cpp).
use logos_pilot.Prelude.{Bool, true, false, Option, none, some, ◌∷◌, ◌||◌, not, if◌then◌else◌}
use logos_pilot.Text.{Text, is_empty}
use logos_pilot.Agent.{Pilot, deliver}
use logos_pilot.Agent.World.{World}

-- One send, whose confirmation is not waited for.
unfoldable pub deliver_to_owner : World → Pilot → Text → Pilot × Bool
deliver_to_owner w p payload =
    if not w.context_ready || is_empty p.owner_channel_id
    then (p, false)
    else (record p { log = deliver p.owner_channel_id payload ∷ p.log }, true)

-- The payload: sealed to the owner's key, or plain while no owner is bound.
abbrev owner_payload : World → Pilot → Text → Option Text
owner_payload w p message =
    if is_empty p.owner_npk then some message else w.encrypt p.owner_npk message

unfoldable pub send_to_owner : World → Pilot → Text → Pilot × Bool
unfolding deliver_to_owner
send_to_owner w p message =
    if not w.context_ready || is_empty p.owner_channel_id
    then (p, false)
    else elim (owner_payload w p message) [
      | none ↦ (p, false)
      | some payload ↦ deliver_to_owner w p payload
    ]
