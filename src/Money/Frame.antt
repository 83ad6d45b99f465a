-- ===== src/Money/Frame.antt =====
-- The steps around a spend: messages to the owner and to peers, and task rows.
use logos_pilot.Prelude.{
  ℕ, zero, suc, ◌+◌, ◌≡◌, refl, Bool, Option, none, some, List, [], ◌∷◌, arith,
}
use logos_pilot.Text.{Text}
use logos_pilot.Agent.{
  Pilot, InboundTask, Effect, deliver, subscribe, unsubscribe, sync_to_block, transfer,
}
use logos_pilot.Agent.States.{InboundState, OutboundState}
use logos_pilot.Agent.World.{World, later}
use logos_pilot.Owner.Channel.{send_to_owner}
use logos_pilot.Tasks.Linked.{
  inbound_task_set_state, reply_to_peer, send_sealed, send_attempts, resume_inbound_task,
  resume_rows, first_waiting, advance_linked_outbound_task,
}

-- How many transfers were handed to the wallet.
abbrev pub transfers : List Effect → ℕ
transfers [] = 0
transfers (deliver t m ∷ log) = transfers log
transfers (subscribe t ∷ log) = transfers log
transfers (unsubscribe t ∷ log) = transfers log
transfers (sync_to_block h ∷ log) = transfers log
transfers (transfer c ∷ log) = suc (transfers log)

-- From `p` to `q` no spend request, limit or setting changes and no transfer is made.
pub record KeepsMoney (p q : Pilot) : Type 0 where
  pub spends : q.spends ≡ p.spends
  pub transfers : transfers q.log ≡ transfers p.log
  pub has_db : q.has_db ≡ p.has_db
  pub account : q.agent_account_id ≡ p.agent_account_id
  pub per_tx : q.spend_limit_per_tx ≡ p.spend_limit_per_tx
  pub per_period : q.spend_limit_per_period ≡ p.spend_limit_per_period
  pub period : q.spend_period_seconds ≡ p.spend_period_seconds
  pub config : q.config ≡ p.config

pub KeepsMoney-refl : (p : Pilot) → KeepsMoney p p
KeepsMoney-refl p = ground arith

pub KeepsMoney-trans : {p q r : Pilot} → KeepsMoney p q → KeepsMoney q r → KeepsMoney p r
KeepsMoney-trans h k = ground arith

pub send_to_owner-KeepsMoney :
    (w : World) (p : Pilot) (m : Text) → KeepsMoney p (send_to_owner w p m).0
unfolding send_to_owner
send_to_owner-KeepsMoney w p m = ground arith

pub inbound_task_set_state-KeepsMoney :
    (w : World) (p : Pilot) (id : Text) (s : InboundState) (result : Text)
    → KeepsMoney p (inbound_task_set_state w p id s result)
unfolding inbound_task_set_state
inbound_task_set_state-KeepsMoney w p id s result = ground arith

transfers-send_attempts :
    (n i : ℕ) (w : World) (topic payload : Text) (log : List Effect)
    → transfers (send_attempts n i w topic payload log).0 ≡ transfers log
transfers-send_attempts zero i w topic payload log = refl
transfers-send_attempts (suc n) i w topic payload log =
    ground (arith, transfers-send_attempts n (i + 1) w topic payload (deliver topic payload ∷ log))

send_sealed-KeepsMoney :
    (w : World) (p : Pilot) (topic : Text) (o : Option Text)
    → KeepsMoney p (send_sealed w p topic o).0
unfolding send_sealed
send_sealed-KeepsMoney w p topic none = ground arith
send_sealed-KeepsMoney w p topic (some payload) =
    ground (arith, transfers-send_attempts 3 0 w topic payload p.log)

pub reply_to_peer-KeepsMoney :
    (w : World) (p : Pilot) (topic key json : Text)
    → KeepsMoney p (reply_to_peer w p topic key json).0
unfolding reply_to_peer
reply_to_peer-KeepsMoney w p topic key json =
    ground (arith, send_sealed-KeepsMoney w p topic (w.encrypt key (w.sign_reply json)))

resume_rows-KeepsMoney :
    (w : World) (p : Pilot) (approved : Bool) (detail : Text) (ts : List InboundTask)
    → KeepsMoney p (resume_rows w p approved detail ts)
unfolding resume_rows
resume_rows-KeepsMoney w p approved detail [] = ground arith
resume_rows-KeepsMoney w p approved detail (t ∷ ts) =
    KeepsMoney-trans (inbound_task_set_state-KeepsMoney w p t.id _ _)
      (reply_to_peer-KeepsMoney (later 1 w) _ t.reply_topic t.sender_ecies _)

pub resume_inbound_task-KeepsMoney :
    (w : World) (p : Pilot) (sid : Text) (approved : Bool) (detail : Text)
    → KeepsMoney p (resume_inbound_task w p sid approved detail)
unfolding resume_inbound_task
resume_inbound_task-KeepsMoney w p sid approved detail =
    ground (arith, resume_rows-KeepsMoney w p approved detail (first_waiting sid p.inbound))

pub advance_linked_outbound_task-KeepsMoney :
    (w : World) (p : Pilot) (sid : Text) (s : OutboundState)
    → KeepsMoney p (advance_linked_outbound_task w p sid s)
unfolding advance_linked_outbound_task
advance_linked_outbound_task-KeepsMoney w p sid s = ground arith
