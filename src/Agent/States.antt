-- ===== src/Agent/States.antt =====
-- The values of the `state` columns, and the sets of them that the statements name.
use logos_pilot.Prelude.{Bool, true, false}

-- spend_requests.state
pub data SpendState : Type 0 where
  created held notified approved executing completed tx_failed rejected expired tx_unknown :
      SpendState

-- inbound_tasks.state
pub data InboundState : Type 0 where
  accepted working input_required completed failed canceled : InboundState

-- outbound_tasks.state
pub data OutboundState : Type 0 where
  submitted settling paid pay_failed accepted_nopay awaiting_approval failed canceled rejected :
      OutboundState
  pay_unresolved : OutboundState

-- `state IN ('HELD', 'NOTIFIED')`
abbrev pub is_held : SpendState → Bool
is_held SpendState.held = true
is_held SpendState.notified = true
is_held _ = false

-- `state IN ('CREATED', 'HELD', 'NOTIFIED')`
abbrev pub is_pending : SpendState → Bool
is_pending SpendState.created = true
is_pending SpendState.held = true
is_pending SpendState.notified = true
is_pending _ = false

-- `state IN ('COMPLETED', 'EXECUTING', 'APPROVED', 'TX_UNKNOWN')`
abbrev pub is_committed : SpendState → Bool
is_committed SpendState.completed = true
is_committed SpendState.executing = true
is_committed SpendState.approved = true
is_committed SpendState.tx_unknown = true
is_committed _ = false

-- `state == "COMPLETED"`
abbrev pub is_completed : SpendState → Bool
is_completed SpendState.completed = true
is_completed _ = false

-- `state == "EXECUTING"`
abbrev pub is_executing : SpendState → Bool
is_executing SpendState.executing = true
is_executing _ = false

-- The states besides COMPLETED from which `executeSpend` returns at once.
abbrev pub is_spent_or_dead : SpendState → Bool
is_spent_or_dead SpendState.executing = true
is_spent_or_dead SpendState.tx_failed = true
is_spent_or_dead SpendState.rejected = true
is_spent_or_dead SpendState.expired = true
is_spent_or_dead SpendState.tx_unknown = true
is_spent_or_dead _ = false

-- `state IN ('completed', 'failed', 'canceled')`
abbrev pub is_terminal : InboundState → Bool
is_terminal InboundState.completed = true
is_terminal InboundState.failed = true
is_terminal InboundState.canceled = true
is_terminal _ = false

abbrev pub is_input_required : InboundState → Bool
is_input_required InboundState.input_required = true
is_input_required _ = false

-- `state IN ('accepted', 'working')`
abbrev pub is_in_flight : InboundState → Bool
is_in_flight InboundState.accepted = true
is_in_flight InboundState.working = true
is_in_flight _ = false

-- `state IN ('awaiting-approval', 'settling')`
abbrev pub awaits_spend : OutboundState → Bool
awaits_spend OutboundState.awaiting_approval = true
awaits_spend OutboundState.settling = true
awaits_spend _ = false

-- `state IN ('submitted', 'settling')`
abbrev pub is_undecided : OutboundState → Bool
is_undecided OutboundState.submitted = true
is_undecided OutboundState.settling = true
is_undecided _ = false

abbrev pub is_submitted : OutboundState → Bool
is_submitted OutboundState.submitted = true
is_submitted _ = false

abbrev pub is_settling : OutboundState → Bool
is_settling OutboundState.settling = true
is_settling _ = false

abbrev pub is_awaiting_approval : OutboundState → Bool
is_awaiting_approval OutboundState.awaiting_approval = true
is_awaiting_approval _ = false

-- `state IN ('submitted', 'settling', 'awaiting-approval')`
abbrev pub is_open : OutboundState → Bool
is_open OutboundState.submitted = true
is_open OutboundState.settling = true
is_open OutboundState.awaiting_approval = true
is_open _ = false
