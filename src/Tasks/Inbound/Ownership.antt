-- ===== src/Tasks/Inbound/Ownership.antt =====
-- The finality of the end of an inbound task.
use logos_pilot.Prelude.{◌≡◌, refl, true, some, arith, not, ◌&&◌}
use logos_pilot.Text.{Text, same}
use logos_pilot.Table.{find}
use logos_pilot.Table.Laws.{find-update}
use logos_pilot.Agent.{Pilot, InboundTask, inbound_keyed}
use logos_pilot.Agent.States.{InboundState, is_terminal}
use logos_pilot.Agent.World.{World}
use logos_pilot.Tasks.Linked.{inbound_task_set_state}

-- An inbound task that is completed, failed or canceled keeps its whole row under inboundTaskSetState,
-- whichever task, state and result that call names.
pub inbound_task_set_state-terminal :
    (w : World) (p : Pilot) (id k : Text) (s : InboundState) (result : Text) (t : InboundTask)
    → find k p.inbound ≡ some t
    → is_terminal t.state ≡ true
    → find k (inbound_task_set_state w p id s result).inbound ≡ some t
unfolding inbound_task_set_state
inbound_task_set_state-terminal w p id k s result t found over = ground (
  arith,
  found,
  over,
  find-update k (λ r. same r.id id && not (is_terminal r.state))
      (λ r. record r { state = s; result_json = result; updated_at = w.clock 0 }) p.inbound
      (λ _. refl),
)
