-- ===== src/Money/Quiet.antt =====
-- The steps that a request of a peer starts with, and the wallet.
use logos_pilot.Prelude.{◌≡◌, refl, ◌∙◌, Bool, true, if_cases, List, arith}
use logos_pilot.Prelude.Int.{ℤ}
use logos_pilot.Text.{Text, is_empty}
use logos_pilot.Table.Laws.{IsKeyed}
use logos_pilot.Agent.{Effect, Pilot, spend_keyed, inbound_keyed}
use logos_pilot.Agent.States.{SpendState, InboundState}
use logos_pilot.Agent.World.{World}
use logos_pilot.Spending.Ledger.{create_spend_request, set_spend_state}
use logos_pilot.Spending.Approve.{release_held_spend}
use logos_pilot.Tasks.Inbound.Skills.{fail_task}
use logos_pilot.Tasks.Inbound.Process.{release_linked}
use logos_pilot.Money.Frame.{transfers, KeepsMoney, inbound_task_set_state-KeepsMoney}
use logos_pilot.Money.Rows.{Moves, Moves-refl, Moves-trans, KeepsMoney-Moves}
use logos_pilot.Money.Operations.{release_held_spend-Moves}

-- The requests evolve and, where `b` says so, nothing is handed to the wallet.
pub record Quiet (b : Bool) (p q : Pilot) : Type 0 where
  pub moves : Moves p q
  pub none : b ≡ true → transfers q.log ≡ transfers p.log

pub Quiet-refl : {b : Bool} (p : Pilot) → IsKeyed p.spends → Quiet b p p
Quiet-refl p v = record { moves = Moves-refl p v; none = λ _. refl }

pub Quiet-trans : {b : Bool} {p q r : Pilot} → Quiet b p q → Quiet b q r → Quiet b p r
Quiet-trans h k = record { moves = Moves-trans h.moves k.moves; none = λ e. k.none e ∙ h.none e }

pub KeepsMoney-Quiet : {b : Bool} {p q : Pilot} → IsKeyed p.spends → KeepsMoney p q → Quiet b p q
KeepsMoney-Quiet v k = record { moves = KeepsMoney-Moves v k; none = λ _. k.transfers }

pub set_spend_state-log :
    (w : World) (p : Pilot) (id : Text) (s : SpendState) → (set_spend_state w p id s).log ≡ p.log
unfolding set_spend_state
set_spend_state-log w p id s = ground arith

pub create-log :
    (w : World) (p : Pilot) (recipient : Text) (amount : ℤ) (reason : Text)
    → (create_spend_request w p recipient amount reason).0.log ≡ p.log
unfolding create_spend_request
create-log w p recipient amount reason = ground arith

pub release-log : (w : World) (p : Pilot) (id : Text) → (release_held_spend w p id).0.log ≡ p.log
unfolding release_held_spend
release-log w p id = ground arith

pub release-Quiet :
    {b : Bool} (w : World) (sid : Text) (p : Pilot)
    → IsKeyed p.spends
    → Quiet b p (release_linked w sid p)
unfolding release_linked
release-Quiet {b} w sid p v =
    if_cases (Quiet b p) (is_empty sid) (λ _. Quiet-refl p v)
      (λ _. record {
        moves = release_held_spend-Moves w p sid v;
        none = λ _. cong_transfers (release-log w p sid);
      })
  where
    cong_transfers : {l k : List Effect} → l ≡ k → transfers l ≡ transfers k
    cong_transfers e = rw e refl

pub fail-Quiet :
    {b : Bool} (w : World) (p : Pilot) (id result : Text)
    → IsKeyed p.spends
    → Quiet b p (fail_task w p id result)
fail-Quiet w p id result v =
    KeepsMoney-Quiet v (inbound_task_set_state-KeepsMoney w p id InboundState.failed result)
