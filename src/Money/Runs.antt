-- ===== src/Money/Runs.antt =====
-- Runs of the agent: operations in any order, with any answers of the world.
use logos_pilot.Prelude.{List, ℕ, ◌+◌, ◌≤◌, ◌≡◌, Bool, false, Option, none, some, arith}
use logos_pilot.Prelude.Int.{ℤ}
use logos_pilot.Text.{Text}
use logos_pilot.Table.{find}
use logos_pilot.Table.Laws.{IsKeyed}
use logos_pilot.Table.Sums.{tally}
use logos_pilot.Agent.{Pilot, Spend, Card, Discovered, spend_keyed, discovered_keyed}
use logos_pilot.Agent.World.{World}
use logos_pilot.Cards.Cache.{cache_discovered_card}
use logos_pilot.Spending.Execute.{execute_spend}
use logos_pilot.Spending.Approve.{approve_spend, reject_spend, release_held_spend}
use logos_pilot.Spending.Expire.{expire_stale_spends, get_pending_spends}
use logos_pilot.Spending.Send.{wallet_send, set_spending_limits}
use logos_pilot.Spending.Recover.{reconcile_executing_spends, recover_pending_transactions}
use logos_pilot.Tasks.Settle.{settle_outbound_reply, verify_and_settle_reply, Reply}
use logos_pilot.Tasks.Inbound.Request.{Env, Request}
use logos_pilot.Tasks.Inbound.Process.{process_inbound_request}
use logos_pilot.Money.Frame.{transfers}
use logos_pilot.Money.Rows.{RowMoves, attempt, Moves, Moves-refl, Moves-trans, KeepsMoney-Moves}
use logos_pilot.Money.Execute.{execute_spend-Moves}
use logos_pilot.Money.Operations.{approve_spend-Moves, reject_spend-Moves, release_held_spend-Moves}
use logos_pilot.Money.Sweeps.{
  expire_stale_spends-Moves, get_pending_spends-Moves, reconcile_executing_spends-Moves,
  recover_pending_transactions-Moves,
}
use logos_pilot.Money.Sends.{wallet_send-Moves}
use logos_pilot.Money.Settle.{settle_outbound_reply-Moves, verify_and_settle_reply-Moves}
use logos_pilot.Tasks.Recover.{outbound_tasks_recover, inbound_tasks_recover}
use logos_pilot.Tasks.Inbound.Authenticate.{Envelope, verify_inbound_request}
use logos_pilot.Money.Restart.{outbound_tasks_recover-KeepsMoney}
use logos_pilot.Money.Idle.{
  discover-KeepsMoney, restart_inbound-KeepsMoney, authenticate-KeepsMoney,
}
use logos_pilot.Money.Submitted.{agent_task-KeepsMoney, agent_subscribe-KeepsMoney}
use logos_pilot.Money.Canceled.{agent_cancel-Cancels}
use logos_pilot.Tasks.Outbound.Submit.{agent_task, agent_subscribe}
use logos_pilot.Tasks.Outbound.Cancel.{agent_cancel}
use logos_pilot.Money.Inbound.{process_inbound_request-Quiet}

-- The runs from a state: these operations on spend requests, own tasks, tasks of peers and cards, one
-- after another, in any order, each in a world of its own. An operation that creates a request gets an
-- id that is not taken; while a skill is dispatched, other operations may run. Funding of the agent's
-- own account and program calls, which hand the wallet transactions without a spend request, are not
-- among them.
pub data Run : Pilot → Pilot → Type 0 where
  start : {p : Pilot} → Run p p
  send :
      {p q : Pilot}
      → Run p q
      → (w : World) (recipient : Text) (amount : ℤ) (reason : Text)
      → find w.generated_id q.spends ≡ none
      → Run p (wallet_send w q recipient amount reason).0
  execute : {p q : Pilot} → Run p q → (w : World) (id : Text) → Run p (execute_spend w q id).0
  approve : {p q : Pilot} → Run p q → (w : World) (id : Text) → Run p (approve_spend w q id).0
  reject : {p q : Pilot} → Run p q → (w : World) (id : Text) → Run p (reject_spend w q id).0
  release : {p q : Pilot} → Run p q → (w : World) (id : Text) → Run p (release_held_spend w q id).0
  expire : {p q : Pilot} → Run p q → (w : World) → Run p (expire_stale_spends w q).0
  list : {p q : Pilot} → Run p q → (w : World) → Run p (get_pending_spends w q).0
  limits :
      {p q : Pilot}
      → Run p q
      → (per_transaction per_period period_seconds : ℤ)
      → Run p (set_spending_limits q per_transaction per_period period_seconds).0
  reconcile : {p q : Pilot} → Run p q → (w : World) → Run p (reconcile_executing_spends w q)
  recover : {p q : Pilot} → Run p q → (w : World) → Run p (recover_pending_transactions w q)
  discover :
      {p q : Pilot}
      → Run p q
      → (w : World) (c : Card) (topic : Text) (last_seen : ℕ)
      → Run p (cache_discovered_card w q c topic last_seen).0
  reply :
      {p q : Pilot}
      → Run p q
      → (w : World) (id : Text) (r : Option Reply) → find w.generated_id q.spends ≡ none
      → Run p (verify_and_settle_reply w q id r)
  settle :
      {p q : Pilot}
      → Run p q
      → (w : World) (id state : Text) → find w.generated_id q.spends ≡ none
      → Run p (settle_outbound_reply w q id state)
  restart_outbound : {p q : Pilot} → Run p q → (w : World) → Run p (outbound_tasks_recover w q)
  restart_inbound :
      {p q : Pilot}
      → Run p q
      → (w : World) (e : Env) (newest_first : List Discovered → List Discovered)
      → Run p (inbound_tasks_recover w e newest_first q)
  authenticate :
      {p q : Pilot} → Run p q → (w : World) (r : Envelope) → Run p (verify_inbound_request w q r).0
  task :
      {p q : Pilot}
      → Run p q
      → (w : World) (address skill payload : Text) → Run p (agent_task w q address skill payload).0
  follow :
      {p q : Pilot}
      → Run p q
      → (w : World) (address id payload : Text) → Run p (agent_subscribe w q address id payload).0
  cancel :
      {p q : Pilot}
      → Run p q
      → (w : World) (address id payload : Text) → Run p (agent_cancel w q address id payload).0
  request :
      {p q : Pilot}
      → Run p q
      → (w : World) (e : Env) (r : Option Request) (npk : Text) (first_contact : Bool)
      → ((x : Pilot) → Run x (e.meanwhile x))
      → find w.generated_id q.spends ≡ none
      → Run p (process_inbound_request w e q r npk first_contact).0

limits-Moves :
    (p : Pilot) (per_transaction per_period period_seconds : ℤ)
    → IsKeyed p.spends
    → Moves p (set_spending_limits p per_transaction per_period period_seconds).0
unfolding set_spending_limits
limits-Moves p a b c v = record {
  keyed = v;
  evolves = (Moves-refl p v).evolves;
  once = omega arith;
}

pub run-Moves : {p q : Pilot} → Run p q → IsKeyed p.spends → Moves p q
run-Moves {p} start v = Moves-refl p v
run-Moves (send h w recipient amount reason fresh) v =
    let m = run-Moves h v in
    Moves-trans m (wallet_send-Moves w _ recipient amount reason m.keyed fresh)
run-Moves (execute h w id) v =
    let m = run-Moves h v in Moves-trans m (execute_spend-Moves w _ id m.keyed)
run-Moves (approve h w id) v =
    let m = run-Moves h v in Moves-trans m (approve_spend-Moves w _ id m.keyed)
run-Moves (reject h w id) v =
    let m = run-Moves h v in Moves-trans m (reject_spend-Moves w _ id m.keyed)
run-Moves (release h w id) v =
    let m = run-Moves h v in Moves-trans m (release_held_spend-Moves w _ id m.keyed)
run-Moves (expire h w) v =
    let m = run-Moves h v in Moves-trans m (expire_stale_spends-Moves w _ m.keyed)
run-Moves (list h w) v =
    let m = run-Moves h v in Moves-trans m (get_pending_spends-Moves w _ m.keyed)
run-Moves (limits h a b c) v = let m = run-Moves h v in Moves-trans m (limits-Moves _ a b c m.keyed)
run-Moves (reconcile h w) v =
    let m = run-Moves h v in Moves-trans m (reconcile_executing_spends-Moves w _ m.keyed)
run-Moves (recover h w) v =
    let m = run-Moves h v in Moves-trans m (recover_pending_transactions-Moves w _ m.keyed)
run-Moves (discover h w c topic last_seen) v =
    let m = run-Moves h v in
    Moves-trans m (KeepsMoney-Moves m.keyed (discover-KeepsMoney w _ c topic last_seen))
run-Moves (reply h w id r fresh) v =
    let m = run-Moves h v in Moves-trans m (verify_and_settle_reply-Moves w _ id r m.keyed fresh)
run-Moves (settle h w id state fresh) v =
    let m = run-Moves h v in Moves-trans m (settle_outbound_reply-Moves w _ id state m.keyed fresh)
run-Moves (restart_outbound h w) v =
    let m = run-Moves h v in
    Moves-trans m (KeepsMoney-Moves m.keyed (outbound_tasks_recover-KeepsMoney w _))
run-Moves (restart_inbound h w e newest_first) v =
    let m = run-Moves h v in
    Moves-trans m (KeepsMoney-Moves m.keyed (restart_inbound-KeepsMoney w e newest_first _))
run-Moves (authenticate h w r) v =
    let m = run-Moves h v in
    Moves-trans m (KeepsMoney-Moves m.keyed (authenticate-KeepsMoney w _ r))
run-Moves (task h w address skill payload) v =
    let m = run-Moves h v in
    Moves-trans m (KeepsMoney-Moves m.keyed (agent_task-KeepsMoney w _ address skill payload))
run-Moves (follow h w address id payload) v =
    let m = run-Moves h v in
    Moves-trans m (KeepsMoney-Moves m.keyed (agent_subscribe-KeepsMoney w _ address id payload))
run-Moves (cancel h w address id payload) v =
    let m = run-Moves h v in
    Moves-trans m (KeepsMoney-Moves m.keyed (agent_cancel-Cancels w _ address id payload).0)
run-Moves (request h w e r npk first_contact other fresh) v =
    let m = run-Moves h v in
    Moves-trans m
      (process_inbound_request-Quiet {b = false} w e _ r npk first_contact
        (λ x vx. record { moves = run-Moves (other x) vx; none = λ z. ground arith }) m.keyed
        fresh).moves

-- In any run of the operations that the constructors of Run list (on spend requests, own tasks, tasks of
-- peers and cards; not funding nor program calls), the transfers handed to the wallet are no more than the spend
-- requests that moved to a state in which they were attempted (EXECUTING, COMPLETED, TX_FAILED,
-- TX_UNKNOWN). The ids of the ledger at the start differ from one another.
pub run-at_most_once :
    {p q : Pilot}
    → Run p q
    → IsKeyed p.spends
    → transfers q.log + tally attempt p.spends ≤ transfers p.log + tally attempt q.spends
run-at_most_once run v = (run-Moves run v).once

-- In any run, a request stays in the ledger with its recipient, amount, reason and times, and its
-- state moves only forward through the life of a request: what is COMPLETED, TX_FAILED, REJECTED,
-- EXPIRED or TX_UNKNOWN stays so. The ids of the ledger at the start differ from one another.
pub run-requests_evolve :
    {p q : Pilot}
    → Run p q
    → IsKeyed p.spends
    → (id : Text) (r : Spend) → find id p.spends ≡ some r
    → (r' : Spend) × (find id q.spends ≡ some r') × RowMoves r r'
run-requests_evolve run v = (run-Moves run v).evolves
