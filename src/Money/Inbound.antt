-- ===== src/Money/Inbound.antt =====
-- Requests of peers (processInboundRequest) and the wallet.
use mathlib.Core.Path.{subst}
use logos_pilot.Prelude.{
  ℕ, ◌≡◌, refl, sym, ◌∙◌, Bool, true, Option, none, some, [], not, if_cases, ◌||◌, length, ltb,
  arith,
}
use logos_pilot.Text.{Text, same, is_empty, codes}
use logos_pilot.Table.{find}
use logos_pilot.Table.Laws.{IsKeyed}
use logos_pilot.Agent.{Pilot, Spend, InboundTask, spend_keyed, inbound_keyed}
use logos_pilot.Agent.States.{SpendState, InboundState, is_terminal}
use logos_pilot.Agent.World.{World, later}
use logos_pilot.Spending.Ledger.{create_spend_request, with_state}
use logos_pilot.Tasks.Inbound.Request.{Env, Request, RpcReply, is_serviced, is_owner_gated}
use logos_pilot.Tasks.Inbound.Limits.{
  evict_old_inbound_tasks, max_params_bytes, inbound_max_per_window, max_service_bytes,
  service_max_per_window,
}
use logos_pilot.Tasks.Inbound.Skills.{
  over_limit, answer_at_once, run_service, serve, hold_inbound, ask_owner, inbound_wallet_send,
  gate_privileged, park_task, link_task, inbound_reason,
}
use logos_pilot.Tasks.Inbound.Process.{
  is_foreign, cancel_row, is_handled, accept_row, by_skill, accept_task, send_new, send_row,
  send_task, process_inbound_request,
}
use logos_pilot.Money.Frame.{
  transfers, KeepsMoney, KeepsMoney-trans, inbound_task_set_state-KeepsMoney,
  send_to_owner-KeepsMoney,
}
use logos_pilot.Money.Rows.{Moves, RowMoves, attempt}
use logos_pilot.Money.Updates.{create-Moves, set_spend_state-Moves}
use logos_pilot.Money.Sends.{InState, create-id, create-InState}
use logos_pilot.Money.Quiet.{
  Quiet, Quiet-refl, Quiet-trans, KeepsMoney-Quiet, set_spend_state-log, create-log, release-Quiet,
  fail-Quiet,
}

cancel-Quiet :
    {b : Bool} (w : World) (p : Pilot) (npk : Text) (r : Request) (o : Option InboundTask)
    → IsKeyed p.spends
    → Quiet b p (cancel_row w p npk r o).0
unfolding cancel_row
cancel-Quiet {b} w p npk r none v = Quiet-refl p v
cancel-Quiet {b} w p npk r (some t) v =
    if_cases (λ (q : Pilot × RpcReply). Quiet b p q.0) (is_foreign npk t) (λ _. Quiet-refl p v)
      (λ _.
        if_cases (λ (q : Pilot × RpcReply). Quiet b p q.0) (is_terminal t.state)
          (λ _. Quiet-refl p v)
          (λ _.
            let set = inbound_task_set_state-KeepsMoney w p r.task_id InboundState.canceled [] in
            Quiet-trans (KeepsMoney-Quiet v set)
              (release-Quiet (later 1 w) t.spend_request_id _ (subst IsKeyed (sym set.spends) v))))

answer-Quiet :
    {b : Bool} (w : World) (p : Pilot) (r : Request) (result : Text)
    → IsKeyed p.spends
    → Quiet b p (answer_at_once w p r result).0
unfolding answer_at_once
answer-Quiet w p r result v = KeepsMoney-Quiet v (
    KeepsMoney-trans (inbound_task_set_state-KeepsMoney w p r.task_id InboundState.working [])
      (inbound_task_set_state-KeepsMoney (later 1 w) _ r.task_id InboundState.completed result))

gate-Quiet :
    {b : Bool} (w : World) (p : Pilot) (npk : Text) (first_contact : Bool) (r : Request)
    → IsKeyed p.spends
    → Quiet b p (gate_privileged w p npk first_contact r).0
unfolding gate_privileged
gate-Quiet w p npk first_contact r v = KeepsMoney-Quiet v (
    KeepsMoney-trans (ground arith)
      (send_to_owner-KeepsMoney w (park_task (w.clock 0) r.task_id p) _))

held_new :
    (now : ℕ) (r : Spend)
    → r.state ≡ SpendState.created
    → RowMoves r (with_state SpendState.held now r)
      × (attempt (with_state SpendState.held now r) ≡ attempt r)
held_new now r h = ground arith

hold-Quiet :
    {b : Bool} (w : World) (r : Request) (p : Pilot) (sid : Text)
    → IsKeyed p.spends
    → InState sid SpendState.created p.spends
    → Quiet b p (hold_inbound w r (p, sid)).0
hold-Quiet w r p sid v fresh =
    let linking : KeepsMoney p
        (park_task (w.clock 1) r.task_id (link_task (w.clock 0) r.task_id sid p)) =
      ground arith in
    let linked : Pilot = park_task (w.clock 1) r.task_id (link_task (w.clock 0) r.task_id sid p) in
    Quiet-trans (KeepsMoney-Quiet v linking) (record {
      moves =
          set_spend_state-Moves (later 1 w) linked sid SpendState.held v
            (λ x e. held_new (w.clock 1) x (fresh x e));
      none = λ _. ground (arith, set_spend_state-log (later 1 w) linked sid SpendState.held);
    })

ask-Quiet :
    {b : Bool} (w : World) (npk : Text) (first_contact : Bool) (r : Request) (p : Pilot)
    (q : Pilot × Text)
    → Quiet b p q.0
    → Quiet b p (ask_owner w npk first_contact r q).0
ask-Quiet w npk first_contact r p (q, sid) h =
    Quiet-trans h (KeepsMoney-Quiet h.moves.keyed (send_to_owner-KeepsMoney w q _))

hold_at_db :
    {b : Bool} (w : World) (r : Request) (p : Pilot)
    → IsKeyed p.spends
    → p.has_db ≡ true
    → find w.generated_id p.spends ≡ none
    → (reason : Text)
    → Quiet b p
        (hold_inbound (later 1 w) r (create_spend_request w p r.recipient r.amount reason)).0
hold_at_db w r p v db fresh reason =
    Quiet-trans
      (record {
        moves = made;
        none = λ _. ground (arith, create-log w p r.recipient r.amount reason);
      })
      (hold-Quiet (later 1 w) r _ _ made.keyed (
        subst
          (λ id.
            InState id SpendState.created
              (create_spend_request w p r.recipient r.amount reason).0.spends)
          (sym (create-id w p r.recipient r.amount reason db))
          (create-InState w p r.recipient r.amount reason fresh)))
  where
    made : Moves p (create_spend_request w p r.recipient r.amount reason).0
    made = create-Moves w p r.recipient r.amount reason v fresh

wallet_send-Quiet :
    {b : Bool} (w : World) (p : Pilot) (npk : Text) (first_contact : Bool) (r : Request)
    → IsKeyed p.spends
    → p.has_db ≡ true
    → find w.generated_id p.spends ≡ none
    → Quiet b p (inbound_wallet_send w p npk first_contact r).0
unfolding inbound_wallet_send
wallet_send-Quiet {b} w p npk first_contact r v db fresh =
    if_cases (λ (q : Pilot × RpcReply). Quiet b p q.0) (is_empty r.recipient)
      (λ _. fail-Quiet w p r.task_id _ v)
      (λ _. ask-Quiet w npk first_contact r p _ (hold_at_db w r p v db fresh (inbound_reason r)))

-- A dispatch, with what other handlers do meanwhile.
serve-Quiet :
    {b : Bool} (w : World) (e : Env) (p : Pilot) (npk : Text) (r : Request)
    → ((q : Pilot) → IsKeyed q.spends → Quiet b q (e.meanwhile q))
    → IsKeyed p.spends
    → Quiet b p (serve w e p npk r).0
unfolding serve run_service
serve-Quiet {b} w e p npk r h v =
    if_cases (λ (q : Pilot × RpcReply). Quiet b p q.0) (ltb max_service_bytes (length r.args_json))
      (λ _. fail-Quiet w p r.task_id _ v)
      (λ _.
        if_cases (λ (q : Pilot × RpcReply). Quiet b p q.0)
          (over_limit w p npk r.skill service_max_per_window)
          (λ _. fail-Quiet (later 1 w) p r.task_id _ v)
          (λ _.
            let start =
              KeepsMoney-Quiet v (
                inbound_task_set_state-KeepsMoney (later 1 w) p r.task_id InboundState.working
                  []) in
            let other = Quiet-trans start (h _ start.moves.keyed) in
            Quiet-trans other (
              KeepsMoney-Quiet other.moves.keyed
                (inbound_task_set_state-KeepsMoney (later 1 (later 1 w)) _ r.task_id _ _))))

by_skill-Quiet :
    {b : Bool} (w : World) (e : Env) (p : Pilot) (npk : Text) (first_contact : Bool) (r : Request)
    (now : ℕ)
    → ((q : Pilot) → IsKeyed q.spends → Quiet b q (e.meanwhile q))
    → IsKeyed p.spends
    → p.has_db ≡ true
    → find w.generated_id p.spends ≡ none
    → Quiet b p (by_skill w e p npk first_contact r now).0
unfolding by_skill
by_skill-Quiet {b} w e p npk first_contact r now h v db fresh =
    if_cases (λ (q : Pilot × RpcReply). Quiet b p q.0) (same r.skill (codes "ping"))
      (λ _. answer-Quiet w p r _ v)
      (λ _.
        if_cases (λ (q : Pilot × RpcReply). Quiet b p q.0) (same r.skill (codes "capabilities"))
          (λ _. answer-Quiet w p r _ v)
          (λ _.
            if_cases (λ (q : Pilot × RpcReply). Quiet b p q.0) (is_serviced r.skill)
              (λ _. serve-Quiet w e p npk r h v)
              (λ _.
                if_cases (λ (q : Pilot × RpcReply). Quiet b p q.0)
                  (same r.skill (codes "wallet-send"))
                  (λ _. wallet_send-Quiet w p npk first_contact r v db fresh)
                  (λ _.
                    if_cases (λ (q : Pilot × RpcReply). Quiet b p q.0) (is_owner_gated r.skill)
                      (λ _. gate-Quiet w p npk first_contact r v)
                      (λ _. fail-Quiet w p r.task_id _ v)))))

evict-KeepsMoney : (e : Env) (p : Pilot) (now : ℕ) → KeepsMoney p (evict_old_inbound_tasks e p now)
unfolding evict_old_inbound_tasks
evict-KeepsMoney e p now = ground arith

send_new-Quiet :
    {b : Bool} (w : World) (e : Env) (p : Pilot) (npk : Text) (first_contact : Bool) (r : Request)
    → ((q : Pilot) → IsKeyed q.spends → Quiet b q (e.meanwhile q))
    → IsKeyed p.spends
    → p.has_db ≡ true
    → find w.generated_id p.spends ≡ none
    → Quiet b p (send_new w e p npk first_contact r).0
unfolding send_new accept_task
send_new-Quiet {b} w e p npk first_contact r h v db fresh =
    if_cases (λ (q : Pilot × RpcReply). Quiet b p q.0) (ltb max_params_bytes (length r.params_json))
      (λ _. Quiet-refl p v)
      (λ _.
        if_cases (λ (q : Pilot × RpcReply). Quiet b p q.0)
          (over_limit (later 1 w) stored npk [] inbound_max_per_window)
          (λ _. Quiet-trans storing (fail-Quiet (later 2 w) stored r.task_id _ v))
          (λ _. Quiet-trans storing (
            Quiet-trans (KeepsMoney-Quiet v swept) (
              by_skill-Quiet (later 2 w) e _ npk first_contact r (w.clock 0) h
                (subst IsKeyed (sym swept.spends) v) (swept.has_db ∙ db)
                (subst (λ ss. find w.generated_id ss ≡ none) (sym swept.spends) fresh)))))
  where
    stored : Pilot
    stored = accept_row (w.clock 0) r p

    storing : Quiet b p stored
    storing = KeepsMoney-Quiet v (ground arith)

    swept : KeepsMoney stored (evict_old_inbound_tasks e stored (w.clock 0))
    swept = evict-KeepsMoney e stored (w.clock 0)

send_task-Quiet :
    {b : Bool} (w : World) (e : Env) (p : Pilot) (npk : Text) (first_contact : Bool) (r : Request)
    → ((q : Pilot) → IsKeyed q.spends → Quiet b q (e.meanwhile q))
    → IsKeyed p.spends
    → p.has_db ≡ true
    → find w.generated_id p.spends ≡ none
    → Quiet b p (send_task w e p npk first_contact r).0
unfolding send_task send_row
send_task-Quiet {b} w e p npk first_contact r h v db fresh =
    if_cases (λ (q : Pilot × RpcReply). Quiet b p q.0)
      (is_empty r.task_id || (is_empty r.skill || is_empty r.sender_npk)) (λ _. Quiet-refl p v)
      (λ _. row (find r.task_id p.inbound))
  where
    row : (o : Option InboundTask) → Quiet b p (send_row w e p npk first_contact r o).0
    row none = send_new-Quiet w e p npk first_contact r h v db fresh
    row (some t) =
        if_cases (λ (q : Pilot × RpcReply). Quiet b p q.0) (is_handled t) (λ _. Quiet-refl p v)
          (λ _. send_new-Quiet w e p npk first_contact r h v db fresh)

-- processInboundRequest, where the generated id is fresh.
pub process_inbound_request-Quiet :
    {b : Bool} (w : World) (e : Env) (p : Pilot) (o : Option Request) (npk : Text)
    (first_contact : Bool)
    → ((q : Pilot) → IsKeyed q.spends → Quiet b q (e.meanwhile q))
    → IsKeyed p.spends
    → find w.generated_id p.spends ≡ none
    → Quiet b p (process_inbound_request w e p o npk first_contact).0
unfolding process_inbound_request
process_inbound_request-Quiet {b} w e p none npk first_contact h v fresh = Quiet-refl p v
process_inbound_request-Quiet {b} w e p (some r) npk first_contact h v fresh =
    if_cases (λ (q : Pilot × RpcReply). Quiet b p q.0) (not p.has_db) (λ _. Quiet-refl p v)
      (λ db.
        if_cases (λ (q : Pilot × RpcReply). Quiet b p q.0) (same r.method (codes "tasks/cancel"))
          (λ _. cancel-Quiet w p npk r (find r.task_id p.inbound) v)
          (λ _.
            if_cases (λ (q : Pilot × RpcReply). Quiet b p q.0)
              (same r.method (codes "tasks/sendSubscribe")) (λ _. Quiet-refl p v)
              (λ _.
                if_cases (λ (q : Pilot × RpcReply). Quiet b p q.0)
                  (same r.method (codes "tasks/send"))
                  (λ _. send_task-Quiet w e p npk first_contact r h v (ground (arith, db)) fresh)
                  (λ _. Quiet-refl p v))))

-- A request of a peer, whatever it asks and whoever sent it, hands nothing to the wallet: at most it
-- leaves a request that waits for the owner. The condition is that what other handlers do while a skill
-- is dispatched hands nothing over either; the ids of the ledger differ, and the generated one is not
-- taken.
pub process_inbound_request-never_pays :
    (w : World) (e : Env) (p : Pilot) (o : Option Request) (npk : Text) (first_contact : Bool)
    → ((q : Pilot) → IsKeyed q.spends → Quiet true q (e.meanwhile q))
    → IsKeyed p.spends
    → find w.generated_id p.spends ≡ none
    → transfers (process_inbound_request w e p o npk first_contact).0.log ≡ transfers p.log
process_inbound_request-never_pays w e p o npk first_contact h v fresh =
    (process_inbound_request-Quiet w e p o npk first_contact h v fresh).none refl
