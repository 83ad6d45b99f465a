-- ===== src/Tasks/Inbound/Outsiders.antt =====
-- A task against the peers that did not send it: sequences of requests (processInboundRequest of
-- pilot-module/src/pilot_a2a_inbox.cpp).
use mathlib.Core.Path.{subst}
use logos_pilot.Prelude.{
  ◌≡◌, refl, sym, Bool, true, false, Option, none, some, List, [], ◌∷◌, arith, not, ◌&&◌, ◌||◌,
  if_cases,
}
use logos_pilot.Text.{Text, codes, same, same-eq, is_empty}
use logos_pilot.Table.{find}
use logos_pilot.Table.Laws.{find_key, find-update}
use logos_pilot.Agent.{Pilot, InboundTask, inbound_keyed}
use logos_pilot.Agent.States.{InboundState, is_terminal}
use logos_pilot.Agent.World.{World, later}
use logos_pilot.Spending.Approve.{release_held_spend}
use logos_pilot.Tasks.Linked.{inbound_task_set_state}
use logos_pilot.Tasks.Inbound.Request.{Env, Request, RpcReply, RpcCode, rpc_error}
use logos_pilot.Tasks.Inbound.Process.{
  is_foreign, is_handled, release_linked, cancel_row, subscribe_row, send_row, send_task,
  process_inbound_request,
}

-- A request as it is processed: its world, its environment and its authenticated sender.
pub record Message : Type 0 where
  pub world : World
  pub env : Env
  pub request : Request
  pub npk : Text
  pub first_contact : Bool

unfoldable pub process : Message → Pilot → Pilot × RpcReply
process m p = process_inbound_request m.world m.env p (some m.request) m.npk m.first_contact

-- One request after the other, with the replies.
unfoldable pub process_all : List Message → Pilot → Pilot × List RpcReply
process_all [] p = (p, [])
process_all (m ∷ ms) p =
    let (q, reply) = process m p in let (r, replies) = process_all ms q in (r, reply ∷ replies)

-- The two methods that name a task which is there.
abbrev pub about_task : Text → Bool
about_task method = same method (codes "tasks/cancel") || same method (codes "tasks/sendSubscribe")

-- The authenticated sender is not the owner, and the request is not the sending of another task.
abbrev pub is_outsider : Text → Text → Message → Bool
is_outsider id owner m =
    not (is_empty m.npk)
    && not (same owner m.npk)
    && (same m.request.task_id id || not (same m.request.method (codes "tasks/send")))

abbrev pub all_outsiders : Text → Text → List Message → Bool
all_outsiders id owner [] = true
all_outsiders id owner (m ∷ ms) = is_outsider id owner m && all_outsiders id owner ms

-- Whoever cancels this task or asks for it is told that it is not theirs.
abbrev pub Refused : Text → Message → RpcReply → Type 0
Refused id m reply =
    about_task m.request.method ≡ true
    → same m.request.task_id id ≡ true
    → reply ≡ rpc_error m.request.id RpcCode.unauthorized

abbrev pub AllRefused : Text → List Message → List RpcReply → Type 0
AllRefused id [] [] = Unit
AllRefused id [] (reply ∷ replies) = ⊥
AllRefused id (m ∷ ms) [] = ⊥
AllRefused id (m ∷ ms) (reply ∷ replies) = Refused id m reply × AllRefused id ms replies

-- The row of a task stays, on a database.
abbrev pub KeepsTask : Text → InboundTask → Pilot → Type 0
KeepsTask id t p = (p.has_db ≡ true) × (find id p.inbound ≡ some t)

module _ (id : Text) (t : InboundTask) (handled : is_handled t ≡ true) where
  abbrev Untouched : Message → Pilot × RpcReply → Type 0
  Untouched m (q, reply) = KeepsTask id t q × Refused id m reply

  released :
      (w : World) (sid : Text) (p : Pilot)
      → KeepsTask id t p
      → KeepsTask id t (release_linked w sid p)
  unfolding release_linked release_held_spend
  released w sid p h = ground (arith, h.0, h.1)

  canceled_elsewhere :
      (w : World) (p : Pilot) (k : Text) (s : InboundState)
      → same k id ≡ false
      → KeepsTask id t p
      → KeepsTask id t (inbound_task_set_state w p k s [])
  unfolding inbound_task_set_state
  canceled_elsewhere w p k s other (db, e) = (
    ground (arith, db),
    ground (
      arith,
      db,
      e,
      other,
      find_key id p.inbound t e,
      same-eq t.id k,
      find-update id (λ r. same r.id k && not (is_terminal r.state))
          (λ r. record r { state = s; result_json = []; updated_at = w.clock 0 }) p.inbound
          (λ _. refl),
    ),
  )

  -- A cancel of this task is refused, and one of another task leaves this one alone.
  cancel_row-Untouched :
      (m : Message) (p : Pilot) (o : Option InboundTask)
      → find m.request.task_id p.inbound ≡ o
      → is_empty m.npk ≡ false
      → same t.sender_npk m.npk ≡ false
      → KeepsTask id t p
      → Untouched m (cancel_row m.world p m.npk m.request o)
  unfolding cancel_row
  cancel_row-Untouched m p none found known other h =
      (h, λ about this. absurd (ground (arith, found, this, h.1, same-eq m.request.task_id id)))
  cancel_row-Untouched m p (some x) found known other h =
      let r = m.request in
      if_cases (Untouched m) (is_foreign m.npk x) (λ _. (h, λ about this. refl))
        (λ owner.
          let elsewhere : same r.task_id id ≡ false =
            ground (arith, owner, found, known, other, h.1, same-eq r.task_id id) in
          if_cases (Untouched m) (is_terminal x.state) (λ _. (h, λ about this. absurd (cc)))
            (λ _. (
              released (later 1 m.world) x.spend_request_id
                  (inbound_task_set_state m.world p r.task_id InboundState.canceled [])
                  (canceled_elsewhere m.world p r.task_id InboundState.canceled elsewhere h),
              λ about this. absurd (cc),
            )))

  subscribe_row-Refused :
      (m : Message) (p : Pilot) (o : Option InboundTask)
      → find m.request.task_id p.inbound ≡ o
      → is_empty m.npk ≡ false
      → same t.sender_npk m.npk ≡ false
      → KeepsTask id t p
      → Refused id m (subscribe_row m.env m.npk m.request o)
  unfolding subscribe_row
  subscribe_row-Refused m p none found known other h about this =
      absurd (ground (arith, found, this, h.1, same-eq m.request.task_id id))
  subscribe_row-Refused m p (some x) found known other h about this =
      ground (arith, found, this, known, other, h.1, same-eq m.request.task_id id)

  -- A task that was handled is not started again.
  send_task-same :
      (m : Message) (p : Pilot)
      → same m.request.task_id id ≡ true
      → KeepsTask id t p
      → (send_task m.world m.env p m.npk m.first_contact m.request).0 ≡ p
  unfolding send_task send_row
  send_task-same m p this h =
      let here : find m.request.task_id p.inbound ≡ some t =
        ground (arith, this, h.1, same-eq m.request.task_id id) in
      ground (arith, here, handled)

  process-Untouched :
      (m : Message) (p : Pilot)
      → is_outsider id t.sender_npk m ≡ true
      → KeepsTask id t p
      → Untouched m (process m p)
  unfolding process process_inbound_request
  process-Untouched m p out h =
      let r = m.request in
      if_cases (Untouched m) (not p.has_db) (λ no_db. absurd (ground (arith, no_db, h.0)))
        (λ _.
          if_cases (Untouched m) (same r.method (codes "tasks/cancel"))
            (λ _.
              cancel_row-Untouched m p (find r.task_id p.inbound) refl (ground (arith, out))
                (ground (arith, out)) h)
            (λ no_cancel.
              if_cases (Untouched m) (same r.method (codes "tasks/sendSubscribe"))
                (λ _. (
                  h,
                  subscribe_row-Refused m p (find r.task_id p.inbound) refl (ground (arith, out))
                      (ground (arith, out)) h,
                ))
                (λ no_subscribe.
                  if_cases (Untouched m) (same r.method (codes "tasks/send"))
                    (λ sends. (
                      subst (KeepsTask id t)
                          (sym (send_task-same m p (ground (arith, out, sends)) h)) h,
                      λ about this. absurd (ground (arith, about, no_cancel, no_subscribe)),
                    ))
                    (λ _.
                      (h, λ about this. absurd (ground (arith, about, no_cancel, no_subscribe)))))))

-- Take any requests, of any method, from authenticated peers that did not send a task of another
-- sender, which is on file and was handled (any state but 'accepted', or a linked spend). They may
-- cancel, or ask for, this or any other task, and send this one again; the sending of another task,
-- after which old rows are evicted, is not among them. The row of the task stays as it is, and whoever
-- cancels it or asks for it gets the error 'unauthorized'. The database is open.
pub process_all-Refused :
    (id : Text) (t : InboundTask) (ms : List Message) (p : Pilot)
    → p.has_db ≡ true
    → find id p.inbound ≡ some t
    → is_handled t ≡ true
    → all_outsiders id t.sender_npk ms ≡ true
    → (find id (process_all ms p).0.inbound ≡ some t) × AllRefused id ms (process_all ms p).1
unfolding process_all
process_all-Refused id t [] p db e handled out = (e, tt)
process_all-Refused id t (m ∷ ms) p db e handled out =
    let (kept, refused) = process-Untouched id t handled m p (ground (arith, out)) (db, e) in
    let (row, rest) =
      process_all-Refused id t ms (process m p).0 kept.0 kept.1 handled (ground (arith, out)) in
    (row, (refused, rest))
