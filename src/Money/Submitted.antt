-- ===== src/Money/Submitted.antt =====
-- agentTask: what it records and what it leaves alone.
use logos_pilot.Prelude.{
  List, ◌∷◌, refl, ◌≡◌, ◌∙◌, ap, true, none, some, arith, if_cases, not, if◌then◌else◌,
}
use logos_pilot.Prelude.Int.{ℤ}
use logos_pilot.Text.{Text, same, same-eq}
use logos_pilot.Table.{find, insert}
use logos_pilot.Table.Laws
use logos_pilot.Agent.{Pilot, OutboundTask, outbound_keyed, subscribe}
use logos_pilot.Agent.World.{World, later}
use logos_pilot.Cards.Match.{resolve_routing_key, discovered_price_for}
use logos_pilot.Tasks.Settle.{after_match}
use logos_pilot.Tasks.Outbound.Submit.{
  armed_for, TaskResult, submitted, submitted_task, insert_task, send_request, send_routed,
  submit_priced, agent_task, agent_subscribe, subscribed, reply_topic_of,
}
use logos_pilot.Money.Frame.{KeepsMoney, KeepsMoney-refl, KeepsMoney-trans}
use logos_pilot.Money.Cards.{OnlyPins, OnlyPins-KeepsMoney, matched_card-OnlyPins}

-- The table of tasks after the insert, and no money moved.
record Recorded (p : Pilot) (t : OutboundTask) (q : Pilot) : Type 0 where
  money : KeepsMoney p q
  row : q.outbound ≡ (if p.has_db then insert t p.outbound else p.outbound)

send_routed-outbound :
    (w : World) (done : TaskResult) (request : Text) (r : Pilot × Text)
    → KeepsMoney r.0 (send_routed w done request r).0
      × ((send_routed w done request r).0.outbound ≡ r.0.outbound)
unfolding send_routed send_request
send_routed-outbound w done request (p, key) = ground arith

priced-Recorded :
    (w : World) (address skill request : Text) (p : Pilot) (price : ℤ)
    → Recorded p
        (submitted_task w.generated_id address skill price (w.clock 0))
        (submit_priced w address skill request (p, price)).0
unfolding submit_priced resolve_routing_key insert_task
priced-Recorded w address skill request p price =
    let t = submitted_task w.generated_id address skill price (w.clock 0) in
    let recorded = insert_task t p in
    let routed = resolve_routing_key (later 1 w) recorded address in
    let pins = matched_card-OnlyPins (later 1 w) recorded address in
    let (money, same_rows) =
      send_routed-outbound w (submitted w.generated_id price) request routed in
    let inserted : KeepsMoney p recorded = ground arith in
    record {
      money = KeepsMoney-trans inserted (KeepsMoney-trans (OnlyPins-KeepsMoney pins) money);
      row = same_rows ∙ (ap (λ (x : Pilot). x.outbound) pins ∙ ground arith);
    }

pub agent_subscribe-KeepsMoney :
    (w : World) (p : Pilot) (address id request : Text)
    → KeepsMoney p (agent_subscribe w p address id request).0
unfolding agent_subscribe resolve_routing_key
agent_subscribe-KeepsMoney w p address id request =
    let listening = record p { log = subscribe (reply_topic_of id) ∷ p.log } in
    let armed : KeepsMoney p listening = ground arith in
    if_cases (λ (r : Pilot × TaskResult). KeepsMoney p r.0) (not w.context_ready)
      (λ _. KeepsMoney-refl p)
      (λ _. KeepsMoney-trans armed (
        KeepsMoney-trans (OnlyPins-KeepsMoney (matched_card-OnlyPins w listening address))
          (send_routed-outbound w (subscribed id) request _).0))

pub agent_task-KeepsMoney :
    (w : World) (p : Pilot) (address skill request : Text)
    → KeepsMoney p (agent_task w p address skill request).0
unfolding agent_task
agent_task-KeepsMoney w p address skill request =
    let priced = discovered_price_for w (armed_for w p) address skill in
    let pins : OnlyPins (armed_for w p) priced.0 =
      unfold discovered_price_for in matched_card-OnlyPins w (armed_for w p) address in
    let made = priced-Recorded (after_match p w) address skill request priced.0 priced.1 in
    let armed : KeepsMoney p (armed_for w p) = ground arith in
    if_cases (λ (r : Pilot × TaskResult). KeepsMoney p r.0) (not w.context_ready)
      (λ _. KeepsMoney-refl p)
      (λ _. KeepsMoney-trans armed (KeepsMoney-trans (OnlyPins-KeepsMoney pins) made.money))

-- What the task leaves: no money moved, its row, and the other rows.
abbrev Given : World → Pilot → OutboundTask → Pilot → Type 0
Given w p t q =
    KeepsMoney p q
    × ((k : Text)
        → find k q.outbound ≡ (if same w.generated_id k then some t else find k p.outbound))

given_row :
    (id k : Text) (t : OutboundTask) (rows : List OutboundTask)
    → t.id ≡ id
    → find id rows ≡ none
    → find k (insert t rows) ≡ (if same id k then some t else find k rows)
given_row id k t rows e free = ground (arith, Laws.find-insert k t rows, same-eq id k)

-- A task that is given to a peer moves no money. Where the agent is ready, the database is open and
-- the id is not taken, its row is on file afterwards, even if the sending failed, in the state 'submitted' and with
-- the price that the verified card of the peer declares for the skill; and a row under any other id
-- stays as it was.
pub agent_task_lem :
    (w : World) (p : Pilot) (address skill request : Text)
    → w.context_ready ≡ true
    → p.has_db ≡ true
    → find w.generated_id p.outbound ≡ none
    → KeepsMoney p (agent_task w p address skill request).0
      × ((k : Text)
          → find k (agent_task w p address skill request).0.outbound ≡ (
              if same w.generated_id k
              then some (
                  submitted_task w.generated_id address skill
                    (discovered_price_for w (armed_for w p) address skill).1
                    ((after_match p w).clock 0))
              else find k p.outbound))
unfolding agent_task
agent_task_lem w p address skill request ready db free =
    let priced = discovered_price_for w (armed_for w p) address skill in
    let t = submitted_task w.generated_id address skill priced.1 ((after_match p w).clock 0) in
    let q = submit_priced (after_match p w) address skill request priced in
    let pins : OnlyPins (armed_for w p) priced.0 =
      unfold discovered_price_for in matched_card-OnlyPins w (armed_for w p) address in
    let made = priced-Recorded (after_match p w) address skill request priced.0 priced.1 in
    let rows : q.0.outbound ≡ insert t p.outbound =
      made.row
      ∙ (ap (λ (x : Pilot). if x.has_db then insert t x.outbound else x.outbound) pins
          ∙ ap (λ b. if b then insert t p.outbound else p.outbound) db) in
    let armed : KeepsMoney p (armed_for w p) = ground arith in
    let money = KeepsMoney-trans armed (KeepsMoney-trans (OnlyPins-KeepsMoney pins) made.money) in
    if_cases (λ (r : Pilot × TaskResult). Given w p t r.0) (not w.context_ready)
      (λ f. absurd (ground arith))
      (λ _. (money, λ k. ap (find k) rows ∙ given_row w.generated_id k t p.outbound refl free))
