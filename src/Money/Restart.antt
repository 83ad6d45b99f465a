-- ===== src/Money/Restart.antt =====
-- Restarts and tasks (outboundTasksRecover): the state of a task and that of its spend.
use mathlib.Core.Path.{subst}
use logos_pilot.Prelude.{
  ℕ, ◌≡◌, refl, sym, ◌∙◌, ◌⊎◌, inl, inr, Bool, true, Option, none, some, List, [], ◌∷◌, arith,
  Bool-cases, Option-cases, if_cases, not, ◌&&◌, All,
}
use logos_pilot.Text.{Text, same, same_refl, same-eq, is_empty}
use logos_pilot.Table.{find, update, rows_where}
use logos_pilot.Table.Laws.{IsKeyed, find-update, find_key, update-IsKeyed}
use logos_pilot.Agent.{Pilot, Spend, OutboundTask, Effect, subscribe, spend_keyed, outbound_keyed}
use logos_pilot.Agent.States.{SpendState, OutboundState, is_settling, is_submitted}
use logos_pilot.Agent.World.{World, later}
use logos_pilot.Tasks.Recover.{
  heal, rearm, subscribe_all, task_outcome, write_settled, settle_task, reconcile_tasks,
  outbound_tasks_recover,
}
use logos_pilot.Money.Frame.{transfers, KeepsMoney, KeepsMoney-refl, KeepsMoney-trans}

transfers-subscribe_all :
    (rs : List OutboundTask) (log : List Effect) → transfers (subscribe_all rs log) ≡ transfers log
transfers-subscribe_all [] log = refl
transfers-subscribe_all (r ∷ rs) log =
    if_cases (λ l. transfers (subscribe_all rs l) ≡ transfers log) (is_empty r.reply_topic)
      (λ _. transfers-subscribe_all rs log)
      (λ _. transfers-subscribe_all rs (subscribe r.reply_topic ∷ log))

rearm-KeepsMoney : (w : World) (p : Pilot) → KeepsMoney p (rearm w p)
rearm-KeepsMoney w p = ground (
  arith,
  transfers-subscribe_all (rows_where (λ r. is_submitted r.state) (heal (w.clock 0) p).outbound)
      p.log,
)

settle_task-KeepsMoney :
    (w : World) (id : Text) (o : Option OutboundState) (p : Pilot)
    → KeepsMoney p (settle_task w id o p).1
settle_task-KeepsMoney w id none p = KeepsMoney-refl p
settle_task-KeepsMoney w id (some s) p = ground arith

reconcile_tasks-KeepsMoney :
    (w : World) (rs : List OutboundTask) (p : Pilot) → KeepsMoney p (reconcile_tasks w rs p)
unfolding reconcile_tasks
reconcile_tasks-KeepsMoney w [] p = KeepsMoney-refl p
reconcile_tasks-KeepsMoney w (r ∷ rs) p =
    KeepsMoney-trans (settle_task-KeepsMoney w r.id (task_outcome p r) p)
      (reconcile_tasks-KeepsMoney (settle_task w r.id (task_outcome p r) p).0 rs _)

-- outboundTasksRecover touches no spend request and hands nothing to the wallet.
pub outbound_tasks_recover-KeepsMoney :
    (w : World) (p : Pilot) → KeepsMoney p (outbound_tasks_recover w p)
unfolding outbound_tasks_recover
outbound_tasks_recover-KeepsMoney w p =
    if_cases (KeepsMoney p) p.has_db
      (λ _.
        KeepsMoney-trans (rearm-KeepsMoney w p)
          (reconcile_tasks-KeepsMoney (later 1 w) _ (rearm w p)))
      (λ _. KeepsMoney-refl p)

-- The spend that a task is linked to is COMPLETED.
abbrev pub LinkPaid : List Spend → OutboundTask → Type 0
LinkPaid ss t =
    (s : Spend) × ((find t.spend_request_id ss ≡ some s) × (s.state ≡ SpendState.completed))

-- What may have become of a task: its link is kept, and it is paid only if it was, or its spend is.
abbrev pub Fate : List Spend → OutboundTask → OutboundTask → Type 0
Fate ss t t' =
    (t'.spend_request_id ≡ t.spend_request_id)
    × (t'.state ≡ OutboundState.paid → (t.state ≡ OutboundState.paid) ⊎ LinkPaid ss t)

abbrev pub Traced : List Spend → List OutboundTask → List OutboundTask → Type 0
Traced ss rows rows' =
    (k : Text) (t' : OutboundTask)
    → find k rows' ≡ some t'
    → (t : OutboundTask) × ((find k rows ≡ some t) × Fate ss t t')

Traced-refl : (ss : List Spend) (rows : List OutboundTask) → Traced ss rows rows
Traced-refl ss rows k t e = (t, (e, (refl, λ h. inl h)))

Traced-trans :
    (ss : List Spend) (a b c : List OutboundTask) → Traced ss a b → Traced ss b c → Traced ss a c
Traced-trans ss a b c h k id t'' e =
    let (t', (e', (link', paid'))) = k id t'' e in
    let (t, (e'', (link, paid))) = h id t' e' in
    (
      t,
      (
        e'',
        (
          link' ∙ link,
          λ x. elim (paid' x) [
            | inl y ↦ paid y
            | inr (s, (f, g)) ↦ inr (s, (subst (λ i. find i ss ≡ some s) link f, g))
          ],
        ),
      ),
    )

-- An UPDATE traces if it traces each row that it hits.
Traced-update :
    (ss : List Spend) (c : OutboundTask → Bool) (f : OutboundTask → OutboundTask)
    (rows : List OutboundTask)
    → ((r : OutboundTask) → (f r).id ≡ r.id)
    → ((k : Text) (r : OutboundTask) → find k rows ≡ some r → c r ≡ true → Fate ss r (f r))
    → Traced ss rows (update c f rows)
Traced-update ss c f rows keep fate k t' e = elim (Option-cases (find k rows)) [
  | inl none_there ↦ ground (arith, none_there, e, find-update k c f rows keep)
  | inr (t, there) ↦ elim (Bool-cases (c t)) [
    | inl hit ↦
        let same_row : f t ≡ t' = ground (arith, there, hit, e, find-update k c f rows keep) in
        (t, (there, subst (Fate ss t) same_row (fate k t there hit)))
    | inr miss ↦
        let same_row : t ≡ t' = ground (arith, there, miss, e, find-update k c f rows keep) in
        (t, (there, subst (Fate ss t) same_row (refl, λ h. inl h)))
  ]
]

-- The rows that a SELECT returns are found again by their keys.
selected :
    (c : OutboundTask → Bool) (rows big : List OutboundTask)
    → ((k : Text) (r : OutboundTask) → find k rows ≡ some r → find k big ≡ some r)
    → IsKeyed rows
    → All (λ r. find r.id big ≡ some r) (rows_where c rows)
unfolding rows_where find
selected c [] big up v = tt
selected c (x ∷ rows) big up (new, v) =
    let rest = selected c rows big (λ k r e. up k r (ground (arith, e, new, same-eq x.id k))) v in
    if_cases (All (λ r. find r.id big ≡ some r)) (c x)
      (λ _. (up x.id x (ground (arith, same_refl x.id)), rest)) (λ _. rest)

-- Each of the rows is still there with its link.
abbrev Linked : Pilot → List OutboundTask → Type 0
Linked p = All (λ r.
    (t : OutboundTask) × ((find r.id p.outbound ≡ some t)
      × (t.spend_request_id ≡ r.spend_request_id)))

Linked-write :
    (now : ℕ) (id : Text) (s : OutboundState) (p : Pilot) (rs : List OutboundTask)
    → Linked p rs
    → Linked (write_settled now id s p) rs
Linked-write now id s p [] h = tt
Linked-write now id s p (r ∷ rs) ((t, (e, link)), h) = (kept, Linked-write now id s p rs h)
  where
    c : OutboundTask → Bool
    c x = same x.id id && is_settling x.state

    f : OutboundTask → OutboundTask
    f x = record x { state = s; updated_at = now }

    kept :
        (t' : OutboundTask) × ((find r.id (write_settled now id s p).outbound ≡ some t')
          × (t'.spend_request_id ≡ r.spend_request_id))
    kept = elim (Bool-cases (c t)) [
      | inl hit ↦ (f t, (ground (arith, e, hit, find-update r.id c f p.outbound (λ _. refl)), link))
      | inr miss ↦ (t, (ground (arith, e, miss, find-update r.id c f p.outbound (λ _. refl)), link))
    ]

paid_outcome :
    (p : Pilot) (r : OutboundTask)
    → task_outcome p r ≡ some OutboundState.paid
    → LinkPaid p.spends r
paid_outcome p r e = elim (Option-cases (find r.spend_request_id p.spends)) [
  | inl none_there ↦ ground (arith, e, none_there)
  | inr (s, there) ↦ (s, (there, ground (arith, e, there)))
]

write-Traced :
    (now : ℕ) (p : Pilot) (r : OutboundTask) (s : OutboundState)
    → task_outcome p r ≡ some s
    → (t : OutboundTask) × ((find r.id p.outbound ≡ some t)
        × (t.spend_request_id ≡ r.spend_request_id))
    → Traced p.spends p.outbound (write_settled now r.id s p).outbound
write-Traced now p r s e (t, (there, link)) =
    Traced-update p.spends (λ x. same x.id r.id && is_settling x.state)
      (λ x. record x { state = s; updated_at = now }) p.outbound (λ _. refl)
      (λ k x found hit.
        let key : k ≡ r.id =
          ground (arith, find_key k p.outbound x found, hit, same-eq x.id r.id) in
        let row : x ≡ t = ground (arith, found, there, key) in
        (
          refl,
          λ paid.
              let (sp, (f, g)) = paid_outcome p r (ground (arith, e, paid)) in
              inr (sp, (subst (λ i. find i p.spends ≡ some sp) (ground (arith, link, row)) f, g)),
        ))

settle_task-Linked :
    (w : World) (id : Text) (o : Option OutboundState) (p : Pilot) (rs : List OutboundTask)
    → Linked p rs
    → Linked (settle_task w id o p).1 rs
settle_task-Linked w id none p rs h = h
settle_task-Linked w id (some s) p rs h = Linked-write (w.clock 0) id s p rs h

settle_task-Traced :
    (w : World) (p : Pilot) (r : OutboundTask) (o : Option OutboundState)
    → task_outcome p r ≡ o
    → (t : OutboundTask) × ((find r.id p.outbound ≡ some t)
        × (t.spend_request_id ≡ r.spend_request_id))
    → Traced p.spends p.outbound (settle_task w r.id o p).1.outbound
settle_task-Traced w p r none e h = Traced-refl p.spends p.outbound
settle_task-Traced w p r (some s) e h = write-Traced (w.clock 0) p r s e h

reconcile_tasks-Traced :
    (w : World) (rs : List OutboundTask) (p : Pilot)
    → Linked p rs
    → Traced p.spends p.outbound (reconcile_tasks w rs p).outbound
unfolding reconcile_tasks
reconcile_tasks-Traced w [] p h = Traced-refl p.spends p.outbound
reconcile_tasks-Traced w (r ∷ rs) p (h, hs) =
    let o = task_outcome p r in
    let q = (settle_task w r.id o p).1 in
    Traced-trans p.spends p.outbound q.outbound _ (settle_task-Traced w p r o refl h) (
      subst (λ ss. Traced ss q.outbound (reconcile_tasks (settle_task w r.id o p).0 rs q).outbound)
        (settle_task-KeepsMoney w r.id o p).spends
        (reconcile_tasks-Traced (settle_task w r.id o p).0 rs q
          (settle_task-Linked w r.id o p rs hs)))

Linked-refl :
    (p : Pilot) (rs : List OutboundTask) → All (λ r. find r.id p.outbound ≡ some r) rs → Linked p rs
Linked-refl p [] h = tt
Linked-refl p (r ∷ rs) (e, h) = ((r, (e, refl)), Linked-refl p rs h)

heal-Traced : (now : ℕ) (p : Pilot) → Traced p.spends p.outbound (heal now p).outbound
heal-Traced now p =
    Traced-update p.spends (λ r. is_settling r.state && is_empty r.spend_request_id)
      (λ r. record r { state = OutboundState.submitted; updated_at = now }) p.outbound (λ _. refl)
      (λ k r found hit. (refl, λ h. ground (arith, h)))

rearm_lem :
    (w : World) (p : Pilot)
    → ((rearm w p).outbound ≡ (heal (w.clock 0) p).outbound) × ((rearm w p).spends ≡ p.spends)
rearm_lem w p = ground arith

-- outboundTasksRecover invents no task and keeps each task's link, and a task that is 'paid'
-- afterwards was so before or is linked to a COMPLETED spend: a restart never reports a payment that did
-- not happen. The ids of the tasks differ from one another.
pub outbound_tasks_recover-paid :
    (w : World) (p : Pilot)
    → IsKeyed p.outbound
    → Traced p.spends p.outbound (outbound_tasks_recover w p).outbound
unfolding outbound_tasks_recover
outbound_tasks_recover-paid w p v =
    if_cases (λ (q : Pilot). Traced p.spends p.outbound q.outbound) p.has_db
      (λ _.
        Traced-trans p.spends p.outbound q.outbound _
          (subst (λ rows. Traced p.spends p.outbound rows) (sym (rearm_lem w p).0)
            (heal-Traced (w.clock 0) p))
          (subst (λ ss. Traced ss q.outbound (reconcile_tasks (later 1 w) rows q).outbound)
            (rearm_lem w p).1
            (reconcile_tasks-Traced (later 1 w) rows q
              (Linked-refl q rows (selected c q.outbound q.outbound (λ k r e. e) keyed)))))
      (λ _. Traced-refl p.spends p.outbound)
  where
    q : Pilot
    q = rearm w p

    c : OutboundTask → Bool
    c r = is_settling r.state && not (is_empty r.id)

    rows : List OutboundTask
    rows = rows_where c q.outbound

    keyed : IsKeyed q.outbound
    keyed =
        subst (λ rows. IsKeyed rows) (sym (rearm_lem w p).0)
          (update-IsKeyed (λ r. is_settling r.state && is_empty r.spend_request_id)
            (λ r. record r { state = OutboundState.submitted; updated_at = w.clock 0 }) p.outbound
            (λ _. refl) v)
