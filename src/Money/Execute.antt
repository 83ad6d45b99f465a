-- ===== src/Money/Execute.antt =====
-- executeSpend: what one run does to its request.
use mathlib.Core.Path.{subst}
use logos_pilot.Prelude.{
  ◌+◌, ◌≤◌, ◌≡◌, refl, sym, inl, inr, Bool, true, false, some, List, [], arith, Bool-cases,
  Option-cases, if◌then◌else◌, if_cases,
}
use logos_pilot.Prelude.Int.{ℤ}
use logos_pilot.Text.{Text, same, same-eq}
use logos_pilot.Table.{find, set_at}
use logos_pilot.Table.Laws.{
  IsKeyed, KeepsKey, find-set_at, find-set_at_self, set_at-IsKeyed, find_key,
}
use logos_pilot.Table.Sums.{tally, tally-set_at}
use logos_pilot.Agent.{Pilot, Spend, SpendRail, spend_keyed}
use logos_pilot.Agent.States.{SpendState, is_completed, is_spent_or_dead}
use logos_pilot.Agent.World.{World}
use logos_pilot.Spending.Recipient.{parse_spend_recipient}
use logos_pilot.Spending.Amount.{amount_to_hex_le}
use logos_pilot.Spending.Ledger.{set_spend_state, with_state, funding_public_account}
use logos_pilot.Spending.Execute.{
  execute_spend, execute_row, run_spend, do_transfer, transfer_on, finish, finished, sync_wallet,
  transfer_succeeded, transfer_tx_hash, transfer_error, is_invalid, wallet_unavailable,
  malformed_recipient,
}
use logos_pilot.Money.Frame.{transfers}
use logos_pilot.Money.Rows.{
  RowMoves, RowMoves-refl, Evolves, Evolves-trans, attempt, Moves, Moves-refl,
}

pub Evolves-set_at :
    (ss : List Spend) (r : Spend) (f : Spend → Spend)
    → KeepsKey f
    → find r.id ss ≡ some r
    → RowMoves r (f r)
    → Evolves ss (set_at r.id f ss)
Evolves-set_at ss r f h found m k x e = elim (Bool-cases (same k r.id)) [
  | inl hit ↦ (f x, ground (arith, find-set_at k r.id f ss h), ground (arith, same-eq k r.id hit))
  | inr miss ↦ (x, ground (arith, find-set_at k r.id f ss h), RowMoves-refl x)
]

-- How a run ends: the outcome, the hash and the reason that it writes.
pub record Outcome : Type 0 where
  pub ok : Bool
  pub tx_hash : Text
  pub error : Text

-- The table after a run with this outcome.
abbrev pub ran : World → Spend → Outcome → List Spend → List Spend
ran w r o ss =
    set_at r.id (finished o.ok o.tx_hash o.error (w.clock 1))
      (set_at r.id (with_state SpendState.executing (w.clock 0)) ss)

transfer_outcome : World → Text → Outcome
transfer_outcome w result = record {
  ok = transfer_succeeded w result;
  tx_hash = transfer_tx_hash w result;
  error = if transfer_succeeded w result then [] else transfer_error w result;
}

pub outcome_of : World → Pilot → Spend → Outcome
unfolding transfer_outcome
outcome_of w p r =
    if is_invalid (parse_spend_recipient r.recipient).rail
    then record { ok = false; tx_hash = []; error = malformed_recipient }
    else if w.context_ready
    then transfer_outcome w
        (do_transfer w (sync_wallet w (set_spend_state w p r.id SpendState.executing))
          (funding_public_account (set_spend_state w p r.id SpendState.executing)) r.recipient
          r.amount).1
    else record { ok = false; tx_hash = []; error = wallet_unavailable }

transfer_on_lem :
    (rail : SpendRail) (w : World) (p : Pilot) (from target hex : Text)
    → ((transfer_on rail w p from target hex).0.spends ≡ p.spends)
      × ((transfers (transfer_on rail w p from target hex).0.log ≤ transfers p.log + 1)
          × ((transfer_on rail w p from target hex).0.has_db ≡ p.has_db))
unfolding transfer_on
transfer_on_lem SpendRail.private_keys w p from target hex = ground arith
transfer_on_lem SpendRail.private_owned w p from target hex = ground arith
transfer_on_lem SpendRail.public_rail w p from target hex = ground arith
transfer_on_lem SpendRail.invalid w p from target hex = ground arith

do_transfer_lem :
    (w : World) (p : Pilot) (from recipient : Text) (amount : ℤ)
    → ((do_transfer w p from recipient amount).0.spends ≡ p.spends)
      × ((transfers (do_transfer w p from recipient amount).0.log ≤ transfers p.log + 1)
          × ((do_transfer w p from recipient amount).0.has_db ≡ p.has_db))
unfolding do_transfer
do_transfer_lem w p from recipient amount =
    transfer_on_lem (parse_spend_recipient recipient).rail w p from
      (parse_spend_recipient recipient).target (amount_to_hex_le amount)

sync_wallet_lem :
    (w : World) (p : Pilot)
    → ((sync_wallet w p).spends ≡ p.spends)
      × ((transfers (sync_wallet w p).log ≡ transfers p.log)
          × ((sync_wallet w p).has_db ≡ p.has_db))
sync_wallet_lem w p = ground arith

-- What a run does: two writes to its row, and at most one transfer.
pub record Ran (w : World) (p : Pilot) (r : Spend) (o : Outcome) (q : Pilot × Bool) : Type 0 where
  pub spends : q.0.spends ≡ ran w r o p.spends
  pub result : q.1 ≡ o.ok
  pub transfers : transfers q.0.log ≤ transfers p.log + 1
  pub has_db : q.0.has_db ≡ p.has_db

pub run_spend-Ran :
    (w : World) (p : Pilot) (r : Spend)
    → p.has_db ≡ true
    → Ran w p r (outcome_of w p r) (run_spend w p r)
unfolding run_spend outcome_of set_spend_state finish
run_spend-Ran w p r db =
    let p' = set_spend_state w p r.id SpendState.executing in
    ground (
      arith,
      sync_wallet_lem w p',
      do_transfer_lem w (sync_wallet w p') (funding_public_account p') r.recipient r.amount,
    )

module _ (w : World) (p : Pilot) (r : Spend) (v : IsKeyed p.spends)
    (found : find r.id p.spends ≡ some r) (open_row : is_completed r.state ≡ false)
    (alive : is_spent_or_dead r.state ≡ false) where
  first_write : List Spend
  first_write = set_at r.id (with_state SpendState.executing (w.clock 0)) p.spends

  first_found : find r.id first_write ≡ some (with_state SpendState.executing (w.clock 0) r)
  unfolding first_write
  first_found =
      find-set_at_self r.id (with_state SpendState.executing (w.clock 0)) p.spends r (λ _. refl)
        found

  first_moves : RowMoves r (with_state SpendState.executing (w.clock 0) r)
  first_moves = ground arith

  ran-Evolves : (o : Outcome) → Evolves p.spends (ran w r o p.spends)
  unfolding first_write
  ran-Evolves o =
      Evolves-trans p.spends first_write (ran w r o p.spends)
        (Evolves-set_at p.spends r (with_state SpendState.executing (w.clock 0)) (λ _. refl) found
          first_moves)
        (Evolves-set_at first_write (with_state SpendState.executing (w.clock 0) r)
          (finished o.ok o.tx_hash o.error (w.clock 1)) (λ _. refl) first_found (ground arith))

  ran-IsKeyed : (o : Outcome) → IsKeyed (ran w r o p.spends)
  ran-IsKeyed o =
      set_at-IsKeyed r.id (finished o.ok o.tx_hash o.error (w.clock 1))
        (set_at r.id (with_state SpendState.executing (w.clock 0)) p.spends) (λ _. refl)
        (set_at-IsKeyed r.id (with_state SpendState.executing (w.clock 0)) p.spends (λ _. refl) v)

  -- The row is found again in its final state.
  pub ran-find :
      (o : Outcome)
      → find r.id (ran w r o p.spends)
        ≡ some (
            finished o.ok o.tx_hash o.error
              (w.clock 1)
              (with_state SpendState.executing (w.clock 0) r))
  unfolding first_write
  ran-find o =
      find-set_at_self r.id (finished o.ok o.tx_hash o.error (w.clock 1)) first_write
        (with_state SpendState.executing (w.clock 0) r) (λ _. refl) first_found

  -- One more request counts as attempted.
  ran-attempts : (o : Outcome) → tally attempt (ran w r o p.spends) ≡ tally attempt p.spends + 1
  unfolding first_write
  ran-attempts o = ground (
    arith,
    tally-set_at attempt r.id (with_state SpendState.executing (w.clock 0)) p.spends r v found,
    tally-set_at attempt r.id (finished o.ok o.tx_hash o.error (w.clock 1)) first_write
        (with_state SpendState.executing (w.clock 0) r)
        (set_at-IsKeyed r.id (with_state SpendState.executing (w.clock 0)) p.spends (λ _. refl) v)
        first_found,
  )

  Ran-Moves : (o : Outcome) (q : Pilot × Bool) → Ran w p r o q → Moves p q.0
  Ran-Moves o q h = record {
    keyed = subst IsKeyed (sym h.spends) (ran-IsKeyed o);
    evolves = subst (Evolves p.spends) (sym h.spends) (ran-Evolves o);
    once = rw (h.spends, ran-attempts o) (omega (arith, h.transfers));
  }

pub execute_row-Moves :
    (w : World) (p : Pilot) (id : Text)
    → p.has_db ≡ true
    → IsKeyed p.spends
    → Moves p (execute_row w p (find id p.spends)).0
unfolding execute_row
execute_row-Moves w p id db v = elim (Option-cases (find id p.spends)) [
  | inl e ↦ rw e (Moves-refl p v)
  | inr (r, e) ↦ rw e (go r e)
]
  where
    go : (r : Spend) → find id p.spends ≡ some r → Moves p (execute_row w p (some r)).0
    go r e = elim (Bool-cases (is_completed r.state)) [
      | inl done ↦ rw done (Moves-refl p v)
      | inr open_row ↦ elim (Bool-cases (is_spent_or_dead r.state)) [
        | inl dead ↦ rw (open_row, dead) (Moves-refl p v)
        | inr alive ↦
            rw (open_row, alive)
              (Ran-Moves w p r v
                (subst (λ k. find k p.spends ≡ some r) (sym (find_key id p.spends r e)) e) open_row
                alive (outcome_of w p r) (run_spend w p r) (run_spend-Ran w p r db))
      ]
    ]

-- A run of the executor evolves the requests, and hands at most as many transfers to the wallet as
-- it moves requests from unattempted to attempted.
pub execute_spend-Moves :
    (w : World) (p : Pilot) (id : Text) → IsKeyed p.spends → Moves p (execute_spend w p id).0
unfolding execute_spend
execute_spend-Moves w p id v =
    if_cases (λ (q : Pilot × Bool). Moves p q.0) p.has_db (λ db. execute_row-Moves w p id db v)
      (λ _. Moves-refl p v)
