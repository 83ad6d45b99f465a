-- ===== src/Money/Rows.antt =====
-- How a row of spend_requests may change: the life of a spend request.
use mathlib.Core.Path.{subst}
use logos_pilot.Prelude.{ℕ, ◌+◌, ◌≤◌, ◌≡◌, refl, sym, Bool, true, false, some, List, arith}
use logos_pilot.Text.{Text}
use logos_pilot.Table.{find}
use logos_pilot.Table.Laws.{IsKeyed}
use logos_pilot.Table.Sums.{tally}
use logos_pilot.Agent.{Pilot, Spend, spend_keyed}
use logos_pilot.Agent.States.{SpendState}
use logos_pilot.Money.Frame.{transfers, KeepsMoney}

-- The states that a request in the first state may still reach. COMPLETED, TX_FAILED, REJECTED,
-- EXPIRED and TX_UNKNOWN are final; what is approved or under way can be neither rejected nor
-- expired; nothing returns to an earlier state.
abbrev pub may_become : SpendState → SpendState → Bool
may_become SpendState.created _ = true
may_become SpendState.held SpendState.created = false
may_become SpendState.held _ = true
may_become SpendState.notified SpendState.created = false
may_become SpendState.notified SpendState.held = false
may_become SpendState.notified _ = true
may_become SpendState.approved SpendState.approved = true
may_become SpendState.approved SpendState.executing = true
may_become SpendState.approved SpendState.completed = true
may_become SpendState.approved SpendState.tx_failed = true
may_become SpendState.approved SpendState.tx_unknown = true
may_become SpendState.approved _ = false
may_become SpendState.executing SpendState.executing = true
may_become SpendState.executing SpendState.completed = true
may_become SpendState.executing SpendState.tx_failed = true
may_become SpendState.executing SpendState.tx_unknown = true
may_become SpendState.executing _ = false
may_become SpendState.completed SpendState.completed = true
may_become SpendState.completed _ = false
may_become SpendState.tx_failed SpendState.tx_failed = true
may_become SpendState.tx_failed _ = false
may_become SpendState.rejected SpendState.rejected = true
may_become SpendState.rejected _ = false
may_become SpendState.expired SpendState.expired = true
may_become SpendState.expired _ = false
may_become SpendState.tx_unknown SpendState.tx_unknown = true
may_become SpendState.tx_unknown _ = false

pub may_become_refl : (s : SpendState) → may_become s s ≡ true
may_become_refl s = ground arith

pub may_become_trans :
    (a b c : SpendState) → may_become a b ≡ true → may_become b c ≡ true → may_become a c ≡ true
may_become_trans SpendState.created b c h k = refl
may_become_trans SpendState.held b c h k = ground arith
may_become_trans SpendState.notified b c h k = ground arith
may_become_trans SpendState.approved b c h k = ground arith
may_become_trans _ b c h k = ground arith

-- What no operation changes in a row, and how its state may change.
pub record RowMoves (r r' : Spend) : Type 0 where
  pub id : r'.id ≡ r.id
  pub recipient : r'.recipient ≡ r.recipient
  pub amount : r'.amount ≡ r.amount
  pub reason : r'.reason ≡ r.reason
  pub created_at : r'.created_at ≡ r.created_at
  pub expires_at : r'.expires_at ≡ r.expires_at
  pub state : may_become r.state r'.state ≡ true

pub RowMoves-refl : (r : Spend) → RowMoves r r
RowMoves-refl r = ground (arith, may_become_refl r.state)

pub RowMoves-trans : {a b c : Spend} → RowMoves a b → RowMoves b c → RowMoves a c
RowMoves-trans {a} {b} {c} h k = ground (arith, may_become_trans a.state b.state c.state)

-- Every request is still there, unchanged but for its state, which moved on.
abbrev pub Evolves : List Spend → List Spend → Type 0
Evolves ss ss' =
    (k : Text) (r : Spend)
    → find k ss ≡ some r
    → (r' : Spend) × (find k ss' ≡ some r') × RowMoves r r'

pub Evolves-refl : (ss : List Spend) → Evolves ss ss
Evolves-refl ss k r e = (r, e, RowMoves-refl r)

pub Evolves-trans : (a b c : List Spend) → Evolves a b → Evolves b c → Evolves a c
Evolves-trans a b c h k id r e =
    let (r', e', m) = h id r e in let (r'', e'', m') = k id r' e' in (r'', e'', RowMoves-trans m m')

-- 1 for a request that was handed to the wallet, or may have been.
abbrev pub attempt : Spend → ℕ
attempt r = elim r.state [
  | SpendState.executing ↦ 1
  | SpendState.completed ↦ 1
  | SpendState.tx_failed ↦ 1
  | SpendState.tx_unknown ↦ 1
  | _ ↦ 0
]

-- From `p` to `q` requests evolve, and there are no more new transfers than newly attempted requests.
pub record Moves (p q : Pilot) : Type 0 where
  pub keyed : IsKeyed q.spends
  pub evolves : Evolves p.spends q.spends
  pub once : transfers q.log + tally attempt p.spends ≤ transfers p.log + tally attempt q.spends

pub Moves-trans : {p q r : Pilot} → Moves p q → Moves q r → Moves p r
Moves-trans {p} {q} {r} h k = record {
  keyed = k.keyed;
  evolves = Evolves-trans p.spends q.spends r.spends h.evolves k.evolves;
  once = omega (arith, h.once, k.once);
}

pub Moves-refl : (p : Pilot) → IsKeyed p.spends → Moves p p
Moves-refl p v = record { keyed = v; evolves = Evolves-refl p.spends; once = omega arith }

pub KeepsMoney-Moves : {p q : Pilot} → IsKeyed p.spends → KeepsMoney p q → Moves p q
KeepsMoney-Moves {p} {q} v h = record {
  keyed = subst IsKeyed (sym h.spends) v;
  evolves = subst (Evolves p.spends) (sym h.spends) (Evolves-refl p.spends);
  once = rw (h.spends, h.transfers) (omega arith);
}
