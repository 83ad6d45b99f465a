-- ===== src/Money/Updates.antt =====
-- The writes to spend_requests outside executeSpend: new requests, and states set by a WHERE.
use mathlib.Core.Path.{subst}
use logos_pilot.Prelude.{
  ◌≡◌, refl, sym, ◌⊎◌, inl, inr, Bool, true, none, some, List, arith, Bool-cases, if_cases,
  Option-cases,
}
use logos_pilot.Prelude.Int.{ℤ}
use logos_pilot.Text.{Text, same-eq}
use logos_pilot.Table.{find, set_at, update}
use logos_pilot.Table.Laws.{
  IsKeyed, KeepsKey, find-update, update-IsKeyed, find-insert, insert-IsKeyed, find-set_at,
  set_at-IsKeyed, find_key,
}
use logos_pilot.Table.Sums.{tally-update, tally-insert, tally-set_at, tally-set_at_none}
use logos_pilot.Agent.{Pilot, Spend, spend_keyed}
use logos_pilot.Agent.States.{SpendState}
use logos_pilot.Agent.World.{World}
use logos_pilot.Spending.Ledger.{create_spend_request, new_spend, set_spend_state, with_state}
use logos_pilot.Money.Rows.{RowMoves, RowMoves-refl, Evolves, attempt, Moves, Moves-refl}
use logos_pilot.Money.Execute.{Evolves-set_at}

pub Evolves-update :
    (ss : List Spend) (c : Spend → Bool) (f : Spend → Spend)
    → KeepsKey f
    → ((r : Spend) → c r ≡ true → RowMoves r (f r))
    → Evolves ss (update c f ss)
Evolves-update ss c f h m k x e = elim (Bool-cases (c x)) [
  | inl hit ↦ (f x, ground (arith, find-update k c f ss h), m x hit)
  | inr miss ↦ (x, ground (arith, find-update k c f ss h), RowMoves-refl x)
]

-- A write by a WHERE that starts and ends no attempt.
pub update-Moves :
    (p : Pilot) (c : Spend → Bool) (f : Spend → Spend)
    → IsKeyed p.spends
    → KeepsKey f
    → ((r : Spend) → c r ≡ true → RowMoves r (f r))
    → ((r : Spend) → c r ≡ true → attempt (f r) ≡ attempt r)
    → Moves p (record p { spends = update c f p.spends })
update-Moves p c f v h m a = record {
  keyed = update-IsKeyed c f p.spends h v;
  evolves = Evolves-update p.spends c f h m;
  once = omega (arith, tally-update attempt c f p.spends a);
}

-- A new request under a fresh id.
pub create-Moves :
    (w : World) (p : Pilot) (recipient : Text) (amount : ℤ) (reason : Text)
    → IsKeyed p.spends
    → find w.generated_id p.spends ≡ none
    → Moves p (create_spend_request w p recipient amount reason).0
unfolding create_spend_request
create-Moves w p recipient amount reason v fresh = elim (Bool-cases p.has_db) [
  | inl db ↦ simp db (record {
    keyed = insert-IsKeyed row p.spends v;
    evolves = λ k r e. (r, ground (arith, find-insert k row p.spends), RowMoves-refl r);
    once = omega (arith, tally-insert attempt row p.spends fresh);
  })
  | inr db ↦ simp db (Moves-refl p v)
]
  where
    row : Spend
    row = new_spend w recipient amount reason

-- A state write by key that is no attempt, on a row from which it is allowed.
pub set_spend_state-Moves :
    (w : World) (p : Pilot) (id : Text) (s : SpendState)
    → IsKeyed p.spends
    → ((r : Spend)
        → find id p.spends ≡ some r
        → RowMoves r (with_state s (w.clock 0) r)
          × (attempt (with_state s (w.clock 0) r) ≡ attempt r))
    → Moves p (set_spend_state w p id s)
unfolding set_spend_state
set_spend_state-Moves w p id s v ok =
    if_cases (Moves p) p.has_db (λ _. written (Option-cases (find id p.spends)))
      (λ _. Moves-refl p v)
  where
    f : Spend → Spend
    f = with_state s (w.clock 0)

    written :
        (find id p.spends ≡ none) ⊎ ((r : Spend) × (find id p.spends ≡ some r))
        → Moves p (record p { spends = set_at id f p.spends })
    written (inl e) = record {
      keyed = set_at-IsKeyed id f p.spends (λ _. refl) v;
      evolves = λ k r e'. (
        r,
        ground (arith, find-set_at k id f p.spends (λ _. refl), same-eq k id),
        RowMoves-refl r,
      );
      once = omega (arith, tally-set_at_none attempt id f p.spends e);
    }
    written (inr (r, e)) =
        let key : r.id ≡ id = find_key id p.spends r e in
        let at : find r.id p.spends ≡ some r = subst (λ k. find k p.spends ≡ some r) (sym key) e in
        record {
          keyed = set_at-IsKeyed id f p.spends (λ _. refl) v;
          evolves =
              subst (λ k. Evolves p.spends (set_at k f p.spends)) key
                (Evolves-set_at p.spends r f (λ _. refl) at (ok r e).0);
          once = omega (arith, tally-set_at attempt id f p.spends r v e, (ok r e).1);
        }
