-- ===== src/Table/Sums.antt =====
-- Sums over the rows of a table, and how each statement moves them.
use logos_pilot.Prelude.{
  ℕ, ◌+◌, Bool, true, Option, none, some, List, [], ◌∷◌, ◌≡◌, refl, arith, if◌then◌else◌,
}
use logos_pilot.Prelude.Int.{ℤ, pos, ◌+ℤ◌, int_laws}
use logos_pilot.Prelude.Int64.{fits_int64}
use logos_pilot.Text.{Text}
use logos_pilot.Table.{Keyed, find, update, set_at, insert}
use logos_pilot.Table.Laws.{IsKeyed}

module _ {R : Type 0} where
  -- `SUM` of an expression over all rows.
  abbrev pub total : (R → ℤ) → List R → ℤ
  total g [] = pos 0
  total g (r ∷ rs) = g r +ℤ total g rs

  -- What SQLite's `SUM` does with 64-bit integers, from a partial sum: it fails where one overflows.
  unfoldable pub checked_from : (R → ℤ) → ℤ → List R → Option ℤ
  checked_from g acc [] = some acc
  checked_from g acc (r ∷ rs) =
      let rest = checked_from g (acc +ℤ g r) rs in if fits_int64 (acc +ℤ g r) then rest else none

  -- Where the query does not fail, it returns the sum.
  pub checked-total :
      (g : R → ℤ) (acc s : ℤ) (rs : List R) → checked_from g acc rs ≡ some s → s ≡ acc +ℤ total g rs
  unfolding checked_from
  checked-total g acc s [] h = grind (int_laws, h)
  checked-total g acc s (r ∷ rs) h = grind (int_laws, h, checked-total g (acc +ℤ g r) s rs)

  pub checked-fits :
      (g : R → ℤ) (acc s : ℤ) (rs : List R)
      → fits_int64 acc ≡ true
      → checked_from g acc rs ≡ some s
      → fits_int64 s ≡ true
  unfolding checked_from
  checked-fits g acc s [] v h = ground (arith, v, h)
  checked-fits g acc s (r ∷ rs) v h = ground (arith, h, checked-fits g (acc +ℤ g r) s rs)

  pub checked-update :
      (g : R → ℤ) (acc : ℤ) (p : R → Bool) (f : R → R) (rs : List R)
      → ((r : R) → p r ≡ true → g (f r) ≡ g r)
      → checked_from g acc (update p f rs) ≡ checked_from g acc rs
  unfolding update checked_from
  checked-update g acc p f [] h = refl
  checked-update g acc p f (r ∷ rs) h = ground (arith, h r, checked-update g (acc +ℤ g r) p f rs h)

  pub total-update :
      (g : R → ℤ) (p : R → Bool) (f : R → R) (rs : List R)
      → ((r : R) → p r ≡ true → g (f r) ≡ g r)
      → total g (update p f rs) ≡ total g rs
  unfolding update
  total-update g p f [] h = refl
  total-update g p f (r ∷ rs) h = ground (arith, h r, total-update g p f rs h)

module _ {R : Type 0} ⦃t : Keyed R⦄ where
  pub total-set_at_none :
      (g : R → ℤ) (k : Text) (f : R → R) (rs : List R)
      → find k rs ≡ none
      → total g (set_at k f rs) ≡ total g rs
  unfolding find set_at
  total-set_at_none g k f [] e = refl
  total-set_at_none g k f (r ∷ rs) e = ground (arith, total-set_at_none g k f rs)

  -- Changing the row of a key changes the sum by what that row contributes.
  pub total-set_at :
      (g : R → ℤ) (k : Text) (f : R → R) (rs : List R) (r : R)
      → IsKeyed rs
      → find k rs ≡ some r
      → total g (set_at k f rs) +ℤ g r ≡ total g rs +ℤ g (f r)
  unfolding find set_at
  total-set_at g k f [] r v e = cc
  total-set_at g k f (x ∷ rs) r v e =
      grind (int_laws, total-set_at g k f rs r v.1, total-set_at_none g k f rs)

  -- A row inserted under a free key adds what it contributes.
  pub total-insert :
      (g : R → ℤ) (r : R) (rs : List R)
      → find (t.key r) rs ≡ none
      → total g (insert r rs) ≡ total g rs +ℤ g r
  unfolding find insert
  total-insert g r [] e = omega int_laws
  total-insert g r (x ∷ rs) e = grind (int_laws, total-insert g r rs)

-- The same for counts.
module _ {R : Type 0} where
  abbrev pub tally : (R → ℕ) → List R → ℕ
  tally g [] = 0
  tally g (r ∷ rs) = g r + tally g rs

  pub tally-update :
      (g : R → ℕ) (p : R → Bool) (f : R → R) (rs : List R)
      → ((r : R) → p r ≡ true → g (f r) ≡ g r)
      → tally g (update p f rs) ≡ tally g rs
  unfolding update
  tally-update g p f [] h = refl
  tally-update g p f (r ∷ rs) h = ground (arith, h r, tally-update g p f rs h)

module _ {R : Type 0} ⦃t : Keyed R⦄ where
  pub tally-set_at_none :
      (g : R → ℕ) (k : Text) (f : R → R) (rs : List R)
      → find k rs ≡ none
      → tally g (set_at k f rs) ≡ tally g rs
  unfolding find set_at
  tally-set_at_none g k f [] e = refl
  tally-set_at_none g k f (r ∷ rs) e = ground (arith, tally-set_at_none g k f rs)

  pub tally-set_at :
      (g : R → ℕ) (k : Text) (f : R → R) (rs : List R) (r : R)
      → IsKeyed rs
      → find k rs ≡ some r
      → tally g (set_at k f rs) + g r ≡ tally g rs + g (f r)
  unfolding find set_at
  tally-set_at g k f [] r v e = cc
  tally-set_at g k f (x ∷ rs) r v e =
      ground (arith, tally-set_at g k f rs r v.1, tally-set_at_none g k f rs)

  pub tally-insert :
      (g : R → ℕ) (r : R) (rs : List R)
      → find (t.key r) rs ≡ none
      → tally g (insert r rs) ≡ tally g rs + g r
  unfolding find insert
  tally-insert g r [] e = omega arith
  tally-insert g r (x ∷ rs) e = ground (arith, tally-insert g r rs)
