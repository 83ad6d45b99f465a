-- ===== src/Table.antt =====
-- A table of the agent's SQLite database: its rows in rowid order, with a TEXT primary key. Each
-- function is the effect of one form of statement that the source prepares.
pub mod Laws
pub mod Sums
use logos_pilot.Prelude.{
  Bool, Option, none, some, List, [], ◌∷◌, ◌++◌, ◌||◌, false, if◌then◌else◌, not,
}
use logos_pilot.Text.{Text, same}

-- The primary key of a row.
pub record Keyed (R : Type 0) : Type 0 where
  pub key : R → Text

module _ {R : Type 0} ⦃t : Keyed R⦄ where
  -- `SELECT … WHERE key = ?`, stepped once.
  unfoldable pub find : Text → List R → Option R
  find k [] = none
  find k (r ∷ rs) = if same (t.key r) k then some r else find k rs

module _ {R : Type 0} where
  -- `UPDATE … SET … WHERE p`.
  unfoldable pub update : (R → Bool) → (R → R) → List R → List R
  update p f [] = []
  update p f (r ∷ rs) = (if p r then f r else r) ∷ update p f rs

  -- `sqlite3_changes() > 0` after an UPDATE with this WHERE.
  unfoldable pub any_row : (R → Bool) → List R → Bool
  any_row p [] = false
  any_row p (r ∷ rs) = p r || any_row p rs

  -- `SELECT … WHERE p`.
  unfoldable pub rows_where : (R → Bool) → List R → List R
  rows_where p [] = []
  rows_where p (r ∷ rs) = if p r then r ∷ rows_where p rs else rows_where p rs

  -- `DELETE … WHERE p`.
  unfoldable pub delete : (R → Bool) → List R → List R
  unfolding rows_where
  delete p rs = rows_where (λ r. not (p r)) rs

module _ {R : Type 0} ⦃t : Keyed R⦄ where
  -- `UPDATE … SET … WHERE key = ?`.
  unfoldable pub set_at : Text → (R → R) → List R → List R
  unfolding update
  set_at k f rs = update (λ r. same (t.key r) k) f rs

  -- `INSERT`: on a key that is taken the statement fails and the table stays as it was. It is
  -- `INSERT OR IGNORE` and `ON CONFLICT DO NOTHING` too.
  unfoldable pub insert : R → List R → List R
  insert r [] = r ∷ []
  insert r (x ∷ rs) = if same (t.key x) (t.key r) then x ∷ rs else x ∷ insert r rs

  -- `INSERT OR REPLACE`: the row that holds the key is deleted, and the new one goes to the end.
  unfoldable pub upsert : R → List R → List R
  upsert r rs = delete (λ x. same (t.key x) (t.key r)) rs ++ r ∷ []
