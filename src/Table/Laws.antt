-- ===== src/Table/Laws.antt =====
-- What a lookup finds after each statement, and the uniqueness of the primary key.
use logos_pilot.Prelude.{
  Bool, none, some, List, [], ◌∷◌, ◌++◌, false, if◌then◌else◌, ◌≡◌, refl, arith, Option-cases, inl,
  inr, ◌&&◌,
}
use logos_pilot.Text.{Text, same, same-eq, same_refl}
use logos_pilot.Table.{Keyed, find, update, set_at, any_row, insert, upsert, delete, rows_where}

false_swap : (s u : Text) → same s u ≡ false → same u s ≡ false
false_swap s u h = ground (arith, same-eq u s, same_refl s)

module _ {R : Type 0} ⦃t : Keyed R⦄ where
  -- No two rows share their key.
  abbrev pub IsKeyed : List R → Type 0
  IsKeyed [] = Unit
  IsKeyed (r ∷ rs) = (find (t.key r) rs ≡ none) × IsKeyed rs

  -- A statement that keeps the keys of its rows.
  abbrev pub KeepsKey : (R → R) → Type 0
  KeepsKey f = (r : R) → t.key (f r) ≡ t.key r

  pub find-update :
      (k : Text) (p : R → Bool) (f : R → R) (rs : List R)
      → KeepsKey f
      → find k (update p f rs)
        ≡ elim (find k rs) [ none ↦ none | some r ↦ some (if p r then f r else r) ]
  unfolding find update
  find-update k p f [] h = refl
  find-update k p f (r ∷ rs) h = ground (arith, h r, find-update k p f rs h)

  pub find_key : (k : Text) (rs : List R) (r : R) → find k rs ≡ some r → t.key r ≡ k
  unfolding find
  find_key k [] r e = cc
  find_key k (x ∷ rs) r e = ground (arith, find_key k rs r)

  pub find-update_none :
      (k : Text) (p : R → Bool) (f : R → R) (rs : List R)
      → KeepsKey f
      → find k rs ≡ none
      → find k (update p f rs) ≡ none
  find-update_none k p f rs h e = ground (arith, find-update k p f rs h)

  pub update-IsKeyed :
      (p : R → Bool) (f : R → R) (rs : List R) → KeepsKey f → IsKeyed rs → IsKeyed (update p f rs)
  unfolding update
  update-IsKeyed p f [] h v = tt
  update-IsKeyed p f (r ∷ rs) h v =
      ground (arith, h r, find-update_none (t.key r) p f rs h v.0, update-IsKeyed p f rs h v.1)

  pub set_at-IsKeyed :
      (k : Text) (f : R → R) (rs : List R) → KeepsKey f → IsKeyed rs → IsKeyed (set_at k f rs)
  unfolding set_at
  set_at-IsKeyed k f rs h v = update-IsKeyed (λ r. same (t.key r) k) f rs h v

  -- A lookup after `UPDATE … WHERE key = ?`: the row of that key is changed, all others are not.
  pub find-set_at :
      (j k : Text) (f : R → R) (rs : List R)
      → KeepsKey f
      → find j (set_at k f rs)
        ≡ elim (find j rs) [ none ↦ none | some r ↦ some (if same j k then f r else r) ]
  unfolding find set_at update
  find-set_at j k f [] h = refl
  find-set_at j k f (r ∷ rs) h = ground (arith, h r, find-set_at j k f rs h)

  pub find-set_at_self :
      (k : Text) (f : R → R) (rs : List R) (r : R)
      → KeepsKey f
      → find k rs ≡ some r
      → find k (set_at k f rs) ≡ some (f r)
  find-set_at_self k f rs r h e = ground (arith, find-set_at k k f rs h)

  -- `INSERT` leaves every row that was there, and its own row is found if its key was free.
  pub find-insert :
      (k : Text) (r : R) (rs : List R)
      → find k (insert r rs)
        ≡ elim (find k rs) [ none ↦ if same (t.key r) k then some r else none | some x ↦ some x ]
  unfolding find insert
  find-insert k r [] = refl
  find-insert k r (x ∷ rs) = ground (arith, find-insert k r rs)

  pub insert-IsKeyed : (r : R) (rs : List R) → IsKeyed rs → IsKeyed (insert r rs)
  unfolding insert find
  insert-IsKeyed r [] v = (refl, tt)
  insert-IsKeyed r (x ∷ rs) v = ground (arith, insert-IsKeyed r rs v.1, find-insert (t.key x) r rs)

  pub find-delete :
      (k : Text) (p : R → Bool) (rs : List R)
      → IsKeyed rs
      → find k (delete p rs)
        ≡ elim (find k rs) [ none ↦ none | some r ↦ if p r then none else some r ]
  unfolding find delete
  find-delete k p [] v = refl
  find-delete k p (r ∷ rs) v = ground (arith, find-delete k p rs v.1, same-eq (t.key r) k, v.0)

  pub find-snoc :
      (k : Text) (r : R) (rs : List R)
      → find k (rs ++ r ∷ [])
        ≡ elim (find k rs) [ none ↦ if same (t.key r) k then some r else none | some x ↦ some x ]
  unfolding find
  find-snoc k r [] = refl
  find-snoc k r (x ∷ rs) = ground (arith, find-snoc k r rs)

  -- A lookup after `INSERT OR REPLACE`.
  pub find-upsert :
      (k : Text) (r : R) (rs : List R)
      → IsKeyed rs
      → find k (upsert r rs) ≡ (if same (t.key r) k then some r else find k rs)
  unfolding upsert
  find-upsert k r rs v =
      let others = λ (x : R). same (t.key x) (t.key r) in
      elim (Option-cases (find k rs)) [
        | inl e ↦ ground (arith, find-snoc k r (delete others rs), find-delete k others rs v)
        | inr (x, e) ↦
            ground (
              arith,
              find-snoc k r (delete others rs),
              find-delete k others rs v,
              find_key k rs x e,
            )
      ]

  -- `sqlite3_changes() == 0`: no row of that key meets the condition.
  pub any_row-key :
      (k : Text) (q : R → Bool) (rs : List R)
      → IsKeyed rs
      → any_row (λ r. same (t.key r) k && q r) rs ≡ elim (find k rs) [ none ↦ false | some r ↦ q r ]
  unfolding find any_row
  any_row-key k q [] v = refl
  any_row-key k q (r ∷ rs) v = ground (arith, any_row-key k q rs v.1, v.0)

  pub delete-IsKeyed : (p : R → Bool) (rs : List R) → IsKeyed rs → IsKeyed (delete p rs)
  unfolding delete rows_where
  delete-IsKeyed p [] v = tt
  delete-IsKeyed p (r ∷ rs) v =
      ground (arith, delete-IsKeyed p rs v.1, find-delete (t.key r) p rs v.1, v.0)

  snoc-IsKeyed :
      (r : R) (rs : List R) → find (t.key r) rs ≡ none → IsKeyed rs → IsKeyed (rs ++ r ∷ [])
  unfolding find
  snoc-IsKeyed r [] h v = (refl, tt)
  snoc-IsKeyed r (x ∷ rs) h v =
      ground
        (arith, find-snoc (t.key x) r rs, snoc-IsKeyed r rs, false_swap (t.key x) (t.key r), v.0)

  find-delete_self : (k : Text) (rs : List R) → find k (delete (λ x. same (t.key x) k) rs) ≡ none
  unfolding delete rows_where find
  find-delete_self k [] = refl
  find-delete_self k (r ∷ rs) = ground (arith, find-delete_self k rs)

  pub upsert-IsKeyed : (r : R) (rs : List R) → IsKeyed rs → IsKeyed (upsert r rs)
  unfolding upsert
  upsert-IsKeyed r rs v =
      snoc-IsKeyed r (delete (λ x. same (t.key x) (t.key r)) rs) (find-delete_self (t.key r) rs)
        (delete-IsKeyed (λ x. same (t.key x) (t.key r)) rs v)
