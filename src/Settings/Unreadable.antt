-- ===== src/Settings/Unreadable.antt =====
-- A setting that a restart does not come past.
use logos_pilot.Prelude.{
  ◌≡◌, refl, true, none, List, [], ◌∷◌, ◌++◌, inl, inr, Option-cases, ℕ_discrete,
}
use logos_pilot.Text.{Text, codes, same, text_dec}
use logos_pilot.Table.{upsert, delete}
use logos_pilot.Agent.{Entry, entry_keyed}
use logos_pilot.Settings.Parse.{configure_value}
use logos_pilot.Settings.Keys.{Settings, classify}
use logos_pilot.Settings.Configure.{persist, configure_key, meta_configure}
use logos_pilot.Settings.Load.{number_of, load_as, load_rows}

load_rows-snoc :
    (es : List Entry) (e : Entry) (s : Settings)
    → ((t : Settings) → load_as (classify e.name) e.value t ≡ none)
    → load_rows (es ++ e ∷ []) s ≡ none
unfolding load_rows
load_rows-snoc [] e s h = rw (h s) refl
load_rows-snoc (x ∷ es) e s h = elim (Option-cases (load_as (classify x.name) x.value s)) [
  | inl n ↦ rw n refl
  | inr (t, n) ↦ rw n (load_rows-snoc es e t h)
]

-- metaConfigure accepts the row name of the transaction limit as a key, with any value; where the
-- value does not start with a number, loading the table throws at the next start, whatever else the
-- table holds.
pub load_rows-meta_configure :
    (s d : Settings) (wire : Text)
    → s.has_db ≡ true
    → number_of (configure_value wire) ≡ none
    → ((meta_configure s (codes "spend_limit_per_tx") wire).1 ≡ true)
      × (load_rows (meta_configure s (codes "spend_limit_per_tx") wire).0.config d ≡ none)
unfolding meta_configure configure_key persist text_dec ℕ_discrete
load_rows-meta_configure s d wire db bad =
    let v = configure_value wire in
    let row : Entry = record { name = codes "spend_limit_per_tx"; value = v } in
    let fails : (t : Settings) → load_as (classify row.name) row.value t ≡ none =
      λ t. unfold load_as classify in rw bad refl in
    rw db (
      refl,
      unfold upsert in
          load_rows-snoc (delete (λ x. same x.name (codes "spend_limit_per_tx")) s.config) row d
            fails,
    )
