-- ===== src/Settings/Written.antt =====
-- The table config as a mirror of the settings, and what writing one row does to it.
use mathlib.Core.Path.{subst}
use logos_pilot.Prelude.{
  ◌≡◌, ◌∙◌, sym, true, false, Option, none, some, List, arith, Bool-cases, inl, inr, ℕ_discrete,
}
use logos_pilot.Prelude.Int.{ℤ}
use logos_pilot.Text.{Text, codes, same, text_dec}
use logos_pilot.Table.{find, upsert}
use logos_pilot.Table.Laws
use logos_pilot.Table.Laws.{IsKeyed}
use logos_pilot.Agent.{Entry, entry_keyed}
use logos_pilot.Settings.Parse.{parse_ll}
use logos_pilot.Settings.Keys.{Settings, classify}
use logos_pilot.Settings.Configure.{persist}
use logos_pilot.Settings.Load.{number_of, load_rows}
use logos_pilot.Settings.Fields.{
  ReadsAs, loaded_per_tx, loaded_per_period, loaded_period_seconds, loaded_owner_npk,
  loaded_owner_name,
}
use logos_pilot.Settings.Readable.{is_readable, AllReadable, upsert-AllReadable}

-- The five settings that money and trust depend on, in two states.
pub record SameSettings (t s : Settings) : Type 0 where
  pub per_tx : t.per_tx ≡ s.per_tx
  pub per_period : t.per_period ≡ s.per_period
  pub period_seconds : t.period_seconds ≡ s.period_seconds
  pub owner_npk : t.owner_npk ≡ s.owner_npk
  pub owner_name : t.owner_name ≡ s.owner_name

-- The table holds the five settings of `s`, where it differs from the defaults `d`.
pub record Mirrors (d s : Settings) : Type 0 where
  pub keyed : IsKeyed s.config
  pub readable : AllReadable s.config
  pub per_tx : ReadsAs number_of d.per_tx s.per_tx (find (codes "spend_limit_per_tx") s.config)
  pub per_period :
      ReadsAs number_of d.per_period s.per_period (find (codes "spend_limit_per_period") s.config)
  pub period_seconds :
      ReadsAs number_of d.period_seconds s.period_seconds
        (find (codes "spend_period_seconds") s.config)
  pub owner_npk : ReadsAs some d.owner_npk s.owner_npk (find (codes "owner.npk") s.config)
  pub owner_name : ReadsAs some d.owner_name s.owner_name (find (codes "owner.name") s.config)

agree :
    {A : Type 0} (parse : Text → Option A) (b x y : A) (o : Option Entry)
    → ReadsAs parse b x o
    → ReadsAs parse b y o
    → x ≡ y
agree parse b x y none h k = h ∙ sym k
agree parse b x y (some e) h k = cc

pub Mirrors-load :
    (d s t : Settings) → Mirrors d s → load_rows s.config d ≡ some t → SameSettings t s
Mirrors-load d s t m h = record {
  per_tx =
      agree number_of d.per_tx t.per_tx s.per_tx _ (loaded_per_tx s.config d t m.keyed h) m.per_tx;
  per_period =
      agree number_of d.per_period t.per_period s.per_period _
        (loaded_per_period s.config d t m.keyed h) m.per_period;
  period_seconds =
      agree number_of d.period_seconds t.period_seconds s.period_seconds _
        (loaded_period_seconds s.config d t m.keyed h) m.period_seconds;
  owner_npk =
      agree some d.owner_npk t.owner_npk s.owner_npk _ (loaded_owner_npk s.config d t m.keyed h)
        m.owner_npk;
  owner_name =
      agree some d.owner_name t.owner_name s.owner_name _ (loaded_owner_name s.config d t m.keyed h)
        m.owner_name;
}

-- What one row written does to a field: read from that row if it is the field's, kept otherwise.
abbrev pub Written : {A : Type 0} → (Text → Option A) → Text → A → A → Text → Text → Type 0
Written parse field before after name value =
    (same name field ≡ true → parse value ≡ some after) × (same name field ≡ false → after ≡ before)

row_of_field :
    {A : Type 0} (parse : Text → Option A) (field : Text) (b x y : A) (name value : Text)
    (c : List Entry)
    → IsKeyed c
    → ReadsAs parse b x (find field c)
    → Written parse field x y name value
    → ReadsAs parse b y (find field (upsert (record { name = name; value = value }) c))
row_of_field parse field b x y name value c v h (hit, miss) =
    let row : Entry = record { name = name; value = value } in
    elim (Bool-cases (same name field)) [
      | inl e ↦ rw (Laws.find-upsert field row c v, e) (hit e)
      | inr e ↦
          rw (Laws.find-upsert field row c v, e)
            (subst (λ z. ReadsAs parse b z (find field c)) (sym (miss e)) h)
    ]

-- What a row written does to all five.
pub record Writes (s s' : Settings) (name value : Text) : Type 0 where
  pub config : s'.config ≡ s.config
  pub readable : is_readable (classify name) value ≡ true
  pub per_tx : Written number_of (codes "spend_limit_per_tx") s.per_tx s'.per_tx name value
  pub per_period :
      Written number_of (codes "spend_limit_per_period") s.per_period s'.per_period name value
  pub period_seconds :
      Written number_of (codes "spend_period_seconds") s.period_seconds s'.period_seconds name value
  pub owner_npk : Written some (codes "owner.npk") s.owner_npk s'.owner_npk name value
  pub owner_name : Written some (codes "owner.name") s.owner_name s'.owner_name name value

pub persist-Mirrors :
    (d s s' : Settings) (name value : Text)
    → Mirrors d s
    → Writes s s' name value
    → Mirrors d (persist name value s').0
unfolding persist
persist-Mirrors d s s' name value m w =
    let row : Entry = record { name = name; value = value } in
    subst (λ c. Mirrors d (record s' { config = upsert row c })) (sym w.config)
      (record {
        keyed = Laws.upsert-IsKeyed row s.config m.keyed;
        readable = upsert-AllReadable row s.config w.readable m.readable;
        per_tx = row_of_field number_of _ _ _ _ name value s.config m.keyed m.per_tx w.per_tx;
        per_period =
            row_of_field number_of _ _ _ _ name value s.config m.keyed m.per_period w.per_period;
        period_seconds =
            row_of_field number_of _ _ _ _ name value s.config m.keyed m.period_seconds
              w.period_seconds;
        owner_npk = row_of_field some _ _ _ _ name value s.config m.keyed m.owner_npk w.owner_npk;
        owner_name =
            row_of_field some _ _ _ _ name value s.config m.keyed m.owner_name w.owner_name;
      })

parse_ll-number : (v : Text) (n : ℤ) → parse_ll v ≡ some n → number_of v ≡ some n
unfolding parse_ll
parse_ll-number v n h = ground arith

pub per_tx-Writes :
    (s : Settings) (value : Text) (n : ℤ)
    → parse_ll value ≡ some n
    → Writes s (record s { per_tx = n }) (codes "spend_limit_per_tx") value
unfolding classify text_dec ℕ_discrete
per_tx-Writes s value n h = ground (arith, parse_ll-number value n h)

pub per_period-Writes :
    (s : Settings) (value : Text) (n : ℤ)
    → parse_ll value ≡ some n
    → Writes s (record s { per_period = n }) (codes "spend_limit_per_period") value
unfolding classify text_dec ℕ_discrete
per_period-Writes s value n h = ground (arith, parse_ll-number value n h)

pub period_seconds-Writes :
    (s : Settings) (value : Text) (n : ℤ)
    → parse_ll value ≡ some n
    → Writes s (record s { period_seconds = n }) (codes "spend_period_seconds") value
unfolding classify text_dec ℕ_discrete
period_seconds-Writes s value n h = ground (arith, parse_ll-number value n h)

pub owner_npk-Writes :
    (s : Settings) (value : Text)
    → Writes s (record s { owner_npk = value }) (codes "owner.npk") value
unfolding classify text_dec ℕ_discrete
owner_npk-Writes s value = ground arith

pub owner_name-Writes :
    (s : Settings) (value : Text)
    → Writes s (record s { owner_name = value }) (codes "owner.name") value
unfolding classify text_dec ℕ_discrete
owner_name-Writes s value = ground arith
