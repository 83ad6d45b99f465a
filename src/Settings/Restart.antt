-- ===== src/Settings/Restart.antt =====
-- The table config mirrors the settings through any calls of metaConfigure.
use mathlib.Core.Path.{subst}
use logos_pilot.Prelude.{
  ◌≡◌, refl, sym, Bool, true, false, Option, none, some, List, [], ◌∷◌, ◌&&◌, ◌||◌, not, arith,
  if_cases, ℕ_discrete,
}
use logos_pilot.Prelude.Int.{ℤ}
use logos_pilot.Text.{Text, codes, same, same-eq, is_empty, text_dec}
use logos_pilot.Table.{find}
use logos_pilot.Settings.Parse.{parse_ll, configure_value}
use logos_pilot.Settings.Keys.{Settings, classify}
use logos_pilot.Settings.Configure.{
  persist, persist_number, persist_name, export_key, api_key_variable, init_llm, configure_key,
  meta_configure,
}
use logos_pilot.Settings.Written.{
  SameSettings, Mirrors, Writes, persist-Mirrors, per_tx-Writes, per_period-Writes,
  period_seconds-Writes, owner_npk-Writes, owner_name-Writes,
}

-- A key that is the name of none of the five rows.
abbrev pub is_row_name : Text → Bool
is_row_name k =
    same k (codes "spend_limit_per_tx")
    || (same k (codes "spend_limit_per_period")
        || (same k (codes "spend_period_seconds")
            || (same k (codes "owner.npk") || same k (codes "owner.name"))))

pub quiet-Writes :
    (s s' : Settings) (name value : Text)
    → s'.config ≡ s.config
    → SameSettings s' s
    → is_row_name name ≡ false
    → Writes s s' name value
unfolding classify
quiet-Writes s s' name value c h no_row = record {
  config = c;
  readable = ground arith;
  per_tx = (λ e. absurd (ground arith), λ e. h.per_tx);
  per_period = (λ e. absurd (ground arith), λ e. h.per_period);
  period_seconds = (λ e. absurd (ground arith), λ e. h.period_seconds);
  owner_npk = (λ e. absurd (ground arith), λ e. h.owner_npk);
  owner_name = (λ e. absurd (ground arith), λ e. h.owner_name);
}

number-Mirrors :
    (d s : Settings) (name value : Text) (write : ℤ → Settings) (o : Option ℤ)
    → Mirrors d s
    → ((n : ℤ) → o ≡ some n → Writes s (write n) name value)
    → Mirrors d (persist_number name value write s o).0
unfolding persist_number
number-Mirrors d s name value write none m h = m
number-Mirrors d s name value write (some n) m h =
    persist-Mirrors d s (write n) name value m (h n refl)

same_settings : (s : Settings) → SameSettings s s
same_settings s = record {
  per_tx = refl;
  per_period = refl;
  period_seconds = refl;
  owner_npk = refl;
  owner_name = refl;
}

-- What a call of metaConfigure must not be for its setting to outlive a restart: one of the three
-- row names that the limits are kept under, or the clearing of the owner's name.
abbrev pub is_lasting : Text → Text → Bool
is_lasting key wire =
    not (
      same key (codes "spend_limit_per_tx")
      || (same key (codes "spend_limit_per_period") || same key (codes "spend_period_seconds")))
    && not (same key (codes "owner.name") && is_empty (configure_value wire))

exported :
    (o : Option Text) (value : Text) (s : Settings)
    → ((init_llm (export_key o value s)).config ≡ s.config)
      × SameSettings (init_llm (export_key o value s)) s
unfolding export_key
exported none value s = (refl, ground arith)
exported (some name) value s = (refl, ground arith)

literal_quiet :
    (key : Text) (literal : Text)
    → same key literal ≡ true
    → is_row_name literal ≡ false
    → is_row_name key ≡ false
literal_quiet key literal e h = subst (λ k. is_row_name k ≡ false) (sym (same-eq key literal e)) h

module _ (d s : Settings) (key value : Text) (m : Mirrors d s) where
  name_kept :
      (not (same key (codes "owner.name") && is_empty value)) ≡ true
      → same key (codes "owner.name") ≡ true
      → Mirrors d (persist_name value s).0
  unfolding persist_name
  name_kept lasting e =
      if_cases (λ (r : Settings × Bool). Mirrors d r.0) (is_empty value)
        (λ h. absurd (ground arith))
        (λ h.
          persist-Mirrors d s (record s { owner_name = value }) (codes "owner.name") value m
            (owner_name-Writes s value))

  at_literal :
      (s' : Settings) (literal : Text)
      → s'.config ≡ s.config
      → SameSettings s' s
      → is_row_name literal ≡ false
      → same key literal ≡ true
      → Mirrors d (persist key value s').0
  at_literal s' literal c h free e =
      persist-Mirrors d s s' key value m
        (quiet-Writes s s' key value c h (literal_quiet key literal e free))

  owner_kept :
      same key (codes "owner.npk") ≡ true
      → Mirrors d (persist key value (record s { owner_npk = value })).0
  owner_kept e =
      subst (λ k. Mirrors d (persist k value (record s { owner_npk = value })).0)
        (sym (same-eq key (codes "owner.npk") e))
        (persist-Mirrors d s (record s { owner_npk = value }) (codes "owner.npk") value m
          (owner_npk-Writes s value))

  configure_key-Mirrors :
      (not (
          same key (codes "spend_limit_per_tx")
          || (same key (codes "spend_limit_per_period")
              || same key (codes "spend_period_seconds"))))
        ≡ true
      → (not (same key (codes "owner.name") && is_empty value)) ≡ true
      → Mirrors d (configure_key s key value).0
  unfolding configure_key text_dec ℕ_discrete
  configure_key-Mirrors no_raw lasting =
      let P = λ (r : Settings × Bool). Mirrors d r.0 in
      if_cases P (same key (codes "spending.per_transaction_limit"))
        (λ h.
          number-Mirrors d s (codes "spend_limit_per_tx") value (λ n. record s { per_tx = n })
            (parse_ll value) m (per_tx-Writes s value))
        (λ h1.
          if_cases P (same key (codes "spending.per_period_limit"))
            (λ h.
              number-Mirrors d s (codes "spend_limit_per_period") value
                (λ n. record s { per_period = n }) (parse_ll value) m (per_period-Writes s value))
            (λ h2.
              if_cases P (same key (codes "spending.period_seconds"))
                (λ h.
                  number-Mirrors d s (codes "spend_period_seconds") value
                    (λ n. record s { period_seconds = n }) (parse_ll value) m
                    (period_seconds-Writes s value))
                (λ h3. if_cases P (same key (codes "owner.npk")) owner_kept (λ h4.
                  if_cases P (same key (codes "owner.name")) (name_kept lasting) (λ h5.
                    if_cases P (same key (codes "llm.provider"))
                      (at_literal (init_llm (record s { llm_provider = value }))
                        (codes "llm.provider") refl (ground arith) refl)
                      (λ h6.
                        if_cases P (same key (codes "llm.model"))
                          (at_literal (init_llm (record s { llm_model = value }))
                            (codes "llm.model") refl (ground arith) refl)
                          (λ h7.
                            if_cases P (same key (codes "llm.api_key"))
                              (at_literal
                                (init_llm (export_key (api_key_variable s.llm_provider) value s))
                                (codes "llm.api_key")
                                (exported (api_key_variable s.llm_provider) value s).0
                                (exported (api_key_variable s.llm_provider) value s).1 refl)
                              (λ h8. persist-Mirrors d s s key value m (
                                quiet-Writes s s key value refl (same_settings s)
                                  (ground arith))))))))))

lasting_parts :
    (key wire : Text)
    → is_lasting key wire ≡ true
    → ((not (
          same key (codes "spend_limit_per_tx")
          || (same key (codes "spend_limit_per_period")
              || same key (codes "spend_period_seconds"))))
        ≡ true)
      × ((not (same key (codes "owner.name") && is_empty (configure_value wire))) ≡ true)
lasting_parts key wire h = ground arith

meta_configure-Mirrors :
    (d s : Settings) (key wire : Text)
    → is_lasting key wire ≡ true
    → Mirrors d s
    → Mirrors d (meta_configure s key wire).0
unfolding meta_configure
meta_configure-Mirrors d s key wire h m =
    let (no_raw, lasting) = lasting_parts key wire h in
    if_cases (λ (r : Settings × Bool). Mirrors d r.0) (not s.has_db) (λ _. m)
      (λ _. configure_key-Mirrors d s key (configure_value wire) m no_raw lasting)

-- Calls of metaConfigure, each a key and its wire value.
unfoldable pub configure_all : List (Text × Text) → Settings → Settings
configure_all [] s = s
configure_all ((key, wire) ∷ calls) s = configure_all calls (meta_configure s key wire).0

abbrev pub AllLasting : List (Text × Text) → Type 0
AllLasting [] = Unit
AllLasting ((key, wire) ∷ calls) = (is_lasting key wire ≡ true) × AllLasting calls

pub configure_all-Mirrors :
    (d s : Settings) (calls : List (Text × Text))
    → AllLasting calls
    → Mirrors d s
    → Mirrors d (configure_all calls s)
unfolding configure_all
configure_all-Mirrors d s [] h m = m
configure_all-Mirrors d s ((key, wire) ∷ calls) (h, hs) m =
    configure_all-Mirrors d (meta_configure s key wire).0 calls hs
      (meta_configure-Mirrors d s key wire h m)

pub fresh-Mirrors : (d : Settings) → d.config ≡ [] → Mirrors d d
unfolding find
fresh-Mirrors d e = record {
  keyed = rw e tt;
  readable = rw e tt;
  per_tx = rw e refl;
  per_period = rw e refl;
  period_seconds = rw e refl;
  owner_npk = rw e refl;
  owner_name = rw e refl;
}
