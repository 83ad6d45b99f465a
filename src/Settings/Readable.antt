-- ===== src/Settings/Readable.antt =====
-- The tables that the loop of loadIdentity reads to the end.
use logos_pilot.Prelude.{
  ◌≡◌, refl, Bool, true, false, Option, none, some, List, [], ◌∷◌, ◌++◌, Option-cases, if_cases,
  inl, inr,
}
use logos_pilot.Prelude.Lists.{All}
use logos_pilot.Prelude.Int.{ℤ}
use logos_pilot.Text.{Text, codes, same}
use logos_pilot.Table.{upsert, delete, rows_where}
use logos_pilot.Agent.{Entry, entry_keyed}
use logos_pilot.Settings.Keys.{Settings, Key, classify}
use logos_pilot.Settings.Configure.{set_env}
use logos_pilot.Settings.Load.{loaded_variable, number_of, load_as, load_rows}

abbrev pub has_number : Option ℤ → Bool
has_number none = false
has_number (some n) = true

-- Whether loading a row of this key throws nothing.
abbrev pub is_readable : Key → Text → Bool
is_readable Key.per_tx v = has_number (number_of v)
is_readable Key.per_period v = has_number (number_of v)
is_readable Key.period_seconds v = has_number (number_of v)
is_readable _ v = true

abbrev pub AllReadable : List Entry → Type 0
AllReadable = All (λ (e : Entry). is_readable (classify e.name) e.value ≡ true)

load_as-some :
    (j : Key) (v : Text) (s : Settings)
    → is_readable j v ≡ true
    → (t : Settings) × (load_as j v s ≡ some t)
unfolding load_as
load_as-some Key.per_tx v s h = elim (Option-cases (number_of v)) [
  | inl e ↦ absurd (cc)
  | inr (n, e) ↦ (record s { per_tx = n }, rw e refl)
]
load_as-some Key.per_period v s h = elim (Option-cases (number_of v)) [
  | inl e ↦ absurd (cc)
  | inr (n, e) ↦ (record s { per_period = n }, rw e refl)
]
load_as-some Key.period_seconds v s h = elim (Option-cases (number_of v)) [
  | inl e ↦ absurd (cc)
  | inr (n, e) ↦ (record s { period_seconds = n }, rw e refl)
]
load_as-some Key.owner_npk v s h = (record s { owner_npk = v }, refl)
load_as-some Key.owner_name v s h = (record s { owner_name = v }, refl)
load_as-some Key.ecies_pub v s h = (record s { ecies_pub = v }, refl)
load_as-some Key.ecies_priv v s h = (record s { ecies_priv = v }, refl)
load_as-some Key.enc_pub v s h = (record s { enc_pub = v }, refl)
load_as-some Key.enc_priv v s h = (record s { enc_priv = v }, refl)
load_as-some Key.open_for_hire v s h = (record s { open_for_hire = same v (codes "1") }, refl)
load_as-some Key.llm_provider v s h = (record s { llm_provider = v }, refl)
load_as-some Key.llm_model v s h = (record s { llm_model = v }, refl)
load_as-some Key.llm_api_key v s h = (set_env (loaded_variable s.llm_provider) v s, refl)
load_as-some Key.other v s h = (s, refl)

pub load_rows-some :
    (es : List Entry) (s : Settings) → AllReadable es → (t : Settings) × (load_rows es s ≡ some t)
unfolding load_rows
load_rows-some [] s h = (s, refl)
load_rows-some (e ∷ es) s (h, hs) =
    let (s1, here) = load_as-some (classify e.name) e.value s h in
    let (t, rest) = load_rows-some es s1 hs in (t, rw here rest)

rows_where-AllReadable :
    (p : Entry → Bool) (es : List Entry) → AllReadable es → AllReadable (rows_where p es)
unfolding rows_where
rows_where-AllReadable p [] h = tt
rows_where-AllReadable p (e ∷ es) (h, hs) =
    if_cases AllReadable (p e) (λ _. (h, rows_where-AllReadable p es hs))
      (λ _. rows_where-AllReadable p es hs)

append-AllReadable : (xs ys : List Entry) → AllReadable xs → AllReadable ys → AllReadable (xs ++ ys)
append-AllReadable [] ys h k = k
append-AllReadable (x ∷ xs) ys (h, hs) k = (h, append-AllReadable xs ys hs k)

pub upsert-AllReadable :
    (e : Entry) (es : List Entry)
    → is_readable (classify e.name) e.value ≡ true
    → AllReadable es
    → AllReadable (upsert e es)
unfolding upsert delete
upsert-AllReadable e es h hs =
    append-AllReadable _ (e ∷ []) (rows_where-AllReadable _ es hs) (h, tt)
