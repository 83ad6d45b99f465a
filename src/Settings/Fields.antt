-- ===== src/Settings/Fields.antt =====
-- What the loop of loadIdentity leaves in one field.
use mathlib.Core.Path.{subst}
use logos_pilot.Prelude.{
  ◌≡◌, ◌∙◌, sym, ap, inl, inr, Bool, true, false, Option, none, some, List, [], ◌∷◌, arith,
  Bool-cases, Option-cases,
}
use logos_pilot.Prelude.Options.{◌>>=◌}
use logos_pilot.Text.{Text, codes, same, same-eq}
use logos_pilot.Table.{find}
use logos_pilot.Table.Laws.{IsKeyed}
use logos_pilot.Agent.{Entry, entry_keyed}
use logos_pilot.Settings.Keys.{Settings, Key, classify}
use logos_pilot.Settings.Load.{number_of, load_as, load_rows}

-- What a load leaves in a field: the value of the row of its name, or what was there.
abbrev pub ReadsAs :
    {A : Type 0} (parse : Text → Option A) (before after : A) → Option Entry → Type 0
ReadsAs parse before after none = after ≡ before
ReadsAs parse before after (some e) = parse e.value ≡ some after

bind_none :
    (es : List Entry) {o : Option Settings} {t : Settings}
    → o ≡ none
    → (o >>= load_rows es) ≡ some t
    → ⊥
bind_none es e h = cc

bind_some :
    (es : List Entry) {o : Option Settings} {s t : Settings}
    → o ≡ some s
    → (o >>= load_rows es) ≡ some t
    → load_rows es s ≡ some t
bind_some es e h = rw e at h

-- A field, the test for its key, its name in the table, and how its text is read.
module _ {A : Type 0} (name : Text) (test : Key → Bool) (parse : Text → Option A)
    (get : Settings → A) (named : (n : Text) → test (classify n) ≡ same n name)
    (hit : (j : Key) (v : Text) (s t : Settings)
      → test j ≡ true
      → load_as j v s ≡ some t
      → parse v ≡ some (get t))
    (miss : (j : Key) (v : Text) (s t : Settings)
      → test j ≡ false
      → load_as j v s ≡ some t
      → get t ≡ get s) where
  first_row :
      (e : Entry) (es : List Entry) (s s1 t : Settings)
      → IsKeyed (e ∷ es)
      → load_as (classify e.name) e.value s ≡ some s1
      → ReadsAs parse (get s1) (get t) (find name es)
      → ReadsAs parse (get s) (get t) (find name (e ∷ es))
  unfolding find
  first_row e es s s1 t v here rest = elim (Bool-cases (test (classify e.name))) [
    | inl yes_key ↦
        let at : same e.name name ≡ true = sym (named e.name) ∙ yes_key in
        let free : find name es ≡ none = ap (λ n. find n es) (sym (same-eq e.name name at)) ∙ v.0 in
        let kept : get t ≡ get s1 = subst (ReadsAs parse (get s1) (get t)) free rest in
        rw at (hit (classify e.name) e.value s s1 yes_key here ∙ ap some (sym kept))
    | inr no_key ↦
        let away : same e.name name ≡ false = sym (named e.name) ∙ no_key in
        let kept = miss (classify e.name) e.value s s1 no_key here in
        rw away (subst (λ x. ReadsAs parse x (get t) (find name es)) kept rest)
  ]

  pub loaded_field :
      (es : List Entry) (s t : Settings)
      → IsKeyed es
      → load_rows es s ≡ some t
      → ReadsAs parse (get s) (get t) (find name es)
  unfolding load_rows find
  loaded_field [] s t v h = cc
  loaded_field (e ∷ es) s t v h = elim (Option-cases (load_as (classify e.name) e.value s)) [
    | inl e' ↦ absurd (bind_none es e' h)
    | inr (s1, e') ↦ first_row e es s s1 t v e' (loaded_field es s1 t v.1 (bind_some es e' h))
  ]

abbrev is_per_tx : Key → Bool
is_per_tx Key.per_tx = true
is_per_tx _ = false

pub loaded_per_tx :
    (es : List Entry) (s t : Settings)
    → IsKeyed es
    → load_rows es s ≡ some t
    → ReadsAs number_of s.per_tx t.per_tx (find (codes "spend_limit_per_tx") es)
unfolding classify load_as
loaded_per_tx =
    loaded_field (codes "spend_limit_per_tx") is_per_tx number_of (λ s. s.per_tx)
      (λ n. ground arith) (λ j v s t h e. ground arith) (λ j v s t h e. ground arith)

abbrev is_per_period : Key → Bool
is_per_period Key.per_period = true
is_per_period _ = false

pub loaded_per_period :
    (es : List Entry) (s t : Settings)
    → IsKeyed es
    → load_rows es s ≡ some t
    → ReadsAs number_of s.per_period t.per_period (find (codes "spend_limit_per_period") es)
unfolding classify load_as
loaded_per_period =
    loaded_field (codes "spend_limit_per_period") is_per_period number_of (λ s. s.per_period)
      (λ n. ground arith) (λ j v s t h e. ground arith) (λ j v s t h e. ground arith)

abbrev is_period_seconds : Key → Bool
is_period_seconds Key.period_seconds = true
is_period_seconds _ = false

pub loaded_period_seconds :
    (es : List Entry) (s t : Settings)
    → IsKeyed es
    → load_rows es s ≡ some t
    → ReadsAs number_of s.period_seconds t.period_seconds (find (codes "spend_period_seconds") es)
unfolding classify load_as
loaded_period_seconds =
    loaded_field (codes "spend_period_seconds") is_period_seconds number_of (λ s. s.period_seconds)
      (λ n. ground arith) (λ j v s t h e. ground arith) (λ j v s t h e. ground arith)

abbrev is_owner_npk : Key → Bool
is_owner_npk Key.owner_npk = true
is_owner_npk _ = false

pub loaded_owner_npk :
    (es : List Entry) (s t : Settings)
    → IsKeyed es
    → load_rows es s ≡ some t
    → ReadsAs some s.owner_npk t.owner_npk (find (codes "owner.npk") es)
unfolding classify load_as
loaded_owner_npk =
    loaded_field (codes "owner.npk") is_owner_npk some (λ s. s.owner_npk) (λ n. ground arith)
      (λ j v s t h e. ground arith) (λ j v s t h e. ground arith)

abbrev is_owner_name : Key → Bool
is_owner_name Key.owner_name = true
is_owner_name _ = false

pub loaded_owner_name :
    (es : List Entry) (s t : Settings)
    → IsKeyed es
    → load_rows es s ≡ some t
    → ReadsAs some s.owner_name t.owner_name (find (codes "owner.name") es)
unfolding classify load_as
loaded_owner_name =
    loaded_field (codes "owner.name") is_owner_name some (λ s. s.owner_name) (λ n. ground arith)
      (λ j v s t h e. ground arith) (λ j v s t h e. ground arith)
