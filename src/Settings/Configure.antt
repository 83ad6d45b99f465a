-- ===== src/Settings/Configure.antt =====
-- metaConfigure (pilot-module/src/pilot_meta.cpp).
use logos_pilot.Prelude.{Bool, true, false, Option, none, some, not, if◌then◌else◌}
use logos_pilot.Prelude.Int.{ℤ}
use logos_pilot.Text.{Text, codes, same, is_empty}
use logos_pilot.Table.{upsert}
use logos_pilot.Agent.{entry_keyed}
use logos_pilot.Settings.Parse.{parse_ll, configure_value}
use logos_pilot.Settings.Keys.{Settings}

abbrev pub init_llm : Settings → Settings
init_llm s = record s { llm_for = (s.llm_provider, s.llm_model) }

abbrev pub set_env : Text → Text → Settings → Settings
set_env name value s = record s {
  environment = upsert (record { name = name; value = value }) s.environment;
}

-- The variable of a provider's key, `none` for a provider that the code does not know.
abbrev pub api_key_variable : Text → Option Text
api_key_variable provider =
    if same provider (codes "anthropic")
    then some (codes "ANTHROPIC_API_KEY")
    else if same provider (codes "openai")
    then some (codes "OPENAI_API_KEY")
    else if same provider (codes "deepseek")
    then some (codes "DEEPSEEK_API_KEY")
    else if same provider (codes "google")
    then some (codes "GOOGLE_API_KEY")
    else if same provider (codes "openrouter")
    then some (codes "OPENROUTER_API_KEY")
    else if same provider (codes "groq")
    then some (codes "GROQ_API_KEY")
    else none

unfoldable pub export_key : Option Text → Text → Settings → Settings
export_key none value s = s
export_key (some name) value s = set_env name value s

-- The row of config, and the answer.
unfoldable pub persist : Text → Text → Settings → Settings × Bool
persist key value s =
    (record s { config = upsert (record { name = key; value = value }) s.config }, true)

-- A text that is no number fails the call.
unfoldable pub persist_number : Text → Text → (ℤ → Settings) → Settings → Option ℤ → Settings × Bool
unfolding persist
persist_number key value write s none = (s, false)
persist_number key value write s (some n) = persist key value (write n)

unfoldable pub persist_name : Text → Settings → Settings × Bool
unfolding persist
persist_name value s =
    let named = record s { owner_name = value } in
    if is_empty value then (named, true) else persist (codes "owner.name") value named

unfoldable pub configure_key : Settings → Text → Text → Settings × Bool
unfolding persist persist_number persist_name export_key
configure_key s key value =
    if same key (codes "spending.per_transaction_limit")
    then persist_number (codes "spend_limit_per_tx") value (λ n. record s { per_tx = n }) s
        (parse_ll value)
    else if same key (codes "spending.per_period_limit")
    then persist_number (codes "spend_limit_per_period") value (λ n. record s { per_period = n }) s
        (parse_ll value)
    else if same key (codes "spending.period_seconds")
    then persist_number (codes "spend_period_seconds") value (λ n. record s { period_seconds = n })
        s (parse_ll value)
    else if same key (codes "owner.npk")
    then persist key value (record s { owner_npk = value })
    else if same key (codes "owner.name")
    then persist_name value s
    else if same key (codes "llm.provider")
    then persist key value (init_llm (record s { llm_provider = value }))
    else if same key (codes "llm.model")
    then persist key value (init_llm (record s { llm_model = value }))
    else if same key (codes "llm.api_key")
    then persist key value (init_llm (export_key (api_key_variable s.llm_provider) value s))
    else persist key value s

unfoldable pub meta_configure : Settings → Text → Text → Settings × Bool
unfolding configure_key configure_value
meta_configure s key wire =
    if not s.has_db then (s, false) else configure_key s key (configure_value wire)
