-- ===== src/Settings/Load.antt =====
-- The loop of loadIdentity over the table config (pilot-module/src/pilot_identity.cpp).
use logos_pilot.Prelude.{Option, some, List, [], ◌∷◌, if◌then◌else◌}
use logos_pilot.Prelude.Options.{◌>>=◌}
use logos_pilot.Prelude.Int.{ℤ}
use logos_pilot.Text.{Text, codes, same}
use logos_pilot.Agent.{Entry, entry_keyed}
use logos_pilot.Settings.Parse.{stoll}
use logos_pilot.Settings.Keys.{Settings, Key, classify}
use logos_pilot.Settings.Configure.{set_env}

-- The variable that the key goes to; any provider that is not named counts as OpenAI.
abbrev pub loaded_variable : Text → Text
loaded_variable provider =
    if same provider (codes "anthropic")
    then codes "ANTHROPIC_API_KEY"
    else if same provider (codes "deepseek")
    then codes "DEEPSEEK_API_KEY"
    else if same provider (codes "google")
    then codes "GOOGLE_API_KEY"
    else if same provider (codes "openrouter")
    then codes "OPENROUTER_API_KEY"
    else if same provider (codes "groq")
    then codes "GROQ_API_KEY"
    else codes "OPENAI_API_KEY"

-- A number with what may follow it, `none` where std::stoll throws.
abbrev pub number_of : Text → Option ℤ
number_of v = stoll v >>= λ p. some (p.0)

-- `none` is the exception of std::stoll, which nothing catches.
unfoldable pub load_as : Key → Text → Settings → Option Settings
load_as Key.per_tx v s = number_of v >>= λ n. some (record s { per_tx = n })
load_as Key.per_period v s = number_of v >>= λ n. some (record s { per_period = n })
load_as Key.period_seconds v s = number_of v >>= λ n. some (record s { period_seconds = n })
load_as Key.owner_npk v s = some (record s { owner_npk = v })
load_as Key.owner_name v s = some (record s { owner_name = v })
load_as Key.ecies_pub v s = some (record s { ecies_pub = v })
load_as Key.ecies_priv v s = some (record s { ecies_priv = v })
load_as Key.enc_pub v s = some (record s { enc_pub = v })
load_as Key.enc_priv v s = some (record s { enc_priv = v })
load_as Key.open_for_hire v s = some (record s { open_for_hire = same v (codes "1") })
load_as Key.llm_provider v s = some (record s { llm_provider = v })
load_as Key.llm_model v s = some (record s { llm_model = v })
load_as Key.llm_api_key v s = some (set_env (loaded_variable s.llm_provider) v s)
load_as Key.other v s = some s

-- The rows in their order.
unfoldable pub load_rows : List Entry → Settings → Option Settings
unfolding load_as classify
load_rows [] s = some s
load_rows (e ∷ es) s = load_as (classify e.name) e.value s >>= load_rows es
