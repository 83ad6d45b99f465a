-- ===== src/Settings/Keys.antt =====
-- The settings that the code holds in memory, and the rows of the table config that it reads them
-- from.
use logos_pilot.Prelude.{Bool, List, if◌then◌else◌}
use logos_pilot.Prelude.Int.{ℤ}
use logos_pilot.Text.{Text, codes, same}
use logos_pilot.Agent.{Entry}

-- The fields of PilotImpl that the two functions write, with the variables set by setenv and the
-- provider and model that initLLM was last called with.
pub record Settings : Type 0 where
  pub has_db : Bool
  pub per_tx : ℤ
  pub per_period : ℤ
  pub period_seconds : ℤ
  pub owner_npk : Text
  pub owner_name : Text
  pub ecies_pub : Text
  pub ecies_priv : Text
  pub enc_pub : Text
  pub enc_priv : Text
  pub open_for_hire : Bool
  pub llm_provider : Text
  pub llm_model : Text
  pub llm_for : Text × Text
  pub environment : List Entry
  pub config : List Entry

-- The keys that loadIdentity looks for.
pub data Key : Type 0 where
  per_tx per_period period_seconds owner_npk owner_name ecies_pub ecies_priv enc_pub enc_priv : Key
  open_for_hire llm_provider llm_model llm_api_key other : Key

unfoldable pub classify : Text → Key
classify k =
    if same k (codes "spend_limit_per_tx")
    then per_tx
    else if same k (codes "spend_limit_per_period")
    then per_period
    else if same k (codes "spend_period_seconds")
    then period_seconds
    else if same k (codes "owner.npk")
    then owner_npk
    else if same k (codes "owner.name")
    then owner_name
    else if same k (codes "ecies.pub")
    then ecies_pub
    else if same k (codes "ecies.priv")
    then ecies_priv
    else if same k (codes "enc.pub")
    then enc_pub
    else if same k (codes "enc.priv")
    then enc_priv
    else if same k (codes "a2a.open_for_hire")
    then open_for_hire
    else if same k (codes "llm.provider")
    then llm_provider
    else if same k (codes "llm.model")
    then llm_model
    else if same k (codes "llm.api_key")
    then llm_api_key
    else other
