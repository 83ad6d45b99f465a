-- ===== src/Settings/Identity.antt =====
-- loadIdentity and the writes of createIdentity to the table config, with persistSecretConfig
-- (pilot-module/src/pilot_identity.cpp).
use logos_pilot.Prelude.{
  ℕ, Bool, true, false, Option, none, some, [], ◌&&◌, ◌||◌, not, if◌then◌else◌,
}
use logos_pilot.Prelude.Options.{◌>>=◌}
use logos_pilot.Text.{Text, codes, is_empty}
use logos_pilot.Crypto.Hex.{Bytes}
use logos_pilot.Crypto.Cipher.{Cipher}
use logos_pilot.Crypto.Sealed.{is_wrapped_secret, wrap_secret, unwrap_secret}
use logos_pilot.Settings.Keys.{Settings}
use logos_pilot.Settings.Configure.{persist, init_llm}
use logos_pilot.Settings.Load.{load_rows}

-- What a start of the program draws and finds: the cipher, PILOT_KEY_PASSPHRASE (empty where it is
-- not set), the salt and the iv of the i-th sealing, and the i-th key pair, public key first.
pub record Vault : Type 0 where
  pub cipher : Cipher
  pub passphrase : Text
  pub salt : ℕ → Bytes
  pub iv : ℕ → Bytes
  pub key_pair : ℕ → Text × Text

-- A failure of the sealing leaves the plain text.
abbrev pub or_plain : Text → Option Text → Text
or_plain clear none = clear
or_plain clear (some blob) = blob

unfoldable pub stored_secret : Vault → ℕ → Text → Text
stored_secret v i clear =
    if is_empty v.passphrase
    then clear
    else or_plain clear (wrap_secret v.cipher (v.salt i) (v.iv i) clear v.passphrase)

unfoldable pub persist_secret_config : Vault → ℕ → Text → Text → Settings → Settings × Bool
persist_secret_config v i key clear s =
    if not s.has_db then (s, false) else persist key (stored_secret v i clear) s

abbrev pub with_keys : Text × Text → Text × Text → Settings → Settings
with_keys signing encryption s = record s {
  ecies_pub = signing.0;
  ecies_priv = signing.1;
  enc_pub = encryption.0;
  enc_priv = encryption.1;
}

-- From the key pairs on, once the row of agent_identity is written.
unfoldable pub create_keys : Vault → Settings → Settings
unfolding persist_secret_config
create_keys v s =
    let signing = v.key_pair 0 in
    let encryption = v.key_pair 1 in
    let named = (persist (codes "ecies.pub") signing.0 (with_keys signing encryption s)).0 in
    let sealed = (persist_secret_config v 0 (codes "ecies.priv") signing.1 named).0 in
    let open_key = (persist (codes "enc.pub") encryption.0 sealed).0 in
    (persist_secret_config v 1 (codes "enc.priv") encryption.1 open_key).0

-- The key that a stored text gives, `old` where it gives none.
unfoldable pub resolved_secret : Vault → Text → Text → Text
resolved_secret v old stored =
    if is_empty stored
    then old
    else if is_wrapped_secret stored
    then if is_empty v.passphrase
      then old
      else or_plain old (unwrap_secret v.cipher stored v.passphrase)
    else stored

-- A plain text that is stored is sealed in its place, once there is a passphrase.
unfoldable pub migrate : Vault → ℕ → Text → Text → Settings → Settings
unfolding persist_secret_config
migrate v i key stored s =
    if not (is_empty stored) && not (is_wrapped_secret stored) && not (is_empty v.passphrase)
    then (persist_secret_config v i key stored s).0
    else s

-- A database from before there was a key pair for encryption.
unfoldable pub backfill : Vault → Text → Settings → Settings
unfolding persist_secret_config
backfill v stored s =
    let encryption = v.key_pair 2 in
    let paired = record s { enc_pub = encryption.0; enc_priv = encryption.1 } in
    if s.has_db && is_empty stored && is_empty s.enc_pub
    then (persist_secret_config v 2 (codes "enc.priv") encryption.1
        (persist (codes "enc.pub") encryption.0 paired).0).0
    else s

abbrev pub start_llm : Settings → Settings
start_llm s = if not (is_empty s.llm_provider) || not (is_empty s.llm_model) then init_llm s else s

-- After the loop: `t` has the stored texts of the two secrets, `d` is the state before it.
unfoldable pub after_rows : Vault → Settings → Settings → Settings
unfolding migrate backfill resolved_secret
after_rows v d t =
    let signing = record t { ecies_priv = resolved_secret v d.ecies_priv t.ecies_priv } in
    let signed = migrate v 0 (codes "ecies.priv") t.ecies_priv signing in
    let encryption = record signed { enc_priv = resolved_secret v d.enc_priv t.enc_priv } in
    let both = migrate v 1 (codes "enc.priv") t.enc_priv encryption in
    start_llm (backfill v t.enc_priv both)

-- The two secrets are read into variables that start empty.
abbrev pub empty_slots : Settings → Settings
empty_slots d = record d { ecies_priv = []; enc_priv = [] }

-- The npk, the account and the owner's channel that it also reads are no part of Settings. `found` is whether agent_identity has a row; without one the table config is not read. `none` is the
-- exception of std::stoll.
unfoldable pub load_identity : Vault → Bool → Settings → Option (Settings × Bool)
unfolding after_rows
load_identity v found d =
    if not d.has_db
    then some (d, false)
    else if found
    then load_rows d.config (empty_slots d) >>= (λ t. some (after_rows v d t, true))
    else some (d, false)
