-- ===== src/Agent/World.antt =====
-- What the code takes from outside while one operation runs: the clock, the generated id, the
-- answers of the wallet and delivery modules, the cryptographic library and Qt's JSON parser. A
-- theorem holds for every such answer, unless it names a hypothesis about it.
use logos_pilot.Prelude.{ℕ, ◌+◌, Bool, Option}
use logos_pilot.Prelude.Int.{ℤ}
use logos_pilot.Text.{Text}

-- The fields of a wallet reply that is a JSON object: success, tx_hash and error.
pub record WalletReply : Type 0 where
  pub success : Bool
  pub tx_hash : Text
  pub error : Text

-- `clock i` is the i-th reading of the system clock, in epoch seconds; `generated_id` is what
-- generateId() returns; `read_reply` is QJsonDocument::fromJson with the reads of the three fields,
-- `none` where the text is no object; `block_height` is `none` where that call reports an error;
-- `tx_timeout_env` is atoi of PILOT_TX_TIMEOUT_MS, 0 where it is unset or empty; `encrypt` is
-- eciesEncrypt to a key with eciesSerialize, `none` where it throws;
-- `verify_signature` is verifySignature on a message, a signature and a public key; `viewing_key_of`
-- is the viewing_public_key of a text that is a JSON object with that key; `status_note` is the JSON text
-- of a tasks/statusUpdate note on a task id, a state and a detail; `sign_reply` adds the signature
-- to a reply envelope; `send_accepted i` is the success flag of the i-th send.
pub record World : Type 0 where
  pub context_ready : Bool
  pub clock : ℕ → ℕ
  pub generated_id : Text
  pub transfer_private : Text → Text → Text → Text
  pub transfer_private_owned : Text → Text → Text → Text
  pub transfer_public : Text → Text → Text → Text
  pub read_reply : Text → Option WalletReply
  pub block_height : Option ℕ
  pub tx_timeout_env : ℤ
  pub encrypt : Text → Text → Option Text
  pub verify_signature : Text → Text → Text → Bool
  pub viewing_key_of : Text → Option Text
  pub status_note : Text → Text → Text → Text
  pub sign_reply : Text → Text
  pub send_accepted : ℕ → Bool

-- The world after `n` more readings of the clock.
abbrev pub later : ℕ → World → World
later n w = record w { clock = λ i. w.clock (n + i) }
