-- ===== src/Agent.antt =====
-- The state of the module (class PilotImpl, pilot-module/src/pilot_impl.h): the fields and database
-- tables that the spending and task code works on, with the calls it has made on other modules.
--
-- Timestamp columns hold the decimal text of a number of epoch seconds, and are that number here;
-- where a statement compares such a column as text, the model compares the texts. A NULL
-- spend_request_id or result_json, which every reader takes for the empty text, is the empty text.
pub mod States
pub mod World
use logos_pilot.Prelude.{ℕ, Bool, List}
use logos_pilot.Prelude.Int.{ℤ}
use logos_pilot.Text.{Text}
use logos_pilot.Table.{Keyed}
use States.{SpendState, InboundState, OutboundState}

-- spend_requests
pub record Spend : Type 0 where
  pub id : Text
  pub recipient : Text
  pub amount : ℤ
  pub reason : Text
  pub state : SpendState
  pub created_at : ℕ
  pub updated_at : ℕ
  pub expires_at : ℕ
  pub tx_hash : Text
  pub error : Text

-- inbound_tasks
pub record InboundTask : Type 0 where
  pub id : Text
  pub sender_npk : Text
  pub sender_ecies : Text
  pub reply_topic : Text
  pub skill : Text
  pub params_json : Text
  pub state : InboundState
  pub spend_request_id : Text
  pub result_json : Text
  pub created_at : ℕ
  pub updated_at : ℕ

-- outbound_tasks
pub record OutboundTask : Type 0 where
  pub id : Text
  pub agent_address : Text
  pub skill : Text
  pub price : ℤ
  pub reply_topic : Text
  pub state : OutboundState
  pub payout : Text
  pub spend_request_id : Text
  pub created_at : ℕ
  pub updated_at : ℕ

-- pinned_identities and pinned_request_identities
pub record Pin : Type 0 where
  pub npk : Text
  pub signing_key : Text
  pub first_seen : ℕ

-- What the code reads of an Agent Card, the JSON object: whether it has a signature, the fields of
-- the signature and of _logos, and the compact JSON bytes of the card without its signature.
pub record Card : Type 0 where
  pub has_signature : Bool
  pub sig_public_key : Text
  pub sig_value : Text
  pub npk : Text
  pub signing_key : Text
  pub enc_key : Text
  pub payout : Text
  pub pricing : List (Text × ℤ)
  pub canonical : Text

-- discovered_agents; the card_json column is the card that parsing it gives back.
pub record Discovered : Type 0 where
  pub npk : Text
  pub card : Card
  pub topic : Text
  pub last_seen : ℕ

-- config
pub record Entry : Type 0 where
  pub name : Text
  pub value : Text

instance abbrev pub spend_keyed : Keyed Spend
spend_keyed = record { key = λ r. r.id }

instance abbrev pub inbound_keyed : Keyed InboundTask
inbound_keyed = record { key = λ r. r.id }

instance abbrev pub outbound_keyed : Keyed OutboundTask
outbound_keyed = record { key = λ r. r.id }

instance abbrev pub pin_keyed : Keyed Pin
pin_keyed = record { key = λ r. r.npk }

instance abbrev pub discovered_keyed : Keyed Discovered
discovered_keyed = record { key = λ r. r.npk }

instance abbrev pub entry_keyed : Keyed Entry
entry_keyed = record { key = λ r. r.name }

-- pilot_spend_rail.h
pub data SpendRail : Type 0 where
  private_keys private_owned public_rail invalid : SpendRail

-- A transfer handed to the wallet module: its rail, the account it is paid from, its target, the
-- amount in the wallet's hex form and the timeout in milliseconds.
pub record TransferCall : Type 0 where
  pub rail : SpendRail
  pub from : Text
  pub target : Text
  pub amount_hex : Text
  pub timeout_ms : ℤ

-- A call on another module, with its arguments.
pub data Effect : Type 0 where
  deliver : Text → Text → Effect
  subscribe : Text → Effect
  unsubscribe : Text → Effect
  sync_to_block : ℕ → Effect
  transfer : TransferCall → Effect

-- `log` is the calls made so far, the newest first.
pub record Pilot : Type 0 where
  pub has_db : Bool
  pub agent_account_id : Text
  pub agent_npk : Text
  pub owner_npk : Text
  pub owner_channel_id : Text
  pub spend_limit_per_tx : ℤ
  pub spend_limit_per_period : ℤ
  pub spend_period_seconds : ℤ
  pub spends : List Spend
  pub inbound : List InboundTask
  pub outbound : List OutboundTask
  pub request_pins : List Pin
  pub card_pins : List Pin
  pub discovered : List Discovered
  pub config : List Entry
  pub log : List Effect
