-- ===== src/Messaging/Mailbox.antt =====
-- The state that the messaging and storage code of PilotImpl works on: the tables received_messages,
-- messaging_groups and stored_files, with the fields it reads and the calls on delivery_module.
--
-- Timestamp columns are the number of epoch seconds whose decimal text they hold.
use logos_pilot.Prelude.{ℕ, Bool, Option, List}
use logos_pilot.Text.{Text}
use logos_pilot.Table.{Keyed}
use logos_pilot.Agent.{Effect}
use logos_pilot.Crypto.Hex.{Bytes}
use logos_pilot.Crypto.Cipher.{Cipher}

-- received_messages.kind
pub data Kind : Type 0 where
  direct group_invite file_share group : Kind

-- received_messages
pub record Received : Type 0 where
  pub kind : Kind
  pub sender : Text
  pub group_id : Text
  pub body : Text
  pub topic : Text
  pub received_at : ℕ

-- messaging_groups
pub record Group : Type 0 where
  pub id : Text
  pub topic : Text
  pub key_hex : Text
  pub created_by : Text
  pub joined : Bool
  pub created_at : ℕ

-- stored_files; `file_key` is the column file_key_encrypted.
pub record StoredFile : Type 0 where
  pub cid : Text
  pub label : Text
  pub file_key : Text
  pub timestamp : ℕ
  pub size_bytes : ℕ

instance abbrev pub group_keyed : Keyed Group
group_keyed = record { key = λ r. r.id }

instance abbrev pub file_keyed : Keyed StoredFile
file_keyed = record { key = λ r. r.cid }

-- `received` is the rows in descending order of id; `self_enc_key` is what a2aSelfEncKey() returns;
-- `log` is the calls made so far, the newest first.
pub record Mailbox : Type 0 where
  pub has_db : Bool
  pub agent_npk : Text
  pub self_enc_key : Text
  pub received : List Received
  pub groups : List Group
  pub files : List StoredFile
  pub log : List Effect

-- The sealed part of a group message and its envelope.
pub record GroupEnvelope : Type 0 where
  pub iv : Text
  pub tag : Text
  pub ct : Text

-- What handleInboundApplication reads of a JSON object; a field that is missing or no string is
-- empty.
pub record Application : Type 0 where
  pub has_jsonrpc : Bool
  pub has_cid : Bool
  pub has_key : Bool
  pub has_message : Bool
  pub kind : Text
  pub from : Text
  pub message : Text
  pub group_id : Text
  pub key : Text
  pub topic : Text
  pub cid : Text
  pub label : Text

-- What pilotRecipientKey reads of a JSON object: _logos.enc_key, enc_key and viewing_public_key,
-- `none` where the object does not have the field.
pub record RecipientFields : Type 0 where
  pub logos_enc_key : Option Text
  pub enc_key : Option Text
  pub viewing_public_key : Option Text

-- An element of a JSON array of members; an object is its compact text.
pub data MemberValue : Type 0 where
  string : Text → MemberValue
  object : Text → MemberValue
  other : MemberValue

-- What the code takes from outside: the context and the clock, OpenSSL, Qt's JSON and base64.
-- `encrypt` is eciesEncrypt to a key with eciesSerialize, `none` where it throws; the `parse_…`
-- functions are QJsonDocument::fromJson with the reads that follow it, `none` where the text is
-- nothing of that form, and the `print_…` ones the compact texts.
pub record Wire : Type 0 where
  pub context_ready : Bool
  pub clock : ℕ → ℕ
  pub cipher : Cipher
  pub encrypt : Text → Text → Option Text
  pub to_base64 : Bytes → Text
  pub from_base64 : Text → Bytes
  pub print_inner : Text → Text → Text
  pub parse_inner : Text → Option (Text × Text)
  pub print_envelope : GroupEnvelope → Text
  pub parse_envelope : Text → Option GroupEnvelope
  pub print_direct : Text → Text → Text
  pub print_invite : Text → Text → Text → Text → Text
  pub print_share : Text → Text → Text → Text → Text
  pub parse_application : Text → Option Application
  pub parse_recipient : Text → Option RecipientFields
  pub parse_members : Text → Option (List MemberValue)
