-- ===== src/Examples/Sealed.antt =====
-- A cipher and a wire that satisfy what is asked of OpenSSL and Qt, and messages and files that go
-- over them.
use logos_pilot.Prelude.{
  ◌+◌, ◌≡◌, refl, true, false, Option, none, some, [], ◌∷◌, ◌++◌, arith, ℕ_discrete, replicate,
  every,
}
use logos_pilot.Prelude.Options.{◌>>=◌}
use logos_pilot.Text.{Text, codes, same, text_dec}
use logos_pilot.Text.Search.{is_xdigit}
use logos_pilot.Table.{find}
use logos_pilot.Agent.{deliver}
use logos_pilot.Crypto.Hex.{Bytes}
use logos_pilot.Crypto.Cipher.{Cipher, IsAead}
use logos_pilot.Crypto.Formats.{cut, cut_hex}
use logos_pilot.Crypto.Sealed.{wrap_secret, unwrap_secret, unwrap_secret-wrap_secret}
use logos_pilot.Messaging.Mailbox.{
  Mailbox, Wire, Kind, Group, group_keyed, file_keyed, GroupEnvelope, Application,
}
use logos_pilot.Messaging.Groups.{is_hex, is_group_key, group_key_for}
use logos_pilot.Messaging.Receive.{
  group_topic, record_inbound, invited_row, handle_application, handle_inbound_group_message,
}
use logos_pilot.Messaging.Send.{messaging_send, messaging_join}
use logos_pilot.Messaging.Delivered.{IsGroupWire, IsDraw}
use logos_pilot.Messaging.Flow.{IsMember, handle_inbound_group_message-messaging_send}
use logos_pilot.Messaging.Joined.{joined_row, messaging_join-handle_application}

-- The tag is a check of nothing, and the ciphertext is the plaintext.
abbrev pub box : Cipher
box = record {
  gcm_seal = λ key iv plain. (plain, replicate 16 0);
  gcm_open = λ key iv tag ct. some ct;
  pbkdf2 = λ passphrase salt. some salt;
  sha256 = λ b. b;
  shared_secret = λ private_key public_key. 1 ∷ [];
}

box-IsAead : IsAead box
box-IsAead = record {
  opens = λ key iv plain h. refl;
  size = λ key iv plain h. refl;
  tag_size = λ key iv plain h. refl;
  sealed_bytes = λ key iv plain h. (h, ground arith);
}

abbrev salt : Bytes
salt = replicate 16 7

abbrev iv : Bytes
iv = replicate 12 9

unwrap_secret-wrap_secret_example :
    (wrap_secret box salt iv (codes "key") (codes "pass") >>= λ blob.
    unwrap_secret box blob (codes "pass"))
    ≡ some (codes "key")
unwrap_secret-wrap_secret_example =
    unwrap_secret-wrap_secret box box-IsAead salt iv salt (codes "key") (codes "pass") refl
      (ground arith) (ground arith) (ground arith) refl refl

-- The fields of an envelope between colons.
abbrev print_fields : GroupEnvelope → Text
print_fields e = e.iv ++ (b':' ∷ (e.tag ++ (b':' ∷ e.ct)))

abbrev parse_fields : Text → Option GroupEnvelope
parse_fields t = do iv ← cut t; tag ← cut iv.1; some (record { iv = iv.0; tag = tag.0; ct = tag.1 })

abbrev pub wire : Wire
wire = record {
  context_ready = true;
  clock = λ i. 1700000000 + i;
  cipher = box;
  encrypt = λ key plain. some plain;
  to_base64 = λ b. b;
  from_base64 = λ t. t;
  print_inner = λ from message. message;
  parse_inner = λ text. some (codes "alice", text);
  print_envelope = print_fields;
  parse_envelope = parse_fields;
  print_direct = λ from message. message;
  print_invite = λ group_id topic key from. key;
  print_share = λ cid key from label. key;
  parse_application = λ text. none;
  parse_recipient = λ text. none;
  parse_members = λ text. none;
}

hex_digits : (t : Text) → is_hex t ≡ true → every is_xdigit t ≡ true
unfolding is_hex
hex_digits t h = ground arith

parse_fields-print_fields :
    (iv tag ct : Text)
    → is_hex iv ≡ true
    → is_hex tag ≡ true
    → parse_fields (print_fields (record { iv = iv; tag = tag; ct = ct }))
      ≡ some (record { iv = iv; tag = tag; ct = ct })
parse_fields-print_fields iv tag ct hi ht =
    rw (cut_hex iv (tag ++ (b':' ∷ ct)) (hex_digits iv hi), cut_hex tag ct (hex_digits tag ht)) refl

pub wire-IsGroupWire : IsGroupWire wire
wire-IsGroupWire = record {
  aead = box-IsAead;
  base64 = λ b h. refl;
  envelope = λ iv tag b hi ht h. parse_fields-print_fields iv tag b hi ht;
}

abbrev pub draw : Bytes × Bytes
draw = (replicate 32 1, iv)

pub draw-IsDraw : IsDraw draw
draw-IsDraw = record {
  key_bytes = ground arith;
  key_size = refl;
  iv_bytes = ground arith;
  iv_size = refl;
}

abbrev group_key : Text
group_key = replicate 64 b'a'

group_key-IsGroupKey : is_group_key group_key ≡ true
unfolding is_hex is_xdigit
group_key-IsGroupKey = refl

abbrev group : Group
group = record {
  id = codes "g1";
  topic = group_topic (codes "g1");
  key_hex = group_key;
  created_by = codes "alice";
  joined = true;
  created_at = 1;
}

abbrev pub alice_box : Mailbox
alice_box = record {
  has_db = true;
  agent_npk = codes "npk";
  self_enc_key = codes "alice";
  received = [];
  groups = group ∷ [];
  files = [];
  log = [];
}

abbrev bob_box : Mailbox
bob_box = record alice_box { self_enc_key = codes "bob" }

group_found : find (codes "g1") (group ∷ []) ≡ some group
unfolding find text_dec ℕ_discrete
group_found = refl

alice-IsMember : IsMember alice_box (codes "g1") group
alice-IsMember = record {
  has_db = refl;
  row = group_found;
  joined = refl;
  key = group_key-IsGroupKey;
}

bob-IsMember : IsMember bob_box (codes "g1") group
bob-IsMember = record {
  has_db = refl;
  row = group_found;
  joined = refl;
  key = group_key-IsGroupKey;
}

alice_is_other : same (codes "alice") (codes "bob") ≡ false
unfolding text_dec ℕ_discrete
alice_is_other = refl

handle_inbound_group_message-messaging_send_example :
    (payload : Text) × ((messaging_send wire alice_box draw (codes "group:g1") (codes "hi")).0.log
      ≡ deliver (group_topic (codes "g1")) payload ∷ [])
    × (handle_inbound_group_message wire bob_box (group_topic (codes "g1")) payload
        ≡ record_inbound 1700000000 Kind.group
            (codes "alice")
            (codes "g1")
            (codes "hi")
            (group_topic (codes "g1"))
            bob_box)
handle_inbound_group_message-messaging_send_example =
    handle_inbound_group_message-messaging_send wire wire-IsGroupWire alice_box bob_box (codes "g1")
      group group draw (codes "hi") refl refl alice-IsMember bob-IsMember refl refl draw-IsDraw
      alice_is_other refl (ground arith) refl

abbrev pub invitation : Application
invitation = record {
  has_jsonrpc = false;
  has_cid = false;
  has_key = true;
  has_message = false;
  kind = codes "group_invite";
  from = codes "carol";
  message = [];
  group_id = codes "g2";
  key = group_key;
  topic = [];
  cid = [];
  label = [];
}

g2_is_free : find (codes "g2") alice_box.groups ≡ none
unfolding find text_dec ℕ_discrete
g2_is_free = refl

messaging_join-handle_application_example :
    (group_key_for (handle_application wire alice_box (some invitation)).0 (codes "g2") true ≡ none)
    × ((messaging_join wire (handle_application wire alice_box (some invitation)).0 (codes "g2")).1
        ≡ true)
    × IsMember
        (messaging_join wire (handle_application wire alice_box (some invitation)).0 (codes "g2")).0
        (codes "g2")
        (joined_row (invited_row wire invitation))
messaging_join-handle_application_example =
    messaging_join-handle_application wire alice_box invitation refl refl refl refl
      group_key-IsGroupKey g2_is_free
