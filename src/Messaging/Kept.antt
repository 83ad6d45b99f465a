-- ===== src/Messaging/Kept.antt =====
-- What messages from the network leave alone, over any sequence of them.
use logos_pilot.Prelude.{
  ℕ, zero, suc, ◌≤◌, ◌≡◌, refl, ◌∙◌, Bool, true, false, Option, none, some, List, [], ◌∷◌, arith,
  length, take, not, if_cases, leb, ◌&&◌, ◌||◌, ◌++◌, if◌then◌else◌,
}
use logos_pilot.Text.{Text, is_empty, codes, same}
use logos_pilot.Table.{find}
use logos_pilot.Table.Laws
use logos_pilot.Messaging.Mailbox.{
  Mailbox, Wire, Kind, Group, StoredFile, group_keyed, file_keyed, Application,
}
use logos_pilot.Messaging.Groups.{is_group_key, group_key_for, open_group_message}
use logos_pilot.Messaging.Receive.{
  received_max, record_inbound, insert_group, insert_file, topic_group, invited_row, shared_row,
  share_body, application_kind, topic_or, receive_direct, receive_invite, receive_share,
  receive_application, handle_application, handle_inbound_application, keep_group_message,
  read_group_message, handle_inbound_group_message,
}

-- A message on the inbox that is no request, or one on the topic of a group.
pub data Arrival : Type 0 where
  application : Wire → Text → Arrival
  on_group : Wire → Text → Text → Arrival

unfoldable pub receive : Arrival → Mailbox → Mailbox
receive (application w text) m = (handle_inbound_application w m text).0
receive (on_group w topic payload) m = handle_inbound_group_message w m topic payload

unfoldable pub receive_all : List Arrival → Mailbox → Mailbox
unfolding receive
receive_all [] m = m
receive_all (a ∷ as') m = receive_all as' (receive a m)

-- What a message from the network may change: it adds rows, and makes no call.
pub record Keeps (m n : Mailbox) : Type 0 where
  pub files : (k : Text) (f : StoredFile) → find k m.files ≡ some f → find k n.files ≡ some f
  pub groups : (k : Text) (g : Group) → find k m.groups ≡ some g → find k n.groups ≡ some g
  pub bounded : length m.received ≤ received_max → length n.received ≤ received_max
  pub log : n.log ≡ m.log
  pub has_db : n.has_db ≡ m.has_db

pub Keeps-refl : (m : Mailbox) → Keeps m m
Keeps-refl m = record {
  files = λ k f h. h;
  groups = λ k g h. h;
  bounded = λ h. h;
  log = refl;
  has_db = refl;
}

Keeps-trans : (a b c : Mailbox) → Keeps a b → Keeps b c → Keeps a c
Keeps-trans a b c p q = record {
  files = λ k f h. q.files k f (p.files k f h);
  groups = λ k g h. q.groups k g (p.groups k g h);
  bounded = λ h. q.bounded (p.bounded h);
  log = q.log ∙ p.log;
  has_db = q.has_db ∙ p.has_db;
}

length-take-le {ℓ} : {A : Type ℓ} (n : ℕ) (xs : List A) → length (take n xs) ≤ n
length-take-le zero xs = omega arith
length-take-le (suc n) [] = omega arith
length-take-le (suc n) (x ∷ xs) = omega (arith, length-take-le n xs)

record_inbound-Keeps :
    (now : ℕ) (kind : Kind) (sender group_id body topic : Text) (m : Mailbox)
    → Keeps m (record_inbound now kind sender group_id body topic m)
unfolding record_inbound
record_inbound-Keeps now kind sender group_id body topic m =
    if_cases (λ n. Keeps m n) (not m.has_db) (λ h. Keeps-refl m)
      (λ h. record {
        files = λ k f e. e;
        groups = λ k g e. e;
        bounded = λ e. length-take-le received_max _;
        log = refl;
        has_db = refl;
      })

insert_group-Keeps : (g : Group) (m : Mailbox) → Keeps m (insert_group g m)
insert_group-Keeps g m =
    if_cases (λ n. Keeps m n) m.has_db
      (λ h. record {
        files = λ k f e. e;
        groups = λ k f e. ground (arith, Laws.find-insert k g m.groups);
        bounded = λ e. e;
        log = refl;
        has_db = refl;
      })
      (λ h. Keeps-refl m)

insert_file-Keeps : (f : StoredFile) (m : Mailbox) → Keeps m (insert_file f m)
insert_file-Keeps f m =
    if_cases (λ n. Keeps m n) m.has_db
      (λ h. record {
        files = λ k g e. ground (arith, Laws.find-insert k f m.files);
        groups = λ k g e. e;
        bounded = λ e. e;
        log = refl;
        has_db = refl;
      })
      (λ h. Keeps-refl m)

recorded-Keeps :
    (m n : Mailbox) (now : ℕ) (kind : Kind) (sender group_id body topic : Text)
    → Keeps m n
    → Keeps m (record_inbound now kind sender group_id body topic n)
recorded-Keeps m n now kind sender group_id body topic h =
    Keeps-trans m n _ h (record_inbound-Keeps now kind sender group_id body topic n)

Keeps-if : (m x y : Mailbox) (b : Bool) → Keeps m x → Keeps m y → Keeps m (if b then x else y)
Keeps-if m x y true p q = p
Keeps-if m x y false p q = q

receive_direct-Keeps : (w : Wire) (a : Application) (m : Mailbox) → Keeps m (receive_direct w a m)
unfolding receive_direct
receive_direct-Keeps w a m =
    Keeps-if m _ _ (is_empty a.message) (Keeps-refl m)
      (record_inbound-Keeps (w.clock 0) Kind.direct a.from [] a.message (codes "inbox") m)

receive_invite-Keeps : (w : Wire) (a : Application) (m : Mailbox) → Keeps m (receive_invite w a m)
unfolding receive_invite
receive_invite-Keeps w a m =
    Keeps-if m _ _ (is_empty a.group_id || not (is_group_key a.key)) (Keeps-refl m) (
      recorded-Keeps m (insert_group (invited_row w a) m) (w.clock 1) Kind.group_invite a.from
        a.group_id (codes "invited to group " ++ a.group_id) (topic_or a.topic a.group_id)
        (insert_group-Keeps (invited_row w a) m))

receive_share-Keeps : (w : Wire) (a : Application) (m : Mailbox) → Keeps m (receive_share w a m)
unfolding receive_share
receive_share-Keeps w a m = Keeps-if m _ _ (is_empty a.cid || is_empty a.key) (Keeps-refl m) (
    recorded-Keeps m (insert_file (shared_row w a) m) (w.clock 1) Kind.file_share a.from []
      (share_body a.cid a.label) (codes "inbox") (insert_file-Keeps (shared_row w a) m))

receive_application-Keeps :
    (w : Wire) (a : Application) (m : Mailbox) → Keeps m (receive_application w a m)
unfolding receive_application
receive_application-Keeps w a m =
    Keeps-if m _ _ (same (application_kind a) (codes "direct")) (receive_direct-Keeps w a m) (
      Keeps-if m _ _ (same (application_kind a) (codes "group_invite")) (receive_invite-Keeps w a m)
        (Keeps-if m _ _ (same (application_kind a) (codes "file_share")) (receive_share-Keeps w a m)
          (Keeps-refl m)))

pub handle_application-Keeps :
    (w : Wire) (m : Mailbox) (o : Option Application) → Keeps m (handle_application w m o).0
unfolding handle_application
handle_application-Keeps w m none = Keeps-refl m
handle_application-Keeps w m (some a) =
    if_cases (λ (r : Mailbox × Bool). Keeps m r.0) a.has_jsonrpc (λ h. Keeps-refl m)
      (λ h. receive_application-Keeps w a m)

keep_group_message-Keeps :
    (w : Wire) (m : Mailbox) (topic group_id : Text) (o : Option (Text × Text))
    → Keeps m (keep_group_message w m topic group_id o)
unfolding keep_group_message
keep_group_message-Keeps w m topic group_id none = Keeps-refl m
keep_group_message-Keeps w m topic group_id (some (from, message)) =
    Keeps-if m _ _ (not (is_empty from) && same from m.self_enc_key) (Keeps-refl m)
      (record_inbound-Keeps (w.clock 0) Kind.group from group_id message topic m)

read_group_message-Keeps :
    (w : Wire) (m : Mailbox) (topic payload : Text) (o : Option Group)
    → Keeps m (read_group_message w m topic payload o)
unfolding read_group_message
read_group_message-Keeps w m topic payload none = Keeps-refl m
read_group_message-Keeps w m topic payload (some g) =
    keep_group_message-Keeps w m topic _ (open_group_message w g.key_hex payload)

receive-Keeps : (a : Arrival) (m : Mailbox) → Keeps m (receive a m)
unfolding receive handle_inbound_application handle_inbound_group_message
receive-Keeps (application w text) m = handle_application-Keeps w m (w.parse_application text)
receive-Keeps (on_group w topic payload) m =
    Keeps-if m _ _ (leb (length topic) 21) (Keeps-refl m)
      (read_group_message-Keeps w m topic payload (group_key_for m (topic_group topic) true))

-- Whatever arrives on the inbox and on group topics, in any order: no file key and no group that
-- the agent holds is changed, so that no share replaces a key and no invite joins a group or changes
-- its key; the table of received messages stays within its bound; and no call is made.
pub receive_all-Keeps : (as' : List Arrival) (m : Mailbox) → Keeps m (receive_all as' m)
unfolding receive_all
receive_all-Keeps [] m = Keeps-refl m
receive_all-Keeps (a ∷ as') m =
    Keeps-trans _ _ _ (receive-Keeps a m) (receive_all-Keeps as' (receive a m))
