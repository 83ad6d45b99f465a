-- ===== src/Messaging/Receive.antt =====
-- recordInbound, handleInboundApplication, handleInboundGroupMessage and messagingInbox
-- (pilot-module/src/pilot_messaging.cpp).
use logos_pilot.Prelude.{
  ℕ, ◌-◌, Bool, true, false, Option, none, some, List, [], ◌∷◌, ◌++◌, ◌&&◌, ◌||◌, not, leb, length,
  take, drop, if◌then◌else◌,
}
use logos_pilot.Text.{Text, codes, is_empty, same}
use logos_pilot.Table.{insert}
use logos_pilot.Messaging.Mailbox.{
  Mailbox, Wire, Kind, Received, Group, StoredFile, group_keyed, file_keyed, Application,
}
use logos_pilot.Messaging.Groups.{is_group_key, group_key_for, open_group_message}

-- The rows that the DELETE of recordInbound keeps.
unfoldable pub received_max : ℕ
received_max = 2000

unfoldable pub record_inbound : ℕ → Kind → Text → Text → Text → Text → Mailbox → Mailbox
record_inbound now kind sender group_id body topic m = if not m.has_db then m else record m {
  received = take received_max (
      record {
        kind = kind;
        sender = sender;
        group_id = group_id;
        body = body;
        topic = topic;
        received_at = now;
      }
      ∷ m.received);
}

unfoldable pub group_topic : Text → Text
group_topic group_id = codes "/pilot/1/group-" ++ (group_id ++ codes "/proto")

-- The type of an application message; one of an older build has none.
unfoldable pub application_kind : Application → Text
application_kind a =
    if not (is_empty a.kind)
    then a.kind
    else if a.has_cid && a.has_key
    then codes "file_share"
    else if a.has_message
    then codes "direct"
    else []

unfoldable pub receive_direct : Wire → Application → Mailbox → Mailbox
unfolding record_inbound
receive_direct w a m =
    if is_empty a.message
    then m
    else record_inbound (w.clock 0) Kind.direct a.from [] a.message (codes "inbox") m

abbrev pub topic_or : Text → Text → Text
topic_or topic group_id = if is_empty topic then group_topic group_id else topic

abbrev pub insert_group : Group → Mailbox → Mailbox
insert_group g m = if m.has_db then record m { groups = insert g m.groups } else m

-- A group that the agent is invited to and has not joined.
abbrev pub invited_row : Wire → Application → Group
invited_row w a = record {
  id = a.group_id;
  topic = topic_or a.topic a.group_id;
  key_hex = a.key;
  created_by = a.from;
  joined = false;
  created_at = w.clock 0;
}

unfoldable pub receive_invite : Wire → Application → Mailbox → Mailbox
unfolding record_inbound group_topic
receive_invite w a m =
    if is_empty a.group_id || not (is_group_key a.key)
    then m
    else record_inbound (w.clock 1) Kind.group_invite a.from a.group_id
        (codes "invited to group " ++ a.group_id) (topic_or a.topic a.group_id)
        (insert_group (invited_row w a) m)

abbrev pub share_label : Text → Text → Text
share_label from label =
    codes "shared by "
    ++ ((if is_empty from then codes "unknown" else from)
        ++ (if is_empty label then [] else codes ": " ++ label))

abbrev pub share_body : Text → Text → Text
share_body cid label =
    codes "shared file "
    ++ (cid ++ (if is_empty label then [] else codes " (" ++ (label ++ codes ")")))

abbrev pub insert_file : StoredFile → Mailbox → Mailbox
insert_file f m = if m.has_db then record m { files = insert f m.files } else m

abbrev pub shared_row : Wire → Application → StoredFile
shared_row w a = record {
  cid = a.cid;
  label = share_label a.from a.label;
  file_key = a.key;
  timestamp = w.clock 0;
  size_bytes = 0;
}

unfoldable pub receive_share : Wire → Application → Mailbox → Mailbox
unfolding record_inbound
receive_share w a m =
    if is_empty a.cid || is_empty a.key
    then m
    else record_inbound (w.clock 1) Kind.file_share a.from [] (share_body a.cid a.label)
        (codes "inbox") (insert_file (shared_row w a) m)

unfoldable pub receive_application : Wire → Application → Mailbox → Mailbox
unfolding application_kind receive_direct receive_invite receive_share
receive_application w a m =
    if same (application_kind a) (codes "direct")
    then receive_direct w a m
    else if same (application_kind a) (codes "group_invite")
    then receive_invite w a m
    else if same (application_kind a) (codes "file_share")
    then receive_share w a m
    else m

unfoldable pub handle_application : Wire → Mailbox → Option Application → Mailbox × Bool
unfolding receive_application
handle_application w m none = (m, false)
handle_application w m (some a) =
    if a.has_jsonrpc then (m, false) else (receive_application w a m, true)

unfoldable pub handle_inbound_application : Wire → Mailbox → Text → Mailbox × Bool
unfolding handle_application
handle_inbound_application w m text = handle_application w m (w.parse_application text)

-- The part of a topic between "/pilot/1/group-" and "/proto", by their sizes.
unfoldable pub topic_group : Text → Text
topic_group topic = take (length topic - 21) (drop 15 topic)

unfoldable pub keep_group_message : Wire → Mailbox → Text → Text → Option (Text × Text) → Mailbox
unfolding record_inbound
keep_group_message w m topic group_id none = m
keep_group_message w m topic group_id (some (from, message)) =
    if not (is_empty from) && same from m.self_enc_key
    then m
    else record_inbound (w.clock 0) Kind.group from group_id message topic m

unfoldable pub read_group_message : Wire → Mailbox → Text → Text → Option Group → Mailbox
unfolding keep_group_message open_group_message
read_group_message w m topic payload none = m
read_group_message w m topic payload (some g) =
    keep_group_message w m topic (topic_group topic) (open_group_message w g.key_hex payload)

unfoldable pub handle_inbound_group_message : Wire → Mailbox → Text → Text → Mailbox
unfolding read_group_message group_key_for topic_group
handle_inbound_group_message w m topic payload =
    if leb (length topic) 21
    then m
    else read_group_message w m topic payload (group_key_for m (topic_group topic) true)

-- The rows that messagingInbox shows, `none` where there is no database.
unfoldable pub messaging_inbox : Mailbox → Option (List Received)
messaging_inbox m = if not m.has_db then none else some (take 200 m.received)
