-- ===== src/Messaging/Send.antt =====
-- messagingSend, messagingJoin and messagingCreateGroup (pilot-module/src/pilot_messaging.cpp). The
-- sends and the subscriptions are not waited for, so their results are not read. initDeliveryModule,
-- which starts the delivery module, changes nothing of this state.
use logos_pilot.Prelude.{
  ℕ, ◌+◌, Bool, true, false, Option, none, some, List, [], ◌∷◌, ◌++◌, ◌||◌, not, drop,
  if◌then◌else◌,
}
use logos_pilot.Text.{Text, codes, is_empty}
use logos_pilot.Text.Search.{starts_with}
use logos_pilot.Table.{set_at, upsert}
use logos_pilot.Agent.{deliver, subscribe}
use logos_pilot.Crypto.Hex.{Bytes}
use logos_pilot.Messaging.Mailbox.{Mailbox, Wire, Group, group_keyed}
use logos_pilot.Messaging.Members.{recipient_key, parse_member_list}
use logos_pilot.Messaging.Groups.{gen_group_key_hex, group_key_for, seal_group_message}
use logos_pilot.Messaging.Receive.{group_topic}

abbrev pub inbox_topic : Text → Text
inbox_topic key = codes "/pilot/1/inbox-" ++ (key ++ codes "/proto")

abbrev pub self_name : Mailbox → Text
self_name m = if is_empty m.self_enc_key then m.agent_npk else m.self_enc_key

abbrev pub send_call : Text → Text → Mailbox → Mailbox
send_call topic payload m = record m { log = deliver topic payload ∷ m.log }

abbrev pub subscribe_call : Text → Mailbox → Mailbox
subscribe_call topic m = record m { log = subscribe topic ∷ m.log }

-- The `error` of an answer, or the topic of what was sent.
pub data SendResult : Type 0 where
  not_initialized unknown_group group_key_unusable encryption_failed : SendResult
  sent : Text → SendResult

unfoldable pub send_sealed_group : Mailbox → Text → Option Text → Mailbox × SendResult
send_sealed_group m topic none = (m, group_key_unusable)
send_sealed_group m topic (some payload) = (send_call topic payload m, sent topic)

unfoldable pub send_to_group :
    Wire → Mailbox → Bytes × Bytes → Text → Option Group → Mailbox × SendResult
unfolding send_sealed_group seal_group_message
send_to_group w m draw message none = (m, unknown_group)
send_to_group w m draw message (some g) =
    send_sealed_group m g.topic (seal_group_message w draw g.key_hex (self_name m) message)

unfoldable pub send_sealed_direct : Mailbox → Text → Option Text → Mailbox × SendResult
send_sealed_direct m key none = (m, encryption_failed)
send_sealed_direct m key (some payload) =
    (send_call (inbox_topic key) payload m, sent (inbox_topic key))

-- `draw` is what generateFileKey draws for the iv of a group message.
unfoldable pub messaging_send : Wire → Mailbox → Bytes × Bytes → Text → Text → Mailbox × SendResult
unfolding starts_with send_to_group send_sealed_direct
messaging_send w m draw recipient message =
    if not w.context_ready
    then (m, not_initialized)
    else if starts_with (codes "group:") recipient
    then send_to_group w m draw message (group_key_for m (drop 6 recipient) true)
    else let key = recipient_key w recipient in
      send_sealed_direct m key (w.encrypt key (w.print_direct (self_name m) message))

unfoldable pub join_group : Wire → Mailbox → Text → Option Group → Mailbox × Bool
join_group w m group_id none = (m, false)
join_group w m group_id (some g) =
    let joined = record m { groups = set_at group_id (λ r. record r { joined = true }) m.groups } in
    (if w.context_ready then subscribe_call g.topic joined else joined, true)

unfoldable pub messaging_join : Wire → Mailbox → Text → Mailbox × Bool
unfolding join_group group_key_for
messaging_join w m group_id = join_group w m group_id (group_key_for m group_id false)

-- The mailbox with the numbers of invites sent and failed.
pub record Invited : Type 0 where
  pub mailbox : Mailbox
  pub invited : ℕ
  pub failed : ℕ

unfoldable pub invite_member : Text → Option Text → Invited → Invited
invite_member key none r = record r { failed = r.failed + 1 }
invite_member key (some payload) r = record r {
  mailbox = send_call (inbox_topic key) payload r.mailbox;
  invited = r.invited + 1;
}

unfoldable pub invite_members : Wire → Text → List Text → Invited → Invited
unfolding invite_member
invite_members w invite [] r = r
invite_members w invite (member ∷ ms) r =
    let key = recipient_key w member in
    invite_members w invite ms (invite_member key (w.encrypt key invite) r)

abbrev pub create_row : Wire → Text → Text → Mailbox → Mailbox
create_row w group_id key m = record m {
  groups =
      upsert
        (record {
          id = group_id;
          topic = group_topic group_id;
          key_hex = key;
          created_by = self_name m;
          joined = true;
          created_at = w.clock 0;
        })
        m.groups;
}

-- `group_id` is what genGroupId generates and `draw` what generateFileKey draws. `none` is the error
-- for a missing context or database.
unfoldable pub messaging_create_group :
    Wire → Mailbox → Text → Bytes × Bytes → Text → Option Invited
unfolding invite_members gen_group_key_hex parse_member_list group_topic
messaging_create_group w m group_id draw members_text =
    if not w.context_ready || not m.has_db
    then none
    else let key = gen_group_key_hex draw.0 draw.1 in
      some (
        invite_members w (w.print_invite group_id (group_topic group_id) key (self_name m))
          (parse_member_list w members_text)
          (record {
            mailbox = subscribe_call (group_topic group_id) (create_row w group_id key m);
            invited = 0;
            failed = 0;
          }))
