-- ===== src/Messaging/Flow.antt =====
-- messagingSend of one agent and handleInboundGroupMessage of another, on the topic of a group.
use logos_pilot.Prelude.{
  ◌+◌, ◌-◌, ◌≡◌, refl, ◌∙◌, ap, Bool, true, false, Option, none, some, [], ◌∷◌, ◌++◌, ◌&&◌, arith,
  not, leb, length, length-append, Option-cases, inl, inr,
}
use logos_pilot.Prelude.Options.{◌>>=◌}
use logos_pilot.Prelude.Cuts.{take-append}
use logos_pilot.Text.{Text, codes, is_empty, same}
use logos_pilot.Text.Search.{starts_with}
use logos_pilot.Table.{find}
use logos_pilot.Agent.{deliver}
use logos_pilot.Crypto.Hex.{Bytes, IsBytes}
use logos_pilot.Messaging.Mailbox.{Mailbox, Wire, Kind, Group, group_keyed}
use logos_pilot.Messaging.Groups.{
  is_group_key, seal_group_message, open_group_message, group_key_for,
}
use logos_pilot.Messaging.Receive.{
  record_inbound, group_topic, topic_group, keep_group_message, read_group_message,
  handle_inbound_group_message,
}
use logos_pilot.Messaging.Send.{messaging_send, send_to_group, send_sealed_group, self_name}
use logos_pilot.Messaging.Delivered.{IsGroupWire, IsDraw, open_group_message-seal_group_message}

length-group_topic : (gid : Text) → length (group_topic gid) ≡ 21 + length gid
unfolding group_topic
length-group_topic gid = omega (arith, length-append gid (codes "/proto"))

topic_group-group_topic : (gid : Text) → topic_group (group_topic gid) ≡ gid
unfolding topic_group
topic_group-group_topic gid =
    rw (length-group_topic gid)
      (unfold group_topic in take-append (21 + length gid - 21) gid (codes "/proto") (omega arith))

-- The agent is a member of the group and holds this key.
pub record IsMember (m : Mailbox) (gid : Text) (g : Group) : Type 0 where
  pub has_db : m.has_db ≡ true
  pub row : find gid m.groups ≡ some g
  pub joined : g.joined ≡ true
  pub key : is_group_key g.key_hex ≡ true

group_key_for-member :
    (m : Mailbox) (gid : Text) (g : Group)
    → IsMember m gid g
    → is_empty gid ≡ false
    → group_key_for m gid true ≡ some g
unfolding group_key_for
group_key_for-member m gid g h ne =
    let key = h.key in
    let row = h.row in let joined = h.joined in let db = h.has_db in ground (arith)

abbrev group_recipient : Text → Text
group_recipient gid = codes "group:" ++ gid

is_group_recipient : (gid : Text) → starts_with (codes "group:") (group_recipient gid) ≡ true
unfolding starts_with
is_group_recipient gid = refl

member_sends :
    (w : Wire) (m : Mailbox) (gid : Text) (g : Group) (draw : Bytes × Bytes)
    (message payload : Text)
    → w.context_ready ≡ true
    → IsMember m gid g
    → is_empty gid ≡ false
    → seal_group_message w draw g.key_hex (self_name m) message ≡ some payload
    → (messaging_send w m draw (group_recipient gid) message).0.log
      ≡ deliver g.topic payload ∷ m.log
unfolding messaging_send send_to_group send_sealed_group
member_sends w m gid g draw message payload ready h ne e =
    rw (ready, is_group_recipient gid, group_key_for-member m gid g h ne, e) refl

and_false : (b : Bool) → (b && false) ≡ false
and_false b = ground arith

member_receives :
    (w : Wire) (m : Mailbox) (gid : Text) (g : Group) (payload from message : Text)
    → IsMember m gid g
    → is_empty gid ≡ false
    → same from m.self_enc_key ≡ false
    → open_group_message w g.key_hex payload ≡ some (from, message)
    → handle_inbound_group_message w m (group_topic gid) payload
      ≡ record_inbound (w.clock 0) Kind.group from gid message (group_topic gid) m
unfolding handle_inbound_group_message read_group_message keep_group_message
member_receives w m [] g payload from message h ne other e = cc
member_receives w m (x ∷ gid) g payload from message h ne other e =
    let long : leb (length (group_topic (x ∷ gid))) 21 ≡ false =
      ground (arith, length-group_topic (x ∷ gid)) in
    rw
      (
        long,
        topic_group-group_topic (x ∷ gid),
        group_key_for-member m (x ∷ gid) g h ne,
        topic_group-group_topic (x ∷ gid),
        e,
        other,
        and_false (not (is_empty from)),
      )
      refl

open_of_none :
    (w : Wire) (key : Text) {o : Option Text} {r : Option (Text × Text)}
    → o ≡ none
    → (o >>= λ payload. open_group_message w key payload) ≡ r
    → none ≡ r
open_of_none w key {o} {r} e h = rw e at h

open_of_some :
    (w : Wire) (key : Text) {o : Option Text} {r : Option (Text × Text)} {payload : Text}
    → o ≡ some payload
    → (o >>= λ payload'. open_group_message w key payload') ≡ r
    → open_group_message w key payload ≡ r
open_of_some w key {o} {r} {payload} e h = rw e at h

-- Two members hold a group's key, and the sender's row has the topic named after the group. What one
-- sends to the group is one delivery on that topic, and the other, on receiving it, records in front
-- of its messages the text with the sender's name and the group's id. The context is ready, the
-- sender's name is not the receiver's own key, and the wire reads back what it wrote.
pub handle_inbound_group_message-messaging_send :
    (w : Wire)
    → IsGroupWire w
    → (a b : Mailbox) (gid : Text) (ga gb : Group) (draw : Bytes × Bytes) (message : Text)
    → w.context_ready ≡ true
    → is_empty gid ≡ false
    → IsMember a gid ga
    → IsMember b gid gb
    → gb.key_hex ≡ ga.key_hex
    → ga.topic ≡ group_topic gid
    → IsDraw draw
    → same (self_name a) b.self_enc_key ≡ false
    → is_empty (w.print_inner (self_name a) message) ≡ false
    → IsBytes (w.print_inner (self_name a) message)
    → w.parse_inner (w.print_inner (self_name a) message) ≡ some (self_name a, message)
    → (payload : Text) × ((messaging_send w a draw (codes "group:" ++ gid) message).0.log
        ≡ deliver (group_topic gid) payload ∷ a.log)
      × (handle_inbound_group_message w b (group_topic gid) payload
          ≡ record_inbound (w.clock 0) Kind.group (self_name a) gid message (group_topic gid) b)
handle_inbound_group_message-messaging_send w laws a b gid ga gb draw message ready ne ha hb
      same_key topic d other full bytes reads =
    elim (Option-cases (seal_group_message w draw ga.key_hex (self_name a) message)) [
      | inl e ↦ absurd (cc (open_of_none w ga.key_hex e opened))
      | inr (payload, e) ↦ (
        payload,
        member_sends w a gid ga draw message payload ready ha ne e
            ∙ ap (λ t. deliver t payload ∷ a.log) topic,
        member_receives w b gid gb payload (self_name a) message hb ne other (
            ap (λ k. open_group_message w k payload) same_key ∙ open_of_some w ga.key_hex e opened),
      )
    ]
  where
    opened :
        (seal_group_message w draw ga.key_hex (self_name a) message >>= λ payload.
        open_group_message w ga.key_hex payload)
        ≡ some (self_name a, message)
    opened =
        open_group_message-seal_group_message w laws ga.key_hex ha.key draw d (self_name a) message
          full bytes reads
