-- ===== src/Messaging/Joined.antt =====
-- From an invite to membership: handleInboundApplication, then messagingJoin.
use logos_pilot.Prelude.{ℕ, ◌≡◌, refl, true, false, none, some, [], ◌∷◌, ◌++◌, arith, if_cases}
use logos_pilot.Text.{Text, codes, is_empty, same_refl}
use logos_pilot.Table.{find}
use logos_pilot.Table.Laws
use logos_pilot.Messaging.Mailbox.{Mailbox, Wire, Kind, Group, group_keyed, Application}
use logos_pilot.Messaging.Groups.{is_group_key, group_key_for}
use logos_pilot.Messaging.Receive.{
  record_inbound, application_kind, invited_row, topic_or, insert_group, receive_invite,
  receive_application, handle_application,
}
use logos_pilot.Messaging.Send.{messaging_join, join_group}
use logos_pilot.Messaging.Flow.{IsMember}

abbrev invite : Text
invite = codes "group_invite"

invite_kind : (a : Application) → a.kind ≡ invite → application_kind a ≡ invite
unfolding application_kind
invite_kind a e = rw e refl

record_inbound-groups :
    (now : ℕ) (kind : Kind) (sender group_id body topic : Text) (m : Mailbox)
    → ((record_inbound now kind sender group_id body topic m).groups ≡ m.groups)
      × ((record_inbound now kind sender group_id body topic m).has_db ≡ m.has_db)
unfolding record_inbound
record_inbound-groups now kind sender group_id body topic m = ground arith

invite_stored :
    (w : Wire) (m : Mailbox) (a : Application)
    → m.has_db ≡ true
    → a.has_jsonrpc ≡ false
    → a.kind ≡ invite
    → is_empty a.group_id ≡ false
    → is_group_key a.key ≡ true
    → find a.group_id m.groups ≡ none
    → ((handle_application w m (some a)).0.has_db ≡ true)
      × (find a.group_id (handle_application w m (some a)).0.groups ≡ some (invited_row w a))
unfolding handle_application receive_application receive_invite
invite_stored w m a db rpc kind gid key free =
    let stored =
      record_inbound-groups (w.clock 1) Kind.group_invite a.from a.group_id
        (codes "invited to group " ++ a.group_id) (topic_or a.topic a.group_id)
        (insert_group (invited_row w a) m) in
    rw (rpc, invite_kind a kind, gid, key)
      (ground (
        arith,
        stored.0,
        stored.1,
        Laws.find-insert a.group_id (invited_row w a) m.groups,
        same_refl a.group_id,
      ))

group_key-nonempty : (k : Text) → is_group_key k ≡ true → is_empty k ≡ false
group_key-nonempty [] h = ground arith
group_key-nonempty (x ∷ k) h = refl

key_of_invited :
    (w : Wire) (n : Mailbox) (a : Application)
    → n.has_db ≡ true
    → is_empty a.group_id ≡ false
    → is_group_key a.key ≡ true
    → find a.group_id n.groups ≡ some (invited_row w a)
    → group_key_for n a.group_id false ≡ some (invited_row w a)
unfolding group_key_for
key_of_invited w n a db gid key row = rw (db, gid, row, group_key-nonempty a.key key) refl

abbrev pub joined_row : Group → Group
joined_row g = record g { joined = true }

join-IsMember :
    (w : Wire) (n : Mailbox) (gid : Text) (g : Group)
    → n.has_db ≡ true
    → is_group_key g.key_hex ≡ true
    → find gid n.groups ≡ some g
    → IsMember (join_group w n gid (some g)).0 gid (joined_row g)
unfolding join_group
join-IsMember w n gid g db key row =
    let set = Laws.find-set_at_self gid joined_row n.groups g (λ r. refl) row in
    if_cases (λ (m : Mailbox). IsMember m gid (joined_row g)) w.context_ready
      (λ h. record { has_db = db; row = set; joined = refl; key = key })
      (λ h. record { has_db = db; row = set; joined = refl; key = key })

join_succeeds :
    (w : Wire) (n : Mailbox) (gid : Text) (g : Group) → (join_group w n gid (some g)).1 ≡ true
unfolding join_group
join_succeeds w n gid g = refl

not_joined :
    (w : Wire) (n : Mailbox) (a : Application)
    → n.has_db ≡ true
    → is_empty a.group_id ≡ false
    → find a.group_id n.groups ≡ some (invited_row w a)
    → group_key_for n a.group_id true ≡ none
unfolding group_key_for
not_joined w n a db gid row = rw (db, gid, row) (ground arith)

-- A group that the agent does not hold and is invited to with a usable key is not joined by the
-- invite; the join that follows succeeds and makes the agent a member with the key of the invite.
pub messaging_join-handle_application :
    (w : Wire) (m : Mailbox) (a : Application)
    → m.has_db ≡ true
    → a.has_jsonrpc ≡ false
    → a.kind ≡ codes "group_invite"
    → is_empty a.group_id ≡ false
    → is_group_key a.key ≡ true
    → find a.group_id m.groups ≡ none
    → (group_key_for (handle_application w m (some a)).0 a.group_id true ≡ none)
      × ((messaging_join w (handle_application w m (some a)).0 a.group_id).1 ≡ true)
      × IsMember
          (messaging_join w (handle_application w m (some a)).0 a.group_id).0
          a.group_id
          (joined_row (invited_row w a))
unfolding messaging_join
messaging_join-handle_application w m a db rpc kind gid key free =
    let n = (handle_application w m (some a)).0 in
    let (db', row) = invite_stored w m a db rpc kind gid key free in
    let found = key_of_invited w n a db' gid key row in
    (
      not_joined w n a db' gid row,
      rw found (join_succeeds w n a.group_id (invited_row w a)),
      rw found (join-IsMember w n a.group_id (invited_row w a) db' key row),
    )
