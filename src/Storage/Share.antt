-- ===== src/Storage/Share.antt =====
-- storageShare and storageConnect (pilot-module/src/pilot_storage.cpp).
use logos_pilot.Prelude.{
  ℕ, Bool, true, false, Option, none, some, List, [], ◌∷◌, ◌||◌, not, length, if◌then◌else◌,
}
use logos_pilot.Text.{Text, is_empty}
use logos_pilot.Table.{find}
use logos_pilot.Messaging.Mailbox.{Mailbox, Wire, StoredFile, file_keyed}
use logos_pilot.Messaging.Members.{recipient_key, parse_member_list}
use logos_pilot.Messaging.Send.{inbox_topic, self_name, send_call}
use logos_pilot.Storage.Node.{Store, Node, start_if_needed}

-- The `error` of an answer, or the key of the recipient.
pub data ShareResult : Type 0 where
  not_initialized unknown_cid encryption_failed : ShareResult
  shared : Text → ShareResult

unfoldable pub send_share : Mailbox → Text → Option Text → Mailbox × ShareResult
send_share m key none = (m, encryption_failed)
send_share m key (some payload) = (send_call (inbox_topic key) payload m, shared key)

-- The plaintext of a share.
abbrev pub share_text : Wire → Mailbox → StoredFile → Text → Text
share_text w m f cid = w.print_share cid f.file_key (self_name m) f.label

unfoldable pub share_file : Wire → Mailbox → Text → Text → Option StoredFile → Mailbox × ShareResult
unfolding send_share
share_file w m cid recipient none = (m, unknown_cid)
share_file w m cid recipient (some f) =
    let key = recipient_key w recipient in send_share m key (w.encrypt key (share_text w m f cid))

unfoldable pub storage_share : Wire → Mailbox → Text → Text → Mailbox × ShareResult
unfolding share_file
storage_share w m cid recipient =
    if not w.context_ready || not m.has_db
    then (m, not_initialized)
    else share_file w m cid recipient (find cid m.files)

pub data ConnectResult : Type 0 where
  not_initialized no_peer no_address : ConnectResult
  requested : ℕ → ConnectResult

abbrev is_empty_list : List Text → Bool
is_empty_list [] = true
is_empty_list (x ∷ xs) = false

unfoldable pub storage_connect : Wire → Node → Store → Text → Text → Store × ConnectResult
unfolding parse_member_list start_if_needed
storage_connect w node s peer_id addresses =
    let addrs = parse_member_list w addresses in
    if not w.context_ready || not s.mailbox.has_db
    then (s, not_initialized)
    else if is_empty peer_id
    then (s, no_peer)
    else if is_empty_list addrs
    then (s, no_address)
    else (start_if_needed node s, requested (length addrs))
