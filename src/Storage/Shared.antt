-- ===== src/Storage/Shared.antt =====
-- storageShare of one agent, handleInboundApplication and storageDownload of another.
use logos_pilot.Prelude.{ℕ, ◌≡◌, refl, true, false, none, some, [], ◌∷◌, arith}
use logos_pilot.Text.{Text, codes, is_empty, same_refl}
use logos_pilot.Table.{find}
use logos_pilot.Table.Laws
use logos_pilot.Crypto.Hex.{Bytes}
use logos_pilot.Crypto.Cipher.{AesKey, aes_decrypt}
use logos_pilot.Crypto.Formats.{aes_key_from_hex}
use logos_pilot.Messaging.Mailbox.{Mailbox, Wire, Kind, file_keyed, Application}
use logos_pilot.Messaging.Receive.{
  record_inbound, application_kind, share_body, shared_row, insert_file, receive_share,
  receive_application, handle_application,
}
use logos_pilot.Storage.Node.{Store, Node}
use logos_pilot.Storage.Download.{
  downloaded, bad_key, open_bytes, fetch, rest_content, open_content, download_file,
  storage_download,
}
use logos_pilot.Storage.Restored.{Fetches, fetch_content, open_fetched, unguarded, download_opens}

-- What a message says that shares a file: no request, and a CID with a key.
pub record IsShare (a : Application) : Type 0 where
  pub no_request : a.has_jsonrpc ≡ false
  pub kind : a.kind ≡ codes "file_share"
  pub cid : is_empty a.cid ≡ false
  pub key : is_empty a.key ≡ false

share_kind :
    (a : Application) → a.kind ≡ codes "file_share" → application_kind a ≡ codes "file_share"
unfolding application_kind
share_kind a e = rw e refl

recorded_files :
    (now : ℕ) (kind : Kind) (sender group_id body topic : Text) (m : Mailbox)
    → ((record_inbound now kind sender group_id body topic m).files ≡ m.files)
      × ((record_inbound now kind sender group_id body topic m).has_db ≡ m.has_db)
unfolding record_inbound
recorded_files now kind sender group_id body topic m = ground arith

-- A share of a CID that the agent does not hold puts its key on file.
pub share_stored :
    (w : Wire) (m : Mailbox) (a : Application)
    → IsShare a
    → m.has_db ≡ true
    → find a.cid m.files ≡ none
    → ((handle_application w m (some a)).0.has_db ≡ true)
      × (find a.cid (handle_application w m (some a)).0.files ≡ some (shared_row w a))
unfolding handle_application receive_application receive_share
share_stored w m a share db free =
    let stored =
      recorded_files (w.clock 1) Kind.file_share a.from [] (share_body a.cid a.label)
        (codes "inbox") (insert_file (shared_row w a) m) in
    rw (share.no_request, share_kind a share.kind, share.cid, share.key)
      (ground (
        arith,
        stored.0,
        stored.1,
        Laws.find-insert a.cid (shared_row w a) m.files,
        same_refl a.cid,
      ))

-- The store of the agent that got the message.
abbrev pub received_share : Wire → Store → Application → Store
received_share w s a = record s { mailbox = (handle_application w s.mailbox (some a)).0 }

-- An agent that does not hold a CID and gets a share of it can download the file: where the key of
-- the share opens what the storage network gives, the download writes the file's content.
pub storage_download-receive_share :
    (w : Wire) (node : Node) (s : Store) (a : Application) (path : Text) (k : AesKey)
    (ct plain : Bytes)
    → IsShare a
    → w.context_ready ≡ true
    → s.mailbox.has_db ≡ true
    → find a.cid s.mailbox.files ≡ none
    → aes_key_from_hex a.key ≡ some k
    → aes_decrypt w.cipher ct k ≡ some plain
    → w.from_base64 (w.to_base64 ct) ≡ ct
    → is_empty ct ≡ false
    → node.can_write ≡ true
    → Fetches node a.cid (w.to_base64 ct)
    → ((storage_download w node (received_share w s a) a.cid path).1 ≡ downloaded)
      × ((storage_download w node (received_share w s a) a.cid path).0.outputs
          ≡ record { path = path; content = plain } ∷ s.outputs)
storage_download-receive_share w node s a path k ct plain share ready db free key opens b64 ne
      writes fetches =
    let (db', row) = share_stored w s.mailbox a share db free in
    download_opens w node (received_share w s a) a.cid path (shared_row w a) k ct plain ready db'
      row key b64 ne opens writes fetches

-- A share is put on file whatever its key is. Where the key has not the three fields of a key, a
-- download of the CID that gets any content ends in the exception of aesKeyFromHex.
pub storage_download-bad_share :
    (w : Wire) (node : Node) (s : Store) (a : Application) (path content : Text)
    → IsShare a
    → w.context_ready ≡ true
    → s.mailbox.has_db ≡ true
    → find a.cid s.mailbox.files ≡ none
    → aes_key_from_hex a.key ≡ none
    → Fetches node a.cid content
    → (storage_download w node (received_share w s a) a.cid path).1 ≡ bad_key
unfolding download_file open_content open_bytes
storage_download-bad_share w node s a path content share ready db free bad fetches =
    let t = received_share w s a in
    let (db', row) = share_stored w s.mailbox a share db free in
    let got = fetch node t a.cid (rest_content node a.cid) in
    let (given, _) = fetch_content node t a.cid content fetches in
    rw
      (
        unguarded w node t a.cid path ready db',
        row,
        open_fetched w node path (shared_row w a) got content given,
        bad,
      )
      refl
