-- ===== src/Storage/Download.antt =====
-- storageDownload (pilot-module/src/pilot_storage.cpp).
use logos_pilot.Prelude.{Option, none, some, ◌∷◌, ◌||◌, not, ◌==◌, if◌then◌else◌}
use logos_pilot.Text.{Text, is_empty}
use logos_pilot.Table.{find}
use logos_pilot.Crypto.Hex.{Bytes}
use logos_pilot.Crypto.Cipher.{AesKey, aes_decrypt}
use logos_pilot.Crypto.Formats.{aes_key_from_hex}
use logos_pilot.Messaging.Mailbox.{Wire, StoredFile, file_keyed}
use logos_pilot.Storage.Node.{Store, Node, start_if_needed}

-- The `error` of an answer, success, or the exception of aesKeyFromHex, which nothing here catches.
pub data DownloadResult : Type 0 where
  not_initialized unknown_cid timed_out empty_file decryption_failed cannot_write : DownloadResult
  downloaded bad_key : DownloadResult

abbrev pub write_output : Text → Text → Store → Store
write_output path content s = record s {
  outputs = record { path = path; content = content } ∷ s.outputs;
}

unfoldable pub write_plain : Node → Store → Text → Option Bytes → Store × DownloadResult
write_plain node s path none = (s, decryption_failed)
write_plain node s path (some plain) =
    if node.can_write then (write_output path plain s, downloaded) else (s, cannot_write)

unfoldable pub open_bytes :
    Wire → Node → Store → Text → Bytes → Option AesKey → Store × DownloadResult
unfolding write_plain
open_bytes w node s path enc none = (s, bad_key)
open_bytes w node s path enc (some k) =
    if is_empty enc then (s, empty_file) else write_plain node s path (aes_decrypt w.cipher enc k)

-- The content from the REST API, of the local repository or of the network, `none` where neither
-- answers with it.
unfoldable pub rest_content : Node → Text → Option Text
rest_content node cid =
    if not node.rest_ready
    then none
    else if (node.rest_local cid).status == 200
    then some (node.rest_local cid).body
    else if (node.rest_network cid).status == 200
    then some (node.rest_network cid).body
    else none

-- The state after the fetch, and the content, `none` where it timed out.
unfoldable pub fetch : Node → Store → Text → Option Text → Store × Option Text
fetch node s cid (some content) = (s, some content)
fetch node s cid none = (start_if_needed node s, node.downloaded cid)

unfoldable pub open_content :
    Wire → Node → Text → StoredFile → Store × Option Text → Store × DownloadResult
unfolding open_bytes
open_content w node path f (s, none) = (s, timed_out)
open_content w node path f (s, some content) =
    open_bytes w node s path (w.from_base64 content) (aes_key_from_hex f.file_key)

unfoldable pub download_file :
    Wire → Node → Store → Text → Text → Option StoredFile → Store × DownloadResult
unfolding open_content fetch rest_content
download_file w node s cid path none = (s, unknown_cid)
download_file w node s cid path (some f) =
    open_content w node path f (fetch node s cid (rest_content node cid))

unfoldable pub storage_download : Wire → Node → Store → Text → Text → Store × DownloadResult
unfolding download_file
storage_download w node s cid path =
    if not w.context_ready || not s.mailbox.has_db
    then (s, not_initialized)
    else download_file w node s cid path (find cid s.mailbox.files)
