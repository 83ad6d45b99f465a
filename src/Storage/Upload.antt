-- ===== src/Storage/Upload.antt =====
-- storageManifestCids and storageUpload (pilot-module/src/pilot_storage.cpp).
use logos_pilot.Prelude.{
  ℕ, zero, suc, ◌+◌, Bool, Option, none, some, List, [], ◌∷◌, ◌||◌, not, ◌==◌, length,
  if◌then◌else◌,
}
use logos_pilot.Text.{is_among, Text, is_empty, same, text_lt}
use logos_pilot.Text.Trim.{trim_right}
use logos_pilot.Table.{upsert}
use logos_pilot.Crypto.Hex.{Bytes}
use logos_pilot.Crypto.Cipher.{AesKey, generate_file_key, aes_encrypt}
use logos_pilot.Crypto.Formats.{aes_key_to_hex}
use logos_pilot.Messaging.Mailbox.{Wire, StoredFile, file_keyed}
use logos_pilot.Storage.Node.{Store, Node, RestAnswer, start_if_needed}

-- A file name up to its first dot.
unfoldable pub stem : Text → Text
stem [] = []
stem (x ∷ s) = if x == b'.' then [] else x ∷ stem s

-- `insert` of a std::set, in the order in which it is walked.
unfoldable pub set_insert : Text → List Text → List Text
set_insert x [] = x ∷ []
set_insert x (y ∷ ys) =
    let rest = set_insert x ys in
    if same x y then y ∷ ys else if text_lt x y then x ∷ y ∷ ys else y ∷ rest

abbrev pub insert_nonempty : Text → List Text → List Text
insert_nonempty x xs = if is_empty x then xs else set_insert x xs

-- The CIDs of the manifest files with these names.
unfoldable pub manifest_cids : List Text → List Text
unfolding stem set_insert
manifest_cids [] = []
manifest_cids (name ∷ names) = insert_nonempty (stem name) (manifest_cids names)

-- The first CID that was not there before, or the empty text.
unfoldable pub first_new : List Text → List Text → Text
unfolding is_among
first_new old [] = []
first_new old (c ∷ cs) = let rest = first_new old cs in if is_among c old then rest else c

-- The looks at the disk, from the i-th on, until there is a new CID.
unfoldable pub poll_cid : Node → List Text → ℕ → ℕ → Text
unfolding first_new manifest_cids
poll_cid node old zero i = []
poll_cid node old (suc looks) i =
    let rest = poll_cid node old looks (i + 1) in
    let c = first_new old (manifest_cids (node.manifests_after i)) in if is_empty c then rest else c

-- What is cut from the end of an answer: line ends and quotes.
abbrev pub is_cid_end : ℕ → Bool
is_cid_end c = c == 10 || c == 13 || c == b'"'

unfoldable pub drop_quote : Text → Text
drop_quote [] = []
drop_quote (x ∷ s) = if x == b'"' then s else x ∷ s

abbrev pub cid_of_body : Node → Text → Text
cid_of_body node [] = []
cid_of_body node (x ∷ s) = if x == b'{' then node.json_cid (x ∷ s) else x ∷ s

unfoldable pub rest_cid : Node → RestAnswer → Text
unfolding drop_quote trim_right
rest_cid node a =
    if a.status == 200 then drop_quote (trim_right is_cid_end (cid_of_body node a.body)) else []

unfoldable pub typed_cid : Node → Text
unfolding poll_cid
typed_cid node =
    if is_empty node.finalize_cid
    then poll_cid node (manifest_cids node.manifests_before) 20 0
    else node.finalize_cid

-- The `error` of an answer, or the CID.
pub data UploadResult : Type 0 where
  not_initialized cannot_open init_failed no_manifest : UploadResult
  uploaded : Text → UploadResult

abbrev pub file_row : Text → Text → AesKey → ℕ → ℕ → StoredFile
file_row cid label k now size = record {
  cid = cid;
  label = label;
  file_key = aes_key_to_hex k;
  timestamp = now;
  size_bytes = size;
}

abbrev pub store_file : StoredFile → Store → Store
store_file f s = record s { mailbox = record s.mailbox { files = upsert f s.mailbox.files } }

unfoldable pub finish_upload :
    Wire → Node → Store → Text → Text → AesKey → Text → Store × UploadResult
finish_upload w node s label content k cid = (
  store_file (file_row cid label k (w.clock 0) (length content)) (start_if_needed node s),
  uploaded cid,
)

-- The CID that the REST API gave, or else the typed calls.
unfoldable pub upload_sealed :
    Wire → Node → Store → Text → Text → AesKey → Text → Store × UploadResult
unfolding finish_upload typed_cid
upload_sealed w node s label content k cid =
    if not (is_empty cid)
    then finish_upload w node s label content k cid
    else if is_empty node.init_session
    then (s, init_failed)
    else if is_empty (typed_cid node)
    then (s, no_manifest)
    else finish_upload w node s label content k (typed_cid node)

unfoldable pub upload_content :
    Wire → Node → Store → Text → Bytes × Bytes → Option Text → Store × UploadResult
unfolding upload_sealed rest_cid
upload_content w node s label draw none = (s, cannot_open)
upload_content w node s label draw (some content) =
    let (ct, k) = aes_encrypt w.cipher content (generate_file_key draw.0 draw.1) in
    upload_sealed w node s label content k
      (if node.rest_ready then rest_cid node (node.rest_post (w.to_base64 ct)) else [])

-- `file` is the content of the file, `none` where it cannot be opened; `draw` what generateFileKey
-- draws.
unfoldable pub storage_upload :
    Wire → Node → Store → Text → Bytes × Bytes → Option Text → Store × UploadResult
unfolding upload_content
storage_upload w node s label draw file =
    if not w.context_ready || not s.mailbox.has_db
    then (s, not_initialized)
    else upload_content w node s label draw file
