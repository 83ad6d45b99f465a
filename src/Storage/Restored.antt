-- ===== src/Storage/Restored.antt =====
-- What is uploaded and what is downloaded.
use mathlib.Core.Path.{subst}
use logos_pilot.Prelude.{
  ◌≡◌, refl, ◌∙◌, ◌⊎◌, inl, inr, ap, true, false, Option, none, some, ◌∷◌, ◌||◌, not, arith, length,
  if_cases, if◌then◌else◌,
}
use logos_pilot.Text.{Text, is_empty, same_refl}
use logos_pilot.Table.{find}
use logos_pilot.Table.Laws
use logos_pilot.Table.Laws.{IsKeyed}
use logos_pilot.Crypto.Hex.{Bytes, IsBytes}
use logos_pilot.Crypto.Cipher.{IsAead, AesKey, generate_file_key, aes_encrypt, aes_decrypt}
use logos_pilot.Crypto.Formats.{aes_key_to_hex, aes_key_from_hex, aes_key_from_hex-aes_key_to_hex}
use logos_pilot.Messaging.Mailbox.{Wire, StoredFile, file_keyed}
use logos_pilot.Messaging.Delivered.{IsDraw, IsGroupWire, nonempty_size}
use logos_pilot.Storage.Node.{Store, Node, start_if_needed}
use logos_pilot.Storage.Upload.{
  UploadResult, uploaded, file_row, finish_upload, typed_cid, upload_sealed, upload_content,
  storage_upload,
}
use logos_pilot.Storage.Download.{
  DownloadResult, downloaded, write_output, write_plain, open_bytes, rest_content, fetch,
  open_content, download_file, storage_download,
}

-- The key that an upload draws, with the tag of its encryption, and the ciphertext.
abbrev pub upload_key : Wire → Bytes × Bytes → Text → AesKey
upload_key w draw content = record {
  key = draw.0;
  iv = draw.1;
  tag = (w.cipher.gcm_seal draw.0 draw.1 content).1;
}

abbrev pub upload_ct : Wire → Bytes × Bytes → Text → Bytes
upload_ct w draw content = (w.cipher.gcm_seal draw.0 draw.1 content).0

-- After a successful upload the row of the CID is on file, with this key.
abbrev StoredWith : Store → AesKey → Store × UploadResult → Type 0
StoredWith s k (t, uploaded cid) =
    ((f : StoredFile) × (find cid t.mailbox.files ≡ some f) × (f.file_key ≡ aes_key_to_hex k))
    × (t.mailbox.has_db ≡ s.mailbox.has_db)
    × (t.outputs ≡ s.outputs)
StoredWith s k (t, _) = Unit

start_keeps :
    (node : Node) (s : Store)
    → ((start_if_needed node s).mailbox ≡ s.mailbox)
      × ((start_if_needed node s).outputs ≡ s.outputs)
unfolding start_if_needed
start_keeps node s = ground arith

finish_upload-StoredWith :
    (w : Wire) (node : Node) (s : Store) (label content : Text) (k : AesKey) (cid : Text)
    → IsKeyed s.mailbox.files
    → StoredWith s k (finish_upload w node s label content k cid)
unfolding finish_upload
finish_upload-StoredWith w node s label content k cid v =
    let row = file_row cid label k (w.clock 0) (length content) in
    let (same_box, same_out) = start_keeps node s in
    (
      (
        row,
        rw same_box (
            Laws.find-upsert cid row s.mailbox.files v
            ∙ ap (λ b. if b then some row else find cid s.mailbox.files) (same_refl cid)),
        refl,
      ),
      rw same_box refl,
      same_out,
    )

upload_sealed-StoredWith :
    (w : Wire) (node : Node) (s : Store) (label content : Text) (k : AesKey) (cid : Text)
    → IsKeyed s.mailbox.files
    → StoredWith s k (upload_sealed w node s label content k cid)
unfolding upload_sealed
upload_sealed-StoredWith w node s label content k cid v =
    if_cases (StoredWith s k) (not (is_empty cid))
      (λ h. finish_upload-StoredWith w node s label content k cid v)
      (λ h.
        if_cases (StoredWith s k) (is_empty node.init_session) (λ h. tt)
          (λ h.
            if_cases (StoredWith s k) (is_empty (typed_cid node)) (λ h. tt)
              (λ h. finish_upload-StoredWith w node s label content k (typed_cid node) v)))

storage_upload-StoredWith :
    (w : Wire) (node : Node) (s : Store) (label : Text) (draw : Bytes × Bytes) (content : Text)
    → IsKeyed s.mailbox.files
    → StoredWith s (upload_key w draw content) (storage_upload w node s label draw (some content))
unfolding storage_upload upload_content aes_encrypt generate_file_key
storage_upload-StoredWith w node s label draw content v =
    if_cases (StoredWith s (upload_key w draw content))
      (not w.context_ready || not s.mailbox.has_db) (λ h. tt)
      (λ h. upload_sealed-StoredWith w node s label content (upload_key w draw content) _ v)

-- The content that a download gets, from the REST API or from the file on disk.
abbrev pub Fetches : Node → Text → Text → Type 0
Fetches node cid content =
    (rest_content node cid ≡ some content)
    ⊎ ((rest_content node cid ≡ none) × (node.downloaded cid ≡ some content))

pub fetch_content :
    (node : Node) (s : Store) (cid content : Text)
    → Fetches node cid content
    → ((fetch node s cid (rest_content node cid)).1 ≡ some content)
      × ((fetch node s cid (rest_content node cid)).0.outputs ≡ s.outputs)
unfolding fetch
fetch_content node s cid content (inl e) = rw e (refl, refl)
fetch_content node s cid content (inr (e, d)) = rw e (d, (start_keeps node s).1)

-- A download of a file whose key is on file writes what the key opens.
opened_content :
    (w : Wire) (node : Node) (path : Text) (f : StoredFile) (t : Store) (k : AesKey)
    → (ct plain : Bytes) → aes_key_from_hex f.file_key ≡ some k
    → w.from_base64 (w.to_base64 ct) ≡ ct
    → is_empty ct ≡ false
    → aes_decrypt w.cipher ct k ≡ some plain
    → node.can_write ≡ true
    → open_content w node path f (t, some (w.to_base64 ct))
      ≡ (write_output path plain t, downloaded)
unfolding open_content open_bytes write_plain
opened_content w node path f t k ct plain key b64 ne opens writes =
    rw (key, b64, ne, opens, writes) refl

pub open_fetched :
    (w : Wire) (node : Node) (path : Text) (f : StoredFile) (r : Store × Option Text)
    (content : Text)
    → r.1 ≡ some content
    → open_content w node path f r ≡ open_content w node path f (r.0, some content)
open_fetched w node path f (t, o) content e = ap (λ x. open_content w node path f (t, x)) e

pub unguarded :
    (w : Wire) (node : Node) (t : Store) (cid path : Text)
    → w.context_ready ≡ true
    → t.mailbox.has_db ≡ true
    → storage_download w node t cid path
      ≡ download_file w node t cid path (find cid t.mailbox.files)
unfolding storage_download
unguarded w node t cid path ready db = ground arith

-- The file of a CID whose row holds the text of the key `k`, where the fetch gives the base64 of a
-- ciphertext that `k` opens.
pub download_opens :
    (w : Wire) (node : Node) (t : Store) (cid path : Text) (f : StoredFile) (k : AesKey)
    (ct plain : Bytes)
    → w.context_ready ≡ true
    → t.mailbox.has_db ≡ true
    → find cid t.mailbox.files ≡ some f
    → aes_key_from_hex f.file_key ≡ some k
    → w.from_base64 (w.to_base64 ct) ≡ ct
    → is_empty ct ≡ false
    → aes_decrypt w.cipher ct k ≡ some plain
    → node.can_write ≡ true
    → Fetches node cid (w.to_base64 ct)
    → ((storage_download w node t cid path).1 ≡ downloaded)
      × ((storage_download w node t cid path).0.outputs
          ≡ record { path = path; content = plain } ∷ t.outputs)
unfolding storage_download download_file
download_opens w node t cid path f k ct plain ready db row key b64 ne opens writes fetches =
    let got = fetch node t cid (rest_content node cid) in
    let (content, outputs) = fetch_content node t cid (w.to_base64 ct) fetches in
    let done =
      open_fetched w node path f got (w.to_base64 ct) content
      ∙ opened_content w node path f got.0 k ct plain key b64 ne opens writes in
    let result : storage_download w node t cid path ≡ (write_output path plain got.0, downloaded) =
      unguarded w node t cid path ready db ∙ (ap (download_file w node t cid path) row ∙ done) in
    (
      ap (λ (r : Store × DownloadResult). r.1) result,
      ap (λ (r : Store × DownloadResult). r.0.outputs) result
          ∙ ap (λ o. record { path = path; content = plain } ∷ o) outputs,
    )

upload_key-reads :
    (w : Wire) (draw : Bytes × Bytes) (content : Text)
    → IsAead w.cipher
    → IsDraw draw
    → IsBytes content
    → aes_key_from_hex (aes_key_to_hex (upload_key w draw content))
      ≡ some (upload_key w draw content)
upload_key-reads w draw content law d b =
    aes_key_from_hex-aes_key_to_hex (upload_key w draw content) d.key_bytes d.iv_bytes
      (law.sealed_bytes draw.0 draw.1 content b).1

-- What the row that an upload leaves is good for.
restore_uploaded :
    (w : Wire) (node : Node) (s t : Store) (cid path content : Text) (draw : Bytes × Bytes)
    → IsGroupWire w
    → IsDraw draw
    → is_empty content ≡ false
    → IsBytes content
    → w.context_ready ≡ true
    → s.mailbox.has_db ≡ true
    → node.can_write ≡ true
    → Fetches node cid (w.to_base64 (upload_ct w draw content))
    → StoredWith s (upload_key w draw content) (t, uploaded cid)
    → ((storage_download w node t cid path).1 ≡ downloaded)
      × ((storage_download w node t cid path).0.outputs
          ≡ record { path = path; content = content } ∷ s.outputs)
unfolding aes_decrypt
restore_uploaded w node s t cid path content draw laws d ne b ready db writes fetches
      ((f, row, key), same_db, same_out) =
    let k = upload_key w draw content in
    let ct = upload_ct w draw content in
    let read = ap aes_key_from_hex key ∙ upload_key-reads w draw content laws.aead d b in
    let full = nonempty_size ct content (laws.aead.size draw.0 draw.1 content b) ne in
    let (done, outputs) =
      download_opens w node t cid path f k ct content ready (same_db ∙ db) row read
        (laws.base64 ct (laws.aead.sealed_bytes draw.0 draw.1 content b).0) full
        (laws.aead.opens draw.0 draw.1 content b) writes fetches in
    (done, outputs ∙ ap (λ o. record { path = path; content = content } ∷ o) same_out)

-- A file that is not empty, once uploaded under a CID, is written back whole by a download of that
-- CID, if the storage module gives back the text it was given, by REST or on disk.
pub storage_download-storage_upload :
    (w : Wire)
    → IsGroupWire w
    → (node node' : Node) (s : Store) (label cid path content : Text) (draw : Bytes × Bytes)
    → IsKeyed s.mailbox.files
    → IsDraw draw
    → is_empty content ≡ false
    → IsBytes content
    → w.context_ready ≡ true
    → s.mailbox.has_db ≡ true
    → node'.can_write ≡ true
    → (storage_upload w node s label draw (some content)).1 ≡ uploaded cid
    → Fetches node' cid (w.to_base64 (upload_ct w draw content))
    → ((storage_download w node' (storage_upload w node s label draw (some content)).0 cid path).1
        ≡ downloaded)
      × ((storage_download w node'
            (storage_upload w node s label draw (some content)).0
            cid
            path).0.outputs
          ≡ record { path = path; content = content } ∷ s.outputs)
storage_download-storage_upload w laws node node' s label cid path content draw v d ne b ready db
      writes e fetches =
    let r = storage_upload w node s label draw (some content) in
    let stored = storage_upload-StoredWith w node s label draw content v in
    restore_uploaded w node' s r.0 cid path content draw laws d ne b ready db writes fetches
      (subst (λ x. StoredWith s (upload_key w draw content) (r.0, x)) e stored)
