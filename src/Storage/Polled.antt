-- ===== src/Storage/Polled.antt =====
-- The CID that an upload finds on the disk when the reply of the storage module is lost.
use logos_pilot.Prelude.{
  ℕ, zero, suc, ◌+◌, ◌<◌, ◌≤◌, ◌≡◌, inl, inr, true, false, some, List, [], ◌∷◌, ℕ_discrete, arith,
  if_cases, Bool-cases,
}
use logos_pilot.Text.{is_among, Text, is_empty, same_refl, same-eq}
use logos_pilot.Crypto.Hex.{Bytes}
use logos_pilot.Crypto.Cipher.{AesKey, generate_file_key, aes_encrypt}
use logos_pilot.Messaging.Mailbox.{Wire}
use logos_pilot.Storage.Node.{Store, Node}
use logos_pilot.Storage.Upload.{
  first_new, manifest_cids, set_insert, stem, poll_cid, typed_cid, uploaded, finish_upload,
  upload_sealed, upload_content, storage_upload,
}

first_new_lem :
    (old cs : List Text)
    → is_empty (first_new old cs) ≡ false
    → (is_among (first_new old cs) cs ≡ true) × (is_among (first_new old cs) old ≡ false)
unfolding first_new is_among
first_new_lem old [] h = cc
first_new_lem old (c ∷ cs) h = ground (arith, first_new_lem old cs, same_refl c)

abbrev AllNonempty : List Text → Type 0
AllNonempty [] = Unit
AllNonempty (c ∷ cs) = (is_empty c ≡ false) × AllNonempty cs

set_insert-AllNonempty :
    (x : Text) (xs : List Text)
    → is_empty x ≡ false
    → AllNonempty xs
    → AllNonempty (set_insert x xs)
unfolding set_insert
set_insert-AllNonempty x [] h hs = (h, tt)
set_insert-AllNonempty x (y ∷ ys) h (hy, hs) = ground (arith, set_insert-AllNonempty x ys h hs)

manifest_cids-AllNonempty : (names : List Text) → AllNonempty (manifest_cids names)
unfolding manifest_cids
manifest_cids-AllNonempty [] = tt
manifest_cids-AllNonempty (name ∷ names) = elim (Bool-cases (is_empty (stem name))) [
  | inl e ↦ rw e (manifest_cids-AllNonempty names)
  | inr e ↦
      rw e (
        set_insert-AllNonempty (stem name) (manifest_cids names) e
          (manifest_cids-AllNonempty names))
]

first_new-found :
    (old cs : List Text) (c : Text)
    → AllNonempty cs
    → is_among c cs ≡ true
    → is_among c old ≡ false
    → is_empty (first_new old cs) ≡ false
unfolding first_new is_among
first_new-found old [] c h e n = cc
first_new-found old (x ∷ cs) c (hx, hs) e n =
    ground (arith, first_new-found old cs c hs, same-eq c x)

-- The CIDs on the disk at the i-th look.
abbrev pub cids_after : Node → ℕ → List Text
cids_after node i = manifest_cids (node.manifests_after i)

poll_cid-new :
    (node : Node) (old : List Text) (looks i : ℕ)
    → is_empty (poll_cid node old looks i) ≡ false
    → (j : ℕ) × (j < i + looks)
      × (is_among (poll_cid node old looks i) (cids_after node j) ≡ true)
      × (is_among (poll_cid node old looks i) old ≡ false)
unfolding poll_cid
poll_cid-new node old zero i h = absurd (cc)
poll_cid-new node old (suc looks) i h =
    elim (Bool-cases (is_empty (first_new old (cids_after node i)))) [
      | inl e ↦
          let (j, lt, here, fresh) = poll_cid-new node old looks (i + 1) (rw e at h) in
          rw e (j, omega arith, here, fresh)
      | inr e ↦
          let (here, fresh) = first_new_lem old (cids_after node i) e in
          rw e (i, omega arith, here, fresh)
    ]

-- There is no new CID at look `i`, so one at look `j` is at a later look.
later_look :
    (node : Node) (old : List Text) (i j : ℕ)
    → i ≤ j
    → is_empty (first_new old (cids_after node i)) ≡ true
    → is_empty (first_new old (cids_after node j)) ≡ false
    → i + 1 ≤ j
later_look node old i j le e h = elim (ℕ_discrete i j) [ yes p ↦ absurd (cc) | no p ↦ omega arith ]

poll_cid-found :
    (node : Node) (old : List Text) (looks i j : ℕ)
    → i ≤ j
    → j < i + looks
    → is_empty (first_new old (cids_after node j)) ≡ false
    → is_empty (poll_cid node old looks i) ≡ false
unfolding poll_cid
poll_cid-found node old zero i j le lt h = absurd (omega arith)
poll_cid-found node old (suc looks) i j le lt h =
    elim (Bool-cases (is_empty (first_new old (cids_after node i)))) [
      | inl e ↦
          rw e (
            poll_cid-found node old looks (i + 1) j (later_look node old i j le e h) (omega arith)
              h)
      | inr e ↦ rw e e
    ]

-- The CID that an upload takes from the disk, where uploadFinalize gave none, is there at one of its
-- twenty looks and was not there before the upload.
typed_cid-new :
    (node : Node)
    → is_empty node.finalize_cid ≡ true
    → is_empty (typed_cid node) ≡ false
    → (j : ℕ) × (j < 20)
      × (is_among (typed_cid node) (cids_after node j) ≡ true)
      × (is_among (typed_cid node) (manifest_cids node.manifests_before) ≡ false)
unfolding typed_cid
typed_cid-new node lost found =
    rw lost (poll_cid-new node (manifest_cids node.manifests_before) 20 0 (rw lost at found))

-- A new manifest at any of the twenty looks gives a CID.
typed_cid-found :
    (node : Node) (c : Text) (j : ℕ)
    → j < 20
    → is_among c (cids_after node j) ≡ true
    → is_among c (manifest_cids node.manifests_before) ≡ false
    → is_empty (typed_cid node) ≡ false
unfolding typed_cid
typed_cid-found node c j lt here fresh =
    let old = manifest_cids node.manifests_before in
    let found =
      first_new-found old (cids_after node j) c (manifest_cids-AllNonempty (node.manifests_after j))
        here fresh in
    if_cases (λ t. is_empty t ≡ false) (is_empty node.finalize_cid)
      (λ h. poll_cid-found node old 20 0 j (omega arith) (omega arith) found) (λ h. h)

-- A CID that is on the disk at a look before the twentieth, and was not there before the upload.
abbrev pub AppearedOnDisk : Node → Text → Type 0
AppearedOnDisk node cid =
    (j : ℕ) × (j < 20)
    × (is_among cid (cids_after node j) ≡ true)
    × (is_among cid (manifest_cids node.manifests_before) ≡ false)

upload_sealed-found :
    (w : Wire) (node : Node) (s : Store) (label content : Text) (k : AesKey)
    → is_empty node.init_session ≡ false
    → is_empty (typed_cid node) ≡ false
    → (upload_sealed w node s label content k []).1 ≡ uploaded (typed_cid node)
unfolding upload_sealed finish_upload
upload_sealed-found w node s label content k session found = ground (arith, session, found)

-- An upload over the calls of the storage module, of a file that can be opened, by an agent that is
-- ready and has its database: where the REST API is not there, uploadInit gives a session,
-- uploadFinalize gives no CID, and a manifest that was not there before is on the disk at one of the
-- twenty looks, the upload succeeds, and its answer is a CID that was not on the disk before and is
-- there at one of the looks.
pub storage_upload-found :
    (w : Wire) (node : Node) (s : Store) (label : Text) (draw : Bytes × Bytes) (content c : Text)
    (j : ℕ)
    → w.context_ready ≡ true
    → s.mailbox.has_db ≡ true
    → node.rest_ready ≡ false
    → is_empty node.init_session ≡ false
    → is_empty node.finalize_cid ≡ true
    → j < 20
    → is_among c (cids_after node j) ≡ true
    → is_among c (manifest_cids node.manifests_before) ≡ false
    → (cid : Text) × ((storage_upload w node s label draw (some content)).1 ≡ uploaded cid)
      × AppearedOnDisk node cid
unfolding storage_upload upload_content
storage_upload-found w node s label draw content c j ready db no_rest session lost lt here fresh =
    let found = typed_cid-found node c j lt here fresh in
    let (ct, k) = aes_encrypt w.cipher content (generate_file_key draw.0 draw.1) in
    let sealed = upload_sealed-found w node s label content k session found in
    (typed_cid node, ground (arith, ready, db, no_rest, sealed), typed_cid-new node lost found)
