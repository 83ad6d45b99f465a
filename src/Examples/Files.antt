-- ===== src/Examples/Files.antt =====
-- Files that are stored and shared over the wire of Examples/Sealed.
use logos_pilot.Prelude.{
  ◌≡◌, refl, true, false, some, List, [], ◌∷◌, arith, ◌==◌, ℕ_discrete, inr, if◌then◌else◌,
}
use logos_pilot.Text.{is_among, Text, codes, text_dec, text_lt}
use logos_pilot.Messaging.Mailbox.{Wire, file_keyed, Application}
use logos_pilot.Messaging.Kept.{
  Arrival, application, on_group, receive_all, Keeps, receive_all-Keeps,
}
use logos_pilot.Messaging.Receive.{group_topic}
use logos_pilot.Storage.Node.{Store, Node}
use logos_pilot.Storage.Upload.{
  manifest_cids, stem, set_insert, typed_cid, upload_sealed, upload_content, finish_upload,
  storage_upload, uploaded, poll_cid, first_new,
}
use logos_pilot.Storage.Download.{downloaded, rest_content, storage_download}
use logos_pilot.Storage.Restored.{Fetches, storage_download-storage_upload}
use logos_pilot.Storage.Polled.{cids_after, AppearedOnDisk, storage_upload-found}
use logos_pilot.Examples.Sealed.{wire, wire-IsGroupWire, draw, draw-IsDraw, alice_box, invitation}

-- An upload finds its manifest at the fourth look; a download finds the file on disk.
abbrev node : Node
node = record {
  no_start = false;
  rest_ready = false;
  rest_post = λ body. record { status = 0; body = [] };
  json_cid = λ body. [];
  init_session = codes "session";
  finalize_cid = [];
  manifests_before = codes "za.dat" ∷ [];
  manifests_after =
      λ i. if i == 3 then codes "zb.dat" ∷ codes "za.dat" ∷ [] else codes "za.dat" ∷ [];
  rest_local = λ cid. record { status = 0; body = [] };
  rest_network = λ cid. record { status = 0; body = [] };
  downloaded = λ cid. some (codes "data");
  can_write = true;
}

abbrev store : Store
store = record { mailbox = alice_box; node_started = false; outputs = [] }

here : is_among (codes "zb") (cids_after node 3) ≡ true
unfolding is_among manifest_cids stem set_insert text_lt text_dec ℕ_discrete
here = refl

fresh : is_among (codes "zb") (manifest_cids node.manifests_before) ≡ false
unfolding is_among manifest_cids stem set_insert text_lt text_dec ℕ_discrete
fresh = refl

storage_upload-found_example :
    (cid : Text) × ((storage_upload wire node store [] draw (some (codes "data"))).1 ≡ uploaded cid)
    × AppearedOnDisk node cid
storage_upload-found_example =
    storage_upload-found wire node store [] draw (codes "data") (codes "zb") 3 refl refl refl refl
      refl (omega arith) here fresh

stored : (storage_upload wire node store [] draw (some (codes "data"))).1 ≡ uploaded (codes "zb")
unfolding storage_upload upload_content upload_sealed finish_upload typed_cid poll_cid first_new
    is_among manifest_cids stem set_insert text_lt text_dec ℕ_discrete
stored = refl

fetched : Fetches node (codes "zb") (codes "data")
unfolding rest_content
fetched = inr (refl, refl)

storage_download-storage_upload_example :
    ((storage_download wire node
        (storage_upload wire node store [] draw (some (codes "data"))).0
        (codes "zb")
        (codes "/out")).1
      ≡ downloaded)
    × ((storage_download wire node
          (storage_upload wire node store [] draw (some (codes "data"))).0
          (codes "zb")
          (codes "/out")).0.outputs
        ≡ record { path = codes "/out"; content = codes "data" } ∷ [])
storage_download-storage_upload_example =
    storage_download-storage_upload wire wire-IsGroupWire node node store [] (codes "zb")
      (codes "/out") (codes "data") draw tt draw-IsDraw refl (ground arith) refl refl refl stored
      fetched

abbrev share : Application
share = record invitation {
  has_cid = true;
  kind = codes "file_share";
  key = codes "01:02:03";
  cid = codes "zb";
}

-- The wire on which every message is the share.
abbrev share_wire : Wire
share_wire = record wire { parse_application = λ text. some share }

abbrev arrivals : List Arrival
arrivals =
    application share_wire (codes "x")
    ∷ application share_wire (codes "y")
    ∷ on_group wire (group_topic (codes "g1")) (codes "00:00:data")
    ∷ []

receive_all-Keeps_example : Keeps alice_box (receive_all arrivals alice_box)
receive_all-Keeps_example = receive_all-Keeps arrivals alice_box
