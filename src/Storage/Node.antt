-- ===== src/Storage/Node.antt =====
-- The storage side of PilotImpl: the mailbox with the table stored_files, whether the node was
-- started, and the files written; and what the storage module and its disk answer.
use logos_pilot.Prelude.{ℕ, Bool, true, Option, List, ◌||◌, if◌then◌else◌}
use logos_pilot.Text.{Text}
use logos_pilot.Messaging.Mailbox.{Mailbox}

-- A file written to a path, the newest first in `outputs`.
pub record Output : Type 0 where
  pub path : Text
  pub content : Text

pub record Store : Type 0 where
  pub mailbox : Mailbox
  pub node_started : Bool
  pub outputs : List Output

-- The status and the body of an HTTP answer; status 0 where there is none.
pub record RestAnswer : Type 0 where
  pub status : ℕ
  pub body : Text

-- `no_start` is PILOT_STORAGE_NO_START=1; `rest_ready` the probe of the REST API; `rest_post` its
-- answer to the upload and `json_cid` the `cid` of a body that is a JSON object, empty otherwise;
-- `init_session` and `finalize_cid` the texts that uploadInit and uploadFinalize return, empty where
-- they fail; `manifests_before` the names of the manifest files when the upload starts, and
-- `manifests_after i` at the i-th look; `rest_local` and `rest_network` the answers of the REST API
-- on a CID; `downloaded` the file that downloadToUrl leaves, `none` where it cannot be opened; and
-- `can_write` whether the output file can be opened.
pub record Node : Type 0 where
  pub no_start : Bool
  pub rest_ready : Bool
  pub rest_post : Text → RestAnswer
  pub json_cid : Text → Text
  pub init_session : Text
  pub finalize_cid : Text
  pub manifests_before : List Text
  pub manifests_after : ℕ → List Text
  pub rest_local : Text → RestAnswer
  pub rest_network : Text → RestAnswer
  pub downloaded : Text → Option Text
  pub can_write : Bool

-- startStorageNodeIfNeeded, but for the call of `start` itself.
unfoldable pub start_if_needed : Node → Store → Store
start_if_needed node s =
    if s.node_started || node.no_start then s else record s { node_started = true }
