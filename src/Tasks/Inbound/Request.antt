-- ===== src/Tasks/Inbound/Request.antt =====
-- What processInboundRequest takes in and gives back (pilot-module/src/pilot_a2a_inbox.cpp), and
-- a2aResultIsSuccess with a2aServiceCatalog (pilot-module/src/pilot_a2a.cpp).
use logos_pilot.Prelude.{ℕ, Bool, true, false, Option, some, List, [], ◌∷◌, ◌&&◌, ◌||◌, not}
use logos_pilot.Prelude.Int.{ℤ, pos}
use logos_pilot.Text.{Text, codes, same}
use logos_pilot.Text.Search.{starts_with}
use logos_pilot.Agent.{Pilot, InboundTask}
use logos_pilot.Agent.States.{InboundState}

-- What the code reads of a request that is a JSON object. `params_json` is the compact text of
-- params.message and `args_json` that of the flat skill arguments in it; amount, recipient and reason
-- are those arguments' fields.
pub record Request : Type 0 where
  pub id : Text
  pub method : Text
  pub task_id : Text
  pub skill : Text
  pub sender_npk : Text
  pub sender_ecies : Text
  pub reply_topic : Text
  pub params_json : Text
  pub args_json : Text
  pub amount : ℤ
  pub recipient : Text
  pub reason : Text

-- The JSON-RPC error codes -32603, -32700, -32001, -32003, -32002, -32602, -32005, -32006, -32004
-- and -32601, in the order of the code.
pub data RpcCode : Type 0 where
  internal parse task_not_found unauthorized not_cancelable invalid_params too_large : RpcCode
  rate_limited unsupported method_not_found : RpcCode

-- a2aRpcError, and a2aRpcTask with its result, the empty text for none.
pub data RpcReply : Type 0 where
  rpc_error : Text → RpcCode → RpcReply
  rpc_task : Text → Text → InboundState → Text → RpcReply

-- A skill's result as Qt parses it. A flag is the value of that key if it is a Boolean.
pub record ResultObject : Type 0 where
  pub is_empty : Bool
  pub has_error : Bool
  pub success : Option Bool
  pub joined : Option Bool
  pub ok : Option Bool
  pub status : Text

pub data ResultJson : Type 0 where
  object : ResultObject → ResultJson
  array : Bool → ResultJson
  opaque : ResultJson

abbrev pub is_false : Option Bool → Bool
is_false (some false) = true
is_false _ = false

unfoldable pub result_is_success : ResultJson → Bool
result_is_success (object o) =
    not (
      o.has_error
      || (is_false o.success
          || (is_false o.joined
              || (is_false o.ok
                  || (same o.status (codes "failed") || same o.status (codes "error"))))))
    && not o.is_empty
result_is_success (array empty) = not empty
result_is_success opaque = false

-- What the inbox takes from outside besides the World: the skill registry's dispatch, buildCard, the
-- JSON texts that Qt writes and reads, the order in which SQLite returns the terminal rows for ORDER
-- BY created_at DESC, and what other handlers do to the state while a skill is dispatched.
pub record Env : Type 0 where
  pub dispatch : Text → Text → Text
  pub card : Text
  pub pong : ℕ → Text
  pub object_of : Text → Text
  pub read_result : Text → ResultJson
  pub newest_first : List InboundTask → List InboundTask
  pub meanwhile : Pilot → Pilot

-- The priced services that a stranger may have run.
abbrev pub service_catalog : List (Text × ℤ)
service_catalog = (codes "agent-ask", pos 5) ∷ []

abbrev pub in_catalog : Text → List (Text × ℤ) → Bool
in_catalog skill [] = false
in_catalog skill ((id, price) ∷ rest) = same skill id || in_catalog skill rest

unfoldable pub is_serviced : Text → Bool
is_serviced skill = in_catalog skill service_catalog

unfoldable pub is_owner_gated : Text → Bool
is_owner_gated skill =
    starts_with (codes "storage-") skill
    || (starts_with (codes "messaging-") skill || starts_with (codes "program-") skill)
