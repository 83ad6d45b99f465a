-- ===== src/Tasks/Inbound/Handle.antt =====
-- handleInboundA2A (pilot-module/src/pilot_a2a_inbox.cpp): a payload from the inbox topic, to its
-- decryption, its dispatch and the reply.
use logos_pilot.Prelude.{Bool, Option, none, some, ◌&&◌, not, if◌then◌else◌}
use logos_pilot.Text.{Text, is_empty}
use logos_pilot.Agent.{Pilot}
use logos_pilot.Agent.World.{World}
use logos_pilot.Crypto.Cipher.{Cipher}
use logos_pilot.Messaging.Mailbox.{Mailbox, Wire}
use logos_pilot.Messaging.Receive.{handle_inbound_application}
use logos_pilot.Tasks.Linked.{reply_to_peer}
use logos_pilot.Tasks.Outbound.Reply.{Keys, a2a_try_decrypt}
use logos_pilot.Tasks.Inbound.Request.{Env, Request, RpcReply}
use logos_pilot.Tasks.Inbound.Authenticate.{Envelope, Verdict, verify_inbound_request}
use logos_pilot.Tasks.Inbound.Process.{process_inbound_request}

-- What is read of a decrypted JSON object.
pub record Incoming : Type 0 where
  pub has_jsonrpc : Bool
  pub envelope : Envelope
  pub request : Request

-- What the handler takes from outside: the world while the request is verified, processed and
-- answered, the wire of the messages that are no requests, the JSON parser with the reads that follow
-- it, and the printer of an answer.
pub record Surroundings : Type 0 where
  pub verifying : World
  pub processing : World
  pub replying : World
  pub env : Env
  pub wire : Wire
  pub parse_incoming : Text → Option Incoming
  pub print_reply : RpcReply → Text

-- The two parts of the agent that the handler writes.
pub record Agent : Type 0 where
  pub pilot : Pilot
  pub mailbox : Mailbox

unfoldable pub send_reply : Surroundings → Request → Pilot × RpcReply → Pilot
send_reply o r (p, reply) =
    if not (is_empty r.reply_topic) && not (is_empty r.sender_ecies)
    then (reply_to_peer o.replying p r.reply_topic r.sender_ecies (o.print_reply reply)).0
    else p

unfoldable pub dispatch_verified : Surroundings → Incoming → Pilot × Verdict → Pilot
unfolding send_reply
dispatch_verified o i (p, v) =
    if not v.accepted
    then p
    else send_reply o i.request (
        process_inbound_request o.processing o.env p (some i.request) i.envelope.sender_npk
          v.first_contact)

unfoldable pub handle_incoming : Surroundings → Agent → Text → Option Incoming → Agent
unfolding dispatch_verified
handle_incoming o a text none = a
handle_incoming o a text (some i) =
    if not i.has_jsonrpc
    then record a { mailbox = (handle_inbound_application o.wire a.mailbox text).0 }
    else record a {
      pilot = dispatch_verified o i (verify_inbound_request o.verifying a.pilot i.envelope);
    }

unfoldable pub handle_decrypted : Surroundings → Agent → Option Text → Agent
unfolding handle_incoming
handle_decrypted o a none = a
handle_decrypted o a (some text) = handle_incoming o a text (o.parse_incoming text)

unfoldable pub handle_inbound_a2a : Surroundings → Cipher → Keys → Agent → Text → Agent
unfolding handle_decrypted
handle_inbound_a2a o c k a payload =
    if is_empty k.enc_priv && is_empty k.ecies_priv
    then a
    else handle_decrypted o a (a2a_try_decrypt c k payload)
