-- ===== src/Examples/Arrivals.antt =====
-- A payload on the inbox of the agent of Examples.
use logos_pilot.Prelude.{true, some, []}
use logos_pilot.Text.{codes}
use logos_pilot.Tasks.Outbound.Reply.{Keys}
use logos_pilot.Tasks.Inbound.Authenticate.{Envelope}
use logos_pilot.Tasks.Inbound.Handle.{Incoming, Surroundings, Agent, handle_inbound_a2a}
use logos_pilot.Money.Quiet.{Quiet-refl}
use logos_pilot.Money.Arrivals.{Harmless, handle_inbound_a2a-Harmless}
use logos_pilot.Examples.{world, agent}
use logos_pilot.Examples.Peers.{env, wallet_request, agent-IsKeyed, fresh}
use logos_pilot.Examples.Sealed.{box, wire, alice_box}

abbrev envelope : Envelope
envelope = record {
  signing_key = codes "km";
  signature = codes "sig";
  sender_npk = codes "mallory";
  canonical = codes "{}";
}

abbrev incoming : Incoming
incoming = record { has_jsonrpc = true; envelope = envelope; request = wallet_request }

abbrev surroundings : Surroundings
surroundings = record {
  verifying = world;
  processing = world;
  replying = world;
  env = env;
  wire = wire;
  parse_incoming = λ text. some incoming;
  print_reply = λ reply. codes "{}";
}

abbrev keys : Keys
keys = record { enc_priv = []; ecies_priv = codes "0c" }

abbrev both : Agent
both = record { pilot = agent; mailbox = alice_box }

handle_inbound_a2a-Harmless_example :
    Harmless both (handle_inbound_a2a surroundings box keys both (codes "02:7b7d:00:00"))
handle_inbound_a2a-Harmless_example =
    handle_inbound_a2a-Harmless surroundings box keys both (codes "02:7b7d:00:00")
      (λ q v. Quiet-refl q v) agent-IsKeyed fresh
