-- ===== src/Examples.antt =====
-- The properties at concrete inputs: a small agent, its world, and what peers send it.
pub mod Spends
pub mod Peers
pub mod Changes
pub mod Sealed
pub mod Files
pub mod Arrivals
use logos_pilot.Prelude.{
  ℕ, ℕ_discrete, ◌+◌, ◌≤◌, ◌≡◌, refl, inl, inr, Bool, true, false, Option, none, some, List, [],
  ◌∷◌, arith, ◌++◌,
}
use logos_pilot.Prelude.Int.{ℤ, pos, negsuc}
use logos_pilot.Text.{Text, codes, text_dec, text_lt}
use logos_pilot.Text.Decimal.{decimal, decimal_ℤ}
use logos_pilot.Table.{find, insert, update, any_row, set_at}
use logos_pilot.Agent.{
  Pilot, Spend, InboundTask, OutboundTask, Card, Discovered, Pin, spend_keyed, inbound_keyed,
  outbound_keyed, pin_keyed, discovered_keyed,
}
use logos_pilot.Agent.States.{SpendState, InboundState, OutboundState}
use logos_pilot.Agent.World.{World, WalletReply, later}

abbrev pub wallet_reply : WalletReply
wallet_reply = record { success = true; tx_hash = codes "cafe"; error = [] }

abbrev pub world : World
world = record {
  context_ready = true;
  clock = λ i. 1700000000 + i;
  generated_id = codes "new";
  transfer_private = λ from to amount. codes "ok";
  transfer_private_owned = λ from to amount. codes "ok";
  transfer_public = λ from to amount. codes "ok";
  read_reply = λ s. some wallet_reply;
  block_height = some 7;
  tx_timeout_env = pos 0;
  encrypt = λ key plain. some plain;
  verify_signature = λ message signature key. true;
  viewing_key_of = λ address. none;
  status_note = λ id state detail. id;
  sign_reply = λ json. json;
  send_accepted = λ i. true;
}

-- A world in which no signature verifies.
abbrev pub forged_world : World
forged_world = record world { verify_signature = λ message signature key. false }

abbrev pub held_spend : Spend
held_spend = record {
  id = codes "s1";
  recipient = codes "bob";
  amount = pos 40;
  reason = codes "rent";
  state = SpendState.held;
  created_at = 1699999000;
  updated_at = 1699999000;
  expires_at = 1700002600;
  tx_hash = [];
  error = [];
}

abbrev pub peer_task : InboundTask
peer_task = record {
  id = codes "t1";
  sender_npk = codes "alice";
  sender_ecies = codes "ka";
  reply_topic = codes "topic";
  skill = codes "ping";
  params_json = [];
  state = InboundState.completed;
  spend_request_id = [];
  result_json = [];
  created_at = 1699999000;
  updated_at = 1699999000;
}

abbrev pub own_task : OutboundTask
own_task = record {
  id = codes "o1";
  agent_address = codes "carol";
  skill = codes "agent-ask";
  price = pos 5;
  reply_topic = codes "reply";
  state = OutboundState.submitted;
  payout = [];
  spend_request_id = [];
  created_at = 1699999000;
  updated_at = 1699999000;
}

abbrev pub carol : Card
carol = record {
  has_signature = true;
  sig_public_key = codes "kc";
  sig_value = codes "sig";
  npk = codes "carol";
  signing_key = codes "kc";
  enc_key = codes "ec";
  payout = codes "carol";
  pricing = (codes "agent-ask", pos 5) ∷ [];
  canonical = codes "card";
}

-- The same identity without a signature.
abbrev pub unsigned_carol : Card
unsigned_carol = record carol { has_signature = false }

abbrev pub carol_row : Discovered
carol_row = record { npk = codes "carol"; card = carol; topic = codes "d"; last_seen = 1 }

abbrev pub agent : Pilot
agent = record {
  has_db = true;
  agent_account_id = codes "acct";
  agent_npk = codes "me";
  owner_npk = codes "owner";
  owner_channel_id = codes "chan";
  spend_limit_per_tx = pos 100;
  spend_limit_per_period = pos 500;
  spend_period_seconds = pos 86400;
  spends = held_spend ∷ [];
  inbound = peer_task ∷ [];
  outbound = own_task ∷ [];
  request_pins = [];
  card_pins = [];
  discovered = carol_row ∷ [];
  config = [];
  log = [];
}
