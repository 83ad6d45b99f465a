-- ===== src/Examples/Peers.antt =====
-- The cards, replies and requests that reach the agent of Examples.
use logos_pilot.Prelude.{List, ◌∷◌, ℕ_discrete, ◌≡◌, refl, true, false, none, some, [], arith}
use logos_pilot.Prelude.Int.{pos}
use logos_pilot.Text.{Text, is_empty, codes, text_dec}
use logos_pilot.Table.{find, insert}
use logos_pilot.Table.Laws.{IsKeyed}
use logos_pilot.Agent.{
  Pilot, Card, Pin, spend_keyed, inbound_keyed, outbound_keyed, pin_keyed, discovered_keyed,
}
use logos_pilot.Agent.States.{OutboundState, SpendState, InboundState}
use logos_pilot.Cards.Verify.{new_pin, verify_card_status, card_status, is_valid}
use logos_pilot.Cards.Match.{
  discovered_payout_for, matched_card, match_cards, extract_encryption_key,
}
use logos_pilot.Cards.Arriving.{CardArrival, broadcast, file, arrive_all}
use logos_pilot.Cards.Genuine.{Genuine}
use logos_pilot.Cards.Genuine.Arrivals.{arrive_all-Genuine}
use logos_pilot.Cards.Pinning.{
  discovered_payout_for-bound, verify_card_status-no_impostor, matched_card-Matches, Matches,
}
use logos_pilot.Tasks.Linked.{inbound_task_set_state}
use logos_pilot.Tasks.Settle.{Reply, settle_outbound_reply, verify_and_settle_reply}
use logos_pilot.Tasks.Inbound.Request.{Env, Request, ResultJson}
use logos_pilot.Tasks.Inbound.Process.{process_inbound_request}
use logos_pilot.Tasks.Inbound.Outsiders.{
  Message, process_all, all_outsiders, AllRefused, process_all-Refused,
}
use logos_pilot.Tasks.Inbound.Ownership.{inbound_task_set_state-terminal}
use logos_pilot.Money.Frame.{transfers}
use logos_pilot.Money.Quiet.{Quiet-refl}
use logos_pilot.Money.Inbound.{process_inbound_request-never_pays}
use logos_pilot.Money.Cards.{OnlyPins}
use logos_pilot.Money.Payments.{settle_completed-once, verify_and_settle_reply-forged}
use logos_pilot.Tasks.Inbound.Authenticate.{Envelope, verify_inbound_request}
use logos_pilot.Tasks.Inbound.Senders.{verify_inbound_request-one_key}
use logos_pilot.Tasks.Recover.{outbound_tasks_recover}
use logos_pilot.Money.Prices.{PaysNothing, settle_outbound_reply-over_limit}
use logos_pilot.Money.Restart.{Traced, outbound_tasks_recover-paid}
use logos_pilot.Examples.{
  held_spend, own_task, world, forged_world, agent, carol, unsigned_carol, carol_row, peer_task,
}

settle_completed-once_example :
    settle_outbound_reply world
      (settle_outbound_reply world agent (codes "o1") (codes "completed"))
      (codes "o1")
      (codes "completed")
    ≡ settle_outbound_reply world agent (codes "o1") (codes "completed")
settle_completed-once_example = settle_completed-once world world agent (codes "o1")

abbrev reply : Reply
reply = record {
  result_state = codes "completed";
  params_state = [];
  result_id = codes "o1";
  params_id = [];
  signature = codes "sig";
  canonical = codes "{}";
}

verify_and_settle_reply-forged_example :
    OnlyPins agent (verify_and_settle_reply forged_world agent (codes "o1") (some reply))
verify_and_settle_reply-forged_example =
    verify_and_settle_reply-forged forged_world agent (codes "o1") reply (ground arith)

abbrev pub env : Env
env = record {
  dispatch = λ name args. codes "{}";
  card = codes "{}";
  pong = λ now. codes "pong";
  object_of = λ s. s;
  read_result = λ s. ResultJson.opaque;
  newest_first = λ rows. rows;
  meanwhile = λ p. p;
}

abbrev pub wallet_request : Request
wallet_request = record {
  id = codes "1";
  method = codes "tasks/send";
  task_id = codes "t2";
  skill = codes "wallet-send";
  sender_npk = codes "mallory";
  sender_ecies = codes "km";
  reply_topic = codes "topic";
  params_json = codes "{}";
  args_json = codes "{}";
  amount = pos 1;
  recipient = codes "mallory";
  reason = [];
}

abbrev cancel_request : Request
cancel_request = record wallet_request { method = codes "tasks/cancel"; task_id = codes "t1" }

pub agent-IsKeyed : IsKeyed agent.spends
unfolding find
agent-IsKeyed = ground arith

pub fresh : find (codes "new") agent.spends ≡ none
unfolding find text_dec ℕ_discrete
fresh = refl

process_inbound_request-never_pays_example :
    transfers
      (process_inbound_request world env agent (some wallet_request) (codes "mallory") false).0.log
    ≡ transfers agent.log
process_inbound_request-never_pays_example =
    process_inbound_request-never_pays world env agent (some wallet_request) (codes "mallory") false
      (λ q v. Quiet-refl q v) agent-IsKeyed fresh

task_found : find (codes "t1") agent.inbound ≡ some peer_task
unfolding find text_dec ℕ_discrete
task_found = refl

abbrev message_of : Text → Request → Message
message_of npk r = record {
  world = world;
  env = env;
  request = r;
  npk = npk;
  first_contact = false;
}

-- A cancel and a repetition of the task by one stranger, and a cancel of another task by a second one.
abbrev strangers : List Message
strangers =
    message_of (codes "mallory") cancel_request
    ∷ message_of (codes "mallory") (record cancel_request { method = codes "tasks/send" })
    ∷ message_of (codes "eve") (record cancel_request { task_id = codes "t9" })
    ∷ []

all_strangers : all_outsiders (codes "t1") peer_task.sender_npk strangers ≡ true
unfolding text_dec ℕ_discrete
all_strangers = refl

process_all-Refused_example :
    (find (codes "t1") (process_all strangers agent).0.inbound ≡ some peer_task)
    × AllRefused (codes "t1") strangers (process_all strangers agent).1
process_all-Refused_example =
    process_all-Refused (codes "t1") peer_task strangers agent refl task_found refl all_strangers

inbound_task_set_state-terminal_example :
    find
      (codes "t1")
      (inbound_task_set_state world agent (codes "t1") InboundState.canceled []).inbound
    ≡ some peer_task
inbound_task_set_state-terminal_example =
    inbound_task_set_state-terminal world agent (codes "t1") (codes "t1") InboundState.canceled []
      peer_task task_found refl

carol_valid : is_valid (verify_card_status world agent carol).1 ≡ true
unfolding verify_card_status card_status find insert text_dec ℕ_discrete
carol_valid = refl

-- Carol's next card, with other prices.
abbrev newer_carol : Card
newer_carol = record carol { pricing = []; canonical = codes "newer" }

newer_valid :
    is_valid (verify_card_status world (verify_card_status world agent carol).0 newer_carol).1
    ≡ true
unfolding verify_card_status card_status find insert text_dec ℕ_discrete
newer_valid = refl

verify_card_status-no_impostor_example : newer_carol.signing_key ≡ carol.signing_key
verify_card_status-no_impostor_example =
    verify_card_status-no_impostor world world agent carol newer_carol refl refl refl carol_valid
      newer_valid

carol_matched : (matched_card world agent (codes "carol")).1 ≡ some carol
unfolding matched_card match_cards extract_encryption_key verify_card_status card_status find insert
    text_dec ℕ_discrete
carol_matched = refl

matched_card-Matches_example :
    Matches world (extract_encryption_key world (codes "carol")) agent.discovered carol
matched_card-Matches_example = matched_card-Matches world agent (codes "carol") carol carol_matched

abbrev carol_pin : Pin
carol_pin = new_pin world (codes "carol") (codes "kc")

abbrev pinned_agent : Pilot
pinned_agent = record agent { card_pins = carol_pin ∷ agent.card_pins }

-- Forged cards of carol, without a signature and with another key, and a card of somebody else.
abbrev card_arrivals : List CardArrival
card_arrivals =
    broadcast world (λ c. []) (codes "{}") (some unsigned_carol)
    ∷ file world world
        (some (record carol { sig_public_key = codes "km"; signing_key = codes "km" }))
    ∷ file world world (some (record carol { npk = codes "dave" }))
    ∷ []

carol_Genuine : Genuine world (codes "carol") carol_pin pinned_agent
unfolding find card_status text_dec ℕ_discrete
carol_Genuine = record {
  keyed = (refl, tt);
  pinned = refl;
  row = carol_row;
  on_file = refl;
  named = refl;
  signed_by = refl;
  authentic = refl;
}

arrive_all-Genuine_example :
    Genuine world (codes "carol") carol_pin (arrive_all card_arrivals pinned_agent)
arrive_all-Genuine_example =
    arrive_all-Genuine world (codes "carol") carol_pin card_arrivals pinned_agent refl
      (refl, (refl, (refl, tt))) carol_Genuine

abbrev first_envelope : Envelope
first_envelope = record {
  signing_key = codes "ka";
  signature = codes "sig";
  sender_npk = codes "alice";
  canonical = codes "1";
}

abbrev second_envelope : Envelope
second_envelope = record first_envelope { canonical = codes "2" }

first_accepted : (verify_inbound_request world agent first_envelope).1.accepted ≡ true
unfolding verify_inbound_request find insert text_dec ℕ_discrete
first_accepted = refl

second_accepted :
    (verify_inbound_request world
      (verify_inbound_request world agent first_envelope).0
      second_envelope).1.accepted
    ≡ true
unfolding verify_inbound_request find insert text_dec ℕ_discrete
second_accepted = refl

verify_inbound_request-one_key_example :
    (second_envelope.signing_key ≡ first_envelope.signing_key)
    × ((verify_inbound_request world
          (verify_inbound_request world agent first_envelope).0
          second_envelope).1.first_contact
        ≡ false)
verify_inbound_request-one_key_example =
    verify_inbound_request-one_key world world agent first_envelope second_envelope refl refl refl
      first_accepted second_accepted

-- The agent stopped after the payment for its task and before the task was marked.
abbrev stopped_agent : Pilot
stopped_agent = record agent {
  spends = record held_spend { state = SpendState.completed } ∷ [];
  outbound = record own_task { state = OutboundState.settling; spend_request_id = codes "s1" } ∷ [];
}

stopped_agent-IsKeyed : IsKeyed stopped_agent.outbound
unfolding find
stopped_agent-IsKeyed = ground arith

outbound_tasks_recover-paid_example :
    Traced stopped_agent.spends stopped_agent.outbound
      (outbound_tasks_recover world stopped_agent).outbound
outbound_tasks_recover-paid_example =
    outbound_tasks_recover-paid world stopped_agent stopped_agent-IsKeyed

payout_found : is_empty (discovered_payout_for world agent (codes "carol")).1 ≡ false
unfolding discovered_payout_for matched_card match_cards extract_encryption_key verify_card_status
    card_status find insert text_dec ℕ_discrete
payout_found = refl

discovered_payout_for-bound_example :
    (c : Card) × (Matches world (extract_encryption_key world (codes "carol")) agent.discovered c
      × ((discovered_payout_for world agent (codes "carol")).1 ≡ c.npk))
discovered_payout_for-bound_example =
    discovered_payout_for-bound world agent (codes "carol") payout_found

abbrev frugal_agent : Pilot
frugal_agent = record agent { spend_limit_per_tx = pos 4 }

own_task_found : find (codes "o1") frugal_agent.outbound ≡ some own_task
unfolding find text_dec ℕ_discrete
own_task_found = refl

settle_outbound_reply-over_limit_example :
    PaysNothing frugal_agent
      (settle_outbound_reply world frugal_agent (codes "o1") (codes "completed"))
settle_outbound_reply-over_limit_example =
    settle_outbound_reply-over_limit world frugal_agent (codes "o1") (codes "completed") own_task
      own_task_found refl
