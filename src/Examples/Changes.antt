-- ===== src/Examples/Changes.antt =====
-- Settings, owner messages, tasks and skills of the agent of Examples.
use logos_pilot.Prelude.{
  if◌then◌else◌, ℕ, List, ◌≡◌, refl, true, false, none, some, [], ◌∷◌, ◌<◌, arith, ℕ_discrete,
}
use logos_pilot.Prelude.Int.{pos}
use logos_pilot.Text.{is_among, Text, codes, text_dec, same}
use logos_pilot.Text.Search.{starts_with}
use logos_pilot.Text.Decimal.{decimal_ℤ}
use logos_pilot.Table.{find, insert, upsert, delete}
use logos_pilot.Table.Laws.{IsKeyed}
use logos_pilot.Agent.{Pilot, entry_keyed, outbound_keyed}
use logos_pilot.Cards.Verify.{verify_card_status, card_status}
use logos_pilot.Cards.Match.{
  discovered_price_for, resolve_routing_key, matched_card, match_cards, extract_encryption_key,
}
use logos_pilot.Settings.Parse.{configure_value}
use logos_pilot.Settings.Keys.{Settings}
use logos_pilot.Settings.Written.{SameSettings}
use logos_pilot.Settings.Restart.{AllLasting, configure_all}
use logos_pilot.Settings.Identity.{Vault, create_keys, load_identity}
use logos_pilot.Settings.Reloaded.{restarted, load_identity-configure_all}
use logos_pilot.Examples.Sealed.{wire}
use logos_pilot.Owner.Verify.{
  OwnerEnvelope, strtoll, verify_unsigned, pinned_owner, last_nonce, pin_owner, raise_nonce,
  verify_nonce, verify_pinned, verify_owner_message,
}
use logos_pilot.Owner.Replay.{
  OwnerText, verify_all, verify_owner_message-no_replay, verify_owner_message-first_key,
}
use logos_pilot.Tasks.Settle.{settle_outbound_reply, after_match}
use logos_pilot.Tasks.Outbound.Submit.{agent_task, submitted_task, armed_for}
use logos_pilot.Tasks.Outbound.Cancel.{send_cancel, cancel_routed, agent_cancel}
use logos_pilot.Money.Frame.{KeepsMoney}
use logos_pilot.Money.Canceled.{agent_cancel-not_paid}
use logos_pilot.Money.Submitted.{agent_task_lem}
use logos_pilot.Registry.Skills.{Skill, returned, find_skill}
use logos_pilot.Registry.Plugins.{named_skill, null_skill, plugin, PluginFile}
use logos_pilot.Registry.Runs.{Change, registering, loading, run, replay, run-replay}
use logos_pilot.Hire.Topics.{Listener}
use logos_pilot.Hire.Listening.{listens}
use logos_pilot.Hire.Decisions.{opening, closing, hire, Sound}
use logos_pilot.Hire.Runs.{Event, call, elsewhere, event_all, undisturbed, Hired, hire-Hired}
use logos_pilot.Agent.{subscribe}
use logos_pilot.Examples.{world, agent}

abbrev defaults : Settings
defaults = record {
  has_db = true;
  per_tx = pos 100;
  per_period = pos 1000;
  period_seconds = pos 86400;
  owner_npk = [];
  owner_name = [];
  ecies_pub = [];
  ecies_priv = [];
  enc_pub = [];
  enc_priv = [];
  open_for_hire = false;
  llm_provider = [];
  llm_model = [];
  llm_for = ([], []);
  environment = [];
  config = [];
}

abbrev calls : List (Text × Text)
calls =
    (codes "spending.per_transaction_limit", codes "str:250")
    ∷ (codes "owner.npk", codes "str:ab")
    ∷ (codes "llm.provider", codes "groq")
    ∷ []

calls-AllLasting : AllLasting calls
unfolding configure_value starts_with text_dec ℕ_discrete
calls-AllLasting = (refl, (refl, (refl, tt)))

-- A start with a passphrase and one without.
abbrev vault : Vault
vault = record {
  cipher = wire.cipher;
  passphrase = codes "secret";
  salt = λ i. i ∷ [];
  iv = λ i. codes "iviviviviviv";
  key_pair = λ i. (codes "pub", codes "priv");
}

abbrev bare_vault : Vault
bare_vault = record vault { passphrase = [] }

load_identity-configure_all_example :
    (t : Settings) × (load_identity bare_vault true
        (restarted defaults (configure_all calls (create_keys vault defaults)))
      ≡ some (t, true))
    × SameSettings t (configure_all calls (create_keys vault defaults))
load_identity-configure_all_example =
    load_identity-configure_all vault bare_vault defaults calls refl refl calls-AllLasting

abbrev envelope : OwnerEnvelope
envelope = record {
  message = codes "pay rent";
  signing_key = codes "ko";
  signature = codes "sig";
  canonical = codes "{}";
  nonce = some (pos 7);
}

abbrev next_envelope : OwnerEnvelope
next_envelope = record envelope { nonce = some (pos 8) }

abbrev noise : List OwnerText
noise = record { world = world; raw = codes "hi"; envelope = none } ∷ []

abbrev owned : Pilot
owned = (verify_owner_message world agent (codes "{}") (some envelope)).0

first_accepted :
    (verify_owner_message world agent (codes "{}") (some envelope)).1 ≡ some (codes "pay rent")
first_accepted =
    verify_owner_message-first_key world agent (codes "{}") envelope 7 refl (unfold find in refl)
      (unfold find in refl) refl refl (omega arith) refl

verify_owner_message-first_key_example :
    (verify_owner_message world agent (codes "{}") (some envelope)).1 ≡ some (codes "pay rent")
verify_owner_message-first_key_example =
    verify_owner_message-first_key world agent (codes "{}") envelope 7 refl (unfold find in refl)
      (unfold find in refl) refl refl (omega arith) refl

next_accepted :
    (verify_owner_message world (verify_all noise owned) (codes "{}") (some next_envelope)).1
    ≡ some (codes "pay rent")
unfolding verify_owner_message verify_all verify_unsigned pinned_owner verify_pinned verify_nonce
    last_nonce raise_nonce pin_owner strtoll find insert upsert delete decimal_ℤ text_dec ℕ_discrete
next_accepted = refl

agent_config-IsKeyed : IsKeyed agent.config
agent_config-IsKeyed = tt

verify_owner_message-no_replay_example :
    (e : OwnerEnvelope) × (m : ℕ) × (some next_envelope ≡ some e)
    × (e.signing_key ≡ codes "ko")
    × (e.nonce ≡ some (pos m))
    × (7 < m)
verify_owner_message-no_replay_example =
    verify_owner_message-no_replay world world agent (codes "{}") (codes "{}") (codes "pay rent")
      (codes "pay rent") envelope 7 noise (some next_envelope) refl agent_config-IsKeyed refl
      (omega arith) first_accepted (tt, tt) (omega arith) next_accepted

cancel_accepted : (agent_cancel world agent (codes "carol") (codes "o1") (codes "{}")).1 ≡ true
unfolding agent_cancel cancel_routed send_cancel resolve_routing_key matched_card match_cards
    extract_encryption_key verify_card_status card_status find insert text_dec ℕ_discrete
cancel_accepted = refl

agent_cancel-not_paid_example :
    KeepsMoney agent (agent_cancel world agent (codes "carol") (codes "o1") (codes "{}")).0
    × (settle_outbound_reply world
          (agent_cancel world agent (codes "carol") (codes "o1") (codes "{}")).0
          (codes "o1")
          (codes "completed")
        ≡ (agent_cancel world agent (codes "carol") (codes "o1") (codes "{}")).0)
agent_cancel-not_paid_example =
    agent_cancel-not_paid world world agent (codes "carol") (codes "o1") (codes "{}") refl
      cancel_accepted

new_is_free : find (codes "new") agent.outbound ≡ none
unfolding find text_dec ℕ_discrete
new_is_free = refl

agent_task_lem_example :
    KeepsMoney agent (agent_task world agent (codes "carol") (codes "agent-ask") (codes "{}")).0
    × ((k : Text)
        → find k
            (agent_task world agent (codes "carol") (codes "agent-ask") (codes "{}")).0.outbound
          ≡ (if same (codes "new") k
              then some (
                  submitted_task
                    (codes "new")
                    (codes "carol")
                    (codes "agent-ask")
                    (discovered_price_for world
                      (armed_for world agent)
                      (codes "carol")
                      (codes "agent-ask")).1
                    ((after_match agent world).clock 0))
              else find k agent.outbound))
agent_task_lem_example =
    agent_task_lem world agent (codes "carol") (codes "agent-ask") (codes "{}") refl refl
      new_is_free

abbrev ping : Skill
ping = record {
  name = codes "ping";
  category = codes "meta";
  description = [];
  price_lez = pos 0;
  execute = λ args. returned (codes "pong");
}

abbrev plugin_file : PluginFile
plugin_file = record {
  is_library = true;
  root =
      plugin 1
        (null_skill ∷ named_skill ping ∷ named_skill (record ping { name = codes "extra" }) ∷ []);
}

abbrev changes : List Change
changes = registering ping ∷ loading (some (codes " Yes ")) (some (plugin_file ∷ [])) ∷ []

run-replay_example :
    find_skill (codes "extra") (run changes [])
    ≡ replay changes (λ n. find_skill n []) (codes "extra")
run-replay_example = run-replay changes [] (codes "extra")

-- An agent before it was ever opened.
abbrev listener : Listener
listener = record {
  has_db = true;
  enc_pub = codes "ke";
  ecies_pub = codes "ks";
  open_for_hire = false;
  subscribed = [];
  config = [];
  log = [];
}

-- The inbox of the agent's identity, where orders arrive.
abbrev inbox : Text
inbox = codes "/pilot/1/inbox-ke/proto"

listener-Sound : Sound inbox listener
unfolding listens is_among
listener-Sound = record { has_db = refl; keyed = tt; tracks = refl }

abbrev hire_events : List Event
hire_events =
    call opening true
    ∷ elsewhere (subscribe (codes "/pilot/1/group-g1/proto"))
    ∷ call closing false
    ∷ call opening true
    ∷ []

only_hired : undisturbed inbox hire_events ≡ true
unfolding undisturbed text_dec ℕ_discrete
only_hired = refl

hire-Hired_example : Hired inbox false (hire closing true (event_all hire_events listener))
hire-Hired_example = hire-Hired inbox hire_events closing listener only_hired listener-Sound
