-- ===== src/Hire/Topics.antt =====
-- identityTopics and subscribeIdentityTopics (pilot-module/src/pilot_impl.cpp), agentOpenForHire and
-- agentCloseForHire (pilot-module/src/pilot_a2a.cpp). The subscriptions are not waited for, so their
-- results are not read. initDeliveryModule, which starts the delivery module, changes nothing of this
-- state.
use logos_pilot.Prelude.{Bool, true, false, List, [], ◌∷◌, ◌++◌, ◌||◌, not, if◌then◌else◌}
use logos_pilot.Text.{Text, codes, is_empty, same, is_among}
use logos_pilot.Table.{upsert}
use logos_pilot.Agent.{Entry, entry_keyed, Effect, subscribe, unsubscribe}

-- The fields of PilotImpl that the functions read and write; `log` is the calls made so far, the
-- newest first.
pub record Listener : Type 0 where
  pub has_db : Bool
  pub enc_pub : Text
  pub ecies_pub : Text
  pub open_for_hire : Bool
  pub subscribed : List Text
  pub config : List Entry
  pub log : List Effect

-- a2aSelfEncKey
abbrev pub listener_key : Listener → Text
listener_key l = if is_empty l.enc_pub then l.ecies_pub else l.enc_pub

abbrev pub discovery_topic : Text
discovery_topic = codes "/pilot/1/discovery/proto"

abbrev pub inbox_named : Text → Text
inbox_named key = codes "/pilot/1/inbox-" ++ (key ++ codes "/proto")

-- The inbox of the signing key, if it is another than that of the encryption key.
abbrev pub legacy_inbox : Listener → List Text
legacy_inbox l =
    if is_empty l.ecies_pub || same l.ecies_pub (listener_key l)
    then []
    else inbox_named l.ecies_pub ∷ []

abbrev pub inboxes : Listener → List Text
inboxes l =
    if is_empty (listener_key l)
    then legacy_inbox l
    else inbox_named (listener_key l) ∷ legacy_inbox l

unfoldable pub identity_topics : Listener → List Text
identity_topics l = discovery_topic ∷ (if not l.open_for_hire then [] else inboxes l)

abbrev pub subscribe_one : Text → Listener → Listener
subscribe_one topic l =
    if is_among topic l.subscribed
    then l
    else record l { subscribed = l.subscribed ++ topic ∷ []; log = subscribe topic ∷ l.log }

unfoldable pub subscribe_wanted : List Text → Listener → Listener
unfolding is_among
subscribe_wanted [] l = l
subscribe_wanted (topic ∷ topics) l = subscribe_wanted topics (subscribe_one topic l)

unfoldable pub keep_wanted : List Text → List Text → List Text
keep_wanted want [] = []
keep_wanted want (topic ∷ topics) =
    let rest = keep_wanted want topics in if is_among topic want then topic ∷ rest else rest

unfoldable pub unsubscribe_calls : List Text → List Text → List Effect → List Effect
unsubscribe_calls want [] log = log
unsubscribe_calls want (topic ∷ topics) log =
    unsubscribe_calls want topics (if is_among topic want then log else unsubscribe topic ∷ log)

unfoldable pub drop_unwanted : List Text → Listener → Listener
unfolding keep_wanted unsubscribe_calls
drop_unwanted want l = record l {
  subscribed = keep_wanted want l.subscribed;
  log = unsubscribe_calls want l.subscribed l.log;
}

unfoldable pub subscribe_identity_topics : Bool → Listener → Listener
unfolding identity_topics subscribe_wanted drop_unwanted
subscribe_identity_topics context_ready l =
    if not context_ready
    then l
    else drop_unwanted (identity_topics l) (subscribe_wanted (identity_topics l) l)

abbrev pub hire_row : Text
hire_row = codes "a2a.open_for_hire"

abbrev pub hire_value : Bool → Text
hire_value hired = if hired then codes "1" else codes "0"

unfoldable pub persist_open_for_hire : Bool → Listener → Listener × Bool
persist_open_for_hire hired l = if not l.has_db then (l, false) else (
  record l { config = upsert (record { name = hire_row; value = hire_value hired }) l.config },
  true,
)

-- The rest of agentOpenForHire once the decision is written, and its early return where it is not.
unfoldable pub after_persist : Bool → Listener × Bool → Listener × Bool
unfolding subscribe_identity_topics
after_persist context_ready (l, false) = (l, false)
after_persist context_ready (l, true) = (subscribe_identity_topics context_ready l, true)

unfoldable pub agent_open_for_hire : Bool → Listener → Listener × Bool
unfolding after_persist persist_open_for_hire
agent_open_for_hire context_ready l =
    if not l.has_db
    then (l, false)
    else after_persist context_ready
        (persist_open_for_hire true (record l { open_for_hire = true }))

unfoldable pub agent_close_for_hire : Bool → Listener → Listener × Bool
unfolding subscribe_identity_topics persist_open_for_hire
agent_close_for_hire context_ready l =
    if not l.has_db
    then (l, false)
    else persist_open_for_hire false
        (subscribe_identity_topics context_ready (record l { open_for_hire = false }))
