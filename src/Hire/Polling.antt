-- ===== src/Hire/Polling.antt =====
-- agentPollTopics (pilot-module/src/pilot_a2a.cpp): the topics that the store is asked for.
use logos_pilot.Prelude.{
  ◌≡◌, true, List, [], ◌∷◌, ◌++◌, ◌&&◌, ◌||◌, not, arith, if_cases, if◌then◌else◌,
}
use logos_pilot.Text.{Text, is_empty, same, same-eq, is_among}
use logos_pilot.Agent.{OutboundTask}
use logos_pilot.Agent.States.{is_undecided}
use logos_pilot.Messaging.Mailbox.{Group}
use logos_pilot.Hire.Topics.{Listener, identity_topics, discovery_topic}
use logos_pilot.Hire.Listening.{is_among-append}

-- `add` of the code: a topic goes to the end, unless it is empty or there.
abbrev pub add_topic : List Text → Text → List Text
add_topic topics t = if is_empty t || is_among t topics then topics else topics ++ t ∷ []

unfoldable pub add_topics : List Text → List Text → List Text
unfolding is_among
add_topics topics [] = topics
add_topics topics (t ∷ ts) = add_topics (add_topic topics t) ts

-- The reply topics of the rows whose state is 'submitted' or 'settling'.
unfoldable pub awaited_topics : List OutboundTask → List Text
awaited_topics [] = []
awaited_topics (r ∷ rs) =
    let rest = awaited_topics rs in if is_undecided r.state then r.reply_topic ∷ rest else rest

unfoldable pub joined_topics : List Group → List Text
joined_topics [] = []
joined_topics (g ∷ gs) = let rest = joined_topics gs in if g.joined then g.topic ∷ rest else rest

-- The tables and the owner's channel are read beside the fields of the listener.
unfoldable pub agent_poll_topics : Listener → Text → List OutboundTask → List Group → List Text
unfolding add_topics awaited_topics joined_topics
agent_poll_topics l owner_channel outbound groups =
    let fixed = add_topics (identity_topics l) (discovery_topic ∷ owner_channel ∷ []) in
    if not l.has_db
    then fixed
    else add_topics (add_topics fixed (awaited_topics outbound)) (joined_topics groups)

is_among-add_topic :
    (t x : Text) (topics : List Text)
    → is_among t (add_topic topics x) ≡ (is_among t topics || (same t x && not (is_empty t)))
unfolding is_among
is_among-add_topic t x topics = ground (arith, is_among-append t topics (x ∷ []), same-eq t x)

is_among-add_topics :
    (t : Text) (topics ts : List Text)
    → is_among t (add_topics topics ts) ≡ (is_among t topics || (is_among t ts && not (is_empty t)))
unfolding add_topics is_among
is_among-add_topics t topics [] = ground arith
is_among-add_topics t topics (x ∷ ts) =
    ground (arith, is_among-add_topics t (add_topic topics x) ts, is_among-add_topic t x topics)

-- The discovery channel is always among the topics of the identity.
discovery_first :
    (t : Text) (l : Listener)
    → (is_among t (identity_topics l) || same t discovery_topic) ≡ is_among t (identity_topics l)
unfolding identity_topics is_among
discovery_first t l = ground arith

fixed_topics :
    (t owner_channel : Text) (l : Listener)
    → is_among t (add_topics (identity_topics l) (discovery_topic ∷ owner_channel ∷ []))
      ≡ (is_among t (identity_topics l) || (same t owner_channel && not (is_empty t)))
unfolding is_among
fixed_topics t owner_channel l = ground (
  arith,
  is_among-add_topics t (identity_topics l) (discovery_topic ∷ owner_channel ∷ []),
  discovery_first t l,
)

-- With a database the store is asked for the topics of the identity, the owner's channel, the reply
-- topics of the tasks that are submitted or settling, and the topics of the joined groups, where not
-- empty, and for no other.
pub agent_poll_topics_lem :
    (l : Listener) (owner_channel : Text) (outbound : List OutboundTask) (groups : List Group)
    (t : Text)
    → l.has_db ≡ true
    → is_among t (agent_poll_topics l owner_channel outbound groups) ≡ (
        is_among t (identity_topics l)
        || ((same t owner_channel
              || (is_among t (awaited_topics outbound) || is_among t (joined_topics groups)))
            && not (is_empty t)))
unfolding agent_poll_topics
agent_poll_topics_lem l owner_channel outbound groups t db =
    let fixed = add_topics (identity_topics l) (discovery_topic ∷ owner_channel ∷ []) in
    let waited = add_topics fixed (awaited_topics outbound) in
    if_cases
      (λ ts. is_among t ts ≡ (
        is_among t (identity_topics l)
        || ((same t owner_channel
              || (is_among t (awaited_topics outbound) || is_among t (joined_topics groups)))
            && not (is_empty t))))
      (not l.has_db) (λ f. absurd (ground arith))
      (λ _. ground (
        arith,
        is_among-add_topics t waited (joined_topics groups),
        is_among-add_topics t fixed (awaited_topics outbound),
        fixed_topics t owner_channel l,
      ))
