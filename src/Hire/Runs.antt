-- ===== src/Hire/Runs.antt =====
-- Sequences of agentOpenForHire and agentCloseForHire, between calls of other parts of the agent.
use logos_pilot.Prelude.{◌≡◌, refl, ◌∙◌, Bool, true, false, some, List, [], ◌∷◌, not, ◌&&◌, arith}
use logos_pilot.Text.{Text, same, is_among}
use logos_pilot.Table.{find}
use logos_pilot.Agent.{
  entry_keyed, Effect, deliver, subscribe, unsubscribe, sync_to_block, transfer,
}
use logos_pilot.Hire.Topics.{Listener, identity_topics, hire_row}
use logos_pilot.Hire.Listening.{listens}
use logos_pilot.Hire.Decisions.{Hire, is_opening, hire, row_of, Sound, hire-Decided}

-- What happens to the listener: a call, with whether the context is ready, or a call to the messaging
-- layer by another part of the agent (a group, the replies to a task).
pub data Event : Type 0 where
  call : Hire → Bool → Event
  elsewhere : Effect → Event

unfoldable pub event : Event → Listener → Listener
unfolding hire
event (call h ready) l = (hire h ready l).0
event (elsewhere e) l = record l { log = e ∷ l.log }

unfoldable pub event_all : List Event → Listener → Listener
unfolding event
event_all [] l = l
event_all (e ∷ es) l = event_all es (event e l)

-- Whether an effect subscribes to a topic or ends the subscription.
unfoldable pub concerns : Text → Effect → Bool
concerns t (subscribe u) = same t u
concerns t (unsubscribe u) = same t u
concerns t (deliver u payload) = false
concerns t (sync_to_block n) = false
concerns t (transfer c) = false

-- No other part of the agent subscribes to the topic or ends its subscription.
unfoldable pub undisturbed : Text → List Event → Bool
unfolding concerns
undisturbed t [] = true
undisturbed t (call h ready ∷ es) = undisturbed t es
undisturbed t (elsewhere e ∷ es) = not (concerns t e) && undisturbed t es

listens-elsewhere :
    (t : Text) (e : Effect) (log : List Effect)
    → concerns t e ≡ false
    → listens t (e ∷ log) ≡ listens t log
unfolding listens concerns
listens-elsewhere t (subscribe u) log h = ground (arith, h)
listens-elsewhere t (unsubscribe u) log h = ground (arith, h)
listens-elsewhere t (deliver u payload) log h = refl
listens-elsewhere t (sync_to_block n) log h = refl
listens-elsewhere t (transfer c) log h = refl

elsewhere-Sound :
    (t : Text) (e : Effect) (l : Listener)
    → concerns t e ≡ false
    → Sound t l
    → Sound t (event (elsewhere e) l)
unfolding event
elsewhere-Sound t e l other v = record {
  has_db = v.has_db;
  keyed = v.keyed;
  tracks = listens-elsewhere t e l.log other ∙ v.tracks;
}

event_all-Sound :
    (t : Text) (es : List Event) (l : Listener)
    → undisturbed t es ≡ true
    → Sound t l
    → Sound t (event_all es l)
unfolding event_all undisturbed
event_all-Sound t [] l other v = v
event_all-Sound t (call h ready ∷ es) l other v =
    event_all-Sound t es (event (call h ready) l) other
      (unfold event in (hire-Decided t h ready l v).sound)
event_all-Sound t (elsewhere e ∷ es) l other v =
    event_all-Sound t es (event (elsewhere e) l) (ground (arith, other))
      (elsewhere-Sound t e l (ground (arith, other)) v)

-- A decision that is kept in memory and in the table, and an agent that is subscribed to this topic,
-- by all calls it made, exactly if it is a topic of its identity.
pub record Hired (t : Text) (hired : Bool) (r : Listener × Bool) : Type 0 where
  pub answer : r.1 ≡ true
  pub flag : r.0.open_for_hire ≡ hired
  pub row : find hire_row r.0.config ≡ some (row_of hired)
  pub listening : listens t r.0.log ≡ is_among t (identity_topics r.0)

-- Take any topic of which the list of subscriptions says at first what the calls so far left, and any
-- openings and closings, with the context ready or not, between calls to the messaging layer by other
-- parts of the agent, none of which subscribes to that topic or ends its subscription. A further
-- opening or closing with the context ready succeeds; its decision is in memory and in the table, and
-- the agent is subscribed to that topic, by all the calls it made, exactly if identityTopics lists it
-- by that decision. The database is open and the keys of its config table differ.
pub hire-Hired :
    (t : Text) (es : List Event) (h : Hire) (l : Listener)
    → undisturbed t es ≡ true
    → Sound t l
    → Hired t (is_opening h) (hire h true (event_all es l))
hire-Hired t es h l other v =
    let d = hire-Decided t h true (event_all es l) (event_all-Sound t es l other v) in
    record { answer = d.answer; flag = d.flag; row = d.row; listening = d.listening refl }
