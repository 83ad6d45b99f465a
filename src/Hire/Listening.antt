-- ===== src/Hire/Listening.antt =====
-- Where the agent listens after it is opened and closed for hire.
use logos_pilot.Prelude.{
  ◌≡◌, refl, Bool, true, false, List, [], ◌∷◌, ◌++◌, ◌&&◌, ◌||◌, not, arith, if◌then◌else◌,
}
use logos_pilot.Text.{Text, same, same-eq, is_among}
use logos_pilot.Agent.{
  entry_keyed, Effect, deliver, subscribe, unsubscribe, sync_to_block, transfer,
}
use logos_pilot.Hire.Topics.{
  Listener, identity_topics, subscribe_one, subscribe_wanted, keep_wanted, unsubscribe_calls,
  drop_unwanted,
}

-- Whether the calls leave a topic subscribed.
unfoldable pub listens : Text → List Effect → Bool
listens t [] = false
listens t (subscribe u ∷ log) = let before = listens t log in if same t u then true else before
listens t (unsubscribe u ∷ log) = let before = listens t log in if same t u then false else before
listens t (deliver u payload ∷ log) = listens t log
listens t (sync_to_block n ∷ log) = listens t log
listens t (transfer c ∷ log) = listens t log

pub is_among-append :
    (t : Text) (xs ys : List Text) → is_among t (xs ++ ys) ≡ (is_among t xs || is_among t ys)
unfolding is_among
is_among-append t [] ys = refl
is_among-append t (x ∷ xs) ys = ground (arith, is_among-append t xs ys)

-- The list of subscriptions says of a topic what the calls leave.
abbrev pub Tracks : Text → Listener → Type 0
Tracks t l = listens t l.log ≡ is_among t l.subscribed

subscribe_one-Tracks :
    (t topic : Text) (l : Listener) → Tracks t l → Tracks t (subscribe_one topic l)
unfolding listens is_among
subscribe_one-Tracks t topic l h = ground (arith, h, is_among-append t l.subscribed (topic ∷ []))

pub subscribe_wanted-Tracks :
    (t : Text) (topics : List Text) (l : Listener)
    → Tracks t l
    → Tracks t (subscribe_wanted topics l)
unfolding subscribe_wanted
subscribe_wanted-Tracks t [] l h = h
subscribe_wanted-Tracks t (topic ∷ topics) l h =
    subscribe_wanted-Tracks t topics (subscribe_one topic l) (subscribe_one-Tracks t topic l h)

subscribe_one-subscribed :
    (t topic : Text) (l : Listener)
    → is_among t (subscribe_one topic l).subscribed ≡ (is_among t l.subscribed || same t topic)
unfolding is_among
subscribe_one-subscribed t topic l =
    ground (arith, is_among-append t l.subscribed (topic ∷ []), same-eq t topic)

subscribe_wanted-subscribed :
    (t : Text) (topics : List Text) (l : Listener)
    → is_among t (subscribe_wanted topics l).subscribed
      ≡ (is_among t l.subscribed || is_among t topics)
unfolding subscribe_wanted is_among
subscribe_wanted-subscribed t [] l = ground arith
subscribe_wanted-subscribed t (topic ∷ topics) l = ground (
  arith,
  subscribe_wanted-subscribed t topics (subscribe_one topic l),
  subscribe_one-subscribed t topic l,
)

is_among-keep_wanted :
    (t : Text) (want ts : List Text)
    → is_among t (keep_wanted want ts) ≡ (is_among t ts && is_among t want)
unfolding keep_wanted is_among
is_among-keep_wanted t want [] = refl
is_among-keep_wanted t want (x ∷ ts) = ground (arith, is_among-keep_wanted t want ts, same-eq t x)

listens-unsubscribe_calls :
    (t : Text) (want ts : List Text) (log : List Effect)
    → listens t (unsubscribe_calls want ts log)
      ≡ (listens t log && (is_among t want || not (is_among t ts)))
unfolding unsubscribe_calls listens is_among
listens-unsubscribe_calls t want [] log = ground arith
listens-unsubscribe_calls t want (x ∷ ts) log = ground (
  arith,
  listens-unsubscribe_calls t want ts (if is_among x want then log else unsubscribe x ∷ log),
  same-eq t x,
)

pub drop_unwanted-Tracks :
    (t : Text) (want : List Text) (l : Listener) → Tracks t l → Tracks t (drop_unwanted want l)
unfolding drop_unwanted
drop_unwanted-Tracks t want l h = ground (
  arith,
  h,
  is_among-keep_wanted t want l.subscribed,
  listens-unsubscribe_calls t want l.subscribed l.log,
)

pub drop_unwanted-subscribed :
    (t : Text) (l : Listener)
    → is_among t
        (drop_unwanted (identity_topics l) (subscribe_wanted (identity_topics l) l)).subscribed
      ≡ is_among t (identity_topics l)
unfolding drop_unwanted
drop_unwanted-subscribed t l = ground (
  arith,
  is_among-keep_wanted t (identity_topics l) (subscribe_wanted (identity_topics l) l).subscribed,
  subscribe_wanted-subscribed t (identity_topics l) l,
)
