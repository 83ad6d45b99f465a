-- ===== src/Hire/Decisions.antt =====
-- One call of agentOpenForHire or agentCloseForHire: what it leaves of the decision, the table and the
-- subscriptions.
use mathlib.Core.Path.{subst}
use logos_pilot.Prelude.{
  ◌≡◌, refl, ◌∙◌, sym, ap, Bool, true, false, some, List, [], ◌∷◌, not, arith, if_cases,
  if◌then◌else◌,
}
use logos_pilot.Text.{Text, same_refl, is_among}
use logos_pilot.Table.{find, upsert}
use logos_pilot.Table.Laws
use logos_pilot.Table.Laws.{IsKeyed}
use logos_pilot.Agent.{Entry, entry_keyed}
use logos_pilot.Hire.Topics.{
  Listener, identity_topics, subscribe_one, subscribe_wanted, drop_unwanted,
  subscribe_identity_topics, hire_row, hire_value, persist_open_for_hire, after_persist,
  agent_open_for_hire, agent_close_for_hire,
}
use logos_pilot.Hire.Listening.{
  listens, Tracks, subscribe_wanted-Tracks, drop_unwanted-Tracks, drop_unwanted-subscribed,
}

-- What subscribing leaves alone.
record SameSelf (l k : Listener) : Type 0 where
  has_db : k.has_db ≡ l.has_db
  enc_pub : k.enc_pub ≡ l.enc_pub
  ecies_pub : k.ecies_pub ≡ l.ecies_pub
  open_for_hire : k.open_for_hire ≡ l.open_for_hire
  config : k.config ≡ l.config

subscribe_wanted-SameSelf :
    (topics : List Text) (l : Listener) → SameSelf l (subscribe_wanted topics l)
unfolding subscribe_wanted
subscribe_wanted-SameSelf [] l = ground arith
subscribe_wanted-SameSelf (topic ∷ topics) l =
    ground (arith, subscribe_wanted-SameSelf topics (subscribe_one topic l))

subscribe_identity_topics-SameSelf :
    (ready : Bool) (l : Listener) → SameSelf l (subscribe_identity_topics ready l)
unfolding subscribe_identity_topics drop_unwanted
subscribe_identity_topics-SameSelf ready l =
    ground (arith, subscribe_wanted-SameSelf (identity_topics l) l)

same_topics : (l k : Listener) → SameSelf l k → identity_topics k ≡ identity_topics l
unfolding identity_topics
same_topics l k s =
    let e = s.enc_pub in let c = s.ecies_pub in let o = s.open_for_hire in ground (arith)

subscribe_identity_topics-Tracks :
    (t : Text) (ready : Bool) (l : Listener)
    → Tracks t l
    → Tracks t (subscribe_identity_topics ready l)
unfolding subscribe_identity_topics
subscribe_identity_topics-Tracks t true l h =
    drop_unwanted-Tracks t (identity_topics l) (subscribe_wanted (identity_topics l) l)
      (subscribe_wanted-Tracks t (identity_topics l) l h)
subscribe_identity_topics-Tracks t false l h = h

-- The database is open, its keys differ, and the list of subscriptions says of this topic what the
-- calls leave.
pub record Sound (t : Text) (l : Listener) : Type 0 where
  pub has_db : l.has_db ≡ true
  pub keyed : IsKeyed l.config
  pub tracks : Tracks t l

subscribe_identity_topics-Sound :
    (t : Text) (ready : Bool) (l : Listener)
    → Sound t l
    → Sound t (subscribe_identity_topics ready l)
subscribe_identity_topics-Sound t ready l h =
    let kept = subscribe_identity_topics-SameSelf ready l in
    record {
      has_db = kept.has_db ∙ h.has_db;
      keyed = subst IsKeyed (sym kept.config) h.keyed;
      tracks = subscribe_identity_topics-Tracks t ready l h.tracks;
    }

wanted_subscribed :
    (t : Text) (l : Listener)
    → is_among t (subscribe_identity_topics true l).subscribed ≡ is_among t (identity_topics l)
unfolding subscribe_identity_topics
wanted_subscribed t l = drop_unwanted-subscribed t l

subscribe_identity_topics-listens :
    (t : Text) (l : Listener)
    → Tracks t l
    → listens t (subscribe_identity_topics true l).log
      ≡ is_among t (identity_topics (subscribe_identity_topics true l))
subscribe_identity_topics-listens t l h =
    subscribe_identity_topics-Tracks t true l h
    ∙ (wanted_subscribed t l
        ∙ ap (is_among t) (
            sym (
              same_topics l (subscribe_identity_topics true l)
                (subscribe_identity_topics-SameSelf true l))))

-- A call of the owner.
pub data Hire : Type 0 where
  opening closing : Hire

abbrev pub is_opening : Hire → Bool
is_opening opening = true
is_opening closing = false

unfoldable pub hire : Hire → Bool → Listener → Listener × Bool
hire opening ready l = agent_open_for_hire ready l
hire closing ready l = agent_close_for_hire ready l

abbrev pub row_of : Bool → Entry
row_of hired = record { name = hire_row; value = hire_value hired }

-- What a call leaves, whether the context is ready or not.
pub record Decided (t : Text) (ready hired : Bool) (r : Listener × Bool) : Type 0 where
  pub sound : Sound t r.0
  pub answer : r.1 ≡ true
  pub flag : r.0.open_for_hire ≡ hired
  pub row : find hire_row r.0.config ≡ some (row_of hired)
  pub listening : ready ≡ true → listens t r.0.log ≡ is_among t (identity_topics r.0)

persist_shape :
    (hired : Bool) (l : Listener)
    → l.has_db ≡ true
    → persist_open_for_hire hired l ≡ (record l { config = upsert (row_of hired) l.config }, true)
unfolding persist_open_for_hire
persist_shape hired l db =
    if_cases
      (λ (r : Listener × Bool). r ≡ (record l { config = upsert (row_of hired) l.config }, true))
      (not l.has_db) (λ h. absurd (ground arith)) (λ _. refl)

written :
    (hired : Bool) (l : Listener)
    → IsKeyed l.config
    → find hire_row (upsert (row_of hired) l.config) ≡ some (row_of hired)
written hired l v =
    Laws.find-upsert hire_row (row_of hired) l.config v
    ∙ ap (λ b. if b then some (row_of hired) else find hire_row l.config) (same_refl hire_row)

subscribed-Decided :
    (t : Text) (ready hired : Bool) (l : Listener)
    → Sound t l
    → l.open_for_hire ≡ hired
    → find hire_row l.config ≡ some (row_of hired)
    → Decided t ready hired (subscribe_identity_topics ready l, true)
subscribed-Decided t ready hired l h flag row =
    let kept = subscribe_identity_topics-SameSelf ready l in
    record {
      sound = subscribe_identity_topics-Sound t ready l h;
      answer = refl;
      flag = kept.open_for_hire ∙ flag;
      row = ap (find hire_row) kept.config ∙ row;
      listening = λ e.
          subst
            (λ b.
              listens t (subscribe_identity_topics b l).log
              ≡ is_among t (identity_topics (subscribe_identity_topics b l)))
            (sym e) (subscribe_identity_topics-listens t l h.tracks);
    }

open-Decided :
    (t : Text) (ready : Bool) (l : Listener)
    → Sound t l
    → Decided t ready true (agent_open_for_hire ready l)
unfolding agent_open_for_hire after_persist
open-Decided t ready l h =
    let opened = record l { open_for_hire = true } in
    let recorded = record opened { config = upsert (row_of true) l.config } in
    if_cases (Decided t ready true) (not l.has_db) (λ f. absurd (ground (arith, h.has_db)))
      (λ _.
        subst (λ r. Decided t ready true (after_persist ready r))
          (sym (persist_shape true opened h.has_db))
          (subscribed-Decided t ready true recorded
            (record {
              has_db = h.has_db;
              keyed = Laws.upsert-IsKeyed (row_of true) l.config h.keyed;
              tracks = h.tracks;
            })
            refl (written true l h.keyed)))

written-Decided :
    (t : Text) (ready : Bool) (k : Listener)
    → Sound t k
    → k.open_for_hire ≡ false
    → (ready ≡ true → listens t k.log ≡ is_among t (identity_topics k))
    → Decided t ready false (record k { config = upsert (row_of false) k.config }, true)
unfolding identity_topics
written-Decided t ready k h flag listening = record {
  sound = record {
    has_db = h.has_db;
    keyed = Laws.upsert-IsKeyed (row_of false) k.config h.keyed;
    tracks = h.tracks;
  };
  answer = refl;
  flag = flag;
  row = written false k h.keyed;
  listening = listening;
}

close-Decided :
    (t : Text) (ready : Bool) (l : Listener)
    → Sound t l
    → Decided t ready false (agent_close_for_hire ready l)
unfolding agent_close_for_hire
close-Decided t ready l h =
    let closed = record l { open_for_hire = false } in
    let k = subscribe_identity_topics ready closed in
    let sound : Sound t closed = record { has_db = h.has_db; keyed = h.keyed; tracks = h.tracks } in
    let kept = subscribe_identity_topics-SameSelf ready closed in
    let sound' = subscribe_identity_topics-Sound t ready closed sound in
    if_cases (Decided t ready false) (not l.has_db) (λ f. absurd (ground (arith, h.has_db)))
      (λ _. subst (Decided t ready false) (sym (persist_shape false k sound'.has_db)) (
        written-Decided t ready k sound' kept.open_for_hire (λ e.
          subst
            (λ b.
              listens t (subscribe_identity_topics b closed).log
              ≡ is_among t (identity_topics (subscribe_identity_topics b closed)))
            (sym e) (subscribe_identity_topics-listens t closed h.tracks))))

pub hire-Decided :
    (t : Text) (h : Hire) (ready : Bool) (l : Listener)
    → Sound t l
    → Decided t ready (is_opening h) (hire h ready l)
unfolding hire
hire-Decided t opening ready l v = open-Decided t ready l v
hire-Decided t closing ready l v = close-Decided t ready l v
