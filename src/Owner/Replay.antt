-- ===== src/Owner/Replay.antt =====
-- Sequences of messages on the owner channel.
use mathlib.Core.Path.{subst}
use logos_pilot.Prelude.{
  ℕ, ◌^◌, ◌<◌, ◌≤◌, ◌≡◌, refl, ◌∙◌, sym, ap, inl, inr, true, false, Option, none, some, List, [],
  ◌∷◌, ◌&&◌, ◌||◌, not, arith, if_cases, Option-cases, ℕ_discrete,
}
use logos_pilot.Prelude.Int.{pos, leb_ℤ}
use logos_pilot.Text.{Text, same, same-eq, same_refl, is_empty, text_dec}
use logos_pilot.Text.Decimal.{decimal_ℤ}
use logos_pilot.Table.{find}
use logos_pilot.Table.Laws
use logos_pilot.Table.Laws.{IsKeyed}
use logos_pilot.Agent.{Pilot, Entry, entry_keyed}
use logos_pilot.Agent.World.{World}
use logos_pilot.Owner.Verify.{
  OwnerEnvelope, signing_key_row, last_nonce_row, pinned_owner, last_nonce, pin_owner, raise_nonce,
  verify_nonce, verify_pinned, verify_owner_message,
}
use logos_pilot.Owner.Nonces.{Owned}
use logos_pilot.Owner.Ruled.{HasLong, Ruled, verify-Ruled}

found_pin :
    (q : Pilot)
    → is_empty (pinned_owner q) ≡ false
    → (e : Entry) × (find signing_key_row q.config ≡ some e) × (e.value ≡ pinned_owner q)
unfolding pinned_owner
found_pin q h = elim (Option-cases (find signing_key_row q.config)) [
  | inl e ↦ absurd (ground (arith))
  | inr (r, e) ↦ (r, e, rw e refl)
]

raised-Owned :
    (q : Pilot) (key : Text) (n : ℕ)
    → q.has_db ≡ true
    → IsKeyed q.config
    → is_empty (pinned_owner q) ≡ false
    → pinned_owner q ≡ key
    → n < 2 ^ 63
    → Owned (raise_nonce (pos n) q) key n
unfolding raise_nonce text_dec ℕ_discrete
raised-Owned q key n db keyed text pin h =
    let row : Entry = record { name = last_nonce_row; value = decimal_ℤ (pos n) } in
    let (e, found, value) = found_pin q text in
    if_cases (λ (x : Pilot). Owned x key n) q.has_db
      (λ _. record {
        has_db = db;
        keyed = Laws.upsert-IsKeyed row q.config keyed;
        pinned = (e, Laws.find-upsert signing_key_row row q.config keyed ∙ found, value ∙ pin);
        key_text = ap is_empty (sym pin) ∙ text;
        used = (row, Laws.find-upsert last_nonce_row row q.config keyed, refl);
        bound = h;
      })
      (λ f. absurd (cc))

-- An accepted envelope leaves its key pinned and its nonce used.
abbrev Accepts : Text → ℕ → Pilot × Option Text → Type 0
Accepts key n (q, none) = Unit
Accepts key n (q, some m) = Owned q key n

nonce-Accepts :
    (q : Pilot) (e : OwnerEnvelope) (n : ℕ)
    → q.has_db ≡ true
    → IsKeyed q.config
    → is_empty (pinned_owner q) ≡ false
    → pinned_owner q ≡ e.signing_key
    → n < 2 ^ 63
    → Accepts e.signing_key n (verify_nonce q e (some (pos n)))
unfolding verify_nonce
nonce-Accepts q e n db keyed text pin h =
    if_cases (Accepts e.signing_key n) (leb_ℤ (pos n) (last_nonce q)) (λ _. tt)
      (λ _. raised-Owned q e.signing_key n db keyed text pin h)

pin_owner_lem :
    (p : Pilot) (k : Text)
    → p.has_db ≡ true
    → IsKeyed p.config
    → ((pin_owner k p).has_db ≡ true) × IsKeyed (pin_owner k p).config
unfolding pin_owner
pin_owner_lem p k db v =
    let row : Entry = record { name = signing_key_row; value = k } in
    if_cases (λ (q : Pilot). (q.has_db ≡ true) × IsKeyed q.config) p.has_db
      (λ _. (db, Laws.insert-IsKeyed row p.config v)) (λ _. (db, v))

pinned-Accepts :
    (q : Pilot) (e : OwnerEnvelope) (n : ℕ)
    → q.has_db ≡ true
    → IsKeyed q.config
    → e.nonce ≡ some (pos n)
    → n < 2 ^ 63
    → Accepts e.signing_key n (verify_pinned q e)
unfolding verify_pinned
pinned-Accepts q e n db keyed nonce h =
    if_cases (Accepts e.signing_key n)
      (q.has_db && (is_empty (pinned_owner q) || not (same (pinned_owner q) e.signing_key)))
      (λ _. tt)
      (λ f.
        subst (λ o. Accepts e.signing_key n (verify_nonce q e o)) (sym nonce)
          (nonce-Accepts q e n db keyed (ground arith)
            (same-eq (pinned_owner q) e.signing_key (ground arith)) h))

verify-Accepts :
    (w : World) (p : Pilot) (raw : Text) (e : OwnerEnvelope) (n : ℕ)
    → p.has_db ≡ true
    → IsKeyed p.config
    → e.nonce ≡ some (pos n)
    → n < 2 ^ 63
    → Accepts e.signing_key n (verify_owner_message w p raw (some e))
unfolding verify_owner_message
verify-Accepts w p raw e n db keyed nonce h =
    let (db', keyed') = pin_owner_lem p e.signing_key db keyed in
    if_cases (Accepts e.signing_key n)
      (not (w.verify_signature e.canonical e.signature e.signing_key)) (λ _. tt)
      (λ _. pinned-Accepts (pin_owner e.signing_key p) e n db' keyed' nonce h)

-- A message that arrives on the owner channel: its text, its envelope if it is one, and the world.
pub record OwnerText : Type 0 where
  pub world : World
  pub raw : Text
  pub envelope : Option OwnerEnvelope

unfoldable pub verify_all : List OwnerText → Pilot → Pilot
verify_all [] p = p
verify_all (t ∷ ts) p = verify_all ts (verify_owner_message t.world p t.raw t.envelope).0

abbrev pub AllLong : List OwnerText → Type 0
AllLong [] = Unit
AllLong (t ∷ ts) = HasLong t.envelope × AllLong ts

state_of_rule :
    (key : Text) (n : ℕ) (o : Option OwnerEnvelope) (r : Pilot × Option Text)
    → Ruled key n o r
    → (m : ℕ) × (n ≤ m) × Owned r.0 key m
state_of_rule key n o r (inl (_, own)) = (n, omega arith, own)
state_of_rule key n o r (inr (e, m, _, _, _, lt, own)) = (m, omega arith, own)

verify_all-Owned :
    (ts : List OwnerText) (p : Pilot) (key : Text) (n : ℕ)
    → Owned p key n
    → AllLong ts
    → (m : ℕ) × (n ≤ m) × Owned (verify_all ts p) key m
unfolding verify_all
verify_all-Owned [] p key n own h = (n, omega arith, own)
verify_all-Owned (t ∷ ts) p key n own (h, hs) =
    let r = verify_owner_message t.world p t.raw t.envelope in
    let (m, le, own') =
      state_of_rule key n t.envelope r (verify-Ruled t.world p key n t.raw t.envelope own h) in
    let (k, le', own'') = verify_all-Owned ts r.0 key m own' hs in (k, omega arith, own'')

accept_of_rule :
    (key : Text) (n m : ℕ) (o : Option OwnerEnvelope) (r : Pilot × Option Text) (message : Text)
    → n ≤ m
    → Ruled key m o r
    → r.1 ≡ some message
    → (e : OwnerEnvelope) × (k : ℕ) × (o ≡ some e)
      × (e.signing_key ≡ key)
      × (e.nonce ≡ some (pos k))
      × (n < k)
accept_of_rule key n m o r message le (inl (dropped, _)) h = absurd (cc)
accept_of_rule key n m o r message le (inr (e, k, is_e, is_key, is_nonce, lt, _)) h =
    (e, k, is_e, is_key, is_nonce, omega arith)

-- Once the agent, with its database, has accepted a signed message whose nonce is not negative, it
-- accepts after any further messages only signed envelopes of the same key with a higher nonce: no
-- unsigned text, no other key, and no message a second time. The nonces are below 2 ^ 63, and the keys
-- of the table config differ.
pub verify_owner_message-no_replay :
    (w u : World) (p : Pilot) (raw raw' message message' : Text) (first : OwnerEnvelope) (n : ℕ)
    (ts : List OwnerText) (o : Option OwnerEnvelope)
    → p.has_db ≡ true
    → IsKeyed p.config
    → first.nonce ≡ some (pos n)
    → n < 2 ^ 63
    → (verify_owner_message w p raw (some first)).1 ≡ some message
    → AllLong ts
    → HasLong o
    → (verify_owner_message u
        (verify_all ts (verify_owner_message w p raw (some first)).0)
        raw'
        o).1
      ≡ some message'
    → (e : OwnerEnvelope) × (m : ℕ) × (o ≡ some e)
      × (e.signing_key ≡ first.signing_key)
      × (e.nonce ≡ some (pos m))
      × (n < m)
verify_owner_message-no_replay w u p raw raw' message message' first n ts o db keyed nonce small
      accepted hs h again =
    let r = verify_owner_message w p raw (some first) in
    let own : Owned r.0 first.signing_key n =
      subst (λ x. Accepts first.signing_key n (r.0, x)) accepted
        (verify-Accepts w p raw first n db keyed nonce small) in
    let (m, le, own') = verify_all-Owned ts r.0 first.signing_key n own hs in
    accept_of_rule first.signing_key n m o _ message' le
      (verify-Ruled u (verify_all ts r.0) first.signing_key m raw' o own' h) again

first_pin :
    (p : Pilot) (k : Text)
    → p.has_db ≡ true
    → find signing_key_row p.config ≡ none
    → pinned_owner (pin_owner k p) ≡ k
unfolding pinned_owner pin_owner text_dec ℕ_discrete
first_pin p k db free = ground (
  arith,
  Laws.find-insert signing_key_row (record { name = signing_key_row; value = k }) p.config,
)

first_nonce :
    (p : Pilot) (k : Text)
    → p.has_db ≡ true
    → find last_nonce_row p.config ≡ none
    → last_nonce (pin_owner k p) ≡ pos 0
unfolding last_nonce pin_owner text_dec ℕ_discrete
first_nonce p k db free =
    ground (
      arith,
      Laws.find-insert last_nonce_row (record { name = signing_key_row; value = k }) p.config,
    )

-- An owner's npk that is bound does not bind the signing key: while no key is pinned and no nonce on
-- file, an envelope of any key with a positive nonce and a signature that verifies under that very
-- key is accepted.
pub verify_owner_message-first_key :
    (w : World) (p : Pilot) (raw : Text) (e : OwnerEnvelope) (n : ℕ)
    → p.has_db ≡ true
    → find signing_key_row p.config ≡ none
    → find last_nonce_row p.config ≡ none
    → is_empty e.signing_key ≡ false
    → e.nonce ≡ some (pos n)
    → 0 < n
    → w.verify_signature e.canonical e.signature e.signing_key ≡ true
    → (verify_owner_message w p raw (some e)).1 ≡ some e.message
unfolding verify_owner_message verify_pinned verify_nonce
verify_owner_message-first_key w p raw e n db free fresh text nonce positive signed =
    let q = pin_owner e.signing_key p in
    let pin : pinned_owner q ≡ e.signing_key = first_pin p e.signing_key db free in
    let last : last_nonce q ≡ pos 0 = first_nonce p e.signing_key db fresh in
    rw (signed, pin, text, same_refl e.signing_key) (ground (arith, nonce, last, positive))
