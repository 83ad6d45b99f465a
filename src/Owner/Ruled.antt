-- ===== src/Owner/Ruled.antt =====
-- One message on the channel of an agent whose owner is known.
use logos_pilot.Prelude.{
  ℕ, ◌^◌, ◌<◌, ◌≡◌, refl, sym, ◌⊎◌, inl, inr, Option, none, some, ◌&&◌, ◌||◌, not, arith, if_cases,
}
use logos_pilot.Prelude.Int.{ℤ, pos, negsuc, leb_ℤ}
use logos_pilot.Text.{Text, same, same-eq, is_empty}
use logos_pilot.Agent.{Pilot, entry_keyed}
use logos_pilot.Agent.World.{World}
use logos_pilot.Owner.Verify.{
  OwnerEnvelope, pinned_owner, last_nonce, verify_unsigned, pin_owner, verify_nonce, verify_pinned,
  verify_owner_message,
}
use logos_pilot.Owner.Nonces.{
  Owned, pinned_owner-Owned, last_nonce-Owned, pin_owner-Owned, raise_nonce-Owned,
}

-- A nonce that is not negative is a 64-bit integer.
abbrev pub IsLong : Option ℤ → Type 0
IsLong none = Unit
IsLong (some (pos m)) = m < 2 ^ 63
IsLong (some (negsuc m)) = Unit

abbrev pub HasLong : Option OwnerEnvelope → Type 0
HasLong none = Unit
HasLong (some e) = IsLong e.nonce

-- The message is dropped, or it is an envelope of the same key with a higher nonce.
abbrev pub Ruled : Text → ℕ → Option OwnerEnvelope → Pilot × Option Text → Type 0
Ruled key n o r =
    ((r.1 ≡ none) × Owned r.0 key n)
    ⊎ ((e : OwnerEnvelope) × (m : ℕ) × (o ≡ some e)
        × (e.signing_key ≡ key)
        × (e.nonce ≡ some (pos m))
        × (n < m)
        × Owned r.0 key m)

verify_nonce-Ruled :
    (p : Pilot) (key : Text) (n : ℕ) (e : OwnerEnvelope) (o : Option ℤ)
    → Owned p key n
    → e.signing_key ≡ key
    → e.nonce ≡ o
    → IsLong o
    → Ruled key n (some e) (verify_nonce p e o)
unfolding verify_nonce
verify_nonce-Ruled p key n e none own k same_nonce h = inl (refl, own)
verify_nonce-Ruled p key n e (some (negsuc m)) own k same_nonce h =
    if_cases (Ruled key n (some e)) (leb_ℤ (negsuc m) (last_nonce p)) (λ _. inl (refl, own))
      (λ f. absurd (ground (arith, last_nonce-Owned p key n own)))
verify_nonce-Ruled p key n e (some (pos m)) own k same_nonce h =
    if_cases (Ruled key n (some e)) (leb_ℤ (pos m) (last_nonce p)) (λ _. inl (refl, own))
      (λ f. inr (
        e,
        m,
        refl,
        k,
        same_nonce,
        ground (arith, last_nonce-Owned p key n own),
        raise_nonce-Owned p key n m own h,
      ))

verify_pinned-Ruled :
    (p : Pilot) (key : Text) (n : ℕ) (e : OwnerEnvelope)
    → Owned p key n
    → IsLong e.nonce
    → Ruled key n (some e) (verify_pinned p e)
unfolding verify_pinned
verify_pinned-Ruled p key n e own h =
    let db = own.has_db in
    let text = own.key_text in
    let pin = pinned_owner-Owned p key n own in
    if_cases (Ruled key n (some e))
      (p.has_db && (is_empty (pinned_owner p) || not (same (pinned_owner p) e.signing_key)))
      (λ _. inl (refl, own))
      (λ f.
        verify_nonce-Ruled p key n e e.nonce own (sym (same-eq key e.signing_key (ground arith)))
          refl h)

verify_unsigned-Ruled :
    (p : Pilot) (key : Text) (n : ℕ) (raw : Text)
    → Owned p key n
    → Ruled key n none (verify_unsigned p raw)
unfolding verify_unsigned
verify_unsigned-Ruled p key n raw own =
    let db = own.has_db in
    let text = own.key_text in
    let pin = pinned_owner-Owned p key n own in
    if_cases (Ruled key n none) (not (is_empty p.owner_npk)) (λ _. inl (refl, own))
      (λ _.
        if_cases (Ruled key n none) (p.has_db && not (is_empty (pinned_owner p)))
          (λ _. inl (refl, own)) (λ f. absurd (ground arith)))

pub verify-Ruled :
    (w : World) (p : Pilot) (key : Text) (n : ℕ) (raw : Text) (o : Option OwnerEnvelope)
    → Owned p key n
    → HasLong o
    → Ruled key n o (verify_owner_message w p raw o)
unfolding verify_owner_message
verify-Ruled w p key n raw none own h = verify_unsigned-Ruled p key n raw own
verify-Ruled w p key n raw (some e) own h =
    if_cases (Ruled key n (some e)) (not (w.verify_signature e.canonical e.signature e.signing_key))
      (λ _. inl (refl, own))
      (λ _.
        verify_pinned-Ruled (pin_owner e.signing_key p) key n e
          (pin_owner-Owned p e.signing_key key n own) h)
