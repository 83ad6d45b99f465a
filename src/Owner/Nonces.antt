-- ===== src/Owner/Nonces.antt =====
-- Who the owner is, once a signed message has been accepted.
use logos_pilot.Prelude.{
  ℕ, zero, suc, ◌+◌, ◌/◌, ◌%◌, ◌^◌, ◌<◌, ◌≡◌, refl, ◌∙◌, sym, ap, true, false, some, [], ◌∷◌, ◌==◌,
  arith, if_cases, inl, inr, Bool-cases, if◌then◌else◌, ℕ_discrete,
}
use logos_pilot.Prelude.Int.{pos}
use logos_pilot.Text.{Text, is_empty, text_dec}
use logos_pilot.Text.Decimal.{decimal, digits_before, decimal_ℤ}
use logos_pilot.Text.Trim.{trim_left}
use logos_pilot.Table.{find}
use logos_pilot.Table.Laws
use logos_pilot.Table.Laws.{IsKeyed}
use logos_pilot.Agent.{Pilot, Entry, entry_keyed}
use logos_pilot.Settings.Parse.{is_digit, read_digits}
use logos_pilot.Owner.Verify.{
  signing_key_row, last_nonce_row, entry_value, clamp_pos, strtoll, pinned_owner, last_nonce,
  pin_owner, raise_nonce,
}

digit_char-IsDigit : (d : ℕ) → d < 10 → is_digit (b'0' + d) ≡ true
digit_char-IsDigit d h = ground arith

-- Reading the digits of a number in front of a text goes on from that number.
read_digits-digits_before :
    (f n : ℕ) (acc : Text) → n < f → read_digits 0 (digits_before f n acc) ≡ read_digits n acc
unfolding digits_before
read_digits-digits_before zero n acc h = absurd (omega arith)
read_digits-digits_before (suc f) n acc h =
    let acc' : Text = (b'0' + n % 10) ∷ acc in
    if_cases (λ t. read_digits 0 t ≡ read_digits n acc) (n / 10 == 0)
      (λ e. unfold read_digits in ground (arith, digit_char-IsDigit (n % 10)))
      (λ e.
        read_digits-digits_before f (n / 10) acc' (ground arith)
        ∙ unfold read_digits in ground (arith, digit_char-IsDigit (n % 10)))

digits_before-first :
    (f n : ℕ) (acc : Text)
    → n < f
    → (c : ℕ) × (s : Text) × (digits_before f n acc ≡ c ∷ s) × (is_digit c ≡ true)
unfolding digits_before
digits_before-first zero n acc h = absurd (omega arith)
digits_before-first (suc f) n acc h =
    let acc' : Text = (b'0' + n % 10) ∷ acc in
    elim (Bool-cases (n / 10 == 0)) [
      | inl e ↦ (b'0' + n % 10, acc, rw e refl, digit_char-IsDigit (n % 10) (omega arith))
      | inr e ↦
          let (c, s, shape, digit) = digits_before-first f (n / 10) acc' (ground arith) in
          (c, s, rw e shape, digit)
    ]

strtoll_digit :
    (c : ℕ) (s : Text) → is_digit c ≡ true → strtoll (c ∷ s) ≡ clamp_pos (read_digits 0 (c ∷ s)).0
unfolding strtoll trim_left
strtoll_digit c s h = ground arith

-- A nonce that was written to the table is read back.
pub strtoll-decimal : (n : ℕ) → n < 2 ^ 63 → strtoll (decimal_ℤ (pos n)) ≡ pos n
unfolding decimal_ℤ decimal
strtoll-decimal n h =
    let (c, s, shape, digit) = digits_before-first (suc n) n [] (omega arith) in
    let read : read_digits 0 (c ∷ s) ≡ (n, []) =
      ap (read_digits 0) (sym shape)
      ∙ (read_digits-digits_before (suc n) n [] (omega arith) ∙ (unfold read_digits in refl)) in
    ap strtoll shape
    ∙ (strtoll_digit c s digit ∙ (ap (λ (r : ℕ × Text). clamp_pos r.0) read ∙ ground arith))

-- The owner's key is pinned, and nonces up to `n` are used.
pub record Owned (p : Pilot) (key : Text) (n : ℕ) : Type 0 where
  pub has_db : p.has_db ≡ true
  pub keyed : IsKeyed p.config
  pub pinned : (e : Entry) × (find signing_key_row p.config ≡ some e) × (e.value ≡ key)
  pub key_text : is_empty key ≡ false
  pub used : (e : Entry) × (find last_nonce_row p.config ≡ some e) × (e.value ≡ decimal_ℤ (pos n))
  pub bound : n < 2 ^ 63

pub pinned_owner-Owned : (p : Pilot) (key : Text) (n : ℕ) → Owned p key n → pinned_owner p ≡ key
unfolding pinned_owner
pinned_owner-Owned p key n o = let (e, found, value) = o.pinned in rw found value

pub last_nonce-Owned : (p : Pilot) (key : Text) (n : ℕ) → Owned p key n → last_nonce p ≡ pos n
unfolding last_nonce
last_nonce-Owned p key n o =
    let (e, found, value) = o.used in
    let db = o.has_db in
    ap (λ b. if b then strtoll (entry_value (find last_nonce_row p.config)) else pos 0) db
    ∙ (ap (λ x. strtoll (entry_value x)) found ∙ (ap strtoll value ∙ strtoll-decimal n o.bound))

pub pin_owner-Owned :
    (p : Pilot) (k key : Text) (n : ℕ) → Owned p key n → Owned (pin_owner k p) key n
unfolding pin_owner
pin_owner-Owned p k key n o =
    let row : Entry = record { name = signing_key_row; value = k } in
    let (e, found, value) = o.pinned in
    let (u, at, used) = o.used in
    let db = o.has_db in
    if_cases (λ (q : Pilot). Owned q key n) p.has_db
      (λ _. record {
        has_db = db;
        keyed = Laws.insert-IsKeyed row p.config o.keyed;
        pinned = (e, ground (arith, Laws.find-insert signing_key_row row p.config), value);
        key_text = o.key_text;
        used = (u, ground (arith, Laws.find-insert last_nonce_row row p.config), used);
        bound = o.bound;
      })
      (λ _. o)

pub raise_nonce-Owned :
    (p : Pilot) (key : Text) (n m : ℕ)
    → Owned p key n
    → m < 2 ^ 63
    → Owned (raise_nonce (pos m) p) key m
unfolding raise_nonce text_dec ℕ_discrete
raise_nonce-Owned p key n m o h =
    let row : Entry = record { name = last_nonce_row; value = decimal_ℤ (pos m) } in
    let (e, found, value) = o.pinned in
    let db = o.has_db in
    if_cases (λ (q : Pilot). Owned q key m) p.has_db
      (λ _. record {
        has_db = db;
        keyed = Laws.upsert-IsKeyed row p.config o.keyed;
        pinned = (e, Laws.find-upsert signing_key_row row p.config o.keyed ∙ found, value);
        key_text = o.key_text;
        used = (row, Laws.find-upsert last_nonce_row row p.config o.keyed, refl);
        bound = h;
      })
      (λ f. absurd (cc))
