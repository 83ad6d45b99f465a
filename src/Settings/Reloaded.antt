-- ===== src/Settings/Reloaded.antt =====
-- What a restart of an agent reads back: createIdentity, metaConfigure and loadIdentity.
use logos_pilot.Prelude.{
  ◌≡◌, refl, ap, ◌∙◌, Bool, true, false, Option, some, List, [], ◌||◌, not, arith, if_cases,
  ℕ_discrete, ℕ,
}
use logos_pilot.Prelude.Options.{◌>>=◌}
use logos_pilot.Text.{Text, codes, is_empty, text_dec}
use logos_pilot.Settings.Keys.{Settings}
use logos_pilot.Settings.Configure.{persist}
use logos_pilot.Settings.Load.{load_rows}
use logos_pilot.Settings.Readable.{load_rows-some}
use logos_pilot.Settings.Written.{SameSettings, Mirrors, Mirrors-load, persist-Mirrors}
use logos_pilot.Settings.Identity.{
  Vault, stored_secret, persist_secret_config, with_keys, create_keys, resolved_secret, migrate,
  backfill, start_llm, after_rows, empty_slots, load_identity,
}
use logos_pilot.Settings.Restart.{
  is_row_name, quiet-Writes, fresh-Mirrors, configure_all, AllLasting, configure_all-Mirrors,
}

-- A write under another name, with the five settings as they were.
quiet-Mirrors :
    (d s s' : Settings) (name value : Text)
    → s'.config ≡ s.config
    → SameSettings s' s
    → is_row_name name ≡ false
    → Mirrors d s
    → Mirrors d (persist name value s').0
quiet-Mirrors d s s' name value c h free m =
    persist-Mirrors d s s' name value m (quiet-Writes s s' name value c h free)

same : (s : Settings) → SameSettings s s
same s = ground arith

secret-Mirrors :
    (v : Vault) (i : ℕ) (name clear : Text) (d s : Settings)
    → is_row_name name ≡ false
    → Mirrors d s
    → Mirrors d (persist_secret_config v i name clear s).0
unfolding persist_secret_config
secret-Mirrors v i name clear d s free m =
    if_cases (λ (r : Settings × Bool). Mirrors d r.0) (not s.has_db) (λ _. m)
      (λ _. quiet-Mirrors d s s name (stored_secret v i clear) refl (same s) free m)

create_keys-Mirrors : (v : Vault) (d s : Settings) → Mirrors d s → Mirrors d (create_keys v s)
unfolding create_keys text_dec ℕ_discrete
create_keys-Mirrors v d s m = secret-Mirrors v 1 (codes "enc.priv") (v.key_pair 1).1 d _ refl (
    quiet-Mirrors d _ _ (codes "enc.pub") (v.key_pair 1).0 refl (same _) refl (
      secret-Mirrors v 0 (codes "ecies.priv") (v.key_pair 0).1 d _ refl (
        quiet-Mirrors d s (with_keys (v.key_pair 0) (v.key_pair 1) s) (codes "ecies.pub")
          (v.key_pair 0).0 refl (ground arith) refl m)))

-- What follows the loop leaves the five settings alone.
SameSettings-trans : (r s t : Settings) → SameSettings r s → SameSettings s t → SameSettings r t
SameSettings-trans r s t h k = record {
  per_tx = h.per_tx ∙ k.per_tx;
  per_period = h.per_period ∙ k.per_period;
  period_seconds = h.period_seconds ∙ k.period_seconds;
  owner_npk = h.owner_npk ∙ k.owner_npk;
  owner_name = h.owner_name ∙ k.owner_name;
}

secret-SameSettings :
    (v : Vault) (i : ℕ) (name clear : Text) (s : Settings)
    → SameSettings (persist_secret_config v i name clear s).0 s
unfolding persist_secret_config persist
secret-SameSettings v i name clear s =
    if_cases (λ (r : Settings × Bool). SameSettings r.0 s) (not s.has_db) (λ _. same s)
      (λ _. ground arith)

migrate-SameSettings :
    (v : Vault) (i : ℕ) (name stored : Text) (s : Settings)
    → SameSettings (migrate v i name stored s) s
unfolding migrate
migrate-SameSettings v i name stored s =
    if_cases (λ (r : Settings). SameSettings r s) _ (λ _. secret-SameSettings v i name stored s)
      (λ _. same s)

backfill-SameSettings :
    (v : Vault) (stored : Text) (s : Settings) → SameSettings (backfill v stored s) s
unfolding backfill persist
backfill-SameSettings v stored s =
    let pair = v.key_pair 2 in
    let paired = record s { enc_pub = pair.0; enc_priv = pair.1 } in
    if_cases (λ (r : Settings). SameSettings r s) _
      (λ _.
        SameSettings-trans _ (persist (codes "enc.pub") pair.0 paired).0 s
          (secret-SameSettings v 2 (codes "enc.priv") pair.1
            (persist (codes "enc.pub") pair.0 paired).0)
          (ground arith))
      (λ _. same s)

start_llm-SameSettings : (s : Settings) → SameSettings (start_llm s) s
start_llm-SameSettings s =
    if_cases (λ (r : Settings). SameSettings r s)
      (not (is_empty s.llm_provider) || not (is_empty s.llm_model)) (λ _. ground arith)
      (λ _. same s)

after_rows-SameSettings : (v : Vault) (d t : Settings) → SameSettings (after_rows v d t) t
unfolding after_rows
after_rows-SameSettings v d t =
    let signing = record t { ecies_priv = resolved_secret v d.ecies_priv t.ecies_priv } in
    let signed = migrate v 0 (codes "ecies.priv") t.ecies_priv signing in
    let encryption = record signed { enc_priv = resolved_secret v d.enc_priv t.enc_priv } in
    let both = migrate v 1 (codes "enc.priv") t.enc_priv encryption in
    let filled = backfill v t.enc_priv both in
    let a : SameSettings signing t = ground arith in
    let b : SameSettings encryption signed = ground arith in
    SameSettings-trans _ filled t (start_llm-SameSettings filled) (
      SameSettings-trans _ both t (backfill-SameSettings v t.enc_priv both) (
        SameSettings-trans _ encryption t
          (migrate-SameSettings v 1 (codes "enc.priv") t.enc_priv encryption)
          (SameSettings-trans _ signed t b (
            SameSettings-trans _ signing t
              (migrate-SameSettings v 0 (codes "ecies.priv") t.ecies_priv signing) a))))

-- The defaults that a restart begins with, and the table on file.
abbrev pub restarted : Settings → Settings → Settings
restarted d s = record d { config = s.config }

restarted-Mirrors : (d s : Settings) → Mirrors d s → Mirrors (empty_slots (restarted d s)) s
restarted-Mirrors d s m = record {
  keyed = m.keyed;
  readable = m.readable;
  per_tx = m.per_tx;
  per_period = m.per_period;
  period_seconds = m.period_seconds;
  owner_npk = m.owner_npk;
  owner_name = m.owner_name;
}

found_loads :
    (v : Vault) (k t : Settings)
    → k.has_db ≡ true
    → load_rows k.config (empty_slots k) ≡ some t
    → load_identity v true k ≡ some (after_rows v k t, true)
unfolding load_identity
found_loads v k t db loaded =
    if_cases (λ (r : Option (Settings × Bool)). r ≡ some (after_rows v k t, true)) (not k.has_db)
      (λ h. absurd (ground (arith, h, db)))
      (λ _. ap (λ o. o >>= (λ x. some (after_rows v k x, true))) loaded)

-- An agent creates its identity on a database whose table config is empty, which writes the rows of
-- its keys; then come any calls of metaConfigure that neither use a row name of a limit as their key
-- nor clear the owner's name. A restart, which finds the identity and reads the table into the
-- defaults, comes to its end with the answer true, and has the three limits, the owner's key and the
-- owner's name that the agent had, whatever the passphrase is at either start.
pub load_identity-configure_all :
    (v u : Vault) (d : Settings) (calls : List (Text × Text))
    → d.has_db ≡ true
    → d.config ≡ []
    → AllLasting calls
    → (t : Settings) × (load_identity u true (restarted d (configure_all calls (create_keys v d)))
        ≡ some (t, true))
      × SameSettings t (configure_all calls (create_keys v d))
load_identity-configure_all v u d calls db e h =
    let s = configure_all calls (create_keys v d) in
    let k = restarted d s in
    let m =
      configure_all-Mirrors d (create_keys v d) calls h
        (create_keys-Mirrors v d d (fresh-Mirrors d e)) in
    let (t, loaded) = load_rows-some s.config (empty_slots k) m.readable in
    (
      after_rows u k t,
      found_loads u k t db loaded,
      SameSettings-trans _ t s (after_rows-SameSettings u k t)
          (Mirrors-load (empty_slots k) s t (restarted-Mirrors d s m) loaded),
    )
