-- ===== src/Tasks/Outbound/Reply.antt =====
-- a2aTryDecrypt and handleA2AReply (pilot-module/src/pilot_a2a.cpp).
use logos_pilot.Prelude.{
  ◌-◌, Option, none, some, ◌&&◌, ◌||◌, not, leb, length, take, drop, if◌then◌else◌,
}
use logos_pilot.Prelude.Options.{◌>>=◌}
use logos_pilot.Text.{Text, codes, is_empty, same}
use logos_pilot.Text.Search.{starts_with}
use logos_pilot.Agent.{Pilot}
use logos_pilot.Agent.World.{World}
use logos_pilot.Crypto.Cipher.{Cipher}
use logos_pilot.Crypto.Formats.{Ciphertext, ecies_deserialize}
use logos_pilot.Crypto.Sealed.{ecies_decrypt}
use logos_pilot.Tasks.Settle.{Reply, verify_and_settle_reply}

-- The private keys of the agent: of its encryption key and of its signing key.
pub record Keys : Type 0 where
  pub enc_priv : Text
  pub ecies_priv : Text

abbrev pub decrypt_under : Cipher → Text → Ciphertext → Option Text
decrypt_under c key ct = if is_empty key then none else ecies_decrypt c key ct

abbrev pub or_try : Option Text → Option Text → Option Text
or_try none o = o
or_try (some t) o = some t

-- The first of the two keys that opens the payload.
unfoldable pub a2a_try_decrypt : Cipher → Keys → Text → Option Text
a2a_try_decrypt c k payload = do
  ct ← ecies_deserialize payload
  or_try (decrypt_under c k.enc_priv ct) (decrypt_under c k.ecies_priv ct)

-- The id between "/pilot/1/reply-" and "/proto", `none` for another topic.
unfoldable pub reply_task_id : Text → Option Text
unfolding starts_with
reply_task_id topic =
    if not (starts_with (codes "/pilot/1/reply-") topic) || leb (length topic) 21
    then none
    else if same (drop (length topic - 6) topic) (codes "/proto")
    then some (take (length topic - 21) (drop 15 topic))
    else none

unfoldable pub settle_opened :
    World → (Text → Option Reply) → Pilot → Option Text → Option Text → Pilot
settle_opened w parse_reply p (some id) (some json) =
    verify_and_settle_reply w p id (parse_reply json)
settle_opened w parse_reply p _ _ = p

-- `parse_reply` is QJsonDocument::fromJson with the reads of verifyAndSettleReply.
unfoldable pub handle_a2a_reply :
    World → Cipher → (Text → Option Reply) → Keys → Pilot → Text → Text → Pilot
unfolding a2a_try_decrypt reply_task_id settle_opened
handle_a2a_reply w c parse_reply k p topic payload =
    if not p.has_db || (is_empty k.enc_priv && is_empty k.ecies_priv)
    then p
    else settle_opened w parse_reply p (reply_task_id topic) (a2a_try_decrypt c k payload)
