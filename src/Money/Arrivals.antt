-- ===== src/Money/Arrivals.antt =====
-- The inbox of the agent: what a payload from anyone can do.
use logos_pilot.Prelude.{
  ◌≡◌, refl, ◌∙◌, sym, ap, true, Option, none, some, arith, if_cases, not, ◌&&◌,
}
use mathlib.Core.Path.{subst}
use logos_pilot.Text.{Text, is_empty}
use logos_pilot.Table.{find}
use logos_pilot.Table.Laws.{IsKeyed}
use logos_pilot.Agent.{Pilot, spend_keyed}
use logos_pilot.Agent.World.{World}
use logos_pilot.Crypto.Cipher.{Cipher}
use logos_pilot.Messaging.Receive.{handle_inbound_application}
use logos_pilot.Messaging.Kept.{Keeps, Keeps-refl, handle_application-Keeps}
use logos_pilot.Tasks.Outbound.Reply.{Keys, a2a_try_decrypt}
use logos_pilot.Tasks.Inbound.Request.{Request, RpcReply}
use logos_pilot.Tasks.Inbound.Authenticate.{Envelope, Verdict, verify_inbound_request}
use logos_pilot.Tasks.Inbound.Handle.{
  Incoming, Surroundings, Agent, send_reply, dispatch_verified, handle_incoming, handle_decrypted,
  handle_inbound_a2a,
}
use logos_pilot.Money.Frame.{transfers, KeepsMoney, reply_to_peer-KeepsMoney}
use logos_pilot.Money.Quiet.{Quiet}
use logos_pilot.Money.Inbound.{process_inbound_request-never_pays}

verify_inbound_request-KeepsMoney :
    (w : World) (p : Pilot) (e : Envelope) → KeepsMoney p (verify_inbound_request w p e).0
unfolding verify_inbound_request
verify_inbound_request-KeepsMoney w p e = ground arith

send_reply-transfers :
    (o : Surroundings) (r : Request) (x : Pilot × RpcReply)
    → transfers (send_reply o r x).log ≡ transfers x.0.log
unfolding send_reply
send_reply-transfers o r (p, reply) =
    if_cases (λ (q : Pilot). transfers q.log ≡ transfers p.log)
      (not (is_empty r.reply_topic) && not (is_empty r.sender_ecies))
      (λ _.
        (reply_to_peer-KeepsMoney o.replying p r.reply_topic r.sender_ecies
          (o.print_reply reply)).transfers)
      (λ _. refl)

-- The condition on what other handlers do while a skill is dispatched.
abbrev pub QuietMeanwhile : Surroundings → Type 0
QuietMeanwhile o = (q : Pilot) → IsKeyed q.spends → Quiet true q (o.env.meanwhile q)

module _ (o : Surroundings) (quiet : QuietMeanwhile o) where
  dispatch_verified-transfers :
      (i : Incoming) (p : Pilot) (x : Pilot × Verdict)
      → KeepsMoney p x.0
      → IsKeyed p.spends
      → find o.processing.generated_id p.spends ≡ none
      → transfers (dispatch_verified o i x).log ≡ transfers p.log
  unfolding dispatch_verified
  dispatch_verified-transfers i p (q, v) k keyed fresh =
      if_cases (λ (r : Pilot). transfers r.log ≡ transfers p.log) (not v.accepted)
        (λ _. k.transfers)
        (λ _.
          send_reply-transfers o i.request _
          ∙ (process_inbound_request-never_pays o.processing o.env q (some i.request)
                i.envelope.sender_npk v.first_contact quiet (subst IsKeyed (sym k.spends) keyed)
                (ap (find o.processing.generated_id) k.spends ∙ fresh)
              ∙ k.transfers))

-- What an arrival leaves: no transfer more, and a mailbox that keeps its keys and groups.
pub record Harmless (a b : Agent) : Type 0 where
  pub transfers_kept : transfers b.pilot.log ≡ transfers a.pilot.log
  pub mailbox_kept : Keeps a.mailbox b.mailbox

Harmless-refl : (a : Agent) → Harmless a a
Harmless-refl a = record { transfers_kept = refl; mailbox_kept = Keeps-refl a.mailbox }

module _ (o : Surroundings) (quiet : QuietMeanwhile o) (a : Agent) (keyed : IsKeyed a.pilot.spends)
    (fresh : find o.processing.generated_id a.pilot.spends ≡ none) where
  handle_incoming-Harmless :
      (text : Text) (i : Option Incoming) → Harmless a (handle_incoming o a text i)
  unfolding handle_incoming handle_inbound_application
  handle_incoming-Harmless text none = Harmless-refl a
  handle_incoming-Harmless text (some i) =
      if_cases (Harmless a) (not i.has_jsonrpc)
        (λ _. record {
          transfers_kept = refl;
          mailbox_kept = handle_application-Keeps o.wire a.mailbox (o.wire.parse_application text);
        })
        (λ _. record {
          transfers_kept =
              dispatch_verified-transfers o quiet i a.pilot
                (verify_inbound_request o.verifying a.pilot i.envelope)
                (verify_inbound_request-KeepsMoney o.verifying a.pilot i.envelope) keyed fresh;
          mailbox_kept = Keeps-refl a.mailbox;
        })

  handle_decrypted-Harmless : (t : Option Text) → Harmless a (handle_decrypted o a t)
  unfolding handle_decrypted
  handle_decrypted-Harmless none = Harmless-refl a
  handle_decrypted-Harmless (some text) = handle_incoming-Harmless text (o.parse_incoming text)

-- A payload on the agent's inbox, from anyone and whatever it decrypts to: nothing more is handed to
-- the wallet, and no file key or group on file is changed. The condition is that what other handlers
-- do while a skill is dispatched hands nothing over either; the ids of the ledger differ, and the
-- generated one is not taken.
pub handle_inbound_a2a-Harmless :
    (o : Surroundings) (c : Cipher) (k : Keys) (a : Agent) (payload : Text)
    → QuietMeanwhile o
    → IsKeyed a.pilot.spends
    → find o.processing.generated_id a.pilot.spends ≡ none
    → Harmless a (handle_inbound_a2a o c k a payload)
unfolding handle_inbound_a2a
handle_inbound_a2a-Harmless o c k a payload quiet keyed fresh =
    if_cases (Harmless a) (is_empty k.enc_priv && is_empty k.ecies_priv) (λ _. Harmless-refl a)
      (λ _. handle_decrypted-Harmless o quiet a keyed fresh (a2a_try_decrypt c k payload))
