-- ===== src/Session/ClientSteps.antt =====
-- The client's steps of a session, cmd/client/main.go.
use mathlib.Core.Path.{subst}
use attachcloudip.Common.{
  ℕ, suc, ◌≡◌, sym, ap, ◌∙◌, List, [], ◌∷◌, ◌++◌, append_assoc, Bool, true, false, Option, none,
  some, nat_eq, arith, length, length-append, replicate-snoc,
}
use attachcloudip.Common.Text.{Text, text_eq}
use attachcloudip.Client.{registration_message}
use attachcloudip.Client.Program.{
  Program, Confirmation, confirm_reads, receiver_reads, tick, heartbeat_message,
}
use attachcloudip.Session.{Session, confirm_read, receiver_read, client_tick}
use attachcloudip.Session.Exchange.{Stage, announced, recorded, idle, answering, incoming, Agrees}

-- A message that arrives changes neither loop.
module _ (p : Program) (text : Text) where
  pub receiver_reads-delivered :
      (receiver_reads p (some text) true).delivered ≡ p.delivered ++ text ∷ []
  unfolding receiver_reads
  receiver_reads-delivered = ground arith

  receiver_reads-sent : (receiver_reads p (some text) true).sent ≡ p.sent
  unfolding receiver_reads
  receiver_reads-sent = ground arith

  receiver_reads-beating : (receiver_reads p (some text) true).beating ≡ p.beating
  unfolding receiver_reads
  receiver_reads-beating = ground arith

  receiver_reads-receiving : (receiver_reads p (some text) true).receiving ≡ p.receiving
  unfolding receiver_reads
  receiver_reads-receiving = ground arith

module _ (conn : ℕ) (id path : Text) (s : Session) where
  pub client_tick-Agrees :
      (stage : Stage) (k a : ℕ)
      → Agrees conn id path s stage k a
      → Agrees conn id path (client_tick s s.program.beating) stage (suc k) a
  unfolding client_tick tick
  client_tick-Agrees stage k a r =
      subst (λ b. Agrees conn id path (client_tick s b) stage (suc k) a) (sym r.beating)
        (record {
          phase = r.phase;
          to_server = ap (λ l. l ++ heartbeat_message ∷ []) r.to_server ∙ one_more stage;
          from_server = r.from_server;
          counted = omega (arith, length-append s.program.sent (heartbeat_message ∷ []), r.counted);
          unheard = r.unheard;
          entered = r.entered;
          beating = r.beating;
          receiving = r.receiving;
        })
    where
      one_more :
          (st : Stage)
          → incoming (registration_message id path) st k ++ heartbeat_message ∷ []
            ≡ incoming (registration_message id path) st (suc k)
      one_more announced =
          ap (λ l. registration_message id path ∷ l) (replicate-snoc k heartbeat_message)
      one_more recorded = replicate-snoc k heartbeat_message
      one_more idle = replicate-snoc k heartbeat_message
      one_more answering = replicate-snoc k heartbeat_message

  pub confirm_read-Agrees :
      (o : Option Confirmation) (l : List Text) (stage : Stage) (k a : ℕ)
      → s.to_client ≡ l
      → Agrees conn id path s stage k a
      → Agrees conn id path (confirm_read s o l) stage k a
  unfolding confirm_read confirm_reads
  confirm_read-Agrees (some c) l stage k a e r = r
  confirm_read-Agrees none [] stage k a e r = r
  confirm_read-Agrees none (text ∷ rest) stage k a e r = record {
    phase = r.phase;
    to_server = r.to_server;
    from_server =
        append_assoc s.program.delivered (text ∷ []) rest
        ∙ ap (λ m. s.program.delivered ++ m) (sym e)
        ∙ r.from_server;
    counted = r.counted;
    unheard = r.unheard;
    entered = r.entered;
    beating = r.beating;
    receiving = r.receiving;
  }

  pub receiver_read-Agrees :
      (b : Bool) (l : List Text) (stage : Stage) (k a : ℕ)
      → s.to_client ≡ l
      → Agrees conn id path s stage k a
      → Agrees conn id path (receiver_read s b l) stage k a
  unfolding receiver_read
  receiver_read-Agrees false l stage k a e r = r
  receiver_read-Agrees true [] stage k a e r = r
  receiver_read-Agrees true (text ∷ rest) stage k a e r = record {
    phase = r.phase;
    to_server = r.to_server;
    from_server =
        ap (λ d. d ++ rest) (receiver_reads-delivered s.program text)
        ∙ append_assoc s.program.delivered (text ∷ []) rest
        ∙ ap (λ m. s.program.delivered ++ m) (sym e)
        ∙ r.from_server;
    counted = ap length (receiver_reads-sent s.program text) ∙ r.counted;
    unheard = r.unheard;
    entered = r.entered;
    beating = receiver_reads-beating s.program text ∙ r.beating;
    receiving = receiver_reads-receiving s.program text ∙ r.receiving;
  }
