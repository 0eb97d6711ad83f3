-- ===== src/Session/Draining.antt =====
-- How a session of cmd/client/main.go and cmd/server/tcpmanager.go goes on when the server's
-- handler takes its turns.
use mathlib.Core.Path.{subst}
use attachcloudip.Common.{
  ℕ, zero, suc, ◌+◌, ◌≤◌, ◌≡◌, refl, ap, ◌∙◌, List, [], ◌∷◌, ◌++◌, nat_eq, arith, length, replicate,
}
use attachcloudip.Common.Text.{Text, codes, text_eq}
use attachcloudip.Strings.Parts.{Lacks}
use attachcloudip.TcpManager.{newline}
use attachcloudip.TcpManager.Registration.{IsField}
use attachcloudip.Client.Program.{line, heartbeat_message}
use attachcloudip.Session.{Session, Move, server_gets, server_puts, run}
use attachcloudip.Session.Exchange.{
  announced, recorded, idle, answering, Exchange, exchange, exchange_read, exchange_write,
  exchange_move, exchange_run, heard, Implements,
}
use attachcloudip.Session.Refinement.{run-Implements}

-- The handler reads and writes in turn.
abbrev pub turns : ℕ → ℕ → List Move
turns now zero = []
turns now (suc n) = server_gets now ∷ server_puts now ∷ turns now n

exchange_run-idle :
    (now n k a : ℕ)
    → k ≤ n
    → exchange_run (exchange idle k a) (turns now n) ≡ exchange idle 0 (k + a)
unfolding exchange_run exchange_move exchange_read exchange_write
exchange_run-idle now zero zero a h = ap (exchange idle 0) (omega arith)
exchange_run-idle now zero (suc k) a h = absurd (omega arith)
exchange_run-idle now (suc n) zero a h = exchange_run-idle now n zero a (omega arith)
exchange_run-idle now (suc n) (suc k) a h =
    exchange_run-idle now n k (suc a) (omega arith) ∙ ap (exchange idle 0) (omega arith)

-- The turns that leave nothing to answer.
abbrev pub enough : Exchange → ℕ
enough (exchange idle k a) = k
enough (exchange _ k a) = suc k

abbrev pub owed : Exchange → ℕ
owed (exchange stage k a) = k + heard stage a

pub exchange_run-enough :
    (now n : ℕ) (x : Exchange)
    → enough x ≤ n
    → exchange_run x (turns now n) ≡ exchange idle 0 (owed x)
unfolding exchange_run exchange_move exchange_read exchange_write
exchange_run-enough now zero (exchange announced k a) h = absurd (omega arith)
exchange_run-enough now zero (exchange recorded k a) h = absurd (omega arith)
exchange_run-enough now zero (exchange answering k a) h = absurd (omega arith)
exchange_run-enough now (suc n) (exchange announced k a) h =
    exchange_run-idle now n k a (omega arith)
exchange_run-enough now (suc n) (exchange recorded k a) h =
    exchange_run-idle now n k a (omega arith)
exchange_run-enough now n (exchange idle k a) h = exchange_run-idle now n k a h
exchange_run-enough now (suc n) (exchange answering k a) h =
    exchange_run-idle now n k (suc a) (omega arith)

-- Once it is idle, the client has one confirmation and one acknowledgement for each heartbeat.
pub record Drained (s t : Session) : Type 0 where
  pub heartbeats : ℕ
  pub sent : length s.program.sent ≡ suc heartbeats
  pub nothing_waits : t.to_server ≡ []
  pub answers :
      t.program.delivered ++ t.to_client
      ≡ line (codes "registered") ∷ replicate heartbeats (line (codes "heartbeat-ack"))

length-replicate : (n : ℕ) (text : Text) → length (replicate n text) ≡ n
length-replicate zero text = refl
length-replicate (suc n) text = ap suc (length-replicate n text)

module _ (conn : ℕ) (id path : Text) (f : IsField id) (g : IsField path)
    (h : Lacks newline path) where
  sent-owed :
      (s : Session) (x : Exchange)
      → Implements conn id path s x
      → length s.program.sent ≡ suc (owed x)
  sent-owed s (exchange stage k a) r = r.counted

  pub enough-le :
      (s : Session) (x : Exchange)
      → Implements conn id path s x
      → enough x ≤ suc (length s.to_server)
  enough-le s (exchange announced k a) r =
      omega (arith, ap (length {A = Text}) r.to_server, length-replicate k heartbeat_message)
  enough-le s (exchange recorded k a) r =
      omega (arith, ap (length {A = Text}) r.to_server, length-replicate k heartbeat_message)
  enough-le s (exchange idle k a) r =
      omega (arith, ap (length {A = Text}) r.to_server, length-replicate k heartbeat_message)
  enough-le s (exchange answering k a) r =
      omega (arith, ap (length {A = Text}) r.to_server, length-replicate k heartbeat_message)

  pub run-Drained :
      (now n : ℕ) (s : Session) (x : Exchange)
      → Implements conn id path s x
      → enough x ≤ n
      → Drained s (run conn s (turns now n))
  run-Drained now n s x r h' =
      let last : Implements conn id path (run conn s (turns now n)) (exchange idle 0 (owed x)) =
        subst (Implements conn id path (run conn s (turns now n))) (exchange_run-enough now n x h')
          (run-Implements conn id path f g h s x (turns now n) r) in
      record {
        heartbeats = owed x;
        sent = sent-owed s x r;
        nothing_waits = last.to_server;
        answers = last.from_server;
      }
