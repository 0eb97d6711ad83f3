-- ===== src/Session/Confirming.antt =====
-- Which goroutine of cmd/client/main.go reads the server's confirmation.
use mathlib.Core.Path.{subst}
use attachcloudip.Common.{
  ℕ, zero, suc, ◌≡◌, ◌≢◌, refl, sym, ap, ◌∙◌, List, [], ◌∷◌, ◌++◌, Bool, true, false, Option, none,
  some, arith, replicate,
}
use attachcloudip.Common.Text.{Text, codes, text_eq, text_beq}
use attachcloudip.Strings.{trim_space, trim_left_func, trim_right_func, cons_trimmed, is_space}
use attachcloudip.Strings.Parts.{Lacks}
use attachcloudip.TcpManager.{TcpManager, newline}
use attachcloudip.TcpManager.Registration.{IsField}
use attachcloudip.Client.{Client}
use attachcloudip.Client.Program.{
  Program, Confirmation, read_failed, registered, unexpected, confirm, confirm_reads,
  receiver_reads, tick, line,
}
use attachcloudip.Session.{
  Session, new_session, server_read, server_write, advance, answer, reply, confirm_read,
  receiver_read, client_tick, Move, ticks, confirm_gets, receiver_gets, server_gets, server_puts,
  move, run,
}
use attachcloudip.Session.Exchange.{
  Stage, announced, recorded, idle, answering, Exchange, exchange, exchange_move, exchange_run,
  outgoing, Implements,
}
use attachcloudip.Session.ClientSteps.{receiver_reads-delivered}
use attachcloudip.Session.Refinement.{move-Implements, run-new_session-Implements}

acknowledgement : Text
unfolding line
acknowledgement = line (codes "heartbeat-ack")

confirm-acknowledgement : confirm (some acknowledgement) ≡ unexpected (codes "heartbeat-ack")
unfolding acknowledgement confirm trim_space trim_left_func trim_right_func cons_trimmed is_space
    text_beq
confirm-acknowledgement = refl

replicate-middle :
    (xs : List Text) (y : Text) (zs : List Text) (n : ℕ) (a : Text)
    → xs ++ y ∷ zs ≡ replicate n a
    → y ≡ a
replicate-middle [] y zs zero a e = cc
replicate-middle [] y zs (suc n) a e = cc
replicate-middle (x ∷ xs) y zs zero a e = cc
replicate-middle (x ∷ xs) y zs (suc n) a e = replicate-middle xs y zs n a (cc)

-- What comes after the first message is an acknowledgement.
later_message :
    (delivered : List Text) (text : Text) (rest : List Text) (stage : Stage) (a : ℕ)
    → delivered ≢ []
    → delivered ++ text ∷ rest ≡ outgoing stage a
    → text ≡ acknowledgement
unfolding acknowledgement
later_message [] text rest stage a n e = absurd (n refl)
later_message (d ∷ ds) text rest announced a n e = cc
later_message (d ∷ ds) text rest recorded a n e = cc
later_message (d ∷ ds) text rest idle a n e = replicate-middle ds text rest a _ (cc)
later_message (d ∷ ds) text rest answering a n e = replicate-middle ds text rest a _ (cc)

-- Not confirmed, or confirmed with the wrong message.
abbrev IsMissed : Option Confirmation → Type 0
IsMissed none = Unit
IsMissed (some (unexpected text)) = Unit
IsMissed (some _) = ⊥

record Missed (s : Session) : Type 0 where
  some_read : s.program.delivered ≢ []
  missed : IsMissed s.program.confirmation

snoc-ne-nil : (xs : List Text) (x : Text) → xs ++ x ∷ [] ≢ []
snoc-ne-nil [] x e = cc
snoc-ne-nil (y ∷ xs) x e = cc

confirm_read-Missed :
    (s : Session) (o : Option Confirmation) (l : List Text) (stage : Stage) (a : ℕ)
    → s.program.delivered ++ l ≡ outgoing stage a
    → Missed s
    → IsMissed o
    → Missed (confirm_read s o l)
unfolding confirm_read confirm_reads
confirm_read-Missed s (some c) l stage a e m i = m
confirm_read-Missed s none [] stage a e m i = m
confirm_read-Missed s none (text ∷ rest) stage a e m i = record {
  some_read = snoc-ne-nil s.program.delivered text;
  missed =
      subst (λ c. IsMissed (some c))
        (sym (
          ap (λ t. confirm (some t))
            (later_message s.program.delivered text rest stage a m.some_read e)
          ∙ confirm-acknowledgement))
        tt;
}

receiver_reads-confirmation :
    (p : Program) (text : Text) → (receiver_reads p (some text) true).confirmation ≡ p.confirmation
unfolding receiver_reads
receiver_reads-confirmation p text = ground arith

receiver_read-Missed :
    (s : Session) (b : Bool) (l : List Text) → Missed s → Missed (receiver_read s b l)
unfolding receiver_read
receiver_read-Missed s false l m = m
receiver_read-Missed s true [] m = m
receiver_read-Missed s true (text ∷ rest) m = record {
  some_read =
      λ e. snoc-ne-nil s.program.delivered text (sym (receiver_reads-delivered s.program text) ∙ e);
  missed = subst IsMissed (sym (receiver_reads-confirmation s.program text)) m.missed;
}

client_tick-Missed : (s : Session) (b : Bool) → Missed s → Missed (client_tick s b)
unfolding client_tick tick
client_tick-Missed s false m = m
client_tick-Missed s true m = record { some_read = m.some_read; missed = m.missed }

-- The server's steps leave the client as it is.
same_program : (s t : Session) → t.program ≡ s.program → Missed s → Missed t
same_program s t e m = record {
  some_read = λ f. m.some_read (sym (ap (λ p. p.delivered) e) ∙ f);
  missed = subst (λ (p : Program). IsMissed p.confirmation) (sym e) m.missed;
}

server_read-program :
    (conn now : ℕ) (s : Session) (l : List Text)
    → (server_read conn now s s.phase l).program ≡ s.program
unfolding server_read advance
server_read-program conn now s [] = refl
server_read-program conn now s (text ∷ rest) = ground arith

server_write-program :
    (conn now : ℕ) (s : Session) (o : Option Text)
    → (server_write conn now s s.phase o).program ≡ s.program
unfolding server_write answer
server_write-program conn now s none = refl
server_write-program conn now s (some text) = ground arith

move-Missed :
    (conn : ℕ) (id path : Text) (s : Session) (x : Exchange) (y : Move)
    → Implements conn id path s x
    → Missed s
    → Missed (move conn s y)
unfolding move
move-Missed conn id path s (exchange stage k a) ticks r m = client_tick-Missed s s.program.beating m
move-Missed conn id path s (exchange stage k a) confirm_gets r m =
    confirm_read-Missed s s.program.confirmation s.to_client stage a r.from_server m m.missed
move-Missed conn id path s (exchange stage k a) receiver_gets r m =
    receiver_read-Missed s s.program.receiving s.to_client m
move-Missed conn id path s (exchange stage k a) (server_gets now) r m =
    same_program s _ (server_read-program conn now s s.to_server) m
move-Missed conn id path s (exchange stage k a) (server_puts now) r m =
    same_program s _ (server_write-program conn now s (reply s.phase)) m

module _ (conn : ℕ) (id path : Text) (f : IsField id) (g : IsField path)
    (h : Lacks newline path) where
  run-Missed :
      (s : Session) (x : Exchange) (ys : List Move)
      → Implements conn id path s x
      → Missed s
      → Missed (run conn s ys)
  unfolding run
  run-Missed s x [] r m = m
  run-Missed s x (y ∷ ys) r m =
      run-Missed (move conn s y) (exchange_move x y) ys (move-Implements conn id path f g h s x y r)
        (move-Missed conn id path s x y r m)

missed-ne-registered : (o : Option Confirmation) → IsMissed o → o ≢ some registered
missed-ne-registered none m e = cc
missed-ne-registered (some (unexpected text)) m e = cc
missed-ne-registered (some registered) m e = m
missed-ne-registered (some read_failed) m e = m

-- The goroutine that waits for the confirmation races with `receiveMessages`. In a session of a
-- client whose ID and path are fields, the path on one line: once messages were read and none of
-- them by that goroutine, the client never takes itself for registered, whatever steps follow.
pub receiver_first-unregistered :
    (conn : ℕ) (c : Client) (m : TcpManager) (ys zs : List Move)
    → IsField c.id
    → IsField c.path
    → Lacks newline c.path
    → (run conn (new_session c m) ys).program.delivered ≢ []
    → (run conn (new_session c m) ys).program.confirmation ≡ none
    → (run conn (run conn (new_session c m) ys) zs).program.confirmation ≢ some registered
receiver_first-unregistered conn c m ys zs f g h n e =
    let s = run conn (new_session c m) ys in
    missed-ne-registered (run conn s zs).program.confirmation
      (run-Missed conn c.id c.path f g h s (exchange_run (exchange announced 0 0) ys) zs
        (run-new_session-Implements conn c m ys f g h)
        (record { some_read = n; missed = subst IsMissed (sym e) tt })).missed
