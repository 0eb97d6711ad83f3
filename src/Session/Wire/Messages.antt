-- ===== src/Session/Wire/Messages.antt =====
-- What the programs of cmd/client/main.go and cmd/server/tcpmanager.go write in a session are lines.
use attachcloudip.Common.{
  ℕ, ◌≢◌, refl, List, [], ◌∷◌, ◌++◌, Bool, true, false, Option, none, some, All, All-append, arith,
  nat_eq,
}
use attachcloudip.Common.Text.{Text, codes, text_eq}
use attachcloudip.Strings.Parts.{Lacks}
use attachcloudip.TcpManager.{
  TcpManager, Phase, awaiting, confirming, serving, acking, finished, newline, bar, received,
  written, handle_client,
}
use attachcloudip.Client.{Client, registration_message}
use attachcloudip.Client.Program.{Confirmation, line, heartbeat_message, new_program}
use attachcloudip.Session.{
  Session, new_session, advance, server_read, reply, answer, server_write, confirm_read,
  receiver_read, client_tick, Move, ticks, confirm_gets, receiver_gets, server_gets, server_puts,
  move, run,
}
use attachcloudip.Session.Wire.Lines.{IsLine}
use attachcloudip.Session.Wire.Carrying.{Lines}

line-IsLine : (t : Text) → Lacks newline t → IsLine (line t)
unfolding line
line-IsLine t h = record { start = t; ends = refl; one = h }

heartbeat-IsLine : IsLine heartbeat_message
unfolding heartbeat_message
heartbeat-IsLine = line-IsLine (codes "heartbeat") (omega arith)

advance-Lines :
    (s : Session) (rest : List Text) (o : Option (TcpManager × Phase))
    → Lines s
    → All IsLine rest
    → Lines (advance s rest o)
unfolding advance
advance-Lines s rest none h k = h
advance-Lines s rest (some (m, phase)) h k = record { incoming = k; outgoing = h.outgoing }

server_read-Lines :
    (conn now : ℕ) (s : Session) (l : List Text)
    → Lines s
    → All IsLine l
    → Lines (server_read conn now s s.phase l)
unfolding server_read
server_read-Lines conn now s [] h k = h
server_read-Lines conn now s (x ∷ xs) h k =
    advance-Lines s xs (handle_client s.manager conn now s.phase (received x)) h k.1

answer-Lines :
    (s : Session) (text : Text) (o : Option (TcpManager × Phase))
    → Lines s
    → IsLine text
    → Lines (answer s text o)
unfolding answer
answer-Lines s text none h k = h
answer-Lines s text (some (m, phase)) h k = record {
  incoming = h.incoming;
  outgoing = All-append IsLine s.to_client (text ∷ []) h.outgoing (k, tt);
}

server_write-Lines :
    (conn now : ℕ) (s : Session) (p : Phase)
    → Lines s
    → Lines (server_write conn now s s.phase (reply p))
unfolding server_write reply
server_write-Lines conn now s awaiting h = h
server_write-Lines conn now s (confirming id) h =
    answer-Lines s _ (handle_client s.manager conn now s.phase written) h
      (line-IsLine (codes "registered") (omega arith))
server_write-Lines conn now s (serving id) h = h
server_write-Lines conn now s (acking id) h =
    answer-Lines s _ (handle_client s.manager conn now s.phase written) h
      (line-IsLine (codes "heartbeat-ack") (omega arith))
server_write-Lines conn now s finished h = h

confirm_read-Lines :
    (s : Session) (o : Option Confirmation) (l : List Text)
    → Lines s
    → All IsLine l
    → Lines (confirm_read s o l)
unfolding confirm_read
confirm_read-Lines s (some d) l h k = h
confirm_read-Lines s none [] h k = h
confirm_read-Lines s none (x ∷ xs) h k = record { incoming = h.incoming; outgoing = k.1 }

receiver_read-Lines :
    (s : Session) (b : Bool) (l : List Text) → Lines s → All IsLine l → Lines (receiver_read s b l)
unfolding receiver_read
receiver_read-Lines s false l h k = h
receiver_read-Lines s true [] h k = h
receiver_read-Lines s true (x ∷ xs) h k = record { incoming = h.incoming; outgoing = k.1 }

client_tick-Lines : (s : Session) (b : Bool) → Lines s → Lines (client_tick s b)
unfolding client_tick
client_tick-Lines s false h = h
client_tick-Lines s true h = record {
  incoming =
      All-append IsLine s.to_server (heartbeat_message ∷ []) h.incoming (heartbeat-IsLine, tt);
  outgoing = h.outgoing;
}

pub move-Lines : (conn : ℕ) (s : Session) (y : Move) → Lines s → Lines (move conn s y)
unfolding move
move-Lines conn s ticks h = client_tick-Lines s s.program.beating h
move-Lines conn s confirm_gets h =
    confirm_read-Lines s s.program.confirmation s.to_client h h.outgoing
move-Lines conn s receiver_gets h =
    receiver_read-Lines s s.program.receiving s.to_client h h.outgoing
move-Lines conn s (server_gets now) h = server_read-Lines conn now s s.to_server h h.incoming
move-Lines conn s (server_puts now) h = server_write-Lines conn now s s.phase h

pub new_session-Lines :
    (c : Client) (m : TcpManager)
    → Lacks newline c.id
    → Lacks newline c.path
    → Lines (new_session c m)
unfolding new_session new_program registration_message
new_session-Lines c m h k = record {
  incoming = (
    record {
      start = c.id ++ bar ∷ c.path;
      ends = refl;
      one = All-append (λ d. d ≢ newline) c.id (bar ∷ c.path) h (omega arith, k);
    },
    tt,
  );
  outgoing = tt;
}

pub run-Lines : (conn : ℕ) (s : Session) (ys : List Move) → Lines s → Lines (run conn s ys)
unfolding run
run-Lines conn s [] h = h
run-Lines conn s (y ∷ ys) h = run-Lines conn (move conn s y) ys (move-Lines conn s y h)
