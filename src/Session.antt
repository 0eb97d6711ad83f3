-- ===== src/Session.antt =====
-- One client of cmd/client/main.go and its handler of cmd/server/tcpmanager.go on a connection that
-- does not fail: what one side writes, the other reads, one message at a time and in order.
pub mod Exchange
pub mod ClientSteps
pub mod ServerSteps
pub mod Refinement
pub mod Draining
pub mod Messaging
pub mod Joining
pub mod Unreachable
pub mod Confirming
pub mod Coalesced
pub mod Wire
mod Sample
mod Examples
use attachcloudip.Common.{ℕ, suc, List, [], ◌∷◌, ◌++◌, Bool, true, false, Option, none, some}
use attachcloudip.Common.Text.{Text, codes}
use attachcloudip.TcpManager.{
  TcpManager, Phase, awaiting, confirming, serving, acking, finished, Event, received, written,
  handle_client,
}
use attachcloudip.Client.{Client}
use attachcloudip.Client.Program.{
  Program, Confirmation, new_program, confirm_reads, receiver_reads, tick, line, heartbeat_message,
}

pub record Session : Type 0 where
  pub program : Program
  pub manager : TcpManager
  pub phase : Phase
  pub to_server : List Text
  pub to_client : List Text

-- The client has written its registration, and the server has accepted the connection.
unfoldable pub new_session : Client → TcpManager → Session
unfolding new_program
new_session c m = record {
  program = new_program c;
  manager = m;
  phase = awaiting;
  to_server = (new_program c).sent;
  to_client = [];
}

unfoldable pub advance : Session → List Text → Option (TcpManager × Phase) → Session
advance s rest none = s
advance s rest (some (m, phase)) = record s { manager = m; phase = phase; to_server = rest }

-- The server reads the next message, if its handler waits for one.
unfoldable pub server_read : ℕ → ℕ → Session → Phase → List Text → Session
unfolding advance
server_read conn now s phase [] = s
server_read conn now s phase (text ∷ rest) =
    advance s rest (handle_client s.manager conn now phase (received text))

-- What the handler writes where it waits for a write.
unfoldable pub reply : Phase → Option Text
unfolding line
reply (confirming id) = some (line (codes "registered"))
reply (acking id) = some (line (codes "heartbeat-ack"))
reply _ = none

unfoldable pub answer : Session → Text → Option (TcpManager × Phase) → Session
answer s text none = s
answer s text (some (m, phase)) = record s {
  manager = m;
  phase = phase;
  to_client = s.to_client ++ text ∷ [];
}

unfoldable pub server_write : ℕ → ℕ → Session → Phase → Option Text → Session
unfolding answer
server_write conn now s phase none = s
server_write conn now s phase (some text) =
    answer s text (handle_client s.manager conn now phase written)

-- The goroutine that waits for the confirmation reads, and so does `receiveMessages`.
unfoldable pub confirm_read : Session → Option Confirmation → List Text → Session
confirm_read s none (text ∷ rest) = record s {
  program = confirm_reads s.program (some text) none;
  to_client = rest;
}
confirm_read s _ _ = s

unfoldable pub receiver_read : Session → Bool → List Text → Session
receiver_read s true (text ∷ rest) = record s {
  program = receiver_reads s.program (some text) true;
  to_client = rest;
}
receiver_read s _ _ = s

unfoldable pub client_tick : Session → Bool → Session
client_tick s true = record s {
  program = tick s.program true true;
  to_server = s.to_server ++ heartbeat_message ∷ [];
}
client_tick s false = s

pub data Move : Type 0 where
  ticks confirm_gets receiver_gets : Move
  server_gets server_puts : ℕ → Move

unfoldable pub move : ℕ → Session → Move → Session
unfolding client_tick confirm_read receiver_read server_read server_write reply
move conn s ticks = client_tick s s.program.beating
move conn s confirm_gets = confirm_read s s.program.confirmation s.to_client
move conn s receiver_gets = receiver_read s s.program.receiving s.to_client
move conn s (server_gets now) = server_read conn now s s.phase s.to_server
move conn s (server_puts now) = server_write conn now s s.phase (reply s.phase)

unfoldable pub run : ℕ → Session → List Move → Session
unfolding move
run conn s [] = s
run conn s (x ∷ xs) = run conn (move conn s x) xs
