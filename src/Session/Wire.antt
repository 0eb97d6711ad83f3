-- ===== src/Session/Wire.antt =====
-- The session over a connection as TCP has it: one text in each direction, of which a read takes what
-- has arrived, up to the 1024 bytes of the buffers of cmd/client/main.go and cmd/server/tcpmanager.go.
pub mod Lines
pub mod Carrying
pub mod Messages
pub mod Refinement
pub mod Messaging
pub mod Draining
mod Examples
use attachcloudip.Common.{
  ℕ, suc, List, [], ◌∷◌, ◌++◌, Bool, true, false, Option, none, some, min, take, drop, concat,
}
use attachcloudip.Common.Text.{Text}
use attachcloudip.TcpManager.{TcpManager, Phase, awaiting, received, written, handle_client}
use attachcloudip.Client.{Client}
use attachcloudip.Client.Program.{
  Program, Confirmation, new_program, confirm_reads, receiver_reads, tick, heartbeat_message,
}
use attachcloudip.Session.{
  Session, reply, Move, ticks, confirm_gets, receiver_gets, server_gets, server_puts,
}

-- `to_server` and `to_client` are what was written and not yet read.
pub record Wire : Type 0 where
  pub program : Program
  pub manager : TcpManager
  pub phase : Phase
  pub to_server : Text
  pub to_client : Text

unfoldable pub new_wire : Client → TcpManager → Wire
unfolding new_program
new_wire c m = record {
  program = new_program c;
  manager = m;
  phase = awaiting;
  to_server = concat (new_program c).sent;
  to_client = [];
}

-- What a read gives and what it leaves; `n` is how much more than one has arrived.
abbrev pub chunk : ℕ → Text → Text
chunk n stream = take (suc (min n 1023)) stream

abbrev pub left : ℕ → Text → Text
left n stream = drop (suc (min n 1023)) stream

unfoldable pub wire_advance : Wire → Text → Option (TcpManager × Phase) → Wire
wire_advance w rest none = w
wire_advance w rest (some (m, phase)) = record w { manager = m; phase = phase; to_server = rest }

-- A read of nothing waits.
unfoldable pub wire_server_read : ℕ → ℕ → Wire → Text → Text → Wire
unfolding wire_advance
wire_server_read conn now w [] rest = w
wire_server_read conn now w (c ∷ text) rest =
    wire_advance w rest (handle_client w.manager conn now w.phase (received (c ∷ text)))

unfoldable pub wire_answer : Wire → Text → Option (TcpManager × Phase) → Wire
wire_answer w text none = w
wire_answer w text (some (m, phase)) = record w {
  manager = m;
  phase = phase;
  to_client = w.to_client ++ text;
}

unfoldable pub wire_server_write : ℕ → ℕ → Wire → Option Text → Wire
unfolding wire_answer
wire_server_write conn now w none = w
wire_server_write conn now w (some text) =
    wire_answer w text (handle_client w.manager conn now w.phase written)

unfoldable pub wire_confirm_read : Wire → Option Confirmation → Text → Text → Wire
wire_confirm_read w none (c ∷ text) rest = record w {
  program = confirm_reads w.program (some (c ∷ text)) none;
  to_client = rest;
}
wire_confirm_read w _ _ rest = w

unfoldable pub wire_receiver_read : Wire → Bool → Text → Text → Wire
wire_receiver_read w true (c ∷ text) rest = record w {
  program = receiver_reads w.program (some (c ∷ text)) true;
  to_client = rest;
}
wire_receiver_read w _ _ rest = w

unfoldable pub wire_tick : Wire → Bool → Wire
wire_tick w true = record w {
  program = tick w.program true true;
  to_server = w.to_server ++ heartbeat_message;
}
wire_tick w false = w

pub data WireMove : Type 0 where
  beats : WireMove
  confirm_takes receiver_takes server_replies : ℕ → WireMove
  server_takes : ℕ → ℕ → WireMove

unfoldable pub wire_move : ℕ → Wire → WireMove → Wire
unfolding wire_tick wire_confirm_read wire_receiver_read wire_server_read wire_server_write reply
wire_move conn w beats = wire_tick w w.program.beating
wire_move conn w (confirm_takes n) =
    wire_confirm_read w w.program.confirmation (chunk n w.to_client) (left n w.to_client)
wire_move conn w (receiver_takes n) =
    wire_receiver_read w w.program.receiving (chunk n w.to_client) (left n w.to_client)
wire_move conn w (server_takes now n) =
    wire_server_read conn now w (chunk n w.to_server) (left n w.to_server)
wire_move conn w (server_replies now) = wire_server_write conn now w (reply w.phase)

unfoldable pub wire_run : ℕ → Wire → List WireMove → Wire
unfolding wire_move
wire_run conn w [] = w
wire_run conn w (y ∷ ys) = wire_run conn (wire_move conn w y) ys

-- The same step where a read gives a whole message.
abbrev pub as_move : WireMove → Move
as_move beats = ticks
as_move (confirm_takes n) = confirm_gets
as_move (receiver_takes n) = receiver_gets
as_move (server_takes now n) = server_gets now
as_move (server_replies now) = server_puts now
