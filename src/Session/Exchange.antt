-- ===== src/Session/Exchange.antt =====
-- What a session promises, as a machine that only counts: the stage of the client, the heartbeats that
-- wait, and the acknowledgements. Between client and server it stands for cmd/client/main.go and
-- cmd/server/tcpmanager.go.
use attachcloudip.Common.{
  ℕ, suc, ◌+◌, ◌≡◌, List, [], ◌∷◌, ◌++◌, true, some, nat_eq, length, replicate,
}
use attachcloudip.Common.Map.{lookup}
use attachcloudip.Common.Text.{Text, codes, text_eq}
use attachcloudip.TcpManager.{ClientInfo, TcpManager, Phase, awaiting, confirming, serving, acking}
use attachcloudip.Client.{registration_message}
use attachcloudip.Client.Program.{line, heartbeat_message}
use attachcloudip.Session.{
  Session, Move, ticks, confirm_gets, receiver_gets, server_gets, server_puts,
}

-- The client is announced, recorded in the table, idle, or being answered.
pub data Stage : Type 0 where
  announced recorded idle answering : Stage

-- The heartbeats that wait for the server, and the acknowledgements that it has written.
pub data Exchange : Type 0 where
  exchange : Stage → ℕ → ℕ → Exchange

unfoldable pub exchange_read : Exchange → Exchange
exchange_read (exchange announced k a) = exchange recorded k a
exchange_read (exchange idle (suc k) a) = exchange answering k a
exchange_read x = x

unfoldable pub exchange_write : Exchange → Exchange
exchange_write (exchange recorded k a) = exchange idle k a
exchange_write (exchange answering k a) = exchange idle k (suc a)
exchange_write x = x

unfoldable pub exchange_tick : Exchange → Exchange
exchange_tick (exchange stage k a) = exchange stage (suc k) a

unfoldable pub exchange_move : Exchange → Move → Exchange
unfolding exchange_read exchange_write exchange_tick
exchange_move x ticks = exchange_tick x
exchange_move x (server_gets now) = exchange_read x
exchange_move x (server_puts now) = exchange_write x
exchange_move x confirm_gets = x
exchange_move x receiver_gets = x

unfoldable pub exchange_run : Exchange → List Move → Exchange
unfolding exchange_move
exchange_run x [] = x
exchange_run x (y ∷ ys) = exchange_run (exchange_move x y) ys

-- What the abstract state stands for.
abbrev pub phase_of : Text → Stage → Phase
phase_of id announced = awaiting
phase_of id recorded = confirming id
phase_of id idle = serving id
phase_of id answering = acking id

-- The heartbeats that the server has read.
abbrev pub heard : Stage → ℕ → ℕ
heard answering a = suc a
heard _ a = a

abbrev pub incoming : Text → Stage → ℕ → List Text
incoming announcement announced k = announcement ∷ replicate k heartbeat_message
incoming announcement _ k = replicate k heartbeat_message

abbrev pub outgoing : Stage → ℕ → List Text
outgoing idle a = line (codes "registered") ∷ replicate a (line (codes "heartbeat-ack"))
outgoing answering a = line (codes "registered") ∷ replicate a (line (codes "heartbeat-ack"))
outgoing _ a = []

-- Nothing is acknowledged before the client is confirmed.
abbrev pub Unheard : Stage → ℕ → Type 0
Unheard announced a = a ≡ 0
Unheard recorded a = a ≡ 0
Unheard _ a = Unit

-- The client stands in the table, on its connection and under its path.
abbrev pub Entered : ℕ → Text → Text → TcpManager → Stage → Type 0
Entered conn id path m announced = Unit
Entered conn id path m _ =
    (c : ClientInfo) × (lookup id m.clients ≡ some c) × (c.conn ≡ conn) × (c.path ≡ path)

pub record Agrees (conn : ℕ) (id path : Text) (s : Session) (stage : Stage) (k a : ℕ) : Type 0 where
  pub phase : s.phase ≡ phase_of id stage
  pub to_server : s.to_server ≡ incoming (registration_message id path) stage k
  pub from_server : s.program.delivered ++ s.to_client ≡ outgoing stage a
  pub counted : length s.program.sent ≡ suc (k + heard stage a)
  pub unheard : Unheard stage a
  pub entered : Entered conn id path s.manager stage
  pub beating : s.program.beating ≡ true
  pub receiving : s.program.receiving ≡ true

abbrev pub Implements : ℕ → Text → Text → Session → Exchange → Type 0
Implements conn id path s (exchange stage k a) = Agrees conn id path s stage k a
