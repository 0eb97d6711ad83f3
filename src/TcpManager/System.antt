-- ===== src/TcpManager/System.antt =====
-- The goroutines of cmd/server/tcpmanager.go: `HandleIncomingRequests`, which starts a handler for
-- each connection, and the handlers, whose steps come in any order.
use attachcloudip.Common.{ℕ, List, [], ◌∷◌, Option, none, some, nat_eq}
use attachcloudip.Common.Map.{Map, lookup, insert}
use attachcloudip.TcpManager.{TcpManager, new_tcp_manager, handle_client, Phase, awaiting, Event}

pub record System : Type 0 where
  pub manager : TcpManager
  pub handlers : Map ℕ Phase

unfoldable pub new_system : System
unfolding new_tcp_manager
new_system = record { manager = new_tcp_manager; handlers = [] }

-- A round of the accept loop: a failed accept changes nothing, and a connection that is accepted is
-- one that was not there before.
unfoldable pub handle_incoming : System → Option ℕ → System
unfolding lookup
handle_incoming s none = s
handle_incoming s (some conn) = elim (lookup conn s.handlers) [
  | none ↦ record s { handlers = insert conn awaiting s.handlers }
  | some phase ↦ s
]

unfoldable pub resume : System → ℕ → Option (TcpManager × Phase) → System
resume s conn none = s
resume s conn (some (m, phase)) = record { manager = m; handlers = insert conn phase s.handlers }

pub data Move : Type 0 where
  accepts : Option ℕ → Move
  answers : ℕ → ℕ → Event → Move

-- The handler of the connection goes on with what the network answers at the given time.
unfoldable pub handle : System → ℕ → ℕ → Event → System
unfolding lookup resume
handle s conn now event = elim (lookup conn s.handlers) [
  | none ↦ s
  | some phase ↦ resume s conn (handle_client s.manager conn now phase event)
]

unfoldable pub move : System → Move → System
unfolding handle_incoming handle
move s (accepts answer) = handle_incoming s answer
move s (answers conn now event) = handle s conn now event

unfoldable pub run : System → List Move → System
unfolding move
run s [] = s
run s (x ∷ xs) = run (move s x) xs
