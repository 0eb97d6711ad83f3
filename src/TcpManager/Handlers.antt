-- ===== src/TcpManager/Handlers.antt =====
-- What single steps of a handler of cmd/server/tcpmanager.go do to the clients of the others.
use mathlib.Core.Option
use attachcloudip.Common.{
  ℕ, ◌≡◌, ◌≢◌, refl, ◌∷◌, true, none, some, contains, nat_eq, nat_beq_iff, arith, ◌==◌,
  if◌then◌else◌,
}
use attachcloudip.Common.Map.{lookup, insert, lookup-insert}
use attachcloudip.Common.Text.{Text, codes, text_eq, text_beq, text_beq_iff}
use attachcloudip.Strings.{trim_space}
use attachcloudip.TcpManager.{
  ClientInfo, TcpManager, handle_client, next_message, give_up, leave, close, remove_client,
  update_client_activity, Phase, serving, acking, finished, Event, received, read_failed,
}
use attachcloudip.TcpManager.Table.{remove_client-clients, update_client_activity-clients, touch}
use attachcloudip.TcpManager.System.{System, resume, handle}

-- A step of a handler that is there.
handle_lem :
    (s : System) (conn now : ℕ) (phase phase' : Phase) (m : TcpManager) (event : Event)
    → lookup conn s.handlers ≡ some phase
    → handle_client s.manager conn now phase event ≡ some (m, phase')
    → handle s conn now event ≡ record { manager = m; handlers = insert conn phase' s.handlers }
unfolding handle resume
handle_lem s conn now phase phase' m event e f = rw (e, handle, f) refl

remove_client-closed :
    (m : TcpManager) (id : Text) (c : ClientInfo)
    → lookup id m.clients ≡ some c
    → (remove_client m id).closed ≡ c.conn ∷ m.closed
unfolding remove_client
remove_client-closed m id c e = ground (arith, e)

-- A client that has registered again under its ID loses its new connection when the handler of its
-- old one fails to read: the handler removes whatever stands under the ID, so that the new client is
-- out of the table and its connection closed, although its own handler goes on.
pub stale_handler-drops :
    (s : System) (conn now : ℕ) (id : Text) (c : ClientInfo)
    → lookup conn s.handlers ≡ some (serving id)
    → lookup id s.manager.clients ≡ some c
    → c.conn ≢ conn
    → (lookup id (handle s conn now read_failed).manager.clients ≡ none)
      × (contains (handle s conn now read_failed).manager.closed c.conn ≡ true)
      × (lookup c.conn (handle s conn now read_failed).handlers ≡ lookup c.conn s.handlers)
unfolding handle_client give_up leave close contains
stale_handler-drops s conn now id c e f n =
    rw (handle_lem s conn now (serving id) finished _ read_failed e refl) (
      ground (arith, remove_client-clients s.manager id id, text_beq_iff id id),
      ground (arith, remove_client-closed s.manager id c f, nat_beq_iff c.conn c.conn),
      ground (arith, lookup-insert conn c.conn finished s.handlers, nat_beq_iff conn c.conn),
    )

heartbeat-step :
    (s : System) (conn now : ℕ) (id text : Text)
    → lookup conn s.handlers ≡ some (serving id)
    → trim_space text ≡ codes "heartbeat"
    → handle s conn now (received text) ≡ record {
      manager = update_client_activity s.manager id now;
      handlers = insert conn (acking id) s.handlers;
    }
unfolding handle_client next_message text_beq
heartbeat-step s conn now id text e f =
    handle_lem s conn now (serving id) (acking id) (update_client_activity s.manager id now)
      (received text) e (rw f refl)

-- A heartbeat sets the time of the client's entry, if it has one, and of no other; the handler then
-- has the acknowledgement to write.
heartbeat-touches :
    (s : System) (conn now : ℕ) (id text : Text)
    → lookup conn s.handlers ≡ some (serving id)
    → trim_space text ≡ codes "heartbeat"
    → (lookup conn (handle s conn now (received text)).handlers ≡ some (acking id))
      × ((i : Text)
          → lookup i (handle s conn now (received text)).manager.clients ≡ (
              if id == i
              then Option.map (touch now) (lookup i s.manager.clients)
              else lookup i s.manager.clients))
heartbeat-touches s conn now id text e f = rw (heartbeat-step s conn now id text e f) (
  ground (arith, lookup-insert conn conn (acking id) s.handlers, nat_beq_iff conn conn),
  λ i. update_client_activity-clients s.manager id now i,
)
