-- ===== src/Session/Wire/Messaging.antt =====
-- A message from cmd/server/tcpmanager.go to a client of cmd/client/main.go, over TCP.
use mathlib.Core.Path.{subst}
use attachcloudip.Common.{ℕ, ◌≡◌, ◌≢◌, sym, List, [], ◌∷◌, ◌++◌, Bool, true, some, ok, nat_eq, map}
use attachcloudip.Common.Text.{Text, codes, text_eq}
use attachcloudip.Strings.{trim_space}
use attachcloudip.Strings.Parts.{Lacks}
use attachcloudip.TcpManager.{TcpManager, newline, awaiting, send_message_to_client}
use attachcloudip.TcpManager.Messages.{Visits}
use attachcloudip.TcpManager.Registration.{IsField}
use attachcloudip.Client.{Client}
use attachcloudip.Client.Program.{receiver_reads}
use attachcloudip.Session.Exchange.{announced, Exchange, exchange, exchange_run}
use attachcloudip.Session.Messaging.{Alone, Implements-sends}
use attachcloudip.Session.Wire.{Wire, new_wire, WireMove, wire_run, as_move}
use attachcloudip.Session.Wire.Carrying.{ReadsLines}
use attachcloudip.Session.Wire.Refinement.{WireImplements, wire_run-WireImplements}

WireImplements-sends :
    (conn : ℕ) (id path : Text) (w : Wire) (x : Exchange) (order : List Text)
    (writes : ℕ → Text → Bool) (text : Text)
    → WireImplements conn id path w x
    → w.phase ≢ awaiting
    → Visits w.manager order
    → Alone w.manager id path
    → writes conn (text ++ newline ∷ []) ≡ true
    → trim_space text ≢ codes "heartbeat-ack"
    → (send_message_to_client w.manager order writes path text ≡ ok (conn, text ++ newline ∷ []))
      × ((receiver_reads w.program (some (text ++ newline ∷ [])) w.program.receiving).logged
          ≡ w.program.logged ++ trim_space text ∷ [])
WireImplements-sends conn id path w x order writes text (s, e, r) =
    subst
      (λ (w : Wire).
        w.phase ≢ awaiting
        → Visits w.manager order
        → Alone w.manager id path
        → writes conn (text ++ newline ∷ []) ≡ true
        → trim_space text ≢ codes "heartbeat-ack"
        → (send_message_to_client w.manager order writes path text
            ≡ ok (conn, text ++ newline ∷ []))
          × ((receiver_reads w.program (some (text ++ newline ∷ [])) w.program.receiving).logged
              ≡ w.program.logged ++ trim_space text ∷ []))
      (sym e) (Implements-sends conn id path s x order writes text r)

-- In every state that client and handler reach, where every read gave exactly one line, after the
-- handler has read the registration of a client whose ID and path are fields on one line: a message
-- that is sent to its path, where nobody else is registered and the write succeeds, goes to the
-- client's connection, whatever the order in which Go visits the table; and if a read of
-- `receiveMessages` gives exactly what was written, it logs the message without the space around it,
-- where that is not the text of an acknowledgement.
pub wire_run-sends :
    (conn : ℕ) (c : Client) (m : TcpManager) (ys : List WireMove) (order : List Text)
    (writes : ℕ → Text → Bool) (text : Text)
    → IsField c.id
    → IsField c.path
    → Lacks newline c.id
    → Lacks newline c.path
    → ReadsLines conn (new_wire c m) ys
    → (wire_run conn (new_wire c m) ys).phase ≢ awaiting
    → Visits (wire_run conn (new_wire c m) ys).manager order
    → Alone (wire_run conn (new_wire c m) ys).manager c.id c.path
    → writes conn (text ++ newline ∷ []) ≡ true
    → trim_space text ≢ codes "heartbeat-ack"
    → (send_message_to_client (wire_run conn (new_wire c m) ys).manager order writes c.path text
        ≡ ok (conn, text ++ newline ∷ []))
      × ((receiver_reads
            (wire_run conn (new_wire c m) ys).program
            (some (text ++ newline ∷ []))
            (wire_run conn (new_wire c m) ys).program.receiving).logged
          ≡ (wire_run conn (new_wire c m) ys).program.logged ++ trim_space text ∷ [])
wire_run-sends conn c m ys order writes text f g h k reads =
    WireImplements-sends conn c.id c.path (wire_run conn (new_wire c m) ys)
      (exchange_run (exchange announced 0 0) (map as_move ys)) order writes text
      (wire_run-WireImplements conn c m ys f g h k reads)
