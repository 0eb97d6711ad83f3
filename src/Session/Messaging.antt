-- ===== src/Session/Messaging.antt =====
-- A message from cmd/server/tcpmanager.go to a client of cmd/client/main.go.
use mathlib.Core.Path.{subst}
use attachcloudip.Common.{
  ℕ, ◌≡◌, ◌≢◌, refl, sym, ◌∙◌, List, [], ◌∷◌, ◌++◌, Bool, true, Option, none, some, ok, nat_eq,
  beq_ne,
}
use attachcloudip.Common.Map.{lookup}
use attachcloudip.Common.Text.{Text, codes, text_eq}
use attachcloudip.Strings.{trim_space}
use attachcloudip.Strings.Laws.{trim_space-line}
use attachcloudip.TcpManager.{
  ClientInfo, TcpManager, newline, awaiting, get_clients, client_at, send_message_to_client,
}
use attachcloudip.TcpManager.Messages.{Visits, Finds, client_at-Finds, Nobody}
use attachcloudip.Client.Program.{Program, receiver_reads}
use attachcloudip.Client.Loops.{receive_next, message}
use attachcloudip.Session.{Session}
use attachcloudip.Session.Exchange.{
  announced, recorded, idle, answering, Exchange, exchange, Implements,
}

-- Nobody but the client with the ID is registered for the path.
abbrev pub Alone : TcpManager → Text → Text → Type 0
Alone m id path = (i : Text) (c : ClientInfo) → lookup i m.clients ≡ some c → c.path ≡ path → i ≡ id

module _ (m : TcpManager) (order : List Text) (id path : Text) (entry : ClientInfo)
    (stored : lookup id m.clients ≡ some entry) (at : entry.path ≡ path) (alone : Alone m id path)
    (visits : Visits m order) where
  client_at-Alone : (o : Option ClientInfo) → Finds m order path o → o ≡ some entry
  unfolding Nobody
  client_at-Alone none nobody = absurd (nobody id entry (visits id entry stored) stored at)
  client_at-Alone (some c) l =
      sym (subst (λ i. lookup i m.clients ≡ some c) (alone l.id c l.stored l.at_path) l.stored)
      ∙ stored

  send_message-Alone :
      (conn : ℕ) (writes : ℕ → Text → Bool) (text : Text)
      → entry.conn ≡ conn
      → writes conn (text ++ newline ∷ []) ≡ true
      → send_message_to_client m order writes path text ≡ ok (conn, text ++ newline ∷ [])
  unfolding send_message_to_client
  send_message-Alone conn writes text same w =
      rw
        (
          client_at-Alone (client_at (get_clients m order) path) (client_at-Finds m order path),
          send_message_to_client,
          same,
          w,
        )
        refl

receive_next-line :
    (text : Text)
    → trim_space text ≢ codes "heartbeat-ack"
    → receive_next (some (text ++ newline ∷ [])) ≡ message (trim_space text)
unfolding receive_next
receive_next-line text n =
    rw (trim_space-line text, beq_ne (trim_space text) (codes "heartbeat-ack") n) refl

receiver_reads-logs :
    (p : Program) (text : Text)
    → p.receiving ≡ true
    → trim_space text ≢ codes "heartbeat-ack"
    → (receiver_reads p (some (text ++ newline ∷ [])) p.receiving).logged
      ≡ p.logged ++ trim_space text ∷ []
unfolding receiver_reads
receiver_reads-logs p text r n = rw (r, receive_next-line text n) refl

-- What the machine that counts tells of a session whose registration was read.
record InTable (conn : ℕ) (id path : Text) (s : Session) : Type 0 where
  entry : ClientInfo
  stored : lookup id s.manager.clients ≡ some entry
  on : entry.conn ≡ conn
  at : entry.path ≡ path
  receiving : s.program.receiving ≡ true

in_table :
    {conn : ℕ} {id path : Text} {s : Session}
    → (c : ClientInfo) × (lookup id s.manager.clients ≡ some c) × (c.conn ≡ conn) × (c.path ≡ path)
    → s.program.receiving ≡ true
    → InTable conn id path s
in_table (c, stored, on, at) receiving = record {
  entry = c;
  stored = stored;
  on = on;
  at = at;
  receiving = receiving;
}

Implements-InTable :
    (conn : ℕ) (id path : Text) (s : Session) (x : Exchange)
    → Implements conn id path s x
    → s.phase ≢ awaiting
    → InTable conn id path s
Implements-InTable conn id path s (exchange announced k a) r n = absurd (n r.phase)
Implements-InTable conn id path s (exchange recorded k a) r n = in_table r.entered r.receiving
Implements-InTable conn id path s (exchange idle k a) r n = in_table r.entered r.receiving
Implements-InTable conn id path s (exchange answering k a) r n = in_table r.entered r.receiving

pub Implements-sends :
    (conn : ℕ) (id path : Text) (s : Session) (x : Exchange) (order : List Text)
    (writes : ℕ → Text → Bool) (text : Text)
    → Implements conn id path s x
    → s.phase ≢ awaiting
    → Visits s.manager order
    → Alone s.manager id path
    → writes conn (text ++ newline ∷ []) ≡ true
    → trim_space text ≢ codes "heartbeat-ack"
    → (send_message_to_client s.manager order writes path text ≡ ok (conn, text ++ newline ∷ []))
      × ((receiver_reads s.program (some (text ++ newline ∷ [])) s.program.receiving).logged
          ≡ s.program.logged ++ trim_space text ∷ [])
Implements-sends conn id path s x order writes text r entered visits alone w n =
    let t = Implements-InTable conn id path s x r entered in
    (
      send_message-Alone s.manager order id path t.entry t.stored t.at alone visits conn writes text
          t.on w,
      receiver_reads-logs s.program text t.receiving n,
    )
