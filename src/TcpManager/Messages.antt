-- ===== src/TcpManager/Messages.antt =====
-- `SendMessageToClient` and `ReceiveMessageFromClient` of cmd/server/tcpmanager.go.
use mathlib.Core.Path.{subst}
use attachcloudip.Common.{
  sym, ℕ, ◌≡◌, ◌≢◌, refl, List, [], ◌∷◌, ◌++◌, Bool, true, false, Option, none, some, contains,
  nat_eq, Option-cases, Bool-cases, inl, inr, arith, Result, ok, err, In, ◌==◌,
}
use attachcloudip.Common.Map.{lookup}
use attachcloudip.Common.Text.{Text, text_eq, text_beq_iff}
use attachcloudip.Strings.{trim_space}
use attachcloudip.TcpManager.{
  ClientInfo, TcpManager, newline, get_clients, client_at, Error, send_failed, receive_failed,
  no_client_found, send_message_to_client, receive_message_from_client,
}
use attachcloudip.TcpManager.System.{System}
use attachcloudip.TcpManager.Serving.{Inv}

-- A client of the table that is registered for the path.
pub record Listed (m : TcpManager) (path : Text) (c : ClientInfo) : Type 0 where
  pub id : Text
  pub stored : lookup id m.clients ≡ some c
  pub at_path : c.path ≡ path

-- None of the IDs has a client at the path.
unfoldable pub Nobody : TcpManager → List Text → Text → Type 0
Nobody m order path =
    (id : Text) (c : ClientInfo) → In id order → lookup id m.clients ≡ some c → c.path ≢ path

Nobody-cons :
    (m : TcpManager) (id : Text) (order : List Text) (path : Text)
    → ((c : ClientInfo) → lookup id m.clients ≡ some c → c.path ≢ path)
    → Nobody m order path
    → Nobody m (id ∷ order) path
unfolding Nobody
Nobody-cons m id order path f n i c (inl e) g =
    f c (subst (λ x. lookup x m.clients ≡ some c) (sym e) g)
Nobody-cons m id order path f n i c (inr later) g = n i c later g

abbrev pub Finds : TcpManager → List Text → Text → Option ClientInfo → Type 0
Finds m order path none = Nobody m order path
Finds m order path (some c) = Listed m path c

Finds-cons :
    (m : TcpManager) (id : Text) (order : List Text) (path : Text) (o : Option ClientInfo)
    → ((c : ClientInfo) → lookup id m.clients ≡ some c → c.path ≢ path)
    → Finds m order path o
    → Finds m (id ∷ order) path o
Finds-cons m id order path none f n = Nobody-cons m id order path f n
Finds-cons m id order path (some c) f h = h

pub client_at-Finds :
    (m : TcpManager) (order : List Text) (path : Text)
    → Finds m order path (client_at (get_clients m order) path)
unfolding client_at get_clients Nobody
client_at-Finds m [] path = λ id c i e. absurd i
client_at-Finds m (id ∷ order) path = elim (Option-cases (lookup id m.clients)) [
  | inl missing ↦
      rw (missing, get_clients)
        (Finds-cons m id order path (client_at (get_clients m order) path) (λ c e. cc)
          (client_at-Finds m order path))
  | inr (c, stored) ↦ elim (Bool-cases (c.path == path)) [
    | inl here ↦
        rw (stored, get_clients, here, client_at)
          (record {
            id = id;
            stored = stored;
            at_path = ground (arith, here, text_beq_iff c.path path);
          })
    | inr other ↦
        rw (stored, get_clients, other, client_at)
          (Finds-cons m id order path (client_at (get_clients m order) path)
            (λ d e. ground (arith, e, stored, other, text_beq_iff d.path path))
            (client_at-Finds m order path))
  ]
]

-- The order visits every client of the table.
abbrev pub Visits : TcpManager → List Text → Type 0
Visits m order = (id : Text) (c : ClientInfo) → lookup id m.clients ≡ some c → In id order

abbrev pub NobodyAt : TcpManager → Text → Type 0
NobodyAt m path = (id : Text) (c : ClientInfo) → lookup id m.clients ≡ some c → c.path ≢ path

-- A client at the path, on a connection that nobody has closed.
pub record Served (m : TcpManager) (path : Text) (conn : ℕ) : Type 0 where
  pub client : ClientInfo
  pub listed : Listed m path client
  pub its_conn : client.conn ≡ conn
  pub still_open : contains m.closed conn ≡ false

-- What each answer of `SendMessageToClient` tells.
abbrev pub Delivers :
    TcpManager → (ℕ → Text → Bool) → Text → Text → Result Error (ℕ × Text) → Type 0
Delivers m writes path message (ok (conn, text)) =
    (text ≡ message ++ newline ∷ []) × (writes conn text ≡ true) × Served m path conn
Delivers m writes path message (err (send_failed p)) =
    (p ≡ path) × ((conn : ℕ) × (writes conn (message ++ newline ∷ []) ≡ false) × Served m path conn)
Delivers m writes path message (err (receive_failed p)) = ⊥
Delivers m writes path message (err (no_client_found p)) = (p ≡ path) × NobodyAt m path

-- And what each answer of `ReceiveMessageFromClient` does.
abbrev Receives : TcpManager → (ℕ → Option Text) → Text → Result Error Text → Type 0
Receives m reads path (ok message) =
    (conn : ℕ) × (text : Text) × (reads conn ≡ some text)
    × (message ≡ trim_space text)
    × Served m path conn
Receives m reads path (err (receive_failed p)) =
    (p ≡ path) × ((conn : ℕ) × (reads conn ≡ none) × Served m path conn)
Receives m reads path (err (send_failed p)) = ⊥
Receives m reads path (err (no_client_found p)) = (p ≡ path) × NobodyAt m path

module _ (s : System) (v : Inv s) (order : List Text) (visits : Visits s.manager order) where
  Listed-Served :
      (path : Text) (c : ClientInfo) → Listed s.manager path c → Served s.manager path c.conn
  Listed-Served path c l = record {
    client = c;
    listed = l;
    its_conn = refl;
    still_open = v.stays_open l.id c l.stored;
  }

  nobody_at : (path : Text) → Nobody s.manager order path → NobodyAt s.manager path
  unfolding Nobody
  nobody_at path n id c e = n id c (visits id c e) e

  found :
      (path : Text) (c : ClientInfo)
      → client_at (get_clients s.manager order) path ≡ some c
      → Served s.manager path c.conn
  found path c e =
      Listed-Served path c
        (subst (Finds s.manager order path) e (client_at-Finds s.manager order path))

  not_found :
      (path : Text) → client_at (get_clients s.manager order) path ≡ none → NobodyAt s.manager path
  not_found path e =
      nobody_at path (subst (Finds s.manager order path) e (client_at-Finds s.manager order path))

  -- In a system as it runs, a message to a path is written with a line break to an open connection of
  -- a client at the path; the error is that write's, or says that there is no such client, and then
  -- there is none. This is for any order that visits all clients.
  pub send_message_to_client-Delivers :
      (writes : ℕ → Text → Bool) (path message : Text)
      → Delivers s.manager writes path message
          (send_message_to_client s.manager order writes path message)
  unfolding send_message_to_client
  send_message_to_client-Delivers writes path message =
      elim (Option-cases (client_at (get_clients s.manager order) path)) [
        | inl e ↦ rw (e, send_message_to_client) (refl, not_found path e)
        | inr (c, e) ↦ elim (Bool-cases (writes c.conn (message ++ newline ∷ []))) [
          | inl h ↦ rw (e, send_message_to_client, h) (refl, h, found path c e)
          | inr h ↦ rw (e, send_message_to_client, h) (refl, (c.conn, h, found path c e))
        ]
      ]

  -- A message is received from an open connection of a client at the path, without the space around
  -- it; the error is the read's, or says that there is no such client, and then there is none.
  receive_message_from_client-Receives :
      (reads : ℕ → Option Text) (path : Text)
      → Receives s.manager reads path (receive_message_from_client s.manager order reads path)
  unfolding receive_message_from_client
  receive_message_from_client-Receives reads path =
      elim (Option-cases (client_at (get_clients s.manager order) path)) [
        | inl e ↦ rw (e, receive_message_from_client) (refl, not_found path e)
        | inr (c, e) ↦ elim (Option-cases (reads c.conn)) [
          | inl h ↦ rw (e, receive_message_from_client, h) (refl, (c.conn, h, found path c e))
          | inr (text, h) ↦
              rw (e, receive_message_from_client, h) (c.conn, text, h, refl, found path c e)
        ]
      ]
