-- ===== src/Client/Registering.antt =====
-- `registerClient`, `ConnectTCP` and the start of `main` of cmd/client/main.go.
use mathlib.Core.Path.{subst}
use attachcloudip.Common.{
  ℕ, ◌≡◌, ◌≢◌, refl, List, [], ◌∷◌, ◌++◌, Bool, true, false, Option, none, some, if◌then◌else◌,
  ◌==◌, nat_eq, nat_beq_iff, contains, arith, Result, ok, err,
}
use attachcloudip.Common.Text.{Text}
use attachcloudip.Strings.Parts.{Lacks}
use attachcloudip.Strings.Decimal.{decimal, decimal-lacks}
use attachcloudip.Strings.HostPort.{AddressError, colon, split_host_port, too_many_colons}
use attachcloudip.Strings.HostPort.Laws.{
  IsPart, bracketed, split_host_port-bracketed, split_host_port-colon,
}
use attachcloudip.Client.{
  Client, Error, failed_to_send_request, failed_to_decode_response, no_tcp_port,
  registration_failed, failed_to_parse_address, failed_to_connect, failed_to_send_registration,
  HttpAnswer, Post, register_url, new_client, from_ports, from_answer, register_client,
  registration_message, dial_address, send_registration, connect_tcp, Start, path_required,
  register_failed, connect_failed, started, connected, connect_registered, start,
}

-- The server has answered with this status and these ports.
pub record Answered (post : Post) (server_addr client_id path : Text) (status : ℕ)
    (ports : Option (List ℕ)) : Type 0 where
  pub answered :
      post (register_url server_addr) (record { client_id = client_id; paths = path ∷ [] })
      ≡ some (record { status = status; ports = ports })

-- What each result of `registerClient` tells.
abbrev pub Registers : Post → Text → Text → Text → Result Error Client → Type 0
Registers post addr id path (ok c) =
    (ports : List ℕ) × (port : Text) × Answered post addr id path 200 (some (c.tcp_port ∷ ports))
    × (split_host_port addr ≡ ok (c.server_host, port))
    × (c.id ≡ id)
    × (c.path ≡ path)
    × (c.tcp_conn ≡ none)
Registers post addr id path (err failed_to_send_request) =
    post (register_url addr) (record { client_id = id; paths = path ∷ [] }) ≡ none
Registers post addr id path (err (registration_failed status)) =
    (status ≢ 200) × ((ports : Option (List ℕ)) × Answered post addr id path status ports)
Registers post addr id path (err failed_to_decode_response) = Answered post addr id path 200 none
Registers post addr id path (err no_tcp_port) = Answered post addr id path 200 (some [])
Registers post addr id path (err (failed_to_parse_address e)) =
    (port : ℕ) × (ports : List ℕ) × Answered post addr id path 200 (some (port ∷ ports))
    × (split_host_port addr ≡ err e)
Registers post addr id path (err failed_to_connect) = ⊥
Registers post addr id path (err failed_to_send_registration) = ⊥

module _ (post : Post) (addr id path : Text) where
  from_ports-Registers :
      (ports : Option (List ℕ))
      → Answered post addr id path 200 ports
      → Registers post addr id path (from_ports addr id path ports)
  unfolding from_ports new_client
  from_ports-Registers none a = a
  from_ports-Registers (some []) a = a
  from_ports-Registers (some (port ∷ ports)) a = by_address (split_host_port addr) refl
    where
      by_address :
          (r : Result AddressError (Text × Text))
          → split_host_port addr ≡ r
          → Registers post addr id path (new_client id path port r)
      by_address (ok (host, p)) e = (ports, p, a, e, refl, refl, refl)
      by_address (err e') e = (port, ports, a, e)

  -- `registerClient` returns a client exactly for an answer 200 with a first port and an address that
  -- has a host, and the client has that port and that host; each error names the first thing that
  -- was wrong.
  register_client-Registers : Registers post addr id path (register_client post addr id path)
  unfolding register_client from_answer
  register_client-Registers =
      by_answer (post (register_url addr) (record { client_id = id; paths = path ∷ [] })) refl
    where
      by_status :
          (status : ℕ) (ports : Option (List ℕ)) (b : Bool)
          → (status == 200) ≡ b
          → Answered post addr id path status ports
          → Registers post addr id path
              (if b then from_ports addr id path ports else err (registration_failed status))
      by_status status ports true e a =
          from_ports-Registers ports
            (subst (λ n. Answered post addr id path n ports) ((nat_beq_iff status 200).0 e) a)
      by_status status ports false e a = (λ same. ground (arith, same, e), (ports, a))

      by_answer :
          (o : Option HttpAnswer)
          → post (register_url addr) (record { client_id = id; paths = path ∷ [] }) ≡ o
          → Registers post addr id path (from_answer addr id path o)
      by_answer none e = e
      by_answer (some answer) e =
          by_status answer.status answer.ports (answer.status == 200) refl (record { answered = e })

-- A client on whose connection the registration message was written.
pub record Connected (dial : Text → Option ℕ) (writes : ℕ → Text → Bool) (c : Client) : Type 0 where
  pub conn : ℕ
  pub dialled : dial (dial_address c) ≡ some conn
  pub stored : c.tcp_conn ≡ some conn
  pub written : writes conn (registration_message c.id c.path) ≡ true

-- What each way out of `main` tells; only a started client has the goroutines that follow.
abbrev pub Starts :
    Post → (Text → Option ℕ) → (ℕ → Text → Bool) → Text → Text → Text → Start → Type 0
Starts post dial writes addr path uuid path_required = path ≡ []
Starts post dial writes addr path uuid (register_failed e) =
    (path ≢ []) × (register_client post addr uuid path ≡ err e)
Starts post dial writes addr path uuid (connect_failed failed_to_connect) =
    (address : Text) × (dial address ≡ none)
Starts post dial writes addr path uuid (connect_failed failed_to_send_registration) =
    (conn : ℕ) × (writes conn (registration_message uuid path) ≡ false)
Starts post dial writes addr path uuid (connect_failed e) = ⊥
Starts post dial writes addr path uuid (started c) =
    (path ≢ []) × (c.id ≡ uuid) × (c.path ≡ path) × Connected dial writes c

module _ (post : Post) (dial : Text → Option ℕ) (writes : ℕ → Text → Bool) (addr path uuid : Text)
    (filled : path ≢ []) where
  connect_tcp-Starts :
      (c : Client)
      → c.id ≡ uuid
      → c.path ≡ path
      → Starts post dial writes addr path uuid (connected (connect_tcp dial writes c))
  unfolding connected connect_tcp send_registration dial_address
  connect_tcp-Starts c e f = by_dial (dial (dial_address c)) refl
    where
      by_write :
          (conn : ℕ) (b : Bool)
          → dial (dial_address c) ≡ some conn
          → writes conn (registration_message c.id c.path) ≡ b
          → Starts post dial writes addr path uuid (
              connected (
                if b
                then (ok tt, record c { tcp_conn = some conn })
                else (err failed_to_send_registration, record c { tcp_conn = some conn })))
      by_write conn true d w =
          (filled, e, f, record { conn = conn; dialled = d; stored = refl; written = w })
      by_write conn false d w = (
        conn,
        subst (λ p. writes conn (registration_message uuid p) ≡ false) f
            (subst (λ i. writes conn (registration_message i c.path) ≡ false) e w),
      )

      by_dial :
          (o : Option ℕ)
          → dial (dial_address c) ≡ o
          → Starts post dial writes addr path uuid (
              connected (elim o [
                | none ↦ (err failed_to_connect, c)
                | some conn ↦ send_registration writes c conn
              ]))
      by_dial none d = (dial_address c, d)
      by_dial (some conn) d = by_write conn (writes conn (registration_message c.id c.path)) d refl

  connect_registered-Starts :
      (r : Result Error Client)
      → register_client post addr uuid path ≡ r
      → Registers post addr uuid path r
      → Starts post dial writes addr path uuid (connect_registered dial writes r)
  unfolding connect_registered
  connect_registered-Starts (err e) h g = (filled, h)
  connect_registered-Starts (ok c) h (ports, port, a, split, same_id, same_path, no_conn) =
      connect_tcp-Starts c same_id same_path

-- `main` starts the goroutines that read and that send heartbeats only for a path that is not empty
-- and a client with the new ID and that path, on whose connection the registration message was
-- written; else it stops, and says what failed.
pub start-Starts :
    (post : Post) (dial : Text → Option ℕ) (writes : ℕ → Text → Bool) (addr path uuid : Text)
    → Starts post dial writes addr path uuid (start post dial writes addr path uuid)
unfolding start
start-Starts post dial writes addr [] uuid = refl
start-Starts post dial writes addr (c ∷ path) uuid = ground (
  arith,
  connect_registered-Starts post dial writes addr (c ∷ path) uuid (λ e. cc)
      (register_client post addr uuid (c ∷ path)) refl
      (register_client-Registers post addr uuid (c ∷ path)),
)

connect_tcp_refused :
    (dial : Text → Option ℕ) (writes : ℕ → Text → Bool) (c : Client)
    → dial (dial_address c) ≡ none
    → connect_tcp dial writes c ≡ (err failed_to_connect, c)
unfolding connect_tcp
connect_tcp_refused dial writes c e = rw (e, connect_tcp) refl

-- An IPv6 address comes to the client without its brackets, so that the client cannot connect: the
-- registration of such a server succeeds, and then every `dial` that refuses what `SplitHostPort`
-- refuses fails.
pub connect_tcp-bracketed :
    (post : Post) (dial : Text → Option ℕ) (writes : ℕ → Text → Bool) (host port id path : Text)
    (tcp_port : ℕ) (ports : List ℕ)
    → Lacks b'[' host
    → Lacks b']' host
    → contains host colon ≡ true
    → IsPart port
    → Answered post (bracketed host port) id path 200 (some (tcp_port ∷ ports))
    → ((address : Text) (e : AddressError) → split_host_port address ≡ err e → dial address ≡ none)
    → (c : Client) × (register_client post (bracketed host port) id path ≡ ok c)
      × (connect_tcp dial writes c ≡ (err failed_to_connect, c))
unfolding register_client from_answer from_ports new_client dial_address
connect_tcp-bracketed post dial writes host port id path tcp_port ports h k e p a refuses = (
  record { id = id; tcp_conn = none; tcp_port = tcp_port; server_host = host; path = path },
  rw (a.answered, split_host_port-bracketed host port h k p) refl,
  connect_tcp_refused dial writes _ (
      refuses (host ++ (colon ∷ decimal tcp_port)) too_many_colons (
        split_host_port-colon host (decimal tcp_port) e h
          (decimal-lacks colon tcp_port (λ d. omega arith)))),
)
