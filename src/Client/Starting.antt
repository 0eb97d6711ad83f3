-- ===== src/Client/Starting.antt =====
-- Two ways through `main` of cmd/client/main.go: nothing fails, and the server names no port.
use attachcloudip.Common.{
  ℕ, ◌≡◌, ◌≢◌, refl, List, [], ◌∷◌, Bool, true, Option, some, none, nat_eq, arith, ok,
}
use attachcloudip.Common.Text.{Text}
use attachcloudip.Strings.HostPort.{split_host_port}
use attachcloudip.Client.{
  Client, Post, new_client, from_ports, from_answer, register_client, registration_message,
  dial_address, send_registration, connect_tcp, started, connected, connect_registered, start,
  register_failed, no_tcp_port,
}
use attachcloudip.Client.Registering.{Answered}

-- What `registerClient` makes.
abbrev pub new_registration : Text → Text → ℕ → Text → Client
new_registration id path port host = record {
  id = id;
  tcp_conn = none;
  tcp_port = port;
  server_host = host;
  path = path;
}

pub register_client-Answered :
    (post : Post) (addr id path host port : Text) (tcp_port : ℕ) (ports : List ℕ)
    → Answered post addr id path 200 (some (tcp_port ∷ ports))
    → split_host_port addr ≡ ok (host, port)
    → register_client post addr id path ≡ ok (new_registration id path tcp_port host)
unfolding register_client from_answer from_ports new_client
register_client-Answered post addr id path host port tcp_port ports a e = rw (a.answered, e) refl

pub start-started :
    (post : Post) (dial : Text → Option ℕ) (writes : ℕ → Text → Bool) (addr path uuid : Text)
    (c : Client) (conn : ℕ)
    → path ≢ []
    → register_client post addr uuid path ≡ ok c
    → dial (dial_address c) ≡ some conn
    → writes conn (registration_message c.id c.path) ≡ true
    → start post dial writes addr path uuid ≡ started (record c { tcp_conn = some conn })
unfolding start connect_registered connect_tcp connected send_registration
start-started post dial writes addr [] uuid c conn n e d w = absurd (n refl)
start-started post dial writes addr (x ∷ path) uuid c conn n e d w =
    rw (e, d, w, connect_tcp, send_registration) (ground arith)

pub start-no_tcp_port :
    (post : Post) (dial : Text → Option ℕ) (writes : ℕ → Text → Bool) (addr path uuid : Text)
    → path ≢ []
    → Answered post addr uuid path 200 (some [])
    → start post dial writes addr path uuid ≡ register_failed no_tcp_port
unfolding start register_client from_answer from_ports connect_registered
start-no_tcp_port post dial writes addr [] uuid n a = absurd (n refl)
start-no_tcp_port post dial writes addr (c ∷ path) uuid n a = rw a.answered (ground arith)
