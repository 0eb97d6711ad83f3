-- ===== src/Client/Examples.antt =====
-- cmd/client/main.go at single inputs.
use attachcloudip.Common.{
  ℕ, ◌≡◌, ◌↔◌, refl, [], ◌∷◌, true, false, Option, none, some, contains, In, arith, Result, ok, err,
  nat_eq,
}
use attachcloudip.Common.Text.{Text, codes, text_eq}
use attachcloudip.Strings.Decimal.{decimal}
use attachcloudip.Strings.HostPort.{
  colon, split_host_port, AddressError, too_many_colons, missing_port,
}
use attachcloudip.Strings.HostPort.Laws.{IsPart, bracketed}
use attachcloudip.Client.{Client, Post, failed_to_connect, register_client, connect_tcp, start}
use attachcloudip.Client.Registering.{Starts, start-Starts, connect_tcp-bracketed}
use attachcloudip.Client.Loops.{receive_messages, start_heartbeat, receive_messages_returns_iff}

plain_address : split_host_port (codes "localhost:9999") ≡ ok (codes "localhost", codes "9999")
unfolding split_host_port contains
plain_address = refl

no_brackets : split_host_port (codes "::1:9999") ≡ err too_many_colons
unfolding split_host_port contains
no_brackets = refl

no_port : split_host_port (codes "[::1]") ≡ err missing_port
unfolding split_host_port contains
no_port = refl

port_printed : decimal 9998 ≡ codes "9998"
unfolding decimal
port_printed = refl

abbrev post : Post
post url payload = some (record { status = 200; ports = some (9998 ∷ []) })

-- A network that opens what `SplitHostPort` takes.
opened : Result AddressError (Text × Text) → Option ℕ
opened (ok (host, port)) = some 7
opened (err e) = none

dial : Text → Option ℕ
unfolding opened
dial address = opened (split_host_port address)

start-Starts_example :
    Starts post dial
      (λ _ _. true)
      (codes "localhost:9999")
      (codes "/a")
      (codes "u1")
      (start post dial (λ _ _. true) (codes "localhost:9999") (codes "/a") (codes "u1"))
start-Starts_example =
    start-Starts post dial (λ _ _. true) (codes "localhost:9999") (codes "/a") (codes "u1")

port_IsPart : IsPart (codes "9999")
port_IsPart = record { no_colon = omega arith; no_open = omega arith; no_close = omega arith }

has_colon : contains (codes "::1") colon ≡ true
unfolding contains
has_colon = refl

dial_refuses :
    (address : Text) (e : AddressError) → split_host_port address ≡ err e → dial address ≡ none
unfolding dial
dial_refuses address e h = rw h refl

connect_tcp-bracketed_example :
    (c : Client) × (register_client post
        (bracketed (codes "::1") (codes "9999"))
        (codes "u1")
        (codes "/a")
      ≡ ok c)
    × (connect_tcp dial (λ _ _. true) c ≡ (err failed_to_connect, c))
connect_tcp-bracketed_example =
    connect_tcp-bracketed post dial (λ _ _. true) (codes "::1") (codes "9999") (codes "u1")
      (codes "/a") 9998 [] (omega arith) (omega arith) has_colon port_IsPart
      (record { answered = refl }) dial_refuses

receive_messages_returns_iff_example :
    (((receive_messages (some (codes "hi") ∷ none ∷ [])).1 ≡ true)
      ↔ In none (some (codes "hi") ∷ none ∷ []))
    × (((start_heartbeat (true ∷ true ∷ [])).1 ≡ true) ↔ In false (true ∷ true ∷ []))
receive_messages_returns_iff_example =
    receive_messages_returns_iff (some (codes "hi") ∷ none ∷ []) (true ∷ true ∷ [])
