-- ===== src/Lib.antt =====
-- attachcloudip: a tunnel server that registers clients for paths, and the registries behind it.
--
-- The program and its model:
--   pkg/service/tunnel_service.go   Service: `normalizePath`, `isPathMatch` (Service/Paths), the
--     `PortManager` (Service/Ports), `TunnelService.Register`, `removeClient`, `FindMatchingClient`,
--     `SendToClient` and `HandleStatusRequest` (Service/Tunnel); `handleHTTPRequest`, cut at its
--     `select`, and `handleHTTPResponse`, with the map of waiters (Service/Waiters). Service/Routing
--     puts the search and the request together. Names are those of the source in snake_case.
--   pkg/registry/registry.go        Registry: every method of `Registry`.
--   cmd/server/tcpmanager.go        TcpManager: the table of clients, `handleClient` as a state machine
--     whose steps end where it waits for the network, and all handlers together with the accept loop
--     (TcpManager/System).
--   cmd/client/main.go              Client: `registerClient`, `ConnectTCP` and `main`; Client/Loops has
--     `receiveMessages` and `startHeartbeat` as loops over what their reads and writes give, and
--     Client/Program the three goroutines of a running client as steps on one connection.
--   Session composes the client program with the server: the HTTP registration with the handlers of
--     Server (Session/Joining, Session/Unreachable), and the goroutines with `handleClient`, first as
--     whole messages, then over TCP (Session/Wire), where a connection is a text and a read takes any
--     part of it. Session/Exchange is the machine that only counts heartbeats and acknowledgements;
--     client and handler are compared with it for steps in which every read gives one line
--     (`ReadsLines`), and Session/Coalesced has a read that gives more.
--   pkg/worker/pool.go, pkg/worker/worker.go   Worker: `Submit`, the dispatcher, the workers and
--     `Stop`, as steps of goroutines that interleave.
--   cmd/server/handler.go, clients.go, main.go   Server: the client manager (Server/Clients), the HTTP
--     handlers and the routes of `main`, over the TCP manager. Server/Configured is the type `Server` of
--     cmd/server/server.go, with the configuration of cmd/server/types.go.
--   pkg/protocol/translator.go, pkg/types/request.go   Protocol: requests, over
--     `http.NewRequest` with the parser of URLs as an argument, and responses (Protocol/Responses),
--     over `http.Header` and the response writer of net/http (Protocol/Headers, Protocol/Writer).
--   pkg/config/config.go            Config: the records, `GetHTTPServerURL` and `LoadConfig`.
--   PathIndex holds the map from a path to client IDs, which both keep and update alike. Strings is
--     what is used of Go's `strings`, of `net.SplitHostPort` and of `%d`; Common has maps, texts, words,
--     outcomes and lists.
--
-- How the code is read:
--   A Go string is the list of its code points, so texts are valid UTF-8. A Go map is an association
--     list; where a loop ranges over a map, the order of its keys is an argument, and the theorems
--     hold for every order that visits the keys. Times, UUIDs and session IDs are arguments.
--   A call returns, panics, or blocks for ever on a lock that its own goroutine holds (`Outcome`); a
--     value beside an `error` is a `Result`, with a constructor for each message.
--   Go's `int` and `Duration` are 64-bit words with their wrap-around where the code computes with
--     them (Common/Words); a port is the number that it is.
--   What a connection reads, and whether a read, a write or an accept fails, is an argument of the step.
--   The steps of Session read whole messages in order; those of Session/Wire read from 1 to 1024
--     characters, as the buffers do, which are bytes where the text is ASCII.
--   What a POST answers (`post`), which connection a dial opens (`dial`) and whether a write succeeds
--   (`writes`) are arguments of the client's functions.
--   `AllocatePort` scans 64512 ports; its loop recurs on the rounds left, which are all that it has.
--   `Register` reads the ports before it takes the lock; the model has that as a step of its own, so
--     that two calls can be interleaved. `handleHTTPRequest`, `handleClient` and the goroutines of the
--     worker pool are cut where they wait; every other method is one step under its lock.
--     Between the store of a waiter and a failed send, and between the two accesses of
--     `handleHTTPResponse` to a waiter, other calls are not interleaved.
--
-- Not modelled here: JSON and YAML; logging; the types of cmd/server and of pkg/types/request.go that
-- nothing uses, with the second copy of the configuration in cmd/server/config.go; the scripts.
mod Common
mod Strings
mod PathIndex
pub mod Service
pub mod Registry
pub mod TcpManager
pub mod Client
pub mod Worker
pub mod Server
pub mod Protocol
pub mod Session
pub mod Config
