-- ===== src/Session/Joining.antt =====
-- `main` of cmd/client/main.go against `main` of cmd/server/main.go.
use attachcloudip.Common.{ℕ, List, Option, none, some, nat_eq}
use attachcloudip.Common.Text.{Text, codes, text_eq}
use attachcloudip.Client.{Payload, Post}
use attachcloudip.Server.{Server, Request, Response, Content, ports, serve}
use attachcloudip.Server.Clients

-- The request that reaches the server, and what its answer decodes to.
abbrev pub request_of : Payload → Request
request_of payload = record {
  method = codes "POST";
  path = codes "/register";
  body = some (record { client_id = payload.client_id; paths = payload.paths });
}

abbrev pub decoded : Content → Option (List ℕ)
decoded (ports l) = some l
decoded _ = none

-- A POST that reaches a server with these handlers, and one that reaches that of `main`.
abbrev pub post_through : (Request → Response × Server) → Post
post_through handlers url payload = some (record {
  status = (handlers (request_of payload)).0.status;
  ports = decoded (handlers (request_of payload)).0.content;
})

abbrev pub post_to : Server → List Text → Post
post_to s order = post_through (serve s order)
