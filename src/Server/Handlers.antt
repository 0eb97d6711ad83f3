-- ===== src/Server/Handlers.antt =====
-- What the routes of cmd/server answer.
use mathlib.Core.Path.{subst}
use attachcloudip.Common.{
  ◌≡◌, ◌↔◌, refl, sym, ap, arith, List, [], ◌∷◌, Bool, true, false, Option, none, some, map,
  if◌then◌else◌, ◌==◌, In, Option-cases, inl, inr,
}
use attachcloudip.Common.Map.{lookup, lookup-insert}
use attachcloudip.Common.Text.{Text, codes, text_eq, text_beq}
use attachcloudip.TcpManager.{ClientInfo, TcpManager, get_clients}
use attachcloudip.TcpManager.Messages.{Visits}
use attachcloudip.Server.Clients.{register_client, get_client}
use attachcloudip.Server.{
  Server, RegisterBody, Request, ClientResponse, Response, empty, decode_failure, ports,
  client_list, answer, accept, register_with, handle_register, client_response, list_clients, serve,
}

-- The answer to a registration, by whether it is a POST and what its body decodes to.
abbrev pub Answers : Server → Bool → Option RegisterBody → Response × Server → Type 0
Answers s false body (r, s') = (r ≡ answer 405 empty) × (s' ≡ s)
Answers s true none (r, s') = (r ≡ answer 400 decode_failure) × (s' ≡ s)
Answers s true (some body) (r, s') =
    (r ≡ answer 200 (ports s.tcpmanager.ports))
    × (s'.tcpmanager ≡ s.tcpmanager)
    × ((id : Text)
        → get_client s'.client_manager id ≡ (
            if body.client_id == id
            then some (record { client_id = body.client_id; paths = body.paths; protocol = [] })
            else get_client s.client_manager id))

register_with-Answers :
    (s : Server) (post : Bool) (body : Option RegisterBody)
    → Answers s post body (register_with s post body)
unfolding register_with accept register_client get_client
register_with-Answers s false body = (refl, refl)
register_with-Answers s true none = (refl, refl)
register_with-Answers s true (some body) =
    (refl, refl, λ id. lookup-insert body.client_id id _ s.client_manager.clients)

serve_register :
    (s : Server) (order : List Text) (req : Request)
    → req.path ≡ codes "/register"
    → serve s order req ≡ register_with s (req.method == codes "POST") req.body
unfolding serve handle_register text_beq
serve_register s order req e = rw (e, serve) refl

serve_clients :
    (s : Server) (order : List Text) (req : Request)
    → req.path ≡ codes "/clients"
    → serve s order req ≡ (list_clients s order, s)
unfolding serve text_beq
serve_clients s order req e = rw (e, serve) refl

-- The route "/register": a method other than POST is refused, and so is a body that does not decode,
-- and the server stays as it is; else the answer is the list of the TCP ports, and the client is the
-- one under its ID, the other clients and the TCP manager's table being as they were.
pub serve-Answers :
    (s : Server) (order : List Text) (req : Request)
    → req.path ≡ codes "/register"
    → Answers s (req.method == codes "POST") req.body (serve s order req)
serve-Answers s order req e =
    subst (Answers s (req.method == codes "POST") req.body) (sym (serve_register s order req e))
      (register_with-Answers s (req.method == codes "POST") req.body)

listed : TcpManager → List Text → Option ClientInfo → List ClientInfo
listed m order none = get_clients m order
listed m order (some client) = client ∷ get_clients m order

-- An entry of the list has the ID, the path and the time of a client.
abbrev pub IsEntry : TcpManager → ClientResponse → Type 0
IsEntry m r =
    (id : Text) × (c : ClientInfo) × (lookup id m.clients ≡ some c)
    × (r.id ≡ c.client_id)
    × (r.path ≡ c.path)
    × (r.last_active ≡ c.last_active)

-- An entry is what the handler makes of a client.
abbrev IsResponse : TcpManager → ClientResponse → Type 0
IsResponse m r =
    (id : Text) × (c : ClientInfo) × (lookup id m.clients ≡ some c) × (client_response c ≡ r)

IsEntry-of_IsResponse : (m : TcpManager) (r : ClientResponse) → IsResponse m r → IsEntry m r
unfolding client_response
IsEntry-of_IsResponse m r (id, c, stored, same) = (
  id,
  c,
  stored,
  sym (ap (λ (x : ClientResponse). x.id) same),
  sym (ap (λ (x : ClientResponse). x.path) same),
  sym (ap (λ (x : ClientResponse). x.last_active) same),
)

IsResponse-of_IsEntry : (m : TcpManager) (r : ClientResponse) → IsEntry m r → IsResponse m r
unfolding client_response
IsResponse-of_IsEntry m r (id, c, stored, e, f, g) = (id, c, stored, ground (arith, e, f, g))

entries_sound :
    (m : TcpManager) (order : List Text) (r : ClientResponse)
    → In r (map client_response (get_clients m order))
    → IsResponse m r
unfolding get_clients listed
entries_sound m [] r i = absurd i
entries_sound m (id ∷ order) r i = elim (Option-cases (lookup id m.clients)) [
  | inl missing ↦
      entries_sound m order r (subst (λ o. In r (map client_response (listed m order o))) missing i)
  | inr (c, stored) ↦ elim (subst (λ o. In r (map client_response (listed m order o))) stored i) [
    | inl here ↦ (id, c, stored, here)
    | inr later ↦ entries_sound m order r later
  ]
]

entries_complete :
    (m : TcpManager) (order : List Text) (id : Text) (c : ClientInfo)
    → In id order
    → lookup id m.clients ≡ some c
    → In (client_response c) (map client_response (get_clients m order))
unfolding get_clients listed
entries_complete m [] id c i e = absurd i
entries_complete m (j ∷ order) id c (inl here) e =
    subst (λ o. In (client_response c) (map client_response (listed m order o)))
      (sym (subst (λ x. lookup x m.clients ≡ some c) (sym here) e)) (inl refl)
entries_complete m (j ∷ order) id c (inr later) e =
    listed_keeps (lookup j m.clients) (entries_complete m order id c later e)
  where
    listed_keeps :
        (o : Option ClientInfo)
        → In (client_response c) (map client_response (get_clients m order))
        → In (client_response c) (map client_response (listed m order o))
    listed_keeps none i = i
    listed_keeps (some d) i = inr i

-- The route "/clients" changes nothing, and in any order that visits the table its list has the ID,
-- the path and the time of each client of the TCP manager, and of nobody else.
pub serve-lists :
    (s : Server) (order : List Text) (req : Request)
    → req.path ≡ codes "/clients"
    → Visits s.tcpmanager order
    → (l : List ClientResponse) × (serve s order req ≡ (answer 200 (client_list l), s))
      × ((r : ClientResponse) → In r l ↔ IsEntry s.tcpmanager r)
unfolding list_clients
serve-lists s order req e visits = (
  map client_response (get_clients s.tcpmanager order),
  serve_clients s order req e,
  λ r. (
    λ i. IsEntry-of_IsResponse s.tcpmanager r (entries_sound s.tcpmanager order r i),
    λ entry.
        let (id, c, stored, same) = IsResponse-of_IsEntry s.tcpmanager r entry in
        subst (λ x. In x (map client_response (get_clients s.tcpmanager order))) same
          (entries_complete s.tcpmanager order id c (visits id c stored) stored),
  ),
)
