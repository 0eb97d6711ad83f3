-- ===== src/Service/Tunnel/Guarantees.antt =====
-- What a caller of `Register` may rely on.
use attachcloudip.Common.{
  ℕ, ◌≡◌, ◌≢◌, ◌↔◌, refl, List, [], ◌∷◌, none, some, returns, panics, blocks, Result, ok, err,
  beq_self, beq_ne,
}
use attachcloudip.Common.Map.{lookup}
use attachcloudip.Common.Text.{Text, text_eq, codes}
use attachcloudip.Service.Paths.{normalize_path}
use attachcloudip.Service.Types.{HttpRequest, StreamRequest, StreamResponse, StreamResponseType}
use attachcloudip.Service.Tunnel.{
  TunnelService, Error, client_id_required, path_required, no_available_ports, client_not_found,
  no_client_found, registered, register, new_client,
}
use attachcloudip.Service.Tunnel.Invariant.{Inv}
use attachcloudip.Service.Tunnel.Registration.{
  client_at, committed, committed-Inv, committed-clients, committed-available_ports,
}
use attachcloudip.Service.Tunnel.Branches.{IsComplete, register_complete, register_cases, Registers}

-- What `Register` returned to a request that it accepted with `port`, and what it stored: the client
-- under its ID with the normalised path, and every other client as it was.
pub record IsRegistered (s : TunnelService) (session_id : Text) (now : ℕ) (req : StreamRequest)
    (path : Text) (port : ℕ) (s' : TunnelService) : Type 0 where
  pub returned :
      register s session_id now req
      ≡ returns (
        ok (record {
          type = StreamResponseType.registration_success;
          request_id = req.request_id;
          request = none;
          response = none;
          message = [];
          port = port;
        }),
        s',
      )
  pub stored :
      lookup req.request_id s'.clients
      ≡ some (record {
        id = req.request_id;
        session_id = session_id;
        paths = normalize_path path ∷ [];
        description = [];
        metadata = [];
        last_seen = now;
        status = codes "connecting";
        protocol = req.protocol;
        port = port;
      })
  pub others : (i : Text) → req.request_id ≢ i → lookup i s'.clients ≡ lookup i s.clients

-- A request with an ID and a path, made while a port is left, is accepted: the response has the ID and
-- the first port, a client with this port, the normalised path and the session's data is stored under
-- the ID, in place of an older one, the other clients stay, and the port is no longer available.
pub register_accepts :
    (s : TunnelService) (session_id : Text) (now : ℕ) (req : StreamRequest) (http : HttpRequest)
    (port : ℕ) (ports : List ℕ)
    → IsComplete req http
    → s.available_ports ≡ port ∷ ports
    → (s' : TunnelService) × IsRegistered s session_id now req http.path port s'
      × (s'.available_ports ≡ ports)
unfolding registered client_at new_client
register_accepts s session_id now req http port ports c e = (
  committed s session_id now req http.path port ports,
  record {
    returned = register_complete s session_id now req http port ports c e;
    stored = rw (
      committed-clients s session_id now req http.path port ports req.request_id,
      beq_self req.request_id,
    );
    others = λ i ne.
        rw (
          committed-clients s session_id now req http.path port ports i,
          beq_ne req.request_id i ne,
        );
  },
  committed-available_ports s session_id now req http.path port ports,
)

abbrev KeepsInv : Registers → Type 0
KeepsInv (returns (r, s')) = Inv s'
KeepsInv panics = Unit
KeepsInv blocks = Unit

-- After `Register`, whatever it returns, every client is stored under its own ID with one normalised
-- path, and the path index names exactly the clients that list a path.
register-Inv :
    (s : TunnelService) (session_id : Text) (now : ℕ) (req : StreamRequest)
    (r : Result Error StreamResponse) (s' : TunnelService)
    → Inv s
    → register s session_id now req ≡ returns (r, s')
    → Inv s'
register-Inv s session_id now req r s' v e = rw e at keeps
  where
    keeps : KeepsInv (register s session_id now req)
    keeps =
        register_cases s session_id now req KeepsInv (λ _. v) (λ _ _. tt) (λ _ _ _ _. v)
          (λ _ _ _. v)
          (λ http port ports _ _. committed-Inv s session_id now req http.path port ports v)

-- Why `Register` returns an error.
abbrev Refuses : TunnelService → StreamRequest → Error → Type 0
Refuses s req client_id_required = req.request_id ≡ []
Refuses s req path_required =
    (req.request_id ≢ []) × ((http : HttpRequest) × (req.request ≡ some http) × (http.path ≡ []))
Refuses s req no_available_ports =
    ((http : HttpRequest) × IsComplete req http) × (s.available_ports ≡ [])
Refuses s req (client_not_found id) = ⊥
Refuses s req (no_client_found path) = ⊥

abbrev RefusesRightly : TunnelService → StreamRequest → Registers → Type 0
RefusesRightly s req (returns (ok r, s')) = Unit
RefusesRightly s req (returns (err e, s')) = Refuses s req e × (s' ≡ s)
RefusesRightly s req panics = Unit
RefusesRightly s req blocks = Unit

-- An error of `Register` names the first thing that is missing, of the ID, the path and a port, and
-- the service is as it was.
register-Refuses :
    (s : TunnelService) (session_id : Text) (now : ℕ) (req : StreamRequest) (e : Error)
    (s' : TunnelService)
    → register s session_id now req ≡ returns (err e, s')
    → Refuses s req e × (s' ≡ s)
register-Refuses s session_id now req e s' h = rw h at rightly
  where
    rightly : RefusesRightly s req (register s session_id now req)
    rightly =
        register_cases s session_id now req (RefusesRightly s req) (λ a. (a, refl)) (λ _ _. tt)
          (λ http a b c. ((a, (http, b, c)), refl)) (λ http c b. (((http, c), b), refl))
          (λ _ _ _ _ _. tt)

abbrev PanicsRightly : StreamRequest → Registers → Type 0
PanicsRightly req r = (r ≡ panics) ↔ ((req.request_id ≢ []) × (req.request ≡ none))

-- `Register` panics exactly on a request with an ID and a nil `HttpRequest`.
register_panics_iff :
    (s : TunnelService) (session_id : Text) (now : ℕ) (req : StreamRequest)
    → (register s session_id now req ≡ panics) ↔ ((req.request_id ≢ []) × (req.request ≡ none))
register_panics_iff s session_id now req =
    register_cases s session_id now req (PanicsRightly req) (λ e. (λ h. cc, λ (a, b). absurd (a e)))
      (λ a b. (λ h. (a, b), λ _. refl)) (λ http a b c. (λ h. cc, λ (d, f). cc))
      (λ http c b. (λ h. cc, λ (d, f). cc (c.given)))
      (λ http port ports c b. (λ h. cc, λ (d, f). cc (c.given)))
