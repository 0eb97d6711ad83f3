-- ===== src/Service/Tunnel/Branches.antt =====
-- `Register` on every branch.
use attachcloudip.Common.{
  ℕ, ◌≡◌, ◌≢◌, List, [], ◌∷◌, none, some, nat_eq, arith, Outcome, returns, panics, Result, ok, err,
  Option-cases, List-cases, inl, inr,
}
use attachcloudip.Common.Text.{Text, text_eq}
use attachcloudip.Service.Types.{HttpRequest, StreamRequest, StreamResponse}
use attachcloudip.Service.Tunnel.{
  TunnelService, Error, client_id_required, path_required, no_available_ports, registered,
  check_request, register,
}
use attachcloudip.Service.Tunnel.Registration.{committed, commit_client_lem}

-- The request names a client and a path.
pub record IsComplete (req : StreamRequest) (http : HttpRequest) : Type 0 where
  pub named : req.request_id ≢ []
  pub given : req.request ≡ some http
  pub path_given : http.path ≢ []

module _ (s : TunnelService) (req : StreamRequest) where
  check_no_id : req.request_id ≡ [] → check_request s req ≡ returns (err client_id_required)
  unfolding check_request
  check_no_id e = rw (e, check_request)

  check_no_request : req.request_id ≢ [] → req.request ≡ none → check_request s req ≡ panics
  unfolding check_request
  check_no_request h e = ground (arith, List-cases req.request_id)

  check_no_path :
      (http : HttpRequest)
      → req.request_id ≢ []
      → req.request ≡ some http
      → http.path ≡ []
      → check_request s req ≡ returns (err path_required)
  unfolding check_request
  check_no_path http h e f = ground (arith, List-cases req.request_id)

  check_no_port :
      (http : HttpRequest)
      → IsComplete req http
      → s.available_ports ≡ []
      → check_request s req ≡ returns (err no_available_ports)
  unfolding check_request
  check_no_port http c e = ground (arith, List-cases req.request_id, List-cases http.path)

  pub check_complete :
      (http : HttpRequest) (port : ℕ) (ports : List ℕ)
      → IsComplete req http
      → s.available_ports ≡ port ∷ ports
      → check_request s req ≡ returns (ok http.path)
  unfolding check_request
  check_complete http port ports c e =
      ground (arith, List-cases req.request_id, List-cases http.path)

abbrev pub Registers : Type 0
Registers = Outcome (Result Error StreamResponse × TunnelService)

module _ (s : TunnelService) (session_id : Text) (now : ℕ) (req : StreamRequest) where
  -- A complete request gets the first port that is left.
  pub register_complete :
      (http : HttpRequest) (port : ℕ) (ports : List ℕ)
      → IsComplete req http
      → s.available_ports ≡ port ∷ ports
      → register s session_id now req
        ≡ returns (
          ok (registered req.request_id port),
          committed s session_id now req http.path port ports,
        )
  unfolding register
  register_complete http port ports c e = rw (
    check_complete s req http port ports c e,
    commit_client_lem s session_id now req http.path port ports e,
  )

  -- To prove a fact about the outcome of `Register`, prove it on each branch.
  pub register_cases {ℓ} :
      (P : Registers → Type ℓ)
      → (req.request_id ≡ [] → P (returns (err client_id_required, s)))
      → (req.request_id ≢ [] → req.request ≡ none → P panics)
      → ((http : HttpRequest)
          → req.request_id ≢ []
          → req.request ≡ some http
          → http.path ≡ []
          → P (returns (err path_required, s)))
      → ((http : HttpRequest)
          → IsComplete req http
          → s.available_ports ≡ []
          → P (returns (err no_available_ports, s)))
      → ((http : HttpRequest) (port : ℕ) (ports : List ℕ)
          → IsComplete req http
          → s.available_ports ≡ port ∷ ports
          → P (
              returns (
                ok (registered req.request_id port),
                committed s session_id now req http.path port ports,
              )))
      → P (register s session_id now req)
  unfolding register
  register_cases P no_id no_request no_path no_port complete = elim (List-cases req.request_id) [
    | inl e ↦ rw (check_no_id s req e) (no_id e)
    | inr (c, rest, e) ↦
        let named : req.request_id ≢ [] = λ f. cc (e, f) in
        elim (Option-cases req.request) [
          | inl g ↦ rw (check_no_request s req named g) (no_request named g)
          | inr (http, g) ↦ elim (List-cases http.path) [
            | inl f ↦ rw (check_no_path s req http named g f) (no_path http named g f)
            | inr (d, more, f) ↦
                let full : IsComplete req http = record {
                  named = named;
                  given = g;
                  path_given = λ k. cc (f, k);
                } in
                elim (List-cases s.available_ports) [
                  | inl k ↦ rw (check_no_port s req http full k) (no_port http full k)
                  | inr (port, ports, k) ↦
                      rw
                        (
                          check_complete s req http port ports full k,
                          commit_client_lem s session_id now req http.path port ports k,
                        )
                        (complete http port ports full k)
                ]
          ]
        ]
  ]
