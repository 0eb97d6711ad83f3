-- ===== src/Service/Tunnel/PortUse.antt =====
-- What becomes of the ports: no two clients share one, and none ever comes back.
use attachcloudip.Common.{
  ℕ, ◌≤◌, ◌≡◌, ◌≢◌, sym, ◌∙◌, List, ◌∷◌, some, nat_eq, nat_beq_iff, count, arith, returns, panics,
  blocks, Result, beq_self, beq_cases, ◌⊎◌, inl, inr,
}
use attachcloudip.Common.Map.{lookup}
use attachcloudip.Common.Text.{Text, text_eq}
use attachcloudip.Service.Types.{StreamRequest, StreamResponse, ClientInfo}
use attachcloudip.Service.Tunnel.{TunnelService, Error, register, remove_client, new_client}
use attachcloudip.Service.Tunnel.Invariant.{remove_client-clients, remove_client-available_ports}
use attachcloudip.Service.Tunnel.Registration.{
  client_at, committed, committed-clients, committed-available_ports,
}
use attachcloudip.Service.Tunnel.Branches.{register_cases, Registers}

-- The ports left are distinct, no client has one of them, and no two clients have the same.
pub record PortsInv (s : TunnelService) : Type 0 where
  pub single : (p : ℕ) → count p s.available_ports ≤ 1
  pub taken :
      (i : Text) (c : ClientInfo) → lookup i s.clients ≡ some c → count c.port s.available_ports ≡ 0
  pub distinct :
      (i j : Text) (c d : ClientInfo)
      → lookup i s.clients ≡ some c
      → lookup j s.clients ≡ some d
      → c.port ≡ d.port
      → i ≡ j

-- A change to the clients that gives the new client under `id`, if any, a port that is not in use.
module _ (s : TunnelService) (session_id : Text) (now : ℕ) (req : StreamRequest) (path : Text)
    (port : ℕ) (ports : List ℕ) (e : s.available_ports ≡ port ∷ ports) (v : PortsInv s) where
  after : TunnelService
  after = committed s session_id now req path port ports

  -- A stored client is the new one, or an old one under another ID.
  stored_cases :
      (i : Text) (c : ClientInfo)
      → lookup i after.clients ≡ some c
      → ((req.request_id ≡ i) × (c.port ≡ port))
        ⊎ ((req.request_id ≢ i) × (lookup i s.clients ≡ some c))
  unfolding after client_at new_client
  stored_cases i c h = elim (beq_cases req.request_id i) [
    | inl same ↦
        inl (
          same,
          ground (arith, committed-clients s session_id now req path port ports i, beq_self i),
        )
    | inr (ne, diff) ↦
        inr (ne, ground (arith, committed-clients s session_id now req path port ports i))
  ]

  old-ne-new : (i : Text) (c : ClientInfo) → lookup i s.clients ≡ some c → c.port ≢ port
  unfolding count
  old-ne-new i c h f = ground (arith, v.taken i c h, nat_beq_iff port c.port, e)

  committed-single : (p : ℕ) → count p after.available_ports ≤ 1
  unfolding count after
  committed-single p =
      ground (arith, committed-available_ports s session_id now req path port ports, v.single p, e)

  committed-taken :
      (i : Text) (c : ClientInfo)
      → lookup i after.clients ≡ some c
      → count c.port after.available_ports ≡ 0
  unfolding count after
  committed-taken i c h = elim (stored_cases i c h) [
    | inl (same, new) ↦ ground (
      arith,
      new,
      committed-available_ports s session_id now req path port ports,
      v.single port,
      e,
      nat_beq_iff port port,
    )
    | inr (ne, old) ↦ ground (
      arith,
      committed-available_ports s session_id now req path port ports,
      v.taken i c old,
      e,
      nat_beq_iff port c.port,
    )
  ]

  committed-distinct :
      (i j : Text) (c d : ClientInfo)
      → lookup i after.clients ≡ some c
      → lookup j after.clients ≡ some d
      → c.port ≡ d.port
      → i ≡ j
  committed-distinct i j c d h k f = elim (stored_cases i c h) [
    | inl (same, new) ↦ elim (stored_cases j d k) [
      | inl (same', new') ↦ sym same ∙ same'
      | inr (ne, old) ↦ absurd (old-ne-new j d old (sym f ∙ new))
    ]
    | inr (ne, old) ↦ elim (stored_cases j d k) [
      | inl (same', new') ↦ absurd (old-ne-new i c old (f ∙ new'))
      | inr (ne', old') ↦ v.distinct i j c d old old' f
    ]
  ]

  pub committed-PortsInv : PortsInv (committed s session_id now req path port ports)
  unfolding after
  committed-PortsInv = record {
    single = committed-single;
    taken = committed-taken;
    distinct = committed-distinct;
  }

abbrev KeepsPorts : Registers → Type 0
KeepsPorts (returns (r, s')) = PortsInv s'
KeepsPorts panics = Unit
KeepsPorts blocks = Unit

-- After `Register`, whatever it returns, no port is left twice, left and in use, or in use twice.
register-PortsInv :
    (s : TunnelService) (session_id : Text) (now : ℕ) (req : StreamRequest)
    (r : Result Error StreamResponse) (s' : TunnelService)
    → PortsInv s
    → register s session_id now req ≡ returns (r, s')
    → PortsInv s'
register-PortsInv s session_id now req r s' v e = rw e at keeps
  where
    keeps : KeepsPorts (register s session_id now req)
    keeps =
        register_cases s session_id now req KeepsPorts (λ _. v) (λ _ _. tt) (λ _ _ _ _. v)
          (λ _ _ _. v)
          (λ http port ports _ f. committed-PortsInv s session_id now req http.path port ports f v)

pub remove_client-PortsInv :
    (s : TunnelService) (id : Text) → PortsInv s → PortsInv (remove_client s id)
remove_client-PortsInv s id v = record {
  single = λ p. rw (remove_client-available_ports s id) (v.single p);
  taken = λ i c h. rw (remove_client-available_ports s id) (v.taken i c (stays i c h));
  distinct = λ i j c d h k. v.distinct i j c d (stays i c h) (stays j d k);
}
  where
    stays :
        (i : Text) (c : ClientInfo)
        → lookup i (remove_client s id).clients ≡ some c
        → lookup i s.clients ≡ some c
    stays i c h = ground (arith, remove_client-clients s id i)
