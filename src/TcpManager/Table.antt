-- ===== src/TcpManager/Table.antt =====
-- What the client table of cmd/server/tcpmanager.go has after each operation on it.
use mathlib.Core.Option
use attachcloudip.Common.{
  Option-cases, inl, inr, ℕ, ◌≡◌, none, some, if◌then◌else◌, ◌==◌, nat_eq, arith,
}
use attachcloudip.Common.Map.{lookup, lookup-insert, lookup-delete}
use attachcloudip.Common.Text.{Text, text_eq, text_beq_iff}
use attachcloudip.TcpManager.{
  ClientInfo, TcpManager, register_client, remove_client, update_client_activity,
}

abbrev pub entry : Text → Text → ℕ → ℕ → ClientInfo
entry id path conn now = record { conn = conn; path = path; client_id = id; last_active = now }

-- What an ID has in the table after each operation.
pub register_client-clients :
    (m : TcpManager) (id path : Text) (conn now : ℕ) (i : Text)
    → lookup i (register_client m id path conn now).clients
      ≡ (if id == i then some (entry id path conn now) else lookup i m.clients)
unfolding register_client
register_client-clients m id path conn now i = lookup-insert id i (entry id path conn now) m.clients

abbrev pub touch : ℕ → ClientInfo → ClientInfo
touch now c = record c { last_active = now }

pub update_client_activity-clients :
    (m : TcpManager) (id : Text) (now : ℕ) (i : Text)
    → lookup i (update_client_activity m id now).clients
      ≡ (if id == i then Option.map (touch now) (lookup i m.clients) else lookup i m.clients)
unfolding update_client_activity
update_client_activity-clients m id now i = elim (Option-cases (lookup id m.clients)) [
  | inl missing ↦ rw (missing, update_client_activity) (ground (arith, missing, text_beq_iff id i))
  | inr (c, stored) ↦
      rw (stored, update_client_activity)
        (ground (
          arith,
          stored,
          lookup-insert id i (record c { last_active = now }) m.clients,
          text_beq_iff id i,
        ))
]

pub remove_client-clients :
    (m : TcpManager) (id i : Text)
    → lookup i (remove_client m id).clients ≡ (if id == i then none else lookup i m.clients)
unfolding remove_client
remove_client-clients m id i = ground (arith, lookup-delete id i m.clients, text_beq_iff id i)

-- Only the time of an entry changes.
pub update_client_activity-listed :
    (m : TcpManager) (id : Text) (now : ℕ) (i : Text) (c : ClientInfo)
    → lookup i (update_client_activity m id now).clients ≡ some c
    → (d : ClientInfo) × (lookup i m.clients ≡ some d)
      × (d.client_id ≡ c.client_id)
      × (d.conn ≡ c.conn)
update_client_activity-listed m id now i c e = elim (Option-cases (lookup i m.clients)) [
  | inl missing ↦ ground (arith, missing, update_client_activity-clients m id now i)
  | inr (d, stored) ↦ (
    d,
    stored,
    ground (arith, stored, update_client_activity-clients m id now i),
    ground (arith, stored, update_client_activity-clients m id now i),
  )
]

pub update_client_activity-closed :
    (m : TcpManager) (id : Text) (now : ℕ) → (update_client_activity m id now).closed ≡ m.closed
unfolding update_client_activity
update_client_activity-closed m id now = ground arith
