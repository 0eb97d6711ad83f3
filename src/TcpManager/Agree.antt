-- ===== src/TcpManager/Agree.antt =====
-- What the client table, the connections that were closed and the handlers have to do with each
-- other, and that each change of them keeps it.

use attachcloudip.Common.{
  ap, sym, ◌∙◌, Bool-cases, Option-cases, inl, inr, ℕ, ◌≡◌, ◌≢◌, refl, [], ◌∷◌, Bool, true, false,
  Option, none, some, contains, nat_eq, arith, nat_beq_iff,
}
use attachcloudip.Common.Map.{Map, lookup, insert, delete, lookup-insert, lookup-delete}
use attachcloudip.Common.Text.{Text, text_eq, text_beq_iff}
use attachcloudip.TcpManager.{
  ClientInfo, TcpManager, new_tcp_manager, register_client, remove_client, update_client_activity,
  close, Phase, awaiting, confirming, serving, acking, finished,
}
use attachcloudip.TcpManager.Table.{
  register_client-clients, update_client_activity-listed, update_client_activity-closed,
  remove_client-clients,
}

-- The ID under which the handler has registered its connection.
unfoldable pub registered_as : Option Phase → Option Text
registered_as none = none
registered_as (some awaiting) = none
registered_as (some (confirming id)) = some id
registered_as (some (serving id)) = some id
registered_as (some (acking id)) = some id
registered_as (some finished) = none

-- The handler has read its first message, or failed to.
unfoldable pub is_past : Option Phase → Bool
is_past none = false
is_past (some awaiting) = false
is_past (some _) = true

is_past_of_registered :
    (o : Option Phase) (id : Text) → registered_as o ≡ some id → is_past o ≡ true
unfolding registered_as is_past
is_past_of_registered none id e = cc
is_past_of_registered (some awaiting) id e = cc
is_past_of_registered (some (confirming _)) id e = refl
is_past_of_registered (some (serving _)) id e = refl
is_past_of_registered (some (acking _)) id e = refl
is_past_of_registered (some finished) id e = cc

-- A client in the table stands under its own ID, the handler of its connection has registered it
-- under that ID and has not ended, and nobody has closed the connection. A connection that was closed
-- had its first message.
pub record Agree (m : TcpManager) (handlers : Map ℕ Phase) : Type 0 where
  pub keyed : (id : Text) (c : ClientInfo) → lookup id m.clients ≡ some c → c.client_id ≡ id
  pub served :
      (id : Text) (c : ClientInfo)
      → lookup id m.clients ≡ some c
      → registered_as (lookup c.conn handlers) ≡ some id
  pub stays_open :
      (id : Text) (c : ClientInfo) → lookup id m.clients ≡ some c → contains m.closed c.conn ≡ false
  pub closed_past :
      (conn : ℕ) → contains m.closed conn ≡ true → is_past (lookup conn handlers) ≡ true

pub Agree-new : Agree new_tcp_manager []
unfolding lookup contains new_tcp_manager
Agree-new = record {
  keyed = λ id c e. cc;
  served = λ id c e. cc;
  stays_open = λ id c e. cc;
  closed_past = λ conn e. cc;
}

module _ (m : TcpManager) (handlers : Map ℕ Phase) (a : Agree m handlers) where
  -- A handler's move within the same registration.
  pub Agree-phase :
      (conn : ℕ) (phase : Phase)
      → registered_as (some phase) ≡ registered_as (lookup conn handlers)
      → is_past (some phase) ≡ is_past (lookup conn handlers)
      → Agree m (insert conn phase handlers)
  Agree-phase conn phase e f = record {
    keyed = a.keyed;
    served = λ id c g.
        ground (
          arith,
          lookup-insert conn c.conn phase handlers,
          nat_beq_iff conn c.conn,
          a.served id c g,
        );
    stays_open = a.stays_open;
    closed_past = λ i g.
        ground (arith, lookup-insert conn i phase handlers, nat_beq_iff conn i, a.closed_past i g);
  }

  -- A connection that no client of the table has is closed, and its handler ends.
  pub Agree-close :
      (conn : ℕ)
      → ((id : Text) (c : ClientInfo) → lookup id m.clients ≡ some c → c.conn ≢ conn)
      → Agree (close m conn) (insert conn finished handlers)
  unfolding close contains is_past
  Agree-close conn other = record {
    keyed = a.keyed;
    served = λ id c g. ground (
      arith,
      lookup-insert conn c.conn finished handlers,
      nat_beq_iff conn c.conn,
      a.served id c g,
      other id c g,
    );
    stays_open =
        λ id c g. ground (arith, nat_beq_iff conn c.conn, other id c g, a.stays_open id c g);
    closed_past = λ i g.
        ground (arith, lookup-insert conn i finished handlers, nat_beq_iff conn i, a.closed_past i);
  }

  -- A connection whose handler is not one of a registered client stands in no entry.
  pub unlisted :
      (conn : ℕ) (id : Text) (c : ClientInfo)
      → registered_as (lookup conn handlers) ≡ none
      → lookup id m.clients ≡ some c
      → c.conn ≢ conn
  unlisted conn id c e g h = ground (arith, a.served id c g, e, h)

  -- A handler that waits for its first message registers its connection.
  pub Agree-register :
      (conn now : ℕ) (id path : Text)
      → lookup conn handlers ≡ some awaiting
      → Agree (register_client m id path conn now) (insert conn (confirming id) handlers)
  unfolding register_client registered_as is_past
  Agree-register conn now id path e = record {
    keyed = λ i c g.
        ground
          (arith, register_client-clients m id path conn now i, text_beq_iff id i, a.keyed i c);
    served = λ i c g. ground (
      arith,
      register_client-clients m id path conn now i,
      lookup-insert conn c.conn (confirming id) handlers,
      text_beq_iff id i,
      nat_beq_iff conn c.conn,
      a.served i c,
      unlisted conn i c (ap registered_as e),
    );
    stays_open = λ i c g. ground (
      arith,
      register_client-clients m id path conn now i,
      text_beq_iff id i,
      a.stays_open i c,
      a.closed_past conn,
      ap is_past e,
      Bool-cases (contains m.closed conn),
    );
    closed_past = λ i g. ground (
      arith,
      lookup-insert conn i (confirming id) handlers,
      nat_beq_iff conn i,
      a.closed_past i g,
    );
  }

  pub Agree-update : (id : Text) (now : ℕ) → Agree (update_client_activity m id now) handlers
  Agree-update id now = record {
    keyed = λ i c g.
        let (d, stored, same, _) = update_client_activity-listed m id now i c g in
        sym same ∙ a.keyed i d stored;
    served = λ i c g.
        let (d, stored, _, same) = update_client_activity-listed m id now i c g in
        ground (arith, same, a.served i d stored);
    stays_open = λ i c g.
        let (d, stored, _, same) = update_client_activity-listed m id now i c g in
        ground (arith, same, a.stays_open i d stored, update_client_activity-closed m id now);
    closed_past =
        λ conn g. a.closed_past conn (ground (arith, g, update_client_activity-closed m id now));
  }

  same_id :
      (i j : Text) (c d : ClientInfo)
      → lookup i m.clients ≡ some c
      → lookup j m.clients ≡ some d
      → c.conn ≡ d.conn
      → i ≡ j
  same_id i j c d e f g = ground (arith, a.served i c e, a.served j d f, g)

  Agree-cut :
      (id : Text) (removed : ClientInfo)
      → lookup id m.clients ≡ some removed
      → Agree
          (record m { clients = delete id m.clients; closed = removed.conn ∷ m.closed })
          handlers
  unfolding contains
  Agree-cut id removed stored = record {
    keyed = λ i c g. ground (arith, lookup-delete id i m.clients, text_beq_iff id i, a.keyed i c);
    served = λ i c g. ground (arith, lookup-delete id i m.clients, text_beq_iff id i, a.served i c);
    stays_open = λ i c g. ground (
      arith,
      lookup-delete id i m.clients,
      text_beq_iff id i,
      a.stays_open i c,
      nat_beq_iff removed.conn c.conn,
      same_id i id c removed,
    );
    closed_past = λ conn g. ground (
      arith,
      nat_beq_iff removed.conn conn,
      a.closed_past conn,
      a.served id removed stored,
      is_past_of_registered (lookup removed.conn handlers) id,
    );
  }

  pub Agree-remove : (id : Text) → Agree (remove_client m id) handlers
  unfolding remove_client
  Agree-remove id = elim (Option-cases (lookup id m.clients)) [
    | inl missing ↦ rw (missing, remove_client) a
    | inr (removed, stored) ↦ rw (stored, remove_client) (Agree-cut id removed stored)
  ]

  -- After the removal no entry has a connection that is registered under the ID.
  pub remove_client-unlisted :
      (conn : ℕ) (id i : Text) (c : ClientInfo)
      → registered_as (lookup conn handlers) ≡ some id
      → lookup i (remove_client m id).clients ≡ some c
      → c.conn ≢ conn
  remove_client-unlisted conn id i c e g h =
      ground (arith, remove_client-clients m id i, text_beq_iff id i, a.served i c, e, h)
