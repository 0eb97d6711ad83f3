-- ===== src/Registry/Connections.antt =====
-- `IncrementTCPConnection` and `DecrementTCPConnection`, against a count of the open connections.
use attachcloudip.Common.{
  ℕ, ◌+◌, ◌-◌, ◌≤◌, ◌<◌, ◌≡◌, refl, sym, ap, ◌∙◌, List, [], ◌∷◌, false, some, ◌>>=◌, Outcome,
  returns, Result, ok, arith, beq_self, length,
}
use attachcloudip.Common.Map.{lookup, insert, lookup-insert}
use attachcloudip.Common.Text.{Text, text_eq}
use attachcloudip.Common.Words.{sign_bit, increment, decrement, greater}
use attachcloudip.Registry.{
  Registry, ClientRegistration, Error, with_lock, change_client, gain_connection, drop_connection,
  increment_tcp_connection, decrement_tcp_connection,
}

pub data Event : Type 0 where
  opened closed : Event

abbrev forget : Outcome (Result Error (Unit {0}) × Registry) → Outcome Registry
forget o = do (result, r) ← o; returns r

pub report : Text → Event → Registry → Outcome Registry
report id opened r = forget (increment_tcp_connection id r)
report id closed r = forget (decrement_tcp_connection id r)

pub report_all : Text → List Event → Registry → Outcome Registry
report_all id [] r = returns r
report_all id (e ∷ es) r = do r' ← report id e r; report_all id es r'

-- The connections that are open after the events; a close of none is ignored.
pub open_count : ℕ → List Event → ℕ
open_count n [] = n
open_count n (opened ∷ es) = open_count (n + 1) es
open_count n (closed ∷ es) = open_count (n - 1) es

with_changed : Registry → Text → ClientRegistration → Registry
with_changed r id client = record r { clients = insert id client r.clients }

change_unlocked :
    (r : Registry) (id : Text) (c : ClientRegistration)
    (change : ClientRegistration → ClientRegistration)
    → r.mu ≡ false
    → lookup id r.clients ≡ some c
    → with_lock (change_client id change) r ≡ returns (ok tt, with_changed r id (change c))
unfolding with_lock change_client with_changed
change_unlocked r id c change e f = ground (arith, e, f)

after_event : ClientRegistration → Event → ClientRegistration
after_event c opened = gain_connection c
after_event c closed = drop_connection c

report_lem :
    (r : Registry) (id : Text) (c : ClientRegistration) (e : Event)
    → r.mu ≡ false
    → lookup id r.clients ≡ some c
    → report id e r ≡ returns (with_changed r id (after_event c e))
unfolding report after_event increment_tcp_connection decrement_tcp_connection
report_lem r id c opened h k = rw (change_unlocked r id c gain_connection h k)
report_lem r id c closed h k = rw (change_unlocked r id c drop_connection h k)

gain_lem :
    (c : ClientRegistration)
    → c.active_tcp_connections + 1 < sign_bit
    → (gain_connection c).active_tcp_connections ≡ c.active_tcp_connections + 1
unfolding gain_connection increment
gain_lem c h = omega arith

drop_lem :
    (c : ClientRegistration)
    → c.active_tcp_connections < sign_bit
    → (drop_connection c).active_tcp_connections ≡ c.active_tcp_connections - 1
unfolding drop_connection decrement greater
drop_lem c h = ground arith

next_count : ℕ → Event → ℕ
next_count n opened = n + 1
next_count n closed = n - 1

after_event-next_count :
    (c : ClientRegistration) (e : Event)
    → c.active_tcp_connections + 1 < sign_bit
    → (after_event c e).active_tcp_connections ≡ next_count c.active_tcp_connections e
unfolding after_event next_count
after_event-next_count c opened h = gain_lem c h
after_event-next_count c closed h = drop_lem c (omega arith)

open_count-cons :
    (n : ℕ) (e : Event) (es : List Event) → open_count n (e ∷ es) ≡ open_count (next_count n e) es
unfolding open_count next_count
open_count-cons n opened es = refl
open_count-cons n closed es = refl

next_count-le : (n : ℕ) (e : Event) → next_count n e ≤ n + 1
unfolding next_count
next_count-le n opened = omega arith
next_count-le n closed = omega arith

lookup-with_changed :
    (r : Registry) (id : Text) (c : ClientRegistration)
    → lookup id (with_changed r id c).clients ≡ some c
unfolding with_changed
lookup-with_changed r id c = ground (arith, lookup-insert id id c r.clients, beq_self id)

with_changed-mu :
    (r : Registry) (id : Text) (c : ClientRegistration) → (with_changed r id c).mu ≡ r.mu
unfolding with_changed
with_changed-mu r id c = refl

-- The counter of a registered client follows its events: it is the number of connections that are
-- open, never less than none, up to the largest `int`.
pub report_all-open_count :
    (id : Text) (es : List Event) (r : Registry) (c : ClientRegistration)
    → r.mu ≡ false
    → lookup id r.clients ≡ some c
    → c.active_tcp_connections + length es < sign_bit
    → (r' : Registry) × (c' : ClientRegistration) × (report_all id es r ≡ returns r')
      × (lookup id r'.clients ≡ some c')
      × (c'.active_tcp_connections ≡ open_count c.active_tcp_connections es)
unfolding report_all
report_all-open_count id [] r c h k l = (r, c, refl, k, unfold open_count in refl)
report_all-open_count id (e ∷ es) r c h k l =
    let d = after_event c e in
    let next = after_event-next_count c e (omega arith) in
    let (r', c', run, stored, counted) =
      report_all-open_count id es (with_changed r id d) d (with_changed-mu r id d ∙ h)
        (lookup-with_changed r id d)
        (omega (arith, next, next_count-le c.active_tcp_connections e)) in
    (
      r',
      c',
      rw (report_lem r id c e h k) run,
      stored,
      counted
          ∙ ap (λ n. open_count n es) next
          ∙ sym (open_count-cons c.active_tcp_connections e es),
    )
