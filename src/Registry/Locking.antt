-- ===== src/Registry/Locking.antt =====
-- Every method takes the lock, and gives it back: but for the registration of a TCP client, which
-- waits for itself.
use attachcloudip.Common.{
  ℕ, ◌≡◌, refl, List, [], ◌∷◌, true, false, if◌then◌else◌, ◌>>=◌, Outcome, returns, panics, blocks,
  arith, Option-cases, Bool-cases, inl, inr,
}
use mathlib.Core.Path.{subst, sym}
use attachcloudip.Common.Map.{Map, lookup}
use attachcloudip.Common.Text.{Text, text_eq}
use attachcloudip.Common.Words.{greater, sub_time}
use attachcloudip.Registry.{
  Registry, ClientRegistration, client_type_tcp, Op, with_lock, with_rlock, change_client,
  register_client, mark_inactive, sweep, sweep_all, hear, gain_connection, drop_connection,
  new_registry,
}
use attachcloudip.Registry.Agree.{Agree, Agree-nil, Agree-insert, Agree-detach}

abbrev pub AgreeIn : Registry → Type 0
AgreeIn r = Agree r.clients r.path_to_client_ids

-- Between two calls: the lock is free and the maps agree.
pub record Ready (r : Registry) : Type 0 where
  pub free : r.mu ≡ false
  pub agree : AgreeIn r

-- The call returns, and the registry that it leaves has the property.
abbrev pub Leaves : {A : Type 0} → (Registry → Type 0) → Outcome (A × Registry) → Type 0
Leaves P (returns (a, r)) = P r
Leaves P panics = ⊥
Leaves P blocks = ⊥

pub new_registry-Ready : (start_port : ℕ) → Ready (new_registry start_port)
unfolding new_registry
new_registry-Ready start_port = record { free = refl; agree = Agree-nil }

unlock :
    {A : Type 0} (o : Outcome (A × Registry))
    → Leaves AgreeIn o
    → Leaves Ready (o >>= λ (a, r). returns (a, record r { mu = false }))
unlock (returns (a, r)) h = record { free = refl; agree = h }
unlock panics h = h
unlock blocks h = h

-- A body that keeps the maps in agreement makes a method that leaves the registry ready.
pub with_lock-Ready :
    {A : Type 0} (body : Op A) (r : Registry)
    → Ready r
    → Leaves AgreeIn (body (record r { mu = true }))
    → Leaves Ready (with_lock body r)
unfolding with_lock
with_lock-Ready body r v h =
    subst
      (λ b. Leaves Ready (
        if b
        then blocks
        else (body (record r { mu = true }) >>= λ (a, r'). returns (a, record r' { mu = false }))))
      (sym v.free) (unlock (body (record r { mu = true })) h)

pub with_rlock-Ready :
    {A : Type 0} (body : Registry → A) (r : Registry) → Ready r → Leaves Ready (with_rlock body r)
unfolding with_rlock
with_rlock-Ready body r v =
    subst (λ b. Leaves Ready (if b then blocks else returns (body r, r))) (sym v.free) v

change_client-Agree :
    (id : Text) (change : ClientRegistration → ClientRegistration) (r : Registry)
    → ((c : ClientRegistration) → (change c).id ≡ c.id)
    → ((c : ClientRegistration) → (change c).paths ≡ c.paths)
    → AgreeIn r
    → Leaves AgreeIn (change_client id change r)
unfolding change_client
change_client-Agree id change r e f a = elim (Option-cases (lookup id r.clients)) [
  | inl missing ↦ rw (missing, change_client) a
  | inr (c, stored) ↦
      rw (stored, change_client)
        (Agree-insert r.clients r.path_to_client_ids a id c (change c) stored (e c) (f c))
]

pub change_client-Ready :
    (id : Text) (change : ClientRegistration → ClientRegistration) (r : Registry)
    → ((c : ClientRegistration) → ((change c).id ≡ c.id) × ((change c).paths ≡ c.paths))
    → Ready r
    → Leaves Ready (with_lock (change_client id change) r)
change_client-Ready id change r same v = with_lock-Ready (change_client id change) r v (
    change_client-Agree id change (record r { mu = true }) (λ c. (same c).0) (λ c. (same c).1)
      v.agree)

pub hear-same :
    (now : ℕ) (c : ClientRegistration) → ((hear now c).id ≡ c.id) × ((hear now c).paths ≡ c.paths)
unfolding hear
hear-same now c = (refl, refl)

pub gain_connection-same :
    (c : ClientRegistration)
    → ((gain_connection c).id ≡ c.id) × ((gain_connection c).paths ≡ c.paths)
unfolding gain_connection
gain_connection-same c = (refl, refl)

pub drop_connection-same :
    (c : ClientRegistration)
    → ((drop_connection c).id ≡ c.id) × ((drop_connection c).paths ≡ c.paths)
unfolding drop_connection
drop_connection-same c = ground arith

pub mark_inactive-same :
    (interval now : ℕ) (c : ClientRegistration)
    → ((mark_inactive interval now c).id ≡ c.id) × ((mark_inactive interval now c).paths ≡ c.paths)
unfolding mark_inactive
mark_inactive-same interval now c = ground arith

sweep-Agree :
    (timeout now : ℕ) (acc : List Text × Registry) (id : Text)
    → AgreeIn acc.1
    → AgreeIn (sweep timeout now acc id).1
unfolding sweep
sweep-Agree timeout now (stale, r) id a = elim (Option-cases (lookup id r.clients)) [
  | inl missing ↦ rw (missing, sweep) a
  | inr (c, stored) ↦
      rw (stored, sweep)
        (elim (Bool-cases (greater (sub_time now c.last_heartbeat) timeout)) [
          | inl late ↦ rw late (Agree-detach r.clients r.path_to_client_ids a id c stored)
          | inr fresh ↦ rw fresh a
        ])
]

pub sweep_all-Agree :
    (timeout now : ℕ) (ids : List Text) (acc : List Text × Registry)
    → AgreeIn acc.1
    → AgreeIn (sweep_all timeout now acc ids).1
unfolding sweep_all
sweep_all-Agree timeout now [] acc a = a
sweep_all-Agree timeout now (id ∷ ids) acc a =
    sweep_all-Agree timeout now ids (sweep timeout now acc id) (sweep-Agree timeout now acc id a)

-- A registration of a TCP client takes the lock a second time and waits for ever, whatever the state
-- of the registry.
pub register_client_tcp-blocks :
    (paths : List Text) (metadata : Map Text Text) (id : Text) (now : ℕ) (r : Registry)
    → register_client paths client_type_tcp metadata id now r ≡ blocks
unfolding register_client
register_client_tcp-blocks paths metadata id now r = ground arith
