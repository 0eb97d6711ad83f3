-- ===== src/Registry/Staleness.antt =====
-- `CleanupStaleClients` and the heartbeat monitor: who is taken for stale.
use attachcloudip.Common.{
  ℕ, ◌≡◌, ◌≢◌, refl, List, [], ◌∷◌, ◌++◌, Bool, true, false, ◌&&◌, ◌||◌, Option, none, some,
  if◌then◌else◌, ◌==◌, returns, contains, arith, Option-cases, inl, inr,
}
use attachcloudip.Common.Map.{lookup, lookup-delete}
use attachcloudip.Common.Text.{Text, text_eq, text_beq_iff}
use attachcloudip.Common.Words.{greater, sub_time}
use attachcloudip.Registry.{Registry, ClientRegistration, sweep, sweep_all, cleanup_stale_clients}
use attachcloudip.Registry.Locking.{Ready, sweep_all-Agree}

-- More than `timeout` has passed since the last heartbeat of a registered client.
abbrev pub is_late : ℕ → ℕ → Option ClientRegistration → Bool
is_late timeout now none = false
is_late timeout now (some c) = greater (sub_time now c.last_heartbeat) timeout

abbrev pub unless_late : ℕ → ℕ → Option ClientRegistration → Option ClientRegistration
unless_late timeout now o = if is_late timeout now o then none else o

module _ (timeout now : ℕ) where
  sweep-clients :
      (acc : List Text × Registry) (id i : Text)
      → lookup i (sweep timeout now acc id).1.clients ≡ (
          if id == i
          then unless_late timeout now (lookup i acc.1.clients)
          else lookup i acc.1.clients)
  unfolding sweep
  sweep-clients (stale, r) id i = ground (arith, lookup-delete id i r.clients, text_beq_iff id i)

  contains-append :
      (xs : List Text) (x i : Text) → contains (xs ++ x ∷ []) i ≡ contains xs i || (x == i)
  unfolding contains
  contains-append [] x i = ground arith
  contains-append (y ∷ xs) x i = ground (arith, contains-append xs x i)

  sweep-stale :
      (acc : List Text × Registry) (id i : Text)
      → contains (sweep timeout now acc id).0 i
        ≡ contains acc.0 i || ((id == i) && is_late timeout now (lookup i acc.1.clients))
  unfolding sweep
  sweep-stale (stale, r) id i = ground (arith, contains-append stale id i, text_beq_iff id i)

  sweep_all-clients :
      (order : List Text) (acc : List Text × Registry) (i : Text)
      → lookup i (sweep_all timeout now acc order).1.clients ≡ (
          if contains order i
          then unless_late timeout now (lookup i acc.1.clients)
          else lookup i acc.1.clients)
  unfolding sweep_all contains
  sweep_all-clients [] acc i = refl
  sweep_all-clients (id ∷ ids) acc i =
      ground (arith, sweep_all-clients ids (sweep timeout now acc id) i, sweep-clients acc id i)

  sweep_all-stale :
      (order : List Text) (acc : List Text × Registry) (i : Text)
      → contains (sweep_all timeout now acc order).0 i
        ≡ contains acc.0 i || (contains order i && is_late timeout now (lookup i acc.1.clients))
  unfolding sweep_all contains
  sweep_all-stale [] acc i = ground arith
  sweep_all-stale (id ∷ ids) acc i = ground (
    arith,
    sweep_all-stale ids (sweep timeout now acc id) i,
    sweep-clients acc id i,
    sweep-stale acc id i,
  )

swept : ℕ → ℕ → List Text → Registry → List Text × Registry
swept timeout now order r = sweep_all timeout now ([], record r { mu = true }) order

cleanup_stale_clients_lem :
    (timeout now : ℕ) (order : List Text) (r : Registry)
    → r.mu ≡ false
    → cleanup_stale_clients timeout now order r
      ≡ returns
          ((swept timeout now order r).0, record ((swept timeout now order r).1) { mu = false })
unfolding cleanup_stale_clients swept
cleanup_stale_clients_lem timeout now order r e = ground (arith, e)

swept-stale :
    (timeout now : ℕ) (order : List Text) (r : Registry) (i : Text)
    → (lookup i r.clients ≢ none → contains order i ≡ true)
    → contains (swept timeout now order r).0 i ≡ is_late timeout now (lookup i r.clients)
unfolding swept contains
swept-stale timeout now order r i visited = elim (Option-cases (lookup i r.clients)) [
  | inl missing ↦
      ground (arith, sweep_all-stale timeout now order ([], record r { mu = true }) i, missing)
  | inr (c, e) ↦
      let seen = visited (λ f. cc (e, f)) in
      ground (arith, sweep_all-stale timeout now order ([], record r { mu = true }) i, e, seen)
]

swept-clients :
    (timeout now : ℕ) (order : List Text) (r : Registry) (i : Text)
    → (lookup i r.clients ≢ none → contains order i ≡ true)
    → lookup i (swept timeout now order r).1.clients ≡ unless_late timeout now (lookup i r.clients)
unfolding swept
swept-clients timeout now order r i visited = elim (Option-cases (lookup i r.clients)) [
  | inl missing ↦
      ground (arith, sweep_all-clients timeout now order ([], record r { mu = true }) i, missing)
  | inr (c, e) ↦
      let seen = visited (λ f. cc (e, f)) in
      ground (arith, sweep_all-clients timeout now order ([], record r { mu = true }) i, e, seen)
]

-- In whatever order Go visits the clients, `CleanupStaleClients` takes off exactly the clients whose
-- last heartbeat is more than the timeout ago and returns their IDs; the other clients stay as they
-- are, nothing of the removed ones is left at any path, and the lock is free.
pub cleanup_stale_clients-effect :
    (timeout now : ℕ) (order : List Text) (r : Registry)
    → Ready r
    → ((i : Text) → lookup i r.clients ≢ none → contains order i ≡ true)
    → (stale : List Text) × (r' : Registry) × (cleanup_stale_clients timeout now order r
        ≡ returns (stale, r'))
      × ((i : Text) → contains stale i ≡ is_late timeout now (lookup i r.clients))
      × ((i : Text) → lookup i r'.clients ≡ unless_late timeout now (lookup i r.clients))
      × Ready r'
unfolding swept
cleanup_stale_clients-effect timeout now order r v all = (
  (swept timeout now order r).0,
  record ((swept timeout now order r).1) { mu = false },
  cleanup_stale_clients_lem timeout now order r v.free,
  λ i. swept-stale timeout now order r i (all i),
  λ i. swept-clients timeout now order r i (all i),
  record {
    free = refl;
    agree = sweep_all-Agree timeout now order ([], record r { mu = true }) v.agree;
  },
)
