-- ===== src/Registry/Calls.antt =====
-- The methods of the registry, called one after another in any order.
use attachcloudip.Common.{
  ℕ, ◌≡◌, ◌≤◌, refl, List, [], true, none, Outcome, returns, panics, blocks, count, length,
}
use mathlib.Core.Path.{subst, sym}
use attachcloudip.Common.Map.{Map, lookup}
use attachcloudip.Common.Text.{Text, text_eq}
use attachcloudip.Registry.{
  Registry, ClientType, client_type_http, allocate_tcp_port, register_client, find_client_for_path,
  update_heartbeat, monitor_tick, mark_inactive, mark_all, clean, cut_client, add_client, next_port,
  hear, gain_connection, drop_connection, cleanup_stale_clients, client_count, list_clients,
  increment_tcp_connection, decrement_tcp_connection, get_next_tcp_port, remove_client,
  new_registry, new_client, no_error, find_in,
}
use attachcloudip.Registry.Agree.{Agree-attach, Agree-map_values, Agree-erase, paths_of}
use attachcloudip.Registry.Locking.{
  Ready, Leaves, with_lock-Ready, with_rlock-Ready, change_client-Ready, hear-same,
  gain_connection-same, drop_connection-same, mark_inactive-same, sweep_all-Agree,
  new_registry-Ready,
}

pub data Call : Type 0 where
  registers : List Text → ClientType → Map Text Text → Text → ℕ → Call
  allocates : ClientType → Call
  takes_port counts lists : Call
  finds opens closes removes : Text → Call
  beats : Text → ℕ → Call
  ticks : ℕ → ℕ → Call
  cleans : ℕ → ℕ → List Text → Call

abbrev forget : {A : Type 0} → Outcome (A × Registry) → Outcome Registry
forget (returns (a, r)) = returns r
forget panics = panics
forget blocks = blocks

-- The registry after the call.
pub perform : Call → Registry → Outcome Registry
perform (registers paths t metadata id now) r = forget (register_client paths t metadata id now r)
perform (allocates t) r = forget (allocate_tcp_port t r)
perform takes_port r = forget (get_next_tcp_port r)
perform counts r = forget (client_count r)
perform lists r = forget (list_clients r)
perform (finds path) r = forget (find_client_for_path path r)
perform (opens id) r = forget (increment_tcp_connection id r)
perform (closes id) r = forget (decrement_tcp_connection id r)
perform (removes id) r = forget (remove_client id r)
perform (beats id now) r = forget (update_heartbeat id now r)
perform (ticks interval now) r = forget (monitor_tick interval now r)
perform (cleans timeout now order) r = forget (cleanup_stale_clients timeout now order r)

-- The calls that are safe: a registration is of an HTTP client under a new UUID, and a client that
-- is removed lists no path twice.
abbrev pub IsSafe : Registry → Call → Type 0
IsSafe r (registers paths t metadata id now) = (t ≡ client_type_http) × (lookup id r.clients ≡ none)
IsSafe r (removes id) = (p : Text) → count p (paths_of r.clients id) ≤ 1
IsSafe r _ = Unit

abbrev pub ReturnsReady : Outcome Registry → Type 0
ReturnsReady o = (r : Registry) × (o ≡ returns r) × Ready r

forget-Ready : {A : Type 0} (o : Outcome (A × Registry)) → Leaves Ready o → ReturnsReady (forget o)
forget-Ready (returns (a, r)) h = (r, refl, h)
forget-Ready panics h = absurd h
forget-Ready blocks h = absurd h

module _ (r : Registry) (v : Ready r) where
  register-Ready :
      (paths : List Text) (t : ClientType) (metadata : Map Text Text) (id : Text) (now : ℕ)
      → t ≡ client_type_http
      → lookup id r.clients ≡ none
      → Leaves Ready (register_client paths t metadata id now r)
  unfolding register_client
  register-Ready paths t metadata id now e fresh =
      subst (λ x. Leaves Ready (register_client paths x metadata id now r)) (sym e)
        (with_lock-Ready (add_client paths client_type_http metadata id now) r v (
          Agree-attach r.clients r.path_to_client_ids v.agree
            (new_client paths client_type_http metadata id now 0) fresh))

  ready_after : (c : Call) → IsSafe r c → ReturnsReady (perform c r)
  unfolding perform allocate_tcp_port get_next_tcp_port client_count list_clients
      find_client_for_path update_heartbeat increment_tcp_connection decrement_tcp_connection
      remove_client monitor_tick cleanup_stale_clients
  ready_after (registers paths t metadata id now) (e, fresh) =
      forget-Ready _ (register-Ready paths t metadata id now e fresh)
  ready_after (allocates t) _ = forget-Ready _ (with_lock-Ready (no_error next_port) r v v.agree)
  ready_after takes_port _ = forget-Ready _ (with_lock-Ready next_port r v v.agree)
  ready_after counts _ = forget-Ready _ (with_rlock-Ready (λ x. length x.clients) r v)
  ready_after lists _ = (r, refl, v)
  ready_after (finds path) _ = forget-Ready _ (with_rlock-Ready (find_in path) r v)
  ready_after (opens id) _ =
      forget-Ready _ (change_client-Ready id gain_connection r gain_connection-same v)
  ready_after (closes id) _ =
      forget-Ready _ (change_client-Ready id drop_connection r drop_connection-same v)
  ready_after (removes id) once = forget-Ready _ (
      with_lock-Ready (cut_client id) r v
        (Agree-erase r.clients r.path_to_client_ids v.agree id once))
  ready_after (beats id now) _ =
      forget-Ready _ (change_client-Ready id (hear now) r (hear-same now) v)
  ready_after (ticks interval now) _ = forget-Ready _ (
      with_lock-Ready (mark_all interval now) r v (
        Agree-map_values r.clients r.path_to_client_ids v.agree (mark_inactive interval now)
          (λ c. (mark_inactive-same interval now c).0)
          (λ c. (mark_inactive-same interval now c).1)))
  ready_after (cleans timeout now order) _ = forget-Ready _ (
      with_lock-Ready (clean timeout now order) r v
        (sweep_all-Agree timeout now order ([], record r { mu = true }) v.agree))

-- The registries that safe calls lead to.
pub data Reach (start_port : ℕ) : Registry → Type 0 where
  created : Reach start_port (new_registry start_port)
  called :
      {r r' : Registry}
      → Reach start_port r
      → (c : Call) → IsSafe r c
      → perform c r ≡ returns r'
      → Reach start_port r'

Reach-Ready : {start_port : ℕ} {r : Registry} → Reach start_port r → Ready r
Reach-Ready {start_port} created = new_registry-Ready start_port
Reach-Ready (called {r = r} {r' = r'} reach c safe e) =
    ready_again (ready_after r (Reach-Ready reach) c safe)
  where
    ready_again : ReturnsReady (perform c r) → Ready r'
    ready_again (q, f, v) = subst Ready (cc (e, f)) v

-- After any safe calls a further safe call returns: it does not block, it leaves the lock free, and
-- every ID stands in the slice of a path exactly as often as its client lists the path.
pub Reach-returns :
    {start_port : ℕ} {r : Registry}
    → Reach start_port r
    → (c : Call) → IsSafe r c
    → (r' : Registry) × (perform c r ≡ returns r') × Ready r'
Reach-returns {r = r} reach c safe = ready_after r (Reach-Ready reach) c safe
