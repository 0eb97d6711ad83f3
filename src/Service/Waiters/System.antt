-- ===== src/Service/Waiters/System.antt =====
-- Requests and responses of pkg/service/tunnel_service.go in any order: each call of
-- `handleHTTPRequest` starts with a new waiter and ends at its `select`.
use attachcloudip.Common.{
  ℕ, suc, List, [], ◌∷◌, Option, none, some, nat_eq, Outcome, returns, panics, blocks, Result, ok,
  err,
}
use attachcloudip.Common.Map.{Map, lookup, insert, delete}
use attachcloudip.Common.Text.{Text, text_eq}
use attachcloudip.Service.Types.{StreamRequest}
use attachcloudip.Service.Tunnel.{TunnelService}
use attachcloudip.Service.Waiters.{
  Waiters, Error, start_request, finish_request, Wake, handle_http_response,
}

-- `pending` has the request ID of each call that waits, by its waiter.
pub record System : Type 0 where
  pub waits : Waiters
  pub pending : Map ℕ Text
  pub next : ℕ

pub data Move : Type 0 where
  starts : TunnelService → Text → Text → Move
  responds : StreamRequest → Move
  wakes : ℕ → Wake → Move

unfoldable pub begin : System → Text → Result Error (Unit {0}) × Waiters → System
begin s request_id (ok sent, w) = record {
  waits = w;
  pending = insert s.next request_id s.pending;
  next = suc s.next;
}
begin s request_id (err e, w) = record s { waits = w; next = suc s.next }

unfoldable pub settle : System → Outcome (Result Error (Unit {0}) × Waiters) → System
settle s (returns (r, w)) = record s { waits = w }
settle s panics = s
settle s blocks = s

unfoldable pub end : System → ℕ → Option (Result Error (Unit {0}) × Waiters) → System
end s waiter none = s
end s waiter (some (r, w)) = record s { waits = w; pending = delete waiter s.pending }

unfoldable pub wake : System → ℕ → Wake → Option Text → System
unfolding end
wake s waiter case none = s
wake s waiter case (some request_id) = end s waiter (finish_request s.waits request_id waiter case)

unfoldable pub move : System → Move → System
unfolding begin settle wake
move s (starts service client_id request_id) =
    begin s request_id (start_request service s.waits client_id request_id s.next)
move s (responds req) = settle s (handle_http_response s.waits req)
move s (wakes waiter case) = wake s waiter case (lookup waiter s.pending)

unfoldable pub run : System → List Move → System
unfolding move
run s [] = s
run s (x ∷ xs) = run (move s x) xs

unfoldable pub new_system : System
new_system = record { waits = record { waiters = []; responses = [] }; pending = []; next = 0 }
