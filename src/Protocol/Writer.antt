-- ===== src/Protocol/Writer.antt =====
-- The response writer of net/http, as the handler of a request has it: nothing has been written yet, or
-- the calls below have.
use attachcloudip.Common.{
  ℕ, List, [], ◌∷◌, ◌++◌, Bool, true, false, ◌&&◌, ◌||◌, not, Option, none, some, if◌then◌else◌,
  ◌==◌, nat_eq, leb, ltb, Outcome, returns, panics,
}
use attachcloudip.Protocol.Headers.{Header}

-- `informational` has the statuses from 100 on that were sent before the response's own.
pub record ResponseWriter : Type 0 where
  pub headers : Header
  pub informational : List ℕ
  pub status : Option ℕ
  pub body : List ℕ

unfoldable pub new_writer : ResponseWriter
new_writer = record { headers = []; informational = []; status = none; body = [] }

-- A status from 100 to 999; 101 is final, the others below 200 are sent at once.
unfoldable pub set_status : ResponseWriter → ℕ → ResponseWriter
set_status w code =
    if ltb code 200 && not (code == 101)
    then record w { informational = w.informational ++ code ∷ [] }
    else record w { status = some code }

-- `WriteHeader`, by the status that was set before.
unfoldable pub set_status_after : ResponseWriter → ℕ → Option ℕ → Outcome ResponseWriter
unfolding set_status
set_status_after w code none =
    if leb 100 code && leb code 999 then returns (set_status w code) else panics
set_status_after w code (some earlier) = returns w

unfoldable pub write_header : ResponseWriter → ℕ → Outcome ResponseWriter
unfolding set_status_after
write_header w code = set_status_after w code w.status

unfoldable pub body_allowed : ℕ → Bool
body_allowed status = not (ltb status 200 || status == 204 || status == 304)

-- `Write`, where `sends` says whether the connection takes the bytes. The answer says whether there was
-- no error. The declared length is that of the body, which is written once, so that it is not passed.
unfoldable pub write_as : Bool → ResponseWriter → List ℕ → ℕ → Bool × ResponseWriter
unfolding body_allowed
write_as sends w bytes status =
    if body_allowed status && sends
    then (true, record w { status = some status; body = w.body ++ bytes })
    else (false, record w { status = some status })

-- With no status yet, it is 200.
unfoldable pub write : Bool → ResponseWriter → List ℕ → Bool × ResponseWriter
unfolding write_as
write sends w bytes = elim w.status [
  | none ↦ write_as sends w bytes 200
  | some status ↦ write_as sends w bytes status
]
