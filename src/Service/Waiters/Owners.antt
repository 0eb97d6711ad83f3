-- ===== src/Service/Waiters/Owners.antt =====
-- Whose the waiters of pkg/service/tunnel_service.go are, through any sequence of steps.
use attachcloudip.Common.{
  ℕ, ◌≡◌, refl, List, [], ◌∷◌, Option, none, some, ◌==◌, ◌>>=◌, nat_eq, nat_beq_iff, length,
  Option-cases, Bool-cases, inl, inr, arith, Outcome, returns, panics, blocks,
}
use attachcloudip.Common.Map.{lookup, lookup-insert}
use attachcloudip.Common.Text.{Text, text_eq}
use attachcloudip.Service.Types.{HttpRequest, StreamRequest, StreamResponse, StreamRequestType}
use attachcloudip.Service.Waiters.{response_for, deliver, handle_http_response}
use attachcloudip.Service.Waiters.System.{
  System, Move, starts, responds, wakes, settle, move, run, new_system,
}
use attachcloudip.Service.Waiters.Ownership.{Owned, begin-Owned, wake-Owned}

abbrev Addresses : Text → Outcome StreamResponse → Type 0
Addresses id (returns response) = response.request_id ≡ id
Addresses id panics = Unit
Addresses id blocks = Unit

-- A response is for the ID that the client's message has.
response_for-Addresses :
    (t : StreamRequestType) (id protocol : Text) (o : Option HttpRequest)
    → Addresses id
        (response_for (record { type = t; request_id = id; request = o; protocol = protocol }))
unfolding response_for
response_for-Addresses StreamRequestType.http_request id protocol o = refl
response_for-Addresses StreamRequestType.heartbeat id protocol o = refl
response_for-Addresses StreamRequestType.path_update id protocol o = refl
response_for-Addresses StreamRequestType.http_response id protocol none = tt
response_for-Addresses StreamRequestType.http_response id protocol (some http) = refl

deliver-Owned :
    (s : System) (a : ℕ) (id : Text) (response : StreamResponse)
    → Owned s
    → lookup a s.pending ≡ some id
    → response.request_id ≡ id
    → Owned (settle s (returns (deliver s.waits id a response)))
unfolding settle deliver
deliver-Owned s a id response v e f = elim (Option-cases (lookup a s.waits.responses)) [
  | inr (r, full) ↦ rw (full, deliver) v
  | inl empty ↦
      rw (empty, deliver)
        (record {
          owned = v.owned;
          addressed = λ b i r g h. ground (
            arith,
            lookup-insert a b response s.waits.responses,
            nat_beq_iff a b,
            v.addressed b i r,
            e,
            f,
            g,
            h,
          );
          old = v.old;
          old_response = λ b r h. ground (
            arith,
            lookup-insert a b response s.waits.responses,
            nat_beq_iff a b,
            v.old_response b r,
            v.old a id e,
            h,
          );
        })
]

delivered :
    (s : System) (a : ℕ) (id : Text) (o : Outcome StreamResponse)
    → Owned s
    → lookup a s.pending ≡ some id
    → Addresses id o
    → Owned (settle s (o >>= (λ response. returns (deliver s.waits id a response))))
unfolding settle
delivered s a id (returns response) v e f = deliver-Owned s a id response v e f
delivered s a id panics v e f = v
delivered s a id blocks v e f = v

responds-Owned : (s : System) (req : StreamRequest) → Owned s → Owned (move s (responds req))
unfolding move settle handle_http_response
responds-Owned s req v = elim (Bool-cases (length req.request_id == 0)) [
  | inl empty ↦ rw (empty, handle_http_response) v
  | inr filled ↦ elim (Option-cases (lookup req.request_id s.waits.waiters)) [
    | inl missing ↦ rw (filled, handle_http_response, missing) v
    | inr (a, e) ↦
        rw (filled, handle_http_response, e)
          (delivered s a req.request_id (response_for req) v (v.owned req.request_id a e)
            (response_for-Addresses req.type req.request_id req.protocol req.request))
  ]
]

move-Owned : (s : System) (x : Move) → Owned s → Owned (move s x)
unfolding move
move-Owned s (starts service client_id request_id) v = begin-Owned s v service client_id request_id
move-Owned s (responds req) v = responds-Owned s req v
move-Owned s (wakes waiter case) v = wake-Owned s waiter case v

run-Owned : (s : System) (xs : List Move) → Owned s → Owned (run s xs)
unfolding run
run-Owned s [] v = v
run-Owned s (x ∷ xs) v = run-Owned (move s x) xs (move-Owned s x v)

-- After any sequence of requests, responses and ends of requests, a waiter in the map is that of a
-- call that still waits, under its own request ID, and a response in the channel of a call that waits
-- has the request ID of this call.
pub run-new_system-Owned : (xs : List Move) → Owned (run new_system xs)
unfolding new_system lookup
run-new_system-Owned xs = run-Owned new_system xs (record {
  owned = λ id a e. cc;
  addressed = λ a id r e f. cc;
  old = λ a id e. cc;
  old_response = λ a r e. cc;
})
