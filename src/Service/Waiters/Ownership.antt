-- ===== src/Service/Waiters/Ownership.antt =====
-- Who waits on a waiter of pkg/service/tunnel_service.go, when a request starts and when it ends.
use attachcloudip.Common.{ℕ, ◌<◌, ◌≡◌, some, nat_eq, nat_beq_iff, Option-cases, inl, inr, arith}
use attachcloudip.Common.Map.{lookup, insert, delete, lookup-insert, lookup-delete}
use attachcloudip.Common.Text.{Text, text_eq, text_beq_iff}
use attachcloudip.Service.Types.{StreamResponse}
use attachcloudip.Service.Tunnel.{TunnelService, send_to_client}
use attachcloudip.Service.Waiters.{
  store_response_waiter, delete_response_waiter, start_request, finish_request, Wake, answered,
  cancelled, timed_out,
}
use attachcloudip.Service.Waiters.System.{System, begin, end, wake}

-- Every waiter in the map is that of a call that waits under its ID, and what its channel holds is
-- for that ID.
pub record Owned (s : System) : Type 0 where
  pub owned :
      (id : Text) (a : ℕ) → lookup id s.waits.waiters ≡ some a → lookup a s.pending ≡ some id
  pub addressed :
      (a : ℕ) (id : Text) (r : StreamResponse)
      → lookup a s.pending ≡ some id
      → lookup a s.waits.responses ≡ some r
      → r.request_id ≡ id
  pub old : (a : ℕ) (id : Text) → lookup a s.pending ≡ some id → a < s.next
  pub old_response : (a : ℕ) (r : StreamResponse) → lookup a s.waits.responses ≡ some r → a < s.next

module _ (s : System) (v : Owned s) where
  pub begin-Owned :
      (service : TunnelService) (client_id id : Text)
      → Owned (begin s id (start_request service s.waits client_id id s.next))
  unfolding begin start_request store_response_waiter delete_response_waiter send_to_client
  begin-Owned service client_id id = elim (Option-cases (lookup client_id service.clients)) [
    | inl missing ↦
        rw (missing, start_request, send_to_client)
          (record {
            owned = λ i a e. ground (
              arith,
              lookup-delete id i (insert id s.next s.waits.waiters),
              lookup-insert id i s.next s.waits.waiters,
              text_beq_iff id i,
              v.owned i a,
            );
            addressed = v.addressed;
            old = λ a i e. omega (arith, v.old a i e);
            old_response = λ a r e. omega (arith, v.old_response a r e);
          })
    | inr (client, there) ↦
        rw (there, start_request, send_to_client)
          (record {
            owned = λ i a e. ground (
              arith,
              lookup-insert id i s.next s.waits.waiters,
              lookup-insert s.next a id s.pending,
              text_beq_iff id i,
              nat_beq_iff s.next a,
              v.owned i a,
              v.old a i,
            );
            addressed = λ a i r e f. ground (
              arith,
              lookup-insert s.next a id s.pending,
              nat_beq_iff s.next a,
              v.addressed a i r,
              v.old_response a r,
              e,
              f,
            );
            old = λ a i e.
                ground
                  (arith, lookup-insert s.next a id s.pending, nat_beq_iff s.next a, v.old a i, e);
            old_response = λ a r e. omega (arith, v.old_response a r e);
          })
  ]

  -- The end of a call whose waiter goes.
  end-Owned :
      (a : ℕ) (id : Text)
      → lookup a s.pending ≡ some id
      → Owned (record s {
        waits = record s.waits { waiters = delete id s.waits.waiters };
        pending = delete a s.pending;
      })
  end-Owned a id e = record {
    owned = λ i b f. ground (
      arith,
      lookup-delete id i s.waits.waiters,
      lookup-delete a b s.pending,
      text_beq_iff id i,
      nat_beq_iff a b,
      v.owned i b,
      e,
    );
    addressed = λ b i r f g. ground (arith, lookup-delete a b s.pending, v.addressed b i r, f, g);
    old = λ b i f. ground (arith, lookup-delete a b s.pending, v.old b i, f);
    old_response = v.old_response;
  }

  -- The channel is emptied.
  taken-Owned :
      (a : ℕ)
      → Owned (record s { waits = record s.waits { responses = delete a s.waits.responses } })
  taken-Owned a = record {
    owned = v.owned;
    addressed =
        λ b i r f g. ground (arith, lookup-delete a b s.waits.responses, v.addressed b i r, f, g);
    old = v.old;
    old_response =
        λ b r f. ground (arith, lookup-delete a b s.waits.responses, v.old_response b r, f);
  }

ended :
    (s : System) (a : ℕ) (id : Text) (case : Wake)
    → Owned s
    → lookup a s.pending ≡ some id
    → Owned (end s a (finish_request s.waits id a case))
unfolding end finish_request delete_response_waiter
ended s a id cancelled v e = end-Owned s v a id e
ended s a id timed_out v e = end-Owned s v a id e
ended s a id answered v e = elim (Option-cases (lookup a s.waits.responses)) [
  | inl empty ↦ rw (empty, finish_request) v
  | inr (response, full) ↦
      rw (full, finish_request)
        (end-Owned (record s { waits = record s.waits { responses = delete a s.waits.responses } })
          (taken-Owned s v a) a id e)
]

pub wake-Owned :
    (s : System) (a : ℕ) (case : Wake) → Owned s → Owned (wake s a case (lookup a s.pending))
unfolding wake end finish_request delete_response_waiter
wake-Owned s a case v = elim (Option-cases (lookup a s.pending)) [
  | inl missing ↦ rw (missing, wake) v
  | inr (id, e) ↦ rw (e, wake) (ended s a id case v e)
]
