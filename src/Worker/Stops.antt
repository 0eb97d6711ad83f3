-- ===== src/Worker/Stops.antt =====
-- The calls of `Stop` of pkg/worker.
use attachcloudip.Common.{
  ap, ℕ, ◌≡◌, ◌≢◌, refl, sym, ◌∙◌, List, [], ◌∷◌, Bool, true, false, Option, none, some,
  if◌then◌else◌, nat_eq, nat_beq_iff, length, ltb, arith,
}
use attachcloudip.Common.Map.{Map, lookup, insert, lookup-insert}
use attachcloudip.Worker.{
  Worker, offering, offered, waiting, executing, gone, Dispatcher, looping, ready, holding, handing,
  returned, Pool, offer_job, submit, drop_job, hand, take_worker, dispatch, set_worker, work,
  work_on, begin_stop, quit, stop_next, Move, submits, works, dispatches, cancels, stops,
  next_stops, step, settle, run,
}

-- A call of `Stop` is at a worker that has returned.
pub record IsStuck (w : ℕ) (rest : List ℕ) (p : Pool) : Type 0 where
  pub at : p.to_stop ≡ w ∷ rest
  pub returned_before : lookup w p.workers ≡ some gone

lookup-gone :
    (w i : ℕ) (old phase : Worker) (m : Map ℕ Worker)
    → lookup i m ≡ some old
    → old ≢ gone
    → lookup w m ≡ some gone
    → lookup w (insert i phase m) ≡ some gone
lookup-gone w i old phase m e n f = ground (arith, e, f, lookup-insert i w phase m, nat_beq_iff i w)

module _ (w : ℕ) (rest : List ℕ) (p : Pool) (s : IsStuck w rest p) where
  set_worker-IsStuck :
      (i : ℕ) (old phase : Worker)
      → lookup i p.workers ≡ some old
      → old ≢ gone
      → IsStuck w rest (set_worker p i phase)
  unfolding set_worker
  set_worker-IsStuck i old phase e n = record {
    at = s.at;
    returned_before = lookup-gone w i old phase p.workers e n s.returned_before;
  }

  -- What changes neither the workers nor the call.
  keep : (q : Pool) → q.workers ≡ p.workers → q.to_stop ≡ p.to_stop → IsStuck w rest q
  keep q e f = record { at = f ∙ s.at; returned_before = ap (lookup w) e ∙ s.returned_before }

  settle_if :
      (b : Bool) (q : Pool)
      → IsStuck w rest q
      → IsStuck w rest (settle p (if b then some q else none))
  unfolding settle
  settle_if true q t = t
  settle_if false q t = s

  work_on-IsStuck :
      (i : ℕ) (o : Option Worker)
      → lookup i p.workers ≡ o
      → IsStuck w rest (settle p (work_on p i o))
  unfolding settle work_on work set_worker
  work_on-IsStuck i none e = s
  work_on-IsStuck i (some offering) e =
      let t = set_worker-IsStuck i offering offered e (λ c. cc) in
      settle_if (ltb (length p.worker_pool) p.max_workers) _
        (record { at = t.at; returned_before = t.returned_before })
  work_on-IsStuck i (some offered) e = set_worker-IsStuck i offered waiting e (λ c. cc)
  work_on-IsStuck i (some waiting) e =
      settle_if p.cancelled _ (set_worker-IsStuck i waiting gone e (λ c. cc))
  work_on-IsStuck i (some (executing job)) e =
      let t = set_worker-IsStuck i (executing job) offering e (λ c. cc) in
      record { at = t.at; returned_before = t.returned_before }
  work_on-IsStuck i (some gone) e = s

  hand-IsStuck :
      (job i : ℕ) (o : Option Worker) → lookup i p.workers ≡ o → IsStuck w rest (hand p job i o)
  unfolding hand drop_job
  hand-IsStuck job i (some waiting) e = record {
    at = s.at;
    returned_before =
        lookup-gone w i waiting (executing job) p.workers e (λ c. cc) s.returned_before;
  }
  hand-IsStuck job i none e = keep _ refl refl
  hand-IsStuck job i (some offering) e = keep _ refl refl
  hand-IsStuck job i (some offered) e = keep _ refl refl
  hand-IsStuck job i (some (executing k)) e = keep _ refl refl
  hand-IsStuck job i (some gone) e = keep _ refl refl

  take_worker-IsStuck : (job : ℕ) (ws : List ℕ) → IsStuck w rest (settle p (take_worker p job ws))
  unfolding settle take_worker
  take_worker-IsStuck job [] = s
  take_worker-IsStuck job (i ∷ ws) = keep _ refl refl

  dispatch-IsStuck : (d : Dispatcher) → IsStuck w rest (settle p (dispatch p d))
  unfolding settle dispatch
  dispatch-IsStuck looping = keep _ refl refl
  dispatch-IsStuck ready = settle_if p.cancelled _ (keep _ refl refl)
  dispatch-IsStuck (holding job) = take_worker-IsStuck job p.worker_pool
  dispatch-IsStuck (handing job i) = hand-IsStuck job i (lookup i p.workers) refl
  dispatch-IsStuck returned = s

  offer_job-IsStuck : (job : ℕ) (d : Dispatcher) → IsStuck w rest (offer_job p job d)
  unfolding offer_job
  offer_job-IsStuck job ready = keep _ refl refl
  offer_job-IsStuck job looping = keep _ refl refl
  offer_job-IsStuck job (holding k) = keep _ refl refl
  offer_job-IsStuck job (handing k i) = keep _ refl refl
  offer_job-IsStuck job returned = keep _ refl refl

  begin_stop-IsStuck : (ws : List ℕ) → p.to_stop ≡ ws → IsStuck w rest (settle p (begin_stop p ws))
  unfolding settle begin_stop
  begin_stop-IsStuck [] e = absurd (cons_nil (sym s.at ∙ e))
    where
      cons_nil : (w ∷ rest) ≢ []
      cons_nil e = cc
  begin_stop-IsStuck (i ∷ ws) e = s

  -- The signal waits for a receiver.
  stop_next-IsStuck : (ws : List ℕ) → p.to_stop ≡ ws → IsStuck w rest (settle p (stop_next p ws))
  unfolding settle stop_next quit
  stop_next-IsStuck [] e = s
  stop_next-IsStuck (i ∷ ws) e = rw (same, s.returned_before, quit) s
    where
      same : lookup i p.workers ≡ lookup w p.workers
      same = ground (arith, e, s.at)

  step-IsStuck : (x : Move) → IsStuck w rest (settle p (step p x))
  unfolding settle step submit
  step-IsStuck (submits job) = offer_job-IsStuck job p.dispatcher
  step-IsStuck (works i) = work_on-IsStuck i (lookup i p.workers) refl
  step-IsStuck dispatches = dispatch-IsStuck p.dispatcher
  step-IsStuck cancels = keep _ refl refl
  step-IsStuck stops = begin_stop-IsStuck p.to_stop refl
  step-IsStuck next_stops = stop_next-IsStuck p.to_stop refl

-- `Stop` waits for ever at a worker that has returned, as each does when the context is cancelled:
-- after any sequence of steps the call is where it was.
pub run-IsStuck :
    (w : ℕ) (rest : List ℕ) (p : Pool) (xs : List Move)
    → IsStuck w rest p
    → IsStuck w rest (run p xs)
unfolding run
run-IsStuck w rest p [] s = s
run-IsStuck w rest p (x ∷ xs) s =
    run-IsStuck w rest (settle p (step p x)) xs (step-IsStuck w rest p s x)
