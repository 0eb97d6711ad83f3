-- ===== src/Worker/Lost.antt =====
-- Workers of pkg/worker that get no more jobs, and calls of `Stop` that do not return.
use mathlib.Core.Path.{subst}
use attachcloudip.Common.{
  ℕ, ◌≡◌, ◌≢◌, refl, sym, ap, ◌∙◌, List, [], ◌∷◌, Bool, true, false, Option, none, some, ◌==◌,
  if◌then◌else◌, nat_eq, nat_beq_iff, count, count-append, length, ltb, Bool-cases, inl, inr, arith,
}
use attachcloudip.Common.Map.{Map, lookup, insert, lookup-insert}
use attachcloudip.Worker.{
  Worker, offering, offered, waiting, executing, gone, Dispatcher, looping, ready, holding, handing,
  returned, Pool, submit, offer_job, begin_stop, drop_job, hand, dispatch, take_worker, set_worker,
  work, work_on, stop, quit, stop_next, Move, submits, works, dispatches, cancels, stops,
  next_stops, step, settle, run,
}

-- The worker has offered its queue and executes nothing.
abbrev pub IsIdle : Option Worker → Type 0
IsIdle (some offered) = Unit
IsIdle (some waiting) = Unit
IsIdle (some gone) = Unit
IsIdle _ = ⊥

abbrev pub IsElsewhere : ℕ → Dispatcher → Type 0
IsElsewhere w (handing job i) = i ≢ w
IsElsewhere w _ = Unit

-- The worker waits for a job, and its queue is neither in the pool nor with the dispatcher.
pub record IsLost (w : ℕ) (p : Pool) : Type 0 where
  pub idle : IsIdle (lookup w p.workers)
  pub not_pooled : count w p.worker_pool ≡ 0
  pub elsewhere : IsElsewhere w p.dispatcher

IsIdle-insert :
    (w i : ℕ) (phase : Worker) (m : Map ℕ Worker)
    → i ≢ w
    → IsIdle (lookup w m)
    → IsIdle (lookup w (insert i phase m))
IsIdle-insert w i phase m n h = subst IsIdle (sym same) h
  where
    same : lookup w (insert i phase m) ≡ lookup w m
    same = ground (arith, lookup-insert i w phase m, nat_beq_iff i w, n)

lookup-own :
    (w i : ℕ) (phase : Worker) (m : Map ℕ Worker)
    → (i == w) ≡ true
    → lookup w (insert i phase m) ≡ some phase
lookup-own w i phase m e = ground (arith, e, lookup-insert i w phase m)

-- The worker's own step to an idle place, or a step of another worker.
set_worker-IsLost :
    (w i : ℕ) (phase : Worker) (p : Pool)
    → IsIdle (some phase)
    → IsLost w p
    → IsLost w (set_worker p i phase)
unfolding set_worker
set_worker-IsLost w i phase p h l = elim (Bool-cases (i == w)) [
  | inl e ↦ record {
    idle = subst IsIdle (sym (lookup-own w i phase p.workers e)) h;
    not_pooled = l.not_pooled;
    elsewhere = l.elsewhere;
  }
  | inr e ↦ record {
    idle = IsIdle-insert w i phase p.workers (ground (arith, e, nat_beq_iff i w)) l.idle;
    not_pooled = l.not_pooled;
    elsewhere = l.elsewhere;
  }
]

module _ (w : ℕ) (p : Pool) (l : IsLost w p) where
  other :
      (i : ℕ) (phase : Worker) → lookup i p.workers ≡ some phase → (IsIdle (some phase) → ⊥) → i ≢ w
  other i phase e n same =
      n (subst IsIdle e (subst (λ x. IsIdle (lookup x p.workers)) (sym same) l.idle))

  -- What changes neither the workers nor the pool of their queues.
  keep :
      (q : Pool)
      → q.workers ≡ p.workers
      → q.worker_pool ≡ p.worker_pool
      → IsElsewhere w q.dispatcher
      → IsLost w q
  keep q e f h = record {
    idle = subst (λ m. IsIdle (lookup w m)) (sym e) l.idle;
    not_pooled = ap (count w) f ∙ l.not_pooled;
    elsewhere = h;
  }

  settle_if : (b : Bool) (q : Pool) → IsLost w q → IsLost w (settle p (if b then some q else none))
  unfolding settle
  settle_if true q m = m
  settle_if false q m = l

  work-IsLost :
      (i : ℕ) (phase : Worker)
      → lookup i p.workers ≡ some phase
      → IsLost w (settle p (work p i phase))
  unfolding work settle set_worker count
  work-IsLost i offering e = settle_if (ltb (length p.worker_pool) p.max_workers) _ (record {
    idle = IsIdle-insert w i offered p.workers (other i offering e (λ x. x)) l.idle;
    not_pooled = ground (
      arith,
      count-append w p.worker_pool (i ∷ []),
      l.not_pooled,
      other i offering e (λ x. x),
      nat_beq_iff i w,
    );
    elsewhere = l.elsewhere;
  })
  work-IsLost i offered e = set_worker-IsLost w i waiting p tt l
  work-IsLost i waiting e = settle_if p.cancelled _ (set_worker-IsLost w i gone p tt l)
  work-IsLost i (executing job) e = record {
    idle = IsIdle-insert w i offering p.workers (other i (executing job) e (λ x. x)) l.idle;
    not_pooled = l.not_pooled;
    elsewhere = l.elsewhere;
  }
  work-IsLost i gone e = l

  hand-IsLost : (job i : ℕ) (o : Option Worker) → i ≢ w → IsLost w (hand p job i o)
  unfolding hand drop_job
  hand-IsLost job i (some waiting) n = record {
    idle = IsIdle-insert w i (executing job) p.workers n l.idle;
    not_pooled = l.not_pooled;
    elsewhere = tt;
  }
  hand-IsLost job i none n = keep _ refl refl tt
  hand-IsLost job i (some offering) n = keep _ refl refl tt
  hand-IsLost job i (some offered) n = keep _ refl refl tt
  hand-IsLost job i (some (executing k)) n = keep _ refl refl tt
  hand-IsLost job i (some gone) n = keep _ refl refl tt

  take_worker-IsLost :
      (job : ℕ) (ws : List ℕ) → count w ws ≡ 0 → IsLost w (settle p (take_worker p job ws))
  unfolding settle take_worker count
  take_worker-IsLost job [] e = l
  take_worker-IsLost job (i ∷ rest) e = record {
    idle = l.idle;
    not_pooled = ground (arith, e);
    elsewhere = ground (arith, e, nat_beq_iff i w);
  }

  dispatch-IsLost : (d : Dispatcher) → p.dispatcher ≡ d → IsLost w (settle p (dispatch p d))
  unfolding settle dispatch count
  dispatch-IsLost looping e = keep _ refl refl tt
  dispatch-IsLost ready e = settle_if p.cancelled _ (keep _ refl refl tt)
  dispatch-IsLost (holding job) e = take_worker-IsLost job p.worker_pool l.not_pooled
  dispatch-IsLost (handing job i) e =
      hand-IsLost job i (lookup i p.workers) (subst (IsElsewhere w) e l.elsewhere)
  dispatch-IsLost returned e = l

  quit-IsLost : (i : ℕ) (rest : List ℕ) (o : Option Worker) → IsLost w (settle p (quit p i rest o))
  unfolding settle quit set_worker
  quit-IsLost i rest (some waiting) =
      let m = set_worker-IsLost w i gone p tt l in
      record { idle = m.idle; not_pooled = m.not_pooled; elsewhere = m.elsewhere }
  quit-IsLost i rest none = l
  quit-IsLost i rest (some offering) = l
  quit-IsLost i rest (some offered) = l
  quit-IsLost i rest (some (executing k)) = l
  quit-IsLost i rest (some gone) = l

  stop_next-IsLost : (ws : List ℕ) → IsLost w (settle p (stop_next p ws))
  unfolding settle stop_next
  stop_next-IsLost [] = l
  stop_next-IsLost (i ∷ rest) = quit-IsLost i rest (lookup i p.workers)

  offer_job-IsLost : (job : ℕ) (d : Dispatcher) → IsLost w (offer_job p job d)
  unfolding offer_job
  offer_job-IsLost job ready = keep _ refl refl tt
  offer_job-IsLost job looping = keep _ refl refl l.elsewhere
  offer_job-IsLost job (holding k) = keep _ refl refl l.elsewhere
  offer_job-IsLost job (handing k i) = keep _ refl refl l.elsewhere
  offer_job-IsLost job returned = keep _ refl refl l.elsewhere

  work_on-IsLost :
      (i : ℕ) (o : Option Worker) → lookup i p.workers ≡ o → IsLost w (settle p (work_on p i o))
  unfolding settle work_on
  work_on-IsLost i none e = l
  work_on-IsLost i (some phase) e = work-IsLost i phase e

  begin_stop-IsLost : (ws : List ℕ) → IsLost w (settle p (begin_stop p ws))
  unfolding settle begin_stop stop
  begin_stop-IsLost [] = keep _ refl refl l.elsewhere
  begin_stop-IsLost (i ∷ ws) = l

  step-IsLost : (x : Move) → IsLost w (settle p (step p x))
  unfolding settle step submit
  step-IsLost (submits job) = offer_job-IsLost job p.dispatcher
  step-IsLost (works i) = work_on-IsLost i (lookup i p.workers) refl
  step-IsLost dispatches = dispatch-IsLost p.dispatcher refl
  step-IsLost cancels = keep _ refl refl l.elsewhere
  step-IsLost stops = begin_stop-IsLost p.to_stop
  step-IsLost next_stops = stop_next-IsLost p.to_stop

-- A lost worker gets no job in any sequence of steps.
pub run-IsLost : (w : ℕ) (p : Pool) (xs : List Move) → IsLost w p → IsLost w (run p xs)
unfolding run
run-IsLost w p [] l = l
run-IsLost w p (x ∷ xs) l = run-IsLost w (settle p (step p x)) xs (step-IsLost w p l x)
