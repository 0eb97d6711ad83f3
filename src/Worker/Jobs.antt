-- ===== src/Worker/Jobs.antt =====
-- What becomes of the jobs of pkg/worker.
use attachcloudip.Common.{
  ℕ, zero, suc, ◌+◌, ◌≡◌, refl, ap, List, [], ◌∷◌, Option, none, some, nat_eq, count, length, ltb,
  Option-cases, Bool-cases, inl, inr, arith,
}
use attachcloudip.Common.Map.{Map, lookup, insert}
use attachcloudip.Worker.{
  Worker, offering, offered, waiting, executing, gone, Dispatcher, looping, ready, holding, handing,
  returned, Pool, new_pool, new_workers, start, submit, offer_job, begin_stop, drop_job, hand,
  dispatch, take_worker, set_worker, work, work_on, stop, quit, stop_next, Move, submits, works,
  dispatches, cancels, stops, next_stops, step, settle, run,
}

-- The job that a worker executes, and the one that the dispatcher holds.
unfoldable pub job_of : Worker → List ℕ
job_of (executing job) = job ∷ []
job_of _ = []

unfoldable pub held : Dispatcher → List ℕ
held (holding job) = job ∷ []
held (handing job w) = job ∷ []
held _ = []

-- How many workers execute the job.
unfoldable pub executing_count : ℕ → Map ℕ Worker → ℕ
unfolding job_of
executing_count j [] = 0
executing_count j ((w, phase) ∷ rest) = count j (job_of phase) + executing_count j rest

executing_count-insert :
    (j w : ℕ) (old new : Worker) (m : Map ℕ Worker)
    → lookup w m ≡ some old
    → executing_count j (insert w new m) + count j (job_of old)
      ≡ executing_count j m + count j (job_of new)
unfolding executing_count lookup insert
executing_count-insert j w old new [] e = cc
executing_count-insert j w old new ((i, phase) ∷ rest) e =
    ground (arith, e, executing_count-insert j w old new rest)

-- Each job that was submitted has been executed or dropped, or is held by the dispatcher, or is being
-- executed.
pub IsAccounted : ℕ → Pool → Type 0
IsAccounted j p =
    count j p.submitted
    ≡ count j p.executed
      + count j p.dropped
      + count j (held p.dispatcher)
      + executing_count j p.workers

module _ (j : ℕ) (p : Pool) (a : IsAccounted j p) where
  offer_job-IsAccounted :
      (job : ℕ) (d : Dispatcher) → p.dispatcher ≡ d → IsAccounted j (offer_job p job d)
  unfolding IsAccounted offer_job held count
  offer_job-IsAccounted job ready e = ground (arith, a, ap held e)
  offer_job-IsAccounted job looping e = ground (arith, a)
  offer_job-IsAccounted job (holding k) e = ground (arith, a)
  offer_job-IsAccounted job (handing k w) e = ground (arith, a)
  offer_job-IsAccounted job returned e = ground (arith, a)

  set_worker-IsAccounted :
      (w : ℕ) (old new : Worker)
      → lookup w p.workers ≡ some old
      → job_of old ≡ job_of new
      → IsAccounted j (set_worker p w new)
  unfolding IsAccounted set_worker
  set_worker-IsAccounted w old new e f =
      omega (arith, a, executing_count-insert j w old new p.workers e, ap (count j) f)

  work-IsAccounted :
      (w : ℕ) (phase : Worker)
      → lookup w p.workers ≡ some phase
      → IsAccounted j (settle p (work p w phase))
  unfolding IsAccounted settle work set_worker job_of count
  work-IsAccounted w offering e = elim (Bool-cases (ltb (length p.worker_pool) p.max_workers)) [
    | inl room ↦ rw (room, work) (set_worker-IsAccounted w offering offered e refl)
    | inr full ↦ rw (full, work) a
  ]
  work-IsAccounted w offered e = set_worker-IsAccounted w offered waiting e refl
  work-IsAccounted w waiting e = elim (Bool-cases p.cancelled) [
    | inl c ↦ rw (c, work) (set_worker-IsAccounted w waiting gone e refl)
    | inr c ↦ rw (c, work) a
  ]
  work-IsAccounted w (executing job) e =
      ground (arith, a, executing_count-insert j w (executing job) offering p.workers e)
  work-IsAccounted w gone e = a

  drop_job-IsAccounted : (job w : ℕ) → p.dispatcher ≡ handing job w → IsAccounted j (drop_job p job)
  unfolding IsAccounted drop_job held count
  drop_job-IsAccounted job w e = ground (arith, a, ap held e)

  hand-IsAccounted :
      (job w : ℕ) (o : Option Worker)
      → p.dispatcher ≡ handing job w
      → lookup w p.workers ≡ o
      → IsAccounted j (hand p job w o)
  unfolding IsAccounted hand held count job_of
  hand-IsAccounted job w (some waiting) e f =
      ground (arith, a, ap held e, executing_count-insert j w waiting (executing job) p.workers f)
  hand-IsAccounted job w none e f = drop_job-IsAccounted job w e
  hand-IsAccounted job w (some offering) e f = drop_job-IsAccounted job w e
  hand-IsAccounted job w (some offered) e f = drop_job-IsAccounted job w e
  hand-IsAccounted job w (some (executing k)) e f = drop_job-IsAccounted job w e
  hand-IsAccounted job w (some gone) e f = drop_job-IsAccounted job w e

  take_worker-IsAccounted :
      (job : ℕ) (ws : List ℕ)
      → p.dispatcher ≡ holding job
      → IsAccounted j (settle p (take_worker p job ws))
  unfolding IsAccounted settle take_worker held
  take_worker-IsAccounted job [] e = a
  take_worker-IsAccounted job (w ∷ rest) e = ground (arith, a, ap held e)

  dispatch-IsAccounted :
      (d : Dispatcher) → p.dispatcher ≡ d → IsAccounted j (settle p (dispatch p d))
  unfolding IsAccounted settle dispatch held
  dispatch-IsAccounted looping e = ground (arith, a, ap held e)
  dispatch-IsAccounted ready e = elim (Bool-cases p.cancelled) [
    | inl c ↦ rw (c, dispatch) (ground (arith, a, ap held e))
    | inr c ↦ rw (c, dispatch) a
  ]
  dispatch-IsAccounted (holding job) e = take_worker-IsAccounted job p.worker_pool e
  dispatch-IsAccounted (handing job w) e = hand-IsAccounted job w (lookup w p.workers) e refl
  dispatch-IsAccounted returned e = a

  quit-IsAccounted :
      (w : ℕ) (rest : List ℕ) (o : Option Worker)
      → lookup w p.workers ≡ o
      → IsAccounted j (settle p (quit p w rest o))
  unfolding IsAccounted settle quit job_of
  quit-IsAccounted w rest (some waiting) e = set_worker-IsAccounted w waiting gone e refl
  quit-IsAccounted w rest none e = a
  quit-IsAccounted w rest (some offering) e = a
  quit-IsAccounted w rest (some offered) e = a
  quit-IsAccounted w rest (some (executing k)) e = a
  quit-IsAccounted w rest (some gone) e = a

  stop_next-IsAccounted : (ws : List ℕ) → IsAccounted j (settle p (stop_next p ws))
  unfolding IsAccounted settle stop_next
  stop_next-IsAccounted [] = a
  stop_next-IsAccounted (w ∷ rest) = quit-IsAccounted w rest (lookup w p.workers) refl

  begin_stop-IsAccounted : (ws : List ℕ) → IsAccounted j (settle p (begin_stop p ws))
  unfolding IsAccounted settle begin_stop stop
  begin_stop-IsAccounted [] = a
  begin_stop-IsAccounted (w ∷ rest) = a

  step-IsAccounted : (x : Move) → IsAccounted j (settle p (step p x))
  unfolding IsAccounted settle step submit work_on
  step-IsAccounted (submits job) = offer_job-IsAccounted job p.dispatcher refl
  step-IsAccounted (works w) = elim (Option-cases (lookup w p.workers)) [
    | inl missing ↦ rw (missing, work_on) a
    | inr (phase, e) ↦ rw (e, work_on) (work-IsAccounted w phase e)
  ]
  step-IsAccounted dispatches = dispatch-IsAccounted p.dispatcher refl
  step-IsAccounted cancels = a
  step-IsAccounted stops = begin_stop-IsAccounted p.to_stop
  step-IsAccounted next_stops = stop_next-IsAccounted p.to_stop

run-IsAccounted : (j : ℕ) (p : Pool) (xs : List Move) → IsAccounted j p → IsAccounted j (run p xs)
unfolding run
run-IsAccounted j p [] a = a
run-IsAccounted j p (x ∷ xs) a =
    run-IsAccounted j (settle p (step p x)) xs (step-IsAccounted j p a x)

executing_count-new_workers : (j n : ℕ) → executing_count j (new_workers n) ≡ 0
unfolding executing_count new_workers job_of count
executing_count-new_workers j zero = refl
executing_count-new_workers j (suc n) = omega (arith, executing_count-new_workers j n)

-- No job is lost or done twice: after any sequence of steps, each job has been executed or dropped, or
-- is held by the dispatcher, or is being executed, in all as often as it was submitted.
pub run-start-IsAccounted : (j n : ℕ) (xs : List Move) → IsAccounted j (run (start (new_pool n)) xs)
unfolding IsAccounted new_pool start count held
run-start-IsAccounted j n xs =
    run-IsAccounted j (start (new_pool n)) xs (omega (arith, executing_count-new_workers j n))
