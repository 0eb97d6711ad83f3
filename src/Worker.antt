-- ===== src/Worker.antt =====
-- pkg/worker/pool.go and pkg/worker/worker.go: the dispatcher, the workers, and the calls of `Submit`
-- and `Stop`, as steps that interleave. A send on a channel without a buffer needs a receiver that
-- waits. A job is known by a number; what `Execute` returns is only logged. A worker's own queue is
-- known by the worker's number.
pub mod Jobs
pub mod Lost
pub mod Stops
pub mod Losses
mod Examples
use attachcloudip.Common.{
  ℕ, zero, suc, List, [], ◌∷◌, ◌++◌, Bool, true, false, Option, none, some, if◌then◌else◌, ◌==◌,
  nat_eq, length, ltb,
}
use attachcloudip.Common.Map.{Map, lookup, insert}

-- Where a worker is: before the send of its queue to the pool, after it and before the `select`, at
-- the `select`, in `Execute`, or returned.
pub data Worker : Type 0 where
  offering offered waiting : Worker
  executing : ℕ → Worker
  gone : Worker

-- Where `dispatch` is: before its `select`, at it, before the receive of a worker's queue, before the
-- send to it, or returned.
pub data Dispatcher : Type 0 where
  looping ready : Dispatcher
  holding : ℕ → Dispatcher
  handing : ℕ → ℕ → Dispatcher
  returned : Dispatcher

-- `to_stop` has the workers that a running call of `Stop` has still to stop. The last three lists say
-- what became of the jobs.
pub record Pool : Type 0 where
  pub max_workers : ℕ
  pub worker_pool : List ℕ
  pub workers : Map ℕ Worker
  pub dispatcher : Dispatcher
  pub cancelled : Bool
  pub to_stop : List ℕ
  pub submitted : List ℕ
  pub executed : List ℕ
  pub dropped : List ℕ

unfoldable pub new_pool : ℕ → Pool
new_pool max_workers = record {
  max_workers = max_workers;
  worker_pool = [];
  workers = [];
  dispatcher = looping;
  cancelled = false;
  to_stop = [];
  submitted = [];
  executed = [];
  dropped = [];
}

unfoldable pub new_workers : ℕ → Map ℕ Worker
new_workers zero = []
new_workers (suc n) = (n, offering) ∷ new_workers n

-- `Start`, which is called once.
unfoldable pub start : Pool → Pool
unfolding new_workers
start p = record p { workers = new_workers p.max_workers }

-- `Submit`: the send, if the dispatcher waits for it, and its `default`.
unfoldable pub offer_job : Pool → ℕ → Dispatcher → Pool
offer_job p job ready = record p { dispatcher = holding job; submitted = job ∷ p.submitted }
offer_job p job _ = record p { dropped = job ∷ p.dropped; submitted = job ∷ p.submitted }

unfoldable pub submit : Pool → ℕ → Pool
unfolding offer_job
submit p job = offer_job p job p.dispatcher

unfoldable pub drop_job : Pool → ℕ → Pool
drop_job p job = record p { dispatcher = looping; dropped = job ∷ p.dropped }

-- The send to a worker's queue, with its `default`.
unfoldable pub hand : Pool → ℕ → ℕ → Option Worker → Pool
unfolding drop_job
hand p job w (some waiting) = record p {
  workers = insert w (executing job) p.workers;
  dispatcher = looping;
}
hand p job w _ = drop_job p job

-- The receive of a worker's queue from the pool.
unfoldable pub take_worker : Pool → ℕ → List ℕ → Option Pool
take_worker p job [] = none
take_worker p job (w ∷ rest) = some (record p { worker_pool = rest; dispatcher = handing job w })

-- A step of `dispatch`; `none` where it waits.
unfoldable pub dispatch : Pool → Dispatcher → Option Pool
unfolding hand take_worker
dispatch p looping = some (record p { dispatcher = ready })
dispatch p ready = if p.cancelled then some (record p { dispatcher = returned }) else none
dispatch p (holding job) = take_worker p job p.worker_pool
dispatch p (handing job w) = some (hand p job w (lookup w p.workers))
dispatch p returned = none

unfoldable pub set_worker : Pool → ℕ → Worker → Pool
set_worker p w phase = record p { workers = insert w phase p.workers }

-- A step of a worker's loop, other than the receive of a job or of the quit signal.
unfoldable pub work : Pool → ℕ → Worker → Option Pool
unfolding set_worker
work p w offering =
    if ltb (length p.worker_pool) p.max_workers
    then some (record (set_worker p w offered) { worker_pool = p.worker_pool ++ w ∷ [] })
    else none
work p w offered = some (set_worker p w waiting)
work p w waiting = if p.cancelled then some (set_worker p w gone) else none
work p w (executing job) = some (record (set_worker p w offering) { executed = job ∷ p.executed })
work p w gone = none

unfoldable pub keys : Map ℕ Worker → List ℕ
keys [] = []
keys ((w, phase) ∷ rest) = w ∷ keys rest

-- A call of `Pool.Stop`, and its next `Worker.Stop`.
unfoldable pub stop : Pool → Pool
unfolding keys
stop p = record p { to_stop = keys p.workers }

unfoldable pub quit : Pool → ℕ → List ℕ → Option Worker → Option Pool
unfolding set_worker
quit p w rest (some waiting) = some (record (set_worker p w gone) { to_stop = rest })
quit p w rest _ = none

-- `Stop` has these workers left.
unfoldable pub stop_next : Pool → List ℕ → Option Pool
unfolding quit
stop_next p [] = none
stop_next p (w ∷ rest) = quit p w rest (lookup w p.workers)

pub data Move : Type 0 where
  submits : ℕ → Move
  works : ℕ → Move
  dispatches cancels stops next_stops : Move

unfoldable pub work_on : Pool → ℕ → Option Worker → Option Pool
unfolding work
work_on p w none = none
work_on p w (some phase) = work p w phase

-- `Stop` is called while no other call of it runs.
unfoldable pub begin_stop : Pool → List ℕ → Option Pool
unfolding stop
begin_stop p [] = some (stop p)
begin_stop p (w ∷ rest) = none

-- One step of the goroutine that moves; `none` where it waits.
unfoldable pub step : Pool → Move → Option Pool
unfolding dispatch work_on stop_next begin_stop submit
step p (submits job) = some (submit p job)
step p (works w) = work_on p w (lookup w p.workers)
step p dispatches = dispatch p p.dispatcher
step p cancels = some (record p { cancelled = true })
step p stops = begin_stop p p.to_stop
step p next_stops = stop_next p p.to_stop

unfoldable pub settle : Pool → Option Pool → Pool
settle p none = p
settle p (some p') = p'

unfoldable pub run : Pool → List Move → Pool
unfolding step settle
run p [] = p
run p (x ∷ xs) = run (settle p (step p x)) xs
