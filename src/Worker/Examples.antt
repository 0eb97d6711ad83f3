-- ===== src/Worker/Examples.antt =====
-- A pool of pkg/worker with one worker.
use attachcloudip.Common.{◌≡◌, refl, List, [], ◌∷◌, some, nat_eq, count}
use attachcloudip.Common.Map.{lookup, insert}
use attachcloudip.Worker.{
  offered, handing, Pool, new_pool, new_workers, start, offer_job, submit, take_worker, dispatch,
  set_worker, work, work_on, stop, keys, begin_stop, Move, submits, works, dispatches, cancels,
  stops, step, settle, run,
}
use attachcloudip.Worker.Jobs.{IsAccounted, run-start-IsAccounted}
use attachcloudip.Worker.Lost.{IsLost}
use attachcloudip.Worker.Losses.{early_hand-IsLost}
use attachcloudip.Worker.Stops.{IsStuck, run-IsStuck}

-- The worker has sent its queue, and the dispatcher has a job and the queue.
abbrev early : List Move
early = works 0 ∷ dispatches ∷ submits 5 ∷ dispatches ∷ []

run-start-IsAccounted_example : IsAccounted 5 (run (start (new_pool 1)) early)
run-start-IsAccounted_example = run-start-IsAccounted 5 1 early

-- Its line names what a proof by evaluation sees through.
at_hand : Pool
unfolding run step settle start new_pool new_workers offer_job submit take_worker dispatch
    set_worker work work_on lookup insert begin_stop stop keys count
at_hand = run (start (new_pool 1)) early

at_hand-dispatcher : at_hand.dispatcher ≡ handing 5 0
unfolding at_hand
at_hand-dispatcher = refl

at_hand-worker : lookup 0 at_hand.workers ≡ some offered
unfolding at_hand
at_hand-worker = refl

at_hand-pool : count 0 at_hand.worker_pool ≡ 0
unfolding at_hand
at_hand-pool = refl

early_hand-IsLost_example :
    ((run at_hand (dispatches ∷ [])).dropped ≡ 5 ∷ at_hand.dropped)
    × IsLost 0 (run at_hand (dispatches ∷ works 0 ∷ submits 6 ∷ []))
early_hand-IsLost_example =
    early_hand-IsLost at_hand 5 0 (works 0 ∷ submits 6 ∷ []) at_hand-dispatcher at_hand-worker
      at_hand-pool

-- The context is cancelled before `Stop` is called.
stopped : Pool
unfolding at_hand
stopped = run (start (new_pool 1)) (works 0 ∷ works 0 ∷ cancels ∷ works 0 ∷ stops ∷ [])

stopped-IsStuck : IsStuck 0 [] stopped
unfolding stopped at_hand
stopped-IsStuck = record { at = refl; returned_before = refl }

run-IsStuck_example : IsStuck 0 [] (run stopped (works 0 ∷ []))
run-IsStuck_example = run-IsStuck 0 [] stopped (works 0 ∷ []) stopped-IsStuck
