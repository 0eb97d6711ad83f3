-- ===== src/Worker/Losses.antt =====
-- How pkg/worker loses a worker.
use mathlib.Core.Path.{subst}
use attachcloudip.Common.{ℕ, ◌≡◌, ap, sym, ◌∙◌, List, [], ◌∷◌, some, nat_eq, count}
use attachcloudip.Common.Map.{lookup}
use attachcloudip.Worker.{
  offered, handing, Pool, dispatch, hand, drop_job, Move, dispatches, step, settle, run,
}
use attachcloudip.Worker.Lost.{IsLost, IsIdle, run-IsLost}

early_step :
    (p : Pool) (job w : ℕ)
    → p.dispatcher ≡ handing job w
    → lookup w p.workers ≡ some offered
    → settle p (step p dispatches) ≡ drop_job p job
unfolding settle step dispatch hand
early_step p job w e f = ap (λ d. settle p (dispatch p d)) e ∙ ap (λ o. hand p job w o) f

-- A worker offers its queue before it waits at its `select`. If the dispatcher takes the queue and
-- tries the send in between, the job is dropped, and the worker, whose queue is then nowhere, gets
-- no job in any later step.
pub early_hand-IsLost :
    (p : Pool) (job w : ℕ) (xs : List Move)
    → p.dispatcher ≡ handing job w
    → lookup w p.workers ≡ some offered
    → count w p.worker_pool ≡ 0
    → ((run p (dispatches ∷ [])).dropped ≡ job ∷ p.dropped) × IsLost w (run p (dispatches ∷ xs))
unfolding run drop_job
early_hand-IsLost p job w xs e f n = (
  ap (λ q. q.dropped) (early_step p job w e f),
  run-IsLost w (settle p (step p dispatches)) xs (
      subst (IsLost w) (sym (early_step p job w e f))
        (record { idle = subst IsIdle (sym f) tt; not_pooled = n; elsewhere = tt })),
)
