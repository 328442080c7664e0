-- ===== src/WorkQueue/Runner.antt =====
-- base/queue_task.h: `QueueTaskRunner`, the task that drains a queue. The queue's callback is the
-- argument `callback`: its answer for an entry, and the entries that it enqueues meanwhile.
pub mod Order
use tf_common.Common.{
  ℕ, zero, suc, ◌+◌, Bool, true, false, not, Option, none, some, List, [], ◌∷◌, ◌++◌, if◌then◌else◌,
  ◌==◌,
}
use tf_common.Task.{◌>>=◌}
use tf_common.WorkQueue.{Call, WorkQueue, up, runner_abort, enqueue, dequeue, runner_done}

pub enqueue_all : Bool → List ℕ → WorkQueue → Option (List Call × WorkQueue)
enqueue_all may_start [] q = some ([], q)
enqueue_all may_start (x ∷ xs) q =
    enqueue may_start x q >>= λ r. enqueue_all may_start xs r.2 >>= λ s. some (r.1 ++ s.0, s.1)

-- What a run leaves: the entries that it processed, the calls, and the queue.
pub record Drained : Type 0 where
  pub processed : List ℕ
  pub calls : List Call
  pub left : WorkQueue

module _ (callback : ℕ → Bool × List ℕ) (may_start : Bool) where
  -- One round of the loop: `count` is the number of entries with this one, `rest` the next rounds.
  pub round :
      (WorkQueue → Option Drained) → ℕ → ℕ → Option ℕ × List Call × WorkQueue → Option Drained
  unfolding enqueue_all
  round rest count max_iterations (none, calls, q) =
      some (record { processed = []; calls = calls; left = q })
  round rest count max_iterations (some entry, calls, q) =
      enqueue_all may_start (callback entry).1 q >>= λ r.
      let stopped = some (record { processed = entry ∷ []; calls = calls ++ r.0; left = r.1 }) in
      let continued = rest r.1 >>= λ d. some (record {
        processed = entry ∷ d.processed;
        calls = calls ++ r.0 ++ d.calls;
        left = d.left;
      }) in
      if not (callback entry).0
      then stopped
      else (if count == max_iterations then stopped else continued)

  -- The loop of `RunQueue`, with the rounds that may still follow and the entries counted so far;
  -- `none` is where no round is left, as for a bound of 0, which the count does not reach.
  pub drain : ℕ → ℕ → WorkQueue → Option Drained
  unfolding round
  drain zero count q = none
  drain (suc rounds) count q =
      round (drain rounds (up count)) (up count) q.max_iterations (dequeue q)

  pub run_queue : WorkQueue → Option (Bool × Drained)
  unfolding drain
  run_queue q =
      let drained =
        (if runner_abort may_start q
          then some (record { processed = []; calls = []; left = q })
          else drain q.max_iterations 0 q) in
      drained >>= λ d. runner_done may_start d.left >>= λ r.
      some (r.0, record d { calls = d.calls ++ r.1; left = r.2 })

  -- `on_entry` is the answer of the entry callback, true where there is none.
  pub run : Bool → WorkQueue → Option (Bool × Drained)
  unfolding run_queue
  run on_entry q =
      if on_entry
      then run_queue q
      else some (
        false,
        record {
          processed = [];
          calls = [];
          left = record q { on_entry_defer_count = up q.on_entry_defer_count };
        },
      )
