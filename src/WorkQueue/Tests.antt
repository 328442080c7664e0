-- ===== src/WorkQueue/Tests.antt =====
-- Queues with entries, and the theorems at them.
use tf_common.Common.{ℕ, ◌≡◌, ◌≢◌, ◌+◌, refl, Bool, true, some, List, [], ◌∷◌, arith}
use mathlib.Core.Bool.{true≢false}
use tf_common.Task.Control.{queued, failed}
use tf_common.WorkQueue.{Call, WorkQueue, new_queue, enqueue, runner_done, schedule_shutdown}
use tf_common.WorkQueue.Invariant.{IsWorkQueue, Enqueued, enqueue-Enqueued}
use tf_common.WorkQueue.Shutdown.{
  RunDone, runner_done-RunDone, Scheduled, schedule_shutdown-Scheduled,
}
use tf_common.WorkQueue.Runner.{Drained, drain}
use tf_common.WorkQueue.Runner.Order.{InOrder, drain-InOrder}

-- A bounded queue that takes one entry, and holds none.
abbrev short_queue : WorkQueue
short_queue = record (new_queue 2 32) { bounded = true }

short_queue-IsWorkQueue : IsWorkQueue true short_queue
short_queue-IsWorkQueue = record {
  counted = refl;
  runner = refl;
  served = λ some_left. absurd (true≢false some_left);
}

-- An unbounded queue of three entries, in whose run the task is.
abbrev running_queue : WorkQueue
running_queue = record (new_queue 1024 2) {
  queue = 4 ∷ 5 ∷ 6 ∷ [];
  count = 3;
  running = true;
  current_runner = true;
}

running_queue-IsWorkQueue : IsWorkQueue true running_queue
running_queue-IsWorkQueue = record { counted = refl; runner = refl; served = λ _ _ _. refl }

-- A callback that answers an entry with its double, which it enqueues.
abbrev double : ℕ → Bool × List ℕ
double n = (true, (n + n) ∷ [])

failed≢queued : queued ≢ failed
failed≢queued e = cc

enqueue-Enqueued_example :
    (r : Bool × List Call × WorkQueue) × (enqueue true 9 short_queue ≡ some r)
    × Enqueued true 9 short_queue r
enqueue-Enqueued_example = enqueue-Enqueued true 9 short_queue short_queue-IsWorkQueue

runner_done-RunDone_example :
    (r : Bool × List Call × WorkQueue) × (runner_done true running_queue ≡ some r)
    × RunDone true running_queue r
runner_done-RunDone_example =
    runner_done-RunDone true running_queue running_queue-IsWorkQueue refl refl

schedule_shutdown-Scheduled_example :
    (q' : WorkQueue) × (schedule_shutdown true queued running_queue ≡ some q')
    × Scheduled true true queued running_queue q'
schedule_shutdown-Scheduled_example =
    schedule_shutdown-Scheduled true true queued running_queue running_queue-IsWorkQueue refl refl
      failed≢queued

drain-InOrder_example :
    (d : Drained) × (drain double true 2 0 running_queue ≡ some d)
    × InOrder double true 2 running_queue d
drain-InOrder_example =
    drain-InOrder double true 2 0 running_queue running_queue-IsWorkQueue refl (omega arith)
      (omega arith) (omega arith)
