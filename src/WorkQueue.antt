-- ===== src/WorkQueue.antt =====
-- base/queue_task.h: queues of work that a task drains, `WorkQueue` and `QueueTaskRunner`. Entries
-- are numbers. The calls that an operation makes of callbacks and of the scheduler are returned in
-- their order. The answer of the start runner callback, true where there is none, is the argument
-- `may_start`; a failed assert is `none`. The measurement of the busy time is left out.
pub mod Invariant
pub mod Shutdown
pub mod Runner
mod Tests
use tf_common.Common.{
  ℕ, zero, suc, ◌+◌, ◌-◌, ◌%◌, ◌^◌, Bool, true, false, not, ◌&&◌, ◌||◌, Option, none, some, List,
  [], ◌∷◌, ◌++◌, if◌then◌else◌, ltb, ◌==◌,
}
use tf_common.Task.{◌>>=◌, ◌>>◌, assert}
use tf_common.Task.Control.{CancelReturnCode, cancelled, failed, queued}
use tf_common.WaterMark.{
  WaterMarkInfo, WaterMarkTuple, new_tuple, process_high_water_marks, process_low_water_marks,
  reset_high_water_mark, reset_low_water_mark,
}

pub data Call : Type 0 where
  water_mark : WaterMarkInfo → ℕ → Call
  start_task : Call
  on_exit : Bool → Call

pub record WorkQueue : Type 0 where
  pub queue : List ℕ
  pub count : ℕ
  pub running : Bool
  pub current_runner : Bool
  pub on_entry_defer_count : ℕ
  pub disabled : Bool
  pub deleted : Bool
  pub enqueues : ℕ
  pub dequeues : ℕ
  pub drops : ℕ
  pub max_iterations : ℕ
  pub size : ℕ
  pub bounded : Bool
  pub shutdown_scheduled : Bool
  pub delete_entries_on_shutdown : Bool
  pub watermarks : WaterMarkTuple
  pub task_starts : ℕ
  pub max_queue_len : ℕ

abbrev pub new_queue : ℕ → ℕ → WorkQueue
new_queue size max_iterations = record {
  queue = [];
  count = 0;
  running = false;
  current_runner = false;
  on_entry_defer_count = 0;
  disabled = false;
  deleted = false;
  enqueues = 0;
  dequeues = 0;
  drops = 0;
  max_iterations = max_iterations;
  size = size;
  bounded = false;
  shutdown_scheduled = false;
  delete_entries_on_shutdown = true;
  watermarks = new_tuple;
  task_starts = 0;
  max_queue_len = 0;
}

abbrev pub is_empty : List ℕ → Bool
is_empty [] = true
is_empty (x ∷ xs) = false

-- `size_t` and `uint64_t` arithmetic.
abbrev pub up : ℕ → ℕ
up n = (n + 1) % 2 ^ 64

abbrev pub down : ℕ → ℕ
down n = (n + 18446744073709551615) % 2 ^ 64

pub call_of : ℕ → Option WaterMarkInfo → List Call
call_of count none = []
call_of count (some w) = water_mark w count ∷ []

abbrev pub runner_abort : Bool → WorkQueue → Bool
runner_abort may_start q = q.disabled || q.shutdown_scheduled || not may_start

pub may_be_start_runner : Bool → WorkQueue → Option (List Call × WorkQueue)
may_be_start_runner may_start q =
    if q.running || is_empty q.queue || q.deleted || runner_abort may_start q
    then some ([], q)
    else assert (not q.current_runner)
      >> some (
        start_task ∷ [],
        record q {
          task_starts = (q.task_starts + 1) % 2 ^ 32;
          running = true;
          current_runner = true;
        },
      )

-- `ProcessHighWaterMarks`, the push and `MayBeStartRunner` of both ways to enqueue.
pub push : Bool → ℕ → ℕ → WorkQueue → Option (List Call × WorkQueue)
unfolding call_of may_be_start_runner
push may_start entry ncount q =
    let processed = process_high_water_marks ncount q.watermarks in
    let pushed = record q { queue = q.queue ++ entry ∷ []; watermarks = processed.1 } in
    may_be_start_runner may_start pushed >>= λ r. some (call_of ncount processed.0 ++ r.0, r.1)

-- The count is raised, and the greatest length recorded.
abbrev pub count_entry : WorkQueue → WorkQueue
count_entry q =
    let ncount = up q.count in
    record q {
      count = ncount;
      max_queue_len = if ltb q.max_queue_len ncount then ncount else q.max_queue_len;
    }

pub enqueue_internal : Bool → ℕ → WorkQueue → Option (Bool × List Call × WorkQueue)
unfolding push
enqueue_internal may_start entry q =
    let counted = count_entry (record q { enqueues = up q.enqueues }) in
    push may_start entry counted.count counted >>= λ r. some (ltb counted.count q.size, r.0, r.1)

pub enqueue_bounded : Bool → ℕ → WorkQueue → Option (Bool × List Call × WorkQueue)
unfolding push
enqueue_bounded may_start entry q =
    let counted = count_entry q in
    let pushed = push may_start entry counted.count (record counted { enqueues = up q.enqueues }) in
    if ltb counted.count q.size
    then (pushed >>= λ r. some (true, r.0, r.1))
    else some (
      false,
      [],
      record counted {
        count = down counted.count;
        drops = up q.drops;
        max_queue_len = down counted.count;
      },
    )

-- `Enqueue`; the variants with the mutex of the water marks do the same.
pub enqueue : Bool → ℕ → WorkQueue → Option (Bool × List Call × WorkQueue)
unfolding enqueue_internal enqueue_bounded
enqueue may_start entry q =
    if q.bounded then enqueue_bounded may_start entry q else enqueue_internal may_start entry q

-- `try_pop` on the entries that the queue has.
pub pop : List ℕ → WorkQueue → Option ℕ × List Call × WorkQueue
unfolding call_of
pop [] q = (none, [], q)
pop (entry ∷ entries) q =
    let ncount = down q.count in
    let processed = process_low_water_marks ncount q.watermarks in
    (
      some entry,
      call_of ncount processed.0,
      record q {
        queue = entries;
        dequeues = up q.dequeues;
        count = ncount;
        watermarks = processed.1;
      },
    )

pub dequeue : WorkQueue → Option ℕ × List Call × WorkQueue
unfolding pop
dequeue q = pop q.queue q

abbrev pub is_cancelled : CancelReturnCode → Bool
is_cancelled cancelled = true
is_cancelled failed = false
is_cancelled queued = false

-- The queue, its marks and its count are cleared.
abbrev pub emptied : WorkQueue → WorkQueue
emptied q = record q {
  running = false;
  current_runner = q.current_runner && not q.running;
  watermarks = reset_low_water_mark (reset_high_water_mark q.watermarks);
  queue = [];
  count = 0;
  deleted = true;
}

-- `code` is what `TaskScheduler::Cancel` returns for the runner.
pub shutdown_locked : CancelReturnCode → WorkQueue → Option WorkQueue
shutdown_locked code q =
    assert (not q.deleted)
    >> assert (not q.running || (q.current_runner && is_cancelled code))
    >> some (emptied q)

pub schedule_shutdown : Bool → CancelReturnCode → WorkQueue → Option WorkQueue
unfolding shutdown_locked
schedule_shutdown delete_entries code q =
    let scheduled = record q {
      shutdown_scheduled = true;
      delete_entries_on_shutdown = delete_entries;
    } in
    if q.shutdown_scheduled
    then some q
    else (if q.running
        then assert q.current_runner >> elim code [
          | cancelled ↦
              shutdown_locked cancelled
                (record scheduled { running = false; current_runner = false })
          | failed ↦ none
          | queued ↦ some scheduled
        ]
        else shutdown_locked code scheduled)

pub set_disable : Bool → Bool → WorkQueue → Option (List Call × WorkQueue)
unfolding may_be_start_runner
set_disable may_start disabled q =
    let changed = record q { disabled = disabled } in
    if (q.disabled && disabled) || (not q.disabled && not disabled)
    then some ([], q)
    else (if disabled then some ([], changed) else may_be_start_runner may_start changed)

-- Whether the run is done. No runner runs when `ShutdownLocked` is called, which cancels none.
pub runner_done : Bool → WorkQueue → Option (Bool × List Call × WorkQueue)
unfolding shutdown_locked
runner_done may_start q =
    let stopped = record q { current_runner = false; running = false } in
    if is_empty q.queue || runner_abort may_start q
    then ((if q.shutdown_scheduled then shutdown_locked cancelled stopped else some stopped)
        >>= λ r. some (true, on_exit true ∷ [], r))
    else some (false, on_exit false ∷ [], record q { running = true })
