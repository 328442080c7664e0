-- ===== src/Task/Scheduler.antt =====
-- The operations of `TaskScheduler` in base/task.cc, each as one step, and the loops over the
-- deferred entries.
pub mod Walks
pub mod Exits
pub mod Places
pub mod Exclusion
pub mod Starts
pub mod Disabled
use tf_common.Common.{
  ℕ, zero, suc, ◌+◌, ◌-◌, Bool, true, false, not, ◌&&◌, ◌||◌, Option, none, some, List, [], ◌∷◌,
  ◌++◌, if◌then◌else◌, ltb, ◌==◌, ◌!=◌, length,
}
use tf_common.Task.{
  Task, TaskEntry, TaskGroup, TaskScheduler, EntryRef, entry_of, disable_entry, stop_entry,
  Instance, any, inst, State, TbbState, same_entry, put_group, put_entry, put_task, ◌>>=◌, ◌>>◌,
  assert, is_none, is_empty, instance_of, id_of,
}
use tf_common.Task.Run.{
  Deferred, on_group, on_entry, deferq, add_to_wait_q, remove_task, delete_from_wait_q,
  defer_entry_seqno, seqno_less, add_to_defer_q, delete_from_defer_q, defer_on_group,
  defer_on_entry, is_any, run_task, run_waiting, run_defer_entry,
}

abbrev first_of : List EntryRef → Option EntryRef
first_of [] = none
first_of (e ∷ _) = some e

-- `it++` at the entry `e` of a queue.
pub next_after : EntryRef → List EntryRef → Option EntryRef
next_after e [] = none
next_after e (f ∷ fs) = if same_entry e f then first_of fs else next_after e fs

-- One round of a walk: take the entry out of its queue and try to run it.
pub run_deferred : Deferred → Bool → EntryRef → TaskScheduler → Option TaskScheduler
run_deferred q enabled_only e s = delete_from_defer_q q e s >>= λ s'.
    if enabled_only && (s'.entry e).disable then some s' else run_defer_entry e s'

-- `RunDeferQ`, and `RunDeferQForGroupEnable` with `enabled_only`, from the iterator on. The walk
-- runs while the fuel lasts; without fuel its state so far stands.
pub walk : ℕ → Deferred → Bool → Option EntryRef → TaskScheduler → Option TaskScheduler
walk fuel q enabled_only none s = some s
walk zero q enabled_only (some e) s = some s
walk (suc fuel) q enabled_only (some e) s =
    run_deferred q enabled_only e s >>= walk fuel q enabled_only (next_after e (deferq s q))

-- A round takes an entry out for good, or puts it back before the iterator; only the entry that
-- owns the queue can come back behind it, once.
pub run_defer_q : Deferred → Bool → TaskScheduler → Option TaskScheduler
unfolding walk run_deferred next_after
run_defer_q q enabled_only s =
    walk (length (deferq s q) + 1) q enabled_only (first_of (deferq s q)) s

-- `RunCombinedDeferQ`: the two queues in the order of their keys, then what is left of one.
pub run_rest :
    Deferred → Deferred → Option EntryRef → Option EntryRef → TaskScheduler → Option TaskScheduler
unfolding run_defer_q
run_rest gq eq none none s = some s
run_rest gq eq (some g) e s = run_defer_q gq false s
run_rest gq eq none (some e) s = run_defer_q eq false s

pub walk_both :
    ℕ
    → Deferred
    → Deferred
    → Option EntryRef
    → Option EntryRef
    → TaskScheduler
    → Option TaskScheduler
unfolding run_rest
walk_both fuel gq eq none e s = run_rest gq eq none e s
walk_both fuel gq eq (some g) none s = run_rest gq eq (some g) none s
walk_both zero gq eq (some g) (some e) s = some s
walk_both (suc fuel) gq eq (some g) (some e) s =
    let from_group =
      run_deferred gq false g s >>= walk_both fuel gq eq (next_after g (deferq s gq)) (some e) in
    let from_entry =
      run_deferred eq false e s >>= walk_both fuel gq eq (some g) (next_after e (deferq s eq)) in
    if seqno_less (defer_entry_seqno s g) (defer_entry_seqno s e) then from_group else from_entry

pub run_combined_defer_q : ℕ → EntryRef → TaskScheduler → Option TaskScheduler
unfolding walk_both
run_combined_defer_q g e s =
    walk_both (length (s.group g).deferq + length (s.entry e).deferq + 2) (on_group g) (on_entry e)
      (first_of (s.group g).deferq) (first_of (s.entry e).deferq) s

-- The counts that `TaskExited` of the entry and of the group lower; a run count stops at 0, where
-- the `int` would go below.
pub count_exited : EntryRef → ℕ → TaskScheduler → TaskScheduler
count_exited e g s =
    let old = s.entry e in
    let s₁ = put_entry s e (record old {
      run_task = if is_any (instance_of e) then old.run_task else none;
      run_count = old.run_count - 1;
      stats = record (old.stats) { total_tasks_completed = old.stats.total_tasks_completed + 1 };
    }) in
    let grp = s₁.group g in
    put_group s₁ g (record grp {
      run_count = grp.run_count - 1;
      stats = record (grp.stats) { total_tasks_completed = grp.stats.total_tasks_completed + 1 };
    })

abbrev pub runs_task : ℕ → Option ℕ → Bool
runs_task t none = false
runs_task t (some u) = t == u

pub run_after_exit : EntryRef → ℕ → TaskScheduler → Option TaskScheduler
unfolding run_combined_defer_q run_defer_q
run_after_exit e g s =
    let group_idle = (s.group g).run_count == 0 in
    let entry_idle = (s.entry e).run_count == 0 in
    if group_idle && entry_idle
    then run_combined_defer_q g e s
    else (if group_idle
        then run_defer_q (on_group g) false s
        else (if entry_idle then run_defer_q (on_entry e) false s else some s))

pub task_exited : EntryRef → ℕ → ℕ → TaskScheduler → Option TaskScheduler
unfolding count_exited run_after_exit
task_exited e g t s =
    assert
      (is_any (instance_of e) || (runs_task t (s.entry e).run_task && ((s.entry e).run_count == 1)))
    >> run_after_exit e g (count_exited e g s)

-- `GetTaskEntry` of a group enters the instance in `task_entry_db_`, in the order of the ids.
pub add_instance : ℕ → List ℕ → List ℕ
add_instance n [] = n ∷ []
add_instance n (m ∷ ms) =
    if n == m then m ∷ ms else (if ltb n m then n ∷ m ∷ ms else m ∷ add_instance n ms)

pub get_task_entry : ℕ → Instance → TaskScheduler → TaskScheduler
unfolding add_instance
get_task_entry g any s = s
get_task_entry g (inst n) s =
    put_group s g (record (s.group g) { instances = add_instance n (s.group g).instances })

-- The seqno and the counts of `EnqueueUnLocked`, as numbers without the 64 bit wrap.
pub count_enqueued : ℕ → EntryRef → TaskScheduler → TaskScheduler
unfolding get_task_entry
count_enqueued t e s =
    let s₁ =
      put_task (record s { enqueue_count = s.enqueue_count + 1; seqno = s.seqno + 1 }) t
        (record (s.task t) { seqno = s.seqno + 1 }) in
    let s₂ = get_task_entry (id_of e) (instance_of e) s₁ in
    let grp = s₂.group (id_of e) in
    let s₃ =
      put_group s₂ (id_of e) (record grp {
        stats = record (grp.stats) { enqueue_count = grp.stats.enqueue_count + 1 };
      }) in
    let old = s₃.entry e in
    put_entry s₃ e
      (record old { stats = record (old.stats) { enqueue_count = old.stats.enqueue_count + 1 } })

-- The branches of `EnqueueUnLocked` after the counts.
pub place : ℕ → EntryRef → TaskScheduler → Option TaskScheduler
place t e s =
    let group_disabled = (s.group (id_of e)).disable in
    let waiting = add_to_wait_q e t s in
    if group_disabled || (s.entry e).disable
    then (if group_disabled
        then add_to_defer_q (on_entry (disable_entry (id_of e))) e waiting
        else some waiting)
    else (if not (is_empty (s.entry e).waitq)
        then some waiting
        else (if not s.running
            then add_to_defer_q (on_entry stop_entry) e waiting
            else (defer_on_group (id_of e) e t s >>= λ (deferred, s₁).
                if deferred
                then some s₁
                else (defer_on_entry e t s₁ >>= λ (deferred, s₂).
                    if deferred then some s₂ else run_task e t s₂))))

unfoldable pub enqueue : ℕ → TaskScheduler → Option TaskScheduler
unfolding place count_enqueued
enqueue t s =
    let e = entry_of (s.task t).task_id (s.task t).task_instance in
    assert ((s.task t).seqno == 0) >> place t e (count_enqueued t e s)

-- `Run` has returned: whether the task is to be run again.
unfoldable pub set_task_recycle : ℕ → Bool → TaskScheduler → TaskScheduler
set_task_recycle t again s =
    put_task s t (record (s.task t) { tbb_state = TbbState.tbb_exec; task_recycle = again })

-- The state of a task that is enqueued again. A task that is deleted keeps its last record.
pub recycle : ℕ → TaskScheduler → TaskScheduler
recycle t s = put_task s t (record (s.task t) {
  has_impl = false;
  seqno = 0;
  state = State.init;
  tbb_state = TbbState.tbb_init;
})

pub finish_exit : ℕ → TaskScheduler → Option TaskScheduler
unfolding enqueue recycle
finish_exit t s =
    if not (s.task t).task_recycle || (s.task t).task_cancel
    then some s
    else enqueue t (recycle t s)

unfoldable pub on_task_exit : ℕ → TaskScheduler → Option TaskScheduler
unfolding task_exited finish_exit
on_task_exit t s =
    let s₁ =
      put_task (record s { done_count = s.done_count + 1 }) t
        (record (s.task t) { tbb_state = TbbState.tbb_done }) in
    let g = (s.task t).task_id in
    task_exited (entry_of g (s.task t).task_instance) g t s₁ >>= finish_exit t

unfoldable pub stop : TaskScheduler → TaskScheduler
stop s = record s { running = false }

unfoldable pub start : TaskScheduler → Option TaskScheduler
unfolding run_defer_q
start s = run_defer_q (on_entry stop_entry) false (record s { running = true })
