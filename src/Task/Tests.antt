-- ===== src/Task/Tests.antt =====
-- The theorems on the task scheduler at concrete states.
use tf_common.Common.{ℕ, ◌+◌, ◌≡◌, ◌↔◌, refl, true, false, Option, none, some, [], ◌∷◌}
use tf_common.Task.{
  Task, TaskGroup, TaskScheduler, State, EntryRef, entry_of, any, inst, new_task, new_group,
  new_scheduler, put_group, ◌>>=◌,
}
use tf_common.Task.Run.{
  active_group_in_policy, active_entry_in_policy, first_active_group, first_active_entry,
}
use tf_common.Task.Run.Frame.{Ensures}
use tf_common.Task.Run.Exclusion.{Exclusive}
use tf_common.Task.Scheduler.{enqueue, on_task_exit}
use tf_common.Task.Scheduler.Exclusion.{
  enqueue-Exclusive, on_task_exit-Exclusive, new_scheduler-Exclusive,
}
use tf_common.Task.Scheduler.Starts.{Free, enqueue-Running}
use tf_common.Task.Scheduler.Disabled.{enqueue-enqueue}
use tf_common.Task.Control.{TaskExclusion, set_policy}
use tf_common.Task.Reachable.{initial, after, enqueue_step, Reachable-Exclusive}
use tf_common.Task.Control.Policy.{Idle}
use tf_common.Task.Control.Entered.{Kept, Entered, set_policy-Entered}

-- Tasks of id 1 and instance 0, and a scheduler that has seen none of them.
abbrev same_instance_tasks : ℕ → Task
same_instance_tasks t = new_task 1 (inst 0)

abbrev idle_scheduler : TaskScheduler
idle_scheduler = new_scheduler same_instance_tasks

idle_scheduler-Free : Free 0 idle_scheduler
unfolding active_group_in_policy active_entry_in_policy first_active_group first_active_entry
idle_scheduler-Free = record {
  fresh = refl;
  no_impl = refl;
  running = refl;
  group_enabled = refl;
  entry_enabled = refl;
  no_wait = refl;
  group_free = refl;
  entry_free = refl;
  no_task = refl;
  no_run = λ _. refl;
}

-- The scheduler after the enqueue of task 0, which runs.
abbrev busy_scheduler : TaskScheduler
busy_scheduler = (enqueue-Running 0 idle_scheduler idle_scheduler-Free).0

busy_scheduler-Exclusive : Exclusive busy_scheduler
busy_scheduler-Exclusive =
    rw (enqueue-Running 0 idle_scheduler idle_scheduler-Free).1.0 at
      (enqueue-Exclusive 0 idle_scheduler (new_scheduler-Exclusive same_instance_tasks))

idle_scheduler-Idle : Idle idle_scheduler
idle_scheduler-Idle = record { groups = λ g. refl; entries = no_runs }
  where
    no_runs : (e : EntryRef) → (idle_scheduler.entry e).run_count ≡ 0
    no_runs (entry_of g (inst n)) = refl
    no_runs (entry_of g any) = refl
    no_runs (tf_common.Task.EntryRef.disable_entry g) = refl
    no_runs tf_common.Task.EntryRef.stop_entry = refl

abbrev disabled_scheduler : TaskScheduler
disabled_scheduler = put_group idle_scheduler 1 (record new_group { disable = true })

-- A policy of a group against itself and against an instance of group 2.
abbrev self_and_other : tf_common.Common.List TaskExclusion
self_and_other =
    record { match_id = 1; match_instance = any }
    ∷ record { match_id = 2; match_instance = inst 3 }
    ∷ []

enqueue-Exclusive_example : Ensures Exclusive (enqueue 1 busy_scheduler)
enqueue-Exclusive_example = enqueue-Exclusive 1 busy_scheduler busy_scheduler-Exclusive

on_task_exit-Exclusive_example : Ensures Exclusive (on_task_exit 0 busy_scheduler)
on_task_exit-Exclusive_example = on_task_exit-Exclusive 0 busy_scheduler busy_scheduler-Exclusive

set_policy-Entered_example :
    Ensures
      (λ s'. Exclusive s' × Entered 1 self_and_other s' × Kept idle_scheduler s')
      (set_policy 1 self_and_other idle_scheduler)
    × ((false ≡ true) ↔ (set_policy 1 self_and_other idle_scheduler ≡ none))
set_policy-Entered_example =
    set_policy-Entered 1 self_and_other idle_scheduler idle_scheduler-Idle
      (new_scheduler-Exclusive same_instance_tasks)

enqueue-enqueue_example : (enqueue 0 disabled_scheduler >>= enqueue 1) ≡ none
enqueue-enqueue_example = enqueue-enqueue 0 1 disabled_scheduler refl refl

-- The scheduler after the enqueue of task 0 is reachable.
Reachable-Exclusive_example : Exclusive busy_scheduler
Reachable-Exclusive_example = Reachable-Exclusive same_instance_tasks busy_scheduler (
    after idle_scheduler busy_scheduler initial (
      enqueue_step 0 idle_scheduler busy_scheduler
        (enqueue-Running 0 idle_scheduler idle_scheduler-Free).1.0))
