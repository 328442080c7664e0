-- ===== src/Task/Reachable.antt =====
-- The operations of `TaskScheduler` in base/task.cc as the steps of one machine: what holds after any
-- sequence of them.
use tf_common.Common.{ℕ, ◌≡◌, Option, some, List}
use mathlib.Core.Path.{subst}
use tf_common.Task.{Task, TaskScheduler, Instance, new_scheduler}
use tf_common.Task.Run.Frame.{Ensures}
use tf_common.Task.Run.Exclusion.{Exclusive}
use tf_common.Task.Scheduler.{enqueue, on_task_exit, stop, start}
use tf_common.Task.Scheduler.Exclusion.{
  enqueue-Exclusive, on_task_exit-Exclusive, start-Exclusive, new_scheduler-Exclusive,
}
use tf_common.Task.Control.{
  TaskExclusion, set_policy, CancelReturnCode, cancel, disable_task_group, enable_task_group,
  disable_task_entry, enable_task_entry,
}
use tf_common.Task.Control.Exclusion.{
  cancel-Exclusive, disable_task_group-Exclusive, enable_task_entry-Exclusive,
}
use tf_common.Task.Control.Policy.{Idle, set_policy-Exclusive}

-- One operation that returns. Policies are set while nothing runs.
pub data Step : TaskScheduler → TaskScheduler → Type 0 where
  enqueue_step : (t : ℕ) (s s' : TaskScheduler) → enqueue t s ≡ some s' → Step s s'
  exit_step : (t : ℕ) (s s' : TaskScheduler) → on_task_exit t s ≡ some s' → Step s s'
  cancel_step :
      (t : ℕ) (code : CancelReturnCode) (s s' : TaskScheduler)
      → cancel t s ≡ some (code, s')
      → Step s s'
  policy_step :
      (g : ℕ) (policy : List TaskExclusion) (s s' : TaskScheduler)
      → Idle s
      → set_policy g policy s ≡ some s'
      → Step s s'
  stop_step : (s : TaskScheduler) → Step s (stop s)
  start_step : (s s' : TaskScheduler) → start s ≡ some s' → Step s s'
  disable_group_step : (g : ℕ) (s s' : TaskScheduler) → disable_task_group g s ≡ some s' → Step s s'
  enable_group_step : (g : ℕ) (s s' : TaskScheduler) → enable_task_group g s ≡ some s' → Step s s'
  disable_entry_step :
      (g : ℕ) (i : Instance) (s : TaskScheduler) → Step s (disable_task_entry g i s)
  enable_entry_step :
      (g : ℕ) (i : Instance) (s s' : TaskScheduler) → enable_task_entry g i s ≡ some s' → Step s s'

pub data Reachable (tasks : ℕ → Task) : TaskScheduler → Type 0 where
  initial : Reachable tasks (new_scheduler tasks)
  after : (s s' : TaskScheduler) → Reachable tasks s → Step s s' → Reachable tasks s'

returned : {A : Type 0} (P : A → Type 0) (m : Option A) (a : A) → m ≡ some a → Ensures P m → P a
returned P m a e h = subst (Ensures P) e h

Step-Exclusive : (s s' : TaskScheduler) → Step s s' → Exclusive s → Exclusive s'
Step-Exclusive s s' (enqueue_step t _ _ e) x = returned Exclusive _ s' e (enqueue-Exclusive t s x)
Step-Exclusive s s' (exit_step t _ _ e) x = returned Exclusive _ s' e (on_task_exit-Exclusive t s x)
Step-Exclusive s s' (cancel_step t code _ _ e) x =
    returned (λ r. Exclusive r.1) _ (code, s') e (cancel-Exclusive t s x)
Step-Exclusive s s' (policy_step g policy _ _ idle e) x =
    returned Exclusive _ s' e (set_policy-Exclusive g policy s idle x).0
Step-Exclusive s s' (stop_step _) x = (start-Exclusive s x).0
Step-Exclusive s s' (start_step _ _ e) x = returned Exclusive _ s' e (start-Exclusive s x).1
Step-Exclusive s s' (disable_group_step g _ _ e) x =
    returned Exclusive _ s' e (disable_task_group-Exclusive g s x).0
Step-Exclusive s s' (enable_group_step g _ _ e) x =
    returned Exclusive _ s' e (disable_task_group-Exclusive g s x).1
Step-Exclusive s s' (disable_entry_step g i _) x = (enable_task_entry-Exclusive g i s x).0
Step-Exclusive s s' (enable_entry_step g i _ _ e) x =
    returned Exclusive _ s' e (enable_task_entry-Exclusive g i s x).1

-- In every state that a new scheduler reaches by enqueues, exits of tasks, cancellations, stops,
-- starts, the enabling and disabling of groups and entries, and policies set while nothing runs,
-- as far as they return, groups, and entries, that exclude one another do not both have a run
-- count above 0, and that of each instance is at most 1.
pub Reachable-Exclusive : (tasks : ℕ → Task) (s : TaskScheduler) → Reachable tasks s → Exclusive s
Reachable-Exclusive tasks s initial = new_scheduler-Exclusive tasks
Reachable-Exclusive tasks s' (after s _ r step) =
    Step-Exclusive s s' step (Reachable-Exclusive tasks s r)
