-- ===== src/Task/Scheduler/Exclusion.antt =====
-- The operations of the scheduler keep the exclusion of tasks.
use tf_common.Common.{
  Has, ℕ, ◌+◌, ◌≡◌, refl, inl, inr, Bool, true, false, not, ◌||◌, arith, Bool-cases,
}
use tf_common.Task.{
  Task, TaskEntry, TaskGroup, TaskScheduler, EntryRef, entry_of, disable_entry, stop_entry,
  Instance, any, inst, is_empty, ◌>>=◌, ◌>>◌, assert, id_of, instance_of, same_entry, put_group,
  put_entry, put_task, new_scheduler,
}
use tf_common.Task.Run.{on_entry}
use tf_common.Task.Run.Frame.{
  owner, Frame, Frame-trans, put_task-Frame, Ensures, Ensures-assert, Ensures-bind,
}
use tf_common.Task.Run.Exclusion.{Exclusive, Frame-Exclusive}
use tf_common.Task.Scheduler.{
  task_exited, count_enqueued, place, enqueue, recycle, finish_exit, on_task_exit, stop, start,
}
use tf_common.Task.Scheduler.Walks.{run_defer_q-Exclusive}
use tf_common.Task.Scheduler.Exits.{task_exited-Exclusive}
use tf_common.Task.Scheduler.Places.{count_enqueued-Frame, place-Exclusive}

-- From a state in which groups, and entries, that exclude one another do not both have a run count
-- above 0 and that of each instance is at most 1, an enqueue leaves such a state, unless an assert
-- fails.
pub enqueue-Exclusive : (t : ℕ) (s : TaskScheduler) → Exclusive s → Ensures Exclusive (enqueue t s)
unfolding enqueue
enqueue-Exclusive t s x = Ensures-assert Exclusive _ (place t e (count_enqueued t e s)) (λ _.
    place-Exclusive t e (count_enqueued t e s) (Frame-Exclusive (count_enqueued-Frame t e s) x)
      ((count_enqueued-Frame t e s).owners t))
  where
    e : EntryRef
    e = owner s t

finish_exit-Exclusive :
    (t : ℕ) (s : TaskScheduler) → Exclusive s → Ensures Exclusive (finish_exit t s)
unfolding finish_exit recycle
finish_exit-Exclusive t s x =
    elim (Bool-cases (not (s.task t).task_recycle || (s.task t).task_cancel)) [
      | inl y ↦ rw y x
      | inr n ↦
          rw n
            (enqueue-Exclusive t (recycle t s) (Frame-Exclusive (put_task-Frame s t _ refl refl) x))
    ]

-- From a state in which no tasks run that exclude one another, as the run counts tell, the exit of
-- a task, with every start of a deferred task that it causes and the enqueue of a recycled task,
-- leaves such a state, unless an assert fails.
pub on_task_exit-Exclusive :
    (t : ℕ) (s : TaskScheduler) → Exclusive s → Ensures Exclusive (on_task_exit t s)
unfolding on_task_exit
on_task_exit-Exclusive t s x =
    Ensures-bind Exclusive Exclusive (task_exited (owner s t) (s.task t).task_id t s₁)
      (finish_exit t)
      (task_exited-Exclusive (owner s t) (s.task t).task_id t s₁
        (Frame-Exclusive (Frame-trans counted (put_task-Frame s₀ t _ refl refl)) x))
      (finish_exit-Exclusive t)
  where
    s₀ : TaskScheduler
    s₀ = record s { done_count = s.done_count + 1 }

    counted : Frame s s₀
    counted = record {
      group_runs = λ g. refl;
      group_policy = λ g. refl;
      entry_runs = λ f. refl;
      entry_policy = λ f. refl;
      owners = λ u. refl;
      waits = λ f u h. inl h;
    }

    s₁ : TaskScheduler
    s₁ = put_task s₀ t (record (s.task t) { tbb_state = tf_common.Task.TbbState.tbb_done })

running-Frame : (s : TaskScheduler) (b : Bool) → Frame s (record s { running = b })
running-Frame s b = record {
  group_runs = λ g. refl;
  group_policy = λ g. refl;
  entry_runs = λ f. refl;
  entry_policy = λ f. refl;
  owners = λ u. refl;
  waits = λ f u h. inl h;
}

-- From a state in which no tasks run that exclude one another, a stop leaves such a state, and so
-- does a start, with all that waited for it, unless an assert fails.
pub start-Exclusive :
    (s : TaskScheduler) → Exclusive s → Exclusive (stop s) × Ensures Exclusive (start s)
unfolding start stop
start-Exclusive s x = (
  Frame-Exclusive (running-Frame s false) x,
  run_defer_q-Exclusive (on_entry stop_entry) false (record s { running = true })
      (Frame-Exclusive (running-Frame s true) x),
)

-- In a new scheduler no tasks run that exclude one another, and its policies are symmetric.
pub new_scheduler-Exclusive : (tasks : ℕ → Task) → Exclusive (new_scheduler tasks)
new_scheduler-Exclusive tasks = record {
  groups = λ g h m ne. absurd m;
  entries = λ e f m ne. absurd (ne (only e f m));
  serial = λ g n. omega arith;
  own = λ g n. inl refl;
  group_symmetric = λ g h m. absurd m;
  entry_symmetric = λ e f m. rw (← only e f m) (rw (← only e f m) at m);
  waiting = λ e t m. absurd (nobody e t m);
}
  where
    only : (e f : EntryRef) → Has ((new_scheduler tasks).entry e).policyq f → e ≡ f
    only (entry_of g (inst n)) f (inl q) = q
    only (entry_of g (inst n)) f (inr m) = absurd m
    only (entry_of g any) f m = absurd m
    only (disable_entry g) f m = absurd m
    only stop_entry f m = absurd m

    nobody : (e : EntryRef) (t : ℕ) → Has ((new_scheduler tasks).entry e).waitq t → ⊥
    nobody (entry_of g (inst n)) t m = m
    nobody (entry_of g any) t m = m
    nobody (disable_entry g) t m = m
    nobody stop_entry t m = m
