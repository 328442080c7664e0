-- ===== src/Task/Control/Exclusion.antt =====
-- Cancellation and the enabling of groups and entries keep the exclusion of tasks.
use tf_common.Common.{
  ℕ, ◌+◌, refl, inl, inr, Bool, true, false, not, Option, none, some, List, [], ◌∷◌, Bool-cases,
  if◌then◌else◌,
}
use tf_common.Task.{
  TaskScheduler, EntryRef, entry_of, disable_entry, Instance, any, inst, State, is_empty, ◌>>=◌,
  ◌>>◌, assert, put_group, put_entry, put_task,
}
use tf_common.Task.Run.{Deferred, on_entry, delete_from_wait_q, add_to_defer_q, delete_from_defer_q}
use tf_common.Task.Run.Frame.{
  owner, Frame, Frame-refl, Frame-trans, put_task-Frame, put_group-Frame, put_entry-Frame,
  delete_from_wait_q-Frame, Ensures, Ensures-assert, Ensures-bind, add_to_defer_q-Frame,
  delete_from_defer_q-Frame,
}
use tf_common.Task.Run.Exclusion.{Exclusive, Frame-Exclusive}
use tf_common.Task.Run.Start.{Frame-after, run_defer_entry-Exclusive}
use tf_common.Task.Scheduler.{get_task_entry}
use tf_common.Task.Scheduler.Places.{get_task_entry-Frame}
use tf_common.Task.Scheduler.Walks.{run_defer_q-Exclusive}
use tf_common.Task.Control.{
  CancelReturnCode, failed, queued, held_in, one_queue, move, leave, cancel_waiting, cancel,
  is_first, add_to_disable_q, add_instances_to_disable_q, disable_task_group, enable_task_group,
  disable_task_entry, enable_task_entry,
}

frames_after :
    (r s : TaskScheduler) (m : Option TaskScheduler)
    → Frame r s
    → Ensures (Frame s) m
    → Ensures (Frame r) m
frames_after r s none f g = tt
frames_after r s (some t) f g = Frame-trans f g

move-Frame :
    (q : Deferred) (again : Bool) (e : EntryRef) (s : TaskScheduler)
    → Ensures (Frame s) (move q again e s)
unfolding move
move-Frame q true e s =
    Ensures-bind (Frame s) (Frame s) (delete_from_defer_q q e s) (add_to_defer_q q e)
      (delete_from_defer_q-Frame q e s)
      (λ s' f. frames_after s s' (add_to_defer_q q e s') f (add_to_defer_q-Frame q e s'))
move-Frame q false e s =
    Ensures-bind (Frame s) (Frame s) (delete_from_defer_q q e s) some
      (delete_from_defer_q-Frame q e s) (λ s' f. f)

leave-Frame :
    (again : Bool) (e : EntryRef) (s : TaskScheduler) → Ensures (Frame s) (leave again e s)
unfolding leave
leave-Frame again e s = Ensures-assert (Frame s) (one_queue e s) _ (λ _. go (held_in e s))
  where
    go :
        (q : Option Deferred)
        → Ensures
            (Frame s)
            (elim q [ some q ↦ move q again e s | none ↦ assert (s.entry e).disable >> some s ])
    go (some q) = move-Frame q again e s
    go none = Ensures-assert (Frame s) (s.entry e).disable (some s) (λ _. Frame-refl s)

-- A cancellation returns a code and keeps the exclusion of tasks.
Kept : CancelReturnCode × TaskScheduler → Type 0
Kept (code, s) = Exclusive s

cancel_waiting-Exclusive :
    (t : ℕ) (e : EntryRef) (s : TaskScheduler) → Exclusive s → Ensures Kept (cancel_waiting t e s)
unfolding cancel_waiting Kept
cancel_waiting-Exclusive t e s x =
    Ensures-assert Kept (not (is_empty (s.entry e).waitq)) _
      (λ _. Ensures-bind (Frame s) Kept moved _ moves (λ s₂ f. counted s₂ (Frame-Exclusive f x)))
  where
    s₁ : TaskScheduler
    s₁ = delete_from_wait_q e t s

    taken : Frame s s₁
    taken = delete_from_wait_q-Frame e t s

    moved : Option TaskScheduler
    moved =
        if is_empty (s₁.entry e).waitq
        then leave false e s₁
        else (if is_first t (s.entry e).waitq then leave true e s₁ else some s₁)

    moves : Ensures (Frame s) moved
    moves = elim (Bool-cases (is_empty (s₁.entry e).waitq)) [
      | inl y ↦ rw y (frames_after s s₁ (leave false e s₁) taken (leave-Frame false e s₁))
      | inr n ↦ rw n (elim (Bool-cases (is_first t (s.entry e).waitq)) [
        | inl y ↦ rw y (frames_after s s₁ (leave true e s₁) taken (leave-Frame true e s₁))
        | inr k ↦ rw k taken
      ])
    ]

    counted :
        (r : TaskScheduler)
        → Exclusive r
        → Exclusive (record r { cancel_count = r.cancel_count + 1 })
    counted r y =
        Frame-Exclusive
          (record {
            group_runs = λ g. refl;
            group_policy = λ g. refl;
            entry_runs = λ f. refl;
            entry_policy = λ f. refl;
            owners = λ u. refl;
            waits = λ f u h. inl h;
          })
          y

-- From a state in which no tasks run that exclude one another, a cancellation leaves such a state,
-- unless an assert fails.
pub cancel-Exclusive :
    (t : ℕ) (s : TaskScheduler) → Exclusive s → Ensures (λ r. Exclusive r.1) (cancel t s)
unfolding cancel Kept
cancel-Exclusive t s x = go (s.task t).state
  where
    go :
        (state : State)
        → Ensures Kept (elim state [
          | State.run ↦ some (queued, put_task s t (record (s.task t) { task_cancel = true }))
          | State.wait ↦ cancel_waiting t (entry_of (s.task t).task_id (s.task t).task_instance) s
          | State.init ↦ some (failed, s)
        ])
    go State.run = Frame-Exclusive (put_task-Frame s t _ refl refl) x
    go State.wait = cancel_waiting-Exclusive t (owner s t) s x
    go State.init = x

add_to_disable_q-Frame :
    (g : ℕ) (e : EntryRef) (s : TaskScheduler) → Ensures (Frame s) (add_to_disable_q g e s)
unfolding add_to_disable_q
add_to_disable_q-Frame g e s = elim (Bool-cases (is_empty (s.entry e).waitq)) [
  | inl y ↦ rw y (Frame-refl s)
  | inr n ↦ rw n (add_to_defer_q-Frame (on_entry (disable_entry g)) e s)
]

add_instances_to_disable_q-Frame :
    (g : ℕ) (ns : List ℕ) (s : TaskScheduler)
    → Ensures (Frame s) (add_instances_to_disable_q g ns s)
unfolding add_instances_to_disable_q
add_instances_to_disable_q-Frame g [] s = Frame-refl s
add_instances_to_disable_q-Frame g (n ∷ ns) s =
    Ensures-bind (Frame s) (Frame s) (add_to_disable_q g (entry_of g (inst n)) s) _
      (add_to_disable_q-Frame g (entry_of g (inst n)) s)
      (λ s' f.
        frames_after s s' (add_instances_to_disable_q g ns s') f
          (add_instances_to_disable_q-Frame g ns s'))

-- From a state in which no tasks run that exclude one another, disabling a group leaves such a
-- state, and so does enabling it, with the start of what waits in its enabled entries, unless an
-- assert fails.
pub disable_task_group-Exclusive :
    (g : ℕ) (s : TaskScheduler)
    → Exclusive s
    → Ensures Exclusive (disable_task_group g s) × Ensures Exclusive (enable_task_group g s)
unfolding disable_task_group enable_task_group
disable_task_group-Exclusive g s x = (
  elim (Bool-cases (s.group g).disable) [ inl y ↦ simp y x | inr n ↦ simp n entered ],
  run_defer_q-Exclusive (on_entry (disable_entry g)) true _
      (Frame-Exclusive (put_group-Frame s g _ refl refl) x),
)
  where
    s₁ : TaskScheduler
    s₁ = put_group s g (record (s.group g) { disable = true })

    y : Exclusive s₁
    y = Frame-Exclusive (put_group-Frame s g _ refl refl) x

    entered : Ensures Exclusive (
        add_to_disable_q g (entry_of g any) s₁
        >>= add_instances_to_disable_q g (s.group g).instances)
    entered =
        Ensures-bind Exclusive Exclusive (add_to_disable_q g (entry_of g any) s₁) _
          (Frame-after s₁ (add_to_disable_q g (entry_of g any) s₁) y
            (add_to_disable_q-Frame g (entry_of g any) s₁))
          (λ s' z.
            Frame-after s' (add_instances_to_disable_q g (s.group g).instances s') z
              (add_instances_to_disable_q-Frame g (s.group g).instances s'))

-- From a state in which no tasks run that exclude one another, disabling an entry leaves such a
-- state, and so does enabling it, with the start of what waits in it, unless an assert fails.
pub enable_task_entry-Exclusive :
    (g : ℕ) (i : Instance) (s : TaskScheduler)
    → Exclusive s
    → Exclusive (disable_task_entry g i s) × Ensures Exclusive (enable_task_entry g i s)
unfolding disable_task_entry enable_task_entry
enable_task_entry-Exclusive g i s x = (
  Frame-Exclusive (put_entry-Frame s₁ e _ refl refl (λ u h. inl h)) y,
  elim (Bool-cases (s₂.group g).disable) [
    | inl d ↦ rw d z
    | inr d ↦ rw d (elim (Bool-cases (is_empty (s₂.entry e).waitq)) [
      | inl q ↦ rw q z
      | inr q ↦ rw q (run_defer_entry-Exclusive e s₂ z)
    ])
  ],
)
  where
    e : EntryRef
    e = entry_of g i

    s₁ : TaskScheduler
    s₁ = get_task_entry g i s

    y : Exclusive s₁
    y = Frame-Exclusive (get_task_entry-Frame g i s) x

    s₂ : TaskScheduler
    s₂ = put_entry s₁ e (record (s₁.entry e) { disable = false })

    z : Exclusive s₂
    z = Frame-Exclusive (put_entry-Frame s₁ e _ refl refl (λ u h. inl h)) y
