-- ===== src/Task/Scheduler/Places.antt =====
-- The branches of an enqueue keep the exclusion of tasks.
use tf_common.Common.{
  ℕ, ◌+◌, ◌≡◌, refl, inl, inr, Bool, true, false, ◌||◌, none, some, Bool-cases, if◌then◌else◌,
}
use tf_common.Task.{
  TaskScheduler, EntryRef, disable_entry, stop_entry, Instance, any, inst, is_empty, ◌>>=◌, id_of,
  instance_of, put_task,
}
use tf_common.Task.Run.{
  Deferred, on_entry, run_task, add_to_wait_q, add_to_defer_q, defer_on_group, defer_on_entry,
  active_group_in_policy, active_entry_in_policy,
}
use tf_common.Task.Run.Frame.{
  owner, Frame, Frame-refl, Frame-trans, put_task-Frame, put_group-Frame, put_entry-Frame,
  add_to_wait_q-Frame, Ensures, Ensures-bind, add_to_defer_q-Frame,
}
use tf_common.Task.Run.Exclusion.{Exclusive, Frame-Exclusive}
use tf_common.Task.Run.Start.{
  Frame-after, defer_on_group-Checked, defer_on_entry-Checked, Checked, run_task-Exclusive,
  Ready-of_policies,
}
use tf_common.Task.Scheduler.{get_task_entry, count_enqueued, place}

pub get_task_entry-Frame :
    (g : ℕ) (i : Instance) (s : TaskScheduler) → Frame s (get_task_entry g i s)
unfolding get_task_entry
get_task_entry-Frame g any s = Frame-refl s
get_task_entry-Frame g (inst n) s = put_group-Frame s g _ refl refl

pub count_enqueued-Frame :
    (t : ℕ) (e : EntryRef) (s : TaskScheduler) → Frame s (count_enqueued t e s)
unfolding count_enqueued
count_enqueued-Frame t e s =
    Frame-trans
      (Frame-trans bumped
        (put_task-Frame s₀ t (record (s.task t) { seqno = s.seqno + 1 }) refl refl))
      (Frame-trans (get_task_entry-Frame (id_of e) (instance_of e) s₁) (
        Frame-trans (put_group-Frame s₂ (id_of e) _ refl refl)
          (put_entry-Frame _ e _ refl refl (λ u h. inl h))))
  where
    s₀ : TaskScheduler
    s₀ = record s { enqueue_count = s.enqueue_count + 1; seqno = s.seqno + 1 }

    bumped : Frame s s₀
    bumped = record {
      group_runs = λ g. refl;
      group_policy = λ g. refl;
      entry_runs = λ f. refl;
      entry_policy = λ f. refl;
      owners = λ u. refl;
      waits = λ f u h. inl h;
    }

    s₁ : TaskScheduler
    s₁ = put_task s₀ t (record (s.task t) { seqno = s.seqno + 1 })

    s₂ : TaskScheduler
    s₂ = get_task_entry (id_of e) (instance_of e) s₁

-- A task enqueued to its own entry.
pub place-Exclusive :
    (t : ℕ) (e : EntryRef) (s : TaskScheduler)
    → Exclusive s
    → owner s t ≡ e
    → Ensures Exclusive (place t e s)
unfolding place
place-Exclusive t e s x o = elim (Bool-cases ((s.group (id_of e)).disable || (s.entry e).disable)) [
  | inl d ↦ rw d (elim (Bool-cases (s.group (id_of e)).disable) [
    | inl y ↦ rw y (deferred (on_entry (disable_entry (id_of e))))
    | inr n ↦ rw n waits
  ])
  | inr d ↦ rw d (elim (Bool-cases (is_empty (s.entry e).waitq)) [
    | inr n ↦ rw n waits
    | inl y ↦ rw y (elim (Bool-cases s.running) [
      | inr n ↦ simp n (deferred (on_entry stop_entry))
      | inl r ↦ simp r checks
    ])
  ])
]
  where
    waiting : TaskScheduler
    waiting = add_to_wait_q e t s

    waits : Exclusive waiting
    waits = Frame-Exclusive (add_to_wait_q-Frame e t s o) x

    deferred : (q : Deferred) → Ensures Exclusive (add_to_defer_q q e waiting)
    deferred q =
        Frame-after waiting (add_to_defer_q q e waiting) waits (add_to_defer_q-Frame q e waiting)

    after_entry :
        (deferred : Bool) (s₂ : TaskScheduler)
        → active_group_in_policy s (id_of e) ≡ none
        → Checked (active_entry_in_policy s e) s (deferred, s₂)
        → Ensures Exclusive (if deferred then some s₂ else run_task e t s₂)
    after_entry true s₂ g c = Frame-Exclusive c.0 x
    after_entry false s₂ g c =
        let same : s₂ ≡ s = (c.1 refl).0 in
        rw same (run_task-Exclusive e t s x (Ready-of_policies s e x g (c.1 refl).1) o)

    after_group :
        (deferred : Bool) (s₁ : TaskScheduler)
        → Checked (active_group_in_policy s (id_of e)) s (deferred, s₁)
        → Ensures Exclusive (
            if deferred
            then some s₁
            else (defer_on_entry e t s₁ >>= λ (deferred, s₂).
                if deferred then some s₂ else run_task e t s₂))
    after_group true s₁ c = Frame-Exclusive c.0 x
    after_group false s₁ c =
        let same : s₁ ≡ s = (c.1 refl).0 in
        rw same (
          Ensures-bind (Checked (active_entry_in_policy s e) s) Exclusive (defer_on_entry e t s) _
            (defer_on_entry-Checked e t s o) (λ r d. after_entry r.0 r.1 (c.1 refl).1 d))

    checks : Ensures Exclusive (
        defer_on_group (id_of e) e t s >>= λ (deferred, s₁).
        if deferred
        then some s₁
        else (defer_on_entry e t s₁ >>= λ (deferred, s₂).
            if deferred then some s₂ else run_task e t s₂))
    checks =
        Ensures-bind (Checked (active_group_in_policy s (id_of e)) s) Exclusive
          (defer_on_group (id_of e) e t s) _ (defer_on_group-Checked (id_of e) e t s o)
          (λ r c. after_group r.0 r.1 c)
