-- ===== src/Task/Scheduler/Starts.antt =====
-- When an enqueued task starts at once.
use tf_common.Common.{
  ℕ, ◌+◌, ◌≡◌, refl, sym, ap, ◌∙◌, inl, inr, Bool, true, false, ◌&&◌, ◌||◌, none, some, List, [],
  ◌∷◌, arith, Bool-cases, ◌==◌,
}
use tf_common.Task.{
  ◌>>=◌, ◌>>◌, assert, Task, TaskScheduler, EntryRef, entry_of, put_task, Instance, any, inst,
  State, is_none, is_empty, id_of, instance_of, same_entry,
}
use tf_common.Task.Run.{
  first_active_group, first_active_entry, active_group_in_policy, active_entry_in_policy,
  defer_on_group, defer_on_entry, is_any, start_task, count_started, run_task,
}
use tf_common.Task.Run.Frame.{owner, Frame, same_entry_iff}
use tf_common.Task.Scheduler.Places.{count_enqueued-Frame}
use tf_common.Task.Scheduler.{enqueue, place, count_enqueued, get_task_entry}

first_active_group-Frame :
    {s s' : TaskScheduler}
    → Frame s s'
    → (gs : List ℕ) → first_active_group s' gs ≡ first_active_group s gs
unfolding first_active_group
first_active_group-Frame f [] = refl
first_active_group-Frame f (g ∷ gs) = rw (f.group_runs g, first_active_group-Frame f gs) refl

first_active_entry-Frame :
    {s s' : TaskScheduler}
    → Frame s s'
    → (es : List EntryRef) → first_active_entry s' es ≡ first_active_entry s es
unfolding first_active_entry
first_active_entry-Frame f [] = refl
first_active_entry-Frame f (e ∷ es) = rw (f.entry_runs e, first_active_entry-Frame f es) refl

-- A task that may start at once: it is new, the scheduler runs, nothing is disabled, no task waits
-- in its entry, no policy forbids it, and an entry with an instance is free.
pub record Free (t : ℕ) (s : TaskScheduler) : Type 0 where
  pub fresh : (s.task t).seqno ≡ 0
  pub no_impl : (s.task t).has_impl ≡ false
  pub running : s.running ≡ true
  pub group_enabled : (s.group (s.task t).task_id).disable ≡ false
  pub entry_enabled : (s.entry (owner s t)).disable ≡ false
  pub no_wait : (s.entry (owner s t)).waitq ≡ []
  pub group_free : active_group_in_policy s (s.task t).task_id ≡ none
  pub entry_free : active_entry_in_policy s (owner s t) ≡ none
  pub no_task : (s.entry (owner s t)).run_task ≡ none
  pub no_run : is_any (s.task t).task_instance ≡ false → (s.entry (owner s t)).run_count ≡ 0

-- What an enqueue counts before it places the task.
record Counted (t : ℕ) (s s' : TaskScheduler) : Type 0 where
  pub running : s'.running ≡ s.running
  pub has_impl : (s'.task t).has_impl ≡ (s.task t).has_impl
  pub instance_kept : (s'.task t).task_instance ≡ (s.task t).task_instance
  pub id_kept : (s'.task t).task_id ≡ (s.task t).task_id
  pub disable : (g : ℕ) → (s'.group g).disable ≡ (s.group g).disable
  pub entry_disable : (e : EntryRef) → (s'.entry e).disable ≡ (s.entry e).disable
  pub waitq : (e : EntryRef) → (s'.entry e).waitq ≡ (s.entry e).waitq
  pub run_task : (e : EntryRef) → (s'.entry e).run_task ≡ (s.entry e).run_task

count_enqueued-Counted :
    (t g : ℕ) (i : Instance) (s : TaskScheduler) → Counted t s (count_enqueued t (entry_of g i) s)
unfolding count_enqueued get_task_entry
count_enqueued-Counted t g any s = record {
  running = refl;
  has_impl = ground arith;
  instance_kept = ground arith;
  id_kept = ground arith;
  disable = λ h. ground arith;
  entry_disable = λ f. ground arith;
  waitq = λ f. ground arith;
  run_task = λ f. ground arith;
}
count_enqueued-Counted t g (inst n) s = record {
  running = refl;
  has_impl = ground arith;
  instance_kept = ground arith;
  id_kept = ground arith;
  disable = λ h. ground arith;
  entry_disable = λ f. ground arith;
  waitq = λ f. ground arith;
  run_task = λ f. ground arith;
}

-- The start of a task that the counts allow.
Running : ℕ → EntryRef → ℕ → TaskScheduler → TaskScheduler → Type 0
Running t e g s s' =
    ((s'.task t).state ≡ State.run)
    × ((s'.entry e).run_count ≡ (s.entry e).run_count + 1)
    × ((s'.group g).run_count ≡ (s.group g).run_count + 1)

count_started-Running :
    (t : ℕ) (e : EntryRef) (b : Bool) (s : TaskScheduler) (v : Task)
    → v.state ≡ State.run
    → Running t e (s.task t).task_id s (put_task (count_started e t b s) t v)
unfolding count_started Running
count_started-Running t e b s v q =
    let own : (t == t) ≡ true = ground arith in
    let mine : same_entry e e ≡ true = (same_entry_iff e e).1 refl in
    let group : ((s.task t).task_id == (s.task t).task_id) ≡ true = ground arith in
    (rw own q, rw mine refl, rw group refl)

count_started-tasks :
    (e : EntryRef) (t : ℕ) (b : Bool) (s : TaskScheduler)
    → ((count_started e t b s).task t).has_impl ≡ (s.task t).has_impl
unfolding count_started
count_started-tasks e t b s = refl

run_task-Running :
    (t : ℕ) (e : EntryRef) (s : TaskScheduler)
    → (s.task t).has_impl ≡ false
    → (s.entry e).run_task ≡ none
    → (is_any (s.task t).task_instance ≡ false → (s.entry e).run_count ≡ 0)
    → (s' : TaskScheduler) × ((run_task e t s ≡ some s') × Running t e (s.task t).task_id s s')
unfolding run_task start_task
run_task-Running t e s h n c = (
  put_task counted t started,
  (returns, count_started-Running t e (is_any (s.task t).task_instance) s started refl),
)
  where
    counted : TaskScheduler
    counted = count_started e t (is_any (s.task t).task_instance) s

    started : Task
    started = record (counted.task t) {
      state = State.run;
      tbb_state = tf_common.Task.TbbState.tbb_enqueued;
      has_impl = true;
    }

    tasks : (counted.task t).has_impl ≡ (s.task t).has_impl
    tasks = count_started-tasks e t (is_any (s.task t).task_instance) s

    no_impl : (counted.task t).has_impl ≡ false
    no_impl = tasks ∙ h

    allowed :
        (is_any (s.task t).task_instance
          || (is_none (s.entry e).run_task && ((s.entry e).run_count == 0)))
        ≡ true
    allowed = elim (Bool-cases (is_any (s.task t).task_instance)) [
      | inl y ↦ rw y refl
      | inr k ↦ rw (k, n, c k) refl
    ]

    returns : run_task e t s ≡ some (put_task counted t started)
    returns = simp (allowed, no_impl) refl

-- The last branch of an enqueue.
defer_on_group-free :
    (g : ℕ) (e : EntryRef) (t : ℕ) (s : TaskScheduler)
    → active_group_in_policy s g ≡ none
    → defer_on_group g e t s ≡ some (false, s)
unfolding defer_on_group
defer_on_group-free g e t s q = rw (q, defer_on_group) refl

defer_on_entry-free :
    (e : EntryRef) (t : ℕ) (s : TaskScheduler)
    → active_entry_in_policy s e ≡ none
    → defer_on_entry e t s ≡ some (false, s)
unfolding defer_on_entry
defer_on_entry-free e t s q = rw (q, defer_on_entry) refl

place-run_task :
    (t : ℕ) (e : EntryRef) (s : TaskScheduler)
    → (s.group (id_of e)).disable ≡ false
    → (s.entry e).disable ≡ false
    → (s.entry e).waitq ≡ []
    → s.running ≡ true
    → active_group_in_policy s (id_of e) ≡ none
    → active_entry_in_policy s e ≡ none
    → place t e s ≡ run_task e t s
unfolding place
place-run_task t e s d d' w r g p =
    rw (d, d', w)
      (simp r (simp (defer_on_group-free (id_of e) e t s g, defer_on_entry-free e t s p) refl))

-- A new task of an enabled entry and group in a running scheduler, with no task waiting, no active
-- policy and, for an instance, no task running, starts at once: the enqueue returns, the task
-- runs, and the run counts of its entry and group are one higher.
pub enqueue-Running :
    (t : ℕ) (s : TaskScheduler)
    → Free t s
    → (s' : TaskScheduler) × ((enqueue t s ≡ some s')
        × ((s'.task t).state ≡ State.run)
        × ((s'.entry (owner s t)).run_count ≡ (s.entry (owner s t)).run_count + 1)
        × ((s'.group (s.task t).task_id).run_count ≡ (s.group (s.task t).task_id).run_count + 1))
unfolding enqueue Running active_group_in_policy active_entry_in_policy
enqueue-Running t s q =
    let r =
      run_task-Running t e s₁ (k.has_impl ∙ q.no_impl) (k.run_task e ∙ q.no_task)
        (λ n. f.entry_runs e ∙ q.no_run (sym (ap is_any k.instance_kept) ∙ n)) in
    (
      r.0,
      (
        returns ∙ r.1.0,
        r.1.1.0,
        r.1.1.1 ∙ ap (λ n. n + 1) (f.entry_runs e),
        sym (ap (λ g. (r.0.group g).run_count) k.id_kept)
            ∙ r.1.1.2
            ∙ ap (λ g. (s₁.group g).run_count + 1) k.id_kept
            ∙ ap (λ n. n + 1) (f.group_runs (s.task t).task_id),
      ),
    )
  where
    e : EntryRef
    e = owner s t

    s₁ : TaskScheduler
    s₁ = count_enqueued t e s

    k : Counted t s s₁
    k = count_enqueued-Counted t (s.task t).task_id (s.task t).task_instance s

    f : Frame s s₁
    f = count_enqueued-Frame t e s

    no_group : first_active_group s₁ (s₁.group (id_of e)).policy ≡ none
    no_group =
        ap (first_active_group s₁) (f.group_policy (id_of e))
        ∙ first_active_group-Frame f (s.group (id_of e)).policy
        ∙ q.group_free

    no_entry : first_active_entry s₁ (s₁.entry e).policyq ≡ none
    no_entry =
        ap (first_active_entry s₁) (f.entry_policy e)
        ∙ first_active_entry-Frame f (s.entry e).policyq
        ∙ q.entry_free

    placed : place t e s₁ ≡ run_task e t s₁
    placed =
        place-run_task t e s₁ (k.disable (id_of e) ∙ q.group_enabled)
          (k.entry_disable e ∙ q.entry_enabled) (k.waitq e ∙ q.no_wait) (k.running ∙ q.running)
          no_group no_entry

    returns : enqueue t s ≡ run_task e t s₁
    returns = let y : ((s.task t).seqno == 0) ≡ true = rw q.fresh refl in rw y placed
