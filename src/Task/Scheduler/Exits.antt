-- ===== src/Task/Scheduler/Exits.antt =====
-- The exit of a task lowers run counts and runs deferred entries.
use tf_common.Common.{ℕ, ◌≤◌, ◌≡◌, refl, ◌∙◌, ◌⊎◌, inl, inr, false, arith, Bool-cases, ◌==◌}
use tf_common.Task.{TaskScheduler, EntryRef, entry_of, inst}
use tf_common.Task.Run.{on_group, on_entry}
use tf_common.Task.Run.Frame.{owner, same_entry_iff, Ensures, Ensures-assert}
use tf_common.Task.Run.Exclusion.{Exclusive}
use tf_common.Task.Scheduler.{
  first_of, run_combined_defer_q, count_exited, run_after_exit, task_exited,
}
use tf_common.Task.Scheduler.Walks.{run_defer_q-Exclusive, walk_both-Exclusive}

-- Lower run counts, with the rest of the policies and the wait queues kept.
pub record Lower (s s' : TaskScheduler) : Type 0 where
  pub group_runs : (g : ℕ) → (s'.group g).run_count ≤ (s.group g).run_count
  pub group_policy : (g : ℕ) → (s'.group g).policy ≡ (s.group g).policy
  pub entry_runs : (e : EntryRef) → (s'.entry e).run_count ≤ (s.entry e).run_count
  pub entry_policy : (e : EntryRef) → (s'.entry e).policyq ≡ (s.entry e).policyq
  pub owners : (t : ℕ) → owner s' t ≡ owner s t
  pub queues : (e : EntryRef) → (s'.entry e).waitq ≡ (s.entry e).waitq

both_idle : (a b c d : ℕ) → a ≤ c → b ≤ d → (c ≡ 0) ⊎ (d ≡ 0) → (a ≡ 0) ⊎ (b ≡ 0)
both_idle a b c d h k (inl z) = inl (omega arith)
both_idle a b c d h k (inr z) = inr (omega arith)

Lower-Exclusive : {s s' : TaskScheduler} → Lower s s' → Exclusive s → Exclusive s'
Lower-Exclusive {s} {s'} f x = record {
  groups = λ g h m ne.
      both_idle _ _ (s.group g).run_count (s.group h).run_count (f.group_runs g) (f.group_runs h)
        (x.groups g h (rw (f.group_policy g) at m) ne);
  entries = λ e d m ne.
      both_idle _ _ (s.entry e).run_count (s.entry d).run_count (f.entry_runs e) (f.entry_runs d)
        (x.entries e d (rw (f.entry_policy e) at m) ne);
  serial = λ g n. let a = f.entry_runs (entry_of g (inst n)) in let b = x.serial g n in omega arith;
  own = λ g n. rw (f.entry_policy (entry_of g (inst n))) (x.own g n);
  group_symmetric =
      λ g h m. rw (f.group_policy h) (x.group_symmetric g h (rw (f.group_policy g) at m));
  entry_symmetric =
      λ e d m. rw (f.entry_policy d) (x.entry_symmetric e d (rw (f.entry_policy e) at m));
  waiting = λ e t m. f.owners t ∙ x.waiting e t (rw (f.queues e) at m);
}

count_exited-Lower : (e : EntryRef) (g : ℕ) (s : TaskScheduler) → Lower s (count_exited e g s)
unfolding count_exited
count_exited-Lower e g s = record {
  group_runs = λ h. ground arith;
  group_policy = λ h. ground arith;
  entry_runs = λ f. ground (arith, same_entry_iff e f);
  entry_policy = λ f. ground (arith, same_entry_iff e f);
  owners = λ t. refl;
  queues = λ f. ground (arith, same_entry_iff e f);
}

run_after_exit-Exclusive :
    (e : EntryRef) (g : ℕ) (s : TaskScheduler)
    → Exclusive s
    → Ensures Exclusive (run_after_exit e g s)
unfolding run_after_exit run_combined_defer_q
run_after_exit-Exclusive e g s x = elim (Bool-cases ((s.group g).run_count == 0)) [
  | inl a ↦ elim (Bool-cases ((s.entry e).run_count == 0)) [
    | inl b ↦
        rw (a, b)
          (walk_both-Exclusive _ (on_group g) (on_entry e) (first_of (s.group g).deferq)
            (first_of (s.entry e).deferq) s x)
    | inr b ↦ rw (a, b) (run_defer_q-Exclusive (on_group g) false s x)
  ]
  | inr a ↦ elim (Bool-cases ((s.entry e).run_count == 0)) [
    | inl b ↦ rw (a, b) (run_defer_q-Exclusive (on_entry e) false s x)
    | inr b ↦ rw (a, b) x
  ]
]

pub task_exited-Exclusive :
    (e : EntryRef) (g t : ℕ) (s : TaskScheduler)
    → Exclusive s
    → Ensures Exclusive (task_exited e g t s)
unfolding task_exited
task_exited-Exclusive e g t s x =
    Ensures-assert Exclusive _ (run_after_exit e g (count_exited e g s)) (λ _.
      run_after_exit-Exclusive e g (count_exited e g s)
        (Lower-Exclusive (count_exited-Lower e g s) x))
