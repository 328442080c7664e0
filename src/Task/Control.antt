-- ===== src/Task/Control.antt =====
-- Policies, cancellation and the enabling of groups and entries: `SetPolicy`, `Cancel`,
-- `DisableTaskGroup` and its companions in base/task.cc.
pub mod Policy
pub mod Exclusion
pub mod Entered
use tf_common.Common.{
  ℕ, zero, suc, ◌+◌, Bool, true, false, not, ◌&&◌, ◌||◌, Option, none, some, List, [], ◌∷◌, ◌++◌,
  if◌then◌else◌, ◌==◌, ◌!=◌,
}
use tf_common.Task.{
  Task, TaskEntry, TaskGroup, TaskScheduler, EntryRef, entry_of, disable_entry, Instance, any, inst,
  State, put_group, put_entry, put_task, ◌>>=◌, ◌>>◌, assert, is_none, is_empty, instance_of, id_of,
}
use tf_common.Task.Run.{
  Deferred, on_group, on_entry, delete_from_wait_q, add_to_defer_q, delete_from_defer_q,
  run_defer_entry,
}
use tf_common.Task.Scheduler.{get_task_entry, run_defer_q}

-- `TaskExclusion`: a task id, and an instance or -1.
pub record TaskExclusion : Type 0 where
  pub match_id : ℕ
  pub match_instance : Instance

pub add_group_policy : ℕ → ℕ → TaskScheduler → TaskScheduler
add_group_policy g h s =
    put_group s g (record (s.group g) { policy = (s.group g).policy ++ h ∷ [] })

pub add_entry_policy : EntryRef → EntryRef → TaskScheduler → TaskScheduler
add_entry_policy e f s =
    put_entry s e (record (s.entry e) { policyq = (s.entry e).policyq ++ f ∷ [] })

-- A rule and its mirror image.
pub exclude_groups : ℕ → ℕ → TaskScheduler → TaskScheduler
unfolding add_group_policy
exclude_groups g h s = add_group_policy h g (add_group_policy g h s)

pub exclude_entries : EntryRef → EntryRef → TaskScheduler → TaskScheduler
unfolding add_entry_policy
exclude_entries e f s = add_entry_policy f e (add_entry_policy e f s)

-- One rule of a policy, and the policy.
pub apply_exclusion : ℕ → TaskExclusion → TaskScheduler → TaskScheduler
unfolding exclude_groups exclude_entries
apply_exclusion g rule s = elim (rule.match_instance) [
  | any ↦ exclude_groups g rule.match_id s
  | inst n ↦
      let s₁ = get_task_entry rule.match_id (inst n) (get_task_entry g (inst n) s) in
      exclude_entries (entry_of g any) (entry_of rule.match_id (inst n))
        (exclude_entries (entry_of g (inst n)) (entry_of rule.match_id (inst n)) s₁)
]

pub apply_policy : ℕ → List TaskExclusion → TaskScheduler → TaskScheduler
unfolding apply_exclusion
apply_policy g [] s = s
apply_policy g (rule ∷ rules) s = apply_policy g rules (apply_exclusion g rule s)

pub set_policy : ℕ → List TaskExclusion → TaskScheduler → Option TaskScheduler
unfolding apply_policy
set_policy g policy s =
    assert (not (s.group g).policy_set)
    >> some (apply_policy g policy (put_group s g (record (s.group g) { policy_set = true })))

pub data CancelReturnCode : Type 0 where
  cancelled failed queued : CancelReturnCode

abbrev pub is_first : ℕ → List ℕ → Bool
is_first t [] = false
is_first t (u ∷ _) = t == u

-- The queue that holds an entry whose wait queue has lost its first task, by its back pointers.
pub held_in : EntryRef → TaskScheduler → Option Deferred
held_in e s = elim ((s.entry e).deferq_task_group) [
  | some h ↦ some (on_group h)
  | none ↦ elim ((s.entry e).deferq_task_entry) [
    | some d ↦ some (on_entry d)
    | none ↦ if (s.group (id_of e)).disable then some (on_entry (disable_entry (id_of e))) else none
  ]
]

-- Both back pointers at once fail an assert.
abbrev pub one_queue : EntryRef → TaskScheduler → Bool
one_queue e s = is_none (s.entry e).deferq_task_group || is_none (s.entry e).deferq_task_entry

-- The entry leaves its queue, and with `again` enters it by its new key.
pub move : Deferred → Bool → EntryRef → TaskScheduler → Option TaskScheduler
move q again e s =
    delete_from_defer_q q e s >>= λ s'. if again then add_to_defer_q q e s' else some s'

pub leave : Bool → EntryRef → TaskScheduler → Option TaskScheduler
unfolding held_in move
leave again e s = assert (one_queue e s) >> elim (held_in e s) [
  | some q ↦ move q again e s
  | none ↦ assert (s.entry e).disable >> some s
]

-- A cancelled task that waits is deleted; one that runs is marked.
pub cancel_waiting : ℕ → EntryRef → TaskScheduler → Option (CancelReturnCode × TaskScheduler)
unfolding leave
cancel_waiting t e s =
    let s₁ = delete_from_wait_q e t s in
    let was_first = is_first t (s.entry e).waitq in
    let moved =
      if is_empty (s₁.entry e).waitq
      then leave false e s₁
      else (if was_first then leave true e s₁ else some s₁) in
    assert (not (is_empty (s.entry e).waitq))
    >> (moved >>= λ s₂. some (cancelled, record s₂ { cancel_count = s₂.cancel_count + 1 }))

pub cancel : ℕ → TaskScheduler → Option (CancelReturnCode × TaskScheduler)
unfolding cancel_waiting
cancel t s = elim ((s.task t).state) [
  | State.run ↦ some (queued, put_task s t (record (s.task t) { task_cancel = true }))
  | State.wait ↦ cancel_waiting t (entry_of (s.task t).task_id (s.task t).task_instance) s
  | State.init ↦ some (failed, s)
]

-- `AddEntriesToDisableQ`: the entries of the group with waiting tasks, instance -1 first.
pub add_to_disable_q : ℕ → EntryRef → TaskScheduler → Option TaskScheduler
add_to_disable_q g e s =
    if is_empty (s.entry e).waitq then some s else add_to_defer_q (on_entry (disable_entry g)) e s

pub add_instances_to_disable_q : ℕ → List ℕ → TaskScheduler → Option TaskScheduler
unfolding add_to_disable_q
add_instances_to_disable_q g [] s = some s
add_instances_to_disable_q g (n ∷ ns) s =
    add_to_disable_q g (entry_of g (inst n)) s >>= add_instances_to_disable_q g ns

-- This and the three after it take no mutex in the code; each is one step here.
pub disable_task_group : ℕ → TaskScheduler → Option TaskScheduler
unfolding add_instances_to_disable_q
disable_task_group g s =
    let s₁ = put_group s g (record (s.group g) { disable = true }) in
    if (s.group g).disable
    then some s
    else (add_to_disable_q g (entry_of g any) s₁
        >>= add_instances_to_disable_q g (s.group g).instances)

pub enable_task_group : ℕ → TaskScheduler → Option TaskScheduler
enable_task_group g s =
    run_defer_q (on_entry (disable_entry g)) true
      (put_group s g (record (s.group g) { disable = false }))

pub disable_task_entry : ℕ → Instance → TaskScheduler → TaskScheduler
disable_task_entry g i s =
    let s₁ = get_task_entry g i s in
    put_entry s₁ (entry_of g i) (record (s₁.entry (entry_of g i)) { disable = true })

pub enable_task_entry : ℕ → Instance → TaskScheduler → Option TaskScheduler
enable_task_entry g i s =
    let s₁ = get_task_entry g i s in
    let e = entry_of g i in
    let s₂ = put_entry s₁ e (record (s₁.entry e) { disable = false }) in
    if (s₂.group g).disable
    then some s₂
    else (if is_empty (s₂.entry e).waitq then some s₂ else run_defer_entry e s₂)
