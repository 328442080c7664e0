-- ===== src/Task/Run.antt =====
-- Waiting, deferring and starting tasks: the methods of `TaskEntry` and `TaskGroup` in base/task.cc.
pub mod Frame
pub mod Exclusion
pub mod Start
use tf_common.Common.{
  ℕ, zero, suc, ◌+◌, ◌-◌, Bool, true, false, not, ◌&&◌, ◌||◌, Option, none, some, List, [], ◌∷◌,
  ◌++◌, if◌then◌else◌, ltb, ◌==◌, ◌!=◌, length,
}
use tf_common.Task.{
  Task, TaskEntry, TaskGroup, TaskScheduler, EntryRef, entry_of, Instance, any, inst, State,
  TbbState, same_entry, put_group, put_entry, put_task, ◌>>=◌, ◌>>◌, assert, is_none, is_empty,
  instance_of, id_of,
}

-- Counters of the statistics.
abbrev pub wait_counted : TaskGroup → TaskGroup
wait_counted g = record g { stats = record (g.stats) { wait_count = g.stats.wait_count + 1 } }

unfoldable pub add_to_wait_q : EntryRef → ℕ → TaskScheduler → TaskScheduler
add_to_wait_q e t s =
    let s₁ = put_task s t (record (s.task t) { state = State.wait }) in
    let old = s₁.entry e in
    let s₂ = put_entry s₁ e (record old {
      waitq = old.waitq ++ t ∷ [];
      stats = record (old.stats) { wait_count = old.stats.wait_count + 1 };
    }) in
    put_group s₂ (id_of e) (wait_counted (s₂.group (id_of e)))

pub remove_task : ℕ → List ℕ → List ℕ
remove_task t [] = []
remove_task t (u ∷ us) = if t == u then us else u ∷ remove_task t us

pub delete_from_wait_q : EntryRef → ℕ → TaskScheduler → TaskScheduler
unfolding remove_task
delete_from_wait_q e t s =
    put_entry s e (record (s.entry e) { waitq = remove_task t (s.entry e).waitq })

-- `GetTaskDeferEntrySeqno`: the seqno of the first waiting task, and the order of such keys.
pub defer_entry_seqno : TaskScheduler → EntryRef → Option ℕ
defer_entry_seqno s e = elim ((s.entry e).waitq) [ [] ↦ none | t ∷ _ ↦ some (s.task t).seqno ]

pub seqno_less : Option ℕ → Option ℕ → Bool
seqno_less none none = false
seqno_less none (some n) = true
seqno_less (some m) none = false
seqno_less (some m) (some n) = ltb m n

-- Insertion into the tree: nothing happens where an equivalent key is present.
unfoldable pub insert_deferred : TaskScheduler → EntryRef → List EntryRef → List EntryRef
unfolding defer_entry_seqno seqno_less
insert_deferred s e [] = e ∷ []
insert_deferred s e (f ∷ fs) =
    let rest = insert_deferred s e fs in
    if seqno_less (defer_entry_seqno s e) (defer_entry_seqno s f)
    then e ∷ f ∷ fs
    else (if seqno_less (defer_entry_seqno s f) (defer_entry_seqno s e) then f ∷ rest else f ∷ fs)

pub remove_entry : EntryRef → List EntryRef → List EntryRef
remove_entry e [] = []
remove_entry e (f ∷ fs) = if same_entry e f then fs else f ∷ remove_entry e fs

-- `AddToDeferQ` and `DeleteFromDeferQ` of a group and of an entry.
pub data Deferred : Type 0 where
  on_group : ℕ → Deferred
  on_entry : EntryRef → Deferred

pub deferq : TaskScheduler → Deferred → List EntryRef
deferq s (on_group g) = (s.group g).deferq
deferq s (on_entry d) = (s.entry d).deferq

abbrev pub is_on_group : ℕ → Option ℕ → Bool
is_on_group g none = false
is_on_group g (some h) = g == h

abbrev pub is_on_entry : EntryRef → Option EntryRef → Bool
is_on_entry d none = false
is_on_entry d (some f) = same_entry d f

-- The counting and the insertion of `AddToDeferQ`, and the removal of `DeleteFromDeferQ`.
unfoldable pub hook : Deferred → EntryRef → TaskScheduler → TaskScheduler
unfolding insert_deferred
hook (on_group g) e s =
    let old = s.group g in
    put_group s g (record old {
      stats = record (old.stats) { defer_count = old.stats.defer_count + 1 };
      deferq = insert_deferred s e old.deferq;
    })
hook (on_entry d) e s =
    let old = s.entry d in
    put_entry s d (record old {
      stats = record (old.stats) { defer_count = old.stats.defer_count + 1 };
      deferq = insert_deferred s e old.deferq;
    })

pub unhook : Deferred → EntryRef → TaskScheduler → TaskScheduler
unfolding remove_entry
unhook (on_group g) e s =
    put_group s g (record (s.group g) { deferq = remove_entry e (s.group g).deferq })
unhook (on_entry d) e s =
    put_entry s d (record (s.entry d) { deferq = remove_entry e (s.entry d).deferq })

-- The back pointer of an entry to the queue that holds it.
unfoldable pub is_free : Deferred → EntryRef → TaskScheduler → Bool
is_free (on_group g) e s = is_none (s.entry e).deferq_task_group
is_free (on_entry d) e s = is_none (s.entry e).deferq_task_entry

pub is_linked : Deferred → EntryRef → TaskScheduler → Bool
is_linked (on_group g) e s = is_on_group g (s.entry e).deferq_task_group
is_linked (on_entry d) e s = is_on_entry d (s.entry e).deferq_task_entry

unfoldable pub link : Deferred → EntryRef → TaskScheduler → TaskScheduler
link (on_group g) e s = put_entry s e (record (s.entry e) { deferq_task_group = some g })
link (on_entry d) e s = put_entry s e (record (s.entry e) { deferq_task_entry = some d })

pub unlink : Deferred → EntryRef → TaskScheduler → TaskScheduler
unlink (on_group g) e s = put_entry s e (record (s.entry e) { deferq_task_group = none })
unlink (on_entry d) e s = put_entry s e (record (s.entry e) { deferq_task_entry = none })

unfoldable pub add_to_defer_q : Deferred → EntryRef → TaskScheduler → Option TaskScheduler
unfolding hook is_free link
add_to_defer_q q e s = let s₁ = hook q e s in assert (is_free q e s₁) >> some (link q e s₁)

pub delete_from_defer_q : Deferred → EntryRef → TaskScheduler → Option TaskScheduler
unfolding unhook is_linked unlink
delete_from_defer_q q e s = assert (is_linked q e s) >> some (unlink q e (unhook q e s))

-- The first group, or entry, of a policy with running tasks.
unfoldable pub first_active_group : TaskScheduler → List ℕ → Option ℕ
first_active_group s [] = none
first_active_group s (g ∷ gs) =
    if (s.group g).run_count != 0 then some g else first_active_group s gs

unfoldable pub first_active_entry : TaskScheduler → List EntryRef → Option EntryRef
first_active_entry s [] = none
first_active_entry s (e ∷ es) =
    if (s.entry e).run_count != 0 then some e else first_active_entry s es

unfoldable pub active_group_in_policy : TaskScheduler → ℕ → Option ℕ
active_group_in_policy s g = first_active_group s (s.group g).policy

unfoldable pub active_entry_in_policy : TaskScheduler → EntryRef → Option EntryRef
active_entry_in_policy s e = first_active_entry s (s.entry e).policyq

-- The task waits already if the wait queue is not empty.
abbrev pub wait_if_first : EntryRef → ℕ → TaskScheduler → TaskScheduler
wait_if_first e t s = if is_empty (s.entry e).waitq then add_to_wait_q e t s else s

-- `DeferOnPolicyFail` of a group and of an entry: whether the entry was deferred, and the new state.
unfoldable pub defer_on_group : ℕ → EntryRef → ℕ → TaskScheduler → Option (Bool × TaskScheduler)
defer_on_group g e t s = elim (active_group_in_policy s g) [
  | none ↦ some (false, s)
  | some h ↦ add_to_defer_q (on_group h) e (wait_if_first e t s) >>= λ s'. some (true, s')
]

unfoldable pub defer_on_entry : EntryRef → ℕ → TaskScheduler → Option (Bool × TaskScheduler)
defer_on_entry e t s = elim (active_entry_in_policy s e) [
  | none ↦ some (false, s)
  | some d ↦ add_to_defer_q (on_entry d) e (wait_if_first e t s) >>= λ s'. some (true, s')
]

abbrev pub is_any : Instance → Bool
is_any any = true
is_any (inst _) = false

-- `Task::StartTask`.
unfoldable pub start_task : ℕ → TaskScheduler → Option TaskScheduler
start_task t s =
    assert (not (s.task t).has_impl)
    >> some (
        put_task s t (record (s.task t) {
          state = State.run;
          tbb_state = TbbState.tbb_enqueued;
          has_impl = true;
        }))

-- The counts that `RunTask` raises; the group's is that of the task's id (`TaskStarted`).
unfoldable pub count_started : EntryRef → ℕ → Bool → TaskScheduler → TaskScheduler
count_started e t any_instance s =
    let old = s.entry e in
    let s₁ = put_entry s e (record old {
      stats = record (old.stats) { run_count = old.stats.run_count + 1 };
      run_task = if any_instance then old.run_task else some t;
      run_count = old.run_count + 1;
    }) in
    let g = (s.task t).task_id in
    put_group s₁ g (record (s₁.group g) { run_count = (s₁.group g).run_count + 1 })

unfoldable pub run_task : EntryRef → ℕ → TaskScheduler → Option TaskScheduler
unfolding start_task count_started
run_task e t s =
    let old = s.entry e in
    let any_instance = is_any (s.task t).task_instance in
    assert (any_instance || (is_none old.run_task && (old.run_count == 0)))
    >> start_task t (count_started e t any_instance s)

-- The loop over the wait queue of an entry with instance -1.
pub run_all : EntryRef → List ℕ → TaskScheduler → Option TaskScheduler
run_all e [] s = some s
run_all e (t ∷ ts) s = run_task e t (delete_from_wait_q e t s) >>= run_all e ts

pub run_first : EntryRef → List ℕ → TaskScheduler → Option TaskScheduler
run_first e [] s = some s
run_first e (t ∷ ts) s = run_task e t (delete_from_wait_q e t s) >>= λ s'.
    if is_empty (s'.entry e).waitq then some s' else add_to_defer_q (on_entry e) e s'

pub run_wait_q : EntryRef → TaskScheduler → Option TaskScheduler
unfolding run_all run_first
run_wait_q e s =
    if is_any (instance_of e)
    then run_all e (s.entry e).waitq s
    else run_first e (s.entry e).waitq s

-- `RunDeferEntry` starts the first waiting task unless a policy forbids it.
pub run_waiting : EntryRef → ℕ → TaskScheduler → Option TaskScheduler
run_waiting e t s = defer_on_group (id_of e) e t s >>= λ (deferred, s₁).
    if deferred
    then some s₁
    else (defer_on_entry e t s₁ >>= λ (deferred, s₂). if deferred then some s₂ else run_wait_q e s₂)

pub run_defer_entry : EntryRef → TaskScheduler → Option TaskScheduler
unfolding run_waiting
run_defer_entry e s = elim ((s.entry e).waitq) [ [] ↦ none | t ∷ _ ↦ run_waiting e t s ]
