-- ===== src/Task.antt =====
-- base/task.h and base/task.cc: the records of the task scheduler and the queues they hold.
-- A `Task *` is a number, a `TaskGroup *` its task id, and a `TaskEntry *` an `EntryRef`; the store
-- maps these to records, with a new record where the code has not created one yet.
-- An `assert` that fails is `none`. Latency thresholds, logging and the TBB handle's contents are
-- left out; `has_impl` says whether `task_impl_` is set.
pub mod Run
pub mod Scheduler
pub mod Control
pub mod Reachable
mod Tests
use tf_common.Common.{
  ap, ◌∙◌, ℕ, zero, suc, ◌+◌, Bool, true, false, ◌&&◌, Option, none, some, List, [], ◌∷◌, ◌++◌, ◌≡◌,
  ◌↔◌, refl, arith, if◌then◌else◌, ltb, ◌==◌, ◌!=◌,
}

pub data State : Type 0 where
  init wait run : State

pub data TbbState : Type 0 where
  tbb_init tbb_enqueued tbb_exec tbb_done : TbbState

-- The instance of a task: -1, or an id.
pub data Instance : Type 0 where
  any : Instance
  inst : ℕ → Instance

pub record Task : Type 0 where
  pub task_id : ℕ
  pub task_instance : Instance
  pub has_impl : Bool
  pub state : State
  pub tbb_state : TbbState
  pub seqno : ℕ
  pub task_recycle : Bool
  pub task_cancel : Bool

-- The entry of an instance of a task id, the disable entry of a group, and the stop entry.
pub data EntryRef : Type 0 where
  entry_of : ℕ → Instance → EntryRef
  disable_entry : ℕ → EntryRef
  stop_entry : EntryRef

abbrev pub same_instance : Instance → Instance → Bool
same_instance any any = true
same_instance any (inst m) = false
same_instance (inst n) any = false
same_instance (inst n) (inst m) = n == m

abbrev pub same_entry : EntryRef → EntryRef → Bool
same_entry (entry_of g i) (entry_of h j) = (g == h) && same_instance i j
same_entry (entry_of g i) (disable_entry h) = false
same_entry (entry_of g i) stop_entry = false
same_entry (disable_entry g) (entry_of h j) = false
same_entry (disable_entry g) (disable_entry h) = g == h
same_entry (disable_entry g) stop_entry = false
same_entry stop_entry (entry_of h j) = false
same_entry stop_entry (disable_entry h) = false
same_entry stop_entry stop_entry = true

-- The counters of `TaskStats`.
pub record TaskStats : Type 0 where
  pub wait_count : ℕ
  pub run_count : ℕ
  pub defer_count : ℕ
  pub enqueue_count : ℕ
  pub total_tasks_completed : ℕ

abbrev pub no_stats : TaskStats
no_stats = record {
  wait_count = 0;
  run_count = 0;
  defer_count = 0;
  enqueue_count = 0;
  total_tasks_completed = 0;
}

-- A queue of deferred entries hangs on a group or on an entry.
pub record TaskEntry : Type 0 where
  pub run_count : ℕ
  pub run_task : Option ℕ
  pub waitq : List ℕ
  pub policyq : List EntryRef
  pub deferq : List EntryRef
  pub deferq_task_entry : Option EntryRef
  pub deferq_task_group : Option ℕ
  pub disable : Bool
  pub stats : TaskStats

pub record TaskGroup : Type 0 where
  pub policy_set : Bool
  pub run_count : ℕ
  pub policy : List ℕ
  pub deferq : List EntryRef
  pub instances : List ℕ
  pub disable : Bool
  pub stats : TaskStats

pub record TaskScheduler : Type 0 where
  pub group : ℕ → TaskGroup
  pub entry : EntryRef → TaskEntry
  pub task : ℕ → Task
  pub running : Bool
  pub seqno : ℕ
  pub enqueue_count : ℕ
  pub done_count : ℕ
  pub cancel_count : ℕ

-- The constructors. An entry with an instance starts with a rule against itself.
abbrev pub new_entry : EntryRef → TaskEntry
new_entry (entry_of g (inst n)) = record {
  run_count = 0;
  run_task = none;
  waitq = [];
  policyq = entry_of g (inst n) ∷ [];
  deferq = [];
  deferq_task_entry = none;
  deferq_task_group = none;
  disable = false;
  stats = no_stats;
}
new_entry _ = record {
  run_count = 0;
  run_task = none;
  waitq = [];
  policyq = [];
  deferq = [];
  deferq_task_entry = none;
  deferq_task_group = none;
  disable = false;
  stats = no_stats;
}

abbrev pub new_group : TaskGroup
new_group = record {
  policy_set = false;
  run_count = 0;
  policy = [];
  deferq = [];
  instances = [];
  disable = false;
  stats = no_stats;
}

abbrev pub new_task : ℕ → Instance → Task
new_task id i = record {
  task_id = id;
  task_instance = i;
  has_impl = false;
  state = init;
  tbb_state = tbb_init;
  seqno = 0;
  task_recycle = false;
  task_cancel = false;
}

abbrev pub new_scheduler : (ℕ → Task) → TaskScheduler
new_scheduler tasks = record {
  group = λ _. new_group;
  entry = new_entry;
  task = tasks;
  running = true;
  seqno = 0;
  enqueue_count = 0;
  done_count = 0;
  cancel_count = 0;
}

-- A write through a pointer.
abbrev pub put_group : TaskScheduler → ℕ → TaskGroup → TaskScheduler
put_group s g v = record s { group = λ h. if g == h then v else s.group h }

abbrev pub put_entry : TaskScheduler → EntryRef → TaskEntry → TaskScheduler
put_entry s e v = record s { entry = λ f. if same_entry e f then v else s.entry f }

abbrev pub put_task : TaskScheduler → ℕ → Task → TaskScheduler
put_task s t v = record s { task = λ u. if t == u then v else s.task u }

-- Failing asserts.
infixl 5 ◌>>=◌ ◌>>◌
abbrev pub ◌>>=◌ {ℓ κ} : {A : Type ℓ} {B : Type κ} → Option A → (A → Option B) → Option B
none >>= f = none
some a >>= f = f a

abbrev pub ◌>>◌ {ℓ} : {B : Type ℓ} → Option (Unit {0}) → Option B → Option B
m >> k = m >>= λ _. k

abbrev pub assert : Bool → Option (Unit {0})
assert true = some tt
assert false = none

pub opens :
    {A B : Type 0} (f : A → Option B) {m : Option A} {a : A} {b : Option B}
    → m ≡ some a
    → f a ≡ b
    → (m >>= f) ≡ b
opens f e d = ap (λ o. o >>= f) e ∙ d

pub passes : {A : Type 0} {b : Bool} {m d : Option A} → b ≡ true → m ≡ d → (assert b >> m) ≡ d
passes {m = m} e g = ap (λ t. assert t >> m) e ∙ g

abbrev pub is_none {ℓ} : {A : Type ℓ} → Option A → Bool
is_none none = true
is_none (some _) = false

abbrev pub is_empty {ℓ} : {A : Type ℓ} → List A → Bool
is_empty [] = true
is_empty (_ ∷ _) = false

-- `task_instance_` of an entry; the stop and disable entries have -1.
abbrev pub instance_of : EntryRef → Instance
instance_of (entry_of g i) = i
instance_of (disable_entry g) = any
instance_of stop_entry = any

-- `task_id_` of an entry. The stop entry has -1, which no path below reads.
abbrev pub id_of : EntryRef → ℕ
id_of (entry_of g i) = g
id_of (disable_entry g) = g
id_of stop_entry = 0
