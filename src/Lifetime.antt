-- ===== src/Lifetime.antt =====
-- base/lifetime.h and base/lifetime.cc: actors whose deletion waits for their dependents, and the
-- manager whose queue holds the events of their deletion. Actors and their references are numbers;
-- `managed_delete` names the actor that a reference deletes. `MayDelete` and `MayDestroy` are
-- arguments, the hooks that a subclass overrides are returned as calls, a failed assert is `none`,
-- and time stamps are left out. Each operation runs under the actor's mutex.
pub mod Counting
pub mod Executor
pub mod Owners
mod Tests
use tf_common.Common.{
  put, ℕ, ◌+◌, ◌-◌, Bool, true, false, not, ◌&&◌, Option, some, List, [], ◌∷◌, ◌++◌, if◌then◌else◌,
  ◌==◌,
}
use tf_common.Task.{◌>>=◌, ◌>>◌, assert, is_empty}

-- `destroyed` tells that `Destroy` was called.
pub record LifetimeActor : Type 0 where
  pub deleted : Bool
  pub refcount : ℕ
  pub shutdown_invoked : Bool
  pub delete_paused : Bool
  pub dependents : List ℕ
  pub destroyed : Bool

pub record LifetimeManager : Type 0 where
  pub actor : ℕ → LifetimeActor
  pub queue : List ℕ
  pub defer_count : ℕ

pub data Call : Type 0 where
  shutdown delete_complete destroy : ℕ → Call

abbrev pub new_actor : LifetimeActor
new_actor = record {
  deleted = false;
  refcount = 0;
  shutdown_invoked = false;
  delete_paused = false;
  dependents = [];
  destroyed = false;
}

abbrev pub new_manager : LifetimeManager
new_manager = record { actor = λ _. new_actor; queue = []; defer_count = 0 }

abbrev pub put_actor : LifetimeManager → ℕ → LifetimeActor → LifetimeManager
put_actor m a x = record m { actor = put m.actor a x }

abbrev pub enqueue_no_increment : ℕ → LifetimeManager → LifetimeManager
enqueue_no_increment a m = record m { queue = m.queue ++ a ∷ [] }

abbrev pub reference_increment : ℕ → LifetimeManager → LifetimeManager
reference_increment a m = put_actor m a (record (m.actor a) { refcount = (m.actor a).refcount + 1 })

abbrev pub enqueue : ℕ → LifetimeManager → LifetimeManager
enqueue a m = enqueue_no_increment a (reference_increment a m)

unfoldable pub delete : ℕ → LifetimeManager → LifetimeManager
delete a m =
    let marked = put_actor m a (record (m.actor a) { deleted = true }) in
    if (m.actor a).deleted then m else enqueue a marked

unfoldable pub delete_all : (ℕ → ℕ) → List ℕ → LifetimeManager → LifetimeManager
delete_all managed_delete [] m = m
delete_all managed_delete (ref ∷ refs) m =
    delete_all managed_delete refs (delete (managed_delete ref) m)

unfoldable pub propagate_delete : (ℕ → ℕ) → ℕ → LifetimeManager → Option LifetimeManager
propagate_delete managed_delete a m =
    assert (m.actor a).deleted >> some (delete_all managed_delete (m.actor a).dependents m)

unfoldable pub retry_delete : ℕ → LifetimeManager → Option LifetimeManager
retry_delete a m = assert (m.actor a).deleted >> some (enqueue a m)

unfoldable pub pause_delete : ℕ → LifetimeManager → Option LifetimeManager
pause_delete a m =
    assert (not (m.actor a).deleted)
    >> some (put_actor m a (record (m.actor a) { delete_paused = true }))

unfoldable pub resume_delete : ℕ → LifetimeManager → Option LifetimeManager
resume_delete a m =
    assert (m.actor a).deleted
    >> some (enqueue a (put_actor m a (record (m.actor a) { delete_paused = false })))

unfoldable pub dependency_add : ℕ → ℕ → LifetimeManager → Option LifetimeManager
dependency_add a ref m =
    assert (not (m.actor a).deleted)
    >> some (put_actor m a (record (m.actor a) { dependents = (m.actor a).dependents ++ ref ∷ [] }))

abbrev pub remove : ℕ → List ℕ → List ℕ
remove ref [] = []
remove ref (r ∷ refs) = if r == ref then refs else r ∷ remove ref refs

unfoldable pub dependency_remove : ℕ → ℕ → LifetimeManager → LifetimeManager
dependency_remove a ref m =
    let left = remove ref (m.actor a).dependents in
    let removed = put_actor m a (record (m.actor a) { dependents = left }) in
    if (m.actor a).deleted && is_empty left then enqueue a removed else removed

-- `ReferenceDecrementAndTest`, and what follows it.
unfoldable pub test_and_destroy : (ℕ → Bool) → ℕ → LifetimeManager → LifetimeManager × List Call
test_and_destroy may_delete a m =
    let x = m.actor a in
    let left = x.refcount - 1 in
    let last = left == 0 && (is_empty x.dependents && (not x.delete_paused && may_delete a)) in
    (
      put_actor m a (record x { refcount = left; destroyed = if last then true else x.destroyed }),
      if last then delete_complete a ∷ destroy a ∷ [] else [],
    )

-- The first event of an actor shuts it down.
unfoldable pub shut_down : (ℕ → ℕ) → ℕ → LifetimeManager → Option (LifetimeManager × List Call)
shut_down managed_delete a m =
    let invoked = propagate_delete managed_delete a m >>= λ n.
    some (put_actor n a (record (n.actor a) { shutdown_invoked = true }), shutdown a ∷ []) in
    if (m.actor a).shutdown_invoked then some (m, []) else invoked

unfoldable pub delete_executor :
    (ℕ → ℕ) → Bool → (ℕ → Bool) → ℕ → LifetimeManager → Option (Bool × LifetimeManager × List Call)
delete_executor managed_delete may_destroy may_delete a m =
    assert (m.actor a).deleted
    >> (shut_down managed_delete a m >>= λ (n, calls).
        let deferred = record (enqueue_no_increment a n) { defer_count = n.defer_count + 1 } in
        let (tested, more) = test_and_destroy may_delete a n in
        some (
          may_destroy,
          if may_destroy then tested else deferred,
          calls ++ (if may_destroy then more else []),
        ))

-- The queue's task takes an event.
unfoldable pub process :
    (ℕ → ℕ)
    → Bool
    → (ℕ → Bool)
    → LifetimeManager
    → List ℕ
    → Option (Bool × LifetimeManager × List Call)
process managed_delete may_destroy may_delete m [] = some (true, m, [])
process managed_delete may_destroy may_delete m (a ∷ queue) =
    delete_executor managed_delete may_destroy may_delete a (record m { queue = queue })
