-- ===== src/Lifetime/Tests.antt =====
-- An actor with a dependent: both are deleted, the dependent first.
use tf_common.Common.{ℕ, ◌≡◌, refl, Bool, true, Option, none, some, List, [], ◌∷◌}
use mathlib.Core.Bool.{false≢true}
use tf_common.Lifetime.{
  LifetimeManager, Call, shutdown, delete_complete, destroy, new_manager, process, delete_executor,
  shut_down, propagate_delete, delete_all, delete, test_and_destroy,
}
use tf_common.Lifetime.Counting.{IsManager, delete-IsManager}
use tf_common.Lifetime.Executor.{process-IsManager}
use tf_common.Lifetime.Owners.{adds, step, step-IsManager}

start : IsManager [] new_manager
start a = (refl, (λ _. refl), (λ e. absurd (false≢true e)), (λ e. absurd (false≢true e)))

step-IsManager_example :
    (n : LifetimeManager) × (step (adds 7) 0 new_manager ≡ some n) × IsManager [] n
step-IsManager_example = step-IsManager (adds 7) 0 new_manager refl refl start

-- The reference 7 deletes the actor 1.
abbrev deleter : ℕ → ℕ
deleter _ = 1

abbrev deleted : LifetimeManager
deleted = delete 0 new_manager

deleted-IsManager : IsManager [] deleted
deleted-IsManager = delete-IsManager [] 0 new_manager start

process-IsManager_example :
    (r : Bool × LifetimeManager × List Call) × (process deleter true
        (λ _. true)
        deleted
        deleted.queue
      ≡ some r)
    × IsManager [] r.1
process-IsManager_example = process-IsManager deleter true (λ _. true) deleted deleted-IsManager

calls : Option (Bool × LifetimeManager × List Call) → List Call
calls none = []
calls (some r) = r.2

destroyed :
    calls (process deleter true (λ _. true) deleted deleted.queue)
    ≡ shutdown 0 ∷ delete_complete 0 ∷ destroy 0 ∷ []
unfolding calls process delete_executor shut_down propagate_delete delete_all delete
    test_and_destroy
destroyed = refl
