-- ===== src/Lifetime/Counting.antt =====
-- The reference count of an actor counts its events in the queue.
use tf_common.Common.{
  put, put-cases, ℕ, suc, ◌+◌, ◌<◌, ◌≡◌, ◌≢◌, refl, sym, ◌∙◌, inl, inr, Bool, true, false, List, [],
  ◌∷◌, ◌++◌, if◌then◌else◌, ◌==◌, arith, Bool-cases,
}
use mathlib.Core.Path.{subst}
use mathlib.Core.Bool.{false≢true}
use tf_common.Task.{is_empty}
use tf_common.Lifetime.{LifetimeActor, LifetimeManager, put_actor, enqueue, delete, delete_all}

-- How often an actor is in a queue.
abbrev pub count : ℕ → List ℕ → ℕ
count a [] = 0
count a (b ∷ queue) = (if a == b then 1 else 0) + count a queue

pub count-append : (a : ℕ) (q r : List ℕ) → count a (q ++ r) ≡ count a q + count a r
count-append a [] r = omega arith
count-append a (b ∷ q) r = omega (arith, count-append a q r)

pub count_same : (a : ℕ) → count a (a ∷ []) ≡ 1
count_same a = ground arith

pub count_other : (a b : ℕ) → b ≢ a → count b (a ∷ []) ≡ 0
count_other a b h = ground arith

-- An actor with n events: they are what its count says; there are none before it is deleted, and
-- one at least before it is shut down after that; it is destroyed only when it has none, nothing
-- depends on it and its deletion is not paused.
abbrev pub IsActor : LifetimeActor → ℕ → Type 0
IsActor x n =
    (x.refcount ≡ n)
    × (x.deleted ≡ false → n ≡ 0)
    × (x.deleted ≡ true → x.shutdown_invoked ≡ false → 0 < n)
    × (x.destroyed ≡ true
        → (n ≡ 0) × (is_empty x.dependents ≡ true) × (x.delete_paused ≡ false) × (x.deleted ≡ true))

-- The events of an actor in the queue, and those taken out and not done.
abbrev pub events : List ℕ → ℕ → LifetimeManager → ℕ
events extra a m = count a extra + count a m.queue

abbrev pub IsManager : List ℕ → LifetimeManager → Type 0
IsManager extra m = (a : ℕ) → IsActor (m.actor a) (events extra a m)

pub keep :
    (extra : List ℕ) (a : ℕ) (x : LifetimeActor) (m : LifetimeManager)
    → IsManager extra m
    → IsActor x (events extra a m)
    → IsManager extra (put_actor m a x)
keep extra a x m valid own b =
    put-cases (λ y. IsActor y (events extra b m)) m.actor a x b
      (λ e. subst (λ c. IsActor x (events extra c m)) (sym e) own) (λ _. valid b)

abbrev pub counted : LifetimeActor → LifetimeActor
counted x = record x { refcount = x.refcount + 1 }

pub enqueue-IsManager :
    (extra : List ℕ) (a : ℕ) (m : LifetimeManager)
    → ((b : ℕ) → b ≢ a → IsActor (m.actor b) (events extra b m))
    → IsActor (counted (m.actor a)) (suc (events extra a m))
    → IsManager extra (enqueue a m)
enqueue-IsManager extra a m others own b =
    put-cases (λ y. IsActor y (events extra b (enqueue a m))) m.actor a (counted (m.actor a)) b
      (λ e.
        let one : suc (events extra a m) ≡ events extra a (enqueue a m) =
          omega (arith, count-append a m.queue (a ∷ []), count_same a) in
        subst (λ c. IsActor (counted (m.actor a)) (events extra c (enqueue a m))) (sym e)
          (subst (IsActor (counted (m.actor a))) one own))
      (λ h.
        let same : events extra b m ≡ events extra b (enqueue a m) =
          omega (arith, count-append b m.queue (a ∷ []), count_other a b h) in
        subst (IsActor (m.actor b)) same (others b h))

pub push :
    (extra : List ℕ) (a : ℕ) (x : LifetimeActor) (m : LifetimeManager)
    → IsManager extra m
    → IsActor (counted x) (suc (events extra a m))
    → IsManager extra (enqueue a (put_actor m a x))
push extra a x m valid own =
    let there : x ≡ put m.actor a x a =
      put-cases (λ y. x ≡ y) m.actor a x a (λ _. refl) (λ h. absurd (h refl)) in
    enqueue-IsManager extra a (put_actor m a x)
      (λ b h.
        put-cases (λ y. IsActor y (events extra b m)) m.actor a x b (λ e. absurd (h e))
          (λ _. valid b))
      (subst (λ y. IsActor (counted y) (suc (events extra a m))) there own)

pub delete-IsManager :
    (extra : List ℕ) (a : ℕ) (m : LifetimeManager)
    → IsManager extra m
    → IsManager extra (delete a m)
unfolding delete
delete-IsManager extra a m valid =
    let x = m.actor a in
    let marked = put_actor m a (record x { deleted = true }) in
    let after : Bool → LifetimeManager = λ b. if b then m else enqueue a marked in
    let (refs, _, _, gone) = valid a in
    elim (Bool-cases x.deleted) [
      | inl d ↦ subst (λ b. IsManager extra (after b)) (sym d) valid
      | inr d ↦
          subst (λ b. IsManager extra (after b)) (sym d)
            (push extra a (record x { deleted = true }) m valid
              (
                omega arith,
                (λ e. absurd (false≢true (sym e))),
                (λ _ _. omega arith),
                (λ e. let (_, _, _, was) = gone e in absurd (false≢true (sym d ∙ was))),
              ))
    ]

pub delete_all-IsManager :
    (extra : List ℕ) (managed_delete : ℕ → ℕ) (refs : List ℕ) (m : LifetimeManager)
    → IsManager extra m
    → IsManager extra (delete_all managed_delete refs m)
unfolding delete_all
delete_all-IsManager extra managed_delete [] m valid = valid
delete_all-IsManager extra managed_delete (ref ∷ refs) m valid =
    delete_all-IsManager extra managed_delete refs (delete (managed_delete ref) m)
      (delete-IsManager extra (managed_delete ref) m valid)
