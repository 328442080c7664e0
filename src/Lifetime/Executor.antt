-- ===== src/Lifetime/Executor.antt =====
-- The manager's task keeps the counts, and destroys an actor when nothing refers to it.
use tf_common.Common.{
  put-cases, ℕ, suc, ◌+◌, ◌-◌, ◌≡◌, ◌≢◌, refl, sym, ap, ◌∙◌, inl, inr, Bool, true, false, not, ◌&&◌,
  Option, some, List, [], ◌∷◌, ◌++◌, if◌then◌else◌, ◌==◌, arith, Bool-cases,
}
use mathlib.Core.Path.{subst}
use mathlib.Core.Bool.{false≢true}
use tf_common.Task.{◌>>=◌, ◌>>◌, assert, is_empty, passes, opens}
use tf_common.Lifetime.{
  LifetimeManager, Call, shutdown, put_actor, enqueue_no_increment, delete_all, propagate_delete,
  shut_down, test_and_destroy, delete_executor, process,
}
use tf_common.Lifetime.Counting.{
  count, count-append, count_same, count_other, IsActor, events, IsManager, keep,
  delete_all-IsManager,
}

and-true : (a b : Bool) → (a && b) ≡ true → (a ≡ true) × (b ≡ true)
and-true true b e = (refl, e)
and-true false b e = absurd (false≢true e)

not-true : (b : Bool) → not b ≡ true → b ≡ false
not-true false e = refl
not-true true e = absurd (false≢true e)

test_and_destroy-IsManager :
    (may_delete : ℕ → Bool) (a : ℕ) (m : LifetimeManager)
    → IsManager (a ∷ []) m
    → (m.actor a).shutdown_invoked ≡ true
    → IsManager [] (test_and_destroy may_delete a m).0
unfolding test_and_destroy
test_and_destroy-IsManager may_delete a m valid shut b =
    let x = m.actor a in
    let left = x.refcount - 1 in
    let rest = is_empty x.dependents && (not x.delete_paused && may_delete a) in
    let last = left == 0 && rest in
    let tested = record x { refcount = left; destroyed = if last then true else x.destroyed } in
    let (refs, alive, _, gone) = valid a in
    let one : events (a ∷ []) a m ≡ suc (count a m.queue) = omega (arith, count_same a) in
    let same : left ≡ events [] a m = omega arith in
    let some_left : x.deleted ≡ false → ⊥ = λ d. let none_left = alive d in omega arith in
    let is_deleted : x.deleted ≡ true = elim (Bool-cases x.deleted) [
      | inl d ↦ d
      | inr d ↦ absurd (some_left d)
    ] in
    let ends : last ≡ true
        → (events [] a m ≡ 0)
          × (is_empty x.dependents ≡ true)
          × (x.delete_paused ≡ false)
          × (x.deleted ≡ true) =
      λ l.
        let (zero_left, more) = and-true (left == 0) rest l in
        let (empty, others) =
          and-true (is_empty x.dependents) (not x.delete_paused && may_delete a) more in
        let (free, _) = and-true (not x.delete_paused) (may_delete a) others in
        let no_more : left ≡ 0 = ground arith in
        (omega arith, empty, not-true x.delete_paused free, is_deleted) in
    let own : IsActor tested (events [] a m) = (
      same,
      (λ d. absurd (some_left d)),
      (λ _ s. absurd (false≢true (sym s ∙ shut))),
      (λ d. elim (Bool-cases last) [
        | inl l ↦ ends l
        | inr l ↦
            let (none_left, _, _, _) =
              gone (ap (λ k. if k then true else x.destroyed) (sym l) ∙ d) in
            absurd (omega arith)
      ]),
    ) in
    let others : b ≢ a → events (a ∷ []) b m ≡ events [] b m =
      λ h. omega (arith, count_other a b h) in
    put-cases (λ y. IsActor y (events [] b m)) m.actor a tested b
      (λ e. subst (λ c. IsActor tested (events [] c m)) (sym e) own)
      (λ h. subst (IsActor (m.actor b)) (others h) (valid b))

-- The first event of an actor is passed on to its dependents; the actor is then shut down.
pub shut_down-IsManager :
    (managed_delete : ℕ → ℕ) (a : ℕ) (m : LifetimeManager)
    → (m.actor a).deleted ≡ true
    → IsManager (a ∷ []) m
    → (r : LifetimeManager × List Call) × (shut_down managed_delete a m ≡ some r)
      × IsManager (a ∷ []) r.0
      × ((r.0.actor a).shutdown_invoked ≡ true)
unfolding shut_down propagate_delete
shut_down-IsManager managed_delete a m deleted valid =
    let x = m.actor a in
    let n = delete_all managed_delete x.dependents m in
    let valid' = delete_all-IsManager (a ∷ []) managed_delete x.dependents m valid in
    let y = record (n.actor a) { shutdown_invoked = true } in
    let (refs, alive, _, gone) = valid' a in
    let invoked : Bool → Option (LifetimeManager × List Call) = λ b. (assert b >> some n) >>= λ k.
    some (put_actor k a (record (k.actor a) { shutdown_invoked = true }), shutdown a ∷ []) in
    let split : Bool → Option (LifetimeManager × List Call) =
      λ b. if b then some (m, []) else invoked x.deleted in
    elim (Bool-cases x.shutdown_invoked) [
      | inl s ↦ ((m, []), ap split s, valid, s)
      | inr s ↦ (
        (put_actor n a y, shutdown a ∷ []),
        ap split s ∙ ap invoked deleted,
        keep (a ∷ []) a y n valid' (refs, alive, (λ _ e. absurd (false≢true (sym e))), gone),
        put-cases (λ z. z.shutdown_invoked ≡ true) n.actor a y a (λ _. refl) (λ h. absurd (h refl)),
      )
    ]

-- The event that was taken goes to the end of the queue again.
deferred-IsManager :
    (a : ℕ) (m : LifetimeManager)
    → IsManager (a ∷ []) m
    → IsManager [] (record (enqueue_no_increment a m) { defer_count = m.defer_count + 1 })
deferred-IsManager a m valid b =
    let same : events (a ∷ []) b m ≡ 0 + count b (m.queue ++ a ∷ []) =
      omega (arith, count-append b m.queue (a ∷ [])) in
    subst (IsActor (m.actor b)) same (valid b)

executed :
    (managed_delete : ℕ → ℕ) (may_destroy : Bool) (may_delete : ℕ → Bool) (a : ℕ)
    (m : LifetimeManager)
    → IsManager (a ∷ []) m
    → (r : Bool × LifetimeManager × List Call) × (delete_executor managed_delete may_destroy
          may_delete a m
        ≡ some r)
      × IsManager [] r.1
unfolding delete_executor
executed managed_delete may_destroy may_delete a m valid =
    let (_, alive, _, _) = valid a in
    let deleted : (m.actor a).deleted ≡ true = elim (Bool-cases (m.actor a).deleted) [
      | inl d ↦ d
      | inr d ↦ let none_left = alive d in absurd (omega (arith, count_same a))
    ] in
    let ((n, calls), e, valid', shut) = shut_down-IsManager managed_delete a m deleted valid in
    let tested = test_and_destroy may_delete a n in
    let deferred = record (enqueue_no_increment a n) { defer_count = n.defer_count + 1 } in
    let both : (b : Bool) → IsManager [] (if b then tested.0 else deferred) = λ b.
      elim b as (λ k. IsManager [] (if k then tested.0 else deferred)) [
        | true ↦ test_and_destroy-IsManager may_delete a n valid' shut
        | false ↦ deferred-IsManager a n valid'
      ] in
    (_, passes deleted (opens _ e refl), both may_destroy)

executed_at :
    (managed_delete : ℕ → ℕ) (may_destroy : Bool) (may_delete : ℕ → Bool) (m : LifetimeManager)
    (queue : List ℕ)
    → IsManager [] (record m { queue = queue })
    → (r : Bool × LifetimeManager × List Call) × (process managed_delete may_destroy may_delete
          (record m { queue = queue })
          queue
        ≡ some r)
      × IsManager [] r.1
unfolding process
executed_at managed_delete may_destroy may_delete m [] valid =
    ((true, record m { queue = [] }, []), refl, valid)
executed_at managed_delete may_destroy may_delete m (a ∷ queue) valid =
    executed managed_delete may_destroy may_delete a (record m { queue = queue })
      (λ b.
        let same : 0 + count b (a ∷ queue) ≡ events (a ∷ []) b (record m { queue = queue }) =
          omega (arith, count-append b (a ∷ []) queue) in
        subst (IsActor (m.actor b)) same (valid b))

-- From a state where each actor's reference count is the number of its events in the queue, there
-- is none before its deletion and one at least until its first is done, and an actor is destroyed
-- only with no event left, no dependent, and no pause, the manager's task takes the next event of
-- the queue without a failed assert and leaves such a state, whether destruction is deferred or
-- not and whatever the actors and their dependents are.
pub process-IsManager :
    (managed_delete : ℕ → ℕ) (may_destroy : Bool) (may_delete : ℕ → Bool) (m : LifetimeManager)
    → IsManager [] m
    → (r : Bool × LifetimeManager × List Call) × (process managed_delete may_destroy may_delete m
          m.queue
        ≡ some r)
      × IsManager [] r.1
process-IsManager managed_delete may_destroy may_delete m valid =
    executed_at managed_delete may_destroy may_delete m m.queue valid
