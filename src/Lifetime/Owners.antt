-- ===== src/Lifetime/Owners.antt =====
-- The calls of an actor's owner and of its dependents keep the counts.
use tf_common.Common.{
  ℕ, ◌≡◌, refl, sym, ap, ◌∙◌, inl, inr, Bool, true, false, not, ◌&&◌, Option, some, [], ◌∷◌, ◌++◌,
  if◌then◌else◌, arith, Bool-cases,
}
use mathlib.Core.Path.{subst}
use mathlib.Core.Bool.{false≢true}
use tf_common.Task.{is_empty, passes}
use tf_common.Lifetime.{
  LifetimeActor, LifetimeManager, put_actor, enqueue, delete, retry_delete, pause_delete,
  resume_delete, dependency_add, dependency_remove, remove,
}
use tf_common.Lifetime.Counting.{IsManager, keep, push, enqueue-IsManager, delete-IsManager}

-- The calls that an owner makes of an actor which is not destroyed.
pub data Happens : Type 0 where
  deletes : Happens
  retries : Happens
  pauses : Happens
  resumes : Happens
  adds : ℕ → Happens
  removes : ℕ → Happens

-- A retry and a resumption come after the deletion, a pause and a new dependent before it.
abbrev pub Allowed : Happens → LifetimeActor → Type 0
Allowed deletes x = Unit {0}
Allowed retries x = x.deleted ≡ true
Allowed pauses x = x.deleted ≡ false
Allowed resumes x = x.deleted ≡ true
Allowed (adds _) x = x.deleted ≡ false
Allowed (removes _) x = Unit {0}

abbrev pub step : Happens → ℕ → LifetimeManager → Option LifetimeManager
step deletes a m = some (delete a m)
step retries a m = retry_delete a m
step pauses a m = pause_delete a m
step resumes a m = resume_delete a m
step (adds ref) a m = dependency_add a ref m
step (removes ref) a m = some (dependency_remove a ref m)

-- From a state where each actor's reference count is the number of its events in the queue, there
-- is none before its deletion and one at least until its first is done, and an actor is destroyed
-- only with no event left, no dependent, and no pause, a call on an actor that is not destroyed
-- fails no assert and leaves such a state: its deletion, a dependent that leaves, and, made after
-- its deletion, a retry or a resumption, and, made before it, a pause or a new dependent.
pub step-IsManager :
    (h : Happens) (a : ℕ) (m : LifetimeManager)
    → Allowed h (m.actor a)
    → (m.actor a).destroyed ≡ false
    → IsManager [] m
    → (n : LifetimeManager) × (step h a m ≡ some n) × IsManager [] n
unfolding retry_delete pause_delete resume_delete dependency_add dependency_remove
step-IsManager deletes a m k alive valid = (delete a m, refl, delete-IsManager [] a m valid)
step-IsManager retries a m k alive valid =
    let (refs, _, _, gone) = valid a in
    (
      enqueue a m,
      passes k refl,
      enqueue-IsManager [] a m (λ b _. valid b)
          (
            omega arith,
            (λ e. absurd (false≢true (sym e ∙ k))),
            (λ _ _. omega arith),
            (λ e. absurd (false≢true (sym alive ∙ e))),
          ),
    )
step-IsManager pauses a m k alive valid =
    let (refs, before, shut, gone) = valid a in
    let x = record (m.actor a) { delete_paused = true } in
    (
      put_actor m a x,
      passes (ap not k) refl,
      keep [] a x m valid (refs, before, shut, (λ e. absurd (false≢true (sym alive ∙ e)))),
    )
step-IsManager resumes a m k alive valid =
    let (refs, _, _, gone) = valid a in
    let x = record (m.actor a) { delete_paused = false } in
    (
      enqueue a (put_actor m a x),
      passes k refl,
      push [] a x m valid (
        omega arith,
        (λ e. absurd (false≢true (sym e ∙ k))),
        (λ _ _. omega arith),
        (λ e. absurd (false≢true (sym alive ∙ e))),
      ),
    )
step-IsManager (adds ref) a m k alive valid =
    let (refs, before, shut, gone) = valid a in
    let x = record (m.actor a) { dependents = (m.actor a).dependents ++ ref ∷ [] } in
    (
      put_actor m a x,
      passes (ap not k) refl,
      keep [] a x m valid (refs, before, shut, (λ e. absurd (false≢true (sym alive ∙ e)))),
    )
step-IsManager (removes ref) a m k alive valid =
    let (refs, before, shut, gone) = valid a in
    let left = remove ref (m.actor a).dependents in
    let x = record (m.actor a) { dependents = left } in
    let removed = put_actor m a x in
    let after : Bool → LifetimeManager = λ b. if b then enqueue a removed else removed in
    let last = (m.actor a).deleted && is_empty left in
    elim (Bool-cases last) [
      | inl e ↦
          let deleted : (m.actor a).deleted ≡ true = first _ _ e in
          (
            after last,
            refl,
            subst (λ b. IsManager [] (after b)) (sym e)
                (push [] a x m valid (
                  omega arith,
                  (λ d. absurd (false≢true (sym d ∙ deleted))),
                  (λ _ _. omega arith),
                  (λ d. absurd (false≢true (sym alive ∙ d))),
                )),
          )
      | inr e ↦ (
        after last,
        refl,
        subst (λ b. IsManager [] (after b)) (sym e)
            (keep [] a x m valid (refs, before, shut, (λ d. absurd (false≢true (sym alive ∙ d))))),
      )
    ]
  where
    first : (b c : Bool) → (b && c) ≡ true → b ≡ true
    first true c e = refl
    first false c e = absurd (false≢true e)
