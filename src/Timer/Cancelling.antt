-- ===== src/Timer/Cancelling.antt =====
-- Cancelling and deleting a timer.
use tf_common.Common.{
  put, put-cases, ℕ, ◌≡◌, inl, inr, refl, sym, ap, ◌∙◌, Bool, true, false, not, ◌&&◌, Option, none,
  some, if◌then◌else◌, arith, Bool-cases, Option-cases, some_injective,
}
use mathlib.Core.Path.{subst}
use mathlib.Core.Bool.{false≢true}
use tf_common.Task.{◌>>=◌, opens}
use tf_common.Timer.{
  World, cancelled, Phase, waiting, taken, dropped, calling, finishing, gone, set_state, with_task,
  is_fired, cancel, cancel_task, cancelled_phase, delete_timer,
}
use tf_common.Timer.Invariant.{
  restarts, is_live, is_calling, Holds, IsTimer, wait_of, Holds-of, known_task,
}

-- A live task that does not call its handler can be cancelled.
cancelled_phase_lem :
    (p : Phase)
    → is_live p ≡ true
    → is_calling p ≡ false
    → (q : Phase) × (cancelled_phase p ≡ some q) × (is_live q ≡ false) × (restarts q ≡ false)
cancelled_phase_lem waiting l c = (gone, refl, refl, refl)
cancelled_phase_lem taken l c = (dropped, refl, refl, refl)
cancelled_phase_lem dropped l c = absurd (false≢true l)
cancelled_phase_lem calling l c = absurd (false≢true (sym c))
cancelled_phase_lem (finishing _) l c = absurd (false≢true l)
cancelled_phase_lem gone l c = absurd (false≢true l)

-- The timer after a cancellation.
stopped :
    (w : World) (t : ℕ) (q : Phase)
    → IsTimer w
    → w.timer.timer_task ≡ some t
    → is_live q ≡ false
    → IsTimer (set_state cancelled (with_task none (record w { phase = put w.phase t q })))
stopped w t q valid e after =
    let (live, _, _, _) = Holds-of w (some t) valid e in
    let known = known_task w t valid live in
    record {
      holds = (refl, λ _. refl);
      live = λ u.
          put-cases (λ p. is_live p ≡ true → none ≡ some u) w.phase t q u
            (λ _ l. absurd (false≢true (sym after ∙ l)))
            (λ other l. absurd (other (some_injective (sym (valid.live u l) ∙ e))));
      fresh = λ u above.
          put-cases (λ p. p ≡ gone) w.phase t q u (λ g. absurd (omega arith))
            (λ _. valid.fresh u above);
      past = valid.past;
    }

-- A cancellation succeeds unless the timer is fired; it leaves no task, and the state cancelled.
abbrev pub Cancelled : World → Bool × World → Type 0
Cancelled w (done, v) =
    IsTimer v
    × (done ≡ not (is_fired w.timer.state))
    × (done ≡ true → (v.timer.state ≡ cancelled) × (v.timer.timer_task ≡ none))
    × (v.callbacks ≡ w.callbacks)
    × ((t : ℕ) → restarts (w.phase t) ≡ false → restarts (v.phase t) ≡ false)

pub cancel-Cancelled :
    (w : World) → IsTimer w → (r : Bool × World) × (cancel w ≡ some r) × Cancelled w r
unfolding cancel cancel_task
cancel-Cancelled w valid =
    let done : Option ℕ → Option (Bool × World) =
      λ o. cancel_task o w >>= λ v. some (true, set_state cancelled v) in
    let split : Bool → Option (Bool × World) =
      λ b. if b then some (false, w) else done w.timer.timer_task in
    elim (Bool-cases (is_fired w.timer.state)) [
      | inl f ↦ (
        (false, w),
        ap split f,
        (valid, ap not (sym f), (λ b. absurd (false≢true b)), refl, λ _ k. k),
      )
      | inr f ↦ elim (Option-cases w.timer.timer_task) [
        | inl e ↦ (
          (true, set_state cancelled w),
          ap split f ∙ ap done e,
          (
            record {
              holds = subst (λ o. Holds o cancelled w.phase (wait_of w)) (sym e) (refl, λ _. refl);
              live = valid.live;
              fresh = valid.fresh;
              past = valid.past;
            },
            ap not (sym f),
            (λ _. (refl, e)),
            refl,
            λ _ k. k,
          ),
        )
        | inr (t, e) ↦
            let (live, same, _, _) = Holds-of w (some t) valid e in
            let (q, g, after, ends) = cancelled_phase_lem (w.phase t) live (sym same ∙ f) in
            let v = set_state cancelled (with_task none (record w { phase = put w.phase t q })) in
            (
              (true, v),
              ap split f ∙ ap done e ∙ opens _ (opens _ g refl) refl,
              (
                stopped w t q valid e after,
                ap not (sym f),
                (λ _. (refl, refl)),
                refl,
                λ u.
                    put-cases (λ p. restarts (w.phase u) ≡ false → restarts p ≡ false) w.phase t q u
                      (λ _ _. ends) (λ _ k. k),
              ),
            )
      ]
    ]

-- The timer that is not fired is cancelled, and the manager may let go of it.
pub delete_timer-IsTimer :
    (w : World)
    → IsTimer w
    → (r : Bool × World) × (delete_timer w ≡ some r)
      × IsTimer r.1
      × (is_fired w.timer.state ≡ false
          → (r.1.timer.state ≡ cancelled) × (r.1.timer.timer_task ≡ none))
      × (r.1.callbacks ≡ w.callbacks)
unfolding delete_timer
delete_timer-IsTimer w valid =
    let ((done, v), e, (valid', sure, stops, silent, _)) = cancel-Cancelled w valid in
    let kept = not done && v.timer.delete_on_completion in
    let after : Bool → Bool × World =
      λ b. if b then (false, v) else (true, record v { held = false }) in
    let rest : Bool × World → Option (Bool × World) = λ (d, u).
      if not d && u.timer.delete_on_completion
      then some (false, u)
      else some (true, record u { held = false }) in
    let split : Bool → Option (Bool × World) =
      λ b. if b then some (false, w) else (cancel w >>= rest) in
    let held_only : IsTimer (record v { held = false }) = record {
      holds = valid'.holds;
      live = valid'.live;
      fresh = valid'.fresh;
      past = valid'.past;
    } in
    elim (Bool-cases (is_fired w.timer.state)) [
      | inl f ↦ ((false, w), ap split f, valid, (λ g. absurd (false≢true (sym g ∙ f))), refl)
      | inr f ↦
          let there = stops (sure ∙ ap not f) in
          let opened : split (is_fired w.timer.state) ≡ rest (done, v) =
            ap split f ∙ opens rest e refl in
          elim (Bool-cases kept) [
            | inl k ↦ (
              (false, v),
              opened
                  ∙ ap (λ b. if b then some (false, v) else some (true, record v { held = false }))
                      k,
              valid',
              (λ _. there),
              silent,
            )
            | inr k ↦ (
              (true, record v { held = false }),
              opened
                  ∙ ap (λ b. if b then some (false, v) else some (true, record v { held = false }))
                      k,
              held_only,
              (λ _. there),
              silent,
            )
          ]
    ]
