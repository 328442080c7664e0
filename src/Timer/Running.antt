-- ===== src/Timer/Running.antt =====
-- The task of a timer: it is taken up, calls the handler, leaves the timer and ends.
use tf_common.Common.{
  put, put-cases, ℕ, ◌+◌, ◌^◌, ◌<◌, ◌≡◌, inl, inr, refl, sym, ap, ◌∙◌, Bool, true, false, not, ◌&&◌,
  Option, none, some, if◌then◌else◌, ◌==◌, arith, Bool-cases, Option-cases, some_injective,
}
use mathlib.Core.Path.{subst}
use mathlib.Core.Bool.{false≢true}
use tf_common.Task.{◌>>=◌, is_none, opens, passes}
use tf_common.Timer.{
  World, init, fired, Phase, waiting, taken, dropped, calling, finishing, gone, set_state,
  with_task, is_fired, taken_phase, task_begins, run_begins, on_task_cancel, is_own, run_returns,
  delete_timer, run_ends,
}
use tf_common.Timer.Invariant.{
  is_live, is_calling, Holds, IsTimer, wait_of, Holds-of, retire, known_task,
}
use tf_common.Timer.Cancelling.{delete_timer-IsTimer}
use tf_common.Timer.Starting.{start-IsTimer}

live-taken : (p : Phase) → is_live (taken_phase p) ≡ is_live p
live-taken waiting = refl
live-taken taken = refl
live-taken dropped = refl
live-taken calling = refl
live-taken (finishing _) = refl
live-taken gone = refl

calling-taken : (p : Phase) → is_calling (taken_phase p) ≡ is_calling p
calling-taken waiting = refl
calling-taken taken = refl
calling-taken dropped = refl
calling-taken calling = refl
calling-taken (finishing _) = refl
calling-taken gone = refl

pub task_begins-IsTimer : (t : ℕ) (w : World) → IsTimer w → IsTimer (task_begins t w)
task_begins-IsTimer t w valid =
    let q = taken_phase (w.phase t) in
    record {
      holds = elim (Option-cases w.timer.timer_task) [
        | inl e ↦
            subst (λ o. Holds o w.timer.state (put w.phase t q) (wait_of w)) (sym e)
              (Holds-of w none valid e)
        | inr (u, e) ↦
            let (live, same, active, served) = Holds-of w (some u) valid e in
            let P : Phase → Type 0 =
              λ p. (is_live p ≡ true) × (is_fired w.timer.state ≡ is_calling p) in
            let (live', same') =
              put-cases P w.phase t q u
                (λ g. (
                  live-taken (w.phase t) ∙ ap (λ n. is_live (w.phase n)) (sym g) ∙ live,
                  same ∙ ap (λ n. is_calling (w.phase n)) g ∙ sym (calling-taken (w.phase t)),
                ))
                (λ _. (live, same)) in
            subst (λ o. Holds o w.timer.state (put w.phase t q) (wait_of w)) (sym e)
              (live', same', active, served)
      ];
      live = λ u.
          put-cases (λ p. is_live p ≡ true → w.timer.timer_task ≡ some u) w.phase t q u
            (λ g l.
              valid.live u (ap (λ n. is_live (w.phase n)) g ∙ sym (live-taken (w.phase t)) ∙ l))
            (λ _. valid.live u);
      fresh = λ u above.
          put-cases (λ p. p ≡ gone) w.phase t q u
            (λ g. ap (λ n. taken_phase (w.phase n)) (sym g) ∙ ap taken_phase (valid.fresh u above))
            (λ _. valid.fresh u above);
      past = valid.past;
    }

-- A task that is taken up and not cancelled fires the timer; the others call nothing.
pub run_begins-IsTimer :
    (t : ℕ) (p : Phase) (w : World) → w.phase t ≡ p → IsTimer w → IsTimer (run_begins t p w)
unfolding run_begins
run_begins-IsTimer t taken w e valid =
    let is_live_now : is_live (w.phase t) ≡ true = ap is_live e in
    let own = valid.live t is_live_now in
    let known = known_task w t valid is_live_now in
    let (_, _, _, served) = Holds-of w (some t) valid own in
    let P : Phase → Type 0 = λ p. (is_live p ≡ true) × (true ≡ is_calling p) in
    let (live, same) =
      put-cases P w.phase t calling t (λ _. (refl, refl)) (λ other. absurd (other refl)) in
    record {
      holds =
          subst (λ o. Holds o fired (put w.phase t calling) (wait_of w)) (sym own)
            (live, same, refl, served);
      live = λ u.
          put-cases (λ p. is_live p ≡ true → w.timer.timer_task ≡ some u) w.phase t calling u
            (λ g _. own ∙ ap some (sym g)) (λ _. valid.live u);
      fresh = λ u above.
          put-cases (λ p. p ≡ gone) w.phase t calling u (λ g. absurd (omega arith))
            (λ _. valid.fresh u above);
      past = valid.past;
    }
run_begins-IsTimer t dropped w e valid = retire w t gone valid (ap is_live e) refl (inl refl)
run_begins-IsTimer t waiting w e valid = valid
run_begins-IsTimer t calling w e valid = valid
run_begins-IsTimer t (finishing _) w e valid = valid
run_begins-IsTimer t gone w e valid = valid

-- The task leaves the timer, which may be started again.
left-IsTimer :
    (t : ℕ) (restart : Bool) (w : World)
    → w.phase t ≡ calling
    → IsTimer w
    → IsTimer
        (record (set_state init (with_task none w)) { phase = put w.phase t (finishing restart) })
left-IsTimer t restart w e valid =
    let is_live_now : is_live (w.phase t) ≡ true = ap is_live e in
    let own = valid.live t is_live_now in
    let known = known_task w t valid is_live_now in
    let (_, _, _, served) = Holds-of w (some t) valid own in
    record {
      holds = (refl, λ k. absurd (false≢true (sym served ∙ k)));
      live = λ u.
          put-cases (λ p. is_live p ≡ true → none ≡ some u) w.phase t (finishing restart) u
            (λ _ l. absurd (false≢true l))
            (λ other l. absurd (other (some_injective (sym (valid.live u l) ∙ own))));
      fresh = λ u above.
          put-cases (λ p. p ≡ gone) w.phase t (finishing restart) u (λ g. absurd (omega arith))
            (λ _. valid.fresh u above);
      past = valid.past;
    }

abbrev pub Goes : Option World → Type 0
Goes o = (v : World) × (o ≡ some v) × IsTimer v

-- The assert on the timer's task holds when a handler returns.
pub run_returns-Goes :
    (t : ℕ) (answer : Bool) (p : Phase) (w : World)
    → w.phase t ≡ p
    → IsTimer w
    → Goes (run_returns t answer p w)
unfolding run_returns on_task_cancel
run_returns-Goes t answer calling w e valid =
    let own = valid.live t (ap is_live e) in
    let handled = w.failed t && not (is_none w.timer.error_handler) in
    let restart = if handled then false else answer in
    let same : (t == t) ≡ true = ground arith in
    (
      record (set_state init (with_task none w)) { phase = put w.phase t (finishing restart) },
      opens _ (passes (ap (is_own t) own ∙ same) refl) refl,
      left-IsTimer t restart w e valid,
    )
run_returns-Goes t answer waiting w e valid = (w, refl, valid)
run_returns-Goes t answer taken w e valid = (w, refl, valid)
run_returns-Goes t answer dropped w e valid = (w, refl, valid)
run_returns-Goes t answer (finishing _) w e valid = (w, refl, valid)
run_returns-Goes t answer gone w e valid = (w, refl, valid)

pub run_ends-Goes :
    (t : ℕ) (error : Bool) (p : Phase) (w : World)
    → w.timer.seq_no + 1 < 2 ^ 32
    → w.phase t ≡ p
    → IsTimer w
    → Goes (run_ends t error p w)
unfolding run_ends
run_ends-Goes t error (finishing true) w below e valid =
    let v = record w { phase = put w.phase t gone } in
    let ended = retire w t gone valid (ap is_live e) refl (inl refl) in
    let (started, _) =
      start-IsTimer (some w.timer.time) w.timer.handler w.timer.error_handler error v below ended in
    (_, refl, started)
run_ends-Goes t error (finishing false) w below e valid =
    let v = record w { phase = put w.phase t gone } in
    let ended = retire w t gone valid (ap is_live e) refl (inl refl) in
    let (r, d, deleted, _, _) = delete_timer-IsTimer v ended in
    let ends : Bool → Option World =
      λ b. if b then (delete_timer v >>= λ r. some r.1) else some v in
    elim (Bool-cases w.timer.delete_on_completion) [
      | inl b ↦ (r.1, ap ends b ∙ opens (λ r. some r.1) d refl, deleted)
      | inr b ↦ (v, ap ends b, ended)
    ]
run_ends-Goes t error waiting w below e valid = (w, refl, valid)
run_ends-Goes t error taken w below e valid = (w, refl, valid)
run_ends-Goes t error dropped w below e valid = (w, refl, valid)
run_ends-Goes t error calling w below e valid = (w, refl, valid)
run_ends-Goes t error gone w below e valid = (w, refl, valid)
