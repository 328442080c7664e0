-- ===== src/Timer/Quiet.antt =====
-- A cancelled timer without a task stays cancelled and calls no handler.
use tf_common.Common.{
  put, put-cases, ℕ, ◌+◌, ◌≡◌, inl, inr, refl, sym, ap, ◌∙◌, Bool, true, false, not, ◌&&◌, ◌||◌,
  Option, none, some, if◌then◌else◌, ◌==◌, Bool-cases,
}
use mathlib.Core.Path.{subst}
use mathlib.Core.Option.{none-ne-some}
use mathlib.Core.Bool.{false≢true}
use tf_common.Task.{◌>>=◌, ◌>>◌, assert, is_none, opens}
use tf_common.Timer.{
  World, cancelled, Phase, waiting, taken, dropped, calling, finishing, gone, set_state, with_task,
  is_fired, is_cancelled, step, Happens, starts, reschedules, cancels, expiry, begins, runs,
  returns, ends, deletes, reschedule, cancel, cancel_task, Expiry, is_aborted, is_error,
  start_timer_task, expires, taken_phase, task_begins, run_begins, run_returns, delete_timer,
  run_ends,
}
use tf_common.Timer.Invariant.{is_live, restarts, Holds, IsTimer, wait_of, retire}
use tf_common.Timer.Starting.{served_wait}
use tf_common.Timer.Running.{task_begins-IsTimer}

-- No task is about to start the timer again.
abbrev pub NoRestart : World → Type 0
NoRestart w = (t : ℕ) → restarts (w.phase t) ≡ false

abbrev pub Quiet : ℕ → World → Type 0
Quiet calls w =
    IsTimer w
    × (w.timer.state ≡ cancelled)
    × (w.timer.timer_task ≡ none)
    × NoRestart w
    × (w.callbacks ≡ calls)

abbrev pub Stays : ℕ → Option World → Type 0
Stays calls o = (v : World) × (o ≡ some v) × Quiet calls v

pub cancel_idle :
    (w : World)
    → is_fired w.timer.state ≡ false
    → w.timer.timer_task ≡ none
    → cancel w ≡ some (true, set_state cancelled w)
unfolding cancel cancel_task
cancel_idle w f e =
    let done : Option ℕ → Option (Bool × World) =
      λ o. cancel_task o w >>= λ v. some (true, set_state cancelled v) in
    ap (λ b. if b then some (false, w) else done w.timer.timer_task) f ∙ ap done e

delete_again :
    (w : World)
    → w.timer.state ≡ cancelled
    → w.timer.timer_task ≡ none
    → delete_timer w ≡ some (true, record (set_state cancelled w) { held = false })
unfolding delete_timer
delete_again w s e =
    let rest : Bool × World → Option (Bool × World) = λ (d, u).
      if not d && u.timer.delete_on_completion
      then some (false, u)
      else some (true, record u { held = false }) in
    ap (λ k. if is_fired k then some (false, w) else (cancel w >>= rest)) s
    ∙ opens rest (cancel_idle w (ap is_fired s) e) refl

cancelled-Quiet : (calls : ℕ) (w : World) → Quiet calls w → Quiet calls (set_state cancelled w)
cancelled-Quiet calls w (valid, s, e, calm, silent) =
    let still = subst (λ k. Holds w.timer.timer_task k w.phase (wait_of w)) s valid.holds in
    (
      record { holds = still; live = valid.live; fresh = valid.fresh; past = valid.past },
      refl,
      e,
      calm,
      silent,
    )

-- The invariant does not read who holds the timer.
let_go :
    (calls : ℕ) (w : World)
    → Quiet calls w
    → Quiet calls (record (set_state cancelled w) { held = false })
let_go calls w quiet =
    let (valid, s, e, calm, silent) = cancelled-Quiet calls w quiet in
    (
      record { holds = valid.holds; live = valid.live; fresh = valid.fresh; past = valid.past },
      s,
      e,
      calm,
      silent,
    )

no_task :
    (w : World) (t : ℕ) → IsTimer w → w.timer.timer_task ≡ none → is_live (w.phase t) ≡ true → ⊥
no_task w t valid e l = none-ne-some t (sym e ∙ valid.live t l)

gone_task :
    (calls t : ℕ) (w : World)
    → Quiet calls w
    → is_live (w.phase t) ≡ false
    → Quiet calls (record w { phase = put w.phase t gone })
gone_task calls t w (valid, s, e, calm, silent) l = (
  retire w t gone valid l refl (inl refl),
  s,
  e,
  (λ u. put-cases (λ p. restarts p ≡ false) w.phase t gone u (λ _. refl) (λ _. calm u)),
  silent,
)

-- No start is among the steps.
abbrev pub IsQuiet : Happens → Type 0
IsQuiet (starts _ _ _ _) = ⊥
IsQuiet _ = Unit {0}

runs-Quiet :
    (calls t : ℕ) (p : Phase) (w : World)
    → w.phase t ≡ p
    → Quiet calls w
    → Quiet calls (run_begins t p w)
unfolding run_begins
runs-Quiet calls t taken w g (valid, s, e, calm, silent) =
    absurd (no_task w t valid e (ap is_live g))
runs-Quiet calls t dropped w g quiet = gone_task calls t w quiet (ap is_live g)
runs-Quiet calls t waiting w g quiet = quiet
runs-Quiet calls t calling w g quiet = quiet
runs-Quiet calls t (finishing _) w g quiet = quiet
runs-Quiet calls t gone w g quiet = quiet

returns-Quiet :
    (calls t : ℕ) (answer : Bool) (p : Phase) (w : World)
    → w.phase t ≡ p
    → Quiet calls w
    → Stays calls (run_returns t answer p w)
unfolding run_returns
returns-Quiet calls t answer calling w g (valid, s, e, calm, silent) =
    absurd (no_task w t valid e (ap is_live g))
returns-Quiet calls t answer waiting w g quiet = (w, refl, quiet)
returns-Quiet calls t answer taken w g quiet = (w, refl, quiet)
returns-Quiet calls t answer dropped w g quiet = (w, refl, quiet)
returns-Quiet calls t answer (finishing _) w g quiet = (w, refl, quiet)
returns-Quiet calls t answer gone w g quiet = (w, refl, quiet)

ends-Quiet :
    (calls t : ℕ) (error : Bool) (p : Phase) (w : World)
    → w.phase t ≡ p
    → Quiet calls w
    → Stays calls (run_ends t error p w)
unfolding run_ends
ends-Quiet calls t error (finishing true) w g (valid, s, e, calm, silent) =
    absurd (false≢true (sym (calm t) ∙ ap restarts g))
ends-Quiet calls t error (finishing false) w g quiet =
    let v = record w { phase = put w.phase t gone } in
    let quiet' = gone_task calls t w quiet (ap is_live g) in
    let (_, s, e, _, _) = quiet' in
    let split : Bool → Option World =
      λ b. if b then (delete_timer v >>= λ r. some r.1) else some v in
    elim (Bool-cases w.timer.delete_on_completion) [
      | inl b ↦ (
        record (set_state cancelled v) { held = false },
        ap split b ∙ opens (λ r. some r.1) (delete_again v s e) refl,
        let_go calls v quiet',
      )
      | inr b ↦ (v, ap split b, quiet')
    ]
ends-Quiet calls t error waiting w g quiet = (w, refl, quiet)
ends-Quiet calls t error taken w g quiet = (w, refl, quiet)
ends-Quiet calls t error dropped w g quiet = (w, refl, quiet)
ends-Quiet calls t error calling w g quiet = (w, refl, quiet)
ends-Quiet calls t error gone w g quiet = (w, refl, quiet)

expiry-Quiet :
    (calls n : ℕ) (ec : Expiry) (w : World) → Quiet calls w → Stays calls (expires n ec w)
unfolding expires start_timer_task
expiry-Quiet calls n ec w (valid, s, e, calm, silent) =
    let v = record w { waits = put w.waits n false } in
    let t = w.next_task in
    let enqueued = with_task (some t) (record v {
      phase = put w.phase t waiting;
      failed = put w.failed t (is_error ec);
      next_task = t + 1;
    }) in
    let served = start_timer_task n ec v in
    let split : Bool → Option World = λ b. if b then served else some w in
    elim (Bool-cases (w.waits n)) [
      | inl u ↦ (
        v,
        ap split u
            ∙ ap
                (λ k.
                  if is_cancelled k || (is_aborted ec || not (w.timer.seq_no == n))
                  then some v
                  else (assert (is_none w.timer.timer_task) >> some enqueued))
                s,
        (served_wait n w valid, s, e, calm, silent),
      )
      | inr u ↦ (w, ap split u, (valid, s, e, calm, silent))
    ]

begins-Quiet : (calls t : ℕ) (w : World) → Quiet calls w → Quiet calls (task_begins t w)
begins-Quiet calls t w (valid, s, e, calm, silent) = (
  task_begins-IsTimer t w valid,
  s,
  e,
  (λ u.
      put-cases (λ p. restarts p ≡ false) w.phase t (taken_phase (w.phase t)) u
        (λ _. same (w.phase t) ∙ calm t) (λ _. calm u)),
  silent,
)
  where
    same : (p : Phase) → restarts (taken_phase p) ≡ restarts p
    same waiting = refl
    same taken = refl
    same dropped = refl
    same calling = refl
    same (finishing _) = refl
    same gone = refl

pub step-Quiet :
    (calls : ℕ) (h : Happens) (w : World) → IsQuiet h → Quiet calls w → Stays calls (step h w)
unfolding step reschedule
step-Quiet calls (starts _ _ _ _) w k quiet = elim k [ ]
step-Quiet calls (reschedules none) w k quiet = (w, refl, quiet)
step-Quiet calls (reschedules (some time)) w k (valid, s, e, calm, silent) =
    let later = record w { timer = record (w.timer) { time = time } } in
    let after : Bool → Bool × World = λ b. if b then (true, later) else (false, w) in
    (w, ap (λ j. some (after (is_fired j)).1) s, (valid, s, e, calm, silent))
step-Quiet calls cancels w k quiet =
    let (valid, s, e, calm, silent) = quiet in
    (
      set_state cancelled w,
      opens (λ r. some r.1) (cancel_idle w (ap is_fired s) e) refl,
      cancelled-Quiet calls w quiet,
    )
step-Quiet calls (expiry n ec) w k quiet = expiry-Quiet calls n ec w quiet
step-Quiet calls (begins t) w k quiet = (_, refl, begins-Quiet calls t w quiet)
step-Quiet calls (runs t) w k quiet = (_, refl, runs-Quiet calls t (w.phase t) w refl quiet)
step-Quiet calls (returns t answer) w k quiet =
    returns-Quiet calls t answer (w.phase t) w refl quiet
step-Quiet calls (ends t error) w k quiet = ends-Quiet calls t error (w.phase t) w refl quiet
step-Quiet calls deletes w k quiet =
    let (_, s, e, _, _) = quiet in
    (
      record (set_state cancelled w) { held = false },
      opens (λ r. some r.1) (delete_again w s e) refl,
      let_go calls w quiet,
    )
