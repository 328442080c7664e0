-- ===== src/Timer/Reachable.antt =====
-- What a timer does in any order of steps, and what a cancellation promises.
use tf_common.Common.{ℕ, ◌+◌, ◌^◌, ◌<◌, refl, Bool, true, false, Option, none, some, if◌then◌else◌}
use tf_common.Task.{opens}
use tf_common.Timer.{
  World, is_fired, step, Happens, starts, reschedules, cancels, expiry, begins, runs, returns, ends,
  deletes, reschedule,
}
use tf_common.Timer.Invariant.{IsTimer}
use tf_common.Timer.Cancelling.{cancel-Cancelled, delete_timer-IsTimer}
use tf_common.Timer.Starting.{start-IsTimer, expires-IsTimer}
use tf_common.Timer.Running.{
  Goes, task_begins-IsTimer, run_begins-IsTimer, run_returns-Goes, run_ends-Goes,
}

pub reschedule-IsTimer : (time : Option ℕ) (w : World) → IsTimer w → IsTimer (reschedule time w).1
unfolding reschedule
reschedule-IsTimer none w valid = valid
reschedule-IsTimer (some time) w valid =
    let later = record w { timer = record (w.timer) { time = time } } in
    let is_later : IsTimer later = record {
      holds = valid.holds;
      live = valid.live;
      fresh = valid.fresh;
      past = valid.past;
    } in
    let after : Bool → Bool × World = λ b. if b then (true, later) else (false, w) in
    let both : (b : Bool) → IsTimer (after b).1 =
      λ b. elim b as (λ k. IsTimer (after k).1) [ true ↦ is_later | false ↦ valid ] in
    both (is_fired w.timer.state)

-- From a valid state, for a sequence number that does not wrap, every step of a timer, the end of
-- a wait, a call and each part of its task, fails no assert and leaves a valid state: the timer
-- has a task exactly while one is alive, and only in the states Running and Fired; it is fired
-- exactly while this task calls the handler, and the wait that the task was made for is served.
pub step-Goes :
    (h : Happens) (w : World) → w.timer.seq_no + 1 < 2 ^ 32 → IsTimer w → Goes (step h w)
unfolding step
step-Goes (starts time handler error_handler error) w below valid =
    (_, refl, (start-IsTimer time handler error_handler error w below valid).0)
step-Goes (reschedules time) w below valid = (_, refl, reschedule-IsTimer time w valid)
step-Goes cancels w below valid =
    let (r, e, (valid', _, _, _, _)) = cancel-Cancelled w valid in
    (r.1, opens (λ r. some r.1) e refl, valid')
step-Goes (expiry seq_no ec) w below valid =
    let (v, e, valid', _) = expires-IsTimer seq_no ec w valid in (v, e, valid')
step-Goes (begins t) w below valid = (_, refl, task_begins-IsTimer t w valid)
step-Goes (runs t) w below valid = (_, refl, run_begins-IsTimer t (w.phase t) w refl valid)
step-Goes (returns t answer) w below valid = run_returns-Goes t answer (w.phase t) w refl valid
step-Goes (ends t error) w below valid = run_ends-Goes t error (w.phase t) w below refl valid
step-Goes deletes w below valid =
    let (r, e, valid', _, _) = delete_timer-IsTimer w valid in
    (r.1, opens (λ r. some r.1) e refl, valid')
