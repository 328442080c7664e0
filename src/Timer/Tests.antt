-- ===== src/Timer/Tests.antt =====
-- A timer that is started, fires and is about to be started again.
use tf_common.Common.{put, ℕ, ◌≡◌, refl, inr, true, false, Option, none, some, List, [], ◌∷◌, arith}
use mathlib.Core.Bool.{false≢true}
use tf_common.Timer.{
  World, cancelled, running, finishing, new_world, cancel, step, run, Happens, starts, expiry,
  begins, runs, ends, elapsed, start, expires, start_timer_task, run_begins, gone,
}
use tf_common.Timer.Invariant.{IsTimer, retire}
use tf_common.Timer.Running.{Goes}
use tf_common.Timer.Reachable.{step-Goes}
use tf_common.Timer.Silence.{cancel-Silent, cancel-restart}

abbrev new : World
new = new_world false

new-IsTimer : IsTimer new
new-IsTimer = record {
  holds = (refl, λ k. absurd (false≢true k));
  live = λ t k. absurd (false≢true k);
  fresh = λ t k. refl;
  past = λ n k. absurd (false≢true k);
}

step-Goes_example : Goes (step (starts (some 100) (some 1) none false) new)
step-Goes_example = step-Goes (starts (some 100) (some 1) none false) new (omega arith) new-IsTimer

abbrev later : List Happens
later = expiry 1 elapsed ∷ begins 0 ∷ runs 0 ∷ []

cancel-Silent_example :
    (v : World) × (u : World) × (cancel new ≡ some (true, v))
    × (run later v ≡ some u)
    × (u.callbacks ≡ new.callbacks)
    × (u.timer.state ≡ cancelled)
cancel-Silent_example = cancel-Silent later new (tt, (tt, (tt, tt))) new-IsTimer (λ t. refl) refl

-- Its task has left it and starts it again next.
abbrev leaving : World
leaving = record (new_world false) { phase = put (λ _. gone) 0 (finishing true); next_task = 1 }

leaving-IsTimer : IsTimer leaving
leaving-IsTimer =
    let counted : IsTimer (record (new_world false) { next_task = 1 }) = record {
      holds = (refl, λ k. absurd (false≢true k));
      live = λ t k. absurd (false≢true k);
      fresh = λ t k. refl;
      past = λ n k. absurd (false≢true k);
    } in
    retire (record (new_world false) { next_task = 1 }) 0 (finishing true) counted refl refl
      (inr (omega arith))

cancel-restart_example :
    (v : World) × (u : World) × (cancel leaving ≡ some (true, v))
    × (v.timer.state ≡ cancelled)
    × (step (ends 0 false) v ≡ some u)
    × (u.timer.state ≡ running)
cancel-restart_example = cancel-restart 0 leaving leaving-IsTimer refl refl

seen : Option World → Option (ℕ × Option ℕ)
seen none = none
seen (some w) = some (w.callbacks, w.timer.timer_task)

fires :
    seen
      (run (starts (some 100) (some 1) none false ∷ expiry 1 elapsed ∷ begins 0 ∷ runs 0 ∷ []) new)
    ≡ some (1, some 0)
unfolding seen run step start expires start_timer_task run_begins
fires = refl
