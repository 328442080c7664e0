-- ===== src/Timer/Silence.antt =====
-- What a cancellation promises, and where the promise is broken.
use tf_common.Common.{ℕ, ◌≡◌, refl, ap, ◌∙◌, true, false, not, some, List, [], ◌∷◌}
use tf_common.Task.{opens}
use tf_common.Timer.{
  World, running, cancelled, finishing, set_state, is_active, is_fired, step, run, Happens, ends,
  start, cancel, run_ends,
}
use tf_common.Timer.Invariant.{IsTimer, idle_task}
use tf_common.Timer.Cancelling.{cancel-Cancelled}
use tf_common.Timer.Starting.{active_not_fired}
use tf_common.Timer.Quiet.{NoRestart, Quiet, Stays, IsQuiet, cancel_idle, step-Quiet}

abbrev pub AllQuiet : List Happens → Type 0
AllQuiet [] = Unit {0}
AllQuiet (h ∷ happens) = IsQuiet h × AllQuiet happens

run-Quiet :
    (calls : ℕ) (happens : List Happens) (w : World)
    → AllQuiet happens
    → Quiet calls w
    → Stays calls (run happens w)
unfolding run
run-Quiet calls [] w k quiet = (w, refl, quiet)
run-Quiet calls (h ∷ happens) w (k, ks) quiet =
    let (v, e, quiet') = step-Quiet calls h w k quiet in
    let (u, d, quiet'') = run-Quiet calls happens v ks quiet' in
    (u, opens (run happens) e d, quiet'')

-- From a valid state that is not fired and where no task is about to start the timer again, a
-- cancellation succeeds, and whatever steps but a start follow it, they fail no assert, call no
-- handler and leave the timer cancelled.
pub cancel-Silent :
    (happens : List Happens) (w : World)
    → AllQuiet happens
    → IsTimer w
    → NoRestart w
    → is_fired w.timer.state ≡ false
    → (v : World) × (u : World) × (cancel w ≡ some (true, v))
      × (run happens v ≡ some u)
      × (u.callbacks ≡ w.callbacks)
      × (u.timer.state ≡ cancelled)
cancel-Silent happens w k valid calm f =
    let ((done, v), e, (valid', sure, stops, silent, kept)) = cancel-Cancelled w valid in
    let succeeds : done ≡ true = sure ∙ ap not f in
    let (s, idle) = stops succeeds in
    let (u, d, (_, s', _, _, silent')) =
      run-Quiet w.callbacks happens v k (valid', s, idle, (λ t. kept t (calm t)), silent) in
    (v, u, e ∙ ap (λ b. some (b, v)) succeeds, d, silent', s')

-- From a valid state where a task has left the timer and is about to start it again, and the timer
-- is neither running nor fired, a cancellation succeeds and the end of the task sets the timer
-- running all the same.
pub cancel-restart :
    (t : ℕ) (w : World)
    → IsTimer w
    → w.phase t ≡ finishing true
    → is_active w.timer.state ≡ false
    → (v : World) × (u : World) × (cancel w ≡ some (true, v))
      × (v.timer.state ≡ cancelled)
      × (step (ends t false) v ≡ some u)
      × (u.timer.state ≡ running)
unfolding step run_ends start
cancel-restart t w valid g idle =
    let e = idle_task w valid idle in
    let v = set_state cancelled w in
    (
      v,
      _,
      cancel_idle w (active_not_fired w.timer.state idle) e,
      refl,
      ap (λ p. run_ends t false p v) g,
      refl,
    )
