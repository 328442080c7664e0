-- ===== src/Timer/Invariant.antt =====
-- What holds of a timer, its waits and its tasks between two steps.
use tf_common.Common.{
  put, put-cases, ℕ, ◌≤◌, ◌<◌, ◌≡◌, ◌⊎◌, inl, inr, sym, ap, ◌∙◌, Bool, true, false, Option, none,
  some, ltb, ltb→lt, arith, Bool-cases, Option-cases,
}
use mathlib.Core.Path.{subst}
use mathlib.Core.Bool.{false≢true}
use tf_common.Timer.{
  finishing, World, TimerState, init, running, Phase, waiting, taken, calling, gone, is_active,
  is_fired,
}

-- The task is the timer's: it was not cancelled and has not left the timer.
abbrev pub is_live : Phase → Bool
is_live waiting = true
is_live taken = true
is_live calling = true
is_live _ = false

-- The task is about to start the timer again.
abbrev pub restarts : Phase → Bool
restarts (finishing again) = again
restarts _ = false

abbrev pub is_calling : Phase → Bool
is_calling calling = true
is_calling _ = false

abbrev pub is_running : TimerState → Bool
is_running running = true
is_running _ = false

abbrev pub is_init : TimerState → Bool
is_init init = true
is_init _ = false

-- The timer without a task is not fired, and not in its first state while it waits; with one, the task is live, the state is fired exactly
-- while the task calls the handler and is running otherwise, and the last wait was served.
abbrev pub Holds : Option ℕ → TimerState → (ℕ → Phase) → Bool → Type 0
Holds none state phase wait = (is_fired state ≡ false) × (wait ≡ true → is_init state ≡ false)
Holds (some t) state phase wait =
    (is_live (phase t) ≡ true)
    × (is_fired state ≡ is_calling (phase t))
    × (is_active state ≡ true)
    × (wait ≡ false)

pub record IsTimer (w : World) : Type 0 where
  pub holds : Holds w.timer.timer_task w.timer.state w.phase (w.waits w.timer.seq_no)
  pub live : (t : ℕ) → is_live (w.phase t) ≡ true → w.timer.timer_task ≡ some t
  pub fresh : (t : ℕ) → w.next_task ≤ t → w.phase t ≡ gone
  pub past : (n : ℕ) → w.waits n ≡ true → n ≤ w.timer.seq_no

abbrev pub wait_of : World → Bool
wait_of w = w.waits w.timer.seq_no

pub Holds-of :
    (w : World) (o : Option ℕ)
    → IsTimer w
    → w.timer.timer_task ≡ o
    → Holds o w.timer.state w.phase (wait_of w)
Holds-of w o valid e = subst (λ o. Holds o w.timer.state w.phase (wait_of w)) e valid.holds

-- A task's phase that is not live gives way to another one.
pub retire :
    (w : World) (t : ℕ) (q : Phase)
    → IsTimer w
    → is_live (w.phase t) ≡ false
    → is_live q ≡ false
    → q ≡ gone ⊎ (t < w.next_task)
    → IsTimer (record w { phase = put w.phase t q })
retire w t q valid before after known = record {
  holds = elim (Option-cases w.timer.timer_task) [
    | inl e ↦
        subst (λ o. Holds o w.timer.state (put w.phase t q) (wait_of w)) (sym e)
          (Holds-of w none valid e)
    | inr (u, e) ↦
        let (live, same, active, served) = Holds-of w (some u) valid e in
        let P : Phase → Type 0 =
          λ p. (is_live p ≡ true) × (is_fired w.timer.state ≡ is_calling p) in
        let (live', same') =
          put-cases P w.phase t q u
            (λ g. absurd (false≢true (sym before ∙ ap (λ n. is_live (w.phase n)) (sym g) ∙ live)))
            (λ _. (live, same)) in
        subst (λ o. Holds o w.timer.state (put w.phase t q) (wait_of w)) (sym e)
          (live', same', active, served)
  ];
  live = λ u.
      put-cases (λ p. is_live p ≡ true → w.timer.timer_task ≡ some u) w.phase t q u
        (λ _ l. absurd (false≢true (sym after ∙ l))) (λ _. valid.live u);
  fresh = λ u above.
      put-cases (λ p. p ≡ gone) w.phase t q u
        (λ g. elim known [ inl k ↦ k | inr k ↦ absurd (omega arith) ]) (λ _. valid.fresh u above);
  past = valid.past;
}

-- The timer has no task unless it is running or fired.
pub idle_task :
    (w : World) → IsTimer w → is_active w.timer.state ≡ false → w.timer.timer_task ≡ none
idle_task w valid idle = elim (Option-cases w.timer.timer_task) [
  | inl e ↦ e
  | inr (t, e) ↦
      let (_, _, active, _) = Holds-of w (some t) valid e in absurd (false≢true (sym idle ∙ active))
]

-- A live task is one that the scheduler knows.
pub known_task : (w : World) (t : ℕ) → IsTimer w → is_live (w.phase t) ≡ true → t < w.next_task
known_task w t valid live = elim (Bool-cases (ltb t w.next_task)) [
  | inl k ↦ ltb→lt t w.next_task k
  | inr k ↦
      let above : w.next_task ≤ t = ground arith in
      absurd (false≢true (ap is_live (sym (valid.fresh t above)) ∙ live))
]
