-- ===== src/Timer/Starting.antt =====
-- Starting a timer, and the end of a wait.
use tf_common.Common.{
  put, put-cases, ℕ, ◌+◌, ◌%◌, ◌^◌, ◌≤◌, ◌<◌, ◌≡◌, inl, inr, refl, sym, ap, ◌∙◌, Bool, true, false,
  not, ◌||◌, Option, none, some, if◌then◌else◌, ◌==◌, arith, Bool-cases, Option-cases,
}
use mathlib.Core.Path.{subst}
use mathlib.Core.Option.{none-ne-some}
use mathlib.Core.Bool.{false≢true}
use tf_common.Task.{◌>>◌, assert, is_none}
use tf_common.Timer.{
  World, TimerState, init, running, fired, cancelled, Phase, waiting, gone, set_state, with_task,
  is_active, is_fired, is_cancelled, start, Expiry, is_aborted, is_error, start_timer_task, expires,
}
use tf_common.Timer.Invariant.{
  is_live, is_calling, is_init, Holds, IsTimer, wait_of, Holds-of, idle_task,
}

pub active_not_fired : (s : TimerState) → is_active s ≡ false → is_fired s ≡ false
active_not_fired init h = refl
active_not_fired running h = refl
active_not_fired fired h = absurd (false≢true (sym h))
active_not_fired cancelled h = refl

-- A start under a sequence number that is not used up keeps the timer valid and calls no handler.
pub start-IsTimer :
    (time handler error_handler : Option ℕ) (error : Bool) (w : World)
    → w.timer.seq_no + 1 < 2 ^ 32
    → IsTimer w
    → let v = (start time handler error_handler error w).1 in
      IsTimer v × (v.callbacks ≡ w.callbacks)
unfolding start
start-IsTimer none handler error_handler error w below valid = (valid, refl)
start-IsTimer (some time) handler error_handler error w below valid =
    let seq = (w.timer.seq_no + 1) % 2 ^ 32 in
    let next : seq ≡ w.timer.seq_no + 1 = omega arith in
    let prepared = record w {
      timer = record (w.timer) {
        time = time;
        handler = handler;
        seq_no = seq;
        error_handler = error_handler;
      };
    } in
    let waiting = set_state running (record prepared { waits = put w.waits seq true }) in
    let after : Bool → Bool → Bool × World =
      λ active e. if active then (true, w) else if e then (false, prepared) else (true, waiting) in
    let Is : Bool × World → Type 0 = λ r. IsTimer r.1 × (r.1.callbacks ≡ w.callbacks) in
    elim (Bool-cases (is_active w.timer.state)) [
      | inl a ↦ subst (λ b. Is (after b error)) (sym a) (valid, refl)
      | inr a ↦
          let idle = idle_task w valid a in
          let not_fired = active_not_fired w.timer.state a in
          let early : (n : ℕ) → w.waits n ≡ true → n ≤ seq =
            λ n k. let before = valid.past n k in omega arith in
          let no_wait : w.waits seq ≡ true → is_init w.timer.state ≡ false =
            λ k. let before = valid.past seq k in absurd (omega arith) in
          let is_prepared : IsTimer prepared = record {
            holds =
                subst (λ o. Holds o w.timer.state w.phase (w.waits seq)) (sym idle)
                  (not_fired, no_wait);
            live = valid.live;
            fresh = valid.fresh;
            past = early;
          } in
          let is_waiting : IsTimer waiting = record {
            holds =
                subst (λ o. Holds o running w.phase (put w.waits seq true seq)) (sym idle)
                  (refl, λ _. refl);
            live = valid.live;
            fresh = valid.fresh;
            past = λ n.
                put-cases (λ b. b ≡ true → n ≤ seq) w.waits seq true n (λ g _. omega arith)
                  (λ _. early n);
          } in
          let both : (e : Bool) → Is (after false e) = λ e. elim e as (λ k. Is (after false k)) [
            | true ↦ (is_prepared, refl)
            | false ↦ (is_waiting, refl)
          ] in
          subst (λ b. Is (after b error)) (sym a) (both error)
    ]

or-false : (a b : Bool) → (a || b) ≡ false → (a ≡ false) × (b ≡ false)
or-false true b e = absurd (false≢true (sym e))
or-false false b e = (refl, e)

not-false : (b : Bool) → not b ≡ false → b ≡ true
not-false true e = refl
not-false false e = absurd (false≢true (sym e))

running_of :
    (s : TimerState)
    → is_fired s ≡ false
    → is_init s ≡ false
    → is_cancelled s ≡ false
    → is_active s ≡ true
running_of init f i c = absurd (false≢true (sym i))
running_of running f i c = refl
running_of fired f i c = refl
running_of cancelled f i c = absurd (false≢true (sym c))

-- A wait that is served no longer waits.
pub served_wait :
    (n : ℕ) (w : World) → IsTimer w → IsTimer (record w { waits = put w.waits n false })
served_wait n w valid =
    let seq = w.timer.seq_no in
    record {
      holds = elim (Option-cases w.timer.timer_task) [
        | inl e ↦
            let (not_fired, not_init) = Holds-of w none valid e in
            subst (λ o. Holds o w.timer.state w.phase (put w.waits n false seq)) (sym e)
              (
                not_fired,
                put-cases (λ b. b ≡ true → is_init w.timer.state ≡ false) w.waits n false seq
                    (λ _ k. absurd (false≢true k)) (λ _. not_init),
              )
        | inr (t, e) ↦
            let (live, same, active, gone_wait) = Holds-of w (some t) valid e in
            subst (λ o. Holds o w.timer.state w.phase (put w.waits n false seq)) (sym e)
              (
                live,
                same,
                active,
                put-cases (λ b. b ≡ false) w.waits n false seq (λ _. refl) (λ _. gone_wait),
              )
      ];
      live = valid.live;
      fresh = valid.fresh;
      past = λ m.
          put-cases (λ b. b ≡ true → m ≤ seq) w.waits n false m (λ _ k. absurd (false≢true k))
            (λ _. valid.past m);
    }

-- A task is made for the wait of a timer that has none.
enqueued_task :
    (ec : Expiry) (w : World)
    → IsTimer w
    → w.timer.timer_task ≡ none
    → is_fired w.timer.state ≡ false
    → is_active w.timer.state ≡ true
    → w.waits w.timer.seq_no ≡ false
    → let t = w.next_task in
      IsTimer (
        with_task (some t) (record w {
          phase = put w.phase t waiting;
          failed = put w.failed t (is_error ec);
          next_task = t + 1;
        }))
enqueued_task ec w valid idle not_fired active no_wait =
    let t = w.next_task in
    let P : Phase → Type 0 = λ p. (is_live p ≡ true) × (is_fired w.timer.state ≡ is_calling p) in
    let (live, same) =
      put-cases P w.phase t waiting t (λ _. (refl, not_fired)) (λ g. absurd (g refl)) in
    record {
      holds = (live, same, active, no_wait);
      live = λ u.
          put-cases (λ p. is_live p ≡ true → some t ≡ some u) w.phase t waiting u
            (λ g _. ap some (sym g)) (λ _ l. absurd (none-ne-some u (sym idle ∙ valid.live u l)));
      fresh = λ u above.
          put-cases (λ p. p ≡ gone) w.phase t waiting u (λ g. absurd (omega arith))
            (λ _. valid.fresh u (omega arith));
      past = valid.past;
    }

-- A wait that ends creates a task for a running timer without one, or nothing.
pub expires-IsTimer :
    (seq_no : ℕ) (ec : Expiry) (w : World)
    → IsTimer w
    → (v : World) × (expires seq_no ec w ≡ some v) × IsTimer v × (v.callbacks ≡ w.callbacks)
unfolding expires start_timer_task
expires-IsTimer n ec w valid =
    let v = record w { waits = put w.waits n false } in
    let t = w.next_task in
    let enqueued = with_task (some t) (record v {
      phase = put w.phase t waiting;
      failed = put w.failed t (is_error ec);
      next_task = t + 1;
    }) in
    let skip = is_cancelled w.timer.state || (is_aborted ec || not (w.timer.seq_no == n)) in
    let created : Bool → Option World = λ b. assert b >> some enqueued in
    let served : Bool → Option World =
      λ b. if b then some v else created (is_none w.timer.timer_task) in
    let split : Bool → Option World = λ b. if b then served skip else some w in
    elim (Bool-cases (w.waits n)) [
      | inr u ↦ (w, ap split u, valid, refl)
      | inl u ↦
          let is_served = served_wait n w valid in
          elim (Bool-cases skip) [
            | inl k ↦ (v, ap split u ∙ ap served k, is_served, refl)
            | inr k ↦
                let (not_cancelled, others) =
                  or-false (is_cancelled w.timer.state) (is_aborted ec || not (w.timer.seq_no == n))
                    k in
                let own : (w.timer.seq_no == n) ≡ true =
                  not-false (w.timer.seq_no == n)
                    (or-false (is_aborted ec) (not (w.timer.seq_no == n)) others).1 in
                let same : w.timer.seq_no ≡ n = ground arith in
                let waits : wait_of w ≡ true = ap w.waits same ∙ u in
                let no_wait : put w.waits n false w.timer.seq_no ≡ false =
                  put-cases (λ b. b ≡ false) w.waits n false w.timer.seq_no (λ _. refl)
                    (λ other. absurd (other same)) in
                elim (Option-cases w.timer.timer_task) [
                  | inl e ↦
                      let (not_fired, not_init) = Holds-of w none valid e in
                      let active =
                        running_of w.timer.state not_fired (not_init waits) not_cancelled in
                      (
                        enqueued,
                        ap split u ∙ ap served k ∙ ap (λ o. created (is_none o)) e,
                        enqueued_task ec v is_served e not_fired active no_wait,
                        refl,
                      )
                  | inr (t, e) ↦
                      let (_, _, _, gone_wait) = Holds-of w (some t) valid e in
                      absurd (false≢true (sym gone_wait ∙ waits))
                ]
          ]
    ]
