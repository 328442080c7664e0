-- ===== src/WorkQueue/Invariant.antt =====
-- What every operation on a queue keeps.
use tf_common.Common.{
  ℕ, ◌+◌, ◌%◌, ◌^◌, ◌≤◌, ◌≡◌, refl, sym, ap, ◌∙◌, ◌⊎◌, inl, inr, Bool, true, false, ◌||◌, Option,
  none, some, List, [], ◌∷◌, ◌++◌, if◌then◌else◌, ltb, arith, Bool-cases, length, length-append,
}
use tf_common.Task.{◌>>=◌}
use tf_common.WaterMark.{process_high_water_marks}
use tf_common.WorkQueue.{
  Call, start_task, WorkQueue, call_of, up, down, is_empty, runner_abort, may_be_start_runner, push,
  enqueue_internal, enqueue_bounded, enqueue, dequeue, pop, count_entry,
}

-- The count is the length, a run has its runner, and an entry that nothing holds back has a run.
pub record IsWorkQueue (may_start : Bool) (q : WorkQueue) : Type 0 where
  pub counted : q.count ≡ length q.queue % 2 ^ 64
  pub runner : q.current_runner ≡ q.running
  pub served :
      is_empty q.queue ≡ false
      → q.deleted ≡ false
      → runner_abort may_start q ≡ false
      → q.running ≡ true

-- The parts that no enqueue changes.
abbrev pub kept_part : WorkQueue → Bool × Bool × ℕ × ℕ × ℕ
kept_part q = (q.deleted, q.bounded, q.size, q.max_iterations, q.dequeues)

abbrev pub Kept : WorkQueue → WorkQueue → Type 0
Kept q q' = kept_part q' ≡ kept_part q

unfoldable pub Started : Bool → WorkQueue → List Call × WorkQueue → Type 0
Started may_start q r = IsWorkQueue may_start r.1 × Kept q r.1 × (r.1.queue ≡ q.queue)

held : (a b c d : Bool) → a || b || c || d ≡ true → b ≡ false → c ≡ false → d ≡ false → a ≡ true
held true b c d h eb ec ed = refl
held false b c d h eb ec ed = rw (eb, ec, ed) at h

first_false : (a b c d : Bool) → a || b || c || d ≡ false → a ≡ false
first_false true b c d h = h
first_false false b c d h = refl

pub may_be_start_runner_lem :
    (may_start : Bool) (q : WorkQueue)
    → q.count ≡ length q.queue % 2 ^ 64
    → q.current_runner ≡ q.running
    → (r : List Call × WorkQueue) × (may_be_start_runner may_start q ≡ some r)
      × Started may_start q r
unfolding may_be_start_runner Started
may_be_start_runner_lem may_start q counted runner =
    elim (Bool-cases (q.running || is_empty q.queue || q.deleted || runner_abort may_start q)) [
      | inl y ↦ (
        ([], q),
        rw y refl,
        (
          record {
            counted = counted;
            runner = runner;
            served = held q.running (is_empty q.queue) q.deleted (runner_abort may_start q) y;
          },
          refl,
          refl,
        ),
      )
      | inr n ↦
          let idle : q.running ≡ false =
            first_false q.running (is_empty q.queue) q.deleted (runner_abort may_start q) n in
          (
            (
              start_task ∷ [],
              record q {
                task_starts = (q.task_starts + 1) % 2 ^ 32;
                running = true;
                current_runner = true;
              },
            ),
            rw (n, runner, idle) refl,
            (record { counted = counted; runner = refl; served = λ _ _ _. refl }, refl, refl),
          )
    ]

Pushed : Bool → ℕ → WorkQueue → List Call × WorkQueue → Type 0
Pushed may_start entry q r =
    IsWorkQueue may_start r.1 × Kept q r.1 × (r.1.queue ≡ q.queue ++ entry ∷ [])

push_lem :
    (may_start : Bool) (entry ncount : ℕ) (q : WorkQueue)
    → q.count ≡ (length q.queue + 1) % 2 ^ 64
    → q.current_runner ≡ q.running
    → (r : List Call × WorkQueue) × (push may_start entry ncount q ≡ some r)
      × Pushed may_start entry q r
unfolding push Pushed Started
push_lem may_start entry ncount q counted runner =
    let pushed : WorkQueue = record q {
      queue = q.queue ++ entry ∷ [];
      watermarks = (process_high_water_marks ncount q.watermarks).1;
    } in
    let (r, e, (valid, kept, there)) =
      may_be_start_runner_lem may_start pushed
        (counted ∙ ap (λ n. n % 2 ^ 64) (sym (length-append q.queue (entry ∷ [])))) runner in
    (
      (call_of ncount (process_high_water_marks ncount q.watermarks).0 ++ r.0, r.1),
      rw e refl,
      (valid, kept, there),
    )

-- The entry is the last of the queue, or it was refused at the size of a bounded queue.
unfoldable pub Enqueued : Bool → ℕ → WorkQueue → Bool × List Call × WorkQueue → Type 0
Enqueued may_start entry q (accepted, calls, q') =
    IsWorkQueue may_start q'
    × Kept q q'
    × ((q'.queue ≡ q.queue ++ entry ∷ [])
        ⊎ ((accepted ≡ false)
            × (calls ≡ [])
            × (q.bounded ≡ true)
            × (q.size ≤ up q.count)
            × (q'.queue ≡ q.queue)
            × (q'.drops ≡ up q.drops)))

module _ (may_start : Bool) (entry : ℕ) (q : WorkQueue) (v : IsWorkQueue may_start q) where
  raised : up q.count ≡ (length q.queue + 1) % 2 ^ 64
  raised = let c = v.counted in omega arith

  enqueue_internal_lem :
      (r : Bool × List Call × WorkQueue) × (enqueue_internal may_start entry q ≡ some r)
      × Enqueued may_start entry q r
  unfolding enqueue_internal Enqueued Pushed
  enqueue_internal_lem =
      let (r, e, (valid, kept, there)) =
        push_lem may_start entry (up q.count) (count_entry (record q { enqueues = up q.enqueues }))
          raised v.runner in
      (
        (ltb (up q.count) q.size, r.0, r.1),
        ap (λ o. o >>= λ r. some (ltb (up q.count) q.size, r.0, r.1)) e,
        (valid, kept, inl there),
      )

  refused : WorkQueue
  refused = record (count_entry q) {
    count = down (up q.count);
    drops = up q.drops;
    max_queue_len = down (up q.count);
  }

  enqueue_bounded_lem :
      q.bounded ≡ true
      → (r : Bool × List Call × WorkQueue) × (enqueue_bounded may_start entry q ≡ some r)
        × Enqueued may_start entry q r
  unfolding enqueue_bounded Enqueued Pushed refused
  enqueue_bounded_lem y =
      let (r, e, (valid, kept, there)) =
        push_lem may_start entry (up q.count) (record (count_entry q) { enqueues = up q.enqueues })
          raised v.runner in
      elim (Bool-cases (ltb (up q.count) q.size)) [
        | inl fit ↦ (
          (true, r.0, r.1),
          rw fit (ap (λ o. o >>= λ r. some (true, r.0, r.1)) e),
          (valid, kept, inl there),
        )
        | inr full ↦ (
          (false, [], refused),
          rw full refl,
          (
            record {
              counted = let c = v.counted in omega arith;
              runner = v.runner;
              served = v.served;
            },
            refl,
            inr (refl, refl, y, ground arith, refl, refl),
          ),
        )
      ]

-- From a queue whose count is its length, whose run has its runner, and whose entries have a run
-- unless something holds them back, an enqueue returns and leaves such a queue, with the entry at
-- its end; only a bounded queue at its size refuses the entry, counts a drop and keeps its
-- entries.
pub enqueue-Enqueued :
    (may_start : Bool) (entry : ℕ) (q : WorkQueue)
    → IsWorkQueue may_start q
    → (r : Bool × List Call × WorkQueue) × (enqueue may_start entry q ≡ some r)
      × Enqueued may_start entry q r
unfolding enqueue
enqueue-Enqueued may_start entry q v = elim (Bool-cases q.bounded) [
  | inl y ↦ let (r, e, w) = enqueue_bounded_lem may_start entry q v y in (r, ap either y ∙ e, w)
  | inr n ↦ let (r, e, w) = enqueue_internal_lem may_start entry q v in (r, ap either n ∙ e, w)
]
  where
    either : Bool → Option (Bool × List Call × WorkQueue)
    either b = if b then enqueue_bounded may_start entry q else enqueue_internal may_start entry q

-- The first entry is taken, or there is none.
unfoldable pub Dequeued : Bool → WorkQueue → Option ℕ × List Call × WorkQueue → Type 0
Dequeued may_start q (none, calls, q') = (q.queue ≡ []) × (calls ≡ []) × (q' ≡ q)
Dequeued may_start q (some entry, calls, q') =
    IsWorkQueue may_start q'
    × (q.queue ≡ entry ∷ q'.queue)
    × (q'.dequeues ≡ up q.dequeues)
    × (q'.max_iterations ≡ q.max_iterations)
    × (q'.bounded ≡ q.bounded)

-- A dequeue takes the first entry and keeps the invariant, or changes nothing where there is none.
pub dequeue-Dequeued :
    (may_start : Bool) (q : WorkQueue) → IsWorkQueue may_start q → Dequeued may_start q (dequeue q)
unfolding dequeue pop Dequeued
dequeue-Dequeued may_start q v = from q.queue refl
  where
    from : (entries : List ℕ) → q.queue ≡ entries → Dequeued may_start q (pop entries q)
    from [] e = (e, refl, refl)
    from (entry ∷ entries) e = (
      record {
        counted = let c = v.counted ∙ ap (λ l. length l % 2 ^ 64) e in omega arith;
        runner = v.runner;
        served = λ some_left. v.served (ap is_empty e);
      },
      e,
      refl,
      refl,
      refl,
    )
