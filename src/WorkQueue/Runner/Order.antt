-- ===== src/WorkQueue/Runner/Order.antt =====
-- What a run of the task does to an unbounded queue: it ends, and takes the entries in their order.
use tf_common.Common.{
  append_assoc, append_nil, ℕ, zero, suc, ◌+◌, ◌^◌, ◌≤◌, ◌<◌, ◌≡◌, refl, sym, ap, ◌∙◌, ◌⊎◌, inl,
  inr, Bool, true, false, Option, none, some, List, [], ◌∷◌, ◌++◌, ◌==◌, arith, Bool-cases, ==_iff,
  length,
}
use mathlib.Core.Path.{subst}
use mathlib.Core.Bool.{false≢true}
use tf_common.Task.{opens}
use tf_common.WorkQueue.{Call, WorkQueue, up, enqueue, dequeue}
use tf_common.WorkQueue.Invariant.{
  IsWorkQueue, Enqueued, enqueue-Enqueued, Dequeued, dequeue-Dequeued,
}
use tf_common.WorkQueue.Runner.{enqueue_all, Drained, round, drain}

-- The queue that the callback leaves.
Appended : Bool → List ℕ → WorkQueue → WorkQueue → Type 0
Appended may_start xs q q' =
    IsWorkQueue may_start q'
    × (q'.queue ≡ q.queue ++ xs)
    × (q'.bounded ≡ false)
    × (q'.max_iterations ≡ q.max_iterations)

enqueue_lem :
    (may_start : Bool) (x : ℕ) (q : WorkQueue)
    → IsWorkQueue may_start q
    → q.bounded ≡ false
    → (r : Bool × List Call × WorkQueue) × (enqueue may_start x q ≡ some r)
      × Appended may_start (x ∷ []) q r.2
unfolding Appended Enqueued
enqueue_lem may_start x q v unbounded =
    let (r, e, (valid, kept, placed)) = enqueue-Enqueued may_start x q v in
    let put : r.2.queue ≡ q.queue ++ x ∷ [] = elim placed [
      | inl there ↦ there
      | inr (_, _, full, _, _, _) ↦ absurd (false≢true (sym unbounded ∙ full))
    ] in
    (r, e, (valid, put, ap (λ k. k.1) kept ∙ unbounded, ap (λ k. k.3) kept))

enqueue_all_lem :
    (may_start : Bool) (xs : List ℕ) (q : WorkQueue)
    → IsWorkQueue may_start q
    → q.bounded ≡ false
    → (r : List Call × WorkQueue) × (enqueue_all may_start xs q ≡ some r)
      × Appended may_start xs q r.1
unfolding enqueue_all Appended
enqueue_all_lem may_start [] q v unbounded =
    (([], q), refl, (v, sym (append_nil q.queue), unbounded, refl))
enqueue_all_lem may_start (x ∷ xs) q v unbounded =
    let (r, e, (valid, put, free, same)) = enqueue_lem may_start x q v unbounded in
    let (s, d, (valid', put', free', same')) = enqueue_all_lem may_start xs r.2 valid free in
    (
      (r.1 ++ s.0, s.1),
      opens _ e (opens _ d refl),
      (
        valid',
        put' ∙ ap (λ l. l ++ xs) put ∙ append_assoc q.queue (x ∷ []) xs,
        free',
        same' ∙ same,
      ),
    )

module _ (callback : ℕ → Bool × List ℕ) (may_start : Bool) where
  -- What the callback enqueues for the entries processed.
  pub answers : List ℕ → List ℕ
  answers [] = []
  answers (x ∷ xs) = (callback x).1 ++ answers xs

  -- The callback asked for a stop at the last entry.
  pub Stops : List ℕ → Type 0
  Stops [] = false ≡ true
  Stops (x ∷ []) = (callback x).0 ≡ false
  Stops (_ ∷ x ∷ xs) = Stops (x ∷ xs)

  -- The entries processed and those left are those from before and those that came, in their order;
  -- the loop ends on an empty queue, at its bound or at a stop.
  pub InOrder : ℕ → WorkQueue → Drained → Type 0
  InOrder rounds q d =
      IsWorkQueue may_start d.left
      × (d.processed ++ d.left.queue ≡ q.queue ++ answers d.processed)
      × (length d.processed ≤ rounds)
      × ((d.left.queue ≡ []) ⊎ (length d.processed ≡ rounds) ⊎ Stops d.processed)

  Stops-cons : (x : ℕ) (xs : List ℕ) → Stops xs → Stops (x ∷ xs)
  unfolding Stops
  Stops-cons x [] h = absurd (false≢true h)
  Stops-cons x (y ∷ ys) h = h

  -- One more entry before those of the rest of the loop.
  order_cons :
      (entry : ℕ) (entries : List ℕ) (q q' : WorkQueue) (d : Drained)
      → q.queue ≡ entry ∷ entries
      → q'.queue ≡ entries ++ (callback entry).1
      → d.processed ++ d.left.queue ≡ q'.queue ++ answers d.processed
      → (entry ∷ d.processed) ++ d.left.queue ≡ q.queue ++ answers (entry ∷ d.processed)
  unfolding answers
  order_cons entry entries q q' d e put order =
      ap (λ l. entry ∷ l)
        (order
          ∙ ap (λ l. l ++ answers d.processed) put
          ∙ append_assoc entries (callback entry).1 (answers d.processed))
      ∙ ap (λ l. l ++ ((callback entry).1 ++ answers d.processed)) (sym e)

  -- The theorem below for one number of rounds.
  Ordered : ℕ → Type 0
  Ordered rounds =
      (count : ℕ) (q : WorkQueue)
      → IsWorkQueue may_start q
      → q.bounded ≡ false
      → q.max_iterations < 2 ^ 64
      → count + rounds ≡ q.max_iterations
      → 0 < rounds
      → (d : Drained) × (drain callback may_start rounds count q ≡ some d) × InOrder rounds q d

  drain_step : (rounds : ℕ) → Ordered rounds → Ordered (suc rounds)
  unfolding drain round InOrder Dequeued Appended Stops Ordered answers
  drain_step rounds again count q v unbounded small sum some_left =
      from (dequeue q) refl (dequeue-Dequeued may_start q v)
    where
      taken :
          (t : Option ℕ × List Call × WorkQueue)
          → dequeue q ≡ t
          → drain callback may_start (suc rounds) count q
            ≡ round callback may_start
                (drain callback may_start rounds (up count))
                (up count)
                q.max_iterations
                t
      taken t e =
          ap
            (round callback may_start (drain callback may_start rounds (up count)) (up count)
              q.max_iterations)
            e

      from :
          (t : Option ℕ × List Call × WorkQueue)
          → dequeue q ≡ t
          → Dequeued may_start q t
          → (d : Drained) × (drain callback may_start (suc rounds) count q ≡ some d)
            × InOrder (suc rounds) q d
      from (none, calls, q') e (empty, _, same) = (
        record { processed = []; calls = calls; left = q' },
        taken (none, calls, q') e,
        (
          subst (IsWorkQueue may_start) (sym same) v,
          ap (λ q. q.queue) same ∙ sym (append_nil q.queue),
          omega arith,
          inl (ap (λ q. q.queue) same ∙ empty),
        ),
      )
      from (some entry, calls, q') e (valid, first, _, same, free) =
          let (r, all, (valid', put, free', same')) =
            enqueue_all_lem may_start (callback entry).1 q' valid (free ∙ unbounded) in
          let stopped : Drained = record {
            processed = entry ∷ [];
            calls = calls ++ r.0;
            left = r.1;
          } in
          let order =
            order_cons entry q'.queue q r.1 (record { processed = []; calls = []; left = r.1 })
              first put (sym (append_nil r.1.queue)) in
          elim (Bool-cases (callback entry).0) [
            | inr n ↦ (
              stopped,
              taken (some entry, calls, q') e ∙ (opens _ all (rw n refl)),
              (valid', order, omega arith, inr (inr n)),
            )
            | inl y ↦ elim (Bool-cases (up count == q.max_iterations)) [
              | inl z ↦
                  let last : up count ≡ q.max_iterations =
                    (==_iff (up count) q.max_iterations).0 z in
                  (
                    stopped,
                    taken (some entry, calls, q') e ∙ (opens _ all (rw (y, z) refl)),
                    (valid', order, omega arith, inr (inl (omega arith))),
                  )
              | inr k ↦
                  let more : 0 < rounds = ground arith in
                  let (d, rest, (valid'', order', bound, end)) =
                    again (up count) r.1 valid' free' (omega (arith, same, same'))
                      (omega (arith, same, same')) more in
                  (
                    record {
                      processed = entry ∷ d.processed;
                      calls = calls ++ r.0 ++ d.calls;
                      left = d.left;
                    },
                    taken (some entry, calls, q') e ∙ (opens _ all (rw (y, k) (opens _ rest refl))),
                    (
                      valid'',
                      order_cons entry q'.queue q r.1 d first put order',
                      omega arith,
                      elim end [
                        | inl empty ↦ inl empty
                        | inr (inl full) ↦ inr (inl (omega arith))
                        | inr (inr stop) ↦ inr (inr (Stops-cons entry d.processed stop))
                      ],
                    ),
                  )
            ]
          ]

  -- On an unbounded queue whose bound on iterations is below 2^64 and not reached, the loop of a run
  -- returns. The entries that it processed, with those left, are the entries from before followed by
  -- those that the callback enqueued, in this order; it ends with an empty queue, at its bound, or
  -- where the callback asked for a stop.
  pub drain-InOrder :
      (rounds count : ℕ) (q : WorkQueue)
      → IsWorkQueue may_start q
      → q.bounded ≡ false
      → q.max_iterations < 2 ^ 64
      → count + rounds ≡ q.max_iterations
      → 0 < rounds
      → (d : Drained) × (drain callback may_start rounds count q ≡ some d) × InOrder rounds q d
  unfolding Ordered
  drain-InOrder zero count q v unbounded small sum some_left = absurd (omega arith)
  drain-InOrder (suc rounds) count q v unbounded small sum some_left =
      drain_step rounds (drain-InOrder rounds) count q v unbounded small sum some_left
