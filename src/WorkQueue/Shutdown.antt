-- ===== src/WorkQueue/Shutdown.antt =====
-- The end of a run, the disabling and the shutdown of a queue.
use tf_common.Common.{
  if◌then◌else◌, ◌≡◌, ◌≢◌, refl, sym, ◌∙◌, ◌⊎◌, inl, inr, Bool, true, false, not, ◌&&◌, ◌||◌, some,
  List, [], ◌∷◌, Bool-cases,
}
use mathlib.Core.Bool.{false≢true, true≢false}
use tf_common.Task.Control.{CancelReturnCode, cancelled, failed, queued}
use tf_common.WorkQueue.{
  Call, on_exit, WorkQueue, is_empty, runner_abort, emptied, shutdown_locked, schedule_shutdown,
  set_disable, runner_done,
}
use tf_common.WorkQueue.Invariant.{IsWorkQueue, may_be_start_runner_lem, Started}

-- Whether the shutdown that waited for the run is made, which empties the queue; otherwise the
-- queue is kept.
pub RunDone : Bool → WorkQueue → Bool × List Call × WorkQueue → Type 0
RunDone may_start q (done, calls, q') =
    IsWorkQueue may_start q'
    × (calls ≡ on_exit done ∷ [])
    × (q'.running ≡ not done)
    × (q'.deleted ≡ (done && q.shutdown_scheduled))
    × (q'.queue ≡ (if done && q.shutdown_scheduled then [] else q.queue))
    × (q'.disabled ≡ q.disabled)
    × (q'.shutdown_scheduled ≡ q.shutdown_scheduled)
    × (done ≡ (is_empty q.queue || runner_abort may_start q))

emptied-IsWorkQueue :
    (may_start : Bool) (q : WorkQueue)
    → q.current_runner ≡ q.running
    → IsWorkQueue may_start (emptied q)
emptied-IsWorkQueue may_start q runner = record {
  counted = refl;
  runner = elim (Bool-cases q.running) [
    | inl y ↦ rw (runner, y) refl
    | inr n ↦ rw (runner, n) refl
  ];
  served = λ some_left. absurd (true≢false some_left);
}

abbrev idle : WorkQueue → WorkQueue
idle q = record q { current_runner = false; running = false }

-- At the end of a run of a queue that is not deleted and whose count, runner and run fit together,
-- the run is done exactly when the queue is empty or told to stop. A run that is done with a
-- shutdown scheduled deletes the queue and empties it; otherwise the queue is not deleted and its
-- entries stay, and a run that is not done goes on. Whether the queue is disabled and a shutdown
-- scheduled stays, count, runner and run fit together again, and entries that nothing holds back
-- still have a run.
pub runner_done-RunDone :
    (may_start : Bool) (q : WorkQueue)
    → IsWorkQueue may_start q
    → q.running ≡ true
    → q.deleted ≡ false
    → (r : Bool × List Call × WorkQueue) × (runner_done may_start q ≡ some r)
      × RunDone may_start q r
unfolding runner_done shutdown_locked RunDone
runner_done-RunDone may_start q v running alive =
    elim (Bool-cases (is_empty q.queue || runner_abort may_start q)) [
      | inr n ↦ (
        (false, on_exit false ∷ [], record q { running = true }),
        rw n refl,
        (
          record { counted = v.counted; runner = v.runner ∙ running; served = λ _ _ _. refl },
          refl,
          refl,
          alive,
          refl,
          refl,
          refl,
          sym n,
        ),
      )
      | inl y ↦ elim (Bool-cases q.shutdown_scheduled) [
        | inl z ↦ (
          (true, on_exit true ∷ [], emptied (idle q)),
          rw (y, z, alive) refl,
          (
            emptied-IsWorkQueue may_start (idle q) refl,
            refl,
            refl,
            sym z,
            rw z refl,
            refl,
            refl,
            sym y,
          ),
        )
        | inr k ↦ (
          (true, on_exit true ∷ [], idle q),
          rw (y, k) refl,
          (
            record {
              counted = v.counted;
              runner = refl;
              served = λ some_left live going. absurd (false≢true (rw (some_left, going) at y));
            },
            refl,
            refl,
            alive ∙ sym k,
            rw k refl,
            refl,
            refl,
            sym y,
          ),
        )
      ]
    ]

-- Disabling or enabling a queue whose count, runner and run fit together returns, keeps the entries
-- and leaves such a queue.
pub set_disable-IsWorkQueue :
    (may_start disabled : Bool) (q : WorkQueue)
    → IsWorkQueue may_start q
    → (r : List Call × WorkQueue) × (set_disable may_start disabled q ≡ some r)
      × IsWorkQueue may_start r.1
      × (r.1.queue ≡ q.queue)
unfolding set_disable Started
set_disable-IsWorkQueue may_start disabled q v = elim (Bool-cases q.disabled) [
  | inl y ↦ elim (Bool-cases disabled) [
    | inl z ↦ (([], q), rw (y, z) refl, v, refl)
    | inr k ↦
        let (r, e, (valid, kept, there)) =
          may_be_start_runner_lem may_start (record q { disabled = false }) v.counted v.runner in
        (r, rw (y, k) e, valid, there)
  ]
  | inr n ↦ elim (Bool-cases disabled) [
    | inl z ↦ (
      ([], record q { disabled = disabled }),
      rw (n, z) refl,
      record {
        counted = v.counted;
        runner = v.runner;
        served = λ some_left live going. absurd (true≢false (rw z at going));
      },
      refl,
    )
    | inr k ↦ (([], q), rw (n, k) refl, v, refl)
  ]
]

-- A queue without a run, or whose run was cancelled, is shut down; one whose run goes on is kept.
pub Scheduled : Bool → Bool → CancelReturnCode → WorkQueue → WorkQueue → Type 0
Scheduled delete_entries may_start code q q' =
    IsWorkQueue may_start q'
    × (q'.shutdown_scheduled ≡ true)
    × (q'.delete_entries_on_shutdown ≡ delete_entries)
    × ((((q.running ≡ false) ⊎ (code ≡ cancelled))
          × (q'.deleted ≡ true)
          × (q'.queue ≡ [])
          × (q'.running ≡ false))
        ⊎ ((q.running ≡ true)
            × (code ≡ queued)
            × (q'.deleted ≡ false)
            × (q'.queue ≡ q.queue)
            × (q'.running ≡ true)))

-- For a queue whose count, runner and run fit together, that is neither deleted nor about to be,
-- and a scheduler that does not fail the cancellation, scheduling a shutdown returns and is
-- recorded, with whether entries are to be deleted. Without a run, or with one that the scheduler
-- cancelled, the queue is deleted, empty and without a run; with one that the scheduler has queued
-- it is not deleted, its entries stay and the run goes on. Count, runner and run fit together
-- again.
pub schedule_shutdown-Scheduled :
    (delete_entries may_start : Bool) (code : CancelReturnCode) (q : WorkQueue)
    → IsWorkQueue may_start q
    → q.deleted ≡ false
    → q.shutdown_scheduled ≡ false
    → code ≢ failed
    → (q' : WorkQueue) × (schedule_shutdown delete_entries code q ≡ some q')
      × Scheduled delete_entries may_start code q q'
unfolding schedule_shutdown shutdown_locked Scheduled
schedule_shutdown-Scheduled delete_entries may_start code q v alive unscheduled ok =
    elim (Bool-cases q.running) [
      | inr n ↦ (
        emptied (scheduled q),
        rw (unscheduled, n, alive) refl,
        (
          emptied-IsWorkQueue may_start (scheduled q) v.runner,
          refl,
          refl,
          inl (inl n, refl, refl, refl),
        ),
      )
      | inl y ↦ ending y code ok
    ]
  where
    scheduled : WorkQueue → WorkQueue
    scheduled q = record q {
      shutdown_scheduled = true;
      delete_entries_on_shutdown = delete_entries;
    }

    ending :
        q.running ≡ true
        → (c : CancelReturnCode) → c ≢ failed
        → (q' : WorkQueue) × (schedule_shutdown delete_entries c q ≡ some q')
          × Scheduled delete_entries may_start c q q'
    ending y failed wrong = absurd (wrong refl)
    ending y queued _ = (
      scheduled q,
      rw (unscheduled, v.runner, y) refl,
      (
        record { counted = v.counted; runner = v.runner; served = λ _ _ _. y },
        refl,
        refl,
        inr (y, refl, alive, refl, y),
      ),
    )
    ending y cancelled _ = (
      emptied (idle (scheduled q)),
      rw (unscheduled, v.runner, y, alive) refl,
      (
        emptied-IsWorkQueue may_start (idle (scheduled q)) refl,
        refl,
        refl,
        inl (inr refl, refl, refl, refl),
      ),
    )
