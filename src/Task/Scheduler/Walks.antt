-- ===== src/Task/Scheduler/Walks.antt =====
-- The walks over deferred entries keep the exclusion of tasks.
use tf_common.Common.{ℕ, zero, suc, inl, inr, Bool, false, ◌&&◌, Option, none, some, Bool-cases}
use tf_common.Task.{TaskScheduler, EntryRef}
use tf_common.Task.Run.{Deferred, deferq, defer_entry_seqno, seqno_less, delete_from_defer_q}
use tf_common.Task.Run.Frame.{Ensures, Ensures-bind, delete_from_defer_q-Frame}
use tf_common.Task.Run.Exclusion.{Exclusive}
use tf_common.Task.Run.Start.{Frame-after, run_defer_entry-Exclusive}
use tf_common.Task.Scheduler.{
  next_after, first_of, run_deferred, walk, run_defer_q, run_rest, walk_both,
}

run_deferred-Exclusive :
    (q : Deferred) (only : Bool) (e : EntryRef) (s : TaskScheduler)
    → Exclusive s
    → Ensures Exclusive (run_deferred q only e s)
unfolding run_deferred
run_deferred-Exclusive q only e s x =
    Ensures-bind Exclusive Exclusive (delete_from_defer_q q e s) _
      (Frame-after s (delete_from_defer_q q e s) x (delete_from_defer_q-Frame q e s))
      (λ s' y. elim (Bool-cases (only && (s'.entry e).disable)) [
        | inl d ↦ rw d y
        | inr n ↦ rw n (run_defer_entry-Exclusive e s' y)
      ])

walk-Exclusive :
    (fuel : ℕ) (q : Deferred) (only : Bool) (it : Option EntryRef) (s : TaskScheduler)
    → Exclusive s
    → Ensures Exclusive (walk fuel q only it s)
unfolding walk
walk-Exclusive fuel q only none s x = x
walk-Exclusive zero q only (some e) s x = x
walk-Exclusive (suc fuel) q only (some e) s x =
    Ensures-bind Exclusive Exclusive (run_deferred q only e s) _
      (run_deferred-Exclusive q only e s x) (walk-Exclusive fuel q only (next_after e (deferq s q)))

pub run_defer_q-Exclusive :
    (q : Deferred) (only : Bool) (s : TaskScheduler)
    → Exclusive s
    → Ensures Exclusive (run_defer_q q only s)
unfolding run_defer_q
run_defer_q-Exclusive q only s x = walk-Exclusive _ q only (first_of (deferq s q)) s x

run_rest-Exclusive :
    (gq eq : Deferred) (g e : Option EntryRef) (s : TaskScheduler)
    → Exclusive s
    → Ensures Exclusive (run_rest gq eq g e s)
unfolding run_rest
run_rest-Exclusive gq eq none none s x = x
run_rest-Exclusive gq eq (some g) e s x = run_defer_q-Exclusive gq false s x
run_rest-Exclusive gq eq none (some e) s x = run_defer_q-Exclusive eq false s x

pub walk_both-Exclusive :
    (fuel : ℕ) (gq eq : Deferred) (g e : Option EntryRef) (s : TaskScheduler)
    → Exclusive s
    → Ensures Exclusive (walk_both fuel gq eq g e s)
unfolding walk_both
walk_both-Exclusive fuel gq eq none e s x = run_rest-Exclusive gq eq none e s x
walk_both-Exclusive fuel gq eq (some g) none s x = run_rest-Exclusive gq eq (some g) none s x
walk_both-Exclusive zero gq eq (some g) (some e) s x = x
walk_both-Exclusive (suc fuel) gq eq (some g) (some e) s x =
    elim (Bool-cases (seqno_less (defer_entry_seqno s g) (defer_entry_seqno s e))) [
      | inl y ↦ rw y (
          Ensures-bind Exclusive Exclusive (run_deferred gq false g s) _
            (run_deferred-Exclusive gq false g s x)
            (walk_both-Exclusive fuel gq eq (next_after g (deferq s gq)) (some e)))
      | inr n ↦ rw n (
          Ensures-bind Exclusive Exclusive (run_deferred eq false e s) _
            (run_deferred-Exclusive eq false e s x)
            (walk_both-Exclusive fuel gq eq (some g) (next_after e (deferq s eq))))
    ]
