-- ===== src/Task/Run/Exclusion.antt =====
-- Tasks whose policies exclude one another never run at the same time.
use tf_common.Common.{
  Has, ℕ, ◌+◌, ◌≤◌, ◌≡◌, ◌≢◌, refl, sym, ap, ◌∙◌, ◌⊎◌, inl, inr, Bool, true, false, none, List, [],
  ◌∷◌, arith, Bool-cases, if◌then◌else◌, ◌==◌, ◌!=◌, ==_iff, !=-false,
}
use mathlib.Core.Bool.{false≢true}
use tf_common.Task.{TaskScheduler, EntryRef, entry_of, inst, same_entry, id_of, instance_of}
use tf_common.Task.Run.{first_active_group, first_active_entry, is_any, count_started}
use tf_common.Task.Run.Frame.{same_entry_iff, owner, Frame}

-- Groups in one another's policy do not both run, nor do entries; an entry with an instance runs one
-- task; and a task waits only in the queue of its own entry.
pub record Exclusive (s : TaskScheduler) : Type 0 where
  pub groups :
      (g h : ℕ)
      → Has (s.group g).policy h
      → g ≢ h
      → ((s.group g).run_count ≡ 0) ⊎ ((s.group h).run_count ≡ 0)
  pub entries :
      (e f : EntryRef)
      → Has (s.entry e).policyq f
      → e ≢ f
      → ((s.entry e).run_count ≡ 0) ⊎ ((s.entry f).run_count ≡ 0)
  pub serial : (g n : ℕ) → (s.entry (entry_of g (inst n))).run_count ≤ 1
  pub own : (g n : ℕ) → Has (s.entry (entry_of g (inst n))).policyq (entry_of g (inst n))
  pub group_symmetric : (g h : ℕ) → Has (s.group g).policy h → Has (s.group h).policy g
  pub entry_symmetric : (e f : EntryRef) → Has (s.entry e).policyq f → Has (s.entry f).policyq e
  pub waiting : (e : EntryRef) (t : ℕ) → Has (s.entry e).waitq t → owner s t ≡ e

-- The methods that only move tasks between queues keep it.
pub Frame-Exclusive : {s s' : TaskScheduler} → Frame s s' → Exclusive s → Exclusive s'
Frame-Exclusive f x = record {
  groups = λ g h m ne.
      rw (f.group_runs g, f.group_runs h) (x.groups g h (rw (f.group_policy g) at m) ne);
  entries = λ e d m ne.
      rw (f.entry_runs e, f.entry_runs d) (x.entries e d (rw (f.entry_policy e) at m) ne);
  serial = λ g n. rw (f.entry_runs (entry_of g (inst n))) (x.serial g n);
  own = λ g n. rw (f.entry_policy (entry_of g (inst n))) (x.own g n);
  group_symmetric =
      λ g h m. rw (f.group_policy h) (x.group_symmetric g h (rw (f.group_policy g) at m));
  entry_symmetric =
      λ e d m. rw (f.entry_policy d) (x.entry_symmetric e d (rw (f.entry_policy e) at m));
  waiting = λ e t m. f.owners t ∙ elim (f.waits e t m) [ inl k ↦ x.waiting e t k | inr o ↦ o ];
}

-- Nothing that the policies of an entry and of its group exclude is running.
pub record Ready (s : TaskScheduler) (e : EntryRef) : Type 0 where
  pub no_group :
      (h : ℕ) → Has (s.group (id_of e)).policy h → id_of e ≢ h → (s.group h).run_count ≡ 0
  pub no_entry : (f : EntryRef) → Has (s.entry e).policyq f → e ≢ f → (s.entry f).run_count ≡ 0
  pub idle : is_any (instance_of e) ≡ false → (s.entry e).run_count ≡ 0

pub Frame-Ready : {s s' : TaskScheduler} (e : EntryRef) → Frame s s' → Ready s e → Ready s' e
Frame-Ready e f r = record {
  no_group = λ h m ne. f.group_runs h ∙ r.no_group h (rw (f.group_policy (id_of e)) at m) ne;
  no_entry = λ d m ne. f.entry_runs d ∙ r.no_entry d (rw (f.entry_policy e) at m) ne;
  idle = λ n. f.entry_runs e ∙ r.idle n;
}

pub first_active_group-none :
    (s : TaskScheduler) (gs : List ℕ)
    → first_active_group s gs ≡ none
    → (h : ℕ) → Has gs h
    → (s.group h).run_count ≡ 0
unfolding first_active_group
first_active_group-none s (g ∷ gs) e h m = elim (Bool-cases ((s.group g).run_count != 0)) [
  | inl y ↦ cc (rw y at e)
  | inr n ↦ elim m [
    | inl same ↦ rw (← same) (!=-false _ 0 n)
    | inr later ↦ first_active_group-none s gs (rw n at e) h later
  ]
]
first_active_group-none s [] e h m = absurd m

pub first_active_entry-none :
    (s : TaskScheduler) (es : List EntryRef)
    → first_active_entry s es ≡ none
    → (f : EntryRef) → Has es f
    → (s.entry f).run_count ≡ 0
unfolding first_active_entry
first_active_entry-none s (e ∷ es) q f m = elim (Bool-cases ((s.entry e).run_count != 0)) [
  | inl y ↦ cc (rw y at q)
  | inr n ↦ elim m [
    | inl same ↦ rw (← same) (!=-false _ 0 n)
    | inr later ↦ first_active_entry-none s es (rw n at q) f later
  ]
]
first_active_entry-none s [] q f m = absurd m

not_same : (e f : EntryRef) → e ≢ f → same_entry e f ≡ false
not_same e f ne = elim (Bool-cases (same_entry e f)) [
  | inl y ↦ absurd (ne ((same_entry_iff e f).0 y))
  | inr n ↦ n
]

-- The counts after a start, as tests.
started_group :
    (e : EntryRef) (t : ℕ) (b : Bool) (s : TaskScheduler) (h : ℕ)
    → ((count_started e t b s).group h).run_count
      ≡ (if (s.task t).task_id == h then (s.group h).run_count + 1 else (s.group h).run_count)
unfolding count_started
started_group e t b s h = ground arith

started_entry :
    (e : EntryRef) (t : ℕ) (b : Bool) (s : TaskScheduler) (f : EntryRef)
    → ((count_started e t b s).entry f).run_count
      ≡ (if same_entry e f then (s.entry f).run_count + 1 else (s.entry f).run_count)
unfolding count_started
started_entry e t b s f = ground (arith, same_entry_iff e f)

started_policy :
    (e : EntryRef) (t : ℕ) (b : Bool) (s : TaskScheduler) (h : ℕ)
    → ((count_started e t b s).group h).policy ≡ (s.group h).policy
unfolding count_started
started_policy e t b s h = ground arith

started_policyq :
    (e : EntryRef) (t : ℕ) (b : Bool) (s : TaskScheduler) (f : EntryRef)
    → ((count_started e t b s).entry f).policyq ≡ (s.entry f).policyq
unfolding count_started
started_policyq e t b s f = ground (arith, same_entry_iff e f)

started_waitq :
    (e : EntryRef) (t : ℕ) (b : Bool) (s : TaskScheduler) (f : EntryRef)
    → ((count_started e t b s).entry f).waitq ≡ (s.entry f).waitq
unfolding count_started
started_waitq e t b s f = ground (arith, same_entry_iff e f)

pub started_owner :
    (e : EntryRef) (t : ℕ) (b : Bool) (s : TaskScheduler) (u : ℕ)
    → owner (count_started e t b s) u ≡ owner s u
unfolding count_started
started_owner e t b s u = refl

module _ (e : EntryRef) (t : ℕ) (b : Bool) (s : TaskScheduler) (x : Exclusive s) (r : Ready s e)
    (o : owner s t ≡ e) where
  own_group : (s.task t).task_id ≡ id_of e
  own_group = ap id_of o

  started_groups :
      (g h : ℕ)
      → Has (s.group g).policy h
      → g ≢ h
      → (((count_started e t b s).group g).run_count ≡ 0)
        ⊎ (((count_started e t b s).group h).run_count ≡ 0)
  started_groups g h m ne =
      rw (started_group e t b s g, started_group e t b s h, own_group)
        (elim (Bool-cases (id_of e == g)) [
          | inl y ↦
              let same : id_of e ≡ g = (==_iff (id_of e) g).0 y in
              let other : (id_of e == h) ≡ false = ground arith in
              rw other (inr (r.no_group h (rw same m) (λ q. ne (sym same ∙ q))))
          | inr n ↦ elim (Bool-cases (id_of e == h)) [
            | inl y ↦
                let same : id_of e ≡ h = (==_iff (id_of e) h).0 y in
                rw n
                  (inl (r.no_group g (rw same (x.group_symmetric g h m)) (λ q. ne (sym q ∙ same))))
            | inr n' ↦ rw (n, n') (x.groups g h m ne)
          ]
        ])

  started_entries :
      (f d : EntryRef)
      → Has (s.entry f).policyq d
      → f ≢ d
      → (((count_started e t b s).entry f).run_count ≡ 0)
        ⊎ (((count_started e t b s).entry d).run_count ≡ 0)
  started_entries f d m ne =
      rw (started_entry e t b s f, started_entry e t b s d)
        (elim (Bool-cases (same_entry e f)) [
          | inl y ↦
              let same : e ≡ f = (same_entry_iff e f).0 y in
              let other : same_entry e d ≡ false = not_same e d (λ q. ne (sym same ∙ q)) in
              rw other (inr (r.no_entry d (rw same m) (λ q. ne (sym same ∙ q))))
          | inr n ↦ elim (Bool-cases (same_entry e d)) [
            | inl y ↦
                let same : e ≡ d = (same_entry_iff e d).0 y in
                rw n
                  (inl (r.no_entry f (rw same (x.entry_symmetric f d m)) (λ q. ne (sym q ∙ same))))
            | inr n' ↦ rw (n, n') (x.entries f d m ne)
          ]
        ])

  started_serial : (g n : ℕ) → ((count_started e t b s).entry (entry_of g (inst n))).run_count ≤ 1
  started_serial g n =
      rw (started_entry e t b s (entry_of g (inst n)))
        (elim (Bool-cases (same_entry e (entry_of g (inst n)))) [
          | inl y ↦
              let same : e ≡ entry_of g (inst n) = (same_entry_iff e (entry_of g (inst n))).0 y in
              let none_running : (s.entry (entry_of g (inst n))).run_count ≡ 0 =
                rw (← same) (r.idle (ap (λ f. is_any (instance_of f)) same)) in
              rw y (omega arith)
          | inr k ↦ rw k (x.serial g n)
        ])

  pub count_started-Exclusive : Exclusive (count_started e t b s)
  count_started-Exclusive = record {
    groups = λ g h m ne. started_groups g h (rw (started_policy e t b s g) at m) ne;
    entries = λ f d m ne. started_entries f d (rw (started_policyq e t b s f) at m) ne;
    serial = started_serial;
    own = λ g n. rw (started_policyq e t b s (entry_of g (inst n))) (x.own g n);
    group_symmetric = λ g h m.
        rw (started_policy e t b s h) (x.group_symmetric g h (rw (started_policy e t b s g) at m));
    entry_symmetric = λ f d m.
        rw (started_policyq e t b s d)
          (x.entry_symmetric f d (rw (started_policyq e t b s f) at m));
    waiting = λ f u m. started_owner e t b s u ∙ x.waiting f u (rw (started_waitq e t b s f) at m);
  }

  -- An entry with instance -1 stays ready, so that its whole wait queue can start.
  pub count_started-Ready : is_any (instance_of e) ≡ true → Ready (count_started e t b s) e
  count_started-Ready a = record {
    no_group = λ h m ne.
        let other : (id_of e == h) ≡ false = ground arith in
        rw (started_group e t b s h, own_group, other)
          (r.no_group h (rw (started_policy e t b s (id_of e)) at m) ne);
    no_entry = λ f m ne.
        rw (started_entry e t b s f, not_same e f ne)
          (r.no_entry f (rw (started_policyq e t b s e) at m) ne);
    idle = λ n. absurd (false≢true (sym n ∙ a));
  }
