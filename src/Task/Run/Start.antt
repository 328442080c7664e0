-- ===== src/Task/Run/Start.antt =====
-- `RunTask`, `RunWaitQ` and `RunDeferEntry` keep the exclusion of tasks.
use tf_common.Common.{
  Has, ℕ, ◌≡◌, refl, ◌∙◌, ◌⊎◌, inl, inr, Bool, true, false, not, Option, none, some, List, [], ◌∷◌,
  Bool-cases, if◌then◌else◌,
}
use tf_common.Task.{
  TaskScheduler, EntryRef, entry_of, disable_entry, stop_entry, any, inst, is_empty, ◌>>=◌, id_of,
  instance_of,
}
use tf_common.Task.Run.{
  delete_from_wait_q, wait_if_first, on_group, on_entry, add_to_defer_q, active_group_in_policy,
  active_entry_in_policy, defer_on_group, defer_on_entry, is_any, start_task, count_started,
  run_task, run_all, run_first, run_wait_q, run_waiting, run_defer_entry,
}
use tf_common.Task.Run.Frame.{
  owner, Frame, Frame-refl, Frame-trans, put_task-Frame, delete_from_wait_q-Frame,
  wait_if_first-Frame, Ensures, Ensures-assert, Ensures-bind, add_to_defer_q-Frame,
}
use tf_common.Task.Run.Exclusion.{
  Exclusive, Ready, Frame-Exclusive, Frame-Ready, first_active_group-none, first_active_entry-none,
  count_started-Exclusive, count_started-Ready, started_owner,
}

start_task-Frame : (t : ℕ) (s : TaskScheduler) → Ensures (Frame s) (start_task t s)
unfolding start_task
start_task-Frame t s =
    Ensures-assert (Frame s) (not (s.task t).has_impl) _ (λ _. put_task-Frame s t _ refl refl)

-- What a start leaves.
record Started (e : EntryRef) (s s' : TaskScheduler) : Type 0 where
  pub exclusive : Exclusive s'
  pub ready : is_any (instance_of e) ≡ true → Ready s' e
  pub owners : (u : ℕ) → owner s' u ≡ owner s u

run_task-Started :
    (e : EntryRef) (t : ℕ) (s : TaskScheduler)
    → Exclusive s
    → Ready s e
    → owner s t ≡ e
    → Ensures (Started e s) (run_task e t s)
unfolding run_task
run_task-Started e t s x r o =
    Ensures-assert (Started e s) _ (start_task t counted)
      λ _. weaken (start_task t counted) (start_task-Frame t counted)
  where
    any_instance : Bool
    any_instance = is_any (s.task t).task_instance

    counted : TaskScheduler
    counted = count_started e t any_instance s

    weaken : (m : Option TaskScheduler) → Ensures (Frame counted) m → Ensures (Started e s) m
    weaken none h = tt
    weaken (some s') f = record {
      exclusive = Frame-Exclusive f (count_started-Exclusive e t any_instance s x r o);
      ready = λ a. Frame-Ready e f (count_started-Ready e t any_instance s x r o a);
      owners = λ u. f.owners u ∙ started_owner e t any_instance s u;
    }

-- A task that starts when nothing it excludes is running.
pub run_task-Exclusive :
    (e : EntryRef) (t : ℕ) (s : TaskScheduler)
    → Exclusive s
    → Ready s e
    → owner s t ≡ e
    → Ensures Exclusive (run_task e t s)
run_task-Exclusive e t s x r o = weaken (run_task e t s) (run_task-Started e t s x r o)
  where
    weaken : (m : Option TaskScheduler) → Ensures (Started e s) m → Ensures Exclusive m
    weaken none h = tt
    weaken (some s') d = d.exclusive

run_all-Exclusive :
    (e : EntryRef) (ts : List ℕ) (s : TaskScheduler)
    → is_any (instance_of e) ≡ true
    → Exclusive s
    → Ready s e
    → ((u : ℕ) → Has ts u → owner s u ≡ e)
    → Ensures Exclusive (run_all e ts s)
unfolding run_all
run_all-Exclusive e [] s a x r o = x
run_all-Exclusive e (t ∷ ts) s a x r o =
    Ensures-bind (Started e s₁) Exclusive (run_task e t s₁) (run_all e ts)
      (run_task-Started e t s₁ (Frame-Exclusive f x) (Frame-Ready e f r)
        (f.owners t ∙ o t (inl refl)))
      (λ s' d.
        run_all-Exclusive e ts s' a d.exclusive (d.ready a)
          (λ u m. d.owners u ∙ f.owners u ∙ o u (inr m)))
  where
    s₁ : TaskScheduler
    s₁ = delete_from_wait_q e t s

    f : Frame s s₁
    f = delete_from_wait_q-Frame e t s

pub Frame-after :
    (s : TaskScheduler) (m : Option TaskScheduler)
    → Exclusive s
    → Ensures (Frame s) m
    → Ensures Exclusive m
Frame-after s none x f = tt
Frame-after s (some s') x f = Frame-Exclusive f x

run_first-Exclusive :
    (e : EntryRef) (ts : List ℕ) (s : TaskScheduler)
    → Exclusive s
    → Ready s e
    → ((u : ℕ) → Has ts u → owner s u ≡ e)
    → Ensures Exclusive (run_first e ts s)
unfolding run_first
run_first-Exclusive e [] s x r o = x
run_first-Exclusive e (t ∷ ts) s x r o =
    Ensures-bind (Started e s₁) Exclusive (run_task e t s₁) _
      (run_task-Started e t s₁ (Frame-Exclusive f x) (Frame-Ready e f r)
        (f.owners t ∙ o t (inl refl)))
      (λ s' d. requeue s' d.exclusive (Bool-cases (is_empty (s'.entry e).waitq)))
  where
    s₁ : TaskScheduler
    s₁ = delete_from_wait_q e t s

    f : Frame s s₁
    f = delete_from_wait_q-Frame e t s

    requeue :
        (s' : TaskScheduler)
        → Exclusive s'
        → (is_empty (s'.entry e).waitq ≡ true) ⊎ (is_empty (s'.entry e).waitq ≡ false)
        → Ensures Exclusive
            (if is_empty (s'.entry e).waitq then some s' else add_to_defer_q (on_entry e) e s')
    requeue s' y (inl q) = rw q y
    requeue s' y (inr q) = rw q (
        Frame-after s' (add_to_defer_q (on_entry e) e s') y
          (add_to_defer_q-Frame (on_entry e) e s'))

pub run_wait_q-Exclusive :
    (e : EntryRef) (s : TaskScheduler)
    → Exclusive s
    → Ready s e
    → Ensures Exclusive (run_wait_q e s)
unfolding run_wait_q
run_wait_q-Exclusive e s x r = elim (Bool-cases (is_any (instance_of e))) [
  | inl a ↦ rw a (run_all-Exclusive e (s.entry e).waitq s a x r (x.waiting e))
  | inr a ↦ rw a (run_first-Exclusive e (s.entry e).waitq s x r (x.waiting e))
]

-- After the policy checks: deferred, or free to run with nothing changed.
abbrev pub Checked : {B : Type 0} → Option B → TaskScheduler → Bool × TaskScheduler → Type 0
Checked active s (deferred, s') = Frame s s' × (deferred ≡ false → (s' ≡ s) × (active ≡ none))

pub defer_on_group-Checked :
    (g : ℕ) (e : EntryRef) (t : ℕ) (s : TaskScheduler)
    → owner s t ≡ e
    → Ensures (Checked (active_group_in_policy s g) s) (defer_on_group g e t s)
unfolding defer_on_group
defer_on_group-Checked g e t s o = go (active_group_in_policy s g)
  where
    go :
        (active : Option ℕ)
        → Ensures (Checked active s) (elim active [
          | none ↦ some (false, s)
          | some h ↦ add_to_defer_q (on_group h) e (wait_if_first e t s) >>= λ s'. some (true, s')
        ])
    go none = (Frame-refl s, λ _. (refl, refl))
    go (some h) =
        Ensures-bind (Frame (wait_if_first e t s)) (Checked (some h) s)
          (add_to_defer_q (on_group h) e (wait_if_first e t s)) _
          (add_to_defer_q-Frame (on_group h) e (wait_if_first e t s))
          (λ s' f. (Frame-trans (wait_if_first-Frame e t s o) f, λ q. cc))

pub defer_on_entry-Checked :
    (e : EntryRef) (t : ℕ) (s : TaskScheduler)
    → owner s t ≡ e
    → Ensures (Checked (active_entry_in_policy s e) s) (defer_on_entry e t s)
unfolding defer_on_entry
defer_on_entry-Checked e t s o = go (active_entry_in_policy s e)
  where
    go :
        (active : Option EntryRef)
        → Ensures (Checked active s) (elim active [
          | none ↦ some (false, s)
          | some d ↦ add_to_defer_q (on_entry d) e (wait_if_first e t s) >>= λ s'. some (true, s')
        ])
    go none = (Frame-refl s, λ _. (refl, refl))
    go (some d) =
        Ensures-bind (Frame (wait_if_first e t s)) (Checked (some d) s)
          (add_to_defer_q (on_entry d) e (wait_if_first e t s)) _
          (add_to_defer_q-Frame (on_entry d) e (wait_if_first e t s))
          (λ s' f. (Frame-trans (wait_if_first-Frame e t s o) f, λ q. cc))

pub Ready-of_policies :
    (s : TaskScheduler) (e : EntryRef)
    → Exclusive s
    → active_group_in_policy s (id_of e) ≡ none
    → active_entry_in_policy s e ≡ none
    → Ready s e
unfolding active_group_in_policy active_entry_in_policy
Ready-of_policies s e x p q = record {
  no_group = λ h m ne. first_active_group-none s (s.group (id_of e)).policy p h m;
  no_entry = λ f m ne. first_active_entry-none s (s.entry e).policyq q f m;
  idle = own_idle e (first_active_entry-none s (s.entry e).policyq q);
}
  where
    own_idle :
        (e : EntryRef)
        → ((f : EntryRef) → Has (s.entry e).policyq f → (s.entry f).run_count ≡ 0)
        → is_any (instance_of e) ≡ false
        → (s.entry e).run_count ≡ 0
    own_idle (entry_of g (inst k)) h n = h (entry_of g (inst k)) (x.own g k)
    own_idle (entry_of g any) h n = cc
    own_idle (disable_entry g) h n = cc
    own_idle stop_entry h n = cc

-- `RunDeferEntry` from its first waiting task on.
pub run_waiting-Exclusive :
    (e : EntryRef) (t : ℕ) (s : TaskScheduler)
    → Exclusive s
    → owner s t ≡ e
    → Ensures Exclusive (run_waiting e t s)
unfolding run_waiting
run_waiting-Exclusive e t s x o =
    Ensures-bind (Checked (active_group_in_policy s (id_of e)) s) Exclusive
      (defer_on_group (id_of e) e t s) _ (defer_on_group-Checked (id_of e) e t s o)
      (λ r c. after_group r.0 r.1 c)
  where
    after_entry :
        (deferred : Bool) (s₂ : TaskScheduler)
        → active_group_in_policy s (id_of e) ≡ none
        → Checked (active_entry_in_policy s e) s (deferred, s₂)
        → Ensures Exclusive (if deferred then some s₂ else run_wait_q e s₂)
    after_entry true s₂ g c = Frame-Exclusive c.0 x
    after_entry false s₂ g c =
        let same : s₂ ≡ s = (c.1 refl).0 in
        rw same (run_wait_q-Exclusive e s x (Ready-of_policies s e x g (c.1 refl).1))

    after_group :
        (deferred : Bool) (s₁ : TaskScheduler)
        → Checked (active_group_in_policy s (id_of e)) s (deferred, s₁)
        → Ensures Exclusive (
            if deferred
            then some s₁
            else (defer_on_entry e t s₁ >>= λ (deferred, s₂).
                if deferred then some s₂ else run_wait_q e s₂))
    after_group true s₁ c = Frame-Exclusive c.0 x
    after_group false s₁ c =
        let same : s₁ ≡ s = (c.1 refl).0 in
        rw same (
          Ensures-bind (Checked (active_entry_in_policy s e) s) Exclusive (defer_on_entry e t s) _
            (defer_on_entry-Checked e t s o) (λ r d. after_entry r.0 r.1 (c.1 refl).1 d))

-- `RunDeferEntry` starts tasks only where no excluded task runs.
pub run_defer_entry-Exclusive :
    (e : EntryRef) (s : TaskScheduler) → Exclusive s → Ensures Exclusive (run_defer_entry e s)
unfolding run_defer_entry
run_defer_entry-Exclusive e s x = go (s.entry e).waitq (x.waiting e)
  where
    go :
        (ts : List ℕ)
        → ((t : ℕ) → Has ts t → owner s t ≡ e)
        → Ensures Exclusive (elim ts [ [] ↦ none | t ∷ _ ↦ run_waiting e t s ])
    go [] o = tt
    go (t ∷ ts) o = run_waiting-Exclusive e t s x (o t (inl refl))
