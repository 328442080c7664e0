-- ===== src/Task/Run/Frame.antt =====
-- What the queueing methods leave alone: run counts, policies, and whose queue a task waits in.
use tf_common.Common.{
  Has, ℕ, ◌≡◌, ◌↔◌, refl, sym, ◌∙◌, ◌⊎◌, inl, inr, Bool, true, false, Option, none, some, List, [],
  ◌∷◌, ◌++◌, arith, Bool-cases, ◌==◌,
}
use tf_common.Task.{
  Task, TaskEntry, TaskGroup, TaskScheduler, EntryRef, entry_of, disable_entry, stop_entry,
  Instance, any, inst, same_entry, same_instance, put_group, put_entry, put_task, is_empty, is_none,
  assert, ◌>>=◌, ◌>>◌, id_of,
}
use tf_common.Task.Run.{
  add_to_wait_q, remove_task, delete_from_wait_q, wait_if_first, Deferred, on_group, on_entry,
  add_to_defer_q, delete_from_defer_q, hook, unhook, link, unlink, is_free, is_linked,
}

pub same_entry_iff : (e f : EntryRef) → (same_entry e f ≡ true) ↔ (e ≡ f)
same_entry_iff (entry_of g any) (entry_of h any) = ground arith
same_entry_iff (entry_of g any) (entry_of h (inst m)) = ground arith
same_entry_iff (entry_of g (inst n)) (entry_of h any) = ground arith
same_entry_iff (entry_of g (inst n)) (entry_of h (inst m)) = ground arith
same_entry_iff (entry_of g i) (disable_entry h) = ground arith
same_entry_iff (entry_of g i) stop_entry = ground arith
same_entry_iff (disable_entry g) (entry_of h j) = ground arith
same_entry_iff (disable_entry g) (disable_entry h) = ground arith
same_entry_iff (disable_entry g) stop_entry = ground arith
same_entry_iff stop_entry (entry_of h j) = ground arith
same_entry_iff stop_entry (disable_entry h) = ground arith
same_entry_iff stop_entry stop_entry = ground arith

-- The entry that a task belongs to.
abbrev pub owner : TaskScheduler → ℕ → EntryRef
owner s t = entry_of (s.task t).task_id (s.task t).task_instance

pub record Frame (s s' : TaskScheduler) : Type 0 where
  pub group_runs : (g : ℕ) → (s'.group g).run_count ≡ (s.group g).run_count
  pub group_policy : (g : ℕ) → (s'.group g).policy ≡ (s.group g).policy
  pub entry_runs : (e : EntryRef) → (s'.entry e).run_count ≡ (s.entry e).run_count
  pub entry_policy : (e : EntryRef) → (s'.entry e).policyq ≡ (s.entry e).policyq
  pub owners : (t : ℕ) → owner s' t ≡ owner s t
  pub waits :
      (e : EntryRef) (t : ℕ) → Has (s'.entry e).waitq t → Has (s.entry e).waitq t ⊎ (owner s t ≡ e)

pub Frame-refl : (s : TaskScheduler) → Frame s s
Frame-refl s = record {
  group_runs = λ g. refl;
  group_policy = λ g. refl;
  entry_runs = λ e. refl;
  entry_policy = λ e. refl;
  owners = λ t. refl;
  waits = λ e t h. inl h;
}

pub Frame-trans : {r s t : TaskScheduler} → Frame r s → Frame s t → Frame r t
Frame-trans {r} {s} {t} f g = record {
  group_runs = λ i. g.group_runs i ∙ f.group_runs i;
  group_policy = λ i. g.group_policy i ∙ f.group_policy i;
  entry_runs = λ i. g.entry_runs i ∙ f.entry_runs i;
  entry_policy = λ i. g.entry_policy i ∙ f.entry_policy i;
  owners = λ i. g.owners i ∙ f.owners i;
  waits =
      λ e i h. elim (g.waits e i h) [ inl k ↦ f.waits e i k | inr k ↦ inr (sym (f.owners i) ∙ k) ];
}

pub put_entry-Frame :
    (s : TaskScheduler) (e : EntryRef) (v : TaskEntry)
    → v.run_count ≡ (s.entry e).run_count
    → v.policyq ≡ (s.entry e).policyq
    → ((t : ℕ) → Has v.waitq t → Has (s.entry e).waitq t ⊎ (owner s t ≡ e))
    → Frame s (put_entry s e v)
put_entry-Frame s e v runs pol w = record {
  group_runs = λ g. refl;
  group_policy = λ g. refl;
  entry_runs = λ f. ground (arith, same_entry_iff e f);
  entry_policy = λ f. ground (arith, same_entry_iff e f);
  owners = λ t. refl;
  waits = λ f t. elim (Bool-cases (same_entry e f)) [
    | inl y ↦ let h : e ≡ f = (same_entry_iff e f).0 y in rw y (rw (← h) (w t))
    | inr n ↦ rw n (λ h. inl h)
  ];
}

pub put_group-Frame :
    (s : TaskScheduler) (g : ℕ) (v : TaskGroup)
    → v.run_count ≡ (s.group g).run_count
    → v.policy ≡ (s.group g).policy
    → Frame s (put_group s g v)
put_group-Frame s g v runs pol = record {
  group_runs = λ h. ground arith;
  group_policy = λ h. ground arith;
  entry_runs = λ e. refl;
  entry_policy = λ e. refl;
  owners = λ t. refl;
  waits = λ e t h. inl h;
}

pub put_task-Frame :
    (s : TaskScheduler) (t : ℕ) (v : Task)
    → v.task_id ≡ (s.task t).task_id
    → v.task_instance ≡ (s.task t).task_instance
    → Frame s (put_task s t v)
put_task-Frame s t v id i = record {
  group_runs = λ h. refl;
  group_policy = λ h. refl;
  entry_runs = λ e. refl;
  entry_policy = λ e. refl;
  owners = λ u. ground arith;
  waits = λ e t h. inl h;
}

Has-append : (xs : List ℕ) (t u : ℕ) → Has (xs ++ t ∷ []) u → Has xs u ⊎ (t ≡ u)
Has-append [] t u (inl e) = inr e
Has-append [] t u (inr h) = elim h [ ]
Has-append (x ∷ xs) t u (inl e) = inl (inl e)
Has-append (x ∷ xs) t u (inr h) = elim (Has-append xs t u h) [ inl k ↦ inl (inr k) | inr e ↦ inr e ]

Has-remove : (t : ℕ) (xs : List ℕ) (u : ℕ) → Has (remove_task t xs) u → Has xs u
unfolding remove_task
Has-remove t (x ∷ xs) u = elim (Bool-cases (t == x)) [
  | inl y ↦ rw y (λ h. inr h)
  | inr n ↦ rw n (elim [ inl e ↦ inl e | inr h ↦ inr (Has-remove t xs u h) ])
]
Has-remove t [] u = λ h. h

-- A task that joins the queue of its own entry.
pub add_to_wait_q-Frame :
    (e : EntryRef) (t : ℕ) (s : TaskScheduler) → owner s t ≡ e → Frame s (add_to_wait_q e t s)
unfolding add_to_wait_q
add_to_wait_q-Frame e t s o = Frame-trans (put_task-Frame s t _ refl refl) (
    Frame-trans
      (put_entry-Frame s₁ e _ refl refl λ u h. elim (Has-append (s.entry e).waitq t u h) [
        | inl k ↦ inl k
        | inr q ↦ inr (rw (← q) ((put_task-Frame s t waiting refl refl).owners t ∙ o))
      ])
      (put_group-Frame _ (id_of e) _ refl refl))
  where
    waiting : Task
    waiting = record (s.task t) { state = tf_common.Task.State.wait }

    s₁ : TaskScheduler
    s₁ = put_task s t waiting

pub delete_from_wait_q-Frame :
    (e : EntryRef) (t : ℕ) (s : TaskScheduler) → Frame s (delete_from_wait_q e t s)
unfolding delete_from_wait_q
delete_from_wait_q-Frame e t s =
    put_entry-Frame s e _ refl refl (λ u h. inl (Has-remove t (s.entry e).waitq u h))

pub wait_if_first-Frame :
    (e : EntryRef) (t : ℕ) (s : TaskScheduler) → owner s t ≡ e → Frame s (wait_if_first e t s)
wait_if_first-Frame e t s o = elim (Bool-cases (is_empty (s.entry e).waitq)) [
  | inl y ↦ rw y (add_to_wait_q-Frame e t s o)
  | inr n ↦ rw n (Frame-refl s)
]

-- What holds of the state that a method leaves, unless an assert fails first.
abbrev pub Ensures : {A : Type 0} → (A → Type 0) → Option A → Type 0
Ensures P none = Unit {0}
Ensures P (some a) = P a

pub Ensures-assert :
    {A : Type 0} (P : A → Type 0) (b : Bool) (m : Option A)
    → (b ≡ true → Ensures P m)
    → Ensures P (assert b >> m)
Ensures-assert P true m h = h refl
Ensures-assert P false m h = tt

pub Ensures-bind :
    {A B : Type 0} (P : A → Type 0) (Q : B → Type 0) (m : Option A) (f : A → Option B)
    → Ensures P m
    → ((a : A) → P a → Ensures Q (f a))
    → Ensures Q (m >>= f)
Ensures-bind P Q none f h k = tt
Ensures-bind P Q (some a) f h k = k a h

pub Ensures-weaken :
    {A : Type 0} (P Q : A → Type 0) (m : Option A)
    → ((a : A) → P a → Q a)
    → Ensures P m
    → Ensures Q m
Ensures-weaken P Q none k h = tt
Ensures-weaken P Q (some a) k h = k a h

pub hook-Frame : (q : Deferred) (e : EntryRef) (s : TaskScheduler) → Frame s (hook q e s)
unfolding hook
hook-Frame (on_group g) e s = put_group-Frame s g _ refl refl
hook-Frame (on_entry d) e s = put_entry-Frame s d _ refl refl (λ t h. inl h)

unhook-Frame : (q : Deferred) (e : EntryRef) (s : TaskScheduler) → Frame s (unhook q e s)
unfolding unhook
unhook-Frame (on_group g) e s = put_group-Frame s g _ refl refl
unhook-Frame (on_entry d) e s = put_entry-Frame s d _ refl refl (λ t h. inl h)

pub link-Frame : (q : Deferred) (e : EntryRef) (s : TaskScheduler) → Frame s (link q e s)
unfolding link
link-Frame (on_group g) e s = put_entry-Frame s e _ refl refl (λ t h. inl h)
link-Frame (on_entry d) e s = put_entry-Frame s e _ refl refl (λ t h. inl h)

unlink-Frame : (q : Deferred) (e : EntryRef) (s : TaskScheduler) → Frame s (unlink q e s)
unfolding unlink
unlink-Frame (on_group g) e s = put_entry-Frame s e _ refl refl (λ t h. inl h)
unlink-Frame (on_entry d) e s = put_entry-Frame s e _ refl refl (λ t h. inl h)

pub add_to_defer_q-Frame :
    (q : Deferred) (e : EntryRef) (s : TaskScheduler) → Ensures (Frame s) (add_to_defer_q q e s)
unfolding add_to_defer_q
add_to_defer_q-Frame q e s =
    Ensures-assert (Frame s) (is_free q e (hook q e s)) (some (link q e (hook q e s)))
      λ _. Frame-trans (hook-Frame q e s) (link-Frame q e (hook q e s))

pub delete_from_defer_q-Frame :
    (q : Deferred) (e : EntryRef) (s : TaskScheduler)
    → Ensures (Frame s) (delete_from_defer_q q e s)
unfolding delete_from_defer_q
delete_from_defer_q-Frame q e s =
    Ensures-assert (Frame s) (is_linked q e s) (some (unlink q e (unhook q e s)))
      λ _. Frame-trans (unhook-Frame q e s) (unlink-Frame q e (unhook q e s))
