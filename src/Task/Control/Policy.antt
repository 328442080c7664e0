-- ===== src/Task/Control/Policy.antt =====
-- `SetPolicy` enters rules both ways, so that the tasks that it names exclude one another.
use tf_common.Common.{
  Has, ℕ, ◌≡◌, ◌↔◌, refl, sym, ◌∙◌, ◌⊎◌, inl, inr, Bool, true, false, not, none, some, List, [],
  ◌∷◌, ◌++◌, arith, Bool-cases, ◌==◌, ==_iff,
}
use mathlib.Core.Bool.{false≢true}
use tf_common.Task.{
  TaskScheduler, EntryRef, entry_of, Instance, any, inst, ◌>>◌, assert, same_entry, put_group,
}
use tf_common.Task.Run.Frame.{Frame, Frame-trans, put_group-Frame, same_entry_iff, Ensures}
use tf_common.Task.Run.Exclusion.{Exclusive, Frame-Exclusive}
use tf_common.Task.Scheduler.{get_task_entry}
use tf_common.Task.Scheduler.Places.{get_task_entry-Frame}
use tf_common.Task.Control.{
  TaskExclusion, add_group_policy, add_entry_policy, exclude_groups, exclude_entries,
  apply_exclusion, apply_policy, set_policy,
}

-- Nothing runs.
pub record Idle (s : TaskScheduler) : Type 0 where
  pub groups : (g : ℕ) → (s.group g).run_count ≡ 0
  pub entries : (e : EntryRef) → (s.entry e).run_count ≡ 0

Has-snoc_iff : {A : Type 0} (xs : List A) (a b : A) → Has (xs ++ a ∷ []) b ↔ (Has xs b ⊎ (a ≡ b))
Has-snoc_iff [] a b =
    (elim [ inl e ↦ inr e | inr h ↦ absurd h ], elim [ inl h ↦ absurd h | inr e ↦ inl e ])
Has-snoc_iff (x ∷ xs) a b =
    let ih = Has-snoc_iff xs a b in
    (
      elim [ inl e ↦ inl (inl e) | inr h ↦ elim (ih.0 h) [ inl k ↦ inl (inr k) | inr e ↦ inr e ] ],
      elim [
        | inl h ↦ elim h [ inl e ↦ inl e | inr k ↦ inr (ih.1 (inl k)) ]
        | inr e ↦ inr (ih.1 (inr e))
      ],
    )

unfoldable pub Joined : {A : Type 0} → Type 0 → A → A → A → A → Type 0
Joined H g h a b = H ⊎ ((g ≡ a) × (h ≡ b))

pub add_group_policy_iff :
    (g h : ℕ) (s : TaskScheduler) (a b : ℕ)
    → Has ((add_group_policy g h s).group a).policy b ↔ Joined (Has (s.group a).policy b) g h a b
unfolding add_group_policy Joined
add_group_policy_iff g h s a b = elim (Bool-cases (g == a)) [
  | inl y ↦
      let same : g ≡ a = (==_iff g a).0 y in
      let step = Has-snoc_iff (s.group g).policy h b in
      rw y (
        rw (← same) (
          λ m. elim (step.0 m) [ inl k ↦ inl k | inr q ↦ inr (refl, q) ],
          elim [ inl k ↦ step.1 (inl k) | inr q ↦ step.1 (inr q.1) ],
        ))
  | inr n ↦
      rw n
        (λ m. inl m, elim [ inl k ↦ k | inr q ↦ absurd (false≢true (sym n ∙ (==_iff g a).1 q.0)) ])
]

pub add_entry_policy_iff :
    (g h : EntryRef) (s : TaskScheduler) (a b : EntryRef)
    → Has ((add_entry_policy g h s).entry a).policyq b ↔ Joined (Has (s.entry a).policyq b) g h a b
unfolding add_entry_policy Joined
add_entry_policy_iff g h s a b = elim (Bool-cases (same_entry g a)) [
  | inl y ↦
      let same : g ≡ a = (same_entry_iff g a).0 y in
      let step = Has-snoc_iff (s.entry g).policyq h b in
      rw y (
        rw (← same) (
          λ m. elim (step.0 m) [ inl k ↦ inl k | inr q ↦ inr (refl, q) ],
          elim [ inl k ↦ step.1 (inl k) | inr q ↦ step.1 (inr q.1) ],
        ))
  | inr n ↦ rw n (
    λ m. inl m,
    elim [ inl k ↦ k | inr q ↦ absurd (false≢true (sym n ∙ (same_entry_iff g a).1 q.0)) ],
  )
]

-- A relation stays symmetric with a pair and its mirror image.
module _ {A : Type 0} {P Q R : A → A → Type 0} (g h : A)
    (first : (a b : A) → Q a b ↔ Joined (P a b) g h a b)
    (second : (a b : A) → R a b ↔ Joined (Q a b) h g a b)
    (symmetric : (a b : A) → P a b → P b a) where
  mirror-symmetric : (a b : A) → R a b → R b a
  unfolding Joined
  mirror-symmetric a b r = elim ((second a b).0 r) [
    | inl q ↦ (second b a).1 (elim ((first a b).0 q) [
      | inl p ↦ inl ((first b a).1 (inl (symmetric a b p)))
      | inr e ↦ inr (e.1, e.0)
    ])
    | inr e ↦ (second b a).1 (inl ((first b a).1 (inr (e.1, e.0))))
  ]

-- Nothing runs, and the policies are those of such a state.
Calm : TaskScheduler → Type 0
Calm s = Idle s × Exclusive s

exclude_groups-Calm : (g h : ℕ) (s : TaskScheduler) → Calm s → Calm (exclude_groups g h s)
unfolding exclude_groups add_group_policy Calm
exclude_groups-Calm g h s (idle, x) = (
  still,
  record {
    groups = λ a b m ne. inl (still.groups a);
    entries = x.entries;
    serial = x.serial;
    own = x.own;
    group_symmetric =
        mirror-symmetric {P = λ a b. Has (s.group a).policy b}
          {Q = λ a b. Has ((add_group_policy g h s).group a).policy b}
          {R = λ a b. Has ((exclude_groups g h s).group a).policy b} g h
          (add_group_policy_iff g h s) (add_group_policy_iff h g (add_group_policy g h s))
          x.group_symmetric;
    entry_symmetric = x.entry_symmetric;
    waiting = x.waiting;
  },
)
  where
    still : Idle (exclude_groups g h s)
    still = record { groups = λ a. let i = idle.groups a in ground arith; entries = idle.entries }

exclude_entries-Calm : (e f : EntryRef) (s : TaskScheduler) → Calm s → Calm (exclude_entries e f s)
unfolding exclude_entries add_entry_policy Calm Joined
exclude_entries-Calm e f s (idle, x) = (
  still,
  record {
    groups = x.groups;
    entries = λ a b m ne. inl (still.entries a);
    serial = λ g n. let i = still.entries (entry_of g (inst n)) in omega arith;
    own = λ g n.
        let own = entry_of g (inst n) in
        (second own own).1 (inl ((first own own).1 (inl (x.own g n))));
    group_symmetric = x.group_symmetric;
    entry_symmetric =
        mirror-symmetric {P = λ a b. Has (s.entry a).policyq b}
          {Q = λ a b. Has ((add_entry_policy e f s).entry a).policyq b}
          {R = λ a b. Has ((exclude_entries e f s).entry a).policyq b} e f
          (add_entry_policy_iff e f s) (add_entry_policy_iff f e (add_entry_policy e f s))
          x.entry_symmetric;
    waiting = λ a t m. x.waiting a t (rw (queues a) at m);
  },
)
  where
    still : Idle (exclude_entries e f s)
    still = record {
      groups = idle.groups;
      entries =
          λ a. let i = idle.entries a in ground (arith, same_entry_iff e a, same_entry_iff f a);
    }

    queues : (a : EntryRef) → ((exclude_entries e f s).entry a).waitq ≡ (s.entry a).waitq
    queues a = ground (arith, same_entry_iff e a, same_entry_iff f a)

    first :
        (a b : EntryRef)
        → Has ((add_entry_policy e f s).entry a).policyq b
          ↔ Joined (Has (s.entry a).policyq b) e f a b
    first a b = add_entry_policy_iff e f s a b

    second :
        (a b : EntryRef)
        → Has ((exclude_entries e f s).entry a).policyq b
          ↔ Joined (Has ((add_entry_policy e f s).entry a).policyq b) f e a b
    second a b = add_entry_policy_iff f e (add_entry_policy e f s) a b

Frame-Calm : {s s' : TaskScheduler} → Frame s s' → Calm s → Calm s'
unfolding Calm
Frame-Calm f (idle, x) = (
  record {
    groups = λ g. f.group_runs g ∙ idle.groups g;
    entries = λ e. f.entry_runs e ∙ idle.entries e;
  },
  Frame-Exclusive f x,
)

apply_exclusion-Calm :
    (g : ℕ) (rule : TaskExclusion) (s : TaskScheduler) → Calm s → Calm (apply_exclusion g rule s)
unfolding apply_exclusion
apply_exclusion-Calm g rule s c = go rule.match_instance
  where
    go :
        (i : Instance)
        → Calm (elim i [
          | any ↦ exclude_groups g rule.match_id s
          | inst n ↦ exclude_entries (entry_of g any) (entry_of rule.match_id (inst n)) (
              exclude_entries
                (entry_of g (inst n))
                (entry_of rule.match_id (inst n))
                (get_task_entry rule.match_id (inst n) (get_task_entry g (inst n) s)))
        ])
    go any = exclude_groups-Calm g rule.match_id s c
    go (inst n) = exclude_entries-Calm (entry_of g any) (entry_of rule.match_id (inst n)) _ (
        exclude_entries-Calm (entry_of g (inst n)) (entry_of rule.match_id (inst n)) _ (
          Frame-Calm
            (Frame-trans (get_task_entry-Frame g (inst n) s)
              (get_task_entry-Frame rule.match_id (inst n) (get_task_entry g (inst n) s)))
            c))

apply_policy-Calm :
    (g : ℕ) (policy : List TaskExclusion) (s : TaskScheduler)
    → Calm s
    → Calm (apply_policy g policy s)
unfolding apply_policy
apply_policy-Calm g [] s c = c
apply_policy-Calm g (rule ∷ rules) s c =
    apply_policy-Calm g rules (apply_exclusion g rule s) (apply_exclusion-Calm g rule s c)

-- Where no run count is above 0 and the invariant of the exclusion holds, setting a policy leaves a
-- state in which it holds, and it fails exactly for a group whose policy is already set.
pub set_policy-Exclusive :
    (g : ℕ) (policy : List TaskExclusion) (s : TaskScheduler)
    → Idle s
    → Exclusive s
    → Ensures Exclusive (set_policy g policy s)
      × (((s.group g).policy_set ≡ true) ↔ (set_policy g policy s ≡ none))
unfolding set_policy Calm
set_policy-Exclusive g policy s idle x = go (s.group g).policy_set refl
  where
    after : TaskScheduler
    after = apply_policy g policy (put_group s g (record (s.group g) { policy_set = true }))

    kept : Calm after
    kept = apply_policy-Calm g policy _ (Frame-Calm (put_group-Frame s g _ refl refl) (idle, x))

    go :
        (b : Bool)
        → (s.group g).policy_set ≡ b
        → Ensures Exclusive (assert (not b) >> some after)
          × ((b ≡ true) ↔ (assert (not b) >> some after ≡ none))
    go true e = (tt, (λ _. refl, λ _. refl))
    go false e = (kept.1, (λ q. cc, λ q. cc))
