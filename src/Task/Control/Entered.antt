-- ===== src/Task/Control/Entered.antt =====
-- `SetPolicy` enters every rule in the policies of both sides, and takes none away.
use tf_common.Common.{
  Has, ℕ, ◌≡◌, ◌↔◌, refl, sym, inl, inr, Bool, true, false, not, none, some, List, [], ◌∷◌,
}
use mathlib.Core.Path.{subst}
use tf_common.Task.{TaskScheduler, EntryRef, entry_of, Instance, any, inst, ◌>>◌, assert, put_group}
use tf_common.Task.Run.Frame.{Frame, Frame-trans, put_group-Frame, Ensures}
use tf_common.Task.Run.Exclusion.{Exclusive}
use tf_common.Task.Scheduler.{get_task_entry}
use tf_common.Task.Scheduler.Places.{get_task_entry-Frame}
use tf_common.Task.Control.{
  TaskExclusion, add_group_policy, add_entry_policy, exclude_groups, exclude_entries,
  apply_exclusion, apply_policy, set_policy,
}
use tf_common.Task.Control.Policy.{
  Idle, Joined, add_group_policy_iff, add_entry_policy_iff, set_policy-Exclusive,
}

-- No rule is taken away.
pub record Kept (s s' : TaskScheduler) : Type 0 where
  pub groups : (a b : ℕ) → Has (s.group a).policy b → Has (s'.group a).policy b
  pub entries : (a b : EntryRef) → Has (s.entry a).policyq b → Has (s'.entry a).policyq b

Kept-trans : {r s t : TaskScheduler} → Kept r s → Kept s t → Kept r t
Kept-trans k l = record {
  groups = λ a b m. l.groups a b (k.groups a b m);
  entries = λ a b m. l.entries a b (k.entries a b m);
}

Frame-Kept : {s s' : TaskScheduler} → Frame s s' → Kept s s'
Frame-Kept f = record {
  groups = λ a b m. subst (λ p. Has p b) (sym (f.group_policy a)) m;
  entries = λ a b m. subst (λ p. Has p b) (sym (f.entry_policy a)) m;
}

-- Each of two groups, or entries, is in the policy of the other.
abbrev pub BothGroups : TaskScheduler → ℕ → ℕ → Type 0
BothGroups s g h = Has (s.group g).policy h × Has (s.group h).policy g

abbrev pub BothEntries : TaskScheduler → EntryRef → EntryRef → Type 0
BothEntries s e f = Has (s.entry e).policyq f × Has (s.entry f).policyq e

-- A rule for a group excludes the groups; one for an instance excludes the instances, and the
-- entry of the group from the other instance.
pub EnteredRule : ℕ → TaskExclusion → TaskScheduler → Type 0
EnteredRule g rule s = elim (rule.match_instance) [
  | any ↦ BothGroups s g rule.match_id
  | inst n ↦
      BothEntries s (entry_of g (inst n)) (entry_of rule.match_id (inst n))
      × BothEntries s (entry_of g any) (entry_of rule.match_id (inst n))
]

pub Entered : ℕ → List TaskExclusion → TaskScheduler → Type 0
unfolding EnteredRule
Entered g [] s = Unit {0}
Entered g (rule ∷ rules) s = EnteredRule g rule s × Entered g rules s

add_group_policy-Kept : (g h : ℕ) (s : TaskScheduler) → Kept s (add_group_policy g h s)
unfolding add_group_policy Joined
add_group_policy-Kept g h s = record {
  groups = λ a b m. (add_group_policy_iff g h s a b).1 (inl m);
  entries = λ a b m. m;
}

add_entry_policy-Kept : (e f : EntryRef) (s : TaskScheduler) → Kept s (add_entry_policy e f s)
unfolding add_entry_policy Joined
add_entry_policy-Kept e f s = record {
  groups = λ a b m. m;
  entries = λ a b m. (add_entry_policy_iff e f s a b).1 (inl m);
}

exclude_groups-BothGroups :
    (g h : ℕ) (s : TaskScheduler)
    → Kept s (exclude_groups g h s) × BothGroups (exclude_groups g h s) g h
unfolding exclude_groups Joined
exclude_groups-BothGroups g h s =
    let first = add_group_policy g h s in
    let second = add_group_policy-Kept h g first in
    (
      Kept-trans (add_group_policy-Kept g h s) second,
      (
        second.groups g h ((add_group_policy_iff g h s g h).1 (inr (refl, refl))),
        (add_group_policy_iff h g first h g).1 (inr (refl, refl)),
      ),
    )

exclude_entries-BothEntries :
    (e f : EntryRef) (s : TaskScheduler)
    → Kept s (exclude_entries e f s) × BothEntries (exclude_entries e f s) e f
unfolding exclude_entries Joined
exclude_entries-BothEntries e f s =
    let first = add_entry_policy e f s in
    let second = add_entry_policy-Kept f e first in
    (
      Kept-trans (add_entry_policy-Kept e f s) second,
      (
        second.entries e f ((add_entry_policy_iff e f s e f).1 (inr (refl, refl))),
        (add_entry_policy_iff f e first f e).1 (inr (refl, refl)),
      ),
    )

-- The rule `(h, i)` of group `g`.
abbrev rule_of : ℕ → Instance → TaskExclusion
rule_of h i = record { match_id = h; match_instance = i }

rule_of-EnteredRule :
    (g h : ℕ) (i : Instance) (s : TaskScheduler)
    → Kept s (apply_exclusion g (rule_of h i) s)
      × EnteredRule g (rule_of h i) (apply_exclusion g (rule_of h i) s)
unfolding apply_exclusion EnteredRule
rule_of-EnteredRule g h any s = exclude_groups-BothGroups g h s
rule_of-EnteredRule g h (inst n) s =
    let other = entry_of h (inst n) in
    let made = get_task_entry h (inst n) (get_task_entry g (inst n) s) in
    let framed =
      Frame-trans (get_task_entry-Frame g (inst n) s)
        (get_task_entry-Frame h (inst n) (get_task_entry g (inst n) s)) in
    let once = exclude_entries (entry_of g (inst n)) other made in
    let (kept, (there, back)) = exclude_entries-BothEntries (entry_of g (inst n)) other made in
    let (kept', both) = exclude_entries-BothEntries (entry_of g any) other once in
    (
      Kept-trans (Frame-Kept framed) (Kept-trans kept kept'),
      (
        (
          kept'.entries (entry_of g (inst n)) other there,
          kept'.entries other (entry_of g (inst n)) back,
        ),
        both,
      ),
    )

Kept-EnteredRule :
    {s s' : TaskScheduler} (g h : ℕ) (i : Instance)
    → Kept s s'
    → EnteredRule g (rule_of h i) s
    → EnteredRule g (rule_of h i) s'
unfolding EnteredRule
Kept-EnteredRule g h any k (there, back) = (k.groups g h there, k.groups h g back)
Kept-EnteredRule g h (inst n) k ((there, back), (there', back')) =
    ((k.entries _ _ there, k.entries _ _ back), (k.entries _ _ there', k.entries _ _ back'))

apply_policy-Entered :
    (g : ℕ) (policy : List TaskExclusion) (s : TaskScheduler)
    → Kept s (apply_policy g policy s) × Entered g policy (apply_policy g policy s)
unfolding apply_policy Entered
apply_policy-Entered g [] s = (record { groups = λ a b m. m; entries = λ a b m. m }, tt)
apply_policy-Entered g (rule ∷ rules) s =
    let (kept, entered) = rule_of-EnteredRule g rule.match_id rule.match_instance s in
    let (kept', rest) = apply_policy-Entered g rules (apply_exclusion g rule s) in
    (
      Kept-trans kept kept',
      (Kept-EnteredRule g rule.match_id rule.match_instance kept' entered, rest),
    )

-- Where no run count is above 0 and the invariant of the exclusion holds, setting a policy leaves
-- a state in which it holds, no rule from before is taken away, and every rule of the policy is
-- entered on both sides: for a rule without an instance each of the two groups is in the policy of
-- the other, and for a rule with one so are the two entries of that instance, and the entry of the
-- group without an instance and the entry of the other group with it. It fails exactly for a group
-- whose policy is already set.
pub set_policy-Entered :
    (g : ℕ) (policy : List TaskExclusion) (s : TaskScheduler)
    → Idle s
    → Exclusive s
    → Ensures (λ s'. Exclusive s' × Entered g policy s' × Kept s s') (set_policy g policy s)
      × (((s.group g).policy_set ≡ true) ↔ (set_policy g policy s ≡ none))
unfolding set_policy
set_policy-Entered g policy s idle x =
    let (exclusive, fails) = set_policy-Exclusive g policy s idle x in
    (go (s.group g).policy_set exclusive, fails)
  where
    marked : TaskScheduler
    marked = put_group s g (record (s.group g) { policy_set = true })

    after : TaskScheduler
    after = apply_policy g policy marked

    entered : Entered g policy after × Kept s after
    entered =
        let (kept, all) = apply_policy-Entered g policy marked in
        (all, Kept-trans (Frame-Kept (put_group-Frame s g _ refl refl)) kept)

    go :
        (b : Bool)
        → Ensures Exclusive (assert (not b) >> some after)
        → Ensures
            (λ s'. Exclusive s' × Entered g policy s' × Kept s s')
            (assert (not b) >> some after)
    go true e = tt
    go false e = (e, entered.0, entered.1)
