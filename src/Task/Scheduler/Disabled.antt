-- ===== src/Task/Scheduler/Disabled.antt =====
-- When the enqueue of a task fails an assert.
use tf_common.Common.{
  ℕ, ◌≡◌, refl, ap, ◌∙◌, inl, inr, true, Option, none, some, arith, Bool-cases, ◌==◌,
}
use tf_common.Task.{
  ◌>>=◌, TaskScheduler, EntryRef, disable_entry, Instance, any, inst, id_of, instance_of,
  same_entry,
}
use tf_common.Task.Run.{on_entry, add_to_wait_q, hook, link, is_free, add_to_defer_q}
use tf_common.Task.Run.Frame.{
  owner, Frame, Frame-trans, Ensures, Ensures-assert, Ensures-weaken, add_to_wait_q-Frame,
  hook-Frame, link-Frame, same_entry_iff,
}
use tf_common.Task.Scheduler.Places.{count_enqueued-Frame}
use tf_common.Task.Scheduler.{enqueue, place, count_enqueued, get_task_entry}

-- The back pointer of an entry outlives its waiting and the counts of an enqueue.
hook-back :
    (d e : EntryRef) (s : TaskScheduler)
    → ((hook (on_entry d) e s).entry e).deferq_task_entry ≡ (s.entry e).deferq_task_entry
unfolding hook
hook-back d e s = elim (Bool-cases (same_entry d e)) [
  | inl y ↦
      let same : d ≡ e = (same_entry_iff d e).0 y in
      rw y (ap (λ f. (s.entry f).deferq_task_entry) same)
  | inr n ↦ rw n refl
]

add_to_wait_q-back :
    (e : EntryRef) (t : ℕ) (s : TaskScheduler)
    → ((add_to_wait_q e t s).entry e).deferq_task_entry ≡ (s.entry e).deferq_task_entry
unfolding add_to_wait_q
add_to_wait_q-back e t s = let y : same_entry e e ≡ true = (same_entry_iff e e).1 refl in rw y refl

-- An entry that already hangs in the queue of an entry cannot enter one again.
add_to_defer_q-twice :
    (d e f : EntryRef) (s : TaskScheduler)
    → (s.entry e).deferq_task_entry ≡ some f
    → add_to_defer_q (on_entry d) e s ≡ none
unfolding add_to_defer_q is_free
add_to_defer_q-twice d e f s h = rw (hook-back d e s, h) refl

get_task_entry-kept :
    (g : ℕ) (i : Instance) (s : TaskScheduler) (h : ℕ) (e : EntryRef)
    → (((get_task_entry g i s).group h).disable ≡ (s.group h).disable)
      × ((get_task_entry g i s).entry e ≡ s.entry e)
unfolding get_task_entry
get_task_entry-kept g any s h e = (refl, refl)
get_task_entry-kept g (inst n) s h e = (ground arith, refl)

count_enqueued-kept :
    (t : ℕ) (e : EntryRef) (s : TaskScheduler)
    → (((count_enqueued t e s).group (id_of e)).disable ≡ (s.group (id_of e)).disable)
      × (((count_enqueued t e s).entry e).deferq_task_entry ≡ (s.entry e).deferq_task_entry)
unfolding count_enqueued
count_enqueued-kept t e s =
    let y : same_entry e e ≡ true = (same_entry_iff e e).1 refl in
    let z : (id_of e == id_of e) ≡ true = ground arith in
    let k = get_task_entry-kept (id_of e) (instance_of e) _ (id_of e) e in
    rw (y, z) (k.0, ap (λ v. v.deferq_task_entry) k.1)

-- While its group is disabled, an entry that is in a queue of an entry takes no further task: the
-- enqueue fails an assert.
pub enqueue-disabled :
    (t : ℕ) (f : EntryRef) (s : TaskScheduler)
    → (s.group (s.task t).task_id).disable ≡ true
    → (s.entry (owner s t)).deferq_task_entry ≡ some f
    → enqueue t s ≡ none
unfolding enqueue place
enqueue-disabled t f s d h =
    let e = owner s t in
    let s₁ = count_enqueued t e s in
    let k = count_enqueued-kept t e s in
    let stuck : add_to_defer_q (on_entry (disable_entry (id_of e))) e (add_to_wait_q e t s₁)
        ≡ none =
      add_to_defer_q-twice (disable_entry (id_of e)) e f (add_to_wait_q e t s₁)
        (add_to_wait_q-back e t s₁ ∙ k.1 ∙ h) in
    elim (Bool-cases ((s.task t).seqno == 0)) [
      | inr n ↦ rw n refl
      | inl y ↦ rw y (rw (k.0, d) stuck)
    ]

-- What an entry and the groups hold after the entry has entered the queue of an entry.
Hooked : EntryRef → EntryRef → TaskScheduler → TaskScheduler → Type 0
Hooked d e s s' =
    ((s'.entry e).deferq_task_entry ≡ some d)
    × ((g : ℕ) → (s'.group g).disable ≡ (s.group g).disable)
    × Frame s s'

add_to_defer_q-Hooked :
    (d e : EntryRef) (s : TaskScheduler) → Ensures (Hooked d e s) (add_to_defer_q (on_entry d) e s)
unfolding add_to_defer_q Hooked link hook
add_to_defer_q-Hooked d e s =
    let y : same_entry e e ≡ true = (same_entry_iff e e).1 refl in
    Ensures-assert (Hooked d e s) (is_free (on_entry d) e (hook (on_entry d) e s))
      (some (link (on_entry d) e (hook (on_entry d) e s)))
      (λ _. (
        rw y refl,
        λ g. refl,
        Frame-trans (hook-Frame (on_entry d) e s)
            (link-Frame (on_entry d) e (hook (on_entry d) e s)),
      ))

add_to_wait_q-disable :
    (e : EntryRef) (t : ℕ) (s : TaskScheduler) (g : ℕ)
    → ((add_to_wait_q e t s).group g).disable ≡ (s.group g).disable
unfolding add_to_wait_q
add_to_wait_q-disable e t s g = ground arith

enqueue-Hooked :
    (t : ℕ) (s : TaskScheduler)
    → (s.group (s.task t).task_id).disable ≡ true
    → Ensures
        (λ s'.
          ((s'.entry (owner s t)).deferq_task_entry ≡ some (disable_entry (s.task t).task_id))
          × ((s'.group (s.task t).task_id).disable ≡ true)
          × Frame s s')
        (enqueue t s)
unfolding enqueue place Hooked
enqueue-Hooked t s d = Ensures-assert After ((s.task t).seqno == 0) (place t e s₁) (λ _.
    rw (k.0, d)
      (Ensures-weaken (Hooked off e w) After (add_to_defer_q (on_entry off) e w)
        (λ s' h. (
          h.0,
          h.1 (id_of e) ∙ add_to_wait_q-disable e t s₁ (id_of e) ∙ k.0 ∙ d,
          Frame-trans f (Frame-trans (add_to_wait_q-Frame e t s₁ (f.owners t)) h.2),
        ))
        (add_to_defer_q-Hooked off e w)))
  where
    e : EntryRef
    e = owner s t

    off : EntryRef
    off = disable_entry (s.task t).task_id

    s₁ : TaskScheduler
    s₁ = count_enqueued t e s

    w : TaskScheduler
    w = add_to_wait_q e t s₁

    After : TaskScheduler → Type 0
    After s' =
        ((s'.entry e).deferq_task_entry ≡ some off)
        × ((s'.group (s.task t).task_id).disable ≡ true)
        × Frame s s'

    k :
        ((s₁.group (id_of e)).disable ≡ (s.group (id_of e)).disable)
        × ((s₁.entry e).deferq_task_entry ≡ (s.entry e).deferq_task_entry)
    k = count_enqueued-kept t e s

    f : Frame s s₁
    f = count_enqueued-Frame t e s

-- While a group is disabled, enqueuing two tasks of the same entry of it, one after the other,
-- fails an assert.
pub enqueue-enqueue :
    (t u : ℕ) (s : TaskScheduler)
    → (s.group (s.task t).task_id).disable ≡ true
    → owner s u ≡ owner s t
    → (enqueue t s >>= enqueue u) ≡ none
enqueue-enqueue t u s d o = go (enqueue t s) (enqueue-Hooked t s d)
  where
    After : TaskScheduler → Type 0
    After s' =
        ((s'.entry (owner s t)).deferq_task_entry ≡ some (disable_entry (s.task t).task_id))
        × ((s'.group (s.task t).task_id).disable ≡ true)
        × Frame s s'

    go : (m : Option TaskScheduler) → Ensures After m → (m >>= enqueue u) ≡ none
    go none h = refl
    go (some s') h =
        let same : owner s' u ≡ owner s t = (h.2).owners u ∙ o in
        enqueue-disabled u (disable_entry (s.task t).task_id) s'
          (ap (λ e. (s'.group (id_of e)).disable) same ∙ h.1)
          (ap (λ e. (s'.entry e).deferq_task_entry) same ∙ h.0)
