-- ===== src/IndexAllocator/Allocate.antt =====
-- `AllocIndex` and `FreeIndex` against the set of indices in use.
use tf_common.Common.{
  ℕ, ◌≤◌, ◌<◌, ◌≡◌, refl, sym, ◌∙◌, ◌⊎◌, inl, inr, true, false, none, some, if◌then◌else◌, leb, ltb,
  ◌==◌, arith, Bool-cases, ==_iff,
}
use tf_common.BitSet
use tf_common.BitSet.{BitSet, npos}
use tf_common.BitSet.Points.{test-set, test-reset}
use tf_common.BitSet.Invariant.{IsValid, set-IsValid, reset-IsValid}
use tf_common.BitSet.Search.{find_first_clear, find_next_clear}
use tf_common.BitSet.Search.Found.{find_first_clear_lem}
use tf_common.BitSet.Search.Next.{find_next_clear_lem}
use tf_common.IndexAllocator.{IndexAllocator, candidate, alloc_index, free_index}

-- Only indices up to the greatest one are in use, and that one is not `npos`.
pub record IsIndexAllocator (a : IndexAllocator) : Type 0 where
  pub valid : IsValid a.bitset.blocks
  pub bounded : a.max_index < npos
  pub inside : (i : ℕ) → BitSet.test a.bitset i ≡ true → i ≤ a.max_index

candidate_lem :
    (a : IndexAllocator)
    → IsIndexAllocator a
    → (BitSet.test a.bitset (candidate a) ≡ false)
      × (a.max_index < candidate a → (i : ℕ) → i ≤ a.max_index → BitSet.test a.bitset i ≡ true)
unfolding candidate
candidate_lem a v = elim (Bool-cases (a.last_index == npos)) [
  | inl y ↦ rw y (first.0, λ h i k. first.1 i (omega arith))
  | inr n ↦ rw n (elim (Bool-cases (ltb a.max_index (find_next_clear a.bitset a.last_index))) [
    | inl y ↦ rw y (first.0, λ h i k. first.1 i (omega arith))
    | inr k ↦
        rw k ((find_next_clear_lem a.bitset a.last_index v.valid).1, λ h i l. absurd (ground arith))
  ])
]
  where
    first :
        (BitSet.test a.bitset (find_first_clear a.bitset) ≡ false)
        × ((p : ℕ) → p < find_first_clear a.bitset → BitSet.test a.bitset p ≡ true)
    first = find_first_clear_lem a.bitset v.valid

-- The greatest index stays and the last one is what was returned: a free index up to the greatest
-- one was taken, or all of these are in use.
pub AllocatedIndex : IndexAllocator → ℕ × IndexAllocator → Type 0
AllocatedIndex a (index, a') =
    (a'.max_index ≡ a.max_index)
    × (a'.last_index ≡ index)
    × (((index ≤ a.max_index)
          × (BitSet.test a.bitset index ≡ false)
          × ((i : ℕ)
              → BitSet.test a'.bitset i ≡ (if index == i then true else BitSet.test a.bitset i)))
        ⊎ ((index ≡ npos)
            × ((i : ℕ) → i ≤ a.max_index → BitSet.test a.bitset i ≡ true)
            × (a'.bitset ≡ a.bitset)))

-- For an allocator whose indices in use are up to its greatest index, which is below npos, the
-- allocation takes a free index up to the greatest one, or returns npos where all of these are in
-- use. The greatest index and the use of all other indices stay, the last index recorded is the
-- one returned, and the indices in use are again up to the greatest.
pub alloc_index-AllocatedIndex :
    (a : IndexAllocator)
    → IsIndexAllocator a
    → AllocatedIndex a (alloc_index a) × IsIndexAllocator (alloc_index a).1
unfolding alloc_index AllocatedIndex
alloc_index-AllocatedIndex a v = elim (Bool-cases (ltb a.max_index (candidate a))) [
  | inl y ↦
      let out : a.max_index < candidate a = ground arith in
      rw y (
        (refl, refl, inr (refl, (candidate_lem a v).1 out, refl)),
        record { valid = v.valid; bounded = v.bounded; inside = v.inside },
      )
  | inr n ↦
      let fit : candidate a ≤ a.max_index = ground arith in
      let bound = v.bounded in
      let real : (candidate a == npos) ≡ false = ground arith in
      rw (n, real)
        (
          (refl, refl, inl (fit, (candidate_lem a v).0, test-set a.bitset (candidate a))),
          record {
            valid = set-IsValid a.bitset (candidate a) v.valid;
            bounded = v.bounded;
            inside = λ i h. elim (Bool-cases (candidate a == i)) [
              | inl y ↦ let same : candidate a ≡ i = (==_iff (candidate a) i).0 y in rw (← same) fit
              | inr k ↦ v.inside i (rw (test-set a.bitset (candidate a) i, k) at h)
            ];
          },
        )
]

-- Freeing an index up to the greatest one frees it alone; any other fails the assert.
pub free_index-IsIndexAllocator :
    (index : ℕ) (a : IndexAllocator)
    → IsIndexAllocator a
    → ((a' : IndexAllocator) × (free_index index a ≡ some a')
        × IsIndexAllocator a'
        × ((i : ℕ)
            → BitSet.test a'.bitset i ≡ (if index == i then false else BitSet.test a.bitset i)))
      ⊎ ((free_index index a ≡ none) × (a.max_index < index))
unfolding free_index
free_index-IsIndexAllocator index a v = elim (Bool-cases (leb index a.max_index)) [
  | inr n ↦ inr (rw n refl, ground arith)
  | inl y ↦ inl (
    record a { bitset = BitSet.reset a.bitset index },
    rw y refl,
    record {
      valid = reset-IsValid a.bitset index v.valid;
      bounded = v.bounded;
      inside = λ i h. v.inside i (still i (test-reset a.bitset index i) h);
    },
    test-reset a.bitset index,
  )
]
  where
    still :
        (i : ℕ)
        → BitSet.test (BitSet.reset a.bitset index) i
          ≡ (if index == i then false else BitSet.test a.bitset i)
        → BitSet.test (BitSet.reset a.bitset index) i ≡ true
        → BitSet.test a.bitset i ≡ true
    still i e h = elim (Bool-cases (index == i)) [
      | inl y ↦ cc (rw y at e)
      | inr n ↦ sym (rw n at e) ∙ h
    ]
