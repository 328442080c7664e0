-- ===== src/LabelBlock/Release.antt =====
-- The release of a reference to a label block, and its end with the last one.
use tf_common.Common.{
  ℕ, ◌-◌, ◌≡◌, ◌≢◌, refl, sym, ◌∙◌, ◌⊎◌, inl, inr, false, none, some, List, [], ◌∷◌, if◌then◌else◌,
  ◌==◌, arith, Bool-cases, ==_iff, ==-false, Has, Distinct,
}
use tf_common.BitSet
use tf_common.LabelBlock.{LabelBlockManager, put_count, remove_block, destroy_block, release}
use tf_common.LabelBlock.Manager.{IsManager}

remove_block_lem :
    (id : ℕ) (ids : List ℕ)
    → Has ids id
    → Distinct ids
    → (ks : List ℕ) × (remove_block id ids ≡ some ks)
      × Distinct ks
      × ((j : ℕ) → Has ks j → Has ids j × (j ≢ id))
      × ((j : ℕ) → Has ids j → j ≢ id → Has ks j)
unfolding remove_block
remove_block_lem id [] h d = elim h [ ]
remove_block_lem id (i ∷ is) h d = elim (Bool-cases (id == i)) [
  | inl y ↦
      let same : id ≡ i = (==_iff id i).0 y in
      (
        is,
        rw (y, remove_block) refl,
        d.1,
        (λ j k. (inr k, λ q. d.0 (rw (q ∙ same) at k))),
        λ j k ne. elim k [ inl e ↦ absurd (ne (sym e ∙ sym same)) | inr l ↦ l ],
      )
  | inr n ↦
      let later : Has is id = elim h [ inl e ↦ absurd (==-false id i n (sym e)) | inr k ↦ k ] in
      let (ks, e, distinct, only, kept) = remove_block_lem id is later d.1 in
      (
        i ∷ ks,
        rw (n, e, remove_block) refl,
        ((λ k. d.0 (only i k).0), distinct),
        (λ j k. elim k [
          | inl q ↦ (inl q, λ s. ==-false id i n (sym s ∙ sym q))
          | inr l ↦ (inr (only j l).0, (only j l).1)
        ]),
        λ j k ne. elim k [ inl q ↦ inl q | inr l ↦ inr (kept j l ne) ],
      )
]

-- What a reference less leaves.
pub Unreferenced : ℕ → LabelBlockManager → LabelBlockManager → Type 0
Unreferenced id m m' =
    IsManager m'
    × ((j : ℕ) → m'.refcount j ≡ (if id == j then m.refcount j - 1 else m.refcount j))
    × ((j : ℕ) → m'.block j ≡ m.block j)

-- For such a manager and a block of its list, the release of a reference takes one from its count
-- and keeps the manager so, with a block listed exactly while it has references; it fails an
-- assert only at the last reference of a block with labels in use.
pub release-Unreferenced :
    (id : ℕ) (m : LabelBlockManager)
    → IsManager m
    → Has m.blocks id
    → ((m' : LabelBlockManager) × (release id m ≡ some m') × Unreferenced id m m')
      ⊎ ((release id m ≡ none)
          × (m.refcount id ≡ 1)
          × (BitSet.empty (m.block id).used_bitset ≡ false))
unfolding release destroy_block Unreferenced
release-Unreferenced id m v h = elim (Bool-cases (m.refcount id == 1)) [
  | inr n ↦ inl (
    put_count m id (m.refcount id - 1),
    rw n refl,
    (
      record {
        counted = λ j k. let c = v.counted j k in let d = v.counted id h in ground arith;
        listed = λ j c. elim (Bool-cases (id == j)) [
          | inl y ↦ let same : id ≡ j = (==_iff id j).0 y in rw (← same) h
          | inr k ↦ v.listed j (rw k at c)
        ];
        known = v.known;
        distinct = v.distinct;
        shared = v.shared;
      },
      lowered,
      λ j. refl,
    ),
  )
  | inl y ↦ elim (Bool-cases (BitSet.empty (m.block id).used_bitset)) [
    | inr n ↦ inr (rw (y, n) refl, (==_iff (m.refcount id) 1).0 y, n)
    | inl u ↦
        let (ks, e, distinct, only, kept) = remove_block_lem id m.blocks h v.distinct in
        let one : m.refcount id ≡ 1 = (==_iff (m.refcount id) 1).0 y in
        inl (
          record (put_count m id (m.refcount id - 1)) { blocks = ks },
          rw (y, u, e) refl,
          (
            record {
              counted = λ j k.
                  let c = v.counted j (only j k).0 in
                  let ne : (id == j) ≡ false = ground (arith, (only j k).1) in rw ne c;
              listed = λ j c. elim (Bool-cases (id == j)) [
                | inl z ↦ absurd (ground arith)
                | inr z ↦ kept j (v.listed j (rw z at c)) (λ q. ==-false id j z (sym q))
              ];
              known = λ j k. v.known j (only j k).0;
              distinct = distinct;
              shared = λ i j k l. v.shared i j (only i k).0 (only j l).0;
            },
            lowered,
            λ j. refl,
          ),
        )
  ]
]
  where
    lowered :
        (j : ℕ)
        → (put_count m id (m.refcount id - 1)).refcount j
          ≡ (if id == j then m.refcount j - 1 else m.refcount j)
    lowered j = ground arith
