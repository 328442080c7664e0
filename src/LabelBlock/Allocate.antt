-- ===== src/LabelBlock/Allocate.antt =====
-- `AllocateLabel` and `ReleaseLabel` against the set of labels in use.
use tf_common.Common.{
  ℕ, suc, ◌+◌, ◌-◌, ◌%◌, ◌^◌, ◌≤◌, ◌<◌, ◌≡◌, ◌≢◌, refl, sym, ◌∙◌, ◌⊎◌, inl, inr, Bool, true, false,
  none, some, if◌then◌else◌, leb, ◌==◌, arith, Bool-cases, ==_iff, ==-false,
}
use mathlib.Core.Bool.{false≢true}
use tf_common.BitSet
use tf_common.BitSet.{BitSet, npos}
use tf_common.BitSet.Points.{test-set, test-reset, test-empty}
use tf_common.BitSet.Invariant.{IsValid, set-IsValid, reset-IsValid}
use tf_common.BitSet.Search.{find_first_clear, find_next_clear}
use tf_common.BitSet.Search.Found.{find_first_clear_lem}
use tf_common.BitSet.Search.Next.{find_next_clear_lem}
use tf_common.LabelBlock.{
  LabelBlock, new_block, next_pos, allocate_rounds, allocate_label, release_label,
}

-- Whether a position of the block is in use.
abbrev pub used : LabelBlock → ℕ → Bool
used b pos = BitSet.test b.used_bitset pos

-- The labels are 32 bit numbers, and only labels of the block are in use.
pub record IsLabelBlock (b : LabelBlock) : Type 0 where
  pub valid : IsValid b.used_bitset.blocks
  pub range : b.first ≤ b.last
  pub fits : b.last < 2 ^ 32
  pub inside : (pos : ℕ) → used b pos ≡ true → b.first + pos ≤ b.last
  pub previous : b.prev_pos ≢ npos → b.first + b.prev_pos ≤ b.last

-- The search yields a free position not far beyond the block.
next_pos_lem :
    (b : LabelBlock)
    → IsLabelBlock b
    → (used b (next_pos b) ≡ false) × (b.first + next_pos b ≤ b.last + 1)
unfolding next_pos
next_pos_lem b v = elim (Bool-cases (b.prev_pos == npos)) [
  | inl y ↦ rw y (
      let c = find_first_clear_lem b.used_bitset v.valid in
      (
        c.0,
        bound 0 (find_first_clear b.used_bitset) (λ k. let r = v.range in omega arith)
            (λ p k h. c.1 p h),
      ))
  | inr n ↦ rw n (
      let c = find_next_clear_lem b.used_bitset b.prev_pos v.valid in
      let before : b.first + b.prev_pos ≤ b.last = v.previous (==-false b.prev_pos npos n) in
      (
        c.1,
        bound (b.prev_pos + 1) (find_next_clear b.used_bitset b.prev_pos) (λ k. omega arith)
            (λ p k h. c.2 p (omega arith) h),
      ))
]
  where
    -- Everything in use from `low` to a position, and the position before `low` in the block.
    bound :
        (low c : ℕ)
        → (c ≤ low → b.first + c ≤ b.last + 1)
        → ((p : ℕ) → low ≤ p → p < c → used b p ≡ true)
        → b.first + c ≤ b.last + 1
    bound low c base taken = elim (Bool-cases (leb c low)) [
      | inl y ↦ base (ground arith)
      | inr n ↦
          let above : low < c = ground arith in
          let last_taken = v.inside (c - 1) (taken (c - 1) (omega arith) (omega arith)) in
          omega arith
    ]

-- The range stays; a free position of it was taken, where the next search goes on, or every
-- position of it is in use, and the next search begins at the start.
pub Allocated : LabelBlock → ℕ × LabelBlock → Type 0
Allocated b (label, b') =
    (b'.first ≡ b.first)
    × (b'.last ≡ b.last)
    × (((pos : ℕ) × (label ≡ b.first + pos)
          × (label ≤ b.last)
          × (used b pos ≡ false)
          × (b'.prev_pos ≡ pos)
          × ((q : ℕ) → used b' q ≡ (if pos == q then true else used b q)))
        ⊎ ((label ≡ 0)
            × ((q : ℕ) → b.first + q ≤ b.last → used b q ≡ true)
            × (b'.prev_pos ≡ npos)
            × ((q : ℕ) → used b' q ≡ used b q)))

taken-IsLabelBlock :
    (b : LabelBlock) (pos : ℕ)
    → IsLabelBlock b
    → used b pos ≡ false
    → b.first + pos ≤ b.last
    → IsLabelBlock (record b { used_bitset = BitSet.set b.used_bitset pos; prev_pos = pos })
taken-IsLabelBlock b pos v free fits = record {
  valid = set-IsValid b.used_bitset pos v.valid;
  range = v.range;
  fits = v.fits;
  inside = λ q h. elim (Bool-cases (pos == q)) [
    | inl y ↦ let same : pos ≡ q = (==_iff pos q).0 y in rw (← same) fits
    | inr n ↦ v.inside q (rw (test-set b.used_bitset pos q, n) at h)
  ];
  previous = λ _. fits;
}

full-Allocated :
    (b : LabelBlock)
    → IsLabelBlock b
    → b.prev_pos ≡ npos
    → b.last < b.first + next_pos b
    → (q : ℕ) → b.first + q ≤ b.last
    → used b q ≡ true
unfolding next_pos
full-Allocated b v e out q h =
    let same : next_pos b ≡ find_first_clear b.used_bitset = rw e refl in
    (find_first_clear_lem b.used_bitset v.valid).1 q (omega arith)

-- Without a previous position, one search decides.
fresh : LabelBlock → LabelBlock
fresh b = record b { prev_pos = npos }

fresh-IsLabelBlock : (b : LabelBlock) → IsLabelBlock b → IsLabelBlock (fresh b)
unfolding fresh
fresh-IsLabelBlock b v = record {
  valid = v.valid;
  range = v.range;
  fits = v.fits;
  inside = v.inside;
  previous = λ ne. absurd (ne refl);
}

-- What a round leaves: the label taken, or the search from the start next.
module _ (b : LabelBlock) (v : IsLabelBlock b) (rounds : ℕ) where
  exact : (b.first + next_pos b) % 2 ^ 64 ≡ b.first + next_pos b
  exact = let bound = (next_pos_lem b v).1 in let small = v.fits in omega arith

  allocate_rounds-taken :
      leb (b.first + next_pos b) b.last ≡ true
      → Allocated b (allocate_rounds (suc rounds) b)
        × IsLabelBlock (allocate_rounds (suc rounds) b).1
  unfolding allocate_rounds Allocated
  allocate_rounds-taken y =
      let fit : b.first + next_pos b ≤ b.last = ground arith in
      let small = v.fits in
      let label : (b.first + next_pos b) % 2 ^ 32 ≡ b.first + next_pos b = omega arith in
      rw (exact, y)
        (
          (
            refl,
            refl,
            inl (
              next_pos b,
              label,
              (omega arith),
              (next_pos_lem b v).0,
              refl,
              test-set b.used_bitset (next_pos b),
            ),
          ),
          taken-IsLabelBlock b (next_pos b) v (next_pos_lem b v).0 fit,
        )

  allocate_rounds-next :
      leb (b.first + next_pos b) b.last ≡ false
      → allocate_rounds (suc rounds) b ≡ allocate_rounds rounds (fresh b)
  unfolding allocate_rounds fresh
  allocate_rounds-next n = rw (exact, n) refl

-- For a block of 32 bit labels in which only labels of its range are in use, the allocation takes
-- a free position of the range, whose label it returns and which it records as the previous one,
-- or returns 0 where every label of the range is in use, and then no previous position is
-- recorded. The range and the use of all other positions stay, and again only labels of the range
-- are in use.
pub allocate_label-Allocated :
    (b : LabelBlock)
    → IsLabelBlock b
    → Allocated b (allocate_label b) × IsLabelBlock (allocate_label b).1
unfolding allocate_label fresh Allocated
allocate_label-Allocated b v = elim (Bool-cases (leb (b.first + next_pos b) b.last)) [
  | inl y ↦ allocate_rounds-taken b v 1 y
  | inr n ↦
      rw (allocate_rounds-next b v 1 n)
        (elim (Bool-cases (leb (b.first + next_pos (fresh b)) b.last)) [
          | inl y ↦ allocate_rounds-taken (fresh b) w 0 y
          | inr k ↦
              let out : b.last < b.first + next_pos (fresh b) = ground arith in
              rw (allocate_rounds-next (fresh b) w 0 k) (
                (
                  refl,
                  refl,
                  inr (refl, (λ q h. full-Allocated (fresh b) w refl out q h), refl, λ q. refl),
                ),
                fresh-IsLabelBlock (fresh b) w,
              )
        ])
]
  where
    w : IsLabelBlock (fresh b)
    w = fresh-IsLabelBlock b v

-- The label given back: the block afterwards, with exactly its position free again.
pub Released : ℕ → LabelBlock → LabelBlock → Type 0
Released value b b' =
    IsLabelBlock b' × ((q : ℕ) → used b' q ≡ (if value - b.first == q then false else used b q))

-- For such a block, the release of a label frees exactly its position and leaves such a block, and
-- it fails an assert exactly for a label outside the range.
pub release_label-Released :
    (value : ℕ) (b : LabelBlock)
    → IsLabelBlock b
    → ((b' : LabelBlock) × (release_label value b ≡ some b')
        × (b.first ≤ value)
        × (value ≤ b.last)
        × Released value b b')
      ⊎ ((release_label value b ≡ none) × ((value < b.first) ⊎ (b.last < value)))
unfolding release_label Released
release_label-Released value b v = elim (Bool-cases (leb b.first value)) [
  | inr n ↦ inr (rw n refl, inl (ground arith))
  | inl y ↦ elim (Bool-cases (leb value b.last)) [
    | inr n ↦ inr (rw (y, n) refl, inr (ground arith))
    | inl z ↦ inl (
      _,
      rw (y, z) refl,
      ground arith,
      ground arith,
      (
        record {
          valid = reset-IsValid b.used_bitset (value - b.first) v.valid;
          range = v.range;
          fits = v.fits;
          inside = λ q h. v.inside q (still q (test-reset b.used_bitset (value - b.first) q) h);
          previous = v.previous;
        },
        test-reset b.used_bitset (value - b.first),
      ),
    )
  ]
]
  where
    still :
        (q : ℕ)
        → BitSet.test (BitSet.reset b.used_bitset (value - b.first)) q
          ≡ (if value - b.first == q then false else used b q)
        → BitSet.test (BitSet.reset b.used_bitset (value - b.first)) q ≡ true
        → used b q ≡ true
    still q e h = elim (Bool-cases (value - b.first == q)) [
      | inl y ↦ cc (rw y at e)
      | inr n ↦ sym (rw n at e) ∙ h
    ]

-- A new block.
pub new_block-IsLabelBlock :
    (first last : ℕ) → first ≤ last → last < 2 ^ 32 → IsLabelBlock (new_block first last)
new_block-IsLabelBlock first last h k = record {
  valid = record { fits = λ i. omega arith; tight = λ ne. absurd (ne refl) };
  range = h;
  fits = k;
  inside = λ pos u. absurd (false≢true (sym (test-empty pos) ∙ u));
  previous = λ ne. absurd (ne refl);
}
