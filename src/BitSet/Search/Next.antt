-- ===== src/BitSet/Search/Next.antt =====
-- What `find_next` and `find_next_clear` find.
use tf_common.Common.{
  ℕ, zero, suc, ◌+◌, ◌-◌, ◌*◌, ◌/◌, ◌%◌, ◌^◌, ◌≤◌, ◌<◌, min, bit_and, bit_or, ◌≡◌, refl, ap, sym,
  ◌∙◌, ◌⊎◌, inl, inr, true, false, ◌&&◌, List, [], ◌∷◌, arith, Bool-cases, if◌then◌else◌, ltb, leb,
  length,
}
use tf_common.Common.Bits.{
  bit, bit-zero, bit-le-one, bit_above, bit-complement, bit-bit_and, bit-bit_or, bit_or-lt,
}
use tf_common.Word64.{complement64}
use tf_common.Word64.First.{FirstDigit, find_first_set64-FirstDigit, find_first_clear64-FirstDigit}
use tf_common.BitSet.{BitSet, block, npos, bit_position, test}
use tf_common.BitSet.Blocks.{digit}
use tf_common.BitSet.Invariant.{IsValid}
use tf_common.BitSet.Search.{drop, ones_through, find_next, find_next_clear}
use tf_common.BitSet.Search.Found.{
  Scan, nowhere, at, first_from-Scan, first_clear_from-Scan, test_of_digit, test_of_no_digit,
  digit_beyond, digit_here,
}
use native.Mathlib.Nat.{one-le-pow, pow-le-pow_right}
use native.Mathlib.Decide.{dec_lt}

block-drop : (n : ℕ) (xs : List ℕ) (i : ℕ) → block (drop n xs) i ≡ block xs (n + i)
unfolding drop
block-drop zero xs i = ap (block xs) (omega arith)
block-drop (suc n) [] i = refl
block-drop (suc n) (x ∷ xs) i =
    block-drop n xs i ∙ ap (block (x ∷ xs)) {x = suc (n + i)} (omega arith)

length-drop : (n : ℕ) (xs : List ℕ) → length (drop n xs) ≡ length xs - n
unfolding drop
length-drop zero xs = omega arith
length-drop (suc n) [] = omega arith
length-drop (suc n) (x ∷ xs) = omega (arith, length-drop n xs)

-- The mask of `find_next` has its digits 1 at 0 through the offset.
ones_through_lem :
    (off k : ℕ) → off < 63 → k < 64 → bit (ones_through off) k ≡ (if leb k off then 1 else 0)
ones_through_lem off k h l = elim (dec_lt off k) [
  | yes m ↦
      let above : leb k off ≡ false = ground arith in
      rw (above, narrow)
        (bit_above (off + 1) (2 ^ (off + 1) - 1) k (omega (arith, positive)) (omega arith))
  | no m ↦
      let within : leb k off ≡ true = ground arith in
      let same : 2 ^ (off + 1) - 1 - 0 ≡ 2 ^ (off + 1) - 1 = omega arith in
      rw (within, narrow)
        (omega (
          arith,
          ap (λ t. bit t k) same,
          bit-complement (off + 1) 0 k positive (omega arith),
          bit-zero k,
        ))
]
  where
    positive : 0 < 2 ^ (off + 1)
    positive = one-le-pow (off + 1) 2 (omega arith)

    small : 2 ^ (off + 1) ≤ 2 ^ 63
    small = pow-le-pow_right {n = 2} (omega arith) {i = off + 1} {j = 63} (omega arith)

    narrow : (2 ^ (off + 1) + 2 ^ 64 - 1) % 2 ^ 64 ≡ 2 ^ (off + 1) - 1
    narrow = omega (arith, small, positive)

-- The first position after `pos` with digit `d` is `r`, or `r` is `missing` where there is none.
pub data Next (d : ℕ) (xs : List ℕ) (pos missing r : ℕ) : Type 0 where
  missed :
      r ≡ missing
      → ((p : ℕ) → pos < p → p < length xs * 64 → digit xs p ≡ 1 - d)
      → Next d xs pos missing r
  found :
      pos < r
      → r < length xs * 64
      → digit xs r ≡ d
      → ((p : ℕ) → pos < p → p < r → digit xs p ≡ 1 - d)
      → Next d xs pos missing r

module _ (d : ℕ) (xs : List ℕ) (pos missing : ℕ) (inside : pos / 64 < length xs) where
  -- The digits after `pos` in its own block, and those of the later blocks.
  later_digit :
      (n : ℕ)
      → ((k : ℕ) → pos % 64 < k → k < 64 → bit (block xs (pos / 64)) k ≡ 1 - d)
      → ((i k : ℕ) → i < n → k < 64 → bit (block (drop (pos / 64 + 1) xs) i) k ≡ 1 - d)
      → (p : ℕ) → pos < p
      → p / 64 < pos / 64 + 1 + n
      → digit xs p ≡ 1 - d
  later_digit n own others p h k = elim (dec_lt (pos / 64) (p / 64)) [
    | yes l ↦
        let e : pos / 64 + 1 + (p / 64 - (pos / 64 + 1)) ≡ p / 64 = omega arith in
        ap (λ t. bit (block xs t) (p % 64)) (sym e)
        ∙ ap (λ t. bit t (p % 64)) (sym (block-drop (pos / 64 + 1) xs (p / 64 - (pos / 64 + 1))))
        ∙ others (p / 64 - (pos / 64 + 1)) (p % 64) (omega arith) (omega arith)
    | no l ↦
        let same : p / 64 ≡ pos / 64 = omega arith in
        rw same (own (p % 64) (omega arith) (omega arith))
  ]

  Next-rest :
      (r : ℕ)
      → ((k : ℕ) → pos % 64 < k → k < 64 → bit (block xs (pos / 64)) k ≡ 1 - d)
      → Scan d (drop (pos / 64 + 1) xs) (pos / 64 + 1) missing r
      → Next d xs pos missing r
  Next-rest r own (nowhere e all) = missed e (λ p h k.
      later_digit (length (drop (pos / 64 + 1) xs)) own all p h
        (omega (arith, length-drop (pos / 64 + 1) xs)))
  Next-rest r own (at j k e l m hit before below) =
      found (omega arith) (omega (arith, length-drop (pos / 64 + 1) xs))
        (digit_here xs r (pos / 64 + 1 + j) k e m
          ∙ ap (λ t. bit t k) (sym (block-drop (pos / 64 + 1) xs j))
          ∙ hit)
        (λ p h n. elim (dec_lt (p / 64) (pos / 64 + 1 + j)) [
          | yes q ↦ later_digit j own before p h q
          | no q ↦
              let same : p / 64 ≡ pos / 64 + 1 + j = omega arith in
              rw (same, ← block-drop (pos / 64 + 1) xs j) (below (p % 64) (omega arith))
        ])

  Next-own :
      (p : ℕ)
      → pos % 64 < p
      → p < 64
      → bit (block xs (pos / 64)) p ≡ d
      → ((k : ℕ) → pos % 64 < k → k < p → bit (block xs (pos / 64)) k ≡ 1 - d)
      → Next d xs pos missing (bit_position (pos / 64) p)
  Next-own p h k hit below =
      found (omega arith) (omega arith) (digit_here xs _ (pos / 64) p refl k ∙ hit) (λ q l m.
        let same : q / 64 ≡ pos / 64 = omega arith in
        rw same (below (q % 64) (omega arith) (omega arith)))

  Next-step :
      (temp b rest : ℕ)
      → d ≤ 1
      → FirstDigit d 0 64 temp b
      → (pos % 64 < 63 → (k : ℕ) → k ≤ pos % 64 → bit temp k ≡ 1 - d)
      → (pos % 64 < 63 → (k : ℕ) → pos % 64 < k → k < 64 → bit temp k ≡ bit (block xs (pos / 64)) k)
      → Scan d (drop (pos / 64 + 1) xs) (pos / 64 + 1) missing rest
      → Next d xs pos missing
          (if ltb (pos % 64) 63 && ltb 0 b then bit_position (pos / 64) (b - 1) else rest)
  Next-step temp b rest le f cleared kept s = elim (dec_lt (pos % 64) 63) [
    | no h ↦
        let last : ltb (pos % 64) 63 ≡ false = ground arith in
        rw last (Next-rest rest (λ k l m. absurd (omega arith)) s)
    | yes h ↦
        let inner : ltb (pos % 64) 63 ≡ true = ground arith in
        rw inner (elim f [
          | inl (e, all) ↦
              let none : ltb 0 b ≡ false = ground arith in
              rw none (Next-rest rest (λ k l m. sym (kept h k l m) ∙ all k m) s)
          | inr (p, e, k, hit, below) ↦
              let some_digit : ltb 0 b ≡ true = ground arith in
              let place : b - 1 ≡ p = omega arith in
              let after : pos % 64 < p = elim (dec_lt (pos % 64) p) [
                | yes l ↦ l
                | no l ↦ absurd (omega (arith, cleared h p (omega arith), hit))
              ] in
              rw (some_digit, place)
                (Next-own p after k (sym (kept h p after k) ∙ hit)
                  (λ q l m. sym (kept h q l (omega arith)) ∙ below q m))
        ])
  ]

abbrev FindsNext : BitSet → ℕ → ℕ → Type 0
FindsNext b pos r =
    ((r ≡ npos) × ((p : ℕ) → pos < p → test b p ≡ false))
    ⊎ ((pos < r) × (test b r ≡ true) × ((p : ℕ) → pos < p → p < r → test b p ≡ false))

Next-FindsNext : (b : BitSet) (pos r : ℕ) → Next 1 b.blocks pos npos r → FindsNext b pos r
Next-FindsNext b pos r (missed e all) = inl (
  e,
  λ p h. test_of_no_digit b p (elim (dec_lt p (length b.blocks * 64)) [
    | yes l ↦ all p h l
    | no l ↦ digit_beyond b.blocks p (omega arith)
  ]),
)
Next-FindsNext b pos r (found h l hit below) =
    inr (h, test_of_digit b r hit, λ p k m. test_of_no_digit b p (below p k m))

masked_digit :
    (x off k : ℕ)
    → off < 63
    → k < 64
    → bit (bit_and x (complement64 (ones_through off))) k ≡ (if leb k off then 0 else bit x k)
masked_digit x off k h l = elim (Bool-cases (leb k off)) [
  | inl e ↦ rw e (omega (arith, clear_digit, rw e at (ones_through_lem off k h l)))
  | inr e ↦ rw e (omega (arith, clear_digit, rw e at (ones_through_lem off k h l), bit-le-one x k))
]
  where
    ones : ℕ
    ones = ones_through off

    clear_digit :
        (bit (bit_and x (complement64 ones)) k ≡ min (bit x k) (bit (complement64 ones) k))
        × (bit (complement64 ones) k + bit ones k ≡ 1)
    clear_digit = (bit-bit_and x (complement64 ones) k, bit-complement 64 ones k (omega arith) l)

-- The search after a position gives the least position of the set above it, or npos where the set
-- has none above it.
pub find_next_lem :
    (b : BitSet) (pos : ℕ)
    → ((find_next b pos ≡ npos) × ((p : ℕ) → pos < p → test b p ≡ false))
      ⊎ ((pos < find_next b pos)
          × (test b (find_next b pos) ≡ true)
          × ((p : ℕ) → pos < p → p < find_next b pos → test b p ≡ false))
unfolding find_next
find_next_lem b pos = elim (Bool-cases (leb (length b.blocks) (pos / 64))) [
  | inl e ↦ rw e (inl (refl, λ p h. test_of_no_digit b p (digit_beyond b.blocks p (ground arith))))
  | inr e ↦ rw e (
      Next-FindsNext b pos _ (
        Next-step 1 b.blocks pos npos (ground arith) temp _ _ (omega arith)
          (find_first_set64-FirstDigit temp)
          (λ h k l. masked_digit (block b.blocks (pos / 64)) (pos % 64) k h (omega arith) ∙ low k l)
          (λ h k l m. masked_digit (block b.blocks (pos / 64)) (pos % 64) k h m ∙ high k l)
          (first_from-Scan (drop (pos / 64 + 1) b.blocks) (pos / 64 + 1))))
]
  where
    temp : ℕ
    temp = bit_and (block b.blocks (pos / 64)) (complement64 (ones_through (pos % 64)))

    low :
        (k : ℕ)
        → k ≤ pos % 64
        → (if leb k (pos % 64) then 0 else bit (block b.blocks (pos / 64)) k) ≡ 0
    low k h = let e : leb k (pos % 64) ≡ true = ground arith in rw e

    high :
        (k : ℕ)
        → pos % 64 < k
        → (if leb k (pos % 64) then 0 else bit (block b.blocks (pos / 64)) k)
          ≡ bit (block b.blocks (pos / 64)) k
    high k h = let e : leb k (pos % 64) ≡ false = ground arith in rw e

abbrev FindsNextClear : BitSet → ℕ → ℕ → Type 0
FindsNextClear b pos r =
    (pos < r) × (test b r ≡ false) × ((p : ℕ) → pos < p → p < r → test b p ≡ true)

Next-FindsNextClear :
    (b : BitSet) (pos r : ℕ)
    → pos / 64 < length b.blocks
    → Next 0 b.blocks pos (length b.blocks * 64) r
    → FindsNextClear b pos r
Next-FindsNextClear b pos r h (missed e all) = (
  omega arith,
  test_of_no_digit b r (digit_beyond b.blocks r (omega arith)),
  λ p k l. test_of_digit b p (all p k (omega arith)),
)
Next-FindsNextClear b pos r h (found k l hit below) =
    (k, test_of_no_digit b r hit, λ p m n. test_of_digit b p (below p m n))

filled_digit :
    (x off k : ℕ)
    → off < 63
    → k < 64
    → bit (bit_or x (ones_through off)) k ≡ (if leb k off then 1 else bit x k)
filled_digit x off k h l = elim (Bool-cases (leb k off)) [
  | inl e ↦ rw e (
      omega (
        arith,
        bit-bit_or x (ones_through off) k,
        rw e at (ones_through_lem off k h l),
        bit-le-one x k,
      ))
  | inr e ↦
      rw e (omega (arith, bit-bit_or x (ones_through off) k, rw e at (ones_through_lem off k h l)))
]

-- For a valid set, the clear search after a position gives the least position above it that is not
-- in the set.
pub find_next_clear_lem :
    (b : BitSet) (pos : ℕ)
    → IsValid b.blocks
    → (pos < find_next_clear b pos)
      × (test b (find_next_clear b pos) ≡ false)
      × ((p : ℕ) → pos < p → p < find_next_clear b pos → test b p ≡ true)
unfolding find_next_clear
find_next_clear_lem b pos v = elim (Bool-cases (leb (length b.blocks) (pos / 64))) [
  | inl e ↦ rw e (
    omega arith,
    test_of_no_digit b (pos + 1) (digit_beyond b.blocks (pos + 1) (ground arith)),
    λ p h k. absurd (omega arith),
  )
  | inr e ↦ rw e (
      Next-FindsNextClear b pos _ (ground arith) (
        Next-step 0 b.blocks pos (length b.blocks * 64) (ground arith) temp _ _ (omega arith)
          (find_first_clear64-FirstDigit temp (
            bit_or-lt 64 (block b.blocks (pos / 64)) (ones_through (pos % 64)) (v.fits (pos / 64))
              (omega arith)))
          (λ h k l. filled_digit (block b.blocks (pos / 64)) (pos % 64) k h (omega arith) ∙ low k l)
          (λ h k l m. filled_digit (block b.blocks (pos / 64)) (pos % 64) k h m ∙ high k l)
          (first_clear_from-Scan (drop (pos / 64 + 1) b.blocks) (pos / 64 + 1) _
            (λ i. rw (block-drop (pos / 64 + 1) b.blocks i) (v.fits (pos / 64 + 1 + i))))))
]
  where
    temp : ℕ
    temp = bit_or (block b.blocks (pos / 64)) (ones_through (pos % 64))

    low :
        (k : ℕ)
        → k ≤ pos % 64
        → (if leb k (pos % 64) then 1 else bit (block b.blocks (pos / 64)) k) ≡ 1
    low k h = let e : leb k (pos % 64) ≡ true = ground arith in rw e

    high :
        (k : ℕ)
        → pos % 64 < k
        → (if leb k (pos % 64) then 1 else bit (block b.blocks (pos / 64)) k)
          ≡ bit (block b.blocks (pos / 64)) k
    high k h = let e : leb k (pos % 64) ≡ false = ground arith in rw e
