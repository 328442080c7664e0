-- ===== src/BitSet/Pair/Algebra.antt =====
-- The operations on two sets, position by position, and what they keep of the invariant.
use tf_common.Common.{
  ℕ, zero, suc, ◌+◌, ◌-◌, ◌/◌, ◌%◌, ◌^◌, ◌≤◌, ◌<◌, min, max, bit_and, bit_or, ◌≡◌, refl, ap, ap₂,
  sym, inl, inr, not, ◌&&◌, ◌||◌, List, [], ◌∷◌, arith, Bool-cases, ◌==◌, ltb, length,
}
use tf_common.Common.Bits.{
  bit, bit-zero, bit_and-lt, bit_or-lt, bit-le-one, bit-bit_or, bit-bit_and, bit-complement,
  zero-bit_and, bit_and-zero, zero-bit_or, bit_or-zero, le-bit_or_left, le-bit_or_right,
}
use tf_common.Word64.{complement64}
use tf_common.BitSet.{BitSet, block, resize, test}
use tf_common.BitSet.Blocks.{block-compact, test-digit}
use tf_common.BitSet.Invariant.{IsValid, compact-IsValid}
use tf_common.BitSet.Pair.{
  op_or, op_and_assign, op_or_assign, build_complement, or_blocks, and_blocks, minus_blocks,
  or_assign_blocks,
}
use native.Mathlib.Decide.{dec_lt}

-- Digits and tests.
min_test : (d e : ℕ) → d ≤ 1 → e ≤ 1 → (min d e == 1) ≡ ((d == 1) && (e == 1))
min_test zero e h k = ground arith
min_test (suc zero) zero h k = refl
min_test (suc zero) (suc zero) h k = refl
min_test (suc zero) (suc (suc e)) h k = absurd (omega arith)
min_test (suc (suc d)) e h k = absurd (omega arith)

max_test : (d e : ℕ) → d ≤ 1 → e ≤ 1 → (max d e == 1) ≡ ((d == 1) || (e == 1))
max_test zero zero h k = refl
max_test zero (suc zero) h k = refl
max_test zero (suc (suc e)) h k = absurd (omega arith)
max_test (suc zero) zero h k = refl
max_test (suc zero) (suc zero) h k = refl
max_test (suc zero) (suc (suc e)) h k = absurd (omega arith)
max_test (suc (suc d)) e h k = absurd (omega arith)

not_test : (c e : ℕ) → c + e ≡ 1 → (c == 1) ≡ not (e == 1)
not_test zero e h = let one : e ≡ 1 = omega arith in rw one
not_test (suc zero) e h = let none : e ≡ 0 = omega arith in rw none
not_test (suc (suc c)) e h = absurd (omega arith)

pub block-and_blocks :
    (xs ys : List ℕ) (i : ℕ) → block (and_blocks xs ys) i ≡ bit_and (block xs i) (block ys i)
unfolding and_blocks
block-and_blocks [] ys i = sym (zero-bit_and (block ys i))
block-and_blocks (x ∷ xs) [] zero = sym (bit_and-zero x)
block-and_blocks (x ∷ xs) [] (suc i) = block-and_blocks xs [] i
block-and_blocks (x ∷ xs) (y ∷ ys) zero = refl
block-and_blocks (x ∷ xs) (y ∷ ys) (suc i) = block-and_blocks xs ys i

pub block-or_blocks :
    (xs ys : List ℕ) (i : ℕ) → block (or_blocks xs ys) i ≡ bit_or (block xs i) (block ys i)
unfolding or_blocks
block-or_blocks [] ys i = sym (zero-bit_or (block ys i))
block-or_blocks (x ∷ xs) [] i = sym (bit_or-zero (block (x ∷ xs) i))
block-or_blocks (x ∷ xs) (y ∷ ys) zero = refl
block-or_blocks (x ∷ xs) (y ∷ ys) (suc i) = block-or_blocks xs ys i

-- The intersection in place has exactly the positions of both sets.
pub test-op_and_assign :
    (b rhs : BitSet) (p : ℕ) → test (op_and_assign b rhs) p ≡ (test b p && test rhs p)
unfolding op_and_assign
test-op_and_assign b rhs p =
    rw
      (
        test-digit (op_and_assign b rhs) p,
        test-digit b p,
        test-digit rhs p,
        block-compact (and_blocks b.blocks rhs.blocks) (p / 64),
        block-and_blocks b.blocks rhs.blocks (p / 64),
        bit-bit_and (block b.blocks (p / 64)) (block rhs.blocks (p / 64)) (p % 64),
      )
      (min_test _ _ (bit-le-one _ (p % 64)) (bit-le-one _ (p % 64)))

-- The union has exactly the positions of either set.
pub test-op_or : (b rhs : BitSet) (p : ℕ) → test (op_or b rhs) p ≡ (test b p || test rhs p)
unfolding op_or
test-op_or b rhs p =
    rw
      (
        test-digit (op_or b rhs) p,
        test-digit b p,
        test-digit rhs p,
        block-or_blocks b.blocks rhs.blocks (p / 64),
        bit-bit_or (block b.blocks (p / 64)) (block rhs.blocks (p / 64)) (p % 64),
      )
      (max_test _ _ (bit-le-one _ (p % 64)) (bit-le-one _ (p % 64)))

-- `|=` grows the vector of the left set first, and comes to the same as `|`.
or_assign_grown :
    (xs ys : List ℕ)
    → length xs < length ys
    → or_assign_blocks (resize xs (length ys)) ys ≡ or_blocks xs ys
unfolding or_assign_blocks or_blocks resize
or_assign_grown [] (y ∷ []) h = rw zero-bit_or
or_assign_grown [] (y ∷ z ∷ ys) h =
    ap₂ ◌∷◌ (zero-bit_or y) (or_assign_grown [] (z ∷ ys) (omega arith))
or_assign_grown (x ∷ xs) (y ∷ ys) h = ap (λ t. bit_or x y ∷ t) (or_assign_grown xs ys (omega arith))
or_assign_grown xs [] h = absurd (omega arith)

or_assign_fits : (xs ys : List ℕ) → length ys ≤ length xs → or_assign_blocks xs ys ≡ or_blocks xs ys
unfolding or_assign_blocks or_blocks
or_assign_fits [] [] h = refl
or_assign_fits [] (y ∷ ys) h = absurd (omega arith)
or_assign_fits (x ∷ xs) [] h = refl
or_assign_fits (x ∷ xs) (y ∷ ys) h = ap (λ t. bit_or x y ∷ t) (or_assign_fits xs ys (omega arith))

-- The union in place, which grows the left set first, equals the union.
pub op_or_assign-op_or : (b rhs : BitSet) → op_or_assign b rhs ≡ op_or b rhs
unfolding op_or_assign op_or
op_or_assign-op_or b rhs = elim (Bool-cases (ltb (length b.blocks) (length rhs.blocks))) [
  | inl e ↦ rw e (
      ap (λ t. let r : BitSet = record { blocks = t } in r)
        (or_assign_grown b.blocks rhs.blocks (ground arith)))
  | inr e ↦ rw e (
      ap (λ t. let r : BitSet = record { blocks = t } in r)
        (or_assign_fits b.blocks rhs.blocks (ground arith)))
]

length-or_blocks : (xs ys : List ℕ) → length (or_blocks xs ys) ≡ max (length xs) (length ys)
unfolding or_blocks
length-or_blocks [] ys = omega arith
length-or_blocks (x ∷ xs) [] = omega arith
length-or_blocks (x ∷ xs) (y ∷ ys) = omega (arith, length-or_blocks xs ys)

-- The union of two valid sets is valid, with no compaction.
pub op_or-IsValid :
    (b rhs : BitSet) → IsValid b.blocks → IsValid rhs.blocks → IsValid (op_or b rhs).blocks
unfolding op_or
op_or-IsValid b rhs v w = record {
  fits = λ i. rw (block-or_blocks b.blocks rhs.blocks i) (bit_or-lt 64 _ _ (v.fits i) (w.fits i));
  tight = λ h e. elim (dec_lt (length b.blocks) (length rhs.blocks)) [
    | yes l ↦ w.tight (omega arith) (right l e)
    | no l ↦ v.tight (omega (arith, length-or_blocks b.blocks rhs.blocks)) (left l e)
  ];
}
  where
    last : ℕ
    last = length (or_blocks b.blocks rhs.blocks) - 1

    right :
        length b.blocks < length rhs.blocks
        → block (or_blocks b.blocks rhs.blocks) last ≡ 0
        → block rhs.blocks (length rhs.blocks - 1) ≡ 0
    right l e =
        let same : last ≡ length rhs.blocks - 1 =
          omega (arith, length-or_blocks b.blocks rhs.blocks) in
        rw (← same) (
          omega (
            arith,
            e,
            block-or_blocks b.blocks rhs.blocks last,
            le-bit_or_right 64 (block b.blocks last) (block rhs.blocks last) (w.fits last),
          ))

    left :
        ¬ (length b.blocks < length rhs.blocks)
        → block (or_blocks b.blocks rhs.blocks) last ≡ 0
        → block b.blocks (length b.blocks - 1) ≡ 0
    left l e =
        let same : last ≡ length b.blocks - 1 =
          omega (arith, length-or_blocks b.blocks rhs.blocks) in
        rw (← same) (
          omega (
            arith,
            e,
            block-or_blocks b.blocks rhs.blocks last,
            le-bit_or_left 64 (block b.blocks last) (block rhs.blocks last) (v.fits last),
          ))

pub op_and_assign-IsValid :
    (b rhs : BitSet) → IsValid b.blocks → IsValid (op_and_assign b rhs).blocks
unfolding op_and_assign
op_and_assign-IsValid b rhs v = compact-IsValid (and_blocks b.blocks rhs.blocks) λ i.
    rw (block-and_blocks b.blocks rhs.blocks i)
      (bit_and-lt 64 (block b.blocks i) (block rhs.blocks i) (v.fits i))

-- `minus_blocks` clears the digits of the right vector.
pub digit-minus_blocks :
    (xs ys : List ℕ) (i k : ℕ)
    → ((i : ℕ) → block ys i < 2 ^ 64)
    → k < 64
    → bit (block (minus_blocks xs ys) i) k ≡ min (bit (block xs i) k) (1 - bit (block ys i) k)
unfolding minus_blocks
digit-minus_blocks [] ys i k h l = omega (arith, bit-zero k)
digit-minus_blocks (x ∷ xs) [] i k h l = omega (arith, bit-zero k, bit-le-one (block (x ∷ xs) i) k)
digit-minus_blocks (x ∷ xs) (y ∷ ys) zero k h l =
    omega (arith, bit-bit_and x (complement64 y) k, bit-complement 64 y k (h 0) l)
digit-minus_blocks (x ∷ xs) (y ∷ ys) (suc i) k h l = digit-minus_blocks xs ys i k (λ j. h (suc j)) l

minus_test : (d e : ℕ) → d ≤ 1 → e ≤ 1 → (min d (1 - e) == 1) ≡ ((d == 1) && not (e == 1))
minus_test zero zero h k = refl
minus_test zero (suc zero) h k = refl
minus_test (suc zero) zero h k = refl
minus_test (suc zero) (suc zero) h k = refl
minus_test (suc (suc d)) e h k = absurd (omega arith)
minus_test d (suc (suc e)) h k = absurd (omega arith)

-- For a valid right set, the complement has exactly the positions of the left set that are not in
-- the right one.
pub test-build_complement :
    (lhs rhs : BitSet) (p : ℕ)
    → IsValid rhs.blocks
    → test (build_complement lhs rhs) p ≡ (test lhs p && not (test rhs p))
unfolding build_complement
test-build_complement lhs rhs p v =
    rw
      (
        test-digit (build_complement lhs rhs) p,
        test-digit lhs p,
        test-digit rhs p,
        block-compact (minus_blocks lhs.blocks rhs.blocks) (p / 64),
        digit-minus_blocks lhs.blocks rhs.blocks (p / 64) (p % 64) v.fits (omega arith),
      )
      (minus_test _ _ (bit-le-one _ (p % 64)) (bit-le-one _ (p % 64)))
