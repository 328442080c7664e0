-- ===== src/BitSet/Blocks.antt =====
-- Facts about the blocks of a vector: `resize`, `compact`, and the digit of a set at a position.
use tf_common.Common.{
  ℕ, zero, suc, ◌+◌, ◌-◌, ◌*◌, ◌/◌, ◌%◌, ◌≤◌, ◌<◌, ◌≡◌, refl, ap, sym, ◌∙◌, inl, inr, false, List,
  [], ◌∷◌, arith, Bool-cases, ◌==◌, ◌!=◌, !=-false, ltb, length, get_or_above,
}
use tf_common.Common.Bits.{bit, bit-zero, bit_and-two_pow, bit-le-one}
use tf_common.BitSet.{BitSet, block, block_index, block_offset, resize, compact_from, compact, test}
use native.Mathlib.Nat.{one-le-pow, zero-mul}
use native.Mathlib.Decide.{dec_lt, ℕ_discrete}

pub length-resize : (xs : List ℕ) (n : ℕ) → length (resize xs n) ≡ n
unfolding resize
length-resize xs zero = refl
length-resize [] (suc n) = ap suc (length-resize [] n)
length-resize (x ∷ xs) (suc n) = ap suc (length-resize xs n)

pub block-resize : (xs : List ℕ) (n i : ℕ) → i < n → block (resize xs n) i ≡ block xs i
unfolding resize
block-resize xs zero i h = absurd (omega arith)
block-resize [] (suc n) zero h = refl
block-resize [] (suc n) (suc i) h = block-resize [] n i (omega arith)
block-resize (x ∷ xs) (suc n) zero h = refl
block-resize (x ∷ xs) (suc n) (suc i) h = block-resize xs n i (omega arith)

-- All blocks from `n` on are 0.
abbrev pub ZeroFrom : List ℕ → ℕ → Type 0
ZeroFrom xs n = (i : ℕ) → n ≤ i → block xs i ≡ 0

block-resize_zero :
    (xs : List ℕ) (n : ℕ) → ZeroFrom xs n → (i : ℕ) → block (resize xs n) i ≡ block xs i
block-resize_zero xs n z i = elim (dec_lt i n) [
  | yes h ↦ block-resize xs n i h
  | no h ↦
      get_or_above (resize xs n) i 0 (omega (arith, length-resize xs n)) ∙ sym (z i (omega arith))
]

block-compact_from :
    (xs : List ℕ) (n : ℕ) → ZeroFrom xs (n + 1) → (i : ℕ) → block (compact_from xs n) i ≡ block xs i
unfolding compact_from
block-compact_from xs zero z i = elim (Bool-cases (block xs 0 != 0)) [
  | inl e ↦ rw e (block-resize_zero xs 1 z i)
  | inr e ↦ rw e (
      sym (elim (dec_lt 0 i) [
        | yes h ↦ z i (omega arith)
        | no h ↦ let first : i ≡ 0 = omega arith in rw first (ground arith)
      ]))
]
block-compact_from xs (suc n) z i = elim (Bool-cases (block xs (suc n) != 0)) [
  | inl e ↦ rw e (block-resize_zero xs (suc n + 1) z i)
  | inr e ↦ rw e (block-compact_from xs n (below (!=-false _ 0 e)) i)
]
  where
    below : block xs (suc n) ≡ 0 → ZeroFrom xs (n + 1)
    below e j h = elim (ℕ_discrete j (suc n)) [
      | yes same ↦ rw same e
      | no other ↦ z j (omega arith)
    ]

-- Compaction drops blocks that are 0, so that no block reads differently.
pub block-compact : (xs : List ℕ) (i : ℕ) → block (compact xs) i ≡ block xs i
unfolding compact
block-compact [] i = refl
block-compact (x ∷ xs) i =
    let last : suc (length xs) - 1 ≡ length xs = omega arith in
    let filled : (suc (length xs) == 0) ≡ false = ground arith in
    rw (filled, last) (block-compact_from (x ∷ xs) (length xs) beyond i)
  where
    beyond : ZeroFrom (x ∷ xs) (length xs + 1)
    beyond j h = get_or_above (x ∷ xs) j 0 (omega arith)

-- The digit of a set at a position, 0 beyond the last block.
abbrev pub digit : List ℕ → ℕ → ℕ
digit xs pos = bit (block xs (block_index pos)) (block_offset pos)

digit_test : (d p : ℕ) → d ≤ 1 → 1 ≤ p → (d * p != 0) ≡ (d == 1)
digit_test zero p h k = rw (zero-mul p)
digit_test (suc zero) p h k = ground arith
digit_test (suc (suc d)) p h k = absurd (omega arith)

-- `test` reads that digit.
pub test-digit : (b : BitSet) (pos : ℕ) → test b pos ≡ (digit b.blocks pos == 1)
unfolding test
test-digit b pos = elim (Bool-cases (ltb (pos / 64) (length b.blocks))) [
  | inl e ↦
      rw (e, bit_and-two_pow (block b.blocks (pos / 64)) (pos % 64))
        (digit_test _ _ (bit-le-one _ (pos % 64)) (one-le-pow (pos % 64) 2 (omega arith)))
  | inr e ↦
      let beyond : block b.blocks (pos / 64) ≡ 0 =
        get_or_above b.blocks (pos / 64) 0 (ground arith) in
      rw (e, beyond, bit-zero (pos % 64))
]
