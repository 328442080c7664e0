-- ===== src/BitSet/Invariant.antt =====
-- What `check_invariants` asserts, kept by the operations on one set.
use tf_common.Common.{
  ℕ, zero, suc, ◌+◌, ◌-◌, ◌*◌, ◌/◌, ◌%◌, ◌^◌, ◌≤◌, ◌<◌, bit_and, bit_or, ◌≡◌, ◌≢◌, refl, ap, sym,
  ◌∙◌, ◌⊎◌, inl, inr, Bool, true, false, List, [], ◌∷◌, arith, Bool-cases, if◌then◌else◌, ◌==◌,
  ◌!=◌, !=_iff, !=-false, ltb, leb, length, length-set, get_or-set_self, get_or-set_ne,
  get_or_above, ==_iff, ==-false, eq_of_get_or,
}
use tf_common.Common
use tf_common.Common.Bits.{
  bit_and-lt, bit_or-lt, bit-le-one, bit-bit_or, bit-two_pow_self, ne_zero_of_bit,
}
use tf_common.BitSet.{BitSet, block, resize, set, reset, compact, compact_from, check_invariants}
use tf_common.BitSet.Blocks.{length-resize, block-resize, block-compact}
use tf_common.BitSet.Points.{grown, grown-length, block-grown, two_pow_offset}
use native.Mathlib.Decide.{ℕ_discrete, dec_lt}

-- Every block is a `uint64_t`, and the last one is not 0.
pub record IsValid (xs : List ℕ) : Type 0 where
  pub fits : (i : ℕ) → block xs i < 2 ^ 64
  pub tight : length xs ≢ 0 → block xs (length xs - 1) ≢ 0

pub IsValid-check : (b : BitSet) → IsValid b.blocks → check_invariants b ≡ true
unfolding check_invariants
IsValid-check b v = elim (Bool-cases (length b.blocks != 0)) [
  | inl e ↦ rw e ((!=_iff _ 0).1 (v.tight ((!=_iff _ 0).0 e)))
  | inr e ↦ rw e
]

abbrev Tight : List ℕ → Type 0
Tight xs = length xs ≢ 0 → block xs (length xs - 1) ≢ 0

Tight-resize : (xs : List ℕ) (n : ℕ) → block xs n ≢ 0 → Tight (resize xs (n + 1))
Tight-resize xs n ne h e =
    let last : length (resize xs (n + 1)) - 1 ≡ n = omega (arith, length-resize xs (n + 1)) in
    ne (
      sym (block-resize xs (n + 1) n (omega arith)) ∙ ap (block (resize xs (n + 1))) (sym last) ∙ e)

Tight-compact_from : (xs : List ℕ) (n : ℕ) → Tight (compact_from xs n)
unfolding compact_from
Tight-compact_from xs zero = elim (Bool-cases (block xs 0 != 0)) [
  | inl e ↦ rw e (Tight-resize xs 0 ((!=_iff _ 0).0 e))
  | inr e ↦ rw e (λ h. absurd (h refl))
]
Tight-compact_from xs (suc n) = elim (Bool-cases (block xs (suc n) != 0)) [
  | inl e ↦ rw e (Tight-resize xs (suc n) ((!=_iff _ 0).0 e))
  | inr e ↦ rw e (Tight-compact_from xs n)
]

Tight-compact : (xs : List ℕ) → Tight (compact xs)
unfolding compact
Tight-compact [] = λ h. absurd (h refl)
Tight-compact (x ∷ xs) =
    let filled : (suc (length xs) == 0) ≡ false = ground arith in
    rw filled (Tight-compact_from (x ∷ xs) (suc (length xs) - 1))

-- `compact` establishes the invariant.
pub compact-IsValid : (xs : List ℕ) → ((i : ℕ) → block xs i < 2 ^ 64) → IsValid (compact xs)
compact-IsValid xs h = record {
  fits = λ i. rw (block-compact xs i) (h i);
  tight = Tight-compact xs;
}

fits-set :
    (xs : List ℕ) (j v : ℕ)
    → ((i : ℕ) → block xs i < 2 ^ 64)
    → v < 2 ^ 64
    → (i : ℕ) → block (Common.set xs j v) i < 2 ^ 64
fits-set xs j v h k i = elim (ℕ_discrete j i) [
  | yes e ↦ elim (dec_lt j (length xs)) [
    | yes l ↦ rw (← e, get_or-set_self xs j v 0 l) k
    | no l ↦
        rw (get_or_above (Common.set xs j v) i 0 (omega (arith, length-set xs j v))) (omega arith)
  ]
  | no ne ↦ rw (get_or-set_ne xs j i v 0 ne) (h i)
]

Tight-set :
    (xs : List ℕ) (j v : ℕ)
    → j < length xs
    → v ≢ 0
    → (j ≢ length xs - 1 → block xs (length xs - 1) ≢ 0)
    → Tight (Common.set xs j v)
Tight-set xs j v h ne others _ = rw (length-set xs j v) (elim (ℕ_discrete j (length xs - 1)) [
  | yes e ↦ rw (← e, get_or-set_self xs j v 0 h) ne
  | no k ↦ rw (get_or-set_ne xs j (length xs - 1) v 0 k) (others k)
])

tight-grown :
    (b : BitSet) (j : ℕ)
    → IsValid b.blocks
    → j ≢ length (grown b j) - 1
    → block (grown b j) (length (grown b j) - 1) ≢ 0
tight-grown b j v = elim (Bool-cases (leb (length b.blocks) j)) [
  | inl e ↦ rw e (λ ne. absurd (ne (omega (arith, length-resize b.blocks (j + 1)))))
  | inr e ↦ rw e (λ ne. v.tight (ground arith))
]

-- Adding a position to a valid set leaves a valid set.
pub set-IsValid : (b : BitSet) (p : ℕ) → IsValid b.blocks → IsValid (set b p).blocks
unfolding set
set-IsValid b p v = record {
  fits =
      fits-set (grown b (p / 64)) (p / 64) written (λ i. rw (block-grown b (p / 64) i) (v.fits i))
        written_fits;
  tight =
      Tight-set (grown b (p / 64)) (p / 64) written (grown-length b (p / 64)) written_ne
        (tight-grown b (p / 64) v);
}
  where
    old : ℕ
    old = block (grown b (p / 64)) (p / 64)

    written : ℕ
    written = bit_or old (2 ^ (p % 64))

    written_fits : written < 2 ^ 64
    written_fits =
        bit_or-lt 64 old (2 ^ (p % 64)) (rw (block-grown b (p / 64) (p / 64)) (v.fits (p / 64)))
          (two_pow_offset p)

    written_ne : written ≢ 0
    written_ne = ne_zero_of_bit written (p % 64) (
        omega (
          arith,
          bit-bit_or old (2 ^ (p % 64)) (p % 64),
          bit-two_pow_self (p % 64),
          bit-le-one old (p % 64),
        ))

-- Removing a position from a valid set leaves a valid set, whose last block is not 0.
pub reset-IsValid : (b : BitSet) (p : ℕ) → IsValid b.blocks → IsValid (reset b p).blocks
unfolding reset
reset-IsValid b p v = elim (Bool-cases (ltb (p / 64) (length b.blocks))) [
  | inl e ↦ rw e (
      compact-IsValid _ (
        fits-set b.blocks (p / 64) _ v.fits
          (bit_and-lt 64 (block b.blocks (p / 64)) _ (v.fits (p / 64)))))
  | inr e ↦ rw e v
]

-- Two valid vectors with the same blocks are equal.
shorter :
    (xs ys : List ℕ) → IsValid ys → ((i : ℕ) → block xs i ≡ block ys i) → length ys ≤ length xs
shorter xs ys v h = elim (dec_lt (length xs) (length ys)) [
  | yes l ↦ absurd (
      v.tight (omega arith)
        (sym (h (length ys - 1)) ∙ get_or_above xs (length ys - 1) 0 (omega arith)))
  | no l ↦ omega arith
]

pub eq_of_blocks :
    (xs ys : List ℕ) → IsValid xs → IsValid ys → ((i : ℕ) → block xs i ≡ block ys i) → xs ≡ ys
eq_of_blocks xs ys v w h =
    let le₁ : length ys ≤ length xs = shorter xs ys w h in
    let le₂ : length xs ≤ length ys = shorter ys xs v (λ i. sym (h i)) in
    eq_of_get_or 0 xs ys (omega arith) (λ i k. h i)
