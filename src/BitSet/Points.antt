-- ===== src/BitSet/Points.antt =====
-- `set`, `reset` and `clear` position by position.
use tf_common.Common.{
  ℕ, zero, suc, ◌+◌, ◌-◌, ◌*◌, ◌/◌, ◌%◌, ◌^◌, ◌≤◌, ◌<◌, bit_and, bit_or, ◌≡◌, ◌≢◌, ◌⊎◌, refl, ap,
  sym, ◌∙◌, inl, inr, Bool, true, false, List, [], ◌∷◌, arith, Bool-cases, if◌then◌else◌, ◌==◌, ltb,
  leb, length, length-set, get_or-set_self, get_or-set_ne, get_or_above, ==_iff, ==-false,
}
use tf_common.Common
use tf_common.Common.Bits.{
  bit, bit-zero, bit-le-one, bit-bit_or, bit-bit_and, bit-two_pow_self, bit-two_pow_ne,
  bit-complement,
}
use tf_common.Word64.{complement64}
use tf_common.BitSet.{BitSet, block, resize, set, reset, test}
use tf_common.BitSet.Blocks.{length-resize, block-resize, block-compact, digit, test-digit}
use native.Mathlib.Nat.{pow-le-pow_right}
use native.Mathlib.Decide.{ℕ_discrete, dec_lt}

-- The vector that `set` writes to.
abbrev pub grown : BitSet → ℕ → List ℕ
grown b idx = if leb (length b.blocks) idx then resize b.blocks (idx + 1) else b.blocks

pub grown-length : (b : BitSet) (idx : ℕ) → idx < length (grown b idx)
grown-length b idx = ground (arith, length-resize b.blocks (idx + 1))

pub block-grown : (b : BitSet) (idx i : ℕ) → block (grown b idx) i ≡ block b.blocks i
block-grown b idx i = elim (Bool-cases (leb (length b.blocks) idx)) [
  | inl e ↦ rw e (elim (dec_lt i (idx + 1)) [
    | yes h ↦ block-resize b.blocks (idx + 1) i h
    | no h ↦
        get_or_above (resize b.blocks (idx + 1)) i 0
          (omega (arith, length-resize b.blocks (idx + 1)))
        ∙ sym (get_or_above b.blocks i 0 (ground arith))
  ])
  | inr e ↦ rw e
]

pub two_pow_offset : (pos : ℕ) → 2 ^ (pos % 64) < 2 ^ 64
two_pow_offset pos =
    let le63 : 2 ^ (pos % 64) ≤ 2 ^ 63 =
      pow-le-pow_right {n = 2} (omega arith) {i = pos % 64} {j = 63} (omega arith) in
    omega arith

digit-set-block :
    (xs : List ℕ) (p q v d : ℕ)
    → p / 64 < length xs
    → bit v (p % 64) ≡ d
    → ((i : ℕ) → i < 64 → p % 64 ≢ i → bit v i ≡ bit (block xs (p / 64)) i)
    → digit (Common.set xs (p / 64) v) q ≡ (if p == q then d else digit xs q)
digit-set-block xs p q v d h own others = elim (ℕ_discrete (p / 64) (q / 64)) [
  | yes same ↦
      rw (← same, get_or-set_self xs (p / 64) v 0 h)
        (elim (ℕ_discrete (p % 64) (q % 64)) [
          | yes e ↦ let eq : p ≡ q = omega arith in rw ((==_iff p q).1 eq) (rw (← e) own)
          | no ne ↦
              let neq : (p == q) ≡ false = ground arith in rw neq (others (q % 64) (omega arith) ne)
        ])
  | no ne ↦
      let neq : (p == q) ≡ false = ground (arith, λ (e : p ≡ q). ne (ap (λ (t : ℕ). t / 64) e)) in
      rw (neq, get_or-set_ne xs (p / 64) (q / 64) v 0 ne)
]

pub digit-set :
    (b : BitSet) (p q : ℕ) → digit (set b p).blocks q ≡ (if p == q then 1 else digit b.blocks q)
unfolding set
digit-set b p q =
    digit-set-block (grown b (p / 64)) p q _ 1 (grown-length b (p / 64)) own others
    ∙ ap (λ (t : ℕ). if p == q then 1 else bit t (q % 64)) (block-grown b (p / 64) (q / 64))
  where
    old : ℕ
    old = block (grown b (p / 64)) (p / 64)

    own : bit (bit_or old (2 ^ (p % 64))) (p % 64) ≡ 1
    own = omega (
      arith,
      bit-bit_or old (2 ^ (p % 64)) (p % 64),
      bit-two_pow_self (p % 64),
      bit-le-one old (p % 64),
    )

    others : (i : ℕ) → i < 64 → p % 64 ≢ i → bit (bit_or old (2 ^ (p % 64))) i ≡ bit old i
    others i h ne = omega (arith, bit-bit_or old (2 ^ (p % 64)) i, bit-two_pow_ne (p % 64) i ne)

-- After a position is set, exactly it and the earlier positions are in the set.
pub test-set : (b : BitSet) (p q : ℕ) → test (set b p) q ≡ (if p == q then true else test b q)
test-set b p q =
    test-digit (set b p) q ∙ ap (λ (d : ℕ). d == 1) (digit-set b p q) ∙ split (Bool-cases (p == q))
  where
    split :
        ((p == q) ≡ true) ⊎ ((p == q) ≡ false)
        → ((if p == q then 1 else digit b.blocks q) == 1) ≡ (if p == q then true else test b q)
    split (inl e) = rw e
    split (inr e) = rw e (sym (test-digit b q))

pub digit-reset :
    (b : BitSet) (p q : ℕ) → digit (reset b p).blocks q ≡ (if p == q then 0 else digit b.blocks q)
unfolding reset
digit-reset b p q = elim (Bool-cases (ltb (p / 64) (length b.blocks))) [
  | inl e ↦ rw e (
      ap (λ (t : ℕ). bit t (q % 64)) (block-compact _ (q / 64))
      ∙ digit-set-block b.blocks p q _ 0 (ground arith) own others)
  | inr e ↦ rw e (absent (Bool-cases (p == q)) (ground arith))
]
  where
    old : ℕ
    old = block b.blocks (p / 64)

    own : bit (bit_and old (complement64 (2 ^ (p % 64)))) (p % 64) ≡ 0
    own = omega (
      arith,
      bit-bit_and old (complement64 (2 ^ (p % 64))) (p % 64),
      bit-complement 64 (2 ^ (p % 64)) (p % 64) (two_pow_offset p) (omega arith),
      bit-two_pow_self (p % 64),
    )

    others :
        (i : ℕ)
        → i < 64
        → p % 64 ≢ i
        → bit (bit_and old (complement64 (2 ^ (p % 64)))) i ≡ bit old i
    others i h ne = omega (
      arith,
      bit-bit_and old (complement64 (2 ^ (p % 64))) i,
      bit-complement 64 (2 ^ (p % 64)) i (two_pow_offset p) h,
      bit-two_pow_ne (p % 64) i ne,
      bit-le-one old i,
    )

    absent :
        ((p == q) ≡ true) ⊎ ((p == q) ≡ false)
        → length b.blocks ≤ p / 64
        → digit b.blocks q ≡ (if p == q then 0 else digit b.blocks q)
    absent (inl e) h =
        let same : p ≡ q = (==_iff p q).0 e in
        let beyond : block b.blocks (q / 64) ≡ 0 = get_or_above b.blocks (q / 64) 0 (omega arith) in
        rw (e, beyond) (bit-zero (q % 64))
    absent (inr e) h = rw e

-- After a position is reset, exactly the earlier positions other than it are in the set, whatever
-- blocks the compaction drops.
pub test-reset : (b : BitSet) (p q : ℕ) → test (reset b p) q ≡ (if p == q then false else test b q)
test-reset b p q =
    test-digit (reset b p) q
    ∙ ap (λ (d : ℕ). d == 1) (digit-reset b p q)
    ∙ split (Bool-cases (p == q))
  where
    split :
        ((p == q) ≡ true) ⊎ ((p == q) ≡ false)
        → ((if p == q then 0 else digit b.blocks q) == 1) ≡ (if p == q then false else test b q)
    split (inl e) = rw e
    split (inr e) = rw e (sym (test-digit b q))

pub test-empty : (p : ℕ) → test (record { blocks = [] }) p ≡ false
unfolding test
test-empty p = ground arith
