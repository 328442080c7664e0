-- ===== src/BitSet/Pair/Compare.antt =====
-- `operator==`, `intersects` and `Contains` against the positions of the two sets.
use tf_common.Common.{
  ℕ, zero, suc, ◌+◌, ◌-◌, ◌*◌, ◌/◌, ◌%◌, ◌^◌, ◌≤◌, ◌<◌, min, bit_and, ◌≡◌, ◌≢◌, ◌↔◌, refl, ap, sym,
  ◌∙◌, inl, inr, true, false, List, [], ◌∷◌, arith, Bool-cases, ◌!=◌, !=_iff, !=-false, ltb, length,
  get_or_above, ==_iff,
}
use tf_common.Common.Bits.{
  bit, bit-zero, bit_and-lt, bit-le-one, bit-bit_and, bit-complement, digit_of_ne_zero, eq_of_bits,
  ne_zero_of_bit,
}
use tf_common.Word64.{complement64}
use tf_common.BitSet.{BitSet, block, test}
use tf_common.BitSet.Blocks.{digit, test-digit}
use tf_common.BitSet.Invariant.{IsValid, eq_of_blocks}
use tf_common.BitSet.Pair.{
  op_eq, intersects, contains, same_blocks, intersects_blocks, contains_blocks,
}
use native.Mathlib.Decide.{dec_lt}
use mathlib.Core.Bool.{false≢true}

digit_iff : (b : BitSet) (p : ℕ) → (test b p ≡ true) ↔ (digit b.blocks p ≡ 1)
digit_iff b p = rw (test-digit b p) (==_iff (digit b.blocks p) 1)

-- The digit `k` of block `i` is at position `i * 64 + k`.
digit_at : (xs : List ℕ) (i k : ℕ) → k < 64 → digit xs (i * 64 + k) ≡ bit (block xs i) k
digit_at xs i k h =
    let idx : (i * 64 + k) / 64 ≡ i = omega arith in
    let offset : (i * 64 + k) % 64 ≡ k = omega arith in rw (idx, offset)

digit_eq : (a b : BitSet) (p : ℕ) → test a p ≡ test b p → digit a.blocks p ≡ digit b.blocks p
digit_eq a b p e = ground (
  arith,
  test-digit a p,
  test-digit b p,
  bit-le-one (block a.blocks (p / 64)) (p % 64),
  bit-le-one (block b.blocks (p / 64)) (p % 64),
)

-- Two valid sets with the same positions are the same set.
pub eq_of_tests :
    (a b : BitSet) → IsValid a.blocks → IsValid b.blocks → ((p : ℕ) → test a p ≡ test b p) → a ≡ b
eq_of_tests a b v w h =
    ap (λ t. let r : BitSet = record { blocks = t } in r)
      (eq_of_blocks a.blocks b.blocks v w λ i.
        eq_of_bits 64 (block a.blocks i) (block b.blocks i) (v.fits i) (w.fits i) λ k l.
          sym (digit_at a.blocks i k l)
          ∙ digit_eq a b (i * 64 + k) (h (i * 64 + k))
          ∙ digit_at b.blocks i k l)

same_blocks-eq : (xs ys : List ℕ) → length xs ≡ length ys → same_blocks xs ys ≡ true → xs ≡ ys
unfolding same_blocks
same_blocks-eq [] [] e h = refl
same_blocks-eq [] (y ∷ ys) e h = absurd (omega arith)
same_blocks-eq (x ∷ xs) [] e h = absurd (omega arith)
same_blocks-eq (x ∷ xs) (y ∷ ys) e h = ground (arith, same_blocks-eq xs ys (omega arith))

same_blocks_self : (xs : List ℕ) → same_blocks xs xs ≡ true
unfolding same_blocks
same_blocks_self [] = refl
same_blocks_self (x ∷ xs) = ground (arith, same_blocks_self xs)

op_eq_sound : (a b : BitSet) → op_eq a b ≡ true → a.blocks ≡ b.blocks
unfolding op_eq
op_eq_sound a b h = elim (Bool-cases (length a.blocks != length b.blocks)) [
  | inl e ↦ ground arith
  | inr e ↦ same_blocks-eq a.blocks b.blocks (!=-false _ _ e) (rw e at h)
]

op_eq_self : (a : BitSet) → op_eq a a ≡ true
unfolding op_eq
op_eq_self a = ground (arith, same_blocks_self a.blocks)

-- On two valid sets the comparison of blocks holds exactly when the sets have the same positions.
pub op_eq_iff :
    (a b : BitSet)
    → IsValid a.blocks
    → IsValid b.blocks
    → (op_eq a b ≡ true) ↔ ((p : ℕ) → test a p ≡ test b p)
op_eq_iff a b v w = (
  λ h p. ap (λ t. test (record { blocks = t }) p) (op_eq_sound a b h),
  λ h. rw (← eq_of_tests a b v w h) (op_eq_self a),
)

abbrev CommonDigit : List ℕ → List ℕ → Type 0
CommonDigit xs ys =
    (i : ℕ) × (k : ℕ) × (k < 64) × (bit (block xs i) k ≡ 1) × (bit (block ys i) k ≡ 1)

intersects_blocks_sound :
    (xs ys : List ℕ)
    → ((i : ℕ) → block xs i < 2 ^ 64)
    → intersects_blocks xs ys ≡ true
    → CommonDigit xs ys
unfolding intersects_blocks
intersects_blocks_sound [] ys h e = cc
intersects_blocks_sound (x ∷ xs) [] h e = cc
intersects_blocks_sound (x ∷ xs) (y ∷ ys) h e = elim (Bool-cases (bit_and x y != 0)) [
  | inl t ↦
      let (k, l, one) =
        digit_of_ne_zero 64 (bit_and x y) (bit_and-lt 64 x y (h 0)) ((!=_iff _ 0).0 t) in
      let both : min (bit x k) (bit y k) ≡ 1 = sym (bit-bit_and x y k) ∙ one in
      (0, k, l, omega (arith, both, bit-le-one x k), omega (arith, both, bit-le-one y k))
  | inr t ↦
      let (i, k, l, b, c) = intersects_blocks_sound xs ys (λ j. h (suc j)) (rw t at e) in
      (suc i, k, l, b, c)
]

intersects_blocks_complete :
    (xs ys : List ℕ) (i k : ℕ)
    → bit (block xs i) k ≡ 1
    → bit (block ys i) k ≡ 1
    → intersects_blocks xs ys ≡ true
unfolding intersects_blocks
intersects_blocks_complete [] ys i k b c = absurd (omega (arith, bit-zero k))
intersects_blocks_complete (x ∷ xs) [] i k b c = absurd (omega (arith, bit-zero k))
intersects_blocks_complete (x ∷ xs) (y ∷ ys) zero k b c =
    let ne : bit_and x y ≢ 0 = ne_zero_of_bit (bit_and x y) k (omega (arith, bit-bit_and x y k)) in
    rw ((!=_iff _ 0).1 ne)
intersects_blocks_complete (x ∷ xs) (y ∷ ys) (suc i) k b c =
    ground (arith, intersects_blocks_complete xs ys i k b c)

-- For a valid left set, two sets intersect exactly when some position is in both.
pub intersects_iff :
    (b rhs : BitSet)
    → IsValid b.blocks
    → (intersects b rhs ≡ true) ↔ ((p : ℕ) × (test b p ≡ true) × (test rhs p ≡ true))
unfolding intersects
intersects_iff b rhs v = (
  λ h.
      let (i, k, l, x, y) = intersects_blocks_sound b.blocks rhs.blocks v.fits h in
      (
        i * 64 + k,
        (digit_iff b _).1 (digit_at b.blocks i k l ∙ x),
        (digit_iff rhs _).1 (digit_at rhs.blocks i k l ∙ y),
      ),
  λ h.
      intersects_blocks_complete b.blocks rhs.blocks (h.0 / 64) (h.0 % 64) ((digit_iff b h.0).0 h.1)
        ((digit_iff rhs h.0).0 h.2),
)

abbrev Covers : List ℕ → List ℕ → Type 0
Covers xs ys = (i k : ℕ) → k < 64 → bit (block ys i) k ≡ 1 → bit (block xs i) k ≡ 1

contains_blocks_sound :
    (xs ys : List ℕ)
    → ((i : ℕ) → block xs i < 2 ^ 64)
    → length ys ≤ length xs
    → contains_blocks xs ys ≡ true
    → Covers xs ys
unfolding contains_blocks
contains_blocks_sound xs [] h l e i k m b = absurd (omega (arith, bit-zero k))
contains_blocks_sound [] (y ∷ ys) h l e i k m b = absurd (omega arith)
contains_blocks_sound (x ∷ xs) (y ∷ ys) h l e zero k m b =
    let none : bit_and y (complement64 x) ≡ 0 = ground arith in
    omega (
      arith,
      ap (λ t. bit t k) none,
      bit-zero k,
      bit-bit_and y (complement64 x) k,
      bit-complement 64 x k (h 0) m,
      bit-le-one x k,
    )
contains_blocks_sound (x ∷ xs) (y ∷ ys) h l e (suc i) k m b =
    contains_blocks_sound xs ys (λ j. h (suc j)) (omega arith) (ground arith) i k m b

contains_blocks_complete :
    (xs ys : List ℕ)
    → ((i : ℕ) → block xs i < 2 ^ 64)
    → ((i : ℕ) → block ys i < 2 ^ 64)
    → Covers xs ys
    → contains_blocks xs ys ≡ true
unfolding contains_blocks
contains_blocks_complete xs [] h g c = refl
contains_blocks_complete [] (y ∷ ys) h g c = refl
contains_blocks_complete (x ∷ xs) (y ∷ ys) h g c =
    elim (Bool-cases (bit_and y (complement64 x) != 0)) [
      | inl t ↦
          let (k, l, one) =
            digit_of_ne_zero 64 _ (bit_and-lt 64 y (complement64 x) (g 0)) ((!=_iff _ 0).0 t) in
          let both : min (bit y k) (bit (complement64 x) k) ≡ 1 =
            sym (bit-bit_and y (complement64 x) k) ∙ one in
          absurd (
            omega (
              arith,
              both,
              bit-le-one y k,
              bit-complement 64 x k (h 0) l,
              c 0 k l (omega (arith, both, bit-le-one y k)),
            ))
      | inr t ↦
          rw t (contains_blocks_complete xs ys (λ j. h (suc j)) (λ j. g (suc j)) (λ i. c (suc i)))
    ]

-- A longer valid vector has a digit where a shorter one has no block.
no_longer : (xs ys : List ℕ) → IsValid ys → Covers xs ys → length ys ≤ length xs
no_longer xs ys w c = elim (dec_lt (length xs) (length ys)) [
  | yes l ↦
      let last : ℕ = length ys - 1 in
      let (k, m, one) = digit_of_ne_zero 64 (block ys last) (w.fits last) (w.tight (omega arith)) in
      let beyond : block xs last ≡ 0 = get_or_above xs last 0 (omega arith) in
      absurd (omega (arith, c last k m one, ap (λ t. bit t k) beyond, bit-zero k))
  | no l ↦ omega arith
]

Covers-of_tests :
    (b rhs : BitSet) → ((p : ℕ) → test rhs p ≡ true → test b p ≡ true) → Covers b.blocks rhs.blocks
Covers-of_tests b rhs h i k l one =
    sym (digit_at b.blocks i k l)
    ∙ (digit_iff b (i * 64 + k)).0
        (h (i * 64 + k) ((digit_iff rhs (i * 64 + k)).1 (digit_at rhs.blocks i k l ∙ one)))

-- For valid sets, the left one contains the right one exactly when every position of the right one
-- is in it.
pub contains_iff :
    (b rhs : BitSet)
    → IsValid b.blocks
    → IsValid rhs.blocks
    → (contains b rhs ≡ true) ↔ ((p : ℕ) → test rhs p ≡ true → test b p ≡ true)
unfolding contains
contains_iff b rhs v w = (
  λ h p t. elim (Bool-cases (ltb (length b.blocks) (length rhs.blocks))) [
    | inl e ↦ absurd (false≢true (rw e at h))
    | inr e ↦ (digit_iff b p).1 (
        contains_blocks_sound b.blocks rhs.blocks v.fits (ground arith) (rw e at h) (p / 64)
          (p % 64) (omega arith) ((digit_iff rhs p).0 t))
  ],
  λ h.
      let c : Covers b.blocks rhs.blocks = Covers-of_tests b rhs h in
      let l : length rhs.blocks ≤ length b.blocks = no_longer b.blocks rhs.blocks w c in
      let small : ltb (length b.blocks) (length rhs.blocks) ≡ false = ground arith in
      rw small (contains_blocks_complete b.blocks rhs.blocks v.fits w.fits c),
)
