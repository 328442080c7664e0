-- ===== src/BitSet/Refinement.antt =====
-- Bit sets against their specification, the sets of numbers: a program of operations of
-- base/bitset.h is run on blocks, and read as a predicate.
use tf_common.Common.{
  ℕ, suc, zero, ◌^◌, ◌<◌, ◌≡◌, ◌↔◌, refl, sym, ap, ap₂, ◌∙◌, Bool, true, false, not, ◌&&◌, ◌||◌,
  List, [], ◌∷◌, if◌then◌else◌, ◌==◌, arith,
}
use mathlib.Core.Path.{subst}
use tf_common.Common.Bits.{bit_and-lt}
use tf_common.Word64.{complement64}
use tf_common.BitSet.{BitSet, block, set, reset, test}
use tf_common.BitSet.Points.{test-set, test-reset, test-empty}
use tf_common.BitSet.Invariant.{IsValid, compact-IsValid, set-IsValid, reset-IsValid}
use tf_common.BitSet.Pair.{
  op_and, op_or, op_and_assign, op_or_assign, build_complement, minus_blocks, op_eq, contains,
}
use tf_common.BitSet.Pair.Algebra.{
  test-op_and_assign, test-op_or, op_or_assign-op_or, op_or-IsValid, op_and_assign-IsValid,
  test-build_complement,
}
use tf_common.BitSet.Pair.Compare.{op_eq_iff, contains_iff}
use tf_common.BitSet.Pair.Intersection.{op_and-op_and_assign}

-- A program over sets: what its last operation is, and on what.
pub data Program : Type 0 where
  start : Program
  setting resetting : Program → ℕ → Program
  meeting meeting_in_place joining joining_in_place leaving : Program → Program → Program

-- On the blocks.
pub eval : Program → BitSet
eval start = record { blocks = [] }
eval (setting e p) = set (eval e) p
eval (resetting e p) = reset (eval e) p
eval (meeting e f) = op_and (eval e) (eval f)
eval (meeting_in_place e f) = op_and_assign (eval e) (eval f)
eval (joining e f) = op_or (eval e) (eval f)
eval (joining_in_place e f) = op_or_assign (eval e) (eval f)
eval (leaving e f) = build_complement (eval e) (eval f)

-- On the predicates.
pub denote : Program → ℕ → Bool
denote start q = false
denote (setting e p) q = if p == q then true else denote e q
denote (resetting e p) q = if p == q then false else denote e q
denote (meeting e f) q = denote e q && denote f q
denote (meeting_in_place e f) q = denote e q && denote f q
denote (joining e f) q = denote e q || denote f q
denote (joining_in_place e f) q = denote e q || denote f q
denote (leaving e f) q = denote e q && not (denote f q)

minus_blocks-lt :
    (xs ys : List ℕ) (i : ℕ)
    → ((i : ℕ) → block xs i < 2 ^ 64)
    → block (minus_blocks xs ys) i < 2 ^ 64
unfolding minus_blocks
minus_blocks-lt [] ys i h = omega arith
minus_blocks-lt (x ∷ xs) [] i h = h i
minus_blocks-lt (x ∷ xs) (y ∷ ys) zero h = bit_and-lt 64 x (complement64 y) (h 0)
minus_blocks-lt (x ∷ xs) (y ∷ ys) (suc i) h = minus_blocks-lt xs ys i (λ j. h (suc j))

build_complement-IsValid :
    (lhs rhs : BitSet) → IsValid lhs.blocks → IsValid (build_complement lhs rhs).blocks
unfolding build_complement
build_complement-IsValid lhs rhs v =
    compact-IsValid (minus_blocks lhs.blocks rhs.blocks)
      (λ i. minus_blocks-lt lhs.blocks rhs.blocks i v.fits)

-- The abstraction relation.
pub record Refines (b : BitSet) (spec : ℕ → Bool) : Type 0 where
  pub valid : IsValid b.blocks
  pub agrees : (p : ℕ) → test b p ≡ spec p

met :
    {b c : BitSet} {p q : ℕ → Bool}
    → Refines b p
    → Refines c q
    → Refines (op_and_assign b c) (λ i. p i && q i)
met r s = record {
  valid = op_and_assign-IsValid _ _ r.valid;
  agrees = λ i. test-op_and_assign _ _ i ∙ ap₂ ◌&&◌ (r.agrees i) (s.agrees i);
}

joined :
    {b c : BitSet} {p q : ℕ → Bool}
    → Refines b p
    → Refines c q
    → Refines (op_or b c) (λ i. p i || q i)
joined r s = record {
  valid = op_or-IsValid _ _ r.valid s.valid;
  agrees = λ i. test-op_or _ _ i ∙ ap₂ ◌||◌ (r.agrees i) (s.agrees i);
}

-- Whatever sets are made from the empty set by setting and resetting positions and by
-- intersections, unions and complements of one another, made anew or in place, the blocks are
-- valid and hold exactly the positions that the same operations on predicates give.
pub eval-Refines : (e : Program) → Refines (eval e) (denote e)
unfolding eval denote
eval-Refines start = record {
  valid = record { fits = λ i. omega arith; tight = λ ne. absurd (ne refl) };
  agrees = test-empty;
}
eval-Refines (setting e p) =
    let r = eval-Refines e in
    record {
      valid = set-IsValid (eval e) p r.valid;
      agrees = λ q. test-set (eval e) p q ∙ ap (λ t. if p == q then true else t) (r.agrees q);
    }
eval-Refines (resetting e p) =
    let r = eval-Refines e in
    record {
      valid = reset-IsValid (eval e) p r.valid;
      agrees = λ q. test-reset (eval e) p q ∙ ap (λ t. if p == q then false else t) (r.agrees q);
    }
eval-Refines (meeting e f) =
    let r = eval-Refines e in
    let s = eval-Refines f in
    let same = op_and-op_and_assign (eval e) (eval f) r.valid in
    subst (λ b. Refines b (denote (meeting e f))) (sym same) (met r s)
eval-Refines (meeting_in_place e f) = met (eval-Refines e) (eval-Refines f)
eval-Refines (joining e f) = joined (eval-Refines e) (eval-Refines f)
eval-Refines (joining_in_place e f) =
    subst (λ b. Refines b (denote (joining_in_place e f)))
      (sym (op_or_assign-op_or (eval e) (eval f))) (joined (eval-Refines e) (eval-Refines f))
eval-Refines (leaving e f) =
    let r = eval-Refines e in
    let s = eval-Refines f in
    record {
      valid = build_complement-IsValid (eval e) (eval f) r.valid;
      agrees = λ q.
          test-build_complement (eval e) (eval f) q s.valid
          ∙ ap₂ (λ t u. t && not u) (r.agrees q) (s.agrees q);
    }

-- Two sets that are made by such operations compare as equal exactly when their predicates agree,
-- however they were made, and one contains the other exactly when its predicate holds wherever the
-- other does.
pub op_eq-denote :
    (e f : Program)
    → ((op_eq (eval e) (eval f) ≡ true) ↔ ((p : ℕ) → denote e p ≡ denote f p))
      × ((contains (eval e) (eval f) ≡ true) ↔ ((p : ℕ) → denote f p ≡ true → denote e p ≡ true))
op_eq-denote e f =
    let r = eval-Refines e in
    let s = eval-Refines f in
    let same = op_eq_iff (eval e) (eval f) r.valid s.valid in
    let inside = contains_iff (eval e) (eval f) r.valid s.valid in
    (
      (
        λ h p. sym (r.agrees p) ∙ same.0 h p ∙ s.agrees p,
        λ h. same.1 (λ p. r.agrees p ∙ h p ∙ sym (s.agrees p)),
      ),
      (
        λ h p t. sym (r.agrees p) ∙ inside.0 h p (s.agrees p ∙ t),
        λ h. inside.1 (λ p t. r.agrees p ∙ h p (sym (s.agrees p) ∙ t)),
      ),
    )
