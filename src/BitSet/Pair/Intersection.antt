-- ===== src/BitSet/Pair/Intersection.antt =====
-- `BuildIntersection` fills its vector from the last common block down, and comes to the same
-- blocks as `&=` with its compaction.
use tf_common.Common.{
  ℕ, zero, suc, ◌+◌, ◌-◌, ◌^◌, ◌≤◌, ◌<◌, min, bit_and, ◌≡◌, ◌≢◌, refl, ap, sym, ◌∙◌, ◌⊎◌, inl, inr,
  false, List, [], ◌∷◌, arith, Bool-cases, if◌then◌else◌, ◌==◌, ◌!=◌, !=_iff, !=-false, ==_iff,
  ==-false, length, length-set, get_or-set_self, get_or-set_ne, get_or_above,
}
use tf_common.Common
use tf_common.Common.Bits.{zero-bit_and, bit_and-zero, bit_and-lt}
use tf_common.BitSet.{BitSet, block, resize}
use tf_common.BitSet.Blocks.{length-resize, block-compact}
use tf_common.BitSet.Invariant.{IsValid, eq_of_blocks}
use tf_common.BitSet.Pair.{
  op_and_assign, build_intersection, op_and, intersection_step, intersection_from,
}
use tf_common.BitSet.Pair.Algebra.{block-and_blocks, op_and_assign-IsValid}
use native.Mathlib.Decide.{ℕ_discrete, dec_lt}

-- The state of the loop when the blocks from `idx` on are done.
record Filled (lhs rhs : List ℕ) (idx : ℕ) (temp : List ℕ) : Type 0 where
  pub done : (i : ℕ) → idx ≤ i → block temp i ≡ bit_and (block lhs i) (block rhs i)
  pub rest : (i : ℕ) → i < idx → block temp i ≡ 0
  pub sized : (length temp ≡ 0) ⊎ (idx < length temp)
  pub tight : length temp ≢ 0 → block temp (length temp - 1) ≢ 0

block-nothing : (xs : List ℕ) (i : ℕ) → length xs ≡ 0 → block xs i ≡ 0
block-nothing xs i e = get_or_above xs i 0 (omega arith)

block-resize_nothing : (n i : ℕ) → block (resize [] n) i ≡ 0
unfolding resize
block-resize_nothing zero i = refl
block-resize_nothing (suc n) zero = refl
block-resize_nothing (suc n) (suc i) = block-resize_nothing n i

nothing : (xs : List ℕ) → length xs ≡ 0 → xs ≡ []
nothing [] e = refl
nothing (x ∷ xs) e = absurd (omega arith)

-- What writing the block `idx` into a vector with that block does.
write_block :
    (lhs rhs temp base : List ℕ) (idx both : ℕ)
    → both ≡ bit_and (block lhs idx) (block rhs idx)
    → both ≢ 0
    → Filled lhs rhs (suc idx) temp
    → idx < length base
    → ((i : ℕ) → block base i ≡ block temp i)
    → (length base ≡ suc idx ⊎ (length base ≡ length temp))
    → Filled lhs rhs idx (Common.set base idx both)
write_block lhs rhs temp base idx both e ne f h same len = record {
  done = λ i k. elim (ℕ_discrete idx i) [
    | yes here ↦ rw (← here, get_or-set_self base idx both 0 h) e
    | no other ↦ rw (get_or-set_ne base idx i both 0 other, same i) (f.done i (omega arith))
  ];
  rest = λ i k. rw (get_or-set_ne base idx i both 0 (omega arith), same i) (f.rest i (omega arith));
  sized = inr (rw (length-set base idx both) h);
  tight = λ _. rw (length-set base idx both) (elim (ℕ_discrete idx (length base - 1)) [
    | yes last ↦ rw (← last, get_or-set_self base idx both 0 h) ne
    | no other ↦
        rw (get_or-set_ne base idx (length base - 1) both 0 other, same (length base - 1))
          (elim len [
            | inl own ↦ absurd (other (omega arith))
            | inr old ↦ rw old (f.tight (omega arith))
          ])
  ]);
}

step-Filled :
    (lhs rhs temp : List ℕ) (idx : ℕ)
    → Filled lhs rhs (suc idx) temp
    → Filled lhs rhs idx (intersection_step lhs rhs idx temp)
unfolding intersection_step
step-Filled lhs rhs temp idx f = elim (Bool-cases (both != 0)) [
  | inr z ↦ rw z (record {
    done = λ i k. elim (ℕ_discrete idx i) [
      | yes here ↦ rw (← here) (f.rest idx (omega arith) ∙ sym (!=-false both 0 z))
      | no other ↦ f.done i (omega arith)
    ];
    rest = λ i k. f.rest i (omega arith);
    sized = elim f.sized [ inl e ↦ inl e | inr l ↦ inr (omega arith) ];
    tight = f.tight;
  })
  | inl nz ↦ rw nz (elim (Bool-cases (length temp == 0)) [
    | inl e ↦
        let gone : temp ≡ [] = nothing temp ((==_iff _ 0).0 e) in
        rw e (
          write_block lhs rhs temp (resize temp (idx + 1)) idx both refl ((!=_iff both 0).0 nz) f
            (omega (arith, length-resize temp (idx + 1))) (rw gone (block-resize_nothing (idx + 1)))
            (inl (omega (arith, length-resize temp (idx + 1)))))
    | inr e ↦ rw e (
        write_block lhs rhs temp temp idx both refl ((!=_iff both 0).0 nz) f (in_range e)
          (λ i. refl) (inr refl))
  ])
]
  where
    both : ℕ
    both = bit_and (block lhs idx) (block rhs idx)

    in_range : (length temp == 0) ≡ false → idx < length temp
    in_range e = elim f.sized [
      | inl none ↦ absurd (==-false (length temp) 0 e none)
      | inr l ↦ omega arith
    ]

from-Filled :
    (lhs rhs temp : List ℕ) (idx : ℕ)
    → Filled lhs rhs (suc idx) temp
    → Filled lhs rhs 0 (intersection_from lhs rhs idx temp)
unfolding intersection_from
from-Filled lhs rhs temp zero f = step-Filled lhs rhs temp 0 f
from-Filled lhs rhs temp (suc idx) f =
    from-Filled lhs rhs (intersection_step lhs rhs (suc idx) temp) idx
      (step-Filled lhs rhs temp (suc idx) f)

start-Filled : (lhs rhs : List ℕ) (n : ℕ) → min (length lhs) (length rhs) ≤ n → Filled lhs rhs n []
start-Filled lhs rhs n h = record {
  done = λ i k. elim (dec_lt i (length lhs)) [
    | yes l ↦ rw (get_or_above rhs i 0 (omega arith)) (sym (bit_and-zero (block lhs i)))
    | no l ↦ rw (get_or_above lhs i 0 (omega arith)) (sym (zero-bit_and (block rhs i)))
  ];
  rest = λ i k. refl;
  sized = inl refl;
  tight = λ ne. absurd (ne refl);
}

built-Filled :
    (lhs rhs : BitSet) → Filled lhs.blocks rhs.blocks 0 (build_intersection lhs rhs).blocks
unfolding build_intersection
built-Filled lhs rhs = elim (Bool-cases (min (length lhs.blocks) (length rhs.blocks) == 0)) [
  | inl e ↦ rw e (start-Filled lhs.blocks rhs.blocks 0 (ground arith))
  | inr e ↦ rw e (
      from-Filled lhs.blocks rhs.blocks [] _ (
        start-Filled lhs.blocks rhs.blocks (suc (min (length lhs.blocks) (length rhs.blocks) - 1))
          (ground arith)))
]

-- For a valid left set, the intersection that is built from the highest block down is valid, with
-- no compaction.
pub build_intersection-IsValid :
    (lhs rhs : BitSet) → IsValid lhs.blocks → IsValid (build_intersection lhs rhs).blocks
build_intersection-IsValid lhs rhs v =
    let f = built-Filled lhs rhs in
    record {
      fits = λ i. rw (f.done i (omega arith)) (bit_and-lt 64 (block lhs.blocks i) _ (v.fits i));
      tight = f.tight;
    }

-- For a valid left set, the intersection built from the highest block down equals the one made in
-- place and compacted.
pub op_and-op_and_assign : (b rhs : BitSet) → IsValid b.blocks → op_and b rhs ≡ op_and_assign b rhs
unfolding op_and op_and_assign
op_and-op_and_assign b rhs v =
    ap (λ t. let r : BitSet = record { blocks = t } in r)
      (eq_of_blocks _ _ (build_intersection-IsValid b rhs v) (op_and_assign-IsValid b rhs v) λ i.
        (built-Filled b rhs).done i (omega arith)
        ∙ sym (block-compact _ i ∙ block-and_blocks b.blocks rhs.blocks i))
