-- ===== src/BitSet/Pair.antt =====
-- The operations of base/bitset.cc on two sets.
pub mod Algebra
pub mod Compare
pub mod Intersection
use tf_common.Common.{
  ℕ, zero, suc, ◌+◌, ◌-◌, min, bit_and, bit_or, Bool, true, false, not, List, [], ◌∷◌,
  if◌then◌else◌, ltb, ◌==◌, ◌!=◌, length,
}
use tf_common.Common
use tf_common.Word64.{complement64}
use tf_common.BitSet.{BitSet, block, resize, compact_from, compact}

-- The loops over the blocks that two sets share.
pub intersects_blocks : List ℕ → List ℕ → Bool
intersects_blocks [] ys = false
intersects_blocks (x ∷ xs) [] = false
intersects_blocks (x ∷ xs) (y ∷ ys) = if bit_and x y != 0 then true else intersects_blocks xs ys

unfoldable pub intersects : BitSet → BitSet → Bool
unfolding intersects_blocks
intersects b rhs = intersects_blocks b.blocks rhs.blocks

pub same_blocks : List ℕ → List ℕ → Bool
same_blocks [] ys = true
same_blocks (x ∷ xs) [] = true
same_blocks (x ∷ xs) (y ∷ ys) = if x != y then false else same_blocks xs ys

unfoldable pub op_eq : BitSet → BitSet → Bool
unfolding same_blocks
op_eq b rhs =
    if length b.blocks != length rhs.blocks then false else same_blocks b.blocks rhs.blocks

unfoldable pub op_ne : BitSet → BitSet → Bool
unfolding op_eq
op_ne b rhs = not (op_eq b rhs)

-- One round of the loop of `BuildIntersection`: the vector is sized at the first block that is kept.
pub intersection_step : List ℕ → List ℕ → ℕ → List ℕ → List ℕ
intersection_step lhs rhs idx blocks =
    let both = bit_and (block lhs idx) (block rhs idx) in
    let sized = if length blocks == 0 then resize blocks (idx + 1) else blocks in
    if both != 0 then Common.set sized idx both else blocks

pub intersection_from : List ℕ → List ℕ → ℕ → List ℕ → List ℕ
unfolding intersection_step
intersection_from lhs rhs zero blocks = intersection_step lhs rhs 0 blocks
intersection_from lhs rhs (suc idx) blocks =
    intersection_from lhs rhs idx (intersection_step lhs rhs (suc idx) blocks)

unfoldable pub build_intersection : BitSet → BitSet → BitSet
unfolding intersection_from intersection_step resize
build_intersection lhs rhs =
    let minsize = min (length lhs.blocks) (length rhs.blocks) in
    if minsize == 0
    then record { blocks = [] }
    else record { blocks = intersection_from lhs.blocks rhs.blocks (minsize - 1) [] }

unfoldable pub op_and : BitSet → BitSet → BitSet
unfolding build_intersection
op_and b rhs = build_intersection b rhs

-- The common blocks, then those that one side alone has.
pub or_blocks : List ℕ → List ℕ → List ℕ
or_blocks [] ys = ys
or_blocks (x ∷ xs) [] = x ∷ xs
or_blocks (x ∷ xs) (y ∷ ys) = bit_or x y ∷ or_blocks xs ys

unfoldable pub op_or : BitSet → BitSet → BitSet
unfolding or_blocks
op_or b rhs = record { blocks = or_blocks b.blocks rhs.blocks }

-- The common blocks, then 0 for the others.
pub and_blocks : List ℕ → List ℕ → List ℕ
and_blocks [] ys = []
and_blocks (x ∷ xs) [] = 0 ∷ and_blocks xs []
and_blocks (x ∷ xs) (y ∷ ys) = bit_and x y ∷ and_blocks xs ys

unfoldable pub op_and_assign : BitSet → BitSet → BitSet
unfolding and_blocks compact compact_from resize
op_and_assign b rhs = record { blocks = compact (and_blocks b.blocks rhs.blocks) }

-- The loop over the blocks of `rhs`, which `b` has at least as many of by then.
pub or_assign_blocks : List ℕ → List ℕ → List ℕ
or_assign_blocks xs [] = xs
or_assign_blocks [] (y ∷ ys) = []
or_assign_blocks (x ∷ xs) (y ∷ ys) = bit_or x y ∷ or_assign_blocks xs ys

unfoldable pub op_or_assign : BitSet → BitSet → BitSet
unfolding or_assign_blocks resize
op_or_assign b rhs =
    let n = length rhs.blocks in
    let grown = if ltb (length b.blocks) n then resize b.blocks n else b.blocks in
    record { blocks = or_assign_blocks grown rhs.blocks }

unfoldable pub set_all : BitSet → BitSet → BitSet
unfolding op_or_assign
set_all b rhs = op_or_assign b rhs

-- The common blocks without the digits of `rhs`, then the others as they are.
unfoldable pub minus_blocks : List ℕ → List ℕ → List ℕ
minus_blocks [] ys = []
minus_blocks (x ∷ xs) [] = x ∷ xs
minus_blocks (x ∷ xs) (y ∷ ys) = bit_and x (complement64 y) ∷ minus_blocks xs ys

unfoldable pub reset_all : BitSet → BitSet → BitSet
unfolding minus_blocks compact compact_from resize
reset_all b rhs = record { blocks = compact (minus_blocks b.blocks rhs.blocks) }

unfoldable pub build_complement : BitSet → BitSet → BitSet
unfolding minus_blocks compact compact_from resize
build_complement lhs rhs = record { blocks = compact (minus_blocks lhs.blocks rhs.blocks) }

pub contains_blocks : List ℕ → List ℕ → Bool
contains_blocks xs [] = true
contains_blocks [] (y ∷ ys) = true
contains_blocks (x ∷ xs) (y ∷ ys) =
    if bit_and y (complement64 x) != 0 then false else contains_blocks xs ys

unfoldable pub contains : BitSet → BitSet → Bool
unfolding contains_blocks
contains b rhs =
    if ltb (length b.blocks) (length rhs.blocks) then false else contains_blocks b.blocks rhs.blocks
