-- ===== src/BitSet.antt =====
-- base/bitset.h and base/bitset.cc: a set of positions kept in a vector of 64 bit blocks.
-- `blocks` is the vector, lowest block first. `size_t` positions are plain numbers, and `npos` is
-- the largest of them.
pub mod Blocks
pub mod Points
pub mod Invariant
pub mod Search
pub mod Pair
pub mod Refinement
pub mod Strings
mod Tests
use tf_common.Common.{
  ℕ, zero, suc, ◌+◌, ◌-◌, ◌*◌, ◌/◌, ◌%◌, ◌^◌, min, max, bit_and, bit_or, Bool, true, false, not,
  ◌&&◌, ◌||◌, List, [], ◌∷◌, if◌then◌else◌, ltb, leb, ◌==◌, ◌!=◌, length, get_or, replicate,
}
use tf_common.Common
use tf_common.Word64.{
  complement64, find_first_set64, find_first_clear64, find_last_set64, num_bits_set,
}

pub record BitSet : Type 0 where
  pub blocks : List ℕ

abbrev pub npos : ℕ
npos = 2 ^ 64 - 1

abbrev pub block_index : ℕ → ℕ
block_index pos = pos / 64

abbrev pub block_offset : ℕ → ℕ
block_offset pos = pos % 64

abbrev pub bit_position : ℕ → ℕ → ℕ
bit_position idx offset = idx * 64 + offset

-- `std::vector::resize`: new blocks are 0.
pub resize : List ℕ → ℕ → List ℕ
resize xs zero = []
resize [] (suc n) = 0 ∷ resize [] n
resize (x ∷ xs) (suc n) = x ∷ resize xs n

-- `blocks[idx]`, read only where `idx` is in range.
abbrev pub block : List ℕ → ℕ → ℕ
block blocks idx = get_or blocks idx 0

-- `1LL << offset` as a block, for an offset below 64.
abbrev pub one_at : ℕ → ℕ
one_at offset = 2 ^ offset

-- The loop of `compact` from `idx` down to 1, and its last test, of block 0.
pub compact_from : List ℕ → ℕ → List ℕ
compact_from blocks zero = if block blocks 0 != 0 then resize blocks 1 else []
compact_from blocks (suc idx) =
    let rest = compact_from blocks idx in
    if block blocks (suc idx) != 0 then resize blocks (suc idx + 1) else rest

pub compact : List ℕ → List ℕ
compact blocks = if length blocks == 0 then blocks else compact_from blocks (length blocks - 1)

-- The condition that `check_invariants` asserts.
pub check_invariants : BitSet → Bool
check_invariants b =
    let mysize = length b.blocks in if mysize != 0 then block b.blocks (mysize - 1) != 0 else true

unfoldable pub set : BitSet → ℕ → BitSet
set b pos =
    let idx = block_index pos in
    let grown = if leb (length b.blocks) idx then resize b.blocks (idx + 1) else b.blocks in
    record { blocks = Common.set grown idx (bit_or (block grown idx) (one_at (block_offset pos))) }

unfoldable pub reset : BitSet → ℕ → BitSet
unfolding compact compact_from resize
reset b pos =
    let idx = block_index pos in
    if ltb idx (length b.blocks)
    then record {
      blocks = compact (
          Common.set b.blocks idx
            (bit_and (block b.blocks idx) (complement64 (one_at (block_offset pos)))));
    }
    else b

unfoldable pub test : BitSet → ℕ → Bool
test b pos =
    let idx = block_index pos in
    if ltb idx (length b.blocks)
    then bit_and (block b.blocks idx) (one_at (block_offset pos)) != 0
    else false

unfoldable pub clear : BitSet → BitSet
unfolding resize
clear b = record { blocks = resize b.blocks 0 }

unfoldable pub empty : BitSet → Bool
empty b = length b.blocks == 0

unfoldable pub none_set : BitSet → Bool
none_set b = length b.blocks == 0

unfoldable pub any_set : BitSet → Bool
any_set b = length b.blocks != 0

unfoldable pub size : BitSet → ℕ
size b = length b.blocks * 64

count_blocks : List ℕ → ℕ → ℕ
count_blocks [] count = count
count_blocks (x ∷ xs) count = count_blocks xs (count + num_bits_set x)

unfoldable pub count : BitSet → ℕ
unfolding count_blocks
count b = count_blocks b.blocks 0
