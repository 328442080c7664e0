-- ===== src/BitSet/Search.antt =====
-- The searches of base/bitset.cc: `find_first`, `find_next`, `find_last` and their counterparts for
-- digits 0.
pub mod Found
pub mod Next
use tf_common.Common.{
  ℕ, zero, suc, ◌+◌, ◌-◌, ◌%◌, ◌^◌, bit_and, bit_or, ◌&&◌, List, [], ◌∷◌, if◌then◌else◌, ltb, leb,
  ◌==◌, length,
}
use tf_common.Word64.{complement64, find_first_set64, find_first_clear64, find_last_set64}
use tf_common.BitSet.{BitSet, npos, block_index, block_offset, bit_position, block, size}

-- The blocks from `idx` on, and the loops over them that look for a digit 1 and for a digit 0.
pub drop : ℕ → List ℕ → List ℕ
drop zero xs = xs
drop (suc n) [] = []
drop (suc n) (x ∷ xs) = drop n xs

pub first_from : List ℕ → ℕ → ℕ
first_from [] idx = npos
first_from (x ∷ xs) idx =
    let bit = find_first_set64 x in
    if ltb 0 bit then bit_position idx (bit - 1) else first_from xs (idx + 1)

pub first_clear_from : List ℕ → ℕ → ℕ → ℕ
first_clear_from [] idx size = size
first_clear_from (x ∷ xs) idx size =
    let bit = find_first_clear64 x in
    if ltb 0 bit then bit_position idx (bit - 1) else first_clear_from xs (idx + 1) size

unfoldable pub find_first : BitSet → ℕ
unfolding first_from
find_first b = first_from b.blocks 0

-- `(1LL << (offset + 1)) - 1`, the ones at 0 through `offset`.
abbrev pub ones_through : ℕ → ℕ
ones_through offset = (2 ^ (offset + 1) + 2 ^ 64 - 1) % 2 ^ 64

unfoldable pub find_next : BitSet → ℕ → ℕ
unfolding first_from drop
find_next b pos =
    let idx = block_index pos in
    let rest = first_from (drop (idx + 1) b.blocks) (idx + 1) in
    let temp = bit_and (block b.blocks idx) (complement64 (ones_through (block_offset pos))) in
    let bit = find_first_set64 temp in
    if leb (length b.blocks) idx
    then npos
    else (if ltb (block_offset pos) 63 && ltb 0 bit then bit_position idx (bit - 1) else rest)

unfoldable pub find_last : BitSet → ℕ
find_last b =
    let idx = length b.blocks - 1 in
    let bit = find_last_set64 (block b.blocks idx) in
    if length b.blocks == 0 then npos else (if ltb 0 bit then bit_position idx (bit - 1) else npos)

unfoldable pub find_first_clear : BitSet → ℕ
unfolding first_clear_from size
find_first_clear b = first_clear_from b.blocks 0 (size b)

-- Beyond the blocks this is the next position, without the wrap of `npos + 1` to 0.
unfoldable pub find_next_clear : BitSet → ℕ → ℕ
unfolding first_clear_from drop size
find_next_clear b pos =
    let idx = block_index pos in
    let rest = first_clear_from (drop (idx + 1) b.blocks) (idx + 1) (size b) in
    let temp = bit_or (block b.blocks idx) (ones_through (block_offset pos)) in
    let bit = find_first_clear64 temp in
    if leb (length b.blocks) idx
    then pos + 1
    else (if ltb (block_offset pos) 63 && ltb 0 bit then bit_position idx (bit - 1) else rest)
