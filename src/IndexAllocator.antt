-- ===== src/IndexAllocator.antt =====
-- base/index_allocator.h and base/index_allocator.cc: indices up to a greatest one, over a bit set of
-- those in use. The search goes on after the last index that was given out.
pub mod Allocate
mod Tests
use tf_common.Common.{ℕ, ◌^◌, ◌-◌, Bool, Option, none, some, [], if◌then◌else◌, ltb, leb, ◌==◌}
use tf_common.BitSet
use tf_common.BitSet.{BitSet, npos}
use tf_common.BitSet.Search.{find_first_clear, find_next_clear}

pub record IndexAllocator : Type 0 where
  pub bitset : BitSet
  pub max_index : ℕ
  pub last_index : ℕ

abbrev pub new_allocator : ℕ → IndexAllocator
new_allocator max_index = record {
  bitset = record { blocks = [] };
  max_index = max_index;
  last_index = npos;
}

-- The index that the searches yield, which may lie beyond the greatest one.
pub candidate : IndexAllocator → ℕ
candidate a =
    if a.last_index == npos
    then find_first_clear a.bitset
    else (if ltb a.max_index (find_next_clear a.bitset a.last_index)
        then find_first_clear a.bitset
        else find_next_clear a.bitset a.last_index)

pub alloc_index : IndexAllocator → ℕ × IndexAllocator
unfolding candidate
alloc_index a =
    let index = if ltb a.max_index (candidate a) then npos else candidate a in
    (
      index,
      record a {
        bitset = if index == npos then a.bitset else BitSet.set a.bitset index;
        last_index = index;
      },
    )

-- `none` is the failed assert.
pub free_index : ℕ → IndexAllocator → Option IndexAllocator
free_index index a =
    if leb index a.max_index then some (record a { bitset = BitSet.reset a.bitset index }) else none

pub none_index_set : IndexAllocator → Bool
none_index_set a = BitSet.none_set a.bitset

pub any_index_set : IndexAllocator → Bool
any_index_set a = BitSet.any_set a.bitset
