-- ===== src/IndexAllocator/Tests.antt =====
-- An allocator of four indices, and the theorem at it.
use tf_common.Common.{refl, sym, ◌∙◌, arith}
use mathlib.Core.Bool.{false≢true}
use tf_common.BitSet.Points.{test-empty}
use tf_common.IndexAllocator.{new_allocator, alloc_index}
use tf_common.IndexAllocator.Allocate.{IsIndexAllocator, AllocatedIndex, alloc_index-AllocatedIndex}

four_indices-IsIndexAllocator : IsIndexAllocator (new_allocator 3)
four_indices-IsIndexAllocator = record {
  valid = record { fits = λ i. omega arith; tight = λ ne. absurd (ne refl) };
  bounded = omega arith;
  inside = λ i h. absurd (false≢true (sym (test-empty i) ∙ h));
}

alloc_index-AllocatedIndex_example :
    AllocatedIndex (new_allocator 3) (alloc_index (new_allocator 3))
    × IsIndexAllocator (alloc_index (new_allocator 3)).1
alloc_index-AllocatedIndex_example =
    alloc_index-AllocatedIndex (new_allocator 3) four_indices-IsIndexAllocator
