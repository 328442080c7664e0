-- ===== src/LabelBlock/Tests.antt =====
-- Label blocks that are in use, and the theorems at them.
use tf_common.Common.{◌≤◌, ◌<◌, ◌≡◌, ◌⊎◌, inl, refl, false, none, some, arith}
use tf_common.BitSet
use tf_common.LabelBlock.{
  LabelBlock, new_block, allocate_label, release_label, LabelBlockManager, new_manager,
  locate_block, release,
}
use tf_common.LabelBlock.Allocate.{
  IsLabelBlock, Allocated, allocate_label-Allocated, Released, release_label-Released,
  new_block-IsLabelBlock,
}
use tf_common.LabelBlock.Manager.{IsManager, Located, locate_block-Located, new_manager-IsManager}
use tf_common.LabelBlock.Release.{Unreferenced, release-Unreferenced}

abbrev sixteen_labels : LabelBlock
sixteen_labels = new_block 16 31

sixteen_labels-IsLabelBlock : IsLabelBlock sixteen_labels
sixteen_labels-IsLabelBlock = new_block-IsLabelBlock 16 31 (omega arith) (omega arith)

-- The block after its first label was taken.
abbrev one_taken : LabelBlock
one_taken = (allocate_label sixteen_labels).1

one_taken-IsLabelBlock : IsLabelBlock one_taken
one_taken-IsLabelBlock = (allocate_label-Allocated sixteen_labels sixteen_labels-IsLabelBlock).1

allocate_label-Allocated_example :
    Allocated one_taken (allocate_label one_taken) × IsLabelBlock (allocate_label one_taken).1
allocate_label-Allocated_example = allocate_label-Allocated one_taken one_taken-IsLabelBlock

release_label-Released_example :
    ((b' : LabelBlock) × (release_label 16 one_taken ≡ some b')
      × (one_taken.first ≤ 16)
      × (16 ≤ one_taken.last)
      × Released 16 one_taken b')
    ⊎ ((release_label 16 one_taken ≡ none) × ((16 < one_taken.first) ⊎ (one_taken.last < 16)))
release_label-Released_example = release_label-Released 16 one_taken one_taken-IsLabelBlock

-- A manager with one block, of labels 16 to 31, and one reference to it.
abbrev one_block : LabelBlockManager
one_block = (locate_block 16 31 new_manager).1

one_block-IsManager : IsManager one_block
unfolding Located
one_block-IsManager = (locate_block-Located 16 31 new_manager new_manager-IsManager).0

locate_block-Located_example : Located 16 31 one_block (locate_block 16 31 one_block)
locate_block-Located_example = locate_block-Located 16 31 one_block one_block-IsManager

release-Unreferenced_example :
    ((m' : LabelBlockManager) × (release 0 one_block ≡ some m') × Unreferenced 0 one_block m')
    ⊎ ((release 0 one_block ≡ none)
        × (one_block.refcount 0 ≡ 1)
        × (BitSet.empty (one_block.block 0).used_bitset ≡ false))
unfolding locate_block
release-Unreferenced_example = release-Unreferenced 0 one_block one_block-IsManager (inl refl)
