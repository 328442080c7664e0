-- ===== src/LabelBlock.antt =====
-- base/label_block.h and base/label_block.cc: blocks of labels over a bit set of the used ones, and
-- the manager that shares the blocks. `prev_pos` is `npos` where there is no previous position. A
-- `LabelBlock *` is a number, which the manager's store maps to its block and its reference count.
pub mod Allocate
pub mod Manager
pub mod Release
mod Tests
use tf_common.Common.{
  ℕ, zero, suc, ◌+◌, ◌-◌, ◌%◌, ◌^◌, Bool, true, false, ◌&&◌, Option, none, some, List, [], ◌∷◌,
  ◌++◌, if◌then◌else◌, leb, ◌==◌,
}
use tf_common.BitSet
use tf_common.BitSet.{BitSet, npos}
use tf_common.BitSet.Search.{find_first_clear, find_next_clear}

pub record LabelBlock : Type 0 where
  pub first : ℕ
  pub last : ℕ
  pub prev_pos : ℕ
  pub used_bitset : BitSet

abbrev pub new_block : ℕ → ℕ → LabelBlock
new_block first last = record {
  first = first;
  last = last;
  prev_pos = npos;
  used_bitset = record { blocks = [] };
}

-- Where the search of `AllocateLabel` stands: after the previous position, or at the start.
pub next_pos : LabelBlock → ℕ
next_pos b =
    if b.prev_pos == npos
    then find_first_clear b.used_bitset
    else find_next_clear b.used_bitset b.prev_pos

-- The rounds of the loop that are left: the search after the previous position, then from the start.
pub allocate_rounds : ℕ → LabelBlock → ℕ × LabelBlock
unfolding next_pos
allocate_rounds zero b = (0, b)
allocate_rounds (suc rounds) b =
    let pos = next_pos b in
    let taken = record b { used_bitset = BitSet.set b.used_bitset pos; prev_pos = pos } in
    let rest = allocate_rounds rounds (record b { prev_pos = npos }) in
    if leb ((b.first + pos) % 2 ^ 64) b.last
    then ((b.first + pos) % 2 ^ 64 % 2 ^ 32, taken)
    else rest

pub allocate_label : LabelBlock → ℕ × LabelBlock
unfolding allocate_rounds
allocate_label b = allocate_rounds 2 b

-- `none` is the failed assert on the range.
pub release_label : ℕ → LabelBlock → Option LabelBlock
release_label value b =
    if leb b.first value && leb value b.last
    then some (record b { used_bitset = BitSet.reset b.used_bitset (value - b.first) })
    else none

pub record LabelBlockManager : Type 0 where
  pub blocks : List ℕ
  pub block : ℕ → LabelBlock
  pub refcount : ℕ → ℕ
  pub next : ℕ

abbrev pub new_manager : LabelBlockManager
new_manager = record { blocks = []; block = λ _. new_block 0 0; refcount = λ _. 0; next = 0 }

abbrev pub has_range : LabelBlock → ℕ → ℕ → Bool
has_range b first last = (b.first == first) && (b.last == last)

pub find_block : LabelBlockManager → ℕ → ℕ → List ℕ → Option ℕ
find_block m first last [] = none
find_block m first last (id ∷ ids) =
    if has_range (m.block id) first last then some id else find_block m first last ids

abbrev pub put_count : LabelBlockManager → ℕ → ℕ → LabelBlockManager
put_count m id n = record m { refcount = λ j. if id == j then n else m.refcount j }

-- A new block, without a reference.
pub add_block : ℕ → ℕ → LabelBlockManager → LabelBlockManager
add_block first last m = record {
  blocks = m.blocks ++ m.next ∷ [];
  block = λ j. if m.next == j then new_block first last else m.block j;
  refcount = λ j. if m.next == j then 0 else m.refcount j;
  next = m.next + 1;
}

-- `intrusive_ptr_add_ref`, and `LocateBlock`, which returns a reference.
pub add_ref : ℕ → LabelBlockManager → LabelBlockManager
add_ref id m = put_count m id (m.refcount id + 1)

pub locate_block : ℕ → ℕ → LabelBlockManager → ℕ × LabelBlockManager
unfolding find_block add_block add_ref
locate_block first last m = elim (find_block m first last m.blocks) [
  | some id ↦ (id, add_ref id m)
  | none ↦ (m.next, add_ref m.next (add_block first last m))
]

pub remove_block : ℕ → List ℕ → Option (List ℕ)
remove_block id [] = none
remove_block id (j ∷ js) = elim (id == j) [
  | true ↦ some js
  | false ↦ elim (remove_block id js) [ none ↦ none | some ks ↦ some (j ∷ ks) ]
]

-- `~LabelBlock`: no label may be in use, and the manager must have the block.
pub destroy_block : ℕ → LabelBlockManager → Option LabelBlockManager
unfolding remove_block
destroy_block id m =
    if BitSet.empty (m.block id).used_bitset
    then elim (remove_block id m.blocks) [
      | none ↦ none
      | some ids ↦ some (record m { blocks = ids })
    ]
    else none

-- `intrusive_ptr_release`.
pub release : ℕ → LabelBlockManager → Option LabelBlockManager
unfolding destroy_block
release id m =
    let counted = put_count m id (m.refcount id - 1) in
    if m.refcount id == 1 then destroy_block id counted else some counted
