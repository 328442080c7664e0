-- ===== src/IndexMap/Tests.antt =====
-- Maps with an index, and the theorems at them.
use tf_common.Common.{ℕ, ◌≡◌, ◌⊎◌, refl, true, false, none, some, arith}
use tf_common.BitSet.{npos}
use tf_common.BitSet.Points.{test-empty}
use tf_common.IndexMap.{IndexMap, new_map, find, value_at, is_null, reserve_bit, insert, remove}
use tf_common.IndexMap.Insert.{IsIndexMap, Inserted, insert-Inserted}
use tf_common.IndexMap.Remove.{remove-insert, insert-reserve_bit}

new_map-IsIndexMap : IsIndexMap new_map
new_map-IsIndexMap = record {
  valid = record { fits = λ i. omega arith; tight = λ ne. absurd (ne refl) };
  filled = test-empty;
}

insert-Inserted_example :
    ((r : ℕ × IndexMap) × (insert 8 80 none new_map ≡ some r)
      × (find 8 new_map.map ≡ none)
      × Inserted 8 80 new_map r)
    ⊎ ((insert 8 80 none new_map ≡ some (npos, new_map)) × (is_null (find 8 new_map.map) ≡ false))
insert-Inserted_example = insert-Inserted 8 80 new_map new_map-IsIndexMap

remove-insert_example :
    (r : ℕ × IndexMap) × (insert 7 70 none new_map ≡ some r)
    × (m' : IndexMap) × (remove 7 r.0 true r.1 ≡ some m')
    × IsIndexMap m'
    × (m'.map ≡ new_map.map)
    × ((i : ℕ) → value_at m' i ≡ value_at new_map i)
unfolding find
remove-insert_example = remove-insert 7 70 new_map new_map-IsIndexMap refl

insert-reserve_bit_example :
    (m : IndexMap) × (m' : IndexMap) × (m'' : IndexMap) × (reserve_bit 0 new_map ≡ some m)
    × (insert 7 70 none m ≡ some (1, m'))
    × (remove 7 1 true m' ≡ some m'')
    × (insert 8 80 none m'' ≡ none)
insert-reserve_bit_example = insert-reserve_bit 7 70 8 80
