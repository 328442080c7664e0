-- ===== src/WaterMark/Tests.antt =====
-- Two marks, and the theorems at them.
use tf_common.Common.{◌≡◌, List, []}
use tf_common.WaterMark.{WaterMarkInfo, WaterMarkTuple, insert, process_high_water_marks}
use tf_common.WaterMark.Crossing.{
  Ascending, nil, insert-Ascending, CrossedUp, process_high_water_marks-CrossedUp,
}

abbrev two_marks : List WaterMarkInfo
two_marks = insert (record { count = 3; cb = 1 }) (insert (record { count = 8; cb = 2 }) [])

two_marks-Ascending : Ascending two_marks
two_marks-Ascending = insert-Ascending _ _ (insert-Ascending _ [] nil)

-- The last count was 5, between the marks.
abbrev between : WaterMarkTuple
between = record { high_water = two_marks; low_water = two_marks; last_count = 5 }

process_high_water_marks-CrossedUp_example :
    CrossedUp 9 between (process_high_water_marks 9 between).0
    × ((process_high_water_marks 9 between).1.last_count ≡ 9)
process_high_water_marks-CrossedUp_example =
    process_high_water_marks-CrossedUp 9 between two_marks-Ascending
