-- ===== src/WaterMark.antt =====
-- base/watermark.h and base/watermark.cc: the levels of a queue whose crossing is reported. A set of
-- marks is the list of its elements in the order of their counts. A callback is a number, and a call
-- of it is returned with its argument.
pub mod Crossing
mod Tests
use tf_common.Common.{
  ℕ, Bool, true, false, not, ◌||◌, Option, none, some, List, [], ◌∷◌, if◌then◌else◌, ltb, leb, ◌==◌,
}

pub record WaterMarkInfo : Type 0 where
  pub count : ℕ
  pub cb : ℕ

pub record WaterMarkTuple : Type 0 where
  pub high_water : List WaterMarkInfo
  pub low_water : List WaterMarkInfo
  pub last_count : ℕ

abbrev pub new_tuple : WaterMarkTuple
new_tuple = record { high_water = []; low_water = []; last_count = 0 }

-- `std::set::insert`: a mark with the same count stays.
pub insert : WaterMarkInfo → List WaterMarkInfo → List WaterMarkInfo
insert w [] = w ∷ []
insert w (x ∷ xs) =
    let rest = insert w xs in
    if ltb w.count x.count then w ∷ x ∷ xs else (if ltb x.count w.count then x ∷ rest else x ∷ xs)

pub set_high_water_marks : List WaterMarkInfo → WaterMarkTuple → WaterMarkTuple
set_high_water_marks high_water t = record t { high_water = high_water }

pub set_high_water_mark : WaterMarkInfo → WaterMarkTuple → WaterMarkTuple
set_high_water_mark w t = record t { high_water = insert w t.high_water }

pub reset_high_water_mark : WaterMarkTuple → WaterMarkTuple
reset_high_water_mark t = record t { high_water = [] }

pub set_low_water_marks : List WaterMarkInfo → WaterMarkTuple → WaterMarkTuple
set_low_water_marks low_water t = record t { low_water = low_water }

pub set_low_water_mark : WaterMarkInfo → WaterMarkTuple → WaterMarkTuple
set_low_water_mark w t = record t { low_water = insert w t.low_water }

pub reset_low_water_mark : WaterMarkTuple → WaterMarkTuple
reset_low_water_mark t = record t { low_water = [] }

abbrev pub empty : List WaterMarkInfo → Bool
empty [] = true
empty (x ∷ xs) = false

pub are_water_marks_set : WaterMarkTuple → Bool
are_water_marks_set t = not (empty t.high_water) || not (empty t.low_water)

abbrev pub latest : WaterMarkInfo → Option WaterMarkInfo → Option WaterMarkInfo
latest x none = some x
latest x (some y) = some y

-- The element before `upper_bound`, which is the first one above the count.
pub before_upper_bound : ℕ → List WaterMarkInfo → Option WaterMarkInfo
before_upper_bound count [] = none
before_upper_bound count (x ∷ xs) =
    let rest = before_upper_bound count xs in if ltb count x.count then none else latest x rest

-- The first element that is not below the count.
pub lower_bound : ℕ → List WaterMarkInfo → Option WaterMarkInfo
lower_bound count [] = none
lower_bound count (x ∷ xs) =
    let rest = lower_bound count xs in if ltb x.count count then rest else some x

-- The callback that the mark found has when it is crossed.
pub crossed_up : ℕ → Option WaterMarkInfo → Option WaterMarkInfo
crossed_up last_count none = none
crossed_up last_count (some w) = if ltb last_count w.count then some w else none

pub crossed_down : ℕ → Option WaterMarkInfo → Option WaterMarkInfo
crossed_down last_count none = none
crossed_down last_count (some w) = if ltb w.count last_count then some w else none

-- The mark whose callback is called with the count, and the state afterwards.
pub process_high_water_marks : ℕ → WaterMarkTuple → Option WaterMarkInfo × WaterMarkTuple
unfolding before_upper_bound crossed_up
process_high_water_marks count t = (
  crossed_up t.last_count (before_upper_bound count t.high_water),
  record t { last_count = count },
)

pub process_low_water_marks : ℕ → WaterMarkTuple → Option WaterMarkInfo × WaterMarkTuple
unfolding lower_bound crossed_down
process_low_water_marks count t =
    (crossed_down t.last_count (lower_bound count t.low_water), record t { last_count = count })

pub process_water_marks : ℕ → ℕ → WaterMarkTuple → Option WaterMarkInfo × WaterMarkTuple
unfolding process_high_water_marks process_low_water_marks
process_water_marks in_count curr_count t =
    if ltb in_count curr_count
    then process_low_water_marks in_count t
    else process_high_water_marks in_count t
