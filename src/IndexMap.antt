-- ===== src/IndexMap.antt =====
-- base/index_map.h: a map whose values also have an index, over a bit set of the indices in use.
-- Keys and `ValueType *` are numbers, with `none` for the null pointer; the map is a list of pairs
-- with distinct keys. A failed assert is `none`. The values' destructors are left out.
pub mod Insert
pub mod Remove
mod Tests
use tf_common.Common.{
  ℕ, zero, suc, ◌+◌, ◌-◌, ◌≡◌, Bool, true, false, not, ◌&&◌, ◌||◌, Option, none, some, List, [],
  ◌∷◌, ◌++◌, if◌then◌else◌, ltb, leb, ◌==◌, length, get_elem?, get_or,
}
use tf_common.Common
use tf_common.BitSet
use tf_common.BitSet.{BitSet, npos}
use tf_common.BitSet.Search.{find_first_clear}

pub record IndexMap : Type 0 where
  pub bits : BitSet
  pub values : List (Option ℕ)
  pub map : List (ℕ × ℕ)

abbrev pub new_map : IndexMap
new_map = record { bits = record { blocks = [] }; values = []; map = [] }

pub find : ℕ → List (ℕ × ℕ) → Option ℕ
find key [] = none
find key ((k, v) ∷ entries) = if key == k then some v else find key entries

pub erase : ℕ → List (ℕ × ℕ) → List (ℕ × ℕ)
erase key [] = []
erase key ((k, v) ∷ entries) = if key == k then entries else (k, v) ∷ erase key entries

-- The value at a position; past the end there is none.
abbrev pub value_at : IndexMap → ℕ → Option ℕ
value_at m index = get_or m.values index none

abbrev pub is_null : Option ℕ → Bool
is_null none = true
is_null (some v) = false

pub reserve_bit : ℕ → IndexMap → Option IndexMap
reserve_bit index m =
    if BitSet.test m.bits index && not (is_null (value_at m index))
    then none
    else some (record m { bits = BitSet.set m.bits index; values = m.values ++ none ∷ [] })

-- The value at its position: the next one, or one that the vector has.
pub place : ℕ → ℕ → List (Option ℕ) → Option (List (Option ℕ))
place bit value values =
    if ltb bit (length values)
    then some (Common.set values bit (some value))
    else (if bit == length values then some (values ++ some value ∷ []) else none)

-- `Insert`: `npos`, which is -1, for a key that is there; `index` is `none` for the default -1.
pub insert : ℕ → ℕ → Option ℕ → IndexMap → Option (ℕ × IndexMap)
unfolding find place
insert key value index m =
    let bit : ℕ = elim index [ none ↦ find_first_clear m.bits | some i ↦ i ] in
    elim (find key m.map) [
      | some old ↦ some (npos, m)
      | none ↦ elim (place bit value m.values) [
        | none ↦ none
        | some values ↦ some (
          bit,
          record { bits = BitSet.set m.bits bit; values = values; map = (key, value) ∷ m.map },
        )
      ]
    ]

-- `Locate`, with the value that is made for a new key; its `set_index` takes the index.
pub locate : ℕ → ℕ → IndexMap → Option (ℕ × IndexMap)
unfolding find insert
locate key value m = elim (find key m.map) [
  | some old ↦ some (old, m)
  | none ↦ elim (insert key value none m) [ none ↦ none | some r ↦ some (value, r.1) ]
]

-- The loop that drops null pointers from the end: a value stays before what stays.
abbrev pub keep : Option ℕ → List (Option ℕ) → List (Option ℕ)
keep v [] = if is_null v then [] else v ∷ []
keep v (w ∷ ws) = v ∷ w ∷ ws

pub pop_nulls : List (Option ℕ) → List (Option ℕ)
pop_nulls [] = []
pop_nulls (v ∷ vs) = keep v (pop_nulls vs)

pub reset_bit : ℕ → IndexMap → IndexMap
unfolding pop_nulls
reset_bit index m = record m {
  bits = BitSet.reset m.bits index;
  values = pop_nulls (Common.set m.values index none);
}

abbrev pub same_value : Option ℕ → Option ℕ → Bool
same_value (some v) (some w) = v == w
same_value none none = true
same_value _ _ = false

pub remove : ℕ → ℕ → Bool → IndexMap → Option IndexMap
unfolding find erase reset_bit
remove key index clear_bit m =
    let erased = record m { map = erase key m.map } in
    elim (find key m.map) [
      | none ↦ none
      | some v ↦
          if same_value (some v) (value_at m index)
          then some (if clear_bit then reset_bit index erased else erased)
          else none
    ]

pub clear : IndexMap → IndexMap
clear m = record { bits = BitSet.clear m.bits; values = []; map = [] }
