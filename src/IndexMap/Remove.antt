-- ===== src/IndexMap/Remove.antt =====
-- The removal of what was inserted, and reserved indices.
use tf_common.Common.{
  ℕ, zero, suc, ◌+◌, ◌≤◌, ◌<◌, ◌≡◌, ◌≢◌, refl, sym, ap, ◌∙◌, ◌⊎◌, inl, inr, Bool, true, false, not,
  Option, none, some, List, [], ◌∷◌, ◌++◌, if◌then◌else◌, leb, ltb, ◌==◌, arith, Bool-cases,
  Option-cases, ==_iff, ==-false, length, get_or, get_or-set_self, get_or-set_ne, get_or_above,
}
use tf_common.Common
use tf_common.BitSet.Search.{find_first_clear}
use tf_common.BitSet.Search.Found.{find_first_clear_lem}
use mathlib.Core.Bool.{false≢true}
use tf_common.BitSet
use tf_common.BitSet.{BitSet, npos}
use tf_common.BitSet.Points.{test-set, test-reset, test-empty}
use tf_common.BitSet.Invariant.{IsValid, set-IsValid, reset-IsValid}
use tf_common.IndexMap.{
  IndexMap, new_map, find, erase, value_at, place, insert, keep, pop_nulls, reset_bit, remove,
  reserve_bit, same_value,
}
use tf_common.IndexMap.Insert.{IsIndexMap, Inserted, insert-Inserted}

-- Dropping null pointers from the end changes no value.
get_or-keep :
    (v : Option ℕ) (vs : List (Option ℕ)) (i : ℕ)
    → get_or (keep v vs) i none ≡ get_or (v ∷ vs) i none
get_or-keep none [] zero = refl
get_or-keep none [] (suc i) = refl
get_or-keep (some v) [] zero = refl
get_or-keep (some v) [] (suc i) = refl
get_or-keep v (w ∷ ws) i = refl

get_or-pop_nulls : (vs : List (Option ℕ)) (i : ℕ) → get_or (pop_nulls vs) i none ≡ get_or vs i none
unfolding pop_nulls
get_or-pop_nulls [] i = refl
get_or-pop_nulls (v ∷ vs) zero = get_or-keep v (pop_nulls vs) zero
get_or-pop_nulls (v ∷ vs) (suc i) = get_or-keep v (pop_nulls vs) (suc i) ∙ get_or-pop_nulls vs i

get_or-set :
    (vs : List (Option ℕ)) (i j : ℕ)
    → get_or (Common.set vs i none) j none ≡ (if i == j then none else get_or vs j none)
get_or-set [] i j = ground arith
get_or-set (v ∷ vs) zero zero = refl
get_or-set (v ∷ vs) zero (suc j) = ground arith
get_or-set (v ∷ vs) (suc i) zero = ground arith
get_or-set (v ∷ vs) (suc i) (suc j) = ground (arith, get_or-set vs i j)

value_at-reset_bit :
    (index : ℕ) (m : IndexMap) (i : ℕ)
    → value_at (reset_bit index m) i ≡ (if index == i then none else value_at m i)
unfolding reset_bit
value_at-reset_bit index m i =
    get_or-pop_nulls (Common.set m.values index none) i ∙ get_or-set m.values index i

pub reset_bit-IsIndexMap :
    (index : ℕ) (m : IndexMap) → IsIndexMap m → IsIndexMap (reset_bit index m)
unfolding reset_bit
reset_bit-IsIndexMap index m v = record {
  valid = reset-IsValid m.bits index v.valid;
  filled = λ i. elim (Bool-cases (index == i)) [
    | inl y ↦ test-reset m.bits index i ∙ rw (value_at-reset_bit index m i, y) refl
    | inr n ↦ test-reset m.bits index i ∙ rw (value_at-reset_bit index m i, n) (v.filled i)
  ];
}

-- What a removal leaves.
pub Removed : ℕ → ℕ → IndexMap → IndexMap → Type 0
Removed key index m m' =
    IsIndexMap m'
    × (m'.map ≡ erase key m.map)
    × ((i : ℕ) → value_at m' i ≡ (if index == i then none else value_at m i))

same_value_refl : (v : ℕ) (o : Option ℕ) → o ≡ some v → same_value (some v) o ≡ true
same_value_refl v none e = cc
same_value_refl v (some w) e = (==_iff v w).1 cc

-- Removing a key at the index of its value erases the key, frees the index and changes nothing else.
pub remove-Removed :
    (key index v : ℕ) (m : IndexMap)
    → IsIndexMap m
    → find key m.map ≡ some v
    → value_at m index ≡ some v
    → (m' : IndexMap) × (remove key index true m ≡ some m') × Removed key index m m'
unfolding remove Removed find erase reset_bit
remove-Removed key index v m w e at =
    let same : same_value (some v) (value_at m index) ≡ true =
      same_value_refl v (value_at m index) at in
    let erased : IndexMap = record m { map = erase key m.map } in
    (
      reset_bit index erased,
      rw (remove, e, same) refl,
      (
        reset_bit-IsIndexMap index erased (record { valid = w.valid; filled = w.filled }),
        refl,
        value_at-reset_bit index erased,
      ),
    )

==-refl : (n : ℕ) → (n == n) ≡ true
==-refl n = (==_iff n n).1 refl

-- For such a map, a new key that is inserted and then removed at its index leaves the map with the
-- same keys and the same value at every index.
pub remove-insert :
    (key value : ℕ) (m : IndexMap)
    → IsIndexMap m
    → find key m.map ≡ none
    → (r : ℕ × IndexMap) × (insert key value none m ≡ some r)
      × (m' : IndexMap) × (remove key r.0 true r.1 ≡ some m')
      × IsIndexMap m'
      × (m'.map ≡ m.map)
      × ((i : ℕ) → value_at m' i ≡ value_at m i)
unfolding Inserted Removed find erase
remove-insert key value m v e = elim (insert-Inserted key value m v) [
  | inr (same, there) ↦ absurd (false≢true (sym (rw e at there)))
  | inl (r, done, _, (w, empty, least, at, entry)) ↦
      let found : find key r.1.map ≡ some value = rw (entry, ==-refl key) refl in
      let here : value_at r.1 r.0 ≡ some value = at r.0 ∙ rw (==-refl r.0) refl in
      let gone = remove-Removed key r.0 value r.1 w found here in
      (
        r,
        done,
        gone.0,
        gone.1,
        gone.2.0,
        gone.2.1 ∙ rw (entry, ==-refl key) refl,
        λ i. gone.2.2 i ∙ elim (Bool-cases (r.0 == i)) [
          | inl y ↦
              let there : r.0 ≡ i = (==_iff r.0 i).0 y in
              rw y (sym (ap (value_at m) (sym there) ∙ empty))
          | inr n ↦ rw n (at i ∙ rw n refl)
        ],
      )
]

-- The set of 0 alone.
OnlyZero : BitSet → Type 0
OnlyZero b = IsValid b.blocks × ((p : ℕ) → BitSet.test b p ≡ (if 0 == p then true else false))

find_first_clear-OnlyZero : (b : BitSet) → OnlyZero b → find_first_clear b ≡ 1
unfolding OnlyZero
find_first_clear-OnlyZero b (v, at) = elim (Bool-cases (ltb 1 (find_first_clear b))) [
  | inl y ↦ absurd (false≢true (sym (at 1) ∙ below 1 (ground arith)))
  | inr n ↦ elim (Bool-cases (find_first_clear b == 0)) [
    | inl z ↦
        let none_set : find_first_clear b ≡ 0 = (==_iff (find_first_clear b) 0).0 z in
        absurd (false≢true (sym (rw none_set at clear) ∙ at 0))
    | inr k ↦ ground arith
  ]
]
  where
    clear : BitSet.test b (find_first_clear b) ≡ false
    clear = (find_first_clear_lem b v).0

    below : (p : ℕ) → p < find_first_clear b → BitSet.test b p ≡ true
    below = (find_first_clear_lem b v).1

reserved : BitSet
reserved = BitSet.set (record { blocks = [] }) 0

reserved-OnlyZero : OnlyZero reserved
unfolding OnlyZero reserved
reserved-OnlyZero = (
  set-IsValid (record { blocks = [] }) 0
      (record { fits = λ i. omega arith; tight = λ ne. absurd (ne refl) }),
  λ p. test-set (record { blocks = [] }) 0 p ∙ ap (λ b. if 0 == p then true else b) (test-empty p),
)

again : BitSet
again = BitSet.reset (BitSet.set reserved 1) 1

again-OnlyZero : OnlyZero again
unfolding OnlyZero again
again-OnlyZero =
    let v = reserved-OnlyZero in
    (
      reset-IsValid (BitSet.set reserved 1) 1 (set-IsValid reserved 1 v.0),
      λ p. test-reset (BitSet.set reserved 1) 1 p ∙ elim (Bool-cases (1 == p)) [
        | inl y ↦ let same : 1 ≡ p = (==_iff 1 p).0 y in rw y (rw (← same) refl)
        | inr n ↦ rw n (test-set reserved 1 p ∙ rw n (v.1 p))
      ],
    )

-- The steps of the loss, whatever the set of one reserved index.
module _ (bits : BitSet) (first : find_first_clear bits ≡ 1) (key value : ℕ) where
  reserving : IndexMap
  reserving = record { bits = bits; values = none ∷ []; map = [] }

  inserting : IndexMap
  inserting = record {
    bits = BitSet.set bits 1;
    values = none ∷ some value ∷ [];
    map = (key, value) ∷ [];
  }

  insert-reserving : insert key value none reserving ≡ some (1, inserting)
  unfolding insert place find reserving inserting
  insert-reserving = rw (insert, first) (rw first refl)

  removing : BitSet → IndexMap
  removing b = record { bits = b; values = []; map = [] }

  remove-inserting :
      remove key 1 true inserting ≡ some (removing (BitSet.reset (BitSet.set bits 1) 1))
  unfolding remove find erase reset_bit pop_nulls inserting removing
  remove-inserting = rw (remove, find, ==-refl key, ==-refl value) (rw (erase, ==-refl key) refl)

  insert-removing : insert key value none (removing bits) ≡ none
  unfolding insert place find removing
  insert-removing = rw (insert, first) refl

-- In a new map whose index 0 is reserved, a key that is inserted at index 1 and removed takes the
-- reserved slot along, and the insertion of another key then fails an assert.
pub insert-reserve_bit :
    (key value key' value' : ℕ)
    → (m : IndexMap) × (m' : IndexMap) × (m'' : IndexMap) × (reserve_bit 0 new_map ≡ some m)
      × (insert key value none m ≡ some (1, m'))
      × (remove key 1 true m' ≡ some m'')
      × (insert key' value' none m'' ≡ none)
unfolding reserve_bit insert remove reset_bit pop_nulls place reserved again reserving inserting
    removing
insert-reserve_bit key value key' value' = (
  reserving reserved reserved_first key value,
  inserting reserved reserved_first key value,
  removing reserved reserved_first key value again,
  rw (test-empty 0) refl,
  insert-reserving reserved reserved_first key value,
  remove-inserting reserved reserved_first key value,
  insert-removing again (find_first_clear-OnlyZero again again-OnlyZero) key' value',
)
  where
    reserved_first : find_first_clear reserved ≡ 1
    reserved_first = find_first_clear-OnlyZero reserved reserved-OnlyZero
