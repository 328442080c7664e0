-- ===== src/IndexMap/Insert.antt =====
-- Insertion of a new key at a free index.
use tf_common.Common.{
  ℕ, zero, suc, ◌+◌, ◌-◌, ◌≤◌, ◌<◌, ◌≡◌, ◌≢◌, refl, sym, ap, ◌∙◌, ◌⊎◌, inl, inr, Bool, true, false,
  not, Option, none, some, List, [], ◌∷◌, ◌++◌, if◌then◌else◌, leb, ltb, ◌==◌, arith, Bool-cases,
  ==_iff, ==-false, length, get_or, get_or-set_self, get_or-set_ne, get_or_above, Option-cases,
}
use tf_common.Common
use mathlib.Core.Bool.{false≢true}
use tf_common.BitSet
use tf_common.BitSet.{BitSet, npos}
use tf_common.BitSet.Points.{test-set}
use tf_common.BitSet.Invariant.{IsValid, set-IsValid}
use tf_common.BitSet.Search.{find_first_clear}
use tf_common.BitSet.Search.Found.{find_first_clear_lem}
use tf_common.IndexMap.{IndexMap, find, value_at, is_null, place, insert}

-- The indices in use are those that have a value.
pub record IsIndexMap (m : IndexMap) : Type 0 where
  pub valid : IsValid m.bits.blocks
  pub filled : (i : ℕ) → BitSet.test m.bits i ≡ not (is_null (value_at m i))

get_or-append :
    {A : Type 0} (xs : List A) (v d : A) (i : ℕ)
    → get_or (xs ++ v ∷ []) i d ≡ (if length xs == i then v else get_or xs i d)
get_or-append [] v d zero = refl
get_or-append [] v d (suc i) = ground arith
get_or-append (x ∷ xs) v d zero = ground arith
get_or-append (x ∷ xs) v d (suc i) = ground (arith, get_or-append xs v d i)

-- `place` writes at a position that is not beyond the end, and fails beyond.
place_lem :
    (bit value : ℕ) (values : List (Option ℕ))
    → ((vs : List (Option ℕ)) × (bit ≤ length values)
        × (place bit value values ≡ some vs)
        × ((i : ℕ) → get_or vs i none ≡ (if bit == i then some value else get_or values i none)))
      ⊎ ((length values < bit) × (place bit value values ≡ none))
unfolding place
place_lem bit value values = elim (Bool-cases (ltb bit (length values))) [
  | inl y ↦
      let fit : bit < length values = ground arith in
      inl (
        Common.set values bit (some value),
        omega arith,
        rw y refl,
        λ i. elim (Bool-cases (bit == i)) [
          | inl z ↦
              let same : bit ≡ i = (==_iff bit i).0 z in
              rw z (rw (← same) (get_or-set_self values bit (some value) none fit))
          | inr n ↦ rw n (get_or-set_ne values bit i (some value) none (==-false bit i n))
        ],
      )
  | inr n ↦ elim (Bool-cases (bit == length values)) [
    | inl y ↦
        let same : bit ≡ length values = (==_iff bit (length values)).0 y in
        inl (
          values ++ some value ∷ [],
          omega arith,
          rw (n, y) refl,
          λ i. rw same (get_or-append values (some value) none i),
        )
    | inr k ↦ inr (ground arith, rw (n, k) refl)
  ]
]

-- The first free index is not beyond the vector.
first_clear_bound : (m : IndexMap) → IsIndexMap m → find_first_clear m.bits ≤ length m.values
first_clear_bound m v = elim (Bool-cases (leb (find_first_clear m.bits) (length m.values))) [
  | inl y ↦ ground arith
  | inr n ↦
      let beyond : length m.values < find_first_clear m.bits = ground arith in
      let taken = (find_first_clear_lem m.bits v.valid).1 (length m.values) beyond in
      let empty : value_at m (length m.values) ≡ none =
        get_or_above m.values (length m.values) none (omega arith) in
      absurd
        (false≢true (sym (v.filled (length m.values) ∙ ap (λ o. not (is_null o)) empty) ∙ taken))
]

-- What the insertion of a new key leaves: the least free index, with the value there and under the
-- key, and all else as it was.
unfoldable pub Inserted : ℕ → ℕ → IndexMap → ℕ × IndexMap → Type 0
Inserted key value m (bit, m') =
    IsIndexMap m'
    × (value_at m bit ≡ none)
    × ((i : ℕ) → i < bit → value_at m i ≢ none)
    × ((i : ℕ) → value_at m' i ≡ (if bit == i then some value else value_at m i))
    × (m'.map ≡ (key, value) ∷ m.map)

null_of_filled : (o : Option ℕ) → false ≡ not (is_null o) → o ≡ none
null_of_filled none e = refl
null_of_filled (some v) e = cc

filled-set :
    (m m' : IndexMap) (bit value : ℕ)
    → IsIndexMap m
    → m'.bits ≡ BitSet.set m.bits bit
    → ((i : ℕ) → value_at m' i ≡ (if bit == i then some value else value_at m i))
    → (i : ℕ) → BitSet.test m'.bits i ≡ not (is_null (value_at m' i))
filled-set m m' bit value v e at i = elim (Bool-cases (bit == i)) [
  | inl y ↦ ap (λ b. BitSet.test b i) e ∙ test-set m.bits bit i ∙ rw (at i, y) refl
  | inr n ↦ ap (λ b. BitSet.test b i) e ∙ test-set m.bits bit i ∙ rw (at i, n) (v.filled i)
]

-- A new key with room for its value.
Found : ℕ → ℕ → IndexMap → Type 0
Found key value m =
    ((r : ℕ × IndexMap) × (insert key value none m ≡ some r) × Inserted key value m r)

insert_new :
    (key value : ℕ) (m : IndexMap) → IsIndexMap m → find key m.map ≡ none → Found key value m
unfolding insert Inserted find Found
insert_new key value m v e = elim (place_lem (find_first_clear m.bits) value m.values) [
  | inr (far, fail) ↦ let near = first_clear_bound m v in absurd (omega arith)
  | inl (vs, near, done, at) ↦
      let clear = find_first_clear_lem m.bits v.valid in
      let m' : IndexMap = record {
        bits = BitSet.set m.bits (find_first_clear m.bits);
        values = vs;
        map = (key, value) ∷ m.map;
      } in
      (
        (find_first_clear m.bits, m'),
        rw (insert, e, done) refl,
        (
          record {
            valid = set-IsValid m.bits (find_first_clear m.bits) v.valid;
            filled = filled-set m m' (find_first_clear m.bits) value v refl at;
          },
          null_of_filled (value_at m (find_first_clear m.bits))
              (sym clear.0 ∙ v.filled (find_first_clear m.bits)),
          (λ i h n.
              absurd
                (false≢true (ap (λ o. not (is_null o)) (sym n) ∙ sym (v.filled i) ∙ clear.1 i h))),
          at,
          refl,
        ),
      )
]

-- For a map whose indices in use are those with a value, the insertion of a new key does not fail:
-- it takes the least index without a value, puts the value there and under the key and changes
-- nothing else, and the indices in use are again those with a value; a key that is there is
-- refused with npos, and nothing changes.
pub insert-Inserted :
    (key value : ℕ) (m : IndexMap)
    → IsIndexMap m
    → ((r : ℕ × IndexMap) × (insert key value none m ≡ some r)
        × (find key m.map ≡ none)
        × Inserted key value m r)
      ⊎ ((insert key value none m ≡ some (npos, m)) × (is_null (find key m.map) ≡ false))
unfolding insert Inserted find Found
insert-Inserted key value m v = elim (Option-cases (find key m.map)) [
  | inr (old, e) ↦ inr (rw (insert, e) refl, rw e refl)
  | inl e ↦ let f = insert_new key value m v e in inl (f.0, f.1, e, f.2)
]
