-- ===== src/WaterMark/Crossing.antt =====
-- Which mark is reported: the one that the count has just crossed.
use tf_common.Common.{
  ℕ, ◌≤◌, ◌<◌, ◌≡◌, refl, ◌⊎◌, inl, inr, Option, none, some, List, [], ◌∷◌, ltb, arith, Bool-cases,
  Has,
}
use tf_common.WaterMark.{
  WaterMarkInfo, WaterMarkTuple, insert, before_upper_bound, lower_bound, crossed_up, crossed_down,
  latest, process_high_water_marks, process_low_water_marks,
}

-- Every count of the list is above a number.
pub Above : ℕ → List WaterMarkInfo → Type 0
Above n xs = (w : WaterMarkInfo) → Has xs w → n < w.count

-- In the strict order of the counts.
pub data Ascending : List WaterMarkInfo → Type 0 where
  nil : Ascending []
  cons :
      (x : WaterMarkInfo) (xs : List WaterMarkInfo)
      → Above x.count xs
      → Ascending xs
      → Ascending (x ∷ xs)

-- The greatest mark that is not above the count.
pub Greatest : ℕ → List WaterMarkInfo → Option WaterMarkInfo → Type 0
Greatest count xs none = (w : WaterMarkInfo) → Has xs w → count < w.count
Greatest count xs (some x) =
    Has xs x
    × (x.count ≤ count)
    × ((w : WaterMarkInfo) → Has xs w → w.count ≤ x.count ⊎ count < w.count)

-- The least mark that is not below the count.
pub Least : ℕ → List WaterMarkInfo → Option WaterMarkInfo → Type 0
Least count xs none = (w : WaterMarkInfo) → Has xs w → w.count < count
Least count xs (some x) =
    Has xs x
    × (count ≤ x.count)
    × ((w : WaterMarkInfo) → Has xs w → x.count ≤ w.count ⊎ w.count < count)

lower_bound-Least :
    (count : ℕ) (xs : List WaterMarkInfo) → Ascending xs → Least count xs (lower_bound count xs)
unfolding lower_bound Least Above
lower_bound-Least count [] nil = λ w h. elim h [ ]
lower_bound-Least count (x ∷ xs) (cons _ _ above up) = elim (Bool-cases (ltb x.count count)) [
  | inl y ↦ rw y (Least_cons (ground arith) (lower_bound count xs) (lower_bound-Least count xs up))
  | inr n ↦ rw n (
    inl refl,
    ground arith,
    λ w h. elim h [
      | inl e ↦ rw (← e) (inl (omega arith))
      | inr k ↦ let far = above w k in inl (omega arith)
    ],
  )
]
  where
    Least_cons :
        x.count < count → (o : Option WaterMarkInfo) → Least count xs o → Least count (x ∷ xs) o
    Least_cons low none l = λ w h. elim h [ inl e ↦ rw (← e) (ground arith) | inr k ↦ l w k ]
    Least_cons low (some z) (there, fit, least) = (
      inr there,
      fit,
      λ w h. elim h [ inl e ↦ rw (← e) (inr (ground arith)) | inr k ↦ least w k ],
    )

before_upper_bound-Greatest :
    (count : ℕ) (xs : List WaterMarkInfo)
    → Ascending xs
    → Greatest count xs (before_upper_bound count xs)
unfolding before_upper_bound Greatest Above
before_upper_bound-Greatest count [] nil = λ w h. elim h [ ]
before_upper_bound-Greatest count (x ∷ xs) (cons _ _ above up) =
    elim (Bool-cases (ltb count x.count)) [
      | inl y ↦ rw y (λ w h. elim h [
        | inl e ↦ rw (← e) (ground arith)
        | inr k ↦ let far = above w k in ground arith
      ])
      | inr n ↦ rw n (
          Greatest_cons (ground arith) (before_upper_bound count xs)
            (before_upper_bound-Greatest count xs up))
    ]
  where
    Greatest_cons :
        x.count ≤ count
        → (o : Option WaterMarkInfo) → Greatest count xs o
        → Greatest count (x ∷ xs) (latest x o)
    Greatest_cons low none g = (
      inl refl,
      low,
      λ w h. elim h [ inl e ↦ rw (← e) (inl (omega arith)) | inr k ↦ inr (g w k) ],
    )
    Greatest_cons low (some z) (there, fit, greatest) = (
      inr there,
      fit,
      λ w h. elim h [
        | inl e ↦ let far = above z there in rw (← e) (inl (omega arith))
        | inr k ↦ greatest w k
      ],
    )

-- Of the marks that the count has reached and the last count had not, the greatest, or none of them.
pub CrossedUp : ℕ → WaterMarkTuple → Option WaterMarkInfo → Type 0
CrossedUp count t none =
    (w : WaterMarkInfo) → Has t.high_water w → w.count ≤ count → w.count ≤ t.last_count
CrossedUp count t (some x) =
    Has t.high_water x
    × (t.last_count < x.count)
    × (x.count ≤ count)
    × ((w : WaterMarkInfo) → Has t.high_water w → w.count ≤ count → w.count ≤ x.count)

-- For high marks in the order of their counts, the mark reported is the greatest of those that the
-- new count has reached, provided that the last count was below it, and none is reported only
-- where the last count had reached all of these; the new count is recorded.
pub process_high_water_marks-CrossedUp :
    (count : ℕ) (t : WaterMarkTuple)
    → Ascending t.high_water
    → CrossedUp count t (process_high_water_marks count t).0
      × ((process_high_water_marks count t).1.last_count ≡ count)
unfolding process_high_water_marks Greatest CrossedUp crossed_up
process_high_water_marks-CrossedUp count t up = (
  crossing (before_upper_bound count t.high_water)
      (before_upper_bound-Greatest count t.high_water up),
  refl,
)
  where
    crossing :
        (o : Option WaterMarkInfo)
        → Greatest count t.high_water o
        → CrossedUp count t (crossed_up t.last_count o)
    crossing none g = λ w h k. let far = g w h in absurd (omega arith)
    crossing (some x) (there, fit, greatest) = elim (Bool-cases (ltb t.last_count x.count)) [
      | inl y ↦ rw y (
        there,
        ground arith,
        fit,
        λ w h k. elim (greatest w h) [ inl le ↦ le | inr gt ↦ absurd (omega arith) ],
      )
      | inr n ↦
          rw n
            (λ w h k. elim (greatest w h) [ inl le ↦ ground arith | inr gt ↦ absurd (omega arith) ])
    ]

-- Of the marks that the count has sunk to and the last count was above, the least, or none of them.
pub CrossedDown : ℕ → WaterMarkTuple → Option WaterMarkInfo → Type 0
CrossedDown count t none =
    (w : WaterMarkInfo) → Has t.low_water w → count ≤ w.count → t.last_count ≤ w.count
CrossedDown count t (some x) =
    Has t.low_water x
    × (x.count < t.last_count)
    × (count ≤ x.count)
    × ((w : WaterMarkInfo) → Has t.low_water w → count ≤ w.count → x.count ≤ w.count)

-- For low marks in the order of their counts, the mark reported is the least of those that the new
-- count has sunk to, provided that the last count was above it, and none is reported only where
-- the last count was not above any of these; the new count is recorded.
pub process_low_water_marks-CrossedDown :
    (count : ℕ) (t : WaterMarkTuple)
    → Ascending t.low_water
    → CrossedDown count t (process_low_water_marks count t).0
      × ((process_low_water_marks count t).1.last_count ≡ count)
unfolding process_low_water_marks Least CrossedDown crossed_down
process_low_water_marks-CrossedDown count t up =
    (crossing (lower_bound count t.low_water) (lower_bound-Least count t.low_water up), refl)
  where
    crossing :
        (o : Option WaterMarkInfo)
        → Least count t.low_water o
        → CrossedDown count t (crossed_down t.last_count o)
    crossing none l = λ w h k. let far = l w h in absurd (omega arith)
    crossing (some x) (there, fit, least) = elim (Bool-cases (ltb x.count t.last_count)) [
      | inl y ↦ rw y (
        there,
        ground arith,
        fit,
        λ w h k. elim (least w h) [ inl le ↦ le | inr gt ↦ absurd (omega arith) ],
      )
      | inr n ↦
          rw n (λ w h k. elim (least w h) [ inl le ↦ ground arith | inr gt ↦ absurd (omega arith) ])
    ]

-- A mark after an insertion is the new one or an earlier one.
Has-insert :
    (w : WaterMarkInfo) (xs : List WaterMarkInfo) (z : WaterMarkInfo)
    → Has (insert w xs) z
    → (w ≡ z) ⊎ Has xs z
unfolding insert
Has-insert w [] z h = h
Has-insert w (x ∷ xs) z h = elim (Bool-cases (ltb w.count x.count)) [
  | inl y ↦ rw y at h
  | inr n ↦ elim (Bool-cases (ltb x.count w.count)) [
    | inl y ↦ elim (rw (n, y) at h) [
      | inl e ↦ inr (inl e)
      | inr k ↦ elim (Has-insert w xs z k) [ inl e ↦ inl e | inr l ↦ inr (inr l) ]
    ]
    | inr k ↦ inr (rw (n, k) at h)
  ]
]

-- Inserting a mark keeps the order of the counts.
pub insert-Ascending :
    (w : WaterMarkInfo) (xs : List WaterMarkInfo) → Ascending xs → Ascending (insert w xs)
unfolding insert Above
insert-Ascending w [] up = cons w [] (λ z h. elim h [ ]) nil
insert-Ascending w (x ∷ xs) (cons _ _ above up) = elim (Bool-cases (ltb w.count x.count)) [
  | inl y ↦ rw y (
      cons w (x ∷ xs)
        (λ z h. elim h [
          | inl e ↦ rw (← e) (ground arith)
          | inr k ↦ let far = above z k in ground arith
        ])
        (cons x xs above up))
  | inr n ↦ elim (Bool-cases (ltb x.count w.count)) [
    | inl y ↦
        rw (n, y)
          (cons x (insert w xs)
            (λ z h. elim (Has-insert w xs z h) [
              | inl e ↦ rw (← e) (ground arith)
              | inr k ↦ above z k
            ])
            (insert-Ascending w xs up))
    | inr k ↦ rw (n, k) (cons x xs above up)
  ]
]
