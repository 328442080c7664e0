-- ===== src/BitSet/Strings/RoundTrip.antt =====
-- The string of a set, and the set of a string.
use mathlib.Core.Bool.{false≢true}
use tf_common.Common.{
  ℕ, zero, suc, ◌+◌, ◌-◌, ◌≤◌, ◌<◌, ◌≡◌, ◌≢◌, refl, sym, ap, ◌∙◌, ◌⊎◌, inl, inr, Bool, true, false,
  List, [], ◌∷◌, if◌then◌else◌, ◌==◌, leb, ltb, arith, Bool-cases, ==_iff, ==-false, length, get_or,
  replicate, get_or-set_self, get_or-set_ne, get_or_above, length-set,
}
use tf_common.Common
use tf_common.BitSet
use tf_common.BitSet.{BitSet, npos, resize}
use tf_common.BitSet.Points.{test-set, test-empty}
use tf_common.BitSet.Invariant.{IsValid, set-IsValid}
use tf_common.BitSet.Search.{find_first, find_next, find_last}
use tf_common.BitSet.Search.Found.{find_first_lem, find_last_lem}
use tf_common.BitSet.Search.Next.{find_next_lem}
use tf_common.BitSet.Pair.Compare.{eq_of_tests}
use tf_common.BitSet.Strings.{set_ones, to_string, set_from, from_string}

abbrev char : Bool → ℕ
char b = if b then 49 else 48

length-replicate : (n a : ℕ) → length (replicate n a) ≡ n
length-replicate zero a = refl
length-replicate (suc n) a = ap suc (length-replicate n a)

get_or-replicate : (n a p : ℕ) → get_or (replicate n a) p a ≡ a
get_or-replicate zero a p = refl
get_or-replicate (suc n) a zero = refl
get_or-replicate (suc n) a (suc p) = get_or-replicate n a p

-- The positions of a set are below `npos`, and none is above the last one.
record Bounded (last : ℕ) (b : BitSet) : Type 0 where
  below : (p : ℕ) → BitSet.test b p ≡ true → p < npos
  top : (p : ℕ) → last < p → BitSet.test b p ≡ false

Written : BitSet → List ℕ → Type 0
Written b str = (p : ℕ) → get_or str p 48 ≡ char (BitSet.test b p)

-- The loop at a position of the set: the string has what is below.
record Upto (b : BitSet) (pos : ℕ) (str : List ℕ) : Type 0 where
  here : BitSet.test b pos ≡ true
  below : (p : ℕ) → p < pos → get_or str p 48 ≡ char (BitSet.test b p)
  above : (p : ℕ) → pos ≤ p → get_or str p 48 ≡ 48

set_ones-Written :
    (rounds last : ℕ) (b : BitSet) (pos : ℕ) (str : List ℕ)
    → Bounded last b
    → last < length str
    → ((pos ≡ npos) × Written b str) ⊎ (Upto b pos str × (last < pos + rounds))
    → Written b (set_ones rounds b pos str)
unfolding set_ones Written
set_ones-Written zero last b pos str lim fit (inl (e, w)) = w
set_ones-Written zero last b pos str lim fit (inr (u, more)) =
    absurd (false≢true (sym (lim.top pos (omega arith)) ∙ u.here))
set_ones-Written (suc rounds) last b pos str lim fit (inl (e, w)) = rw ((==_iff pos npos).1 e) w
set_ones-Written (suc rounds) last b pos str lim fit (inr (u, more)) =
    let real : pos < npos = lim.below pos u.here in
    let go_on : (pos == npos) ≡ false = ground arith in
    rw go_on (
      set_ones-Written rounds last b (find_next b pos) (Common.set str pos 49) lim
        (rw (length-set str pos 49) fit)
        (elim (find_next_lem b pos) [
          | inl (e, none_above) ↦ inl (
            e,
            λ p. elim (Bool-cases (leb p pos)) [
              | inl le ↦ low p (ground arith)
              | inr gt ↦
                  let far : pos < p = ground arith in high p far ∙ ap char (sym (none_above p far))
            ],
          )
          | inr (next, found, gap) ↦ inr (
            record {
              here = found;
              below = λ p h. elim (Bool-cases (leb p pos)) [
                | inl le ↦ low p (ground arith)
                | inr gt ↦
                    let far : pos < p = ground arith in high p far ∙ ap char (sym (gap p far h))
              ];
              above = λ p h. high p (omega arith);
            },
            omega arith,
          )
        ]))
  where
    inside : pos < length str
    inside = elim (Bool-cases (leb pos last)) [
      | inl le ↦ ground arith
      | inr gt ↦ absurd (false≢true (sym (lim.top pos (ground arith)) ∙ u.here))
    ]

    high : (p : ℕ) → pos < p → get_or (Common.set str pos 49) p 48 ≡ 48
    high p far = get_or-set_ne str pos p 49 48 (λ e. omega arith) ∙ u.above p (omega arith)

    low : (p : ℕ) → p ≤ pos → get_or (Common.set str pos 49) p 48 ≡ char (BitSet.test b p)
    low p le = elim (Bool-cases (pos == p)) [
      | inl y ↦
          let same : pos ≡ p = (==_iff pos p).0 y in
          rw (← same) (get_or-set_self str pos 49 48 inside ∙ ap char (sym u.here))
      | inr n ↦
          let ne : pos ≢ p = ==-false pos p n in
          get_or-set_ne str pos p 49 48 ne ∙ u.below p (ground arith)
    ]

-- The string has a character for each position up to the last one, 1 exactly for those of the set.
to_string-Written :
    (b : BitSet)
    → IsValid b.blocks
    → ((p : ℕ) → BitSet.test b p ≡ true → p < npos)
    → Written b (to_string b)
unfolding to_string Written
to_string-Written b v small = elim (find_last_lem b v) [
  | inl (e, empty) ↦
      let same : (find_last b == npos) ≡ true = (==_iff (find_last b) npos).1 e in
      rw same (λ p. ap char (sym (empty p)))
  | inr (found, top) ↦
      let real : find_last b < npos = small (find_last b) found in
      let go_on : (find_last b == npos) ≡ false = ground arith in
      rw go_on (
        set_ones-Written (find_last b + 1) (find_last b) b (find_first b)
          (replicate (find_last b + 1) 48) (record { below = small; top = top })
          (rw (length-replicate (find_last b + 1) 48) (omega arith))
          (elim (find_first_lem b) [
            | inl (e, empty) ↦ absurd (false≢true (sym (empty (find_last b)) ∙ found))
            | inr (first, before) ↦ inr (
              record {
                here = first;
                below = λ p h. get_or-replicate (find_last b + 1) 48 p ∙ ap char (sym (before p h));
                above = λ p h. get_or-replicate (find_last b + 1) 48 p;
              },
              omega arith,
            )
          ]))
]

-- The set of a string so far: what the set had, and the characters 1 up to an index.
FromString : ℕ → List ℕ → BitSet → BitSet → Type 0
FromString idx str b c =
    IsValid c.blocks
    × ((p : ℕ)
        → BitSet.test c p ≡ (
            if leb p idx
            then (if get_or str p 48 == 49 then true else BitSet.test b p)
            else BitSet.test b p))

-- One character.
step : Bool → ℕ → BitSet → BitSet
step one idx b = if one then BitSet.set b idx else b

step-IsValid :
    (one : Bool) (idx : ℕ) (b : BitSet) → IsValid b.blocks → IsValid (step one idx b).blocks
unfolding step
step-IsValid true idx b v = set-IsValid b idx v
step-IsValid false idx b v = v

test-step :
    (one : Bool) (idx : ℕ) (b : BitSet) (p : ℕ)
    → BitSet.test (step one idx b) p
      ≡ (if idx == p then (if one then true else BitSet.test b p) else BitSet.test b p)
unfolding step
test-step true idx b p = test-set b idx p
test-step false idx b p = ground arith

-- A character more, below those that are read already.
merge :
    (idx p : ℕ) (one other t : Bool)
    → (suc idx ≡ p → one ≡ other)
    → (if leb p idx
        then (if other then true else (if suc idx == p then (if one then true else t) else t))
        else (if suc idx == p then (if one then true else t) else t))
      ≡ (if leb p (suc idx) then (if other then true else t) else t)
merge idx p one other t e = elim (Bool-cases (leb p idx)) [
  | inl y ↦
      let apart : (suc idx == p) ≡ false = ground arith in
      let still : leb p (suc idx) ≡ true = ground arith in rw (y, apart, still) refl
  | inr n ↦ elim (Bool-cases (suc idx == p)) [
    | inl y ↦
        let same : suc idx ≡ p = (==_iff (suc idx) p).0 y in
        let still : leb p (suc idx) ≡ true = ground arith in rw (n, y, still, e same) refl
    | inr k ↦ let beyond : leb p (suc idx) ≡ false = ground arith in rw (n, k, beyond) refl
  ]
]

first_only :
    (p : ℕ) (one other t : Bool)
    → (0 ≡ p → one ≡ other)
    → (if 0 == p then (if one then true else t) else t)
      ≡ (if leb p 0 then (if other then true else t) else t)
first_only zero one other t e = rw (e refl) refl
first_only (suc p) one other t e = ground arith

set_from-FromString :
    (idx : ℕ) (str : List ℕ) (b : BitSet)
    → IsValid b.blocks
    → FromString idx str b (set_from idx str b)
unfolding set_from FromString step
set_from-FromString zero str b v = (
  step-IsValid (get_or str 0 48 == 49) 0 b v,
  λ p.
      test-step (get_or str 0 48 == 49) 0 b p
      ∙ first_only p (get_or str 0 48 == 49) (get_or str p 48 == 49) (BitSet.test b p)
          (λ e. ap (λ i. get_or str i 48 == 49) e),
)
set_from-FromString (suc idx) str b v =
    let one = get_or str (suc idx) 48 == 49 in
    let (w, at) =
      set_from-FromString idx str (step one (suc idx) b) (step-IsValid one (suc idx) b v) in
    (
      w,
      λ p.
          at p
          ∙ ap (λ t. if leb p idx then (if get_or str p 48 == 49 then true else t) else t)
              (test-step one (suc idx) b p)
          ∙ merge idx p one (get_or str p 48 == 49) (BitSet.test b p)
              (λ e. ap (λ i. get_or str i 48 == 49) e),
    )

is_one : (b : Bool) → (char b == 49) ≡ b
is_one true = refl
is_one false = refl

-- The set of a string has exactly the positions of its characters 1.
from_string_lem :
    (str : List ℕ) (old : BitSet)
    → IsValid (from_string str old).blocks
      × ((p : ℕ) → BitSet.test (from_string str old) p ≡ (get_or str p 48 == 49))
unfolding from_string FromString BitSet.clear resize
from_string_lem str old = elim (Bool-cases (length str == 0)) [
  | inl y ↦
      let none_there : length str ≡ 0 = (==_iff (length str) 0).0 y in
      rw y (
        no_blocks,
        λ p. test-empty p ∙ ap (λ c. c == 49) (sym (get_or_above str p 48 (omega arith))),
      )
  | inr n ↦
      let (w, at) = set_from-FromString (length str - 1) str (record { blocks = [] }) no_blocks in
      rw n (
        w,
        λ p. at p ∙ elim (Bool-cases (leb p (length str - 1))) [
          | inl y ↦ rw (y, test-empty p) (same (get_or str p 48 == 49))
          | inr k ↦
              let some_there : length str ≢ 0 = ==-false (length str) 0 n in
              let past : get_or str p 48 ≡ 48 = get_or_above str p 48 (ground arith) in
              rw (k, past) (test-empty p)
        ],
      )
]
  where
    no_blocks : IsValid []
    no_blocks = record { fits = λ i. omega arith; tight = λ ne. absurd (ne refl) }

    same : (b : Bool) → (if b then true else false) ≡ b
    same true = refl
    same false = refl

-- For a valid set whose positions are below npos, reading its string gives the set back, whatever
-- set it is read into.
pub from_string-to_string :
    (b old : BitSet)
    → IsValid b.blocks
    → ((p : ℕ) → BitSet.test b p ≡ true → p < npos)
    → from_string (to_string b) old ≡ b
unfolding Written
from_string-to_string b old v small =
    let (w, at) = from_string_lem (to_string b) old in
    eq_of_tests (from_string (to_string b) old) b w v
      (λ p. at p ∙ ap (λ c. c == 49) (to_string-Written b v small p) ∙ is_one (BitSet.test b p))
