-- ===== src/BitSet/Tests.antt =====
-- The theorems on the set and on its blocks at concrete values.
use tf_common.Common.{
  ℕ, ◌<◌, ◌≡◌, ◌↔◌, ◌⊎◌, refl, true, false, [], arith, Bool-cases, ==_iff, ◌==◌, sym, ◌∙◌, inl, inr,
}
use tf_common.BitSet.{BitSet, npos, set, reset, test}
use tf_common.BitSet.Invariant.{IsValid, set-IsValid}
use tf_common.BitSet.Points.{test-set, test-reset, test-empty}
use tf_common.BitSet.Search.{find_next}
use tf_common.BitSet.Search.Next.{find_next_lem}
use tf_common.BitSet.Pair.{op_eq, contains}
use mathlib.Core.Bool.{false≢true}
use tf_common.BitSet.Strings.{to_string, from_string}
use tf_common.BitSet.Strings.RoundTrip.{from_string-to_string}
use tf_common.BitSet.Refinement.{
  Program, start, setting, resetting, joining_in_place, eval, denote, Refines, eval-Refines,
  op_eq-denote,
}

abbrev no_positions : BitSet
no_positions = record { blocks = [] }

no_positions-IsValid : IsValid no_positions.blocks
no_positions-IsValid = record { fits = λ i. omega arith; tight = λ ne. absurd (ne refl) }

-- The sets of 3 and of 3 and 70, which has two blocks.
abbrev low : BitSet
low = set no_positions 3

abbrev both : BitSet
both = set low 70

low-IsValid : IsValid low.blocks
low-IsValid = set-IsValid no_positions 3 no_positions-IsValid

both-IsValid : IsValid both.blocks
both-IsValid = set-IsValid low 70 low-IsValid

find_next_lem_example :
    ((find_next both 3 ≡ npos) × ((p : ℕ) → 3 < p → test both p ≡ false))
    ⊎ ((3 < find_next both 3)
        × (test both (find_next both 3) ≡ true)
        × ((p : ℕ) → 3 < p → p < find_next both 3 → test both p ≡ false))
find_next_lem_example = find_next_lem both 3

test-reset_example : test (reset both 3) 70 ≡ test both 70
test-reset_example = test-reset both 3 70

-- {0, 5, 70} made in two ways.
abbrev one_way : Program
one_way = setting (resetting (setting (setting (setting start 0) 5) 70) 5) 5

abbrev other_way : Program
other_way = joining_in_place (setting start 70) (setting (setting start 5) 0)

eval-Refines_example : Refines (eval one_way) (denote one_way)
eval-Refines_example = eval-Refines one_way

op_eq-denote_example :
    ((op_eq (eval one_way) (eval other_way) ≡ true)
      ↔ ((p : ℕ) → denote one_way p ≡ denote other_way p))
    × ((contains (eval one_way) (eval other_way) ≡ true)
        ↔ ((p : ℕ) → denote other_way p ≡ true → denote one_way p ≡ true))
op_eq-denote_example = op_eq-denote one_way other_way

-- {5}.
abbrev five : BitSet
five = set no_positions 5

five-IsValid : IsValid five.blocks
five-IsValid =
    set-IsValid no_positions 5 (record { fits = λ i. omega arith; tight = λ ne. absurd (ne refl) })

five-below : (p : ℕ) → test five p ≡ true → p < npos
five-below p h = elim (Bool-cases (5 == p)) [
  | inl y ↦ let same : 5 ≡ p = (==_iff 5 p).0 y in omega arith
  | inr n ↦ absurd (false≢true (sym (rw n (test-empty p)) ∙ sym (test-set no_positions 5 p) ∙ h))
]

from_string-to_string_example : from_string (to_string five) no_positions ≡ five
from_string-to_string_example = from_string-to_string five no_positions five-IsValid five-below
