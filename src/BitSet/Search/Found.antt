-- ===== src/BitSet/Search/Found.antt =====
-- What `find_first`, `find_first_clear` and `find_last` find.
use tf_common.Common.{
  ℕ, zero, suc, ◌+◌, ◌-◌, ◌*◌, ◌/◌, ◌%◌, ◌^◌, ◌≤◌, ◌<◌, ◌≡◌, ◌≢◌, refl, ◌∙◌, ◌⊎◌, inl, inr, true,
  false, List, [], ◌∷◌, arith, Bool-cases, if◌then◌else◌, ◌==◌, ltb, length, get_or_above, ==_iff,
  ==-false,
}
use tf_common.Common.Bits.{bit, bit-zero, bit_top, bit_above}
use tf_common.Word64.{find_first_set64, find_first_clear64, find_last_set64}
use tf_common.Word64.First.{FirstDigit, find_first_set64-FirstDigit, find_first_clear64-FirstDigit}
use tf_common.Word64.Last.{find_last_set64-LastSet}
use tf_common.BitSet.{BitSet, block, npos, bit_position, test}
use tf_common.BitSet.Blocks.{digit, test-digit}
use tf_common.BitSet.Invariant.{IsValid}
use tf_common.BitSet.Search.{first_from, first_clear_from, find_first, find_first_clear, find_last}
use native.Mathlib.Decide.{dec_lt}

-- A scan for the digit `d` over the blocks `xs`, the first of which has index `idx`, comes to `r`:
-- `missing` if there is none, or else the position of the first one.
pub data Scan (d : ℕ) (xs : List ℕ) (idx missing r : ℕ) : Type 0 where
  nowhere :
      r ≡ missing
      → ((i k : ℕ) → i < length xs → k < 64 → bit (block xs i) k ≡ 1 - d)
      → Scan d xs idx missing r
  at :
      (j k : ℕ)
      → r ≡ (idx + j) * 64 + k
      → j < length xs
      → k < 64
      → bit (block xs j) k ≡ d
      → ((i l : ℕ) → i < j → l < 64 → bit (block xs i) l ≡ 1 - d)
      → ((l : ℕ) → l < k → bit (block xs j) l ≡ 1 - d)
      → Scan d xs idx missing r

Scan-cons :
    (d x : ℕ) (xs : List ℕ) (idx missing r : ℕ)
    → ((k : ℕ) → k < 64 → bit x k ≡ 1 - d)
    → Scan d xs (idx + 1) missing r
    → Scan d (x ∷ xs) idx missing r
Scan-cons d x xs idx missing r h (nowhere e all) = nowhere e go
  where
    go : (i k : ℕ) → i < suc (length xs) → k < 64 → bit (block (x ∷ xs) i) k ≡ 1 - d
    go zero k l m = h k m
    go (suc i) k l m = all i k (omega arith) m
Scan-cons d x xs idx missing r h (at j k e l m b before below) =
    at (suc j) k (omega arith) (omega arith) m b go below
  where
    go : (i n : ℕ) → i < suc j → n < 64 → bit (block (x ∷ xs) i) n ≡ 1 - d
    go zero n p q = h n q
    go (suc i) n p q = before i n (omega arith) q

Scan-head :
    (d x : ℕ) (xs : List ℕ) (idx missing bit' rest : ℕ)
    → FirstDigit d 0 64 x bit'
    → Scan d xs (idx + 1) missing rest
    → Scan d (x ∷ xs) idx missing (if ltb 0 bit' then bit_position idx (bit' - 1) else rest)
Scan-head d x xs idx missing b rest (inl (e, all)) s =
    let none : ltb 0 b ≡ false = ground arith in rw none (Scan-cons d x xs idx missing rest all s)
Scan-head d x xs idx missing b rest (inr (p, e, h, own, below)) s =
    let some_digit : ltb 0 b ≡ true = ground arith in
    rw some_digit (at 0 p (omega arith) (omega arith) h own (λ i l k m. absurd (omega arith)) below)

pub first_from-Scan : (xs : List ℕ) (idx : ℕ) → Scan 1 xs idx npos (first_from xs idx)
unfolding first_from
first_from-Scan [] idx = nowhere refl (λ i k h l. absurd (omega arith))
first_from-Scan (x ∷ xs) idx =
    Scan-head 1 x xs idx npos (find_first_set64 x) (first_from xs (idx + 1))
      (find_first_set64-FirstDigit x) (first_from-Scan xs (idx + 1))

pub first_clear_from-Scan :
    (xs : List ℕ) (idx n : ℕ)
    → ((i : ℕ) → block xs i < 2 ^ 64)
    → Scan 0 xs idx n (first_clear_from xs idx n)
unfolding first_clear_from
first_clear_from-Scan [] idx n h = nowhere refl (λ i k l m. absurd (omega arith))
first_clear_from-Scan (x ∷ xs) idx n h =
    Scan-head 0 x xs idx n (find_first_clear64 x) (first_clear_from xs (idx + 1) n)
      (find_first_clear64-FirstDigit x (h 0))
      (first_clear_from-Scan xs (idx + 1) n (λ i. h (suc i)))

pub test_of_digit : (b : BitSet) (p : ℕ) → digit b.blocks p ≡ 1 → test b p ≡ true
test_of_digit b p e = rw (test-digit b p, e)

pub test_of_no_digit : (b : BitSet) (p : ℕ) → digit b.blocks p ≡ 0 → test b p ≡ false
test_of_no_digit b p e = rw (test-digit b p, e)

pub digit_beyond : (xs : List ℕ) (p : ℕ) → length xs ≤ p / 64 → digit xs p ≡ 0
digit_beyond xs p h = rw (get_or_above xs (p / 64) 0 h) (bit-zero (p % 64))

-- Digits at `j * 64 + k`, and below.
pub digit_here :
    (xs : List ℕ) (r j k : ℕ) → r ≡ j * 64 + k → k < 64 → digit xs r ≡ bit (block xs j) k
digit_here xs r j k e h =
    let idx : r / 64 ≡ j = omega arith in let offset : r % 64 ≡ k = omega arith in rw (idx, offset)

-- The first search gives the least position of the set, or npos for a set without positions.
pub find_first_lem :
    (b : BitSet)
    → ((find_first b ≡ npos) × ((p : ℕ) → test b p ≡ false))
      ⊎ ((test b (find_first b) ≡ true) × ((p : ℕ) → p < find_first b → test b p ≡ false))
unfolding find_first
find_first_lem b = elim (first_from-Scan b.blocks 0) [
  | nowhere e all ↦ inl (
    e,
    λ p. test_of_no_digit b p (elim (dec_lt (p / 64) (length b.blocks)) [
      | yes h ↦ all (p / 64) (p % 64) h (omega arith)
      | no h ↦ digit_beyond b.blocks p (omega arith)
    ]),
  )
  | at j k e l m own before below ↦ inr (
    test_of_digit b (find_first b)
        (digit_here b.blocks (find_first b) j k (omega (arith, e)) m ∙ own),
    λ p h. test_of_no_digit b p (elim (dec_lt (p / 64) j) [
      | yes n ↦ before (p / 64) (p % 64) n (omega arith)
      | no n ↦
          let same : p / 64 ≡ j = omega (arith, e) in rw same (below (p % 64) (omega (arith, e)))
    ]),
  )
]

-- For a valid set, the first clear search gives the least position that is not in the set.
pub find_first_clear_lem :
    (b : BitSet)
    → IsValid b.blocks
    → (test b (find_first_clear b) ≡ false) × ((p : ℕ) → p < find_first_clear b → test b p ≡ true)
unfolding find_first_clear
find_first_clear_lem b v = elim (first_clear_from-Scan b.blocks 0 (length b.blocks * 64) v.fits) [
  | nowhere e all ↦ (
    test_of_no_digit b (find_first_clear b)
        (digit_beyond b.blocks (find_first_clear b) (omega (arith, e))),
    λ p h. test_of_digit b p (all (p / 64) (p % 64) (omega (arith, e)) (omega arith)),
  )
  | at j k e l m own before below ↦ (
    test_of_no_digit b (find_first_clear b)
        (digit_here b.blocks (find_first_clear b) j k (omega (arith, e)) m ∙ own),
    λ p h. test_of_digit b p (elim (dec_lt (p / 64) j) [
      | yes n ↦ before (p / 64) (p % 64) n (omega arith)
      | no n ↦
          let same : p / 64 ≡ j = omega (arith, e) in rw same (below (p % 64) (omega (arith, e)))
    ]),
  )
]

-- For a valid set, the last search gives the greatest position of the set, or npos for a set
-- without positions.
pub find_last_lem :
    (b : BitSet)
    → IsValid b.blocks
    → ((find_last b ≡ npos) × ((p : ℕ) → test b p ≡ false))
      ⊎ ((test b (find_last b) ≡ true) × ((p : ℕ) → find_last b < p → test b p ≡ false))
unfolding find_last
find_last_lem b v = elim (Bool-cases (length b.blocks == 0)) [
  | inl e ↦ rw e (
      inl (
        refl,
        λ p.
            test_of_no_digit b p
              (digit_beyond b.blocks p (omega (arith, (==_iff (length b.blocks) 0).0 e))),
      ))
  | inr e ↦
      let filled : length b.blocks ≢ 0 = ==-false (length b.blocks) 0 e in
      rw e (elim (find_last_set64-LastSet last (v.fits (length b.blocks - 1))) [
        | inl (z, none) ↦ absurd (v.tight filled none)
        | inr (p, f, h, low, high) ↦
            let r : find_last_set64 last - 1 ≡ p = omega arith in
            let hit : ltb 0 (find_last_set64 last) ≡ true = ground arith in
            rw (hit, r)
              (inr (
                test_of_digit b _ (
                    digit_here b.blocks (bit_position (length b.blocks - 1) p) _ p refl h
                    ∙ bit_top p last low high),
                λ q k. test_of_no_digit b q (elim (dec_lt (q / 64) (length b.blocks)) [
                  | no l ↦ digit_beyond b.blocks q (omega arith)
                  | yes l ↦
                      let same : q / 64 ≡ length b.blocks - 1 = omega (arith, k) in
                      rw same (bit_above (suc p) last (q % 64) high (omega (arith, k)))
                ]),
              ))
      ])
]
  where
    last : ℕ
    last = block b.blocks (length b.blocks - 1)
