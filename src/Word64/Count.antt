-- ===== src/Word64/Count.antt =====
-- `num_bits_set` counts the digits 1 of a block.
use tf_common.Common.{
  ℕ, zero, suc, ◌+◌, ◌-◌, ◌/◌, ◌%◌, ◌^◌, ◌≤◌, ◌<◌, bit_and, ◌≡◌, ◌≢◌, refl, ap, inl, inr, arith,
  Bool-cases, ◌!=◌, !=_iff,
}
use tf_common.Common.Bits.{bit_and_step, bit_and_self, bit_and-lt}
use tf_common.Word64.{num_bits_loop, num_bits_set}
use native.Mathlib.Nat.{pow-suc}
use native.Mathlib.Decide.{ℕ_discrete}

-- How many of the low `w` digits are 1.
abbrev pub count_digits : ℕ → ℕ → ℕ
count_digits zero x = 0
count_digits (suc w) x = x % 2 + count_digits w (x / 2)

count_digits-le : (w x : ℕ) → count_digits w x ≤ w
count_digits-le zero x = omega arith
count_digits-le (suc w) x = omega (arith, count_digits-le w (x / 2))

count_digits-zero : (w : ℕ) → count_digits w 0 ≡ 0
count_digits-zero zero = refl
count_digits-zero (suc w) = omega (arith, count_digits-zero w)

-- One round of the loop clears the lowest digit 1.
clear_lowest :
    (w x : ℕ) → x < 2 ^ w → x ≢ 0 → count_digits w (bit_and x (x - 1)) + 1 ≡ count_digits w x
clear_lowest zero x h ne = absurd (omega arith)
clear_lowest (suc w) x h ne = elim (ℕ_discrete (x % 2) 1) [
  | yes odd ↦
      let half : (x - 1) / 2 ≡ x / 2 = omega arith in
      let rest : bit_and x (x - 1) / 2 ≡ x / 2 = omega (
        arith,
        bit_and_step x (x - 1),
        ap (bit_and (x / 2)) half,
        bit_and_self w (x / 2) (omega (arith, pow-suc 2 w)),
      ) in
      omega (arith, bit_and_step x (x - 1), ap (count_digits w) rest)
  | no even ↦
      let half : (x - 1) / 2 ≡ x / 2 - 1 = omega arith in
      let rest : bit_and x (x - 1) / 2 ≡ bit_and (x / 2) (x / 2 - 1) =
        omega (arith, bit_and_step x (x - 1), ap (bit_and (x / 2)) half) in
      omega (
        arith,
        bit_and_step x (x - 1),
        ap (count_digits w) rest,
        clear_lowest w (x / 2) (omega (arith, pow-suc 2 w)) (omega arith),
      )
]

num_bits_loop-count_digits :
    (fuel w x n : ℕ)
    → x < 2 ^ w
    → count_digits w x ≤ fuel
    → num_bits_loop fuel x n ≡ n + count_digits w x
unfolding num_bits_loop
num_bits_loop-count_digits zero w x n h k = omega arith
num_bits_loop-count_digits (suc fuel) w x n h k = elim (Bool-cases (x != 0)) [
  | inl e ↦
      let ne : x ≢ 0 = (!=_iff x 0).0 e in
      rw e (
        omega (
          arith,
          clear_lowest w x h ne,
          num_bits_loop-count_digits fuel w (bit_and x (x - 1)) (n + 1) (bit_and-lt w x (x - 1) h)
              (omega (arith, clear_lowest w x h ne)),
        ))
  | inr e ↦
      let z : x ≡ 0 = ground arith in
      rw e (omega (arith, ap (count_digits w) z, count_digits-zero w))
]

-- For a block below 2^64, the loop that clears the lowest digit 1 ends within 64 rounds and counts
-- the digits 1.
pub num_bits_set-count_digits : (x : ℕ) → x < 2 ^ 64 → num_bits_set x ≡ count_digits 64 x
unfolding num_bits_set
num_bits_set-count_digits x h =
    omega (arith, num_bits_loop-count_digits 64 64 x 0 h (count_digits-le 64 x))
