-- ===== src/Word64/First.antt =====
-- What `find_first_set64` and `find_first_clear64` find.
use tf_common.Common.{
  ℕ, zero, suc, ◌+◌, ◌-◌, ◌/◌, ◌%◌, ◌^◌, ◌<◌, ◌≡◌, ◌≢◌, refl, ap, sym, ◌∙◌, ◌⊎◌, inl, inr, arith,
  Bool-cases, ◌==◌, ==_iff, ==-false,
}
use tf_common.Common.Bits.{bit, bit-div, bit-mod, bit-complement}
use tf_common.Word64.{ffs_from, find_first_set64, find_first_clear64, complement64}
use native.Mathlib.Decide.{dec_lt}

-- `r` is `k + 1` above the lowest place below `w` with digit `d`, or 0 if there is none.
abbrev pub FirstDigit : ℕ → ℕ → ℕ → ℕ → ℕ → Type 0
FirstDigit d k w x r =
    ((r ≡ 0) × ((i : ℕ) → i < w → bit x i ≡ 1 - d))
    ⊎ ((p : ℕ) × (r ≡ k + suc p) × (p < w) × (bit x p ≡ d) × ((i : ℕ) → i < p → bit x i ≡ 1 - d))

low_digit :
    (x n : ℕ)
    → x % 2 ≢ 1
    → ((i : ℕ) → i < n → bit (x / 2) i ≡ 0)
    → (i : ℕ) → i < suc n
    → bit x i ≡ 0
low_digit x n ne below zero h = omega arith
low_digit x n ne below (suc i) h = below i (omega arith)

FirstDigit-suc :
    (k w x r : ℕ) → x % 2 ≢ 1 → FirstDigit 1 (k + 1) w (x / 2) r → FirstDigit 1 k (suc w) x r
FirstDigit-suc k w x r ne (inl (e, below)) = inl (e, low_digit x w ne below)
FirstDigit-suc k w x r ne (inr (p, e, h, b, below)) =
    inr (suc p, omega arith, omega arith, b, low_digit x p ne below)

ffs_from-FirstDigit : (w x k : ℕ) → FirstDigit 1 k w x (ffs_from w x k)
unfolding ffs_from
ffs_from-FirstDigit zero x k = inl (refl, λ i h. absurd (omega arith))
ffs_from-FirstDigit (suc w) x k = elim (Bool-cases (x % 2 == 1)) [
  | inl e ↦
      rw e (inr (0, omega arith, omega arith, (==_iff (x % 2) 1).0 e, λ i h. absurd (omega arith)))
  | inr e ↦
      rw e (FirstDigit-suc k w x _ (==-false (x % 2) 1 e) (ffs_from-FirstDigit w (x / 2) (k + 1)))
]

-- The digits of a block from those of its two halves.
halves_zero :
    (x p : ℕ)
    → ((i : ℕ) → i < 32 → bit (x % 2 ^ 32) i ≡ 0)
    → ((i : ℕ) → i < p → bit (x / 2 ^ 32) i ≡ 0)
    → (i : ℕ) → i < 32 + p
    → bit x i ≡ 0
halves_zero x p low high i h = elim (dec_lt i 32) [
  | yes k ↦ sym (bit-mod 32 x i k) ∙ low i k
  | no k ↦
      let e : 32 + (i - 32) ≡ i = omega arith in
      sym (ap (bit x) e) ∙ sym (bit-div 32 x (i - 32)) ∙ high (i - 32) (omega arith)
]

join_halves :
    (x lower upper r : ℕ)
    → FirstDigit 1 0 32 (x % 2 ^ 32) lower
    → FirstDigit 1 0 32 (x / 2 ^ 32) upper
    → (0 < lower → r ≡ lower)
    → (lower ≡ 0 → 0 < upper → r ≡ 32 + upper)
    → (lower ≡ 0 → upper ≡ 0 → r ≡ 0)
    → FirstDigit 1 0 64 x r
join_halves x lower upper r (inr (p, e, h, b, below)) hi c1 c2 c3 = inr (
  p,
  omega (arith, c1 (omega arith)),
  omega arith,
  sym (bit-mod 32 x p h) ∙ b,
  λ i k. sym (bit-mod 32 x i (omega arith)) ∙ below i k,
)
join_halves x lower upper r (inl (e, low)) (inr (p, e', h, b, below)) c1 c2 c3 = inr (
  32 + p,
  omega (arith, c2 e (omega arith)),
  omega arith,
  sym (bit-div 32 x p) ∙ b,
  halves_zero x p low below,
)
join_halves x lower upper r (inl (e, low)) (inl (e', high)) c1 c2 c3 =
    inl (c3 e e', λ i k. halves_zero x 32 low high i (omega (arith, k)))

-- The search for the lowest digit 1 of a block gives one above its place, or 0 where the block has
-- none.
pub find_first_set64-FirstDigit : (x : ℕ) → FirstDigit 1 0 64 x (find_first_set64 x)
unfolding find_first_set64
find_first_set64-FirstDigit x =
    join_halves x _ _ _ (ffs_from-FirstDigit 32 (x % 2 ^ 32) 0)
      (ffs_from-FirstDigit 32 (x / 2 ^ 32) 0) (λ h. ground arith) (λ h k. ground arith)
      (λ h k. ground arith)

-- One above the lowest digit 0 of a block, or 0 if the block has none.
pub find_first_clear64-FirstDigit :
    (x : ℕ) → x < 2 ^ 64 → FirstDigit 0 0 64 x (find_first_clear64 x)
unfolding find_first_clear64
find_first_clear64-FirstDigit x h = elim (find_first_set64-FirstDigit (complement64 x)) [
  | inl (e, all) ↦ inl (e, λ i k. omega (arith, bit-complement 64 x i h k, all i k))
  | inr (p, e, k, b, below) ↦ inr (
    p,
    e,
    k,
    omega (arith, bit-complement 64 x p h k, b),
    λ i l. omega (arith, bit-complement 64 x i h (omega arith), below i l),
  )
]
