-- ===== src/Common/Stores.antt =====
-- Functions of numbers as stores.
use Prim.Native.Nat.{ℕ}
use mathlib.Core.Path.{◌≡◌, sym, subst}
use mathlib.Core.Logic.{◌≢◌, inl, inr}
use native.Mathlib.Omega.{arith}
use tf_common.Common.Tests.{if◌then◌else◌, ◌==◌, ==-false, Bool-cases}

abbrev pub put {ℓ} : {A : Type ℓ} → (ℕ → A) → ℕ → A → ℕ → A
put f n a m = if m == n then a else f m

pub put-cases :
    {A : Type 0} (P : A → Type 0) (f : ℕ → A) (n : ℕ) (a : A) (m : ℕ)
    → (m ≡ n → P a)
    → (m ≢ n → P (f m))
    → P (put f n a m)
put-cases P f n a m here there = elim (Bool-cases (m == n)) [
  | inl e ↦
      let same : m ≡ n = ground arith in subst (λ b. P (if b then a else f m)) (sym e) (here same)
  | inr e ↦ subst (λ b. P (if b then a else f m)) (sym e) (there (==-false m n e))
]
