-- ===== src/Common/Bits.antt =====
-- The binary digits of a native number, and the laws of `bit_and` and `bit_or` digit by digit.
use Prim.Native.Nat.{
  ℕ, zero, suc, ◌+◌, ◌-◌, ◌*◌, ◌/◌, ◌%◌, ◌^◌, ◌≤◌, ◌<◌, min, max, bit_and, bit_or, digits,
  bit_and-bitwise, bit_or-bitwise,
}
use mathlib.Core.Path.{◌≡◌, refl, ap, ◌∙◌, sym}
use mathlib.Core.Logic.{◌≢◌}
use native.Mathlib.Nat.{
  pow-suc, pow-succ', one-le-pow, div-div-eq-div-mul, mod_def, mul-div-le, div-one,
}
use native.Mathlib.Decide.{ℕ_discrete}
use native.Mathlib.Omega.{arith}

-- Both operations are `digits` with their own rule for a pair of digits and for the rest of the right
-- number; more fuel than the left number changes nothing.
module _ (rest : ℕ → ℕ) (pair : ℕ → ℕ → ℕ) where
  digits-done : (fuel right : ℕ) → digits rest pair fuel 0 right ≡ rest right
  digits-done zero right = refl
  digits-done (suc fuel) right = refl

  digits-enough :
      (left fuel more right : ℕ)
      → left ≤ fuel
      → left ≤ more
      → digits rest pair fuel left right ≡ digits rest pair more left right
  digits-enough zero fuel more right h k = digits-done fuel right ∙ sym (digits-done more right)
  digits-enough (suc left) (suc fuel) (suc more) right h k =
      ap (λ t. t * 2 + pair (suc left % 2) (right % 2))
        (digits-enough (suc left / 2) fuel more (right / 2) (omega arith) (omega arith))
  digits-enough (suc left) zero more right h k = absurd (omega arith)
  digits-enough (suc left) (suc fuel) zero right h k = absurd (omega arith)

pub zero-bit_and : (right : ℕ) → bit_and 0 right ≡ 0
zero-bit_and = bit_and-bitwise 0

pub zero-bit_or : (right : ℕ) → bit_or 0 right ≡ right
zero-bit_or = bit_or-bitwise 0

pub bit_and_step :
    (left right : ℕ)
    → bit_and left right ≡ bit_and (left / 2) (right / 2) * 2 + min (left % 2) (right % 2)
bit_and_step (suc l) right =
    let lower = bit_and-bitwise (suc l / 2) (right / 2) in
    let shorter =
      digits-enough (λ _. zero) min (suc l / 2) l (suc l / 2) (right / 2) (omega arith)
        (omega arith) in
    omega (arith, lower, shorter, bit_and-bitwise (suc l) right)
bit_and_step zero right = omega (arith, zero-bit_and (right / 2), zero-bit_and right)

pub bit_or_step :
    (left right : ℕ)
    → bit_or left right ≡ bit_or (left / 2) (right / 2) * 2 + max (left % 2) (right % 2)
bit_or_step (suc l) right =
    let lower = bit_or-bitwise (suc l / 2) (right / 2) in
    let shorter =
      digits-enough (λ r. r) max (suc l / 2) l (suc l / 2) (right / 2) (omega arith)
        (omega arith) in
    omega (arith, lower, shorter, bit_or-bitwise (suc l) right)
bit_or_step zero right = omega (arith, zero-bit_or (right / 2), zero-bit_or right)

-- The digit of `x` at place `i`, 0 or 1.
abbrev pub bit : ℕ → ℕ → ℕ
bit x zero = x % 2
bit x (suc i) = bit (x / 2) i

pub bit-le-one : (x i : ℕ) → bit x i ≤ 1
bit-le-one x zero = omega arith
bit-le-one x (suc i) = bit-le-one (x / 2) i

pub bit-zero : (i : ℕ) → bit 0 i ≡ 0
bit-zero zero = refl
bit-zero (suc i) = bit-zero i

pub bit-bit_and : (a b i : ℕ) → bit (bit_and a b) i ≡ min (bit a i) (bit b i)
bit-bit_and a b zero = omega (arith, bit_and_step a b)
bit-bit_and a b (suc i) =
    ap (λ t. bit t i) (omega (arith, bit_and_step a b)) ∙ bit-bit_and (a / 2) (b / 2) i

pub bit-bit_or : (a b i : ℕ) → bit (bit_or a b) i ≡ max (bit a i) (bit b i)
bit-bit_or a b zero = omega (arith, bit_or_step a b)
bit-bit_or a b (suc i) =
    ap (λ t. bit t i) (omega (arith, bit_or_step a b)) ∙ bit-bit_or (a / 2) (b / 2) i

pub bit-two_pow_self : (i : ℕ) → bit (2 ^ i) i ≡ 1
bit-two_pow_self zero = refl
bit-two_pow_self (suc i) = ap (λ t. bit t i) (omega (arith, pow-suc 2 i)) ∙ bit-two_pow_self i

pub bit-two_pow_ne : (i j : ℕ) → i ≢ j → bit (2 ^ i) j ≡ 0
bit-two_pow_ne zero zero h = absurd (h refl)
bit-two_pow_ne zero (suc j) h = bit-zero j
bit-two_pow_ne (suc i) zero h = omega (arith, pow-suc 2 i)
bit-two_pow_ne (suc i) (suc j) h =
    ap (λ t. bit t j) (omega (arith, pow-suc 2 i)) ∙ bit-two_pow_ne i j (λ e. h (ap suc e))

-- Flipping the low `w` digits.
pub bit-complement : (w x i : ℕ) → x < 2 ^ w → i < w → bit (2 ^ w - 1 - x) i + bit x i ≡ 1
bit-complement zero x i h k = absurd (omega arith)
bit-complement (suc w) x zero h k = omega (arith, pow-suc 2 w, one-le-pow w 2)
bit-complement (suc w) x (suc i) h k =
    let e : (2 ^ suc w - 1 - x) / 2 ≡ 2 ^ w - 1 - x / 2 =
      omega (arith, pow-suc 2 w, one-le-pow w 2) in
    omega (
      arith,
      ap (λ t. bit t i) e,
      bit-complement w (x / 2) i (omega (arith, pow-suc 2 w)) (omega arith),
    )

-- Digits beyond the width are 0, and the digits within it determine the number.
pub bit_above : (w x i : ℕ) → x < 2 ^ w → w ≤ i → bit x i ≡ 0
bit_above zero x i h k = let e : x ≡ 0 = omega arith in ap (λ t. bit t i) e ∙ bit-zero i
bit_above (suc w) x zero h k = absurd (omega arith)
bit_above (suc w) x (suc i) h k = bit_above w (x / 2) i (omega (arith, pow-suc 2 w)) (omega arith)

pub eq_of_bits : (w x y : ℕ) → x < 2 ^ w → y < 2 ^ w → ((i : ℕ) → i < w → bit x i ≡ bit y i) → x ≡ y
eq_of_bits zero x y hx hy h = omega arith
eq_of_bits (suc w) x y hx hy h =
    let low : x % 2 ≡ y % 2 = h 0 (omega arith) in
    omega (
      arith,
      low,
      eq_of_bits w (x / 2) (y / 2) (omega (arith, pow-suc 2 w)) (omega (arith, pow-suc 2 w))
          (λ i k. h (suc i) (omega arith)),
    )

-- A number with no digit 1 is 0.
pub zero_of_bits : (w x : ℕ) → x < 2 ^ w → ((i : ℕ) → i < w → bit x i ≡ 0) → x ≡ 0
zero_of_bits w x hx h =
    eq_of_bits w x 0 hx (omega (arith, one-le-pow w 2)) (λ i k. h i k ∙ sym (bit-zero i))

pub bit_and-lt : (w a b : ℕ) → a < 2 ^ w → bit_and a b < 2 ^ w
bit_and-lt zero a b h =
    let e : a ≡ 0 = omega arith in omega (arith, ap (λ t. bit_and t b) e, zero-bit_and b)
bit_and-lt (suc w) a b h = omega (
  arith,
  bit_and_step a b,
  pow-suc 2 w,
  bit_and-lt w (a / 2) (b / 2) (omega (arith, pow-suc 2 w)),
)

pub bit_or-lt : (w a b : ℕ) → a < 2 ^ w → b < 2 ^ w → bit_or a b < 2 ^ w
bit_or-lt zero a b h k =
    let e : a ≡ 0 = omega arith in omega (arith, ap (λ t. bit_or t b) e, zero-bit_or b)
bit_or-lt (suc w) a b h k = omega (
  arith,
  bit_or_step a b,
  pow-suc 2 w,
  bit_or-lt w (a / 2) (b / 2) (omega (arith, pow-suc 2 w)) (omega (arith, pow-suc 2 w)),
)

bit_and-le_right : (bound left right : ℕ) → left ≤ bound → bit_and left right ≤ right
bit_and-le_right (suc bound) (suc left) right h =
    let higher = bit_and-le_right bound (suc left / 2) (right / 2) (omega arith) in
    omega (arith, higher, bit_and_step (suc left) right)
bit_and-le_right bound zero right h = omega (arith, zero-bit_and right)
bit_and-le_right zero (suc left) right h = absurd (omega arith)

pub bit_and-zero : (left : ℕ) → bit_and left 0 ≡ 0
bit_and-zero left = omega (arith, bit_and-le_right left left 0 (omega arith))

-- Masking one digit.
pub bit_and-two_pow : (x i : ℕ) → bit_and x (2 ^ i) ≡ bit x i * 2 ^ i
bit_and-two_pow x zero = omega (arith, bit_and_step x 1, bit_and-zero (x / 2))
bit_and-two_pow x (suc i) = omega (
  arith,
  bit_and_step x (2 ^ suc i),
  pow-suc 2 i,
  ap (λ (t : ℕ). bit_and (x / 2) t) (halve i),
  bit_and-two_pow (x / 2) i,
  ap (λ (t : ℕ). bit (x / 2) i * t) (pow-suc 2 i),
)
  where
    halve : (i : ℕ) → 2 ^ suc i / 2 ≡ 2 ^ i
    halve i = omega (arith, pow-suc 2 i)

-- Digits of a shifted and of a truncated number.
div-two_pow-suc : (w x : ℕ) → x / 2 ^ suc w ≡ x / 2 / 2 ^ w
div-two_pow-suc w x = rw (pow-succ' 2 w) (sym (div-div-eq-div-mul x 2 (2 ^ w)))

mod-two_pow-suc : (w x : ℕ) → x % 2 ^ suc w ≡ x / 2 % 2 ^ w * 2 + x % 2
mod-two_pow-suc w x = omega (
  arith,
  mod_def x (2 ^ suc w),
  mod_def (x / 2) (2 ^ w),
  mul-div-le (x / 2) (2 ^ w),
  ap (λ (t : ℕ). 2 ^ suc w * t) (div-two_pow-suc w x),
  ap (λ (t : ℕ). t * (x / 2 / 2 ^ w)) (pow-succ' 2 w),
)

pub bit-div : (w x i : ℕ) → bit (x / 2 ^ w) i ≡ bit x (w + i)
bit-div zero x i =
    let e : 0 + i ≡ i = omega arith in ap (λ t. bit t i) (div-one x) ∙ sym (ap (bit x) e)
bit-div (suc w) x i =
    let e : suc w + i ≡ suc (w + i) = omega arith in
    ap (λ t. bit t i) (div-two_pow-suc w x) ∙ bit-div w (x / 2) i ∙ sym (ap (bit x) e)

pub bit-mod : (w x i : ℕ) → i < w → bit (x % 2 ^ w) i ≡ bit x i
bit-mod zero x i h = absurd (omega arith)
bit-mod (suc w) x zero h = omega (arith, mod-two_pow-suc w x)
bit-mod (suc w) x (suc i) h =
    ap (λ t. bit t i) (omega (arith, mod-two_pow-suc w x)) ∙ bit-mod w (x / 2) i (omega arith)

-- A mask that is shifted by `k`, and a mask of `w` ones.
pub bit_and_shifted : (k m x : ℕ) → bit_and x (m * 2 ^ k) ≡ bit_and (x / 2 ^ k) m * 2 ^ k
bit_and_shifted zero m x =
    let e : m * 2 ^ 0 ≡ m = omega arith in
    omega (arith, ap (bit_and x) e, ap (λ (t : ℕ). bit_and t m) (div-one x))
bit_and_shifted (suc k) m x =
    let double : m * 2 ^ suc k ≡ 2 * (m * 2 ^ k) =
      omega (arith, ap (λ (t : ℕ). m * t) (pow-succ' 2 k)) in
    let half : m * 2 ^ suc k / 2 ≡ m * 2 ^ k = omega arith in
    omega (
      arith,
      bit_and_step x (m * 2 ^ suc k),
      ap (bit_and (x / 2)) half,
      bit_and_shifted k m (x / 2),
      ap (λ (t : ℕ). bit_and t m * 2 ^ suc k) (div-two_pow-suc k x),
      ap (λ (t : ℕ). bit_and (x / 2 / 2 ^ k) m * t) (pow-succ' 2 k),
    )

pub bit_and_self : (w x : ℕ) → x < 2 ^ w → bit_and x x ≡ x
bit_and_self w x h =
    eq_of_bits w (bit_and x x) x (bit_and-lt w x x h) h (λ i k. omega (arith, bit-bit_and x x i))

pub bit_and-ones : (w x : ℕ) → x < 2 ^ w → bit_and x (2 ^ w - 1) ≡ x
bit_and-ones zero x h = omega (arith, bit_and-zero x)
bit_and-ones (suc w) x h =
    let half : (2 ^ suc w - 1) / 2 ≡ 2 ^ w - 1 = omega (arith, pow-succ' 2 w, one-le-pow w 2) in
    omega (
      arith,
      bit_and_step x (2 ^ suc w - 1),
      ap (bit_and (x / 2)) half,
      bit_and-ones w (x / 2) (omega (arith, pow-succ' 2 w)),
      pow-succ' 2 w,
      one-le-pow w 2,
    )

-- The highest digit 1 of a number between two powers.
pub bit_top : (p x : ℕ) → 2 ^ p ≤ x → x < 2 ^ suc p → bit x p ≡ 1
bit_top zero x h k = omega arith
bit_top (suc p) x h k =
    bit_top p (x / 2) (omega (arith, pow-succ' 2 p)) (omega (arith, pow-succ' 2 (suc p)))

pub two_pow-add : (m n : ℕ) → 2 ^ (m + n) ≡ 2 ^ m * 2 ^ n
two_pow-add zero n = let e : 0 + n ≡ n = omega arith in omega (arith, ap (λ (t : ℕ). 2 ^ t) e)
two_pow-add (suc m) n =
    let e : suc m + n ≡ suc (m + n) = omega arith in
    omega (
      arith,
      ap (λ (t : ℕ). 2 ^ t) e,
      pow-succ' 2 (m + n),
      two_pow-add m n,
      ap (λ (t : ℕ). t * 2 ^ n) (pow-succ' 2 m),
    )

pub le_of_scaled : (x y n : ℕ) → x * 2 ^ n ≤ y * 2 ^ n → x ≤ y
le_of_scaled x y zero h = omega arith
le_of_scaled x y (suc n) h =
    le_of_scaled x y n
      (omega (arith, ap (λ (t : ℕ). x * t) (pow-succ' 2 n), ap (λ (t : ℕ). y * t) (pow-succ' 2 n)))

pub lt_of_scaled : (x y n : ℕ) → x * 2 ^ n < y * 2 ^ n → x < y
lt_of_scaled x y zero h = omega arith
lt_of_scaled x y (suc n) h =
    lt_of_scaled x y n
      (omega (arith, ap (λ (t : ℕ). x * t) (pow-succ' 2 n), ap (λ (t : ℕ). y * t) (pow-succ' 2 n)))

pub scaled_lt : (x y n : ℕ) → x < y → x * 2 ^ n < y * 2 ^ n
scaled_lt x y zero h = omega arith
scaled_lt x y (suc n) h = omega (
  arith,
  scaled_lt x y n h,
  ap (λ (t : ℕ). x * t) (pow-succ' 2 n),
  ap (λ (t : ℕ). y * t) (pow-succ' 2 n),
)

bit_or-zero_fuel : (n a : ℕ) → a ≤ n → bit_or a 0 ≡ a
bit_or-zero_fuel n zero h = refl
bit_or-zero_fuel zero (suc a) h = absurd (omega arith)
bit_or-zero_fuel (suc n) (suc a) h =
    omega (arith, bit_or_step (suc a) 0, bit_or-zero_fuel n (suc a / 2) (omega arith))

pub bit_or-zero : (a : ℕ) → bit_or a 0 ≡ a
bit_or-zero a = bit_or-zero_fuel a a (omega arith)

pub ne_zero_of_bit : (x i : ℕ) → bit x i ≡ 1 → x ≢ 0
ne_zero_of_bit x i h e = omega (arith, ap (λ t. bit t i) e, bit-zero i)

pub le-bit_or_left : (w x y : ℕ) → x < 2 ^ w → x ≤ bit_or x y
le-bit_or_left zero x y h = omega arith
le-bit_or_left (suc w) x y h =
    omega (arith, bit_or_step x y, le-bit_or_left w (x / 2) (y / 2) (omega (arith, pow-suc 2 w)))

pub le-bit_or_right : (w x y : ℕ) → y < 2 ^ w → y ≤ bit_or x y
le-bit_or_right zero x y h = omega arith
le-bit_or_right (suc w) x y h =
    omega (arith, bit_or_step x y, le-bit_or_right w (x / 2) (y / 2) (omega (arith, pow-suc 2 w)))

-- A number that is not 0 has a digit 1.
pub digit_of_ne_zero : (w x : ℕ) → x < 2 ^ w → x ≢ 0 → (i : ℕ) × (i < w) × (bit x i ≡ 1)
digit_of_ne_zero zero x h ne = absurd (omega arith)
digit_of_ne_zero (suc w) x h ne = elim (ℕ_discrete (x % 2) 1) [
  | yes e ↦ (0, omega arith, e)
  | no even ↦
      let (i, k, e) = digit_of_ne_zero w (x / 2) (omega (arith, pow-suc 2 w)) (omega arith) in
      (suc i, omega arith, e)
]
