-- ===== src/Word64.antt =====
-- The static helpers of base/bitset.cc on one 64 bit block. A `uint64_t` is a number below 2 ^ 64
-- and an `int` that only `ffs` or `find_last_set32` reads is its 32 bit pattern.
pub mod First
pub mod Last
pub mod Count
use tf_common.Common.{
  ℕ, zero, suc, ◌+◌, ◌-◌, ◌*◌, ◌/◌, ◌%◌, ◌^◌, bit_and, Bool, if◌then◌else◌, ltb, ◌==◌, ◌!=◌,
}

-- `~value` of a `uint64_t`.
abbrev pub complement64 : ℕ → ℕ
complement64 value = 2 ^ 64 - 1 - value

-- The C library's `ffs`: the place of the lowest digit 1 among `w` digits, counted from `i + 1`,
-- and 0 if there is none.
pub ffs_from : ℕ → ℕ → ℕ → ℕ
ffs_from zero x i = 0
ffs_from (suc w) x i = if x % 2 == 1 then i + 1 else ffs_from w (x / 2) (i + 1)

abbrev pub ffs : ℕ → ℕ
ffs x = ffs_from 32 x 0

unfoldable pub find_first_set64 : ℕ → ℕ
find_first_set64 value =
    let bit = ffs (value % 2 ^ 32) in
    if ltb 0 bit then bit else (let bit = ffs (value / 2 ^ 32) in if ltb 0 bit then 32 + bit else 0)

unfoldable pub find_first_clear64 : ℕ → ℕ
find_first_clear64 value = find_first_set64 (complement64 value)

-- One narrowing step: when the digits under `mask` are 0, shift left by `k` and lower `bit` by `k`.
pub narrow : ℕ → ℕ → ℕ × ℕ → ℕ × ℕ
narrow mask k (value, bit) =
    if bit_and value mask == 0 then (value * 2 ^ k % 2 ^ 32, bit - k) else (value, bit)

unfoldable pub find_last_set32 : ℕ → ℕ
find_last_set32 value =
    if value == 0
    then 0
    else (narrow 0x80000000 1 (
        narrow 0xC0000000 2
          (narrow 0xF0000000 4 (narrow 0xFF000000 8 (narrow 0xFFFF0000 16 (value, 32)))))).1

unfoldable pub find_last_set64 : ℕ → ℕ
find_last_set64 value =
    let bit = find_last_set32 (value / 2 ^ 32) in
    if ltb 0 bit
    then 32 + bit
    else (let bit = find_last_set32 (value % 2 ^ 32) in if ltb 0 bit then bit else 0)

-- The loop of `num_bits_set`, on fuel.
pub num_bits_loop : ℕ → ℕ → ℕ → ℕ
num_bits_loop zero value count = count
num_bits_loop (suc fuel) value count =
    let rest = num_bits_loop fuel (bit_and value (value - 1)) (count + 1) in
    if value != 0 then rest else count

-- A block has 64 digits, so that 64 rounds are enough.
unfoldable pub num_bits_set : ℕ → ℕ
num_bits_set value = num_bits_loop 64 value 0
