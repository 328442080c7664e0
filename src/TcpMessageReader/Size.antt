-- ===== src/TcpMessageReader/Size.antt =====
-- The size of a buffer that the reader allocates, and its doubling as an `int`.
use tf_common.Common.{
  ℕ, zero, suc, ◌+◌, ◌*◌, ◌%◌, ◌^◌, ◌≤◌, ◌<◌, ◌≡◌, refl, ◌⊎◌, inl, inr, some, false, ltb, ◌&&◌,
  arith, Bool-cases, leb,
}
use tf_common.TcpMessageReader.{alloc_buffer_size, double_up_to, double_int, is_less_int}

-- The least size, or less than twice the largest message and less than twice this message.
abbrev pub IsSize : ℕ → ℕ → ℕ → Type 0
IsSize max n size = (size ≡ 2 ^ 8) ⊎ ((size < 2 * max) × (size < 2 * n))

double_up_to-IsSize :
    (fuel max n size : ℕ) → IsSize max n size → IsSize max n (double_up_to fuel max n size)
unfolding double_up_to
double_up_to-IsSize zero max n size h = h
double_up_to-IsSize (suc fuel) max n size h = elim (Bool-cases (ltb size max && ltb size n)) [
  | inl e ↦
      let below : size * 2 < 2 * max = ground arith in
      let below' : size * 2 < 2 * n = ground arith in
      rw e (double_up_to-IsSize fuel max n (size * 2) (inr (below, below')))
  | inr e ↦ rw e h
]

-- With enough fuel the loop ends where its condition fails.
double_up_to_end :
    (fuel max n size : ℕ)
    → 0 < size
    → n ≤ fuel + size
    → (max ≤ double_up_to fuel max n size) ⊎ (n ≤ double_up_to fuel max n size)
unfolding double_up_to
double_up_to_end zero max n size p h = inr (omega arith)
double_up_to_end (suc fuel) max n size p h = elim (Bool-cases (ltb size max && ltb size n)) [
  | inl e ↦ rw e (double_up_to_end fuel max n (size * 2) (omega arith) (omega arith))
  | inr e ↦
      rw e (elim (Bool-cases (ltb size max)) [
        | inl y ↦ inr (ground arith)
        | inr k ↦ inl (ground arith)
      ])
]

-- As long as the size is positive and below 2^31, the test on it is the one on numbers.
is_less_int_lem : (size n : ℕ) → size < 2 ^ 31 → is_less_int size n ≡ ltb size n
unfolding is_less_int
is_less_int_lem size n h =
    let positive : leb (2 ^ 31) size ≡ false = ground arith in rw positive refl

double_int_lem :
    (fuel max n size : ℕ)
    → max ≤ 2 ^ 30
    → size < 2 ^ 31
    → double_int fuel max n size ≡ double_up_to fuel max n size
unfolding double_int double_up_to
double_int_lem zero max n size h k = refl
double_int_lem (suc fuel) max n size h k =
    rw (is_less_int_lem size max k, is_less_int_lem size n k)
      (elim (Bool-cases (ltb size max && ltb size n)) [
        | inl e ↦
            let below : size * 2 < 2 ^ 31 = ground arith in
            let exact : size * 2 % 2 ^ 32 ≡ size * 2 = omega arith in
            rw (e, exact) (double_int_lem fuel max n (size * 2) h below)
        | inr e ↦ rw e refl
      ])

-- Where the largest size is at most 2^30, the doubling as a 32 bit int, for a message of any
-- length, gives the size that the reader allocates. That size reaches the largest size or the
-- length of the message, and it is 256, or less than twice the largest size and less than twice
-- the length.
pub alloc_buffer_size_lem :
    (max n : ℕ)
    → max ≤ 2 ^ 30
    → (double_int n max n (2 ^ 8) ≡ alloc_buffer_size max (some n))
      × ((max ≤ alloc_buffer_size max (some n)) ⊎ (n ≤ alloc_buffer_size max (some n)))
      × IsSize max n (alloc_buffer_size max (some n))
unfolding alloc_buffer_size
alloc_buffer_size_lem max n h = (
  double_int_lem n max n (2 ^ 8) h (omega arith),
  double_up_to_end n max n (2 ^ 8) (omega arith) (omega arith),
  double_up_to-IsSize n max n (2 ^ 8) (inl refl),
)
