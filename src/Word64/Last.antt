-- ===== src/Word64/Last.antt =====
-- What `find_last_set64` finds.
use tf_common.Common.{
  ℕ, zero, suc, ◌+◌, ◌-◌, ◌*◌, ◌/◌, ◌%◌, ◌^◌, ◌≤◌, ◌<◌, bit_and, ◌≡◌, ◌≢◌, refl, ap, sym, ◌∙◌, ◌⊎◌,
  inl, inr, arith, Bool-cases, ◌==◌, ==_iff, ==-false,
}
use tf_common.Common.Bits.{
  bit_and_shifted, bit_and-ones, two_pow-add, le_of_scaled, lt_of_scaled, scaled_lt,
}
use tf_common.Word64.{narrow, find_last_set32, find_last_set64}
use native.Mathlib.Decide.{dec_lt}
use native.Mathlib.Nat.{
  mod-eq_of_lt, one-le-pow, div-eq_of_lt, div-lt_iff_lt-mul, le-div_iff_mul-le,
}

-- What the narrowing steps keep of `x`: the value is `x` shifted left until it reaches 2 ^ `low`.
record Narrowed (x low least : ℕ) (vb : ℕ × ℕ) : Type 0 where
  pub s : ℕ
  pub shifted : vb.0 ≡ x * 2 ^ s
  pub places : vb.1 + s ≡ 32
  pub enough : least ≤ vb.1
  pub above : 2 ^ low ≤ vb.0
  pub fits : vb.0 < 2 ^ 32

module _ (x low least k w mask value b : ℕ) (w_k : w + k ≡ 32) (low_k : low + k ≡ w)
    (k_least : k ≤ least) where
  keep_places :
      bit_and value mask ≡ value / 2 ^ w * 2 ^ w
      → bit_and value mask ≢ 0
      → Narrowed x low least (value, b)
      → Narrowed x w (least - k) (value, b)
  keep_places m ne n = record {
    s = n.s;
    shifted = n.shifted;
    places = n.places;
    enough = omega (arith, n.enough);
    above = elim (dec_lt value (2 ^ w)) [
      | yes h ↦ absurd (ne (omega (arith, m, ap (λ (t : ℕ). t * 2 ^ w) (div-eq_of_lt h))))
      | no h ↦ omega arith
    ];
    fits = n.fits;
  }

  shift_places :
      value < 2 ^ w
      → Narrowed x low least (value, b)
      → Narrowed x w (least - k) (value * 2 ^ k % 2 ^ 32, b - k)
  shift_places h n =
      let whole : 2 ^ w * 2 ^ k ≡ 2 ^ 32 = sym (two_pow-add w k) ∙ ap (λ (t : ℕ). 2 ^ t) w_k in
      let fits : value * 2 ^ k < 2 ^ 32 = omega (arith, scaled_lt value (2 ^ w) k h) in
      let same : value * 2 ^ k % 2 ^ 32 ≡ value * 2 ^ k = mod-eq_of_lt fits in
      let reached : 2 ^ w ≡ 2 ^ low * 2 ^ k =
        ap (λ (t : ℕ). 2 ^ t) (sym low_k) ∙ two_pow-add low k in
      record {
        s = n.s + k;
        shifted = omega (
          arith,
          same,
          ap (λ (t : ℕ). t * 2 ^ k) n.shifted,
          ap (λ (t : ℕ). x * t) (two_pow-add n.s k),
        );
        places = omega (arith, n.places, n.enough);
        enough = omega (arith, n.enough);
        above = elim (dec_lt (value * 2 ^ k) (2 ^ low * 2 ^ k)) [
          | yes l ↦ absurd (omega (arith, lt_of_scaled value (2 ^ low) k l, n.above))
          | no l ↦ omega arith
        ];
        fits = omega arith;
      }

below_of_masked : (value w : ℕ) → value / 2 ^ w * 2 ^ w ≡ 0 → value < 2 ^ w
below_of_masked value w e = elim (dec_lt value (2 ^ w)) [
  | yes h ↦ h
  | no h ↦
      let one_up : 1 ≤ value / 2 ^ w =
        (le-div_iff_mul-le (one-le-pow w 2 (omega arith))).1 (omega arith) in
      absurd (omega (arith, scaled_lt 0 (value / 2 ^ w) w one_up))
]

narrow-Narrowed :
    (x low least k w mask value b : ℕ)
    → w + k ≡ 32
    → low + k ≡ w
    → k ≤ least
    → mask ≡ (2 ^ k - 1) * 2 ^ w
    → Narrowed x low least (value, b)
    → Narrowed x w (least - k) (narrow mask k (value, b))
unfolding narrow
narrow-Narrowed x low least k w mask value b wk lk kl e n =
    let whole : 2 ^ k * 2 ^ w ≡ 2 ^ 32 =
      sym (two_pow-add k w) ∙ ap (λ (t : ℕ). 2 ^ t) {y = 32} (omega arith) in
    let high : value / 2 ^ w < 2 ^ k =
      (div-lt_iff_lt-mul (one-le-pow w 2 (omega arith))).1 (omega (arith, n.fits)) in
    let masked : bit_and value mask ≡ value / 2 ^ w * 2 ^ w =
      ap (bit_and value) e
      ∙ bit_and_shifted w (2 ^ k - 1) value
      ∙ ap (λ (t : ℕ). t * 2 ^ w) (bit_and-ones k (value / 2 ^ w) high) in
    elim (Bool-cases (bit_and value mask == 0)) [
      | inl z ↦
          let none_set : bit_and value mask ≡ 0 = (==_iff _ 0).0 z in
          rw z (
            shift_places x low least k w mask value b wk lk kl
              (below_of_masked value w (omega arith)) n)
      | inr z ↦ rw z (keep_places x low least k w mask value b wk lk kl masked (==-false _ 0 z) n)
    ]

-- `r` is one above the place of the highest digit 1 of `x` below `w`, or 0 if there is none.
abbrev pub LastSet : ℕ → ℕ → ℕ → Type 0
LastSet w x r =
    ((r ≡ 0) × (x ≡ 0)) ⊎ ((p : ℕ) × (r ≡ suc p) × (p < w) × (2 ^ p ≤ x) × (x < 2 ^ suc p))

Narrowed-LastSet : (x : ℕ) (vb : ℕ × ℕ) → Narrowed x 31 1 vb → LastSet 32 x vb.1
Narrowed-LastSet x (v, zero) n = absurd (omega (arith, n.enough))
Narrowed-LastSet x (v, suc p) n = inr (
  p,
  refl,
  omega (arith, n.places),
  le_of_scaled (2 ^ p) x n.s (
      omega (
        arith,
        two_pow-add p n.s,
        n.above,
        n.shifted,
        ap (λ (t : ℕ). 2 ^ t) {x = p + n.s} {y = 31} (omega (arith, n.places)),
      )),
  lt_of_scaled x (2 ^ suc p) n.s (
      omega (
        arith,
        two_pow-add (suc p) n.s,
        n.fits,
        n.shifted,
        ap (λ (t : ℕ). 2 ^ t) {x = suc p + n.s} {y = 32} n.places,
      )),
)

narrow_pair :
    (x low least k w mask : ℕ) (vb : ℕ × ℕ)
    → w + k ≡ 32
    → low + k ≡ w
    → k ≤ least
    → mask ≡ (2 ^ k - 1) * 2 ^ w
    → Narrowed x low least vb
    → Narrowed x w (least - k) (narrow mask k vb)
narrow_pair x low least k w mask (value, b) = narrow-Narrowed x low least k w mask value b

find_last_set32-LastSet : (x : ℕ) → x < 2 ^ 32 → LastSet 32 x (find_last_set32 x)
unfolding find_last_set32
find_last_set32-LastSet x h = elim (Bool-cases (x == 0)) [
  | inl e ↦ rw e (inl (refl, (==_iff x 0).0 e))
  | inr e ↦ rw e (Narrowed-LastSet x _ (all (==-false x 0 e)))
]
  where
    start : x ≢ 0 → Narrowed x 0 32 (x, 32)
    start ne = record {
      s = 0;
      shifted = omega arith;
      places = refl;
      enough = omega arith;
      above = omega arith;
      fits = h;
    }

    all :
        x ≢ 0
        → Narrowed x 31 1 (
            narrow 0x80000000 1 (
              narrow 0xC0000000 2
                (narrow 0xF0000000 4 (narrow 0xFF000000 8 (narrow 0xFFFF0000 16 (x, 32))))))
    all ne = narrow_pair x 30 2 1 31 _ _ refl refl (omega arith) refl (
        narrow_pair x 28 4 2 30 _ _ refl refl (omega arith) refl (
          narrow_pair x 24 8 4 28 _ _ refl refl (omega arith) refl (
            narrow_pair x 16 16 8 24 _ _ refl refl (omega arith) refl
              (narrow_pair x 0 32 16 16 _ _ refl refl (omega arith) refl (start ne)))))

-- For a block below 2^64, the search for the highest digit 1 gives one above its place, or 0 for
-- the block 0.
pub find_last_set64-LastSet : (x : ℕ) → x < 2 ^ 64 → LastSet 64 x (find_last_set64 x)
unfolding find_last_set64
find_last_set64-LastSet x h =
    join (find_last_set32-LastSet (x / 2 ^ 32) (omega arith))
      (find_last_set32-LastSet (x % 2 ^ 32) (omega arith))
  where
    join :
        LastSet 32 (x / 2 ^ 32) (find_last_set32 (x / 2 ^ 32))
        → LastSet 32 (x % 2 ^ 32) (find_last_set32 (x % 2 ^ 32))
        → LastSet 64 x (find_last_set64 x)
    join (inr (p, e, k, l, u)) lower = inr (
      32 + p,
      ground (arith, e),
      omega arith,
      omega (arith, two_pow-add 32 p, l),
      omega (
        arith,
        two_pow-add 32 (suc p),
        ap (λ (t : ℕ). 2 ^ t) {x = 32 + suc p} {y = suc (32 + p)} (omega arith),
        u,
      ),
    )
    join (inl (e, z)) (inr (p, f, k, l, u)) =
        let small : x % 2 ^ 32 ≡ x = omega arith in
        inr (p, ground (arith, e, f), omega arith, omega (arith, l), omega (arith, u))
    join (inl (e, z)) (inl (f, y)) = inl (ground (arith, e, f), omega arith)
