-- ===== src/SandeshClientSm/Collectors.antt =====
-- The collectors of a client: the index stays in the list, and each collector has its turn.
use native.Mathlib.Nat.{mod-eq_of_lt, mod_self, mod-lt, mod-add-mod}
use tf_common.Common.{
  ℕ, zero, suc, ◌+◌, ◌-◌, ◌%◌, ◌^◌, ◌≤◌, ◌<◌, ◌≡◌, refl, sym, ap, ◌∙◌, inl, inr, false, List,
  if◌then◌else◌, arith, Bool-cases, ◌==◌, ==_iff, length, get_or, min,
}
use tf_common.SandeshClientSm.{
  SmState, SandeshClientSm, next_index, get_next_collector, collector_update, collector_change,
  set_server, get_connect_time,
}
use tf_common.SandeshClientSm.Valid.{Ready}

next_index-lt :
    (m : SandeshClientSm)
    → m.collector_index < length m.collectors
    → next_index m < length m.collectors
unfolding next_index
next_index-lt m h = ground arith

pub collector_update-Ready :
    (from : SmState) (cs : List ℕ) (m : SandeshClientSm)
    → Ready from m
    → Ready from ((collector_update cs m).1)
unfolding collector_update set_server
collector_update-Ready from cs m r = record {
  hold = r.hold;
  timer = r.timer;
  index = λ some_listed. ground arith;
}

pub collector_change-Ready :
    (from : SmState) (m : SandeshClientSm) → Ready from m → Ready from ((collector_change m).1)
unfolding collector_change set_server get_next_collector
collector_change-Ready from m r = record {
  hold = r.hold;
  timer = r.timer;
  index = λ some_listed. elim (Bool-cases (length m.collectors == 0)) [
    | inl y ↦ absurd (some_listed ((==_iff (length m.collectors) 0).0 y))
    | inr n ↦ rw n (next_index-lt m (r.index some_listed))
  ];
}

next_index_lem :
    (m : SandeshClientSm)
    → m.collector_index < length m.collectors
    → next_index m ≡ (m.collector_index + 1) % length m.collectors
unfolding next_index
next_index_lem m h = elim (Bool-cases (m.collector_index + 1 == length m.collectors)) [
  | inl y ↦
      let last : m.collector_index + 1 ≡ length m.collectors =
        (==_iff (m.collector_index + 1) (length m.collectors)).0 y in
      rw (y, last) (sym (mod_self (length m.collectors)))
  | inr n ↦ rw n (sym (mod-eq_of_lt (ground arith)))
]

-- The collectors stay, and the server is the one that follows, round the list.
pub Moved : ℕ → SandeshClientSm → SandeshClientSm → Type 0
Moved n m m' =
    (m'.collectors ≡ m.collectors)
    × (m'.collector_index ≡ (m.collector_index + n) % length m.collectors)
    × (m'.server ≡ get_or m.collectors ((m.collector_index + n) % length m.collectors) 0)

collector_change-Moved :
    (m : SandeshClientSm)
    → m.collector_index < length m.collectors
    → Moved 1 m ((collector_change m).1)
unfolding collector_change set_server get_next_collector Moved
collector_change-Moved m h =
    let some_listed : (length m.collectors == 0) ≡ false = ground arith in
    (
      refl,
      rw some_listed (next_index_lem m h),
      rw some_listed (ap (λ i. get_or m.collectors i 0) (next_index_lem m h)),
    )

-- The machine after a number of changes of the collector.
pub change_times : ℕ → SandeshClientSm → SandeshClientSm
change_times zero m = m
change_times (suc n) m = (collector_change (change_times n m)).1

turn : (i n l : ℕ) → ((i + n) % l + 1) % l ≡ (i + suc n) % l
turn i n l = mod-add-mod (i + n) l 1 ∙ ap (λ k. k % l) (omega arith)

in_list :
    (n : ℕ) (m : SandeshClientSm)
    → m.collector_index < length m.collectors
    → ((change_times n m).collectors ≡ m.collectors)
      × ((change_times n m).collector_index ≡ (m.collector_index + n) % length m.collectors)
unfolding change_times Moved
in_list zero m h = (
  refl,
  let plus : m.collector_index + 0 ≡ m.collector_index = omega arith in
      sym (ap (λ k. k % length m.collectors) plus ∙ mod-eq_of_lt h),
)
in_list (suc n) m h =
    let (same, at) = in_list n m h in
    let bound : (change_times n m).collector_index < length (change_times n m).collectors =
      rw (at, same) (mod-lt (m.collector_index + n) (omega arith)) in
    let (same', at', _) = collector_change-Moved (change_times n m) bound in
    (same' ∙ same, at' ∙ rw (at, same) (turn m.collector_index n (length m.collectors)))

-- For an index in the list of collectors, a number of changes of the collector, at least one,
-- leads to the server that is this number further on, round the list, with the list unchanged.
pub change_times-Moved :
    (n : ℕ) (m : SandeshClientSm)
    → m.collector_index < length m.collectors
    → Moved (suc n) m (change_times (suc n) m)
unfolding change_times Moved
change_times-Moved n m h =
    let (same, at) = in_list n m h in
    let bound : (change_times n m).collector_index < length (change_times n m).collectors =
      rw (at, same) (mod-lt (m.collector_index + n) (omega arith)) in
    let (_, _, server) = collector_change-Moved (change_times n m) bound in
    let (same', at') = in_list (suc n) m h in
    (
      same',
      at',
      server
          ∙ rw (at, same)
              (ap (λ i. get_or m.collectors i 0) (turn m.collector_index n (length m.collectors))),
    )

backoff_bound :
    (b : ℕ)
    → b ≤ 6
    → (min (if b == 0 then 0 else 2 ^ (b - 1)) 30 ≤ 30)
      × (0 < b → 0 < min (if b == 0 then 0 else 2 ^ (b - 1)) 30)
backoff_bound zero h = (omega arith, λ k. k)
backoff_bound (suc zero) h = (omega arith, λ k. omega arith)
backoff_bound (suc (suc zero)) h = (omega arith, λ k. omega arith)
backoff_bound (suc (suc (suc zero))) h = (omega arith, λ k. omega arith)
backoff_bound (suc (suc (suc (suc zero)))) h = (omega arith, λ k. omega arith)
backoff_bound (suc (suc (suc (suc (suc zero))))) h = (omega arith, λ k. omega arith)
backoff_bound (suc (suc (suc (suc (suc (suc zero)))))) h = (omega arith, λ k. omega arith)
backoff_bound (suc (suc (suc (suc (suc (suc (suc b))))))) h = absurd (omega arith)

-- The time to connect is at most 30 seconds, and not 0 after a first attempt.
pub get_connect_time_bound :
    (m : SandeshClientSm) → (get_connect_time m ≤ 30) × (0 < m.attempts → 0 < get_connect_time m)
unfolding get_connect_time
get_connect_time_bound m =
    let b = backoff_bound (min m.attempts 6) (omega arith) in (b.0, λ h. b.1 (omega arith))
