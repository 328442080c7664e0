-- ===== src/SandeshClientSm/Valid.antt =====
-- The state graph and the invariant of the client's machine, and how its transitions keep them.
use tf_common.Common.{ℕ, ◌<◌, ◌≡◌, ◌≢◌, Bool, true, false, Option, none, some, length}
use tf_common.SandeshClientSm.{SmState, SandeshClientSm, Answers}

pub data Edge : SmState → SmState → Type 0 where
  stay : {s : SmState} → Edge s s
  unheld : Edge SmState.idle SmState.disconnect
  hold_over : Edge SmState.idle SmState.connect
  located : Edge SmState.disconnect SmState.connect
  connected : Edge SmState.connect SmState.client_init
  accepted : Edge SmState.client_init SmState.established
  failover : Edge SmState.established SmState.connect
  reset : {s : SmState} → Edge s SmState.idle

abbrev pub is_some {ℓ} : {A : Type ℓ} → Option A → Bool
is_some none = false
is_some (some _) = true

-- The states in which the machine holds a session.
abbrev pub has_session : SmState → Bool
has_session SmState.idle = false
has_session SmState.disconnect = false
has_session SmState.connect = true
has_session SmState.client_init = true
has_session SmState.established = true

abbrev pub is_idle : SmState → Bool
is_idle SmState.idle = true
is_idle _ = false

-- The states that the connect timer bounds.
abbrev pub is_connecting : SmState → Bool
is_connecting SmState.connect = true
is_connecting SmState.client_init = true
is_connecting _ = false

-- A session is held exactly where the state says so; the hold timer runs only when idle and the
-- connect timer only while connecting, and the index of the collector is one of the list.
pub record IsValid (m : SandeshClientSm) : Type 0 where
  pub session : is_some m.session ≡ has_session m.state
  pub hold : is_some m.idle_hold_timer ≡ true → is_idle m.state ≡ true
  pub timer : is_some m.connect_timer ≡ true → is_connecting m.state ≡ true
  pub index : length m.collectors ≢ 0 → m.collector_index < length m.collectors

-- What a reaction may leave: a machine in a state that an edge reaches, with the invariant.
pub record Steps (m m' : SandeshClientSm) : Type 0 where
  pub edge : Edge m.state m'.state
  pub valid : IsValid m'

-- The parts of the invariant that leaving a state needs.
pub record Ready (from : SmState) (m : SandeshClientSm) : Type 0 where
  pub hold : is_some m.idle_hold_timer ≡ true → is_idle from ≡ true
  pub timer : is_some m.connect_timer ≡ true → is_connecting from ≡ true
  pub index : length m.collectors ≢ 0 → m.collector_index < length m.collectors

-- The result of a reaction: it does not fail, and what it leaves.
abbrev pub Goes : SandeshClientSm → Option SandeshClientSm → Type 0
Goes m o = (m' : SandeshClientSm) × (o ≡ some m') × Steps m m'

-- The manager gives a session for every server.
abbrev pub Opens : Answers → Type 0
Opens a = (server : ℕ) → is_some (a.create_sm_session server) ≡ true
