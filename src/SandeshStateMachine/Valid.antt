-- ===== src/SandeshStateMachine/Valid.antt =====
-- The state graph and the invariant of the machine, and how a transition keeps it.
use tf_common.Common.{
  ℕ, ◌≡◌, refl, sym, ap, ◌∙◌, inl, inr, Bool, true, false, Option, none, some, if◌then◌else◌, arith,
  Bool-cases, ◌==◌,
}
use tf_common.SandeshStateMachine.{
  SsmState, SandeshStateMachine, set_state, enqueue, delete_session, delete_held, set_session,
  cancel_idle_hold_timer, exit_state, enter_state, transit, on_idle, transit_to_idle, drop_to_idle,
  delete_tcp_session, k_idle_hold_time,
}

-- The transitions of the machine.
pub data Edge : SsmState → SsmState → Type 0 where
  stay : {s : SsmState} → Edge s s
  hold_over : Edge SsmState.idle SsmState.active
  opened : Edge SsmState.active SsmState.server_init
  accepted : Edge SsmState.server_init SsmState.established
  reset : {s : SsmState} → Edge s SsmState.idle

abbrev pub is_some {ℓ} : {A : Type ℓ} → Option A → Bool
is_some none = false
is_some (some _) = true

-- The states in which the machine holds a session.
abbrev pub has_session : SsmState → Bool
has_session SsmState.idle = false
has_session SsmState.active = false
has_session SsmState.server_init = true
has_session SsmState.established = true

abbrev pub is_idle : SsmState → Bool
is_idle SsmState.idle = true
is_idle _ = false

abbrev pub is_established : SsmState → Bool
is_established SsmState.established = true
is_established _ = false

-- The connection and the machine hold the same session, and hold one exactly where the state says
-- so; the resource is there only when established, and the hold timer runs only when idle.
pub record IsValid (m : SandeshStateMachine) : Type 0 where
  pub agree : m.connection_session ≡ m.session
  pub held : is_some m.session ≡ has_session m.state
  pub resource : m.resource ≡ true → is_established m.state ≡ true
  pub timer : m.idle_hold_timer_running ≡ true → is_idle m.state ≡ true

-- To close a session changes the queue and the list of closed sessions only.
pub record Queues (m m' : SandeshStateMachine) : Type 0 where
  pub connection_session : m'.connection_session ≡ m.connection_session
  pub session : m'.session ≡ m.session
  pub state : m'.state ≡ m.state
  pub last_state : m'.last_state ≡ m.last_state
  pub resource : m'.resource ≡ m.resource
  pub timer : m'.idle_hold_timer_running ≡ m.idle_hold_timer_running

pub delete_session-Queues : (x : ℕ) (m : SandeshStateMachine) → Queues m (delete_session x m)
unfolding delete_session enqueue
delete_session-Queues x m = elim (Bool-cases m.deleted) [
  | inl y ↦ simp y (record {
    connection_session = refl;
    session = refl;
    state = refl;
    last_state = refl;
    resource = refl;
    timer = refl;
  })
  | inr n ↦ simp n (record {
    connection_session = refl;
    session = refl;
    state = refl;
    last_state = refl;
    resource = refl;
    timer = refl;
  })
]

pub delete_held-Queues : (x : Option ℕ) (m : SandeshStateMachine) → Queues m (delete_held x m)
unfolding delete_held
delete_held-Queues none m = record {
  connection_session = refl;
  session = refl;
  state = refl;
  last_state = refl;
  resource = refl;
  timer = refl;
}
delete_held-Queues (some x) m = delete_session-Queues x m

-- What a reaction may leave: a state that an edge reaches, with the invariant.
pub record Steps (m m' : SandeshStateMachine) : Type 0 where
  pub edge : Edge m.state m'.state
  pub valid : IsValid m'
  pub last : m.last_state ≡ m.state → m'.last_state ≡ m'.state

exit_state-kept :
    (s : SsmState) (m : SandeshStateMachine)
    → (m.resource ≡ true → is_established s ≡ true)
    → (m.idle_hold_timer_running ≡ true → is_idle s ≡ true)
    → ((exit_state s m).resource ≡ false)
      × ((exit_state s m).idle_hold_timer_running ≡ false)
      × ((exit_state s m).session ≡ m.session)
      × ((exit_state s m).connection_session ≡ m.connection_session)
unfolding exit_state cancel_idle_hold_timer
exit_state-kept SsmState.idle m r t = (ground arith, refl, refl, refl)
exit_state-kept SsmState.active m r t = (ground arith, ground arith, refl, refl)
exit_state-kept SsmState.established m r t = (refl, ground arith, refl, refl)
exit_state-kept SsmState.server_init m r t = (ground arith, ground arith, refl, refl)

enter_state-IsValid :
    (s : SsmState) (m : SandeshStateMachine)
    → m.connection_session ≡ m.session
    → is_some m.session ≡ has_session s
    → m.resource ≡ false
    → m.idle_hold_timer_running ≡ false
    → IsValid (enter_state s m) × ((enter_state s m).state ≡ s) × ((enter_state s m).last_state ≡ s)
unfolding enter_state set_state
enter_state-IsValid SsmState.idle m a h r t =
    (record { agree = a; held = h; resource = λ y. cc; timer = λ y. refl }, refl, refl)
enter_state-IsValid SsmState.active m a h r t =
    (record { agree = a; held = h; resource = λ y. cc; timer = λ y. cc }, refl, refl)
enter_state-IsValid SsmState.server_init m a h r t =
    (record { agree = a; held = h; resource = λ y. cc; timer = λ y. cc }, refl, refl)
enter_state-IsValid SsmState.established m a h r t =
    (record { agree = a; held = h; resource = λ y. refl; timer = λ y. cc }, refl, refl)

-- A transition from a state with the invariant, after which the session is as the new state wants.
pub transit-Steps :
    (next : SsmState) (m m' : SandeshStateMachine)
    → Edge m.state next
    → m'.state ≡ m.state
    → (m'.resource ≡ true → is_established m.state ≡ true)
    → (m'.idle_hold_timer_running ≡ true → is_idle m.state ≡ true)
    → m'.connection_session ≡ m'.session
    → is_some m'.session ≡ has_session next
    → Steps m (transit next m')
unfolding transit
transit-Steps next m m' e s r t a h =
    let k = exit_state-kept m.state m' r t in
    let entered =
      enter_state-IsValid next (exit_state m.state m') (k.3 ∙ a ∙ sym k.2) (ap is_some k.2 ∙ h) k.0
        k.1 in
    simp s
      (record { edge = rw entered.1 e; valid = entered.0; last = λ _. entered.2 ∙ sym entered.1 })

pub drop_to_idle-Steps :
    (m m' : SandeshStateMachine)
    → m'.state ≡ m.state
    → (m'.resource ≡ true → is_established m.state ≡ true)
    → (m'.idle_hold_timer_running ≡ true → is_idle m.state ≡ true)
    → Steps m (drop_to_idle m')
unfolding drop_to_idle set_session
drop_to_idle-Steps m m' s r t =
    let q = delete_held-Queues m'.session m' in
    transit-Steps SsmState.idle m (set_session none m') reset (q.state ∙ s)
      (λ y. r (sym q.resource ∙ y)) (λ y. t (sym q.timer ∙ y)) refl refl

-- `EvStop` outside of `Idle`.
pub transit_to_idle-Steps : (m : SandeshStateMachine) → IsValid m → Steps m (transit_to_idle m)
unfolding transit_to_idle on_idle set_session cancel_idle_hold_timer
transit_to_idle-Steps m v =
    let k = exit_state-kept m.state m v.resource v.timer in
    let q = delete_held-Queues (exit_state m.state m).session (record (exit_state m.state m) {
      idle_hold_time =
          if (exit_state m.state m).idle_hold_time == 0
          then k_idle_hold_time
          else (exit_state m.state m).idle_hold_time;
      idle_hold_timer_running = false;
    }) in
    let entered =
      enter_state-IsValid SsmState.idle (on_idle (exit_state m.state m)) refl refl
        (q.resource ∙ k.0) q.timer in
    record { edge = rw entered.1 reset; valid = entered.0; last = λ _. entered.2 ∙ sym entered.1 }

pub delete_tcp_session-Queues :
    (x : ℕ) (m : SandeshStateMachine) → Queues m (delete_tcp_session x m)
unfolding delete_tcp_session
delete_tcp_session-Queues x m = record {
  connection_session = refl;
  session = refl;
  state = refl;
  last_state = refl;
  resource = refl;
  timer = refl;
}

-- An event that changes neither the state nor the session.
pub kept-Steps : (m m' : SandeshStateMachine) → Queues m m' → IsValid m → Steps m m'
kept-Steps m m' q v = record {
  edge = rw q.state stay;
  valid = record {
    agree = q.connection_session ∙ v.agree ∙ sym q.session;
    held = ap is_some q.session ∙ v.held ∙ sym (ap has_session q.state);
    resource = λ y. ap is_established q.state ∙ v.resource (sym q.resource ∙ y);
    timer = λ y. ap is_idle q.state ∙ v.timer (sym q.timer ∙ y);
  };
  last = λ e. q.last_state ∙ e ∙ sym q.state;
}

pub same-Steps : (m : SandeshStateMachine) → IsValid m → Steps m m
same-Steps m v = record { edge = stay; valid = v; last = λ e. e }
