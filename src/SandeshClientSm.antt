-- ===== src/SandeshClientSm.antt =====
-- sandesh/library/cpp/sandesh_client_sm.cc, with sandesh_client_sm.h and sandesh_client_sm_priv.h:
-- the state machine of a Sandesh client. Sessions, messages, endpoints and names are numbers, 0 for
-- the default endpoint; a timer that was started and not cancelled is its time. The answers of the manager's virtual methods
-- while one event is processed are the record `Answers`. A null pointer that is followed is `none`.
pub mod Events
pub mod Valid
pub mod Transit
pub mod Collectors
mod Tests
use tf_common.Common.{
  ℕ, ◌+◌, ◌*◌, ◌-◌, ◌^◌, min, Bool, true, false, not, Option, none, some, List, [], ◌∷◌, ◌++◌,
  if◌then◌else◌, ◌==◌, ◌!=◌, length, get_or,
}
use tf_common.Task.{◌>>=◌}

pub data SmState : Type 0 where
  idle disconnect connect client_init established : SmState

pub data Event : Type 0 where
  ev_start ev_stop : Event
  ev_collector_update : List ℕ → Event
  ev_idle_hold_timer_expired ev_connect_timer_expired : Event
  ev_tcp_connected ev_tcp_connect_fail ev_tcp_close ev_tcp_delete_session : ℕ → Event
  -- A message to send, and whether it is a UVE.
  ev_sandesh_send : ℕ → Bool → Event
  -- A message received, its source, and whether it has the control hint.
  ev_sandesh_message_recv : ℕ → ℕ → Bool → Event

pub record SandeshClientSm : Type 0 where
  pub work_queue : List Event
  pub session : Option ℕ
  pub server : ℕ
  pub collectors : List ℕ
  pub collector_index : ℕ
  pub state : SmState
  pub last_state : SmState
  pub connect_timer : Option ℕ
  pub idle_hold_timer : Option ℕ
  pub idle_hold_time : ℕ
  pub attempts : ℕ
  pub deleted : Bool
  pub connects : ℕ
  pub collector_name : Option ℕ
  -- Effects on sessions and messages, oldest first.
  pub closed_sessions : List ℕ
  pub deleted_sessions : List ℕ
  pub started_queues : List ℕ
  pub initialized : List ℕ
  pub sent : List ℕ
  pub released : List ℕ

pub record Answers : Type 0 where
  pub create_sm_session : ℕ → Option ℕ
  pub receive_msg : ℕ → Bool

abbrev pub k_connect_interval : ℕ
k_connect_interval = 30

abbrev pub k_idle_hold_time : ℕ
k_idle_hold_time = 5000

pub set_state : SmState → SandeshClientSm → SandeshClientSm
set_state state m = record m { last_state = state; state = state }

pub enqueue : Event → SandeshClientSm → SandeshClientSm
enqueue e m = record m { work_queue = if m.deleted then m.work_queue else m.work_queue ++ e ∷ [] }

-- The session held, and the event that deletes it.
abbrev pub held : Option ℕ → List ℕ
held none = []
held (some x) = x ∷ []

abbrev pub deletion : Option ℕ → List Event
deletion none = []
deletion (some x) = ev_tcp_delete_session x ∷ []

-- The session from before is closed at once, and deleted after the events that are queued.
pub set_session : Option ℕ → SandeshClientSm → SandeshClientSm
set_session next m = record m {
  session = next;
  closed_sessions = m.closed_sessions ++ held m.session;
  work_queue = if m.deleted then m.work_queue else m.work_queue ++ deletion m.session;
}

-- `Timer::Start`, which leaves a running timer as it is.
abbrev pub started : Option ℕ → ℕ → Option ℕ
started none time = some time
started (some t) time = some t

pub get_connect_time : SandeshClientSm → ℕ
get_connect_time m =
    let backoff = min m.attempts 6 in
    min (if backoff == 0 then 0 else 2 ^ (backoff - 1)) k_connect_interval

pub start_connect_timer : SandeshClientSm → SandeshClientSm
unfolding get_connect_time
start_connect_timer m = record m {
  connect_timer = started m.connect_timer (get_connect_time m * 1000);
}

pub cancel_connect_timer : SandeshClientSm → SandeshClientSm
cancel_connect_timer m = record m { connect_timer = none }

pub start_idle_hold_timer : SandeshClientSm → SandeshClientSm
start_idle_hold_timer m = record m {
  idle_hold_timer =
      if m.idle_hold_time == 0
      then m.idle_hold_timer
      else started m.idle_hold_timer m.idle_hold_time;
}

pub cancel_idle_hold_timer : SandeshClientSm → SandeshClientSm
cancel_idle_hold_timer m = record m { idle_hold_timer = none }

pub on_idle : SandeshClientSm → SandeshClientSm
unfolding cancel_idle_hold_timer set_session
on_idle m =
    let hold = if m.idle_hold_time == 0 then k_idle_hold_time else m.idle_hold_time in
    set_session none (cancel_idle_hold_timer (record m { idle_hold_time = hold }))

-- The collectors.
pub get_collector : SandeshClientSm → ℕ
get_collector m = get_or m.collectors m.collector_index 0

pub next_index : SandeshClientSm → ℕ
next_index m = if m.collector_index + 1 == length m.collectors then 0 else m.collector_index + 1

pub get_next_collector : SandeshClientSm → ℕ × SandeshClientSm
unfolding next_index
get_next_collector m =
    let none_listed = length m.collectors == 0 in
    (
      if none_listed then 0 else get_or m.collectors (next_index m) 0,
      record m { collector_index = if none_listed then m.collector_index else next_index m },
    )

-- Whether the server is another one now.
pub set_server : ℕ → SandeshClientSm → Bool × SandeshClientSm
set_server collector m = (m.server != collector, record m { server = collector })

pub collector_update : List ℕ → SandeshClientSm → Bool × SandeshClientSm
unfolding get_collector set_server
collector_update collectors m =
    let updated = record m { collectors = collectors; collector_index = 0 } in
    set_server (get_collector updated) updated

pub collector_change : SandeshClientSm → Bool × SandeshClientSm
unfolding get_next_collector set_server
collector_change m = let next = get_next_collector m in set_server next.0 next.1

-- The destructor and the constructor of a state.
pub exit_state : SmState → SandeshClientSm → SandeshClientSm
unfolding cancel_idle_hold_timer cancel_connect_timer
exit_state SmState.idle m = cancel_idle_hold_timer m
exit_state SmState.disconnect m = m
exit_state SmState.connect m = cancel_connect_timer m
exit_state SmState.client_init m = cancel_connect_timer m
exit_state SmState.established m = record m { collector_name = none }

-- `StartSession` follows the pointer to the session that it is given, as does `Established`.
pub enter_connect : Option ℕ → SandeshClientSm → Option SandeshClientSm
unfolding set_state set_session start_connect_timer
enter_connect none m = none
enter_connect (some x) m =
    let opened = set_session (some x) (set_state SmState.connect m) in
    some (start_connect_timer (record opened { attempts = opened.attempts + 1 }))

pub enter_client_init : SandeshClientSm → SandeshClientSm
unfolding set_state cancel_connect_timer start_connect_timer
enter_client_init m =
    let timed = start_connect_timer (cancel_connect_timer (set_state SmState.client_init m)) in
    record timed {
      connects = timed.connects + 1;
      initialized = timed.initialized ++ (timed.connects + 1) ∷ [];
    }

pub enter_established : Option ℕ → SandeshClientSm → Option SandeshClientSm
unfolding set_state
enter_established none m = none
enter_established (some x) m = some (record (set_state SmState.established m) { attempts = 0 })

pub enter_state : Answers → SmState → SandeshClientSm → Option SandeshClientSm
unfolding set_state enter_connect enter_client_init enter_established
enter_state a SmState.idle m = some (set_state SmState.idle m)
enter_state a SmState.disconnect m = some (set_state SmState.disconnect m)
enter_state a SmState.connect m = enter_connect (a.create_sm_session m.server) m
enter_state a SmState.client_init m = some (enter_client_init m)
enter_state a SmState.established m = enter_established m.session m

-- `transit` from one state to another.
pub transit : Answers → SmState → SmState → SandeshClientSm → Option SandeshClientSm
unfolding exit_state enter_state
transit a from next m = enter_state a next (exit_state from m)

-- `TransitToIdle`, with the action `OnIdle` between the two states.
pub transit_to_idle : SmState → SandeshClientSm → SandeshClientSm
unfolding exit_state on_idle set_state
transit_to_idle from m = set_state SmState.idle (on_idle (exit_state from m))

-- `ToIdle`, which follows the pointer to the session for its log.
pub to_idle_from : Option ℕ → SmState → SandeshClientSm → Option SandeshClientSm
unfolding exit_state on_idle start_idle_hold_timer set_state
to_idle_from none from m = none
to_idle_from (some x) from m =
    some (set_state SmState.idle (exit_state from (start_idle_hold_timer (on_idle m))))

pub to_idle : SmState → SandeshClientSm → Option SandeshClientSm
unfolding to_idle_from
to_idle from m = to_idle_from m.session from m

-- In `Connect` the hold time is that of the next attempt.
pub connect_to_idle : SandeshClientSm → Option SandeshClientSm
unfolding to_idle get_connect_time
connect_to_idle m =
    to_idle SmState.connect (record m { idle_hold_time = get_connect_time m * 1000 })

pub release_sandesh : ℕ → SandeshClientSm → SandeshClientSm
release_sandesh snh m = record m { released = m.released ++ snh ∷ [] }

pub send_session : Option ℕ → ℕ → SandeshClientSm → Option SandeshClientSm
send_session none snh m = none
send_session (some x) snh m = some (record m { sent = m.sent ++ snh ∷ [] })

pub delete_tcp_session : ℕ → SandeshClientSm → SandeshClientSm
delete_tcp_session x m = record m { deleted_sessions = m.deleted_sessions ++ x ∷ [] }
