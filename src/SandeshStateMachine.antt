-- ===== src/SandeshStateMachine.antt =====
-- sandesh/library/cpp/sandesh_state_machine.cc and .h: the state machine of a Sandesh connection on
-- the collector's side. Sessions and messages are numbers. The connection's virtual methods are the
-- record `SandeshConnection`, and the message builder and the header reader `MessageReader`.
-- The work queue is the list of events in order; the hold timer is the flag whether it runs.
pub mod Valid
pub mod Reactions
pub mod Transitions
pub mod Session
pub mod Receive
mod Tests
use tf_common.Common.{
  ℕ, ◌+◌, Bool, true, false, not, ◌&&◌, ◌||◌, Option, none, some, List, [], ◌∷◌, ◌++◌,
  if◌then◌else◌, ltb, ◌==◌, ◌!=◌,
}

pub data SsmState : Type 0 where
  idle active established server_init : SsmState

pub data Event : Type 0 where
  ev_start ev_stop : Event
  ev_idle_hold_timer_expired : Event
  ev_tcp_passive_open : ℕ → Event
  ev_tcp_close : Option ℕ → Event
  ev_tcp_delete_session : ℕ → Event
  ev_sandesh_message_recv : ℕ → Event
  ev_sandesh_ctrl_message_recv : ℕ → Event
  ev_resource_update : Bool → Event

-- Counts of `SandeshRxDropReason`, and of the messages that were received.
pub record MessageStats : Type 0 where
  pub received : ℕ
  pub decoding_failed : ℕ
  pub queue_level : ℕ
  pub control_msg_failed : ℕ

pub record SandeshStateMachine : Type 0 where
  pub work_queue : List Event
  pub connection_session : Option ℕ
  pub session : Option ℕ
  pub state : SsmState
  pub last_state : SsmState
  pub idle_hold_timer_running : Bool
  pub idle_hold_time : ℕ
  pub deleted : Bool
  pub resource : Bool
  pub message_drop_level : ℕ
  pub message_stats : MessageStats
  -- Effects on sessions and on the connection, oldest first.
  pub closed_sessions : List ℕ
  pub deleted_sessions : List ℕ
  pub disconnects : List (Option ℕ)
  pub managed_deletes : ℕ

-- The virtual methods of the connection: whether the message or update is accepted.
pub record SandeshConnection : Type 0 where
  pub process_sandesh_ctrl_message : ℕ → Bool
  pub process_sandesh_message : ℕ → Bool → Bool
  pub process_resource_update : Bool → Bool

abbrev pub k_idle_hold_time : ℕ
k_idle_hold_time = 5000

pub set_state : SsmState → SandeshStateMachine → SandeshStateMachine
set_state state m = record m { last_state = state; state = state }

pub enqueue : Event → SandeshStateMachine → SandeshStateMachine
enqueue e m = if m.deleted then m else record m { work_queue = m.work_queue ++ e ∷ [] }

-- The session is closed at once and deleted when the events before it are done.
pub delete_session : ℕ → SandeshStateMachine → SandeshStateMachine
unfolding enqueue
delete_session x m =
    enqueue (ev_tcp_delete_session x) (record m { closed_sessions = m.closed_sessions ++ x ∷ [] })

pub delete_held : Option ℕ → SandeshStateMachine → SandeshStateMachine
unfolding delete_session
delete_held none m = m
delete_held (some x) m = delete_session x m

pub set_session : Option ℕ → SandeshStateMachine → SandeshStateMachine
unfolding delete_held
set_session next m = record (delete_held m.session m) { connection_session = next; session = next }

pub start_idle_hold_timer : SandeshStateMachine → SandeshStateMachine
start_idle_hold_timer m =
    if m.idle_hold_time == 0 then m else record m { idle_hold_timer_running = true }

pub cancel_idle_hold_timer : SandeshStateMachine → SandeshStateMachine
cancel_idle_hold_timer m = record m { idle_hold_timer_running = false }

-- The destructor and the constructor of a state.
pub exit_state : SsmState → SandeshStateMachine → SandeshStateMachine
unfolding cancel_idle_hold_timer
exit_state SsmState.idle m = cancel_idle_hold_timer m
exit_state SsmState.active m = m
exit_state SsmState.established m = record m { resource = false }
exit_state SsmState.server_init m = m

pub enter_state : SsmState → SandeshStateMachine → SandeshStateMachine
unfolding set_state
enter_state SsmState.idle m = set_state SsmState.idle m
enter_state SsmState.active m = set_state SsmState.active m
enter_state SsmState.established m = record (set_state SsmState.established m) { resource = true }
enter_state SsmState.server_init m = set_state SsmState.server_init m

-- `transit`, and `TransitToIdle` with the action `OnIdle` between the two.
pub transit : SsmState → SandeshStateMachine → SandeshStateMachine
unfolding exit_state enter_state
transit next m = enter_state next (exit_state m.state m)

pub on_idle : SandeshStateMachine → SandeshStateMachine
unfolding cancel_idle_hold_timer set_session
on_idle m =
    let hold = if m.idle_hold_time == 0 then k_idle_hold_time else m.idle_hold_time in
    set_session none (cancel_idle_hold_timer (record m { idle_hold_time = hold }))

pub transit_to_idle : SandeshStateMachine → SandeshStateMachine
unfolding exit_state enter_state on_idle
transit_to_idle m = enter_state SsmState.idle (on_idle (exit_state m.state m))

-- The session is given up, and the machine is idle.
pub drop_to_idle : SandeshStateMachine → SandeshStateMachine
unfolding transit set_session
drop_to_idle m = transit SsmState.idle (set_session none m)

-- The session is deleted and `ManagedDelete` of the connection called, which the machine always has.
pub delete_tcp_session : ℕ → SandeshStateMachine → SandeshStateMachine
delete_tcp_session x m = record m {
  deleted_sessions = m.deleted_sessions ++ x ∷ [];
  managed_deletes = m.managed_deletes + 1;
}

-- The reactions of each state. An event without one is logged.
pub react_idle : Event → SandeshStateMachine → SandeshStateMachine
unfolding start_idle_hold_timer transit cancel_idle_hold_timer delete_session delete_tcp_session
react_idle ev_start m =
    if m.idle_hold_time == 0 then transit SsmState.active m else start_idle_hold_timer m
react_idle ev_stop m = cancel_idle_hold_timer m
react_idle ev_idle_hold_timer_expired m = transit SsmState.active m
react_idle (ev_tcp_passive_open x) m = delete_session x m
react_idle (ev_tcp_delete_session x) m = delete_tcp_session x m
react_idle _ m = m

pub react_active : Event → SandeshStateMachine → SandeshStateMachine
unfolding transit_to_idle transit set_session drop_to_idle delete_tcp_session
react_active ev_stop m = transit_to_idle m
react_active (ev_tcp_passive_open x) m = transit SsmState.server_init (set_session (some x) m)
react_active (ev_tcp_close x) m = drop_to_idle m
react_active (ev_tcp_delete_session x) m = delete_tcp_session x m
react_active _ m = m

pub react_server_init : SandeshConnection → Event → SandeshStateMachine → SandeshStateMachine
unfolding transit_to_idle transit drop_to_idle delete_tcp_session
react_server_init c ev_stop m = transit_to_idle m
react_server_init c (ev_tcp_close x) m = drop_to_idle m
react_server_init c (ev_sandesh_ctrl_message_recv msg) m =
    if c.process_sandesh_ctrl_message msg then transit SsmState.established m else drop_to_idle m
react_server_init c (ev_sandesh_message_recv msg) m =
    if c.process_sandesh_message msg true then m else drop_to_idle m
react_server_init c (ev_tcp_delete_session x) m = delete_tcp_session x m
react_server_init c _ m = m

pub react_established : SandeshConnection → Event → SandeshStateMachine → SandeshStateMachine
unfolding transit_to_idle drop_to_idle delete_tcp_session
react_established c ev_stop m = transit_to_idle m
react_established c (ev_tcp_close x) m =
    drop_to_idle (record m { disconnects = m.disconnects ++ m.session ∷ [] })
react_established c (ev_resource_update rsc) m =
    let updated = record m { resource = rsc } in
    if c.process_resource_update rsc then updated else drop_to_idle updated
react_established c (ev_sandesh_message_recv msg) m =
    if c.process_sandesh_message msg m.resource then m else drop_to_idle m
react_established c (ev_tcp_delete_session x) m = delete_tcp_session x m
react_established c _ m = m

pub process_event : SandeshConnection → Event → SandeshStateMachine → SandeshStateMachine
unfolding react_idle react_active react_server_init react_established
process_event c e m = elim (m.state) [
  | SsmState.idle ↦ react_idle e m
  | SsmState.active ↦ react_active e m
  | SsmState.server_init ↦ react_server_init c e m
  | SsmState.established ↦ react_established c e m
]

abbrev pub same_session : Option ℕ → Option ℕ → Bool
same_session none none = true
same_session none (some y) = false
same_session (some x) none = false
same_session (some x) (some y) = x == y

-- `HasValidate` finds the method of `EvTcpClose` alone: that of `EvIdleHoldTimerExpired` takes no
-- state machine.
pub validate : Event → SandeshStateMachine → Bool
validate (ev_tcp_close x) m = same_session m.connection_session x || same_session m.session x
validate _ m = true

pub dequeue_event : SandeshConnection → Event → SandeshStateMachine → SandeshStateMachine
unfolding process_event validate
dequeue_event c e m = if m.deleted then m else (if validate e m then process_event c e m else m)

-- The work queue hands over its first event.
unfoldable pub run_next : SandeshConnection → SandeshStateMachine → SandeshStateMachine
unfolding dequeue_event
run_next c m = elim (m.work_queue) [
  | [] ↦ m
  | e ∷ es ↦ dequeue_event c e (record m { work_queue = es })
]

-- The calls that enqueue an event.
pub set_admin_state : Bool → SandeshStateMachine → SandeshStateMachine
unfolding enqueue
set_admin_state true m = enqueue ev_stop m
set_admin_state false m =
    enqueue ev_start (record m { idle_hold_time = 0; last_state = SsmState.idle })

pub initialize : SandeshStateMachine → SandeshStateMachine
unfolding enqueue
initialize m = enqueue ev_start m

pub shutdown : SandeshStateMachine → SandeshStateMachine
unfolding enqueue
shutdown m = enqueue ev_stop m

pub idle_hold_timer_expired : SandeshStateMachine → SandeshStateMachine
unfolding enqueue
idle_hold_timer_expired m = enqueue ev_idle_hold_timer_expired m

-- `OnSessionEvent` at `CLOSE`; the other events of a session are ignored.
pub on_session_close : Option ℕ → SandeshStateMachine → SandeshStateMachine
unfolding enqueue
on_session_close x m = enqueue (ev_tcp_close x) m

pub passive_open : ℕ → SandeshStateMachine → SandeshStateMachine
unfolding enqueue
passive_open x m = enqueue (ev_tcp_passive_open x) m

pub resource_update : Bool → SandeshStateMachine → SandeshStateMachine
unfolding enqueue
resource_update rsc m = enqueue (ev_resource_update rsc) m

-- The session is closed without the event that deletes it.
pub close_held : Option ℕ → SandeshStateMachine → SandeshStateMachine
close_held none m = m
close_held (some x) m = record m {
  closed_sessions = m.closed_sessions ++ x ∷ [];
  connection_session = none;
  session = none;
}

pub clear_session : SandeshStateMachine → SandeshStateMachine
unfolding close_held
clear_session m = close_held m.session m
