-- ===== src/SandeshClientSm/Events.antt =====
-- The reactions of the client's states in sandesh/library/cpp/sandesh_client_sm.cc, the dequeue of
-- an event, and the calls that enqueue one.
pub mod Transitions
use tf_common.Common.{
  ℕ, Bool, true, false, Option, none, some, List, [], ◌∷◌, ◌++◌, if◌then◌else◌, ◌==◌,
}
use tf_common.SandeshClientSm.{
  SmState, Event, ev_start, ev_stop, ev_collector_update, ev_idle_hold_timer_expired,
  ev_connect_timer_expired, ev_tcp_connected, ev_tcp_connect_fail, ev_tcp_close,
  ev_tcp_delete_session, ev_sandesh_send, ev_sandesh_message_recv, SandeshClientSm, Answers,
  enqueue, cancel_idle_hold_timer, start_idle_hold_timer, cancel_connect_timer, on_idle,
  collector_update, collector_change, transit, transit_to_idle, to_idle, connect_to_idle,
  release_sandesh, send_session, delete_tcp_session,
}

pub react_idle : Answers → Event → SandeshClientSm → Option SandeshClientSm
unfolding start_idle_hold_timer cancel_idle_hold_timer transit collector_update release_sandesh
    delete_tcp_session
react_idle a ev_start m =
    if m.idle_hold_time == 0
    then transit a SmState.idle SmState.disconnect m
    else some (start_idle_hold_timer m)
react_idle a ev_stop m = some (cancel_idle_hold_timer m)
react_idle a (ev_collector_update cs) m = some ((collector_update cs m).1)
react_idle a ev_idle_hold_timer_expired m = transit a SmState.idle SmState.connect m
react_idle a (ev_sandesh_send snh uve) m = some (release_sandesh snh m)
react_idle a (ev_tcp_delete_session x) m = some (delete_tcp_session x m)
react_idle a _ m = some m

pub react_disconnect : Answers → Event → SandeshClientSm → Option SandeshClientSm
unfolding transit_to_idle transit collector_update release_sandesh delete_tcp_session
react_disconnect a ev_stop m = some (transit_to_idle SmState.disconnect m)
react_disconnect a (ev_collector_update cs) m =
    transit a SmState.disconnect SmState.connect ((collector_update cs m).1)
react_disconnect a (ev_sandesh_send snh uve) m = some (release_sandesh snh m)
react_disconnect a (ev_tcp_delete_session x) m = some (delete_tcp_session x m)
react_disconnect a _ m = some m

-- The send queue's runner of the session of the event is started.
abbrev pub start_send_queue : ℕ → SandeshClientSm → SandeshClientSm
start_send_queue x m = record m { started_queues = m.started_queues ++ x ∷ [] }

pub react_connect : Answers → Event → SandeshClientSm → Option SandeshClientSm
unfolding transit_to_idle transit collector_update collector_change connect_to_idle
    cancel_connect_timer release_sandesh delete_tcp_session
react_connect a ev_stop m = some (transit_to_idle SmState.connect m)
react_connect a ev_connect_timer_expired m = connect_to_idle ((collector_change m).1)
react_connect a (ev_tcp_connected x) m =
    transit a SmState.connect SmState.client_init (start_send_queue x (cancel_connect_timer m))
react_connect a (ev_tcp_connect_fail x) m = connect_to_idle ((collector_change m).1)
react_connect a (ev_tcp_close x) m = connect_to_idle ((collector_change m).1)
react_connect a (ev_collector_update cs) m =
    let updated = collector_update cs m in
    if updated.0 then connect_to_idle updated.1 else some updated.1
react_connect a (ev_sandesh_send snh uve) m = some (release_sandesh snh m)
react_connect a (ev_tcp_delete_session x) m = some (delete_tcp_session x m)
react_connect a _ m = some m

pub react_client_init : Answers → Event → SandeshClientSm → Option SandeshClientSm
unfolding transit_to_idle transit collector_update collector_change to_idle release_sandesh
    send_session delete_tcp_session
react_client_init a ev_stop m = some (transit_to_idle SmState.client_init m)
react_client_init a ev_connect_timer_expired m =
    to_idle SmState.client_init ((collector_change m).1)
react_client_init a (ev_tcp_close x) m = to_idle SmState.client_init ((collector_change m).1)
react_client_init a (ev_sandesh_message_recv msg source control) m =
    let named = record m { collector_name = some source } in
    if a.receive_msg msg
    then (if control then transit a SmState.client_init SmState.established named else some named)
    else to_idle SmState.client_init m
react_client_init a (ev_sandesh_send snh uve) m =
    if uve then some (release_sandesh snh m) else send_session m.session snh m
react_client_init a (ev_collector_update cs) m =
    let updated = collector_update cs m in
    if updated.0 then to_idle SmState.client_init updated.1 else some updated.1
react_client_init a (ev_tcp_delete_session x) m = some (delete_tcp_session x m)
react_client_init a _ m = some m

-- To another server: the session is given up for a new one.
pub reconnect : Answers → SandeshClientSm → Option SandeshClientSm
unfolding on_idle transit
reconnect a m = transit a SmState.established SmState.connect (on_idle m)

pub react_established : Answers → Event → SandeshClientSm → Option SandeshClientSm
unfolding transit_to_idle reconnect collector_update collector_change to_idle send_session
    delete_tcp_session
react_established a ev_stop m = some (transit_to_idle SmState.established m)
react_established a (ev_tcp_close x) m =
    let changed = collector_change m in
    if changed.0 then reconnect a changed.1 else to_idle SmState.established changed.1
react_established a (ev_sandesh_message_recv msg source control) m =
    if a.receive_msg msg then some m else to_idle SmState.established m
react_established a (ev_sandesh_send snh uve) m = send_session m.session snh m
react_established a (ev_collector_update cs) m =
    let updated = collector_update cs m in
    if updated.0 then reconnect a updated.1 else some updated.1
react_established a (ev_tcp_delete_session x) m = some (delete_tcp_session x m)
react_established a _ m = some m

pub react : SmState → Answers → Event → SandeshClientSm → Option SandeshClientSm
unfolding react_idle react_disconnect react_connect react_client_init react_established
react SmState.idle a e m = react_idle a e m
react SmState.disconnect a e m = react_disconnect a e m
react SmState.connect a e m = react_connect a e m
react SmState.client_init a e m = react_client_init a e m
react SmState.established a e m = react_established a e m

-- `validate` of the connect timer refuses one that was cancelled after it fired, which `cancelled`
-- says; that of the hold timer takes no state machine, so that `HasValidate` does not find it.
abbrev pub validate : Bool → Event → Bool
validate cancelled ev_connect_timer_expired = if cancelled then false else true
validate cancelled _ = true

pub dequeue_event : Bool → Answers → Event → SandeshClientSm → Option SandeshClientSm
unfolding react
dequeue_event cancelled a e m =
    if m.deleted then some m else (if validate cancelled e then react m.state a e m else some m)

-- The calls that enqueue an event.
pub set_admin_state : Bool → SandeshClientSm → SandeshClientSm
unfolding enqueue
set_admin_state true m = enqueue ev_stop m
set_admin_state false m =
    enqueue ev_start (record m { idle_hold_time = 0; last_state = SmState.idle })

pub connect_timer_expired : SandeshClientSm → SandeshClientSm
unfolding enqueue
connect_timer_expired m = enqueue ev_connect_timer_expired m

pub idle_hold_timer_expired : SandeshClientSm → SandeshClientSm
unfolding enqueue
idle_hold_timer_expired m = enqueue ev_idle_hold_timer_expired m

pub data SessionEvent : Type 0 where
  connect_complete connect_failed close accept : SessionEvent

pub on_session_event : ℕ → SessionEvent → SandeshClientSm → SandeshClientSm
unfolding enqueue
on_session_event x connect_complete m = enqueue (ev_tcp_connected x) m
on_session_event x connect_failed m = enqueue (ev_tcp_connect_fail x) m
on_session_event x close m = enqueue (ev_tcp_close x) m
on_session_event x accept m = m

pub send_sandesh : ℕ → Bool → SandeshClientSm → SandeshClientSm
unfolding enqueue
send_sandesh snh uve m = enqueue (ev_sandesh_send snh uve) m

-- `OnMessage`, with the source and the control hint of the header that was extracted, if it was.
pub on_message : ℕ → Option (ℕ × Bool) → SandeshClientSm → Bool × SandeshClientSm
unfolding enqueue
on_message msg none m = (false, m)
on_message msg (some header) m = (true, enqueue (ev_sandesh_message_recv msg header.0 header.1) m)

pub set_collectors : List ℕ → SandeshClientSm → SandeshClientSm
unfolding enqueue
set_collectors cs m = enqueue (ev_collector_update cs) m
