-- ===== src/SandeshClientSm/Events/Transitions.antt =====
-- What an event does to the client's machine.
use mathlib.Core.Bool.{false≢true}
use tf_common.Common.{
  ℕ, ◌<◌, ◌≡◌, ◌≢◌, refl, sym, ap, ◌∙◌, Bool, true, false, Option, none, some, if◌then◌else◌, ◌==◌,
  length,
}
use tf_common.SandeshClientSm.{
  SmState, Event, ev_start, ev_stop, ev_collector_update, ev_idle_hold_timer_expired,
  ev_connect_timer_expired, ev_tcp_connected, ev_tcp_connect_fail, ev_tcp_close,
  ev_tcp_delete_session, ev_sandesh_send, ev_sandesh_message_recv, SandeshClientSm, Answers,
  start_idle_hold_timer, cancel_idle_hold_timer, cancel_connect_timer, on_idle, set_session,
  collector_update, collector_change, set_server, get_next_collector, connect_to_idle,
  release_sandesh, send_session, delete_tcp_session,
}
use tf_common.SandeshClientSm.Events.{
  start_send_queue, react_idle, react_disconnect, react_connect, react_client_init, reconnect,
  react_established, react, dequeue_event, validate,
}
use tf_common.SandeshClientSm.Valid.{
  stay, unheld, hold_over, located, connected, accepted, failover, is_some, has_session, is_idle,
  is_connecting, IsValid, Ready, Goes, Opens,
}
use tf_common.SandeshClientSm.Transit.{transit-Goes, transit_to_idle-Goes, to_idle-Goes}
use tf_common.SandeshClientSm.Collectors.{collector_update-Ready, collector_change-Ready}

-- A reaction that keeps the state, the session, the timers and the collectors.
kept-Goes :
    (m m' : SandeshClientSm)
    → IsValid m
    → m'.state ≡ m.state
    → m'.session ≡ m.session
    → m'.idle_hold_timer ≡ m.idle_hold_timer
    → m'.connect_timer ≡ m.connect_timer
    → (length m'.collectors ≢ 0 → m'.collector_index < length m'.collectors)
    → Goes m (some m')
kept-Goes m m' v state session hold timer index = (
  m',
  refl,
  record {
    edge = rw state stay;
    valid = record {
      session = rw (state, session) v.session;
      hold = rw (state, hold) v.hold;
      timer = rw (state, timer) v.timer;
      index = index;
    };
  },
)

send_session-Goes :
    (o : Option ℕ) (snh : ℕ) (m : SandeshClientSm)
    → IsValid m
    → is_some o ≡ true
    → Goes m (send_session o snh m)
unfolding send_session
send_session-Goes none snh m v e = absurd (false≢true e)
send_session-Goes (some x) snh m v e = kept-Goes m _ v refl refl refl refl v.index

-- The two ways on from a change of the server.
if-Goes :
    (b : Bool) (m : SandeshClientSm) (o p : Option SandeshClientSm)
    → Goes m o
    → Goes m p
    → Goes m (if b then o else p)
if-Goes true m o p g h = g
if-Goes false m o p g h = h

-- What the invariant gives in a known state.
module _ (s : SmState) (m : SandeshClientSm) (e : m.state ≡ s) (v : IsValid m) where
  ready : Ready s m
  ready = record {
    hold = λ h. ap is_idle (sym e) ∙ v.hold h;
    timer = λ h. ap is_connecting (sym e) ∙ v.timer h;
    index = v.index;
  }

  held_here : is_some m.session ≡ has_session s
  held_here = v.session ∙ ap has_session e

module _ (a : Answers) (opens : Opens a) (m : SandeshClientSm) (v : IsValid m) where
  react_idle-Goes : (e : Event) → m.state ≡ SmState.idle → Goes m (react_idle a e m)
  unfolding react_idle start_idle_hold_timer cancel_idle_hold_timer collector_update set_server
      release_sandesh delete_tcp_session
  react_idle-Goes ev_start s =
      if-Goes (m.idle_hold_time == 0) m _ _
        (transit-Goes a SmState.idle SmState.disconnect m m opens (ready SmState.idle m s v)
          (rw s unheld) (λ _. held_here SmState.idle m s v))
        (
          _,
          refl,
          record {
            edge = stay;
            valid = record {
              session = v.session;
              hold = λ h. ap is_idle s;
              timer = v.timer;
              index = v.index;
            };
          },
        )
  react_idle-Goes ev_stop s = (
    _,
    refl,
    record {
      edge = stay;
      valid = record {
        session = v.session;
        hold = λ h. absurd (false≢true h);
        timer = v.timer;
        index = v.index;
      };
    },
  )
  react_idle-Goes (ev_collector_update cs) s =
      kept-Goes m _ v refl refl refl refl
        (collector_update-Ready SmState.idle cs m (ready SmState.idle m s v)).index
  react_idle-Goes ev_idle_hold_timer_expired s =
      transit-Goes a SmState.idle SmState.connect m m opens (ready SmState.idle m s v)
        (rw s hold_over) (λ n. absurd (false≢true (sym n)))
  react_idle-Goes (ev_sandesh_send snh uve) s = kept-Goes m _ v refl refl refl refl v.index
  react_idle-Goes (ev_tcp_delete_session x) s = kept-Goes m _ v refl refl refl refl v.index
  react_idle-Goes ev_connect_timer_expired s = kept-Goes m m v refl refl refl refl v.index
  react_idle-Goes (ev_tcp_connected x) s = kept-Goes m m v refl refl refl refl v.index
  react_idle-Goes (ev_tcp_connect_fail x) s = kept-Goes m m v refl refl refl refl v.index
  react_idle-Goes (ev_tcp_close x) s = kept-Goes m m v refl refl refl refl v.index
  react_idle-Goes (ev_sandesh_message_recv x y c) s = kept-Goes m m v refl refl refl refl v.index

  react_disconnect-Goes :
      (e : Event) → m.state ≡ SmState.disconnect → Goes m (react_disconnect a e m)
  unfolding react_disconnect collector_update set_server release_sandesh delete_tcp_session
  react_disconnect-Goes ev_stop s =
      transit_to_idle-Goes SmState.disconnect m m (ready SmState.disconnect m s v)
  react_disconnect-Goes (ev_collector_update cs) s =
      transit-Goes a SmState.disconnect SmState.connect m _ opens
        (collector_update-Ready SmState.disconnect cs m (ready SmState.disconnect m s v))
        (rw s located) (λ n. absurd (false≢true (sym n)))
  react_disconnect-Goes (ev_sandesh_send snh uve) s = kept-Goes m _ v refl refl refl refl v.index
  react_disconnect-Goes (ev_tcp_delete_session x) s = kept-Goes m _ v refl refl refl refl v.index
  react_disconnect-Goes ev_start s = kept-Goes m m v refl refl refl refl v.index
  react_disconnect-Goes ev_idle_hold_timer_expired s = kept-Goes m m v refl refl refl refl v.index
  react_disconnect-Goes ev_connect_timer_expired s = kept-Goes m m v refl refl refl refl v.index
  react_disconnect-Goes (ev_tcp_connected x) s = kept-Goes m m v refl refl refl refl v.index
  react_disconnect-Goes (ev_tcp_connect_fail x) s = kept-Goes m m v refl refl refl refl v.index
  react_disconnect-Goes (ev_tcp_close x) s = kept-Goes m m v refl refl refl refl v.index
  react_disconnect-Goes (ev_sandesh_message_recv x y c) s =
      kept-Goes m m v refl refl refl refl v.index

  -- Back to Idle from Connect, after another collector was chosen.
  give_up : m.state ≡ SmState.connect → Goes m (connect_to_idle ((collector_change m).1))
  unfolding connect_to_idle collector_change set_server get_next_collector
  give_up s =
      let r = collector_change-Ready SmState.connect m (ready SmState.connect m s v) in
      to_idle-Goes SmState.connect m _ (held_here SmState.connect m s v)
        (record { hold = r.hold; timer = r.timer; index = r.index })

  react_connect-Goes : (e : Event) → m.state ≡ SmState.connect → Goes m (react_connect a e m)
  unfolding react_connect connect_to_idle cancel_connect_timer collector_update set_server
      release_sandesh delete_tcp_session
  react_connect-Goes ev_stop s =
      transit_to_idle-Goes SmState.connect m m (ready SmState.connect m s v)
  react_connect-Goes ev_connect_timer_expired s = give_up s
  react_connect-Goes (ev_tcp_connected x) s =
      let r = ready SmState.connect m s v in
      transit-Goes a SmState.connect SmState.client_init m
        (start_send_queue x (cancel_connect_timer m)) opens
        (record { hold = r.hold; timer = λ h. refl; index = r.index }) (rw s connected)
        (λ _. held_here SmState.connect m s v)
  react_connect-Goes (ev_tcp_connect_fail x) s = give_up s
  react_connect-Goes (ev_tcp_close x) s = give_up s
  react_connect-Goes (ev_collector_update cs) s =
      let r = collector_update-Ready SmState.connect cs m (ready SmState.connect m s v) in
      if-Goes (collector_update cs m).0 m _ _
        (to_idle-Goes SmState.connect m _ (held_here SmState.connect m s v)
          (record { hold = r.hold; timer = r.timer; index = r.index }))
        (kept-Goes m _ v refl refl refl refl r.index)
  react_connect-Goes (ev_sandesh_send snh uve) s = kept-Goes m _ v refl refl refl refl v.index
  react_connect-Goes (ev_tcp_delete_session x) s = kept-Goes m _ v refl refl refl refl v.index
  react_connect-Goes ev_start s = kept-Goes m m v refl refl refl refl v.index
  react_connect-Goes ev_idle_hold_timer_expired s = kept-Goes m m v refl refl refl refl v.index
  react_connect-Goes (ev_sandesh_message_recv x y c) s = kept-Goes m m v refl refl refl refl v.index

  react_client_init-Goes :
      (e : Event) → m.state ≡ SmState.client_init → Goes m (react_client_init a e m)
  unfolding react_client_init collector_update collector_change set_server get_next_collector
      release_sandesh delete_tcp_session
  react_client_init-Goes ev_stop s =
      transit_to_idle-Goes SmState.client_init m m (ready SmState.client_init m s v)
  react_client_init-Goes ev_connect_timer_expired s =
      to_idle-Goes SmState.client_init m _ (held_here SmState.client_init m s v)
        (collector_change-Ready SmState.client_init m (ready SmState.client_init m s v))
  react_client_init-Goes (ev_tcp_close x) s =
      to_idle-Goes SmState.client_init m _ (held_here SmState.client_init m s v)
        (collector_change-Ready SmState.client_init m (ready SmState.client_init m s v))
  react_client_init-Goes (ev_sandesh_message_recv msg source control) s =
      let r = ready SmState.client_init m s v in
      if-Goes (a.receive_msg msg) m _ _
        (if-Goes control m _ _
          (transit-Goes a SmState.client_init SmState.established m _ opens
            (record { hold = r.hold; timer = r.timer; index = r.index }) (rw s accepted)
            (λ _. held_here SmState.client_init m s v))
          (kept-Goes m _ v refl refl refl refl v.index))
        (to_idle-Goes SmState.client_init m m (held_here SmState.client_init m s v) r)
  react_client_init-Goes (ev_sandesh_send snh uve) s =
      if-Goes uve m _ _ (kept-Goes m _ v refl refl refl refl v.index)
        (send_session-Goes m.session snh m v (held_here SmState.client_init m s v))
  react_client_init-Goes (ev_collector_update cs) s =
      let r = collector_update-Ready SmState.client_init cs m (ready SmState.client_init m s v) in
      if-Goes (collector_update cs m).0 m _ _
        (to_idle-Goes SmState.client_init m _ (held_here SmState.client_init m s v) r)
        (kept-Goes m _ v refl refl refl refl r.index)
  react_client_init-Goes (ev_tcp_delete_session x) s = kept-Goes m _ v refl refl refl refl v.index
  react_client_init-Goes ev_start s = kept-Goes m m v refl refl refl refl v.index
  react_client_init-Goes ev_idle_hold_timer_expired s = kept-Goes m m v refl refl refl refl v.index
  react_client_init-Goes (ev_tcp_connected x) s = kept-Goes m m v refl refl refl refl v.index
  react_client_init-Goes (ev_tcp_connect_fail x) s = kept-Goes m m v refl refl refl refl v.index

  -- Over to the new server.
  reconnect-Goes :
      (m' : SandeshClientSm)
      → m.state ≡ SmState.established
      → Ready SmState.established m'
      → Goes m (reconnect a m')
  unfolding reconnect on_idle set_session cancel_idle_hold_timer
  reconnect-Goes m' s r =
      transit-Goes a SmState.established SmState.connect m (on_idle m') opens
        (record { hold = λ h. absurd (false≢true h); timer = r.timer; index = r.index })
        (rw s failover) (λ n. absurd (false≢true (sym n)))

  react_established-Goes :
      (e : Event) → m.state ≡ SmState.established → Goes m (react_established a e m)
  unfolding react_established collector_update collector_change set_server get_next_collector
      delete_tcp_session
  react_established-Goes ev_stop s =
      transit_to_idle-Goes SmState.established m m (ready SmState.established m s v)
  react_established-Goes (ev_tcp_close x) s =
      let r = collector_change-Ready SmState.established m (ready SmState.established m s v) in
      if-Goes (collector_change m).0 m _ _ (reconnect-Goes _ s r)
        (to_idle-Goes SmState.established m _ (held_here SmState.established m s v) r)
  react_established-Goes (ev_sandesh_message_recv msg source control) s =
      if-Goes (a.receive_msg msg) m _ _ (kept-Goes m m v refl refl refl refl v.index) (
        to_idle-Goes SmState.established m m (held_here SmState.established m s v)
          (ready SmState.established m s v))
  react_established-Goes (ev_sandesh_send snh uve) s =
      send_session-Goes m.session snh m v (held_here SmState.established m s v)
  react_established-Goes (ev_collector_update cs) s =
      let r = collector_update-Ready SmState.established cs m (ready SmState.established m s v) in
      if-Goes (collector_update cs m).0 m _ _ (reconnect-Goes _ s r)
        (kept-Goes m _ v refl refl refl refl r.index)
  react_established-Goes (ev_tcp_delete_session x) s = kept-Goes m _ v refl refl refl refl v.index
  react_established-Goes ev_start s = kept-Goes m m v refl refl refl refl v.index
  react_established-Goes ev_idle_hold_timer_expired s = kept-Goes m m v refl refl refl refl v.index
  react_established-Goes ev_connect_timer_expired s = kept-Goes m m v refl refl refl refl v.index
  react_established-Goes (ev_tcp_connected x) s = kept-Goes m m v refl refl refl refl v.index
  react_established-Goes (ev_tcp_connect_fail x) s = kept-Goes m m v refl refl refl refl v.index

  react-Goes : (e : Event) (s : SmState) → m.state ≡ s → Goes m (react s a e m)
  unfolding react
  react-Goes e SmState.idle s = react_idle-Goes e s
  react-Goes e SmState.disconnect s = react_disconnect-Goes e s
  react-Goes e SmState.connect s = react_connect-Goes e s
  react-Goes e SmState.client_init s = react_client_init-Goes e s
  react-Goes e SmState.established s = react_established-Goes e s

-- Whatever the event, for a manager that gives a session for every server, the client's machine
-- processes it without following a null pointer, moves along an edge of its state graph, and stays
-- valid: it holds a session exactly in Connect, ClientInit and Established, its hold timer runs
-- only in Idle and its connect timer only in Connect and ClientInit, and the index of the
-- collector is one of the list.
pub dequeue_event-Goes :
    (cancelled : Bool) (a : Answers) (e : Event) (m : SandeshClientSm)
    → Opens a
    → IsValid m
    → Goes m (dequeue_event cancelled a e m)
unfolding dequeue_event
dequeue_event-Goes cancelled a e m opens v =
    let unchanged = kept-Goes m m v refl refl refl refl v.index in
    if-Goes m.deleted m _ _ unchanged
      (if-Goes (validate cancelled e) m _ _ (react-Goes a opens m v e m.state refl) unchanged)
