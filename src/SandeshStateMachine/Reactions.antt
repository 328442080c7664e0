-- ===== src/SandeshStateMachine/Reactions.antt =====
-- The reactions of each state follow the state graph and keep the invariant.
use tf_common.Common.{◌≡◌, refl, sym, ap, ◌∙◌, inl, inr, true, some, Bool-cases, ◌==◌}
use tf_common.SandeshStateMachine.{
  SsmState, Event, ev_start, ev_stop, ev_idle_hold_timer_expired, ev_tcp_passive_open, ev_tcp_close,
  ev_tcp_delete_session, ev_sandesh_message_recv, ev_sandesh_ctrl_message_recv, ev_resource_update,
  SandeshStateMachine, SandeshConnection, set_session, start_idle_hold_timer,
  cancel_idle_hold_timer, delete_tcp_session, react_idle, react_active, react_server_init,
  react_established,
}
use tf_common.SandeshStateMachine.Valid.{
  has_session, is_idle, is_established, IsValid, delete_session-Queues, delete_held-Queues, Steps,
  transit-Steps, drop_to_idle-Steps, transit_to_idle-Steps, delete_tcp_session-Queues, kept-Steps,
  same-Steps, stay, hold_over, opened, accepted,
}

pub react_idle-Steps :
    (e : Event) (m : SandeshStateMachine)
    → m.state ≡ SsmState.idle
    → IsValid m
    → Steps m (react_idle e m)
unfolding react_idle start_idle_hold_timer delete_tcp_session cancel_idle_hold_timer
react_idle-Steps ev_start m s v = elim (Bool-cases (m.idle_hold_time == 0)) [
  | inl y ↦ rw y (
      transit-Steps SsmState.active m m (rw s hold_over) refl v.resource v.timer v.agree
        (v.held ∙ ap has_session s))
  | inr n ↦ rw n (record {
    edge = stay;
    valid = record {
      agree = v.agree;
      held = v.held;
      resource = v.resource;
      timer = λ y. ap is_idle s;
    };
    last = λ e. e;
  })
]
react_idle-Steps ev_stop m s v = record {
  edge = stay;
  valid = record { agree = v.agree; held = v.held; resource = v.resource; timer = λ y. cc };
  last = λ e. e;
}
react_idle-Steps ev_idle_hold_timer_expired m s v =
    transit-Steps SsmState.active m m (rw s hold_over) refl v.resource v.timer v.agree
      (v.held ∙ ap has_session s)
react_idle-Steps (ev_tcp_passive_open x) m s v = kept-Steps m _ (delete_session-Queues x m) v
react_idle-Steps (ev_tcp_delete_session x) m s v = kept-Steps m _ (delete_tcp_session-Queues x m) v
react_idle-Steps (ev_tcp_close x) m s v = same-Steps m v
react_idle-Steps (ev_sandesh_message_recv x) m s v = same-Steps m v
react_idle-Steps (ev_sandesh_ctrl_message_recv x) m s v = same-Steps m v
react_idle-Steps (ev_resource_update b) m s v = same-Steps m v

pub react_active-Steps :
    (e : Event) (m : SandeshStateMachine)
    → m.state ≡ SsmState.active
    → IsValid m
    → Steps m (react_active e m)
unfolding react_active delete_tcp_session set_session
react_active-Steps ev_stop m s v = transit_to_idle-Steps m v
react_active-Steps (ev_tcp_passive_open x) m s v =
    let q = delete_held-Queues m.session m in
    transit-Steps SsmState.server_init m (set_session (some x) m) (rw s opened) q.state
      (λ y. v.resource (sym q.resource ∙ y)) (λ y. v.timer (sym q.timer ∙ y)) refl refl
react_active-Steps (ev_tcp_close x) m s v = drop_to_idle-Steps m m refl v.resource v.timer
react_active-Steps (ev_tcp_delete_session x) m s v =
    kept-Steps m _ (delete_tcp_session-Queues x m) v
react_active-Steps ev_start m s v = same-Steps m v
react_active-Steps ev_idle_hold_timer_expired m s v = same-Steps m v
react_active-Steps (ev_sandesh_message_recv x) m s v = same-Steps m v
react_active-Steps (ev_sandesh_ctrl_message_recv x) m s v = same-Steps m v
react_active-Steps (ev_resource_update b) m s v = same-Steps m v

pub react_server_init-Steps :
    (c : SandeshConnection) (e : Event) (m : SandeshStateMachine)
    → m.state ≡ SsmState.server_init
    → IsValid m
    → Steps m (react_server_init c e m)
unfolding react_server_init delete_tcp_session
react_server_init-Steps c ev_stop m s v = transit_to_idle-Steps m v
react_server_init-Steps c (ev_tcp_close x) m s v = drop_to_idle-Steps m m refl v.resource v.timer
react_server_init-Steps c (ev_sandesh_ctrl_message_recv msg) m s v =
    elim (Bool-cases (c.process_sandesh_ctrl_message msg)) [
      | inl y ↦ rw y (
          transit-Steps SsmState.established m m (rw s accepted) refl v.resource v.timer v.agree
            (v.held ∙ ap has_session s))
      | inr n ↦ rw n (drop_to_idle-Steps m m refl v.resource v.timer)
    ]
react_server_init-Steps c (ev_sandesh_message_recv msg) m s v =
    elim (Bool-cases (c.process_sandesh_message msg true)) [
      | inl y ↦ rw y (same-Steps m v)
      | inr n ↦ rw n (drop_to_idle-Steps m m refl v.resource v.timer)
    ]
react_server_init-Steps c (ev_tcp_delete_session x) m s v =
    kept-Steps m _ (delete_tcp_session-Queues x m) v
react_server_init-Steps c ev_start m s v = same-Steps m v
react_server_init-Steps c ev_idle_hold_timer_expired m s v = same-Steps m v
react_server_init-Steps c (ev_tcp_passive_open x) m s v = same-Steps m v
react_server_init-Steps c (ev_resource_update b) m s v = same-Steps m v

pub react_established-Steps :
    (c : SandeshConnection) (e : Event) (m : SandeshStateMachine)
    → m.state ≡ SsmState.established
    → IsValid m
    → Steps m (react_established c e m)
unfolding react_established delete_tcp_session
react_established-Steps c ev_stop m s v = transit_to_idle-Steps m v
react_established-Steps c (ev_tcp_close x) m s v = drop_to_idle-Steps m _ refl v.resource v.timer
react_established-Steps c (ev_resource_update rsc) m s v =
    elim (Bool-cases (c.process_resource_update rsc)) [
      | inl y ↦ rw y (record {
        edge = stay;
        valid = record {
          agree = v.agree;
          held = v.held;
          resource = λ y. ap is_established s;
          timer = v.timer;
        };
        last = λ e. e;
      })
      | inr n ↦ rw n (drop_to_idle-Steps m _ refl (λ y. ap is_established s) v.timer)
    ]
react_established-Steps c (ev_sandesh_message_recv msg) m s v =
    elim (Bool-cases (c.process_sandesh_message msg m.resource)) [
      | inl y ↦ rw y (same-Steps m v)
      | inr n ↦ rw n (drop_to_idle-Steps m m refl v.resource v.timer)
    ]
react_established-Steps c (ev_tcp_delete_session x) m s v =
    kept-Steps m _ (delete_tcp_session-Queues x m) v
react_established-Steps c ev_start m s v = same-Steps m v
react_established-Steps c ev_idle_hold_timer_expired m s v = same-Steps m v
react_established-Steps c (ev_tcp_passive_open x) m s v = same-Steps m v
react_established-Steps c (ev_sandesh_ctrl_message_recv x) m s v = same-Steps m v
