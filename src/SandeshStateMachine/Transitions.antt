-- ===== src/SandeshStateMachine/Transitions.antt =====
-- What an event does to the state, and the invariant of the machine.
use tf_common.Common.{◌≡◌, refl, inl, inr, Bool-cases}
use tf_common.SandeshStateMachine.{
  SsmState, Event, SandeshStateMachine, SandeshConnection, react_idle, react_active,
  react_server_init, react_established, process_event, validate, dequeue_event,
}
use tf_common.SandeshStateMachine.Valid.{Edge, IsValid, Steps, same-Steps}
use tf_common.SandeshStateMachine.Reactions.{
  react_idle-Steps, react_active-Steps, react_server_init-Steps, react_established-Steps,
}

process_event-Steps :
    (c : SandeshConnection) (e : Event) (m : SandeshStateMachine)
    → IsValid m
    → Steps m (process_event c e m)
unfolding process_event
process_event-Steps c e m v = go m.state refl
  where
    go :
        (s : SsmState)
        → m.state ≡ s
        → Steps m (elim s [
          | SsmState.idle ↦ react_idle e m
          | SsmState.active ↦ react_active e m
          | SsmState.server_init ↦ react_server_init c e m
          | SsmState.established ↦ react_established c e m
        ])
    go SsmState.idle s = react_idle-Steps e m s v
    go SsmState.active s = react_active-Steps e m s v
    go SsmState.server_init s = react_server_init-Steps c e m s v
    go SsmState.established s = react_established-Steps c e m s v

dequeue_event-Steps :
    (c : SandeshConnection) (e : Event) (m : SandeshStateMachine)
    → IsValid m
    → Steps m (dequeue_event c e m)
unfolding dequeue_event
dequeue_event-Steps c e m v = elim (Bool-cases m.deleted) [
  | inl y ↦ simp y (same-Steps m v)
  | inr n ↦ simp n (elim (Bool-cases (validate e m)) [
    | inl y ↦ rw y (process_event-Steps c e m v)
    | inr k ↦ rw k (same-Steps m v)
  ])
]

-- Whatever the event and the answers of the connection, a valid machine stays valid: it holds a
-- session exactly in ServerInit and Established, the connection holds the same one, the resource
-- is there only in Established and the hold timer runs only in Idle.
pub dequeue_event-IsValid :
    (c : SandeshConnection) (e : Event) (m : SandeshStateMachine)
    → IsValid m
    → IsValid (dequeue_event c e m)
dequeue_event-IsValid c e m v = (dequeue_event-Steps c e m v).valid

-- An event takes a valid machine nowhere but along the edges of its state graph: it stays, goes
-- from Idle to Active, from Active to ServerInit, from ServerInit to Established, or back to Idle.
pub dequeue_event-Edge :
    (c : SandeshConnection) (e : Event) (m : SandeshStateMachine)
    → IsValid m
    → Edge m.state (dequeue_event c e m).state
dequeue_event-Edge c e m v = (dequeue_event-Steps c e m v).edge

-- In a valid machine whose last state is recorded as its present one, the last state recorded is
-- again the present one after any event that is dequeued, whatever the answers of the connection.
pub dequeue_event-last_state :
    (c : SandeshConnection) (e : Event) (m : SandeshStateMachine)
    → IsValid m
    → m.last_state ≡ m.state
    → (dequeue_event c e m).last_state ≡ (dequeue_event c e m).state
dequeue_event-last_state c e m v = (dequeue_event-Steps c e m v).last
