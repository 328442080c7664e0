-- ===== src/SandeshStateMachine/Session.antt =====
-- Sessions that the machine gives up.
use tf_common.Common.{ℕ, ◌≡◌, refl, inl, inr, false, Option, Bool-cases}
use tf_common.SandeshStateMachine.{
  SandeshStateMachine, SandeshConnection, ev_tcp_close, same_session, validate, dequeue_event,
}

-- The close of a session that is neither the connection's nor the machine's changes nothing, in
-- every state.
pub dequeue_event-stale_close :
    (c : SandeshConnection) (x : Option ℕ) (m : SandeshStateMachine)
    → same_session m.connection_session x ≡ false
    → same_session m.session x ≡ false
    → dequeue_event c (ev_tcp_close x) m ≡ m
unfolding dequeue_event validate
dequeue_event-stale_close c x m a b = elim (Bool-cases m.deleted) [
  | inl y ↦ simp y refl
  | inr n ↦ simp (n, a, b) refl
]
