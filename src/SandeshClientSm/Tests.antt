-- ===== src/SandeshClientSm/Tests.antt =====
-- A client that connects, and the theorems at it.
use tf_common.Common.{◌+◌, refl, true, false, none, some, [], ◌∷◌, arith}
use mathlib.Core.Bool.{false≢true}
use tf_common.SandeshClientSm.{SmState, ev_tcp_close, SandeshClientSm, Answers}
use tf_common.SandeshClientSm.Events.{dequeue_event}
use tf_common.SandeshClientSm.Events.Transitions.{dequeue_event-Goes}
use tf_common.SandeshClientSm.Valid.{IsValid, Goes, Opens}

-- Established with the first of two collectors.
abbrev client : SandeshClientSm
client = record {
  work_queue = [];
  session = some 9;
  server = 101;
  collectors = 101 ∷ 102 ∷ [];
  collector_index = 0;
  state = SmState.established;
  last_state = SmState.established;
  connect_timer = none;
  idle_hold_timer = none;
  idle_hold_time = 5000;
  attempts = 0;
  deleted = false;
  connects = 1;
  collector_name = some 7;
  closed_sessions = [];
  deleted_sessions = [];
  started_queues = 9 ∷ [];
  initialized = 1 ∷ [];
  sent = [];
  released = [];
}

client-IsValid : IsValid client
client-IsValid = record {
  session = refl;
  hold = λ h. absurd (false≢true h);
  timer = λ h. absurd (false≢true h);
  index = λ _. omega arith;
}

abbrev answers : Answers
answers = record { create_sm_session = λ server. some (server + 1); receive_msg = λ _. true }

answers-Opens : Opens answers
answers-Opens server = refl

dequeue_event-Goes_example : Goes client (dequeue_event false answers (ev_tcp_close 9) client)
dequeue_event-Goes_example =
    dequeue_event-Goes false answers (ev_tcp_close 9) client answers-Opens client-IsValid
