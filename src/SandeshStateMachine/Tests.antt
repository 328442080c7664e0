-- ===== src/SandeshStateMachine/Tests.antt =====
-- The theorems on the state machine at concrete states.
use tf_common.Common.{◌≡◌, refl, true, false, some, []}
use tf_common.SandeshStateMachine.{
  SandeshStateMachine, SandeshConnection, SsmState, ev_sandesh_ctrl_message_recv,
  ev_sandesh_message_recv, dequeue_event,
}
use tf_common.SandeshStateMachine.Valid.{IsValid, Edge}
use tf_common.SandeshStateMachine.Transitions.{
  dequeue_event-IsValid, dequeue_event-Edge, dequeue_event-last_state,
}
use tf_common.SandeshStateMachine.Receive.{
  SandeshType, MessageReader, Accounted, on_sandesh_message, on_sandesh_message-Accounted,
}

-- A machine that waits for the control message of session 7.
abbrev waiting_machine : SandeshStateMachine
waiting_machine = record {
  work_queue = [];
  connection_session = some 7;
  session = some 7;
  state = SsmState.server_init;
  last_state = SsmState.server_init;
  idle_hold_timer_running = false;
  idle_hold_time = 0;
  deleted = false;
  resource = false;
  message_drop_level = 5;
  message_stats = record {
    received = 0;
    decoding_failed = 0;
    queue_level = 0;
    control_msg_failed = 0;
  };
  closed_sessions = [];
  deleted_sessions = [];
  disconnects = [];
  managed_deletes = 0;
}

waiting_machine-IsValid : IsValid waiting_machine
waiting_machine-IsValid = record { agree = refl; held = refl; resource = λ y. cc; timer = λ y. cc }

-- A connection that accepts control messages, and a reader of one control message.
abbrev connection : SandeshConnection
connection = record {
  process_sandesh_ctrl_message = λ _. true;
  process_sandesh_message = λ _ _. false;
  process_resource_update = λ _. true;
}

abbrev reader : MessageReader
reader = record {
  create = λ _. some (record {
    stype = SandeshType.system;
    level = 2;
    control_hint = true;
    header = 1;
    message_type = 4;
  });
  extract_msg_header = λ _. some (1, 4);
}

dequeue_event-IsValid_example :
    IsValid (dequeue_event connection (ev_sandesh_ctrl_message_recv 0) waiting_machine)
dequeue_event-IsValid_example =
    dequeue_event-IsValid connection (ev_sandesh_ctrl_message_recv 0) waiting_machine
      waiting_machine-IsValid

dequeue_event-Edge_example :
    Edge SsmState.server_init
      (dequeue_event connection (ev_sandesh_message_recv 0) waiting_machine).state
dequeue_event-Edge_example =
    dequeue_event-Edge connection (ev_sandesh_message_recv 0) waiting_machine
      waiting_machine-IsValid

dequeue_event-last_state_example :
    (dequeue_event connection (ev_sandesh_ctrl_message_recv 0) waiting_machine).last_state
    ≡ (dequeue_event connection (ev_sandesh_ctrl_message_recv 0) waiting_machine).state
dequeue_event-last_state_example =
    dequeue_event-last_state connection (ev_sandesh_ctrl_message_recv 0) waiting_machine
      waiting_machine-IsValid refl

on_sandesh_message-Accounted_example :
    Accounted waiting_machine (on_sandesh_message reader false 0 waiting_machine)
on_sandesh_message-Accounted_example =
    on_sandesh_message-Accounted reader false 0 waiting_machine refl
