-- ===== src/SandeshStateMachine/Receive.antt =====
-- `OnSandeshMessage` with the drop levels, and the count of the work queue in bytes:
-- sandesh/library/cpp/sandesh_state_machine.cc, and `DoDropSandeshMessage` of
-- sandesh/library/cpp/sandesh.cc. A raw message is a number; the builder and the header reader are
-- the record `MessageReader`, and headers and message types are numbers.
use tf_common.Common.{
  ℕ, ◌+◌, ◌-◌, ◌<◌, ◌%◌, ◌^◌, ◌≡◌, refl, inl, inr, Bool, true, false, not, ◌&&◌, ◌||◌, Option, none,
  some, [], ◌∷◌, if◌then◌else◌, arith, Bool-cases, ◌==◌, leb, length, length-append,
}
use tf_common.SandeshStateMachine.{
  SandeshStateMachine, Event, ev_sandesh_message_recv, ev_sandesh_ctrl_message_recv, enqueue,
}

-- The types that the drop level applies to, and the rest.
pub data SandeshType : Type 0 where
  system object flow session other : SandeshType

pub record SandeshMessage : Type 0 where
  pub stype : SandeshType
  pub level : ℕ
  pub control_hint : Bool
  pub header : ℕ
  pub message_type : ℕ

pub record MessageReader : Type 0 where
  pub create : ℕ → Option SandeshMessage
  pub extract_msg_header : ℕ → Option (ℕ × ℕ)

abbrev pub has_drop_level : SandeshType → Bool
has_drop_level other = false
has_drop_level _ = true

abbrev pub is_flow : SandeshType → Bool
is_flow flow = true
is_flow session = true
is_flow _ = false

pub do_drop_sandesh_message : Bool → SandeshMessage → ℕ → Bool
do_drop_sandesh_message flow_collection_disabled msg drop_level =
    if has_drop_level msg.stype && leb drop_level msg.level
    then true
    else flow_collection_disabled && is_flow msg.stype

pub set_sandesh_message_drop_level : ℕ → SandeshStateMachine → SandeshStateMachine
set_sandesh_message_drop_level level m =
    if m.message_drop_level == level then m else record m { message_drop_level = level }

pub update_rx_msg_stats : SandeshStateMachine → SandeshStateMachine
update_rx_msg_stats m = record m {
  message_stats = record (m.message_stats) { received = m.message_stats.received + 1 };
}

pub update_decoding_failed : SandeshStateMachine → SandeshStateMachine
update_decoding_failed m = record m {
  message_stats = record (m.message_stats) {
    decoding_failed = m.message_stats.decoding_failed + 1;
  };
}

pub update_queue_level : SandeshStateMachine → SandeshStateMachine
update_queue_level m = record m {
  message_stats = record (m.message_stats) { queue_level = m.message_stats.queue_level + 1 };
}

pub update_control_msg_failed : SandeshStateMachine → SandeshStateMachine
update_control_msg_failed m = record m {
  message_stats = record (m.message_stats) {
    control_msg_failed = m.message_stats.control_msg_failed + 1;
  };
}

-- A control message, whose header is read a second time and compared.
pub receive_control :
    ℕ → SandeshMessage → Option (ℕ × ℕ) → SandeshStateMachine → Bool × SandeshStateMachine
unfolding update_control_msg_failed update_rx_msg_stats
receive_control raw msg none m = (false, update_control_msg_failed m)
receive_control raw msg (some (ctrl_header, ctrl_type)) m =
    if not (msg.header == ctrl_header) || not (msg.message_type == ctrl_type)
    then (false, update_control_msg_failed m)
    else (true, enqueue (ev_sandesh_ctrl_message_recv raw) (update_rx_msg_stats m))

pub receive :
    MessageReader
    → Bool
    → ℕ
    → Option SandeshMessage
    → SandeshStateMachine
    → Bool × SandeshStateMachine
unfolding update_decoding_failed do_drop_sandesh_message update_queue_level receive_control
receive reader flow_off raw none m = (false, update_decoding_failed m)
receive reader flow_off raw (some msg) m =
    if do_drop_sandesh_message flow_off msg m.message_drop_level
    then (true, update_queue_level m)
    else (if msg.control_hint
        then receive_control raw msg (reader.extract_msg_header raw) m
        else (true, enqueue (ev_sandesh_message_recv raw) (update_rx_msg_stats m)))

pub on_sandesh_message : MessageReader → Bool → ℕ → SandeshStateMachine → Bool × SandeshStateMachine
unfolding receive
on_sandesh_message reader flow_off raw m = receive reader flow_off raw (reader.create raw) m

-- The work queue's count: a message counts with its size, any other event as 1, modulo 2^64.
abbrev pub event_size : (ℕ → ℕ) → Event → ℕ
event_size size (ev_sandesh_message_recv msg) = size msg
event_size size _ = 1

pub atomic_increment_queue_count : (ℕ → ℕ) → Event → ℕ → ℕ
atomic_increment_queue_count size e count = (count + event_size size e) % 2 ^ 64

pub atomic_decrement_queue_count : (ℕ → ℕ) → Event → ℕ → ℕ
atomic_decrement_queue_count size e count = (count + (2 ^ 64 - event_size size e)) % 2 ^ 64

-- What a received message leaves: one more message counted, an event for each message that is
-- counted as received, and none for a message that is refused.
pub record Accounted (m : SandeshStateMachine) (r : Bool × SandeshStateMachine) : Type 0 where
  pub counted :
      r.1.message_stats.received + r.1.message_stats.decoding_failed + r.1.message_stats.queue_level
        + r.1.message_stats.control_msg_failed
      ≡ m.message_stats.received + m.message_stats.decoding_failed + m.message_stats.queue_level
        + m.message_stats.control_msg_failed + 1
  pub queued :
      length r.1.work_queue + m.message_stats.received
      ≡ length m.work_queue + r.1.message_stats.received
  pub refused : r.0 ≡ false → r.1.work_queue ≡ m.work_queue

received-Accounted :
    (e : Event) (m : SandeshStateMachine)
    → m.deleted ≡ false
    → Accounted m (true, enqueue e (update_rx_msg_stats m))
unfolding enqueue update_rx_msg_stats
received-Accounted e m d = simp d (record {
  counted = omega arith;
  queued = let h = length-append m.work_queue (e ∷ []) in omega arith;
  refused = λ q. cc;
})

control_failed-Accounted :
    (m : SandeshStateMachine) → Accounted m (false, update_control_msg_failed m)
unfolding update_control_msg_failed
control_failed-Accounted m = record {
  counted = omega arith;
  queued = omega arith;
  refused = λ _. refl;
}

receive_control-Accounted :
    (raw : ℕ) (msg : SandeshMessage) (ctrl : Option (ℕ × ℕ)) (m : SandeshStateMachine)
    → m.deleted ≡ false
    → Accounted m (receive_control raw msg ctrl m)
unfolding receive_control
receive_control-Accounted raw msg none m d = control_failed-Accounted m
receive_control-Accounted raw msg (some (ctrl_header, ctrl_type)) m d =
    elim (Bool-cases (not (msg.header == ctrl_header) || not (msg.message_type == ctrl_type))) [
      | inl y ↦ rw y (control_failed-Accounted m)
      | inr n ↦ rw n (received-Accounted (ev_sandesh_ctrl_message_recv raw) m d)
    ]

receive-Accounted :
    (reader : MessageReader) (flow_off : Bool) (raw : ℕ) (msg : Option SandeshMessage)
    (m : SandeshStateMachine)
    → m.deleted ≡ false
    → Accounted m (receive reader flow_off raw msg m)
unfolding receive update_decoding_failed update_queue_level
receive-Accounted reader flow_off raw none m d = record {
  counted = omega arith;
  queued = omega arith;
  refused = λ _. refl;
}
receive-Accounted reader flow_off raw (some msg) m d =
    elim (Bool-cases (do_drop_sandesh_message flow_off msg m.message_drop_level)) [
      | inl y ↦ rw y (record { counted = omega arith; queued = omega arith; refused = λ q. cc })
      | inr n ↦ rw n (elim (Bool-cases msg.control_hint) [
        | inl y ↦ rw y (receive_control-Accounted raw msg (reader.extract_msg_header raw) m d)
        | inr k ↦ rw k (received-Accounted (ev_sandesh_message_recv raw) m d)
      ])
    ]

-- A machine that is not deleted counts each message once, as received or under one reason for
-- dropping it; its queue grows by one event for a message counted as received, and not at all for
-- a refused one.
pub on_sandesh_message-Accounted :
    (reader : MessageReader) (flow_off : Bool) (raw : ℕ) (m : SandeshStateMachine)
    → m.deleted ≡ false
    → Accounted m (on_sandesh_message reader flow_off raw m)
unfolding on_sandesh_message
on_sandesh_message-Accounted reader flow_off raw m d =
    receive-Accounted reader flow_off raw (reader.create raw) m d

-- For a count and an event size below 2^64, taking an event off the queue restores the count from
-- before it was put on.
pub atomic_decrement_queue_count-increment :
    (size : ℕ → ℕ) (e : Event) (count : ℕ)
    → count < 2 ^ 64
    → event_size size e < 2 ^ 64
    → atomic_decrement_queue_count size e (atomic_increment_queue_count size e count) ≡ count
unfolding atomic_decrement_queue_count atomic_increment_queue_count
atomic_decrement_queue_count-increment size e count h k = restored count (event_size size e) h k
  where
    restored : (c z : ℕ) → c < 2 ^ 64 → z < 2 ^ 64 → ((c + z) % 2 ^ 64 + (2 ^ 64 - z)) % 2 ^ 64 ≡ c
    restored c z h k = omega arith
