-- ===== src/TcpSession.antt =====
-- io/tcp_session.cc and .h, `TcpSession`, and io/tcp_message_write.cc and .h, `TcpMessageWriter`: a
-- TCP session and the writer that queues what it sends. Buffers are lists of bytes. The clock is
-- the argument `now`, the calls of the socket, the strand, the observer and the server are
-- returned in their order, and a failed assert is `none`. The session has a socket; lengths are
-- below 2^31, so `AsyncSend` answers no negative length.
pub mod Wire
use tf_common.Common.{
  ℕ, ◌+◌, ◌-◌, ◌*◌, min, Bool, true, false, not, ◌&&◌, Option, none, some, List, [], ◌∷◌, ◌++◌,
  if◌then◌else◌, ltb, ◌==◌, length, take, drop,
}
use tf_common.Task.{◌>>=◌, ◌>>◌, assert, is_empty}

pub data ErrorCode : Type 0 where
  success : ErrorCode
  try_again : ErrorCode
  would_block : ErrorCode
  in_progress : ErrorCode
  interrupted : ErrorCode
  network_down : ErrorCode
  network_reset : ErrorCode
  network_unreachable : ErrorCode
  no_buffer_space : ErrorCode
  other : ℕ → ErrorCode

pub data Event : Type 0 where
  event_none : Event
  accept : Event
  connect_complete : Event
  connect_failed : Event
  close_event : Event

pub data Call : Type 0 where
  post_write : Call
  post_read : Call
  async_write : List ℕ → Call
  shutdown : Call
  close_socket : Call
  observe : Event → Call
  on_session_close : Call
  write_ready : ErrorCode → Call

pub record SocketStats : Type 0 where
  pub read_calls : ℕ
  pub read_bytes : ℕ
  pub read_errors : ℕ
  pub write_calls : ℕ
  pub write_bytes : ℕ
  pub write_errors : ℕ
  pub write_block_start_time : ℕ
  pub write_blocked : ℕ
  pub write_blocked_duration_usecs : ℕ
  pub read_block_start_time : ℕ
  pub read_blocked : ℕ
  pub read_blocked_duration_usecs : ℕ

pub record TcpMessageWriter : Type 0 where
  pub buffer_queue : List (List ℕ)
  pub offset : ℕ
  pub last_write : ℕ
  pub buffer_send_size : ℕ

-- A session with a server has a strand. The buffers that it reads are left out.
pub record TcpSession : Type 0 where
  pub writer : TcpMessageWriter
  pub stats : SocketStats
  pub server_stats : SocketStats
  pub has_server : Bool
  pub has_observer : Bool
  pub read_on_connect : Bool
  pub established : Bool
  pub closed : Bool
  pub close_reason : ErrorCode
  pub defer_reader : Bool
  pub write_is_blocked : Bool
  pub tcp_close_in_progress : Bool

abbrev pub no_stats : SocketStats
no_stats = record {
  read_calls = 0;
  read_bytes = 0;
  read_errors = 0;
  write_calls = 0;
  write_bytes = 0;
  write_errors = 0;
  write_block_start_time = 0;
  write_blocked = 0;
  write_blocked_duration_usecs = 0;
  read_block_start_time = 0;
  read_blocked = 0;
  read_blocked_duration_usecs = 0;
}

abbrev pub new_writer : ℕ → TcpMessageWriter
new_writer buffer_send_size = record {
  buffer_queue = [];
  offset = 0;
  last_write = 0;
  buffer_send_size = buffer_send_size;
}

abbrev pub new_session : Bool → Bool → SocketStats → Bool → ℕ → TcpSession
new_session has_server has_observer server_stats async_read_ready buffer_send_size = record {
  writer = new_writer buffer_send_size;
  stats = no_stats;
  server_stats = server_stats;
  has_server = has_server;
  has_observer = has_observer;
  read_on_connect = async_read_ready;
  established = false;
  closed = false;
  close_reason = success;
  defer_reader = false;
  write_is_blocked = false;
  tcp_close_in_progress = false;
}

-- Only a hard error closes the socket.
abbrev pub is_socket_error_hard : ErrorCode → Bool
is_socket_error_hard (other _) = true
is_socket_error_hard _ = false

abbrev pub max_pending_buffer_size : ℕ
max_pending_buffer_size = 256 * 1024

abbrev pub min_pending_buffer_size : ℕ
min_pending_buffer_size = 64 * 1024

abbrev pub total_size : List (List ℕ) → ℕ
total_size [] = 0
total_size (buffer ∷ queue) = length buffer + total_size queue

abbrev pub get_buffer_queue_size : TcpMessageWriter → ℕ
get_buffer_queue_size w = total_size w.buffer_queue

abbrev pub is_write_pending : TcpMessageWriter → Bool
is_write_pending w = not (is_empty w.buffer_queue)

abbrev pub buffer_append : List ℕ → TcpMessageWriter → TcpMessageWriter
buffer_append bytes w = record w { buffer_queue = w.buffer_queue ++ bytes ∷ [] }

abbrev pub is_established_locked : TcpSession → Bool
is_established_locked s = s.established && not s.tcp_close_in_progress

-- What the writer has still to hand over.
abbrev pub unwritten : TcpMessageWriter → ℕ
unwritten w = get_buffer_queue_size w - w.offset

abbrev pub throttled : ℕ → TcpSession → TcpSession
throttled now s =
    let blocked : SocketStats → SocketStats =
      λ t. record t { write_blocked = t.write_blocked + 1 } in
    record s {
      write_is_blocked = true;
      stats = record (blocked s.stats) { write_block_start_time = now };
      server_stats = blocked s.server_stats;
    }

unfoldable pub block_sender : ℕ → TcpSession → TcpSession
block_sender now s = if s.write_is_blocked then s else throttled now s

unfoldable pub async_send : ℕ → List ℕ → TcpSession → ℕ × List Call × TcpSession
async_send now bytes s =
    let appended = record s { writer = buffer_append bytes s.writer } in
    let full = ltb max_pending_buffer_size (unwritten appended.writer) in
    (
      if full then 0 else length bytes,
      if is_empty s.writer.buffer_queue && s.has_server then post_write ∷ [] else [],
      if full then block_sender now appended else appended,
    )

unfoldable pub write_head : TcpSession → List (List ℕ) → Option (TcpSession × List Call)
write_head s [] = none
write_head s (head ∷ _) =
    let w = s.writer in
    let remaining = length head - w.offset in
    let last_write = min w.buffer_send_size remaining in
    let called : SocketStats → SocketStats = λ t. record t { write_calls = t.write_calls + 1 } in
    some (
      record s {
        writer = record w { last_write = last_write };
        stats = called s.stats;
        server_stats = called s.server_stats;
      },
      async_write (take last_write (drop w.offset head)) ∷ [],
    )

unfoldable pub trigger_async_write : TcpSession → Option (TcpSession × List Call)
trigger_async_write s = assert (s.writer.last_write == 0) >> write_head s s.writer.buffer_queue

unfoldable pub pop_written : ℕ → List ℕ → List (List ℕ) → TcpMessageWriter → TcpMessageWriter
pop_written wrote head queue w =
    let whole = w.offset + wrote == length head in
    record w {
      last_write = 0;
      offset = if whole then 0 else w.offset + wrote;
      buffer_queue = if whole then queue else head ∷ queue;
    }

abbrev pub released : ℕ → TcpSession → TcpSession
released now s =
    let blocked_usecs = now - s.stats.write_block_start_time in
    let unblocked : SocketStats → SocketStats = λ t. record t {
      write_blocked_duration_usecs = t.write_blocked_duration_usecs + blocked_usecs;
    } in
    record s {
      write_is_blocked = false;
      stats = unblocked s.stats;
      server_stats = unblocked s.server_stats;
    }

-- The sender may go on when little is left to write.
unfoldable pub unblock_sender : ℕ → TcpSession → Bool × TcpSession
unblock_sender now s =
    let low = s.write_is_blocked && ltb (unwritten s.writer) min_pending_buffer_size in
    (low, if low then released now s else s)

abbrev pub written_head : ℕ → ℕ → TcpSession → List (List ℕ) → Option (Bool × Bool × TcpSession)
written_head now wrote s [] = none
written_head now wrote s (head ∷ queue) =
    let (send_ready, t) =
      unblock_sender now (record s { writer = pop_written wrote head queue s.writer }) in
    some (is_write_pending t.writer, send_ready, t)

-- Whether there is more to write, and whether the sender may go on.
unfoldable pub update_buffer_queue : ℕ → ℕ → TcpSession → Option (Bool × Bool × TcpSession)
update_buffer_queue now wrote s =
    assert (s.writer.last_write == wrote) >> written_head now wrote s s.writer.buffer_queue

-- The observer is there or not; the socket is shut down once.
unfoldable pub close_internal : ErrorCode → Bool → Bool → TcpSession → TcpSession × List Call
close_internal error call_observer notify_server s = (
  record s {
    closed = true;
    tcp_close_in_progress = false;
    established = false;
    close_reason = if s.established then error else s.close_reason;
  },
  (if s.closed then [] else shutdown ∷ close_socket ∷ [])
      ++ (if s.established && (call_observer && s.has_observer)
          then observe close_event ∷ []
          else [])
      ++ (if s.established && notify_server then on_session_close ∷ [] else []),
)

-- `Close` and `CloseInternal`, which takes the lock again, as one step.
unfoldable pub close : TcpSession → TcpSession × List Call
close s =
    let wait = s.has_server && is_write_pending s.writer in
    if s.closed
    then (s, [])
    else if wait
    then (record s { tcp_close_in_progress = true }, [])
    else close_internal success false true s

-- After the writer's queue is brought up to date.
unfoldable pub write_next : ErrorCode → Bool → Bool → TcpSession → Option (TcpSession × List Call)
write_next error true send_ready s = trigger_async_write s >>= λ (t, calls).
    some (t, calls ++ (if send_ready then write_ready error ∷ [] else []))
write_next error false send_ready s =
    if s.tcp_close_in_progress
    then some (close_internal error true true s)
    else some (s, if send_ready then write_ready error ∷ [] else [])

unfoldable pub count_written : ℕ → TcpSession → TcpSession
count_written wrote s =
    let count : SocketStats → SocketStats = λ t. record t { write_bytes = t.write_bytes + wrote } in
    record s { stats = count s.stats; server_stats = count s.server_stats }

unfoldable pub async_write_handler :
    ℕ → ErrorCode → ℕ → TcpSession → Option (TcpSession × List Call)
async_write_handler now error wrote s =
    let go_on =
      update_buffer_queue now wrote (count_written wrote s) >>= λ (more_write, send_ready, t).
      write_next error more_write send_ready t in
    if is_socket_error_hard error
    then some (close_internal error true true s)
    else if s.closed
    then some (s, [])
    else go_on

unfoldable pub async_write_internal : TcpSession → Option (TcpSession × List Call)
async_write_internal s =
    let triggered = trigger_async_write s in if s.closed then some (s, []) else triggered

-- The answer, and how much was taken.
unfoldable pub send : ℕ → Bool → List ℕ → TcpSession → (Bool × ℕ) × TcpSession × List Call
send now non_blocking bytes s =
    let (len, calls, t) = async_send now bytes s in
    if is_established_locked s
    then if non_blocking then ((len == length bytes, len), t, calls) else ((true, 0), s, [])
    else ((false, 0), s, [])

-- The socket's options, and the names and addresses of the peer, are left out.
unfoldable pub connected : TcpSession → Bool × TcpSession × List Call
connected s = if s.closed then (false, s, []) else (
  true,
  record s { established = true },
  (if s.has_observer then observe connect_complete ∷ [] else [])
      ++ (if s.read_on_connect && s.has_server then post_read ∷ [] else []),
)
