-- ===== src/TcpMessageReader.antt =====
-- io/tcp_session.h and .cc: `TcpMessageReader`, which cuts the stream that a session reads in
-- buffers into messages. Buffers are lists of bytes, an offset into one counts its bytes. What a
-- subclass and the owner supply is the record `Protocol`: the virtual functions and the receive
-- callback. The value -1 of a length and of `remain_` is `none`; a failed assert and a copy out of
-- bounds are `none`. Lengths are not bounded by the width of `int`.
pub mod Framing
pub mod Copies
pub mod Size
pub mod Reads
pub mod Loop
pub mod Joined
pub mod Queued
pub mod Stream
mod Tests
use tf_common.Common.{
  ℕ, zero, suc, ◌+◌, ◌-◌, ◌*◌, ◌%◌, ◌^◌, min, Bool, true, false, ◌&&◌, ◌||◌, Option, none, some,
  List, [], ◌∷◌, ◌++◌, if◌then◌else◌, ltb, leb, ◌==◌, length, take, drop, map,
}
use tf_common.Task.{◌>>=◌, ◌>>◌, assert, is_none}

-- The length of the message at an offset of a buffer is `none` where its header is not all there.
pub record Protocol : Type 0 where
  pub msg_length : List ℕ → ℕ → Option ℕ
  pub header_len_size : ℕ
  pub max_message_size : ℕ
  pub receive_callback : List ℕ → Bool

pub record TcpMessageReader : Type 0 where
  pub queue : List (List ℕ)
  pub offset : ℕ
  pub remain : Option ℕ

pub data Call : Type 0 where
  receive : List ℕ → Call
  release_buffer : List ℕ → Call

abbrev pub new_reader : TcpMessageReader
new_reader = record { queue = []; offset = 0; remain = none }

-- The loop, on fuel: the size doubles each time, without the wrap of `int`.
unfoldable pub double_up_to : ℕ → ℕ → ℕ → ℕ → ℕ
double_up_to zero max length bufsize = bufsize
double_up_to (suc fuel) max length bufsize =
    let doubled = double_up_to fuel max length (bufsize * 2) in
    if ltb bufsize max && ltb bufsize length then doubled else bufsize

-- `bufsize < n` for the bits of an `int`, which is negative from 2^31 on, and for `n` below 2^31.
pub is_less_int : ℕ → ℕ → Bool
is_less_int bufsize n = leb (2 ^ 31) bufsize || ltb bufsize n

-- The loop on the 32 bits of the `int`.
pub double_int : ℕ → ℕ → ℕ → ℕ → ℕ
unfolding is_less_int
double_int zero max length bufsize = bufsize
double_int (suc fuel) max length bufsize =
    let doubled = double_int fuel max length (bufsize * 2 % 2 ^ 32) in
    if is_less_int bufsize max && is_less_int bufsize length then doubled else bufsize

unfoldable pub alloc_buffer_size : ℕ → Option ℕ → ℕ
alloc_buffer_size max none = max
alloc_buffer_size max (some length) = double_up_to length max length (2 ^ 8)

-- `memcpy` to the end of what a buffer of a capacity holds, `none` out of bounds.
unfoldable pub memcpy : ℕ → List ℕ → List ℕ → ℕ → Option (List ℕ)
memcpy capacity dst source count =
    assert (leb (length dst + count) capacity && leb count (length source))
    >> some (dst ++ take count source)

unfoldable pub copy_queue : ℕ → ℕ → List (List ℕ) → ℕ → List ℕ → Option (List ℕ)
copy_queue capacity msglength [] offset dst = some dst
copy_queue capacity msglength (head ∷ queue) offset dst =
    let bytes = length head - offset in
    assert (ltb (length dst + bytes) msglength)
    >> (memcpy capacity dst (drop offset head) bytes >>= λ copied.
        copy_queue capacity msglength queue 0 copied)

-- The buffers left the queue for the session.
abbrev release_all : TcpMessageReader → ℕ → TcpMessageReader
release_all r offset =
    let drained : List (List ℕ) → Option ℕ = λ queue. elim queue [ [] ↦ r.remain | _ ∷ _ ↦ none ] in
    record { queue = []; offset = offset; remain = drained r.queue }

unfoldable pub buffer_concat :
    ℕ → TcpMessageReader → List ℕ → ℕ → Option (List ℕ × List Call × TcpMessageReader)
buffer_concat capacity r buffer msglength =
    copy_queue capacity msglength r.queue r.offset [] >>= λ dst.
    let count = msglength - length dst in
    assert (leb (length dst + count) msglength)
    >> (memcpy capacity dst buffer count >>= λ message.
        some (message, map release_buffer r.queue, release_all r count))

abbrev pub byte_length_from : ℕ → ℕ → List (List ℕ) → ℕ
byte_length_from total offset [] = total
byte_length_from total offset (buffer ∷ queue) =
    byte_length_from (if total == 0 then length buffer - offset else total + length buffer) offset
      queue

unfoldable pub queue_byte_length : TcpMessageReader → ℕ
queue_byte_length r = byte_length_from 0 r.offset r.queue

-- The part of a buffer that is still wanted; the assert holds by the choice of the length.
abbrev pub gather : ℕ → List ℕ → List ℕ → List ℕ
gather size dst source = dst ++ take (min (length source) (size - length dst)) source

abbrev pub gather_queue : ℕ → ℕ → List (List ℕ) → List ℕ → List ℕ
gather_queue size offset [] dst = dst
gather_queue size offset (buffer ∷ queue) dst =
    gather_queue size offset queue
      (gather size dst (if length dst == 0 then drop offset buffer else buffer))

-- The first `size` bytes that are not taken, `none` for the null buffer.
unfoldable pub pull_up : TcpMessageReader → List ℕ → ℕ → Option (List ℕ)
pull_up r buffer size =
    let dst = gather size (gather_queue size r.offset r.queue []) buffer in
    if ltb (length dst) size then none else some dst

abbrev pub push_back : TcpMessageReader → List ℕ → TcpMessageReader
push_back r buffer = record r { queue = r.queue ++ buffer ∷ [] }

unfoldable pub after_message :
    Bool
    → Call
    → TcpMessageReader
    → Option (TcpMessageReader × List Call)
    → Option (TcpMessageReader × List Call)
after_message false call r rest = some (r, call ∷ [])
after_message true call r rest = rest >>= λ s. some (s.0, call ∷ s.1)

-- After the loop: what is left is queued, a buffer that is used up is released.
unfoldable pub finish : List ℕ → ℕ → TcpMessageReader → Option (TcpMessageReader × List Call)
finish buffer avail r =
    let released = record r { offset = 0 } in
    if ltb 0 avail
    then some (push_back r buffer, [])
    else assert (is_none r.remain) >> some (released, release_buffer buffer ∷ [])

unfoldable pub cut :
    Protocol
    → List ℕ
    → TcpMessageReader
    → ℕ
    → Option ℕ
    → (TcpMessageReader → ℕ → Option (TcpMessageReader × List Call))
    → Option (TcpMessageReader × List Call)
cut p buffer r avail none continue = finish buffer avail r
cut p buffer r avail (some msglength) continue =
    let message = take msglength (drop r.offset buffer) in
    let next = record r { offset = r.offset + msglength } in
    let rest = continue next (avail - msglength) in
    if ltb avail msglength
    then finish buffer avail (record r { remain = some (msglength - avail) })
    else after_message (p.receive_callback message) (receive message) next rest

-- The loop over a buffer, on fuel.
unfoldable pub read_buffer :
    Protocol → List ℕ → ℕ → TcpMessageReader → ℕ → Option (TcpMessageReader × List Call)
read_buffer p buffer zero r avail = if avail == 0 then finish buffer avail r else none
read_buffer p buffer (suc fuel) r avail =
    if avail == 0
    then finish buffer avail r
    else cut p buffer r avail (p.msg_length buffer r.offset) (read_buffer p buffer fuel)

-- From a buffer's offset to its end.
unfoldable pub read_from :
    Protocol → List ℕ → TcpMessageReader → Option (TcpMessageReader × List Call)
read_from p buffer r = let avail = length buffer - r.offset in read_buffer p buffer avail r avail

-- The message whose first part is queued.
unfoldable pub complete :
    Protocol → TcpMessageReader → List ℕ → ℕ → Option (TcpMessageReader × List Call)
complete p r buffer msglength =
    buffer_concat (alloc_buffer_size p.max_message_size (some msglength)) r buffer msglength
    >>= λ (dst, calls, next).
        assert (is_none next.remain)
        >> (after_message (p.receive_callback dst) (receive dst) next (read_from p buffer next)
            >>= λ (end, more). some (end, calls ++ more))

unfoldable pub fill :
    Protocol → TcpMessageReader → List ℕ → ℕ → Option ℕ → Option (TcpMessageReader × List Call)
fill p r buffer msglength none = none
fill p r buffer msglength (some remain) =
    let size = length buffer in
    let queued = record r { queue = r.queue ++ buffer ∷ []; remain = some (remain - size) } in
    assert (ltb 0 remain)
    >> (if ltb size remain then some (queued, []) else complete p r buffer msglength)

-- The header is not all in the first buffer.
unfoldable pub pull_header :
    Protocol → TcpMessageReader → List ℕ → Option (TcpMessageReader × List Call)
pull_header p r buffer =
    let queuelen = queue_byte_length r in
    if ltb (queuelen + length buffer) p.header_len_size
    then some (push_back r buffer, [])
    else (pull_up r buffer p.header_len_size >>= λ header. p.msg_length header 0 >>= λ msglength.
        let remain = some (msglength - queuelen) in
        fill p (record r { remain = remain }) buffer msglength remain)

unfoldable pub on_known :
    Protocol → TcpMessageReader → List ℕ → Option ℕ → Option (TcpMessageReader × List Call)
on_known p r buffer none = pull_header p r buffer
on_known p r buffer (some msglength) = fill p r buffer msglength r.remain

abbrev pub on_front :
    Protocol → TcpMessageReader → List ℕ → List (List ℕ) → Option (TcpMessageReader × List Call)
on_front p r buffer [] = read_from p buffer r
on_front p r buffer (front ∷ _) = on_known p r buffer (p.msg_length front r.offset)

unfoldable pub on_read :
    Protocol → TcpMessageReader → List ℕ → Option (TcpMessageReader × List Call)
on_read p r buffer = on_front p r buffer r.queue

-- The buffers that a session reads, one after the other.
unfoldable pub on_reads :
    Protocol → TcpMessageReader → List (List ℕ) → Option (TcpMessageReader × List Call)
on_reads p r [] = some (r, [])
on_reads p r (buffer ∷ buffers) = on_read p r buffer >>= λ (next, calls).
    on_reads p next buffers >>= λ (end, more). some (end, calls ++ more)
