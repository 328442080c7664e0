-- ===== src/TcpMessageReader/Copies.antt =====
-- The copies of a message reader: sizes, the header put together, the message put together.
use tf_common.Common.{
  items_from, items_from_start, ℕ, zero, suc, ◌+◌, ◌-◌, ◌*◌, ◌^◌, ◌≤◌, ◌<◌, ◌≡◌, refl, sym, ap, ◌∙◌,
  false, Option, none, some, List, [], ◌∷◌, ◌++◌, ltb, leb, ◌==◌, ◌&&◌, if◌then◌else◌, arith,
  length, take, drop, concat, append_assoc, append_nil, length-append, length-take, length-drop,
  take-append, left-take, take_positive, length-drop, take-min, take_above, map,
}
use mathlib.Core.Path.{subst}
use tf_common.Task.{opens, passes}
use tf_common.TcpMessageReader.{
  TcpMessageReader, alloc_buffer_size, double_up_to, memcpy, copy_queue, buffer_concat,
  byte_length_from, gather, gather_queue, pull_up, release_buffer,
}

abbrev pub pending : TcpMessageReader → List ℕ
pending r = items_from r.offset r.queue

double_up_to_lem :
    (fuel max n size : ℕ) → n ≤ max → 0 < size → n < fuel + size → n ≤ double_up_to fuel max n size
unfolding double_up_to
double_up_to_lem zero max n size h p k = omega arith
double_up_to_lem (suc fuel) max n size h p k =
    let rest = double_up_to_lem fuel max n (size * 2) h (omega arith) (omega arith) in ground arith

-- The buffer of a message of at most the largest size holds it.
pub alloc_buffer_size_holds : (max n : ℕ) → n ≤ max → n ≤ alloc_buffer_size max (some n)
unfolding alloc_buffer_size
alloc_buffer_size_holds max n h = double_up_to_lem n max n (2 ^ 8) h (omega arith) (omega arith)

byte_length_from_lem :
    (total offset : ℕ) (queue : List (List ℕ))
    → 0 < total
    → byte_length_from total offset queue ≡ total + length (concat queue)
byte_length_from_lem total offset [] h = omega arith
byte_length_from_lem total offset (b ∷ queue) h =
    let started : (total == 0) ≡ false = ground arith in
    let rest = byte_length_from_lem (total + length b) offset queue (omega arith) in
    let sum : total + length b + length (concat queue) ≡ total + length (b ++ concat queue) =
      omega (arith, length-append b (concat queue)) in
    ap (λ t. byte_length_from (if t then length b - offset else total + length b) offset queue)
      started
    ∙ rest
    ∙ sum

pub byte_length_from_front :
    (offset : ℕ) (front : List ℕ) (queue : List (List ℕ))
    → offset < length front
    → byte_length_from 0 offset (front ∷ queue) ≡ length (items_from offset (front ∷ queue))
byte_length_from_front offset front queue h =
    let sum : length front - offset + length (concat queue)
        ≡ length (drop offset front ++ concat queue) =
      omega (arith, length-append (drop offset front) (concat queue), length-drop offset front) in
    byte_length_from_lem (length front - offset) offset queue (omega arith) ∙ sum

-- What is put together so far are the first bytes of what is to come.
gather_lem :
    (size : ℕ) (dst source : List ℕ)
    → gather size (take size dst) source ≡ take size (dst ++ source)
gather_lem size dst source =
    ap (λ l. take size dst ++ l) (take-min (size - length (take size dst)) source)
    ∙ ap (λ j. take size dst ++ take j source) (left-take size dst)
    ∙ sym (take-append size dst source)

gather_queue_lem :
    (size offset : ℕ) (queue : List (List ℕ)) (dst : List ℕ)
    → 0 < length (take size dst)
    → gather_queue size offset queue (take size dst) ≡ take size (dst ++ concat queue)
gather_queue_lem size offset [] dst h = ap (take size) (sym (append_nil dst))
gather_queue_lem size offset (b ∷ queue) dst h =
    let started : (length (take size dst) == 0) ≡ false = ground arith in
    let more : 0 < length (take size (dst ++ b)) = omega (
      arith,
      ap length (take-append size dst b),
      length-append (take size dst) (take (size - length dst) b),
    ) in
    ap
      (λ t.
        gather_queue size offset queue
          (gather size (take size dst) (if t then drop offset b else b)))
      started
    ∙ ap (gather_queue size offset queue) (gather_lem size dst b)
    ∙ gather_queue_lem size offset queue (dst ++ b) more
    ∙ ap (take size) (append_assoc dst b (concat queue))

-- The header is the first bytes of what is queued and what has come.
pub pull_up_lem :
    (offset : ℕ) (remain : Option ℕ) (front : List ℕ) (queue : List (List ℕ)) (buffer : List ℕ)
    (size : ℕ)
    → offset < length front
    → 0 < size
    → size ≤ length (items_from offset (front ∷ queue) ++ buffer)
    → pull_up (record { queue = front ∷ queue; offset = offset; remain = remain }) buffer size
      ≡ some (take size (items_from offset (front ∷ queue) ++ buffer))
unfolding pull_up
pull_up_lem offset remain front queue buffer size h k l =
    let bytes = items_from offset (front ∷ queue) in
    let whole_size : size - 0 ≡ size = omega arith in
    let first : 0 < length (take size (drop offset front)) =
      take_positive size (drop offset front) k (omega (arith, length-drop offset front)) in
    let queued : gather_queue size offset (front ∷ queue) [] ≡ take size bytes =
      ap (λ d. gather_queue size offset queue d) (take-min (size - 0) (drop offset front))
      ∙ ap (λ j. gather_queue size offset queue (take j (drop offset front))) whole_size
      ∙ gather_queue_lem size offset queue (drop offset front) first in
    let whole = ap (λ d. gather size d buffer) queued ∙ gather_lem size bytes buffer in
    let full : ltb (length (take size (bytes ++ buffer))) size ≡ false =
      let exact = length-take size (bytes ++ buffer) l in ground arith in
    ap (λ d. if ltb (length d) size then none else some d) whole
    ∙ ap (λ t. if t then none else some (take size (bytes ++ buffer))) full

memcpy_lem :
    (capacity : ℕ) (dst source : List ℕ) (count : ℕ)
    → length dst + count ≤ capacity
    → count ≤ length source
    → memcpy capacity dst source count ≡ some (dst ++ take count source)
unfolding memcpy
memcpy_lem capacity dst source count h k =
    passes {b = leb (length dst + count) capacity && leb count (length source)} (ground arith) refl

-- The queue's bytes, after those copied, if they are fewer than the message's and fit.
copy_queue_lem :
    (capacity n : ℕ) (queue : List (List ℕ)) (offset : ℕ) (dst : List ℕ)
    → length (dst ++ items_from offset queue) < n
    → n ≤ capacity
    → copy_queue capacity n queue offset dst ≡ some (dst ++ items_from offset queue)
unfolding copy_queue
copy_queue_lem capacity n [] offset dst h k = ap some (sym (append_nil dst))
copy_queue_lem capacity n (b ∷ queue) offset dst h k =
    let bytes = length b - offset in
    let cp = drop offset b in
    let size = length-append dst (cp ++ concat queue) in
    let size' = length-append cp (concat queue) in
    let part : length cp ≡ bytes = length-drop offset b in
    let same : dst ++ take bytes cp ≡ dst ++ cp =
      ap (λ l. dst ++ l) (take_above bytes cp (omega arith)) in
    let moved : (dst ++ cp) ++ items_from 0 queue ≡ dst ++ (cp ++ concat queue) =
      ap (λ l. (dst ++ cp) ++ l) (items_from_start queue) ∙ append_assoc dst cp (concat queue) in
    let shorter : length ((dst ++ cp) ++ items_from 0 queue) < n =
      subst (λ l. length l < n) (sym moved) h in
    passes {b = ltb (length dst + bytes) n} (ground arith) (
      opens (λ copied. copy_queue capacity n queue 0 copied)
        (memcpy_lem capacity dst cp bytes (omega arith) (omega arith) ∙ ap some same)
        (copy_queue_lem capacity n queue 0 (dst ++ cp) shorter k ∙ ap some moved))

-- The first bytes of the message are the queue's, the others the buffer's.
pub buffer_concat_lem :
    (capacity offset : ℕ) (remain : Option ℕ) (front : List ℕ) (queue : List (List ℕ))
    (buffer : List ℕ) (n : ℕ)
    → length (items_from offset (front ∷ queue)) < n
    → n ≤ length (items_from offset (front ∷ queue)) + length buffer
    → n ≤ capacity
    → let bytes = items_from offset (front ∷ queue) in
      let count = n - length bytes in
      buffer_concat capacity
        (record { queue = front ∷ queue; offset = offset; remain = remain })
        buffer
        n
      ≡ some (
        bytes ++ take count buffer,
        map release_buffer (front ∷ queue),
        record { queue = []; offset = count; remain = none },
      )
unfolding buffer_concat
buffer_concat_lem capacity offset remain front queue buffer n h k l =
    let bytes = items_from offset (front ∷ queue) in
    let count = n - length bytes in
    opens _ (copy_queue_lem capacity n (front ∷ queue) offset [] h l) (
      passes {b = leb (length bytes + count) n} (ground arith)
        (opens _ (memcpy_lem capacity bytes buffer count (omega arith) (omega arith)) refl))
