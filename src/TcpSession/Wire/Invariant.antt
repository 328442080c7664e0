-- ===== src/TcpSession/Wire/Invariant.antt =====
-- What holds of a session, its strand and its socket between two events.
use tf_common.Common.{
  some_injective, ℕ, suc, ◌+◌, ◌-◌, ◌≤◌, ◌≡◌, ◌⊎◌, inl, inr, refl, sym, ap, ◌∙◌, min, Bool, true,
  false, Option, none, some, List, [], ◌∷◌, ◌++◌, if◌then◌else◌, ◌&&◌, arith, length, take, drop,
  concat, items_from, items_from-append, append_assoc, append_nil, take-drop,
}
use mathlib.Core.Option.{none-ne-some}
use tf_common.Task.{is_empty}
use tf_common.TcpSession.{
  TcpSession, TcpMessageWriter, Call, post_write, is_write_pending, unwritten,
  min_pending_buffer_size, buffer_append, total_size,
}
use tf_common.TcpSession.Wire.{Wire, posts, writes}

-- The bytes that the writer holds and has not been told to be written.
abbrev pub pending : TcpMessageWriter → List ℕ
pending w = items_from w.offset w.buffer_queue

-- Nothing is queued and nothing goes on, or either a write is posted or the head's next bytes are
-- with the socket.
abbrev pub Busy : TcpMessageWriter → List (List ℕ) → ℕ → Option (List ℕ) → Type 0
Busy w [] posted writing = (w.offset ≡ 0) × (w.last_write ≡ 0) × (posted ≡ 0) × (writing ≡ none)
Busy w (head ∷ _) posted writing =
    (w.offset ≤ length head)
    × (((w.last_write ≡ 0) × (posted ≡ 1) × (writing ≡ none))
        ⊎ ((w.last_write ≡ min w.buffer_send_size (length head - w.offset))
            × (posted ≡ 0)
            × (writing ≡ some (take w.last_write (drop w.offset head)))))

-- An open session: what is written and what is held is what was accepted; a blocked sender has
-- much to wait for, a close that waits has something to wait for.
abbrev pub Open : TcpSession → ℕ → Option (List ℕ) → List ℕ → List ℕ → Type 0
Open s posted writing wire accepted =
    (s.has_server ≡ true)
    × Busy s.writer s.writer.buffer_queue posted writing
    × (wire ++ pending s.writer ≡ accepted)
    × (s.write_is_blocked ≡ true → min_pending_buffer_size ≤ unwritten s.writer)
    × (s.tcp_close_in_progress ≡ true → is_write_pending s.writer ≡ true)

-- A closed session: what is written, and what the socket may still write, is a beginning of what
-- was accepted.
abbrev pub Shut : TcpSession → Option (List ℕ) → List ℕ → List ℕ → Type 0
Shut s writing wire accepted =
    (s.established ≡ false)
    × ((rest : List ℕ) × (wire ++ rest ≡ accepted)
        × ((bytes : List ℕ) → writing ≡ some bytes → (tail : List ℕ) × (rest ≡ bytes ++ tail)))

abbrev pub Status : Bool → TcpSession → ℕ → Option (List ℕ) → List ℕ → List ℕ → Type 0
Status true s posted writing wire accepted = Shut s writing wire accepted
Status false s posted writing wire accepted = Open s posted writing wire accepted

abbrev pub IsWire : Wire → Type 0
IsWire y = Status y.session.closed y.session y.posted y.writing y.wire y.accepted

-- What the socket was given is the beginning of what is held.
written_of :
    (w : TcpMessageWriter) (queue : List (List ℕ)) (posted : ℕ) (writing : Option (List ℕ))
    (bytes : List ℕ)
    → Busy w queue posted writing
    → writing ≡ some bytes
    → (tail : List ℕ) × (items_from w.offset queue ≡ bytes ++ tail)
written_of w [] posted writing bytes (_, _, _, idle) e = absurd (none-ne-some bytes (sym idle ∙ e))
written_of w (head ∷ queue) posted writing bytes (_, inl (_, _, idle)) e =
    absurd (none-ne-some bytes (sym idle ∙ e))
written_of w (head ∷ queue) posted writing bytes (_, inr (_, _, given)) e =
    let left = drop w.offset head in
    let n = w.last_write in
    let same : take n left ≡ bytes = some_injective (sym given ∙ e) in
    (
      drop n left ++ concat queue,
      ap (λ l. l ++ concat queue) (sym (take-drop n left))
          ∙ append_assoc (take n left) (drop n left) (concat queue)
          ∙ ap (λ l. l ++ (drop n left ++ concat queue)) same,
    )

-- When the session closes, whatever state it is in.
pub Status-Shut :
    (c : Bool) (s t : TcpSession) (posted : ℕ) (writing : Option (List ℕ)) (wire accepted : List ℕ)
    → Status c s posted writing wire accepted
    → t.established ≡ false
    → Shut t writing wire accepted
Status-Shut true s t posted writing wire accepted (_, rest) e = (e, rest)
Status-Shut false s t posted writing wire accepted (_, busy, whole, _, _) e = (
  e,
  (
    pending s.writer,
    whole,
    λ bytes g. written_of s.writer s.writer.buffer_queue posted writing bytes busy g,
  ),
)

total_size-append :
    (queue : List (List ℕ)) (bytes : List ℕ)
    → total_size (queue ++ bytes ∷ []) ≡ total_size queue + length bytes
total_size-append [] bytes = omega arith
total_size-append (b ∷ queue) bytes = omega (arith, total_size-append queue bytes)

abbrev pub writer_at : List (List ℕ) → ℕ → ℕ → ℕ → TcpMessageWriter
writer_at queue offset last_write size = record {
  buffer_queue = queue;
  offset = offset;
  last_write = last_write;
  buffer_send_size = size;
}

abbrev pub posting : List (List ℕ) → Bool → List Call
posting queue has_server = if is_empty queue && has_server then post_write ∷ [] else []

-- The sender's bytes join the queue.
pub appended_at :
    (queue : List (List ℕ)) (offset last_write size : ℕ) (bytes wire accepted : List ℕ) (posted : ℕ)
    (writing : Option (List ℕ)) (has_server : Bool)
    → has_server ≡ true
    → Busy (writer_at queue offset last_write size) queue posted writing
    → wire ++ items_from offset queue ≡ accepted
    → let w = writer_at queue offset last_write size in
      let w' = buffer_append bytes w in
      Busy w'
        (queue ++ bytes ∷ [])
        (posts (posting queue has_server) posted)
        (writes (posting queue has_server) writing)
      × (wire ++ items_from offset (queue ++ bytes ∷ []) ≡ accepted ++ bytes)
      × (unwritten w ≤ unwritten w')
      × (is_write_pending w' ≡ true)
appended_at [] offset last_write size bytes wire accepted posted writing has_server e
      (start, idle, no_post, no_write) whole =
    let bytes_first : drop offset bytes ++ [] ≡ bytes =
      append_nil (drop offset bytes) ∙ ap (λ o. drop o bytes) start in
    (
      (
        omega arith,
        inl (
          idle,
          ap (λ b. posts (posting [] b) posted) e ∙ ap suc no_post,
          ap (λ b. writes (posting [] b) writing) e ∙ no_write,
        ),
      ),
      ap (λ l. wire ++ l) bytes_first ∙ ap (λ l. l ++ bytes) (sym (append_nil wire) ∙ whole),
      omega arith,
      refl,
    )
appended_at (head ∷ queue) offset last_write size bytes wire accepted posted writing has_server e
      (h, busy) whole =
    (
      (h, busy),
      ap (λ l. wire ++ l) (sym (items_from-append offset head queue bytes))
          ∙ sym (append_assoc wire (items_from offset (head ∷ queue)) bytes)
          ∙ ap (λ l. l ++ bytes) whole,
      omega (arith, total_size-append queue bytes),
      refl,
    )
