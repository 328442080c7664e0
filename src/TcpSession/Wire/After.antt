-- ===== src/TcpSession/Wire/After.antt =====
-- What a completed write makes of an open session, its strand and its socket.
use tf_common.Common.{
  ℕ, ◌+◌, ◌-◌, ◌≤◌, ◌≡◌, ◌⊎◌, inl, inr, refl, sym, ap, ◌∙◌, min, Bool, true, false, Option, none,
  some, List, [], ◌∷◌, ◌++◌, if◌then◌else◌, ◌&&◌, ltb, ◌==◌, arith, Bool-cases, length, take, drop,
  append_nil, concat, items_from, items_from_start, append_assoc, take-drop, drop-drop, drop_above,
}
use mathlib.Core.Path.{subst}
use tf_common.Task.{◌>>=◌, ◌>>◌, assert}
use tf_common.TcpSession.{
  released, TcpSession, success, Call, close_internal, async_write_handler, is_write_pending,
  unwritten, min_pending_buffer_size, trigger_async_write, write_head, write_next,
  update_buffer_queue, written_head, unblock_sender, count_written, pop_written,
}
use tf_common.TcpSession.Wire.{Wire, calling}
use tf_common.TcpSession.Wire.Invariant.{pending, writer_at}
use tf_common.TcpSession.Wire.Completing.{readies, with_queue, mapped, writes-one}

-- What a completed write makes of a session: the rest of the queue is under way, or all is written
-- and a close that waited is made.
abbrev pub Onward : Wire → TcpSession → List (List ℕ) → ℕ → Wire → Type 0
Onward y s queue offset z =
    (z.session.closed ≡ false)
    × ((bytes : List ℕ) × (z.writing ≡ some bytes))
    × (z.session.writer.buffer_queue ≡ queue)
    × (z.session.writer.offset ≡ offset)
    × (z.session.writer.buffer_send_size ≡ s.writer.buffer_send_size)
    × (z.session.tcp_close_in_progress ≡ s.tcp_close_in_progress)

abbrev pub Done : TcpSession → Wire → Type 0
Done s z = (z.wire ≡ z.accepted) × (z.session.closed ≡ s.tcp_close_in_progress)

abbrev pub After : Wire → TcpSession → List (List ℕ) → ℕ → Option Wire → Type 0
After y s queue offset o =
    (z : Wire) × (o ≡ some z) × (z.accepted ≡ y.accepted) × (Done s z ⊎ Onward y s queue offset z)

pub triggered-After :
    (y : Wire) (s : TcpSession) (ready : Bool) (head : List ℕ) (queue : List (List ℕ)) (offset : ℕ)
    → let t = with_queue s (head ∷ queue) offset 0 in
      s.closed ≡ false
      → After y s (head ∷ queue) offset (
          trigger_async_write t >>= λ (u, calls).
          some (calling y (u, calls ++ readies ready success)))
unfolding trigger_async_write write_head calling
triggered-After y s ready head queue offset c =
    let n = min s.writer.buffer_send_size (length head - offset) in
    let bytes = take n (drop offset head) in
    (_, refl, refl, inr (c, (bytes, writes-one ready success (some bytes)), refl, refl, refl, refl))

write_next-After :
    (y : Wire) (s : TcpSession) (ready : Bool) (queue : List (List ℕ)) (offset : ℕ)
    → let t = with_queue s queue offset 0 in
      s.closed ≡ false
      → y.wire ++ pending t.writer ≡ y.accepted
      → After y s queue offset
          (write_next success (is_write_pending t.writer) ready t >>= λ r. some (calling y r))
unfolding write_next calling close_internal
write_next-After y s ready (head ∷ queue) offset c whole =
    let (z, e, same, after) = triggered-After y s ready head queue offset c in
    (z, mapped (trigger_async_write (with_queue s (head ∷ queue) offset 0)) _ _ ∙ e, same, after)
write_next-After y s ready [] offset c whole =
    let t = with_queue s [] offset 0 in
    let shut = close_internal success true true t in
    let split : Bool → Option Wire =
      λ b. (if b then some shut else some (t, readies ready success)) >>= λ r. some (calling y r) in
    let all : y.wire ≡ y.accepted = sym (append_nil y.wire) ∙ whole in
    elim (Bool-cases s.tcp_close_in_progress) [
      | inl e ↦ (calling y shut, ap split e, refl, inl (all, sym e))
      | inr e ↦ (calling y (t, readies ready success), ap split e, refl, inl (all, c ∙ sym e))
    ]

unblocked-After :
    (now : ℕ) (y : Wire) (s : TcpSession) (queue : List (List ℕ)) (offset : ℕ)
    → let (ready, u) = unblock_sender now (with_queue s queue offset 0) in
      s.closed ≡ false
      → y.wire ++ pending (writer_at queue offset 0 s.writer.buffer_send_size) ≡ y.accepted
      → After y s queue offset
          (write_next success (is_write_pending u.writer) ready u >>= λ r. some (calling y r))
unfolding unblock_sender
unblocked-After now y s queue offset c whole =
    let t = with_queue s queue offset 0 in
    let low = s.write_is_blocked && ltb (unwritten t.writer) min_pending_buffer_size in
    let u : Bool → TcpSession = λ b. if b then released now t else t in
    let Is : Bool → Type 0 = λ b.
      After y s queue offset
        (write_next success (is_write_pending (u b).writer) b (u b) >>= λ r. some (calling y r)) in
    elim (Bool-cases low) [
      | inl e ↦ subst Is (sym e) (write_next-After y (released now t) true queue offset c whole)
      | inr e ↦ subst Is (sym e) (write_next-After y s false queue offset c whole)
    ]

-- The queue, and the offset, when the bytes that were with the socket are written.
abbrev pub left_queue : Bool → List ℕ → List (List ℕ) → List (List ℕ)
left_queue all head queue = if all then queue else head ∷ queue

abbrev pub left_offset : Bool → ℕ → ℕ
left_offset all next = if all then 0 else next

-- What is written and what is left are what was held.
left_whole :
    (wire accepted head : List ℕ) (queue : List (List ℕ)) (offset n : ℕ)
    → wire ++ items_from offset (head ∷ queue) ≡ accepted
    → let all = offset + n == length head in
      (wire ++ take n (drop offset head))
        ++ items_from (left_offset all (offset + n)) (left_queue all head queue)
      ≡ accepted
left_whole wire accepted head queue offset n whole =
    let left = drop offset head in
    let bytes = take n left in
    let next = drop (offset + n) head in
    let Is : Bool → Type 0 = λ b.
      (wire ++ bytes) ++ items_from (left_offset b (offset + n)) (left_queue b head queue)
      ≡ accepted in
    let held : bytes ++ (next ++ concat queue) ≡ left ++ concat queue =
      ap (λ l. bytes ++ (l ++ concat queue)) (sym (drop-drop n offset (offset + n) head refl))
      ∙ sym (append_assoc bytes (drop n left) (concat queue))
      ∙ ap (λ l. l ++ concat queue) (take-drop n left) in
    let still : (wire ++ bytes) ++ (next ++ concat queue) ≡ accepted =
      append_assoc wire bytes (next ++ concat queue) ∙ ap (λ l. wire ++ l) held ∙ whole in
    elim (Bool-cases (offset + n == length head)) [
      | inl e ↦
          let used : length head ≤ offset + n = ground arith in
          let moved : items_from 0 queue ≡ next ++ concat queue =
            items_from_start queue
            ∙ ap (λ l. l ++ concat queue) (sym (drop_above (offset + n) head used)) in
          subst Is (sym e) (ap (λ l. (wire ++ bytes) ++ l) moved ∙ still)
      | inr e ↦ subst Is (sym e) still
    ]

pub written-After :
    (now : ℕ) (y : Wire) (s : TcpSession) (head : List ℕ) (queue : List (List ℕ)) (offset n : ℕ)
    → let t = with_queue s (head ∷ queue) offset n in
      let z = record y { writing = none; wire = y.wire ++ take n (drop offset head) } in
      let all = offset + n == length head in
      s.closed ≡ false
      → y.wire ++ pending t.writer ≡ y.accepted
      → After y s
          (left_queue all head queue)
          (left_offset all (offset + n))
          (async_write_handler now success n t >>= λ r. some (calling z r))
unfolding async_write_handler update_buffer_queue count_written pop_written
written-After now y s head queue offset n c whole =
    let t = with_queue s (head ∷ queue) offset n in
    let z = record y { writing = none; wire = y.wire ++ take n (drop offset head) } in
    let counted = count_written n t in
    let all = offset + n == length head in
    let same : (n == n) ≡ true = ground arith in
    let go_on : Bool → Option (TcpSession × List Call) = λ b.
      (assert b >> written_head now n counted (head ∷ queue)) >>= λ (more, ready, u).
      write_next success more ready u in
    let (x, e, kept, after) =
      unblocked-After now z counted (left_queue all head queue) (left_offset all (offset + n)) c
        (left_whole y.wire y.accepted head queue offset n whole) in
    (
      x,
      ap (λ b. (if b then some (t, []) else go_on (n == n)) >>= λ r. some (calling z r)) c
          ∙ ap (λ b. go_on b >>= λ r. some (calling z r)) same
          ∙ e,
      kept,
      after,
    )
