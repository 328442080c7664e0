-- ===== src/TcpSession/Wire/Completing.antt =====
-- The handlers of a session keep its invariant, and no assert of theirs fails.
use tf_common.Common.{
  ℕ, ◌+◌, ◌-◌, ◌≤◌, ◌≡◌, inl, inr, refl, sym, ap, ◌∙◌, min, Bool, true, false, Option, none, some,
  List, [], ◌∷◌, ◌++◌, if◌then◌else◌, ◌&&◌, ltb, ◌==◌, arith, Bool-cases, length, take, drop,
  concat, items_from, items_from_start, append_assoc, take-drop, drop-drop, drop_above,
}
use mathlib.Core.Path.{subst}
use mathlib.Core.Option.{none-ne-some}
use mathlib.Core.Bool.{false≢true}
use tf_common.Task.{opens, passes, ◌>>=◌, ◌>>◌, assert}
use tf_common.TcpSession.{
  released, TcpSession, SocketStats, ErrorCode, success, Call, async_write, write_ready,
  close_internal, async_write_handler, is_write_pending, unwritten, min_pending_buffer_size,
  trigger_async_write, write_head, write_next, update_buffer_queue, written_head, unblock_sender,
  count_written, pop_written,
}
use tf_common.TcpSession.Wire.{Wire, posts, writes, calling}
use tf_common.TcpSession.Wire.Invariant.{pending, Busy, Status, IsWire, writer_at}
use tf_common.TcpSession.Wire.Closing.{close_internal-IsWire}

abbrev pub Goes : Option Wire → Type 0
Goes o = (z : Wire) × (o ≡ some z) × IsWire z

-- The head of a queue is taken in part.
abbrev Fits : ℕ → List (List ℕ) → Type 0
Fits offset [] = offset ≡ 0
Fits offset (head ∷ _) = offset ≤ length head

posts-one : (b : Bool) (e : ErrorCode) (n : ℕ) → posts (if b then write_ready e ∷ [] else []) n ≡ n
posts-one true e n = refl
posts-one false e n = refl

pub writes-one :
    (b : Bool) (e : ErrorCode) (w : Option (List ℕ))
    → writes (if b then write_ready e ∷ [] else []) w ≡ w
writes-one true e w = refl
writes-one false e w = refl

abbrev pub readies : Bool → ErrorCode → List Call
readies ready error = if ready then write_ready error ∷ [] else []

abbrev pub with_queue : TcpSession → List (List ℕ) → ℕ → ℕ → TcpSession
with_queue s queue offset last_write = record s {
  writer = writer_at queue offset last_write s.writer.buffer_send_size;
}

-- A write is triggered on a queue that is not empty.
pub triggered :
    (y : Wire) (s : TcpSession) (ready : Bool) (error : ErrorCode) (head : List ℕ)
    (queue : List (List ℕ)) (offset last_write : ℕ)
    → let t = with_queue s (head ∷ queue) offset last_write in
      s.closed ≡ false
      → s.has_server ≡ true
      → last_write ≡ 0
      → offset ≤ length head
      → y.posted ≡ 0
      → y.wire ++ pending t.writer ≡ y.accepted
      → (s.write_is_blocked ≡ true → min_pending_buffer_size ≤ unwritten t.writer)
      → Goes (
          trigger_async_write t >>= λ (u, calls).
          some (calling y (u, calls ++ readies ready error)))
unfolding trigger_async_write write_head calling
triggered y s ready error head queue offset last_write c server idle h posted whole blocked =
    let size = s.writer.buffer_send_size in
    let n = min size (length head - offset) in
    let bytes = take n (drop offset head) in
    let w = writer_at (head ∷ queue) offset n size in
    let called : SocketStats → SocketStats = λ t. record t { write_calls = t.write_calls + 1 } in
    let u = record s { writer = w; stats = called s.stats; server_stats = called s.server_stats } in
    let z = calling y (u, async_write bytes ∷ readies ready error) in
    let first : (last_write == 0) ≡ true = ground arith in
    let busy : Busy w (head ∷ queue) z.posted z.writing = (
      h,
      inr (refl, posts-one ready error y.posted ∙ posted, writes-one ready error (some bytes)),
    ) in
    (
      z,
      opens _ (passes first refl) refl,
      subst (λ b. Status b u z.posted z.writing y.wire y.accepted) (sym c)
          (server, busy, whole, blocked, λ _. refl),
    )

pub mapped :
    {A B C : Type 0} (m : Option A) (g : A → B) (h : B → C)
    → ((m >>= λ a. some (g a)) >>= λ b. some (h b)) ≡ (m >>= λ a. some (h (g a)))
mapped none g h = refl
mapped (some a) g h = refl

-- After a write is completed.
write_next-IsWire :
    (y : Wire) (s : TcpSession) (ready : Bool) (queue : List (List ℕ)) (offset last_write : ℕ)
    → let t = with_queue s queue offset last_write in
      s.closed ≡ false
      → s.has_server ≡ true
      → last_write ≡ 0
      → Fits offset queue
      → y.posted ≡ 0
      → y.writing ≡ none
      → y.wire ++ pending t.writer ≡ y.accepted
      → (s.write_is_blocked ≡ true → min_pending_buffer_size ≤ unwritten t.writer)
      → Goes (write_next success (is_write_pending t.writer) ready t >>= λ r. some (calling y r))
unfolding write_next calling close_internal
write_next-IsWire y s ready (head ∷ queue) offset last_write c server idle h posted writing whole
      blocked =
    let (z, e, valid) =
      triggered y s ready success head queue offset last_write c server idle h posted whole
        blocked in
    (z, mapped (trigger_async_write (with_queue s (head ∷ queue) offset last_write)) _ _ ∙ e, valid)
write_next-IsWire y s ready [] offset last_write c server idle h posted writing whole blocked =
    let t = with_queue s [] offset last_write in
    let shut = close_internal success true true t in
    let split : Bool → Option Wire =
      λ b. (if b then some shut else some (t, readies ready success)) >>= λ r. some (calling y r) in
    elim (Bool-cases s.tcp_close_in_progress) [
      | inl e ↦ (
        calling y shut,
        ap split e,
        close_internal-IsWire success true true (record y { session = t }) none
            (refl, ([], whole, λ bytes g. absurd (none-ne-some bytes g))) writing,
      )
      | inr e ↦ (
        calling y (t, readies ready success),
        ap split e,
        subst
            (λ b.
              Status b t (posts (readies ready success) y.posted)
                (writes (readies ready success) y.writing) y.wire y.accepted)
            (sym c)
            (
              server,
              (
                h,
                idle,
                posts-one ready success y.posted ∙ posted,
                writes-one ready success y.writing ∙ writing,
              ),
              whole,
              blocked,
              λ b. absurd (false≢true (sym e ∙ b)),
            ),
      )
    ]

-- The sender is told when it may go on.
unblocked-IsWire :
    (now : ℕ) (y : Wire) (s : TcpSession) (queue : List (List ℕ)) (offset last_write : ℕ)
    → let t = with_queue s queue offset last_write in
      let (ready, u) = unblock_sender now t in
      s.closed ≡ false
      → s.has_server ≡ true
      → last_write ≡ 0
      → Fits offset queue
      → y.posted ≡ 0
      → y.writing ≡ none
      → y.wire ++ pending t.writer ≡ y.accepted
      → Goes (write_next success (is_write_pending u.writer) ready u >>= λ r. some (calling y r))
unfolding unblock_sender
unblocked-IsWire now y s queue offset last_write c server idle fits posted writing whole =
    let t = with_queue s queue offset last_write in
    let low = s.write_is_blocked && ltb (unwritten t.writer) min_pending_buffer_size in
    let u : Bool → TcpSession = λ b. if b then released now t else t in
    let Is : Bool → Type 0 = λ b.
      Goes
        (write_next success (is_write_pending (u b).writer) b (u b) >>= λ r. some (calling y r)) in
    elim (Bool-cases low) [
      | inl e ↦ subst Is (sym e) (
          write_next-IsWire y (released now t) true queue offset last_write c server idle fits
            posted writing whole (λ b. absurd (false≢true b)))
      | inr e ↦
          let much : s.write_is_blocked ≡ true → min_pending_buffer_size ≤ unwritten t.writer = λ b.
            let enough : ltb (unwritten t.writer) min_pending_buffer_size ≡ false =
              ap (λ x. x && ltb (unwritten t.writer) min_pending_buffer_size) (sym b) ∙ e in
            ground arith in
          subst Is (sym e) (
            write_next-IsWire y s false queue offset last_write c server idle fits posted writing
              whole much)
    ]

from_start : (queue : List (List ℕ)) → Fits 0 queue
from_start [] = refl
from_start (head ∷ queue) = omega arith

-- The head's bytes that the socket has written leave the queue.
pub written-IsWire :
    (now : ℕ) (y : Wire) (s : TcpSession) (head : List ℕ) (queue : List (List ℕ)) (offset n : ℕ)
    → let t = with_queue s (head ∷ queue) offset n in
      let bytes = take n (drop offset head) in
      let z = record y { writing = none; wire = y.wire ++ bytes } in
      s.closed ≡ false
      → s.has_server ≡ true
      → offset + n ≤ length head
      → y.posted ≡ 0
      → y.wire ++ pending t.writer ≡ y.accepted
      → Goes (async_write_handler now success n t >>= λ r. some (calling z r))
unfolding async_write_handler update_buffer_queue count_written pop_written
written-IsWire now y s head queue offset n c server h posted whole =
    let t = with_queue s (head ∷ queue) offset n in
    let left = drop offset head in
    let bytes = take n left in
    let z = record y { writing = none; wire = y.wire ++ bytes } in
    let counted = count_written n t in
    let all = offset + n == length head in
    let rest : Bool → TcpSession =
      λ b. with_queue counted (if b then queue else head ∷ queue) (if b then 0 else offset + n) 0 in
    let Is : Bool → Type 0 = λ b.
      let (ready, u) = unblock_sender now (rest b) in
      Goes (write_next success (is_write_pending u.writer) ready u >>= λ r. some (calling z r)) in
    let same : (n == n) ≡ true = ground arith in
    let held : bytes ++ (drop (offset + n) head ++ concat queue) ≡ left ++ concat queue =
      ap (λ l. bytes ++ (l ++ concat queue)) (sym (drop-drop n offset (offset + n) head refl))
      ∙ sym (append_assoc bytes (drop n left) (concat queue))
      ∙ ap (λ l. l ++ concat queue) (take-drop n left) in
    let still : (y.wire ++ bytes) ++ (drop (offset + n) head ++ concat queue) ≡ y.accepted =
      append_assoc y.wire bytes (drop (offset + n) head ++ concat queue)
      ∙ ap (λ l. y.wire ++ l) held
      ∙ whole in
    let settled : Is all = elim (Bool-cases all) [
      | inl e ↦
          let used : length head ≤ offset + n = ground arith in
          let moved : items_from 0 queue ≡ drop (offset + n) head ++ concat queue =
            items_from_start queue
            ∙ ap (λ l. l ++ concat queue) (sym (drop_above (offset + n) head used)) in
          subst Is (sym e) (
            unblocked-IsWire now z counted queue 0 0 c server refl (from_start queue) posted refl
              (ap (λ l. (y.wire ++ bytes) ++ l) moved ∙ still))
      | inr e ↦ subst Is (sym e) (
          unblocked-IsWire now z counted (head ∷ queue) (offset + n) 0 c server refl h posted refl
            still)
    ] in
    let go_on : Bool → Option (TcpSession × List Call) = λ b.
      (assert b >> written_head now n counted (head ∷ queue)) >>= λ (more, ready, u).
      write_next success more ready u in
    let (x, e, valid) = settled in
    (
      x,
      ap (λ b. (if b then some (t, []) else go_on (n == n)) >>= λ r. some (calling z r)) c
          ∙ ap (λ b. go_on b >>= λ r. some (calling z r)) same
          ∙ e,
      valid,
    )
