-- ===== src/TcpSession/Wire/Rounds.antt =====
-- One completed write leaves less to write.
use tf_common.Common.{
  ℕ, ◌+◌, ◌-◌, ◌≤◌, ◌<◌, ◌≡◌, ◌⊎◌, inl, inr, sym, ap, ◌∙◌, min, Bool, false, Option, none, some,
  some_injective, List, [], ◌∷◌, ◌++◌, ◌==◌, ==-false, ◌≢◌, arith, Bool-cases, length, take, drop,
  length-drop, length-take,
}
use mathlib.Core.Path.{subst}
use mathlib.Core.Option.{none-ne-some}
use tf_common.Task.{◌>>=◌}
use tf_common.TcpSession.{TcpSession, success, total_size, async_write_handler}
use tf_common.TcpSession.Wire.{Wire, write_completes, calling, complete, step}
use tf_common.TcpSession.Wire.Invariant.{Open, Status, IsWire}
use tf_common.TcpSession.Wire.Completing.{with_queue}
use tf_common.TcpSession.Wire.Handlers.{step-IsWire}
use tf_common.TcpSession.Wire.After.{Done, left_queue, left_offset, written-After}

-- The bytes and the buffers that are left to write.
abbrev pub work : List (List ℕ) → ℕ → ℕ
work queue offset = total_size queue - offset + length queue

-- An open session whose socket has bytes, and less to write than before.
abbrev pub Going : TcpSession → ℕ → Wire → Type 0
Going s before z =
    (z.session.closed ≡ false)
    × ((bytes : List ℕ) × (z.writing ≡ some bytes))
    × (work z.session.writer.buffer_queue z.session.writer.offset < before)
    × (0 < z.session.writer.buffer_send_size)
    × (z.session.tcp_close_in_progress ≡ s.tcp_close_in_progress)

abbrev pub Less : Wire → TcpSession → ℕ → Option Wire → Type 0
Less y s before o =
    (z : Wire) × (o ≡ some z) × (z.accepted ≡ y.accepted) × (Done s z ⊎ Going s before z)

left_work :
    (head : List ℕ) (queue : List (List ℕ)) (offset n size : ℕ)
    → 0 < size
    → offset ≤ length head
    → n ≡ min size (length head - offset)
    → let all = offset + n == length head in
      work (left_queue all head queue) (left_offset all (offset + n)) < work (head ∷ queue) offset
left_work head queue offset n size p h e =
    let Is : Bool → Type 0 = λ b.
      work (left_queue b head queue) (left_offset b (offset + n)) < work (head ∷ queue) offset in
    elim (Bool-cases (offset + n == length head)) [
      | inl y ↦ subst Is (sym y) (omega arith)
      | inr k ↦
          let apart : offset + n ≢ length head = ==-false (offset + n) (length head) k in
          let some_written : 0 < n = omega arith in subst Is (sym k) (omega arith)
    ]

completed-Less :
    (now : ℕ) (y : Wire) (s : TcpSession) (queue : List (List ℕ)) (offset last_write : ℕ)
    (bytes : List ℕ)
    → let t = with_queue s queue offset last_write in
      let z = record y { writing = none; wire = y.wire ++ bytes } in
      s.closed ≡ false
      → Open t y.posted y.writing y.wire y.accepted
      → y.writing ≡ some bytes
      → 0 < s.writer.buffer_send_size
      → Less y s
          (work queue offset)
          (async_write_handler now success (length bytes) t >>= λ r. some (calling z r))
completed-Less now y s [] offset last_write bytes c (_, (_, _, _, idle), _, _, _) e p =
    absurd (none-ne-some bytes (sym idle ∙ e))
completed-Less now y s (head ∷ queue) offset last_write bytes c (_, (_, inl (_, _, idle)), _, _, _)
      e p =
    absurd (none-ne-some bytes (sym idle ∙ e))
completed-Less now y s (head ∷ queue) offset n bytes c
      (server, (h, inr (size, posted, given)), whole, _, _) e p =
    let t = with_queue s (head ∷ queue) offset n in
    let Is : ℕ → List ℕ → Type 0 = λ k l. Less y s (work (head ∷ queue) offset) (
      async_write_handler now success k t >>= λ r.
      some (calling (record y { writing = none; wire = y.wire ++ l }) r)) in
    let same : take n (drop offset head) ≡ bytes = some_injective (sym given ∙ e) in
    let long : n ≤ length (drop offset head) = omega (arith, length-drop offset head) in
    let count : n ≡ length bytes = sym (length-take n (drop offset head) long) ∙ ap length same in
    let less = left_work head queue offset n s.writer.buffer_send_size p h size in
    let (z, d, kept, after) = written-After now y s head queue offset n c whole in
    let done : Is n (take n (drop offset head)) = (
      z,
      d,
      kept,
      elim after [
        | inl f ↦ inl f
        | inr (going, given, queued, at, sized, closing) ↦
            inr (going, given, rw (queued, at) less, rw sized p, closing)
      ],
    ) in
    subst (λ l. Is (length bytes) l) same (subst (λ k. Is k (take n (drop offset head))) count done)

-- One write is completed, for a session of which the socket has bytes.
pub round :
    (now : ℕ) (y : Wire) (bytes : List ℕ)
    → IsWire y
    → y.session.closed ≡ false
    → y.writing ≡ some bytes
    → 0 < y.session.writer.buffer_send_size
    → let s = y.session in
      (z : Wire) × (step now write_completes y ≡ some z)
      × IsWire z
      × (z.accepted ≡ y.accepted)
      × (Done s z ⊎ Going s (work s.writer.buffer_queue s.writer.offset) z)
unfolding step complete
round now y bytes valid c e p =
    let s = y.session in
    let Is : Bool → Type 0 = λ b. Status b s y.posted y.writing y.wire y.accepted in
    let (z, d, kept, less) =
      completed-Less now y s s.writer.buffer_queue s.writer.offset s.writer.last_write bytes c
        (subst Is c valid) e p in
    let goes : step now write_completes y ≡ some z = ap (complete now y) e ∙ d in
    let (x, d', valid') = step-IsWire now write_completes y tt valid in
    (z, goes, subst IsWire (some_injective (sym d' ∙ goes)) valid', kept, less)
