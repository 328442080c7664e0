-- ===== src/TcpSession/Wire/Sending.antt =====
-- A send keeps the invariant of a session and its socket.
use tf_common.Common.{
  ℕ, ◌≤◌, ◌≡◌, inl, inr, sym, ap, ◌∙◌, Bool, true, false, Option, List, [], ◌++◌, if◌then◌else◌,
  ◌&&◌, not, ltb, ltb→lt, ◌==◌, arith, Bool-cases, length,
}
use mathlib.Core.Path.{subst}
use mathlib.Core.Bool.{false≢true}
use tf_common.TcpSession.{
  throttled, TcpSession, Call, send, is_established_locked, unwritten, min_pending_buffer_size,
  max_pending_buffer_size, buffer_append, async_send, block_sender,
}
use tf_common.TcpSession.Wire.{sent, Wire, posts, writes, calling}
use tf_common.TcpSession.Wire.Invariant.{Open, Status, IsWire, posting, appended_at}

module _ (now : ℕ) (bytes : List ℕ) where
  abbrev appended : TcpSession → TcpSession
  appended s = record s { writer = buffer_append bytes s.writer }

  -- The bytes join the queue, the sender may be blocked.
  taken :
      (s : TcpSession) (posted : ℕ) (writing : Option (List ℕ)) (wire accepted : List ℕ)
      → s.closed ≡ false
      → Open s posted writing wire accepted
      → let t = (async_send now bytes s).2 in
        let calls = (async_send now bytes s).1 in
        (t.closed ≡ false)
        × Open t (posts calls posted) (writes calls writing) wire (accepted ++ bytes)
  unfolding async_send block_sender
  taken s posted writing wire accepted e (server, busy, whole, blocked, closing) =
      let w = s.writer in
      let calls = posting w.buffer_queue s.has_server in
      let (busy', whole', more, there) =
        appended_at w.buffer_queue w.offset w.last_write w.buffer_send_size bytes wire accepted
          posted writing s.has_server server busy whole in
      let Kept : TcpSession → Type 0 = λ t.
        (t.closed ≡ false)
        × Open t (posts calls posted) (writes calls writing) wire (accepted ++ bytes) in
      let full = ltb max_pending_buffer_size (unwritten (appended s).writer) in
      elim (Bool-cases full) [
        | inl f ↦
            let enough : min_pending_buffer_size ≤ unwritten (appended s).writer =
              let above = ltb→lt max_pending_buffer_size (unwritten (appended s).writer) f in
              omega arith in
            let block : Bool → TcpSession =
              λ b. if b then appended s else throttled now (appended s) in
            let kept : (b : Bool) → Kept (block b) = λ b. elim b as (λ k. Kept (block k)) [
              | true ↦ (e, (server, busy', whole', λ _. enough, λ _. there))
              | false ↦ (e, (server, busy', whole', λ _. enough, λ _. there))
            ] in
            subst (λ b. Kept (if b then block_sender now (appended s) else appended s)) (sym f)
              (kept s.write_is_blocked)
        | inr f ↦
            subst (λ b. Kept (if b then block_sender now (appended s) else appended s)) (sym f)
              (e, (server, busy', whole', λ b. let before = blocked b in omega arith, λ _. there))
      ]

  pub sent-IsWire : (y : Wire) → IsWire y → IsWire (sent now bytes y)
  unfolding sent send calling
  sent-IsWire y valid =
      let s = y.session in
      let (len, calls, t) = async_send now bytes s in
      let after : Bool → Wire = λ b.
        let r : (Bool × ℕ) × TcpSession × List Call =
          if b then ((len == length bytes, len), t, calls) else ((false, 0), s, []) in
        calling (record y { accepted = if b then y.accepted ++ bytes else y.accepted })
          (r.1, r.2) in
      elim (Bool-cases (is_established_locked s)) [
        | inl e ↦ elim (Bool-cases s.closed) [
          | inl c ↦
              let shut = subst (λ b. Status b s y.posted y.writing y.wire y.accepted) c valid in
              absurd (false≢true (ap (λ b. b && not s.tcp_close_in_progress) (sym shut.0) ∙ e))
          | inr c ↦
              let opened = subst (λ b. Status b s y.posted y.writing y.wire y.accepted) c valid in
              let (still, kept) = taken s y.posted y.writing y.wire y.accepted c opened in
              let valid' =
                subst
                  (λ b.
                    Status b t (posts calls y.posted) (writes calls y.writing) y.wire
                      (y.accepted ++ bytes))
                  (sym still) kept in
              subst (λ b. IsWire (after b)) (sym e) valid'
        ]
        | inr e ↦ subst (λ b. IsWire (after b)) (sym e) valid
      ]
