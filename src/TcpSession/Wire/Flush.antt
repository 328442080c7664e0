-- ===== src/TcpSession/Wire/Flush.antt =====
-- All that a session has accepted gets written, when the socket completes its writes.
use tf_common.Common.{
  ℕ, zero, suc, ◌≤◌, ◌<◌, ◌≡◌, inl, inr, refl, sym, ap, ◌∙◌, Bool, false, if◌then◌else◌, Option,
  some, some_injective, List, [], ◌∷◌, ◌++◌, arith, Bool-cases, append_nil,
}
use mathlib.Core.Path.{subst}
use mathlib.Core.Bool.{false≢true}
use tf_common.Task.{opens, ◌>>=◌}
use tf_common.TcpSession.{TcpSession, Call, async_write_internal, trigger_async_write}
use tf_common.TcpSession.Wire.{
  Wire, Happens, strand_runs, write_completes, calling, run, run_strand, step,
}
use tf_common.TcpSession.Wire.Invariant.{Open, Status, IsWire}
use tf_common.TcpSession.Wire.Completing.{with_queue}
use tf_common.TcpSession.Wire.Handlers.{step-IsWire, no_more}
use tf_common.TcpSession.Wire.After.{After, triggered-After}
use tf_common.TcpSession.Wire.Rounds.{work, round}

-- A write is completed, over and over.
abbrev pub completions : ℕ → List Happens
completions zero = []
completions (suc n) = write_completes ∷ completions n

-- All that was accepted is written, and a close that waited for it is made.
abbrev pub Flushed : TcpSession → List ℕ → Wire → Type 0
Flushed s accepted z = (z.wire ≡ accepted) × (z.session.closed ≡ s.tcp_close_in_progress)

flush-Flushed :
    (fuel now : ℕ) (y : Wire) (bytes : List ℕ)
    → IsWire y
    → y.session.closed ≡ false
    → y.writing ≡ some bytes
    → 0 < y.session.writer.buffer_send_size
    → work y.session.writer.buffer_queue y.session.writer.offset ≤ fuel
    → (n : ℕ) × (z : Wire) × (run now (completions n) y ≡ some z) × Flushed y.session y.accepted z
unfolding run
flush-Flushed zero now y bytes valid c e p f =
    let (z, d, valid', kept, less) = round now y bytes valid c e p in
    elim less [
      | inl (whole, closed) ↦ (1, z, opens (run now []) d refl, (whole ∙ kept, closed))
      | inr (_, _, fewer, _, _) ↦ absurd (omega arith)
    ]
flush-Flushed (suc fuel) now y bytes valid c e p f =
    let (z, d, valid', kept, less) = round now y bytes valid c e p in
    elim less [
      | inl (whole, closed) ↦ (1, z, opens (run now []) d refl, (whole ∙ kept, closed))
      | inr (c', (bytes', e'), fewer, p', closing) ↦
          let (n, x, d', (whole, closed)) =
            flush-Flushed fuel now z bytes' valid' c' e' p' (omega arith) in
          (suc n, x, opens (run now (completions n)) d d', (whole ∙ kept, closed ∙ closing))
    ]

-- The posted handler hands bytes to the socket; without one the socket has them, or all is done.
begun :
    (y : Wire) (s : TcpSession) (queue : List (List ℕ)) (offset last_write n : ℕ)
    → let x = record y { session = with_queue s queue offset last_write; posted = n } in
      s.closed ≡ false
      → Open x.session n y.writing y.wire y.accepted
      → After x s queue offset (run_strand x n)
unfolding run_strand async_write_internal
begun y s [] offset last_write (suc n) c (_, (_, _, none_posted, _), _, _, _) = absurd (omega arith)
begun y s [] offset last_write zero c (_, _, whole, _, closing) = (
  _,
  refl,
  refl,
  inl (
    sym (append_nil y.wire) ∙ whole,
    elim (Bool-cases s.tcp_close_in_progress) [
      | inl b ↦ absurd (false≢true (closing b))
      | inr b ↦ c ∙ sym b
    ],
  ),
)
begun y s (head ∷ queue) offset last_write zero c (_, (_, inl (_, one, _)), _, _, _) =
    absurd (omega arith)
begun y s (head ∷ queue) offset last_write zero c (_, (_, inr (_, _, given)), _, _, _) =
    (_, refl, refl, inr (c, (_, given), refl, refl, refl, refl))
begun y s (head ∷ queue) offset last_write (suc n) c (_, (_, inr (_, none_posted, _)), _, _, _) =
    absurd (omega arith)
begun y s (head ∷ queue) offset last_write (suc n) c (_, (_, inl (idle, _, _)), _, _, _) =
    let x : ℕ → Wire =
      λ k. record y { session = with_queue s (head ∷ queue) offset k; posted = n } in
    let handed : ℕ → Option (TcpSession × List Call) =
      λ k. trigger_async_write (with_queue s (head ∷ queue) offset k) in
    let (z, e, kept, after) = triggered-After (x last_write) s false head queue offset c in
    let split : Bool → Option Wire = λ b.
      (if b then some (with_queue s (head ∷ queue) offset last_write, []) else handed last_write)
      >>= λ r. some (calling (x last_write) r) in
    (
      z,
      ap split c
          ∙ no_more (x last_write) (handed last_write)
          ∙ ap (λ k. handed k >>= λ (u, calls). some (calling (x last_write) (u, calls ++ []))) idle
          ∙ e,
      kept,
      after,
    )

-- For a valid state of an open session with its strand and its socket, and a send size above 0,
-- there is a number of completed writes after which, when the posted handler runs first and
-- nothing else happens in between, no assert has failed, all the bytes accepted are written, and
-- the session is closed exactly where a close was waiting.
pub run-Flushed :
    (now : ℕ) (y : Wire)
    → IsWire y
    → y.session.closed ≡ false
    → 0 < y.session.writer.buffer_send_size
    → (n : ℕ) × (z : Wire) × (run now (strand_runs ∷ completions n) y ≡ some z)
      × Flushed y.session y.accepted z
unfolding run step
run-Flushed now y valid c p =
    let s = y.session in
    let Is : Bool → Type 0 = λ b. Status b s y.posted y.writing y.wire y.accepted in
    let (z, d, kept, after) =
      begun y s s.writer.buffer_queue s.writer.offset s.writer.last_write y.posted c
        (subst Is c valid) in
    elim after [
      | inl (whole, closed) ↦ (0, z, opens (run now []) d refl, (whole ∙ kept, closed))
      | inr (c', (bytes, e), _, _, size, closing) ↦
          let (x, d', valid') = step-IsWire now strand_runs y tt valid in
          let valid'' : IsWire z = subst IsWire (some_injective (sym d' ∙ d)) valid' in
          let (n, w, f, (whole, closed)) =
            flush-Flushed (work z.session.writer.buffer_queue z.session.writer.offset) now z bytes
              valid'' c' e (rw size p) (omega arith) in
          (n, w, opens (run now (completions n)) d f, (whole ∙ kept, closed ∙ closing))
    ]
