-- ===== src/TcpSession/Wire/Handlers.antt =====
-- Whatever happens to a session, its strand and its socket keeps the invariant, and no assert fails.
use tf_common.Common.{
  some_injective, ℕ, zero, suc, ◌-◌, ◌≤◌, ◌≡◌, inl, inr, refl, sym, ap, ◌∙◌, Bool, true, false,
  Option, none, some, List, [], ◌∷◌, ◌++◌, if◌then◌else◌, arith, Bool-cases, Option-cases, length,
  take, drop, append_assoc, append_nil, length-drop, length-take,
}
use mathlib.Core.Path.{subst}
use mathlib.Core.Option.{none-ne-some}
use tf_common.Task.{◌>>=◌}
use tf_common.TcpSession.{
  TcpSession, ErrorCode, success, is_socket_error_hard, Call, close, close_internal,
  async_write_internal, async_write_handler, trigger_async_write, write_next, update_buffer_queue,
  count_written,
}
use tf_common.TcpSession.Wire.{
  Wire, Happens, sends, strand_runs, write_completes, write_fails, closes, calling, step,
  run_strand, complete, fail, sent,
}
use tf_common.TcpSession.Wire.Invariant.{Open, Shut, Status, IsWire, Status-Shut}
use tf_common.TcpSession.Wire.Closing.{close_internal-IsWire}
use tf_common.TcpSession.Wire.Sending.{sent-IsWire}
use tf_common.TcpSession.Wire.Closing.{close-IsWire}
use tf_common.TcpSession.Wire.Completing.{Goes, with_queue, triggered, written-IsWire}

-- The completion of a write of an open session.
completed-Open :
    (now : ℕ) (y : Wire) (s : TcpSession) (queue : List (List ℕ)) (offset last_write : ℕ)
    (bytes : List ℕ)
    → let t = with_queue s queue offset last_write in
      let z = record y { writing = none; wire = y.wire ++ bytes } in
      s.closed ≡ false
      → Open t y.posted y.writing y.wire y.accepted
      → y.writing ≡ some bytes
      → Goes (async_write_handler now success (length bytes) t >>= λ r. some (calling z r))
completed-Open now y s [] offset last_write bytes c (_, (_, _, _, idle), _, _, _) e =
    absurd (none-ne-some bytes (sym idle ∙ e))
completed-Open now y s (head ∷ queue) offset last_write bytes c (_, (_, inl (_, _, idle)), _, _, _)
      e =
    absurd (none-ne-some bytes (sym idle ∙ e))
completed-Open now y s (head ∷ queue) offset n bytes c
      (server, (h, inr (size, posted, given)), whole, _, _) e =
    let t = with_queue s (head ∷ queue) offset n in
    let Is : ℕ → List ℕ → Type 0 = λ k l. Goes (
      async_write_handler now success k t >>= λ r.
      some (calling (record y { writing = none; wire = y.wire ++ l }) r)) in
    let fits : n ≤ length head - offset = omega arith in
    let same : take n (drop offset head) ≡ bytes = some_injective (sym given ∙ e) in
    let long : n ≤ length (drop offset head) = omega (arith, length-drop offset head) in
    let count : n ≡ length bytes = sym (length-take n (drop offset head) long) ∙ ap length same in
    subst (λ l. Is (length bytes) l) same
      (subst (λ k. Is k (take n (drop offset head))) count
        (written-IsWire now y s head queue offset n c server (omega arith) posted whole))

-- The handlers that run after the session is closed do nothing.
completed-Shut :
    (now : ℕ) (y : Wire) (bytes : List ℕ)
    → y.session.closed ≡ true
    → Shut y.session y.writing y.wire y.accepted
    → y.writing ≡ some bytes
    → let z = record y { writing = none; wire = y.wire ++ bytes } in
      Goes (async_write_handler now success (length bytes) y.session >>= λ r. some (calling z r))
unfolding async_write_handler calling
completed-Shut now y bytes c (closed, (rest, whole, given)) e =
    let z = record y { writing = none; wire = y.wire ++ bytes } in
    let go_on : Option (TcpSession × List Call) =
      update_buffer_queue now (length bytes) (count_written (length bytes) y.session)
      >>= λ (more, ready, u). write_next success more ready u in
    let (tail, split) = given bytes e in
    let kept = append_assoc y.wire bytes tail ∙ ap (λ l. y.wire ++ l) (sym split) ∙ whole in
    (
      z,
      ap (λ b. (if b then some (y.session, []) else go_on) >>= λ r. some (calling z r)) c,
      subst (λ b. Status b y.session y.posted none z.wire y.accepted) (sym c)
          (closed, (tail, kept, λ l g. absurd (none-ne-some l g))),
    )

Goes-along : {o o' : Option Wire} → o ≡ o' → Goes o' → Goes o
Goes-along e = subst Goes (sym e)

complete-IsWire : (now : ℕ) (y : Wire) → IsWire y → Goes (complete now y y.writing)
unfolding complete
complete-IsWire now y valid = elim (Option-cases y.writing) [
  | inl e ↦ (y, ap (complete now y) e, valid)
  | inr (bytes, e) ↦
      let s = y.session in
      let Is : Bool → Type 0 = λ b. Status b s y.posted y.writing y.wire y.accepted in
      Goes-along (ap (complete now y) e) (elim (Bool-cases s.closed) [
        | inl c ↦ completed-Shut now y bytes c (subst Is c valid) e
        | inr c ↦
            completed-Open now y s s.writer.buffer_queue s.writer.offset s.writer.last_write bytes c
              (subst Is c valid) e
      ])
]

pub no_more :
    (z : Wire) (m : Option (TcpSession × List Call))
    → (m >>= λ r. some (calling z r)) ≡ (m >>= λ (t, calls). some (calling z (t, calls ++ [])))
no_more z none = refl
no_more z (some (t, calls)) = ap (λ l. some (calling z (t, l))) (sym (append_nil calls))

-- The posted handler of an open session.
strand-Open :
    (y : Wire) (s : TcpSession) (queue : List (List ℕ)) (offset last_write posted : ℕ)
    → let t = with_queue s queue offset last_write in
      s.closed ≡ false
      → Open t (suc posted) y.writing y.wire y.accepted
      → Goes (trigger_async_write t >>= λ r. some (calling (record y { posted = posted }) r))
strand-Open y s [] offset last_write posted c (_, (_, _, none_posted, _), _, _, _) =
    absurd (omega arith)
strand-Open y s (head ∷ queue) offset last_write posted c
      (server, (h, inl (idle, one, _)), whole, blocked, _) =
    let t = with_queue s (head ∷ queue) offset last_write in
    let z = record y { posted = posted } in
    let (x, e, valid) =
      triggered z s false success head queue offset last_write c server idle h (omega arith) whole
        blocked in
    (x, no_more z (trigger_async_write t) ∙ e, valid)
strand-Open y s (head ∷ queue) offset last_write posted c
      (_, (_, inr (_, none_posted, _)), _, _, _) =
    absurd (omega arith)

run_strand-IsWire : (y : Wire) (n : ℕ) → y.posted ≡ n → IsWire y → Goes (run_strand y n)
unfolding run_strand async_write_internal calling
run_strand-IsWire y zero e valid = (y, refl, valid)
run_strand-IsWire y (suc posted) e valid =
    let s = y.session in
    let z = record y { posted = posted } in
    let Is : Bool → Type 0 = λ b. Status b s y.posted y.writing y.wire y.accepted in
    let split : Bool → Option Wire =
      λ b. (if b then some (s, []) else trigger_async_write s) >>= λ r. some (calling z r) in
    elim (Bool-cases s.closed) [
      | inl c ↦
          let shut = subst Is c valid in
          (z, ap split c, subst (λ b. Status b s posted y.writing y.wire y.accepted) (sym c) shut)
      | inr c ↦ Goes-along (ap split c) (
          strand-Open y s s.writer.buffer_queue s.writer.offset s.writer.last_write posted c
            (subst (λ n. Open s n y.writing y.wire y.accepted) e (subst Is c valid)))
    ]

fail-IsWire :
    (now : ℕ) (y : Wire) (error : ErrorCode) (wrote : ℕ)
    → is_socket_error_hard error ≡ true
    → IsWire y
    → Goes (fail now y error wrote y.writing)
unfolding fail async_write_handler close_internal
fail-IsWire now y error wrote hard valid = elim (Option-cases y.writing) [
  | inl e ↦ (y, ap (fail now y error wrote) e, valid)
  | inr (bytes, e) ↦
      let s = y.session in
      let z = record y { writing = none } in
      let shut = close_internal error true true s in
      let go_on : Option (TcpSession × List Call) =
        update_buffer_queue now wrote (count_written wrote s) >>= λ (more, ready, u).
        write_next error more ready u in
      let (_, (rest, whole, _)) =
        Status-Shut s.closed s shut.0 y.posted y.writing y.wire y.accepted valid refl in
      (
        calling z shut,
        ap (fail now y error wrote) e
            ∙ ap
                (λ b. (if b then some shut else if s.closed then some (s, []) else go_on) >>= λ r.
                  some (calling z r))
                hard,
        close_internal-IsWire error true true z none
            (refl, (rest, whole, λ l g. absurd (none-ne-some l g))) refl,
      )
]

-- A write fails with a hard error only.
abbrev pub IsHard : Happens → Type 0
IsHard (write_fails error _) = is_socket_error_hard error ≡ true
IsHard _ = Unit {0}

pub step-IsWire : (now : ℕ) (h : Happens) (y : Wire) → IsHard h → IsWire y → Goes (step now h y)
unfolding step
step-IsWire now (sends bytes) y hard valid = (sent now bytes y, refl, sent-IsWire now bytes y valid)
step-IsWire now strand_runs y hard valid = run_strand-IsWire y y.posted refl valid
step-IsWire now write_completes y hard valid = complete-IsWire now y valid
step-IsWire now (write_fails error wrote) y hard valid = fail-IsWire now y error wrote hard valid
step-IsWire now closes y hard valid = (calling y (close y.session), refl, close-IsWire y valid)
