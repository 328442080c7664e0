-- ===== src/TcpSession/Wire/Closing.antt =====
-- Closing a session keeps the invariant of a session and its socket.
use tf_common.Common.{
  ℕ, ◌≡◌, inl, inr, refl, sym, ap, ◌∙◌, Bool, true, false, Option, List, [], ◌∷◌, ◌++◌,
  if◌then◌else◌, ◌&&◌, Bool-cases,
}
use mathlib.Core.Path.{subst}
use tf_common.TcpSession.{
  TcpSession, ErrorCode, success, shutdown, close_socket, observe, close_event, on_session_close,
  close, close_internal, is_write_pending,
}
use tf_common.TcpSession.Wire.{Wire, writes, calling}
use tf_common.TcpSession.Wire.Invariant.{Shut, Status, IsWire, Status-Shut}

-- A close writes nothing.
writes-close_internal :
    (error : ErrorCode) (call_observer notify_server : Bool) (s : TcpSession)
    (writing : Option (List ℕ))
    → writes (close_internal error call_observer notify_server s).1 writing ≡ writing
unfolding close_internal
writes-close_internal error call_observer notify_server s writing =
    by_cases s.closed (s.established && (call_observer && s.has_observer))
      (s.established && notify_server)
  where
    by_cases :
        (a b c : Bool)
        → writes
            ((if a then [] else shutdown ∷ close_socket ∷ [])
              ++ (if b then observe close_event ∷ [] else [])
              ++ (if c then on_session_close ∷ [] else []))
            writing
          ≡ writing
    by_cases true true true = refl
    by_cases true true false = refl
    by_cases true false true = refl
    by_cases true false false = refl
    by_cases false true true = refl
    by_cases false true false = refl
    by_cases false false true = refl
    by_cases false false false = refl

pub close_internal-IsWire :
    (error : ErrorCode) (call_observer notify_server : Bool) (y : Wire) (writing : Option (List ℕ))
    → Shut (close_internal error call_observer notify_server y.session).0 writing y.wire y.accepted
    → y.writing ≡ writing
    → IsWire (calling y (close_internal error call_observer notify_server y.session))
unfolding calling close_internal
close_internal-IsWire error call_observer notify_server y writing shut e =
    let s = y.session in
    let same = writes-close_internal error call_observer notify_server s y.writing in
    subst (λ w. Shut (close_internal error call_observer notify_server s).0 w y.wire y.accepted)
      (sym (same ∙ e)) shut

pub close-IsWire : (y : Wire) → IsWire y → IsWire (calling y (close y.session))
unfolding close calling close_internal
close-IsWire y valid =
    let s = y.session in
    let waiting = record s { tcp_close_in_progress = true } in
    let now = close_internal success false true s in
    let after : Bool → Bool → Wire =
      λ b wait. calling y (if b then (s, []) else if wait then (waiting, []) else now) in
    let wait = s.has_server && is_write_pending s.writer in
    let Is : Bool → Type 0 = λ b. Status b s y.posted y.writing y.wire y.accepted in
    elim (Bool-cases s.closed) [
      | inl c ↦ subst (λ b. IsWire (after b wait)) (sym c) valid
      | inr c ↦
          subst (λ b. IsWire (after b wait)) (sym c)
            (elim (Bool-cases wait) [
              | inl e ↦
                  let (server, busy, whole, blocked, _) = subst Is c valid in
                  let there : is_write_pending s.writer ≡ true =
                    ap (λ b. b && is_write_pending s.writer) (sym server) ∙ e in
                  subst (λ b. IsWire (after false b)) (sym e)
                    (subst (λ b. Status b waiting y.posted y.writing y.wire y.accepted) (sym c)
                      (server, busy, whole, blocked, λ _. there))
              | inr e ↦
                  subst (λ b. IsWire (after false b)) (sym e)
                    (close_internal-IsWire success false true y y.writing
                      (Status-Shut s.closed s now.0 y.posted y.writing y.wire y.accepted valid refl)
                      refl)
            ])
    ]
