-- ===== src/TcpSession/Wire.antt =====
-- A session with its strand and its socket: the writes that are posted, the one that the socket has
-- not completed, and what it has completed.
pub mod Invariant
mod Sending
mod Closing
mod Completing
pub mod Handlers
pub mod Delivery
mod After
mod Rounds
pub mod Flush
mod Tests
use tf_common.Common.{
  ℕ, zero, suc, ◌+◌, ◌-◌, ◌≡◌, Bool, true, false, Option, none, some, List, [], ◌∷◌, ◌++◌,
  if◌then◌else◌, length,
}
use tf_common.Task.{◌>>=◌}
use tf_common.TcpSession.{
  TcpSession, ErrorCode, success, Call, post_write, async_write, send, close, async_write_internal,
  async_write_handler, is_established_locked,
}

-- `accepted` holds the bytes that a sender has given to a session that takes them.
pub record Wire : Type 0 where
  pub session : TcpSession
  pub posted : ℕ
  pub writing : Option (List ℕ)
  pub wire : List ℕ
  pub accepted : List ℕ

-- What happens: a sender, the posted handler, the completion of a write with an error code and a
-- number of bytes, a close.
pub data Happens : Type 0 where
  sends : List ℕ → Happens
  strand_runs : Happens
  write_completes : Happens
  write_fails : ErrorCode → ℕ → Happens
  closes : Happens

abbrev pub posts : List Call → ℕ → ℕ
posts [] n = n
posts (post_write ∷ calls) n = posts calls (suc n)
posts (_ ∷ calls) n = posts calls n

abbrev pub writes : List Call → Option (List ℕ) → Option (List ℕ)
writes [] w = w
writes (async_write bytes ∷ calls) w = writes calls (some bytes)
writes (_ ∷ calls) w = writes calls w

unfoldable pub calling : Wire → TcpSession × List Call → Wire
calling y (s, calls) = record y {
  session = s;
  posted = posts calls y.posted;
  writing = writes calls y.writing;
}

unfoldable pub complete : ℕ → Wire → Option (List ℕ) → Option Wire
complete now y none = some y
complete now y (some bytes) = async_write_handler now success (length bytes) y.session >>= λ r.
    some (calling (record y { writing = none; wire = y.wire ++ bytes }) r)

-- What the socket wrote before the error is not known to the session, and not put on the wire.
unfoldable pub fail : ℕ → Wire → ErrorCode → ℕ → Option (List ℕ) → Option Wire
fail now y error wrote none = some y
fail now y error wrote (some bytes) = async_write_handler now error wrote y.session >>= λ r.
    some (calling (record y { writing = none }) r)

unfoldable pub run_strand : Wire → ℕ → Option Wire
run_strand y zero = some y
run_strand y (suc posted) =
    async_write_internal y.session >>= λ r. some (calling (record y { posted = posted }) r)

unfoldable pub sent : ℕ → List ℕ → Wire → Wire
sent now bytes y =
    let (answer, t, calls) = send now true bytes y.session in
    let taken = is_established_locked y.session in
    calling (record y { accepted = if taken then y.accepted ++ bytes else y.accepted }) (t, calls)

unfoldable pub step : ℕ → Happens → Wire → Option Wire
step now (sends bytes) y = some (sent now bytes y)
step now strand_runs y = run_strand y y.posted
step now write_completes y = complete now y y.writing
step now (write_fails error wrote) y = fail now y error wrote y.writing
step now closes y = some (calling y (close y.session))

-- One clock time for all events; it is stored in the statistics only.
unfoldable pub run : ℕ → List Happens → Wire → Option Wire
run now [] y = some y
run now (h ∷ happens) y = step now h y >>= run now happens

-- An established session that nothing was sent on.
abbrev pub new_wire : TcpSession → Wire
new_wire session = record {
  session = session;
  posted = 0;
  writing = none;
  wire = [];
  accepted = [];
}
