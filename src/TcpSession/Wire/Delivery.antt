-- ===== src/TcpSession/Wire/Delivery.antt =====
-- What a session delivers of what it accepted, in any order of events.
use tf_common.Common.{ℕ, ◌≡◌, refl, false, some, List, [], ◌∷◌, ◌++◌}
use tf_common.Task.{opens}
use tf_common.TcpSession.Wire.{Wire, Happens, run}
use tf_common.TcpSession.Wire.Invariant.{IsWire, Status-Shut}
use tf_common.TcpSession.Wire.Handlers.{IsHard, step-IsWire}

abbrev pub AllHard : List Happens → Type 0
AllHard [] = Unit {0}
AllHard (h ∷ happens) = IsHard h × AllHard happens

-- What is written is a beginning of what was accepted.
abbrev pub Delivers : Wire → Type 0
Delivers y = (rest : List ℕ) × (y.wire ++ rest ≡ y.accepted)

IsWire-Delivers : (y : Wire) → IsWire y → Delivers y
IsWire-Delivers y valid =
    let s = y.session in
    let gone = record s { established = false } in
    let (_, (rest, whole, _)) =
      Status-Shut s.closed s gone y.posted y.writing y.wire y.accepted valid refl in
    (rest, whole)

-- From a valid state of a session with its strand and its socket, any events in any order, sends,
-- the posted handler, completed writes, writes that fail with a hard error and closes, run without
-- a failed assert and leave a valid state: while the session is open, at most one write is posted
-- or under way, the bytes written with those held are the bytes accepted, a blocked sender has at
-- least 64 KB unwritten and a close waits only for bytes; at all times the bytes written are a
-- beginning of the bytes accepted.
pub run-Delivers :
    (now : ℕ) (happens : List Happens) (y : Wire)
    → AllHard happens
    → IsWire y
    → (z : Wire) × (run now happens y ≡ some z) × IsWire z × Delivers z
unfolding run
run-Delivers now [] y hard valid = (y, refl, valid, IsWire-Delivers y valid)
run-Delivers now (h ∷ happens) y (hard, hards) valid =
    let (x, e, valid') = step-IsWire now h y hard valid in
    let (z, d, valid'', whole) = run-Delivers now happens x hards valid' in
    (z, opens (run now happens) e d, valid'', whole)
