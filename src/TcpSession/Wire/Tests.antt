-- ===== src/TcpSession/Wire/Tests.antt =====
-- A session with a small send size: two sends, the writes, a close that waits for them.
use tf_common.Common.{
  ℕ, ◌≡◌, refl, sym, true, false, Option, none, some, List, [], ◌∷◌, Bool, arith,
}
use mathlib.Core.Bool.{false≢true}
use tf_common.TcpSession.{
  TcpSession, no_stats, new_session, send, async_send, block_sender, close, close_internal,
  async_write_internal, async_write_handler, trigger_async_write, write_head, write_next,
  update_buffer_queue, unblock_sender, count_written, pop_written,
}
use tf_common.TcpSession.Wire.{
  Wire, Happens, sends, strand_runs, write_completes, closes, new_wire, run, step, sent, calling,
  run_strand, complete,
}
use tf_common.TcpSession.Wire.Invariant.{IsWire}
use tf_common.TcpSession.Wire.Flush.{completions, Flushed, run-Flushed}
use mathlib.Core.Path.{subst}
use tf_common.TcpSession.Wire.Delivery.{Delivers, run-Delivers}

abbrev established : TcpSession
established = record (new_session true true no_stats true 2) { established = true }

abbrev happens : List Happens
happens =
    sends (1 ∷ 2 ∷ 3 ∷ [])
    ∷ sends (4 ∷ [])
    ∷ strand_runs
    ∷ write_completes
    ∷ closes
    ∷ sends (5 ∷ [])
    ∷ write_completes
    ∷ write_completes
    ∷ []

start : IsWire (new_wire established)
start =
    (refl, (refl, refl, refl, refl), refl, λ b. absurd (false≢true b), λ b. absurd (false≢true b))

run-Delivers_example :
    (z : Wire) × (run 7 happens (new_wire established) ≡ some z) × IsWire z × Delivers z
run-Delivers_example =
    run-Delivers 7 happens (new_wire established) (tt, (tt, (tt, (tt, (tt, (tt, (tt, (tt, tt))))))))
      start

seen : Option Wire → Option (List ℕ × List ℕ × Bool)
seen none = none
seen (some y) = some (y.wire, y.accepted, y.session.closed)

-- Everything accepted is written, then the session is closed.
written :
    seen (run 7 happens (new_wire established))
    ≡ some (1 ∷ 2 ∷ 3 ∷ 4 ∷ [], 1 ∷ 2 ∷ 3 ∷ 4 ∷ [], true)
unfolding seen run step sent calling run_strand complete send async_send block_sender close
    close_internal async_write_internal async_write_handler trigger_async_write write_head
    write_next update_buffer_queue unblock_sender count_written pop_written
written = refl

-- Two sends, the first write under way, and a close that waits.
abbrev before : List Happens
before = sends (1 ∷ 2 ∷ 3 ∷ []) ∷ sends (4 ∷ []) ∷ strand_runs ∷ closes ∷ []

abbrev wire_of : Option Wire → Wire
wire_of none = new_wire established
wire_of (some y) = y

abbrev waiting : Wire
waiting = wire_of (run 7 before (new_wire established))

waiting-IsWire : IsWire waiting
waiting-IsWire =
    let (z, e, valid, _) =
      run-Delivers 7 before (new_wire established) (tt, (tt, (tt, (tt, tt)))) start in
    subst (λ o. IsWire (wire_of o)) (sym e) valid

waiting_lem :
    (waiting.session.closed ≡ false)
    × (waiting.session.tcp_close_in_progress ≡ true)
    × (waiting.accepted ≡ 1 ∷ 2 ∷ 3 ∷ 4 ∷ [])
    × (waiting.session.writer.buffer_send_size ≡ 2)
unfolding run step sent calling run_strand complete send async_send block_sender close
    close_internal async_write_internal trigger_async_write write_head
waiting_lem = (refl, refl, refl, refl)

run-Flushed_example :
    (n : ℕ) × (z : Wire) × (run 7 (strand_runs ∷ completions n) waiting ≡ some z)
    × Flushed waiting.session waiting.accepted z
run-Flushed_example =
    run-Flushed 7 waiting waiting-IsWire waiting_lem.0 (let size = waiting_lem.3 in omega arith)
