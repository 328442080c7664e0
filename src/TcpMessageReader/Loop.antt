-- ===== src/TcpMessageReader/Loop.antt =====
-- The loop of a message reader over one buffer.
use tf_common.Common.{
  some_injective, ℕ, zero, suc, ◌+◌, ◌-◌, ◌≤◌, ◌<◌, ◌≡◌, refl, sym, ap, ◌∙◌, inl, inr, Bool, true,
  Option, none, some, List, [], ◌∷◌, ◌++◌, ltb, ltb→lt, ==-false, ◌≢◌, ◌==◌, if◌then◌else◌, arith,
  length, take, drop, length-drop, drop-drop, take-drop, Bool-cases, Option-cases,
}
use mathlib.Core.Path.{subst}
use mathlib.Core.Option.{none-ne-some}
use tf_common.TcpMessageReader.{
  Protocol, TcpMessageReader, Call, receive, finish, cut, after_message, read_buffer, read_from,
}
use tf_common.TcpMessageReader.Framing.{IsFraming, whole_message}
use tf_common.TcpMessageReader.Reads.{Reads, queued, used_up, message_then, along, head-IsMessage}

module _ (p : Protocol) where
  module _ (f : IsFraming p) (accepts : (m : List ℕ) → p.receive_callback m ≡ true) where
    abbrev at : ℕ → Option ℕ → TcpMessageReader
    at offset remain = record { queue = []; offset = offset; remain = remain }

    -- What the loop does at every offset of a buffer.
    abbrev Continues :
        List ℕ → ℕ → (TcpMessageReader → ℕ → Option (TcpMessageReader × List Call)) → Type 0
    Continues buffer fuel continue =
        (offset avail : ℕ)
        → offset ≤ length buffer
        → avail ≡ length buffer - offset
        → avail ≤ fuel
        → Reads p (drop offset buffer) (buffer ∷ []) (continue (at offset none) avail)

    cut_known :
        (buffer : List ℕ) (fuel offset avail n : ℕ)
        (continue : TcpMessageReader → ℕ → Option (TcpMessageReader × List Call))
        → p.msg_length buffer offset ≡ some n
        → offset < length buffer
        → avail ≡ length buffer - offset
        → avail ≤ suc fuel
        → Continues buffer fuel continue
        → Reads p
            (drop offset buffer)
            (buffer ∷ [])
            (cut p buffer (at offset none) avail (some n) continue)
    unfolding cut
    cut_known buffer fuel offset avail n continue e h a k ih =
        let bytes = drop offset buffer in
        let there : p.msg_length bytes 0 ≡ some n =
          sym (f.at_offset buffer offset (omega arith)) ∙ e in
        let size : length bytes ≡ avail = length-drop offset buffer ∙ sym a in
        let m = take n bytes in
        let next = at (offset + n) none in
        let rest = continue next (avail - n) in
        let partly = finish buffer avail (at offset (some (n - avail))) in
        let split : Bool → Option (TcpMessageReader × List Call) =
          λ t. if t then partly else after_message (p.receive_callback m) (receive m) next rest in
        elim (Bool-cases (ltb avail n)) [
          | inl s ↦
              let lacks : (j : ℕ)
                  → some n ≡ some j
                  → length bytes < j × (some (n - avail) ≡ some (j - length bytes)) =
                λ j g.
                  let same : n ≡ j = some_injective g in
                  let less = ltb→lt avail n s in (omega arith, ap some (omega arith)) in
              along p f accepts (ap split s) (
                queued p f accepts buffer offset avail (some (n - avail)) h a
                  (λ j g. (lacks j (sym there ∙ g)).0) (λ j g. (lacks j (sym e ∙ g)).1))
          | inr s ↦
              let fits : n ≤ avail = ground arith in
              let (_, low, _, _) = whole_message p f bytes n there in
              let positive = f.nonempty in
              let later = ih (offset + n) (avail - n) (omega arith) (omega arith) (omega arith) in
              let cut_bytes : m ++ drop (offset + n) buffer ≡ bytes =
                ap (λ l. m ++ l) (sym (drop-drop n offset (offset + n) buffer refl))
                ∙ take-drop n bytes in
              along p f accepts (ap split s) (
                subst
                  (λ b.
                    Reads p b (buffer ∷ [])
                      (after_message (p.receive_callback m) (receive m) next rest))
                  cut_bytes
                  (message_then p f accepts next m (drop (offset + n) buffer) (buffer ∷ []) rest
                    (head-IsMessage p f accepts bytes n there (omega arith)) later))
        ]

    cut_lem :
        (buffer : List ℕ) (fuel offset avail : ℕ)
        (continue : TcpMessageReader → ℕ → Option (TcpMessageReader × List Call))
        → offset < length buffer
        → avail ≡ length buffer - offset
        → avail ≤ suc fuel
        → Continues buffer fuel continue
        → Reads p
            (drop offset buffer)
            (buffer ∷ [])
            (cut p buffer (at offset none) avail (p.msg_length buffer offset) continue)
    unfolding cut
    cut_lem buffer fuel offset avail continue h a k ih =
        let there = f.at_offset buffer offset (omega arith) in
        elim (Option-cases (p.msg_length buffer offset)) [
          | inl e ↦ along p f accepts (ap (λ o. cut p buffer (at offset none) avail o continue) e) (
              queued p f accepts buffer offset avail none h a
                (λ n g. absurd (none-ne-some n (sym e ∙ there ∙ g)))
                (λ n g. absurd (none-ne-some n (sym e ∙ g))))
          | inr (n, e) ↦
              along p f accepts (ap (λ o. cut p buffer (at offset none) avail o continue) e)
                (cut_known buffer fuel offset avail n continue e h a k ih)
        ]

    pub read_buffer_lem :
        (buffer : List ℕ) (fuel : ℕ) → Continues buffer fuel (read_buffer p buffer fuel)
    unfolding read_buffer
    read_buffer_lem buffer zero offset avail h a k =
        let done : (avail == 0) ≡ true = ground arith in
        along p f accepts (ap (λ t. if t then finish buffer avail (at offset none) else none) done)
          (used_up p f accepts buffer offset avail (omega arith) (omega arith))
    read_buffer_lem buffer (suc fuel) offset avail h a k =
        let split : Bool → Option (TcpMessageReader × List Call) = λ t.
          if t
          then finish buffer avail (at offset none)
          else cut p buffer (at offset none) avail (p.msg_length buffer offset)
              (read_buffer p buffer fuel) in
        elim (Bool-cases (avail == 0)) [
          | inl s ↦
              let empty : avail ≡ 0 = ground arith in
              along p f accepts (ap split s)
                (used_up p f accepts buffer offset avail (omega arith) empty)
          | inr s ↦
              let some_left : avail ≢ 0 = ==-false avail 0 s in
              along p f accepts (ap split s) (
                cut_lem buffer fuel offset avail (read_buffer p buffer fuel) (omega arith) a k
                  (read_buffer_lem buffer fuel))
        ]

    pub read_from_lem :
        (buffer : List ℕ) (offset : ℕ)
        → offset ≤ length buffer
        → Reads p (drop offset buffer) (buffer ∷ []) (read_from p buffer (at offset none))
    unfolding read_from
    read_from_lem buffer offset h =
        let avail = length buffer - offset in
        let least : avail ≤ avail = omega arith in
        read_buffer_lem buffer avail offset avail h refl least
