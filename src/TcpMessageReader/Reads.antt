-- ===== src/TcpMessageReader/Reads.antt =====
-- What a read does: the messages received, the buffers given back and what is held.
use tf_common.Common.{
  items_from, ℕ, ◌-◌, ◌≤◌, ◌<◌, ◌≡◌, refl, sym, ap, ◌∙◌, true, false, Option, none, some, List, [],
  ◌∷◌, ◌++◌, ltb, if◌then◌else◌, arith, length, take, drop, append_nil, length-take, drop_above,
  take-drop,
}
use mathlib.Core.Path.{subst}
use mathlib.Core.Option.{none-ne-some}
use tf_common.Task.{opens, ◌>>◌, assert, is_none}
use tf_common.TcpMessageReader.{
  Protocol, TcpMessageReader, new_reader, Call, receive, release_buffer, push_back, finish,
  after_message,
}
use tf_common.TcpMessageReader.Framing.{
  IsFraming, IsIncomplete, IsMessage, Frames, partial, message, whole_message,
}
use tf_common.TcpMessageReader.Copies.{pending}

-- The messages that the callback receives, and the buffers that the session gets back.
abbrev pub received : List Call → List (List ℕ)
received [] = []
received (receive m ∷ calls) = m ∷ received calls
received (release_buffer b ∷ calls) = received calls

abbrev pub released : List Call → List (List ℕ)
released [] = []
released (receive m ∷ calls) = released calls
released (release_buffer b ∷ calls) = b ∷ released calls

module _ (p : Protocol) where
  -- Between two reads: nothing is queued, or the queue's bytes are a part of a message, some of
  -- them in the first buffer, and `remain` is what the message lacks once the first buffer tells.
  abbrev pub Holds : ℕ → Option ℕ → List (List ℕ) → Type 0
  Holds offset remain [] = (offset ≡ 0) × (remain ≡ none)
  Holds offset remain (front ∷ queue) =
      (offset < length front)
      × IsIncomplete p (items_from offset (front ∷ queue))
      × ((n : ℕ)
          → p.msg_length front offset ≡ some n
          → remain ≡ some (n - length (items_from offset (front ∷ queue))))

  abbrev pub IsReader : TcpMessageReader → Type 0
  IsReader r = Holds r.offset r.remain r.queue

  -- The bytes read are the messages received and what is queued; the buffers are given back in the
  -- order in which they came.
  abbrev pub Reads : List ℕ → List (List ℕ) → Option (TcpMessageReader × List Call) → Type 0
  Reads bytes buffers result =
      (r : TcpMessageReader) × (calls : List Call) × (result ≡ some (r, calls))
      × IsReader r
      × Frames p bytes (received calls) (pending r)
      × (released calls ++ r.queue ≡ buffers)

  module _ (f : IsFraming p) (accepts : (m : List ℕ) → p.receive_callback m ≡ true) where
    pub no_bytes : IsIncomplete p []
    no_bytes n e = absurd (none-ne-some n (sym (f.short [] f.nonempty) ∙ e))

    -- A whole message stands at the head of the bytes.
    pub head-IsMessage :
        (b : List ℕ) (n : ℕ) → p.msg_length b 0 ≡ some n → n ≤ length b → IsMessage p (take n b)
    head-IsMessage b n e h =
        let (_, low, _, _) = whole_message p f b n e in
        let size : length (take n b) ≡ n = length-take n b h in
        let positive : 0 < length (take n b) = let first = f.nonempty in omega arith in
        let (m, _, _, same) = f.known (take n b) (omega arith) in
        let whole : p.msg_length b 0 ≡ some m =
          ap (λ l. p.msg_length l 0) (sym (take-drop n b)) ∙ same (drop n b) in
        (positive, λ c. same c ∙ sym whole ∙ e ∙ ap some (sym size))

    -- What is left of the buffer is queued.
    pub queued :
        (buffer : List ℕ) (offset avail : ℕ) (remain : Option ℕ)
        → offset < length buffer
        → avail ≡ length buffer - offset
        → IsIncomplete p (drop offset buffer)
        → ((n : ℕ)
            → p.msg_length buffer offset ≡ some n
            → remain ≡ some (n - length (drop offset buffer)))
        → Reads
            (drop offset buffer)
            (buffer ∷ [])
            (finish buffer avail (record { queue = []; offset = offset; remain = remain }))
    unfolding finish
    queued buffer offset avail remain h a k l =
        let r : TcpMessageReader = record { queue = []; offset = offset; remain = remain } in
        let left : ltb 0 avail ≡ true = ground arith in
        let result =
          ap
            (λ t.
              if t
              then some (push_back r buffer, [])
              else (assert (is_none remain)
                  >> some (record r { offset = 0 }, release_buffer buffer ∷ [])))
            left in
        let (incomplete, lacking, rest) =
          subst
            (λ b.
              IsIncomplete p b
              × ((n : ℕ) → p.msg_length buffer offset ≡ some n → remain ≡ some (n - length b))
              × Frames p (drop offset buffer) [] b)
            (sym (append_nil (drop offset buffer))) (k, l, partial (drop offset buffer) k) in
        (push_back r buffer, [], result, (h, incomplete, lacking), rest, refl)

    -- Nothing is left of the buffer.
    pub used_up :
        (buffer : List ℕ) (offset avail : ℕ)
        → length buffer ≤ offset
        → avail ≡ 0
        → Reads
            (drop offset buffer)
            (buffer ∷ [])
            (finish buffer avail (record { queue = []; offset = offset; remain = none }))
    unfolding finish
    used_up buffer offset avail h a =
        let none_left : ltb 0 avail ≡ false = ground arith in
        let r : TcpMessageReader = record { queue = []; offset = offset; remain = none } in
        let result =
          ap
            (λ t.
              if t
              then some (push_back r buffer, [])
              else some (new_reader, release_buffer buffer ∷ []))
            none_left in
        (
          new_reader,
          release_buffer buffer ∷ [],
          result,
          (refl, refl),
          subst (λ b. Frames p b [] []) (sym (drop_above offset buffer h)) (partial [] no_bytes),
          refl,
        )

    pub message_then :
        (r : TcpMessageReader) (m b : List ℕ) (buffers : List (List ℕ))
        (rest : Option (TcpMessageReader × List Call))
        → IsMessage p m
        → Reads b buffers rest
        → Reads (m ++ b) buffers (after_message (p.receive_callback m) (receive m) r rest)
    unfolding after_message
    message_then r m b buffers rest h (end, calls, e, valid, frames, back) = (
      end,
      receive m ∷ calls,
      ap (λ t. after_message t (receive m) r rest) (accepts m)
          ∙ opens (λ s. some (s.0, receive m ∷ s.1)) e refl,
      valid,
      message m b (received calls) (pending end) h frames,
      back,
    )

    -- From one side of an equation to the other.
    pub along :
        {bytes : List ℕ} {buffers : List (List ℕ)} {o o' : Option (TcpMessageReader × List Call)}
        → o ≡ o'
        → Reads bytes buffers o'
        → Reads bytes buffers o
    along {bytes} {buffers} e = subst (Reads bytes buffers) (sym e)
