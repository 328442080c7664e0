-- ===== src/TcpMessageReader/Joined.antt =====
-- A message whose parts are queued: a buffer joins the queue, or the parts are put together.
use tf_common.Common.{
  some_injective, items_from, items_from-append, ℕ, ◌+◌, ◌-◌, ◌≤◌, ◌<◌, ◌≡◌, refl, sym, ap, ◌∙◌,
  inl, inr, Bool, true, Option, none, some, List, [], ◌∷◌, ◌++◌, ltb, ltb→lt, if◌then◌else◌, arith,
  length, take, drop, concat, map, append_assoc, length-append, take-drop, take-append_ge,
  Bool-cases,
}
use mathlib.Core.Path.{subst}
use tf_common.Task.{opens, passes, ◌>>=◌}
use tf_common.TcpMessageReader.{
  Protocol, TcpMessageReader, Call, receive, release_buffer, read_from, alloc_buffer_size, complete,
  fill, after_message,
}
use tf_common.TcpMessageReader.Framing.{
  IsFraming, IsIncomplete, IsMessage, Frames, partial, whole_message,
}
use tf_common.TcpMessageReader.Copies.{pending, alloc_buffer_size_holds, buffer_concat_lem}
use tf_common.TcpMessageReader.Loop.{read_from_lem}
use tf_common.TcpMessageReader.Reads.{
  received, released, Reads, head-IsMessage, message_then, along,
}

-- The queue's buffers go back without a message.
received-release :
    (queue : List (List ℕ)) (calls : List Call)
    → received (map release_buffer queue ++ calls) ≡ received calls
received-release [] calls = refl
received-release (b ∷ queue) calls = received-release queue calls

released-release :
    (queue : List (List ℕ)) (calls : List Call)
    → released (map release_buffer queue ++ calls) ≡ queue ++ released calls
released-release [] calls = refl
released-release (b ∷ queue) calls = ap (λ l. b ∷ l) (released-release queue calls)

module _ (p : Protocol) (f : IsFraming p)
    (accepts : (m : List ℕ) → p.receive_callback m ≡ true) where
  abbrev pub at : ℕ → Option ℕ → List (List ℕ) → TcpMessageReader
  at offset remain queue = record { queue = queue; offset = offset; remain = remain }

  released_first :
      (queue buffers : List (List ℕ)) (bytes : List ℕ)
      (rest : Option (TcpMessageReader × List Call))
      → Reads p bytes buffers rest
      → Reads p bytes (queue ++ buffers) (rest >>= λ s. some (s.0, map release_buffer queue ++ s.1))
  released_first queue buffers bytes rest (end, calls, e, valid, frames, back) = (
    end,
    map release_buffer queue ++ calls,
    opens (λ s. some (s.0, map release_buffer queue ++ s.1)) e refl,
    valid,
    subst (λ l. Frames p bytes l (pending end)) (sym (received-release queue calls)) frames,
    ap (λ l. l ++ end.queue) (released-release queue calls)
        ∙ append_assoc queue (released calls) end.queue
        ∙ ap (λ l. queue ++ l) back,
  )

  -- A buffer joins the queue.
  pub pushed :
      (offset : ℕ) (remain : Option ℕ) (front : List ℕ) (queue : List (List ℕ)) (buffer : List ℕ)
      → offset < length front
      → IsIncomplete p (items_from offset (front ∷ queue) ++ buffer)
      → ((n : ℕ)
          → p.msg_length front offset ≡ some n
          → remain ≡ some (n - length (items_from offset (front ∷ queue) ++ buffer)))
      → Reads p
          (items_from offset (front ∷ queue) ++ buffer)
          (front ∷ queue ++ buffer ∷ [])
          (some (at offset remain (front ∷ queue ++ buffer ∷ []), []))
  pushed offset remain front queue buffer h k l =
      let bytes = items_from offset (front ∷ queue) ++ buffer in
      let (incomplete, lacking, rest) =
        subst
          (λ b.
            IsIncomplete p b
            × ((n : ℕ) → p.msg_length front offset ≡ some n → remain ≡ some (n - length b))
            × Frames p bytes [] b)
          (items_from-append offset front queue buffer) (k, l, partial bytes k) in
      (
        at offset remain (front ∷ queue ++ buffer ∷ []),
        [],
        refl,
        (h, incomplete, lacking),
        rest,
        refl,
      )

  complete_lem :
      (offset n : ℕ) (remain : Option ℕ) (front : List ℕ) (queue : List (List ℕ)) (buffer : List ℕ)
      → length (items_from offset (front ∷ queue)) < n
      → n ≤ length (items_from offset (front ∷ queue)) + length buffer
      → p.msg_length (items_from offset (front ∷ queue) ++ buffer) 0 ≡ some n
      → Reads p
          (items_from offset (front ∷ queue) ++ buffer)
          (front ∷ queue ++ buffer ∷ [])
          (complete p (at offset remain (front ∷ queue)) buffer n)
  unfolding complete
  complete_lem offset n remain front queue buffer h k e =
      let bytes = items_from offset (front ∷ queue) in
      let count = n - length bytes in
      let size = length-append bytes buffer in
      let capacity = alloc_buffer_size p.max_message_size (some n) in
      let (_, _, high, _) = whole_message p f (bytes ++ buffer) n e in
      let fits = alloc_buffer_size_holds p.max_message_size n high in
      let m = bytes ++ take count buffer in
      let whole : take n (bytes ++ buffer) ≡ m = take-append_ge n bytes buffer (omega arith) in
      let is_message : IsMessage p m =
        subst (IsMessage p) whole
          (head-IsMessage p f accepts (bytes ++ buffer) n e (omega arith)) in
      let joined : m ++ drop count buffer ≡ bytes ++ buffer =
        append_assoc bytes (take count buffer) (drop count buffer)
        ∙ ap (λ l. bytes ++ l) (take-drop count buffer) in
      let rest = read_from p buffer (at count none []) in
      let later =
        message_then p f accepts (at count none []) m (drop count buffer) (buffer ∷ []) rest
          is_message (read_from_lem p f accepts buffer count (omega arith)) in
      along p f accepts
        (opens _ (buffer_concat_lem capacity offset remain front queue buffer n h k fits) refl)
        (released_first (front ∷ queue) (buffer ∷ []) (bytes ++ buffer)
          (after_message (p.receive_callback m) (receive m) (at count none []) rest)
          (subst
            (λ b.
              Reads p b (buffer ∷ [])
                (after_message (p.receive_callback m) (receive m) (at count none []) rest))
            joined later))

  -- A length that the first buffer tells is the message's.
  pub front_known :
      (offset n : ℕ) (front : List ℕ) (queue : List (List ℕ))
      → offset < length front
      → p.msg_length front offset ≡ some n
      → (c : List ℕ) → p.msg_length (items_from offset (front ∷ queue) ++ c) 0 ≡ some n
  front_known offset n front queue h e c =
      let (_, _, _, same) =
        whole_message p f (drop offset front) n
          (sym (f.at_offset front offset (omega arith)) ∙ e) in
      ap (λ l. p.msg_length l 0) (append_assoc (drop offset front) (concat queue) c)
      ∙ same (concat queue ++ c)

  pub fill_lem :
      (offset n : ℕ) (front : List ℕ) (queue : List (List ℕ)) (buffer : List ℕ)
      → offset < length front
      → length (items_from offset (front ∷ queue)) < n
      → p.msg_length (items_from offset (front ∷ queue) ++ buffer) 0 ≡ some n
      → let remain = some (n - length (items_from offset (front ∷ queue))) in
        Reads p
          (items_from offset (front ∷ queue) ++ buffer)
          (front ∷ queue ++ buffer ∷ [])
          (fill p (at offset remain (front ∷ queue)) buffer n remain)
  unfolding fill
  fill_lem offset n front queue buffer h k e =
      let bytes = items_from offset (front ∷ queue) in
      let remain = n - length bytes in
      let size = length-append bytes buffer in
      let waiting = at offset (some (remain - length buffer)) (front ∷ queue ++ buffer ∷ []) in
      let now = complete p (at offset (some remain) (front ∷ queue)) buffer n in
      let split : Bool → Option (TcpMessageReader × List Call) =
        λ t. if t then some (waiting, []) else now in
      let lacks : ltb 0 remain ≡ true = ground arith in
      let stays : (j : ℕ)
          → p.msg_length front offset ≡ some j
          → p.msg_length (bytes ++ buffer) 0 ≡ some j =
        λ j g. front_known offset j front queue h g buffer in
      elim (Bool-cases (ltb (length buffer) remain)) [
        | inl s ↦
            let short = ltb→lt (length buffer) remain s in
            let same : (j : ℕ) → p.msg_length (bytes ++ buffer) 0 ≡ some j → n ≡ j =
              λ j g. some_injective (sym e ∙ g) in
            along p f accepts (passes lacks (ap split s)) (
              pushed offset (some (remain - length buffer)) front queue buffer h
                (λ j g. let n≡j = same j g in omega arith)
                (λ j g. let n≡j = same j (stays j g) in ap some (omega arith)))
        | inr s ↦
            let enough : remain ≤ length buffer = ground arith in
            along p f accepts (passes lacks (ap split s))
              (complete_lem offset n (some remain) front queue buffer k (omega arith) e)
      ]
