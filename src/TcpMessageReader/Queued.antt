-- ===== src/TcpMessageReader/Queued.antt =====
-- A message that comes in several buffers: its header is put together first.
use tf_common.Common.{
  some_injective, items_from, ℕ, ◌+◌, ◌-◌, ◌≤◌, ◌<◌, ◌≡◌, refl, sym, ap, ap₂, ◌∙◌, inl, inr, Bool,
  true, Option, none, some, List, [], ◌∷◌, ◌++◌, ltb, ltb→lt, if◌then◌else◌, arith, length, take,
  drop, append_nil, length-append, length-take, take-drop, Bool-cases, Option-cases,
}
use mathlib.Core.Option.{none-ne-some}
use tf_common.Task.{opens, ◌>>=◌}
use tf_common.TcpMessageReader.{
  Protocol, TcpMessageReader, Call, push_back, read_from, queue_byte_length, pull_up, fill,
  pull_header, on_known, on_front,
}
use tf_common.TcpMessageReader.Framing.{IsFraming, IsIncomplete}
use tf_common.TcpMessageReader.Copies.{byte_length_from_front, pull_up_lem}
use tf_common.TcpMessageReader.Loop.{read_from_lem}
use tf_common.TcpMessageReader.Reads.{Holds, Reads, along}
use tf_common.TcpMessageReader.Joined.{at, pushed, front_known, fill_lem}

module _ (p : Protocol) (f : IsFraming p)
    (accepts : (m : List ℕ) → p.receive_callback m ≡ true) where
  -- What is incomplete lacks bytes of the message that it begins.
  begun :
      (b c : List ℕ) (n : ℕ)
      → IsIncomplete p b
      → p.header_len_size ≤ n
      → p.msg_length (b ++ c) 0 ≡ some n
      → length b < n
  begun b c n k low e = elim (Bool-cases (ltb (length b) p.header_len_size)) [
    | inl s ↦ let short = ltb→lt (length b) p.header_len_size s in omega arith
    | inr s ↦
        let long : p.header_len_size ≤ length b = ground arith in
        let (m, _, _, same) = f.known b long in
        let m≡n : m ≡ n = some_injective (sym (same c) ∙ e) in
        let short : length b < m =
          k m (ap (λ l. p.msg_length l 0) (sym (append_nil b)) ∙ same []) in
        omega arith
  ]

  pull_header_lem :
      (offset : ℕ) (remain : Option ℕ) (front : List ℕ) (queue : List (List ℕ)) (buffer : List ℕ)
      → Holds p offset remain (front ∷ queue)
      → p.msg_length front offset ≡ none
      → Reads p
          (items_from offset (front ∷ queue) ++ buffer)
          (front ∷ queue ++ buffer ∷ [])
          (pull_header p (at p f accepts offset remain (front ∷ queue)) buffer)
  unfolding pull_header queue_byte_length
  pull_header_lem offset remain front queue buffer (h, k, l) e =
      let bytes = items_from offset (front ∷ queue) in
      let size = length-append bytes buffer in
      let r = at p f accepts offset remain (front ∷ queue) in
      let header_size = p.header_len_size in
      let after : ℕ → ℕ → Option (TcpMessageReader × List Call) = λ queuelen msglength.
        fill p (at p f accepts offset (some (msglength - queuelen)) (front ∷ queue)) buffer
          msglength (some (msglength - queuelen)) in
      let pulled : ℕ → Option (TcpMessageReader × List Call) = λ queuelen.
        pull_up r buffer header_size >>= λ header. p.msg_length header 0 >>= after queuelen in
      let split : ℕ → Bool → Option (TcpMessageReader × List Call) =
        λ queuelen t. if t then some (push_back r buffer, []) else pulled queuelen in
      let counted : queue_byte_length r ≡ length bytes =
        byte_length_from_front offset front queue h in
      elim (Bool-cases (ltb (length bytes + length buffer) header_size)) [
        | inl s ↦
            let shorter = ltb→lt (length bytes + length buffer) header_size s in
            along p f accepts
              (ap (λ j. split j (ltb (j + length buffer) header_size)) counted
                ∙ ap (split (length bytes)) s)
              (pushed p f accepts offset remain front queue buffer h
                (λ n g. absurd (none-ne-some n (sym (f.short (bytes ++ buffer) (omega arith)) ∙ g)))
                (λ n g. absurd (none-ne-some n (sym e ∙ g))))
        | inr s ↦
            let longer : header_size ≤ length (bytes ++ buffer) = ground arith in
            let header = take header_size (bytes ++ buffer) in
            let positive = f.nonempty in
            let full : length header ≡ header_size =
              length-take header_size (bytes ++ buffer) longer in
            let (n, low, _, same) = f.known header (omega arith) in
            let there : p.msg_length header 0 ≡ some n =
              ap (λ l. p.msg_length l 0) (sym (append_nil header)) ∙ same [] in
            let known : p.msg_length (bytes ++ buffer) 0 ≡ some n =
              ap (λ l. p.msg_length l 0) (sym (take-drop header_size (bytes ++ buffer)))
              ∙ same (drop header_size (bytes ++ buffer)) in
            along p f accepts
              (ap (λ j. split j (ltb (j + length buffer) header_size)) counted
                ∙ ap (split (length bytes)) s
                ∙ opens _
                    (pull_up_lem offset remain front queue buffer header_size h positive longer)
                    (opens (after (length bytes)) there refl))
              (fill_lem p f accepts offset n front queue buffer h (begun bytes buffer n k low known)
                known)
      ]

  pub on_front_lem :
      (offset : ℕ) (remain : Option ℕ) (queue : List (List ℕ)) (buffer : List ℕ)
      → Holds p offset remain queue
      → Reads p
          (items_from offset queue ++ buffer)
          (queue ++ buffer ∷ [])
          (on_front p (at p f accepts offset remain queue) buffer queue)
  unfolding on_known
  on_front_lem offset remain [] buffer (start, idle) =
      along p f accepts (ap₂ (λ o m. read_from p buffer (at p f accepts o m [])) start idle)
        (read_from_lem p f accepts buffer 0 (omega arith))
  on_front_lem offset remain (front ∷ queue) buffer (h, k, l) =
      let r = at p f accepts offset remain (front ∷ queue) in
      elim (Option-cases (p.msg_length front offset)) [
        | inl e ↦
            along p f accepts (ap (on_known p r buffer) e)
              (pull_header_lem offset remain front queue buffer (h, k, l) e)
        | inr (n, e) ↦
            let bytes = items_from offset (front ∷ queue) in
            let known : (c : List ℕ) → p.msg_length (bytes ++ c) 0 ≡ some n =
              front_known p f accepts offset n front queue h e in
            let short : length bytes < n =
              k n (ap (λ l. p.msg_length l 0) (sym (append_nil bytes)) ∙ known []) in
            along p f accepts
              (ap (on_known p r buffer) e
                ∙ ap (λ m. fill p (at p f accepts offset m (front ∷ queue)) buffer n m) (l n e))
              (fill_lem p f accepts offset n front queue buffer h short (known buffer))
      ]
