-- ===== src/TcpMessageReader/Stream.antt =====
-- What a message reader receives of a stream of bytes, whatever buffers it comes in.
use tf_common.Common.{
  items_from, ℕ, ◌≡◌, refl, sym, ap, ◌∙◌, inl, inr, true, Option, some, List, [], ◌∷◌, ◌++◌, Has,
  concat, append_assoc, append_nil,
}
use mathlib.Core.Path.{subst}
use tf_common.Task.{opens}
use tf_common.TcpMessageReader.{
  Protocol, TcpMessageReader, new_reader, Call, receive, release_buffer, on_read, on_reads,
}
use tf_common.TcpMessageReader.Framing.{
  IsFraming, IsIncomplete, IsMessage, Frames, Frames-append, Frames-unique, partial, message,
}
use tf_common.TcpMessageReader.Copies.{pending}
use tf_common.TcpMessageReader.Reads.{received, released, Holds, IsReader, Reads, no_bytes}
use tf_common.TcpMessageReader.Queued.{on_front_lem}

received-append :
    (calls more : List Call) → received (calls ++ more) ≡ received calls ++ received more
received-append [] more = refl
received-append (receive m ∷ calls) more = ap (λ l. m ∷ l) (received-append calls more)
received-append (release_buffer b ∷ calls) more = received-append calls more

released-append :
    (calls more : List Call) → released (calls ++ more) ≡ released calls ++ released more
released-append [] more = refl
released-append (receive m ∷ calls) more = released-append calls more
released-append (release_buffer b ∷ calls) more = ap (λ l. b ∷ l) (released-append calls more)

module _ (p : Protocol) (f : IsFraming p)
    (accepts : (m : List ℕ) → p.receive_callback m ≡ true) where
  pub on_read-Reads :
      (r : TcpMessageReader) (buffer : List ℕ)
      → IsReader p r
      → Reads p (pending r ++ buffer) (r.queue ++ buffer ∷ []) (on_read p r buffer)
  unfolding on_read
  on_read-Reads r buffer h = on_front_lem p f accepts r.offset r.remain r.queue buffer h

  pending-IsIncomplete :
      (offset : ℕ) (remain : Option ℕ) (queue : List (List ℕ))
      → Holds p offset remain queue
      → IsIncomplete p (items_from offset queue)
  pending-IsIncomplete offset remain [] h = no_bytes p f accepts
  pending-IsIncomplete offset remain (front ∷ queue) (h, k, l) = k

  -- From a reader that holds a part of a message at most, for a protocol whose lengths are known
  -- from the header on, at least its size and at most the bound, and a callback that accepts every
  -- message, any buffers are read without a failed assert or a copy out of bounds: the bytes held
  -- and read are exactly the messages received, each whole, and the part of a message that is held
  -- again, and the buffers go back to the session in the order in which they came.
  pub on_reads-Reads :
      (r : TcpMessageReader) (buffers : List (List ℕ))
      → IsReader p r
      → Reads p (pending r ++ concat buffers) (r.queue ++ buffers) (on_reads p r buffers)
  unfolding on_reads
  on_reads-Reads r [] h =
      let incomplete = pending-IsIncomplete r.offset r.remain r.queue h in
      (
        r,
        [],
        refl,
        h,
        subst (λ b. Frames p b [] (pending r)) (sym (append_nil (pending r)))
            (partial (pending r) incomplete),
        sym (append_nil r.queue),
      )
  on_reads-Reads r (b ∷ buffers) h =
      let (next, calls, e, valid, frames, back) = on_read-Reads r b h in
      let (end, more, d, valid', frames', back') = on_reads-Reads next buffers valid in
      (
        end,
        calls ++ more,
        opens _ e (opens _ d refl),
        valid',
        subst (λ l. Frames p l (received (calls ++ more)) (pending end))
            (append_assoc (pending r) b (concat buffers))
            (subst (λ l. Frames p ((pending r ++ b) ++ concat buffers) l (pending end))
              (sym (received-append calls more)) (Frames-append p (concat buffers) frames frames')),
        ap (λ l. l ++ end.queue) (released-append calls more)
            ∙ append_assoc (released calls) (released more) end.queue
            ∙ ap (λ l. released calls ++ l) back'
            ∙ sym (append_assoc (released calls) next.queue buffers)
            ∙ ap (λ l. l ++ buffers) back
            ∙ append_assoc r.queue (b ∷ []) buffers,
      )

  -- From a reader that holds a part of a message at most, for a protocol whose lengths are known
  -- from the header on, at least its size and at most the bound, and a callback that accepts every
  -- message, two sequences of buffers of the same bytes lead to the same messages received and the
  -- same bytes held, however the bytes are cut into buffers.
  pub on_reads-split :
      (r : TcpMessageReader) (buffers buffers' : List (List ℕ))
      → IsReader p r
      → concat buffers ≡ concat buffers'
      → (s : TcpMessageReader × List Call) × (s' : TcpMessageReader × List Call) × (on_reads p r
            buffers
          ≡ some s)
        × (on_reads p r buffers' ≡ some s')
        × (received s.1 ≡ received s'.1)
        × (pending s.0 ≡ pending s'.0)
  on_reads-split r buffers buffers' h same =
      let (s, calls, e, _, frames, _) = on_reads-Reads r buffers h in
      let (s', calls', e', _, frames', _) = on_reads-Reads r buffers' h in
      let frames_same =
        subst (λ b. Frames p (pending r ++ b) (received calls) (pending s)) same frames in
      let (messages, left) = Frames-unique p frames_same frames' in
      ((s, calls), (s', calls'), e, e', messages, left)

  concat-Frames :
      (ms : List (List ℕ)) → ((m : List ℕ) → Has ms m → IsMessage p m) → Frames p (concat ms) ms []
  concat-Frames [] h = partial [] (no_bytes p f accepts)
  concat-Frames (m ∷ ms) h =
      message m (concat ms) ms [] (h m (inl refl)) (concat-Frames ms (λ k there. h k (inr there)))

  -- For a protocol whose lengths are known from the header on, at least its size and at most the
  -- bound, and a callback that accepts every message, a new reader that reads messages written one
  -- after the other receives exactly these messages and holds nothing, in whatever buffers they
  -- come.
  pub on_reads-concat :
      (ms buffers : List (List ℕ))
      → ((m : List ℕ) → Has ms m → IsMessage p m)
      → concat buffers ≡ concat ms
      → (r : TcpMessageReader) × (calls : List Call) × (on_reads p new_reader buffers
          ≡ some (r, calls))
        × (received calls ≡ ms)
        × (pending r ≡ [])
  on_reads-concat ms buffers h same =
      let (r, calls, e, _, frames, _) = on_reads-Reads new_reader buffers (refl, refl) in
      let frames_same = subst (λ b. Frames p b (received calls) (pending r)) same frames in
      let (messages, left) = Frames-unique p frames_same (concat-Frames ms h) in
      (r, calls, e, messages, left)
