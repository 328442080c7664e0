-- ===== src/TcpMessageReader/Framing.antt =====
-- What the virtual functions of a message reader promise, and the messages of a byte stream.
use tf_common.Common.{
  some_injective, ℕ, ◌+◌, ◌≤◌, ◌<◌, ◌≡◌, refl, sym, ap, ap₂, ◌∙◌, inl, inr, none, some, List, [],
  ◌∷◌, ◌++◌, arith, length, take, drop, append_assoc, length-append, take-length-append,
  drop-length-append, append_nil, Bool-cases, ltb→lt, ltb,
}
use mathlib.Core.Path.{subst}
use mathlib.Core.Option.{none-ne-some}
use tf_common.TcpMessageReader.{Protocol}

-- A length is a function of the bytes from the offset, known as soon as the header is there and
-- the same whatever follows it, at least the header's size, at most the bound.
pub record IsFraming (p : Protocol) : Type 0 where
  pub at_offset : (b : List ℕ) (o : ℕ) → o ≤ length b → p.msg_length b o ≡ p.msg_length (drop o b) 0
  pub short : (b : List ℕ) → length b < p.header_len_size → p.msg_length b 0 ≡ none
  pub known :
      (b : List ℕ)
      → p.header_len_size ≤ length b
      → (n : ℕ) × (p.header_len_size ≤ n)
        × (n ≤ p.max_message_size)
        × ((c : List ℕ) → p.msg_length (b ++ c) 0 ≡ some n)
  pub nonempty : 0 < p.header_len_size

module _ (p : Protocol) where
  -- The bytes do not hold a whole message.
  abbrev pub IsIncomplete : List ℕ → Type 0
  IsIncomplete b = (n : ℕ) → p.msg_length b 0 ≡ some n → length b < n

  -- A message: its length is what its own bytes say, whatever follows.
  abbrev pub IsMessage : List ℕ → Type 0
  IsMessage b = (0 < length b) × ((c : List ℕ) → p.msg_length (b ++ c) 0 ≡ some (length b))

  -- The messages of a stream and the bytes that are left.
  pub data Frames : List ℕ → List (List ℕ) → List ℕ → Type 0 where
    partial : (b : List ℕ) → IsIncomplete b → Frames b [] b
    message :
        (m b : List ℕ) (ms : List (List ℕ)) (rest : List ℕ)
        → IsMessage m
        → Frames b ms rest
        → Frames (m ++ b) (m ∷ ms) rest

  pub Frames-append :
      {b : List ℕ} {ms : List (List ℕ)} {rest : List ℕ} (c : List ℕ) {ms' : List (List ℕ)}
      {rest' : List ℕ}
      → Frames b ms rest
      → Frames (rest ++ c) ms' rest'
      → Frames (b ++ c) (ms ++ ms') rest'
  Frames-append c (partial b h) g = g
  Frames-append c {ms' = ms'} {rest' = rest'} (message m b ms rest h f) g =
      subst (λ l. Frames l (m ∷ ms ++ ms') rest') (sym (append_assoc m b c))
        (message m (b ++ c) (ms ++ ms') rest' h (Frames-append c f g))

  -- The messages of a stream are determined, whatever way it is cut.
  same_head : (m n b c : List ℕ) → IsMessage m → IsMessage n → m ++ b ≡ n ++ c → (m ≡ n) × (b ≡ c)
  same_head m n b c h k e =
      let l : length m ≡ length n =
        some_injective (sym (h.1 b) ∙ ap (λ l. p.msg_length l 0) e ∙ k.1 c) in
      (
        sym (take-length-append m b) ∙ ap₂ take l e ∙ take-length-append n c,
        sym (drop-length-append m b) ∙ ap₂ drop l e ∙ drop-length-append n c,
      )

  not_partial : (b m c : List ℕ) → IsIncomplete b → IsMessage m → b ≡ m ++ c → ⊥
  not_partial b m c h k e =
      let short : length b < length m = h (length m) (ap (λ l. p.msg_length l 0) e ∙ k.1 c) in
      let long : length b ≡ length m + length c = ap length e ∙ length-append m c in omega arith

  same-Frames :
      {b c rest rest' : List ℕ} {ms ms' : List (List ℕ)}
      → b ≡ c
      → Frames b ms rest
      → Frames c ms' rest'
      → (ms ≡ ms') × (rest ≡ rest')
  same-Frames e (partial b h) (partial c k) = (refl, e)
  same-Frames e (partial b h) (message m c ms rest k g) = absurd (not_partial b m c h k e)
  same-Frames e (message m b ms rest h f) (partial c k) = absurd (not_partial c m b k h (sym e))
  same-Frames e (message m b ms rest h f) (message n c ms' rest' k g) =
      let (first, next) = same_head m n b c h k e in
      let (others, left) = same-Frames next f g in (ap₂ ◌∷◌ first others, left)

  pub Frames-unique :
      {b rest rest' : List ℕ} {ms ms' : List (List ℕ)}
      → Frames b ms rest
      → Frames b ms' rest'
      → (ms ≡ ms') × (rest ≡ rest')
  Frames-unique = same-Frames refl

  -- A known length stays, within its bounds.
  pub whole_message :
      (f : IsFraming p) (b : List ℕ) (n : ℕ)
      → p.msg_length b 0 ≡ some n
      → (p.header_len_size ≤ length b)
        × (p.header_len_size ≤ n)
        × (n ≤ p.max_message_size)
        × ((c : List ℕ) → p.msg_length (b ++ c) 0 ≡ some n)
  whole_message f b n e = elim (Bool-cases (ltb (length b) p.header_len_size)) [
    | inl s ↦ absurd (none-ne-some n (sym (f.short b (ltb→lt _ _ s)) ∙ e))
    | inr s ↦
        let long : p.header_len_size ≤ length b = ground arith in
        let (m, low, high, same) = f.known b long in
        let m≡n : m ≡ n =
          some_injective (sym (same []) ∙ ap (λ l. p.msg_length l 0) (append_nil b) ∙ e) in
        (
          long,
          subst (λ k. p.header_len_size ≤ k) m≡n low,
          subst (λ k. k ≤ p.max_message_size) m≡n high,
          λ c. same c ∙ ap some m≡n,
        )
  ]
