-- ===== src/TcpMessageReader/Tests.antt =====
-- A protocol whose messages begin with a byte that tells their length, read from two buffers.
use tf_common.Common.{
  ℕ, suc, ◌%◌, ◌≤◌, ◌<◌, ◌≡◌, ◌⊎◌, refl, inl, inr, true, Option, none, some, List, [], ◌∷◌, ◌++◌,
  arith, length, drop, concat, Has,
}
use mathlib.Core.Path.{subst}
use tf_common.TcpMessageReader.{
  on_read, on_known, fill, complete, buffer_concat, copy_queue, memcpy, read_from, read_buffer, cut,
  after_message, finish, pull_header, pull_up, double_up_to, Protocol, TcpMessageReader, new_reader,
  Call, receive, release_buffer, alloc_buffer_size, on_reads, double_int,
}
use tf_common.TcpMessageReader.Framing.{IsFraming, IsMessage}
use tf_common.TcpMessageReader.Copies.{pending}
use tf_common.TcpMessageReader.Size.{IsSize, alloc_buffer_size_lem}
use tf_common.TcpMessageReader.Reads.{received, IsReader, Reads}
use tf_common.TcpMessageReader.Stream.{on_reads-Reads, on_reads-split, on_reads-concat}

abbrev length_at : List ℕ → Option ℕ
length_at [] = none
length_at (n ∷ _) = some (suc (n % 4))

abbrev protocol : Protocol
protocol = record {
  msg_length = λ buffer offset. length_at (drop offset buffer);
  header_len_size = 1;
  max_message_size = 4;
  receive_callback = λ _. true;
}

short_lem : (b : List ℕ) → length b < 1 → length_at b ≡ none
short_lem [] h = refl
short_lem (n ∷ b) h = absurd (omega arith)

known_lem :
    (b : List ℕ)
    → 1 ≤ length b
    → (n : ℕ) × (1 ≤ n) × (n ≤ 4) × ((c : List ℕ) → length_at (b ++ c) ≡ some n)
known_lem [] h = absurd (omega arith)
known_lem (n ∷ b) h = (suc (n % 4), omega arith, omega arith, λ c. refl)

protocol-IsFraming : IsFraming protocol
protocol-IsFraming = record {
  at_offset = λ b o h. refl;
  short = short_lem;
  known = known_lem;
  nonempty = omega arith;
}

abbrev messages : List (List ℕ)
messages = (2 ∷ 8 ∷ 9 ∷ []) ∷ (0 ∷ []) ∷ (3 ∷ 5 ∷ 6 ∷ 7 ∷ []) ∷ []

abbrev pieces : List (List ℕ)
pieces = (2 ∷ 8 ∷ []) ∷ (9 ∷ 0 ∷ 3 ∷ []) ∷ [] ∷ (5 ∷ 6 ∷ 7 ∷ []) ∷ []

abbrev bytes : List (List ℕ)
bytes = (2 ∷ []) ∷ (8 ∷ []) ∷ (9 ∷ []) ∷ (0 ∷ []) ∷ (3 ∷ 5 ∷ 6 ∷ 7 ∷ []) ∷ []

are_messages : (m : List ℕ) → Has messages m → IsMessage protocol m
are_messages m h = elim h [
  | inl e ↦ subst (IsMessage protocol) e (omega arith, λ c. refl)
  | inr (inl e) ↦ subst (IsMessage protocol) e (omega arith, λ c. refl)
  | inr (inr (inl e)) ↦ subst (IsMessage protocol) e (omega arith, λ c. refl)
  | inr (inr (inr x)) ↦ elim x [ ]
]

accepts : (m : List ℕ) → protocol.receive_callback m ≡ true
accepts m = refl

start : IsReader protocol new_reader
start = (refl, refl)

on_reads-Reads_example :
    Reads protocol
      (pending new_reader ++ concat pieces)
      (new_reader.queue ++ pieces)
      (on_reads protocol new_reader pieces)
on_reads-Reads_example = on_reads-Reads protocol protocol-IsFraming accepts new_reader pieces start

on_reads-split_example :
    (s : TcpMessageReader × List Call) × (s' : TcpMessageReader × List Call) × (on_reads protocol
        new_reader pieces
      ≡ some s)
    × (on_reads protocol new_reader bytes ≡ some s')
    × (received s.1 ≡ received s'.1)
    × (pending s.0 ≡ pending s'.0)
on_reads-split_example =
    on_reads-split protocol protocol-IsFraming accepts new_reader pieces bytes start refl

on_reads-concat_example :
    (r : TcpMessageReader) × (calls : List Call) × (on_reads protocol new_reader pieces
      ≡ some (r, calls))
    × (received calls ≡ messages)
    × (pending r ≡ [])
on_reads-concat_example =
    on_reads-concat protocol protocol-IsFraming accepts messages pieces are_messages refl

alloc_buffer_size_lem_example :
    (double_int 300 4096 300 256 ≡ alloc_buffer_size 4096 (some 300))
    × ((4096 ≤ alloc_buffer_size 4096 (some 300)) ⊎ (300 ≤ alloc_buffer_size 4096 (some 300)))
    × IsSize 4096 300 (alloc_buffer_size 4096 (some 300))
alloc_buffer_size_lem_example = alloc_buffer_size_lem 4096 300 (omega arith)

-- A message in three buffers, its header in the first.
read_pieces :
    on_reads protocol new_reader pieces
    ≡ some (
      new_reader,
      release_buffer (2 ∷ 8 ∷ [])
          ∷ receive (2 ∷ 8 ∷ 9 ∷ [])
          ∷ receive (0 ∷ [])
          ∷ release_buffer (9 ∷ 0 ∷ 3 ∷ [])
          ∷ release_buffer []
          ∷ receive (3 ∷ 5 ∷ 6 ∷ 7 ∷ [])
          ∷ release_buffer (5 ∷ 6 ∷ 7 ∷ [])
          ∷ [],
    )
unfolding on_reads on_read on_known fill complete buffer_concat copy_queue memcpy read_from
    read_buffer cut after_message finish pull_header pull_up alloc_buffer_size double_up_to
read_pieces = refl
