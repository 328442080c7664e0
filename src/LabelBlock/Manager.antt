-- ===== src/LabelBlock/Manager.antt =====
-- The reference counts of the blocks, and the list of the manager.
use tf_common.Common.{
  ℕ, ◌+◌, ◌<◌, ◌≡◌, ◌≢◌, refl, sym, ap, ◌∙◌, ◌⊎◌, inl, inr, true, false, none, some, List, [], ◌∷◌,
  ◌++◌, if◌then◌else◌, ◌==◌, arith, Bool-cases, ==_iff, ==-false, Has, Distinct,
}
use tf_common.LabelBlock.{
  LabelBlockManager, new_manager, has_range, find_block, add_block, add_ref, locate_block,
}

-- The manager lists exactly the blocks with references, each once, and no two of one range.
pub record IsManager (m : LabelBlockManager) : Type 0 where
  pub counted : (id : ℕ) → Has m.blocks id → 0 < m.refcount id
  pub listed : (id : ℕ) → 0 < m.refcount id → Has m.blocks id
  pub known : (id : ℕ) → Has m.blocks id → id < m.next
  pub distinct : Distinct m.blocks
  pub shared :
      (i j : ℕ)
      → Has m.blocks i
      → Has m.blocks j
      → (m.block i).first ≡ (m.block j).first
      → (m.block i).last ≡ (m.block j).last
      → i ≡ j

Has-snoc : (xs : List ℕ) (x y : ℕ) → Has (xs ++ x ∷ []) y → Has xs y ⊎ (x ≡ y)
Has-snoc [] x y (inl e) = inr e
Has-snoc [] x y (inr h) = elim h [ ]
Has-snoc (z ∷ xs) x y (inl e) = inl (inl e)
Has-snoc (z ∷ xs) x y (inr h) = elim (Has-snoc xs x y h) [ inl k ↦ inl (inr k) | inr e ↦ inr e ]

Has-append_left : (xs : List ℕ) (x y : ℕ) → Has xs y → Has (xs ++ x ∷ []) y
Has-append_left (z ∷ xs) x y (inl e) = inl e
Has-append_left (z ∷ xs) x y (inr h) = inr (Has-append_left xs x y h)
Has-append_left [] x y h = elim h [ ]

Has-append_last : (xs : List ℕ) (x : ℕ) → Has (xs ++ x ∷ []) x
Has-append_last [] x = inl refl
Has-append_last (z ∷ xs) x = inr (Has-append_last xs x)

Distinct-append : (xs : List ℕ) (x : ℕ) → Distinct xs → (Has xs x → ⊥) → Distinct (xs ++ x ∷ [])
Distinct-append [] x d n = (λ h. h, tt)
Distinct-append (z ∷ xs) x d n = (
  λ h. elim (Has-snoc xs x z h) [ inl k ↦ d.0 k | inr e ↦ n (inl (sym e)) ],
  Distinct-append xs x d.1 (λ h. n (inr h)),
)

-- The search finds a block of the range, or there is none.
find_block_lem :
    (m : LabelBlockManager) (first last : ℕ) (ids : List ℕ)
    → ((id : ℕ) × (find_block m first last ids ≡ some id)
        × Has ids id
        × ((m.block id).first ≡ first)
        × ((m.block id).last ≡ last))
      ⊎ ((find_block m first last ids ≡ none)
          × ((id : ℕ) → Has ids id → (m.block id).first ≡ first → (m.block id).last ≡ last → ⊥))
unfolding find_block
find_block_lem m first last [] = inr (refl, λ id h. absurd h)
find_block_lem m first last (j ∷ js) = elim (Bool-cases (has_range (m.block j) first last)) [
  | inl y ↦ inl (j, rw y refl, inl refl, ground arith, ground arith)
  | inr n ↦ elim (find_block_lem m first last js) [
    | inl (id, e, h, f, l) ↦ inl (id, rw n e, inr h, f, l)
    | inr (e, none_else) ↦ inr (
      rw n e,
      λ id h f l. elim h [
        | inl same ↦
            ground (arith, ap (λ i. (m.block i).first) same, ap (λ i. (m.block i).last) same)
        | inr k ↦ none_else id k f l
      ],
    )
  ]
]

-- What a reference more leaves: the counts, with one more for the block, and a block of the range.
unfoldable pub Located : ℕ → ℕ → LabelBlockManager → ℕ × LabelBlockManager → Type 0
Located first last m (id, m') =
    IsManager m'
    × ((m'.block id).first ≡ first)
    × ((m'.block id).last ≡ last)
    × ((j : ℕ) → m'.refcount j ≡ (if id == j then m.refcount j + 1 else m.refcount j))
    × ((j : ℕ) → Has m.blocks j → m'.block j ≡ m.block j)

add_ref-IsManager :
    (id : ℕ) (m : LabelBlockManager) → Has m.blocks id → IsManager m → IsManager (add_ref id m)
unfolding add_ref
add_ref-IsManager id m h v = record {
  counted = λ j k. let c = v.counted j k in ground arith;
  listed = λ j c. elim (Bool-cases (id == j)) [
    | inl y ↦ let same : id ≡ j = (==_iff id j).0 y in rw (← same) h
    | inr n ↦ v.listed j (rw n at c)
  ];
  known = v.known;
  distinct = v.distinct;
  shared = v.shared;
}

module _ (first last : ℕ) (m : LabelBlockManager) (v : IsManager m)
    (missing : (id : ℕ)
      → Has m.blocks id
      → (m.block id).first ≡ first
      → (m.block id).last ≡ last
      → ⊥) where
  added : LabelBlockManager
  added = add_ref m.next (add_block first last m)

  not_next : (j : ℕ) → Has m.blocks j → (m.next == j) ≡ false
  not_next j h = let k = v.known j h in ground arith

  old_block : (j : ℕ) → Has m.blocks j → added.block j ≡ m.block j
  unfolding added add_ref add_block
  old_block j h = rw (not_next j h) refl

  new_range : ((added.block m.next).first ≡ first) × ((added.block m.next).last ≡ last)
  unfolding added add_ref add_block
  new_range = let own : (m.next == m.next) ≡ true = ground arith in rw own (refl, refl)

  fresh_count : m.refcount m.next ≡ 0
  fresh_count = elim (Bool-cases (m.refcount m.next == 0)) [
    | inl y ↦ (==_iff (m.refcount m.next) 0).0 y
    | inr n ↦
        let ne : m.refcount m.next ≢ 0 = ==-false (m.refcount m.next) 0 n in
        let k = v.known m.next (v.listed m.next (omega arith)) in absurd (omega arith)
  ]

  counts : (j : ℕ) → added.refcount j ≡ (if m.next == j then m.refcount j + 1 else m.refcount j)
  unfolding added add_ref add_block
  counts j = elim (Bool-cases (m.next == j)) [
    | inl y ↦
        let own : (m.next == m.next) ≡ true = ground arith in
        let same : m.next ≡ j = (==_iff m.next j).0 y in
        rw y (rw (← same) (rw own (sym (ap (λ n. n + 1) fresh_count))))
    | inr n ↦ rw n refl
  ]

  member : (j : ℕ) → Has added.blocks j → Has m.blocks j ⊎ (m.next ≡ j)
  unfolding added add_ref add_block
  member j = Has-snoc m.blocks m.next j

  old_member : (j : ℕ) → Has m.blocks j → Has added.blocks j
  unfolding added add_ref add_block
  old_member j = Has-append_left m.blocks m.next j

  new_member : Has added.blocks m.next
  unfolding added add_ref add_block
  new_member = Has-append_last m.blocks m.next

  added-Distinct : Distinct added.blocks
  unfolding added add_ref add_block
  added-Distinct =
      Distinct-append m.blocks m.next v.distinct (λ h. let k = v.known m.next h in omega arith)

  added-shared :
      (i j : ℕ)
      → Has m.blocks i ⊎ (m.next ≡ i)
      → Has m.blocks j ⊎ (m.next ≡ j)
      → (added.block i).first ≡ (added.block j).first
      → (added.block i).last ≡ (added.block j).last
      → i ≡ j
  added-shared i j (inl h) (inl k) f l =
      v.shared i j h k (rw (old_block i h, old_block j k) at f)
        (rw (old_block i h, old_block j k) at l)
  added-shared i j (inl h) (inr q) f l = absurd (
      missing i h
        (sym (ap (λ b. b.first) (old_block i h))
          ∙ f
          ∙ sym (ap (λ x. (added.block x).first) q)
          ∙ new_range.0)
        (sym (ap (λ b. b.last) (old_block i h))
          ∙ l
          ∙ sym (ap (λ x. (added.block x).last) q)
          ∙ new_range.1))
  added-shared i j (inr q) (inl h) f l = absurd (
      missing j h
        (sym (ap (λ b. b.first) (old_block j h))
          ∙ sym f
          ∙ sym (ap (λ x. (added.block x).first) q)
          ∙ new_range.0)
        (sym (ap (λ b. b.last) (old_block j h))
          ∙ sym l
          ∙ sym (ap (λ x. (added.block x).last) q)
          ∙ new_range.1))
  added-shared i j (inr q) (inr r) f l = sym q ∙ r

  added-known : (j : ℕ) → Has added.blocks j → j < added.next
  unfolding added add_ref add_block
  added-known j h = elim (Has-snoc m.blocks m.next j h) [
    | inl k ↦ let b = v.known j k in omega arith
    | inr q ↦ omega arith
  ]

  added-Located : Located first last m (m.next, added)
  unfolding Located
  added-Located = (
    record {
      counted = λ j h. rw (counts j) (elim (member j h) [
        | inl k ↦ let c = v.counted j k in ground arith
        | inr q ↦ ground arith
      ]);
      listed = λ j c. elim (Bool-cases (m.next == j)) [
        | inl y ↦ let same : m.next ≡ j = (==_iff m.next j).0 y in rw (← same) new_member
        | inr n ↦ old_member j (v.listed j (rw (counts j, n) at c))
      ];
      known = added-known;
      distinct = added-Distinct;
      shared = λ i j h k. added-shared i j (member i h) (member j k);
    },
    new_range.0,
    new_range.1,
    counts,
    old_block,
  )

-- For a manager that lists exactly the blocks with references, each once and no two of one range,
-- the block located has the range asked for and one reference more, the other blocks and counts
-- stay, and the manager stays so.
pub locate_block-Located :
    (first last : ℕ) (m : LabelBlockManager)
    → IsManager m
    → Located first last m (locate_block first last m)
unfolding locate_block Located added add_ref
locate_block-Located first last m v = elim (find_block_lem m first last m.blocks) [
  | inl (id, e, h, f, l) ↦
      rw (e, locate_block) (add_ref-IsManager id m h v, f, l, (λ j. ground arith), λ j k. refl)
  | inr (e, missing) ↦ rw (e, locate_block) (added-Located first last m v missing)
]

pub new_manager-IsManager : IsManager new_manager
new_manager-IsManager = record {
  counted = λ id h. absurd h;
  listed = λ id c. absurd (omega arith);
  known = λ id h. absurd h;
  distinct = tt;
  shared = λ i j h k f l. absurd h;
}
