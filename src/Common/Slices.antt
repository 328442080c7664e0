-- ===== src/Common/Slices.antt =====
-- The first items of a list and the others, counted by native numbers.
use Prim.Native.Nat.{ℕ, zero, suc, ◌+◌, ◌-◌, ◌<◌, ◌≤◌, min}
use mathlib.Core.Path.{◌≡◌, refl, ap, sym, ◌∙◌}
use mathlib.Core.List.{List, [], ◌∷◌, ◌++◌}
use native.Mathlib.Omega.{arith}
use tf_common.Common.Lists.{length}

module _ {ℓ} {A : Type ℓ} where
  abbrev pub take : ℕ → List A → List A
  take zero xs = []
  take (suc n) [] = []
  take (suc n) (x ∷ xs) = x ∷ take n xs

  abbrev pub drop : ℕ → List A → List A
  drop zero xs = xs
  drop (suc n) [] = []
  drop (suc n) (x ∷ xs) = drop n xs

  abbrev pub concat : List (List A) → List A
  concat [] = []
  concat (xs ∷ xss) = xs ++ concat xss

  pub append_assoc : (xs ys zs : List A) → (xs ++ ys) ++ zs ≡ xs ++ (ys ++ zs)
  append_assoc [] ys zs = refl
  append_assoc (x ∷ xs) ys zs = ap (λ l. x ∷ l) (append_assoc xs ys zs)

  pub append_nil : (xs : List A) → xs ++ [] ≡ xs
  append_nil [] = refl
  append_nil (x ∷ xs) = ap (λ l. x ∷ l) (append_nil xs)

  pub concat-append : (xss yss : List (List A)) → concat (xss ++ yss) ≡ concat xss ++ concat yss
  concat-append [] yss = refl
  concat-append (xs ∷ xss) yss =
      ap (λ l. xs ++ l) (concat-append xss yss) ∙ sym (append_assoc xs (concat xss) (concat yss))

  pub take-drop : (n : ℕ) (xs : List A) → take n xs ++ drop n xs ≡ xs
  take-drop zero xs = refl
  take-drop (suc n) [] = refl
  take-drop (suc n) (x ∷ xs) = ap (λ l. x ∷ l) (take-drop n xs)

  pub length-take : (n : ℕ) (xs : List A) → n ≤ length xs → length (take n xs) ≡ n
  length-take zero xs h = refl
  length-take (suc n) [] h = absurd (omega arith)
  length-take (suc n) (x ∷ xs) h = ap suc (length-take n xs (omega arith))

  pub length-drop : (n : ℕ) (xs : List A) → length (drop n xs) ≡ length xs - n
  length-drop zero xs = omega arith
  length-drop (suc n) [] = omega arith
  length-drop (suc n) (x ∷ xs) = omega (arith, length-drop n xs)

  pub drop-drop : (m n k : ℕ) (xs : List A) → k ≡ n + m → drop m (drop n xs) ≡ drop k xs
  drop-drop m zero k xs e = ap (λ j. drop j xs) (omega arith)
  drop-drop zero (suc n) zero [] e = refl
  drop-drop zero (suc n) (suc k) [] e = refl
  drop-drop (suc m) (suc n) zero [] e = refl
  drop-drop (suc m) (suc n) (suc k) [] e = refl
  drop-drop m (suc n) zero (x ∷ xs) e = absurd (omega arith)
  drop-drop m (suc n) (suc k) (x ∷ xs) e = drop-drop m n k xs (omega arith)

  pub take_above : (n : ℕ) (xs : List A) → length xs ≤ n → take n xs ≡ xs
  take_above zero [] h = refl
  take_above zero (x ∷ xs) h = absurd (omega arith)
  take_above (suc n) [] h = refl
  take_above (suc n) (x ∷ xs) h = ap (λ l. x ∷ l) (take_above n xs (omega arith))

  pub drop_above : (n : ℕ) (xs : List A) → length xs ≤ n → drop n xs ≡ []
  drop_above zero [] h = refl
  drop_above zero (x ∷ xs) h = absurd (omega arith)
  drop_above (suc n) [] h = refl
  drop_above (suc n) (x ∷ xs) h = drop_above n xs (omega arith)

  pub take-append_ge :
      (n : ℕ) (xs ys : List A) → length xs ≤ n → take n (xs ++ ys) ≡ xs ++ take (n - length xs) ys
  take-append_ge n [] ys h = ap (λ j. take j ys) (omega arith)
  take-append_ge zero (x ∷ xs) ys h = absurd (omega arith)
  take-append_ge (suc n) (x ∷ xs) ys h =
      ap (λ l. x ∷ l)
        (take-append_ge n xs ys (omega arith) ∙ ap (λ j. xs ++ take j ys) (omega arith))

  pub take-append_le : (n : ℕ) (xs ys : List A) → n ≤ length xs → take n (xs ++ ys) ≡ take n xs
  take-append_le zero xs ys h = refl
  take-append_le (suc n) [] ys h = absurd (omega arith)
  take-append_le (suc n) (x ∷ xs) ys h = ap (λ l. x ∷ l) (take-append_le n xs ys (omega arith))

  pub drop-append_le :
      (n : ℕ) (xs ys : List A) → n ≤ length xs → drop n (xs ++ ys) ≡ drop n xs ++ ys
  drop-append_le zero xs ys h = refl
  drop-append_le (suc n) [] ys h = absurd (omega arith)
  drop-append_le (suc n) (x ∷ xs) ys h = drop-append_le n xs ys (omega arith)

  -- A copy is cut at the end of what is copied.
  pub take-min : (n : ℕ) (xs : List A) → take (min (length xs) n) xs ≡ take n xs
  take-min zero xs =
      let none_left : min (length xs) 0 ≡ 0 = omega arith in ap (λ j. take j xs) none_left
  take-min (suc n) [] =
      let none_left : min 0 (suc n) ≡ 0 = omega arith in ap (λ j. take j []) none_left
  take-min (suc n) (x ∷ xs) =
      let one_more : min (suc (length xs)) (suc n) ≡ suc (min (length xs) n) = omega arith in
      ap (λ j. take j (x ∷ xs)) one_more ∙ ap (λ l. x ∷ l) (take-min n xs)

  pub take-length-append : (xs ys : List A) → take (length xs) (xs ++ ys) ≡ xs
  take-length-append [] ys = refl
  take-length-append (x ∷ xs) ys = ap (λ l. x ∷ l) (take-length-append xs ys)

  pub drop-length-append : (xs ys : List A) → drop (length xs) (xs ++ ys) ≡ ys
  drop-length-append [] ys = refl
  drop-length-append (x ∷ xs) ys = drop-length-append xs ys

  pub take-append :
      (n : ℕ) (xs ys : List A) → take n (xs ++ ys) ≡ take n xs ++ take (n - length xs) ys
  take-append zero xs ys =
      let none_left : 0 - length xs ≡ 0 = omega arith in ap (λ j. take j ys) (sym none_left)
  take-append (suc n) [] ys =
      let all_left : suc n - 0 ≡ suc n = omega arith in ap (λ j. take j ys) (sym all_left)
  take-append (suc n) (x ∷ xs) ys =
      let same : n - length xs ≡ suc n - suc (length xs) = omega arith in
      ap (λ l. x ∷ l) (take-append n xs ys ∙ ap (λ j. take n xs ++ take j ys) same)

  -- The part of a slice's size that is still to fill.
  pub left-take : (n : ℕ) (xs : List A) → n - length (take n xs) ≡ n - length xs
  left-take zero xs = omega arith
  left-take (suc n) [] = refl
  left-take (suc n) (x ∷ xs) = omega (arith, left-take n xs)

  pub take_positive : (n : ℕ) (xs : List A) → 0 < n → 0 < length xs → 0 < length (take n xs)
  take_positive zero xs h k = absurd (omega arith)
  take_positive (suc n) [] h k = absurd (omega arith)
  take_positive (suc n) (x ∷ xs) h k = omega arith

  -- A queue of pieces of which some items of the first are taken.
  abbrev pub items_from : ℕ → List (List A) → List A
  items_from offset [] = []
  items_from offset (buffer ∷ queue) = drop offset buffer ++ concat queue

  pub items_from_start : (queue : List (List A)) → items_from 0 queue ≡ concat queue
  items_from_start [] = refl
  items_from_start (b ∷ queue) = refl

  pub items_from-append :
      (offset : ℕ) (front : List A) (queue : List (List A)) (buffer : List A)
      → items_from offset (front ∷ queue) ++ buffer
        ≡ items_from offset (front ∷ queue ++ buffer ∷ [])
  items_from-append offset front queue buffer =
      append_assoc (drop offset front) (concat queue) buffer
      ∙ ap (λ l. drop offset front ++ (concat queue ++ l)) (sym (append_nil buffer))
      ∙ ap (λ l. drop offset front ++ l) (sym (concat-append queue (buffer ∷ [])))
