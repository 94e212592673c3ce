-- ===== src/Base/Slices.antt =====
-- Windows of an array: the bytes from one position to another, and a copy into the array.
use Prim.Native.Nat.{ℕ, zero, suc, ◌+◌, ◌-◌, ◌≤◌}
use mathlib.Core.Path.{◌≡◌, refl, sym, ap, ◌∙◌}
use mathlib.Core.List.{List, [], ◌∷◌, ◌++◌, append_assoc}
use native.Mathlib.Omega.{arith}
use netpool.Base.Lists.{length, take, drop, length-append, length-take, length-drop}

module _ {ℓ} {A : Type ℓ} where
  -- The entries at the positions from `i` up to `j`.
  abbrev pub slice : List A → ℕ → ℕ → List A
  slice xs i j = take (j - i) (drop i xs)

  -- `memcpy(&xs[i], src, length src)`.
  abbrev pub blit : List A → ℕ → List A → List A
  blit xs i src = take i xs ++ (src ++ drop (i + length src) xs)

  pub length-blit :
      (xs : List A) (i : ℕ) (src : List A)
      → i + length src ≤ length xs
      → length (blit xs i src) ≡ length xs
  length-blit xs i src h = omega (
    arith,
    length-append (take i xs) (src ++ drop (i + length src) xs),
    length-append src (drop (i + length src) xs),
    length-take i xs,
    length-drop (i + length src) xs,
  )

  take_add : (n m : ℕ) (xs : List A) → take (n + m) xs ≡ take n xs ++ take m (drop n xs)
  take_add zero m xs = ap (λ k. take k xs) (omega arith)
  take_add (suc n) zero [] =
      ap (λ k. take {A = A} k []) (let e : suc n + 0 ≡ suc n = omega arith in e)
  take_add (suc n) (suc m) [] =
      ap (λ k. take {A = A} k []) (let e : suc n + suc m ≡ suc (n + suc m) = omega arith in e)
  take_add (suc n) m (x ∷ xs) =
      let e : suc n + m ≡ suc (n + m) = omega arith in rw e (ap (λ t. x ∷ t) (take_add n m xs))

  pub drop_add : (n m : ℕ) (xs : List A) → drop m (drop n xs) ≡ drop (n + m) xs
  drop_add zero m xs = ap (λ k. drop k xs) (omega arith)
  drop_add (suc n) zero [] =
      let e : suc n + 0 ≡ suc n = omega arith in ap (λ k. drop {A = A} k []) (sym e)
  drop_add (suc n) (suc m) [] =
      let e : suc n + suc m ≡ suc (n + suc m) = omega arith in ap (λ k. drop {A = A} k []) (sym e)
  drop_add (suc n) m (x ∷ xs) =
      let e : suc n + m ≡ suc (n + m) = omega arith in rw e (drop_add n m xs)

  -- A window splits at any position inside it.
  pub slice_split :
      (xs : List A) {i j k : ℕ} → i ≤ j → j ≤ k → slice xs i k ≡ slice xs i j ++ slice xs j k
  slice_split xs {i} {j} {k} p q =
      let e : k - i ≡ (j - i) + (k - j) = omega arith in
      let f : i + (j - i) ≡ j = omega arith in
      rw (e, take_add (j - i) (k - j) (drop i xs), drop_add i (j - i) xs, f)

  take-append_length : (n : ℕ) (xs ys : List A) → length xs ≡ n → take n (xs ++ ys) ≡ xs
  take-append_length zero [] ys e = refl
  take-append_length zero (x ∷ xs) ys e = absurd (omega arith)
  take-append_length (suc n) [] ys e = absurd (omega arith)
  take-append_length (suc n) (x ∷ xs) ys e =
      ap (λ t. x ∷ t) (take-append_length n xs ys (omega arith))

  blit-suc :
      (x : A) (xs : List A) (i : ℕ) (src : List A) → blit (x ∷ xs) (suc i) src ≡ x ∷ blit xs i src
  blit-suc x xs i src = let e : suc i + length src ≡ suc (i + length src) = omega arith in rw e

  -- What a copy at the end of a window adds to the window.
  pub slice-blit :
      (xs : List A) (i j : ℕ) (src : List A)
      → i ≤ j
      → j + length src ≤ length xs
      → slice (blit xs j src) i (j + length src) ≡ slice xs i j ++ src
  slice-blit xs zero j src p q =
      ap (λ t. take (j + length src - 0) t) (sym (append_assoc (take j xs) src _))
      ∙ take-append_length (j + length src - 0) (take j xs ++ src) _
          (omega (arith, length-append (take j xs) src, length-take j xs))
      ∙ ap (λ k. take k xs ++ src) (omega arith)
  slice-blit xs (suc i) zero src p q = absurd (omega arith)
  slice-blit [] (suc i) (suc j) src p q = absurd (omega arith)
  slice-blit (x ∷ xs) (suc i) (suc j) src p q =
      let e : suc j + length src - suc i ≡ j + length src - i = omega arith in
      let f : suc j - suc i ≡ j - i = omega arith in
      ap (λ t. slice t (suc i) (suc j + length src)) (blit-suc x xs j src)
      ∙ rw (e, f) (slice-blit xs i j src (omega arith) (omega arith))
