-- ===== src/StrUtil/Bounded.antt =====
-- The comparison and the copying of bounded strings (xutil/src/utilstr.cpp).
use netpool.Base.{
  ℕ, zero, suc, ◌+◌, ◌≤◌, ◌<◌, ◌≡◌, ◌⊎◌, inl, inr, refl, ap, some, List, [], ◌∷◌, ◌++◌, arith,
  length, length-append, take, take_all, append_assoc, drop, ltb, Bool-cases,
}
use netpool.StrUtil.{
  Order, below, same, above, char_rank, util_strcmp, util_strlen, util_strncmp, util_memcpy,
  util_strncpy,
}

-- Which of two strings has ended.
abbrev pub ended : List ℕ → List ℕ → Order
ended [] [] = same
ended [] (d ∷ t) = below
ended (c ∷ s) [] = above
ended (c ∷ s) (d ∷ t) = same

abbrev pub or_else : Order → Order → Order
or_else below o = below
or_else same o = o
or_else above o = above

-- `util_strncmp` compares the first n characters as `util_strcmp` does; and where these are the same, a
-- string that ends with them is below one that goes on, which the bound should leave out of the
-- comparison.
pub util_strncmp-util_strcmp :
    (s t : List ℕ) (n : ℕ)
    → util_strncmp s t n ≡ or_else (util_strcmp (take n s) (take n t)) (ended (drop n s) (drop n t))
unfolding util_strncmp util_strcmp
util_strncmp-util_strcmp [] [] zero = refl
util_strncmp-util_strcmp [] [] (suc n) = refl
util_strncmp-util_strcmp [] (d ∷ t) zero = refl
util_strncmp-util_strcmp [] (d ∷ t) (suc n) = refl
util_strncmp-util_strcmp (c ∷ s) [] zero = refl
util_strncmp-util_strcmp (c ∷ s) [] (suc n) = refl
util_strncmp-util_strcmp (c ∷ s) (d ∷ t) zero = refl
util_strncmp-util_strcmp (c ∷ s) (d ∷ t) (suc n) =
    elim (Bool-cases (ltb (char_rank d) (char_rank c))) [
      | inl more ↦ rw more refl
      | inr not_more ↦ elim (Bool-cases (ltb (char_rank c) (char_rank d))) [
        | inl less ↦ rw (not_more, less) refl
        | inr not_less ↦ rw (not_more, not_less) (util_strncmp-util_strcmp s t n)
      ]
    ]

util_memcpy_lem :
    (dst src : List ℕ) (len : ℕ)
    → len ≤ length dst
    → len ≤ length src
    → util_memcpy dst src len ≡ some (take len src ++ drop len dst)
unfolding util_memcpy
util_memcpy_lem dst src zero h k = refl
util_memcpy_lem [] src (suc len) h k = absurd (omega (arith, h))
util_memcpy_lem (d ∷ dst) [] (suc len) h k = absurd (omega (arith, k))
util_memcpy_lem (d ∷ dst) (b ∷ src) (suc len) h k =
    rw (util_memcpy_lem dst src len (omega (arith, h)) (omega (arith, k))) refl

util_strlen_lem : (s : List ℕ) → util_strlen s ≡ length s
unfolding util_strlen
util_strlen_lem [] = refl
util_strlen_lem (c ∷ s) = ap suc (util_strlen_lem s)

take-append_le : (n : ℕ) (xs ys : List ℕ) → n ≤ length xs → take n (xs ++ ys) ≡ take n xs
take-append_le zero xs ys h = refl
take-append_le (suc n) [] ys h = absurd (omega (arith, h))
take-append_le (suc n) (x ∷ xs) ys h = ap (λ t. x ∷ t) (take-append_le n xs ys (omega (arith, h)))

-- If the destination has room for len bytes, `util_strncpy` returns, and has copied the string with its
-- NUL, where it has less than len characters, and else its first len characters without a NUL; the rest
-- of the destination is as it was.
pub util_strncpy-copies :
    (dst src : List ℕ) (len : ℕ)
    → len ≤ length dst
    → ((length src < len)
        × (util_strncpy dst src len ≡ some (length src + 1, src ++ 0 ∷ drop (length src + 1) dst)))
      ⊎ ((len ≤ length src) × (util_strncpy dst src len ≡ some (len, take len src ++ drop len dst)))
unfolding util_strncpy
util_strncpy-copies dst src len room =
    let whole : util_strlen src + 1 ≡ length src + 1 = ap (λ n. n + 1) (util_strlen_lem src) in
    let size = length-append src (0 ∷ []) in
    elim (Bool-cases (ltb len (length src + 1))) [
      | inl cut ↦
          let fits : len ≤ length src = ground (arith, cut) in
          inr (
            fits,
            rw
                (
                  util_strncpy,
                  whole,
                  cut,
                  util_memcpy_lem dst (src ++ 0 ∷ []) len room (omega (arith, fits, size)),
                  whole,
                  cut,
                )
                (ap (λ t. some (len, t ++ drop len dst)) (take-append_le len src (0 ∷ []) fits)),
          )
      | inr all ↦
          let fits : length src < len = ground (arith, all) in
          inl (
            fits,
            rw
                (
                  util_strncpy,
                  whole,
                  all,
                  util_memcpy_lem dst (src ++ 0 ∷ []) (length src + 1) (omega (arith, fits, room))
                      (omega (arith, size)),
                  whole,
                  all,
                  take_all (length src + 1) (src ++ 0 ∷ []) (omega (arith, size)),
                )
                (ap (λ t. some (length src + 1, t))
                  (append_assoc src (0 ∷ []) (drop (length src + 1) dst))),
          )
    ]
