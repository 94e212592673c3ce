-- ===== src/StrUtil/Search.antt =====
-- What a place is that `util_memsearch` (xutil/src/utilstr.cpp) finds.
use netpool.Base.{
  ◌≤◌, ℕ, zero, suc, ◌+◌, ◌<◌, ◌≡◌, refl, ap, ◌∙◌, true, some, List, [], ◌∷◌, ◌++◌, append_assoc,
  arith, ◌==◌, length, length-append, get_elem?, take, take_all, length-take, Bool-cases, inl, inr,
}
use netpool.StrUtil.{matches, search, util_memsearch}

-- The bytes before a place and behind it, in a buffer with `mem` between them.
abbrev pub Holds : (whole mem : List ℕ) (place : ℕ) → Type 0
Holds whole mem place =
    (before : List ℕ) × (after : List ℕ) × (whole ≡ before ++ (mem ++ after))
    × (place ≡ length before + length mem)

matches-take :
    (mem : List ℕ) (m b : ℕ)
    → matches (get_elem? mem m) b ≡ true
    → take (suc m) mem ≡ take m mem ++ b ∷ []
unfolding matches
matches-take [] m b e = cc
matches-take (c ∷ mem) zero b e = ground arith
matches-take (c ∷ mem) (suc m) b e = ap (λ t. c ∷ t) (matches-take mem m b e)

matches_below : (mem : List ℕ) (m b : ℕ) → matches (get_elem? mem m) b ≡ true → m < length mem
unfolding matches
matches_below [] m b e = cc
matches_below (c ∷ mem) zero b e = omega arith
matches_below (c ∷ mem) (suc m) b e = omega (arith, matches_below mem m b e)

search-Holds :
    (mem : List ℕ) (matched i : ℕ) (buf whole before : List ℕ) {place : ℕ}
    → whole ≡ before ++ (take matched mem ++ buf)
    → i ≡ length before + matched
    → matched ≤ length mem
    → search mem matched i buf ≡ some place
    → Holds whole mem place
unfolding search
search-Holds mem matched i [] whole before split at fit e = cc
search-Holds mem matched i (b ∷ buf) whole before {place} split at fit e =
    elim (Bool-cases (matches (get_elem? mem matched) b)) [
      | inl hit ↦
          let longer = matches-take mem matched b hit in
          let split' : whole ≡ before ++ (take (suc matched) mem ++ buf) =
            cc (append_assoc (take matched mem) (b ∷ []) buf) in
          elim (Bool-cases (matched + 1 == length mem)) [
            | inl full ↦ (
              before,
              buf,
              split' ∙ ap (λ t. before ++ (t ++ buf)) (take_all (suc matched) mem (ground arith)),
              ground arith,
            )
            | inr short ↦
                search-Holds mem (matched + 1) (i + 1) buf whole before
                  (split'
                    ∙ ap (λ m. before ++ (take m mem ++ buf)) {x = suc matched} {y = matched + 1}
                        (omega arith))
                  (omega arith) (omega (arith, matches_below mem matched b hit)) (ground arith)
          ]
      | inr miss ↦
          search-Holds mem 0 (i + 1) buf whole (before ++ (take matched mem ++ b ∷ []))
            (cc (
              append_assoc before (take matched mem ++ b ∷ []) buf,
              append_assoc (take matched mem) (b ∷ []) buf,
            ))
            (omega (
              arith,
              length-append before (take matched mem ++ b ∷ []),
              length-append (take matched mem) (b ∷ []),
              length-take matched mem,
            ))
            (omega arith) (ground arith)
    ]

-- Where `util_memsearch` returns a number, the bytes of `mem` stand in the buffer and end at that place.
pub util_memsearch-Holds :
    (buf mem : List ℕ) {place : ℕ} → util_memsearch buf mem ≡ some place → Holds buf mem place
unfolding util_memsearch
util_memsearch-Holds buf mem e =
    search-Holds mem 0 0 buf buf [] refl refl (omega arith) (ground arith)
