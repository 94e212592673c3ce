-- ===== src/LogProc/Rotate.antt =====
-- The numbers that `file_size_check` (xutil/src/logproc.cpp) gives to old files.
use native.Mathlib.Nat.{mod-add-mod, mod-lt, mod-eq_of_lt, mod_self}
use native.Mathlib.Decide.{dec_lt}
use netpool.Base.{ℕ, zero, suc, ◌+◌, ◌/◌, ◌%◌, ◌^◌, ◌≤◌, ◌<◌, ◌≡◌, refl, ap, ◌∙◌, some, arith}
use netpool.LogProc.{file_size_check}

-- The count after so many rotations, from no old file on.
abbrev pub rotations : (max_kb max_cnt size : ℕ) → ℕ → ℕ
rotations max_kb max_cnt size zero = 0
rotations max_kb max_cnt size (suc n) =
    (file_size_check max_kb max_cnt size (rotations max_kb max_cnt size n)).1

module _ (max_kb max_cnt size : ℕ) (some_file : 0 < max_cnt) (small : max_cnt < 2 ^ 32)
    (large : max_kb ≤ size / 1024) where
  rotates :
      (cur : ℕ)
      → cur ≤ max_cnt
      → file_size_check max_kb max_cnt size cur ≡ (some (cur % max_cnt + 1), cur % max_cnt + 1)
  unfolding file_size_check
  rotates cur h = elim (dec_lt cur max_cnt) [
    | yes below ↦ rw (mod-eq_of_lt below) (ground arith)
    | no full ↦
        let all : cur ≡ max_cnt = omega arith in
        let rem : cur % max_cnt ≡ 0 = ap (λ k. k % max_cnt) all ∙ mod_self max_cnt in
        rw rem (ground arith)
  ]

  stands :
      (n : ℕ)
      → (rotations max_kb max_cnt size n ≤ max_cnt)
        × (rotations max_kb max_cnt size n % max_cnt ≡ n % max_cnt)
  stands zero = (omega arith, refl)
  stands (suc n) =
      let (low, turn) = stands n in
      let cur = rotations max_kb max_cnt size n in
      let e = ap (λ t. t.1) (rotates cur low) in
      let bound : n % max_cnt < max_cnt = mod-lt n some_file in
      let more : n + 1 ≡ suc n = omega arith in
      (
        omega (arith, e, turn),
        ap (λ k. k % max_cnt) (e ∙ ap (λ k. k + 1) turn)
            ∙ mod-add-mod n max_cnt 1
            ∙ ap (λ k. k % max_cnt) more,
      )

  -- With at least one and fewer than 2^32 old files allowed, and a file that has reached the size, the
  -- n-th call of `file_size_check` (counted from 0, and from no old file on) renames it to the number
  -- n mod g_logfile_max_cnt + 1: the old files are overwritten in turn, and no other is made.
  pub file_size_check-turn :
      (n : ℕ)
      → (file_size_check max_kb max_cnt size (rotations max_kb max_cnt size n)).0
        ≡ some (n % max_cnt + 1)
  file_size_check-turn n =
      let (low, turn) = stands n in
      ap (λ t. t.0) (rotates (rotations max_kb max_cnt size n) low) ∙ ap (λ k. some (k + 1)) turn
