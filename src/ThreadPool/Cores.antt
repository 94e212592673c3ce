-- ===== src/ThreadPool/Cores.antt =====
-- The cores that `get_new_core` (netpool/src/CThreadPool.cpp) hands to new workers.
use native.Mathlib.Nat.{mod-add-mod, mod-lt}
use netpool.Base.{ℕ, zero, suc, ◌+◌, ◌-◌, ◌%◌, ◌^◌, ◌≤◌, ◌<◌, ◌≡◌, refl, subst, sym, ap, ◌∙◌, arith}
use netpool.ThreadPool.{ThreadPool, get_new_core, set_up}

-- The pool after so many calls.
abbrev pub after : ℕ → ThreadPool → ThreadPool
after zero p = p
after (suc n) p = (get_new_core (after n p)).1

-- The pool stands before its n-th call.
record Stands (start cnt n : ℕ) (p : ThreadPool) : Type 0 where
  base : p.start_core_id ≡ start
  cores : p.use_core_cnt ≡ cnt
  ahead : start ≤ p.cur_core_id
  within : p.cur_core_id ≤ start + cnt
  turn : (p.cur_core_id - start) % cnt ≡ n % cnt

module _ (start cnt : ℕ) (some_core : 0 < cnt) (fits : start + cnt < 2 ^ 32) where
  get_new_core-Stands :
      (n : ℕ) (p : ThreadPool)
      → Stands start cnt n p
      → get_new_core p ≡ (start + n % cnt, record p { cur_core_id = start + n % cnt + 1 })
  unfolding get_new_core
  get_new_core-Stands n p s =
      let low : n % cnt < cnt = mod-lt n some_core in
      let since : (p.cur_core_id + 2 ^ 32 - p.start_core_id) % 2 ^ 32 ≡ p.cur_core_id - start =
        omega (arith, s.base, s.ahead, s.within) in
      let core : (start + n % cnt) % 2 ^ 32 ≡ start + n % cnt = omega arith in
      let after : (start + n % cnt + 1) % 2 ^ 32 ≡ start + n % cnt + 1 = omega arith in
      rw (s.cores, since, s.turn, s.base, core, after) (ground arith)

  Stands-next :
      (n : ℕ) (p : ThreadPool)
      → Stands start cnt n p
      → Stands start cnt (suc n) (record p { cur_core_id = start + n % cnt + 1 })
  Stands-next n p s =
      let low : n % cnt < cnt = mod-lt n some_core in
      let step : start + n % cnt + 1 - start ≡ n % cnt + 1 = omega arith in
      let next : n + 1 ≡ suc n = omega arith in
      record {
        base = s.base;
        cores = s.cores;
        ahead = omega arith;
        within = omega arith;
        turn = ap (λ k. k % cnt) step ∙ mod-add-mod n cnt 1 ∙ ap (λ k. k % cnt) next;
      }

  after-Stands : (least most n : ℕ) → Stands start cnt n (after n (set_up least most start cnt))
  unfolding set_up
  after-Stands least most zero = record {
    base = refl;
    cores = refl;
    ahead = omega arith;
    within = omega arith;
    turn = ap (λ k. k % cnt) (omega arith);
  }
  after-Stands least most (suc n) =
      let s = after-Stands least most n in
      let p = after n (set_up least most start cnt) in
      subst (λ (t : ℕ × ThreadPool). Stands start cnt (suc n) t.1) (sym (get_new_core-Stands n p s))
        (Stands-next n p s)

  -- With at least one core to use, and with core numbers below 2^32, the n-th call of `get_new_core`
  -- (counted from 0, the calls of `Init` included) gives the core m_start_core_id + n mod
  -- m_use_core_cnt: the cores in the range, in turn.
  pub get_new_core-turn :
      (least most n : ℕ)
      → (get_new_core (after n (set_up least most start cnt))).0 ≡ start + n % cnt
  get_new_core-turn least most n =
      ap (λ t. t.0) (get_new_core-Stands n _ (after-Stands least most n))
