-- ===== src/IpRange/Ports.antt =====
-- What the caller of `port_parse_ranges` (xutil/src/engine_ip_range.cpp) gets.
use netpool.Base.{
  ℕ, zero, suc, ◌+◌, ◌%◌, ◌^◌, ◌≤◌, ◌<◌, ◌≡◌, refl, sym, ap, ◌∙◌, ◌⊎◌, inl, inr, true, Option, none,
  some, List, [], ◌∷◌, arith, length, set, take, drop, All, of_some_eq, length-set,
}
use netpool.IpRange.{
  PortRange, port_parse_range, util_str_trim, strtok, parse_loop, port_parse_ranges,
}

-- The bounds that every range has that is accepted.
pub record IsRange (low high : ℕ) (r : PortRange) : Type 0 where
  pub least : low ≤ r.start_port
  pub ordered : r.start_port ≤ r.end_port
  pub most : r.end_port ≤ high

port_parse_range-IsRange :
    (low high : ℕ) (s : List ℕ)
    → (port_parse_range low high s).0 ≡ true
    → IsRange low high (port_parse_range low high s).1
unfolding port_parse_range
port_parse_range-IsRange low high s e = record {
  least = ground arith;
  ordered = ground arith;
  most = ground arith;
}

take-set {ℓ} :
    {A : Type 0} (P : A → Type ℓ) (i : ℕ) (v : A) (xs : List A)
    → i < length xs
    → All P (take i xs)
    → P v
    → All P (take (suc i) (set xs i v))
take-set P i v [] h all p = absurd (omega arith)
take-set P zero v (x ∷ xs) h all p = (p, tt)
take-set P (suc i) v (x ∷ xs) h all p = (all.0, take-set P i v xs (omega arith) all.1 p)

drop-set : {A : Type 0} (i k : ℕ) (v : A) (xs : List A) → i < k → drop k (set xs i v) ≡ drop k xs
drop-set i k v [] h = refl
drop-set i zero v (x ∷ xs) h = absurd (omega arith)
drop-set zero (suc k) v (x ∷ xs) h = refl
drop-set (suc i) (suc k) v (x ∷ xs) h = drop-set i k v xs (omega arith)

-- From the index `i` of the loop: how many ranges there are in the end, and what is in the array.
abbrev pub Fills : (low high max_cnt i more : ℕ) → List PortRange → ℕ × List PortRange → Type 0
Fills low high max_cnt i more ranges (n, out) =
    (n ≡ i + more)
    × ((n ≤ max_cnt) ⊎ (more ≡ 0))
    × (length out ≡ length ranges)
    × All (IsRange low high) (take n out)
    × (drop n out ≡ drop n ranges)

parse_done :
    (low high max_cnt i : ℕ) (ranges : List PortRange)
    → parse_loop low high max_cnt i [] ranges ≡ some (i, ranges)
unfolding parse_loop
parse_done low high max_cnt i ranges = refl

-- A round of the loop that does not return -1.
parse_round :
    (low high max_cnt i : ℕ) (t : List ℕ) (ts : List (List ℕ)) (ranges : List PortRange)
    {out : ℕ × List PortRange}
    → max_cnt < 2 ^ 16
    → parse_loop low high max_cnt i (t ∷ ts) ranges ≡ some out
    → let (done, r) = port_parse_range low high t in
      (i < max_cnt)
      × (done ≡ true)
      × (parse_loop low high max_cnt (suc i) ts (set ranges i r) ≡ some out)
unfolding parse_loop
parse_round low high max_cnt i t ts ranges small e =
    let index : i < max_cnt → (i + 1) % 2 ^ 16 ≡ suc i = λ h. omega arith in
    let below : i < max_cnt = ground arith in
    (
      below,
      ground arith,
      ap (λ k. parse_loop low high max_cnt k ts (set ranges i (port_parse_range low high t).1))
            (sym (index below))
          ∙ ground arith,
    )

module _ (low high max_cnt : ℕ) (small : max_cnt < 2 ^ 16) where
  parse_loop-Fills :
      (i : ℕ) (ts : List (List ℕ)) (ranges : List PortRange) {out : ℕ × List PortRange}
      → max_cnt ≤ length ranges
      → All (IsRange low high) (take i ranges)
      → parse_loop low high max_cnt i ts ranges ≡ some out
      → Fills low high max_cnt i (length ts) ranges out
  parse_loop-Fills i [] ranges room all e =
      of_some_eq (Fills low high max_cnt i 0 ranges) (i, ranges)
        (omega arith, inr refl, refl, all, refl) (sym (parse_done low high max_cnt i ranges) ∙ e)
  parse_loop-Fills i (t ∷ ts) ranges {out} room all e =
      let r = (port_parse_range low high t).1 in
      let (below, done, run) = parse_round low high max_cnt i t ts ranges small e in
      let sized = length-set ranges i r in
      let (count, fit, size, valid, rest) =
        parse_loop-Fills (suc i) ts (set ranges i r) (omega (arith, sized))
          (take-set (IsRange low high) i r ranges (omega arith) all
            (port_parse_range-IsRange low high t done))
          run in
      (
        omega arith,
        inl (ground arith),
        size ∙ sized,
        valid,
        rest ∙ drop-set i out.0 r ranges (omega (arith, count)),
      )

-- If `port_parse_ranges` returns 0 for a limit below 2^16 and an array that has room for it, then it has
-- read every token of the trimmed string, at least one and no more than the limit; it has
-- written one range for each at the front of the array, whose ports are in order and within
-- SCAN_PORT_MIN and SCAN_PORT_MAX; and the rest of the array is as it was.
pub port_parse_ranges-Fills :
    (low high max_cnt : ℕ) (str : List ℕ) (ranges : List PortRange) {out : ℕ × List PortRange}
    → max_cnt < 2 ^ 16
    → max_cnt ≤ length ranges
    → port_parse_ranges low high max_cnt str ranges ≡ some out
    → (0 < out.0)
      × Fills low high max_cnt 0 (length (strtok 44 [] (util_str_trim 32 str))) ranges out
unfolding port_parse_ranges
port_parse_ranges-Fills low high max_cnt str ranges {out} small room e =
    go (strtok 44 [] (util_str_trim 32 str)) e
  where
    go :
        (tokens : List (List ℕ))
        → elim tokens as (λ x. Option (ℕ × List PortRange)) [
          | [] ↦ none
          | t ∷ ts ↦ parse_loop low high max_cnt 0 (t ∷ ts) ranges
        ]
          ≡ some out
        → (0 < out.0) × Fills low high max_cnt 0 (length tokens) ranges out
    go [] e = cc
    go (t ∷ ts) e =
        let f = parse_loop-Fills low high max_cnt small 0 (t ∷ ts) ranges room tt e in
        (omega (arith, f.0), f)
