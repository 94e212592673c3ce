-- ===== src/IpRange/Decimal.antt =====
-- A range of ports that is written in decimal digits is read back (xutil/src/engine_ip_range.cpp).
use native.Mathlib.Omega.{pow_step}
use netpool.Base.{
  ℕ, zero, suc, ◌+◌, ◌-◌, ◌*◌, ◌/◌, ◌%◌, ◌^◌, ◌≤◌, ◌<◌, ◌≡◌, refl, ap, ◌∙◌, true, false, ◌||◌, ◌&&◌,
  none, some, List, [], ◌∷◌, ◌++◌, arith, All, All-append, if_cases, ltb, leb, ◌==◌, if◌then◌else◌,
}
use netpool.IpRange.{digits, is_space, signed, atoi, split_at, read_range, port_parse_range}

-- The decimal digits of a number, with at most so many more than one.
pub decimal : (more n : ℕ) → List ℕ
decimal zero n = (48 + n % 10) ∷ []
decimal (suc more) n =
    let front = decimal more (n / 10) in
    if ltb n 10 then (48 + n) ∷ [] else front ++ (48 + n % 10) ∷ []

-- A decimal digit.
abbrev Digit : ℕ → Type 0
Digit c = (48 ≤ c) × (c ≤ 57)

abbrev Digits : List ℕ → Type 0
Digits xs = All Digit xs

decimal-Digits : (more n : ℕ) → Digits (decimal more n)
unfolding decimal
decimal-Digits zero n = ((omega arith, omega arith), tt)
decimal-Digits (suc more) n =
    if_cases Digits (ltb n 10) (λ h. ((omega arith, ground arith), tt))
      (λ h. All-append Digit _ _ (decimal-Digits more (n / 10)) ((omega arith, omega arith), tt))

digits-append :
    (acc : ℕ) (xs : List ℕ) (c : ℕ)
    → Digits xs
    → Digit c
    → digits acc (xs ++ c ∷ []) ≡ digits acc xs * 10 + (c - 48)
unfolding digits
digits-append acc [] c all (low, high) = ground arith
digits-append acc (x ∷ xs) c ((l, h), all) (low, high) =
    let test : (leb 48 x && leb x 57) ≡ true = ground arith in
    rw test (digits-append (acc * 10 + (x - 48)) xs c all (low, high))

one_digit : (d : ℕ) → d < 10 → digits 0 ((48 + d) ∷ []) ≡ d
unfolding digits
one_digit d h =
    let test : (leb 48 (48 + d) && leb (48 + d) 57) ≡ true = ground (arith, h) in
    rw test (omega arith)

digits-decimal : (more n : ℕ) → n < 10 ^ suc more → digits 0 (decimal more n) ≡ n
unfolding decimal
digits-decimal zero n h =
    let same : n % 10 ≡ n = omega arith in
    ap (λ k. digits 0 ((48 + k) ∷ [])) same ∙ one_digit n (omega arith)
digits-decimal (suc more) n h =
    if_cases (λ xs. digits 0 xs ≡ n) (ltb n 10) (λ small. one_digit n (ground arith))
      (λ large.
        digits-append 0 (decimal more (n / 10)) (48 + n % 10) (decimal-Digits more (n / 10))
          (omega arith, omega arith)
        ∙ ap (λ k. k * 10 + (48 + n % 10 - 48))
            (digits-decimal more (n / 10) (omega (arith, h, pow_step 10 (suc more))))
        ∙ omega arith)

-- atoi() stops neither for a space nor for a sign.
atoi-Digits : (xs : List ℕ) → Digits xs → atoi xs ≡ digits 0 xs % 2 ^ 32
unfolding atoi signed digits
atoi-Digits [] all = refl
atoi-Digits (c ∷ cs) ((low, high), all) =
    let spaced : is_space c ≡ false = ground arith in
    let minus : (c == 45) ≡ false = ground arith in
    let plus : (c == 43) ≡ false = ground arith in rw (spaced, minus, plus) refl

split_at-Digits : (xs ys : List ℕ) → Digits xs → split_at 45 (xs ++ 45 ∷ ys) ≡ some (xs, ys)
unfolding split_at
split_at-Digits [] ys all = refl
split_at-Digits (x ∷ xs) ys ((low, high), all) =
    let test : (x == 45) ≡ false = ground arith in rw (test, split_at-Digits xs ys all) refl

split_at-none : (xs : List ℕ) → Digits xs → split_at 45 xs ≡ none
unfolding split_at
split_at-none [] all = refl
split_at-none (x ∷ xs) ((low, high), all) =
    let test : (x == 45) ≡ false = ground arith in rw (test, split_at-none xs all) refl

-- A port of at most five digits is read as it is.
port_read : (n : ℕ) → n < 2 ^ 16 → atoi (decimal 4 n) % 2 ^ 16 ≡ n
port_read n h =
    let value : atoi (decimal 4 n) ≡ n % 2 ^ 32 =
      atoi-Digits (decimal 4 n) (decimal-Digits 4 n)
      ∙ ap (λ k. k % 2 ^ 32) (digits-decimal 4 n (omega arith)) in
    omega (arith, value)

accepts :
    (low high first last : ℕ) (s : List ℕ)
    → low ≤ first
    → first ≤ last
    → last ≤ high
    → read_range s ≡ record { start_port = first; end_port = last }
    → port_parse_range low high s ≡ (true, record { start_port = first; end_port = last })
unfolding port_parse_range
accepts low high first last s least ordered most reads =
    let start : (ltb first low || ltb high first) ≡ false = ground (arith, least, ordered, most) in
    let end : (ltb last low || ltb high last) ≡ false = ground (arith, least, ordered, most) in
    let order : ltb last first ≡ false = ground (arith, ordered) in
    rw (reads, port_parse_range, start, end, order) refl

-- If the first port is not above the last one, and both are within the bounds, which are below 2^16, then
-- `port_parse_range` reads the decimal digits of the two, with a dash between them, as that range, and the
-- digits of a single port as the range of this port alone.
pub port_parse_range-decimal :
    (low high first last : ℕ)
    → low ≤ first
    → first ≤ last
    → last ≤ high
    → high < 2 ^ 16
    → (port_parse_range low high (decimal 4 first ++ 45 ∷ decimal 4 last)
        ≡ (true, record { start_port = first; end_port = last }))
      × (port_parse_range low high (decimal 4 first)
          ≡ (true, record { start_port = first; end_port = first }))
unfolding read_range
port_parse_range-decimal low high first last least ordered most word =
    let l = port_read first (omega arith) in
    let h = port_read last (omega arith) in
    (
      accepts low high first last (decimal 4 first ++ 45 ∷ decimal 4 last) least ordered most (
          rw
            (
              read_range,
              split_at-Digits (decimal 4 first) (decimal 4 last) (decimal-Digits 4 first),
              l,
              h,
            )
            refl),
      accepts low high first first (decimal 4 first) least (omega arith) (omega arith)
          (rw (read_range, split_at-none (decimal 4 first) (decimal-Digits 4 first), l) refl),
    )
