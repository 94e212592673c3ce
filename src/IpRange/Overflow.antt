-- ===== src/IpRange/Overflow.antt =====
-- The short form of an IPv4 range and the array `str` of engine_ip_parse_range_ipv4
-- (xutil/src/engine_ip_range.cpp).
use netpool.Base.{
  ℕ, ◌+◌, ◌≤◌, ◌≡◌, refl, inl, inr, true, false, Option, none, some, List, [], ◌∷◌, ◌++◌, arith,
  length, leb, ◌==◌, Bool-cases, Option-cases,
}
use netpool.IpRange.{split_at}
use netpool.IpRange.Ipv4.{IpRange, to_last_dot, has_dot, end_of_range, parse_range_ipv4}

-- The string has no such character.
abbrev pub Lacks : (find : ℕ) → List ℕ → Type 0
Lacks find [] = Unit
Lacks find (c ∷ cs) = ((c == find) ≡ false) × Lacks find cs

split_at-Lacks :
    (find : ℕ) (xs ys : List ℕ) → Lacks find xs → split_at find (xs ++ find ∷ ys) ≡ some (xs, ys)
unfolding split_at
split_at-Lacks find [] ys lacks = let test : (find == find) ≡ true = ground arith in rw test refl
split_at-Lacks find (x ∷ xs) ys (test, lacks) = rw (test, split_at-Lacks find xs ys lacks) refl

split_at-none : (find : ℕ) (xs : List ℕ) → Lacks find xs → split_at find xs ≡ none
unfolding split_at
split_at-none find [] lacks = refl
split_at-none find (x ∷ xs) (test, lacks) = rw (test, split_at-none find xs lacks) refl

-- A string with a dot has a last one, behind which it is cut.
to_last_dot-some :
    (s : List ℕ)
    → has_dot s ≡ true
    → (front : List ℕ) × (to_last_dot s ≡ some front) × (1 ≤ length front)
unfolding to_last_dot has_dot
to_last_dot-some [] h = absurd (ground arith)
to_last_dot-some (c ∷ cs) h = elim (Option-cases (to_last_dot cs)) [
  | inr (front, e) ↦ (c ∷ front, rw e refl, omega arith)
  | inl n ↦ elim (Bool-cases (has_dot cs)) [
    | inl d ↦ let (front, e, _) = to_last_dot-some cs d in absurd (ground (arith, n, e))
    | inr d ↦
        let dot : (c == 46) ≡ true = ground (arith, h, d) in (c ∷ [], rw (n, dot) refl, omega arith)
  ]
]

-- If a range begins with an address with a dot that can be read, and a dash and 15 or more characters without
-- a dot follow, and there is no other dash before and no slash, then `engine_ip_parse_range_ipv4` accesses
-- `str`, an array of 16 characters, behind its end.
pub parse_range_ipv4-overflow :
    (str_to_ipv4 : List ℕ → Option ℕ) (ntohl htonl : ℕ → ℕ) (first p : List ℕ) (range : IpRange)
    (ipval : ℕ)
    → Lacks 47 (first ++ 45 ∷ p)
    → Lacks 45 first
    → has_dot first ≡ true
    → has_dot p ≡ false
    → str_to_ipv4 first ≡ some ipval
    → 15 ≤ length p
    → parse_range_ipv4 str_to_ipv4 ntohl htonl (first ++ 45 ∷ p) range ≡ none
unfolding parse_range_ipv4 end_of_range
parse_range_ipv4-overflow str_to_ipv4 ntohl htonl first p range ipval slash dash dot plain read
      long =
    let (front, cut, some_char) = to_last_dot-some first dot in
    let over : leb 16 (length front + length p) ≡ true = ground (arith, some_char, long) in
    rw
      (
        parse_range_ipv4,
        split_at-none 47 (first ++ 45 ∷ p) slash,
        split_at-Lacks 45 first p dash,
        cut,
        read,
        end_of_range,
        plain,
        over,
      )
      refl
