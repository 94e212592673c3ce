-- ===== src/IpRange/Subnet.antt =====
-- The addresses of a subnet that `_load_ipv4_subnet` (xutil/src/engine_ip_range.cpp) computes.
use native.Mathlib.Nat.{
  div-eq_of_lt-le, lt-div-mul-add, div-mul-le_self, div-lt_iff_lt-mul, mod-eq_of_lt,
  mul-le-mul_right, one-le-pow, two-pow-succ,
}
use netpool.Base.{
  ℕ, zero, suc, ◌+◌, ◌-◌, ◌*◌, ◌/◌, ◌^◌, ◌≤◌, ◌<◌, ◌≡◌, ◌↔◌, refl, sym, ap, ◌∙◌, subst, Bool, true,
  false, Option, some, List, arith, leb,
}
use netpool.EngineIp.{EngineIp, ipv4}
use netpool.IpRange.{atoi}
use netpool.IpRange.Ipv4.{IpRange, convert_to_begin_end, load_ipv4_subnet}

module _ (b : ℕ) (positive : 0 < b) where
  -- The numbers with the quotient q are those from q * b on that are below (q + 1) * b.
  pub same_quotient : (q a : ℕ) → ((q * b ≤ a) × (a < q * b + b)) ↔ (a / b ≡ q)
  same_quotient q a = (
    λ (low, high). div-eq_of_lt-le b low (omega (arith, high)),
    λ e.
        subst (λ q. (q * b ≤ a) × (a < q * b + b)) e (div-mul-le_self a b, lt-div-mul-add positive),
  )

  -- One less than a multiple.
  below_multiple : (t : ℕ) → ((t + 1) * b - 1) / b ≡ t
  below_multiple t = div-eq_of_lt-le b (omega (arith, positive)) (omega (arith, positive))

pub two_pow_add : (m s : ℕ) → 2 ^ m * 2 ^ s ≡ 2 ^ (m + s)
two_pow_add zero s = let e : zero + s ≡ s = omega arith in rw e (omega arith)
two_pow_add (suc m) s =
    let e : suc m + s ≡ suc (m + s) = omega arith in
    let left : 2 ^ suc m ≡ 2 ^ m + 2 ^ m = two-pow-succ m in
    let right : 2 ^ suc (m + s) ≡ 2 ^ (m + s) + 2 ^ (m + s) = two-pow-succ (m + s) in
    rw (e, left, right) (omega (arith, two_pow_add m s))

-- The highest address is 2^(32 - m) - 1 above the lowest, and below 2^32.
module _ (m : ℕ) (short : m ≤ 32) (ip : ℕ) (word : ip < 2 ^ 32) where
  pub size_pos : 0 < 2 ^ (32 - m)
  size_pos = one-le-pow (32 - m) 2 (omega arith)

  pub whole : 2 ^ m * 2 ^ (32 - m) ≡ 2 ^ 32
  whole = let sum : m + (32 - m) ≡ 32 = omega arith in two_pow_add m (32 - m) ∙ ap (λ k. 2 ^ k) sum

  pub low_end : ip / 2 ^ (32 - m) * 2 ^ (32 - m) + 2 ^ (32 - m) ≤ 2 ^ 32
  low_end =
      let q = ip / 2 ^ (32 - m) in
      let below : q < 2 ^ m = (div-lt_iff_lt-mul size_pos).1 (omega (arith, whole)) in
      let all : (q + 1) * 2 ^ (32 - m) ≤ 2 ^ m * 2 ^ (32 - m) =
        mul-le-mul_right (2 ^ (32 - m)) (omega arith) in
      omega (arith, all, whole)

  pub convert_to_begin_end_lem :
      convert_to_begin_end ip m
      ≡ (ip / 2 ^ (32 - m) * 2 ^ (32 - m), ip / 2 ^ (32 - m) * 2 ^ (32 - m) + (2 ^ (32 - m) - 1))
  unfolding convert_to_begin_end
  convert_to_begin_end_lem =
      let top : 2 ^ (32 - m) - 1 + 1 ≡ 2 ^ (32 - m) = omega (arith, size_pos) in
      let product : (2 ^ (32 - m) - 1 + 1) * 2 ^ m ≡ 2 ^ 32 =
        ap (λ k. k * 2 ^ m) top ∙ omega (arith, whole) in
      let size : (2 ^ 32 - 1) / 2 ^ m ≡ 2 ^ (32 - m) - 1 =
        ap (λ k. (k - 1) / 2 ^ m) (sym product)
        ∙ below_multiple (2 ^ m) (one-le-pow m 2 (omega arith)) (2 ^ (32 - m) - 1) in
      let low = ip / 2 ^ (32 - m) * 2 ^ (32 - m) in
      rw size (ap (λ k. (low, k)) (mod-eq_of_lt (omega (arith, low_end, size_pos))))

-- The numbers from the first to the last address, in the order of the machine.
abbrev pub Between : (ntohl : ℕ → ℕ) → EngineIp → EngineIp → ℕ → Type 0
Between ntohl (ipv4 low) (ipv4 high) a = (ntohl low ≤ a) × (a ≤ ntohl high)
Between ntohl _ _ a = true ≡ false

abbrev pub Within : (ntohl : ℕ → ℕ) → IpRange → ℕ → Type 0
Within ntohl range a = Between ntohl range.start_addr range.end_addr a

-- If ntohl() undoes htonl(), the address can be read, and the mask m is at most 32, then
-- `_load_ipv4_subnet` returns 0, and an address is in the range that it leaves exactly if its
-- first m bits are those of the address that was read.
pub load_ipv4_subnet_matches :
    (str_to_ipv4 : List ℕ → Option ℕ) (ntohl htonl : ℕ → ℕ)
    (order : (v : ℕ) → v < 2 ^ 32 → ntohl (htonl v) ≡ v) (ipstr mask : List ℕ) (range : IpRange)
    (ipval : ℕ)
    → str_to_ipv4 ipstr ≡ some ipval
    → ntohl ipval < 2 ^ 32
    → atoi mask ≤ 32
    → let (done, out) = load_ipv4_subnet str_to_ipv4 ntohl htonl ipstr mask range in
      (done ≡ true)
      × ((a : ℕ)
          → Within ntohl out a ↔ (a / 2 ^ (32 - atoi mask) ≡ ntohl ipval / 2 ^ (32 - atoi mask)))
unfolding load_ipv4_subnet
load_ipv4_subnet_matches str_to_ipv4 ntohl htonl order ipstr mask range ipval read word short =
    let m = atoi mask in
    let low = ntohl ipval / 2 ^ (32 - m) * 2 ^ (32 - m) in
    let high = low + (2 ^ (32 - m) - 1) in
    let out : IpRange = record { start_addr = ipv4 (htonl low); end_addr = ipv4 (htonl high) } in
    let test : leb m 32 ≡ true = ground (arith, short) in
    let run : load_ipv4_subnet str_to_ipv4 ntohl htonl ipstr mask range ≡ (true, out) =
      rw (load_ipv4_subnet, test, read, convert_to_begin_end_lem m short (ntohl ipval) word) refl in
    let positive = size_pos m short (ntohl ipval) word in
    let bound = low_end m short (ntohl ipval) word in
    let first : ntohl (htonl low) ≡ low = order low (omega (arith, bound, positive)) in
    let last : ntohl (htonl high) ≡ high = order high (omega (arith, bound, positive)) in
    subst
      (λ (t : Bool × IpRange).
        (t.0 ≡ true)
        × ((a : ℕ) → Within ntohl t.1 a ↔ (a / 2 ^ (32 - m) ≡ ntohl ipval / 2 ^ (32 - m))))
      (sym run)
      (
        refl,
        λ a.
            let (to, from) = same_quotient (2 ^ (32 - m)) positive (ntohl ipval / 2 ^ (32 - m)) a in
            (
              λ (l, h). to (omega (arith, l, first), omega (arith, h, last, positive)),
              λ e. (omega (arith, (from e).0, first), omega (arith, (from e).1, last, positive)),
            ),
      )
