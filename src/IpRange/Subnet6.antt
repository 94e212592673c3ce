-- ===== src/IpRange/Subnet6.antt =====
-- The addresses of an IPv6 subnet that `_load_ipv6_subnet` (xutil/src/engine_ip_range.cpp) computes.
use netpool.Base.{
  ℕ, ◌+◌, ◌-◌, ◌*◌, ◌/◌, ◌^◌, ◌≤◌, ◌<◌, ◌≡◌, ◌↔◌, refl, sym, ap, ◌∙◌, Bool, true, false, Option,
  none, some, List, arith, leb, ltb, ◌&&◌, if_cases,
}
use netpool.EngineIp.{In6Addr, EngineIp, ipv6, engine_ipv6_to_host, engine_ipv6_to_net}
use netpool.IpRange.{atoi}
use netpool.IpRange.Ipv4.{IpRange, convert_to_begin_end}
use netpool.IpRange.Ipv6.{ipv6_ends, load_ipv6_subnet}
use netpool.IpRange.Subnet.{two_pow_add, convert_to_begin_end_lem}
use netpool.IpRange.Prefix.{between_values, ends_small}

-- The number of 128 bits that the words of an address make.
abbrev pub value : In6Addr → ℕ
value a = ((a.word0 * 2 ^ 32 + a.word1) * 2 ^ 32 + a.word2) * 2 ^ 32 + a.word3

abbrev pub Words : In6Addr → Type 0
Words a = (a.word0 < 2 ^ 32) × (a.word1 < 2 ^ 32) × (a.word2 < 2 ^ 32) × (a.word3 < 2 ^ 32)

-- The ends of the subnet of the mask m.
abbrev IsSubnet : In6Addr → (m : ℕ) → Option (In6Addr × In6Addr) → Type 0
IsSubnet ip m none = true ≡ false
IsSubnet ip m (some (low, high)) =
    Words low
    × Words high
    × ((a : ℕ)
        → ((value low ≤ a) × (a ≤ value high)) ↔ (a / 2 ^ (128 - m) ≡ value ip / 2 ^ (128 - m)))

size_split : (m a b : ℕ) → a + b ≡ 128 - m → 2 ^ (128 - m) ≡ 2 ^ a * 2 ^ b
size_split m a b e = ap (λ k. 2 ^ k) (sym e) ∙ sym (two_pow_add a b)

ipv6_ends-IsSubnet : (ip : In6Addr) (m : ℕ) → Words ip → m ≤ 128 → IsSubnet ip m (ipv6_ends ip m)
unfolding ipv6_ends
ipv6_ends-IsSubnet ip m (s0, s1, s2, s3) short =
    let P = IsSubnet ip m in
    if_cases P (ltb 96 m && leb m 128) (λ here. word3_case (ground (arith, here)))
      (λ not3.
        if_cases P (ltb 64 m && leb m 96)
          (λ here. word2_case (ground (arith, here)) (ground (arith, here)))
          (λ not2.
            if_cases P (ltb 32 m && leb m 64)
              (λ here. word1_case (ground (arith, here)) (ground (arith, here)))
              (λ not1.
                if_cases P (leb m 32) (λ here. word0_case (ground (arith, here)))
                  (λ not0. absurd (ground (arith, not3, not2, not1, not0, short))))))
  where
    full : 2 ^ 32 - 1 < 2 ^ 32
    full = omega arith

    zero_word : 0 < 2 ^ 32
    zero_word = omega arith

    word3_case :
        96 < m
        → let (low, high) = convert_to_begin_end ip.word3 (m - 96) in
          IsSubnet ip m (some (record ip { word3 = low }, record ip { word3 = high }))
    word3_case here =
        let inside : m - 96 ≤ 32 = omega (arith, short) in
        let (low, high) = ends_small (m - 96) inside ip.word3 s3 0 1 0 (omega arith) in
        let front = (ip.word0 * 2 ^ 32 + ip.word1) * 2 ^ 32 + ip.word2 in
        rw (convert_to_begin_end_lem (m - 96) inside ip.word3 s3) (
          (s0, s1, s2, low),
          (s0, s1, s2, high),
          between_values (m - 96) inside ip.word3 s3 front 1 0 (omega arith) _ _ _ _ (omega arith)
              (omega arith) (omega arith)
              (size_split m (32 - (m - 96)) 0 (omega (arith, here, short))),
        )

    word2_case :
        64 < m
        → m ≤ 96
        → let (low, high) = convert_to_begin_end ip.word2 (m - 64) in
          IsSubnet ip m (
            some (
              record ip { word2 = low; word3 = 0 },
              record ip { word2 = high; word3 = 2 ^ 32 - 1 },
            ))
    word2_case above below =
        let inside : m - 64 ≤ 32 = omega (arith, below) in
        let (low, high) = ends_small (m - 64) inside ip.word2 s2 0 1 0 (omega arith) in
        let front = ip.word0 * 2 ^ 32 + ip.word1 in
        rw (convert_to_begin_end_lem (m - 64) inside ip.word2 s2) (
          (s0, s1, low, zero_word),
          (s0, s1, high, full),
          between_values (m - 64) inside ip.word2 s2 front (2 ^ 32) ip.word3 s3 _ _ _ _
              (omega arith) (omega arith) (omega arith)
              (size_split m (32 - (m - 64)) 32 (omega (arith, above, below))),
        )

    word1_case :
        32 < m
        → m ≤ 64
        → let (low, high) = convert_to_begin_end ip.word1 (m - 32) in
          IsSubnet ip m (
            some (
              record ip { word1 = low; word2 = 0; word3 = 0 },
              record ip { word1 = high; word2 = 2 ^ 32 - 1; word3 = 2 ^ 32 - 1 },
            ))
    word1_case above below =
        let inside : m - 32 ≤ 32 = omega (arith, below) in
        let (low, high) = ends_small (m - 32) inside ip.word1 s1 0 1 0 (omega arith) in
        rw (convert_to_begin_end_lem (m - 32) inside ip.word1 s1) (
          (s0, low, zero_word, zero_word),
          (s0, high, full, full),
          between_values (m - 32) inside ip.word1 s1 ip.word0 (2 ^ 64)
              (ip.word2 * 2 ^ 32 + ip.word3) (omega (arith, s2, s3)) _ _ _ _ (omega arith)
              (omega arith) (omega arith)
              (size_split m (32 - (m - 32)) 64 (omega (arith, above, below))),
        )

    word0_case :
        m ≤ 32
        → let (low, high) = convert_to_begin_end ip.word0 m in
          IsSubnet ip m (
            some (
              record { word0 = low; word1 = 0; word2 = 0; word3 = 0 },
              record { word0 = high; word1 = 2 ^ 32 - 1; word2 = 2 ^ 32 - 1; word3 = 2 ^ 32 - 1 },
            ))
    word0_case below =
        let (low, high) = ends_small m below ip.word0 s0 0 1 0 (omega arith) in
        rw (convert_to_begin_end_lem m below ip.word0 s0) (
          (low, zero_word, zero_word, zero_word),
          (high, full, full, full),
          between_values m below ip.word0 s0 0 (2 ^ 96)
              ((ip.word1 * 2 ^ 32 + ip.word2) * 2 ^ 32 + ip.word3) (omega (arith, s1, s2, s3)) _ _ _
              _ (omega arith) (omega arith) (omega arith)
              (size_split m (32 - m) 96 (omega (arith, below))),
        )

-- The numbers from the first to the last address, in the order of the machine.
abbrev pub Between6 : (ntohl : ℕ → ℕ) → EngineIp → EngineIp → ℕ → Type 0
Between6 ntohl (ipv6 low) (ipv6 high) a =
    (value (engine_ipv6_to_host ntohl low) ≤ a) × (a ≤ value (engine_ipv6_to_host ntohl high))
Between6 ntohl _ _ a = true ≡ false

abbrev pub Within6 : (ntohl : ℕ → ℕ) → IpRange → ℕ → Type 0
Within6 ntohl range a = Between6 ntohl range.start_addr range.end_addr a

-- The call has returned 0 and left a range whose addresses are those that have the first m bits.
abbrev pub LeavesSubnet : (ntohl : ℕ → ℕ) → (m ip : ℕ) → Option (Bool × IpRange) → Type 0
LeavesSubnet ntohl m ip none = true ≡ false
LeavesSubnet ntohl m ip (some (done, out)) =
    (done ≡ true) × ((a : ℕ) → Within6 ntohl out a ↔ (a / 2 ^ (128 - m) ≡ ip / 2 ^ (128 - m)))

module _ (ntohl : ℕ → ℕ) (order : (v : ℕ) → v < 2 ^ 32 → ntohl (ntohl v) ≡ v) where
  host-net : (a : In6Addr) → Words a → engine_ipv6_to_host ntohl (engine_ipv6_to_net ntohl a) ≡ a
  unfolding engine_ipv6_to_host engine_ipv6_to_net
  host-net a (s0, s1, s2, s3) = λ i. record {
    word0 = order a.word0 s0 i;
    word1 = order a.word1 s1 i;
    word2 = order a.word2 s2 i;
    word3 = order a.word3 s3 i;
  }

  -- If ntohl() undoes itself, the address can be read, and the mask m is at most 128, then
  -- `_load_ipv6_subnet` returns 0, and an address is in the range that it leaves exactly if its first m
  -- bits, of the 128 that the four words make, are those of the address that was read.
  pub load_ipv6_subnet-LeavesSubnet :
      (str_to_ipv4 : List ℕ → Option ℕ) (str_to_ipv6 : List ℕ → Option In6Addr) (htonl : ℕ → ℕ)
      (ipstr mask : List ℕ) (range : IpRange) (ipval : In6Addr)
      → str_to_ipv6 ipstr ≡ some ipval
      → Words (engine_ipv6_to_host ntohl ipval)
      → atoi mask ≤ 128
      → LeavesSubnet ntohl
          (atoi mask)
          (value (engine_ipv6_to_host ntohl ipval))
          (load_ipv6_subnet str_to_ipv4 str_to_ipv6 ntohl htonl ipstr mask range)
  unfolding load_ipv6_subnet
  load_ipv6_subnet-LeavesSubnet str_to_ipv4 str_to_ipv6 htonl ipstr mask range ipval read words
        short =
      rw (read, load_ipv6_subnet)
        (ends (ipv6_ends (engine_ipv6_to_host ntohl ipval) (atoi mask))
          (ipv6_ends-IsSubnet (engine_ipv6_to_host ntohl ipval) (atoi mask) words short))
    where
      ends :
          (o : Option (In6Addr × In6Addr))
          → IsSubnet (engine_ipv6_to_host ntohl ipval) (atoi mask) o
          → LeavesSubnet ntohl (atoi mask) (value (engine_ipv6_to_host ntohl ipval)) (elim o [
            | none ↦ none
            | some (low, high) ↦ some (
              true,
              record {
                start_addr = ipv6 (engine_ipv6_to_net ntohl low);
                end_addr = ipv6 (engine_ipv6_to_net ntohl high);
              },
            )
          ])
      ends none h = absurd (ground (arith, h))
      ends (some (low, high)) (wl, wh, h) =
          (refl, λ a. rw (host-net low wl, host-net high wh) (h a))
