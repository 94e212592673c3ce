-- ===== src/EngineIp.antt =====
-- The addresses of xutil/include/engine_ip.h and xutil/src/engine_ip.cpp, for Linux. inet_pton() and
-- ntohl() are parameters. A string is the list of its characters before the terminator.
pub mod Keys
pub mod Names
mod Tests
use netpool.Base.{
  ℕ, ◌+◌, Bool, true, false, ◌&&◌, ◌||◌, not, Option, none, some, List, [], ◌∷◌, ◌==◌,
  if◌then◌else◌,
}
use Prim.Native.Nat.{bit_and}

-- `struct in6_addr`, as the four words of s6_addr32.
pub record In6Addr : Type 0 where
  pub word0 : ℕ
  pub word1 : ℕ
  pub word2 : ℕ
  pub word3 : ℕ

-- `engine_ip_t`: ADDRTYPE_IPV4 and ADDRTYPE_IPV6 with the field of the union that belongs to them, and
-- any other type.
pub data EngineIp : Type 0 where
  unknown : EngineIp
  ipv4 : ℕ → EngineIp
  ipv6 : In6Addr → EngineIp

-- `IPV6_ADDR_EQUAL_COMMON`.
unfoldable pub ipv6_addr_equal : In6Addr → In6Addr → Bool
ipv6_addr_equal a b =
    a.word0 == b.word0 && a.word1 == b.word1 && a.word2 == b.word2 && a.word3 == b.word3

-- `engine_ip_key_cmp`: 0 if the keys are the same, 1 if not.
unfoldable pub engine_ip_key_cmp : EngineIp → EngineIp → ℕ
engine_ip_key_cmp (ipv4 a) (ipv4 b) = if a == b then 0 else 1
engine_ip_key_cmp (ipv6 a) (ipv6 b) = if ipv6_addr_equal a b then 0 else 1
engine_ip_key_cmp _ _ = 1

-- The loop of `host_addr_check`: the dots that no dot follows. The test p + 1 != NULL always holds.
unfoldable pub count_dots : (count : ℕ) → List ℕ → ℕ
count_dots count [] = count
count_dots count (c ∷ []) = if c == 46 then count + 1 else count
count_dots count (c ∷ d ∷ cs) =
    count_dots (if c == 46 && not (d == 46) then count + 1 else count) (d ∷ cs)

unfoldable pub host_addr_check : List ℕ → Bool
host_addr_check hostname = count_dots 0 hostname == 3

-- `strchr(ipstr, ':') != NULL`.
unfoldable pub has_colon : List ℕ → Bool
has_colon [] = false
has_colon (c ∷ cs) = c == 58 || has_colon cs

module _ (ntohl : ℕ → ℕ) where
  -- `engine_ipv6_to_host`, and `engine_ipv6_to_net`, which calls ntohl() too.
  unfoldable pub engine_ipv6_to_host : In6Addr → In6Addr
  engine_ipv6_to_host a = record {
    word0 = ntohl a.word0;
    word1 = ntohl a.word1;
    word2 = ntohl a.word2;
    word3 = ntohl a.word3;
  }

  unfoldable pub engine_ipv6_to_net : In6Addr → In6Addr
  engine_ipv6_to_net a = record {
    word0 = ntohl a.word0;
    word1 = ntohl a.word1;
    word2 = ntohl a.word2;
    word3 = ntohl a.word3;
  }

  -- `ENGINE_IP_KEY_HASH`.
  unfoldable pub engine_ip_key_hash : EngineIp → (mask : ℕ) → ℕ
  engine_ip_key_hash unknown mask = 0
  engine_ip_key_hash (ipv4 a) mask = bit_and (ntohl a) mask
  engine_ip_key_hash (ipv6 a) mask = bit_and (ntohl a.word3) mask

-- inet_pton() for AF_INET and AF_INET6: the address if it returns 1, `none` if it returns 0.
module _ (pton4 : List ℕ → Option ℕ) (pton6 : List ℕ → Option In6Addr) where
  -- `engine_str_to_ipv4` and `engine_str_to_ipv6`; `none` is the result -1.
  unfoldable pub engine_str_to_ipv4 : List ℕ → Option ℕ
  engine_str_to_ipv4 ipstr = elim (pton4 ipstr) [ none ↦ none | some ip ↦ some ip ]

  unfoldable pub engine_str_to_ipv6 : List ℕ → Option In6Addr
  engine_str_to_ipv6 ipstr = elim (pton6 ipstr) [
    | none ↦ none
    | some a ↦ some (record { word0 = a.word0; word1 = a.word1; word2 = a.word2; word3 = a.word3 })
  ]

  unfoldable pub engine_str_to_ip : List ℕ → Option EngineIp
  engine_str_to_ip ipstr =
      if has_colon ipstr
      then elim (pton6 ipstr) [ none ↦ none | some a ↦ some (ipv6 a) ]
      else elim (pton4 ipstr) [ none ↦ none | some ip ↦ some (ipv4 ip) ]
