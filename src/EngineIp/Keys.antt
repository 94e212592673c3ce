-- ===== src/EngineIp/Keys.antt =====
-- The keys of a hash table of addresses (xutil/include/engine_ip.h).
use netpool.Base.{ℕ, ◌≡◌, ◌↔◌, ◌⊎◌, inl, inr, refl, ap, sym, ◌∙◌, true, false, arith}
use netpool.EngineIp.{
  In6Addr, EngineIp, unknown, ipv4, ipv6, ipv6_addr_equal, engine_ip_key_cmp, engine_ip_key_hash,
}

-- The type of the key is ADDRTYPE_IPV4 or ADDRTYPE_IPV6.
abbrev pub IsKnown : EngineIp → Type 0
IsKnown unknown = true ≡ false
IsKnown (ipv4 _) = Unit
IsKnown (ipv6 _) = Unit

ipv6_addr_equal_eq : (a b : In6Addr) → ipv6_addr_equal a b ≡ true → a ≡ b
unfolding ipv6_addr_equal
ipv6_addr_equal_eq a b h =
    let e0 : a.word0 ≡ b.word0 = ground (arith, h) in
    let e1 : a.word1 ≡ b.word1 = ground (arith, h) in
    let e2 : a.word2 ≡ b.word2 = ground (arith, h) in
    let e3 : a.word3 ≡ b.word3 = ground (arith, h) in
    λ i. record { word0 = e0 i; word1 = e1 i; word2 = e2 i; word3 = e3 i }

ipv6_addr_equal_refl : (a : In6Addr) → ipv6_addr_equal a a ≡ true
unfolding ipv6_addr_equal
ipv6_addr_equal_refl a = ground arith

cmp_eq : (a b : EngineIp) → engine_ip_key_cmp a b ≡ 0 → (a ≡ b) × IsKnown a
unfolding engine_ip_key_cmp
cmp_eq unknown unknown h = absurd (omega (arith, h))
cmp_eq unknown (ipv4 b) h = absurd (omega (arith, h))
cmp_eq unknown (ipv6 b) h = absurd (omega (arith, h))
cmp_eq (ipv4 a) unknown h = absurd (omega (arith, h))
cmp_eq (ipv4 a) (ipv4 b) h = (ap (λ x. ipv4 x) (ground (arith, h)), tt)
cmp_eq (ipv4 a) (ipv6 b) h = absurd (omega (arith, h))
cmp_eq (ipv6 a) unknown h = absurd (omega (arith, h))
cmp_eq (ipv6 a) (ipv4 b) h = absurd (omega (arith, h))
cmp_eq (ipv6 a) (ipv6 b) h = (ap (λ x. ipv6 x) (ipv6_addr_equal_eq a b (ground (arith, h))), tt)

cmp_cases : (a b : EngineIp) → (engine_ip_key_cmp a b ≡ 1) ⊎ (engine_ip_key_cmp a b ≡ 0)
unfolding engine_ip_key_cmp
cmp_cases unknown b = inl refl
cmp_cases (ipv4 a) unknown = inl refl
cmp_cases (ipv4 a) (ipv4 b) = ground arith
cmp_cases (ipv4 a) (ipv6 b) = inl refl
cmp_cases (ipv6 a) unknown = inl refl
cmp_cases (ipv6 a) (ipv4 b) = inl refl
cmp_cases (ipv6 a) (ipv6 b) = ground arith

cmp_refl : (a : EngineIp) → IsKnown a → engine_ip_key_cmp a a ≡ 0
unfolding engine_ip_key_cmp
cmp_refl unknown k = absurd (ground (arith, k))
cmp_refl (ipv4 a) k = ground arith
cmp_refl (ipv6 a) k = rw (ipv6_addr_equal_refl a) refl

-- `engine_ip_key_cmp` returns 0 exactly for keys that are the same and of one of the two known types (a key of
-- another type is not even the same as itself). Two keys for which it does not return 1 have the
-- same hash value for every mask.
pub engine_ip_key_cmp-engine_ip_key_hash :
    (ntohl : ℕ → ℕ) (a b : EngineIp) (mask : ℕ)
    → ((engine_ip_key_cmp a b ≡ 0) ↔ ((a ≡ b) × IsKnown a))
      × ((engine_ip_key_cmp a b ≡ 1)
          ⊎ (engine_ip_key_hash ntohl a mask ≡ engine_ip_key_hash ntohl b mask))
engine_ip_key_cmp-engine_ip_key_hash ntohl a b mask = (
  (cmp_eq a b, λ (e, k). ap (engine_ip_key_cmp a) (sym e) ∙ cmp_refl a k),
  elim (cmp_cases a b) [
    | inl other ↦ inl other
    | inr same ↦ inr (ap (λ x. engine_ip_key_hash ntohl x mask) (cmp_eq a b same).0)
  ],
)
