-- ===== src/EngineIp/Tests.antt =====
-- Runs of xutil/src/engine_ip.cpp and xutil/include/engine_ip.h.
use netpool.Base.{ℕ, ◌≡◌, ◌↔◌, ◌⊎◌, refl, true, false, List, [], ◌∷◌, some}
use netpool.EngineIp.{
  ipv4, ipv6, count_dots, host_addr_check, has_colon, engine_str_to_ip, engine_ip_key_cmp,
  engine_ip_key_hash,
}
use netpool.EngineIp.Keys.{IsKnown, engine_ip_key_cmp-engine_ip_key_hash}

-- "1.2.3.", ".1.2.3" and "1..2.3".
trailing_run : host_addr_check (49 ∷ 46 ∷ 50 ∷ 46 ∷ 51 ∷ 46 ∷ []) ≡ true
unfolding host_addr_check count_dots
trailing_run = refl

leading_run : host_addr_check (46 ∷ 49 ∷ 46 ∷ 50 ∷ 46 ∷ 51 ∷ []) ≡ true
unfolding host_addr_check count_dots
leading_run = refl

doubled_run : host_addr_check (49 ∷ 46 ∷ 46 ∷ 50 ∷ 46 ∷ 51 ∷ []) ≡ false
unfolding host_addr_check count_dots
doubled_run = refl

-- "::1", read by an inet_pton() that takes everything.
loopback_run :
    engine_str_to_ip
      (λ s. some 7)
      (λ s. some (record { word0 = 0; word1 = 0; word2 = 0; word3 = 1 }))
      (58 ∷ 58 ∷ 49 ∷ [])
    ≡ some (ipv6 (record { word0 = 0; word1 = 0; word2 = 0; word3 = 1 }))
unfolding engine_str_to_ip has_colon
loopback_run = refl

-- "1.23.4.5"
abbrev first_label : List ℕ
first_label = 49 ∷ []

abbrev more_labels : List (List ℕ)
more_labels = (50 ∷ 51 ∷ []) ∷ (52 ∷ []) ∷ (53 ∷ []) ∷ []

engine_ip_key_cmp-engine_ip_key_hash_example :
    ((engine_ip_key_cmp (ipv4 7) (ipv4 7) ≡ 0) ↔ ((ipv4 7 ≡ ipv4 7) × IsKnown (ipv4 7)))
    × ((engine_ip_key_cmp (ipv4 7) (ipv4 7) ≡ 1)
        ⊎ (engine_ip_key_hash (λ v. v) (ipv4 7) 3 ≡ engine_ip_key_hash (λ v. v) (ipv4 7) 3))
engine_ip_key_cmp-engine_ip_key_hash_example =
    engine_ip_key_cmp-engine_ip_key_hash (λ v. v) (ipv4 7) (ipv4 7) 3
