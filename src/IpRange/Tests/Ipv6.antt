-- ===== src/IpRange/Tests/Ipv6.antt =====
-- Runs of the parsers of IPv6 ranges and of lists of ranges of xutil/src/engine_ip_range.cpp.
use netpool.Base.{
  ℕ, ◌≡◌, ◌<◌, ◌≤◌, ◌↔◌, refl, true, Option, none, some, List, [], ◌∷◌, ◌++◌, arith, length,
}
use netpool.EngineIp.{In6Addr, ipv4, ipv6, engine_ipv6_to_host, engine_ipv6_to_net, has_colon}
use netpool.IpRange.{
  digits, signed, atoi, split_at, trim_front, trim_back, util_str_trim, keep_token, strtok,
}
use netpool.IpRange.Ipv4.{IpRange, convert_to_begin_end, has_dot, parse_range_ipv4}
use netpool.IpRange.Ipv6.{
  to_last_colon, ipv6_ends, load_ipv6_subnet, end_of_range_ipv6, parse_range_ipv6,
  engine_ip_parse_range, ranges_loop, engine_ip_parse_ranges,
}
use netpool.IpRange.Subnet6.{Words, value, LeavesSubnet, load_ipv6_subnet-LeavesSubnet}
use netpool.IpRange.Ranges.{Reads, engine_ip_parse_ranges-Reads}
use netpool.IpRange.Tests.{nine, read_two, no_range}

-- A reading of addresses that takes every string for 2001:db8::1:0:0:5.
abbrev an_address : In6Addr
an_address = record { word0 = 0x20010db8; word1 = 0; word2 = 0x10000; word3 = 5 }

abbrev read_any : List ℕ → Option In6Addr
read_any s = some an_address

-- "72"
abbrev mask_72 : List ℕ
mask_72 = 55 ∷ 50 ∷ []

mask_72_run : atoi mask_72 ≡ 72
unfolding atoi signed digits
mask_72_run = refl

subnet_run :
    load_ipv6_subnet read_two read_any (λ v. v) (λ v. v) nine mask_72 no_range
    ≡ some (
      true,
      record {
        start_addr = ipv6 (record { word0 = 0x20010db8; word1 = 0; word2 = 0; word3 = 0 });
        end_addr =
            ipv6 (record { word0 = 0x20010db8; word1 = 0; word2 = 0xffffff; word3 = 0xffffffff });
      },
    )
unfolding load_ipv6_subnet ipv6_ends convert_to_begin_end engine_ipv6_to_host engine_ipv6_to_net
    atoi signed digits
subnet_run = refl

-- The mask "200" is not refused.
wide_mask_run :
    load_ipv6_subnet read_two read_any (λ v. v) (λ v. v) nine (50 ∷ 48 ∷ 48 ∷ []) no_range ≡ none
unfolding load_ipv6_subnet ipv6_ends convert_to_begin_end engine_ipv6_to_host engine_ipv6_to_net
    atoi signed digits
wide_mask_run = refl

-- "2001:1001:2002::-ff" does not fit into an array of 16 characters.
long_range_run :
    engine_ip_parse_range read_two read_any
      (λ v. v)
      (λ v. v)
      (50 ∷ 48 ∷ 48 ∷ 49 ∷ 58 ∷ 49 ∷ 48 ∷ 48 ∷ 49 ∷ 58 ∷ 50 ∷ 48 ∷ 48 ∷ 50 ∷ 58 ∷ 58 ∷ 45 ∷ 102
        ∷ 102 ∷ [])
      no_range
    ≡ none
unfolding engine_ip_parse_range parse_range_ipv6 end_of_range_ipv6 to_last_colon has_colon split_at
long_range_run = refl

word_bounds : Words (engine_ipv6_to_host (λ v. v) an_address)
unfolding engine_ipv6_to_host
word_bounds = (omega arith, omega arith, omega arith, omega arith)

load_ipv6_subnet-LeavesSubnet_example :
    LeavesSubnet
      (λ v. v)
      (atoi mask_72)
      (value (engine_ipv6_to_host (λ v. v) an_address))
      (load_ipv6_subnet read_two read_any (λ v. v) (λ v. v) nine mask_72 no_range)
load_ipv6_subnet-LeavesSubnet_example =
    load_ipv6_subnet-LeavesSubnet (λ v. v) (λ v h. refl) read_two read_any (λ v. v) nine mask_72
      no_range an_address refl word_bounds (omega (arith, mask_72_run))

-- " 1.1.1.9,::"
abbrev two_kinds : List ℕ
two_kinds = 32 ∷ nine ++ 44 ∷ 58 ∷ 58 ∷ []

abbrev three_ranges : List IpRange
three_ranges = no_range ∷ no_range ∷ no_range ∷ []

abbrev two_read : List IpRange
two_read =
    record { start_addr = ipv4 0x01010109; end_addr = ipv4 0x01010109 }
    ∷ record { start_addr = ipv6 an_address; end_addr = ipv6 an_address }
    ∷ no_range
    ∷ []

two_kinds_run :
    engine_ip_parse_ranges read_two read_any (λ v. v) (λ v. v) 3 two_kinds three_ranges
    ≡ some (some 2, two_read)
unfolding engine_ip_parse_ranges ranges_loop engine_ip_parse_range parse_range_ipv4 parse_range_ipv6
    has_colon has_dot split_at strtok keep_token util_str_trim trim_front trim_back
two_kinds_run = refl

engine_ip_parse_ranges-Reads_example :
    let tokens = strtok 44 [] (util_str_trim 32 two_kinds) in
    (engine_ip_parse_ranges read_two read_any (λ v. v) (λ v. v) 3 two_kinds three_ranges
      ≡ some (some 2, two_read))
    ↔ ((2 ≡ length tokens)
        × (0 < 2)
        × (2 ≤ 3)
        × Reads read_two read_any (λ v. v) (λ v. v) tokens three_ranges two_read)
engine_ip_parse_ranges-Reads_example =
    engine_ip_parse_ranges-Reads read_two read_any (λ v. v) (λ v. v) 3 (omega arith) two_kinds
      three_ranges 2 two_read
