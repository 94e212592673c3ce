-- ===== src/IpRange/Tests.antt =====
-- Runs of the parsers of port ranges of xutil/src/engine_ip_range.cpp.
mod Ipv6
use netpool.Base.{
  ℕ, ◌-◌, ◌/◌, ◌^◌, ◌↔◌, false, ◌++◌, Option, none, Bool, ◌&&◌, ◌==◌, if◌then◌else◌, ◌<◌, ◌≡◌, refl,
  true, some, List, [], ◌∷◌, arith, length,
}
use netpool.IpRange.{
  scan_port_min, scan_port_max, digits, signed, atoi, split_at, PortRange, read_range,
  port_parse_range, trim_front, trim_back, util_str_trim, keep_token, strtok, parse_loop,
  port_parse_ranges,
}
use netpool.IpRange.Ipv4.{
  IpRange, convert_to_begin_end, load_ipv4_subnet, to_last_dot, has_dot, parse_end, end_of_range,
  parse_range_ipv4,
}
use netpool.EngineIp.{unknown, ipv4}
use netpool.IpRange.Subnet.{Within, load_ipv4_subnet_matches}
use netpool.IpRange.Overflow.{Lacks, parse_range_ipv4-overflow}
use netpool.IpRange.Decimal.{decimal, port_parse_range-decimal}
use netpool.IpRange.Ports.{Fills, port_parse_ranges-Fills}

-- " 80,21-22 "
abbrev two_ranges : List ℕ
two_ranges = 32 ∷ 56 ∷ 48 ∷ 44 ∷ 50 ∷ 49 ∷ 45 ∷ 50 ∷ 50 ∷ 32 ∷ []

abbrev unset : PortRange
unset = record { start_port = 0; end_port = 0 }

abbrev array : List PortRange
array = unset ∷ unset ∷ unset ∷ []

abbrev filled : List PortRange
filled =
    record { start_port = 80; end_port = 80 }
    ∷ record { start_port = 21; end_port = 22 }
    ∷ unset
    ∷ []

two_ranges_run : port_parse_ranges scan_port_min scan_port_max 3 two_ranges array ≡ some (2, filled)
unfolding port_parse_ranges parse_loop port_parse_range read_range atoi signed digits split_at
    strtok keep_token util_str_trim trim_front trim_back
two_ranges_run = refl

-- "65552" is read as 16.
wrapped_run :
    port_parse_range scan_port_min scan_port_max (54 ∷ 53 ∷ 53 ∷ 53 ∷ 50 ∷ [])
    ≡ (true, record { start_port = 16; end_port = 16 })
unfolding port_parse_range read_range atoi signed digits split_at
wrapped_run = refl

port_parse_ranges-Fills_example :
    (0 < 2)
    × Fills scan_port_min scan_port_max 3 0
        (length (strtok 44 [] (util_str_trim 32 two_ranges)))
        array
        (2, filled)
port_parse_ranges-Fills_example =
    port_parse_ranges-Fills scan_port_min scan_port_max 3 two_ranges array (omega arith)
      (omega arith) two_ranges_run

-- A reading of addresses that knows two strings: "1.1.1.9" and "1.1.1.77". The byte order is that of the
-- network.
abbrev pub nine : List ℕ
nine = 49 ∷ 46 ∷ 49 ∷ 46 ∷ 49 ∷ 46 ∷ 57 ∷ []

abbrev seventy_seven : List ℕ
seventy_seven = 49 ∷ 46 ∷ 49 ∷ 46 ∷ 49 ∷ 46 ∷ 55 ∷ 55 ∷ []

abbrev same : List ℕ → List ℕ → Bool
same [] [] = true
same (x ∷ xs) (y ∷ ys) = x == y && same xs ys
same _ _ = false

abbrev pub read_two : List ℕ → Option ℕ
read_two s =
    if same s nine then some 0x01010109 else if same s seventy_seven then some 0x0101014d else none

abbrev pub no_range : IpRange
no_range = record { start_addr = unknown; end_addr = unknown }

-- "24" and "1.1.1.9-77"
abbrev pub mask_text : List ℕ
mask_text = 50 ∷ 52 ∷ []

mask_run : atoi mask_text ≡ 24
unfolding atoi signed digits
mask_run = refl

subnet_run :
    load_ipv4_subnet read_two (λ v. v) (λ v. v) nine mask_text no_range
    ≡ (true, record { start_addr = ipv4 0x01010100; end_addr = ipv4 0x010101ff })
unfolding load_ipv4_subnet convert_to_begin_end atoi signed digits
subnet_run = refl

short_run :
    parse_range_ipv4 read_two (λ v. v) (λ v. v) (nine ++ 45 ∷ 55 ∷ 55 ∷ []) no_range
    ≡ some (true, record { start_addr = ipv4 0x01010109; end_addr = ipv4 0x0101014d })
unfolding parse_range_ipv4 end_of_range parse_end to_last_dot has_dot split_at
short_run = refl

load_ipv4_subnet_matches_example :
    let (done, out) = load_ipv4_subnet read_two (λ v. v) (λ v. v) nine mask_text no_range in
    (done ≡ true)
    × ((a : ℕ)
        → Within (λ v. v) out a
          ↔ (a / 2 ^ (32 - atoi mask_text) ≡ 0x01010109 / 2 ^ (32 - atoi mask_text)))
load_ipv4_subnet_matches_example =
    load_ipv4_subnet_matches read_two (λ v. v) (λ v. v) (λ v h. refl) nine mask_text no_range
      0x01010109 refl (omega arith) (omega (arith, mask_run))

abbrev long_tail : List ℕ
long_tail = 49 ∷ 49 ∷ 49 ∷ 49 ∷ 49 ∷ 49 ∷ 49 ∷ 49 ∷ 49 ∷ 49 ∷ 49 ∷ 49 ∷ 49 ∷ 49 ∷ 49 ∷ []

dotted : has_dot nine ≡ true
unfolding has_dot
dotted = refl

undotted : has_dot long_tail ≡ false
unfolding has_dot
undotted = refl

Lacks-slash : Lacks 47 (nine ++ 45 ∷ long_tail)
Lacks-slash = (
  refl,
  (
    refl,
    (
      refl,
      (
        refl,
        (
          refl,
          (
            refl,
            (
              refl,
              (
                refl,
                (
                  refl,
                  (
                    refl,
                    (
                      refl,
                      (
                        refl,
                        (
                          refl,
                          (
                            refl,
                            (
                              refl,
                              (refl, (refl, (refl, (refl, (refl, (refl, (refl, (refl, tt)))))))),
                            ),
                          ),
                        ),
                      ),
                    ),
                  ),
                ),
              ),
            ),
          ),
        ),
      ),
    ),
  ),
)

parse_range_ipv4-overflow_example :
    parse_range_ipv4 read_two (λ v. v) (λ v. v) (nine ++ 45 ∷ long_tail) no_range ≡ none
parse_range_ipv4-overflow_example =
    parse_range_ipv4-overflow read_two (λ v. v) (λ v. v) nine long_tail no_range 0x01010109
      Lacks-slash (refl, (refl, (refl, (refl, (refl, (refl, (refl, tt))))))) dotted undotted refl
      (omega arith)

port_parse_range-decimal_example :
    (port_parse_range scan_port_min scan_port_max (decimal 4 21 ++ 45 ∷ decimal 4 1022)
      ≡ (true, record { start_port = 21; end_port = 1022 }))
    × (port_parse_range scan_port_min scan_port_max (decimal 4 21)
        ≡ (true, record { start_port = 21; end_port = 21 }))
port_parse_range-decimal_example =
    port_parse_range-decimal scan_port_min scan_port_max 21 1022 (omega arith) (omega arith)
      (omega arith) (omega arith)
