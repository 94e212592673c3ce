-- ===== src/IpRange/Ipv6.antt =====
-- The parser of IPv6 ranges of xutil/src/engine_ip_range.cpp, and the two functions that read ranges of
-- either kind. What engine_str_to_ipv4 and engine_str_to_ipv6 of xutil/src/engine_ip.cpp read and the
-- byte order of the machine are arguments.
use netpool.Base.{
  ℕ, ◌+◌, ◌-◌, ◌%◌, ◌^◌, Bool, true, false, ◌&&◌, Option, none, some, List, [], ◌∷◌, ◌++◌, ltb, leb,
  ◌==◌, if◌then◌else◌, length, get_elem?, set,
}
use netpool.EngineIp.{In6Addr, ipv6, engine_ipv6_to_host, engine_ipv6_to_net, has_colon}
use netpool.IpRange.{atoi, split_at, util_str_trim, strtok}
use netpool.IpRange.Ipv4.{IpRange, convert_to_begin_end, inet_addrstrlen, has_dot, parse_range_ipv4}

-- `strrchr(ipstr, ':')`: the string up to the last colon, with the colon.
unfoldable pub to_last_colon : List ℕ → Option (List ℕ)
to_last_colon [] = none
to_last_colon (c ∷ cs) = elim (to_last_colon cs) [
  | some front ↦ some (c ∷ front)
  | none ↦ if c == 58 then some (c ∷ []) else none
]

-- The first and the last address of the subnet of an address, in the order of the machine. `none` is a shift by
-- 64 bits or more or by a negative number, for a mask above 128, which C leaves open.
unfoldable pub ipv6_ends : In6Addr → (i_mask : ℕ) → Option (In6Addr × In6Addr)
ipv6_ends ip i_mask =
    if ltb 96 i_mask && leb i_mask 128
    then (let (low, high) = convert_to_begin_end ip.word3 (i_mask - 96) in
        some (record ip { word3 = low }, record ip { word3 = high }))
    else if ltb 64 i_mask && leb i_mask 96
    then (let (low, high) = convert_to_begin_end ip.word2 (i_mask - 64) in
        some (record ip { word2 = low; word3 = 0 }, record ip { word2 = high; word3 = 2 ^ 32 - 1 }))
    else if ltb 32 i_mask && leb i_mask 64
    then (let (low, high) = convert_to_begin_end ip.word1 (i_mask - 32) in
        some (
          record ip { word1 = low; word2 = 0; word3 = 0 },
          record ip { word1 = high; word2 = 2 ^ 32 - 1; word3 = 2 ^ 32 - 1 },
        ))
    else if leb i_mask 32
    then (let (low, high) = convert_to_begin_end ip.word0 i_mask in
        some (
          record { word0 = low; word1 = 0; word2 = 0; word3 = 0 },
          record { word0 = high; word1 = 2 ^ 32 - 1; word2 = 2 ^ 32 - 1; word3 = 2 ^ 32 - 1 },
        ))
    else none

module _ (str_to_ipv4 : List ℕ → Option ℕ) (str_to_ipv6 : List ℕ → Option In6Addr)
    (ntohl htonl : ℕ → ℕ) where
  -- `_load_ipv6_subnet`; the mask is read as in `_load_ipv4_subnet`, and without a test of its bounds.
  unfoldable pub load_ipv6_subnet : (ipstr mask : List ℕ) → IpRange → Option (Bool × IpRange)
  load_ipv6_subnet ipstr mask range = elim (str_to_ipv6 ipstr) [
    | none ↦ some (false, range)
    | some ipval ↦ elim (ipv6_ends (engine_ipv6_to_host ntohl ipval) (atoi mask)) [
      | none ↦ none
      | some (low, high) ↦ some (
        true,
        record {
          start_addr = ipv6 (engine_ipv6_to_net ntohl low);
          end_addr = ipv6 (engine_ipv6_to_net ntohl high);
        },
      )
    ]
  ]

  -- The end of a range, which is parsed last.
  unfoldable pub parse_end_ipv6 : List ℕ → IpRange → Bool × IpRange
  parse_end_ipv6 p range = elim (str_to_ipv6 p) [
    | none ↦ (false, range)
    | some ipval ↦ (true, record range { end_addr = ipv6 ipval })
  ]

  -- The end of a range behind the dash: a whole address, or what follows the last colon of the first one.
  -- `none` is an access behind the end of `str`, which has INET_ADDRSTRLEN characters here too.
  unfoldable pub end_of_range_ipv6 : (front p : List ℕ) → IpRange → Option (Bool × IpRange)
  end_of_range_ipv6 front p range =
      if has_colon p
      then some (parse_end_ipv6 p range)
      else if leb inet_addrstrlen (length front + length p)
      then none
      else some (parse_end_ipv6 (front ++ p) range)

  -- `engine_ip_parse_range_ipv6`.
  unfoldable pub parse_range_ipv6 : List ℕ → IpRange → Option (Bool × IpRange)
  parse_range_ipv6 ipstr range = elim (split_at 47 ipstr) [
    | some (addr, mask) ↦ load_ipv6_subnet addr mask range
    | none ↦ elim (split_at 45 ipstr) [
      | some (first, p) ↦ elim (to_last_colon first) [
        | none ↦ some (false, range)
        | some front ↦ elim (str_to_ipv6 first) [
          | none ↦ some (false, range)
          | some ipval ↦ end_of_range_ipv6 front p (record range { start_addr = ipv6 ipval })
        ]
      ]
      | none ↦ elim (str_to_ipv6 ipstr) [
        | none ↦ some (false, range)
        | some ipval ↦ some (true, record { start_addr = ipv6 ipval; end_addr = ipv6 ipval })
      ]
    ]
  ]

  -- `engine_ip_parse_range`.
  unfoldable pub engine_ip_parse_range : List ℕ → IpRange → Option (Bool × IpRange)
  engine_ip_parse_range ipstr range =
      if has_colon ipstr
      then parse_range_ipv6 ipstr range
      else if has_dot ipstr
      then parse_range_ipv4 str_to_ipv4 ntohl htonl ipstr range
      else some (false, range)

  -- The loop of `engine_ip_parse_ranges`, over the tokens: `ip_index` is a uint16_t. A result without a
  -- number is -1; `none` is an access behind the end of an array.
  unfoldable pub ranges_loop :
      (max_cnt ip_index : ℕ) → List (List ℕ) → List IpRange → Option (Option ℕ × List IpRange)
  ranges_loop max_cnt ip_index [] ranges = some (some ip_index, ranges)
  ranges_loop max_cnt ip_index (t ∷ ts) ranges =
      let next =
        λ (r : IpRange). ranges_loop max_cnt ((ip_index + 1) % 2 ^ 16) ts (set ranges ip_index r) in
      if leb max_cnt ip_index then some (none, ranges) else elim (get_elem? ranges ip_index) [
        | none ↦ none
        | some range ↦ elim (engine_ip_parse_range t range) [
          | none ↦ none
          | some (true, r) ↦ next r
          | some (false, r) ↦ some (none, set ranges ip_index r)
        ]
      ]

  -- `engine_ip_parse_ranges`: the number of ranges, and the caller's array.
  unfoldable pub engine_ip_parse_ranges :
      (max_cnt : ℕ) → List ℕ → List IpRange → Option (Option ℕ × List IpRange)
  engine_ip_parse_ranges max_cnt ip_range_str ranges =
      let tokens = strtok 44 [] (util_str_trim 32 ip_range_str) in
      elim tokens [ [] ↦ some (none, ranges) | t ∷ ts ↦ ranges_loop max_cnt 0 (t ∷ ts) ranges ]
