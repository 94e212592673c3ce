-- ===== src/IpRange/Ipv4.antt =====
-- The parser of IPv4 ranges of xutil/src/engine_ip_range.cpp. engine_str_to_ipv4 of
-- xutil/src/engine_ip.cpp and the byte order of the machine are arguments.
use netpool.Base.{
  ℕ, ◌+◌, ◌-◌, ◌*◌, ◌/◌, ◌%◌, ◌^◌, Bool, true, false, ◌||◌, Option, none, some, List, [], ◌∷◌, ◌++◌,
  leb, ◌==◌, if◌then◌else◌, length,
}
use netpool.EngineIp.{EngineIp, ipv4}
use netpool.IpRange.{atoi, split_at}

-- `engine_ip_range_t`, in network order.
pub record IpRange : Type 0 where
  pub start_addr : EngineIp
  pub end_addr : EngineIp

-- `CONVERT_TO_BEGIN_END`: the and with 0xffffffff << (32 - i_mask) clears that many low bits. On i_mask
-- above 32 it is not called.
unfoldable pub convert_to_begin_end : (ip i_mask : ℕ) → ℕ × ℕ
convert_to_begin_end ip i_mask =
    let min_ip = ip / 2 ^ (32 - i_mask) * 2 ^ (32 - i_mask) in
    (min_ip, (min_ip + (2 ^ 32 - 1) / 2 ^ i_mask) % 2 ^ 32)

-- INET_ADDRSTRLEN.
abbrev pub inet_addrstrlen : ℕ
inet_addrstrlen = 16

-- `strrchr(ipstr, '.')`: the string up to the last dot, with the dot.
unfoldable pub to_last_dot : List ℕ → Option (List ℕ)
to_last_dot [] = none
to_last_dot (c ∷ cs) = elim (to_last_dot cs) [
  | some front ↦ some (c ∷ front)
  | none ↦ if c == 46 then some (c ∷ []) else none
]

-- `strchr(p, '.') != NULL`.
unfoldable pub has_dot : List ℕ → Bool
has_dot [] = false
has_dot (c ∷ cs) = c == 46 || has_dot cs

module _ (str_to_ipv4 : List ℕ → Option ℕ) (ntohl htonl : ℕ → ℕ) where
  -- `_load_ipv4_subnet`; true is the result 0 and false is -1. The mask is read as the 32 bits of what strtol()
  -- gives; on a value that is out of range of its type strtol() gives another.
  unfoldable pub load_ipv4_subnet : (ipstr mask : List ℕ) → IpRange → Bool × IpRange
  load_ipv4_subnet ipstr mask range =
      let i_mask = atoi mask in
      if leb i_mask 32
      then elim (str_to_ipv4 ipstr) [
        | none ↦ (false, range)
        | some ipval ↦
            let (min_ip, max_ip) = convert_to_begin_end (ntohl ipval) i_mask in
            (true, record { start_addr = ipv4 (htonl min_ip); end_addr = ipv4 (htonl max_ip) })
      ]
      else (false, range)

  -- The end of a range, which is parsed last.
  unfoldable pub parse_end : List ℕ → IpRange → Bool × IpRange
  parse_end p range = elim (str_to_ipv4 p) [
    | none ↦ (false, range)
    | some ipval ↦ (true, record range { end_addr = ipv4 ipval })
  ]

  -- The end of a range behind the dash: a whole address, or what follows the last dot of the first one. `none`
  -- is an access behind the end of `str`.
  unfoldable pub end_of_range : (front p : List ℕ) → IpRange → Option (Bool × IpRange)
  end_of_range front p range =
      if has_dot p
      then some (parse_end p range)
      else if leb inet_addrstrlen (length front + length p)
      then none
      else some (parse_end (front ++ p) range)

  -- `engine_ip_parse_range_ipv4`, with what the caller's range holds before.
  unfoldable pub parse_range_ipv4 : List ℕ → IpRange → Option (Bool × IpRange)
  parse_range_ipv4 ipstr range = elim (split_at 47 ipstr) [
    | some (addr, mask) ↦ some (load_ipv4_subnet addr mask range)
    | none ↦ elim (split_at 45 ipstr) [
      | some (first, p) ↦ elim (to_last_dot first) [
        | none ↦ some (false, range)
        | some front ↦ elim (str_to_ipv4 first) [
          | none ↦ some (false, range)
          | some ipval ↦ end_of_range front p (record range { start_addr = ipv4 ipval })
        ]
      ]
      | none ↦ elim (str_to_ipv4 ipstr) [
        | none ↦ some (false, range)
        | some ipval ↦ some (true, record { start_addr = ipv4 ipval; end_addr = ipv4 ipval })
      ]
    ]
  ]
