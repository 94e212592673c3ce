-- ===== src/IpRange.antt =====
-- The parsers of port ranges of xutil/src/engine_ip_range.cpp, with util_str_trim of xutil/src/utilstr.cpp. A
-- string is the list of its characters before the terminator. SCAN_PORT_MIN and SCAN_PORT_MAX are
-- arguments, so that what is proved does not rest on their values.
pub mod Ports
pub mod Ipv4
pub mod Subnet
pub mod Ipv6
pub mod Prefix
pub mod Subnet6
pub mod Ranges
pub mod Overflow
pub mod Decimal
mod Tests
use netpool.Base.{
  ◌++◌, ℕ, zero, suc, ◌+◌, ◌-◌, ◌*◌, ◌%◌, ◌^◌, Bool, true, false, ◌&&◌, ◌||◌, Option, none, some,
  List, [], ◌∷◌, ltb, leb, ◌==◌, if◌then◌else◌, set,
}

-- SCAN_PORT_MIN and SCAN_PORT_MAX.
abbrev pub scan_port_min : ℕ
scan_port_min = 16

abbrev pub scan_port_max : ℕ
scan_port_max = 65535

-- The value of the digits at the front of a string, as atoi() reads them.
pub digits : (acc : ℕ) → List ℕ → ℕ
digits acc [] = acc
digits acc (c ∷ cs) =
    let rest = digits (acc * 10 + (c - 48)) cs in if leb 48 c && leb c 57 then rest else acc

-- The space characters of isspace().
abbrev pub is_space : ℕ → Bool
is_space c = c == 32 || (leb 9 c && leb c 13)

-- atoi() from the sign on.
pub signed : List ℕ → ℕ
signed [] = 0
signed (c ∷ cs) =
    if c == 45
    then (2 ^ 32 - digits 0 cs % 2 ^ 32) % 2 ^ 32
    else if c == 43
    then digits 0 cs % 2 ^ 32
    else digits 0 (c ∷ cs) % 2 ^ 32

-- `atoi`, as the 32 bits of its int; on a value that is out of range C leaves open what it does.
pub atoi : List ℕ → ℕ
atoi [] = 0
atoi (c ∷ cs) = let spaced = atoi cs in if is_space c then spaced else signed (c ∷ cs)

-- `strpbrk` with one character, which is then overwritten by the terminator: the strings before it and
-- behind it.
pub split_at : (find : ℕ) → List ℕ → Option (List ℕ × List ℕ)
split_at find [] = none
split_at find (c ∷ cs) =
    let rest = split_at find cs in
    if c == find
    then some ([], cs)
    else elim rest [ none ↦ none | some (before, after) ↦ some (c ∷ before, after) ]

-- `port_range_t`; its fields are unsigned short.
pub record PortRange : Type 0 where
  pub start_port : ℕ
  pub end_port : ℕ

-- What `port_parse_range` reads, before its tests.
pub read_range : List ℕ → PortRange
read_range portstr = elim (split_at 45 portstr) [
  | some (first, last) ↦ record { start_port = atoi first % 2 ^ 16; end_port = atoi last % 2 ^ 16 }
  | none ↦ record { start_port = atoi portstr % 2 ^ 16; end_port = atoi portstr % 2 ^ 16 }
]

-- The result of a parser, and what it leaves in the caller's range; 0 is true and -1 is false.
pub port_parse_range : (low high : ℕ) → List ℕ → Bool × PortRange
port_parse_range low high portstr =
    let r = read_range portstr in
    if ltb r.start_port low || ltb high r.start_port
    then (false, r)
    else if ltb r.end_port low || ltb high r.end_port
    then (false, r)
    else if ltb r.end_port r.start_port
    then (false, r)
    else (true, r)

-- The two loops of `util_str_trim`.
pub trim_front : (find : ℕ) → List ℕ → List ℕ
trim_front find [] = []
trim_front find (c ∷ cs) = let rest = trim_front find cs in if c == find then rest else c ∷ cs

pub trim_back : (find : ℕ) → List ℕ → List ℕ
trim_back find [] = []
trim_back find (c ∷ cs) = elim (trim_back find cs) [
  | [] ↦ if c == find then [] else c ∷ []
  | d ∷ ds ↦ c ∷ d ∷ ds
]

pub util_str_trim : (find : ℕ) → List ℕ → List ℕ
util_str_trim find src = trim_front find (trim_back find src)

-- A token that ends before a delimiter is kept unless it is empty.
pub keep_token : List ℕ → List (List ℕ) → List (List ℕ)
keep_token [] tokens = tokens
keep_token (c ∷ cs) tokens = (c ∷ cs) ∷ tokens

-- The tokens that `strtok` gives, call by call, with the token that has begun, from its end.
pub strtok : (delim : ℕ) → (token : List ℕ) → List ℕ → List (List ℕ)
strtok delim token [] = keep_token token []
strtok delim token (c ∷ cs) =
    let ended = strtok delim [] cs in
    let longer = strtok delim (token ++ c ∷ []) cs in
    if c == delim then keep_token token ended else longer

-- The loop of `port_parse_ranges`, over the tokens: `port_index` is a uint16_t. `none` is the result -1.
pub parse_loop :
    (low high max_cnt port_index : ℕ) → List (List ℕ) → List PortRange → Option (ℕ × List PortRange)
parse_loop low high max_cnt port_index [] ranges = some (port_index, ranges)
parse_loop low high max_cnt port_index (t ∷ ts) ranges =
    let (done, r) = port_parse_range low high t in
    let rest =
      parse_loop low high max_cnt ((port_index + 1) % 2 ^ 16) ts (set ranges port_index r) in
    if leb max_cnt port_index then none else if done then rest else none

-- `port_parse_ranges`: the number of ranges, and the caller's array.
pub port_parse_ranges :
    (low high max_cnt : ℕ) → List ℕ → List PortRange → Option (ℕ × List PortRange)
port_parse_ranges low high max_cnt port_range_str ranges =
    let tokens = strtok 44 [] (util_str_trim 32 port_range_str) in
    elim tokens [ [] ↦ none | t ∷ ts ↦ parse_loop low high max_cnt 0 (t ∷ ts) ranges ]
