-- ===== src/StrUtil.antt =====
-- Comparison, copying and search of xutil/src/utilstr.cpp. A string is the list of its characters,
-- numbers below 256, before the terminator; char is signed.
pub mod Compare
pub mod Search
pub mod Bounded
mod Tests
use netpool.Base.{
  ℕ, zero, suc, ◌+◌, ◌-◌, ◌%◌, Bool, true, false, ◌&&◌, Option, none, some, List, [], ◌∷◌, ◌++◌,
  ltb, leb, ◌==◌, if◌then◌else◌, length, get_elem?,
}
use Prim.Native.Nat.{bit_or}

-- The results -1, 0 and 1.
pub data Order : Type 0 where
  below same above : Order

-- The value of a signed char, moved up by 128.
pub char_rank : ℕ → ℕ
char_rank c = (c + 128) % 256

-- `util_strcmp`.
pub util_strcmp : List ℕ → List ℕ → Order
util_strcmp [] [] = same
util_strcmp [] (d ∷ t) = below
util_strcmp (c ∷ s) [] = above
util_strcmp (c ∷ s) (d ∷ t) =
    let rest = util_strcmp s t in
    if ltb (char_rank d) (char_rank c)
    then above
    else if ltb (char_rank c) (char_rank d)
    then below
    else rest

-- The test `buf[i] == mem[matched]`; a read behind the end of `mem` is taken to differ.
pub matches : Option ℕ → ℕ → Bool
matches none b = false
matches (some c) b = b == c

-- The loop of `util_memsearch`, at the index `i`; `none` is the result -1.
pub search : (mem : List ℕ) (matched i : ℕ) → List ℕ → Option ℕ
search mem matched i [] = none
search mem matched i (b ∷ buf) =
    let longer = search mem (matched + 1) (i + 1) buf in
    let again = search mem 0 (i + 1) buf in
    if matches (get_elem? mem matched) b
    then if matched + 1 == length mem then some (i + 1) else longer
    else again

pub util_memsearch : (buf mem : List ℕ) → Option ℕ
util_memsearch buf mem = if ltb (length buf) (length mem) then none else search mem 0 0 buf

-- `util_strlen`.
pub util_strlen : List ℕ → ℕ
util_strlen [] = 0
util_strlen (c ∷ s) = suc (util_strlen s)

-- `util_strncmp`.
pub util_strncmp : List ℕ → List ℕ → (n : ℕ) → Order
util_strncmp [] [] n = same
util_strncmp [] (d ∷ t) n = below
util_strncmp (c ∷ s) [] n = above
util_strncmp (c ∷ s) (d ∷ t) zero = same
util_strncmp (c ∷ s) (d ∷ t) (suc n) =
    let rest = util_strncmp s t n in
    if ltb (char_rank d) (char_rank c)
    then above
    else if ltb (char_rank c) (char_rank d)
    then below
    else rest

-- `util_memcpy`: what stands at dst afterwards; `none` is an access behind the end of either.
pub util_memcpy : (dst src : List ℕ) (len : ℕ) → Option (List ℕ)
util_memcpy dst src zero = some dst
util_memcpy [] src (suc len) = none
util_memcpy (d ∷ dst) [] (suc len) = none
util_memcpy (d ∷ dst) (b ∷ src) (suc len) = elim (util_memcpy dst src len) [
  | none ↦ none
  | some out ↦ some (b ∷ out)
]

-- `util_zero`.
pub util_zero : (buf : List ℕ) (len : ℕ) → Option (List ℕ)
util_zero buf zero = some buf
util_zero [] (suc len) = none
util_zero (b ∷ buf) (suc len) = elim (util_zero buf len) [ none ↦ none | some out ↦ some (0 ∷ out) ]

-- `util_strncpy` and `util_strcpy`: the result, and what stands at dst; a string ends with a NUL.
pub util_strncpy : (dst src : List ℕ) (len : ℕ) → Option (ℕ × List ℕ)
util_strncpy dst src len =
    let whole = util_strlen src + 1 in
    let l = if ltb len whole then len else whole in
    elim (util_memcpy dst (src ++ 0 ∷ []) l) [ none ↦ none | some out ↦ some (l, out) ]

pub util_strcpy : (dst src : List ℕ) → Option (ℕ × List ℕ)
util_strcpy dst src =
    let l = util_strlen src + 1 in
    elim (util_memcpy dst (src ++ 0 ∷ []) l) [ none ↦ none | some out ↦ some (l, out) ]

-- The letters from 'A' to 'Z' get the bits of 0x60, and are small ones.
pub small_letter : ℕ → ℕ
small_letter c = if leb 65 c && leb c 90 then bit_or c 0x60 else c

-- The test `a == b` of `util_stristr`.
pub matches_small : Option ℕ → ℕ → Bool
matches_small none a = false
matches_small (some b) a = small_letter a == small_letter b

-- The loop of `util_stristr`, at the index `i`, with `str` and its NUL; `none` is the result -1, and a
-- read behind the NUL is taken to differ.
pub search_small : (str : List ℕ) (match_count i : ℕ) → List ℕ → Option ℕ
search_small str match_count i [] = none
search_small str match_count i (a ∷ haystack) =
    let longer = search_small str (match_count + 1) (i + 1) haystack in
    let again = search_small str 0 (i + 1) haystack in
    if matches_small (get_elem? (str ++ 0 ∷ []) match_count) a
    then if match_count + 1 == util_strlen str then some (i + 1) else longer
    else again

-- `util_stristr`.
pub util_stristr : (haystack str : List ℕ) → Option ℕ
util_stristr haystack str = search_small str 0 0 haystack
