-- ===== src/StrUtil/Tests.antt =====
-- Runs of xutil/src/utilstr.cpp.
use netpool.Base.{ℕ, ◌≡◌, refl, none, some, List, [], ◌∷◌, take, drop, arith}
use netpool.StrUtil.Bounded.{ended, or_else, util_strncmp-util_strcmp}
use netpool.StrUtil.{
  util_strncmp, util_stristr, search_small, matches_small, small_letter, util_strlen, util_strcpy,
  util_memcpy, util_zero, below, char_rank, util_strcmp, matches, search, util_memsearch,
}
use netpool.StrUtil.Compare.{IsString}
use netpool.StrUtil.Search.{Holds, util_memsearch-Holds}

abbrev abc : List ℕ
abc = 97 ∷ 98 ∷ 99 ∷ []

abbrev abd : List ℕ
abd = 97 ∷ 98 ∷ 100 ∷ []

compare_run : util_strcmp abc abd ≡ below
unfolding util_strcmp char_rank
compare_run = refl

found_run : util_memsearch (120 ∷ 97 ∷ 98 ∷ 99 ∷ 120 ∷ []) abc ≡ some 4
unfolding util_memsearch search matches
found_run = refl

-- "aab" stands in "aaab", and is not found.
missed_run : util_memsearch (97 ∷ 97 ∷ 97 ∷ 98 ∷ []) (97 ∷ 97 ∷ 98 ∷ []) ≡ none
unfolding util_memsearch search matches
missed_run = refl

abc-IsString : IsString abc
abc-IsString = omega arith

abd-IsString : IsString abd
abd-IsString = omega arith

util_memsearch-Holds_example : Holds (120 ∷ 97 ∷ 98 ∷ 99 ∷ 120 ∷ []) abc 4
util_memsearch-Holds_example = util_memsearch-Holds (120 ∷ 97 ∷ 98 ∷ 99 ∷ 120 ∷ []) abc found_run

-- "ab" is below "abc" also where only two characters are to be compared.
bounded_run : util_strncmp (97 ∷ 98 ∷ []) (97 ∷ 98 ∷ 99 ∷ []) 2 ≡ below
unfolding util_strncmp char_rank
bounded_run = refl

-- "BC" in "abcd", whatever the case.
small_run : util_stristr (97 ∷ 98 ∷ 99 ∷ 100 ∷ []) (66 ∷ 67 ∷ []) ≡ some 3
unfolding util_stristr search_small matches_small small_letter util_strlen
small_run = refl

copy_run : util_strcpy (1 ∷ 2 ∷ 3 ∷ 4 ∷ []) (97 ∷ 98 ∷ []) ≡ some (3, 97 ∷ 98 ∷ 0 ∷ 4 ∷ [])
unfolding util_strcpy util_memcpy util_strlen
copy_run = refl

zero_run : util_zero (1 ∷ 2 ∷ 3 ∷ []) 2 ≡ some (0 ∷ 0 ∷ 3 ∷ [])
unfolding util_zero
zero_run = refl

util_strncmp-util_strcmp_example :
    util_strncmp abc abd 2
    ≡ or_else (util_strcmp (take 2 abc) (take 2 abd)) (ended (drop 2 abc) (drop 2 abd))
util_strncmp-util_strcmp_example = util_strncmp-util_strcmp abc abd 2
