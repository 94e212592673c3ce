-- ===== src/StrUtil/Compare.antt =====
-- The order that `util_strcmp` (xutil/src/utilstr.cpp) gives to strings.
use netpool.Base.{ℕ, ◌<◌, ◌≡◌, refl, ap, sym, ◌∙◌, ◌↔◌, List, [], ◌∷◌, arith, All}
use netpool.StrUtil.{Order, below, same, above, char_rank, util_strcmp}

abbrev pub opposite : Order → Order
opposite below = above
opposite same = same
opposite above = below

abbrev pub IsString : List ℕ → Type 0
IsString = All (λ c. c < 256)

util_strcmp_swap : (s t : List ℕ) → util_strcmp t s ≡ opposite (util_strcmp s t)
unfolding util_strcmp
util_strcmp_swap [] [] = refl
util_strcmp_swap [] (d ∷ t) = refl
util_strcmp_swap (c ∷ s) [] = refl
util_strcmp_swap (c ∷ s) (d ∷ t) = ground (arith, util_strcmp_swap s t)

util_strcmp_self : (s : List ℕ) → util_strcmp s s ≡ same
unfolding util_strcmp
util_strcmp_self [] = refl
util_strcmp_self (c ∷ s) = ground (arith, util_strcmp_self s)

util_strcmp_eq : (s t : List ℕ) → IsString s → IsString t → util_strcmp s t ≡ same → s ≡ t
unfolding util_strcmp char_rank
util_strcmp_eq [] [] u v e = refl
util_strcmp_eq [] (d ∷ t) u v e = cc
util_strcmp_eq (c ∷ s) [] u v e = cc
util_strcmp_eq (c ∷ s) (d ∷ t) u v e =
    let heads : c ≡ d = ground arith in
    let rest : util_strcmp s t ≡ same = ground arith in cc (util_strcmp_eq s t u.1 v.1 rest)

-- On strings of bytes, `util_strcmp` returns 0 exactly for equal strings, and the opposite result when its
-- arguments are swapped.
pub util_strcmp_orders :
    (s t : List ℕ)
    → IsString s
    → IsString t
    → ((util_strcmp s t ≡ same) ↔ (s ≡ t)) × (util_strcmp t s ≡ opposite (util_strcmp s t))
util_strcmp_orders s t u v = (
  (util_strcmp_eq s t u v, λ e. ap (util_strcmp s) (sym e) ∙ util_strcmp_self s),
  util_strcmp_swap s t,
)
