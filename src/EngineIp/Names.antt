-- ===== src/EngineIp/Names.antt =====
-- The names that `host_addr_check` (xutil/src/engine_ip.cpp) takes.
use netpool.Base.{
  ℕ, ◌+◌, ◌≡◌, refl, ap, sym, ◌∙◌, true, false, List, [], ◌∷◌, ◌++◌, append-nil, subst, All, length,
  arith, ◌==◌,
}
use netpool.EngineIp.{count_dots, host_addr_check}

-- The part of a name has a character, and no dot.
abbrev pub IsLabel : List ℕ → Type 0
IsLabel [] = true ≡ false
IsLabel (c ∷ cs) = All (λ x. (x == 46) ≡ false) (c ∷ cs)

-- The parts, with dots between them.
abbrev pub dotted : List (List ℕ) → List ℕ
dotted [] = []
dotted (l ∷ []) = l
dotted (l ∷ m ∷ ls) = l ++ 46 ∷ dotted (m ∷ ls)

count_plain : (n c : ℕ) (xs : List ℕ) → (c == 46) ≡ false → count_dots n (c ∷ xs) ≡ count_dots n xs
unfolding count_dots
count_plain n c [] plain = rw plain refl
count_plain n c (d ∷ xs) plain = rw plain refl

count_label :
    (n : ℕ) (l xs : List ℕ)
    → All (λ x. (x == 46) ≡ false) l
    → count_dots n (l ++ xs) ≡ count_dots n xs
count_label n [] xs all = refl
count_label n (c ∷ l) xs (plain, all) = count_plain n c (l ++ xs) plain ∙ count_label n l xs all

IsLabel-All : (l : List ℕ) → IsLabel l → All (λ x. (x == 46) ≡ false) l
IsLabel-All [] h = tt
IsLabel-All (c ∷ l) h = h

-- A dot before a label counts.
count_dot :
    (n : ℕ) (l xs : List ℕ) → IsLabel l → count_dots n (46 ∷ l ++ xs) ≡ count_dots (n + 1) (l ++ xs)
unfolding count_dots
count_dot n [] xs h = absurd (ground (arith, h))
count_dot n (d ∷ l) xs (plain, all) = rw plain refl

dotted_next : (m : List ℕ) (ls : List (List ℕ)) → (xs : List ℕ) × (dotted (m ∷ ls) ≡ m ++ xs)
dotted_next m [] = ([], sym (append-nil m))
dotted_next m (k ∷ ls) = (_, refl)

count_dotted :
    (n : ℕ) (l : List ℕ) (ls : List (List ℕ))
    → All IsLabel (l ∷ ls)
    → count_dots n (dotted (l ∷ ls)) ≡ n + length ls
unfolding count_dots
count_dotted n l [] (h, _) =
    ap (count_dots n) (sym (append-nil l)) ∙ count_label n l [] (IsLabel-All l h) ∙ omega arith
count_dotted n l (m ∷ ls) (h, hs) =
    let (xs, next) = dotted_next m ls in
    count_label n l (46 ∷ dotted (m ∷ ls)) (IsLabel-All l h)
    ∙ subst (λ t. count_dots n (46 ∷ t) ≡ count_dots (n + 1) t) (sym next) (count_dot n m xs hs.0)
    ∙ count_dotted (n + 1) m ls hs
    ∙ omega arith

-- A name of labels, each with a character and without a dot, and a dot between each two: `host_addr_check`
-- returns true exactly if there are four labels.
pub host_addr_check-dotted :
    (l : List ℕ) (ls : List (List ℕ))
    → All IsLabel (l ∷ ls)
    → host_addr_check (dotted (l ∷ ls)) ≡ (length (l ∷ ls) == 4)
unfolding host_addr_check
host_addr_check-dotted l ls h = let count = count_dotted 0 l ls h in ground (arith, count)
