-- ===== src/Base/Counts.antt =====
-- Multisets of numbers: how often a number stands in a list.
use Prim.Native.Nat.{ℕ, ◌+◌}
use mathlib.Core.Path.{◌≡◌}
use mathlib.Core.List.{List, [], ◌∷◌, ◌++◌}
use native.Mathlib.Omega.{arith}
use netpool.Base.Tests.{◌==◌, if◌then◌else◌}

-- How often a number stands in a list.
abbrev pub count : ℕ → List ℕ → ℕ
count a [] = 0
count a (x ∷ xs) = (if x == a then 1 else 0) + count a xs

pub count-append :
    (n : ℕ) (left right : List ℕ) → count n (left ++ right) ≡ count n left + count n right
count-append n [] right = omega arith
count-append n (b ∷ left) right = omega (count-append n left right, arith)
