-- ===== src/Rand/Tests.antt =====
-- Runs of the generator of xutil/src/utilrand.cpp.
use netpool.Base.{◌≡◌, refl, [], ◌∷◌}
use netpool.Rand.{rand_init, rand_next, low_bytes, rand_str, letter, letters, rand_alphastr}

-- The process id does not matter.
seed_run : rand_init 1000 4242 77 ≡ (record { x = 1000; y = 0; z = 77; w = 77 })
unfolding rand_init
seed_run = refl

next_run : (rand_next (rand_init 1000 4242 77)).0 ≡ 2055398
unfolding rand_next rand_init
next_run = refl

-- The last two of six characters are numbers below 33.
alpha_run : (rand_alphastr 6 (rand_init 1000 4242 77)).0 ≡ 53 ∷ 108 ∷ 100 ∷ 97 ∷ 25 ∷ 2 ∷ []
unfolding rand_alphastr letters letter rand_next rand_init
alpha_run = refl

str_run : (rand_str 7 (rand_init 1000 4242 77)).0 ≡ 230 ∷ 92 ∷ 31 ∷ 0 ∷ 229 ∷ 92 ∷ 195 ∷ []
unfolding rand_str low_bytes rand_next rand_init
str_run = refl
