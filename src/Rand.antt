-- ===== src/Rand.antt =====
-- The generator of xutil/src/utilrand.cpp, on words of 32 bits. Memory is filled as a little-endian
-- machine does.
mod Tests
use Prim.Native.Nat.{bit_xor}
use netpool.Base.{
  ℕ, zero, suc, ◌+◌, ◌*◌, ◌/◌, ◌%◌, ◌^◌, ◌≡◌, refl, arith, Option, none, some, List, [], ◌∷◌, ◌++◌,
  length, length-append, get_elem?,
}

-- The words x, y, z and w.
pub record Rand : Type 0 where
  pub x : ℕ
  pub y : ℕ
  pub z : ℕ
  pub w : ℕ

-- `rand_init`, with what time(), getpid() and clock() give, each as 32 bits.
pub rand_init : (time pid clock : ℕ) → Rand
rand_init time pid clock =
    let y = bit_xor pid pid in record { x = time; y = y; z = clock; w = bit_xor clock y }

-- `rand_next`.
pub rand_next : Rand → ℕ × Rand
rand_next r =
    let t = bit_xor r.x (r.x * 2 ^ 11 % 2 ^ 32) in
    let u = bit_xor t (t / 2 ^ 8) in
    let w = bit_xor (bit_xor r.w (r.w / 2 ^ 19)) u in
    (w, record { x = r.y; y = r.z; z = r.w; w = w })

-- So many low bytes of a word.
pub low_bytes : ℕ → (word : ℕ) → List ℕ
low_bytes zero word = []
low_bytes (suc n) word = word % 256 ∷ low_bytes n (word / 256)

-- `rand_str`: the bytes that it writes.
pub rand_str : (len : ℕ) → Rand → List ℕ × Rand
rand_str (suc (suc (suc (suc len)))) r =
    let (word, s) = rand_next r in let (rest, t) = rand_str len s in (low_bytes 4 word ++ rest, t)
rand_str (suc (suc len)) r =
    let (word, s) = rand_next r in let (rest, t) = rand_str len s in (low_bytes 2 word ++ rest, t)
rand_str (suc zero) r = let (word, s) = rand_next r in (low_bytes 1 word, s)
rand_str zero r = ([], r)

-- The letters and digits of `alphaset`, without the terminator.
abbrev pub alphaset : List ℕ
alphaset =
    97 ∷ 98 ∷ 99 ∷ 100 ∷ 101 ∷ 102 ∷ 103 ∷ 104 ∷ 105 ∷ 106 ∷ 107 ∷ 108 ∷ 109 ∷ 110 ∷ 111 ∷ 112 ∷ 113
    ∷ 114 ∷ 115 ∷ 116 ∷ 117 ∷ 118 ∷ 119 ∷ 48 ∷ 49 ∷ 50 ∷ 51 ∷ 52 ∷ 53 ∷ 54 ∷ 55 ∷ 56 ∷ []

-- `alphaset[tmp]`; behind the last letter stands the terminator.
pub letter : (tmp : ℕ) → ℕ
letter tmp = elim (get_elem? alphaset tmp) [ none ↦ 0 | some c ↦ c ]

-- The inner loop of `rand_alphastr`: a letter for each of so many bytes of the word.
pub letters : ℕ → (entropy : ℕ) → List ℕ
letters zero entropy = []
letters (suc n) entropy = letter (entropy % 256 / 2 ^ 3) ∷ letters n (entropy / 2 ^ 8)

-- `rand_alphastr`: four letters at a time; what is left is filled with numbers below sizeof(alphaset).
pub rand_alphastr : (len : ℕ) → Rand → List ℕ × Rand
rand_alphastr (suc (suc (suc (suc len)))) r =
    let (word, s) = rand_next r in
    let (rest, t) = rand_alphastr len s in (letters 4 word ++ rest, t)
rand_alphastr (suc len) r =
    let (word, s) = rand_next r in let (rest, t) = rand_alphastr len s in (word % 33 ∷ rest, t)
rand_alphastr zero r = ([], r)
