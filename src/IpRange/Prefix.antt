-- ===== src/IpRange/Prefix.antt =====
-- The numbers that agree in their first bits, where these end within a word of 32 bits: the arithmetic of the
-- subnets of xutil/src/engine_ip_range.cpp.
use native.Mathlib.Nat.{mul-le-mul_right, div-mul-le_self, lt-div-mul-add}
use netpool.Base.{ℕ, zero, suc, ◌+◌, ◌-◌, ◌*◌, ◌/◌, ◌^◌, ◌≤◌, ◌<◌, ◌≡◌, ◌↔◌, sym, ap, ◌∙◌, arith}
use netpool.IpRange.Subnet.{same_quotient, size_pos, whole, low_end}

spread : (f p q c r : ℕ) → (f * p + q) * (c * r) ≡ (f * (p * c) + q * c) * r
spread f p q c r = omega arith

one_less : (c r : ℕ) → 0 < c → (c - 1) * r + r ≡ c * r
one_less zero r h = absurd (omega (arith, h))
one_less (suc c) r h = let e : suc c - 1 ≡ c = omega arith in rw e (omega arith)

-- The word of an address in which the mask ends, with what stands before it and behind it.
module _ (m : ℕ) (short : m ≤ 32) (w : ℕ) (word : w < 2 ^ 32) (front rest behind : ℕ)
    (fits : behind < rest) where
  abbrev size : ℕ
  size = 2 ^ (32 - m)

  abbrev number : ℕ
  number = (front * 2 ^ 32 + w) * rest + behind

  abbrev first : ℕ
  first = (front * 2 ^ 32 + w / size * size) * rest

  abbrev last : ℕ
  last = (front * 2 ^ 32 + (w / size * size + (size - 1))) * rest + (rest - 1)

  abbrev quotient : ℕ
  quotient = front * 2 ^ m + w / size

  all_pos : 0 < size * rest
  all_pos =
      let scaled : 1 * rest ≤ size * rest = mul-le-mul_right rest (size_pos m short w word) in
      omega (arith, scaled, fits)

  first_lem : quotient * (size * rest) ≡ first
  first_lem =
      spread front (2 ^ m) (w / size) size rest
      ∙ ap (λ b. (front * b + w / size * size) * rest) (whole m short w word)

  last_lem : first + size * rest ≡ last + 1
  last_lem =
      let positive = size_pos m short w word in
      let step : (size - 1) * rest + rest ≡ size * rest = one_less size rest positive in
      let split : (front * 2 ^ 32 + (w / size * size + (size - 1))) * rest
          ≡ first + (size - 1) * rest =
        omega arith in
      omega (arith, step, split, fits)

  ip_quotient : number / (size * rest) ≡ quotient
  ip_quotient =
      let positive = size_pos m short w word in
      let low : (front * 2 ^ 32 + w / size * size) * rest ≤ (front * 2 ^ 32 + w) * rest =
        mul-le-mul_right rest (omega (arith, div-mul-le_self w size)) in
      let high : (front * 2 ^ 32 + w + 1) * rest
          ≤ (front * 2 ^ 32 + w / size * size + size) * rest =
        mul-le-mul_right rest (omega (arith, lt-div-mul-add {a = w} positive)) in
      (same_quotient (size * rest) all_pos quotient number).0
        (omega (arith, low, first_lem), omega (arith, high, first_lem, fits))

  pub between_ends :
      (a : ℕ) → ((first ≤ a) × (a ≤ last)) ↔ (a / (size * rest) ≡ number / (size * rest))
  between_ends a =
      let (to, from) = same_quotient (size * rest) all_pos quotient a in
      (
        λ (low, high).
            to (omega (arith, low, first_lem), omega (arith, high, first_lem, last_lem))
            ∙ sym ip_quotient,
        λ e.
            let (low, high) = from (e ∙ ip_quotient) in
            (omega (arith, low, first_lem), omega (arith, high, first_lem, last_lem)),
      )

  -- The same, of numbers that are given in another form.
  pub between_values :
      (number' first' last' size' : ℕ)
      → number' ≡ number
      → first' ≡ first
      → last' ≡ last
      → size' ≡ size * rest
      → (a : ℕ) → ((first' ≤ a) × (a ≤ last')) ↔ (a / size' ≡ number' / size')
  between_values number' first' last' size' e f l s a = rw (e, f, l, s) (between_ends a)

  -- The two ends of the word are words.
  pub ends_small : (w / size * size < 2 ^ 32) × (w / size * size + (size - 1) < 2 ^ 32)
  ends_small =
      let positive = size_pos m short w word in
      let bound = low_end m short w word in
      (omega (arith, positive, bound), omega (arith, positive, bound))
