-- ===== src/IpRange/Ranges.antt =====
-- What `engine_ip_parse_ranges` (xutil/src/engine_ip_range.cpp) reads.
use netpool.Base.{
  ℕ, ◌+◌, ◌%◌, ◌^◌, ◌≤◌, ◌<◌, ◌≡◌, ◌↔◌, inl, inr, refl, sym, ap, ◌∙◌, subst, true, false, Option,
  none, some, List, [], ◌∷◌, ◌++◌, append_assoc, arith, length, length-append, get_elem?-append,
  get_elem?-length, set-append, set, leb, Bool-cases, Option-cases,
}
use netpool.EngineIp.{In6Addr}
use netpool.IpRange.{util_str_trim, strtok}
use netpool.IpRange.Ipv4.{IpRange}
use netpool.IpRange.Ipv6.{engine_ip_parse_range, ranges_loop, engine_ip_parse_ranges}

module _ (str_to_ipv4 : List ℕ → Option ℕ) (str_to_ipv6 : List ℕ → Option In6Addr)
    (ntohl htonl : ℕ → ℕ) where
  -- Each token is read into the range at its place, and the ranges behind are as they were.
  abbrev pub Reads : (tokens : List (List ℕ)) (before after : List IpRange) → Type 0
  Reads [] before after = before ≡ after
  Reads (t ∷ ts) (b ∷ before) (a ∷ after) =
      (engine_ip_parse_range str_to_ipv4 str_to_ipv6 ntohl htonl t b ≡ some (true, a))
      × Reads ts before after
  Reads (t ∷ ts) _ _ = true ≡ false

  module _ (max_cnt : ℕ) (small : max_cnt < 2 ^ 16) where
    abbrev loop : ℕ → List (List ℕ) → List IpRange → Option (Option ℕ × List IpRange)
    loop = ranges_loop str_to_ipv4 str_to_ipv6 ntohl htonl max_cnt

    -- A token that is read.
    loop_step :
        (front : List IpRange) (b : IpRange) (back : List IpRange) (a : IpRange) (t : List ℕ)
        (ts : List (List ℕ))
        → length front < max_cnt
        → engine_ip_parse_range str_to_ipv4 str_to_ipv6 ntohl htonl t b ≡ some (true, a)
        → loop (length front) (t ∷ ts) (front ++ b ∷ back)
          ≡ loop (length (front ++ a ∷ [])) ts ((front ++ a ∷ []) ++ back)
    unfolding ranges_loop
    loop_step front b back a t ts below read =
        let test : leb max_cnt (length front) ≡ false = ground (arith, below) in
        let index : (length front + 1) % 2 ^ 16 ≡ length (front ++ a ∷ []) =
          omega (arith, below, small, length-append front (a ∷ [])) in
        rw
          (
            ranges_loop,
            test,
            get_elem?-append front b back,
            read,
            set-append front b back a,
            index,
            append_assoc front (a ∷ []) back,
          )
          refl

    -- How the loop leaves from the index of a part of the array.
    record Filled (front : List IpRange) (ts : List (List ℕ)) (back : List IpRange) (n : ℕ)
        (out : List IpRange) : Type 0 where
      count : n ≡ length front + length ts
      fits : n ≤ max_cnt
      back' : List IpRange
      places : out ≡ front ++ back'
      reads : Reads ts back back'

    loop-Filled :
        (front : List IpRange) (ts : List (List ℕ)) (back : List IpRange) (n : ℕ)
        (out : List IpRange)
        → length front ≤ max_cnt
        → loop (length front) ts (front ++ back) ≡ some (some n, out)
        → Filled front ts back n out
    unfolding ranges_loop
    loop-Filled front [] back n out room h = record {
      count = ground (arith, h);
      fits = ground (arith, h, room);
      back' = back;
      places = cc;
      reads = refl;
    }
    loop-Filled front (t ∷ ts) [] n out room h = elim (Bool-cases (leb max_cnt (length front))) [
      | inl full ↦
          let run : loop (length front) (t ∷ ts) (front ++ []) ≡ some (none, front ++ []) =
            rw (ranges_loop, full) refl in
          absurd (ground (arith, run, h))
      | inr some_room ↦
          let run : loop (length front) (t ∷ ts) (front ++ []) ≡ none =
            rw (ranges_loop, some_room, get_elem?-length front) refl in
          absurd (ground (arith, run, h))
    ]
    loop-Filled front (t ∷ ts) (b ∷ back) n out room h =
        elim (Bool-cases (leb max_cnt (length front))) [
          | inl full ↦
              let run : loop (length front) (t ∷ ts) (front ++ b ∷ back)
                  ≡ some (none, front ++ b ∷ back) =
                rw (ranges_loop, full) refl in
              absurd (ground (arith, run, h))
          | inr some_room ↦
              elim (Option-cases (engine_ip_parse_range str_to_ipv4 str_to_ipv6 ntohl htonl t b)) [
                | inl crash ↦
                    let run : loop (length front) (t ∷ ts) (front ++ b ∷ back) ≡ none =
                      rw (ranges_loop, some_room, get_elem?-append front b back, crash) refl in
                    absurd (ground (arith, run, h))
                | inr ((false, a), refused) ↦
                    let run : loop (length front) (t ∷ ts) (front ++ b ∷ back)
                        ≡ some (none, set (front ++ b ∷ back) (length front) a) =
                      rw (ranges_loop, some_room, get_elem?-append front b back, refused) refl in
                    absurd (ground (arith, run, h))
                | inr ((true, a), read) ↦
                    let below : length front < max_cnt = ground (arith, some_room) in
                    let longer = length-append front (a ∷ []) in
                    let step = loop_step front b back a t ts below read in
                    let rest =
                      loop-Filled (front ++ a ∷ []) ts back n out (omega (arith, below, longer))
                        (sym step ∙ h) in
                    record {
                      count = omega (arith, rest.count, longer);
                      fits = rest.fits;
                      back' = a ∷ rest.back';
                      places = rest.places ∙ append_assoc front (a ∷ []) rest.back';
                      reads = (read, rest.reads);
                    }
              ]
        ]

    Reads-loop :
        (front : List IpRange) (ts : List (List ℕ)) (back back' : List IpRange)
        → length front + length ts ≤ max_cnt
        → Reads ts back back'
        → loop (length front) ts (front ++ back)
          ≡ some (some (length front + length ts), front ++ back')
    unfolding ranges_loop
    Reads-loop front [] back back' fits same =
        let count : length front ≡ length front + 0 = omega arith in
        ap (λ n. some (some n, front ++ back)) count
        ∙ ap (λ b. some (some (length front + 0), front ++ b)) same
    Reads-loop front (t ∷ ts) [] back' fits h = absurd (ground (arith, h))
    Reads-loop front (t ∷ ts) (b ∷ back) [] fits h = absurd (ground (arith, h))
    Reads-loop front (t ∷ ts) (b ∷ back) (a ∷ back') fits (read, h) =
        let longer = length-append front (a ∷ []) in
        let count : length (front ++ a ∷ []) + length ts ≡ length front + length (t ∷ ts) =
          omega (arith, longer) in
        loop_step front b back a t ts (omega (arith, fits)) read
        ∙ Reads-loop (front ++ a ∷ []) ts back back' (omega (arith, count, fits)) h
        ∙ ap (λ n. some (some n, (front ++ a ∷ []) ++ back')) count
        ∙ ap (λ r. some (some (length front + length (t ∷ ts)), r))
            (append_assoc front (a ∷ []) back')

    abbrev parsed : List IpRange → List (List ℕ) → Option (Option ℕ × List IpRange)
    parsed ranges [] = some (none, ranges)
    parsed ranges (t ∷ ts) = loop 0 (t ∷ ts) ranges

    -- For a limit below 2^16, `engine_ip_parse_ranges` returns 0 with the number n exactly if n is the
    -- number of tokens of the trimmed string, at least one and no more than the limit, and each token
    -- is a range of either kind, which stands in its place at the front of the array; the rest of the
    -- array is as it was.
    pub engine_ip_parse_ranges-Reads :
        (str : List ℕ) (ranges : List IpRange) (n : ℕ) (out : List IpRange)
        → let tokens = strtok 44 [] (util_str_trim 32 str) in
          (engine_ip_parse_ranges str_to_ipv4 str_to_ipv6 ntohl htonl max_cnt str ranges
            ≡ some (some n, out))
          ↔ ((n ≡ length tokens) × (0 < n) × (n ≤ max_cnt) × Reads tokens ranges out)
    unfolding engine_ip_parse_ranges
    engine_ip_parse_ranges-Reads str ranges n out = of_tokens (strtok 44 [] (util_str_trim 32 str))
      where
        of_tokens :
            (tokens : List (List ℕ))
            → (parsed ranges tokens ≡ some (some n, out))
              ↔ ((n ≡ length tokens) × (0 < n) × (n ≤ max_cnt) × Reads tokens ranges out)
        of_tokens [] =
            (λ h. absurd (ground (arith, h)), λ (e, h, _, _). absurd (omega (arith, e, h)))
        of_tokens (t ∷ ts) = (
          λ h.
              let filled = loop-Filled [] (t ∷ ts) ranges n out (omega arith) h in
              (
                omega (arith, filled.count),
                omega (arith, filled.count),
                filled.fits,
                subst (Reads (t ∷ ts) ranges) (sym filled.places) filled.reads,
              ),
          λ (e, _, fits, reads).
              Reads-loop [] (t ∷ ts) ranges out (omega (arith, e, fits)) reads
              ∙ ap (λ k. some (some k, out)) (omega (arith, e)),
        )
