-- ===== src/Startup/Opening.antt =====
-- Which epoll descriptors init_event_fds and wait_stop (netpool/src/CNetPoll.cpp) open and close.
use netpool.Base.{
  ℕ, zero, suc, ◌+◌, ◌≤◌, ◌<◌, ◌≡◌, ◌⊎◌, inl, inr, refl, sym, ap, ◌∙◌, true, false, Option, none,
  some, List, [], ◌∷◌, ◌++◌, append_assoc, arith, length, length-append, replicate,
  length-replicate, length-drop, drop, set-append, ltb, ◌==◌, if◌then◌else◌, Bool-cases, map,
  Option-cases, subst,
}
use netpool.Startup.{
  Outcome, opens, overruns, aborts, after_create, open_from, init_event_fds, wait_loops,
  close_epfds, wait_stop,
}

-- The descriptors in an array.
abbrev opened : List (Option ℕ) → List ℕ
opened [] = []
opened (none ∷ fds) = opened fds
opened (some fd ∷ fds) = fd ∷ opened fds

-- One more answer before the descriptors that the later calls give.
abbrev and_given : {E : Type 0} → Option ℕ → Option (List ℕ × E) → Option (List ℕ × E)
and_given none rest = none
and_given (some fd) none = none
and_given (some fd) (some (fds, last)) = some (fd ∷ fds, last)

module _ {E : Type 0} (epoll_create : E → Option ℕ × E) where
  -- The descriptors that so many calls of epoll_create() give, or `none` if one of them fails.
  abbrev pub given : ℕ → E → Option (List ℕ × E)
  given zero e = some ([], e)
  given (suc n) e = let (fd, e') = epoll_create e in let rest = given n e' in and_given fd rest

  -- How a loop over an array ends that is to fill its last part.
  abbrev Ends : (more : ℕ) (front back : List (Option ℕ)) → E → Outcome E → Type 0
  Ends more front back e out =
      ((out ≡ aborts) × (k : ℕ) × (k ≤ more) × (k ≤ length back) × (given k e ≡ none))
      ⊎ (((out ≡ overruns)
            × (length back < more)
            × (fds : List ℕ) × (e' : E) × (given (length back) e ≡ some (fds, e')))
          ⊎ ((more ≤ length back)
              × (fds : List ℕ) × (e' : E) × (given more e ≡ some (fds, e'))
              × (out ≡ opens (front ++ (map (λ fd. some fd) fds ++ drop more back)) e')))

  given-suc :
      (n d : ℕ) (e : E) {fds : List ℕ} {last : E}
      → (epoll_create e).0 ≡ some d
      → given n (epoll_create e).1 ≡ some (fds, last)
      → given (suc n) e ≡ some (d ∷ fds, last)
  given-suc n d e h g = rw (h, g) refl

  given-suc-none :
      (n d : ℕ) (e : E)
      → (epoll_create e).0 ≡ some d
      → given n (epoll_create e).1 ≡ none
      → given (suc n) e ≡ none
  given-suc-none n d e h g = rw (h, g) refl

  -- A turn of the loop that gets a descriptor.
  turn-Ends :
      (more d : ℕ) (front : List (Option ℕ)) (b : Option ℕ) (back : List (Option ℕ)) (e : E)
      (out : Outcome E)
      → (epoll_create e).0 ≡ some d
      → Ends more (front ++ some d ∷ []) back (epoll_create e).1 out
      → Ends (suc more) front (b ∷ back) e out
  turn-Ends more d front b back e out h (inl (same, k, low, low', fails)) =
      inl (same, suc k, omega arith, omega arith, given-suc-none k d e h fails)
  turn-Ends more d front b back e out h (inr (inl (same, small, fds, last, all))) =
      inr (inl (same, omega arith, d ∷ fds, last, given-suc (length back) d e h all))
  turn-Ends more d front b back e out h (inr (inr (fits, fds, last, all, same))) = inr (
      inr (
        omega arith,
        d ∷ fds,
        last,
        given-suc more d e h all,
        same
            ∙ ap (λ t. opens t last)
                (append_assoc front (some d ∷ []) (map (λ fd. some fd) fds ++ drop more back)),
      ))

  open_from-Ends :
      (more : ℕ) (front back : List (Option ℕ)) (e : E)
      → Ends more front back e (open_from epoll_create more (length front) (front ++ back) e)
  unfolding open_from after_create
  open_from-Ends zero front back e = inr (inr (omega arith, [], e, refl, refl))
  open_from-Ends (suc more) front [] e =
      let full : ltb (length front) (length (front ++ [])) ≡ false =
        ground (arith, length-append front []) in
      inr (inl (rw full refl, omega arith, [], e, refl))
  open_from-Ends (suc more) front (b ∷ back) e =
      let (fd, e') = epoll_create e in
      let room : ltb (length front) (length (front ++ b ∷ back)) ≡ true =
        ground (arith, length-append front (b ∷ back)) in
      elim (Option-cases (epoll_create e).0) [
        | inl fails ↦ inl (rw (room, fails) refl, 1, omega arith, omega arith, rw fails refl)
        | inr (d, gives) ↦
            let index : length front + 1 ≡ length (front ++ some d ∷ []) =
              sym (length-append front (some d ∷ [])) in
            let step : open_from epoll_create (suc more) (length front) (front ++ b ∷ back) e
                ≡ open_from epoll_create more (length (front ++ some d ∷ []))
                    ((front ++ some d ∷ []) ++ back) e' =
              rw
                (
                  room,
                  gives,
                  set-append front b back (some d),
                  index,
                  append_assoc front (some d ∷ []) back,
                )
                refl in
            subst (Ends (suc more) front (b ∷ back) e) (sym step) (
              turn-Ends more d front b back e _ gives
                (open_from-Ends more (front ++ some d ∷ []) back e'))
      ]

-- Where one 0 is read, the loop has ended.
wait_loops-append :
    (ns rest : List ℕ) → (later : List ℕ) × (wait_loops (ns ++ 0 ∷ rest) ≡ some later)
unfolding wait_loops
wait_loops-append [] rest = (rest, refl)
wait_loops-append (n ∷ ns) rest = elim (Bool-cases (n == 0)) [
  | inl stops ↦ (ns ++ 0 ∷ rest, rw stops refl)
  | inr waits ↦ let (later, e) = wait_loops-append ns rest in (later, rw waits e)
]

close_epfds_lem :
    (epfds : List (Option ℕ)) → close_epfds epfds ≡ (opened epfds, replicate (length epfds) none)
unfolding close_epfds
close_epfds_lem [] = refl
close_epfds_lem (none ∷ epfds) = rw (close_epfds_lem epfds) refl
close_epfds_lem (some fd ∷ epfds) = rw (close_epfds_lem epfds) refl

opened-append : (xs ys : List (Option ℕ)) → opened (xs ++ ys) ≡ opened xs ++ opened ys
opened-append [] ys = refl
opened-append (none ∷ xs) ys = opened-append xs ys
opened-append (some fd ∷ xs) ys = ap (λ t. fd ∷ t) (opened-append xs ys)

opened-replicate : (n : ℕ) → opened (replicate n none) ≡ []
opened-replicate zero = refl
opened-replicate (suc n) = opened-replicate n

drop-replicate : (n m : ℕ) → (k : ℕ) × (drop n (replicate {A = Option ℕ} m none) ≡ replicate k none)
drop-replicate zero m = (m, refl)
drop-replicate (suc n) zero = (zero, refl)
drop-replicate (suc n) (suc m) = drop-replicate n m

wait_stop-close_epfds :
    (ns rest : List ℕ) (epfds : List (Option ℕ))
    → wait_stop (ns ++ 0 ∷ rest) epfds ≡ some (opened epfds, replicate (length epfds) none)
unfolding wait_stop
wait_stop-close_epfds ns rest epfds =
    let (later, ended) = wait_loops-append ns rest in
    rw (wait_stop, ended, close_epfds_lem epfds) refl

-- The number of descriptors that the loops need.
abbrev pub loops : (worker_thrd_cnt : ℕ) → ℕ
loops worker_thrd_cnt = if ltb 0 worker_thrd_cnt then worker_thrd_cnt else 1

-- The array after the loop: the descriptors, and -1 in the places that are left.
opened-epfds :
    (fds : List ℕ) (n m : ℕ) → opened (map (λ fd. some fd) fds ++ drop n (replicate m none)) ≡ fds
opened-epfds [] n m = let (k, left) = drop-replicate n m in ap opened left ∙ opened-replicate k
opened-epfds (fd ∷ fds) n m = ap (λ t. fd ∷ t) (opened-epfds fds n m)

length-map : (fds : List ℕ) → length (map (λ fd. some fd) fds) ≡ length fds
length-map [] = refl
length-map (fd ∷ fds) = ap suc (length-map fds)

abbrev HasLength : {E : Type 0} → ℕ → Option (List ℕ × E) → Type 0
HasLength n none = Unit
HasLength n (some (fds, last)) = length fds ≡ n

and_given-HasLength :
    {E : Type 0} (n : ℕ) (fd : Option ℕ) (o : Option (List ℕ × E))
    → HasLength n o
    → HasLength (suc n) (and_given fd o)
and_given-HasLength n none o h = tt
and_given-HasLength n (some fd) none h = tt
and_given-HasLength n (some fd) (some (fds, last)) h = ap suc h

given-HasLength :
    {E : Type 0} (epoll_create : E → Option ℕ × E) (n : ℕ) (e : E)
    → HasLength n (given epoll_create n e)
given-HasLength epoll_create zero e = refl
given-HasLength epoll_create (suc n) e =
    let (fd, e') = epoll_create e in and_given-HasLength n fd _ (given-HasLength epoll_create n e')

-- On an array of -1 of some size, `init_event_fds` ends in one of three ways. It aborts, if epoll_create()
-- fails in one of the calls for the places that the array has. It makes an access behind the end of
-- the array, if there are more worker threads than places (or no place at all) and the calls for all
-- the places have given descriptors. Or it returns, if there are enough places and all calls have
-- given descriptors; then `wait_stop`, once it has read 0 loops, closes exactly these, in their order,
-- each once, and leaves an array of -1.
pub init_event_fds-wait_stop :
    {E : Type 0}
    → (epoll_create : E → Option ℕ × E) (cnt size : ℕ) (e : E) (ns rest : List ℕ)
    → let out = init_event_fds epoll_create cnt (replicate size none) e in
      ((out ≡ aborts) × (k : ℕ) × (k ≤ loops cnt) × (k ≤ size) × (given epoll_create k e ≡ none))
      ⊎ (((out ≡ overruns)
            × (size < loops cnt)
            × (fds : List ℕ) × (e' : E) × (given epoll_create size e ≡ some (fds, e')))
          ⊎ ((loops cnt ≤ size)
              × (fds : List ℕ) × (e' : E) × (given epoll_create (loops cnt) e ≡ some (fds, e'))
              × (epfds : List (Option ℕ)) × (out ≡ opens epfds e')
              × (wait_stop (ns ++ 0 ∷ rest) epfds ≡ some (fds, replicate size none))))
unfolding init_event_fds
init_event_fds-wait_stop epoll_create cnt size e ns rest =
    let n = loops cnt in
    let wide : length (replicate {A = Option ℕ} size none) ≡ size = length-replicate size none in
    elim (open_from-Ends epoll_create n [] (replicate size none) e) [
      | inl (ends, k, low, low', fails) ↦ inl (ends, k, low, omega (arith, low', wide), fails)
      | inr (inl (ends, small, fds, last, all)) ↦ inr (
          inl (
            ends,
            omega (arith, small, wide),
            fds,
            last,
            ap (λ k. given epoll_create k e) (sym wide) ∙ all,
          ))
      | inr (inr (fits, fds, last, all, ends)) ↦
          let epfds = map (λ fd. some fd) fds ++ drop n (replicate size none) in
          let many : length fds ≡ n = subst (HasLength n) all (given-HasLength epoll_create n e) in
          let kept : length epfds ≡ size =
            length-append (map (λ fd. some fd) fds) (drop n (replicate size none))
            ∙ omega (
              arith,
              many,
              length-map fds,
              length-drop n (replicate {A = Option ℕ} size none),
              wide,
              fits,
            ) in
          inr (
            inr (
              omega (arith, fits, wide),
              fds,
              last,
              all,
              epfds,
              ends,
              wait_stop-close_epfds ns rest epfds ∙ rw (opened-epfds fds n size, kept) refl,
            ))
    ]
