-- ===== src/JobIo/Accept.antt =====
-- Which descriptors `CListenJob::read_evt_handle` (netpool/src/CJobIo.cpp) hands to the callback, and
-- why it ends.
use netpool.Base.{
  ℕ, ◌≡◌, ◌≢◌, refl, sym, ap, ◌⊎◌, inl, inr, Option, none, some, List, [], ◌∷◌, ◌++◌, arith,
  if◌then◌else◌, if_cases, ◌==◌,
}
use netpool.SocketWrap.{ebadf, eintr, eagain, other}
use netpool.JobIo.{AcceptResult, accepted, accept_failed, accept_loop}
use netpool.JobIo.Deliver.{last}

-- The descriptors of the answers; 0 is taken for a closed socket.
abbrev pub connections : List AcceptResult → List ℕ
connections [] = []
connections (accepted fd ∷ rs) = let rest = connections rs in if fd == 0 then rest else fd ∷ rest
connections (accept_failed e ∷ rs) = connections rs

-- Why the loop has ended: with the script, by the descriptor 0, or by an error other than EINTR.
abbrev pub Quits : Option AcceptResult → List AcceptResult → Type 0
Quits none rest = rest ≡ []
Quits (some (accepted fd)) rest = (fd ≡ 0) ⊎ (rest ≡ [])
Quits (some (accept_failed e)) rest = (e ≢ eintr) ⊎ (rest ≡ [])

abbrev pub Accepts : List AcceptResult → List ℕ × List AcceptResult → Type 0
Accepts rs (fds, rest) =
    (used : List AcceptResult) × (rs ≡ used ++ rest)
    × (fds ≡ connections used)
    × Quits (last used) rest

pub Quits-cons :
    (r : AcceptResult) (used rest : List AcceptResult)
    → (rest ≡ [] → Quits (some r) rest)
    → Quits (last used) rest
    → Quits (last (r ∷ used)) rest
Quits-cons r [] rest more q = more q
Quits-cons r (u ∷ used) rest more q = q

pub Accepts-Quits :
    (r : AcceptResult) (rs : List AcceptResult)
    → connections (r ∷ []) ≡ []
    → Quits (some r) rs
    → Accepts (r ∷ rs) ([], rs)
Accepts-Quits r rs e q = (r ∷ [], refl, sym e, q)

-- `CListenJob::read_evt_handle` hands each descriptor that accept() has returned to the callback, once and in
-- order, and ends only with the script, on the descriptor 0, or on an error other than EINTR.
pub accept_loop-Accepts : (rs : List AcceptResult) → Accepts rs (accept_loop rs)
unfolding accept_loop
accept_loop-Accepts [] = ([], refl, refl, refl)
accept_loop-Accepts (accepted fd ∷ rs) =
    let (used, split, fds, q) = accept_loop-Accepts rs in
    if_cases (Accepts (accepted fd ∷ rs)) (fd == 0)
      (λ z. Accepts-Quits (accepted fd) rs (ground arith) (inl (ground arith)))
      (λ n. (
        accepted fd ∷ used,
        ap (λ t. accepted fd ∷ t) split,
        ground (arith, fds),
        Quits-cons (accepted fd) used (accept_loop rs).1 inr q,
      ))
accept_loop-Accepts (accept_failed eintr ∷ rs) =
    let (used, split, fds, q) = accept_loop-Accepts rs in
    (
      accept_failed eintr ∷ used,
      ap (λ t. accept_failed eintr ∷ t) split,
      fds,
      Quits-cons (accept_failed eintr) used (accept_loop rs).1 inr q,
    )
accept_loop-Accepts (accept_failed eagain ∷ rs) = Accepts-Quits _ rs refl (inl (λ h. cc))
accept_loop-Accepts (accept_failed ebadf ∷ rs) = Accepts-Quits _ rs refl (inl (λ h. cc))
accept_loop-Accepts (accept_failed other ∷ rs) = Accepts-Quits _ rs refl (inl (λ h. cc))
