-- ===== src/TimeJob/Walk.antt =====
-- What `time_job_walk` (netpool/src/CJobTime.cpp) does to the timers, whatever their callbacks do.
use netpool.Base.{
  ◌%◌, if◌then◌else◌, subst, leb, ℕ, zero, suc, ◌+◌, ◌^◌, ◌<◌, ◌≡◌, refl, sym, ap, ◌∙◌, false, some,
  List, [], ◌∷◌, ◌++◌, append-nil, append_assoc, arith, length, length-append, All, All-append,
  if_cases,
}
use netpool.TimeJob.{TimeJob, is_expired, update_expired_time, kept, doit, walk, time_job_walk}

abbrev pub Waits : (nowtime : ℕ) → TimeJob → Type 0
Waits nowtime j = is_expired j nowtime ≡ false

-- The jobs that are left of a list.
abbrev pub survivors : (nowtime : ℕ) → List TimeJob → List TimeJob
survivors nowtime [] = []
survivors nowtime (j ∷ js) = kept nowtime j ++ survivors nowtime js

kept_waiting : (nowtime : ℕ) (j : TimeJob) → Waits nowtime j → kept nowtime j ≡ j ∷ []
unfolding kept
kept_waiting nowtime j w = ground arith

module _ {S : Type 0} (callback : TimeJob → S → List TimeJob × S) (nowtime : ℕ) where
  -- The callbacks of the expired jobs of a list, once each and in order: what they add, and the state.
  abbrev pub fire : List TimeJob → S → List TimeJob × S
  fire [] s = ([], s)
  fire (j ∷ js) s =
      let (added, s') = doit callback nowtime j s in
      let (more, s'') = fire js s' in (added ++ more, s'')

  doit_waiting : (j : TimeJob) (s : S) → Waits nowtime j → doit callback nowtime j s ≡ ([], s)
  unfolding doit
  doit_waiting j s w = ground arith

  abbrev pub Later : Type 0
  Later = (j : TimeJob) (s : S) → All (Waits nowtime) (callback j s).0

  doit-Waits : Later → (j : TimeJob) (s : S) → All (Waits nowtime) (doit callback nowtime j s).0
  unfolding doit
  doit-Waits later j s =
      if_cases (λ (t : List TimeJob × S). All (Waits nowtime) t.0) (is_expired j nowtime)
        (λ _. later (update_expired_time j nowtime) s) (λ _. tt)

  -- A list in which nothing has expired is walked without a change.
  walk_waiting :
      (fuel : ℕ) (seen js : List TimeJob) (s : S)
      → length js < fuel
      → All (Waits nowtime) js
      → walk callback fuel nowtime seen js s ≡ some (seen ++ js, s)
  unfolding walk
  walk_waiting zero seen js s h v = absurd (omega arith)
  walk_waiting (suc fuel) seen [] s h v = cc (append-nil seen)
  walk_waiting (suc fuel) seen (j ∷ []) s h v =
      cc (doit_waiting j s v.0, kept_waiting nowtime j v.0, append-nil (seen ++ j ∷ []))
  walk_waiting (suc fuel) seen (j ∷ k ∷ js) s h v = cc (
    doit_waiting j s v.0,
    kept_waiting nowtime j v.0,
    append-nil js,
    walk_waiting fuel (seen ++ j ∷ []) (k ∷ js) s (omega arith) v.1,
    append_assoc seen (j ∷ []) (k ∷ js),
  )

  module _ (later : Later) where
    -- A round of the loop, whether it is the last or not.
    walk_round :
        (fuel : ℕ) (seen : List TimeJob) (j : TimeJob) (rest : List TimeJob) (s : S)
        → let (added, s') = doit callback nowtime j s in
          length rest + length added < fuel
          → walk callback (suc fuel) nowtime seen (j ∷ rest) s
            ≡ walk callback fuel nowtime (seen ++ kept nowtime j) (rest ++ added) s'
    unfolding walk
    walk_round fuel seen j [] s h =
        let added = (doit callback nowtime j s).0 in
        sym
          (walk_waiting fuel (seen ++ kept nowtime j) added _ (omega arith) (doit-Waits later j s))
    walk_round fuel seen j (k ∷ rest) s h = refl

    walk_fires :
        (fuel : ℕ) (seen js extra : List TimeJob) (s : S)
        → length js + length extra + length (fire js s).0 < fuel
        → All (Waits nowtime) extra
        → walk callback fuel nowtime seen (js ++ extra) s
          ≡ some (seen ++ (survivors nowtime js ++ (extra ++ (fire js s).0)), (fire js s).1)
    walk_fires fuel seen [] extra s h v =
        walk_waiting fuel seen extra s (omega arith) v ∙ cc (append-nil extra)
    walk_fires zero seen (j ∷ js) extra s h v = absurd (omega arith)
    walk_fires (suc fuel) seen (j ∷ js) extra s h v =
        let added = (doit callback nowtime j s).0 in
        let s' = (doit callback nowtime j s).1 in
        let more = (fire js s').0 in
        let size = length-append added more in
        let room = length-append js extra in
        let grown = length-append extra added in
        walk_round fuel seen j (js ++ extra) s (omega (arith, size, room, grown))
        ∙ ap (λ t. walk callback fuel nowtime (seen ++ kept nowtime j) t s')
            (append_assoc js extra added)
        ∙ walk_fires fuel (seen ++ kept nowtime j) js (extra ++ added) s'
            (omega (arith, size, room, grown))
            (All-append (Waits nowtime) extra added v (doit-Waits later j s))
        ∙ cc (
          append_assoc seen (kept nowtime j) (survivors nowtime js ++ ((extra ++ added) ++ more)),
          append_assoc (kept nowtime j) (survivors nowtime js) (extra ++ (added ++ more)),
          append_assoc extra added more,
        )

-- A job that has expired: it is gone if it comes once only, and else expires again an interval later.
abbrev pub rearmed : (nowtime : ℕ) → TimeJob → TimeJob
rearmed nowtime j = record j { expire_time = (nowtime + j.time_value) % 2 ^ 64 }

abbrev pub left_of : (nowtime : ℕ) → List TimeJob → List TimeJob
left_of nowtime [] = []
left_of nowtime (j ∷ js) =
    let rest = left_of nowtime js in
    if leb j.expire_time nowtime
    then if j.is_once then rest else rearmed nowtime j ∷ rest
    else j ∷ rest

-- The callbacks of the expired jobs, once each and in order: what they add, and the state.
abbrev pub calls :
    {S : Type 0}
    → (TimeJob → S → List TimeJob × S)
    → (nowtime : ℕ) → List TimeJob
    → S
    → List TimeJob × S
calls callback nowtime [] s = ([], s)
calls callback nowtime (j ∷ js) s =
    let (added, s') = callback (rearmed nowtime j) s in
    let (more, s'') = calls callback nowtime js s' in
    let rest = calls callback nowtime js s in
    if leb j.expire_time nowtime then (added ++ more, s'') else rest

survivors_lem : (nowtime : ℕ) (jobs : List TimeJob) → survivors nowtime jobs ≡ left_of nowtime jobs
unfolding kept is_expired update_expired_time
survivors_lem nowtime [] = refl
survivors_lem nowtime (j ∷ js) = ground (arith, survivors_lem nowtime js)

fire_lem :
    {S : Type 0} (callback : TimeJob → S → List TimeJob × S) (nowtime : ℕ) (jobs : List TimeJob)
    (s : S)
    → fire callback nowtime jobs s ≡ calls callback nowtime jobs s
unfolding doit is_expired update_expired_time
fire_lem callback nowtime [] s = refl
fire_lem callback nowtime (j ∷ js) s = ground (
  arith,
  fire_lem callback nowtime js s,
  fire_lem callback nowtime js (callback (rearmed nowtime j) s).1,
)

-- If every job that a callback adds expires after the time of the walk, and the fuel is more than the
-- number of jobs and of jobs added, then `time_job_walk` ends; it has called the callbacks of the
-- expired jobs once each and in order, has taken out those that are once only and set the others
-- anew, has left the jobs that wait as they were, and the added jobs stand at the end of the list.
pub time_job_walk-fires :
    {S : Type 0} (callback : TimeJob → S → List TimeJob × S) (nowtime fuel : ℕ)
    (jobs : List TimeJob) (s : S)
    → Later callback nowtime
    → length jobs + length (calls callback nowtime jobs s).0 < fuel
    → let (added, s') = calls callback nowtime jobs s in
      time_job_walk callback fuel nowtime jobs s ≡ some (left_of nowtime jobs ++ added, s')
unfolding time_job_walk
time_job_walk-fires {S} callback nowtime fuel jobs s later h =
    let called = fire_lem callback nowtime jobs s in
    ap (λ t. walk callback fuel nowtime [] t s) (sym (append-nil jobs))
    ∙ walk_fires callback nowtime later fuel [] jobs [] s
        (omega (arith, ap (λ (t : List TimeJob × S). length t.0) called)) tt
    ∙ cc (survivors_lem nowtime jobs, called)

kept-Waits :
    (nowtime : ℕ) (j : TimeJob)
    → 0 < j.time_value
    → nowtime + j.time_value < 2 ^ 64
    → All (Waits nowtime) (kept nowtime j)
unfolding kept is_expired update_expired_time
kept-Waits nowtime j h h' =
    if_cases (All (Waits nowtime)) (is_expired j nowtime)
      (λ _. if_cases (All (Waits nowtime)) j.is_once (λ _. tt) (λ _. (ground arith, tt)))
      (λ waits. (waits, tt))

survivors-Waits :
    (nowtime : ℕ) (jobs : List TimeJob)
    → All (λ j. (0 < j.time_value) × (nowtime + j.time_value < 2 ^ 64)) jobs
    → All (Waits nowtime) (survivors nowtime jobs)
survivors-Waits nowtime [] v = tt
survivors-Waits nowtime (j ∷ js) v =
    All-append (Waits nowtime) (kept nowtime j) _ (kept-Waits nowtime j v.0.0 v.0.1)
      (survivors-Waits nowtime js v.1)

fire-Waits :
    {S : Type 0} (callback : TimeJob → S → List TimeJob × S) (nowtime : ℕ)
    → Later callback nowtime
    → (jobs : List TimeJob) (s : S) → All (Waits nowtime) (fire callback nowtime jobs s).0
fire-Waits callback nowtime later [] s = tt
fire-Waits callback nowtime later (j ∷ js) s =
    All-append (Waits nowtime) (doit callback nowtime j s).0 _
      (doit-Waits callback nowtime later j s) (fire-Waits callback nowtime later js _)

-- Where every interval is positive and does not carry the time past 2^64, and every job that a callback
-- adds expires after the time of the walk, no job of the list that a `time_job_walk` with enough fuel
-- leaves is expired at that time.
pub time_job_walk-rests :
    {S : Type 0} (callback : TimeJob → S → List TimeJob × S) (nowtime fuel : ℕ)
    (jobs : List TimeJob) (s : S)
    → Later callback nowtime
    → length jobs + length (calls callback nowtime jobs s).0 < fuel
    → All (λ j. (0 < j.time_value) × (nowtime + j.time_value < 2 ^ 64)) jobs
    → (jobs' : List TimeJob) × (s' : S) × (time_job_walk callback fuel nowtime jobs s
        ≡ some (jobs', s'))
      × All (Waits nowtime) jobs'
time_job_walk-rests {S} callback nowtime fuel jobs s later h v = (
  _,
  _,
  time_job_walk-fires callback nowtime fuel jobs s later h,
  All-append (Waits nowtime) (left_of nowtime jobs) _
      (subst (All (Waits nowtime)) (survivors_lem nowtime jobs) (survivors-Waits nowtime jobs v))
      (subst (λ (t : List TimeJob × S). All (Waits nowtime) t.0) (fire_lem callback nowtime jobs s)
        (fire-Waits callback nowtime later jobs s)),
)
