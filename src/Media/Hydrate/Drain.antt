-- ===== src/Media/Hydrate/Drain.antt =====
-- Every download of client/src/lib/media-hydrate.ts ends, if its requests do.
use coachman.Common.{
  ℕ, zero, suc, ◌+◌, ◌*◌, ◌-◌, ◌≤◌, ◌<◌, String, none, some, List, [], ◌∷◌, length, length-append,
  get_elem?, lookup, ◌≡◌, refl, arith,
}
use coachman.Media.Hydrate.{
  Job, Hydrator, idle, pump, Event, called, settles, forgets, frees, settle_job, forget_job,
  free_worker, step, run,
}
use coachman.Media.Hydrate.Keys.{count-le, held-none, length-remove_at}
use coachman.Media.Hydrate.Invariant.{
  pump_jobs-IsPumped, IsConsistent, step-IsConsistent, run-keeps, run-IsConsistent,
}

-- Whether the event is one that can happen, and is no new call.
abbrev pub Enabled : Event → Hydrator → Type 0
Enabled (called msg) st = ⊥
Enabled (settles i) st = i < length st.running
Enabled (forgets i) st = i < length st.to_forget
Enabled frees st = 0 < st.to_free

abbrev pub AllEnabled : List Event → Hydrator → Type 0
AllEnabled [] st = Unit
AllEnabled (event ∷ events) st = Enabled event st × AllEnabled events (step event st)

-- No request is open and no callback waits.
abbrev pub IsQuiet : Hydrator → Type 0
IsQuiet st = (length st.running ≡ 0) × (length st.to_forget ≡ 0) × (st.to_free ≡ 0)

-- How many events are left: each job takes four.
abbrev pub work : Hydrator → ℕ
work st = 4 * length st.queue + 3 * length st.running + length st.to_forget + st.to_free

get_elem?-lt : (xs : List Job) (i : ℕ) → i < length xs → (job : Job) × (get_elem? xs i ≡ some job)
get_elem?-lt [] i h = absurd (omega arith)
get_elem?-lt (x ∷ xs) zero h = (x, refl)
get_elem?-lt (x ∷ xs) (suc i) h = get_elem?-lt xs i (omega arith)

free_worker-work :
    (n : ℕ) (st : Hydrator)
    → st.to_free ≡ n
    → IsConsistent st
    → 0 < st.to_free
    → work (free_worker n st) + 1 ≤ work st
unfolding free_worker pump
free_worker-work zero st e c h = absurd (omega arith)
free_worker-work (suc n) st e c h =
    let p =
      pump_jobs-IsPumped st.queue (record st { active = st.active - 1; to_free = n })
        (omega (arith, c.few)) in
    rw p.to_forget (omega (arith, p.kept, p.fewer, p.to_free))

step-work :
    (event : Event) (st : Hydrator)
    → IsConsistent st
    → Enabled event st
    → work (step event st) + 1 ≤ work st
unfolding step settle_job forget_job
step-work (called msg) st c h = absurd h
step-work (settles i) st c h =
    let (job, e) = get_elem?-lt st.running i h in
    rw (e, settle_job)
      (omega (arith, length-remove_at i st.running e, length-append {0} st.to_forget (job ∷ [])))
step-work (forgets i) st c h =
    let (job, e) = get_elem?-lt st.to_forget i h in
    rw (e, forget_job) (omega (arith, length-remove_at i st.to_forget e))
step-work frees st c h = free_worker-work _ st refl c h

run-work :
    (events : List Event) (st : Hydrator)
    → IsConsistent st
    → AllEnabled events st
    → length events + work (run events st) ≤ work st
unfolding run
run-work [] st c h = omega arith
run-work (event ∷ events) st c (first, rest) =
    let later = run-work events (step event st) (step-IsConsistent event st c) rest in
    omega (arith, step-work event st c first)

-- Once nothing is left to happen, no job waits and no key is in flight.
quiet_done :
    (st : Hydrator)
    → IsConsistent st
    → IsQuiet st
    → (length st.queue ≡ 0) × ((key : String) → lookup key st.in_flight ≡ none)
quiet_done st c (running, to_forget, to_free) =
    let empty : length st.queue ≡ 0 = ground (arith, c.workers, c.busy) in
    (
      empty,
      λ key. held-none (lookup key st.in_flight) (
          omega (
            arith,
            c.once key,
            count-le key st.queue,
            count-le key st.running,
            count-le key st.to_forget,
          )),
    )

-- After any past, when no new download is asked for, every order of settled requests and callbacks
-- ends within a number of events that the state bounds, four for each job that waits; and when none is
-- left, nothing waits and every promise has been settled.
pub run_settles :
    (past events : List Event)
    → AllEnabled events (run past idle)
    → (length events ≤ work (run past idle))
      × (IsQuiet (run events (run past idle))
          → (length (run events (run past idle)).queue ≡ 0)
            × ((key : String) → lookup key (run events (run past idle)).in_flight ≡ none))
run_settles past events enabled =
    let c = run-IsConsistent past in
    (
      omega (arith, run-work events (run past idle) c enabled),
      quiet_done (run events (run past idle)) (run-keeps events (run past idle) c),
    )
