-- ===== src/Media/Hydrate/Invariant.antt =====
-- What holds of the queue of client/src/lib/media-hydrate.ts after every sequence of events.
use coachman.Common.{
  ℕ, zero, suc, ◌+◌, ◌-◌, ◌≤◌, ◌<◌, String, Bool, true, false, Option, none, some, List, [], ◌∷◌,
  ◌++◌, length, length-append, get_elem?, lookup, lookup-remove, ltb, if◌then◌else◌, Bool-cases,
  eq_iff, ◌==◌, ◌≡◌, refl, inl, inr, arith,
}
use coachman.Message.{StoredMessage}
use coachman.Media.Hydrate.{
  Job, Hydrator, concurrency, idle, start_job, pump_jobs, pump, dedupe_key, enqueue_job,
  enqueue_key, enqueue_media_hydrate, is_missing, Answer, Event, called, settles, forgets, frees,
  settle_job, forget_job, free_worker, step, run,
}
use coachman.Media.Hydrate.Keys.{
  count, held, held-le, count-append, count-remove_at, length-remove_at,
}

-- A pump of `jobs` moves jobs from the front of the queue to the workers, and changes nothing else
-- that is counted.
pub record IsPumped (jobs : List Job) (st r : Hydrator) : Type 0 where
  pub few : r.active ≤ concurrency
  pub workers : r.active + length st.running ≡ length r.running + st.active
  pub busy : 0 < length r.queue → r.active ≡ concurrency
  pub fewer : length r.queue ≤ length jobs
  pub kept : length r.queue + length r.running ≡ length jobs + length st.running
  pub keys : (k : String) → count k r.queue + count k r.running ≡ count k jobs + count k st.running
  pub to_free : r.to_free ≡ st.to_free
  pub to_forget : r.to_forget ≡ st.to_forget
  pub in_flight : r.in_flight ≡ st.in_flight

started :
    (job : Job) (jobs : List Job) (st r : Hydrator)
    → IsPumped jobs (start_job job st) r
    → IsPumped (job ∷ jobs) st r
unfolding start_job
started job jobs st r p = record {
  few = p.few;
  workers = omega (arith, p.workers, length-append {0} st.running (job ∷ []));
  busy = p.busy;
  fewer = omega (arith, p.fewer);
  kept = omega (arith, p.kept, length-append {0} st.running (job ∷ []));
  keys = λ k. ground (arith, p.keys k, count-append k st.running (job ∷ []));
  to_free = p.to_free;
  to_forget = p.to_forget;
  in_flight = p.in_flight;
}

pub pump_jobs-IsPumped :
    (jobs : List Job) (st : Hydrator)
    → st.active ≤ concurrency
    → IsPumped jobs st (pump_jobs jobs st)
unfolding pump_jobs
pump_jobs-IsPumped [] st h = record {
  few = h;
  workers = omega arith;
  busy = λ n. absurd (omega arith);
  fewer = omega arith;
  kept = omega arith;
  keys = λ k. omega arith;
  to_free = refl;
  to_forget = refl;
  in_flight = refl;
}
pump_jobs-IsPumped (job ∷ jobs) st h = elim (Bool-cases (ltb st.active concurrency)) [
  | inr full ↦ rw full (record {
    few = h;
    workers = omega arith;
    busy = λ n. ground arith;
    fewer = omega arith;
    kept = omega arith;
    keys = λ k. omega arith;
    to_free = refl;
    to_forget = refl;
    in_flight = refl;
  })
  | inl free ↦
      rw free (started job jobs st _ (pump_jobs-IsPumped jobs (start_job job st) (room free)))
]
  where
    room : ltb st.active concurrency ≡ true → (start_job job st).active ≤ concurrency
    room free = ground arith

-- No more jobs run than there are workers, no worker idles while a job waits, and each key in flight
-- belongs to exactly one job that waits, runs or has just ended; no other key has a job.
pub record IsConsistent (st : Hydrator) : Type 0 where
  pub few : st.active ≤ concurrency
  pub workers : st.active ≡ length st.running + st.to_free
  pub busy : 0 < length st.queue → st.active ≡ concurrency
  pub once :
      (k : String)
      → count k st.queue + count k st.running + count k st.to_forget ≡ held (lookup k st.in_flight)

idle-IsConsistent : IsConsistent idle
unfolding lookup
idle-IsConsistent = record {
  few = omega arith;
  workers = omega arith;
  busy = λ h. absurd (omega arith);
  once = λ k. refl;
}

-- A pump restores that no worker idles.
pumped :
    (st : Hydrator)
    → st.active ≤ concurrency
    → st.active ≡ length st.running + st.to_free
    → ((k : String)
        → count k st.queue + count k st.running + count k st.to_forget
          ≡ held (lookup k st.in_flight))
    → IsConsistent (pump st)
unfolding pump
pumped st few workers once =
    let p = pump_jobs-IsPumped st.queue st few in
    record {
      few = p.few;
      workers = omega (arith, p.workers, p.to_free);
      busy = p.busy;
      once = λ k. rw (p.to_forget, p.in_flight) (omega (arith, p.keys k, once k));
    }

enqueue_job-IsConsistent :
    (msg : StoredMessage) (st : Hydrator)
    → lookup (dedupe_key msg) st.in_flight ≡ none
    → IsConsistent st
    → IsConsistent (enqueue_job msg st)
unfolding enqueue_job pump lookup
enqueue_job-IsConsistent msg st absent c =
    let job : Job = record { msg = msg; key = dedupe_key msg; promise = st.promises } in
    let p = pump_jobs-IsPumped (st.queue ++ (job ∷ [])) _ c.few in
    record {
      few = p.few;
      workers = omega (arith, p.workers, p.to_free, c.workers);
      busy = p.busy;
      once = λ k.
          rw (p.to_forget, p.in_flight)
            (let moved = p.keys k in
              let counted = count-append k st.queue (job ∷ []) in
              let before = c.once k in
              elim (Bool-cases (dedupe_key msg == k)) [
                | inr other ↦ rw other (let counted' = rw other at counted in omega arith)
                | inl same ↦
                    let fresh = rw ((eq_iff (dedupe_key msg) k).0 same) at absent in
                    let before' = rw fresh at before in
                    rw same (let counted' = rw same at counted in omega arith)
              ]);
    }

settle_job-IsConsistent :
    (i : ℕ) (o : Option Job) (st : Hydrator)
    → get_elem? st.running i ≡ o
    → IsConsistent st
    → IsConsistent (settle_job i o st)
unfolding settle_job
settle_job-IsConsistent i none st e c = c
settle_job-IsConsistent i (some job) st e c = record {
  few = c.few;
  workers = omega (arith, c.workers, length-remove_at i st.running e);
  busy = c.busy;
  once = λ k.
      omega
        (arith, c.once k, count-remove_at k i st.running e, count-append k st.to_forget (job ∷ []));
}

forget_job-IsConsistent :
    (i : ℕ) (o : Option Job) (st : Hydrator)
    → get_elem? st.to_forget i ≡ o
    → IsConsistent st
    → IsConsistent (forget_job i o st)
unfolding forget_job
forget_job-IsConsistent i none st e c = c
forget_job-IsConsistent i (some job) st e c = record {
  few = c.few;
  workers = c.workers;
  busy = c.busy;
  once = λ k. rw (lookup-remove job.key k st.in_flight) (
      let before = c.once k in
      let small = held-le (lookup k st.in_flight) in
      let removed = count-remove_at k i st.to_forget e in
      elim (Bool-cases (job.key == k)) [
        | inl same ↦ let removed' = rw same at removed in rw same (omega arith)
        | inr other ↦ let removed' = rw other at removed in rw other (omega arith)
      ]);
}

free_worker-IsConsistent :
    (n : ℕ) (st : Hydrator) → st.to_free ≡ n → IsConsistent st → IsConsistent (free_worker n st)
unfolding free_worker
free_worker-IsConsistent zero st e c = c
free_worker-IsConsistent (suc n) st e c =
    pumped (record st { active = st.active - 1; to_free = n }) (omega (arith, c.few))
      (omega (arith, c.workers)) c.once

enqueue_key-IsConsistent :
    (msg : StoredMessage) (st : Hydrator) (o : Option ℕ)
    → lookup (dedupe_key msg) st.in_flight ≡ o
    → IsConsistent st
    → IsConsistent (enqueue_key msg st o).1
unfolding enqueue_key
enqueue_key-IsConsistent msg st none e c = enqueue_job-IsConsistent msg st e c
enqueue_key-IsConsistent msg st (some promise) e c = c

either_IsConsistent :
    (b : Bool) (x y : Answer × Hydrator)
    → IsConsistent x.1
    → IsConsistent y.1
    → IsConsistent (if b then x else y).1
either_IsConsistent true x y c d = c
either_IsConsistent false x y c d = d

pub step-IsConsistent :
    (event : Event) (st : Hydrator) → IsConsistent st → IsConsistent (step event st)
unfolding step enqueue_media_hydrate
step-IsConsistent (called msg) st c =
    either_IsConsistent (is_missing msg) _ _ (enqueue_key-IsConsistent msg st _ refl c) c
step-IsConsistent (settles i) st c = settle_job-IsConsistent i _ st refl c
step-IsConsistent (forgets i) st c = forget_job-IsConsistent i _ st refl c
step-IsConsistent frees st c = free_worker-IsConsistent _ st refl c

pub run-keeps :
    (events : List Event) (st : Hydrator) → IsConsistent st → IsConsistent (run events st)
unfolding run
run-keeps [] st c = c
run-keeps (event ∷ events) st c = run-keeps events (step event st) (step-IsConsistent event st c)

-- After any sequence of calls, settled downloads and their callbacks, at most two jobs run, no worker
-- is free while a job waits, and no two jobs are for the same media: a key is in flight exactly if one
-- job for it waits, runs or has just ended.
pub run-IsConsistent : (events : List Event) → IsConsistent (run events idle)
run-IsConsistent events = run-keeps events idle idle-IsConsistent
