-- ===== src/Outbox/Lanes/Backoff.antt =====
-- The waits of a lane: its cooldown and its retry timer, client/src/lib/outbox.ts.
use native.Mathlib.Nat.{pow-le-pow_right}
use coachman.Common.{
  ℕ, zero, suc, ◌≤◌, ◌+◌, ◌^◌, min, Bool, true, false, ◌&&◌, not, ltb, Option, none, some, is_some,
  Bool-cases, ◌≡◌, refl, ◌⊎◌, inl, inr, arith,
}
use coachman.Outbox.{OutboxItem}
use coachman.Outbox.State.{Queue}
use coachman.Outbox.Send.{Attempt}
use coachman.Outbox.Lanes.{
  LaneName, Lane, FlushRound, retry_delay, pending_or, schedule_lane_retry, retry_timer_fires,
  rested, woken, is_empty, lane_items, mark_waiting, flush_lane, end_of_round, after_pass,
  flush_rounds, flush_lane_queue,
}
use coachman.Store.{Database}

pow_two_mono : (i j : ℕ) → i ≤ j → 2 ^ i ≤ 2 ^ j
pow_two_mono i j h = pow-le-pow_right (omega arith) h

pending_or-armed : (t : ℕ) (o : Option ℕ) → is_some (pending_or t o) ≡ true
pending_or-armed t none = refl
pending_or-armed t (some earlier) = refl

pub schedule_lane_retry-armed :
    (now : ℕ) (lane : Lane) → is_some (schedule_lane_retry now lane).retry_timer ≡ true
unfolding schedule_lane_retry
schedule_lane_retry-armed now lane =
    pending_or-armed (now + retry_delay lane.retry_attempt) lane.retry_timer

-- The cooldown of a blocked lane is 3 to 48 seconds, and never less than at an earlier attempt.
schedule_lane_retry-bounds :
    (now : ℕ) (early late : Lane)
    → early.retry_attempt ≤ late.retry_attempt
    → (now + 3000 ≤ (schedule_lane_retry now early).cooldown_until)
      × ((schedule_lane_retry now early).cooldown_until
          ≤ (schedule_lane_retry now late).cooldown_until)
      × ((schedule_lane_retry now late).cooldown_until ≤ now + 48000)
unfolding schedule_lane_retry retry_delay
schedule_lane_retry-bounds now early late h =
    let least = pow_two_mono 0 (min early.retry_attempt 4) (omega arith) in
    let order = pow_two_mono (min early.retry_attempt 4) (min late.retry_attempt 4) (omega arith) in
    let most = pow_two_mono (min late.retry_attempt 4) 4 (omega arith) in
    (ground arith, ground arith, ground arith)

-- A lane that cools down has a timer, and neither waits for more than 48 seconds after `latest`.
pub record IsArmed (latest : ℕ) (lane : Lane) : Type 0 where
  pub armed : (lane.cooldown_until ≡ 0) ⊎ (is_some lane.retry_timer ≡ true)
  pub cooling : lane.cooldown_until ≤ latest + 48000
  pub soon : (t : ℕ) → lane.retry_timer ≡ some t → t ≤ latest + 48000

retry_delay-bound : (n : ℕ) → retry_delay n ≤ 48000
unfolding retry_delay
retry_delay-bound n = let most = pow_two_mono (min n 4) 4 (omega arith) in ground arith

pending_or-bound :
    (bound t : ℕ) (o : Option ℕ)
    → t ≤ bound
    → ((u : ℕ) → o ≡ some u → u ≤ bound)
    → (u : ℕ) → pending_or t o ≡ some u
    → u ≤ bound
pending_or-bound bound t none h old u e = ground arith
pending_or-bound bound t (some earlier) h old u e = old u e

schedule_lane_retry-IsArmed :
    (latest now : ℕ) (lane : Lane)
    → now ≤ latest
    → IsArmed latest lane
    → IsArmed latest (schedule_lane_retry now lane)
unfolding schedule_lane_retry
schedule_lane_retry-IsArmed latest now lane h a =
    let delay = retry_delay-bound lane.retry_attempt in
    record {
      armed = inr (pending_or-armed (now + retry_delay lane.retry_attempt) lane.retry_timer);
      cooling = omega arith;
      soon =
          pending_or-bound (latest + 48000) (now + retry_delay lane.retry_attempt) lane.retry_timer
            (omega arith) a.soon;
    }

rested-IsArmed : (latest : ℕ) (lane : Lane) → IsArmed latest lane → IsArmed latest (rested lane)
rested-IsArmed latest lane a = record { armed = inl refl; cooling = omega arith; soon = a.soon }

module _ (db : Database) (name : LaneName) (latest : ℕ) where
  end_of_round-IsArmed :
      (b e n : Bool) (now : ℕ) (lane : Lane) (r : FlushRound db)
      (again : Queue db → ℕ × Lane × Queue db)
      → now ≤ latest
      → IsArmed latest lane
      → IsArmed latest (again r.queue).1
      → IsArmed latest (end_of_round db b e n now lane r again).1
  unfolding end_of_round
  end_of_round-IsArmed true e n now lane r again h a k =
      schedule_lane_retry-IsArmed latest now lane h a
  end_of_round-IsArmed false true n now lane r again h a k = rested-IsArmed latest lane a
  end_of_round-IsArmed false false true now lane r again h a k =
      schedule_lane_retry-IsArmed latest now lane h a
  end_of_round-IsArmed false false false now lane r again h a k = k

  module _ (now : ℕ → ℕ) (attempt : ℕ → OutboxItem → Attempt)
      (past : (round : ℕ) → now round ≤ latest) where
    flush_rounds-IsArmed :
        (guard : ℕ) (lane : Lane) (q : Queue db)
        → IsArmed latest lane
        → IsArmed latest (flush_rounds db now attempt name guard lane q).1
    unfolding flush_rounds after_pass
    flush_rounds-IsArmed zero lane q a = a
    flush_rounds-IsArmed (suc guard) lane q a =
        elim (Bool-cases (is_empty db (lane_items db name q))) [
          | inl e ↦ rw (e, flush_rounds) (rested-IsArmed latest lane a)
          | inr e ↦
              let r =
                flush_lane db (now guard) (attempt guard) (lane_items db name q)
                  (mark_waiting db name q) in
              rw (e, flush_rounds)
                (end_of_round-IsArmed r.blocked _ _ (now guard) lane r
                  (flush_rounds db now attempt name guard lane) (past guard) a
                  (flush_rounds-IsArmed guard lane r.queue a))
        ]

    flush_lane_queue-IsArmed :
        (force : Bool) (start : ℕ) (lane : Lane) (q : Queue db)
        → IsArmed latest lane
        → IsArmed latest (flush_lane_queue db now attempt name force start lane q).1
    unfolding flush_lane_queue
    flush_lane_queue-IsArmed force start lane q a =
        elim (Bool-cases (not force && ltb start lane.cooldown_until)) [
          | inl e ↦ rw e a
          | inr e ↦ rw e (flush_rounds-IsArmed 40 lane q a)
        ]

  -- How a lane comes about, up to the time `latest`: flushes with any queue, the callback of the
  -- timer, and new work.
  pub data Reached : Lane → Type 0 where
    fresh : Reached (record { retry_attempt = 0; cooldown_until = 0; retry_timer = none })
    flushes :
        (now : ℕ → ℕ) (attempt : ℕ → OutboxItem → Attempt) (force : Bool) (start : ℕ) (lane : Lane)
        (q : Queue db)
        → ((round : ℕ) → now round ≤ latest)
        → Reached lane
        → Reached (flush_lane_queue db now attempt name force start lane q).1
    fires : (lane : Lane) → Reached lane → Reached (retry_timer_fires lane)
    wakes : (lane : Lane) → Reached lane → Reached (woken lane)

  -- A lane never waits in vain: whatever flushes, timers and new work have come so far, a lane that
  -- cools down has a retry timer pending. Neither its cooldown nor its timer ends later than 48
  -- seconds after the latest of the times at which its flushes ran.
  pub Reached-IsArmed : (lane : Lane) → Reached lane → IsArmed latest lane
  Reached-IsArmed _ fresh = record { armed = inl refl; cooling = omega arith; soon = λ t e. cc }
  Reached-IsArmed _ (flushes now attempt force start lane q past r) =
      flush_lane_queue-IsArmed now attempt past force start lane q (Reached-IsArmed lane r)
  Reached-IsArmed _ (fires lane r) = record {
    armed = inl refl;
    cooling = omega arith;
    soon = λ t e. cc;
  }
  Reached-IsArmed _ (wakes lane r) = record {
    armed = inl refl;
    cooling = omega arith;
    soon = λ t e. cc;
  }
