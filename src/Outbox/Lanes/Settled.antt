-- ===== src/Outbox/Lanes/Settled.antt =====
-- What a flush of a lane leaves behind: client/src/lib/outbox.ts.
use coachman.Common.{
  ℕ, zero, suc, ◌≤◌, Bool, true, false, not, ◌&&◌, eqb, ltb, Bool-cases, is_some, ◌≡◌, refl, ◌⊎◌,
  inl, inr, arith,
}
use coachman.Outbox.{OutboxItem}
use coachman.Outbox.State.{Queue}
use coachman.Outbox.Send.{Attempt}
use coachman.Outbox.Lanes.{
  LaneName, Lane, FlushRound, schedule_lane_retry, is_empty, lane_items, mark_waiting, flush_lane,
  end_of_round, after_pass, flush_rounds, flush_lane_queue,
}
use coachman.Outbox.Lanes.Backoff.{schedule_lane_retry-armed}
use coachman.Store.{Database}

module _ (db : Database) (name : LaneName) where
  -- The lane has no item left that is not parked, or its retry timer is set, or `least` items and
  -- more were sent.
  pub IsSettled : ℕ → ℕ × Lane × Queue db → Type 0
  IsSettled least out =
      (is_empty db (lane_items db name out.2) ≡ true)
      ⊎ ((is_some out.1.retry_timer ≡ true) ⊎ (least ≤ out.0))

  end_of_round-IsSettled :
      (b e n : Bool) (now : ℕ) (lane : Lane) (r : FlushRound db)
      (again : Queue db → ℕ × Lane × Queue db) (guard : ℕ)
      → is_empty db (lane_items db name r.queue) ≡ e
      → eqb r.sent_count 0 ≡ n
      → IsSettled guard (again r.queue)
      → IsSettled (suc guard) (end_of_round db b e n now lane r again)
  unfolding IsSettled end_of_round schedule_lane_retry
  end_of_round-IsSettled true e n now lane r again guard left none h =
      inr (inl (schedule_lane_retry-armed now lane))
  end_of_round-IsSettled false true n now lane r again guard left none h = inl left
  end_of_round-IsSettled false false true now lane r again guard left none h =
      inr (inl (schedule_lane_retry-armed now lane))
  end_of_round-IsSettled false false false now lane r again guard left none (inl empty) = inl empty
  end_of_round-IsSettled false false false now lane r again guard left none (inr (inl timer)) =
      inr (inl timer)
  end_of_round-IsSettled false false false now lane r again guard left none (inr (inr more)) =
      inr (inr (ground arith))

  module _ (now : ℕ → ℕ) (attempt : ℕ → OutboxItem → Attempt) where
    flush_rounds-IsSettled :
        (guard : ℕ) (lane : Lane) (q : Queue db)
        → IsSettled guard (flush_rounds db now attempt name guard lane q)
    unfolding IsSettled flush_rounds after_pass
    flush_rounds-IsSettled zero lane q = inr (inr (omega arith))
    flush_rounds-IsSettled (suc guard) lane q =
        elim (Bool-cases (is_empty db (lane_items db name q))) [
          | inl e ↦ rw (e, flush_rounds) (inl e)
          | inr e ↦
              let r =
                flush_lane db (now guard) (attempt guard) (lane_items db name q)
                  (mark_waiting db name q) in
              rw (e, flush_rounds)
                (end_of_round-IsSettled r.blocked _ _ (now guard) lane r
                  (flush_rounds db now attempt name guard lane) guard refl refl
                  (flush_rounds-IsSettled guard lane r.queue))
        ]

    -- A flush strands no item: when it ends the lane has no item left that is not parked, or its retry
    -- timer is set, or forty items and more were sent. The flush is forced or the lane not cooling down.
    pub flush_lane_queue-IsSettled :
        (force : Bool) (start : ℕ) (lane : Lane) (q : Queue db)
        → (not force && ltb start lane.cooldown_until) ≡ false
        → IsSettled 40 (flush_lane_queue db now attempt name force start lane q)
    unfolding flush_lane_queue
    flush_lane_queue-IsSettled force start lane q warm = rw warm (flush_rounds-IsSettled 40 lane q)
