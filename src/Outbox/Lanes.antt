-- ===== src/Outbox/Lanes.antt =====
-- The two lanes of the send queue: `flushLane`, `scheduleLaneRetry` and `flushLaneQueue` of
-- client/src/lib/outbox.ts. The retry timer of a lane is the time at which it fires; its callback
-- is `retry_timer_fires`.
pub mod Backoff
pub mod Kept
pub mod Settled
use coachman.Common.{
  ℕ, zero, suc, ◌+◌, ◌*◌, ◌^◌, min, Bool, true, false, Option, none, some, ◌&&◌, not, List, [], ◌∷◌,
  filter, length, eqb, ltb, if◌then◌else◌,
}
use coachman.Outbox.{OutboxItem, is_media, is_active}
use coachman.Outbox.State.{Queue, QueueEvent, flushed, mark_image_queue}
use coachman.Outbox.Send.{Attempt, SendAttempt, sent, retryable, dropped, try_send_item}
use coachman.Store.{Database, Local}
use coachman.Store.Messages.{sort_items, get_outbox_items}

pub data LaneName : Type 0 where
  message_lane image_lane : LaneName

unfoldable pub in_lane : LaneName → OutboxItem → Bool
in_lane message_lane item = not (is_media item.kind)
in_lane image_lane item = is_media item.kind

-- The variables of one lane.
pub record Lane : Type 0 where
  pub retry_attempt : ℕ
  pub cooldown_until : ℕ
  pub retry_timer : Option ℕ

unfoldable pub retry_delay : ℕ → ℕ
retry_delay retry_attempt = min 60000 (3000 * 2 ^ min retry_attempt 4)

-- A timer that is pending is kept.
abbrev pub pending_or : ℕ → Option ℕ → Option ℕ
pending_or fires_at none = some fires_at
pending_or fires_at (some earlier) = some earlier

unfoldable pub schedule_lane_retry : ℕ → Lane → Lane
unfolding retry_delay
schedule_lane_retry now lane = record {
  retry_attempt = lane.retry_attempt + 1;
  cooldown_until = now + retry_delay lane.retry_attempt;
  retry_timer = pending_or (now + retry_delay lane.retry_attempt) lane.retry_timer;
}

-- The start of the timer's callback, before it flushes the lane.
abbrev pub retry_timer_fires : Lane → Lane
retry_timer_fires lane = record lane { cooldown_until = 0; retry_timer = none }

-- An empty lane forgets its backoff.
abbrev pub rested : Lane → Lane
rested lane = record lane { retry_attempt = 0; cooldown_until = 0 }

-- `wakeOutbox` for one lane
abbrev pub woken : Lane → Lane
woken lane = record { retry_attempt = 0; cooldown_until = 0; retry_timer = none }

pub record FlushRound (db : Database) : Type 0 where
  pub sent_count : ℕ
  pub blocked : Bool
  pub queue : Queue db

module _ (db : Database) where
  -- The queue before an item is tried.
  abbrev pub before_item : List OutboxItem → OutboxItem → Queue db → Queue db
  before_item sorted item q =
      if is_media item.kind then mark_image_queue db sorted item.temp_message_id q else q

  -- What follows the outcome of an item; `rest` is the rest of the lane.
  pub after_item : SendAttempt × Queue db → (Queue db → FlushRound db) → FlushRound db
  after_item (sent, q) rest =
      let r = rest (record q { events = flushed ∷ q.events }) in
      record r { sent_count = r.sent_count + 1 }
  after_item (retryable, q) rest = record { sent_count = 0; blocked = true; queue = q }
  after_item (dropped, q) rest = rest q

  module _ (now : ℕ) (attempt : OutboxItem → Attempt) (sorted : List OutboxItem) where
    -- The loop of `flushLane` over the items that are left.
    unfoldable pub flush_items : List OutboxItem → Queue db → FlushRound db
    unfolding after_item
    flush_items [] q = record { sent_count = 0; blocked = false; queue = q }
    flush_items (item ∷ items) q =
        after_item (try_send_item db now (attempt item) item (before_item sorted item q))
          (flush_items items)

  unfoldable pub flush_lane :
      ℕ → (OutboxItem → Attempt) → List OutboxItem → Queue db → FlushRound db
  unfolding flush_items
  flush_lane now attempt items q = flush_items now attempt (sort_items items) (sort_items items) q

  -- The items of a lane that are not parked.
  abbrev pub lane_items : LaneName → Queue db → List OutboxItem
  lane_items lane q = filter (in_lane lane) (filter is_active (get_outbox_items db q.store))

  abbrev is_empty : List OutboxItem → Bool
  is_empty [] = true
  is_empty (item ∷ items) = false

  -- The end of a round of `flushLaneQueue`, by whether its pass was blocked, no item is left, and none
  -- was sent; `again` is the next round.
  end_of_round :
      (blocked nothing_left nothing_sent : Bool)
      → ℕ
      → Lane
      → FlushRound db
      → (Queue db → ℕ × Lane × Queue db)
      → ℕ × Lane × Queue db
  end_of_round true left none_sent now lane r again =
      (r.sent_count, schedule_lane_retry now lane, r.queue)
  end_of_round false true none_sent now lane r again = (r.sent_count, rested lane, r.queue)
  end_of_round false false true now lane r again =
      (r.sent_count, schedule_lane_retry now lane, r.queue)
  end_of_round false false false now lane r again =
      let (total, lane', q) = again r.queue in (r.sent_count + total, lane', q)

  after_pass :
      ℕ → LaneName → Lane → FlushRound db → (Queue db → ℕ × Lane × Queue db) → ℕ × Lane × Queue db
  unfolding end_of_round
  after_pass now name lane r again =
      end_of_round r.blocked (is_empty (lane_items name r.queue)) (eqb r.sent_count 0) now lane r
        again

  -- The marks of the waiting media, in the image lane.
  abbrev mark_waiting : LaneName → Queue db → Queue db
  mark_waiting message_lane q = q
  mark_waiting image_lane q = mark_image_queue db (lane_items image_lane q) "" q

  module _ (now : ℕ → ℕ) (attempt : ℕ → OutboxItem → Attempt) (name : LaneName) where
    -- At most `guard` rounds; the time and the answers of the server are those of the round.
    unfoldable pub flush_rounds : ℕ → Lane → Queue db → ℕ × Lane × Queue db
    unfolding after_pass flush_lane schedule_lane_retry
    flush_rounds zero lane q = (0, lane, q)
    flush_rounds (suc guard) lane q = elim (is_empty (lane_items name q)) [
      | true ↦ (0, rested lane, q)
      | false ↦
          after_pass (now guard) name lane
            (flush_lane (now guard) (attempt guard) (lane_items name q) (mark_waiting name q))
            (flush_rounds guard lane)
    ]

    unfoldable pub flush_lane_queue : Bool → ℕ → Lane → Queue db → ℕ × Lane × Queue db
    unfolding flush_rounds
    flush_lane_queue force start lane q =
        if not force && ltb start lane.cooldown_until then (0, lane, q) else flush_rounds 40 lane q
