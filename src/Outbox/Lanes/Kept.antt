-- ===== src/Outbox/Lanes/Kept.antt =====
-- A flush that no server answers loses no user content: client/src/lib/outbox.ts.
use mathlib.Core.Option.{some-injective}
use coachman.Common.{
  ℕ, zero, suc, String, Bool, true, false, ◌&&◌, ◌||◌, not, some, List, [], ◌∷◌, present, truthy,
  ltb, All, All-filter, All-map, All-sort, All-of-In, if◌then◌else◌, Bool-cases, ◌==◌, eq_iff, ◌≡◌,
  refl, sym, ap, subst, ◌∙◌, inl, inr,
}
use coachman.Outbox.{OutboxItem, is_media, is_active, is_user_content}
use coachman.Outbox.State.{Queue, queued, mark_image_queue, show_progress}
use coachman.Outbox.Deliver.{has_bytes}
use coachman.Outbox.Send.{SendAttempt, sent, retryable, dropped, Attempt, try_send_item}
use coachman.Outbox.Lanes.{
  LaneName, message_lane, image_lane, in_lane, Lane, FlushRound, is_empty, lane_items, mark_waiting,
  before_item, after_item, flush_items, flush_lane, end_of_round, after_pass, flush_rounds,
  flush_lane_queue,
}
use coachman.Outbox.Safe.{try_send_item-Safe}
use coachman.Outbox.Safe.Failure.{payload, Queued, Safe, Queued-payload}
use coachman.Outbox.Safe.Others.{IsUnanswered, try_send_item-row}
use coachman.Store.{Database, Local}
use coachman.Store.Messages.{sort_items, get_outbox_items, normalize_outbox_item}

module _ (db : Database) where
  mark_image_queue-store :
      (items : List OutboxItem) (active : String) (q : Queue db)
      → (mark_image_queue db items active q).store ≡ q.store
  unfolding mark_image_queue show_progress
  mark_image_queue-store [] active q = refl
  mark_image_queue-store (i ∷ items) active q =
      mark_image_queue-store items active _
      ∙ of_skipped (
          not (is_media i.kind)
          || (present i.uploaded_image_id || (truthy active && i.temp_message_id == active)))
    where
      of_skipped :
          (b : Bool)
          → (if b then q else show_progress db i.temp_message_id 0 queued q).store ≡ q.store
      of_skipped true = refl
      of_skipped false = refl

  mark_waiting-store : (name : LaneName) (q : Queue db) → (mark_waiting db name q).store ≡ q.store
  mark_waiting-store message_lane q = refl
  mark_waiting-store image_lane q = mark_image_queue-store _ "" q

  before_item-store :
      (sorted : List OutboxItem) (i : OutboxItem) (q : Queue db)
      → (before_item db sorted i q).store ≡ q.store
  before_item-store sorted i q = elim (Bool-cases (is_media i.kind)) [
    | inl e ↦ rw e (mark_image_queue-store sorted i.temp_message_id q)
    | inr e ↦ rw e refl
  ]

  module _ (item : OutboxItem) (u : is_user_content item ≡ true)
      (b : is_media item.kind ≡ true → has_bytes item ≡ true) where
    -- An item under the id of this one is this one.
    Fits : OutboxItem → Type 0
    Fits a = (a.id == item.id) ≡ true → payload a ≡ payload item

    unsent :
        (a : OutboxItem) (attempt : Attempt) (r : SendAttempt × Queue db)
        → IsUnanswered attempt
        → Safe db a attempt r
        → Queued db a r.1.store
    unfolding Safe
    unsent a attempt (sent, q) mute ((msg, inl e), gone) = absurd (mute.first msg e)
    unsent a attempt (sent, q) mute ((msg, inr e), gone) = absurd (mute.second msg e)
    unsent a attempt (retryable, q) mute h = h
    unsent a attempt (dropped, q) mute h = h

    try_send_item-Queued :
        (now : ℕ) (a : OutboxItem) (attempt : Attempt) (q : Queue db)
        → Fits a
        → IsUnanswered attempt
        → Queued db item q.store
        → Queued db item (try_send_item db now attempt a q).1.store
    unfolding Fits payload is_user_content Queued
    try_send_item-Queued now a attempt q fits mute h = elim (Bool-cases (a.id == item.id)) [
      | inl e ↦
          let p = fits e in
          let safe =
            try_send_item-Safe db now a attempt (ap is_user_content p ∙ u)
              (λ m. ap has_bytes p ∙ b (sym (ap (λ i. is_media i.kind) p) ∙ m)) q
              (Queued-payload db item a q.store (sym p) h) in
          Queued-payload db a item (try_send_item db now attempt a q).1.store p
            (unsent a attempt _ mute safe)
      | inr e ↦
          let (row, g, p) = h in
          (
            row,
            try_send_item-row db item.id (db.outbox.get item.id q.store.outbox) now a e attempt mute
                  q refl
                ∙ g,
            p,
          )
    ]

    after_item-Queued :
        (r : SendAttempt × Queue db) (rest : Queue db → FlushRound db)
        → Queued db item r.1.store
        → ((q : Queue db) → Queued db item q.store → Queued db item (rest q).queue.store)
        → Queued db item (after_item db r rest).queue.store
    unfolding after_item
    after_item-Queued (sent, q) rest h keeps = keeps _ h
    after_item-Queued (retryable, q) rest h keeps = h
    after_item-Queued (dropped, q) rest h keeps = keeps q h

    flush_items-Queued :
        (now : ℕ) (attempt : OutboxItem → Attempt) (sorted items : List OutboxItem) (q : Queue db)
        → ((i : OutboxItem) → IsUnanswered (attempt i))
        → All Fits items
        → Queued db item q.store
        → Queued db item (flush_items db now attempt sorted items q).queue.store
    unfolding flush_items
    flush_items-Queued now attempt sorted [] q mute fit h = h
    flush_items-Queued now attempt sorted (i ∷ items) q mute (fits, fit) h =
        after_item-Queued _ (flush_items db now attempt sorted items)
          (try_send_item-Queued now i (attempt i) (before_item db sorted i q) fits (mute i)
            (subst (Queued db item) (sym (before_item-store sorted i q)) h))
          (λ q'. flush_items-Queued now attempt sorted items q' mute fit)

    -- What the queue gives under the id is the item.
    get_outbox_items-Fit : (st : Local db) → Queued db item st → All Fits (get_outbox_items db st)
    unfolding get_outbox_items Fits Queued payload normalize_outbox_item
    get_outbox_items-Fit st (row, g, p) = All-sort _ Fits _ (
        All-map Fits normalize_outbox_item (db.outbox.all st.outbox) (
          All-of-In (λ v. Fits (normalize_outbox_item v)) (db.outbox.all st.outbox)
            (λ v i e.
              let found : db.outbox.get v.id st.outbox ≡ some v =
                (db.outbox.all-get v st.outbox).0 i in
              let same : v.id ≡ item.id = (eq_iff v.id item.id).0 e in
              let one : v ≡ row =
                some-injective _ _ (sym found ∙ ap (λ k. db.outbox.get k st.outbox) same ∙ g) in
              ap payload one ∙ p)))

    lane_items-Fit :
        (name : LaneName) (q : Queue db) → Queued db item q.store → All Fits (lane_items db name q)
    lane_items-Fit name q h =
        All-filter Fits (in_lane name) _
          (All-filter Fits is_active (get_outbox_items db q.store) (get_outbox_items-Fit q.store h))

    end_of_round-Queued :
        (b e n : Bool) (now : ℕ) (lane : Lane) (r : FlushRound db)
        (again : Queue db → ℕ × Lane × Queue db)
        → Queued db item r.queue.store
        → Queued db item (again r.queue).2.store
        → Queued db item (end_of_round db b e n now lane r again).2.store
    unfolding end_of_round
    end_of_round-Queued true e n now lane r again h k = h
    end_of_round-Queued false true n now lane r again h k = h
    end_of_round-Queued false false true now lane r again h k = h
    end_of_round-Queued false false false now lane r again h k = k

    module _ (now : ℕ → ℕ) (attempt : ℕ → OutboxItem → Attempt) (name : LaneName)
        (mute : (round : ℕ) (i : OutboxItem) → IsUnanswered (attempt round i)) where
      flush_rounds-Queued :
          (guard : ℕ) (lane : Lane) (q : Queue db)
          → Queued db item q.store
          → Queued db item (flush_rounds db now attempt name guard lane q).2.store
      unfolding flush_rounds after_pass flush_lane
      flush_rounds-Queued zero lane q h = h
      flush_rounds-Queued (suc guard) lane q h =
          elim (Bool-cases (is_empty db (lane_items db name q))) [
            | inl e ↦ rw (e, flush_rounds) h
            | inr e ↦
                let items = lane_items db name q in
                let passed =
                  flush_items-Queued (now guard) (attempt guard) (sort_items items)
                    (sort_items items) (mark_waiting db name q) (mute guard)
                    (All-sort _ Fits items (lane_items-Fit name q h))
                    (subst (Queued db item) (sym (mark_waiting-store name q)) h) in
                rw (e, flush_rounds)
                  (end_of_round-Queued _ _ _ (now guard) lane
                    (flush_lane db (now guard) (attempt guard) items (mark_waiting db name q))
                    (flush_rounds db now attempt name guard lane) passed
                    (flush_rounds-Queued guard lane _ passed))
          ]

      -- While the server answers no delivery with a message, a flush of either lane loses no user
      -- content, whatever the errors are, however often it tries and whatever else is queued: a text, or
      -- a photo or video with bytes, that is queued before is queued after it, with all that it carries.
      pub flush_lane_queue-Queued :
          (force : Bool) (start : ℕ) (lane : Lane) (q : Queue db)
          → Queued db item q.store
          → Queued db item (flush_lane_queue db now attempt name force start lane q).2.store
      unfolding flush_lane_queue
      flush_lane_queue-Queued force start lane q h =
          elim (Bool-cases (not force && ltb start lane.cooldown_until)) [
            | inl e ↦ rw e h
            | inr e ↦ rw e (flush_rounds-Queued 40 lane q h)
          ]
