-- ===== src/Outbox/Safe.antt =====
-- User content leaves the send queue only after the acknowledgement: client/src/lib/outbox.ts.
pub mod Failure
pub mod Others
use coachman.Common.{
  ℕ, String, Bool, true, false, ◌&&◌, ◌||◌, not, Option, none, some, List, [], ◌∷◌, any, remove,
  present, leb, default, length, eqb, if◌then◌else◌, Bool-cases, Option-cases, ◌==◌, eq_refl, ◌≡◌,
  refl, sym, ap, subst, ◌∙◌, ◌⊎◌, inl, inr, arith,
}
use coachman.Message.{StoredMessage, RawMessage}
use coachman.Message.Dedupe.{find_message_by_temp_id}
use coachman.Outbox.{
  OutboxItem, OutboxKind, text, image, video, call, list, is_media, is_user_content,
}
use coachman.Outbox.Errors.{
  Thrown, message_of, is_offline_error, is_auth_error, is_forbidden_error, is_retryable_error,
  is_disposable_system_error, is_poison_image_error,
}
use coachman.Outbox.Request.{media_request}
use coachman.Outbox.State.{
  request, Queue, upload, is_text, parked, park, failed_flags, tell_failed, report_outbox_error,
  mark_bubble, mark_image_failed, mark_text_failed, show_progress, hide_progress, report_key,
}
use coachman.Outbox.Deliver.{
  Net, after_direct, has_bytes, deliver_outbox_item, upload_bytes, attach, ensure_uploaded,
  send_media, after_upload, show_percents,
}
use coachman.Outbox.Send.{
  SendAttempt, sent, retryable, dropped, max_send_attempts, Attempt, count_attempt, counted,
  mark_failed, fail_offline, fail_media, fail_text, fail_send, acknowledge, finish, after_refresh,
  after_failure, after_first, try_send_item, friendly,
}
use coachman.Outbox.Acked.{acknowledge-outbox}
use coachman.Store.{Database, Local}
use coachman.Store.Messages.{get_messages, prepare_outbox_for_write, save_message, add_outbox_item}
use coachman.Outbox.Safe.Failure.{
  payload, Queued, Safe, Queued-payload, add_outbox_item-Queued, fail_send-Safe,
}

module _ (db : Database) where
  -- A delivery changes nothing that the item carries, and keeps it queued.
  Delivered : OutboxItem → Net → (Thrown ⊎ RawMessage) × OutboxItem × Queue db → Type 0
  Delivered item net (r, after, q) =
      (payload after ≡ payload item)
      × Queued db after q.store
      × ((msg : RawMessage) → r ≡ inr msg → net.send ≡ inr msg)

  pub show_percents-store :
      (key : String) (percents : List ℕ) (q : Queue db)
      → (show_percents db key percents q).store ≡ q.store
  unfolding show_percents show_progress
  show_percents-store key [] q = refl
  show_percents-store key (p ∷ ps) q = show_percents-store key ps (show_progress db key p _ q)

  pub after_direct-store :
      (key : String) (net : Net) (kind : OutboxKind) (r : Thrown ⊎ String) (q : Queue db)
      → (after_direct db key net kind r q).1.store ≡ q.store
  unfolding after_direct
  after_direct-store key net kind (inr image_id) q = refl
  after_direct-store key net image (inl err) q = show_percents-store key net.api_percents q
  after_direct-store key net video (inl err) q = refl
  after_direct-store key net text (inl err) q = refl
  after_direct-store key net call (inl err) q = refl
  after_direct-store key net list (inl err) q = refl

  -- The item is queued after its upload, with the id of the upload if there is one.
  Prepared : OutboxItem → (Thrown ⊎ OutboxItem) × Queue db → Type 0
  Prepared item (inl err, q) = Queued db item q.store
  Prepared item (inr uploaded, q) = (payload uploaded ≡ payload item) × Queued db uploaded q.store

  attach-Prepared :
      (item : OutboxItem) (r : (Thrown ⊎ String) × Queue db)
      → Queued db item r.1.store
      → Prepared item (attach db item r)
  unfolding attach show_progress Prepared payload
  attach-Prepared item (inl err, q) h = h
  attach-Prepared item (inr image_id, q) h = (refl, add_outbox_item-Queued db _ q.store)

  ensure_uploaded-Prepared :
      (item : OutboxItem) (net : Net) (q : Queue db)
      → Queued db item q.store
      → Prepared item (ensure_uploaded db item net q)
  unfolding ensure_uploaded upload_bytes show_progress Prepared
  ensure_uploaded-Prepared item net q h = elim (Bool-cases (present item.uploaded_image_id)) [
    | inl e ↦ rw e (refl, h)
    | inr e ↦ elim (Bool-cases (has_bytes item)) [
      | inl f ↦
          rw (e, f)
            (attach-Prepared item _ (
              rw (after_direct-store item.temp_message_id net item.kind net.direct_upload _) (
                rw
                  (show_percents-store item.temp_message_id net.percents
                    (show_progress db item.temp_message_id 0 upload q))
                  h)))
      | inr f ↦ rw (e, f) h
    ]
  ]

  send_media-Delivered :
      (item uploaded : OutboxItem) (net : Net) (r : Thrown ⊎ RawMessage) (q : Queue db)
      → net.send ≡ r
      → payload uploaded ≡ payload item
      → Queued db uploaded q.store
      → Delivered item net (send_media db uploaded r q)
  unfolding send_media Delivered show_progress hide_progress
  send_media-Delivered item uploaded net (inr msg) q e p h = (p, h, λ m k. e ∙ k)
  send_media-Delivered item uploaded net (inl err) q e p h = (p, h, λ m k. e ∙ k)

  after_upload-Delivered :
      (item : OutboxItem) (net : Net) (r : (Thrown ⊎ OutboxItem) × Queue db)
      → Prepared item r
      → Delivered item net (after_upload db item net r)
  unfolding after_upload Prepared Delivered
  after_upload-Delivered item net (inl err, q) h = (refl, h, λ m k. cc)
  after_upload-Delivered item net (inr uploaded, q) (p, h) =
      send_media-Delivered item uploaded net net.send (request db (media_request uploaded) q) refl p
        h

  deliver-Delivered :
      (item : OutboxItem) (net : Net) (q : Queue db)
      → Queued db item q.store
      → Delivered item net (deliver_outbox_item db item net q)
  unfolding deliver_outbox_item Delivered
  deliver-Delivered item net q h = elim (Bool-cases (is_media item.kind)) [
    | inl e ↦ rw e (after_upload-Delivered item net _ (ensure_uploaded-Prepared item net q h))
    | inr e ↦ rw e (refl, h, λ m k. k)
  ]

  Safe-payload :
      (a b : OutboxItem) (attempt : Attempt) (r : SendAttempt × Queue db)
      → payload a ≡ payload b
      → Safe db a attempt r
      → Safe db b attempt r
  unfolding Safe payload
  Safe-payload a b attempt (sent, q) e (ack, gone) =
      (ack, subst (λ k. db.outbox.get k q.store.outbox ≡ none) (ap (λ i. i.id) e) gone)
  Safe-payload a b attempt (retryable, q) e h = Queued-payload db a b q.store e h
  Safe-payload a b attempt (dropped, q) e h = Queued-payload db a b q.store e h

  module _ (now : ℕ) (item : OutboxItem) (attempt : Attempt) (u : is_user_content item ≡ true)
      (b : is_media item.kind ≡ true → has_bytes item ≡ true) where
    failed_after-Safe :
        (after : OutboxItem) (err : Thrown) (q : Queue db)
        → payload after ≡ payload item
        → Queued db after q.store
        → Safe db item attempt (fail_send db now after err q)
    unfolding payload is_user_content
    failed_after-Safe after err q p h =
        Safe-payload after item attempt (fail_send db now after err q) p (
          fail_send-Safe db now after attempt err q (ap is_user_content p ∙ u)
            (λ m. ap has_bytes p ∙ b (sym (ap (λ i. is_media i.kind) p) ∙ m)) h)

    finish-Safe :
        (net : Net) (r : (Thrown ⊎ RawMessage) × OutboxItem × Queue db)
        → ((msg : RawMessage)
            → net.send ≡ inr msg
            → (attempt.first.send ≡ inr msg) ⊎ (attempt.second.send ≡ inr msg))
        → Delivered item net r
        → Safe db item attempt (finish db now r)
    unfolding finish Delivered Safe payload
    finish-Safe net (inr msg, after, q) ack (p, h, answer) =
        let gone = acknowledge-outbox db after msg q in
        (
          (msg, ack msg (answer msg refl)),
          subst (λ k. db.outbox.get k (acknowledge db after msg q).store.outbox ≡ none)
              (ap (λ i. i.id) p) gone,
        )
    finish-Safe net (inl err, after, q) ack (p, h, answer) = failed_after-Safe after err q p h

  module _ (now : ℕ) (item : OutboxItem) (attempt : Attempt) (u : is_user_content item ≡ true)
      (b : is_media item.kind ≡ true → has_bytes item ≡ true) where
    -- The second delivery is one of the item as the first left it.
    second-Safe :
        (after : OutboxItem) (q : Queue db)
        → payload after ≡ payload item
        → Queued db after q.store
        → Safe db item attempt (finish db now (deliver_outbox_item db after attempt.second q))
    unfolding payload is_user_content
    second-Safe after q p h =
        Safe-payload after item attempt
          (finish db now (deliver_outbox_item db after attempt.second q)) p
          (finish-Safe now after attempt (ap is_user_content p ∙ u)
            (λ m. ap has_bytes p ∙ b (sym (ap (λ i. is_media i.kind) p) ∙ m)) attempt.second _
            (λ msg e. inr e) (deliver-Delivered after attempt.second q h))

    after_refresh-Safe :
        (after : OutboxItem) (err : Thrown) (refreshed : Thrown ⊎ Bool) (q : Queue db)
        → payload after ≡ payload item
        → Queued db after q.store
        → Safe db item attempt (after_refresh db now after attempt.second err refreshed q)
    unfolding after_refresh
    after_refresh-Safe after err (inl e) q p h =
        failed_after-Safe now item attempt u b after e q p h
    after_refresh-Safe after err (inr false) q p h =
        failed_after-Safe now item attempt u b after err q p h
    after_refresh-Safe after err (inr true) q p h = second-Safe after q p h

    after_failure-Safe :
        (after : OutboxItem) (err : Thrown) (o : Option (Thrown ⊎ Bool)) (q : Queue db)
        → payload after ≡ payload item
        → Queued db after q.store
        → Safe db item attempt (after_failure db now after attempt.second err o q)
    unfolding after_failure
    after_failure-Safe after err none q p h = failed_after-Safe now item attempt u b after err q p h
    after_failure-Safe after err (some refreshed) q p h = elim (Bool-cases (is_auth_error err)) [
      | inl f ↦ rw f (after_refresh-Safe after err refreshed q p h)
      | inr f ↦ rw f (failed_after-Safe now item attempt u b after err q p h)
    ]

    after_first-Safe :
        (r : (Thrown ⊎ RawMessage) × OutboxItem × Queue db)
        → Delivered item attempt.first r
        → Safe db item attempt (after_first db now attempt r)
    unfolding after_first Delivered
    after_first-Safe (inr msg, after, q) d =
        finish-Safe now item attempt u b attempt.first (inr msg, after, q) (λ m e. inl e) d
    after_first-Safe (inl err, after, q) (p, h, answer) =
        after_failure-Safe after err attempt.auth_retry q p h

    -- User content is never lost before the acknowledgement. If a queued text, or a queued photo or
    -- video with bytes, is tried, the attempt ends with `sent` only if the server returned the message,
    -- and then no row is queued under the item's id; otherwise the queue still holds a row under that
    -- id, which carries what the item carries.
    pub try_send_item-Safe :
        (q : Queue db)
        → Queued db item q.store
        → Safe db item attempt (try_send_item db now attempt item q)
    unfolding try_send_item
    try_send_item-Safe q h = after_first-Safe _ (deliver-Delivered item attempt.first q h)
