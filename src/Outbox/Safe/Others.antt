-- ===== src/Outbox/Safe/Others.antt =====
-- An attempt that fails touches no other row of the send queue: client/src/lib/outbox.ts.
pub mod Failed
use coachman.Common.{
  ℕ, String, Bool, true, false, ◌&&◌, ◌||◌, not, Option, none, some, present, leb, if◌then◌else◌,
  Bool-cases, ◌==◌, ◌≡◌, ◌≢◌, refl, ap, ◌∙◌, ◌⊎◌, inl, inr,
}
use coachman.Message.{RawMessage}
use Prim.Native.String
use coachman.Message.Identity.{is_temp, pending_prefix}
use coachman.Outbox.{
  OutboxItem, OutboxKind, text, image, video, call, list, is_media, is_user_content,
}
use coachman.Outbox.Errors.{
  Thrown, message_of, is_offline_error, is_auth_error, is_forbidden_error, is_retryable_error,
  is_disposable_system_error, is_poison_image_error,
}
use coachman.Outbox.Request.{media_request}
use coachman.Outbox.State.{
  Queue, upload, is_text, request, parked, park, failed_flags, tell_failed, report_outbox_error,
  mark_bubble, mark_image_failed, mark_text_failed, show_progress, hide_progress,
}
use coachman.Outbox.Deliver.{
  Net, has_bytes, upload_bytes, attach, ensure_uploaded, send_media, after_upload,
  deliver_outbox_item,
}
use coachman.Outbox.Send.{
  SendAttempt, max_send_attempts, Attempt, count_attempt, counted, mark_failed, drop_bubble,
  drop_poison_item, fail_offline, fail_media, fail_text, fail_send, friendly, finish, after_refresh,
  after_failure, after_first, try_send_item,
}
use coachman.Outbox.Safe.{show_percents-store, after_direct-store}
use coachman.Outbox.Safe.Failure.{mark_bubble-outbox, report-store}
use coachman.Store.{Database, Local}
use coachman.Store.Messages.Deleted.{delete_message_local-outbox}
use coachman.Store.Messages.{
  delete_message_local, prepare_outbox_for_write, add_outbox_item, remove_outbox_item,
}
use coachman.Outbox.Safe.Others.Failed.{row, add_outbox_item-row, fail_send-row}

-- No delivery of the attempt is acknowledged.
pub record IsUnanswered (attempt : Attempt) : Type 0 where
  pub first : (msg : RawMessage) → attempt.first.send ≢ inr msg
  pub second : (msg : RawMessage) → attempt.second.send ≢ inr msg

module _ (db : Database) (id : String) where
  module _ (before : Option OutboxItem) where
    -- A delivery of an item under another id: the row is the one before.
    Elsewhere : OutboxItem → Net → (Thrown ⊎ RawMessage) × OutboxItem × Queue db → Type 0
    Elsewhere item net (r, after, q) =
        (after.id ≡ item.id)
        × (row db id q ≡ before)
        × ((msg : RawMessage) → r ≡ inr msg → net.send ≡ inr msg)

    Uploaded : OutboxItem → (Thrown ⊎ OutboxItem) × Queue db → Type 0
    Uploaded item (inl err, q) = row db id q ≡ before
    Uploaded item (inr uploaded, q) = (uploaded.id ≡ item.id) × (row db id q ≡ before)

    attach-Uploaded :
        (item : OutboxItem) (r : (Thrown ⊎ String) × Queue db)
        → (item.id == id) ≡ false
        → row db id r.1 ≡ before
        → Uploaded item (attach db item r)
    unfolding attach show_progress Uploaded
    attach-Uploaded item (inl err, q) other h = h
    attach-Uploaded item (inr image_id, q) other h =
        (refl, add_outbox_item-row db id item other _ q.store refl ∙ h)

    ensure_uploaded-Uploaded :
        (item : OutboxItem) (net : Net) (q : Queue db)
        → (item.id == id) ≡ false
        → row db id q ≡ before
        → Uploaded item (ensure_uploaded db item net q)
    unfolding ensure_uploaded upload_bytes show_progress Uploaded
    ensure_uploaded-Uploaded item net q other h =
        elim (Bool-cases (present item.uploaded_image_id)) [
          | inl e ↦ rw e (refl, h)
          | inr e ↦ elim (Bool-cases (has_bytes item)) [
            | inl f ↦
                rw (e, f)
                  (attach-Uploaded item _ other (
                    ap (λ st. db.outbox.get id st.outbox)
                      (after_direct-store db item.temp_message_id net item.kind net.direct_upload _
                        ∙ show_percents-store db item.temp_message_id net.percents
                            (show_progress db item.temp_message_id 0 upload q))
                    ∙ h))
            | inr f ↦ rw (e, f) h
          ]
        ]

    send_media-Elsewhere :
        (item uploaded : OutboxItem) (net : Net) (r : Thrown ⊎ RawMessage) (q : Queue db)
        → net.send ≡ r
        → uploaded.id ≡ item.id
        → row db id q ≡ before
        → Elsewhere item net (send_media db uploaded r q)
    unfolding send_media Elsewhere show_progress hide_progress
    send_media-Elsewhere item uploaded net (inr msg) q e p h = (p, h, λ m k. e ∙ k)
    send_media-Elsewhere item uploaded net (inl err) q e p h = (p, h, λ m k. e ∙ k)

    after_upload-Elsewhere :
        (item : OutboxItem) (net : Net) (r : (Thrown ⊎ OutboxItem) × Queue db)
        → Uploaded item r
        → Elsewhere item net (after_upload db item net r)
    unfolding after_upload Uploaded Elsewhere
    after_upload-Elsewhere item net (inl err, q) h = (refl, h, λ m k. cc)
    after_upload-Elsewhere item net (inr uploaded, q) (p, h) =
        send_media-Elsewhere item uploaded net net.send (request db (media_request uploaded) q) refl
          p h

    deliver-Elsewhere :
        (item : OutboxItem) (net : Net) (q : Queue db)
        → (item.id == id) ≡ false
        → row db id q ≡ before
        → Elsewhere item net (deliver_outbox_item db item net q)
    unfolding deliver_outbox_item Elsewhere
    deliver-Elsewhere item net q other h = elim (Bool-cases (is_media item.kind)) [
      | inl e ↦
          rw e (after_upload-Elsewhere item net _ (ensure_uploaded-Uploaded item net q other h))
      | inr e ↦ rw e (refl, h, λ m k. k)
    ]

    module _ (now : ℕ) (item : OutboxItem) (other : (item.id == id) ≡ false) (attempt : Attempt)
        (refused : IsUnanswered attempt) where
      fail_after-row :
          (after : OutboxItem) (err : Thrown) (q : Queue db)
          → after.id ≡ item.id
          → row db id q ≡ before
          → row db id (fail_send db now after err q).1 ≡ before
      fail_after-row after err q e h =
          fail_send-row db id after (ap (λ i. i == id) e ∙ other) now err q ∙ h

      second-row :
          (r : (Thrown ⊎ RawMessage) × OutboxItem × Queue db) (after : OutboxItem)
          → after.id ≡ item.id
          → Elsewhere after attempt.second r
          → row db id (finish db now r).1 ≡ before
      unfolding finish Elsewhere
      second-row (inr msg, last, q) after e (p, h, answer) =
          absurd (refused.second msg (answer msg refl))
      second-row (inl err, last, q) after e (p, h, answer) = fail_after-row last err q (p ∙ e) h

      after_refresh-row :
          (after : OutboxItem) (err : Thrown) (refreshed : Thrown ⊎ Bool) (q : Queue db)
          → after.id ≡ item.id
          → row db id q ≡ before
          → row db id (after_refresh db now after attempt.second err refreshed q).1 ≡ before
      unfolding after_refresh
      after_refresh-row after err (inl e) q p h = fail_after-row after e q p h
      after_refresh-row after err (inr false) q p h = fail_after-row after err q p h
      after_refresh-row after err (inr true) q p h =
          second-row _ after p
            (deliver-Elsewhere after attempt.second q (ap (λ i. i == id) p ∙ other) h)

      after_first-row :
          (r : (Thrown ⊎ RawMessage) × OutboxItem × Queue db)
          → Elsewhere item attempt.first r
          → row db id (after_first db now attempt r).1 ≡ before
      unfolding after_first after_failure Elsewhere
      after_first-row (inr msg, after, q) (p, h, answer) =
          absurd (refused.first msg (answer msg refl))
      after_first-row (inl err, after, q) (p, h, answer) = of_retry attempt.auth_retry
        where
          of_retry :
              (o : Option (Thrown ⊎ Bool))
              → row db id (after_failure db now after attempt.second err o q).1 ≡ before
          of_retry none = fail_after-row after err q p h
          of_retry (some refreshed) = elim (Bool-cases (is_auth_error err)) [
            | inl f ↦ rw f (after_refresh-row after err refreshed q p h)
            | inr f ↦ rw f (fail_after-row after err q p h)
          ]

      -- An attempt for another id that nobody acknowledges leaves the row as it is.
      pub try_send_item-row :
          (q : Queue db)
          → row db id q ≡ before
          → row db id (try_send_item db now attempt item q).1 ≡ before
      unfolding try_send_item
      try_send_item-row q h = after_first-row _ (deliver-Elsewhere item attempt.first q other h)
