-- ===== src/Outbox/Safe/Failure.antt =====
-- A failed attempt keeps user content in the send queue: client/src/lib/outbox.ts.
use coachman.Common.{
  ℕ, String, Bool, true, false, ◌&&◌, not, none, some, [], any, present, leb, Bool-cases,
  Option-cases, ◌==◌, eq_refl, ◌≡◌, refl, ap, subst, ◌∙◌, ◌⊎◌, inl, inr, arith,
}
use coachman.Message.{StoredMessage, RawMessage}
use coachman.Message.Dedupe.{find_message_by_temp_id}
use coachman.Outbox.{
  OutboxItem, OutboxKind, text, image, video, call, list, is_media, is_user_content,
}
use coachman.Outbox.Errors.{
  Thrown, message_of, is_offline_error, is_auth_error, is_forbidden_error, is_poison_image_error,
}
use coachman.Outbox.State.{
  Queue, is_text, parked, park, failed_flags, tell_failed, report_outbox_error, mark_bubble,
  mark_image_failed, mark_text_failed, hide_progress, report_key,
}
use coachman.Outbox.Deliver.{has_bytes}
use coachman.Outbox.Send.{
  SendAttempt, sent, retryable, dropped, max_send_attempts, Attempt, count_attempt, counted,
  mark_failed, fail_offline, fail_media, fail_text, fail_send, friendly,
}
use coachman.Store.{Database, Local}
use coachman.Store.Messages.{get_messages, prepare_outbox_for_write, save_message, add_outbox_item}

-- What an item carries: all but the preview, the id of an upload and the marks of a failure.
unfoldable pub payload : OutboxItem → OutboxItem
payload item = record item {
  preview_data = [];
  uploaded_image_id = none;
  failed_at = none;
  fail_reason = none;
}

pub payload-prepare : (item : OutboxItem) → payload (prepare_outbox_for_write item) ≡ payload item
unfolding payload prepare_outbox_for_write
payload-prepare item = refl

-- User content that is no media is text.
pub text_kind :
    (k : OutboxKind)
    → is_media k ≡ false
    → (elim k [ call ↦ false | list ↦ false | _ ↦ true ]) ≡ true
    → is_text k ≡ true
text_kind text m u = refl
text_kind call m u = cc
text_kind list m u = cc
text_kind image m u = cc
text_kind video m u = cc

module _ (db : Database) where
  -- The queue holds a row under the item's id that carries what the item carries.
  unfoldable pub Queued : OutboxItem → Local db → Type 0
  Queued item st =
      (row : OutboxItem) × (db.outbox.get item.id st.outbox ≡ some row)
      × (payload row ≡ payload item)

  -- What is promised of an attempt: if it ends with `sent`, the server returned the message and no row
  -- is queued under the id; otherwise the item is still queued.
  unfoldable pub Safe : OutboxItem → Attempt → SendAttempt × Queue db → Type 0
  Safe item attempt (sent, q) =
      ((msg : RawMessage) × ((attempt.first.send ≡ inr msg) ⊎ (attempt.second.send ≡ inr msg)))
      × (db.outbox.get item.id q.store.outbox ≡ none)
  Safe item attempt (retryable, q) = Queued item q.store
  Safe item attempt (dropped, q) = Queued item q.store

  pub add_outbox_item-Queued :
      (item : OutboxItem) (st : Local db) → Queued item (add_outbox_item db item st)
  unfolding Queued add_outbox_item payload
  add_outbox_item-Queued item st = (
    prepare_outbox_for_write item,
    db.outbox.get-put item.id (prepare_outbox_for_write item) st.outbox
        ∙ rw (ap (λ i. i.id) (payload-prepare item), eq_refl item.id),
    payload-prepare item,
  )

  pub mark_bubble-outbox :
      (flags : StoredMessage → StoredMessage) (item : OutboxItem) (t : String) (st : Local db)
      → (mark_bubble db flags item t st).outbox ≡ st.outbox
  unfolding mark_bubble save_message
  mark_bubble-outbox flags item t st =
      elim (Option-cases (find_message_by_temp_id (get_messages db item.chat_id st) t)) [
        | inl e ↦ rw (e, mark_bubble) refl
        | inr (row, e) ↦ rw (e, mark_bubble) refl
      ]

  pub report-store :
      (item : OutboxItem) (message : String) (b : Bool) (q : Queue db)
      → (report_outbox_error db item message b q).store ≡ q.store
  unfolding report_outbox_error
  report-store item message b q =
      elim (Bool-cases (any (λ k. k == report_key item message b) q.reported)) [
        | inl e ↦ rw e
        | inr e ↦ rw e
      ]

  pub Queued-payload :
      (a b : OutboxItem) (st : Local db) → payload a ≡ payload b → Queued a st → Queued b st
  unfolding Queued payload
  Queued-payload a b st e (row, g, p) =
      (row, subst (λ k. db.outbox.get k st.outbox ≡ some row) (ap (λ i. i.id) e) g, p ∙ e)

  Queued-outbox :
      (item : OutboxItem) (st after : Local db)
      → after.outbox ≡ st.outbox
      → Queued item st
      → Queued item after
  unfolding Queued
  Queued-outbox item st after e (row, g, p) = (row, ap (db.outbox.get item.id) e ∙ g, p)

  module _ (now : ℕ) (item : OutboxItem) where
    park-Queued :
        (message : String) (st : Local db) → Queued item (park db true now message item st)
    unfolding payload
    park-Queued message st =
        let added = add_outbox_item db (parked now message item) st in
        Queued-outbox item added _
          (mark_bubble-outbox (failed_flags message) item item.temp_message_id added)
          (Queued-payload (parked now message item) item added refl
            (add_outbox_item-Queued (parked now message item) st))

    tell_failed-Queued :
        (message : String) (q : Queue db)
        → Queued item q.store
        → Queued item (tell_failed db item message q).store
    tell_failed-Queued message q h = rw (report-store item message false q) h

    mark_image_failed-Queued :
        (message : String) (q : Queue db)
        → is_media item.kind ≡ true
        → Queued item (mark_image_failed db now item message q).store
    unfolding mark_image_failed hide_progress
    mark_image_failed-Queued message q e =
        rw e (tell_failed-Queued message _ (park-Queued message q.store))

    mark_text_failed-Queued :
        (message : String) (q : Queue db)
        → is_media item.kind ≡ false
        → is_user_content item ≡ true
        → Queued item (mark_text_failed db now item message q).store
    unfolding mark_text_failed is_user_content
    mark_text_failed-Queued message q e u =
        rw (text_kind item.kind e u) (tell_failed-Queued message _ (park-Queued message q.store))

    mark_failed-Queued :
        (message : String) (q : Queue db)
        → is_user_content item ≡ true
        → Queued item (mark_failed db now item message q).store
    mark_failed-Queued message q u = elim (Bool-cases (is_media item.kind)) [
      | inl e ↦ rw e (mark_image_failed-Queued message q e)
      | inr e ↦ rw e (mark_text_failed-Queued message q e u)
    ]

    module _ (attempt : Attempt) where
      retry-Safe :
          (message : String) (q : Queue db)
          → Queued item q.store
          → Safe item attempt (retryable, report_outbox_error db item message true q)
      unfolding Safe
      retry-Safe message q h = rw (report-store item message true q) h

      failed-Safe :
          (message : String) (q : Queue db)
          → is_user_content item ≡ true
          → Safe item attempt (dropped, mark_failed db now item message q)
      unfolding Safe
      failed-Safe message q u = mark_failed-Queued message q u

      fail_offline-Safe :
          (message : String) (q : Queue db)
          → Queued item q.store
          → Safe item attempt (fail_offline db now item message q)
      unfolding fail_offline Safe
      fail_offline-Safe message q h = elim (Bool-cases (is_media item.kind)) [
        | inr e ↦ rw e h
        | inl e ↦ elim (Bool-cases (leb max_send_attempts (count_attempt db item q))) [
          | inl f ↦ rw (e, f) (mark_image_failed-Queued message (counted db item q) e)
          | inr f ↦ rw (e, f) (retry-Safe message (counted db item q) h)
        ]
      ]

      fail_text-Safe :
          (message : String) (q : Queue db)
          → is_media item.kind ≡ false
          → is_user_content item ≡ true
          → Queued item q.store
          → Safe item attempt (fail_text db now item message q)
      unfolding fail_text Safe
      fail_text-Safe message q e u h =
          elim (Bool-cases (leb max_send_attempts (count_attempt db item q))) [
            | inl f ↦ rw f (mark_text_failed-Queued message (counted db item q) e u)
            | inr f ↦ rw f (retry-Safe message (counted db item q) h)
          ]

      fail_media-Safe :
          (err : Thrown) (q : Queue db)
          → is_media item.kind ≡ true
          → has_bytes item ≡ true
          → Safe item attempt (fail_media db now item err q)
      unfolding fail_media Safe
      fail_media-Safe err q e b =
          elim (Bool-cases (
            is_poison_image_error err
            && (not (present item.uploaded_image_id) && not (has_bytes item)))) [
              | inl f ↦ absurd (ground arith)
              | inr f ↦ rw f (mark_image_failed-Queued (message_of err) q e)
            ]

      pub fail_send-Safe :
          (err : Thrown) (q : Queue db)
          → is_user_content item ≡ true
          → (is_media item.kind ≡ true → has_bytes item ≡ true)
          → Queued item q.store
          → Safe item attempt (fail_send db now item err q)
      unfolding fail_send
      fail_send-Safe err q u b h = elim (Bool-cases (is_offline_error err)) [
        | inl off ↦ rw (u, off) (fail_offline-Safe (message_of err) q h)
        | inr off ↦ elim (Bool-cases (is_auth_error err)) [
          | inl auth ↦ rw (u, off, auth) (retry-Safe (message_of err) q h)
          | inr auth ↦ elim (Bool-cases (is_forbidden_error err)) [
            | inl barred ↦ rw (u, off, auth, barred) (failed-Safe (friendly db err) q u)
            | inr barred ↦ elim (Bool-cases (is_media item.kind)) [
              | inl e ↦ rw (u, off, auth, barred, e) (fail_media-Safe err q e (b e))
              | inr e ↦ rw (u, off, auth, barred, e) (fail_text-Safe (message_of err) q e u h)
            ]
          ]
        ]
      ]
