-- ===== src/Outbox/Deliver/Stable.antt =====
-- The identity of an item across its deliveries: client/src/lib/outbox.ts.
use coachman.Common.{
  ℕ, String, List, [], ◌∷◌, present, Bool-cases, ◌≡◌, refl, ap, ◌∙◌, ◌⊎◌, inl, inr,
}
use coachman.Message.{RawMessage}
use coachman.Outbox.{
  OutboxItem, OutboxKind, text, image, video, call, list, is_media, outbox_client_id,
}
use coachman.Outbox.Errors.{Thrown}
use coachman.Outbox.Request.{SendRequest, media_request, message_request}
use coachman.Outbox.State.{Queue, upload, request, show_progress, hide_progress}
use coachman.Outbox.Deliver.{
  Net, has_bytes, show_percents, after_direct, upload_bytes, attach, ensure_uploaded, send_media,
  after_upload, deliver_outbox_item,
}
use coachman.Store.{Database}

module _ (db : Database) where
  -- What one delivery may send: nothing, or one request with the client id and the chat of the item.
  pub SentOnce : OutboxItem → List SendRequest → List SendRequest → Type 0
  SentOnce item before after =
      (after ≡ before)
      ⊎ ((r : SendRequest) × (after ≡ r ∷ before)
          × (r.client_id ≡ outbox_client_id item.temp_message_id)
          × (r.chat_id ≡ item.chat_id))

  -- What is promised of a delivery: it sends at most one request, and leaves the item its identity.
  pub IsStable : OutboxItem → Queue db → (Thrown ⊎ RawMessage) × OutboxItem × Queue db → Type 0
  IsStable item q (r, after, q') =
      SentOnce item q.requests q'.requests
      × (after.id ≡ item.id)
      × (after.temp_message_id ≡ item.temp_message_id)
      × (after.chat_id ≡ item.chat_id)

  show_percents-requests :
      (key : String) (percents : List ℕ) (q : Queue db)
      → (show_percents db key percents q).requests ≡ q.requests
  unfolding show_percents show_progress
  show_percents-requests key [] q = refl
  show_percents-requests key (p ∷ ps) q =
      show_percents-requests key ps (show_progress db key p upload q)

  after_direct-requests :
      (key : String) (net : Net) (kind : OutboxKind) (r : Thrown ⊎ String) (q : Queue db)
      → (after_direct db key net kind r q).1.requests ≡ q.requests
  unfolding after_direct
  after_direct-requests key net kind (inr image_id) q = refl
  after_direct-requests key net image (inl err) q = show_percents-requests key net.api_percents q
  after_direct-requests key net video (inl err) q = refl
  after_direct-requests key net text (inl err) q = refl
  after_direct-requests key net call (inl err) q = refl
  after_direct-requests key net list (inl err) q = refl

  -- An upload sends no message, and changes nothing of the item but the id of the upload.
  Uploaded : OutboxItem → List SendRequest → (Thrown ⊎ OutboxItem) × Queue db → Type 0
  Uploaded item before (inl err, q) = q.requests ≡ before
  Uploaded item before (inr uploaded, q) =
      (q.requests ≡ before)
      × (uploaded.id ≡ item.id)
      × (uploaded.temp_message_id ≡ item.temp_message_id)
      × (uploaded.chat_id ≡ item.chat_id)

  attach-Uploaded :
      (item : OutboxItem) (before : List SendRequest) (r : (Thrown ⊎ String) × Queue db)
      → r.1.requests ≡ before
      → Uploaded item before (attach db item r)
  unfolding attach show_progress Uploaded
  attach-Uploaded item before (inl err, q) h = h
  attach-Uploaded item before (inr image_id, q) h = (h, refl, refl, refl)

  ensure_uploaded-Uploaded :
      (item : OutboxItem) (net : Net) (q : Queue db)
      → Uploaded item q.requests (ensure_uploaded db item net q)
  unfolding ensure_uploaded upload_bytes show_progress Uploaded
  ensure_uploaded-Uploaded item net q = elim (Bool-cases (present item.uploaded_image_id)) [
    | inl e ↦ rw e (refl, refl, refl, refl)
    | inr e ↦ elim (Bool-cases (has_bytes item)) [
      | inr f ↦ rw (e, f) refl
      | inl f ↦
          let started = show_progress db item.temp_message_id 0 upload q in
          let shown = show_percents db item.temp_message_id net.percents started in
          rw (e, f)
            (attach-Uploaded item q.requests _ (
              after_direct-requests item.temp_message_id net item.kind net.direct_upload shown
              ∙ show_percents-requests item.temp_message_id net.percents started))
    ]
  ]

  send_media-IsStable :
      (item uploaded : OutboxItem) (r : Thrown ⊎ RawMessage) (q sending : Queue db)
      → SentOnce item q.requests sending.requests
      → uploaded.id ≡ item.id
      → uploaded.temp_message_id ≡ item.temp_message_id
      → uploaded.chat_id ≡ item.chat_id
      → IsStable item q (send_media db uploaded r sending)
  unfolding send_media IsStable show_progress hide_progress
  send_media-IsStable item uploaded (inr msg) q sending h i t c = (h, i, t, c)
  send_media-IsStable item uploaded (inl err) q sending h i t c = (h, i, t, c)

  after_upload-IsStable :
      (item : OutboxItem) (net : Net) (q : Queue db) (r : (Thrown ⊎ OutboxItem) × Queue db)
      → Uploaded item q.requests r
      → IsStable item q (after_upload db item net r)
  unfolding after_upload Uploaded IsStable SentOnce media_request
  after_upload-IsStable item net q (inl err, q') h = (inl h, refl, refl, refl)
  after_upload-IsStable item net q (inr uploaded, q') (h, i, t, c) =
      send_media-IsStable item uploaded net.send q (request db (media_request uploaded) q')
        (inr (
          media_request uploaded,
          ap (λ l. media_request uploaded ∷ l) h,
          ap outbox_client_id t,
          c,
        ))
        i t c

  -- A retry never mints a new identity: every delivery of an item sends at most one message, with the
  -- client id and the chat of the item, and leaves the item its id, temporary id and chat, so that
  -- the next delivery carries the same client id.
  pub deliver_outbox_item-IsStable :
      (item : OutboxItem) (net : Net) (q : Queue db)
      → IsStable item q (deliver_outbox_item db item net q)
  unfolding deliver_outbox_item IsStable SentOnce message_request
  deliver_outbox_item-IsStable item net q = elim (Bool-cases (is_media item.kind)) [
    | inl e ↦ rw e (after_upload-IsStable item net q _ (ensure_uploaded-Uploaded item net q))
    | inr e ↦ rw e (inr (message_request item, refl, refl, refl), refl, refl, refl)
  ]
