-- ===== src/Outbox/Deliver.antt =====
-- One delivery of an outbox item and what follows its acknowledgement: `deliverOutboxItem` and
-- `finalizeLocalDelivery` of client/src/lib/outbox.ts.
-- The server is outside: what its requests answer in one delivery is the record `Net`. The cache of
-- image bytes is left out.
pub mod Stable
use coachman.Common.{
  ℕ, String, Bool, true, false, ◌&&◌, not, Option, none, some, List, [], ◌∷◌, map, present, or_text,
  or_opt, coalesce, default, length, eqb, if◌then◌else◌, ◌⊎◌, inl, inr,
}
use coachman.Message.{StoredMessage, RawMessage, MessageType}
use coachman.Outbox.{
  OutboxItem, OutboxKind, text, image, video, call, list, is_media, outbox_client_id,
}
use coachman.Outbox.Errors.{Thrown, error}
use coachman.Outbox.State.{Queue, upload, queued, request, show_progress, hide_progress}
use coachman.Outbox.Request.{SendRequest, sent_type, media_request, message_request}
use coachman.Store.{Database, Local}
use coachman.Store.Messages.{
  save_message, list_orphan_pending_messages, add_outbox_item, get_outbox_items,
}
use coachman.Store.Upsert.{upsert_stored_message}

pub record Net : Type 0 where
  -- `uploadVideo` or `uploadPhoto`: the percents that it reports, and its answer
  pub percents : List ℕ
  pub direct_upload : Thrown ⊎ String
  -- `api.uploadImage`
  pub api_percents : List ℕ
  pub api_upload : Thrown ⊎ String
  -- `api.sendMessage`
  pub send : Thrown ⊎ RawMessage

-- `outboxImageBytes(item)` is there
abbrev pub has_bytes : OutboxItem → Bool
has_bytes item = not (eqb (length item.image_bytes) 0)

abbrev pub empty_payload : OutboxKind → Thrown
empty_payload video = error "Error" "empty video in outbox" false false
empty_payload _ = error "Error" "empty image in outbox" false false

-- The text of the row that is shown for a sent item.
abbrev pub sent_text : OutboxItem → String
sent_text item = elim item.kind [
  | image ↦ "📷 Изображение"
  | video ↦ "🎬 Видео"
  | _ ↦ item.plain_text
]

abbrev keeps_reply : OutboxKind → Bool
keeps_reply call = false
keeps_reply list = false
keeps_reply _ = true

abbrev keeps_album : OutboxKind → Bool
keeps_album image = true
keeps_album _ = false

abbrev only {ℓ} : {A : Type ℓ} → Bool → Option A → Option A
only b o = if b then o else none

-- The row that `finalizeLocalDelivery` hands to the upsert.
unfoldable pub sent_row : OutboxItem → RawMessage → StoredMessage
unfolding outbox_client_id
sent_row item msg =
    let replies = keeps_reply item.kind in
    record {
      id = msg.id;
      chat_id = msg.chat_id;
      sender_id = msg.sender_id;
      sender_name = "Я";
      text = sent_text item;
      type = sent_type item.kind;
      image_url = none;
      poster_url = none;
      image_id = only (is_media item.kind) (or_opt msg.image_id item.uploaded_image_id);
      album_id = only (keeps_album item.kind) (coalesce msg.album_id item.album_id);
      reply_to_message_id = only replies (coalesce msg.reply_to_message_id item.reply.message_id);
      reply_to_sender_id = only replies item.reply.sender_id;
      reply_to_sender_name = only replies item.reply.sender_name;
      reply_to_preview = only replies item.reply.preview;
      reply_to_type = only replies item.reply.type;
      client_id = some (outbox_client_id (or_text (default "" msg.client_id) item.temp_message_id));
      sequence = msg.sequence;
      created_at = msg.created_at;
      pending = some false;
      provisional = none;
      failed = none;
      error = none;
    }

module _ (db : Database) where
  unfoldable pub show_percents : String → List ℕ → Queue db → Queue db
  unfolding show_progress
  show_percents key [] q = q
  show_percents key (percent ∷ percents) q =
      show_percents key percents (show_progress db key percent upload q)

  -- After the direct upload: a photo that the object storage refuses goes through the API.
  unfoldable pub after_direct :
      String → Net → OutboxKind → Thrown ⊎ String → Queue db → (Thrown ⊎ String) × Queue db
  after_direct key net kind (inr image_id) q = (inr image_id, q)
  after_direct key net image (inl err) q = (net.api_upload, show_percents key net.api_percents q)
  after_direct key net _ (inl err) q = (inl err, q)

  unfoldable pub upload_bytes : OutboxItem → Net → Queue db → (Thrown ⊎ String) × Queue db
  unfolding show_percents after_direct
  upload_bytes item net q =
      after_direct item.temp_message_id net item.kind net.direct_upload
        (show_percents item.temp_message_id net.percents q)

  -- The item with the id of its upload is stored before the message is sent.
  unfoldable pub attach :
      OutboxItem → (Thrown ⊎ String) × Queue db → (Thrown ⊎ OutboxItem) × Queue db
  attach item (inl err, q) = (inl err, show_progress db item.temp_message_id 0 queued q)
  attach item (inr image_id, q) =
      let uploaded : OutboxItem = record item { uploaded_image_id = some image_id } in
      (inr uploaded, record q { store = add_outbox_item db uploaded q.store })

  unfoldable pub ensure_uploaded : OutboxItem → Net → Queue db → (Thrown ⊎ OutboxItem) × Queue db
  unfolding attach upload_bytes show_progress
  ensure_uploaded item net q =
      if present item.uploaded_image_id
      then (inr item, show_progress db item.temp_message_id 100 upload q)
      else if has_bytes item
      then attach item (upload_bytes item net (show_progress db item.temp_message_id 0 upload q))
      else (inl (empty_payload item.kind), q)

  -- The answer of the server, for an item that has been uploaded if it had to be.
  unfoldable pub send_media :
      OutboxItem → Thrown ⊎ RawMessage → Queue db → (Thrown ⊎ RawMessage) × OutboxItem × Queue db
  send_media item (inr msg) q = (inr msg, item, hide_progress db item.temp_message_id q)
  send_media item (inl err) q = (inl err, item, show_progress db item.temp_message_id 100 upload q)

  unfoldable pub after_upload :
      OutboxItem
      → Net
      → (Thrown ⊎ OutboxItem) × Queue db
      → (Thrown ⊎ RawMessage) × OutboxItem × Queue db
  unfolding send_media
  after_upload item net (inl err, q) = (inl err, item, q)
  after_upload item net (inr uploaded, q) =
      send_media uploaded net.send (request db (media_request uploaded) q)

  -- The answer, the item as it is afterwards, and the queue.
  unfoldable pub deliver_outbox_item :
      OutboxItem → Net → Queue db → (Thrown ⊎ RawMessage) × OutboxItem × Queue db
  unfolding after_upload ensure_uploaded
  deliver_outbox_item item net q =
      if is_media item.kind
      then after_upload item net (ensure_uploaded item net q)
      else (net.send, item, request db (message_request item) q)

  -- `none` where it throws.
  unfoldable pub finalize_local_delivery : OutboxItem → RawMessage → Local db → Option (Local db)
  unfolding sent_row
  finalize_local_delivery item msg st =
      if is_media item.kind && not (present (or_opt msg.image_id item.uploaded_image_id))
      then none
      else elim (upsert_stored_message db (sent_row item msg) st) [
        | none ↦ none
        | some (_, after) ↦ some after
      ]

  unfoldable pub fail_rows : List StoredMessage → Local db → Local db
  fail_rows [] st = st
  fail_rows (m ∷ ms) st = fail_rows ms (
      save_message db
        (record m {
          pending = some false;
          failed = some true;
          error = some "Отправка прервана. Отправьте снова.";
        })
        st)

  unfoldable pub hide_rows : List StoredMessage → Queue db → Queue db
  hide_rows [] q = q
  hide_rows (m ∷ ms) q = hide_rows ms (hide_progress db m.id q)

  unfoldable pub fail_orphan_pending_messages : Queue db → Queue db
  unfolding fail_rows hide_rows
  fail_orphan_pending_messages q =
      let ids = map (λ item. item.temp_message_id) (get_outbox_items db q.store) in
      let orphaned = list_orphan_pending_messages db ids q.store in
      hide_rows orphaned (record q { store = fail_rows orphaned q.store })
