-- ===== src/Outbox/Enqueue/Identity.antt =====
-- One row for one message in the send queue: client/src/lib/outbox.ts.
use Prim.Native.String
use coachman.Common.{
  refl, ℕ, String, true, false, Option, none, some, strip, strip-append, if◌then◌else◌, Bool-cases,
  ◌==◌, eq_refl, ◌≡◌, sym, ap, ◌∙◌, inl, inr,
}
use coachman.Message.Identity.{pending_prefix, bare}
use coachman.Outbox.{
  OutboxItem, OutboxKind, Reply, is_media, is_active, outbox_client_id, outbox_item_id,
}
use coachman.Outbox.State.{Queue, show_progress, mark_bubble}
use coachman.Outbox.Safe.Failure.{payload, payload-prepare, mark_bubble-outbox}
use coachman.Outbox.Enqueue.{Sender, text_item, cleared, pending_flags, enqueue_outbox, retry_found}
use coachman.Store.{Database, Local}
use coachman.Store.Messages.{add_outbox_item, prepare_outbox_for_write}

-- A temporary id and its bare form have one client id, and so one row.
outbox_client_id-pending :
    (t : String)
    → strip pending_prefix t ≡ none
    → outbox_client_id (String.◌++◌ pending_prefix t) ≡ outbox_client_id t
unfolding outbox_client_id bare
outbox_client_id-pending t plain = rw (strip-append pending_prefix t, plain)

prepare-id : (item : OutboxItem) → (prepare_outbox_for_write item).id ≡ item.id
unfolding payload
prepare-id item = ap (λ i. i.id) (payload-prepare item)

prepare-upload :
    (item : OutboxItem) → (prepare_outbox_for_write item).uploaded_image_id ≡ item.uploaded_image_id
unfolding prepare_outbox_for_write
prepare-upload item = refl

prepare-preview :
    (a b : OutboxItem)
    → a.kind ≡ b.kind
    → a.preview_data ≡ b.preview_data
    → a.image_bytes ≡ b.image_bytes
    → (prepare_outbox_for_write a).preview_data ≡ (prepare_outbox_for_write b).preview_data
unfolding prepare_outbox_for_write
prepare-preview a b k p i = rw (k, p, i) refl

prepare-active : (item : OutboxItem) → is_active (prepare_outbox_for_write item) ≡ is_active item
unfolding is_active prepare_outbox_for_write
prepare-active item = refl

prepare-temp :
    (item : OutboxItem) → (prepare_outbox_for_write item).temp_message_id ≡ item.temp_message_id
unfolding payload
prepare-temp item = ap (λ i. i.temp_message_id) (payload-prepare item)

client_again :
    (t : String)
    → strip pending_prefix (outbox_client_id t) ≡ none
    → outbox_client_id (outbox_client_id t) ≡ outbox_client_id t
unfolding outbox_client_id bare
client_again t plain = rw plain

module _ (db : Database) where
  -- The row of an item that is written.
  put-get :
      (k : String) (item : OutboxItem) (rows : db.outbox.Rows)
      → db.outbox.get k (db.outbox.put (prepare_outbox_for_write item) rows)
        ≡ (if item.id == k then some (prepare_outbox_for_write item) else db.outbox.get k rows)
  put-get k item rows =
      db.outbox.get-put k (prepare_outbox_for_write item) rows
      ∙ ap (λ x. if x == k then some (prepare_outbox_for_write item) else db.outbox.get k rows)
          (prepare-id item)

  enqueue_outbox-get :
      (k : String) (item : OutboxItem) (s : Sender db)
      → db.outbox.get k (enqueue_outbox db item s).queue.store.outbox ≡ (
          if item.id == k
          then some (prepare_outbox_for_write item)
          else db.outbox.get k s.queue.store.outbox)
  unfolding enqueue_outbox add_outbox_item show_progress
  enqueue_outbox-get k item s = elim (Bool-cases (is_media item.kind)) [
    | inl e ↦ rw e (put-get k item s.queue.store.outbox)
    | inr e ↦ rw e (put-get k item s.queue.store.outbox)
  ]

  -- The second of two items with one id replaces the first.
  enqueue_outbox_again :
      (k : String) (a b : OutboxItem) (s : Sender db)
      → a.id ≡ b.id
      → db.outbox.get k (enqueue_outbox db b (enqueue_outbox db a s)).queue.store.outbox
        ≡ db.outbox.get k (enqueue_outbox db b s).queue.store.outbox
  enqueue_outbox_again k a b s e = elim (Bool-cases (b.id == k)) [
    | inl f ↦
        enqueue_outbox-get k b (enqueue_outbox db a s)
        ∙ rw f (sym (enqueue_outbox-get k b s ∙ rw f))
    | inr f ↦
        enqueue_outbox-get k b (enqueue_outbox db a s)
        ∙ rw f (enqueue_outbox-get k a s ∙ other f ∙ sym (enqueue_outbox-get k b s ∙ rw f))
  ]
    where
      other :
          (b.id == k) ≡ false
          → (if a.id == k
              then some (prepare_outbox_for_write a)
              else db.outbox.get k s.queue.store.outbox)
            ≡ db.outbox.get k s.queue.store.outbox
      other f = let g : (a.id == k) ≡ false = ap (λ x. x == k) e ∙ f in rw g

  -- Sending again under the `pending-` form of an id replaces the row of the first attempt: the queue
  -- is as if the message had been enqueued once, with the later data.
  pub enqueue_text_once :
      (chat_id t ciphertext iv again_ciphertext again_iv plain_text : String) (reply : Option Reply)
      (now later : ℕ) (s : Sender db) (k : String)
      → strip pending_prefix t ≡ none
      → let first = text_item chat_id t ciphertext iv plain_text reply now in
        let second =
          text_item chat_id
            (String.◌++◌ pending_prefix t)
            again_ciphertext
            again_iv
            plain_text
            reply
            later in
        db.outbox.get k (enqueue_outbox db second (enqueue_outbox db first s)).queue.store.outbox
        ≡ db.outbox.get k (enqueue_outbox db second s).queue.store.outbox
  unfolding text_item
  enqueue_text_once chat_id t c v c' v' p r now later s k plain =
      enqueue_outbox_again k (text_item chat_id t c v p r now)
        (text_item chat_id (String.◌++◌ pending_prefix t) c' v' p r later) s
        (ap (outbox_item_id OutboxKind.text) (sym (outbox_client_id-pending t plain)))

  -- What is promised of the row after a retry.
  pub record IsRetried (item : OutboxItem) (q : Queue db) : Type 0 where
    pub row : OutboxItem
    pub found : db.outbox.get item.id q.store.outbox ≡ some row
    pub active : is_active row ≡ true
    -- Nothing of what the item carries differs, but the temporary id, which is the client id.
    pub same_content :
        payload row
        ≡ payload (record item { temp_message_id = outbox_client_id item.temp_message_id })
    pub same_upload : row.uploaded_image_id ≡ item.uploaded_image_id
    pub same_preview : row.preview_data ≡ (prepare_outbox_for_write item).preview_data
    pub same_client : outbox_client_id row.temp_message_id ≡ outbox_client_id item.temp_message_id

  -- A retry queues the item again under its own id, not parked, with all that it carries, its upload
  -- and the same client id, if the client id is not itself a temporary id. The preview is that of an
  -- item that is written, and the temporary id becomes the client id.
  pub retry_found-IsRetried :
      (item : OutboxItem) (q : Queue db)
      → strip pending_prefix (outbox_client_id item.temp_message_id) ≡ none
      → IsRetried item (retry_found db item q)
  unfolding retry_found add_outbox_item show_progress is_active payload
  retry_found-IsRetried item q plain = record {
    row = prepare_outbox_for_write (cleared db item);
    found = found_row;
    active = prepare-active (cleared db item);
    same_content = payload-prepare (cleared db item) ∙ same_payload;
    same_upload = prepare-upload (cleared db item);
    same_preview = prepare-preview (cleared db item) item refl refl refl;
    same_client =
        ap outbox_client_id (prepare-temp (cleared db item))
        ∙ client_again item.temp_message_id plain;
  }
    where
      key : String
      key = outbox_client_id item.temp_message_id

      same_payload : payload (cleared db item) ≡ payload (record item { temp_message_id = key })
      same_payload = refl

      written : Local db
      written = add_outbox_item db (cleared db item) q.store

      bubble : (mark_bubble db (pending_flags db) item key written).outbox ≡ written.outbox
      bubble = mark_bubble-outbox db (pending_flags db) item key written

      row_written :
          db.outbox.get item.id (mark_bubble db (pending_flags db) item key written).outbox
          ≡ some (prepare_outbox_for_write (cleared db item))
      row_written =
          ap (db.outbox.get item.id) bubble
          ∙ (put-get item.id (cleared db item) q.store.outbox ∙ rw (eq_refl item.id))

      found_row :
          db.outbox.get item.id (retry_found db item q).store.outbox
          ≡ some (prepare_outbox_for_write (cleared db item))
      found_row = elim (Bool-cases (is_media item.kind)) [
        | inl e ↦ rw e row_written
        | inr e ↦ rw e row_written
      ]
