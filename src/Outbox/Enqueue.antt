-- ===== src/Outbox/Enqueue.antt =====
-- Putting items into the send queue, and retrying a parked one: the `enqueue` functions, `wakeOutbox`
-- and `retryOutboxItem` of client/src/lib/outbox.ts. Waiting for the store is left out, and so is the
-- flush at the end of a retry, which is `flush_lane_queue`.
pub mod Identity
use coachman.Common.{
  ℕ, String, Bool, true, false, ◌&&◌, ◌||◌, not, Option, none, some, List, [], ◌∷◌, find, remove,
  length, present, eqb, if◌then◌else◌, ◌==◌,
}
use coachman.Message.{StoredMessage}
use coachman.Outbox.{
  OutboxItem, OutboxKind, text, image, video, call, list, Notify, Reply, is_media, outbox_client_id,
  outbox_item_id, same_outbox_identity,
}
use coachman.Outbox.State.{Queue, queued, failed_item, show_progress, mark_bubble}
use coachman.Outbox.Lanes.{Lane, woken}
use coachman.Store.{Database, Local}
use coachman.Store.Messages.{save_message, add_outbox_item, get_outbox_items}

-- The queue and its two lanes.
pub record Sender (db : Database) : Type 0 where
  pub queue : Queue db
  pub message_state : Lane
  pub image_state : Lane

abbrev pub no_reply : Reply
no_reply = record {
  message_id = none;
  sender_id = none;
  sender_name = none;
  preview = none;
  type = none;
}

-- `reply?.replyToMessageId ? { … } : {}`
abbrev pub reply_fields : Option Reply → Reply
reply_fields none = no_reply
reply_fields (some reply) = if present reply.message_id then reply else no_reply

-- An item of a kind with no field of the kind set.
abbrev pub blank_item : OutboxKind → String → String → ℕ → OutboxItem
blank_item kind chat_id temp_message_id now = record {
  id = outbox_item_id kind (outbox_client_id temp_message_id);
  chat_id = chat_id;
  temp_message_id = outbox_client_id temp_message_id;
  kind = kind;
  created_at = now;
  ciphertext = "";
  iv = "";
  plain_text = "";
  push_body = "";
  notify = none;
  image_bytes = [];
  image_mime_type = "";
  msg_ciphertext = "";
  msg_iv = "";
  preview_data = [];
  preview_mime_type = "";
  album_id = none;
  uploaded_image_id = none;
  reply = no_reply;
  failed_at = none;
  fail_reason = none;
}

-- The bytes of a photo or video, its preview and the envelope of its message.
pub record MediaInput : Type 0 where
  pub bytes : List ℕ
  pub mime_type : String
  pub msg_ciphertext : String
  pub msg_iv : String
  pub preview_data : List ℕ
  pub preview_mime_type : String

unfoldable pub text_item :
    String → String → String → String → String → Option Reply → ℕ → OutboxItem
text_item chat_id temp_message_id ciphertext iv plain_text reply now =
    record (blank_item text chat_id temp_message_id now) {
      ciphertext = ciphertext;
      iv = iv;
      plain_text = plain_text;
      reply = reply_fields reply;
    }

-- The item of a call (`Notify.badge`) or of a list event.
unfoldable pub system_item :
    OutboxKind → String → String → String → String → String → String → Notify → ℕ → OutboxItem
system_item kind chat_id temp_message_id ciphertext iv plain_text push_body notify now =
    record (blank_item kind chat_id temp_message_id now) {
      ciphertext = ciphertext;
      iv = iv;
      plain_text = plain_text;
      push_body = push_body;
      notify = some notify;
    }

-- A preview like the photo is left out.
abbrev pub same_preview : MediaInput → Bool
same_preview media =
    eqb (length media.preview_data) 0
    || (eqb (length media.preview_data) (length media.bytes)
        && media.preview_mime_type == media.mime_type)

unfoldable pub image_item :
    String → String → MediaInput → Option String → Option Reply → ℕ → OutboxItem
image_item chat_id temp_message_id media album_id reply now =
    record (blank_item image chat_id temp_message_id now) {
      image_bytes = media.bytes;
      image_mime_type = media.mime_type;
      msg_ciphertext = media.msg_ciphertext;
      msg_iv = media.msg_iv;
      preview_data = if same_preview media then [] else media.preview_data;
      preview_mime_type = media.preview_mime_type;
      album_id = album_id;
      reply = reply_fields reply;
    }

unfoldable pub video_item : String → String → MediaInput → Option Reply → ℕ → OutboxItem
video_item chat_id temp_message_id media reply now =
    record (blank_item video chat_id temp_message_id now) {
      image_bytes = media.bytes;
      image_mime_type = media.mime_type;
      msg_ciphertext = media.msg_ciphertext;
      msg_iv = media.msg_iv;
      preview_data = media.preview_data;
      preview_mime_type = media.preview_mime_type;
      reply = reply_fields reply;
    }

module _ (db : Database) where
  -- New work ends the backoff of both lanes.
  unfoldable pub wake_outbox : Sender db → Sender db
  wake_outbox s = record {
    queue = record s.queue { reported = [] };
    message_state = woken s.message_state;
    image_state = woken s.image_state;
  }

  -- The item is stored, and media are marked as waiting.
  unfoldable pub enqueue_outbox : OutboxItem → Sender db → Sender db
  unfolding wake_outbox
  enqueue_outbox item s =
      let q = s.queue in
      let added : Queue db = record q { store = add_outbox_item db item q.store } in
      wake_outbox (record s {
        queue =
            if is_media item.kind
            then show_progress db item.temp_message_id 0 queued added
            else added;
      })

  abbrev can_retry : OutboxKind → Bool
  can_retry call = false
  can_retry list = false
  can_retry _ = true

  -- The parked item without the marks of its failure, under its client id.
  abbrev pub cleared : OutboxItem → OutboxItem
  cleared item = record item {
    temp_message_id = outbox_client_id item.temp_message_id;
    failed_at = none;
    fail_reason = none;
  }

  abbrev pub pending_flags : StoredMessage → StoredMessage
  pending_flags row = record row { pending = some true; failed = some false; error = none }

  -- The retry of the item that was found.
  unfoldable pub retry_found : OutboxItem → Queue db → Queue db
  unfolding show_progress mark_bubble
  retry_found item q =
      let key = outbox_client_id item.temp_message_id in
      let stored_again =
        mark_bubble db pending_flags item key (add_outbox_item db (cleared item) q.store) in
      let q' : Queue db = record q {
        store = stored_again;
        attempts = remove item.temp_message_id (remove key q.attempts);
      } in
      let shown = if is_media item.kind then show_progress db key 0 queued q' else q' in
      record shown { events = failed_item key item.chat_id ∷ shown.events }

  unfoldable pub retry_outbox_item : String → Queue db → Queue db
  unfolding retry_found
  retry_outbox_item temp_message_id q =
      elim (find (λ i. same_outbox_identity i temp_message_id) (get_outbox_items db q.store)) [
        | none ↦ q
        | some item ↦ if can_retry item.kind then retry_found item q else q
      ]
