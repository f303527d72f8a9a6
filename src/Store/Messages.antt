-- ===== src/Store/Messages.antt =====
-- The stores of messages, chats and the send queue: client/src/lib/storage.ts.
-- Every operation of the database succeeds; reads that hang and the retry of writes are left out.
pub mod Deleted
pub mod Roundtrip
use Prim.Native.String
use mathlib.Core.Option
use coachman.Common.{
  true, ℕ, compare, String, Bool, false, ◌&&◌, ◌||◌, not, Option, none, some, List, [], ◌∷◌, map,
  any, filter, find, sort, length, default, truthy, strip, or_text, is_true, leb, ltb, eqb,
  if◌then◌else◌, ◌==◌,
}
use coachman.Message.{StoredMessage}
use coachman.Message.Identity.{pending_prefix, is_temp, bare}
use coachman.Message.Dedupe.{client_is}
use coachman.Outbox.{OutboxItem, is_media}
use coachman.Store.{Database, Local, StoredChat, LastMessage}

-- A row as it is stored: media URLs live as long as the page.
unfoldable pub stored : StoredMessage → StoredMessage
stored msg = record msg { image_url = none; poster_url = none }

abbrev pub summary : StoredMessage → LastMessage
summary msg = record {
  id = msg.id;
  sender_id = msg.sender_id;
  type = msg.type;
  created_at = msg.created_at;
}

-- `!chat.lastMessageAt || createdAt >= chat.lastMessageAt`
abbrev pub is_latest : ℕ → StoredChat → Bool
is_latest created_at chat =
    eqb (default 0 chat.last_message_at) 0 || leb (default 0 chat.last_message_at) created_at

-- The rows that are not pending, and the latest of them, as the loop of `saveMessages` keeps them.
abbrev pub keep_latest : Option StoredMessage → StoredMessage → StoredMessage
keep_latest none msg = msg
keep_latest (some latest) msg = if leb latest.created_at msg.created_at then msg else latest

-- The tests of `listOrphanPendingMessages`.
unfoldable pub is_orphan : List String → StoredMessage → Bool
is_orphan queued m =
    is_true m.pending
    && not (any (λ k. k == m.id) queued)
    && not (truthy (default "" m.client_id) && any (client_is m) queued)
    && not (elim (strip pending_prefix m.id) [ none ↦ false | some k ↦ any (λ q. q == k) queued ])

-- The rows that `replacePendingMessage` clears for a client id.
abbrev pub is_pending_row : String → StoredMessage → Bool
is_pending_row client_id row =
    is_true row.pending
    && (client_is row client_id
        || (row.id == client_id || row.id == String.◌++◌ pending_prefix client_id))

-- What is written of a preview of a photo or video: one that is empty or as long as the payload is
-- left out.
abbrev pub written_preview : Bool → (preview payload : List ℕ) → List ℕ
written_preview false preview payload = preview
written_preview true preview payload =
    if ltb 0 (length preview) && not (eqb (length preview) (length payload)) then preview else []

-- What is read of it: an empty preview is the payload.
abbrev pub read_preview : Bool → (preview payload : List ℕ) → List ℕ
read_preview false preview payload = preview
read_preview true preview payload = if eqb (length preview) 0 then payload else preview

unfoldable pub prepare_outbox_for_write : OutboxItem → OutboxItem
prepare_outbox_for_write item = record item {
  preview_data = written_preview (is_media item.kind) item.preview_data item.image_bytes;
}

unfoldable pub normalize_outbox_item : OutboxItem → OutboxItem
normalize_outbox_item item = record item {
  preview_data = read_preview (is_media item.kind) item.preview_data item.image_bytes;
}

-- `a.createdAt - b.createdAt`
abbrev pub sort_items : List OutboxItem → List OutboxItem
sort_items = sort (λ a b. compare a.created_at b.created_at)

module _ (db : Database) where
  -- The chat of a saved message, if it is the latest.
  touch_chat :
      StoredMessage → Option LastMessage → Option StoredChat → db.chats.Rows → db.chats.Rows
  touch_chat msg last none chats = chats
  touch_chat msg last (some chat) chats =
      if is_latest msg.created_at chat
      then db.chats.put (record chat { last_message_at = some msg.created_at; last_message = last })
          chats
      else chats

  -- A pending message keeps the summary that the chat has.
  abbrev new_last : StoredMessage → Option StoredChat → Option LastMessage
  new_last msg none = none
  new_last msg (some chat) = if is_true msg.pending then chat.last_message else some (summary msg)

  unfoldable pub save_message : StoredMessage → Local db → Local db
  unfolding touch_chat
  save_message msg st =
      let chat = db.chats.get msg.chat_id st.chats in
      record st {
        messages = db.messages.put (stored msg) st.messages;
        chats = touch_chat msg (new_last msg chat) chat st.chats;
      }

  save_rows :
      List StoredMessage
      → Option StoredMessage
      → db.messages.Rows
      → db.messages.Rows × Option StoredMessage
  save_rows [] latest rows = (rows, latest)
  save_rows (msg ∷ msgs) latest rows =
      if is_true msg.pending
      then save_rows msgs latest rows
      else save_rows msgs (some (keep_latest latest msg)) (db.messages.put (stored msg) rows)

  unfoldable pub save_messages : List StoredMessage → Local db → Local db
  unfolding save_rows touch_chat
  save_messages msgs st =
      let (rows, latest) = save_rows msgs none st.messages in
      record st {
        messages = rows;
        chats = elim latest [
          | none ↦ st.chats
          | some msg ↦
              touch_chat msg (some (summary msg)) (db.chats.get msg.chat_id st.chats) st.chats
        ];
      }

  abbrev pub get_messages : String → Local db → List StoredMessage
  get_messages chat_id st = filter (λ m. m.chat_id == chat_id) (db.messages.all st.messages)

  abbrev pub get_message : String → Local db → Option StoredMessage
  get_message id st = if truthy id then db.messages.get id st.messages else none

  -- The rows of the chat that are not pending, the latest first.
  abbrev pub remaining : String → Local db → List StoredMessage
  remaining chat_id st =
      sort (λ a b. compare b.created_at a.created_at)
        (filter (λ m. not (is_true m.pending)) (get_messages chat_id st))

  abbrev first_row : List StoredMessage → Option StoredMessage
  first_row [] = none
  first_row (m ∷ ms) = some m

  -- The chat with the summary of this message.
  abbrev show_last : StoredChat → Option StoredMessage → db.chats.Rows → db.chats.Rows
  show_last chat latest chats =
      db.chats.put
        (record chat {
          last_message_at = Option.map (λ m. m.created_at) latest;
          last_message = Option.map summary latest;
        })
        chats

  -- The chat after a deletion, if it showed the deleted message.
  forget_last : String → Option StoredChat → Local db → Local db
  forget_last message_id none st = st
  forget_last message_id (some chat) st = elim chat.last_message [
    | none ↦ st
    | some last ↦
        if last.id == message_id
        then (record st { chats = show_last chat (first_row (remaining chat.id st)) st.chats })
        else st
  ]

  unfoldable pub delete_message_local : String → String → Local db → Local db
  unfolding forget_last
  delete_message_local message_id chat_id st =
      let deleted : Local db = record st { messages = db.messages.delete message_id st.messages } in
      forget_last message_id (db.chats.get chat_id deleted.chats) deleted

  abbrev pub list_orphan_pending_messages : List String → Local db → List StoredMessage
  list_orphan_pending_messages queued st = filter (is_orphan queued) (db.messages.all st.messages)

  unfoldable pub delete_rows : List StoredMessage → db.messages.Rows → db.messages.Rows
  delete_rows [] rows = rows
  delete_rows (m ∷ ms) rows = delete_rows ms (db.messages.delete m.id rows)

  -- The rows without the temporary one and its `pending-` twin.
  abbrev pub without_temp : String → Local db → Local db
  without_temp temp_id st =
      let rows = db.messages.delete temp_id st.messages in
      record st {
        messages =
            if is_temp temp_id
            then rows
            else db.messages.delete (String.◌++◌ pending_prefix temp_id) rows;
      }

  -- The rows without any pending one of the same client id.
  unfoldable pub clear_pending : String → StoredMessage → Local db → Local db
  unfolding delete_rows
  clear_pending temp_id message st =
      let client_id = or_text (default "" message.client_id) (bare temp_id) in
      if truthy (default "" message.client_id) || truthy temp_id
      then record st {
        messages =
            delete_rows (filter (is_pending_row client_id) (get_messages message.chat_id st))
              st.messages;
      }
      else st

  unfoldable pub replace_pending_message : String → StoredMessage → Local db → Local db
  unfolding clear_pending save_message
  replace_pending_message temp_id message st =
      save_message (record message { pending = some false; failed = some false; error = none })
        (clear_pending temp_id message (without_temp temp_id st))

  unfoldable pub add_outbox_item : OutboxItem → Local db → Local db
  add_outbox_item item st = record st {
    outbox = db.outbox.put (prepare_outbox_for_write item) st.outbox;
  }

  unfoldable pub get_outbox_items : Local db → List OutboxItem
  get_outbox_items st = sort_items (map normalize_outbox_item (db.outbox.all st.outbox))

  unfoldable pub remove_outbox_item : String → Local db → Local db
  remove_outbox_item id st = record st { outbox = db.outbox.delete id st.outbox }

  -- The first item with this temporary id is removed.
  unfoldable pub remove_outbox_by_temp_message_id : String → Local db → Local db
  unfolding get_outbox_items remove_outbox_item
  remove_outbox_by_temp_message_id temp_message_id st =
      elim (find (λ item. item.temp_message_id == temp_message_id) (get_outbox_items st)) [
        | none ↦ st
        | some item ↦ remove_outbox_item item.id st
      ]
