-- ===== src/Store/Upsert.antt =====
-- The upsert of an incoming message into the local store: client/src/lib/message-upsert.ts.
pub mod Rows
pub mod Kept
pub mod Saved
use Prim.Native.String
use coachman.Common.{
  String, Bool, true, false, ◌&&◌, ◌||◌, not, Option, none, some, List, find, coalesce, default,
  truthy, is_true, if◌then◌else◌, ◌==◌,
}
use coachman.Message.{StoredMessage}
use coachman.Message.Identity.{pending_prefix, message_client_key, same_message_identity}
use coachman.Message.Merge.{merge_message_entity}
use coachman.Store.{Database, Local}
use coachman.Store.Messages.{
  save_message, get_messages, get_message, replace_pending_message,
  remove_outbox_by_temp_message_id,
}

-- A row that is found and has the identity of `incoming`.
abbrev pub if_same : StoredMessage → Option StoredMessage → Option StoredMessage
if_same incoming none = none
if_same incoming (some m) = if same_message_identity m incoming then some m else none

-- `client_id` as a key of the queue, if it is there and not empty
abbrev pub nonempty : Option String → Option String
nonempty none = none
nonempty (some k) = if truthy k then some k else none

module _ (db : Database) where
  -- The legacy rows of the chat: a pending one is taken first.
  abbrev pub find_legacy : StoredMessage → Local db → Option StoredMessage
  find_legacy incoming st =
      let existing = get_messages db incoming.chat_id st in
      coalesce (find (λ m. is_true m.pending && same_message_identity m incoming) existing)
        (find (λ m. same_message_identity m incoming) existing)

  -- The lookup for this client key of `incoming`.
  pub find_by_key : StoredMessage → Local db → Option String → Option StoredMessage
  find_by_key incoming st none = if_same incoming (get_message db incoming.id st)
  find_by_key incoming st (some key) =
      coalesce (if_same incoming (get_message db (String.◌++◌ pending_prefix key) st))
        (coalesce (if_same incoming (get_message db incoming.id st)) (find_legacy incoming st))

  unfoldable pub find_stored_message_for_upsert : StoredMessage → Local db → Option StoredMessage
  unfolding find_by_key
  find_stored_message_for_upsert incoming st =
      find_by_key incoming st (nonempty (message_client_key incoming))

  -- `if (clientId) await removeOutboxByTempMessageId(clientId)`
  unfoldable pub remove_queued : Option String → Local db → Local db
  remove_queued none st = st
  remove_queued (some k) st = if truthy k then remove_outbox_by_temp_message_id db k st else st

  abbrev pub confirmed_incoming : StoredMessage → StoredMessage
  confirmed_incoming incoming = record incoming {
    pending = some false;
    failed = some false;
    error = none;
  }

  -- The merged row, for the row that was found.
  abbrev pub merged_for : Option StoredMessage → StoredMessage → StoredMessage
  merged_for none incoming = confirmed_incoming incoming
  merged_for (some match) incoming = merge_message_entity match (confirmed_incoming incoming)

  -- How the merged row is written.
  unfoldable pub store_merged : Option StoredMessage → StoredMessage → Local db → Local db
  unfolding remove_queued
  store_merged none merged st = remove_queued merged.client_id (save_message db merged st)
  store_merged (some match) merged st =
      if is_true match.pending && not (match.id == merged.id)
      then remove_outbox_by_temp_message_id db match.id
          (remove_queued match.client_id (replace_pending_message db match.id merged st))
      else remove_queued merged.client_id (save_message db merged st)

  -- `none` where it throws.
  unfoldable pub upsert_stored_message :
      StoredMessage → Local db → Option (StoredMessage × Local db)
  unfolding find_stored_message_for_upsert store_merged
  upsert_stored_message incoming st =
      if not (truthy incoming.chat_id) || not (truthy incoming.id)
      then none
      else let match = find_stored_message_for_upsert incoming st in
        let merged = merged_for match incoming in some (merged, store_merged match merged st)
