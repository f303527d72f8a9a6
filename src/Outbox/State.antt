-- ===== src/Outbox/State.antt =====
-- What the send queue keeps besides its store, client/src/lib/outbox.ts, and the progress of
-- transfers, client/src/lib/transfer-progress.ts. The listeners of the page are outputs: what the
-- error reporter and the window are told is a log, the latest first.
use Prim.Native.String
use coachman.Common.{
  ℕ, min, String, Bool, true, false, ◌&&◌, ◌||◌, not, Option, none, some, List, [], ◌∷◌, any,
  lookup, insert, remove, truthy, present, eqb, if◌then◌else◌, ◌==◌,
}
use coachman.Message.{StoredMessage, RawMessage}
use coachman.Message.Dedupe.{find_message_by_temp_id}
use coachman.Outbox.{OutboxItem, OutboxKind, text, is_media}
use coachman.Outbox.Request.{SendRequest}
use coachman.Store.{Database, Local}
use coachman.Store.Messages.{save_message, get_messages, add_outbox_item, remove_outbox_item}

pub data TransferKind : Type 0 where
  upload download queued : TransferKind

pub record TransferProgress : Type 0 where
  pub percent : ℕ
  pub kind : TransferKind

pub record OutboxErrorInfo : Type 0 where
  pub temp_message_id : String
  pub chat_id : String
  pub kind : OutboxKind
  pub message : String
  pub will_retry : Bool

-- The events `outbox-flushed` and `outbox-failed`, the latter with the temporary id and the chat.
pub data QueueEvent : Type 0 where
  flushed : QueueEvent
  failed_item : String → String → QueueEvent

pub record Queue (db : Database) : Type 0 where
  pub store : Local db
  pub attempts : List (String × ℕ)
  pub reported : List String
  pub reports : List OutboxErrorInfo
  pub progress : List (String × TransferProgress)
  pub events : List QueueEvent
  -- the requests that were sent, the latest first
  pub requests : List SendRequest
  -- the messages that `onSent` was called with
  pub sent : List RawMessage

abbrev pub kind_code : TransferKind → ℕ
kind_code upload = 0
kind_code download = 1
kind_code queued = 2

abbrev pub same_progress : Option TransferProgress → TransferProgress → Bool
same_progress none p = false
same_progress (some prev) p =
    eqb prev.percent p.percent && eqb (kind_code prev.kind) (kind_code p.kind)

-- `setTransferProgress`, for a whole number of percent.
unfoldable pub set_transfer_progress :
    String → ℕ → TransferKind → List (String × TransferProgress) → List (String × TransferProgress)
set_transfer_progress key percent kind progress =
    let p : TransferProgress = record { percent = min 100 percent; kind = kind } in
    if not (truthy key) || same_progress (lookup key progress) p
    then progress
    else insert key p progress

-- `clearTransferProgress`
unfoldable pub clear_transfer_progress :
    String → List (String × TransferProgress) → List (String × TransferProgress)
clear_transfer_progress key progress = if truthy key then remove key progress else progress

-- The text that repeated reports are told apart by.
abbrev pub report_key : OutboxItem → String → Bool → String
report_key item message will_retry =
    String.◌++◌ item.temp_message_id
      (String.◌++◌ (if will_retry then ":true:" else ":false:") message)

abbrev pub failed_flags : String → StoredMessage → StoredMessage
failed_flags message row = record row {
  pending = some false;
  failed = some true;
  error = some message;
}

-- An item with the reason of its failure; `flushOutbox` passes it over.
abbrev pub parked : ℕ → String → OutboxItem → OutboxItem
parked now message item = record item { failed_at = some now; fail_reason = some message }

abbrev pub is_text : OutboxKind → Bool
is_text text = true
is_text _ = false

module _ (db : Database) where
  -- A request is sent.
  abbrev pub request : SendRequest → Queue db → Queue db
  request r q = record q { requests = r ∷ q.requests }

  unfoldable pub report_outbox_error : OutboxItem → String → Bool → Queue db → Queue db
  report_outbox_error item message will_retry q =
      let key = report_key item message will_retry in
      if any (λ k. k == key) q.reported then q else (record q {
        reported = key ∷ q.reported;
        reports =
            record {
              temp_message_id = item.temp_message_id;
              chat_id = item.chat_id;
              kind = item.kind;
              message = message;
              will_retry = will_retry;
            }
            ∷ q.reports;
      })

  unfoldable pub show_progress : String → ℕ → TransferKind → Queue db → Queue db
  unfolding set_transfer_progress
  show_progress key percent kind q = record q {
    progress = set_transfer_progress key percent kind q.progress;
  }

  unfoldable pub hide_progress : String → Queue db → Queue db
  unfolding clear_transfer_progress
  hide_progress key q = record q { progress = clear_transfer_progress key q.progress }

  -- The queued mark of every media item that waits, but for the active one.
  unfoldable pub mark_image_queue : List OutboxItem → String → Queue db → Queue db
  unfolding show_progress
  mark_image_queue [] active q = q
  mark_image_queue (item ∷ items) active q =
      let skipped =
        not (is_media item.kind)
        || (present item.uploaded_image_id || (truthy active && item.temp_message_id == active)) in
      mark_image_queue items active
        (if skipped then q else show_progress item.temp_message_id 0 queued q)

  -- The bubble of an item with new flags, if there is one.
  unfoldable pub mark_bubble :
      (StoredMessage → StoredMessage) → OutboxItem → String → Local db → Local db
  mark_bubble flags item temp_id st =
      elim (find_message_by_temp_id (get_messages db item.chat_id st) temp_id) [
        | none ↦ st
        | some row ↦ save_message db (flags row) st
      ]

  -- The end of `markImageFailed` and `markTextFailed`.
  abbrev pub tell_failed : OutboxItem → String → Queue db → Queue db
  tell_failed item message q =
      let told = report_outbox_error item message false q in
      record told { events = failed_item item.temp_message_id item.chat_id ∷ told.events }

  -- The store after a failure: the item is parked, or removed if its kind cannot be.
  abbrev pub park : Bool → ℕ → String → OutboxItem → Local db → Local db
  park keeps now message item st =
      mark_bubble (failed_flags message) item item.temp_message_id
        (if keeps then add_outbox_item db (parked now message item) st else st)

  unfoldable pub mark_image_failed : ℕ → OutboxItem → String → Queue db → Queue db
  unfolding mark_bubble report_outbox_error hide_progress
  mark_image_failed now item message q =
      let hidden = hide_progress item.temp_message_id q in
      tell_failed item message (record hidden {
        attempts = remove item.temp_message_id hidden.attempts;
        store = park (is_media item.kind) now message item hidden.store;
      })

  unfoldable pub mark_text_failed : ℕ → OutboxItem → String → Queue db → Queue db
  unfolding mark_bubble report_outbox_error
  mark_text_failed now item message q = tell_failed item message (record q {
    attempts = remove item.temp_message_id q.attempts;
    store =
        if is_text item.kind
        then park true now message item q.store
        else mark_bubble (failed_flags message) item item.temp_message_id
            (remove_outbox_item db item.id q.store);
  })
