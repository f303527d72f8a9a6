-- ===== src/Store/Upsert/Saved.antt =====
-- What an upsert writes: client/src/lib/message-upsert.ts.
use coachman.Common.{true, false, Option, none, some, is_true, ◌==◌, ◌≡◌}
use coachman.Message.{StoredMessage}
use coachman.Store.{Database, Local}
use coachman.Store.Messages.{stored}
use coachman.Store.Upsert.{find_stored_message_for_upsert}

module _ (db : Database) where
  -- What is promised of the store after an upsert of a server row: the merged row is stored as it is,
  -- without its media URLs, and not as a pending one; a bubble that was found under another id is gone.
  pub record IsUpserted (incoming merged : StoredMessage) (st after : Local db) : Type 0 where
    pub row : db.messages.get merged.id after.messages ≡ some (stored merged)
    pub settled : merged.pending ≡ some false
    pub replaced :
        (bubble : StoredMessage)
        → find_stored_message_for_upsert db incoming st ≡ some bubble
        → is_true bubble.pending ≡ true
        → (bubble.id == merged.id) ≡ false
        → db.messages.get bubble.id after.messages ≡ none
