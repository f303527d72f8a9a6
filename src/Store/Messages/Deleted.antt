-- ===== src/Store/Messages/Deleted.antt =====
-- The deletion of a message and the send queue: client/src/lib/storage.ts.
use coachman.Common.{String, Bool, true, false, Option, none, some, if◌then◌else◌, ◌==◌, ◌≡◌, refl}
use coachman.Store.{Database, Local, StoredChat, LastMessage}
use coachman.Store.Messages.{delete_message_local, forget_last, show_last, first_row, remaining}

module _ (db : Database) where
  forget_last-outbox :
      (message_id : String) (chat : Option StoredChat) (st : Local db)
      → (forget_last db message_id chat st).outbox ≡ st.outbox
  unfolding forget_last
  forget_last-outbox message_id none st = refl
  forget_last-outbox message_id (some chat) st = of_last chat.last_message
    where
      of_same :
          (b : Bool) (after : Local db)
          → after.outbox ≡ st.outbox
          → (if b then after else st).outbox ≡ st.outbox
      of_same true after e = e
      of_same false after e = refl

      of_last :
          (o : Option LastMessage)
          → (elim o as (λ x. Local db) [
            | none ↦ st
            | some last ↦
                if last.id == message_id
                then (record st {
                  chats = show_last db chat (first_row db (remaining db chat.id st)) st.chats;
                })
                else st
          ]).outbox
            ≡ st.outbox
      of_last none = refl
      of_last (some last) = of_same (last.id == message_id) _ refl

  -- No row of the send queue changes.
  pub delete_message_local-outbox :
      (message_id chat_id : String) (st : Local db)
      → (delete_message_local db message_id chat_id st).outbox ≡ st.outbox
  unfolding delete_message_local
  delete_message_local-outbox message_id chat_id st = forget_last-outbox message_id _ _
