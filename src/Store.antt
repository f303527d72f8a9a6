-- ===== src/Store.antt =====
-- The object stores of the local database, which is IndexedDB and the `idb` package: what
-- client/src/lib/storage.ts relies on. A store holds at most one row for a key.
pub mod Table
pub mod Messages
pub mod Upsert
use coachman.Common.{ℕ, String, Option, none, some, List, In, if◌then◌else◌, ◌==◌, ◌≡◌, ◌↔◌}
use coachman.Message.{StoredMessage, MessageType}
use coachman.Outbox.{OutboxItem}

pub record ObjectStore {V : Type 0} (key : V → String) : Type 1 where
  pub Rows : Type 0
  pub get : String → Rows → Option V
  pub put : V → Rows → Rows
  pub delete : String → Rows → Rows
  -- every row, in some order
  pub all : Rows → List V
  pub get-key : (k : String) (v : V) (rows : Rows) → get k rows ≡ some v → key v ≡ k
  -- `put` replaces the row of the same key and no other
  pub get-put :
      (k : String) (v : V) (rows : Rows)
      → get k (put v rows) ≡ (if key v == k then some v else get k rows)
  pub get-delete :
      (k j : String) (rows : Rows) → get k (delete j rows) ≡ (if j == k then none else get k rows)
  pub all-get : (v : V) (rows : Rows) → In v (all rows) ↔ (get (key v) rows ≡ some v)

pub record LastMessage : Type 0 where
  pub id : String
  pub sender_id : String
  pub type : MessageType
  pub created_at : ℕ

-- The part of a chat row that the functions on messages read and write.
pub record StoredChat : Type 0 where
  pub id : String
  pub last_message_at : Option ℕ
  pub last_message : Option LastMessage

abbrev pub message_key : StoredMessage → String
message_key m = m.id

abbrev pub chat_key : StoredChat → String
chat_key c = c.id

abbrev pub outbox_key : OutboxItem → String
outbox_key item = item.id

-- The stores of the database `coachman` that hold messages, chats and the send queue.
pub record Database : Type 1 where
  pub messages : ObjectStore message_key
  pub chats : ObjectStore chat_key
  pub outbox : ObjectStore outbox_key

-- What the stores hold.
pub record Local (db : Database) : Type 0 where
  pub messages : db.messages.Rows
  pub chats : db.chats.Rows
  pub outbox : db.outbox.Rows
