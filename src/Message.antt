-- ===== src/Message.antt =====
-- The rows of the local message store: `StoredMessage` of client/src/lib/storage.ts, and the
-- server's envelope `RawMessage` of client/src/lib/api.ts.
-- An optional field is an `Option`; `undefined` and a missing field are both `none`.
pub mod Identity
pub mod Merge
pub mod Unchanged
pub mod Order
pub mod Priority
pub mod Dedupe
pub mod Reconcile
pub mod Replies
use coachman.Common.{ℕ, String, Bool, Option}

pub data MessageType : Type 0 where
  text image video call list : MessageType

pub record StoredMessage : Type 0 where
  pub id : String
  pub chat_id : String
  pub sender_id : String
  pub sender_name : String
  pub text : String
  pub type : MessageType
  pub image_url : Option String
  pub poster_url : Option String
  pub image_id : Option String
  pub album_id : Option String
  pub reply_to_message_id : Option String
  pub reply_to_sender_id : Option String
  pub reply_to_sender_name : Option String
  pub reply_to_preview : Option String
  pub reply_to_type : Option MessageType
  pub client_id : Option String
  pub sequence : Option ℕ
  pub created_at : ℕ
  pub pending : Option Bool
  pub provisional : Option Bool
  pub failed : Option Bool
  pub error : Option String

pub record RawMessage : Type 0 where
  pub id : String
  pub chat_id : String
  pub sender_id : String
  pub ciphertext : String
  pub iv : String
  pub type : MessageType
  pub image_id : Option String
  pub album_id : Option String
  pub reply_to_message_id : Option String
  pub client_id : Option String
  pub sequence : Option ℕ
  pub created_at : ℕ
