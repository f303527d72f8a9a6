-- ===== src/Outbox.antt =====
-- The rows of the send queue: `OutboxItem` of client/src/lib/storage.ts, and their identity in
-- client/src/lib/outbox.ts.
-- An item is one record with the fields of all kinds; a field that a kind does not have is `none` or
-- empty. Bytes are a list of numbers.
pub mod Errors
pub mod Request
pub mod State
pub mod Deliver
pub mod Send
pub mod Lanes
pub mod Safe
pub mod Acked
pub mod Enqueue
use Prim.Native.String
use coachman.Common.{
  ℕ, String, Bool, true, false, ◌||◌, not, Option, none, some, List, [], ◌∷◌, length, default, eqb,
  ◌==◌,
}
use coachman.Message.{MessageType}
use coachman.Message.Identity.{bare}

pub data OutboxKind : Type 0 where
  text call list image video : OutboxKind

pub data Notify : Type 0 where
  alert badge : Notify

-- The reply fields of an item.
pub record Reply : Type 0 where
  pub message_id : Option String
  pub sender_id : Option String
  pub sender_name : Option String
  pub preview : Option String
  pub type : Option MessageType

pub record OutboxItem : Type 0 where
  pub id : String
  pub chat_id : String
  pub temp_message_id : String
  pub kind : OutboxKind
  pub created_at : ℕ
  -- text, call and list
  pub ciphertext : String
  pub iv : String
  pub plain_text : String
  -- call and list
  pub push_body : String
  pub notify : Option Notify
  -- image and video
  pub image_bytes : List ℕ
  pub image_mime_type : String
  pub msg_ciphertext : String
  pub msg_iv : String
  pub preview_data : List ℕ
  pub preview_mime_type : String
  pub album_id : Option String
  pub uploaded_image_id : Option String
  -- text, image and video
  pub reply : Reply
  pub failed_at : Option ℕ
  pub fail_reason : Option String

abbrev pub kind_name : OutboxKind → String
kind_name text = "text"
kind_name call = "call"
kind_name list = "list"
kind_name image = "image"
kind_name video = "video"

-- `item.kind === 'image' || item.kind === 'video'`
abbrev pub is_media : OutboxKind → Bool
is_media image = true
is_media video = true
is_media _ = false

-- `outboxClientId`
unfoldable pub outbox_client_id : String → String
unfolding bare
outbox_client_id temp_message_id = bare temp_message_id

unfoldable pub outbox_item_id : OutboxKind → String → String
unfolding outbox_client_id
outbox_item_id kind temp_message_id =
    String.◌++◌ (kind_name kind) (String.◌++◌ ":" (outbox_client_id temp_message_id))

-- An item with a `failedAt` is parked.
unfoldable pub is_active : OutboxItem → Bool
is_active item = eqb (default 0 item.failed_at) 0

unfoldable pub same_outbox_identity : OutboxItem → String → Bool
unfolding outbox_client_id
same_outbox_identity item temp_message_id =
    outbox_client_id item.temp_message_id == outbox_client_id temp_message_id

-- User content is never dropped for a server error; it is parked.
unfoldable pub is_user_content : OutboxItem → Bool
is_user_content item = elim item.kind [ call ↦ false | list ↦ false | _ ↦ true ]
