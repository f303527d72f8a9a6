-- ===== src/Outbox/Request.antt =====
-- What a delivery asks of the server: the requests of `deliverOutboxItem` of client/src/lib/outbox.ts,
-- and the push preview of client/src/lib/push-preview.ts.
use Prim.Native.Char.{code}
use Prim.Native.String
use coachman.Common.{
  ℕ, zero, suc, ◌-◌, String, Bool, true, false, ◌&&◌, Option, none, some, default, truthy, present,
  leb, if◌then◌else◌,
}
use coachman.Message.{MessageType}
use coachman.Outbox.{
  OutboxItem, OutboxKind, text, image, video, call, list, Notify, badge, outbox_client_id,
}
use coachman.Outbox.Errors.{is_space}

pub record SendRequest : Type 0 where
  pub chat_id : String
  pub ciphertext : String
  pub iv : String
  pub type : MessageType
  pub image_id : Option String
  pub album_id : Option String
  pub reply_to_message_id : Option String
  pub client_id : String
  pub notify : Option Notify
  pub push_body : Option String

abbrev pub max_push_body : ℕ
max_push_body = 120

-- `text.trim().replace(/\s+/g, ' ')`: `started` is set behind the first character that is kept, `gap`
-- behind a space after it.
unfoldable pub normalized_from : Bool → Bool → String → String
normalized_from started gap String.[] = ""
normalized_from started gap (String.◌∷◌ c s) = elim (is_space (code c)) [
  | true ↦ normalized_from started true s
  | false ↦
      String.◌++◌ (if started && gap then " " else "") (String.◌∷◌ c (normalized_from true false s))
]

abbrev pub char_count : String → ℕ
char_count String.[] = 0
char_count (String.◌∷◌ c s) = suc (char_count s)

abbrev pub first_chars : ℕ → String → String
first_chars zero s = ""
first_chars (suc n) String.[] = ""
first_chars (suc n) (String.◌∷◌ c s) = String.◌∷◌ c (first_chars n s)

unfoldable pub truncate_push_body : String → String
unfolding normalized_from
truncate_push_body body =
    let normalized = normalized_from false false body in
    if leb (char_count normalized) max_push_body
    then normalized
    else String.◌++◌ (first_chars (max_push_body - 1) normalized) "…"

-- `body || undefined`
abbrev pub nonempty_text : String → Option String
nonempty_text body = if truthy body then some body else none

unfoldable pub push_body_for_outbox_item : OutboxItem → Option String
unfolding truncate_push_body
push_body_for_outbox_item item = elim item.kind [
  | text ↦ nonempty_text (truncate_push_body item.plain_text)
  | call ↦ nonempty_text (truncate_push_body item.push_body)
  | list ↦ nonempty_text (truncate_push_body item.push_body)
  | _ ↦ none
]

-- The type of the message of an item.
abbrev pub sent_type : OutboxKind → MessageType
sent_type text = MessageType.text
sent_type call = MessageType.call
sent_type list = MessageType.list
sent_type image = MessageType.image
sent_type video = MessageType.video

-- A photo or video, with the id of its upload.
unfoldable pub media_request : OutboxItem → SendRequest
unfolding outbox_client_id push_body_for_outbox_item
media_request item = record {
  chat_id = item.chat_id;
  ciphertext = item.msg_ciphertext;
  iv = item.msg_iv;
  type = sent_type item.kind;
  image_id = item.uploaded_image_id;
  album_id = elim item.kind [ image ↦ item.album_id | _ ↦ none ];
  reply_to_message_id = item.reply.message_id;
  client_id = outbox_client_id item.temp_message_id;
  notify = none;
  push_body = push_body_for_outbox_item item;
}

-- A text, a call or a list event.
unfoldable pub message_request : OutboxItem → SendRequest
unfolding outbox_client_id push_body_for_outbox_item
message_request item = record {
  chat_id = item.chat_id;
  ciphertext = item.ciphertext;
  iv = item.iv;
  type = sent_type item.kind;
  image_id = none;
  album_id = none;
  reply_to_message_id = elim item.kind [
    | text ↦ if present item.reply.message_id then item.reply.message_id else none
    | _ ↦ none
  ];
  client_id = outbox_client_id item.temp_message_id;
  notify = elim item.kind [
    | call ↦ some (default badge item.notify)
    | list ↦ some (default badge item.notify)
    | _ ↦ none
  ];
  push_body = push_body_for_outbox_item item;
}
