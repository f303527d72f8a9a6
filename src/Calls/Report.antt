-- ===== src/Calls/Report.antt =====
-- The message that reports how a call ended: client/src/lib/call-events.ts.
-- JSON and encryption are parameters. The chat is that of the event, and a duration is a whole number
-- of seconds. The flush of the send queue that a report starts at its end is left out.
pub mod Once
use Prim.Native.String
use coachman.Common.{
  ℕ, ◌/◌, ◌%◌, String, Bool, true, false, ◌&&◌, ◌||◌, not, Option, none, some, List, [], ◌∷◌, any,
  filter, default, is_some, strip, ltb, eqb, if◌then◌else◌, ◌==◌, ◌≡◌,
}
use coachman.Message.{StoredMessage, MessageType}
use coachman.Outbox.{OutboxItem, OutboxKind, Notify, outbox_client_id}
use coachman.Outbox.State.{Queue}
use coachman.Outbox.Enqueue.{Sender, system_item, enqueue_outbox}
use coachman.Store.{Database, Local}
use coachman.Store.Messages.{get_messages, save_message}

pub data CallEventKind : Type 0 where
  no_answer rejected ended failed : CallEventKind

pub record CallEventReport : Type 0 where
  pub chat_id : String
  pub call_id : String
  pub kind : CallEventKind
  pub duration_sec : Option ℕ

-- `CallEventPayload`, of version 1.
pub record CallEventPayload : Type 0 where
  pub kind : CallEventKind
  pub call_id : String
  pub duration_sec : Option ℕ

-- Hours, minutes and seconds; hours are shown only if there are any.
pub record Duration : Type 0 where
  pub hours : Option ℕ
  pub minutes : ℕ
  pub seconds : ℕ

unfoldable pub format_call_duration : ℕ → Duration
format_call_duration sec = record {
  hours = if ltb 0 (sec / 3600) then some (sec / 3600) else none;
  minutes = sec % 3600 / 60;
  seconds = sec % 60;
}

-- What is shown: the number of a duration stands for its text.
pub data Label : Type 0 where
  rejected_call missed_call failed_call : Label
  ended_call : Duration → Label

abbrev pub format_call_event_label : CallEventKind → Option ℕ → Label
format_call_event_label rejected sec = rejected_call
format_call_event_label no_answer sec = missed_call
format_call_event_label failed sec = failed_call
format_call_event_label ended sec = ended_call (format_call_duration (default 0 sec))

-- The duration is kept of a call that took place.
abbrev pub reported_duration : CallEventKind → Option ℕ → Option ℕ
reported_duration ended sec = sec
reported_duration _ sec = none

unfoldable pub call_event_payload : CallEventReport → CallEventPayload
call_event_payload ev = record {
  kind = ev.kind;
  call_id = ev.call_id;
  duration_sec = reported_duration ev.kind ev.duration_sec;
}

abbrev pub kind_name : CallEventKind → String
kind_name no_answer = "no_answer"
kind_name rejected = "rejected"
kind_name ended = "ended"
kind_name failed = "failed"

abbrev pub kind_of : String → Option CallEventKind
kind_of name =
    if name == "no_answer"
    then some no_answer
    else if name == "rejected"
    then some rejected
    else if name == "ended"
    then some ended
    else if name == "failed"
    then some failed
    else none

-- The fields of a JSON object that are of the type that the code tests for.
pub record JsonFields : Type 0 where
  pub version : Option ℕ
  pub kind : Option String
  pub call_id : Option String
  pub duration_sec : Option ℕ

abbrev pub fields : CallEventPayload → JsonFields
fields p = record {
  version = some 1;
  kind = some (kind_name p.kind);
  call_id = some p.call_id;
  duration_sec = p.duration_sec;
}

-- `JSON.stringify` of a payload, and `JSON.parse` of a text that is trimmed and starts with a brace.
-- What is written is read back.
pub record CallJson : Type 0 where
  pub stringify : CallEventPayload → String
  pub parse : String → Option JsonFields
  pub parse-stringify : (p : CallEventPayload) → parse (stringify p) ≡ some (fields p)

abbrev pub is_version : Option ℕ → Bool
is_version none = false
is_version (some v) = eqb v 1

abbrev pub payload_of : Option CallEventKind → String → Option ℕ → Option CallEventPayload
payload_of none call_id sec = none
payload_of (some kind) call_id sec =
    some (record { kind = kind; call_id = call_id; duration_sec = sec })

abbrev pub checked : Option String → Option String → Option ℕ → Option CallEventPayload
checked (some kind) (some call_id) sec = payload_of (kind_of kind) call_id sec
checked _ _ sec = none

unfoldable pub parse_fields : Option JsonFields → Option CallEventPayload
parse_fields none = none
parse_fields (some f) =
    if is_version f.version then checked f.kind f.call_id f.duration_sec else none

-- `text.includes(part)`
unfoldable pub includes : String → String → Bool
includes String.[] part = is_some (strip part "")
includes (String.◌∷◌ c text) part = is_some (strip part (String.◌∷◌ c text)) || includes text part

abbrev pub is_call : MessageType → Bool
is_call MessageType.call = true
is_call _ = false

abbrev pub has_call_id : String → Option CallEventPayload → Bool
has_call_id call_id none = false
has_call_id call_id (some p) = p.call_id == call_id

module _ (json : CallJson) where
  unfoldable pub encode_call_event_payload : CallEventReport → String
  unfolding call_event_payload
  encode_call_event_payload ev = json.stringify (call_event_payload ev)

  unfoldable pub parse_call_event_payload : String → Option CallEventPayload
  unfolding parse_fields
  parse_call_event_payload text = parse_fields (json.parse text)

  unfoldable pub message_mentions_call_id : String → StoredMessage → Bool
  unfolding includes parse_call_event_payload
  message_mentions_call_id call_id msg =
      is_call msg.type
      && (includes msg.text call_id || has_call_id call_id (parse_call_event_payload msg.text))

  -- The bubble of the report.
  unfoldable pub pending_report : ℕ → CallEventReport → String → String → StoredMessage
  unfolding encode_call_event_payload
  pending_report now ev user_id username = record {
    id = String.◌++◌ "pending-call-" ev.call_id;
    chat_id = ev.chat_id;
    sender_id = user_id;
    sender_name = username;
    text = encode_call_event_payload ev;
    type = MessageType.call;
    image_url = none;
    poster_url = none;
    image_id = none;
    album_id = none;
    reply_to_message_id = none;
    reply_to_sender_id = none;
    reply_to_sender_name = none;
    reply_to_preview = none;
    reply_to_type = none;
    client_id = some (outbox_client_id (String.◌++◌ "pending-call-" ev.call_id));
    sequence = none;
    created_at = now;
    pending = some true;
    provisional = none;
    failed = none;
    error = none;
  }

  module _ (db : Database) (user_id username : String) where
    -- Whether a message of the chat is of the call.
    abbrev pub is_reported : CallEventReport → Sender db → Bool
    is_reported ev s =
        any (message_mentions_call_id ev.call_id) (get_messages db ev.chat_id s.queue.store)

    -- The row and the item in the send queue, with the text and the preview that were encrypted.
    unfoldable pub write_report :
        ℕ → CallEventReport → String → String → String → Sender db → Sender db
    unfolding system_item pending_report encode_call_event_payload
    write_report now ev ciphertext iv label s =
        let temp_id = String.◌++◌ "pending-call-" ev.call_id in
        let payload = encode_call_event_payload ev in
        let item =
          system_item OutboxKind.call ev.chat_id temp_id ciphertext iv payload label Notify.badge
            now in
        let queued = enqueue_outbox db item s in
        record queued {
          queue = record queued.queue {
            store = save_message db (pending_report now ev user_id username) queued.queue.store;
          };
        }

    -- `postCallEventMessageOnce`: `encrypted` is the envelope of the payload, `none` if the encryption
    -- throws. The result is `false` for an exception.
    unfoldable pub post_call_event_message_once :
        ℕ → CallEventReport → Option (String × String) → String → Sender db → Bool × Sender db
    unfolding write_report message_mentions_call_id
    post_call_event_message_once now ev none label s = (is_reported ev s, s)
    post_call_event_message_once now ev (some (ciphertext, iv)) label s =
        (true, if is_reported ev s then s else write_report now ev ciphertext iv label s)
