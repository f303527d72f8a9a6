-- ===== src/Tests/Outbox.antt =====
-- The local store and the send queue in memory: client/src/lib/storage.ts, message-upsert.ts and
-- outbox.ts of client/src/lib.
use coachman.Common.{
  true, false, ◌⊎◌, inl, inr, none, some, [], ◌∷◌, strip, lookup, ◌≡◌, refl, is_true, ◌==◌, arith,
}
use coachman.Message.{StoredMessage, RawMessage, MessageType}
use coachman.Message.Identity.{pending_prefix}
use coachman.Outbox.{OutboxItem, is_media, is_user_content, outbox_client_id, outbox_item_id}
use coachman.Outbox.Errors.{
  Thrown, error, is_offline_error, is_auth_error, is_forbidden_error, is_poison_image_error,
}
use coachman.Outbox.State.{Queue, report_outbox_error}
use coachman.Outbox.Deliver.{Net, has_bytes, deliver_outbox_item}
use coachman.Outbox.Deliver.Stable.{IsStable, deliver_outbox_item-IsStable}
use coachman.Outbox.Request.{truncate_push_body}
use coachman.Outbox.Send.Refused.{IsRefusal, IsParked, refused_four_times}
use coachman.Outbox.Send.{fail_send, Attempt, sent, retryable, dropped, try_send_item}
use coachman.Outbox.Safe.{try_send_item-Safe}
use coachman.Outbox.Safe.Failure.{Queued, Safe}
use coachman.Outbox.Enqueue.{text_item}
use coachman.Store.{Database, Local, message_key, chat_key, outbox_key}
use coachman.Store.Table.{table}
use coachman.Store.Upsert.{
  upsert_stored_message, merged_for, find_stored_message_for_upsert, store_merged,
}
use coachman.Store.Upsert.Rows.{Holds}
use coachman.Store.Upsert.Kept.{upsert_stored_message-Holds}
use coachman.Tests.Message.{pending_row, echo_row, peer_row, program}

abbrev pub memory : Database
memory = record { messages = table message_key; chats = table chat_key; outbox = table outbox_key }

abbrev empty_store : Local memory
unfolding table
empty_store = record { messages = []; chats = []; outbox = [] }

-- A text that waits to be sent.
abbrev pub hello : OutboxItem
hello = text_item "c" "pending-u1" "cipher" "iv" "hi" none 10

-- The bubble of the text, a message of the peer, and the text in the queue.
abbrev pub start : Local memory
unfolding table
start = record {
  messages = record pending_row { image_url = none } ∷ peer_row ∷ [];
  chats = [];
  outbox = hello ∷ [];
}

abbrev pub queue : Queue memory
queue = record {
  store = start;
  attempts = [];
  reported = [];
  reports = [];
  progress = [];
  events = [];
  requests = [];
  sent = [];
}

abbrev refused : Thrown
refused = error "Error" "database is locked" false false

abbrev answer : RawMessage
answer = record {
  id = "s1";
  chat_id = "c";
  sender_id = "me";
  ciphertext = "cipher";
  iv = "iv";
  type = MessageType.text;
  image_id = none;
  album_id = none;
  reply_to_message_id = none;
  client_id = some "u1";
  sequence = some 7;
  created_at = 12;
}

abbrev net : Thrown ⊎ RawMessage → Net
net send = record {
  percents = [];
  direct_upload = inl refused;
  api_percents = [];
  api_upload = inl refused;
  send = send;
}

-- The token is refused, refreshed, and the second delivery succeeds.
abbrev refreshed : Attempt
refreshed = record {
  first = net (inl (error "Error" "Unauthorized" false false));
  auth_retry = some (inr true);
  second = net (inr answer);
}

abbrev pub broken : Attempt
broken = record { first = net (inl refused); auth_retry = none; second = net (inl refused) }

offline_502 : is_offline_error (error "Error" " 502 Bad Gateway" false false) ≡ true
unfolding is_offline_error
offline_502 = refl

not_code_5021 : is_offline_error (error "Error" "5021 rows" false false) ≡ false
unfolding is_offline_error
not_code_5021 = refl

poison_format : is_poison_image_error (error "Error" "Unsupported image FORMAT" false false) ≡ true
unfolding is_poison_image_error
poison_format = refl

pub hello-Queued : Queued memory hello start
unfolding Queued table text_item outbox_item_id outbox_client_id strip
hello-Queued = (hello, refl, refl)

pub hello-is_user_content : is_user_content hello ≡ true
unfolding is_user_content text_item
hello-is_user_content = refl

pub hello-has_bytes : is_media hello.kind ≡ true → has_bytes hello ≡ true
unfolding text_item
hello-has_bytes m = cc

sent_after_refresh : (try_send_item memory 20 refreshed hello queue).0 ≡ sent
unfolding try_send_item text_item is_offline_error is_auth_error deliver_outbox_item
sent_after_refresh = refl

kept_when_broken : (try_send_item memory 20 broken hello queue).0 ≡ retryable
unfolding try_send_item text_item is_offline_error is_auth_error is_forbidden_error
    deliver_outbox_item fail_send is_user_content report_outbox_error lookup
kept_when_broken = refl

try_send_item-Safe_example :
    Safe memory hello refreshed (try_send_item memory 20 refreshed hello queue)
try_send_item-Safe_example =
    try_send_item-Safe memory 20 hello refreshed hello-is_user_content hello-has_bytes queue
      hello-Queued

deliver_outbox_item-IsStable_example :
    IsStable memory hello queue (deliver_outbox_item memory hello (net (inr answer)) queue)
deliver_outbox_item-IsStable_example =
    deliver_outbox_item-IsStable memory hello (net (inr answer)) queue

push_of_spaces : truncate_push_body "  a \n b  " ≡ "a b"
unfolding truncate_push_body
push_of_spaces = refl

refused-IsRefusal : IsRefusal refused
unfolding is_offline_error is_auth_error is_forbidden_error
refused-IsRefusal = record { online = refl; token = refl; access = refl }

hello_is_no_media : is_media hello.kind ≡ false
unfolding text_item
hello_is_no_media = refl

not_tried_yet : lookup hello.temp_message_id queue.attempts ≡ none
unfolding lookup
not_tried_yet = refl

refused_four_times_example :
    let first = fail_send memory 20 hello refused queue in
    let second = fail_send memory 20 hello refused first.1 in
    let third = fail_send memory 20 hello refused second.1 in
    let fourth = fail_send memory 20 hello refused third.1 in
    (first.0 ≡ retryable)
    × (second.0 ≡ retryable)
    × (third.0 ≡ retryable)
    × (fourth.0 ≡ dropped)
    × IsParked memory 20 hello hello_is_no_media hello-is_user_content fourth.1
refused_four_times_example =
    refused_four_times memory 20 hello hello_is_no_media hello-is_user_content refused refused
      refused refused queue refused-IsRefusal refused-IsRefusal refused-IsRefusal refused-IsRefusal
      not_tried_yet (omega arith)

-- The row of the echo after the upsert, and the store.
abbrev merged_echo : StoredMessage
merged_echo = merged_for memory (find_stored_message_for_upsert memory echo_row start) echo_row

abbrev after_echo : Local memory
after_echo =
    store_merged memory (find_stored_message_for_upsert memory echo_row start) merged_echo start

upsert_of_echo : upsert_stored_message memory echo_row start ≡ some (merged_echo, after_echo)
unfolding upsert_stored_message
upsert_of_echo = refl

peer_Holds : Holds memory "s2" peer_row start
unfolding table
peer_Holds = refl

echo_elsewhere : (merged_echo.id == "s2") ≡ false
unfolding program table find_stored_message_for_upsert
echo_elsewhere = refl

peer_is_settled : is_true peer_row.pending ≡ false
peer_is_settled = refl

peer_is_plain : strip pending_prefix "s2" ≡ none
unfolding program
peer_is_plain = refl

upsert_stored_message-Holds_example : Holds memory "s2" peer_row after_echo
upsert_stored_message-Holds_example =
    upsert_stored_message-Holds memory "s2" peer_row echo_row merged_echo start after_echo
      upsert_of_echo peer_is_settled peer_is_plain echo_elsewhere peer_Holds
