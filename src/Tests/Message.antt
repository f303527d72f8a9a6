-- ===== src/Tests/Message.antt =====
-- Rows of the feed, and the theorems on their identity, merge and dedupe at those rows:
-- client/src/lib/message-identity.ts and client/src/lib/message-dedupe.ts.
use Prim.Native.String
use mathlib.Core.List.{Perm}
use coachman.Common.{
  ℕ, All, get_elem?, if◌then◌else◌, ◌==◌, String, true, false, Option, none, some, List, [], ◌∷◌,
  Ordering, strip, lookup, sort, ◌≡◌, refl,
}
use coachman.Message.{StoredMessage, MessageType}
use mathlib.Core.Option.{some-injective}
use coachman.Message.Identity.{
  pending_prefix, bare, server_id_of, client_key_of, message_server_id, message_client_key,
  same_message_identity, is_confirmed,
}
use coachman.Message.Merge.{
  is_unreadable_text, prefer_readable_text, merge_rows, merge_message_entity,
}
use coachman.Message.Merge.Confirm.{IsConfirmedBy, merge_message_entity_confirmed}
use coachman.Message.Merge.Absorb.{merge_message_entity_again}
use coachman.Message.Merge.Keys.{same_message_identity-merge}
use coachman.Message.Unchanged.{message_unchanged}
use coachman.Message.Order.{compare_messages}
use coachman.Message.Dedupe.{dedupe_stored_messages, find_message_by_temp_id}
use coachman.Message.Dedupe.Groups.{AllMergeOf, concat}
use coachman.Message.Dedupe.Sound.{dedupe_stored_messages-MergeOf}
use coachman.Message.Dedupe.Located.{IsCoherent}
use coachman.Message.Dedupe.Distinct.{dedupe_stored_messages_distinct}

-- Texts by their code points, as the locale of the tests.
abbrev pub by_code_point : String → String → Ordering
by_code_point a b = String.compare a b

-- A bubble that waits for the server.
abbrev pub pending_row : StoredMessage
pending_row = record {
  id = "pending-u1";
  chat_id = "c";
  sender_id = "me";
  sender_name = "Я";
  text = "hi";
  type = MessageType.text;
  image_url = some "blob:1";
  poster_url = none;
  image_id = none;
  album_id = none;
  reply_to_message_id = none;
  reply_to_sender_id = none;
  reply_to_sender_name = none;
  reply_to_preview = none;
  reply_to_type = none;
  client_id = some "u1";
  sequence = none;
  created_at = 10;
  pending = some true;
  provisional = none;
  failed = none;
  error = some "x";
}

-- The server's echo of it.
abbrev pub echo_row : StoredMessage
echo_row = record pending_row {
  id = "s1";
  text = "[ваше сообщение]";
  image_url = none;
  sequence = some 7;
  created_at = 12;
  pending = none;
  error = none;
}

-- A message of the peer.
abbrev pub peer_row : StoredMessage
peer_row = record echo_row { id = "s2"; client_id = none; sequence = some 8; created_at = 13 }

abbrev pub rows : List StoredMessage
rows = peer_row ∷ pending_row ∷ echo_row ∷ []

-- The rows of one message have its client key.
abbrev pub test_key : String → Option String
test_key id = if id == "s2" then none else some "u1"

unfoldable pub program : Unit {0}
unfolding strip bare server_id_of client_key_of message_server_id message_client_key
    same_message_identity is_confirmed is_unreadable_text prefer_readable_text merge_rows
    merge_message_entity message_unchanged compare_messages sort lookup dedupe_stored_messages
    find_message_by_temp_id
program = tt

merged_row : StoredMessage
merged_row = record echo_row {
  text = "hi";
  image_url = some "blob:1";
  pending = some false;
  provisional = some false;
  failed = some false;
}

merge_keeps_text : merge_message_entity pending_row echo_row ≡ merged_row
unfolding program merged_row
merge_keeps_text = refl

dedupe_rows : dedupe_stored_messages by_code_point rows ≡ merged_row ∷ peer_row ∷ []
unfolding program merged_row
dedupe_rows = refl

-- Rows with and without a sequence have no order: each of these is before the next, and the last
-- is before the first.
abbrev early_echo : StoredMessage
early_echo = record echo_row { sequence = some 1; created_at = 30 }

abbrev local_row : StoredMessage
local_row = record pending_row { created_at = 20 }

abbrev late_echo : StoredMessage
late_echo = record peer_row { sequence = some 2; created_at = 10 }

order_has_a_cycle :
    (compare_messages by_code_point early_echo late_echo ≡ Ordering.lt)
    × (compare_messages by_code_point late_echo local_row ≡ Ordering.lt)
    × (compare_messages by_code_point local_row early_echo ≡ Ordering.lt)
unfolding program
order_has_a_cycle = (refl, refl, refl)

found_bubble : find_message_by_temp_id rows "u1" ≡ some pending_row
unfolding program
found_bubble = refl

merge_message_entity_confirmed_example :
    IsConfirmedBy pending_row echo_row (merge_message_entity pending_row echo_row)
unfolding program
merge_message_entity_confirmed_example = merge_message_entity_confirmed pending_row echo_row refl

merge_message_entity_again_example :
    message_unchanged
      (merge_message_entity pending_row echo_row)
      (merge_message_entity (merge_message_entity pending_row echo_row) echo_row)
    ≡ true
merge_message_entity_again_example = merge_message_entity_again pending_row echo_row

plain_key : (k : String) → message_client_key pending_row ≡ some k → strip pending_prefix k ≡ none
unfolding program
plain_key k e = rw (← some-injective _ _ e)

same_message_identity-merge_example :
    (same_message_identity (merge_message_entity pending_row echo_row) pending_row ≡ true)
    × (same_message_identity (merge_message_entity pending_row echo_row) echo_row ≡ true)
unfolding program
same_message_identity-merge_example =
    same_message_identity-merge pending_row echo_row refl plain_key

dedupe_stored_messages-MergeOf_example :
    (gs : List (List StoredMessage)) × AllMergeOf (dedupe_stored_messages by_code_point rows) gs
    × Perm (concat gs) rows
dedupe_stored_messages-MergeOf_example = dedupe_stored_messages-MergeOf by_code_point rows

peer_plain : (k : String) → message_client_key peer_row ≡ some k → strip pending_prefix k ≡ none
unfolding program
peer_plain k e = cc

echo_plain : (k : String) → message_client_key echo_row ≡ some k → strip pending_prefix k ≡ none
unfolding program
echo_plain k e = rw (← some-injective _ _ e)

rows-IsCoherent : All (IsCoherent test_key) rows
unfolding program
rows-IsCoherent =
    let peer : IsCoherent test_key peer_row = record {
      keyed = refl;
      nonempty = refl;
      queued = λ h. cc;
      plain = peer_plain;
    } in
    let pending : IsCoherent test_key pending_row = record {
      keyed = refl;
      nonempty = refl;
      queued = λ h. refl;
      plain = plain_key;
    } in
    let echo : IsCoherent test_key echo_row = record {
      keyed = refl;
      nonempty = refl;
      queued = λ h. refl;
      plain = echo_plain;
    } in
    (peer, (pending, (echo, tt)))

first_row :
    get_elem? (dedupe_stored_messages by_code_point rows) 0
    ≡ some (merge_message_entity pending_row echo_row)
unfolding program
first_row = refl

self_same :
    same_message_identity
      (merge_message_entity pending_row echo_row)
      (merge_message_entity pending_row echo_row)
    ≡ true
unfolding program
self_same = refl

dedupe_stored_messages_distinct_example : ◌≡◌ {A = ℕ} 0 0
dedupe_stored_messages_distinct_example =
    dedupe_stored_messages_distinct by_code_point test_key rows rows-IsCoherent 0 0
      (merge_message_entity pending_row echo_row) (merge_message_entity pending_row echo_row)
      first_row first_row self_same
