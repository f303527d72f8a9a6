-- ===== src/Message/Merge.antt =====
-- The merge of two representations of one logical message: `mergeMessageEntity` and its helpers
-- of client/src/lib/message-identity.ts.
pub mod Confirm
pub mod Fields
pub mod Again
pub mod Absorb
pub mod Keys
use coachman.Common.{
  ℕ, String, Bool, true, false, ◌&&◌, ◌||◌, not, none, some, truthy, or_text, or_opt, coalesce,
  default, is_true, ltb, leb, eqb, if◌then◌else◌, ◌==◌,
}
use coachman.Message.{StoredMessage}
use coachman.Message.Identity.{message_server_id, message_client_key, is_confirmed}

abbrev pub decrypt_failure : String
decrypt_failure = "[не удалось расшифровать]"

abbrev pub own_unreadable : String
own_unreadable = "[ваше сообщение]"

unfoldable pub is_unreadable_text : String → Bool
is_unreadable_text text = not (truthy text) || (text == decrypt_failure || text == own_unreadable)

unfoldable pub prefer_readable_text : String → String → String
prefer_readable_text primary secondary =
    if is_unreadable_text primary && not (is_unreadable_text secondary)
    then secondary
    else or_text (or_text primary secondary) ""

-- `m.sequence ?? 0`
abbrev pub sequence_or_zero : StoredMessage → ℕ
sequence_or_zero m = default 0 m.sequence

-- Whether the `primary` row of the merge is `incoming`.
unfoldable pub incoming_is_primary : StoredMessage → StoredMessage → Bool
incoming_is_primary existing incoming =
    if is_confirmed incoming && not (is_confirmed existing)
    then true
    else if is_confirmed existing && not (is_confirmed incoming)
    then false
    else if not (eqb (sequence_or_zero incoming) (sequence_or_zero existing))
    then ltb (sequence_or_zero existing) (sequence_or_zero incoming)
    else leb existing.created_at incoming.created_at

-- The object literal that `mergeMessageEntity` returns.
unfoldable pub merge_rows : StoredMessage → StoredMessage → StoredMessage
merge_rows primary secondary =
    let confirmed = is_confirmed primary || is_confirmed secondary in
    record {
      id = default primary.id (coalesce (message_server_id primary) (message_server_id secondary));
      chat_id = primary.chat_id;
      sender_id = primary.sender_id;
      sender_name = or_text (or_text primary.sender_name secondary.sender_name) "?";
      text = prefer_readable_text primary.text secondary.text;
      type = primary.type;
      image_url = or_opt primary.image_url secondary.image_url;
      poster_url = or_opt primary.poster_url secondary.poster_url;
      image_id = coalesce primary.image_id secondary.image_id;
      album_id = coalesce primary.album_id secondary.album_id;
      reply_to_message_id = coalesce primary.reply_to_message_id secondary.reply_to_message_id;
      reply_to_sender_id = coalesce primary.reply_to_sender_id secondary.reply_to_sender_id;
      reply_to_sender_name = coalesce primary.reply_to_sender_name secondary.reply_to_sender_name;
      reply_to_preview = coalesce primary.reply_to_preview secondary.reply_to_preview;
      reply_to_type = coalesce primary.reply_to_type secondary.reply_to_type;
      client_id = or_opt primary.client_id (
          or_opt secondary.client_id
            (or_opt (message_client_key primary) (message_client_key secondary)));
      sequence = coalesce primary.sequence secondary.sequence;
      created_at = primary.created_at;
      pending = some (if confirmed then false else is_true primary.pending);
      provisional = some (
          if confirmed
          then false
          else is_true primary.provisional || is_true secondary.provisional);
      failed = if confirmed then some false else coalesce primary.failed secondary.failed;
      error = if confirmed then none else coalesce primary.error secondary.error;
    }

unfoldable pub merge_message_entity : StoredMessage → StoredMessage → StoredMessage
unfolding incoming_is_primary
merge_message_entity existing incoming =
    if incoming_is_primary existing incoming
    then merge_rows incoming existing
    else merge_rows existing incoming
