-- ===== src/Message/Replies.antt =====
-- Quotes in the feed: client/src/lib/message-reply.ts.
-- The preview of a message (chat-format.ts) trims and cuts texts and is a parameter.
use coachman.Common.{
  String, Bool, true, false, ◌&&◌, ◌||◌, not, Option, none, some, List, [], ◌∷◌, map, insert,
  lookup, present, default, is_true, is_some, strip, or_text, if◌then◌else◌,
}
use coachman.Message.{MessageType, StoredMessage}

-- `new Map(messages.map((m) => [m.id, m]))`
abbrev pub rows_by_id :
    List StoredMessage → List (String × StoredMessage) → List (String × StoredMessage)
rows_by_id [] rows = rows
rows_by_id (m ∷ ms) rows = rows_by_id ms (insert m.id m rows)

abbrev pub can_quote_type : MessageType → Bool
can_quote_type MessageType.text = true
can_quote_type MessageType.image = true
can_quote_type MessageType.video = true
can_quote_type _ = false

unfoldable pub can_reply_to_message : StoredMessage → Bool
can_reply_to_message m =
    not (is_true m.pending || is_true m.failed)
    && (not (is_some (strip "pending-" m.id)) && can_quote_type m.type)

module _ (preview : StoredMessage → String) where
  -- A row with the fields of `buildReplySnapshot`.
  abbrev pub with_snapshot : StoredMessage → StoredMessage → StoredMessage
  with_snapshot parent m = record m {
    reply_to_message_id = some parent.id;
    reply_to_sender_id = some parent.sender_id;
    reply_to_sender_name = some (or_text parent.sender_name "…");
    reply_to_preview = some (preview parent);
    reply_to_type = some parent.type;
  }

  abbrev pub with_parent : Option StoredMessage → StoredMessage → StoredMessage
  with_parent none m = m
  with_parent (some parent) m = with_snapshot parent m

  unfoldable pub fill_reply_snapshot : List (String × StoredMessage) → StoredMessage → StoredMessage
  fill_reply_snapshot rows m =
      if not (present m.reply_to_message_id)
      then m
      else if present m.reply_to_preview
      then m
      else with_parent (lookup (default "" m.reply_to_message_id) rows) m

  unfoldable pub fill_reply_snapshots : List StoredMessage → List StoredMessage
  unfolding fill_reply_snapshot
  fill_reply_snapshots messages = map (fill_reply_snapshot (rows_by_id messages [])) messages
