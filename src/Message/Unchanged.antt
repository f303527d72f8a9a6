-- ===== src/Message/Unchanged.antt =====
-- When a merge left a row as it was: `isFalsy` and `messageUnchanged` of
-- client/src/lib/message-reconcile.ts. A field counts as unchanged if its two values are equal or
-- both are `null`, `false` or the empty text.
use coachman.Common.{
  ℕ, String, Bool, true, false, ◌&&◌, ◌||◌, not, Option, none, some, present, eqb, is_true, ◌==◌,
}
use coachman.Message.{StoredMessage, MessageType, text, image, video, call, list}

abbrev pub same_text : String → String → Bool
same_text a b = a == b

abbrev equal_opt_text : Option String → Option String → Bool
equal_opt_text none none = true
equal_opt_text (some a) (some b) = a == b
equal_opt_text _ _ = false

-- an optional text
abbrev pub same_opt_text : Option String → Option String → Bool
same_opt_text a b = equal_opt_text a b || (not (present a) && not (present b))

-- an optional flag
abbrev pub same_flag : Option Bool → Option Bool → Bool
same_flag (some true) (some true) = true
same_flag (some true) b = false
same_flag a b = not (is_true b)

-- an optional number; 0 is not falsy here
abbrev pub same_number : Option ℕ → Option ℕ → Bool
same_number none none = true
same_number (some a) (some b) = eqb a b
same_number _ _ = false

abbrev pub type_code : MessageType → ℕ
type_code text = 0
type_code image = 1
type_code video = 2
type_code call = 3
type_code list = 4

abbrev pub same_type : MessageType → MessageType → Bool
same_type a b = eqb (type_code a) (type_code b)

abbrev pub same_opt_type : Option MessageType → Option MessageType → Bool
same_opt_type none none = true
same_opt_type (some a) (some b) = same_type a b
same_opt_type _ _ = false

unfoldable pub same_content : StoredMessage → StoredMessage → Bool
same_content a b =
    same_text a.id b.id
    && (same_text a.chat_id b.chat_id
        && (same_text a.sender_id b.sender_id
            && (same_text a.sender_name b.sender_name
                && (same_text a.text b.text
                    && (same_type a.type b.type
                        && (same_opt_text a.image_url b.image_url
                            && (same_opt_text a.poster_url b.poster_url
                                && (same_opt_text a.image_id b.image_id
                                    && same_opt_text a.album_id b.album_id))))))))

unfoldable pub same_reply : StoredMessage → StoredMessage → Bool
same_reply a b =
    same_opt_text a.reply_to_message_id b.reply_to_message_id
    && (same_opt_text a.reply_to_sender_id b.reply_to_sender_id
        && (same_opt_text a.reply_to_sender_name b.reply_to_sender_name
            && (same_opt_text a.reply_to_preview b.reply_to_preview
                && same_opt_type a.reply_to_type b.reply_to_type)))

unfoldable pub same_status : StoredMessage → StoredMessage → Bool
same_status a b =
    same_opt_text a.client_id b.client_id
    && (same_number a.sequence b.sequence
        && (eqb a.created_at b.created_at
            && (same_flag a.pending b.pending
                && (same_flag a.provisional b.provisional
                    && (same_flag a.failed b.failed && same_opt_text a.error b.error)))))

unfoldable pub message_unchanged : StoredMessage → StoredMessage → Bool
unfolding same_content same_reply same_status
message_unchanged a b = same_content a b && (same_reply a b && same_status a b)
