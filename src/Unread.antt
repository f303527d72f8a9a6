-- ===== src/Unread.antt =====
-- Read marks and unread counts: client/src/lib/unread.ts.
-- The key table of storage.ts is an association list, and the number under a key is the one that the
-- source writes as text. `posted` lists the calls of api.markChatRead, whose failures are ignored.
pub mod Laws
use Prim.Native.String
use coachman.Common.{
  ℕ, max, String, Bool, ◌&&◌, ◌||◌, not, Option, none, some, List, [], ◌∷◌, length, filter, any,
  lookup, insert, default, is_true, leb, ltb, if◌then◌else◌, ◌==◌,
}
use coachman.Message.{StoredMessage}
use coachman.Store.{Database, Local, LastMessage}
use coachman.Store.Messages.{get_messages}

-- A chat, with the fields that the count reads.
pub record Chat : Type 0 where
  pub id : String
  pub last_message : Option LastMessage

pub record Marks : Type 0 where
  pub keys : List (String × ℕ)
  pub posted : List (String × ℕ)

abbrev pub read_key : String → String → String
read_key user_id chat_id = String.◌++◌ "readAt:" (String.◌++◌ user_id (String.◌++◌ ":" chat_id))

unfoldable pub get_last_read_at : String → String → Marks → ℕ
get_last_read_at user_id chat_id st = default 0 (lookup (read_key user_id chat_id) st.keys)

unfoldable pub set_last_read_at : Bool → String → String → ℕ → Marks → ℕ × Marks
unfolding get_last_read_at
set_last_read_at online user_id chat_id at st =
    let prev = get_last_read_at user_id chat_id st in
    let next = max prev at in
    if leb next prev then (prev, st) else (
      next,
      record {
        keys = insert (read_key user_id chat_id) next st.keys;
        posted = if online then (chat_id, next) ∷ st.posted else st.posted;
      },
    )

abbrev pub is_unread : String → ℕ → StoredMessage → Bool
is_unread user_id last_read m =
    not (is_true m.pending) && (not (m.sender_id == user_id) && ltb last_read m.created_at)

-- The count from the rows of the chat and its mark.
unfoldable pub count_rows : Option LastMessage → String → ℕ → List StoredMessage → ℕ
count_rows none user_id last_read rows = length (filter (is_unread user_id last_read) rows)
count_rows (some last) user_id last_read rows =
    let local_count = length (filter (is_unread user_id last_read) rows) in
    if last.sender_id == user_id || leb last.created_at last_read
    then local_count
    else if any (λ m. m.id == last.id) rows
    then local_count
    else max local_count 1

module _ (db : Database) where
  unfoldable pub count_unread_for_chat : Chat → String → Local db → Marks → ℕ
  unfolding count_rows get_last_read_at
  count_unread_for_chat chat user_id st marks =
      count_rows chat.last_message user_id (get_last_read_at user_id chat.id marks)
        (get_messages db chat.id st)

  -- The counts of all chats; the source computes them six at a time.
  unfoldable pub compute_unread_counts :
      List Chat → String → Local db → Marks → List (String × ℕ) → List (String × ℕ)
  unfolding count_unread_for_chat
  compute_unread_counts [] user_id st marks counts = counts
  compute_unread_counts (chat ∷ chats) user_id st marks counts =
      compute_unread_counts chats user_id st marks
        (insert chat.id (count_unread_for_chat chat user_id st marks) counts)
