-- ===== src/Tests/Unread.antt =====
-- Read marks and unread counts of a small store: client/src/lib/unread.ts.
use coachman.Common.{true, some, [], ◌∷◌, lookup, ◌≡◌, refl}
use coachman.Unread.{
  Chat, Marks, read_key, get_last_read_at, set_last_read_at, count_unread_for_chat, count_rows,
  compute_unread_counts,
}
use coachman.Unread.Laws.{IsMarked, set_last_read_at-IsMarked}
use coachman.Message.{text}
use coachman.Store.Table.{table}
use coachman.Tests.Outbox.{memory, start}

-- A chat whose last message the store does not have.
abbrev chat : Chat
chat = record {
  id = "c";
  last_message = some (record { id = "s9"; sender_id = "peer"; type = text; created_at = 30 });
}

-- The chat was read at 5.
abbrev marks : Marks
marks = record { keys = (read_key "me" "c", 5) ∷ []; posted = [] }

one_unread : count_unread_for_chat memory chat "me" start marks ≡ 1
unfolding count_unread_for_chat count_rows get_last_read_at lookup table
one_unread = refl

one_count : compute_unread_counts memory (chat ∷ []) "me" start marks [] ≡ ("c", 1) ∷ []
unfolding compute_unread_counts count_unread_for_chat count_rows get_last_read_at lookup table
one_count = refl

set_last_read_at-IsMarked_example :
    IsMarked true "me" "c" 30 marks (set_last_read_at true "me" "c" 30 marks)
set_last_read_at-IsMarked_example = set_last_read_at-IsMarked true "me" "c" 30 marks
