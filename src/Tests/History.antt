-- ===== src/Tests/History.antt =====
-- The history of a chat at concrete lists: client/src/lib/chat-history-sync.ts.
use coachman.Common.{◌<◌, some, List, [], ◌∷◌, ◌≡◌, refl, inl, inr, arith}
use coachman.Message.{StoredMessage}
use coachman.History.{
  is_decrypt_placeholder, catch_up_after_sequence, history_fetch_mode, incremental,
  slice_recent_messages, take_older_chunk, max_message_sequence, min_message_sequence,
}
use coachman.History.Cursor.{catch_up-before_failed}
use coachman.History.Paging.{IsSlice, IsChunk, paging_whole}
use coachman.Tests.Message.{echo_row, peer_row}

-- An envelope that could not be decrypted, between readable rows.
abbrev cached : List StoredMessage
cached =
    record peer_row { text = "hello"; sequence = some 5 }
    ∷ echo_row
    ∷ record peer_row { text = "later" }
    ∷ []

abbrev readable : List StoredMessage
readable =
    record peer_row { text = "hello"; sequence = some 5 } ∷ record peer_row { text = "later" } ∷ []

cursor_of_failed : catch_up_after_sequence cached ≡ 6
unfolding catch_up_after_sequence is_decrypt_placeholder max_message_sequence min_message_sequence
cursor_of_failed = refl

cursor_of_readable : catch_up_after_sequence readable ≡ 8
unfolding catch_up_after_sequence is_decrypt_placeholder max_message_sequence min_message_sequence
cursor_of_readable = refl

mode_of_cached : history_fetch_mode cached ≡ incremental
unfolding history_fetch_mode max_message_sequence
mode_of_cached = refl

catch_up-before_failed_example : catch_up_after_sequence cached < 7
unfolding is_decrypt_placeholder
catch_up-before_failed_example =
    catch_up-before_failed cached echo_row (inr (inl refl)) refl (omega arith)

paging_whole_example :
    IsSlice cached 1 (slice_recent_messages cached 1)
    × IsChunk
        (slice_recent_messages cached 1).older
        1
        (take_older_chunk (slice_recent_messages cached 1).older 1)
paging_whole_example = paging_whole cached 1 1
