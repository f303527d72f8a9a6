-- ===== src/History/Paging.antt =====
-- The window of the feed and the chunks above it: client/src/lib/chat-history-sync.ts.
use coachman.Common.{
  ℕ, ◌-◌, min, List, ◌++◌, length, take-append-drop, length-drop, leb, Bool-cases, ◌≡◌, refl, inl,
  inr, arith,
}
use coachman.Message.{StoredMessage}
use coachman.History.{slice_recent_messages, RecentSlice, take_older_chunk, OlderChunk}

-- The slice shows the newest rows, as many as the window holds, and keeps all others in order.
pub record IsSlice (messages : List StoredMessage) (window : ℕ) (s : RecentSlice) : Type 0 where
  pub whole : s.older ++ s.visible ≡ messages
  pub size : length s.visible ≡ min window (length messages)

pub slice_recent_messages-IsSlice :
    (messages : List StoredMessage) (window : ℕ)
    → IsSlice messages window (slice_recent_messages messages window)
unfolding slice_recent_messages
slice_recent_messages-IsSlice messages window = elim (Bool-cases (leb (length messages) window)) [
  | inl h ↦ rw h (record { whole = refl; size = ground arith })
  | inr h ↦ rw h (record {
    whole = take-append-drop _ messages;
    size = ground (arith, length-drop (length messages - window) messages);
  })
]

-- A chunk holds the newest of the older rows, at most `limit`; what remains is in front of it.
pub record IsChunk (older : List StoredMessage) (limit : ℕ) (c : OlderChunk) : Type 0 where
  pub whole : c.remaining ++ c.chunk ≡ older
  pub size : length c.chunk ≡ min limit (length older)

take_older_chunk-IsChunk :
    (older : List StoredMessage) (limit : ℕ) → IsChunk older limit (take_older_chunk older limit)
unfolding take_older_chunk
take_older_chunk-IsChunk older limit = elim (Bool-cases (leb (length older) limit)) [
  | inl h ↦ rw h (record { whole = refl; size = ground arith })
  | inr h ↦ rw h (record {
    whole = take-append-drop _ older;
    size = ground (arith, length-drop (length older - limit) older);
  })
]

-- Paging loses, repeats and reorders no row: the window and what is above it are the list, and so
-- are the next chunk and what is above that; each takes as many rows as it may.
pub paging_whole :
    (messages : List StoredMessage) (window limit : ℕ)
    → IsSlice messages window (slice_recent_messages messages window)
      × IsChunk
          (slice_recent_messages messages window).older
          limit
          (take_older_chunk (slice_recent_messages messages window).older limit)
paging_whole messages window limit =
    (slice_recent_messages-IsSlice messages window, take_older_chunk-IsChunk _ limit)
