-- ===== src/History.antt =====
-- Paging and catching up with the history of a chat: client/src/lib/chat-history-sync.ts.
pub mod Cursor
pub mod Paging
use Prim.Native.String
use coachman.Common.{
  ℕ, ◌-◌, String, Bool, true, false, ◌&&◌, ◌||◌, not, Option, none, some, List, [], ◌∷◌, length,
  take, drop, find, filter, insert, truthy, present, is_true, default, ltb, leb, eqb, if◌then◌else◌,
  ◌==◌,
}
use coachman.Message.{StoredMessage, RawMessage, MessageType, image, video}
use coachman.Message.Identity.{pending_prefix}
use coachman.Message.Dedupe.{client_is}
use coachman.Message.Merge.{decrypt_failure, own_unreadable}

abbrev pub history_initial_window : ℕ
history_initial_window = 150

abbrev pub history_page_size : ℕ
history_page_size = 100

abbrev pub history_prepend_chunk : ℕ
history_prepend_chunk = 80

unfoldable pub is_decrypt_placeholder : String → Bool
is_decrypt_placeholder text = text == decrypt_failure || text == own_unreadable

unfoldable pub has_usable_plaintext : StoredMessage → Bool
has_usable_plaintext msg = truthy msg.text && not (is_decrypt_placeholder msg.text)

abbrev is_media : MessageType → Bool
is_media image = true
is_media video = true
is_media _ = false

-- `a && b && a !== b`
abbrev differ : Option String → Option String → Bool
differ none b = false
differ (some a) none = false
differ (some a) (some b) = truthy a && truthy b && not (a == b)

unfoldable pub should_reuse_cached_message : Option StoredMessage → RawMessage → Bool
should_reuse_cached_message none raw = false
should_reuse_cached_message (some existing) raw =
    if not (has_usable_plaintext existing) || is_true existing.pending
    then false
    else not (is_media raw.type && differ raw.image_id existing.image_id)

-- `m.sequence ?? 0` of each message, stored or raw.
abbrev pub sequences : List StoredMessage → List ℕ
sequences [] = []
sequences (m ∷ ms) = default 0 m.sequence ∷ sequences ms

-- What the loops keep of a maximum or minimum so far and the next number.
pub keep_max : ℕ → ℕ → ℕ
keep_max max seq = if ltb max seq then seq else max

pub keep_min : ℕ → ℕ → ℕ
keep_min min seq = if not (leb seq 0) && (eqb min 0 || ltb seq min) then seq else min

pub max_from : ℕ → List ℕ → ℕ
max_from max [] = max
max_from max (seq ∷ seqs) = max_from (keep_max max seq) seqs

unfoldable pub max_message_sequence : List ℕ → ℕ
unfolding max_from keep_max
max_message_sequence seqs = max_from 0 seqs

pub min_from : ℕ → List ℕ → ℕ
min_from min [] = min
min_from min (seq ∷ seqs) = min_from (keep_min min seq) seqs

unfoldable pub min_message_sequence : List ℕ → ℕ
unfolding min_from keep_min
min_message_sequence seqs = min_from 0 seqs

-- The rows whose envelope could not be decrypted.
abbrev pub failed_rows : List StoredMessage → List StoredMessage
failed_rows = filter (λ m. is_decrypt_placeholder m.text)

unfoldable pub catch_up_after_sequence : List StoredMessage → ℕ
catch_up_after_sequence cached =
    let first = min_message_sequence (sequences (failed_rows cached)) in
    if ltb 0 (length (failed_rows cached)) && ltb 0 first
    then first - 1
    else max_message_sequence (sequences cached)

pub data HistoryFetchMode : Type 0 where
  incremental latest : HistoryFetchMode

unfoldable pub history_fetch_mode : List StoredMessage → HistoryFetchMode
history_fetch_mode cached =
    if ltb 0 (length cached) && ltb 0 (max_message_sequence (sequences cached))
    then incremental
    else latest

pub record RecentSlice : Type 0 where
  pub visible : List StoredMessage
  pub older : List StoredMessage

unfoldable pub slice_recent_messages : List StoredMessage → ℕ → RecentSlice
slice_recent_messages messages window_size =
    if leb (length messages) window_size
    then record { visible = messages; older = [] }
    else let cut = length messages - window_size in
      record { visible = drop cut messages; older = take cut messages }

pub record OlderChunk : Type 0 where
  pub chunk : List StoredMessage
  pub remaining : List StoredMessage

unfoldable pub take_older_chunk : List StoredMessage → ℕ → OlderChunk
take_older_chunk older_ascending limit =
    if leb (length older_ascending) limit
    then record { chunk = older_ascending; remaining = [] }
    else let cut = length older_ascending - limit in
      record { chunk = drop cut older_ascending; remaining = take cut older_ascending }

index_from : List (String × StoredMessage) → List StoredMessage → List (String × StoredMessage)
index_from map [] = map
index_from map (m ∷ ms) = index_from (insert m.id m map) ms

unfoldable pub index_messages_by_id : List StoredMessage → List (String × StoredMessage)
unfolding index_from
index_messages_by_id messages = index_from [] messages

-- The test of `findMatchingPending` for a server message with the client id `c`.
pub is_pending_of : String → String → StoredMessage → Bool
is_pending_of user_id c m =
    is_true m.pending
    && (m.sender_id == user_id
        && (client_is m c || (m.id == c || m.id == String.◌++◌ pending_prefix c)))

unfoldable pub find_matching_pending :
    List StoredMessage → RawMessage → String → Option StoredMessage
unfolding is_pending_of
find_matching_pending cached msg user_id = elim msg.client_id [
  | none ↦ none
  | some c ↦
      if not (msg.sender_id == user_id) || not (truthy c)
      then none
      else find (is_pending_of user_id c) cached
]

unfoldable pub page_may_have_older : ℕ → ℕ → Bool
page_may_have_older page_length page_size = leb page_size page_length
