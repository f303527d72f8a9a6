-- ===== src/Message/Dedupe.antt =====
-- Collapsing the representations of one message in a list: client/src/lib/message-dedupe.ts.
pub mod Groups
pub mod Tracked
pub mod Sound
pub mod Located
pub mod Distinct
pub mod Members
use Prim.Native.String
use coachman.Common.{
  ℕ, String, Bool, false, ◌&&◌, ◌||◌, not, Option, none, some, List, [], ◌∷◌, ◌++◌, length, modify,
  find, lookup, insert, truthy, is_true, Ordering, if◌then◌else◌, ◌==◌,
}
use coachman.Message.{StoredMessage}
use coachman.Message.Identity.{pending_prefix, bare, message_client_key}
use coachman.Message.Merge.{merge_message_entity}
use coachman.Message.Order.{sort_messages}

-- The variables of the loop of `dedupeStoredMessages`.
pub record DedupeState : Type 0 where
  pub result : List StoredMessage
  pub client_index : List (String × ℕ)
  pub id_index : List (String × ℕ)

-- `if (!m.pending) idIndex.set(m.id, idx)`
pub index_id : StoredMessage → ℕ → List (String × ℕ) → List (String × ℕ)
index_id m i index = if is_true m.pending then index else insert m.id i index

-- `result[idx] = prefer(result[idx], m)`. The indexes that the maps hold are in range, as
-- Message/Dedupe/Groups shows.
abbrev pub prefer_at : StoredMessage → ℕ → List StoredMessage → List StoredMessage
prefer_at m i result = modify result i (λ prev. merge_message_entity prev m)

-- The index of the row with the server id of `m`.
pub find_id : StoredMessage → List (String × ℕ) → Option ℕ
find_id m index = if truthy m.id && not (is_true m.pending) then lookup m.id index else none

-- A row that no index holds is appended.
abbrev pub append_row : StoredMessage → DedupeState → DedupeState
append_row m st = record st {
  result = st.result ++ m ∷ [];
  id_index = index_id m (length st.result) st.id_index;
}

-- The part of the round from `const clientKey` on.
pub dedupe_by_client : StoredMessage → String → Option ℕ → DedupeState → DedupeState
dedupe_by_client m key (some i) st = record st {
  result = prefer_at m i st.result;
  id_index = index_id m i st.id_index;
}
dedupe_by_client m key none st =
    append_row m (record st { client_index = insert key (length st.result) st.client_index })

pub dedupe_by_key : StoredMessage → Option String → DedupeState → DedupeState
dedupe_by_key m none st = append_row m st
dedupe_by_key m (some key) st =
    if truthy key then dedupe_by_client m key (lookup key st.client_index) st else append_row m st

-- One round of the loop.
pub dedupe_step : DedupeState → StoredMessage → DedupeState
dedupe_step st m = elim (find_id m st.id_index) [
  | some i ↦ record st { result = prefer_at m i st.result }
  | none ↦ dedupe_by_key m (message_client_key m) st
]

pub dedupe_loop : DedupeState → List StoredMessage → DedupeState
dedupe_loop st [] = st
dedupe_loop st (m ∷ ms) = dedupe_loop (dedupe_step st m) ms

abbrev pub empty_state : DedupeState
empty_state = record { result = []; client_index = []; id_index = [] }

module _ (collate : String → String → Ordering) where
  unfoldable pub dedupe_stored_messages : List StoredMessage → List StoredMessage
  unfolding dedupe_loop dedupe_step dedupe_by_key dedupe_by_client find_id index_id
  dedupe_stored_messages messages =
      (dedupe_loop empty_state (sort_messages collate messages)).result

-- `m.clientId === k`
abbrev pub client_is : StoredMessage → String → Bool
client_is m k = elim m.client_id [ none ↦ false | some c ↦ c == k ]

-- The test of `findMessageByTempId`.
pub answers_to : String → StoredMessage → Bool
answers_to temp m =
    m.id == temp
    || (m.id == bare temp
        || (m.id == String.◌++◌ pending_prefix (bare temp)
            || (client_is m (bare temp) || client_is m temp)))

-- The local bubble of an outbox item, by its bare or its `pending-` id.
unfoldable pub find_message_by_temp_id : List StoredMessage → String → Option StoredMessage
unfolding answers_to
find_message_by_temp_id rows temp_message_id = find (answers_to temp_message_id) rows
