-- ===== src/Notified.antt =====
-- The chats that a push named lately: client/src/lib/notified-chats.ts.
-- localStorage holds what was written to it; `none` stands for no text and for a text that is no JSON
-- array. `now` is the clock in milliseconds.
pub mod Laws
use coachman.Common.{
  ℕ, ◌-◌, String, Bool, true, false, not, Option, none, some, List, [], ◌∷◌, map, filter, take, ltb,
  truthy, if◌then◌else◌, ◌==◌,
}

-- `MAX`
abbrev pub max_entries : ℕ
max_entries = 30

-- `TTL_MS`
abbrev pub ttl_ms : ℕ
ttl_ms = 172800000

pub record Entry : Type 0 where
  pub id : String
  pub at : ℕ

-- An element of the array: a text, as an older version wrote it, an entry, or another value.
pub data Item : Type 0 where
  name : String → Item
  entry : Entry → Item
  other : Item

abbrev pub Storage : Type 0
Storage = Option (List Item)

unfoldable pub entry_of : ℕ → Item → Option Entry
entry_of now (name id) = if truthy id then some (record { id = id; at = now }) else none
entry_of now (entry e) = some e
entry_of now other = none

abbrev pub keep_fresh : ℕ → Option Entry → List Entry → List Entry
keep_fresh now none rest = rest
keep_fresh now (some e) rest = if ltb (now - e.at) ttl_ms then e ∷ rest else rest

unfoldable pub read_items : ℕ → List Item → List Entry
unfolding entry_of
read_items now [] = []
read_items now (item ∷ items) = keep_fresh now (entry_of now item) (read_items now items)

unfoldable pub read_entries : ℕ → Storage → List Entry
unfolding read_items
read_entries now none = []
read_entries now (some items) = read_items now items

unfoldable pub write_entries : List Entry → Storage
write_entries entries = some (map entry (take max_entries entries))

unfoldable pub remember_notified_chat : ℕ → String → Storage → Storage
unfolding read_entries write_entries
remember_notified_chat now chat_id st =
    if truthy chat_id
    then write_entries (
        record { id = chat_id; at = now }
        ∷ filter (λ (e : Entry). not (e.id == chat_id)) (read_entries now st))
    else st

unfoldable pub peek_notified_chat_ids : ℕ → Storage → List String
unfolding read_entries
peek_notified_chat_ids now st = map (λ (e : Entry). e.id) (read_entries now st)
