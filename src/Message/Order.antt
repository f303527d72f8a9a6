-- ===== src/Message/Order.antt =====
-- The order of the feed: `compareMessages` and `maxMessageSequence` of
-- client/src/lib/message-upsert.ts.
use coachman.Common.{
  ℕ, String, ◌&&◌, not, default, List, [], ◌∷◌, Ordering, compare, sort, eqb, ltb, if◌then◌else◌,
}
use coachman.Message.{StoredMessage}

abbrev pub sequence_key : StoredMessage → ℕ
sequence_key m = default 0 m.sequence

-- `localeCompare` depends on the locale of the device, so it is a parameter. The result of a
-- comparison is known by its sign.
module _ (collate : String → String → Ordering) where
  unfoldable pub compare_messages : StoredMessage → StoredMessage → Ordering
  compare_messages a b =
      let sa = sequence_key a in
      let sb = sequence_key b in
      if not (eqb sa 0) && (not (eqb sb 0) && not (eqb sa sb))
      then compare sa sb
      else if not (eqb a.created_at b.created_at)
      then compare a.created_at b.created_at
      else collate a.id b.id

  -- `[...messages].sort(compareMessages)`
  abbrev pub sort_messages : List StoredMessage → List StoredMessage
  sort_messages = sort compare_messages

-- The loop of `maxMessageSequence`.
max_sequence_from : ℕ → List StoredMessage → ℕ
max_sequence_from max [] = max
max_sequence_from max (m ∷ ms) =
    max_sequence_from
      (if not (eqb (sequence_key m) 0) && ltb max (sequence_key m) then sequence_key m else max) ms

unfoldable pub max_message_sequence : List StoredMessage → ℕ
unfolding max_sequence_from
max_message_sequence messages = max_sequence_from 0 messages
