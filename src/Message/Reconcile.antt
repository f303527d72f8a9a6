-- ===== src/Message/Reconcile.antt =====
-- Taking an incoming message into the list of the feed: client/src/lib/message-reconcile.ts, and
-- `upsertMessageInList` of client/src/lib/message-dedupe.ts.
pub mod Laws
use coachman.Common.{
  ℕ, String, Bool, true, false, ◌&&◌, ◌||◌, not, Option, none, some, List, [], ◌∷◌, ◌++◌, ◌+◌,
  modify, find, find_index, get_elem?, any, filter, default, is_true, Ordering, if◌then◌else◌,
}
use coachman.Message.{StoredMessage}
use coachman.Message.Identity.{same_message_identity}
use coachman.Message.Merge.{merge_message_entity}
use coachman.Message.Unchanged.{message_unchanged}
use coachman.Message.Order.{sort_messages}
use coachman.Message.Dedupe.{dedupe_stored_messages}

pub record ReconcileResult : Type 0 where
  pub messages : List StoredMessage
  pub message : StoredMessage
  pub inserted : Bool
  pub updated : Bool

-- `prev`, without the provisional rows that a lasting message replaces.
unfoldable pub reconcile_base : List StoredMessage → StoredMessage → List StoredMessage
reconcile_base prev incoming =
    if not (is_true incoming.provisional) && any (λ m. is_true m.provisional) prev
    then filter (λ m. not (is_true m.provisional) || same_message_identity m incoming) prev
    else prev

-- The first row of the identity of `incoming`, with its place.
pub find_same : StoredMessage → ℕ → List StoredMessage → Option (ℕ × StoredMessage)
find_same incoming i [] = none
find_same incoming i (m ∷ ms) =
    if same_message_identity m incoming then some (i, m) else find_same incoming (i + 1) ms

module _ (collate : String → String → Ordering) where
  -- `dedupeStoredMessages(rows).sort(compareMessages)`
  pub settle : List StoredMessage → List StoredMessage
  settle rows = sort_messages collate (dedupe_stored_messages collate rows)

  -- The part of `reconcileMessage` behind the test of `idx`.
  pub reconcile_at :
      List StoredMessage → StoredMessage → Option (ℕ × StoredMessage) → ReconcileResult
  reconcile_at base incoming (some (i, existing)) =
      let merged = merge_message_entity existing incoming in
      if message_unchanged existing merged
      then record { messages = base; message = existing; inserted = false; updated = false }
      else record {
        messages = settle (modify base i (λ _. merged));
        message = merged;
        inserted = false;
        updated = true;
      }
  reconcile_at base incoming none =
      let messages = settle (base ++ incoming ∷ []) in
      record {
        messages = messages;
        message = default incoming (find (λ m. same_message_identity m incoming) messages);
        inserted = true;
        updated = false;
      }

  unfoldable pub reconcile_message : List StoredMessage → StoredMessage → ReconcileResult
  unfolding reconcile_at find_same settle
  reconcile_message prev incoming =
      let base = reconcile_base prev incoming in
      reconcile_at base incoming (find_same incoming 0 base)

  unfoldable pub reconcile_messages :
      List StoredMessage → List StoredMessage → List StoredMessage × List ReconcileResult
  reconcile_messages prev [] = (prev, [])
  reconcile_messages prev (incoming ∷ batch) =
      let result = reconcile_message prev incoming in
      let (messages, results) = reconcile_messages result.messages batch in
      (messages, result ∷ results)

  -- The result of `upsertMessageInList`. A merge is always a new object, so the early return for
  -- `merged === prev[idx]` is never taken.
  unfoldable pub upsert_message_in_list :
      List StoredMessage
      → StoredMessage
      → record { next : List StoredMessage; changed : Bool; inserted : Bool }
  unfolding find_same settle
  upsert_message_in_list prev incoming = elim (find_same incoming 0 prev) [
    | some (i, existing) ↦ record {
      next = settle (modify prev i (λ _. merge_message_entity existing incoming));
      changed = true;
      inserted = false;
    }
    | none ↦ record { next = settle (prev ++ incoming ∷ []); changed = true; inserted = true }
  ]
