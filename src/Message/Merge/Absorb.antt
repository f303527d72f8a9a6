-- ===== src/Message/Merge/Absorb.antt =====
-- Merging the same representation again changes nothing: client/src/lib/message-identity.ts.
use coachman.Common.{true, false, coalesce, ◌≡◌, refl, arith, Bool-cases, eq_refl, inl, inr}
use coachman.Message.{StoredMessage}
use coachman.Message.Merge.{merge_rows, incoming_is_primary, merge_message_entity}
use coachman.Message.Merge.Confirm.{is_confirmed-merge_rows}
use coachman.Message.Unchanged.{same_content, same_reply, same_status, message_unchanged}
use coachman.Message.Merge.Fields.{same_opt_text_refl, same_opt_type_refl}
use coachman.Message.Merge.Again.{Agrees, Agrees-left, Agrees-right, Agrees-again}

module _ (a b : StoredMessage) (h : Agrees a b) where
  content_unchanged : same_content a b ≡ true
  unfolding same_content
  content_unchanged =
      rw (← h.id, ← h.chat_id, ← h.sender_id, ← h.sender_name, ← h.text, ← h.type, ← h.image_id)
        (rw (← h.album_id, h.image_url, h.poster_url)
          (simp (eq_refl, same_opt_text_refl) (ground arith)))

  reply_unchanged : same_reply a b ≡ true
  unfolding same_reply
  reply_unchanged =
      rw (← h.reply_to_message_id, ← h.reply_to_sender_id, ← h.reply_to_sender_name)
        (rw (← h.reply_to_preview, ← h.reply_to_type)
          (simp (same_opt_text_refl, same_opt_type_refl)))

  status_unchanged : same_status a b ≡ true
  unfolding same_status
  status_unchanged =
      rw (← h.sequence, ← h.created_at, ← h.pending, ← h.provisional, ← h.failed, ← h.error)
        (rw h.client_id (simp same_opt_text_refl (ground arith)))

  message_unchanged_lem : message_unchanged a b ≡ true
  unfolding message_unchanged
  message_unchanged_lem = rw (content_unchanged, reply_unchanged, status_unchanged)

sequence-merge_rows :
    (p s : StoredMessage) → (merge_rows p s).sequence ≡ coalesce p.sequence s.sequence
unfolding merge_rows
sequence-merge_rows p s = refl

created_at-merge_rows : (p s : StoredMessage) → (merge_rows p s).created_at ≡ p.created_at
unfolding merge_rows
created_at-merge_rows p s = refl

-- The merged row of `e` and `i` beats `i` again where `e` did.
incoming_is_primary-merge_rows :
    (e i : StoredMessage)
    → incoming_is_primary e i ≡ false
    → incoming_is_primary (merge_rows e i) i ≡ false
unfolding incoming_is_primary
incoming_is_primary-merge_rows e i h =
    rw (is_confirmed-merge_rows e i, sequence-merge_rows e i, created_at-merge_rows e i)
      (ground arith)

merge_incoming :
    (e i : StoredMessage)
    → incoming_is_primary e i ≡ true
    → merge_message_entity e i ≡ merge_rows i e
unfolding merge_message_entity
merge_incoming e i h = rw h

merge_existing :
    (e i : StoredMessage)
    → incoming_is_primary e i ≡ false
    → merge_message_entity e i ≡ merge_rows e i
unfolding merge_message_entity
merge_existing e i h = rw h

after_incoming :
    (e i : StoredMessage)
    → message_unchanged (merge_rows i e) (merge_message_entity (merge_rows i e) i) ≡ true
after_incoming e i = elim (Bool-cases (incoming_is_primary (merge_rows i e) i)) [
  | inl h ↦ rw (merge_incoming (merge_rows i e) i h) (message_unchanged_lem _ _ (Agrees-left i e))
  | inr h ↦ rw (merge_existing (merge_rows i e) i h) (message_unchanged_lem _ _ (Agrees-again i e))
]

-- Delivering the same row again changes nothing: merging `incoming` once more into the merged row
-- gives a row that `messageUnchanged` takes for the same.
pub merge_message_entity_again :
    (existing incoming : StoredMessage)
    → message_unchanged
        (merge_message_entity existing incoming)
        (merge_message_entity (merge_message_entity existing incoming) incoming)
      ≡ true
merge_message_entity_again e i = elim (Bool-cases (incoming_is_primary e i)) [
  | inl h ↦ rw (merge_incoming e i h) (after_incoming e i)
  | inr h ↦ rw (merge_existing e i h) (
      rw (merge_existing (merge_rows e i) i (incoming_is_primary-merge_rows e i h))
        (message_unchanged_lem _ _ (Agrees-right e i)))
]
