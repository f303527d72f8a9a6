-- ===== src/Outbox/Acked.antt =====
-- An acknowledged item is not sent again: client/src/lib/outbox.ts.
use mathlib.Core.Option.{some-injective}
use coachman.Common.{
  String, ◌&&◌, ◌||◌, not, is_true, default, Option, none, some, List, [], ◌∷◌, find, map, present,
  or_opt, truthy, Bool-cases, Option-cases, ◌==◌, eq_refl, ◌≡◌, refl, subst, ◌∙◌, inl, inr, arith,
}
use coachman.Message.{StoredMessage, RawMessage}
use coachman.Outbox.{OutboxItem, is_media}
use coachman.Outbox.State.{Queue, hide_progress}
use coachman.Outbox.Deliver.{
  sent_row, finalize_local_delivery, fail_rows, hide_rows, fail_orphan_pending_messages,
}
use coachman.Outbox.Send.{finalized, acknowledge}
use coachman.Store.{Database, Local}
use coachman.Store.Messages.{
  save_message, replace_pending_message, clear_pending, get_outbox_items, remove_outbox_item,
  remove_outbox_by_temp_message_id, list_orphan_pending_messages,
}
use coachman.Store.Upsert.{
  find_stored_message_for_upsert, merged_for, remove_queued, store_merged, upsert_stored_message,
}

module _ (db : Database) (id : String) where
  -- No item is queued under `id`.
  abbrev Gone : Local db → Type 0
  Gone st = db.outbox.get id st.outbox ≡ none

  remove_outbox_item-Gone :
      (k : String) (st : Local db) → Gone st → Gone (remove_outbox_item db k st)
  unfolding remove_outbox_item
  remove_outbox_item-Gone k st h = db.outbox.get-delete id k st.outbox ∙ rw h (ground arith)

  remove_by_temp-Gone :
      (k : String) (st : Local db) → Gone st → Gone (remove_outbox_by_temp_message_id db k st)
  unfolding remove_outbox_by_temp_message_id
  remove_by_temp-Gone k st h =
      elim (Option-cases (find (λ item. item.temp_message_id == k) (get_outbox_items db st))) [
        | inl e ↦ rw (e, remove_outbox_by_temp_message_id) h
        | inr (item, e) ↦
            rw (e, remove_outbox_by_temp_message_id) (remove_outbox_item-Gone item.id st h)
      ]

  remove_queued-Gone : (o : Option String) (st : Local db) → Gone st → Gone (remove_queued db o st)
  unfolding remove_queued
  remove_queued-Gone none st h = h
  remove_queued-Gone (some k) st h = elim (Bool-cases (truthy k)) [
    | inl e ↦ rw e (remove_by_temp-Gone k st h)
    | inr e ↦ rw e h
  ]

  save_message-Gone : (m : StoredMessage) (st : Local db) → Gone st → Gone (save_message db m st)
  unfolding save_message
  save_message-Gone m st h = h

  replace_pending-Gone :
      (t : String) (m : StoredMessage) (st : Local db)
      → Gone st
      → Gone (replace_pending_message db t m st)
  unfolding replace_pending_message clear_pending save_message
  replace_pending-Gone t m st h = elim (Bool-cases (truthy (default "" m.client_id) || truthy t)) [
    | inl e ↦ rw e h
    | inr e ↦ rw e h
  ]

  store_merged-Gone :
      (o : Option StoredMessage) (m : StoredMessage) (st : Local db)
      → Gone st
      → Gone (store_merged db o m st)
  unfolding store_merged
  store_merged-Gone none m st h = remove_queued-Gone m.client_id _ (save_message-Gone m st h)
  store_merged-Gone (some match) m st h =
      elim (Bool-cases (is_true match.pending && not (match.id == m.id))) [
        | inl e ↦ rw e (
            remove_by_temp-Gone match.id _
              (remove_queued-Gone match.client_id _ (replace_pending-Gone match.id m st h)))
        | inr e ↦ rw e (remove_queued-Gone m.client_id _ (save_message-Gone m st h))
      ]

  upsert-Gone :
      (incoming m : StoredMessage) (st after : Local db)
      → upsert_stored_message db incoming st ≡ some (m, after)
      → Gone st
      → Gone after
  unfolding upsert_stored_message
  upsert-Gone incoming m st after e h =
      elim (Bool-cases (not (truthy incoming.chat_id) || not (truthy incoming.id))) [
        | inl g ↦ let q = rw g at e in cc
        | inr g ↦
            let match = find_stored_message_for_upsert db incoming st in
            let merged = merged_for db match incoming in
            let result : (merged, store_merged db match merged st) ≡ (m, after) =
              some-injective _ _ (rw g at e) in
            subst (λ r. Gone r.1) result (store_merged-Gone match merged st h)
      ]

  finalize-Gone :
      (item : OutboxItem) (msg : RawMessage) (st after : Local db)
      → finalize_local_delivery db item msg st ≡ some after
      → Gone st
      → Gone after
  unfolding finalize_local_delivery
  finalize-Gone item msg st after e h =
      elim (Bool-cases
        (is_media item.kind && not (present (or_opt msg.image_id item.uploaded_image_id)))) [
          | inl g ↦ let q = rw g at e in cc
          | inr g ↦ elim (Option-cases (upsert_stored_message db (sent_row item msg) st)) [
            | inl f ↦ let q = rw (g, f, finalize_local_delivery) at e in cc
            | inr (r, f) ↦
                let q : r.1 ≡ after =
                  some-injective _ _ (rw (g, f, finalize_local_delivery) at e) in
                subst (λ s. Gone s) q (upsert-Gone (sent_row item msg) r.0 st r.1 f h)
          ]
        ]

  fail_rows-Gone : (ms : List StoredMessage) (st : Local db) → Gone st → Gone (fail_rows db ms st)
  unfolding fail_rows
  fail_rows-Gone [] st h = h
  fail_rows-Gone (m ∷ ms) st h = fail_rows-Gone ms _ (save_message-Gone _ st h)

  hide_rows-store : (ms : List StoredMessage) (q : Queue db) → (hide_rows db ms q).store ≡ q.store
  unfolding hide_rows hide_progress
  hide_rows-store [] q = refl
  hide_rows-store (m ∷ ms) q = hide_rows-store ms (hide_progress db m.id q)

  fail_orphan-Gone : (q : Queue db) → Gone q.store → Gone (fail_orphan_pending_messages db q).store
  unfolding fail_orphan_pending_messages
  fail_orphan-Gone q h = rw hide_rows-store (
      fail_rows-Gone
        (list_orphan_pending_messages db
          (map (λ item. item.temp_message_id) (get_outbox_items db q.store)) q.store)
        q.store h)

  finalized-Gone :
      (item : OutboxItem) (msg : RawMessage) (q : Queue db)
      → Gone q.store
      → Gone (finalized db item msg q).store
  unfolding finalized
  finalized-Gone item msg q h = elim (Option-cases (finalize_local_delivery db item msg q.store)) [
    | inl e ↦ rw (e, finalized) (fail_orphan-Gone q h)
    | inr (after, e) ↦ rw (e, finalized) (finalize-Gone item msg q.store after e h)
  ]

-- After the acknowledgement no item is queued under the id.
pub acknowledge-outbox :
    (db : Database) (item : OutboxItem) (msg : RawMessage) (q : Queue db)
    → db.outbox.get item.id (acknowledge db item msg q).store.outbox ≡ none
unfolding acknowledge hide_progress remove_outbox_item
acknowledge-outbox db item msg q =
    finalized-Gone db item.id item msg (record q { store = remove_outbox_item db item.id q.store })
      (db.outbox.get-delete item.id item.id q.store.outbox ∙ rw (eq_refl item.id))
