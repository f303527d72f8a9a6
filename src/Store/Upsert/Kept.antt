-- ===== src/Store/Upsert/Kept.antt =====
-- What an upsert leaves alone: client/src/lib/message-upsert.ts.
use Prim.Native.String
use mathlib.Core.Option.{some-injective}
use coachman.Common.{
  String, Bool, true, false, ◌&&◌, ◌||◌, not, Option, none, some, List, [], ◌∷◌, In, filter, truthy,
  strip, strip-append, is_true, default, or_text, Bool-cases, ◌==◌, eq_iff, ◌≡◌, refl, sym, ap,
  subst, ◌∙◌, inl, inr, arith,
}
use coachman.Message.{StoredMessage}
use coachman.Message.Identity.{pending_prefix, is_temp, bare}
use coachman.Store.{Database, Local}
use coachman.Store.Messages.{
  save_message, get_messages, delete_rows, is_pending_row, without_temp, clear_pending,
  replace_pending_message,
}
use coachman.Store.Upsert.{
  find_stored_message_for_upsert, remove_queued, merged_for, store_merged, upsert_stored_message,
}
use coachman.Store.Upsert.Rows.{
  In-filter, Holds, save_message-get, remove_outbox-messages, remove_queued-messages,
  find_stored-Holds,
}

module _ (db : Database) where
  module _ (j : String) (x : StoredMessage) where
    delete_rows-Holds :
        (ms : List StoredMessage) (rows : db.messages.Rows)
        → ((m : StoredMessage) → In m ms → (m.id == j) ≡ false)
        → db.messages.get j rows ≡ some x
        → db.messages.get j (delete_rows db ms rows) ≡ some x
    unfolding delete_rows
    delete_rows-Holds [] rows other h = h
    delete_rows-Holds (m ∷ ms) rows other h =
        delete_rows-Holds ms (db.messages.delete m.id rows) (λ n i. other n (inr i))
          (db.messages.get-delete j m.id rows ∙ rw (other m (inl refl)) h)

    without_temp-Holds :
        (temp_id : String) (st : Local db)
        → (temp_id == j) ≡ false
        → strip pending_prefix j ≡ none
        → Holds db j x st
        → Holds db j x (without_temp db temp_id st)
    without_temp-Holds temp_id st other plain h = elim (Bool-cases (is_temp temp_id)) [
      | inl e ↦ rw e (db.messages.get-delete j temp_id st.messages ∙ rw other h)
      | inr e ↦ rw e (
          db.messages.get-delete j (String.◌++◌ pending_prefix temp_id) _
          ∙ rw twin (db.messages.get-delete j temp_id st.messages ∙ rw other h))
    ]
      where
        twin : (String.◌++◌ pending_prefix temp_id == j) ≡ false
        twin = elim (Bool-cases (String.◌++◌ pending_prefix temp_id == j)) [
          | inr e ↦ e
          | inl e ↦
              let q =
                rw
                  (
                    ← (eq_iff (String.◌++◌ pending_prefix temp_id) j).0 e,
                    strip-append pending_prefix temp_id,
                  )
                  at plain in
              cc
        ]

    pending_of : (a b : Bool) → (a && b) ≡ true → a ≡ true
    pending_of a b e = ground arith

    -- A pending row is not the row under `j`.
    differs :
        (match : StoredMessage) (st : Local db)
        → Holds db match.id match st
        → is_true match.pending ≡ true
        → is_true x.pending ≡ false
        → Holds db j x st
        → (match.id == j) ≡ false
    differs match st there p settled h = elim (Bool-cases (match.id == j)) [
      | inr e ↦ e
      | inl e ↦
          let here : db.messages.get j st.messages ≡ some match =
            subst (λ k. db.messages.get k st.messages ≡ some match) ((eq_iff match.id j).0 e)
              there in
          let same : match ≡ x = some-injective match x (sym here ∙ h) in
          let q : is_true match.pending ≡ is_true x.pending = ap (λ r. is_true r.pending) same in cc
    ]

    clear_pending-Holds :
        (temp_id : String) (message : StoredMessage) (st : Local db)
        → is_true x.pending ≡ false
        → Holds db j x st
        → Holds db j x (clear_pending db temp_id message st)
    unfolding clear_pending
    clear_pending-Holds temp_id message st settled h =
        elim (Bool-cases (truthy (default "" message.client_id) || truthy temp_id)) [
          | inr e ↦ rw e h
          | inl e ↦ rw e (delete_rows-Holds _ st.messages cleared h)
        ]
      where
        cleared :
            (m : StoredMessage)
            → In m (
                filter
                  (is_pending_row (or_text (default "" message.client_id) (bare temp_id)))
                  (get_messages db message.chat_id st))
            → (m.id == j) ≡ false
        cleared m i =
            let (k, t) = In-filter _ _ i in
            let (row, _) = In-filter _ (db.messages.all st.messages) k in
            differs m st ((db.messages.all-get m st.messages).0 row) (pending_of _ _ t) settled h

    replace_pending-Holds :
        (temp_id : String) (message : StoredMessage) (st : Local db)
        → is_true x.pending ≡ false
        → strip pending_prefix j ≡ none
        → (temp_id == j) ≡ false
        → (message.id == j) ≡ false
        → Holds db j x st
        → Holds db j x (replace_pending_message db temp_id message st)
    unfolding replace_pending_message
    replace_pending-Holds temp_id message st settled plain temp other h =
        save_message-get db j
          (record message { pending = some false; failed = some false; error = none })
          (clear_pending db temp_id message (without_temp db temp_id st))
        ∙ rw other (
            clear_pending-Holds temp_id message _ settled
              (without_temp-Holds temp_id st temp plain h))

    saved :
        (msg : StoredMessage) (st : Local db)
        → (msg.id == j) ≡ false
        → Holds db j x st
        → Holds db j x (save_message db msg st)
    saved msg st other h = save_message-get db j msg st ∙ rw other h

    unqueued :
        (o : Option String) (st : Local db) → Holds db j x st → Holds db j x (remove_queued db o st)
    unqueued o st h = ap (db.messages.get j) (remove_queued-messages db o st) ∙ h

    store_merged-Holds :
        (o : Option StoredMessage) (merged : StoredMessage) (st : Local db)
        → ((p : StoredMessage) → o ≡ some p → Holds db p.id p st)
        → is_true x.pending ≡ false
        → strip pending_prefix j ≡ none
        → (merged.id == j) ≡ false
        → Holds db j x st
        → Holds db j x (store_merged db o merged st)
    unfolding store_merged
    store_merged-Holds none merged st there settled plain other h =
        unqueued merged.client_id (save_message db merged st) (saved merged st other h)
    store_merged-Holds (some match) merged st there settled plain other h =
        elim (Bool-cases (is_true match.pending && not (match.id == merged.id))) [
          | inr e ↦
              rw e (unqueued merged.client_id (save_message db merged st) (saved merged st other h))
          | inl e ↦
              let apart = differs match st (there match refl) (pending_of _ _ e) settled h in
              rw e (
                ap (db.messages.get j) (remove_outbox-messages db match.id _)
                ∙ unqueued match.client_id _
                    (replace_pending-Holds match.id merged st settled plain apart other h))
        ]

    -- A confirmed row is never lost to the upsert of another message: it stays as it is, if it is not
    -- pending, its key is not a temporary id, and it is not the row that the upsert writes.
    pub upsert_stored_message-Holds :
        (incoming merged : StoredMessage) (st after : Local db)
        → upsert_stored_message db incoming st ≡ some (merged, after)
        → is_true x.pending ≡ false
        → strip pending_prefix j ≡ none
        → (merged.id == j) ≡ false
        → Holds db j x st
        → Holds db j x after
    unfolding upsert_stored_message
    upsert_stored_message-Holds incoming merged st after e settled plain other h =
        elim (Bool-cases (not (truthy incoming.chat_id) || not (truthy incoming.id))) [
          | inl g ↦ let q = rw g at e in cc
          | inr g ↦
              let match = find_stored_message_for_upsert db incoming st in
              let result : (
                merged_for db match incoming,
                store_merged db match (merged_for db match incoming) st,
              )
                  ≡ (merged, after) =
                some-injective _ _ (rw g at e) in
              subst (λ r. (r.0.id == j) ≡ false → Holds db j x r.1) result
                (λ o.
                  store_merged-Holds match (merged_for db match incoming) st
                    (λ p f. find_stored-Holds db incoming st f) settled plain o h)
                other
        ]
