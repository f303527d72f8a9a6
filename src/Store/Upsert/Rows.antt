-- ===== src/Store/Upsert/Rows.antt =====
-- The rows that the lookups of an upsert find: client/src/lib/message-upsert.ts.
use Prim.Native.String
use mathlib.Core.Option.{some-injective}
use coachman.Common.{
  String, Bool, true, ◌&&◌, Option, none, some, List, [], ◌∷◌, In, filter, find, truthy, is_true,
  coalesce, if◌then◌else◌, Bool-cases, Option-cases, ◌==◌, ◌≡◌, refl, sym, ap, subst, ◌∙◌, inl, inr,
  ◌⊎◌,
}
use coachman.Message.{StoredMessage}
use coachman.Message.Identity.{pending_prefix, message_client_key, same_message_identity}
use coachman.Store.{Database, Local}
use coachman.Store.Messages.{
  stored, save_message, get_messages, get_message, get_outbox_items,
  remove_outbox_by_temp_message_id,
}
use coachman.Store.Upsert.{
  if_same, nonempty, find_legacy, find_by_key, find_stored_message_for_upsert, remove_queued,
}

pub In-filter :
    (p : StoredMessage → Bool) (xs : List StoredMessage) {x : StoredMessage}
    → In x (filter p xs)
    → In x xs × (p x ≡ true)
In-filter p [] h = absurd h
In-filter p (y ∷ ys) h = elim (Bool-cases (p y)) [
  | inl e ↦ elim (rw e at h) [
    | inl q ↦ (inl q, ap p q ∙ e)
    | inr i ↦ let (k, t) = In-filter p ys i in (inr k, t)
  ]
  | inr e ↦ let (k, t) = In-filter p ys (rw e at h) in (inr k, t)
]

In-find :
    (p : StoredMessage → Bool) (xs : List StoredMessage) {x : StoredMessage}
    → find p xs ≡ some x
    → In x xs
In-find p [] h = cc
In-find p (y ∷ ys) h = elim (Bool-cases (p y)) [
  | inl e ↦ inl (sym (some-injective _ _ (rw e at h)))
  | inr e ↦ inr (In-find p ys (rw e at h))
]

module _ (db : Database) where
  -- Row `x` is stored under `j`.
  abbrev pub Holds : String → StoredMessage → Local db → Type 0
  Holds j x st = db.messages.get j st.messages ≡ some x

  pub save_message-get :
      (j : String) (msg : StoredMessage) (st : Local db)
      → db.messages.get j (save_message db msg st).messages
        ≡ (if msg.id == j then some (stored msg) else db.messages.get j st.messages)
  unfolding save_message stored
  save_message-get j msg st = db.messages.get-put j (stored msg) st.messages

  pub remove_outbox-messages :
      (k : String) (st : Local db)
      → (remove_outbox_by_temp_message_id db k st).messages ≡ st.messages
  unfolding remove_outbox_by_temp_message_id
  remove_outbox-messages k st =
      elim (Option-cases (find (λ item. item.temp_message_id == k) (get_outbox_items db st))) [
        | inl e ↦ rw (e, remove_outbox_by_temp_message_id)
        | inr (item, e) ↦ rw (e, remove_outbox_by_temp_message_id)
      ]

  pub remove_queued-messages :
      (o : Option String) (st : Local db) → (remove_queued db o st).messages ≡ st.messages
  unfolding remove_queued
  remove_queued-messages none st = refl
  remove_queued-messages (some k) st = elim (Bool-cases (truthy k)) [
    | inl e ↦ rw e (remove_outbox-messages k st)
    | inr e ↦ rw e
  ]

  -- Every row that the lookup finds is in the store.
  get_message-Holds :
      (id : String) (st : Local db) {p : StoredMessage}
      → get_message db id st ≡ some p
      → Holds p.id p st
  get_message-Holds id st {p} h = elim (Bool-cases (truthy id)) [
    | inl e ↦
        let found : db.messages.get id st.messages ≡ some p = rw e at h in
        subst (λ k. db.messages.get k st.messages ≡ some p)
          (sym (db.messages.get-key id p st.messages found)) found
    | inr e ↦ let q = rw e at h in cc
  ]

  if_same-Holds :
      (incoming : StoredMessage) (id : String) (st : Local db) {p : StoredMessage}
      → if_same incoming (get_message db id st) ≡ some p
      → Holds p.id p st
  if_same-Holds incoming id st {p} h = elim (Option-cases (get_message db id st)) [
    | inl e ↦ let q = rw e at h in cc
    | inr (m, e) ↦ elim (Bool-cases (same_message_identity m incoming)) [
      | inl f ↦ get_message-Holds id st (e ∙ (rw (e, f) at h))
      | inr f ↦ let q = rw (e, f) at h in cc
    ]
  ]

  find_legacy-Holds :
      (incoming : StoredMessage) (st : Local db) {p : StoredMessage}
      → find_legacy db incoming st ≡ some p
      → Holds p.id p st
  find_legacy-Holds incoming st {p} h =
      let existing = get_messages db incoming.chat_id st in
      let stored_row : In p existing = elim (Option-cases (find first existing)) [
        | inr (m, e) ↦ In-find first existing (e ∙ (rw e at h))
        | inl e ↦ In-find second existing (rw e at h)
      ] in
      (db.messages.all-get p st.messages).0 (In-filter _ (db.messages.all st.messages) stored_row).0
    where
      first : StoredMessage → Bool
      first m = is_true m.pending && same_message_identity m incoming

      second : StoredMessage → Bool
      second m = same_message_identity m incoming

  -- One of two lookups finds the row.
  coalesce-some :
      (a b : Option StoredMessage) {p : StoredMessage}
      → coalesce a b ≡ some p
      → (a ≡ some p) ⊎ (b ≡ some p)
  coalesce-some none b h = inr h
  coalesce-some (some a) b h = inl h

  find_by_key-Holds :
      (incoming : StoredMessage) (st : Local db) (o : Option String) {p : StoredMessage}
      → find_by_key db incoming st o ≡ some p
      → Holds p.id p st
  unfolding find_by_key
  find_by_key-Holds incoming st none h = if_same-Holds incoming incoming.id st h
  find_by_key-Holds incoming st (some key) h =
      elim (coalesce-some (if_same incoming (get_message db (String.◌++◌ pending_prefix key) st)) _
        h) [
          | inl e ↦ if_same-Holds incoming (String.◌++◌ pending_prefix key) st e
          | inr k ↦ elim (coalesce-some (if_same incoming (get_message db incoming.id st)) _ k) [
            | inl e ↦ if_same-Holds incoming incoming.id st e
            | inr e ↦ find_legacy-Holds incoming st e
          ]
        ]

  pub find_stored-Holds :
      (incoming : StoredMessage) (st : Local db) {p : StoredMessage}
      → find_stored_message_for_upsert db incoming st ≡ some p
      → Holds p.id p st
  unfolding find_stored_message_for_upsert
  find_stored-Holds incoming st h =
      find_by_key-Holds incoming st (nonempty (message_client_key incoming)) h
