-- ===== src/Lists/Flush/Adopted.antt =====
-- The items of a list that the server has carry its id: client/src/lib/list-sync.ts.
use coachman.Common.{
  ℕ, String, Bool, true, false, Option, none, some, List, [], ◌∷◌, map, is_true, truthy, or_text,
  All, All-sort, if◌then◌else◌, Bool-cases, ◌==◌, ◌≡◌, refl, ◌⊎◌, inl, inr, arith, subst, sym, ◌∙◌,
}
use mathlib.Core.Option.{some-injective}
use coachman.Lists.{
  StoredChatListItem, StoredChatList, OpKind, add, toggle, delete, reorder, create_list,
  ListOutboxItem, ListDatabase, sort_list_items,
}
use coachman.Lists.Flush.{
  Answers, RemoteList, RemoteItem, Outcome, flushed, skipped, broken, Lists, get_list_outbox_items,
  list_or_new, renamed, item_text, create_remote, finish_op, add_remote, flush_kind, flush_listed,
  flush_created, flush_op, flush_known, after_op, flush_ops, flush_list_outbox,
}

-- The list is not at the server yet, or each of its items names it.
abbrev pub IsOwned : StoredChatList → Type 0
IsOwned list =
    (is_true list.local_only ≡ true)
    ⊎ All (λ (i : StoredChatListItem). i.list_id ≡ list.id) list.items

module _ (db : ListDatabase) where
  abbrev pub AllOwned : db.lists.Rows → Type 0
  AllOwned rows =
      (chat_id : String) (list : StoredChatList)
      → db.lists.get chat_id rows ≡ some list
      → IsOwned list

  pub save-AllOwned :
      (list : StoredChatList) (rows : db.lists.Rows)
      → IsOwned list
      → AllOwned rows
      → AllOwned (db.lists.put list rows)
  save-AllOwned list rows new old chat_id found e =
      let e' = db.lists.get-put chat_id list rows in
      elim (Bool-cases (list.chat_id == chat_id)) [
        | inl same ↦
            let is_new : list ≡ found = some-injective _ _ (sym (rw same at e') ∙ e) in
            subst IsOwned is_new new
        | inr other ↦ old chat_id found (sym (rw other at e') ∙ e)
      ]

  items_adopted :
      (id : String) (items : List StoredChatListItem)
      → All
          (λ (i : StoredChatListItem). i.list_id ≡ id)
          (map (λ (i : StoredChatListItem). record i { list_id = id }) items)
  items_adopted id [] = tt
  items_adopted id (i ∷ items) = (refl, items_adopted id items)

  list_or_new-IsOwned :
      (o : Option StoredChatList) (remote : RemoteList) (chat_id : String)
      → IsOwned (list_or_new db o remote chat_id)
  list_or_new-IsOwned none remote chat_id = inr tt
  list_or_new-IsOwned (some list) remote chat_id = inr (items_adopted remote.id list.items)

  create_remote-AllOwned :
      (title : Option String) (created : Option RemoteList) (op : ListOutboxItem) (st : Lists db)
      → AllOwned st.lists
      → AllOwned (create_remote db title created op st).1.lists
  unfolding create_remote
  create_remote-AllOwned none created op st h = h
  create_remote-AllOwned (some title) none op st h = h
  create_remote-AllOwned (some title) (some remote) op st h =
      save-AllOwned (list_or_new db (db.lists.get op.chat_id st.lists) remote op.chat_id) st.lists
        (list_or_new-IsOwned _ remote op.chat_id) h

  finish_op-AllOwned :
      (b : Bool) (op : ListOutboxItem) (st : Lists db)
      → AllOwned st.lists
      → AllOwned (finish_op db b op st).1.lists
  unfolding finish_op
  finish_op-AllOwned true op st h = h
  finish_op-AllOwned false op st h = h

  items_renamed :
      (item_id list_id : String) (remote : RemoteItem) (items : List StoredChatListItem)
      → All (λ (i : StoredChatListItem). i.list_id ≡ list_id) items
      → All
          (λ (i : StoredChatListItem). i.list_id ≡ list_id)
          (map (renamed db item_id list_id remote) items)
  items_renamed item_id list_id remote [] h = tt
  items_renamed item_id list_id remote (i ∷ items) (first, h) =
      (renamed_id item_id list_id remote i first, items_renamed item_id list_id remote items h)
    where
      renamed_id :
          (item_id list_id : String) (remote : RemoteItem) (i : StoredChatListItem)
          → i.list_id ≡ list_id
          → (renamed db item_id list_id remote i).list_id ≡ list_id
      renamed_id item_id list_id remote i e = elim (Bool-cases (i.id == item_id)) [
        | inl same ↦ rw same refl
        | inr other ↦ rw other e
      ]

  add_remote-AllOwned :
      (text : Option String) (added : Option RemoteItem) (item_id : String) (list : StoredChatList)
      (op : ListOutboxItem) (st : Lists db)
      → All (λ (i : StoredChatListItem). i.list_id ≡ list.id) list.items
      → AllOwned st.lists
      → AllOwned (add_remote db text added item_id list op st).1.lists
  unfolding add_remote sort_list_items finish_op
  add_remote-AllOwned none added item_id list op st owned h = h
  add_remote-AllOwned (some text) none item_id list op st owned h = h
  add_remote-AllOwned (some text) (some remote) item_id list op st owned h =
      save-AllOwned _ st.lists
        (inr (
          All-sort _ (λ (i : StoredChatListItem). i.list_id ≡ list.id) _
            (items_renamed item_id list.id remote list.items owned)))
        h

  either-AllOwned :
      (b : Bool) (x y : Outcome × Lists db)
      → AllOwned x.1.lists
      → AllOwned y.1.lists
      → AllOwned (if b then x else y).1.lists
  either-AllOwned true x y h l = h
  either-AllOwned false x y h l = l

  flush_kind-AllOwned :
      (a : Answers) (kind : OpKind) (list : StoredChatList) (op : ListOutboxItem) (st : Lists db)
      → All (λ (i : StoredChatListItem). i.list_id ≡ list.id) list.items
      → AllOwned st.lists
      → AllOwned (flush_kind db a kind list op st).1.lists
  unfolding flush_kind
  flush_kind-AllOwned a (add item_id text) list op st owned h =
      either-AllOwned (truthy (or_text text (item_text db item_id list))) _ _
        (add_remote-AllOwned a.encrypted_text a.added item_id list op st owned h) h
  flush_kind-AllOwned a (toggle item_id done) list op st owned h =
      finish_op-AllOwned a.accepted op _ h
  flush_kind-AllOwned a (delete item_id) list op st owned h = h
  flush_kind-AllOwned a (reorder item_ids) list op st owned h = finish_op-AllOwned a.accepted op _ h
  flush_kind-AllOwned a create_list list op st owned h = h

  flush_listed-AllOwned :
      (a : Answers) (o : Option StoredChatList) (op : ListOutboxItem) (st : Lists db)
      → db.lists.get op.chat_id st.lists ≡ o
      → AllOwned st.lists
      → AllOwned (flush_listed db a o op st).1.lists
  unfolding flush_listed
  flush_listed-AllOwned a none op st e h = h
  flush_listed-AllOwned a (some list) op st e h = elim (Bool-cases (is_true list.local_only)) [
    | inl alone ↦ rw alone h
    | inr shared ↦ elim (h op.chat_id list e) [
      | inl alone ↦ absurd (ground arith)
      | inr owned ↦ rw shared (flush_kind-AllOwned a op.kind list op st owned h)
    ]
  ]

  flush_created-AllOwned :
      (a : Answers) (op : ListOutboxItem) (x : Bool × Lists db)
      → AllOwned x.1.lists
      → AllOwned (flush_created db a op x).1.lists
  unfolding flush_created
  flush_created-AllOwned a op (false, st) h = h
  flush_created-AllOwned a op (true, st) h =
      flush_listed-AllOwned a (db.lists.get op.chat_id st.lists) op st refl h

  changed-AllOwned :
      (a : Answers) (op : ListOutboxItem) (st : Lists db) (b : Bool)
      → AllOwned st.lists
      → AllOwned
          (if b
            then flush_created db a op (create_remote db a.encrypted_title a.created op st)
            else flush_created db a op (true, st)).1.lists
  changed-AllOwned a op st b h =
      either-AllOwned b _ _
        (flush_created-AllOwned a op _ (create_remote-AllOwned a.encrypted_title a.created op st h))
        (flush_created-AllOwned a op (true, st) h)

  flush_op-AllOwned :
      (a : Answers) (kind : OpKind) (op : ListOutboxItem) (st : Lists db)
      → AllOwned st.lists
      → AllOwned (flush_op db a kind op st).1.lists
  unfolding flush_op
  flush_op-AllOwned a create_list op st h =
      finish_op-AllOwned _ op _ (create_remote-AllOwned a.encrypted_title a.created op st h)
  flush_op-AllOwned a (add item_id text) op st h = changed-AllOwned a op st _ h
  flush_op-AllOwned a (toggle item_id done) op st h = changed-AllOwned a op st _ h
  flush_op-AllOwned a (delete item_id) op st h = changed-AllOwned a op st _ h
  flush_op-AllOwned a (reorder item_ids) op st h = changed-AllOwned a op st _ h

  module _ (answers : ListOutboxItem → Answers) (known : String → Bool) where
    flush_known-AllOwned :
        (b : Bool) (op : ListOutboxItem) (st : Lists db)
        → AllOwned st.lists
        → AllOwned (flush_known db answers known b op st).1.lists
    unfolding flush_known
    flush_known-AllOwned false op st h = h
    flush_known-AllOwned true op st h = flush_op-AllOwned (answers op) op.kind op st h

    after_op-AllOwned :
        (x : Outcome × Lists db) (rest : Lists db → ℕ × Lists db)
        → ((st : Lists db) → AllOwned st.lists → AllOwned (rest st).1.lists)
        → AllOwned x.1.lists
        → AllOwned (after_op db answers known x rest).1.lists
    unfolding after_op
    after_op-AllOwned (broken, st) rest f h = h
    after_op-AllOwned (skipped, st) rest f h = f st h
    after_op-AllOwned (flushed, st) rest f h = f st h

    flush_ops-AllOwned :
        (ops : List ListOutboxItem) (st : Lists db)
        → AllOwned st.lists
        → AllOwned (flush_ops db answers known ops st).1.lists
    unfolding flush_ops
    flush_ops-AllOwned [] st h = h
    flush_ops-AllOwned (op ∷ ops) st h =
        after_op-AllOwned _ (flush_ops db answers known ops) (flush_ops-AllOwned ops)
          (flush_known-AllOwned (known op.chat_id) op st h)

    -- A pass keeps that each stored list is not at the server yet or owns its items: every item names
    -- the id that the server gave the list.
    pub flush_list_outbox-AllOwned :
        (online : Bool) (st : Lists db)
        → AllOwned st.lists
        → AllOwned (flush_list_outbox db answers known online st).1.lists
    unfolding flush_list_outbox
    flush_list_outbox-AllOwned false st h = h
    flush_list_outbox-AllOwned true st h = flush_ops-AllOwned (get_list_outbox_items db st) st h
