-- ===== src/Lists/Flush/Stuck.antt =====
-- A change that the server refuses stops every pass: client/src/lib/list-sync.ts.
use coachman.Common.{
  ℕ, zero, suc, String, Bool, true, false, some, List, ◌∷◌, is_true, ◌≡◌, refl, ap, ◌∙◌,
}
use coachman.Lists.{StoredChatList, OpKind, toggle, ListOutboxItem, ListDatabase}
use coachman.Lists.Flush.{
  Answers, Request, set_chat_list_item_done, broken, Lists, get_list_outbox_items, log, finish_op,
  flush_kind, flush_listed, flush_created, flush_op, flush_known, after_op, flush_ops,
  flush_list_outbox,
}

abbrev pub repeated : ℕ → Request → List Request → List Request
repeated zero request requests = requests
repeated (suc n) request requests = repeated n request (request ∷ requests)

module _ (db : ListDatabase) (answers : ListOutboxItem → Answers) (known : String → Bool) where
  -- `n` passes, one after the other.
  abbrev pub passes : ℕ → Lists db → Lists db
  passes zero st = st
  passes (suc n) st = passes n (flush_list_outbox db answers known true st).1

  -- The oldest queued change sets the mark of an item, in a list that the server has, and the server
  -- refuses it, as it refuses an item that it does not know.
  pub record IsRefused (op : ListOutboxItem) (later : List ListOutboxItem) (st : Lists db)
      : Type 0 where
    pub item_id : String
    pub done : Bool
    pub list : StoredChatList
    pub oldest : get_list_outbox_items db st ≡ op ∷ later
    pub kind : op.kind ≡ toggle item_id done
    pub is_known : known op.chat_id ≡ true
    pub listed : db.lists.get op.chat_id st.lists ≡ some list
    pub shared : is_true list.local_only ≡ false
    pub refused : (answers op).accepted ≡ false

  refused_op :
      (op : ListOutboxItem) (later : List ListOutboxItem) (st : Lists db)
      → (h : IsRefused op later st)
      → flush_op db (answers op) (toggle h.item_id h.done) op st
        ≡ (broken, log db (set_chat_list_item_done op.chat_id h.list.id h.item_id h.done) st)
  unfolding flush_op flush_created flush_listed flush_kind finish_op
  refused_op op later st h =
      rw (h.listed, flush_listed, h.shared, h.kind, flush_kind, h.refused, finish_op) refl

  refused_known :
      (op : ListOutboxItem) (later : List ListOutboxItem) (st : Lists db)
      → (h : IsRefused op later st)
      → flush_known db answers known true op st
        ≡ (broken, log db (set_chat_list_item_done op.chat_id h.list.id h.item_id h.done) st)
  unfolding flush_known
  refused_known op later st h =
      ap (λ (kind : OpKind). flush_op db (answers op) kind op st) h.kind ∙ refused_op op later st h

  refused_pass :
      (op : ListOutboxItem) (later : List ListOutboxItem) (st : Lists db)
      → (h : IsRefused op later st)
      → flush_list_outbox db answers known true st
        ≡ (0, log db (set_chat_list_item_done op.chat_id h.list.id h.item_id h.done) st)
  unfolding flush_list_outbox flush_ops after_op
  refused_pass op later st h =
      rw (h.oldest, flush_ops, h.is_known, refused_known op later st h, after_op) refl

  -- If the oldest change sets a mark in a list that the server has, and the server refuses it, then
  -- the queue and the lists stay as they are, however often the queue is flushed, and no change behind
  -- the refused one is sent: the only request of each pass is the refused one.
  pub passes_refused :
      (n : ℕ) (op : ListOutboxItem) (later : List ListOutboxItem) (st : Lists db)
      → (h : IsRefused op later st)
      → ((passes n st).ops ≡ st.ops)
        × ((passes n st).lists ≡ st.lists)
        × ((passes n st).sent
            ≡ repeated n (set_chat_list_item_done op.chat_id h.list.id h.item_id h.done) st.sent)
  passes_refused zero op later st h = (refl, refl, refl)
  passes_refused (suc n) op later st h =
      let request = set_chat_list_item_done op.chat_id h.list.id h.item_id h.done in
      let again : IsRefused op later (log db request st) = record {
        item_id = h.item_id;
        done = h.done;
        list = h.list;
        oldest = h.oldest;
        kind = h.kind;
        is_known = h.is_known;
        listed = h.listed;
        shared = h.shared;
        refused = h.refused;
      } in
      rw (refused_pass op later st h, passes) (passes_refused n op later (log db request st) again)
