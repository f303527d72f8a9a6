-- ===== src/Lists/Flush/Sent.antt =====
-- A pass forgets no request: client/src/lib/list-sync.ts.
use coachman.Common.{
  ℕ, String, Bool, true, false, is_true, Option, none, some, List, [], ◌∷◌, truthy, or_text, In,
  if◌then◌else◌, inr,
}
use coachman.Lists.{
  StoredChatList, OpKind, add, toggle, delete, reorder, create_list, ListOutboxItem, ListDatabase,
}
use coachman.Lists.Flush.{
  Request, set_chat_list_item_done, delete_chat_list_item, reorder_chat_list_items, Answers,
  RemoteList, RemoteItem, Outcome, flushed, skipped, broken, Lists, item_text, log,
  remove_list_outbox_item, create_remote, finish_op, add_remote, flush_kind, flush_listed,
  flush_created, flush_op, flush_known, after_op, flush_ops,
}

module _ (db : ListDatabase) where
  -- What was sent before is still among what was sent.
  abbrev pub More : Lists db → Lists db → Type 0
  More st r = (x : Request) → In x st.sent → In x r.sent

  either-More :
      (b : Bool) (st : Lists db) (x y : Outcome × Lists db)
      → More st x.1
      → More st y.1
      → More st (if b then x else y).1
  either-More true st x y h l = h
  either-More false st x y h l = l

  create_remote-More :
      (title : Option String) (created : Option RemoteList) (op : ListOutboxItem) (st : Lists db)
      → More st (create_remote db title created op st).1
  unfolding create_remote
  create_remote-More none created op st x i = i
  create_remote-More (some title) none op st x i = inr i
  create_remote-More (some title) (some remote) op st x i = inr i

  finish_op-More :
      (b : Bool) (op : ListOutboxItem) (st r : Lists db)
      → More st r
      → More st (finish_op db b op r).1
  unfolding finish_op
  finish_op-More false op st r h = h
  finish_op-More true op st r h = h

  add_remote-More :
      (text : Option String) (added : Option RemoteItem) (item_id : String) (list : StoredChatList)
      (op : ListOutboxItem) (st : Lists db)
      → More st (add_remote db text added item_id list op st).1
  unfolding add_remote finish_op
  add_remote-More none added item_id list op st x i = i
  add_remote-More (some text) none item_id list op st x i = inr i
  add_remote-More (some text) (some remote) item_id list op st x i = inr i

  flush_kind-More :
      (a : Answers) (kind : OpKind) (list : StoredChatList) (op : ListOutboxItem) (st : Lists db)
      → More st (flush_kind db a kind list op st).1
  unfolding flush_kind
  flush_kind-More a (add item_id text) list op st =
      either-More (truthy (or_text text (item_text db item_id list))) st
        (add_remote db a.encrypted_text a.added item_id list op st)
        (skipped, remove_list_outbox_item db op.id st)
        (add_remote-More a.encrypted_text a.added item_id list op st) (λ x i. i)
  flush_kind-More a (toggle item_id done) list op st =
      finish_op-More a.accepted op st
        (log db (set_chat_list_item_done op.chat_id list.id item_id done) st) (λ x i. inr i)
  flush_kind-More a (delete item_id) list op st =
      finish_op-More true op st (log db (delete_chat_list_item op.chat_id list.id item_id) st)
        (λ x i. inr i)
  flush_kind-More a (reorder item_ids) list op st =
      finish_op-More a.accepted op st
        (log db (reorder_chat_list_items op.chat_id list.id item_ids) st) (λ x i. inr i)
  flush_kind-More a create_list list op st = λ x i. i

  flush_listed-More :
      (a : Answers) (o : Option StoredChatList) (op : ListOutboxItem) (st : Lists db)
      → More st (flush_listed db a o op st).1
  unfolding flush_listed
  flush_listed-More a none op st = λ x i. i
  flush_listed-More a (some list) op st =
      either-More (is_true list.local_only) st (skipped, st) (flush_kind db a op.kind list op st)
        (λ x i. i) (flush_kind-More a op.kind list op st)

  flush_created-More :
      (a : Answers) (op : ListOutboxItem) (st : Lists db) (x : Bool × Lists db)
      → More st x.1
      → More st (flush_created db a op x).1
  unfolding flush_created
  flush_created-More a op st (false, r) h = h
  flush_created-More a op st (true, r) h =
      λ x i. flush_listed-More a (db.lists.get op.chat_id r.lists) op r x (h x i)

  changed-More :
      (a : Answers) (op : ListOutboxItem) (st : Lists db) (b : Bool)
      → More st
          (if b
            then flush_created db a op (create_remote db a.encrypted_title a.created op st)
            else flush_created db a op (true, st)).1
  changed-More a op st b =
      either-More b st (flush_created db a op (create_remote db a.encrypted_title a.created op st))
        (flush_created db a op (true, st))
        (flush_created-More a op st _ (create_remote-More a.encrypted_title a.created op st))
        (flush_created-More a op st (true, st) (λ x i. i))

  flush_op-More :
      (a : Answers) (kind : OpKind) (op : ListOutboxItem) (st : Lists db)
      → More st (flush_op db a kind op st).1
  unfolding flush_op
  flush_op-More a create_list op st =
      finish_op-More _ op st _ (create_remote-More a.encrypted_title a.created op st)
  flush_op-More a (add item_id text) op st = changed-More a op st _
  flush_op-More a (toggle item_id done) op st = changed-More a op st _
  flush_op-More a (delete item_id) op st = changed-More a op st _
  flush_op-More a (reorder item_ids) op st = changed-More a op st _

  module _ (answers : ListOutboxItem → Answers) (known : String → Bool) where
    flush_known-More :
        (b : Bool) (op : ListOutboxItem) (st : Lists db)
        → More st (flush_known db answers known b op st).1
    unfolding flush_known
    flush_known-More false op st = λ x i. i
    flush_known-More true op st = flush_op-More (answers op) op.kind op st

    after_op-More :
        (st : Lists db) (x : Outcome × Lists db) (rest : Lists db → ℕ × Lists db)
        → ((r : Lists db) → More r (rest r).1)
        → More st x.1
        → More st (after_op db answers known x rest).1
    unfolding after_op
    after_op-More st (broken, r) rest h m = m
    after_op-More st (skipped, r) rest h m = λ x i. h r x (m x i)
    after_op-More st (flushed, r) rest h m = λ x i. h r x (m x i)

    pub flush_ops-More :
        (ops : List ListOutboxItem) (st : Lists db) → More st (flush_ops db answers known ops st).1
    unfolding flush_ops
    flush_ops-More [] st = λ x i. i
    flush_ops-More (op ∷ ops) st =
        after_op-More st _ (flush_ops db answers known ops) (flush_ops-More ops)
          (flush_known-More (known op.chat_id) op st)
