-- ===== src/Lists/Flush/Handled.antt =====
-- When a queued change is handled: client/src/lib/list-sync.ts.
use coachman.Common.{
  String, Bool, true, false, is_true, subst, Option, none, some, List, is_some, truthy, or_text, In,
  if◌then◌else◌, Bool-cases, ◌==◌, eq_iff, ◌≡◌, refl, ap, ◌∙◌, ◌⊎◌, inl, inr,
}
use coachman.Lists.{
  StoredChatList, OpKind, add, toggle, delete, reorder, create_list, ListOutboxItem, ListDatabase,
}
use coachman.Lists.Flush.{
  Request, create_chat_list, add_chat_list_item, set_chat_list_item_done, delete_chat_list_item,
  reorder_chat_list_items, Answers, RemoteList, RemoteItem, Outcome, Lists, item_text, log,
  remove_list_outbox_item, create_remote, finish_op, add_remote, flush_kind, flush_listed,
  flush_created, flush_op,
}

-- A request was made, of some list.
abbrev Requested : (String → Request) → List Request → Type 0
Requested request sent = (list_id : String) × In (request list_id) sent

-- The op of a chat is handled, when `sent` are the requests so far: its own request is among them and
-- the server has accepted it, or it adds no text. Of a deletion only the request is said, since the
-- code takes every failure of it for success.
abbrev pub Handled : String → Answers → OpKind → List Request → Type 0
Handled chat_id a (add item_id text) sent =
    ((c : String) × (a.encrypted_text ≡ some c)
      × (is_some a.added ≡ true)
      × Requested (λ l. add_chat_list_item chat_id l c) sent)
    ⊎ (truthy text ≡ false)
Handled chat_id a (toggle item_id done) sent =
    (a.accepted ≡ true) × Requested (λ l. set_chat_list_item_done chat_id l item_id done) sent
Handled chat_id a (delete item_id) sent =
    Requested (λ l. delete_chat_list_item chat_id l item_id) sent
Handled chat_id a (reorder item_ids) sent =
    (a.accepted ≡ true) × Requested (λ l. reorder_chat_list_items chat_id l item_ids) sent
Handled chat_id a create_list sent =
    (c : String) × (a.encrypted_title ≡ some c)
    × (is_some a.created ≡ true)
    × In (create_chat_list chat_id c) sent

-- What was handled stays so when more is sent.
pub Handled-more :
    (chat_id : String) (a : Answers) (kind : OpKind) (sent more : List Request)
    → ((x : Request) → In x sent → In x more)
    → Handled chat_id a kind sent
    → Handled chat_id a kind more
Handled-more chat_id a (add item_id text) sent more f (inl (c, e, g, (l, i))) =
    inl (c, e, g, (l, f _ i))
Handled-more chat_id a (add item_id text) sent more f (inr e) = inr e
Handled-more chat_id a (toggle item_id done) sent more f (e, (l, i)) = (e, (l, f _ i))
Handled-more chat_id a (delete item_id) sent more f (l, i) = (l, f _ i)
Handled-more chat_id a (reorder item_ids) sent more f (e, (l, i)) = (e, (l, f _ i))
Handled-more chat_id a create_list sent more f (c, e, g, i) = (c, e, g, f _ i)

module _ (db : ListDatabase) (k : String) where
  -- The row under `k` is as before, or it is the op's and `P` holds of the state.
  abbrev pub Keeps : (Lists db → Type 0) → ListOutboxItem → db.ops.Rows → Lists db → Type 0
  Keeps P op rows r = (db.ops.get k r.ops ≡ db.ops.get k rows) ⊎ ((op.id ≡ k) × P r)

  -- The op is handled.
  abbrev Done : Answers → OpKind → ListOutboxItem → Lists db → Type 0
  Done a kind op r = Handled op.chat_id a kind r.sent

  remove-Keeps :
      (P : Lists db → Type 0) (op : ListOutboxItem) (rows : db.ops.Rows) (r : Lists db)
      → r.ops ≡ db.ops.delete op.id rows
      → P r
      → Keeps P op rows r
  remove-Keeps P op rows r e p = elim (Bool-cases (op.id == k)) [
    | inl same ↦ inr ((eq_iff op.id k).0 same, p)
    | inr other ↦ inl (rw e (db.ops.get-delete k op.id rows ∙ rw other refl))
  ]

  finish_op-Keeps :
      (P : Lists db → Type 0) (b : Bool) (op : ListOutboxItem) (st r : Lists db)
      → r.ops ≡ st.ops
      → (b ≡ true → P (finish_op db true op r).1)
      → Keeps P op st.ops (finish_op db b op r).1
  unfolding finish_op
  finish_op-Keeps P false op st r e p = inl (ap (db.ops.get k) e)
  finish_op-Keeps P true op st r e p =
      remove-Keeps P op st.ops _ (ap (λ rows. db.ops.delete op.id rows) e) (p refl)

  create_remote-ops :
      (title : Option String) (created : Option RemoteList) (op : ListOutboxItem) (st : Lists db)
      → (create_remote db title created op st).1.ops ≡ st.ops
  unfolding create_remote
  create_remote-ops none created op st = refl
  create_remote-ops (some title) none op st = refl
  create_remote-ops (some title) (some remote) op st = refl

  create_remote-done :
      (title : Option String) (created : Option RemoteList) (op : ListOutboxItem) (st : Lists db)
      → (create_remote db title created op st).0 ≡ true
      → (c : String) × (title ≡ some c)
        × (is_some created ≡ true)
        × In (create_chat_list op.chat_id c) (create_remote db title created op st).1.sent
  unfolding create_remote
  create_remote-done none created op st h = cc
  create_remote-done (some title) none op st h = cc
  create_remote-done (some title) (some remote) op st h = (title, refl, refl, inl refl)

  add-Keeps :
      (a : Answers) (t : Option String) (added : Option RemoteItem) (item_id text : String)
      (list : StoredChatList) (op : ListOutboxItem) (st : Lists db)
      → a.encrypted_text ≡ t
      → a.added ≡ added
      → Keeps (Done a (add item_id text) op) op st.ops (add_remote db t added item_id list op st).1
  unfolding add_remote finish_op
  add-Keeps a none added item_id text list op st e g = inl refl
  add-Keeps a (some t) none item_id text list op st e g = inl refl
  add-Keeps a (some t) (some remote) item_id text list op st e g =
      remove-Keeps (Done a (add item_id text) op) op st.ops
        (add_remote db (some t) (some remote) item_id list op st).1 refl
        (inl (t, e, rw g refl, (list.id, inl refl)))

  no_text : (text other : String) → truthy (or_text text other) ≡ false → truthy text ≡ false
  no_text text other h = elim (Bool-cases (truthy text)) [
    | inl e ↦ let h' : truthy text ≡ false = rw e at h in h'
    | inr e ↦ e
  ]

  flush_kind-Keeps :
      (a : Answers) (kind : OpKind) (list : StoredChatList) (op : ListOutboxItem) (st : Lists db)
      → Keeps (Done a kind op) op st.ops (flush_kind db a kind list op st).1
  unfolding flush_kind finish_op
  flush_kind-Keeps a (add item_id text) list op st =
      elim (Bool-cases (truthy (or_text text (item_text db item_id list)))) [
        | inl e ↦ rw e (add-Keeps a a.encrypted_text a.added item_id text list op st refl refl)
        | inr e ↦ rw e (
            remove-Keeps (Done a (add item_id text) op) op st.ops
              (remove_list_outbox_item db op.id st) refl (inr (no_text text _ e)))
      ]
  flush_kind-Keeps a (toggle item_id done) list op st =
      finish_op-Keeps (Done a (toggle item_id done) op) a.accepted op st
        (log db (set_chat_list_item_done op.chat_id list.id item_id done) st) refl
        (λ e. (e, (list.id, inl refl)))
  flush_kind-Keeps a (delete item_id) list op st =
      remove-Keeps (Done a (delete item_id) op) op st.ops
        (flush_kind db a (delete item_id) list op st).1 refl (list.id, inl refl)
  flush_kind-Keeps a (reorder item_ids) list op st =
      finish_op-Keeps (Done a (reorder item_ids) op) a.accepted op st
        (log db (reorder_chat_list_items op.chat_id list.id item_ids) st) refl
        (λ e. (e, (list.id, inl refl)))
  flush_kind-Keeps a create_list list op st = inl refl

  flush_listed-Keeps :
      (a : Answers) (o : Option StoredChatList) (op : ListOutboxItem) (st : Lists db)
      → Keeps (Done a op.kind op) op st.ops (flush_listed db a o op st).1
  unfolding flush_listed
  flush_listed-Keeps a none op st = inl refl
  flush_listed-Keeps a (some list) op st = elim (Bool-cases (is_true list.local_only)) [
    | inl e ↦ rw e (inl refl)
    | inr e ↦ rw e (flush_kind-Keeps a op.kind list op st)
  ]

  flush_created-Keeps :
      (a : Answers) (op : ListOutboxItem) (rows : db.ops.Rows) (x : Bool × Lists db)
      → x.1.ops ≡ rows
      → Keeps (Done a op.kind op) op rows (flush_created db a op x).1
  unfolding flush_created
  flush_created-Keeps a op rows (false, st) e = inl (ap (db.ops.get k) e)
  flush_created-Keeps a op rows (true, st) e =
      rw (← e) (flush_listed-Keeps a (db.lists.get op.chat_id st.lists) op st)

  either-Keeps :
      (P : Lists db → Type 0) (op : ListOutboxItem) (rows : db.ops.Rows) (b : Bool)
      (x y : Outcome × Lists db)
      → Keeps P op rows x.1
      → Keeps P op rows y.1
      → Keeps P op rows (if b then x else y).1
  either-Keeps P op rows true x y h l = h
  either-Keeps P op rows false x y h l = l

  changed-Keeps :
      (a : Answers) (op : ListOutboxItem) (st : Lists db) (b : Bool)
      → Keeps
          (Done a op.kind op)
          op
          st.ops
          (if b
            then flush_created db a op (create_remote db a.encrypted_title a.created op st)
            else flush_created db a op (true, st)).1
  changed-Keeps a op st b =
      either-Keeps (Done a op.kind op) op st.ops b _ _
        (flush_created-Keeps a op st.ops _ (create_remote-ops a.encrypted_title a.created op st))
        (flush_created-Keeps a op st.ops (true, st) refl)

  -- Of an op that is not the creation of a list.
  changed_kind :
      (a : Answers) (kind : OpKind) (op : ListOutboxItem) (st : Lists db) (b : Bool)
      → op.kind ≡ kind
      → Keeps
          (Done a kind op)
          op
          st.ops
          (if b
            then flush_created db a op (create_remote db a.encrypted_title a.created op st)
            else flush_created db a op (true, st)).1
  changed_kind a kind op st b e =
      let r =
        (if b
          then flush_created db a op (create_remote db a.encrypted_title a.created op st)
          else flush_created db a op (true, st)).1 in
      subst (λ c. Keeps (Done a c op) op st.ops r) e (changed-Keeps a op st b)

  -- An op leaves the queue only when it is handled.
  pub flush_op-Keeps :
      (a : Answers) (kind : OpKind) (op : ListOutboxItem) (st : Lists db)
      → op.kind ≡ kind
      → Keeps (Done a kind op) op st.ops (flush_op db a kind op st).1
  unfolding flush_op finish_op
  flush_op-Keeps a create_list op st e =
      finish_op-Keeps (Done a create_list op) _ op st _
        (create_remote-ops a.encrypted_title a.created op st)
        (create_remote-done a.encrypted_title a.created op st)
  flush_op-Keeps a (add item_id text) op st e = changed_kind a _ op st _ e
  flush_op-Keeps a (toggle item_id done) op st e = changed_kind a _ op st _ e
  flush_op-Keeps a (delete item_id) op st e = changed_kind a _ op st _ e
  flush_op-Keeps a (reorder item_ids) op st e = changed_kind a _ op st _ e
