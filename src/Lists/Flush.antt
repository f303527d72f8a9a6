-- ===== src/Lists/Flush.antt =====
-- Sending the queued changes of shared lists: `flushListOutbox` of client/src/lib/list-sync.ts.
-- The answers of the server and of the encryption are parameters, one for each op of a pass.
pub mod Handled
pub mod Sent
pub mod Kept
pub mod Stuck
pub mod Adopted
use Prim.Native.String
use coachman.Common.{
  ℕ, suc, compare, String, Bool, true, false, Option, none, some, List, [], ◌∷◌, map, sort, find,
  default, is_true, truthy, or_text, if◌then◌else◌, ◌==◌,
}
use coachman.Lists.{
  StoredChatListItem, StoredChatList, OpKind, add, toggle, delete, reorder, create_list,
  ListOutboxItem, ListDatabase, sort_list_items,
}

-- What the code reads of a `RawChatList` and of a `RawChatListItem`.
pub record RemoteList : Type 0 where
  pub id : String
  pub created_at : ℕ
  pub updated_at : ℕ

pub record RemoteItem : Type 0 where
  pub id : String
  pub updated_at : ℕ

-- What happens to the calls that an op makes; `none` and `false` are exceptions.
pub record Answers : Type 0 where
  pub encrypted_title : Option String
  pub created : Option RemoteList
  pub encrypted_text : Option String
  pub added : Option RemoteItem
  pub accepted : Bool

-- A request, with the ids that it names.
pub data Request : Type 0 where
  create_chat_list : String → String → Request
  add_chat_list_item : String → String → String → Request
  set_chat_list_item_done : String → String → String → Bool → Request
  delete_chat_list_item : String → String → String → Request
  reorder_chat_list_items : String → String → List String → Request

-- How the body of the loop ends: `flushed++`, `continue`, or the `break` of the handler.
pub data Outcome : Type 0 where
  flushed skipped broken : Outcome

module _ (db : ListDatabase) where
  pub record Lists : Type 0 where
    pub lists : db.lists.Rows
    pub ops : db.ops.Rows
    pub sent : List Request

  abbrev pub get_list_outbox_items : Lists → List ListOutboxItem
  get_list_outbox_items st = sort (λ a b. compare a.created_at b.created_at) (db.ops.all st.ops)

  abbrev pub save_chat_list : StoredChatList → Lists → Lists
  save_chat_list list st = record st { lists = db.lists.put list st.lists }

  abbrev pub remove_list_outbox_item : String → Lists → Lists
  remove_list_outbox_item id st = record st { ops = db.ops.delete id st.ops }

  abbrev pub log : Request → Lists → Lists
  log request st = record st { sent = request ∷ st.sent }

  -- The list with the identity that the server gave it.
  abbrev pub adopted : RemoteList → StoredChatList → StoredChatList
  adopted remote list = record list {
    id = remote.id;
    local_only = some false;
    created_at = remote.created_at;
    updated_at = remote.updated_at;
    items = map (λ (i : StoredChatListItem). record i { list_id = remote.id }) list.items;
  }

  abbrev pub new_list : RemoteList → String → StoredChatList
  new_list remote chat_id = record {
    id = remote.id;
    chat_id = chat_id;
    title = "Список";
    created_at = remote.created_at;
    updated_at = remote.updated_at;
    items = [];
    local_only = some false;
  }

  abbrev pub list_or_new : Option StoredChatList → RemoteList → String → StoredChatList
  list_or_new none remote chat_id = new_list remote chat_id
  list_or_new (some list) remote chat_id = adopted remote list

  -- `encryptChatShared` of the title and `api.createChatList`; the row is saved under the new id.
  unfoldable pub create_remote :
      Option String → Option RemoteList → ListOutboxItem → Lists → Bool × Lists
  create_remote none created op st = (false, st)
  create_remote (some title) none op st = (false, log (create_chat_list op.chat_id title) st)
  create_remote (some title) (some remote) op st = (
    true,
    save_chat_list (list_or_new (db.lists.get op.chat_id st.lists) remote op.chat_id)
        (log (create_chat_list op.chat_id title) st),
  )

  unfoldable pub finish_op : Bool → ListOutboxItem → Lists → Outcome × Lists
  finish_op false op st = (broken, st)
  finish_op true op st = (flushed, remove_list_outbox_item op.id st)

  -- The item that was added gets the identity that the server gave it.
  abbrev pub renamed : String → String → RemoteItem → StoredChatListItem → StoredChatListItem
  renamed item_id list_id remote i =
      if i.id == item_id
      then record i {
        id = remote.id;
        list_id = list_id;
        pending = some false;
        updated_at = remote.updated_at;
      }
      else i

  unfoldable pub add_remote :
      Option String
      → Option RemoteItem
      → String
      → StoredChatList
      → ListOutboxItem
      → Lists
      → Outcome × Lists
  unfolding finish_op sort_list_items
  add_remote none added item_id list op st = (broken, st)
  add_remote (some text) none item_id list op st =
      (broken, log (add_chat_list_item op.chat_id list.id text) st)
  add_remote (some text) (some remote) item_id list op st = finish_op true op (
      save_chat_list
        (record list { items = sort_list_items (map (renamed item_id list.id remote) list.items) })
        (log (add_chat_list_item op.chat_id list.id text) st))

  -- The text of the item in the list, if it is there.
  abbrev pub item_text : String → StoredChatList → String
  item_text item_id list = elim (find (λ (i : StoredChatListItem). i.id == item_id) list.items) [
    | none ↦ ""
    | some i ↦ i.text
  ]

  -- The op on the list that the server has.
  unfoldable pub flush_kind :
      Answers → OpKind → StoredChatList → ListOutboxItem → Lists → Outcome × Lists
  unfolding finish_op add_remote
  flush_kind a (add item_id text) list op st =
      if truthy (or_text text (item_text item_id list))
      then add_remote a.encrypted_text a.added item_id list op st
      else (skipped, remove_list_outbox_item op.id st)
  flush_kind a (toggle item_id done) list op st =
      finish_op a.accepted op (log (set_chat_list_item_done op.chat_id list.id item_id done) st)
  flush_kind a (delete item_id) list op st =
      finish_op true op (log (delete_chat_list_item op.chat_id list.id item_id) st)
  flush_kind a (reorder item_ids) list op st =
      finish_op a.accepted op (log (reorder_chat_list_items op.chat_id list.id item_ids) st)
  flush_kind a create_list list op st = (skipped, st)

  -- What follows the second read of the list.
  unfoldable pub flush_listed :
      Answers → Option StoredChatList → ListOutboxItem → Lists → Outcome × Lists
  unfolding flush_kind
  flush_listed a none op st = (skipped, st)
  flush_listed a (some list) op st =
      if is_true list.local_only then (skipped, st) else flush_kind a op.kind list op st

  unfoldable pub flush_created : Answers → ListOutboxItem → Bool × Lists → Outcome × Lists
  unfolding flush_listed
  flush_created a op (false, st) = (broken, st)
  flush_created a op (true, st) = flush_listed a (db.lists.get op.chat_id st.lists) op st

  abbrev pub is_local : Option StoredChatList → Bool
  is_local none = false
  is_local (some list) = is_true list.local_only

  -- The body of the loop, for a chat that is known.
  unfoldable pub flush_op : Answers → OpKind → ListOutboxItem → Lists → Outcome × Lists
  unfolding create_remote flush_created finish_op
  flush_op a create_list op st =
      let (created, st') = create_remote a.encrypted_title a.created op st in
      finish_op created op st'
  flush_op a kind op st =
      if is_local (db.lists.get op.chat_id st.lists)
      then flush_created a op (create_remote a.encrypted_title a.created op st)
      else flush_created a op (true, st)

  module _ (answers : ListOutboxItem → Answers) (known : String → Bool) where
    unfoldable pub flush_known : Bool → ListOutboxItem → Lists → Outcome × Lists
    unfolding flush_op
    flush_known false op st = (skipped, st)
    flush_known true op st = flush_op (answers op) op.kind op st

    -- How the loop goes on after a round.
    unfoldable pub after_op : Outcome × Lists → (Lists → ℕ × Lists) → ℕ × Lists
    after_op (broken, st) rest = (0, st)
    after_op (skipped, st) rest = rest st
    after_op (flushed, st) rest = let (n, r) = rest st in (suc n, r)

    unfoldable pub flush_ops : List ListOutboxItem → Lists → ℕ × Lists
    unfolding flush_known after_op
    flush_ops [] st = (0, st)
    flush_ops (op ∷ ops) st = after_op (flush_known (known op.chat_id) op st) (flush_ops ops)

    unfoldable pub flush_list_outbox : Bool → Lists → ℕ × Lists
    unfolding flush_ops
    flush_list_outbox online st =
        if online then flush_ops (get_list_outbox_items st) st else (0, st)
