-- ===== src/Lists.antt =====
-- The shared list of a chat: the rows `StoredChatList`, `StoredChatListItem` and `ListOutboxItem` of
-- client/src/lib/storage.ts, and the queue of its changes, client/src/lib/list-sync.ts.
pub mod Flush
pub mod Unread
use Prim.Native.String
use coachman.Common.{
  ℕ, compare, String, Bool, true, false, Option, none, some, List, [], ◌∷◌, map, sort, find,
  is_true, if◌then◌else◌, ◌==◌,
}
use Prim.Native.Nat.{Ordering}
use coachman.Store.{ObjectStore}

pub record StoredChatListItem : Type 0 where
  pub id : String
  pub list_id : String
  pub text : String
  pub done : Bool
  pub position : ℕ
  pub updated_at : ℕ
  pub pending : Option Bool

pub record StoredChatList : Type 0 where
  pub id : String
  pub chat_id : String
  pub title : String
  pub created_at : ℕ
  pub updated_at : ℕ
  pub items : List StoredChatListItem
  pub local_only : Option Bool

-- What an op does, with the fields of its kind.
pub data OpKind : Type 0 where
  add : String → String → OpKind
  toggle : String → Bool → OpKind
  delete : String → OpKind
  reorder : List String → OpKind
  create_list : OpKind

pub record ListOutboxItem : Type 0 where
  pub id : String
  pub chat_id : String
  pub list_id : String
  pub kind : OpKind
  pub created_at : ℕ

abbrev pub list_key : StoredChatList → String
list_key list = list.chat_id

abbrev pub op_key : ListOutboxItem → String
op_key op = op.id

-- The stores `chatLists` and `listOutbox`.
pub record ListDatabase : Type 1 where
  pub lists : ObjectStore list_key
  pub ops : ObjectStore op_key

-- `||` of the results of two comparisons
abbrev pub then_by : Ordering → Ordering → Ordering
then_by Ordering.eq o = o
then_by o _ = o

abbrev pub done_number : Bool → ℕ
done_number true = 1
done_number false = 0

unfoldable pub compare_items : StoredChatListItem → StoredChatListItem → Ordering
compare_items a b =
    then_by (compare (done_number a.done) (done_number b.done))
      (then_by (compare a.position b.position) (compare a.updated_at b.updated_at))

unfoldable pub sort_list_items : List StoredChatListItem → List StoredChatListItem
unfolding compare_items
sort_list_items items = sort compare_items items

-- `emptyLocalList`
abbrev pub empty_local_list : String → ℕ → StoredChatList
empty_local_list chat_id now = record {
  id = String.◌++◌ "local-" chat_id;
  chat_id = chat_id;
  title = "Список";
  created_at = now;
  updated_at = now;
  items = [];
  local_only = some true;
}
