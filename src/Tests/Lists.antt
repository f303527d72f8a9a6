-- ===== src/Tests/Lists.antt =====
-- A shared list with a few queued changes: client/src/lib/list-sync.ts.
use coachman.Common.{
  String, Bool, true, false, none, some, [], ◌∷◌, map, sort, insert_sorted, ◌≡◌, refl, inr, ◌⊎◌,
}
use coachman.Lists.{
  StoredChatListItem, StoredChatList, list_key, add, toggle, delete, ListOutboxItem, op_key,
  ListDatabase, sort_list_items, compare_items,
}
use coachman.Lists.Flush.{
  Answers, Request, Lists, get_list_outbox_items, create_remote, finish_op, add_remote, flush_kind,
  flush_listed, flush_created, flush_op, flush_known, after_op, flush_ops, flush_list_outbox,
  set_chat_list_item_done,
}
use coachman.Lists.Flush.Handled.{Handled}
use coachman.Lists.Flush.Kept.{flush_list_outbox-keeps}
use coachman.Lists.Flush.Stuck.{IsRefused, passes, repeated, passes_refused}
use coachman.Lists.Flush.Adopted.{AllOwned, save-AllOwned, flush_list_outbox-AllOwned}
use coachman.Lists.Unread.{mark_list_unread}
use coachman.Lists.Unread.Flag.{IsFlagged, list_flag-IsFlagged}
use coachman.Store.Table.{table}

abbrev memory : ListDatabase
memory = record { lists = table list_key; ops = table op_key }

-- An item that was added offline, under an id of the client.
abbrev milk : StoredChatListItem
milk = record {
  id = "t1";
  list_id = "l1";
  text = "milk";
  done = true;
  position = 0;
  updated_at = 5;
  pending = some true;
}

abbrev shopping : StoredChatList
shopping = record {
  id = "l1";
  chat_id = "c";
  title = "Список";
  created_at = 1;
  updated_at = 6;
  items = milk ∷ [];
  local_only = some false;
}

abbrev added_milk : ListOutboxItem
added_milk = record {
  id = "o1";
  chat_id = "c";
  list_id = "l1";
  kind = add "t1" "milk";
  created_at = 5;
}

abbrev bought_milk : ListOutboxItem
bought_milk = record {
  id = "o2";
  chat_id = "c";
  list_id = "l1";
  kind = toggle "t1" true;
  created_at = 6;
}

abbrev gone_tea : ListOutboxItem
gone_tea = record { id = "o3"; chat_id = "c"; list_id = "l1"; kind = delete "r0"; created_at = 7 }

abbrev start : Lists memory
unfolding table
start = record { lists = shopping ∷ []; ops = gone_tea ∷ added_milk ∷ bought_milk ∷ []; sent = [] }

-- The server names the new item `r1`, and knows no item `t1`.
abbrev answers : ListOutboxItem → Answers
answers op = record {
  encrypted_title = some "title";
  created = some (record { id = "l1"; created_at = 8; updated_at = 8 });
  encrypted_text = some "milk";
  added = some (record { id = "r1"; updated_at = 8 });
  accepted = false;
}

abbrev every_chat : String → Bool
every_chat chat_id = true

unfoldable flushing : Unit {0}
unfolding flush_list_outbox flush_ops after_op flush_known flush_op flush_created flush_listed
    flush_kind add_remote finish_op create_remote sort_list_items compare_items sort insert_sorted
    table
flushing = tt

-- The item that was added is renamed, but the mark that waits behind it still names it by the id of
-- the client, and blocks the deletion.
mark_names_old_id :
    (flush_list_outbox memory answers every_chat true start).1.sent
    ≡ set_chat_list_item_done "c" "l1" "t1" true ∷ Request.add_chat_list_item "c" "l1" "milk" ∷ []
unfolding flushing
mark_names_old_id = refl

two_left :
    map op_key
      (get_list_outbox_items memory (flush_list_outbox memory answers every_chat true start).1)
    ≡ "o2" ∷ "o3" ∷ []
unfolding flushing
two_left = refl

flush_list_outbox-keeps_example :
    (memory.ops.get "o1" (flush_list_outbox memory answers every_chat true start).1.ops
      ≡ some added_milk)
    ⊎ ((every_chat "c" ≡ true)
        × Handled "c"
            (answers added_milk)
            (add "t1" "milk")
            (flush_list_outbox memory answers every_chat true start).1.sent)
unfolding table
flush_list_outbox-keeps_example =
    flush_list_outbox-keeps memory "o1" answers every_chat true start refl

abbrev blocked : Lists memory
unfolding table
blocked = record { lists = shopping ∷ []; ops = gone_tea ∷ bought_milk ∷ []; sent = [] }

blocked-IsRefused : IsRefused memory answers every_chat bought_milk (gone_tea ∷ []) blocked
unfolding flushing
blocked-IsRefused = record {
  item_id = "t1";
  done = true;
  list = shopping;
  oldest = refl;
  kind = refl;
  is_known = refl;
  listed = refl;
  shared = refl;
  refused = refl;
}

passes_refused_example :
    ((passes memory answers every_chat 3 blocked).ops ≡ blocked.ops)
    × ((passes memory answers every_chat 3 blocked).lists ≡ blocked.lists)
    × ((passes memory answers every_chat 3 blocked).sent
        ≡ repeated 3 (set_chat_list_item_done "c" "l1" "t1" true) [])
unfolding blocked-IsRefused
passes_refused_example =
    passes_refused memory answers every_chat 3 bought_milk (gone_tea ∷ []) blocked blocked-IsRefused

start-AllOwned : AllOwned memory start.lists
unfolding table
start-AllOwned = save-AllOwned memory shopping [] (inr (refl, tt)) (λ chat_id list e. cc)

flush_list_outbox-AllOwned_example :
    AllOwned memory (flush_list_outbox memory answers every_chat true start).1.lists
flush_list_outbox-AllOwned_example =
    flush_list_outbox-AllOwned memory answers every_chat true start start-AllOwned

list_flag-IsFlagged_example : IsFlagged "c" (some shopping) none 20 30 (mark_list_unread "c" 10 [])
list_flag-IsFlagged_example =
    list_flag-IsFlagged "c" (some shopping) none 20 30 (mark_list_unread "c" 10 [])
