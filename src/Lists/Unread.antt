-- ===== src/Lists/Unread.antt =====
-- The unread flag of a shared list: client/src/lib/list-sync.ts.
-- The key table of client/src/lib/storage.ts is an association list, and a number stands for the text
-- that the source writes for it.
pub mod Flag
use Prim.Native.String
use coachman.Common.{
  ℕ, max, ◌≤◌, ◌<◌, String, Bool, true, false, Option, none, some, List, [], ◌∷◌, lookup, insert,
  default, ltb, eqb, if◌then◌else◌, ◌==◌, ◌||◌, strip, strip-append, eq_iff, sym, ◌∙◌, eq_refl,
  lookup-insert_self, Bool-cases, ◌≡◌, refl, inl, inr, arith,
}
use text.Mathlib.TextLemmas.{cons-append}
use coachman.Lists.{StoredChatList}

abbrev pub Keys : Type 0
Keys = List (String × ℕ)

abbrev pub seen_key : String → String
seen_key chat_id = String.◌++◌ "listSeenAt:" chat_id

abbrev pub unread_key : String → String
unread_key chat_id = String.◌++◌ "listUnread:" chat_id

abbrev pub activity_key : String → String
activity_key chat_id = String.◌++◌ "listActivityAt:" chat_id

abbrev pub get_list_seen_at : String → Keys → ℕ
get_list_seen_at chat_id keys = default 0 (lookup (seen_key chat_id) keys)

unfoldable pub mark_list_seen : String → ℕ → Keys → Keys
mark_list_seen chat_id at keys = insert (unread_key chat_id) 0 (insert (seen_key chat_id) at keys)

unfoldable pub mark_list_unread : String → ℕ → Keys → Keys
mark_list_unread chat_id now keys =
    insert (activity_key chat_id) now (insert (unread_key chat_id) 1 keys)

abbrev pub is_raised : Option ℕ → Bool
is_raised none = false
is_raised (some flag) = eqb flag 1

unfoldable pub is_list_unread_flag : String → Keys → Bool
unfolding lookup
is_list_unread_flag chat_id keys =
    if is_raised (lookup (unread_key chat_id) keys)
    then true
    else ltb (get_list_seen_at chat_id keys) (default 0 (lookup (activity_key chat_id) keys))

abbrev pub is_newer : Option StoredChatList → ℕ → Bool
is_newer none seen_at = false
is_newer (some list) seen_at = ltb seen_at list.updated_at

unfoldable pub mark_if_newer : Bool → String → ℕ → Keys → Bool × Keys
unfolding mark_list_unread
mark_if_newer true chat_id now keys = (true, mark_list_unread chat_id now keys)
mark_if_newer false chat_id now keys = (false, keys)

-- `checkListUnreadFromServer`: `cached` is the stored list, `remote` the time of the server's list, 0
-- without a list, and `none` if the request fails or the client is offline.
unfoldable pub check_list_unread_from_server :
    String → Option StoredChatList → Option ℕ → ℕ → Keys → Bool × Keys
unfolding is_list_unread_flag mark_if_newer
check_list_unread_from_server chat_id cached remote now keys =
    let seen_at = get_list_seen_at chat_id keys in
    if is_list_unread_flag chat_id keys
    then (true, keys)
    else mark_if_newer (is_newer cached seen_at || ltb seen_at (default 0 remote)) chat_id now keys
