-- ===== src/Lists/Unread/Flag.antt =====
-- The flag of a shared list through its life: client/src/lib/list-sync.ts.
use Prim.Native.String
use text.Mathlib.TextLemmas.{cons-append}
use coachman.Common.{
  ℕ, ◌≤◌, String, Bool, true, false, ◌||◌, Option, none, some, lookup, default, ltb, strip,
  strip-append, Bool-cases, ◌==◌, eq_iff, eq_refl, ◌≡◌, refl, sym, ◌∙◌, inl, inr, arith,
}
use coachman.Lists.{StoredChatList}
use coachman.Lists.Unread.{
  Keys, seen_key, unread_key, activity_key, get_list_seen_at, mark_list_seen, mark_list_unread,
  is_list_unread_flag, is_newer, mark_if_newer, check_list_unread_from_server,
}

-- A key that starts with `p` is none that does not.
apart : (p r key : String) → strip p key ≡ none → (String.◌++◌ p r == key) ≡ false
apart p r key h = elim (Bool-cases (String.◌++◌ p r == key)) [
  | inr e ↦ e
  | inl e ↦
      let same = (eq_iff (String.◌++◌ p r) key).0 e in
      let found : strip p key ≡ some r = rw (← same) (strip-append p r) in
      let clash : some r ≡ none = sym found ∙ h in cc
]

-- All keys start with the same four letters.
key_begins :
    (rest chat_id : String)
    → String.◌++◌ (String.◌∷◌ "l" (String.◌∷◌ "i" (String.◌∷◌ "s" (String.◌∷◌ "t" rest)))) chat_id
      ≡ String.◌∷◌ "l" (String.◌∷◌ "i" (String.◌∷◌ "s" (String.◌∷◌ "t" (String.◌++◌ rest chat_id))))
key_begins rest chat_id = rw (cons-append, cons-append, cons-append, cons-append) refl

seen_begins :
    (chat_id : String)
    → seen_key chat_id
      ≡ String.◌∷◌ "l" (
          String.◌∷◌ "i"
            (String.◌∷◌ "s" (String.◌∷◌ "t" (String.◌∷◌ "S" (String.◌++◌ "eenAt:" chat_id)))))
seen_begins chat_id = key_begins "SeenAt:" chat_id ∙ rw (cons-append "S" "eenAt:" chat_id) refl

unread_begins :
    (chat_id : String)
    → unread_key chat_id
      ≡ String.◌∷◌ "l" (
          String.◌∷◌ "i"
            (String.◌∷◌ "s" (String.◌∷◌ "t" (String.◌∷◌ "U" (String.◌++◌ "nread:" chat_id)))))
unread_begins chat_id = key_begins "Unread:" chat_id ∙ rw (cons-append "U" "nread:" chat_id) refl

activity_begins :
    (chat_id : String)
    → activity_key chat_id
      ≡ String.◌∷◌ "l" (
          String.◌∷◌ "i"
            (String.◌∷◌ "s" (String.◌∷◌ "t" (String.◌∷◌ "A" (String.◌++◌ "ctivityAt:" chat_id)))))
activity_begins chat_id =
    key_begins "ActivityAt:" chat_id ∙ rw (cons-append "A" "ctivityAt:" chat_id) refl

unread-ne-seen : (c : String) → (unread_key c == seen_key c) ≡ false
unfolding strip
unread-ne-seen c = apart "listUnread:" c (seen_key c) (rw (seen_begins c) refl)

unread-ne-activity : (c : String) → (unread_key c == activity_key c) ≡ false
unfolding strip
unread-ne-activity c = apart "listUnread:" c (activity_key c) (rw (activity_begins c) refl)

seen-ne-activity : (c : String) → (seen_key c == activity_key c) ≡ false
unfolding strip
seen-ne-activity c = apart "listSeenAt:" c (activity_key c) (rw (activity_begins c) refl)

activity-ne-unread : (c : String) → (activity_key c == unread_key c) ≡ false
unfolding strip
activity-ne-unread c = apart "listActivityAt:" c (unread_key c) (rw (unread_begins c) refl)

mark_list_unread-flag :
    (chat_id : String) (now : ℕ) (keys : Keys)
    → is_list_unread_flag chat_id (mark_list_unread chat_id now keys) ≡ true
unfolding is_list_unread_flag mark_list_unread
mark_list_unread-flag chat_id now keys =
    rw (activity-ne-unread chat_id, eq_refl (unread_key chat_id)) refl

mark_list_seen-flag :
    (chat_id : String) (at : ℕ) (keys : Keys)
    → default 0 (lookup (activity_key chat_id) keys) ≤ at
    → is_list_unread_flag chat_id (mark_list_seen chat_id at keys) ≡ false
unfolding is_list_unread_flag mark_list_seen
mark_list_seen-flag chat_id at keys h =
    rw
      (
        eq_refl (unread_key chat_id),
        unread-ne-seen chat_id,
        eq_refl (seen_key chat_id),
        unread-ne-activity chat_id,
        seen-ne-activity chat_id,
      )
      (ground arith)

mark_if_newer-flag :
    (newer : Bool) (chat_id : String) (now : ℕ) (keys : Keys)
    → is_list_unread_flag chat_id keys ≡ false
    → is_list_unread_flag chat_id (mark_if_newer newer chat_id now keys).1
      ≡ (mark_if_newer newer chat_id now keys).0
unfolding mark_if_newer
mark_if_newer-flag true chat_id now keys h = mark_list_unread-flag chat_id now keys
mark_if_newer-flag false chat_id now keys h = h

mark_if_newer-found :
    (newer : Bool) (chat_id : String) (now : ℕ) (keys : Keys)
    → (mark_if_newer newer chat_id now keys).0 ≡ newer
unfolding mark_if_newer
mark_if_newer-found true chat_id now keys = refl
mark_if_newer-found false chat_id now keys = refl

-- What is promised of the flag of one list.
pub record IsFlagged (chat_id : String) (cached : Option StoredChatList) (remote : Option ℕ)
    (now at : ℕ) (keys : Keys) : Type 0 where
  pub reported :
      is_list_unread_flag chat_id (check_list_unread_from_server chat_id cached remote now keys).1
      ≡ (check_list_unread_from_server chat_id cached remote now keys).0
  pub found : (check_list_unread_from_server chat_id cached remote now keys).0 ≡ (
      is_list_unread_flag chat_id keys
      || (is_newer cached (get_list_seen_at chat_id keys)
          || ltb (get_list_seen_at chat_id keys) (default 0 remote)))
  pub seen :
      default 0 (lookup (activity_key chat_id) keys) ≤ at
      → is_list_unread_flag chat_id (mark_list_seen chat_id at keys) ≡ false

-- What a check reports is what the flag says after it, and a list that was flagged, or that the store
-- or the server has in a later version than was seen, is reported. A list that is marked as seen at a
-- time that no activity is later than is not flagged.
pub list_flag-IsFlagged :
    (chat_id : String) (cached : Option StoredChatList) (remote : Option ℕ) (now at : ℕ)
    (keys : Keys)
    → IsFlagged chat_id cached remote now at keys
unfolding check_list_unread_from_server
list_flag-IsFlagged chat_id cached remote now at keys =
    let newer =
      is_newer cached (get_list_seen_at chat_id keys)
      || ltb (get_list_seen_at chat_id keys) (default 0 remote) in
    elim (Bool-cases (is_list_unread_flag chat_id keys)) [
      | inl raised ↦ record {
        reported = rw raised raised;
        found = rw raised refl;
        seen = mark_list_seen-flag chat_id at keys;
      }
      | inr quiet ↦ record {
        reported = rw quiet (mark_if_newer-flag newer chat_id now keys quiet);
        found = rw quiet (mark_if_newer-found newer chat_id now keys);
        seen = mark_list_seen-flag chat_id at keys;
      }
    ]
