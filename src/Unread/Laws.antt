-- ===== src/Unread/Laws.antt =====
-- Read marks only advance, and an advance never raises a count: client/src/lib/unread.ts.
use coachman.Common.{
  ℕ, max, ◌≤◌, String, Bool, true, false, ◌&&◌, Option, none, some, List, [], ◌∷◌, length, filter,
  All, lookup, lookup-insert_self, default, leb, ltb, if◌then◌else◌, Bool-cases, ◌==◌, ◌≡◌, refl,
  sym, ap, inl, inr, arith,
}
use coachman.Message.{StoredMessage}
use coachman.Store.{Database, Local, LastMessage}
use coachman.Store.Messages.{get_messages}
use coachman.Unread.{
  Chat, Marks, is_unread, count_rows, get_last_read_at, set_last_read_at, count_unread_for_chat,
  read_key,
}

-- What a call with the time `at` does to the marks: the mark is the greater time, it is returned, the
-- other keys stay, and the server is told of a mark that advanced, when online.
pub record IsMarked (online : Bool) (user_id chat_id : String) (at : ℕ) (st : Marks)
    (done : ℕ × Marks) : Type 0 where
  pub mark : get_last_read_at user_id chat_id done.1 ≡ max (get_last_read_at user_id chat_id st) at
  pub returned : done.0 ≡ get_last_read_at user_id chat_id done.1
  pub others :
      (key : String)
      → (read_key user_id chat_id == key) ≡ false
      → lookup key done.1.keys ≡ lookup key st.keys
  pub told : done.1.posted ≡ (
      if online && ltb (get_last_read_at user_id chat_id st) at
      then (chat_id, at) ∷ st.posted
      else st.posted)

told_once {ℓ} :
    {A : Type ℓ}
    → (online : Bool) (x : A) (xs : List A)
    → (if online then x ∷ xs else xs) ≡ (if online && true then x ∷ xs else xs)
told_once false x xs = refl
told_once true x xs = refl

not_told {ℓ} :
    {A : Type ℓ}
    → (online : Bool) (x : A) (xs : List A) → xs ≡ (if online && false then x ∷ xs else xs)
not_told false x xs = refl
not_told true x xs = refl

-- The mark of a chat becomes the greater of the old time and the given one and is returned, no other
-- mark changes, and the server is told exactly when the client is online and the time is later.
pub set_last_read_at-IsMarked :
    (online : Bool) (user_id chat_id : String) (at : ℕ) (st : Marks)
    → IsMarked online user_id chat_id at st (set_last_read_at online user_id chat_id at st)
unfolding get_last_read_at set_last_read_at lookup
set_last_read_at-IsMarked online user_id chat_id at st =
    let prev = default 0 (lookup (read_key user_id chat_id) st.keys) in
    let self = lookup-insert_self (read_key user_id chat_id) (max prev at) st.keys in
    elim (Bool-cases (ltb prev at)) [
      | inl e ↦
          let later : leb (max prev at) prev ≡ false = ground arith in
          let greater : max prev at ≡ at = ground arith in
          rw later (record {
            mark = ap (default 0) self;
            returned = sym (ap (default 0) self);
            others = λ key h. rw h refl;
            told = rw (greater, e) (told_once online (chat_id, at) st.posted);
          })
      | inr e ↦
          let same : leb (max prev at) prev ≡ true = ground arith in
          rw same (record {
            mark = ground arith;
            returned = refl;
            others = λ key h. refl;
            told = rw e (not_told online (chat_id, at) st.posted);
          })
    ]

filter_le :
    (user_id : String) (a b : ℕ)
    → a ≤ b
    → (rows : List StoredMessage)
    → length (filter (is_unread user_id b) rows) ≤ length (filter (is_unread user_id a) rows)
filter_le user_id a b h [] = omega arith
filter_le user_id a b h (m ∷ rows) = let rest = filter_le user_id a b h rows in ground arith

count_rows_le :
    (last : Option LastMessage) (user_id : String) (a b : ℕ)
    → a ≤ b
    → (rows : List StoredMessage) → count_rows last user_id b rows ≤ count_rows last user_id a rows
unfolding count_rows
count_rows_le none user_id a b h rows = filter_le user_id a b h rows
count_rows_le (some last) user_id a b h rows =
    let rest = filter_le user_id a b h rows in ground arith

-- The time of the last message, if there is one.
abbrev sent_at : Option LastMessage → ℕ
sent_at none = 0
sent_at (some last) = last.created_at

filter_none :
    (user_id : String) (mark at : ℕ)
    → at ≤ mark
    → (rows : List StoredMessage) → All (λ m. m.created_at ≤ at) rows
    → length (filter (is_unread user_id mark) rows) ≡ 0
filter_none user_id mark at h [] all = refl
filter_none user_id mark at h (m ∷ rows) (first, all) =
    let rest = filter_none user_id mark at h rows all in ground arith

count_rows_none :
    (last : Option LastMessage) (user_id : String) (mark at : ℕ)
    → at ≤ mark
    → (rows : List StoredMessage) → All (λ m. m.created_at ≤ at) rows
    → sent_at last ≤ at
    → count_rows last user_id mark rows ≡ 0
unfolding count_rows
count_rows_none none user_id mark at h rows all l = filter_none user_id mark at h rows all
count_rows_none (some last) user_id mark at h rows all l =
    let rest = filter_none user_id mark at h rows all in ground arith

module _ (db : Database) where
  -- Setting the mark of a chat never raises its unread count, online or not, also when the time is
  -- older than the mark.
  set_last_read_at-count_unread :
      (online : Bool) (at : ℕ) (chat : Chat) (user_id : String) (st : Local db) (marks : Marks)
      → count_unread_for_chat db chat user_id st
          (set_last_read_at online user_id chat.id at marks).1
        ≤ count_unread_for_chat db chat user_id st marks
  unfolding count_unread_for_chat
  set_last_read_at-count_unread online at chat user_id st marks =
      rw (set_last_read_at-IsMarked online user_id chat.id at marks).mark
        (count_rows_le chat.last_message user_id _ _ (omega arith) (get_messages db chat.id st))

  -- A chat whose rows and last message are not later than the given time has no unread messages after
  -- the mark is set to it.
  set_last_read_at-none_unread :
      (online : Bool) (at : ℕ) (chat : Chat) (user_id : String) (st : Local db) (marks : Marks)
      → All (λ m. m.created_at ≤ at) (get_messages db chat.id st)
      → sent_at chat.last_message ≤ at
      → count_unread_for_chat db chat user_id st
          (set_last_read_at online user_id chat.id at marks).1
        ≡ 0
  unfolding count_unread_for_chat
  set_last_read_at-none_unread online at chat user_id st marks rows last =
      rw (set_last_read_at-IsMarked online user_id chat.id at marks).mark (
        count_rows_none chat.last_message user_id _ at (omega arith) (get_messages db chat.id st)
          rows last)
