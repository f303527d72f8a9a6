-- ===== src/Tests/Notified.antt =====
-- Pushes of two chats: client/src/lib/notified-chats.ts.
use coachman.Common.{some, [], ◌∷◌, ◌≡◌, refl}
use coachman.Notified.{
  name, other, Storage, entry_of, read_items, read_entries, write_entries, remember_notified_chat,
  peek_notified_chat_ids,
}
use coachman.Notified.Laws.{IsRemembered, remember_notified_chat-IsRemembered}

-- What an older version wrote.
abbrev old_storage : Storage
old_storage = some (name "c1" ∷ other ∷ name "" ∷ [])

two_chats :
    peek_notified_chat_ids 300000000
      (remember_notified_chat 200000000 "c2" (remember_notified_chat 190000000 "c3" old_storage))
    ≡ "c2" ∷ "c3" ∷ "c1" ∷ []
unfolding peek_notified_chat_ids remember_notified_chat read_entries read_items entry_of
    write_entries
two_chats = refl

remember_notified_chat-IsRemembered_example : IsRemembered 200000000 "c2" old_storage
remember_notified_chat-IsRemembered_example =
    remember_notified_chat-IsRemembered 200000000 "c2" old_storage refl
