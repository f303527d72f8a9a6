-- ===== src/Tests/Viewport.antt =====
-- An open chat at concrete heights: client/src/lib/chat-viewport.ts and
-- client/src/components/ChatView.tsx.
use coachman.Common.{ℕ, String, true, false, none, some, List, [], ◌∷◌, map, ◌≡◌, refl, arith}
use coachman.Message.{StoredMessage}
use coachman.Message.Replies.{fill_reply_snapshots}
use coachman.Message.Reconcile.{reconcile_messages, reconcile_message, reconcile_base}
use coachman.Viewport.{no_intent}
use coachman.Viewport.Scroller.{Row, Scroller}
use coachman.Viewport.Scroller.Steady.{IsScrolled}
use coachman.Viewport.Feed.Changes.{commit, add_older, delete_message, receive_batch}
use coachman.Viewport.Feed.{ChatFeed, jump_to_latest_message, on_user_scroll}
use coachman.Viewport.Feed.Older.{IsSteady, add_older-IsSteady}
use coachman.Viewport.Feed.Deleted.{IsStill, delete_message-IsStill}
use coachman.Tests.Message.{by_code_point, peer_row, program}

abbrev row_of : StoredMessage → Row
row_of m = record { id = some m.id; height = 60 }

abbrev lay_out : List StoredMessage → List Row
lay_out messages = map row_of messages

abbrev quote : StoredMessage → String
quote m = m.text

abbrev second_row : StoredMessage
second_row = record peer_row { id = "s3"; sender_id = "you"; created_at = 14 }

abbrev new_row : StoredMessage
new_row = record peer_row { id = "s4"; sender_id = "you"; created_at = 15 }

-- The reader is at the upper end of two messages, of which one shows.
abbrev scroller : Scroller
scroller = record {
  top = 50;
  client_height = 60;
  scroll_top = 0;
  rows = lay_out (peer_row ∷ second_row ∷ []);
}

scroller-IsScrolled : IsScrolled scroller
scroller-IsScrolled = record { inside = omega arith }

abbrev reader : ChatFeed
reader = record {
  el = scroller;
  messages = peer_row ∷ second_row ∷ [];
  unread_below_count = 3;
  is_at_bottom = false;
  follow_bottom = false;
  scroll_intent = no_intent;
  programmatic_scroll = false;
  opening_chat = false;
  initial_load = false;
  scroll_anchor = none;
  live_visual_anchor = none;
  layout_was_at_bottom = false;
  pending_pin_to_bottom = false;
  frame = false;
  composer_focused = false;
  keyboard_lock = none;
  context_menu_open = false;
}

abbrev received : ChatFeed
received = commit lay_out (receive_batch by_code_point quote "me" (new_row ∷ []) reader)

one_more : received.unread_below_count ≡ 4
unfolding program reconcile_messages reconcile_message reconcile_base receive_batch commit
one_more = refl

-- The way to the end resets the counter, and the next message is followed.
abbrev at_end : ChatFeed
at_end = record (jump_to_latest_message reader) { composer_focused = false }

abbrev followed : ChatFeed
followed = commit lay_out (receive_batch by_code_point quote "me" (new_row ∷ []) at_end)

end_followed : ◌≡◌ {A = ℕ × ℕ} (followed.unread_below_count, followed.el.scroll_top) (0, 120)
unfolding program reconcile_messages reconcile_message reconcile_base receive_batch commit
    jump_to_latest_message fill_reply_snapshots
end_followed = refl

left_again : (on_user_scroll (record reader { follow_bottom = true; frame = true })).frame ≡ false
unfolding on_user_scroll
left_again = refl

abbrev old_row : StoredMessage
old_row = record peer_row { id = "s0"; sequence = some 1; created_at = 1 }

add_older-IsSteady_example :
    IsSteady
      (row_of old_row ∷ [])
      (row_of peer_row ∷ [])
      (row_of second_row)
      []
      reader
      (commit lay_out (add_older by_code_point (old_row ∷ []) reader))
unfolding program
add_older-IsSteady_example =
    add_older-IsSteady by_code_point lay_out (old_row ∷ []) (row_of old_row ∷ [])
      (row_of peer_row ∷ []) (row_of second_row) [] reader refl refl refl scroller-IsScrolled
      (λ e. (refl, (refl, tt)), (λ e. (refl, tt), (λ e. tt, tt)))

-- The reader is at the second of three messages, and the first is deleted.
abbrev below_first : ChatFeed
below_first = record reader {
  el = record scroller { scroll_top = 70; rows = lay_out (peer_row ∷ second_row ∷ new_row ∷ []) };
  messages = peer_row ∷ second_row ∷ new_row ∷ [];
}

below_first-IsScrolled : IsScrolled below_first.el
below_first-IsScrolled = record { inside = omega arith }

delete_message-IsStill_example :
    IsStill []
      (row_of peer_row)
      (row_of second_row ∷ row_of new_row ∷ [])
      (row_of second_row ∷ [])
      below_first
      (commit lay_out (delete_message "s2" below_first))
delete_message-IsStill_example =
    delete_message-IsStill below_first "s2" [] (row_of peer_row)
      (row_of second_row ∷ row_of new_row ∷ []) refl refl refl refl refl (omega arith)
      (λ e. (refl, (refl, tt)), (λ e. (refl, tt), (λ e. tt, tt))) lay_out (row_of second_row ∷ [])
      refl below_first-IsScrolled

-- In the first load the feed is pinned and the message is counted as well, if the composer has the
-- focus.
abbrev opening : ChatFeed
opening = record reader { opening_chat = true; follow_bottom = true; composer_focused = true }

abbrev opened : ChatFeed
opened = commit lay_out (receive_batch by_code_point quote "me" (new_row ∷ []) opening)

pinned_and_counted : ◌≡◌ {A = ℕ × ℕ} (opened.unread_below_count, opened.el.scroll_top) (4, 120)
unfolding program reconcile_messages reconcile_message reconcile_base receive_batch commit
    fill_reply_snapshots
pinned_and_counted = refl
