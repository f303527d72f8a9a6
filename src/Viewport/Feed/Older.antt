-- ===== src/Viewport/Feed/Older.antt =====
-- Older messages come in above what is read: client/src/components/ChatView.tsx.
use coachman.Common.{String, false, some, List, ◌∷◌, ◌++◌, Ordering, ◌≡◌, refl}
use coachman.Message.{StoredMessage}
use coachman.Message.Dedupe.{dedupe_stored_messages}
use coachman.Viewport.{history_anchor}
use coachman.Viewport.Scroller.{Row, content_height, coordinate, capture_visual_scroll_anchor}
use coachman.Viewport.Scroller.Found.{IsDistinct}
use coachman.Viewport.Scroller.Steady.{Same, IsScrolled, prepend-Same}
use coachman.Viewport.Feed.{
  ChatFeed, in_initial_load, arm_scroll, update_messages, restore_anchor, layout_effect,
}
use coachman.Viewport.Feed.Changes.{commit, add_older}

-- What an addition of rows above leaves as it was for a row below `before`.
pub record IsSteady (older before : List Row) (row : Row) (after : List Row) (st st' : ChatFeed)
    : Type 0 where
  pub rows : st'.el.rows ≡ (older ++ before) ++ row ∷ after
  pub same :
      Same
        (coordinate st'.el (content_height (older ++ before)))
        (coordinate st.el (content_height before))
  pub unread : st'.unread_below_count ≡ st.unread_below_count
  pub follow : st'.follow_bottom ≡ st.follow_bottom

-- What `updateMessages` arms for the page.
abbrev pub anchored : List StoredMessage → ChatFeed → ChatFeed
anchored messages st =
    let anchor = capture_visual_scroll_anchor st.el in
    record st {
      scroll_intent = history_anchor;
      scroll_anchor = some anchor;
      live_visual_anchor = some anchor;
      pending_pin_to_bottom = false;
      messages = messages;
    }

add_older_lem :
    (collate : String → String → Ordering) (older : List StoredMessage) (st : ChatFeed)
    → in_initial_load st ≡ false
    → add_older collate older st
      ≡ anchored (dedupe_stored_messages collate (older ++ st.messages)) st
unfolding add_older update_messages arm_scroll
add_older_lem collate older st e = rw e refl

anchored-IsSteady :
    (render : List StoredMessage → List Row) (messages : List StoredMessage)
    (rows before : List Row) (row : Row) (after : List Row) (st : ChatFeed)
    → in_initial_load st ≡ false
    → st.el.rows ≡ before ++ row ∷ after
    → render messages ≡ rows ++ st.el.rows
    → IsScrolled st.el
    → IsDistinct (rows ++ st.el.rows)
    → IsSteady rows before row after st (commit render (anchored messages st))
unfolding commit layout_effect restore_anchor
anchored-IsSteady render messages rows before row after st e shown laid h d =
    let (rows', same) = prepend-Same rows st.el before row after shown h d in
    rw (e, laid) (record { rows = rows'; same = same; unread = refl; follow = refl })

-- A page of older messages in a chat that is open, fills the screen and shows each message in one row:
-- if the page is laid out above what was there, every row that was there lies where it was on the
-- screen, and neither the counter nor the permission to follow changes.
pub add_older-IsSteady :
    (collate : String → String → Ordering) (render : List StoredMessage → List Row)
    (older : List StoredMessage) (rows before : List Row) (row : Row) (after : List Row)
    (st : ChatFeed)
    → in_initial_load st ≡ false
    → st.el.rows ≡ before ++ row ∷ after
    → render (dedupe_stored_messages collate (older ++ st.messages)) ≡ rows ++ st.el.rows
    → IsScrolled st.el
    → IsDistinct (rows ++ st.el.rows)
    → IsSteady rows before row after st (commit render (add_older collate older st))
add_older-IsSteady collate render older rows before row after st e shown laid h d =
    rw (add_older_lem collate older st e) (
      anchored-IsSteady render (dedupe_stored_messages collate (older ++ st.messages)) rows before
        row after st e shown laid h d)
