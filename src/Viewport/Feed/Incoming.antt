-- ===== src/Viewport/Feed/Incoming.antt =====
-- An incoming batch pins the feed or counts: client/src/components/ChatView.tsx.
use coachman.Common.{ℕ, ◌+◌, String, Bool, true, false, List, Ordering, ◌≡◌}
use coachman.Message.{StoredMessage}
use coachman.Message.Reconcile.{ReconcileResult, reconcile_messages}
use coachman.Message.Replies.{fill_reply_snapshots}
use coachman.Viewport.Scroller.{scroll_height, commit_rows, measure_chat_viewport}
use coachman.Viewport.Feed.{ChatFeed}

-- The feed shows its end and the counter stands, or the feed stays, as far as its content allows, and
-- `n` messages are counted.
abbrev pub Reacts : Bool → ℕ → ChatFeed → ChatFeed → Type 0
Reacts true n st st' =
    (st'.el.scroll_top + st'.el.client_height ≡ scroll_height st'.el)
    × (st'.is_at_bottom ≡ true)
    × (st'.follow_bottom ≡ true)
    × (st'.unread_below_count ≡ st.unread_below_count)
Reacts false n st st' =
    (st'.el ≡ commit_rows st'.el.rows st.el)
    × (st'.is_at_bottom ≡ (measure_chat_viewport st'.el).is_at_bottom)
    × (st'.follow_bottom ≡ st.follow_bottom)
    × (st'.unread_below_count ≡ st.unread_below_count + n)

module _ (collate : String → String → Ordering) (preview : StoredMessage → String)
    (user_id : String) (batch : List StoredMessage) (st : ChatFeed) where
  abbrev results_of : List ReconcileResult
  results_of = (reconcile_messages collate st.messages batch).1

  abbrev filled_of : List StoredMessage
  filled_of = fill_reply_snapshots preview ((reconcile_messages collate st.messages batch).0)
