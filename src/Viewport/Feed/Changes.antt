-- ===== src/Viewport/Feed/Changes.antt =====
-- What changes the messages of an open chat: client/src/components/ChatView.tsx.
use coachman.Common.{
  filter, ◌++◌, ℕ, ◌+◌, suc, String, Bool, true, false, ◌&&◌, not, Option, none, some, List, [],
  ◌∷◌, ◌==◌, ltb, eqb, Ordering, if◌then◌else◌,
}
use coachman.Message.{StoredMessage}
use coachman.Message.Reconcile.{ReconcileResult, reconcile_messages}
use coachman.Message.Replies.{fill_reply_snapshots}
use coachman.Viewport.{
  history_anchor, ScrollPolicy, follow_the_bottom, anchor_history, preserve, follows_own_message,
  should_bump_unread_below_for_incoming, apply_unread_below_delta, plan_burst_incoming_scroll,
  delete_scroll_policy,
}
use coachman.Viewport.Scroller.{Row, Scroller, commit_rows, has_id, is_above_viewport}
use coachman.Message.Dedupe.{dedupe_stored_messages}
use coachman.Viewport.Feed.{ChatFeed, UpdateOpts, no_opts, update_messages, layout_effect}

abbrev pub count_inserted : List ReconcileResult → ℕ
count_inserted [] = 0
count_inserted (r ∷ rs) = let n = count_inserted rs in if r.inserted then suc n else n

-- Those of others.
abbrev pub count_foreign : String → List ReconcileResult → List StoredMessage → ℕ
count_foreign user_id [] ms = 0
count_foreign user_id (r ∷ rs) [] = 0
count_foreign user_id (r ∷ rs) (m ∷ ms) =
    let n = count_foreign user_id rs ms in
    if r.inserted && not (m.sender_id == user_id) then suc n else n

abbrev pub all_own : String → List StoredMessage → Bool
all_own user_id [] = true
all_own user_id (m ∷ ms) = m.sender_id == user_id && all_own user_id ms

-- The updater of the incoming batch, which sets the pin.
unfoldable pub pin_if_inserted : ℕ → ℕ → ChatFeed → ChatFeed
pin_if_inserted scroll_adjustments inserted st =
    if eqb scroll_adjustments 1 && ltb 0 inserted
    then record st { follow_bottom = true; pending_pin_to_bottom = true; is_at_bottom = true }
    else st

unfoldable pub bump_unread : ℕ → ℕ → ChatFeed → ChatFeed
bump_unread foreign scroll_adjustments st =
    if should_bump_unread_below_for_incoming foreign scroll_adjustments
    then record st { unread_below_count = apply_unread_below_delta st.unread_below_count foreign }
    else st

-- React puts the rows of the messages on the screen and runs the effect.
unfoldable pub commit : (List StoredMessage → List Row) → ChatFeed → ChatFeed
unfolding layout_effect
commit render st = layout_effect (record st { el = commit_rows (render st.messages) st.el })

module _ (collate : String → String → Ordering) (preview : StoredMessage → String)
    (user_id : String) where
  -- The effect for a batch of this chat.
  unfoldable pub receive_batch : List StoredMessage → ChatFeed → ChatFeed
  unfolding update_messages bump_unread pin_if_inserted
  receive_batch batch st =
      let (messages, results) = reconcile_messages collate st.messages batch in
      let filled = fill_reply_snapshots preview messages in
      let inserted = count_inserted results in
      let foreign = count_foreign user_id results batch in
      let plan =
        plan_burst_incoming_scroll st.is_at_bottom inserted st.composer_focused
          st.context_menu_open in
      if all_own user_id batch && not follows_own_message
      then update_messages no_opts filled st
      else bump_unread foreign plan.scroll_adjustments
          (pin_if_inserted plan.scroll_adjustments inserted (update_messages no_opts filled st))

-- The row of a message, with its offset.
unfoldable pub find_row : String → ℕ → List Row → Option (ℕ × Row)
find_row id offset [] = none
find_row id offset (row ∷ rows) =
    let rest = find_row id (offset + row.height) rows in
    if has_id id row.id then some (offset, row) else rest

abbrev pub is_row_above : Scroller → Option (ℕ × Row) → Bool
is_row_above s none = false
is_row_above s (some (offset, row)) = is_above_viewport s offset row

abbrev pub opts_of_policy : ScrollPolicy → UpdateOpts
opts_of_policy follow_the_bottom = record { follow_bottom = some true; scroll_intent = none }
opts_of_policy anchor_history = record { follow_bottom = none; scroll_intent = some history_anchor }
opts_of_policy preserve = no_opts

-- `scrollOptsForDelete`, for one message
abbrev pub scroll_opts_for_delete : String → ChatFeed → UpdateOpts
scroll_opts_for_delete removed_id st =
    opts_of_policy
      (delete_scroll_policy st.is_at_bottom (is_row_above st.el (find_row removed_id 0 st.el.rows)))

-- The effect for a message that was deleted.
unfoldable pub delete_message : String → ChatFeed → ChatFeed
unfolding update_messages find_row
delete_message removed_id st =
    update_messages (scroll_opts_for_delete removed_id st)
      (filter (λ m. not (m.id == removed_id)) st.messages) st

-- What `loadOlderMessages` does with the rows of a page.
unfoldable pub add_older : (String → String → Ordering) → List StoredMessage → ChatFeed → ChatFeed
unfolding update_messages
add_older collate older st =
    update_messages (record { follow_bottom = none; scroll_intent = some history_anchor })
      (dedupe_stored_messages collate (older ++ st.messages)) st
