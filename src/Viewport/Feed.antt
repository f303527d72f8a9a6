-- ===== src/Viewport/Feed.antt =====
-- The scroll position of an open chat: client/src/components/ChatView.tsx.
-- The refs and the counter of the component are one state. An updater that is passed to `setMessages`
-- runs at once. `render` lays messages out as rows; it is a parameter.
pub mod Changes
pub mod Plan
pub mod Incoming
pub mod Older
pub mod Deleted
use coachman.Common.{
  ℕ, ◌+◌, zero, suc, String, Bool, true, false, ◌&&◌, ◌||◌, not, Option, none, some, List, [], ◌∷◌,
  ◌==◌, ltb, leb, eqb, present, default, is_some, is_true, Ordering, if◌then◌else◌,
}
use coachman.Message.{StoredMessage}
use coachman.Message.Reconcile.{ReconcileResult, reconcile_messages}
use coachman.Message.Replies.{fill_reply_snapshots}
use coachman.Viewport.{
  ChatViewportMeasurement, ChatScrollIntent, no_intent, initial, jump_to_latest, reply_target,
  history_anchor, ScrollPolicy, follow_the_bottom, anchor_history, preserve,
  is_bottom_targeting_intent, sync_from_user_scroll, follows_own_message,
  should_bump_unread_below_for_incoming, apply_unread_below_delta, plan_burst_incoming_scroll,
  delete_scroll_policy, should_follow_bottom_on_messages_update,
}
use coachman.Viewport.Scroller.{
  Row, Scroller, VisualScrollAnchor, scroll_height, clamp_scroll_top, commit_rows,
  measure_chat_viewport, capture_visual_scroll_anchor, apply_visual_scroll_anchor, has_id,
  is_above_viewport,
}

pub record ChatFeed : Type 0 where
  pub el : Scroller
  pub messages : List StoredMessage
  pub unread_below_count : ℕ
  pub is_at_bottom : Bool
  pub follow_bottom : Bool
  pub scroll_intent : ChatScrollIntent
  -- The timer that ends it is outside.
  pub programmatic_scroll : Bool
  pub opening_chat : Bool
  pub initial_load : Bool
  pub scroll_anchor : Option VisualScrollAnchor
  pub live_visual_anchor : Option VisualScrollAnchor
  pub layout_was_at_bottom : Bool
  pub pending_pin_to_bottom : Bool
  -- a frame is scheduled for `pinViewportToEnd`
  pub frame : Bool
  pub composer_focused : Bool
  pub keyboard_lock : Option ℕ
  pub context_menu_open : Bool

abbrev pub in_initial_load : ChatFeed → Bool
in_initial_load st = st.opening_chat || st.initial_load

unfoldable pub pin_viewport_to_end : ChatFeed → ChatFeed
pin_viewport_to_end st =
    let el = clamp_scroll_top (scroll_height st.el) st.el in
    record st {
      el = el;
      programmatic_scroll = true;
      keyboard_lock =
          if st.composer_focused || is_some st.keyboard_lock
          then some el.scroll_top
          else st.keyboard_lock;
      is_at_bottom = true;
      layout_was_at_bottom = true;
      live_visual_anchor = some (capture_visual_scroll_anchor el);
    }

unfoldable pub scroll_to_end : ChatFeed → ChatFeed
unfolding pin_viewport_to_end
scroll_to_end st = record (pin_viewport_to_end st) { frame = true }

-- The frame of the coalescer.
unfoldable pub run_frame : ChatFeed → ChatFeed
unfolding pin_viewport_to_end
run_frame st = if st.frame then pin_viewport_to_end (record st { frame = false }) else st

unfoldable pub jump_to_latest_message : ChatFeed → ChatFeed
unfolding scroll_to_end
jump_to_latest_message st =
    scroll_to_end
      (record st { unread_below_count = 0; follow_bottom = true; scroll_intent = jump_to_latest })

-- The options of `updateMessages`.
pub record UpdateOpts : Type 0 where
  pub follow_bottom : Option Bool
  pub scroll_intent : Option ChatScrollIntent

abbrev pub no_opts : UpdateOpts
no_opts = record { follow_bottom = none; scroll_intent = none }

abbrev pub armed_intent : Option ChatScrollIntent → ChatFeed → ChatScrollIntent
armed_intent (some intent) st = intent
armed_intent none st = if in_initial_load st then initial else st.scroll_intent

-- The refs that `updateMessages` sets when it does not follow.
abbrev pub arm_intent : Option ChatScrollIntent → ChatFeed → ChatFeed
arm_intent (some history_anchor) st =
    let anchor = capture_visual_scroll_anchor st.el in
    record st {
      scroll_intent = history_anchor;
      scroll_anchor = some anchor;
      live_visual_anchor = some anchor;
      pending_pin_to_bottom = false;
    }
arm_intent (some intent) st = record st { scroll_intent = intent; pending_pin_to_bottom = false }
arm_intent none st = record st { pending_pin_to_bottom = false; scroll_anchor = none }

unfoldable pub arm_scroll : UpdateOpts → ChatFeed → ChatFeed
unfolding capture_visual_scroll_anchor
arm_scroll opts st =
    if should_follow_bottom_on_messages_update opts.follow_bottom (in_initial_load st)
      st.follow_bottom
    then record st {
      follow_bottom = true;
      pending_pin_to_bottom = true;
      is_at_bottom = true;
      scroll_intent = armed_intent opts.scroll_intent st;
    }
    else arm_intent opts.scroll_intent st

unfoldable pub update_messages : UpdateOpts → List StoredMessage → ChatFeed → ChatFeed
unfolding arm_scroll
update_messages opts messages st = record (arm_scroll opts st) { messages = messages }

-- The end of each branch of the layout effect: what is measured is published.
abbrev pub publish_measured : ChatFeed → ChatFeed
publish_measured st =
    let measured = measure_chat_viewport st.el in
    record st {
      is_at_bottom = measured.is_at_bottom;
      layout_was_at_bottom = measured.is_at_bottom;
      live_visual_anchor = some (capture_visual_scroll_anchor st.el);
    }

abbrev pub without_history_anchor : ChatScrollIntent → ChatScrollIntent
without_history_anchor history_anchor = no_intent
without_history_anchor intent = intent

-- The branches of the layout effect for an anchor, and for none.
unfoldable pub restore_anchor : Option VisualScrollAnchor → ChatFeed → ChatFeed
unfolding apply_visual_scroll_anchor capture_visual_scroll_anchor measure_chat_viewport
restore_anchor none st = publish_measured st
restore_anchor (some anchor) st =
    let moved = publish_measured (record st {
      el = (apply_visual_scroll_anchor st.el anchor).0;
      programmatic_scroll = true;
      scroll_anchor = none;
    }) in
    record moved { scroll_intent = without_history_anchor moved.scroll_intent }

abbrev pub pinned_to_end : ChatFeed → ChatFeed
pinned_to_end st = record (scroll_to_end st) { scroll_anchor = none }

unfoldable pub layout_opening : ChatFeed → ChatFeed
unfolding scroll_to_end restore_anchor
layout_opening st =
    let unpinned = record st { pending_pin_to_bottom = false } in
    if st.follow_bottom then pinned_to_end unpinned else restore_anchor st.scroll_anchor unpinned

abbrev pub has_messages : List StoredMessage → Bool
has_messages [] = false
has_messages (m ∷ ms) = true

-- The layout effect, for rows that are on the screen.
-- The first messages are shown.
abbrev pub opened : ChatFeed → ChatFeed
opened st = record (layout_opening st) {
  opening_chat = st.opening_chat && not (has_messages st.messages);
}

-- The pin that `updateMessages` set.
abbrev pub pinned : ChatFeed → ChatFeed
pinned st = record (pinned_to_end (record st { pending_pin_to_bottom = false })) {
  scroll_intent =
      if is_bottom_targeting_intent st.scroll_intent then no_intent else st.scroll_intent;
}

-- The layout effect, for rows that are on the screen.
unfoldable pub layout_effect : ChatFeed → ChatFeed
unfolding layout_opening scroll_to_end restore_anchor
layout_effect st =
    if in_initial_load st
    then opened st
    else if st.pending_pin_to_bottom
    then pinned st
    else restore_anchor st.scroll_anchor st

-- `onUserScroll`
unfoldable pub on_user_scroll : ChatFeed → ChatFeed
unfolding measure_chat_viewport capture_visual_scroll_anchor
on_user_scroll st =
    let seen = publish_measured st in
    let sync = sync_from_user_scroll (measure_chat_viewport st.el) in
    let locked =
      if st.composer_focused || is_some st.keyboard_lock
      then some st.el.scroll_top
      else st.keyboard_lock in
    if st.programmatic_scroll
    then seen
    else if sync.follow_bottom
    then record seen {
      follow_bottom = true;
      keyboard_lock = locked;
      scroll_intent = at_end st.scroll_intent;
      unread_below_count = 0;
    }
    else record seen {
      follow_bottom = false;
      pending_pin_to_bottom = false;
      frame = false;
      scroll_intent = left_end st.scroll_intent;
      keyboard_lock = locked;
    }
  where
    at_end : ChatScrollIntent → ChatScrollIntent
    at_end reply_target = reply_target
    at_end _ = no_intent

    left_end : ChatScrollIntent → ChatScrollIntent
    left_end initial = no_intent
    left_end intent = intent
