-- ===== src/Viewport.antt =====
-- What the feed does with its scroll position: the decisions of client/src/lib/chat-viewport.ts.
pub mod Scroller
pub mod Feed
use coachman.Common.{
  ℕ, ◌+◌, Bool, true, false, ◌&&◌, ◌||◌, not, Option, none, some, ltb, eqb, leb, is_true, is_some,
  if◌then◌else◌,
}

abbrev pub bottom_threshold_px : ℕ
bottom_threshold_px = 48

pub record ChatViewportMeasurement : Type 0 where
  pub distance_to_bottom : ℕ
  pub is_at_bottom : Bool
  pub has_messages_below : Bool

pub data ChatScrollIntent : Type 0 where
  no_intent initial jump_to_latest own_message reply_target history_anchor : ChatScrollIntent

abbrev pub is_bottom_targeting_intent : ChatScrollIntent → Bool
is_bottom_targeting_intent initial = true
is_bottom_targeting_intent jump_to_latest = true
is_bottom_targeting_intent own_message = true
is_bottom_targeting_intent no_intent = false
is_bottom_targeting_intent reply_target = false
is_bottom_targeting_intent history_anchor = false

-- `shouldFollowBottomForIncomingOwnMessage`
abbrev pub follows_own_message : Bool
follows_own_message = false

pub record UserScrollSync : Type 0 where
  pub is_at_bottom : Bool
  pub follow_bottom : Bool
  pub reset_unread_below : Bool

abbrev pub sync_from_user_scroll : ChatViewportMeasurement → UserScrollSync
sync_from_user_scroll m = record {
  is_at_bottom = m.is_at_bottom;
  follow_bottom = m.is_at_bottom;
  reset_unread_below = m.is_at_bottom;
}

abbrev pub should_bump_unread_below_for_incoming : ℕ → ℕ → Bool
should_bump_unread_below_for_incoming foreign_inserted scroll_adjustments =
    ltb 0 foreign_inserted && eqb scroll_adjustments 0

abbrev pub apply_unread_below_delta : ℕ → ℕ → ℕ
apply_unread_below_delta current inserted_count =
    if eqb inserted_count 0 then current else current + inserted_count

pub data ScrollPolicy : Type 0 where
  follow_the_bottom anchor_history preserve : ScrollPolicy

abbrev pub incoming_scroll_policy : Bool → Bool → Bool → ScrollPolicy
incoming_scroll_policy was_at_bottom composer_focused context_menu_open =
    if composer_focused || context_menu_open
    then preserve
    else if was_at_bottom
    then follow_the_bottom
    else preserve

abbrev pub adjustments : ScrollPolicy → ℕ
adjustments follow_the_bottom = 1
adjustments anchor_history = 0
adjustments preserve = 0

pub record BurstIncomingScrollPlan : Type 0 where
  pub policy : ScrollPolicy
  pub scroll_adjustments : ℕ

abbrev pub plan_burst_incoming_scroll : Bool → ℕ → Bool → Bool → BurstIncomingScrollPlan
plan_burst_incoming_scroll was_at_bottom inserted_count composer_focused context_menu_open =
    if eqb inserted_count 0
    then record { policy = preserve; scroll_adjustments = 0 }
    else let policy = incoming_scroll_policy was_at_bottom composer_focused context_menu_open in
      record { policy = policy; scroll_adjustments = adjustments policy }

abbrev pub delete_scroll_policy : Bool → Bool → ScrollPolicy
delete_scroll_policy was_at_bottom removed_above_viewport =
    if was_at_bottom
    then follow_the_bottom
    else if removed_above_viewport
    then anchor_history
    else preserve

abbrev pub should_follow_bottom_on_messages_update : Option Bool → Bool → Bool → Bool
should_follow_bottom_on_messages_update explicit_follow_bottom in_initial_load follow_bottom =
    if is_true explicit_follow_bottom
    then true
    else if in_initial_load
    then follow_bottom
    else false
