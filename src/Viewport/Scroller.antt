-- ===== src/Viewport/Scroller.antt =====
-- The message list on the screen and its scroll anchor: client/src/lib/chat-viewport.ts.
-- The browser lays the rows out below each other, each with the height of its box, and does not anchor
-- the position itself (`overflow-anchor: none`). Lengths are whole pixels.
pub mod Found
pub mod Steady
pub mod Removed
use coachman.Common.{
  ℕ, ◌+◌, ◌-◌, min, max, String, Bool, true, false, ◌&&◌, not, Option, none, some, List, [], ◌∷◌,
  ◌==◌, ltb, leb, eqb, present, default, if◌then◌else◌,
}
use coachman.Viewport.{bottom_threshold_px, ChatViewportMeasurement}

-- A child of the scroller; `id` is the attribute `data-message-id`.
pub record Row : Type 0 where
  pub id : Option String
  pub height : ℕ

pub record Scroller : Type 0 where
  -- the upper edge, in the window
  pub top : ℕ
  pub client_height : ℕ
  pub scroll_top : ℕ
  pub rows : List Row

-- A coordinate in the window, which may be negative: the difference of two numbers.
pub record Coordinate : Type 0 where
  pub plus : ℕ
  pub minus : ℕ

abbrev pub below : Coordinate → Coordinate → Bool
below a b = ltb (b.plus + a.minus) (a.plus + b.minus)

abbrev pub difference : Coordinate → Coordinate → Coordinate
difference a b = record { plus = a.plus + b.minus; minus = a.minus + b.plus }

abbrev pub content_height : List Row → ℕ
content_height [] = 0
content_height (row ∷ rows) = row.height + content_height rows

abbrev pub scroll_height : Scroller → ℕ
scroll_height s = max s.client_height (content_height s.rows)

-- What the browser makes of a new value of `scrollTop`.
abbrev pub clamp_scroll_top : ℕ → Scroller → Scroller
clamp_scroll_top value s = record s { scroll_top = min value (scroll_height s - s.client_height) }

-- The rows are another list, after a commit of React.
abbrev pub commit_rows : List Row → Scroller → Scroller
commit_rows rows s = clamp_scroll_top s.scroll_top (record s { rows = rows })

-- `measureChatViewport`
unfoldable pub measure_chat_viewport : Scroller → ChatViewportMeasurement
measure_chat_viewport s =
    let distance = (scroll_height s - s.scroll_top) - s.client_height in
    record {
      distance_to_bottom = distance;
      is_at_bottom = leb distance bottom_threshold_px;
      has_messages_below = ltb 0 distance;
    }

-- `getBoundingClientRect` of what lies at an offset of the content.
abbrev pub coordinate : Scroller → ℕ → Coordinate
coordinate s offset = record { plus = s.top + offset; minus = s.scroll_top }

abbrev pub fixed : ℕ → Coordinate
fixed y = record { plus = y; minus = 0 }

pub record VisualScrollAnchor : Type 0 where
  pub message_id : Option String
  pub message_top : Option Coordinate
  pub scroll_top : ℕ
  pub scroll_height : ℕ

-- The test of the loop of `captureVisualScrollAnchor`.
unfoldable pub intersects : Scroller → ℕ → Row → Bool
intersects s offset row =
    below (coordinate s (offset + row.height)) (fixed s.top)
    && below (fixed (s.top + s.client_height)) (coordinate s offset)

-- The first row that shows, with its offset.
unfoldable pub first_visible : Scroller → ℕ → List Row → Option (String × ℕ)
unfolding intersects
first_visible s offset [] = none
first_visible s offset (row ∷ rows) =
    let rest = first_visible s (offset + row.height) rows in
    if present row.id && intersects s offset row then some (default "" row.id, offset) else rest

abbrev pub anchor_at : Scroller → Option (String × ℕ) → VisualScrollAnchor
anchor_at s none = record {
  message_id = none;
  message_top = none;
  scroll_top = s.scroll_top;
  scroll_height = scroll_height s;
}
anchor_at s (some (id, offset)) = record {
  message_id = some id;
  message_top = some (coordinate s offset);
  scroll_top = s.scroll_top;
  scroll_height = scroll_height s;
}

unfoldable pub capture_visual_scroll_anchor : Scroller → VisualScrollAnchor
unfolding first_visible
capture_visual_scroll_anchor s = anchor_at s (first_visible s 0 s.rows)

abbrev pub has_id : String → Option String → Bool
has_id id none = false
has_id id (some other) = other == id

-- `querySelector(messageAnchorSelector(id))`, as an offset
unfoldable pub find_offset : String → ℕ → List Row → Option ℕ
find_offset id offset [] = none
find_offset id offset (row ∷ rows) =
    let rest = find_offset id (offset + row.height) rows in
    if has_id id row.id then some offset else rest

-- `scroller.scrollTop = base + delta`, if the delta is not 0
unfoldable pub scroll_by : ℕ → Coordinate → Scroller → Scroller
scroll_by base delta s =
    if eqb delta.plus delta.minus then s else clamp_scroll_top ((base + delta.plus) - delta.minus) s

abbrev pub height_delta : Scroller → VisualScrollAnchor → Coordinate
height_delta s anchor = record { plus = scroll_height s; minus = anchor.scroll_height }

-- The row of the anchor, if the anchor has one and it is still there.
unfoldable pub apply_at :
    Scroller → VisualScrollAnchor → Option Coordinate → Option ℕ → Scroller × Coordinate
unfolding scroll_by
apply_at s anchor (some message_top) (some offset) =
    let delta = difference (coordinate s offset) message_top in
    (scroll_by s.scroll_top delta s, delta)
apply_at s anchor none found =
    (scroll_by anchor.scroll_top (height_delta s anchor) s, height_delta s anchor)
apply_at s anchor (some message_top) none =
    (scroll_by anchor.scroll_top (height_delta s anchor) s, height_delta s anchor)

abbrev pub offset_of : Option String → List Row → Option ℕ
offset_of none rows = none
offset_of (some id) rows = find_offset id 0 rows

-- The scroller after it, and the delta that was applied.
unfoldable pub apply_visual_scroll_anchor : Scroller → VisualScrollAnchor → Scroller × Coordinate
unfolding apply_at find_offset
apply_visual_scroll_anchor s anchor =
    apply_at s anchor anchor.message_top (offset_of anchor.message_id s.rows)

-- `isElementAboveViewport`: the tolerance of half a pixel is below a whole one.
abbrev pub is_above_viewport : Scroller → ℕ → Row → Bool
is_above_viewport s offset row = not (below (coordinate s (offset + row.height)) (fixed s.top))
