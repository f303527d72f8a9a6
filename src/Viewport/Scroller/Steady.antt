-- ===== src/Viewport/Scroller/Steady.antt =====
-- Older rows come above, and what is read stays where it is: client/src/lib/chat-viewport.ts.
use coachman.Common.{
  ℕ, ◌+◌, ◌-◌, ◌≤◌, min, max, String, Option, none, some, List, ◌∷◌, ◌++◌, eqb, Bool-cases, ◌≡◌,
  refl, sym, ap, ◌∙◌, inl, inr, arith,
}
use coachman.Viewport.Scroller.Found.{
  IsDistinct, content_height-append, captured_present, captured_found, found_below,
  IsDistinct-append,
}
use mathlib.Core.List.{append_assoc}
use coachman.Viewport.Scroller.{
  Row, Scroller, Coordinate, difference, content_height, commit_rows, coordinate, anchor_at,
  first_visible, capture_visual_scroll_anchor, find_offset, scroll_by, height_delta, apply_at,
  apply_visual_scroll_anchor,
}

-- Two coordinates are one place on the screen.
abbrev pub Same : Coordinate → Coordinate → Type 0
Same a b = a.plus + b.minus ≡ b.plus + a.minus

-- The position lies in the content, and the content fills the scroller.
pub record IsScrolled (s : Scroller) : Type 0 where
  pub inside : s.scroll_top + s.client_height ≤ content_height s.rows

-- The position after the anchor is applied, with the rows of `older` above.
abbrev pub moved_down : List Row → Scroller → Scroller
moved_down older s = record s {
  rows = older ++ s.rows;
  scroll_top = content_height older + s.scroll_top;
}

commit_keeps :
    (older : List Row) (s : Scroller)
    → IsScrolled s
    → commit_rows (older ++ s.rows) s ≡ record s { rows = older ++ s.rows }
commit_keeps older s h =
    let e : content_height (older ++ s.rows) ≡ content_height older + content_height s.rows =
      content_height-append older s.rows in
    let inside = h.inside in
    let same : min s.scroll_top
          (max s.client_height (content_height (older ++ s.rows)) - s.client_height)
        ≡ s.scroll_top =
      rw e (omega arith) in
    rw same refl

abbrev pub with_older : List Row → Scroller → Scroller
with_older older s = record s { rows = older ++ s.rows }

scroll_by_older :
    (older : List Row) (s : Scroller) (delta : Coordinate)
    → IsScrolled s
    → delta.plus ≡ delta.minus + content_height older
    → scroll_by s.scroll_top delta (with_older older s) ≡ moved_down older s
unfolding scroll_by
scroll_by_older older s delta h grown = elim (Bool-cases (eqb delta.plus delta.minus)) [
  | inl e ↦
      let none_above : s.scroll_top ≡ content_height older + s.scroll_top = ground arith in
      rw e (ap (λ (t : ℕ). record s { rows = older ++ s.rows; scroll_top = t }) none_above)
  | inr e ↦
      let inside = h.inside in
      let all : content_height (older ++ s.rows) ≡ content_height older + content_height s.rows =
        content_height-append older s.rows in
      let target : min ((s.scroll_top + delta.plus) - delta.minus)
            (max s.client_height (content_height (older ++ s.rows)) - s.client_height)
          ≡ content_height older + s.scroll_top =
        rw all (omega arith) in
      rw (e, target) refl
]

apply_below :
    (older : List Row) (s : Scroller) (found : Option (String × ℕ))
    → first_visible s 0 s.rows ≡ found
    → IsScrolled s
    → IsDistinct (older ++ s.rows)
    → (apply_visual_scroll_anchor (with_older older s) (anchor_at s found)).0 ≡ moved_down older s
unfolding apply_visual_scroll_anchor apply_at
apply_below older s none e h d =
    let inside = h.inside in
    let all : content_height (older ++ s.rows) ≡ content_height older + content_height s.rows =
      content_height-append older s.rows in
    scroll_by_older older s (height_delta (with_older older s) (anchor_at s none)) h
      (rw all (omega arith))
apply_below older s (some (id, offset)) e h d =
    let (j, same, at) = captured_found s s.rows 0 id offset (IsDistinct-append older s.rows d) e in
    let found : find_offset id 0 (older ++ s.rows) ≡ some ((content_height older + 0) + j) =
      found_below older s.rows id 0 _ d (captured_present s s.rows 0 id offset e)
        (at (content_height older + 0)) in
    rw found (
      scroll_by_older older s
        (difference (coordinate s ((content_height older + 0) + j)) (coordinate s offset)) h
        (omega arith))

-- The anchor is taken of a feed that fills the screen, older rows come in above, and the anchor is
-- applied: then every row that was there lies where it was on the screen, whether a message showed
-- that could be the anchor or the height of the content had to do.
pub prepend-Same :
    (older : List Row) (s : Scroller) (before : List Row) (row : Row) (after : List Row)
    → s.rows ≡ before ++ row ∷ after
    → IsScrolled s
    → IsDistinct (older ++ s.rows)
    → let s' =
        apply_visual_scroll_anchor
          (commit_rows (older ++ s.rows) s)
          (capture_visual_scroll_anchor s) in
      (s'.0.rows ≡ (older ++ before) ++ row ∷ after)
      × Same
          (coordinate (s'.0) (content_height (older ++ before)))
          (coordinate s (content_height before))
unfolding capture_visual_scroll_anchor
prepend-Same older s before row after e h d =
    let same =
      ap (λ (t : Scroller). (apply_visual_scroll_anchor t (capture_visual_scroll_anchor s)).0)
        (commit_keeps older s h)
      ∙ apply_below older s (first_visible s 0 s.rows) refl h d in
    rw (same, content_height-append older before)
      (rw e (sym (append_assoc older before (row ∷ after))), omega arith)
