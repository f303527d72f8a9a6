-- ===== src/Viewport/Scroller/Removed.antt =====
-- A row above the screen goes, and what is read stays where it is: client/src/lib/chat-viewport.ts.
use coachman.Common.{
  ℕ, ◌+◌, ◌-◌, ◌≤◌, min, max, String, Bool, true, false, ◌&&◌, Option, none, some, List, [], ◌∷◌,
  ◌++◌, ltb, eqb, present, default, if◌then◌else◌, Bool-cases, ◌≡◌, refl, sym, ap, ◌∙◌, inl, inr,
  arith,
}
use coachman.Viewport.Scroller.{
  Row, Scroller, Coordinate, difference, content_height, commit_rows, coordinate, anchor_at,
  intersects, first_visible, capture_visual_scroll_anchor, find_offset, scroll_by, height_delta,
  apply_at, apply_visual_scroll_anchor,
}
use coachman.Viewport.Scroller.Found.{
  Lacks, IsDistinct, content_height-append, captured_present, captured_found, found_below,
  IsDistinct-append,
}
use coachman.Viewport.Scroller.Steady.{Same, IsScrolled}

Lacks-remove :
    (id : String) (xs : List Row) (gone : Row) (ys : List Row)
    → Lacks id (xs ++ gone ∷ ys)
    → Lacks id (xs ++ ys)
Lacks-remove id [] gone ys l = l.1
Lacks-remove id (x ∷ xs) gone ys l = (l.0, Lacks-remove id xs gone ys l.1)

IsDistinct-remove :
    (xs : List Row) (gone : Row) (ys : List Row)
    → IsDistinct (xs ++ gone ∷ ys)
    → IsDistinct (xs ++ ys)
IsDistinct-remove [] gone ys d = d.1
IsDistinct-remove (x ∷ xs) gone ys d =
    (λ p. Lacks-remove (default "" x.id) xs gone ys (d.0 p), IsDistinct-remove xs gone ys d.1)

-- A row above the upper edge does not show.
hidden_row :
    (s : Scroller) (n : ℕ) (row : Row) (rows : List Row)
    → n + row.height ≤ s.scroll_top
    → first_visible s n (row ∷ rows) ≡ first_visible s (n + row.height) rows
unfolding first_visible intersects
hidden_row s n row rows above =
    let outside : ltb (s.top + s.scroll_top) (s.top + (n + row.height) + 0) ≡ false =
      ground arith in
    rw outside (skip (present row.id))
  where
    skip :
        (p : Bool)
        → (if p && false
            then some (default "" row.id, n)
            else first_visible s (n + row.height) rows)
          ≡ first_visible s (n + row.height) rows
    skip true = refl
    skip false = refl

hidden_rows :
    (s : Scroller) (n : ℕ) (xs ys : List Row)
    → n + content_height xs ≤ s.scroll_top
    → first_visible s n (xs ++ ys) ≡ first_visible s (n + content_height xs) ys
hidden_rows s n [] ys above = ap (λ (m : ℕ). first_visible s m ys) (omega arith)
hidden_rows s n (x ∷ xs) ys above =
    hidden_row s n x (xs ++ ys) (omega arith)
    ∙ hidden_rows s (n + x.height) xs ys (omega arith)
    ∙ ap (λ (m : ℕ). first_visible s m ys) (omega arith)

abbrev pub without : List Row → List Row → Scroller → Scroller
without above rest s = record s { rows = above ++ rest }

-- The position after the anchor is applied, with a row of height `h` less above.
abbrev pub moved_up : ℕ → List Row → Scroller → Scroller
moved_up h rows s = record s { rows = rows; scroll_top = s.scroll_top - h }

-- The position is set to what it was, less the height.
scroll_by_removed :
    (h base : ℕ) (rows : List Row) (s : Scroller) (st1 : ℕ) (delta : Coordinate)
    → s.scroll_top + s.client_height ≤ content_height rows + h
    → h ≤ s.scroll_top
    → (base + delta.plus) - delta.minus ≡ s.scroll_top - h
    → (delta.plus ≡ delta.minus → st1 ≡ s.scroll_top - h)
    → scroll_by base delta (record s { rows = rows; scroll_top = st1 }) ≡ moved_up h rows s
unfolding scroll_by
scroll_by_removed h base rows s st1 delta inside high target still =
    elim (Bool-cases (eqb delta.plus delta.minus)) [
      | inl e ↦
          let same : st1 ≡ s.scroll_top - h = still (ground arith) in
          rw e (ap (λ (t : ℕ). record s { rows = rows; scroll_top = t }) same)
      | inr e ↦
          let reached : min ((base + delta.plus) - delta.minus)
                (max s.client_height (content_height rows) - s.client_height)
              ≡ s.scroll_top - h =
            omega arith in
          rw (e, reached) refl
    ]

module _ (s : Scroller) (above : List Row) (gone : Row) (rest : List Row) where
  -- The position that the browser leaves after the commit.
  abbrev left_at : ℕ
  left_at =
      min s.scroll_top (max s.client_height (content_height (above ++ rest)) - s.client_height)

  heights :
      s.rows ≡ above ++ gone ∷ rest
      → (content_height s.rows ≡ content_height above + (gone.height + content_height rest))
        × (content_height (above ++ rest) ≡ content_height above + content_height rest)
  heights e = (
    ap content_height e ∙ content_height-append above (gone ∷ rest),
    content_height-append above rest,
  )

  apply_above :
      (found : Option (String × ℕ))
      → s.rows ≡ above ++ gone ∷ rest
      → first_visible s (content_height above + gone.height) rest ≡ found
      → IsScrolled s
      → content_height above + gone.height ≤ s.scroll_top
      → IsDistinct (above ++ gone ∷ rest)
      → (apply_visual_scroll_anchor (commit_rows (above ++ rest) s) (anchor_at s found)).0
        ≡ moved_up gone.height (above ++ rest) s
  unfolding apply_visual_scroll_anchor apply_at
  apply_above none e shown scrolled high d =
      let (all, left) = heights e in
      let inside = scrolled.inside in
      scroll_by_removed gone.height s.scroll_top (above ++ rest) s left_at
        (height_delta (commit_rows (above ++ rest) s) (anchor_at s none)) (omega arith)
        (omega arith) (omega arith) (λ p. omega arith)
  apply_above (some (id, offset)) e shown scrolled high d =
      let (all, left) = heights e in
      let inside = scrolled.inside in
      let rest_distinct = (IsDistinct-append above (gone ∷ rest) d).1 in
      let (j, same, at) =
        captured_found s rest (content_height above + gone.height) id offset rest_distinct shown in
      let found : find_offset id 0 (above ++ rest) ≡ some ((content_height above + 0) + j) =
        found_below above rest id 0 _ (IsDistinct-remove above gone rest d)
          (captured_present s rest (content_height above + gone.height) id offset shown)
          (at (content_height above + 0)) in
      rw found (
        scroll_by_removed gone.height left_at (above ++ rest) s left_at
          (difference (coordinate (commit_rows (above ++ rest) s) ((content_height above + 0) + j))
            (coordinate s offset))
          (omega arith) (omega arith) (omega arith) (λ p. omega arith))

-- A row above the screen is taken away, and the anchor is applied that was taken before: what lay
-- below `before` in the rest lies where it was on the screen.
pub remove-Same :
    (s : Scroller) (above : List Row) (gone : Row) (rest before : List Row)
    → s.rows ≡ above ++ gone ∷ rest
    → IsScrolled s
    → content_height above + gone.height ≤ s.scroll_top
    → IsDistinct (above ++ gone ∷ rest)
    → let s' =
        apply_visual_scroll_anchor
          (commit_rows (above ++ rest) s)
          (capture_visual_scroll_anchor s) in
      (s'.0.rows ≡ above ++ rest)
      × Same
          (coordinate (s'.0) (content_height (above ++ before)))
          (coordinate s (content_height (above ++ gone ∷ before)))
unfolding capture_visual_scroll_anchor
remove-Same s above gone rest before e scrolled high d =
    let skipped =
      ap (first_visible s 0) e
      ∙ hidden_rows s 0 above (gone ∷ rest) (omega arith)
      ∙ hidden_row s (0 + content_height above) gone rest (omega arith)
      ∙ ap (λ (n : ℕ). first_visible s (n + gone.height) rest) (zero_plus (content_height above)) in
    let same =
      apply_above s above gone rest (first_visible s 0 s.rows) e (sym skipped) scrolled high d in
    let one = content_height-append above before in
    let two = content_height-append above (gone ∷ before) in rw (same, one, two) (refl, omega arith)
  where
    zero_plus : (n : ℕ) → 0 + n ≡ n
    zero_plus n = omega arith
