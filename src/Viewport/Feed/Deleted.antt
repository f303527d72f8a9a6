-- ===== src/Viewport/Feed/Deleted.antt =====
-- A message above the screen is deleted: client/src/components/ChatView.tsx.
use coachman.Common.{
  ℕ, ◌+◌, ◌≤◌, String, true, false, not, none, some, List, [], ◌∷◌, ◌++◌, ◌==◌, filter, truthy,
  present, default, ltb, Bool-cases, eq_iff, ◌≡◌, refl, sym, ap, subst, ◌∙◌, inl, inr, arith,
}
use coachman.Message.{StoredMessage}
use coachman.Viewport.{history_anchor}
use coachman.Viewport.Scroller.{Row, content_height, coordinate, has_id}
use coachman.Viewport.Scroller.Found.{Lacks, IsDistinct, id_of}
use coachman.Viewport.Scroller.Steady.{Same, IsScrolled}
use coachman.Viewport.Scroller.Removed.{remove-Same}
use coachman.Viewport.Feed.{
  ChatFeed, in_initial_load, arm_scroll, UpdateOpts, update_messages, restore_anchor, layout_effect,
}
use coachman.Viewport.Feed.Older.{anchored}
use coachman.Viewport.Feed.Changes.{commit, find_row, scroll_opts_for_delete, delete_message}

Lacks-at :
    (id : String) (xs : List Row) (gone : Row) (ys : List Row)
    → Lacks id (xs ++ gone ∷ ys)
    → has_id id gone.id ≡ false
Lacks-at id [] gone ys l = l.0
Lacks-at id (x ∷ xs) gone ys l = Lacks-at id xs gone ys l.1

-- The row of the message is found where it lies.
find_row_at :
    (id : String) (n : ℕ) (xs : List Row) (gone : Row) (ys : List Row)
    → gone.id ≡ some id
    → truthy id ≡ true
    → IsDistinct (xs ++ gone ∷ ys)
    → find_row id n (xs ++ gone ∷ ys) ≡ some (n + content_height xs, gone)
unfolding find_row
find_row_at id n [] gone ys named real d =
    let own : has_id id gone.id ≡ true = ap (has_id id) named ∙ (eq_iff id id).1 refl in
    let e : n ≡ n + 0 = omega arith in rw own (ap (λ (m : ℕ). some (m, gone)) e)
find_row_at id n (x ∷ xs) gone ys named real d = elim (Bool-cases (has_id id x.id)) [
  | inl same ↦
      let e = id_of x.id id same in
      let lacks : Lacks id (xs ++ gone ∷ ys) =
        subst (λ (i : String). Lacks i (xs ++ gone ∷ ys)) (ap (default "") e)
          (d.0 (ap present e ∙ real)) in
      let own : has_id id gone.id ≡ true = ap (has_id id) named ∙ (eq_iff id id).1 refl in
      absurd (let clash = sym own ∙ Lacks-at id xs gone ys lacks in cc)
  | inr other ↦
      let e : (n + x.height) + content_height xs ≡ n + (x.height + content_height xs) =
        omega arith in
      rw other
        (find_row_at id (n + x.height) xs gone ys named real d.1 ∙ ap (λ (m : ℕ). some (m, gone)) e)
]

-- What the deletion of a row above the screen leaves as it was for what lies below `before`.
pub record IsStill (above : List Row) (gone : Row) (rest before : List Row) (st st' : ChatFeed)
    : Type 0 where
  pub rows : st'.el.rows ≡ above ++ rest
  pub same :
      Same
        (coordinate st'.el (content_height (above ++ before)))
        (coordinate st.el (content_height (above ++ gone ∷ before)))
  pub unread : st'.unread_below_count ≡ st.unread_below_count
  pub follow : st'.follow_bottom ≡ st.follow_bottom

module _ (st : ChatFeed) (removed_id : String) (above : List Row) (gone : Row) (rest : List Row)
    (loaded : in_initial_load st ≡ false) (reading : st.is_at_bottom ≡ false)
    (shown : st.el.rows ≡ above ++ gone ∷ rest) (named : gone.id ≡ some removed_id)
    (real : truthy removed_id ≡ true) (high : content_height above + gone.height ≤ st.el.scroll_top)
    (distinct : IsDistinct (above ++ gone ∷ rest)) where
  found : find_row removed_id 0 st.el.rows ≡ some (content_height above, gone)
  found =
      ap (find_row removed_id 0) shown
      ∙ find_row_at removed_id 0 above gone rest named real distinct
      ∙ ap (λ (n : ℕ). some (n, gone)) (omega arith)

  opts_anchor :
      scroll_opts_for_delete removed_id st
      ≡ record { follow_bottom = none; scroll_intent = some history_anchor }
  opts_anchor =
      let outside : ltb (st.el.top + st.el.scroll_top)
            (st.el.top + (content_height above + gone.height) + 0)
          ≡ false =
        ground arith in
      rw (found, reading, outside) refl

  delete_message_lem :
      delete_message removed_id st
      ≡ anchored (filter (λ (m : StoredMessage). not (m.id == removed_id)) st.messages) st
  unfolding delete_message update_messages arm_scroll
  delete_message_lem =
      ap
        (λ (opts : UpdateOpts).
          update_messages opts
            (filter (λ (m : StoredMessage). not (m.id == removed_id)) st.messages) st)
        opts_anchor
      ∙ rw loaded refl

  still :
      (render : List StoredMessage → List Row) (messages : List StoredMessage) (before : List Row)
      → render messages ≡ above ++ rest
      → IsScrolled st.el
      → IsStill above gone rest before st (commit render (anchored messages st))
  unfolding commit layout_effect restore_anchor
  still render messages before laid scrolled =
      let (rows, same) = remove-Same st.el above gone rest before shown scrolled high distinct in
      rw (loaded, laid) (record { rows = rows; same = same; unread = refl; follow = refl })

  -- The reader of an open chat is not at the end, and a message is deleted whose row lies above the
  -- screen: if the messages that stay are laid out as before, every row below lies where it was on
  -- the screen, and neither the counter nor the permission to follow changes.
  pub delete_message-IsStill :
      (render : List StoredMessage → List Row) (before : List Row)
      → render (filter (λ (m : StoredMessage). not (m.id == removed_id)) st.messages)
        ≡ above ++ rest
      → IsScrolled st.el
      → IsStill above gone rest before st (commit render (delete_message removed_id st))
  delete_message-IsStill render before laid scrolled =
      rw delete_message_lem (still render _ before laid scrolled)
