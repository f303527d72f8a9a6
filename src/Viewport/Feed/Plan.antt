-- ===== src/Viewport/Feed/Plan.antt =====
-- The plan for an incoming batch: client/src/lib/chat-viewport.ts.
use coachman.Common.{
  ℕ, ◌+◌, String, Bool, true, false, ◌&&◌, not, none, List, [], ◌∷◌, ◌==◌, ltb, eqb, if◌then◌else◌,
  Bool-cases, ◌≡◌, refl, ap, ◌∙◌, inl, inr, arith,
}
use coachman.Message.{StoredMessage}
use coachman.Message.Reconcile.{ReconcileResult}
use coachman.Viewport.{plan_burst_incoming_scroll, should_bump_unread_below_for_incoming}
use coachman.Viewport.Feed.Changes.{count_foreign, all_own, pin_if_inserted, bump_unread}
use coachman.Viewport.Feed.{ChatFeed, in_initial_load, no_opts, arm_scroll, update_messages}

pick_false : {A : Type 0} (b : Bool) (x y : A) → b ≡ false → (if b then x else y) ≡ y
pick_false true x y e = cc
pick_false false x y e = refl

bump_pinned : (foreign : ℕ) (st : ChatFeed) → bump_unread foreign 1 st ≡ st
unfolding bump_unread
bump_pinned foreign st =
    pick_false (should_bump_unread_below_for_incoming foreign 1) _ _ (ground arith)

bump_counts :
    (foreign : ℕ) (st : ChatFeed)
    → bump_unread foreign 0 st ≡ record st { unread_below_count = st.unread_below_count + foreign }
unfolding bump_unread
bump_counts foreign st = elim (Bool-cases (eqb foreign 0)) [
  | inl e ↦
      let no_bump : should_bump_unread_below_for_incoming foreign 0 ≡ false = ground arith in
      let same : st.unread_below_count ≡ st.unread_below_count + foreign = ground arith in
      rw no_bump (ap (λ (n : ℕ). record st { unread_below_count = n }) same)
  | inr e ↦
      let bump : should_bump_unread_below_for_incoming foreign 0 ≡ true = ground arith in
      rw (bump, e) refl
]

pub pinned_state :
    (inserted foreign : ℕ) (st : ChatFeed)
    → ltb 0 inserted ≡ true
    → bump_unread foreign 1 (pin_if_inserted 1 inserted st)
      ≡ record st { follow_bottom = true; pending_pin_to_bottom = true; is_at_bottom = true }
unfolding pin_if_inserted
pinned_state inserted foreign st new = bump_pinned foreign _ ∙ rw new refl

pub counted_state :
    (inserted foreign : ℕ) (st : ChatFeed)
    → bump_unread foreign 0 (pin_if_inserted 0 inserted st)
      ≡ record st { unread_below_count = st.unread_below_count + foreign }
unfolding pin_if_inserted
counted_state inserted foreign st = bump_counts foreign st

-- Whether a batch pins the feed: the reader is at the end and does nothing else.
abbrev pub may_pin : ℕ → ChatFeed → Bool
may_pin inserted st =
    st.is_at_bottom && (not st.composer_focused && (not st.context_menu_open && ltb 0 inserted))

pub adjustments_lem :
    (bottom focused menu : Bool) (inserted : ℕ)
    → (plan_burst_incoming_scroll bottom inserted focused menu).scroll_adjustments
      ≡ (if bottom && (not focused && (not menu && ltb 0 inserted)) then 1 else 0)
adjustments_lem bottom focused menu inserted = elim (Bool-cases (eqb inserted 0)) [
  | inl e ↦
      let none_new : ltb 0 inserted ≡ false = ground arith in
      rw (e, none_new) (off bottom focused menu)
  | inr e ↦ let new : ltb 0 inserted ≡ true = ground arith in rw (e, new) (on bottom focused menu)
]
  where
    off :
        (bottom focused menu : Bool)
        → ◌≡◌ {A = ℕ} 0 (if bottom && (not focused && (not menu && false)) then 1 else 0)
    off false focused menu = refl
    off true true menu = refl
    off true false true = refl
    off true false false = refl

    on :
        (bottom focused menu : Bool)
        → (plan_burst_incoming_scroll bottom 1 focused menu).scroll_adjustments
          ≡ (if bottom && (not focused && (not menu && true)) then 1 else 0)
    on false true menu = refl
    on false false true = refl
    on false false false = refl
    on true true menu = refl
    on true false true = refl
    on true false false = refl

pub both : (a b : Bool) → a && b ≡ true → (a ≡ true) × (b ≡ true)
both true b e = (refl, e)
both false b e = cc

and_false : (b : Bool) → b && false ≡ false
and_false true = refl
and_false false = refl

pub count_foreign_own :
    (user_id : String) (results : List ReconcileResult) (batch : List StoredMessage)
    → all_own user_id batch ≡ true
    → count_foreign user_id results batch ≡ 0
count_foreign_own user_id [] batch e = refl
count_foreign_own user_id (r ∷ rs) [] e = refl
count_foreign_own user_id (r ∷ rs) (m ∷ ms) e =
    let (own, rest) = both (m.sender_id == user_id) (all_own user_id ms) e in
    rw (own, and_false r.inserted) (count_foreign_own user_id rs ms rest)

-- What `updateMessages` leaves without options.
abbrev pub set_messages : List StoredMessage → ChatFeed → ChatFeed
set_messages messages st = record st {
  pending_pin_to_bottom = false;
  scroll_anchor = none;
  messages = messages;
}

pub update_messages_plain :
    (messages : List StoredMessage) (st : ChatFeed)
    → in_initial_load st ≡ false
    → update_messages no_opts messages st ≡ set_messages messages st
unfolding update_messages arm_scroll
update_messages_plain messages st e = rw e refl
