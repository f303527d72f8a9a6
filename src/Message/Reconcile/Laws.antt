-- ===== src/Message/Reconcile/Laws.antt =====
-- What `reconcileMessage` of client/src/lib/message-reconcile.ts reports and keeps.
use mathlib.Core.List.{Perm}
use coachman.Common.{
  sort-perm, ◌+◌, is_some, ℕ, String, Bool, false, ◌&&◌, ◌||◌, not, Option, none, some, List, [],
  ◌∷◌, ◌++◌, any, filter, is_true, Ordering, Bool-cases, ◌≡◌, refl, ◌∙◌, ◌⊎◌, true, inl, inr, arith,
}
use coachman.Message.{StoredMessage}
use coachman.Message.Identity.{same_message_identity}
use coachman.Message.Merge.{merge_message_entity}
use coachman.Message.Unchanged.{message_unchanged}
use coachman.Message.Order.{compare_messages}
use coachman.Message.Dedupe.{dedupe_stored_messages}
use coachman.Message.Dedupe.Groups.{AllMergeOf, concat}
use coachman.Message.Dedupe.Sound.{dedupe_stored_messages-MergeOf}
use coachman.Message.Reconcile.{
  ReconcileResult, reconcile_base, find_same, settle, reconcile_at, reconcile_message,
}

abbrev pub same_as : StoredMessage → StoredMessage → Bool
same_as incoming m = same_message_identity m incoming

none_of_is_some {ℓ} : {A : Type ℓ} (o : Option A) → is_some o ≡ false → o ≡ none
none_of_is_some none h = refl
none_of_is_some (some a) h = cc

any-filter :
    (p q : StoredMessage → Bool) (xs : List StoredMessage)
    → any p (filter (λ x. q x || p x) xs) ≡ any p xs
any-filter p q [] = refl
any-filter p q (x ∷ xs) = ground (arith, any-filter p q xs)

-- Dropping provisional rows drops no row of the incoming message.
reconcile_base-any :
    (prev : List StoredMessage) (incoming : StoredMessage)
    → any (same_as incoming) (reconcile_base prev incoming) ≡ any (same_as incoming) prev
unfolding reconcile_base
reconcile_base-any prev incoming =
    elim (Bool-cases
      (not (is_true incoming.provisional) && any (λ m. is_true m.provisional) prev)) [
        | inl h ↦ rw h (any-filter (same_as incoming) (λ m. not (is_true m.provisional)) prev)
        | inr h ↦ rw h
      ]

find_same-any :
    (incoming : StoredMessage) (i : ℕ) (xs : List StoredMessage)
    → is_some (find_same incoming i xs) ≡ any (same_as incoming) xs
unfolding find_same
find_same-any incoming i [] = refl
find_same-any incoming i (x ∷ xs) = ground (arith, find_same-any incoming (i + 1) xs)

-- What the flags of a result say: `inserted` is set exactly when no row of the list had the identity
-- of the message, never together with `updated`, and where neither is set the list is as it was, but
-- for the provisional rows that are dropped.
pub record Reports (prev : List StoredMessage) (incoming : StoredMessage) (r : ReconcileResult)
    : Type 0 where
  pub inserted : r.inserted ≡ not (any (same_as incoming) prev)
  pub exclusive : (r.inserted && r.updated) ≡ false
  pub unchanged : (r.inserted || r.updated) ≡ false → r.messages ≡ reconcile_base prev incoming

-- The messages are made of the rows of the list and the new one, and of no others: they can be split
-- into groups so that each message is the merge of its group.
abbrev pub MadeOf : List StoredMessage → List StoredMessage → Type 0
MadeOf messages rows =
    (rs : List StoredMessage) × (gs : List (List StoredMessage)) × Perm messages rs
    × AllMergeOf rs gs
    × Perm (concat gs) rows

-- The rows of a list that a new message leaves there, in their order. Every lasting row stays; a
-- provisional one stays beside a provisional message, and goes with a lasting one.
pub data Stays (incoming : StoredMessage) : List StoredMessage → List StoredMessage → Type 0 where
  end : Stays incoming [] []
  stays :
      (m : StoredMessage) {ms ks : List StoredMessage}
      → (is_true incoming.provisional ≡ true) ⊎ (is_true m.provisional ≡ false)
      → Stays incoming ms ks
      → Stays incoming (m ∷ ms) (m ∷ ks)
  goes :
      (m : StoredMessage) {ms ks : List StoredMessage}
      → is_true incoming.provisional ≡ false
      → is_true m.provisional ≡ true
      → Stays incoming ms ks
      → Stays incoming (m ∷ ms) ks

all_stay :
    (incoming : StoredMessage) (ms : List StoredMessage)
    → (is_true incoming.provisional ≡ true)
      ⊎ (any (λ (m : StoredMessage). is_true m.provisional) ms ≡ false)
    → Stays incoming ms ms
all_stay incoming [] h = end
all_stay incoming (m ∷ ms) (inl e) = stays m (inl e) (all_stay incoming ms (inl e))
all_stay incoming (m ∷ ms) (inr e) =
    stays m (inr (ground arith)) (all_stay incoming ms (inr (ground arith)))

filter-Stays :
    (incoming : StoredMessage) (ms : List StoredMessage)
    → is_true incoming.provisional ≡ false
    → any (same_as incoming) ms ≡ false
    → Stays incoming ms
        (filter (λ m. not (is_true m.provisional) || same_message_identity m incoming) ms)
filter-Stays incoming [] lasting new = end
filter-Stays incoming (m ∷ ms) lasting new =
    let rest = filter-Stays incoming ms lasting (ground arith) in
    let other : same_message_identity m incoming ≡ false = ground arith in
    elim (Bool-cases (is_true m.provisional)) [
      | inl e ↦ rw (e, other) (goes m lasting e rest)
      | inr e ↦ rw e (stays m (inr e) rest)
    ]

reconcile_base-Stays :
    (prev : List StoredMessage) (incoming : StoredMessage)
    → any (same_as incoming) prev ≡ false
    → Stays incoming prev (reconcile_base prev incoming)
unfolding reconcile_base
reconcile_base-Stays prev incoming new = elim (Bool-cases (is_true incoming.provisional)) [
  | inl p ↦ rw p (all_stay incoming prev (inl p))
  | inr p ↦ elim (Bool-cases (any (λ (m : StoredMessage). is_true m.provisional) prev)) [
    | inl e ↦ rw (p, e) (filter-Stays incoming prev p new)
    | inr e ↦ rw (p, e) (all_stay incoming prev (inr e))
  ]
]

module _ (collate : String → String → Ordering) where
  settle-MadeOf : (rows : List StoredMessage) → MadeOf (settle collate rows) rows
  unfolding settle
  settle-MadeOf rows =
      let (gs, a, p) = dedupe_stored_messages-MergeOf collate rows in
      (dedupe_stored_messages collate rows, gs, sort-perm (compare_messages collate) _, a, p)

  reconcile_at-Reports :
      (prev : List StoredMessage) (incoming : StoredMessage) (o : Option (ℕ × StoredMessage))
      → is_some o ≡ any (same_as incoming) prev
      → Reports prev incoming (reconcile_at collate (reconcile_base prev incoming) incoming o)
  unfolding reconcile_at
  reconcile_at-Reports prev incoming none h = record {
    inserted = rw (← h);
    exclusive = refl;
    unchanged = λ e. cc;
  }
  reconcile_at-Reports prev incoming (some (i, existing)) h =
      elim (Bool-cases (message_unchanged existing (merge_message_entity existing incoming))) [
        | inl u ↦ rw u (record { inserted = rw (← h); exclusive = refl; unchanged = λ e. refl })
        | inr u ↦ rw u (record { inserted = rw (← h); exclusive = refl; unchanged = λ e. cc })
      ]

  module _ (prev : List StoredMessage) (incoming : StoredMessage) where
    -- The flags of `reconcileMessage` tell the truth: `inserted` is set exactly when no row of the list
    -- had the identity of the message, never together with `updated`, and where neither is set the
    -- list is as it was, but for the provisional rows that are dropped.
    reconcile_message-Reports : Reports prev incoming (reconcile_message collate prev incoming)
    unfolding reconcile_message
    reconcile_message-Reports =
        reconcile_at-Reports prev incoming (find_same incoming 0 (reconcile_base prev incoming)) (
          find_same-any incoming 0 (reconcile_base prev incoming)
          ∙ reconcile_base-any prev incoming)

    -- A new message loses no lasting row: if no row of the list has its identity, the new list is made
    -- of the message and the rows that stay. Every row that is not provisional stays. The provisional
    -- rows stay if the message is provisional, and go if it is not.
    pub reconcile_message-MadeOf :
        any (same_as incoming) prev ≡ false
        → (kept : List StoredMessage) × Stays incoming prev kept
          × MadeOf (reconcile_message collate prev incoming).messages (kept ++ incoming ∷ [])
    unfolding reconcile_message reconcile_at
    reconcile_message-MadeOf h =
        let e =
          find_same-any incoming 0 (reconcile_base prev incoming)
          ∙ (reconcile_base-any prev incoming ∙ h) in
        (
          reconcile_base prev incoming,
          reconcile_base-Stays prev incoming h,
          rw (none_of_is_some _ e, reconcile_at)
              (settle-MadeOf (reconcile_base prev incoming ++ incoming ∷ [])),
        )
