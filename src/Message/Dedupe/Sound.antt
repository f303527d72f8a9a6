-- ===== src/Message/Dedupe/Sound.antt =====
-- `dedupeStoredMessages` of client/src/lib/message-dedupe.ts loses no row and merges only rows of
-- one logical message.
use mathlib.Core.List.{Perm, perm_middle, append-nil}
use mathlib.Core.List.Perm
use coachman.Common.{
  ℕ, String, true, Option, none, some, List, [], ◌∷◌, ◌++◌, length, lookup, truthy, Ordering,
  sort-perm, Bool-cases, Option-cases, eq_iff, eq_refl, ◌≡◌, refl, inl, inr, arith,
}
use coachman.Message.{StoredMessage}
use coachman.Message.Identity.{message_client_key, same_message_identity}
use coachman.Message.Order.{compare_messages, sort_messages}
use coachman.Message.Dedupe.{
  DedupeState, prefer_at, find_id, append_row, dedupe_by_client, dedupe_by_key, dedupe_step,
  dedupe_loop, empty_state, dedupe_stored_messages,
}
use coachman.Message.Dedupe.Groups.{
  AllMergeOf, concat, join_at, holds-join_at_self, holds-append_self, AllMergeOf-length,
  concat-join_at-perm, concat-append-perm,
}
use coachman.Message.Dedupe.Tracked.{
  has_id, has_key, Tracks, holds-imp, Tracks-join, Tracks-index_id, Tracks-index_key, Tracks-append,
}

-- What one round does to the groups.
abbrev Rounds : DedupeState → List (List StoredMessage) → List StoredMessage → Type 0
Rounds st gs ms =
    (gs' : List (List StoredMessage)) × Tracks st gs' × Perm (concat gs') (ms ++ concat gs)

-- Rows that share a nonempty id, or a nonempty client key, have one identity.
pub same_of_id :
    (m x : StoredMessage)
    → truthy m.id ≡ true
    → has_id m.id x ≡ true
    → same_message_identity x m ≡ true
unfolding same_message_identity
same_of_id m x h k = let e = (eq_iff x.id m.id).0 k in rw (e, h, eq_refl m.id)

pub same_of_key :
    (m x : StoredMessage) (k : String)
    → message_client_key m ≡ some k
    → has_key k x ≡ true
    → same_message_identity x m ≡ true
unfolding same_message_identity
same_of_key m x k e h = rw e (rw h (ground arith))

pub has_key_self :
    (m : StoredMessage) (k : String)
    → message_client_key m ≡ some k
    → truthy k ≡ true
    → has_key k m ≡ true
has_key_self m k e h = rw (e, h, eq_refl k)

module _ (m : StoredMessage) (st : DedupeState) (gs : List (List StoredMessage))
    (t : Tracks st gs) where
  append-Rounds : Rounds (append_row m st) gs (m ∷ [])
  append-Rounds =
      let n : length st.result ≡ length gs = AllMergeOf-length st.result gs t.rows in
      (
        gs ++ (m ∷ []) ∷ [],
        rw n (
            Tracks-index_id m _ _ (Tracks-append m st gs t) (length gs)
              (holds-append_self (has_id m.id) m gs (eq_refl m.id))),
        concat-append-perm m gs,
      )

  by_client :
      (k : String) (o : Option ℕ)
      → message_client_key m ≡ some k
      → truthy k ≡ true
      → lookup k st.client_index ≡ o
      → Rounds (dedupe_by_client m k o st) gs (m ∷ [])
  unfolding dedupe_by_client
  by_client k (some i) e h found =
      let there = t.keys k i found in
      (
        join_at m i gs,
        Tracks-index_id m _ _
            (Tracks-join m st gs t i (holds-imp _ _ gs i (λ x. same_of_key m x k e) there)) i
            (holds-join_at_self (has_id m.id) m (has_key k) gs i there (eq_refl m.id)),
        concat-join_at-perm (has_key k) m gs i there,
      )
  by_client k none e h found =
      let n : length st.result ≡ length gs = AllMergeOf-length st.result gs t.rows in
      let appended = Tracks-append m st gs t in
      let keyed =
        Tracks-index_key m _ _ appended k (length gs)
          (holds-append_self (has_key k) m gs (has_key_self m k e h)) in
      (
        gs ++ (m ∷ []) ∷ [],
        rw n (
            Tracks-index_id m _ _ keyed (length gs)
              (holds-append_self (has_id m.id) m gs (eq_refl m.id))),
        concat-append-perm m gs,
      )

  by_key :
      (o : Option String) → message_client_key m ≡ o → Rounds (dedupe_by_key m o st) gs (m ∷ [])
  unfolding dedupe_by_key
  by_key none e = append-Rounds
  by_key (some k) e = elim (Bool-cases (truthy k)) [
    | inl h ↦ rw h (by_client k (lookup k st.client_index) e h refl)
    | inr h ↦ rw h append-Rounds
  ]

  by_id :
      (i : ℕ)
      → find_id m st.id_index ≡ some i
      → Rounds (record st { result = prefer_at m i st.result }) gs (m ∷ [])
  unfolding find_id
  by_id i e =
      let nonempty : truthy m.id ≡ true = ground arith in
      let found : lookup m.id st.id_index ≡ some i = ground arith in
      let there = t.ids m.id i found in
      (
        join_at m i gs,
        Tracks-join m st gs t i (holds-imp _ _ gs i (λ x. same_of_id m x nonempty) there),
        concat-join_at-perm (has_id m.id) m gs i there,
      )

  step-Rounds : Rounds (dedupe_step st m) gs (m ∷ [])
  unfolding dedupe_step
  step-Rounds = elim (Option-cases (find_id m st.id_index)) [
    | inr (i, e) ↦ rw (e, dedupe_step) (by_id i e)
    | inl e ↦ rw (e, dedupe_step) (by_key (message_client_key m) refl)
  ]

loop-Rounds :
    (ms : List StoredMessage) (st : DedupeState) (gs : List (List StoredMessage))
    → Tracks st gs
    → Rounds (dedupe_loop st ms) gs ms
unfolding dedupe_loop
loop-Rounds [] st gs t = (gs, t, Perm.refl _)
loop-Rounds (m ∷ ms) st gs t =
    let (gs', t', p) = step-Rounds m st gs t in
    let (gs'', t'', q) = loop-Rounds ms (dedupe_step st m) gs' t' in
    (
      gs'',
      t'',
      Perm.trans q (Perm.trans (Perm.append (Perm.refl ms) p) (perm_middle ms (concat gs))),
    )

pub Tracks-empty : Tracks empty_state []
unfolding lookup
Tracks-empty = record { rows = tt; ids = λ k i e. cc; keys = λ k i e. cc }

module _ (collate : String → String → Ordering) where
  -- No row is lost and none is invented: the rows of the list can be split into groups, each row in
  -- exactly one, so that the result holds the merge of each group, and a row joins a group only
  -- if it has the identity of a row that is in the group.
  pub dedupe_stored_messages-MergeOf :
      (messages : List StoredMessage)
      → (gs : List (List StoredMessage)) × AllMergeOf (dedupe_stored_messages collate messages) gs
        × Perm (concat gs) messages
  unfolding dedupe_stored_messages
  dedupe_stored_messages-MergeOf messages =
      let sorted = sort_messages collate messages in
      let (gs, t, p) = loop-Rounds sorted empty_state [] Tracks-empty in
      (gs, t.rows, Perm.trans p (rw append-nil (sort-perm (compare_messages collate) messages)))
