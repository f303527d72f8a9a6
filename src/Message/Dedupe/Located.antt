-- ===== src/Message/Dedupe/Located.antt =====
-- Where each row goes in the loop of `dedupeStoredMessages` (client/src/lib/message-dedupe.ts), for
-- a list in which rows with one id have one client key.
use coachman.Common.{
  ℕ, String, true, false, Option, none, some, List, [], ◌∷◌, ◌++◌, length, lookup, insert,
  lookup-insert_self, truthy, present, strip, is_true, eq_iff, eq_refl, ◌≡◌, sym, ap, ◌∙◌, inl, inr,
  arith,
}
use mathlib.Core.Option.{some-injective}
use coachman.Message.{StoredMessage}
use coachman.Message.Identity.{pending_prefix, message_client_key}
use coachman.Message.Dedupe.{
  DedupeState, index_id, prefer_at, find_id, append_row, dedupe_by_client,
}
use coachman.Message.Dedupe.Groups.{
  AllMergeOf-length, join_at, holds, holds-join_at_self, holds-append_self,
}
use coachman.Message.Dedupe.Members.{InGroup, InGroup-holds, InGroup-join_at, InGroup-append}
use coachman.Message.Dedupe.Tracked.{
  has_id, has_key, Tracks, holds-imp, Tracks-join, Tracks-index_id, Tracks-index_key, Tracks-append,
}
use coachman.Message.Dedupe.Sound.{same_of_id, same_of_key, has_key_self}

-- A row as the program stores it: its id is not empty and decides its client key, a pending row has
-- a client key, and no client key is itself a temporary id.
pub record IsCoherent (key_of : String → Option String) (m : StoredMessage) : Type 0 where
  pub keyed : message_client_key m ≡ key_of m.id
  pub nonempty : truthy m.id ≡ true
  pub queued : is_true m.pending ≡ true → present (message_client_key m) ≡ true
  pub plain : (k : String) → message_client_key m ≡ some k → strip pending_prefix k ≡ none

module _ (key_of : String → Option String) where
  -- The indexes lead from each row to its group.
  pub record Located (st : DedupeState) (gs : List (List StoredMessage)) : Type 0 where
    pub tracks : Tracks st gs
    pub coherent : (x : StoredMessage) (i : ℕ) → InGroup x gs i → IsCoherent key_of x
    pub by_key :
        (x : StoredMessage) (i : ℕ) (k : String)
        → InGroup x gs i
        → message_client_key x ≡ some k
        → truthy k ≡ true
        → lookup k st.client_index ≡ some i
    pub by_id :
        (x : StoredMessage) (i : ℕ)
        → InGroup x gs i
        → is_true x.pending ≡ false
        → lookup x.id st.id_index ≡ some i

-- A row that no index entry of its id led to leaves the entries of the other rows.
kept_id :
    (m : StoredMessage) (k : String) (i : ℕ) {j : ℕ} (index : List (String × ℕ))
    → find_id m index ≡ none
    → truthy m.id ≡ true
    → lookup k index ≡ some j
    → lookup k (index_id m i index) ≡ some j
unfolding index_id find_id lookup
kept_id m k i index none_found nonempty found = ground (arith, eq_iff m.id k)

new_id :
    (m : StoredMessage) (i : ℕ) (index : List (String × ℕ))
    → is_true m.pending ≡ false
    → lookup m.id (index_id m i index) ≡ some i
unfolding index_id
new_id m i index h = rw h (lookup-insert_self m.id i index)

kept_key :
    (k l : String) (i : ℕ) {j : ℕ} (index : List (String × ℕ))
    → lookup k index ≡ none
    → lookup l index ≡ some j
    → lookup l (insert k i index) ≡ some j
unfolding lookup
kept_key k l i index absent found = ground (arith, eq_iff k l)

module _ (key_of : String → Option String) (m : StoredMessage) (c : IsCoherent key_of m)
    (st : DedupeState) (gs : List (List StoredMessage)) (t : Located key_of st gs) where
  -- `m` joins group `i`, whose rows have the key of `m`.
  pub joined_by_id :
      (i : ℕ)
      → find_id m st.id_index ≡ some i
      → Located key_of (record st { result = prefer_at m i st.result }) (join_at m i gs)
  unfolding find_id
  joined_by_id i e = record {
    tracks =
        Tracks-join m st gs t.tracks i
          (holds-imp _ _ gs i (λ x. same_of_id m x c.nonempty) members);
    coherent = λ x j h. elim (InGroup-join_at x m gs i j h) [
      | inl (same, there) ↦ rw same c
      | inr old ↦ t.coherent x j old
    ];
    by_key = λ x j k h f n. elim (InGroup-join_at x m gs i j h) [
      | inl (same, there) ↦ rw there (shared k (rw same at f) n)
      | inr old ↦ t.by_key x j k old f n
    ];
    by_id = λ x j h settled. elim (InGroup-join_at x m gs i j h) [
      | inl (same, there) ↦ rw (same, there) found
      | inr old ↦ t.by_id x j old settled
    ];
  }
    where
      found : lookup m.id st.id_index ≡ some i
      found = ground arith

      members : holds (has_id m.id) gs i ≡ true
      members = t.tracks.ids m.id i found

      shared :
          (k : String)
          → message_client_key m ≡ some k
          → truthy k ≡ true
          → lookup k st.client_index ≡ some i
      shared k f n =
          let (y, inside, same_id) = InGroup-holds (has_id m.id) gs i members in
          let id : y.id ≡ m.id = (eq_iff y.id m.id).0 same_id in
          t.by_key y i k inside ((t.coherent y i inside).keyed ∙ (ap key_of id ∙ (sym c.keyed ∙ f)))
            n

  pub joined_by_key :
      (i : ℕ) (k : String)
      → find_id m st.id_index ≡ none
      → message_client_key m ≡ some k
      → truthy k ≡ true
      → lookup k st.client_index ≡ some i
      → Located key_of (dedupe_by_client m k (some i) st) (join_at m i gs)
  unfolding dedupe_by_client
  joined_by_key i k none_found e n found = record {
    tracks =
        Tracks-index_id m _ _
          (Tracks-join m st gs t.tracks i (holds-imp _ _ gs i (λ x. same_of_key m x k e) members)) i
          (holds-join_at_self (has_id m.id) m (has_key k) gs i members (eq_refl m.id));
    coherent = λ x j h. elim (InGroup-join_at x m gs i j h) [
      | inl (same, there) ↦ rw same c
      | inr old ↦ t.coherent x j old
    ];
    by_key = λ x j l h f n'. elim (InGroup-join_at x m gs i j h) [
      | inl (same, there) ↦
          rw (there, some-injective l k (sym f ∙ (ap message_client_key same ∙ e))) found
      | inr old ↦ t.by_key x j l old f n'
    ];
    by_id = λ x j h settled. elim (InGroup-join_at x m gs i j h) [
      | inl (same, there) ↦ rw (same, there) (new_id m i st.id_index (rw same at settled))
      | inr old ↦ kept_id m x.id i st.id_index none_found c.nonempty (t.by_id x j old settled)
    ];
  }
    where
      members : holds (has_key k) gs i ≡ true
      members = t.tracks.keys k i found

  Located-append :
      (added : List (String × ℕ))
      → find_id m st.id_index ≡ none
      → ((x : StoredMessage) (j : ℕ) (k : String)
          → InGroup x gs j
          → message_client_key x ≡ some k
          → truthy k ≡ true
          → lookup k added ≡ some j)
      → ((k : String)
          → message_client_key m ≡ some k
          → truthy k ≡ true
          → lookup k added ≡ some (length st.result))
      → Tracks (append_row m (record st { client_index = added })) (gs ++ (m ∷ []) ∷ [])
      → Located key_of (append_row m (record st { client_index = added })) (gs ++ (m ∷ []) ∷ [])
  Located-append added none_found kept new tracks = record {
    tracks = tracks;
    coherent = λ x j h. elim (InGroup-append x m gs j h) [
      | inl (same, there) ↦ rw same c
      | inr old ↦ t.coherent x j old
    ];
    by_key = λ x j k h f n. elim (InGroup-append x m gs j h) [
      | inl (same, there) ↦ rw (there, ← size) (new k (ap message_client_key (sym same) ∙ f) n)
      | inr old ↦ kept x j k old f n
    ];
    by_id = λ x j h settled. elim (InGroup-append x m gs j h) [
      | inl (same, there) ↦
          rw (same, there, ← size) (new_id m (length st.result) st.id_index (rw same at settled))
      | inr old ↦
          kept_id m x.id (length st.result) st.id_index none_found c.nonempty
            (t.by_id x j old settled)
    ];
  }
    where
      size : length st.result ≡ length gs
      size = AllMergeOf-length st.result gs t.tracks.rows

  pub appended_unkeyed :
      find_id m st.id_index ≡ none
      → present (message_client_key m) ≡ false
      → Located key_of (append_row m st) (gs ++ (m ∷ []) ∷ [])
  appended_unkeyed none_found unkeyed =
      Located-append st.client_index none_found (λ x j k. t.by_key x j k)
        (λ k f n. let q : present (some k) ≡ false = rw f at unkeyed in cc)
        (rw size (
          Tracks-index_id m _ _ (Tracks-append m st gs t.tracks) (length gs)
            (holds-append_self (has_id m.id) m gs (eq_refl m.id))))
    where
      size : length st.result ≡ length gs
      size = AllMergeOf-length st.result gs t.tracks.rows

  pub appended_keyed :
      (k : String)
      → find_id m st.id_index ≡ none
      → message_client_key m ≡ some k
      → truthy k ≡ true
      → lookup k st.client_index ≡ none
      → Located key_of (dedupe_by_client m k none st) (gs ++ (m ∷ []) ∷ [])
  unfolding dedupe_by_client
  appended_keyed k none_found e n absent =
      Located-append (insert k (length st.result) st.client_index) none_found
        (λ x j l inside f n'.
          kept_key k l (length st.result) st.client_index absent (t.by_key x j l inside f n'))
        (λ l f n'.
          rw (some-injective l k (sym f ∙ e))
            (lookup-insert_self k (length st.result) st.client_index))
        (rw size (
          Tracks-index_id m _ _
            (Tracks-index_key m _ _ (Tracks-append m st gs t.tracks) k (length gs)
              (holds-append_self (has_key k) m gs (has_key_self m k e n)))
            (length gs) (holds-append_self (has_id m.id) m gs (eq_refl m.id))))
    where
      size : length st.result ≡ length gs
      size = AllMergeOf-length st.result gs t.tracks.rows
