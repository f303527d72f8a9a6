-- ===== src/Message/Dedupe/Tracked.antt =====
-- The groups of rows behind the state of the loop: client/src/lib/message-dedupe.ts.
use coachman.Common.{
  ℕ, zero, suc, String, Bool, true, some, List, [], ◌∷◌, ◌++◌, any, lookup, insert,
  lookup-insert_cases, is_true, Bool-cases, ◌==◌, ◌≡◌, inl, inr, arith,
}
use coachman.Message.{StoredMessage}
use coachman.Message.Identity.{message_client_key, same_key, same_message_identity}
use coachman.Message.Dedupe.{DedupeState, index_id, prefer_at}
use coachman.Message.Dedupe.Groups.{
  AllMergeOf, join_at, holds, holds-join_at, holds-append, AllMergeOf-join_at, AllMergeOf-append,
}

abbrev pub has_id : String → StoredMessage → Bool
has_id k x = x.id == k

abbrev pub has_key : String → StoredMessage → Bool
has_key k x = same_key (message_client_key x) (some k)

-- The groups `gs` are those that the state of the loop was made from, and each index entry leads
-- to a group with a row of that id or client key.
pub record Tracks (st : DedupeState) (gs : List (List StoredMessage)) : Type 0 where
  pub rows : AllMergeOf st.result gs
  pub ids : (k : String) (i : ℕ) → lookup k st.id_index ≡ some i → holds (has_id k) gs i ≡ true
  pub keys :
      (k : String) (i : ℕ) → lookup k st.client_index ≡ some i → holds (has_key k) gs i ≡ true

any-imp :
    (p q : StoredMessage → Bool) (g : List StoredMessage)
    → ((x : StoredMessage) → p x ≡ true → q x ≡ true)
    → any p g ≡ true
    → any q g ≡ true
any-imp p q [] imp h = cc
any-imp p q (x ∷ g) imp h = elim (Bool-cases (p x)) [
  | inl e ↦ rw (imp x e)
  | inr e ↦ let k = any-imp p q g imp (rw e at h) in ground arith
]

pub holds-imp :
    (p q : StoredMessage → Bool) (gs : List (List StoredMessage)) (i : ℕ)
    → ((x : StoredMessage) → p x ≡ true → q x ≡ true)
    → holds p gs i ≡ true
    → holds q gs i ≡ true
holds-imp p q [] i imp h = cc
holds-imp p q (g ∷ gs) zero imp h = any-imp p q g imp h
holds-imp p q (g ∷ gs) (suc i) imp h = holds-imp p q gs i imp h

module _ (m : StoredMessage) (st : DedupeState) (gs : List (List StoredMessage))
    (t : Tracks st gs) where
  pub Tracks-join :
      (i : ℕ)
      → holds (λ x. same_message_identity x m) gs i ≡ true
      → Tracks (record st { result = prefer_at m i st.result }) (join_at m i gs)
  Tracks-join i h = record {
    rows = AllMergeOf-join_at m st.result gs i t.rows h;
    ids = λ k j e. holds-join_at (has_id k) m gs j i (t.ids k j e);
    keys = λ k j e. holds-join_at (has_key k) m gs j i (t.keys k j e);
  }

  pub Tracks-index_id :
      (i : ℕ)
      → holds (has_id m.id) gs i ≡ true
      → Tracks (record st { id_index = index_id m i st.id_index }) gs
  unfolding index_id lookup
  Tracks-index_id i h = record {
    rows = t.rows;
    ids = λ k j e. elim (Bool-cases (is_true m.pending)) [
      | inl b ↦ t.ids k j (rw b at e)
      | inr b ↦ elim (lookup-insert_cases m.id k i st.id_index (rw b at e)) [
        | inl (same, there) ↦ rw (← same, ← there) h
        | inr old ↦ t.ids k j old
      ]
    ];
    keys = t.keys;
  }

  pub Tracks-index_key :
      (k : String) (i : ℕ)
      → holds (has_key k) gs i ≡ true
      → Tracks (record st { client_index = insert k i st.client_index }) gs
  unfolding lookup
  Tracks-index_key k i h = record {
    rows = t.rows;
    ids = t.ids;
    keys = λ j n e. elim (lookup-insert_cases k j i st.client_index e) [
      | inl (same, there) ↦ rw (← same, ← there) h
      | inr old ↦ t.keys j n old
    ];
  }

  pub Tracks-append : Tracks (record st { result = st.result ++ m ∷ [] }) (gs ++ (m ∷ []) ∷ [])
  Tracks-append = record {
    rows = AllMergeOf-append m st.result gs t.rows;
    ids = λ k j e. holds-append (has_id k) m gs (m ∷ []) j (t.ids k j e);
    keys = λ k j e. holds-append (has_key k) m gs (m ∷ []) j (t.keys k j e);
  }
