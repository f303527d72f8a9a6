-- ===== src/Message/Dedupe/Distinct.antt =====
-- `dedupeStoredMessages` of client/src/lib/message-dedupe.ts leaves one row for each message.
use mathlib.Core.Option.{some-injective}
use coachman.Common.{
  ℕ, zero, suc, String, true, false, Option, none, some, List, [], ◌∷◌, All, All-sort, get_elem?,
  In, lookup, truthy, present, strip, is_true, Ordering, Bool-cases, Option-cases, eq_iff, ◌≡◌,
  refl, sym, ap, ◌∙◌, inl, inr, arith,
}
use coachman.Message.{StoredMessage}
use coachman.Message.Identity.{pending_prefix, message_client_key, same_message_identity}
use coachman.Message.Identity.Laws.{same_message_identity_iff, SameMessage}
use coachman.Message.Merge.Keys.{IsPlainKey, merge_message_entity-id, merge_message_entity-key}
use coachman.Message.Order.{compare_messages, sort_messages}
use coachman.Message.Dedupe.{
  DedupeState, find_id, dedupe_by_client, dedupe_by_key, dedupe_step, dedupe_loop, empty_state,
  dedupe_stored_messages,
}
use coachman.Message.Dedupe.Groups.{MergeOf, alone, joined, AllMergeOf}
use coachman.Message.Dedupe.Members.{InGroup}
use coachman.Message.Dedupe.Sound.{Tracks-empty}
use coachman.Message.Dedupe.Located.{
  IsCoherent, Located, joined_by_id, joined_by_key, appended_unkeyed, appended_keyed,
}

module _ (key_of : String → Option String) where
  abbrev Placed : DedupeState → Type 0
  Placed st = (gs : List (List StoredMessage)) × Located key_of st gs

  step-Placed :
      (m : StoredMessage) (st : DedupeState)
      → IsCoherent key_of m
      → Placed st
      → Placed (dedupe_step st m)
  unfolding dedupe_step dedupe_by_key
  step-Placed m st c (gs, t) = elim (Option-cases (find_id m st.id_index)) [
    | inr (i, e) ↦ rw (e, dedupe_step) (_, joined_by_id key_of m c st gs t i e)
    | inl e ↦ rw (e, dedupe_step) (by_key (message_client_key m) refl e)
  ]
    where
      by_client :
          (k : String) (o : Option ℕ)
          → find_id m st.id_index ≡ none
          → message_client_key m ≡ some k
          → truthy k ≡ true
          → lookup k st.client_index ≡ o
          → Placed (dedupe_by_client m k o st)
      by_client k (some i) f e n found = (_, joined_by_key key_of m c st gs t i k f e n found)
      by_client k none f e n found = (_, appended_keyed key_of m c st gs t k f e n found)

      by_key :
          (o : Option String)
          → message_client_key m ≡ o
          → find_id m st.id_index ≡ none
          → Placed (dedupe_by_key m o st)
      by_key none e f = (_, appended_unkeyed key_of m c st gs t f (rw e))
      by_key (some k) e f = elim (Bool-cases (truthy k)) [
        | inl h ↦ rw h (by_client k (lookup k st.client_index) f e h refl)
        | inr h ↦ rw h (_, appended_unkeyed key_of m c st gs t f (rw e h))
      ]

  loop-Placed :
      (ms : List StoredMessage) (st : DedupeState)
      → All (IsCoherent key_of) ms
      → Placed st
      → Placed (dedupe_loop st ms)
  unfolding dedupe_loop
  loop-Placed [] st cs p = p
  loop-Placed (m ∷ ms) st cs p = loop-Placed ms (dedupe_step st m) cs.1 (step-Placed m st cs.0 p)

  empty-Placed : Placed empty_state
  empty-Placed = (
    [],
    record {
      tracks = Tracks-empty;
      coherent = λ x i h. absurd h;
      by_key = λ x i k h. absurd h;
      by_id = λ x i h. absurd h;
    },
  )

  module _ (st : DedupeState) (gs : List (List StoredMessage)) (t : Located key_of st gs) where
    -- Rows of two groups never share an identity.
    apart :
        (x y : StoredMessage) (i j : ℕ) → InGroup x gs i → InGroup y gs j → SameMessage x y → i ≡ j
    apart x y i j hx hy (inr (k, e, f, n)) =
        some-injective i j (sym (t.by_key x i k hx e n) ∙ t.by_key y j k hy f n)
    apart x y i j hx hy (inl (k, e, f, n)) = elim (Option-cases (message_client_key x)) [
      | inl none_key ↦ settled (rw none_key)
      | inr (l, key) ↦ elim (Bool-cases (truthy l)) [
        | inl h ↦
            some-injective i j
              (sym (t.by_key x i l hx key h) ∙ t.by_key y j l hy (sym same_key ∙ key) h)
        | inr h ↦ settled (rw key h)
      ]
    ]
      where
        same_id : x.id ≡ y.id
        same_id = some-injective _ _ (e ∙ sym f)

        same_key : message_client_key x ≡ message_client_key y
        same_key = (t.coherent x i hx).keyed ∙ (ap key_of same_id ∙ sym (t.coherent y j hy).keyed)

        confirmed :
            (z : StoredMessage)
            → IsCoherent key_of z
            → present (message_client_key z) ≡ false
            → is_true z.pending ≡ false
        confirmed z c h = elim (Bool-cases (is_true z.pending)) [
          | inl p ↦ let q = c.queued p in cc
          | inr p ↦ p
        ]

        settled : present (message_client_key x) ≡ false → i ≡ j
        settled h =
            let there : lookup y.id st.id_index ≡ some i =
              rw (← same_id) (t.by_id x i hx (confirmed x (t.coherent x i hx) h)) in
            some-injective i j
              (sym there ∙ t.by_id y j hy (confirmed y (t.coherent y j hy) (rw (← same_key) h)))

-- The id and the client key of a merged row are those of rows that it was made of.
record Represents (r : StoredMessage) (g : List StoredMessage) : Type 0 where
  id : (x : StoredMessage) × In x g × (r.id ≡ x.id)
  key :
      (k : String)
      → message_client_key r ≡ some k
      → truthy k ≡ true
      → (x : StoredMessage) × In x g × (message_client_key x ≡ some k)

truthy-strip :
    {r : StoredMessage} {g : List StoredMessage}
    → Represents r g
    → ((x : StoredMessage) → In x g → IsPlainKey (message_client_key x))
    → (k : String) → message_client_key r ≡ some k
    → strip pending_prefix k ≡ none
unfolding strip
truthy-strip rep plain k e = elim (Bool-cases (truthy k)) [
  | inl h ↦ let (x, i, f) = rep.key k e h in plain x i k f
  | inr h ↦ let empty : k ≡ "" = (eq_iff k "").0 (ground arith) in rw empty refl
]

MergeOf-Represents :
    {r : StoredMessage} {g : List StoredMessage}
    → MergeOf r g
    → ((x : StoredMessage) → In x g → IsPlainKey (message_client_key x))
    → Represents r g
MergeOf-Represents (alone m) plain = record {
  id = (m, inl refl, refl);
  key = λ k e h. (m, inl refl, e);
}
MergeOf-Represents (joined {r} {g} m d same) plain =
    let rest : (x : StoredMessage) → In x g → IsPlainKey (message_client_key x) =
      λ x i. plain x (inr i) in
    let rep : Represents r g = MergeOf-Represents d rest in
    record {
      id = elim (merge_message_entity-id r m) [
        | inl e ↦ let (x, i, f) = rep.id in (x, inr i, e ∙ f)
        | inr e ↦ (m, inl refl, e)
      ];
      key = λ k e h.
          elim (merge_message_entity-key r m (truthy-strip rep rest) (plain m (inl refl))
            (rw e h)) [
              | inl f ↦ let (x, i, q) = rep.key k (sym f ∙ e) h in (x, inr i, q)
              | inr f ↦ (m, inl refl, sym f ∙ e)
            ];
    }

-- The group of a result row.
group_at :
    (rs : List StoredMessage) (gs : List (List StoredMessage)) (i : ℕ) {r : StoredMessage}
    → AllMergeOf rs gs
    → get_elem? rs i ≡ some r
    → (g : List StoredMessage) × MergeOf r g × ((x : StoredMessage) → In x g → InGroup x gs i)
group_at [] gs i a h = cc
group_at (r ∷ rs) [] i a h = absurd a
group_at (r ∷ rs) (g ∷ gs) zero a h = (g, rw (← some-injective _ _ h) a.0, λ x k. k)
group_at (r ∷ rs) (g ∷ gs) (suc i) a h = group_at rs gs i a.1 h

module _ (key_of : String → Option String) (st : DedupeState) (gs : List (List StoredMessage))
    (t : Located key_of st gs) where
  -- Result rows at two places never share an identity.
  rows_apart :
      (i j : ℕ) (r s : StoredMessage)
      → get_elem? st.result i ≡ some r
      → get_elem? st.result j ≡ some s
      → same_message_identity r s ≡ true
      → i ≡ j
  rows_apart i j r s er es same =
      let (g, mg, ing) = group_at st.result gs i t.tracks.rows er in
      let (h, mh, inh) = group_at st.result gs j t.tracks.rows es in
      let rr = MergeOf-Represents mg (λ x k. (t.coherent x i (ing x k)).plain) in
      let rs = MergeOf-Represents mh (λ x k. (t.coherent x j (inh x k)).plain) in
      elim ((same_message_identity_iff r s).0 same) [
        | inl (k, e, f, n) ↦
            let (x, ix, ex) = rr.id in
            let (y, iy, ey) = rs.id in
            apart key_of st gs t x y i j (ing x ix) (inh y iy)
              (inl (k, ap some (sym ex) ∙ e, ap some (sym ey) ∙ f, n))
        | inr (k, e, f, n) ↦
            let (x, ix, ex) = rr.key k e n in
            let (y, iy, ey) = rs.key k f n in
            apart key_of st gs t x y i j (ing x ix) (inh y iy) (inr (k, ex, ey, n))
      ]

-- No message is shown twice. If the rows of the list are coherent, two result rows at different
-- places never have one identity.
pub dedupe_stored_messages_distinct :
    (collate : String → String → Ordering) (key_of : String → Option String)
    (messages : List StoredMessage)
    → All (IsCoherent key_of) messages
    → (i j : ℕ) (r s : StoredMessage)
    → get_elem? (dedupe_stored_messages collate messages) i ≡ some r
    → get_elem? (dedupe_stored_messages collate messages) j ≡ some s
    → same_message_identity r s ≡ true
    → i ≡ j
unfolding dedupe_stored_messages
dedupe_stored_messages_distinct collate key_of messages c i j r s =
    let sorted = sort_messages collate messages in
    let (gs, t) =
      loop-Placed key_of sorted empty_state
        (All-sort (compare_messages collate) (IsCoherent key_of) messages c)
        (empty-Placed key_of) in
    rows_apart key_of (dedupe_loop empty_state sorted) gs t i j r s
