-- ===== src/Message/Merge/Confirm.antt =====
-- What the merge of client/src/lib/message-identity.ts does with the server's id and the flags.
use coachman.Common.{
  String, Bool, true, false, ◌||◌, Option, none, some, truthy, coalesce, default, strip, is_true,
  is_some, Bool-cases, Option-cases, if◌then◌else◌, ◌≡◌, ◌⊎◌, inl, inr, Sum-swap, arith, ap, sym,
  ◌∙◌,
}
use coachman.Message.{StoredMessage}
use coachman.Message.Identity.{pending_prefix, server_id_of, message_server_id, is_confirmed}
use coachman.Message.Merge.{merge_rows, incoming_is_primary, merge_message_entity}

-- The server id of a row is its own id; it is not empty and not a temporary one.
pub server_id_of-inv :
    (a b : Option Bool) (id : String) {x : String}
    → server_id_of a b id ≡ some x
    → (id ≡ x) × (truthy x ≡ true) × (strip pending_prefix x ≡ none)
unfolding server_id_of
server_id_of-inv a b id h = ground arith

-- Cleared flags beside the id that was found give that id again.
server_id_of-cleared :
    (a b : Option Bool) (id : String) {x : String}
    → server_id_of a b id ≡ some x
    → server_id_of (some false) (some false) x ≡ some x
unfolding server_id_of
server_id_of-cleared a b id h = ground arith

-- A further provisional mark does not make a row confirmed.
server_id_of-unconfirmed :
    (a b d : Option Bool) (id : String)
    → server_id_of a b id ≡ none
    → server_id_of (some (is_true a)) (some (is_true b || is_true d)) id ≡ none
unfolding server_id_of
server_id_of-unconfirmed a b d id h = ground arith

module _ (a b c d : Option Bool) (i j : String) where
  abbrev first : Option String
  first = server_id_of a b i

  abbrev second : Option String
  second = server_id_of c d j

  abbrev found : Bool
  found = is_some first || is_some second

  merged_server_id :
      server_id_of
        (some (if found then false else is_true a))
        (some (if found then false else is_true b || is_true d))
        (default i (coalesce first second))
      ≡ coalesce first second
  merged_server_id = elim (Option-cases first) [
    | inr (x, e) ↦ rw e (server_id_of-cleared a b i e)
    | inl e ↦ elim (Option-cases second) [
      | inr (y, f) ↦ rw (e, f) (server_id_of-cleared c d j f)
      | inl f ↦ rw (e, f) (server_id_of-unconfirmed a b d i e)
    ]
  ]

-- The server id of the merged row is that of the primary row, else that of the secondary row.
pub message_server_id-merge_rows :
    (p s : StoredMessage)
    → message_server_id (merge_rows p s) ≡ coalesce (message_server_id p) (message_server_id s)
unfolding merge_rows is_confirmed message_server_id
message_server_id-merge_rows p s =
    merged_server_id p.pending p.provisional s.pending s.provisional p.id s.id

pub is_confirmed-merge_rows :
    (p s : StoredMessage) → is_confirmed (merge_rows p s) ≡ (is_confirmed p || is_confirmed s)
unfolding is_confirmed
is_confirmed-merge_rows p s = rw message_server_id-merge_rows (ground arith)

-- A row whose send is over: no flag of a pending, provisional or failed row is left.
pub record IsSettled (m : StoredMessage) : Type 0 where
  pub pending : m.pending ≡ some false
  pub provisional : m.provisional ≡ some false
  pub failed : m.failed ≡ some false
  pub error : m.error ≡ none

merge_rows-IsSettled :
    (p s : StoredMessage) → is_confirmed p || is_confirmed s ≡ true → IsSettled (merge_rows p s)
unfolding merge_rows
merge_rows-IsSettled p s h = record {
  pending = rw h;
  provisional = rw h;
  failed = rw h;
  error = rw h;
}

-- What is promised of the merged row `m` of two rows, one of them confirmed.
pub record IsConfirmedBy (a b m : StoredMessage) : Type 0 where
  pub origin : (message_server_id a ≡ some m.id) ⊎ (message_server_id b ≡ some m.id)
  pub server : message_server_id m ≡ some m.id
  pub settled : IsSettled m

pub message_server_id-own :
    (m : StoredMessage) {x : String} → message_server_id m ≡ some x → x ≡ m.id
unfolding message_server_id
message_server_id-own m h = sym (server_id_of-inv m.pending m.provisional m.id h).0

merge_rows-IsConfirmedBy :
    (p s : StoredMessage)
    → is_confirmed p || is_confirmed s ≡ true
    → IsConfirmedBy p s (merge_rows p s)
unfolding is_confirmed
merge_rows-IsConfirmedBy p s h = elim (Option-cases (message_server_id p)) [
  | inr (x, e) ↦
      let got : message_server_id (merge_rows p s) ≡ some x =
        message_server_id-merge_rows p s ∙ rw e in
      let own : x ≡ (merge_rows p s).id = message_server_id-own (merge_rows p s) got in
      record {
        origin = inl (e ∙ ap some own);
        server = got ∙ ap some own;
        settled = merge_rows-IsSettled p s h;
      }
  | inl e ↦ elim (Option-cases (message_server_id s)) [
    | inr (y, f) ↦
        let got : message_server_id (merge_rows p s) ≡ some y =
          message_server_id-merge_rows p s ∙ rw e f in
        let own : y ≡ (merge_rows p s).id = message_server_id-own (merge_rows p s) got in
        record {
          origin = inr (f ∙ ap some own);
          server = got ∙ ap some own;
          settled = merge_rows-IsSettled p s h;
        }
    | inl f ↦ absurd (ground arith)
  ]
]

-- The merge is `merge_rows` with one of the two rows as the primary one.
pub merge_message_entity-cases :
    (e i : StoredMessage)
    → (merge_message_entity e i ≡ merge_rows i e) ⊎ (merge_message_entity e i ≡ merge_rows e i)
unfolding merge_message_entity
merge_message_entity-cases e i = elim (Bool-cases (incoming_is_primary e i)) [
  | inl h ↦ inl (rw h)
  | inr h ↦ inr (rw h)
]

-- A merge never loses a confirmation. If either row is confirmed, so is the merged row: its id is
-- the server id of one of the two, and no pending, provisional or failed flag and no error is left.
pub merge_message_entity_confirmed :
    (existing incoming : StoredMessage)
    → is_confirmed existing || is_confirmed incoming ≡ true
    → IsConfirmedBy existing incoming (merge_message_entity existing incoming)
merge_message_entity_confirmed e i h = elim (merge_message_entity-cases e i) [
  | inl q ↦
      let c = merge_rows-IsConfirmedBy i e (ground arith) in
      rw q (record { origin = Sum-swap c.origin; server = c.server; settled = c.settled })
  | inr q ↦ rw q (merge_rows-IsConfirmedBy e i h)
]
