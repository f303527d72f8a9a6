-- ===== src/Message/Merge/Keys.antt =====
-- The identity of a merged row: `mergeMessageEntity` of client/src/lib/message-identity.ts.
use coachman.Common.{
  String, true, ◌||◌, Option, none, some, truthy, present, strip, Bool-cases, Sum-swap,
  Option-cases, ◌≡◌, refl, ap, ◌∙◌, ◌⊎◌, inl, inr, arith,
}
use coachman.Message.{StoredMessage}
use coachman.Message.Identity.{
  pending_prefix, bare, message_server_id, client_key_of, message_client_key, same_message_identity,
}
use mathlib.Core.Option.{some-injective}
use coachman.Message.Identity.Laws.{same_message_identity_iff}
use coachman.Message.Merge.{merge_rows, merge_message_entity}
use coachman.Message.Merge.Confirm.{message_server_id-own, merge_message_entity-cases}
use coachman.Message.Merge.Fields.{join, present-join}
use coachman.Message.Merge.Again.{no_client_id}

-- A client key that is not itself a temporary id.
abbrev pub IsPlainKey : Option String → Type 0
IsPlainKey o = (k : String) → o ≡ some k → strip pending_prefix k ≡ none

-- A nonempty client id decides the client key alone.
client_key_of-present :
    (i j : String) (c : Option String) → present c ≡ true → client_key_of i c ≡ client_key_of j c
unfolding client_key_of
client_key_of-present i j none h = cc
client_key_of-present i j (some c) h = rw h

client_key_of_plain :
    (i : String) (c : Option String) → present c ≡ true → IsPlainKey c → client_key_of i c ≡ c
unfolding client_key_of bare
client_key_of_plain i none h plain = cc
client_key_of_plain i (some c) h plain = rw (h, plain c refl)

module _ (id ip is : String) (a b : Option String) where
  abbrev kp : Option String
  kp = client_key_of ip a

  abbrev ks : Option String
  ks = client_key_of is b

  join_key :
      present (join a b kp ks) ≡ true
      → IsPlainKey kp
      → IsPlainKey ks
      → (client_key_of id (join a b kp ks) ≡ kp) ⊎ (client_key_of id (join a b kp ks) ≡ ks)
  join_key h plain_p plain_s = elim (Bool-cases (present a)) [
    | inl pa ↦ inl (rw pa (client_key_of-present id ip a pa))
    | inr na ↦ elim (Bool-cases (present b)) [
      | inl pb ↦ inr (rw (na, pb) (client_key_of-present id is b pb))
      | inr nb ↦ elim (Bool-cases (present kp)) [
        | inl pk ↦ inl (rw (na, nb, pk) (client_key_of_plain id kp pk plain_p))
        | inr nk ↦ inr (rw (na, nb, nk) (client_key_of_plain id ks (rw (na, nb, nk) at h) plain_s))
      ]
    ]
  ]

module _ (p s : StoredMessage) where
  id-merge_rows : ((merge_rows p s).id ≡ p.id) ⊎ ((merge_rows p s).id ≡ s.id)
  unfolding merge_rows
  id-merge_rows = elim (Option-cases (message_server_id p)) [
    | inr (x, e) ↦ inl (rw e (message_server_id-own p e))
    | inl e ↦ elim (Option-cases (message_server_id s)) [
      | inr (y, f) ↦ inr (rw (e, f) (message_server_id-own s f))
      | inl f ↦ inl (rw (e, f))
    ]
  ]

  key-merge_rows :
      IsPlainKey (message_client_key p)
      → IsPlainKey (message_client_key s)
      → present (message_client_key (merge_rows p s)) ≡ true
      → (message_client_key (merge_rows p s) ≡ message_client_key p)
        ⊎ (message_client_key (merge_rows p s) ≡ message_client_key s)
  unfolding merge_rows message_client_key
  key-merge_rows plain_p plain_s h = elim (Bool-cases (present (merge_rows p s).client_id)) [
    | inl there ↦
        join_key (merge_rows p s).id p.id s.id p.client_id s.client_id there plain_p plain_s
    | inr away ↦ let k = no_client_id p s away in cc
  ]

  -- Rows that share a client key give it to the merged row.
  shared_key-merge_rows :
      (k : String)
      → IsPlainKey (message_client_key p)
      → message_client_key p ≡ some k
      → message_client_key s ≡ some k
      → truthy k ≡ true
      → message_client_key (merge_rows p s) ≡ some k
  unfolding merge_rows message_client_key
  shared_key-merge_rows k plain f g h =
      let there : present
            (join p.client_id s.client_id (message_client_key p) (message_client_key s))
          ≡ true =
        present-join p.client_id s.client_id (message_client_key p) (message_client_key s)
        ∙ present_of_key in
      elim (join_key (merge_rows p s).id p.id s.id p.client_id s.client_id there plain
        (rw (g, ← f) plain)) [ inl e ↦ e ∙ f | inr e ↦ e ∙ g ]
    where
      pk : present (message_client_key p) ≡ true
      pk = rw f h

      present_of_key :
          (present p.client_id
            || (present s.client_id
                || (present (message_client_key p) || present (message_client_key s))))
          ≡ true
      present_of_key = ground (arith, pk)

module _ (e i : StoredMessage) where
  pub merge_message_entity-id :
      ((merge_message_entity e i).id ≡ e.id) ⊎ ((merge_message_entity e i).id ≡ i.id)
  merge_message_entity-id = elim (merge_message_entity-cases e i) [
    | inl q ↦ rw q (Sum-swap (id-merge_rows i e))
    | inr q ↦ rw q (id-merge_rows e i)
  ]

  pub merge_message_entity-key :
      IsPlainKey (message_client_key e)
      → IsPlainKey (message_client_key i)
      → present (message_client_key (merge_message_entity e i)) ≡ true
      → (message_client_key (merge_message_entity e i) ≡ message_client_key e)
        ⊎ (message_client_key (merge_message_entity e i) ≡ message_client_key i)
  merge_message_entity-key plain_e plain_i h = elim (merge_message_entity-cases e i) [
    | inl q ↦ rw q (Sum-swap (key-merge_rows i e plain_i plain_e (rw q at h)))
    | inr q ↦ rw q (key-merge_rows e i plain_e plain_i (rw q at h))
  ]

  shared_key :
      (k : String)
      → IsPlainKey (message_client_key e)
      → message_client_key e ≡ some k
      → message_client_key i ≡ some k
      → truthy k ≡ true
      → message_client_key (merge_message_entity e i) ≡ some k
  shared_key k plain f g h = elim (merge_message_entity-cases e i) [
    | inl q ↦ rw q (shared_key-merge_rows i e k (rw (g, ← f) plain) g f h)
    | inr q ↦ rw q (shared_key-merge_rows e i k plain f g h)
  ]

  -- The merged row has the identity of both rows that it was made of, if they had one identity and
  -- their client keys are not themselves temporary ids.
  pub same_message_identity-merge :
      same_message_identity e i ≡ true
      → IsPlainKey (message_client_key e)
      → (same_message_identity (merge_message_entity e i) e ≡ true)
        × (same_message_identity (merge_message_entity e i) i ≡ true)
  same_message_identity-merge h plain = elim ((same_message_identity_iff e i).0 h) [
    | inl (x, f, g, t) ↦
        let id : (merge_message_entity e i).id ≡ x = elim merge_message_entity-id [
          | inl q ↦ q ∙ some-injective _ _ f
          | inr q ↦ q ∙ some-injective _ _ g
        ] in
        (
          (same_message_identity_iff _ e).1 (inl (x, ap some id, f, t)),
          (same_message_identity_iff _ i).1 (inl (x, ap some id, g, t)),
        )
    | inr (k, f, g, t) ↦
        let key = shared_key k plain f g t in
        (
          (same_message_identity_iff _ e).1 (inr (k, key, f, t)),
          (same_message_identity_iff _ i).1 (inr (k, key, g, t)),
        )
  ]
