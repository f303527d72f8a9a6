-- ===== src/Message/Identity/Laws.antt =====
-- When two rows have one identity: `sameMessageIdentity` of client/src/lib/message-identity.ts.
use coachman.Common.{
  String, true, ◌||◌, Option, none, some, truthy, Bool-cases, ◌==◌, ◌≡◌, refl, ◌⊎◌, inl, inr, arith,
  eq_iff, eq_refl, ◌↔◌,
}
use coachman.Message.{StoredMessage}
use coachman.Message.Identity.{message_client_key, same_key, same_message_identity}

-- `k` is the nonempty key of both.
abbrev pub Share : Option String → Option String → Type 0
Share a b = (k : String) × (a ≡ some k) × (b ≡ some k) × (truthy k ≡ true)

pub Share-same_key : {a b : Option String} → Share a b → same_key a b ≡ true
Share-same_key (k, e, f, h) = rw (e, f) (rw (h, eq_refl k))

pub same_key-Share : (a b : Option String) → same_key a b ≡ true → Share a b
same_key-Share none b h = cc
same_key-Share (some a) none h = cc
same_key-Share (some a) (some b) h =
    let e : (a == b) ≡ true = ground arith in
    let t : truthy a ≡ true = ground arith in let q = (eq_iff a b).0 e in (a, refl, rw q, t)

-- What two rows of one identity share.
abbrev pub SameMessage : StoredMessage → StoredMessage → Type 0
SameMessage a b =
    Share (some a.id) (some b.id) ⊎ Share (message_client_key a) (message_client_key b)

-- Two rows have one identity exactly when they share a nonempty id or a nonempty client key.
pub same_message_identity_iff :
    (a b : StoredMessage) → (same_message_identity a b ≡ true) ↔ SameMessage a b
unfolding same_message_identity
same_message_identity_iff a b = (to, from)
  where
    to :
        (same_key (some a.id) (some b.id) || same_key (message_client_key a) (message_client_key b))
          ≡ true
        → SameMessage a b
    to h = elim (Bool-cases (same_key (some a.id) (some b.id))) [
      | inl e ↦ inl (same_key-Share (some a.id) (some b.id) e)
      | inr e ↦ inr (same_key-Share _ _ (rw e at h))
    ]

    from :
        SameMessage a b
        → (same_key (some a.id) (some b.id)
            || same_key (message_client_key a) (message_client_key b))
          ≡ true
    from (inl s) = rw (Share-same_key s)
    from (inr s) = rw (Share-same_key s) (ground arith)
