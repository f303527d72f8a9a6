-- ===== src/Message/Dedupe/Members.antt =====
-- Membership in the groups of `dedupeStoredMessages` (client/src/lib/message-dedupe.ts).
use coachman.Common.{
  ℕ, zero, suc, Bool, true, List, [], ◌∷◌, ◌++◌, length, any, In, Bool-cases, ◌≡◌, ◌⊎◌, refl, ap,
  inl, inr,
}
use coachman.Message.{StoredMessage}
use coachman.Message.Dedupe.Groups.{join_at, holds}

-- The row `x` is in group `i`.
abbrev pub InGroup : StoredMessage → List (List StoredMessage) → ℕ → Type 0
InGroup x [] i = ⊥
InGroup x (g ∷ gs) zero = In x g
InGroup x (g ∷ gs) (suc i) = InGroup x gs i

In-any :
    (p : StoredMessage → Bool) (g : List StoredMessage)
    → any p g ≡ true
    → (x : StoredMessage) × In x g × (p x ≡ true)
In-any p [] h = cc
In-any p (x ∷ g) h = elim (Bool-cases (p x)) [
  | inl e ↦ (x, inl refl, e)
  | inr e ↦ let (y, i, k) = In-any p g (rw e at h) in (y, inr i, k)
]

pub InGroup-holds :
    (p : StoredMessage → Bool) (gs : List (List StoredMessage)) (i : ℕ)
    → holds p gs i ≡ true
    → (x : StoredMessage) × InGroup x gs i × (p x ≡ true)
InGroup-holds p [] i h = cc
InGroup-holds p (g ∷ gs) zero h = In-any p g h
InGroup-holds p (g ∷ gs) (suc i) h = InGroup-holds p gs i h

pub InGroup-join_at :
    (x m : StoredMessage) (gs : List (List StoredMessage)) (i j : ℕ)
    → InGroup x (join_at m i gs) j
    → ((x ≡ m) × (j ≡ i)) ⊎ InGroup x gs j
InGroup-join_at x m [] i j h = absurd h
InGroup-join_at x m (g ∷ gs) zero zero (inl e) = inl (e, refl)
InGroup-join_at x m (g ∷ gs) zero zero (inr h) = inr h
InGroup-join_at x m (g ∷ gs) zero (suc j) h = inr h
InGroup-join_at x m (g ∷ gs) (suc i) zero h = inr h
InGroup-join_at x m (g ∷ gs) (suc i) (suc j) h = elim (InGroup-join_at x m gs i j h) [
  | inl (e, f) ↦ inl (e, ap suc f)
  | inr k ↦ inr k
]

pub InGroup-append :
    (x m : StoredMessage) (gs : List (List StoredMessage)) (j : ℕ)
    → InGroup x (gs ++ (m ∷ []) ∷ []) j
    → ((x ≡ m) × (j ≡ length gs)) ⊎ InGroup x gs j
InGroup-append x m [] zero (inl e) = inl (e, refl)
InGroup-append x m [] zero (inr h) = absurd h
InGroup-append x m [] (suc j) h = absurd h
InGroup-append x m (g ∷ gs) zero h = inr h
InGroup-append x m (g ∷ gs) (suc j) h = elim (InGroup-append x m gs j h) [
  | inl (e, f) ↦ inl (e, ap suc f)
  | inr k ↦ inr k
]
