-- ===== src/Message/Dedupe/Groups.antt =====
-- The rows that each result row of `dedupeStoredMessages` (client/src/lib/message-dedupe.ts) was
-- made of, kept beside the result as a list of groups.
use mathlib.Core.List.{Perm, perm_middle}
use mathlib.Core.List.Perm
use coachman.Common.{
  ℕ, zero, suc, Bool, true, false, List, [], ◌∷◌, ◌++◌, length, modify, any, ◌≡◌, refl, ap, arith,
}
use coachman.Message.{StoredMessage}
use coachman.Message.Identity.{same_message_identity}
use coachman.Message.Merge.{merge_message_entity}
use coachman.Message.Dedupe.{prefer_at}

-- `r` is the merge of the rows of the group, the latest first: each row that joins the group has
-- the identity of a row that is in it.
pub data MergeOf : StoredMessage → List StoredMessage → Type 0 where
  alone : (m : StoredMessage) → MergeOf m (m ∷ [])
  joined :
      {r : StoredMessage} {g : List StoredMessage} (m : StoredMessage)
      → MergeOf r g
      → any (λ x. same_message_identity x m) g ≡ true
      → MergeOf (merge_message_entity r m) (m ∷ g)

abbrev pub AllMergeOf : List StoredMessage → List (List StoredMessage) → Type 0
AllMergeOf [] [] = Unit
AllMergeOf [] (g ∷ gs) = ⊥
AllMergeOf (r ∷ rs) [] = ⊥
AllMergeOf (r ∷ rs) (g ∷ gs) = MergeOf r g × AllMergeOf rs gs

abbrev pub concat : List (List StoredMessage) → List StoredMessage
concat [] = []
concat (g ∷ gs) = g ++ concat gs

-- The row `m` joins group `i`.
abbrev pub join_at : StoredMessage → ℕ → List (List StoredMessage) → List (List StoredMessage)
join_at m i gs = modify gs i (◌∷◌ m)

-- Whether group `i` is there and has a row with the property.
abbrev pub holds : (StoredMessage → Bool) → List (List StoredMessage) → ℕ → Bool
holds p [] i = false
holds p (g ∷ gs) zero = any p g
holds p (g ∷ gs) (suc i) = holds p gs i

module _ (p : StoredMessage → Bool) (m : StoredMessage) where
  pub holds-join_at :
      (gs : List (List StoredMessage)) (i j : ℕ)
      → holds p gs i ≡ true
      → holds p (join_at m j gs) i ≡ true
  holds-join_at [] i j h = h
  holds-join_at (g ∷ gs) zero zero h = ground arith
  holds-join_at (g ∷ gs) zero (suc j) h = h
  holds-join_at (g ∷ gs) (suc i) zero h = h
  holds-join_at (g ∷ gs) (suc i) (suc j) h = holds-join_at gs i j h

  pub holds-join_at_self :
      (q : StoredMessage → Bool) (gs : List (List StoredMessage)) (i : ℕ)
      → holds q gs i ≡ true
      → p m ≡ true
      → holds p (join_at m i gs) i ≡ true
  holds-join_at_self q [] i h k = cc
  holds-join_at_self q (g ∷ gs) zero h k = rw k
  holds-join_at_self q (g ∷ gs) (suc i) h k = holds-join_at_self q gs i h k

  pub holds-append :
      (gs : List (List StoredMessage)) (g : List StoredMessage) (i : ℕ)
      → holds p gs i ≡ true
      → holds p (gs ++ g ∷ []) i ≡ true
  holds-append [] g i h = cc
  holds-append (f ∷ gs) g zero h = h
  holds-append (f ∷ gs) g (suc i) h = holds-append gs g i h

  pub holds-append_self :
      (gs : List (List StoredMessage))
      → p m ≡ true
      → holds p (gs ++ (m ∷ []) ∷ []) (length gs) ≡ true
  holds-append_self [] k = rw k
  holds-append_self (f ∷ gs) k = holds-append_self gs k

pub AllMergeOf-join_at :
    (m : StoredMessage) (rs : List StoredMessage) (gs : List (List StoredMessage)) (i : ℕ)
    → AllMergeOf rs gs
    → holds (λ x. same_message_identity x m) gs i ≡ true
    → AllMergeOf (prefer_at m i rs) (join_at m i gs)
AllMergeOf-join_at m rs [] i a h = cc
AllMergeOf-join_at m [] (g ∷ gs) i a h = absurd a
AllMergeOf-join_at m (r ∷ rs) (g ∷ gs) zero a h = (joined m a.0 h, a.1)
AllMergeOf-join_at m (r ∷ rs) (g ∷ gs) (suc i) a h = (a.0, AllMergeOf-join_at m rs gs i a.1 h)

pub AllMergeOf-append :
    (m : StoredMessage) (rs : List StoredMessage) (gs : List (List StoredMessage))
    → AllMergeOf rs gs
    → AllMergeOf (rs ++ m ∷ []) (gs ++ (m ∷ []) ∷ [])
AllMergeOf-append m [] [] a = (alone m, tt)
AllMergeOf-append m [] (g ∷ gs) a = absurd a
AllMergeOf-append m (r ∷ rs) [] a = absurd a
AllMergeOf-append m (r ∷ rs) (g ∷ gs) a = (a.0, AllMergeOf-append m rs gs a.1)

pub AllMergeOf-length :
    (rs : List StoredMessage) (gs : List (List StoredMessage))
    → AllMergeOf rs gs
    → length rs ≡ length gs
AllMergeOf-length [] [] a = refl
AllMergeOf-length [] (g ∷ gs) a = absurd a
AllMergeOf-length (r ∷ rs) [] a = absurd a
AllMergeOf-length (r ∷ rs) (g ∷ gs) a = ap suc (AllMergeOf-length rs gs a.1)

pub concat-join_at-perm :
    (p : StoredMessage → Bool) (m : StoredMessage) (gs : List (List StoredMessage)) (i : ℕ)
    → holds p gs i ≡ true
    → Perm (concat (join_at m i gs)) (m ∷ concat gs)
concat-join_at-perm p m [] i h = cc
concat-join_at-perm p m (g ∷ gs) zero h = Perm.refl _
concat-join_at-perm p m (g ∷ gs) (suc i) h =
    Perm.trans (Perm.append (Perm.refl g) (concat-join_at-perm p m gs i h))
      (perm_middle g (concat gs))

pub concat-append-perm :
    (m : StoredMessage) (gs : List (List StoredMessage))
    → Perm (concat (gs ++ (m ∷ []) ∷ [])) (m ∷ concat gs)
concat-append-perm m [] = Perm.refl (m ∷ [])
concat-append-perm m (g ∷ gs) =
    Perm.trans (Perm.append (Perm.refl g) (concat-append-perm m gs)) (perm_middle g (concat gs))
