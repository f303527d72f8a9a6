-- ===== src/Message/Merge/Fields.antt =====
-- The operators that join two fields of a merge absorb what they have joined:
-- `mergeMessageEntity` of client/src/lib/message-identity.ts.
use coachman.Common.{
  String, true, false, ◌||◌, Option, none, some, present, or_opt, coalesce, ◌≡◌, refl, sym, ap, ◌∙◌,
  arith, Bool-cases, eq_refl, inl, inr,
}
use coachman.Message.{MessageType}
use coachman.Message.Merge.{is_unreadable_text, prefer_readable_text}
use coachman.Message.Unchanged.{same_opt_text, same_opt_type}

-- Each operator that joins two fields absorbs either of its arguments.
pub coalesce-left {ℓ} : {A : Type ℓ} (a b : Option A) → coalesce a (coalesce a b) ≡ coalesce a b
coalesce-left a b = ground arith

pub coalesce-right {ℓ} : {A : Type ℓ} (a b : Option A) → coalesce (coalesce a b) b ≡ coalesce a b
coalesce-right a b = ground arith

pub coalesce-again {ℓ} : {A : Type ℓ} (a b : Option A) → coalesce (coalesce a b) a ≡ coalesce a b
coalesce-again a b = ground arith

pub or_opt-left : (a b : Option String) → or_opt a (or_opt a b) ≡ or_opt a b
or_opt-left a b = ground arith

pub or_opt-right : (a b : Option String) → or_opt (or_opt a b) b ≡ or_opt a b
or_opt-right a b = ground arith

pub prefer-left :
    (a b : String) → prefer_readable_text a (prefer_readable_text a b) ≡ prefer_readable_text a b
unfolding prefer_readable_text
prefer-left a b = ground arith

pub prefer-right :
    (a b : String) → prefer_readable_text (prefer_readable_text a b) b ≡ prefer_readable_text a b
unfolding prefer_readable_text is_unreadable_text
prefer-right a b = ground arith

pub prefer-again :
    (a b : String) → prefer_readable_text (prefer_readable_text a b) a ≡ prefer_readable_text a b
unfolding prefer_readable_text is_unreadable_text
prefer-again a b = ground arith

-- `r` is what is made of `a` and `b`. Making it again out of `r` and one of them gives `r`.
pub or_opt_again : (a b : Option String) → same_opt_text (or_opt a b) (or_opt (or_opt a b) a) ≡ true
or_opt_again none none = refl
or_opt_again none (some y) = ground (arith, eq_refl y)
or_opt_again (some x) none = ground (arith, eq_refl x)
or_opt_again (some x) (some y) = ground (arith, eq_refl x, eq_refl y)

pub same_opt_text_refl : (a : Option String) → same_opt_text a a ≡ true
same_opt_text_refl none = refl
same_opt_text_refl (some x) = ground (arith, eq_refl x)

pub same_opt_text_of_eq : {a b : Option String} → a ≡ b → same_opt_text a b ≡ true
same_opt_text_of_eq {a} e = rw (← e) (same_opt_text_refl a)

pub same_opt_type_refl : (a : Option MessageType) → same_opt_type a a ≡ true
same_opt_type_refl a = ground arith

pub same_opt_text_of_cases :
    (c d : Option String)
    → (present c ≡ true → c ≡ d)
    → (present c ≡ false → present d ≡ false)
    → same_opt_text c d ≡ true
same_opt_text_of_cases c d there away = elim (Bool-cases (present c)) [
  | inl h ↦ same_opt_text_of_eq (there h)
  | inr h ↦ let k = away h in ground arith
]

pub present-or_opt : (a b : Option String) → present (or_opt a b) ≡ (present a || present b)
present-or_opt a b = ground arith

pub or_opt_of_present : (a b : Option String) → present a ≡ true → a ≡ or_opt a b
or_opt_of_present a b h = rw h

-- The joined client id of two rows `a`, `b` with the keys `c`, `d`.
abbrev pub join : (a b c d : Option String) → Option String
join a b c d = or_opt a (or_opt b (or_opt c d))

pub present-join :
    (a b c d : Option String)
    → present (join a b c d) ≡ (present a || (present b || (present c || present d)))
present-join a b c d = simp present-or_opt

module _ (a b c d m : Option String)
    (away : present (join a b c d) ≡ false → present m ≡ false) where
  pub parts :
      present (join a b c d) ≡ false
      → (present a || (present b || (present c || present d))) ≡ false
  parts h = sym (present-join a b c d) ∙ h

  pub join-left : same_opt_text (join a b c d) (join a (join a b c d) c m) ≡ true
  join-left =
      same_opt_text_of_cases (join a b c d) _
        (λ h. sym (or_opt-left a _) ∙ ap (or_opt a) (or_opt_of_present (join a b c d) _ h))
        (λ h.
          let k = away h in
          let q = parts h in present-join a (join a b c d) c m ∙ rw h (ground arith))

  pub join-right : same_opt_text (join a b c d) (join (join a b c d) b m d) ≡ true
  join-right = same_opt_text_of_cases (join a b c d) _ (or_opt_of_present (join a b c d) _) (λ h.
      let k = away h in let q = parts h in present-join (join a b c d) b m d ∙ rw h (ground arith))

  pub join-again : same_opt_text (join a b c d) (join (join a b c d) a m c) ≡ true
  join-again = same_opt_text_of_cases (join a b c d) _ (or_opt_of_present (join a b c d) _) (λ h.
      let k = away h in let q = parts h in present-join (join a b c d) a m c ∙ rw h (ground arith))
