-- ===== src/Notified/Laws.antt =====
-- What is kept of the notified chats: client/src/lib/notified-chats.ts.
use coachman.Common.{
  ℕ, zero, suc, ◌-◌, ◌≤◌, ◌<◌, String, Bool, true, false, not, some, List, [], ◌∷◌, map, filter,
  take, length, length-filter-le, ltb, truthy, All, All-filter, In, Bool-cases, ◌==◌, ◌≡◌, refl, ap,
  inl, inr, sym, ◌∙◌, arith,
}
use coachman.Notified.{
  max_entries, ttl_ms, Entry, entry, Storage, entry_of, read_items, read_entries, write_entries,
  remember_notified_chat,
}

-- No chat is named twice.
abbrev pub Distinct : List Entry → Type 0
Distinct [] = Unit
Distinct (e ∷ es) = All (λ (f : Entry). (f.id == e.id) ≡ false) es × Distinct es

module _ (P : Entry → Type 0) where
  All-take : (n : ℕ) (es : List Entry) → All P es → All P (take n es)
  All-take zero es h = tt
  All-take (suc n) [] h = tt
  All-take (suc n) (e ∷ es) (first, rest) = (first, All-take n es rest)

Distinct-filter : (p : Entry → Bool) (es : List Entry) → Distinct es → Distinct (filter p es)
Distinct-filter p [] h = tt
Distinct-filter p (e ∷ es) (first, rest) = elim (Bool-cases (p e)) [
  | inl t ↦ rw t (All-filter _ p es first, Distinct-filter p es rest)
  | inr t ↦ rw t (Distinct-filter p es rest)
]

Distinct-take : (n : ℕ) (es : List Entry) → Distinct es → Distinct (take n es)
Distinct-take zero es h = tt
Distinct-take (suc n) [] h = tt
Distinct-take (suc n) (e ∷ es) (first, rest) = (All-take _ n es first, Distinct-take n es rest)

others_differ :
    (id : String) (es : List Entry)
    → All (λ (f : Entry). (f.id == id) ≡ false) (filter (λ (e : Entry). not (e.id == id)) es)
others_differ id [] = tt
others_differ id (e ∷ es) = elim (Bool-cases (e.id == id)) [
  | inl t ↦ rw t (others_differ id es)
  | inr t ↦ rw t (t, others_differ id es)
]

length-take-le : (n : ℕ) (es : List Entry) → length (take n es) ≤ n
length-take-le zero es = omega arith
length-take-le (suc n) [] = omega arith
length-take-le (suc n) (e ∷ es) = omega (arith, length-take-le n es)

-- Reading what was written leaves out what is too old.
read_items-entry :
    (now : ℕ) (es : List Entry)
    → read_items now (map entry es) ≡ filter (λ (e : Entry). ltb (now - e.at) ttl_ms) es
unfolding read_items entry_of
read_items-entry now [] = refl
read_items-entry now (e ∷ es) = rw (read_items-entry now es) refl

In-keep :
    (p : Entry → Bool) (es : List Entry) (e : Entry) → In e es → p e ≡ true → In e (filter p es)
In-keep p [] e i h = absurd i
In-keep p (f ∷ es) e (inl same) h = let h' : p f ≡ true = ap p (sym same) ∙ h in rw h' (inl same)
In-keep p (f ∷ es) e (inr i) h = elim (Bool-cases (p f)) [
  | inl t ↦ rw t (inr (In-keep p es e i h))
  | inr t ↦ rw t (In-keep p es e i h)
]

In-take : (n : ℕ) (es : List Entry) (e : Entry) → length es ≤ n → In e es → In e (take n es)
In-take n [] e h i = absurd i
In-take zero (f ∷ es) e h i = absurd (omega arith)
In-take (suc n) (f ∷ es) e h (inl same) = inl same
In-take (suc n) (f ∷ es) e h (inr i) = inr (In-take n es e (omega arith) i)

-- What the storage holds, and what a push of `chat_id` at `now` makes of it.
pub record IsRemembered (now : ℕ) (chat_id : String) (st : Storage) : Type 0 where
  pub entries : List Entry
  pub written : remember_notified_chat now chat_id st ≡ some (map entry entries)
  pub few : length entries ≤ max_entries
  pub others : List Entry
  pub first : entries ≡ record { id = chat_id; at = now } ∷ others
  pub kept :
      (e : Entry)
      → In e (read_entries now st)
      → (e.id == chat_id) ≡ false
      → length (read_entries now st) < max_entries
      → In e others
  pub peeked :
      (later : ℕ)
      → read_entries later (remember_notified_chat now chat_id st)
        ≡ filter (λ (e : Entry). ltb (later - e.at) ttl_ms) entries
  pub distinct : Distinct (read_entries now st) → Distinct entries

-- After a push of a chat the storage has at most thirty entries, and the chat is the first; a later read
-- gives those that are less than 48 hours old. As long as there is room, every other chat that was read
-- before is kept with its time, and no chat is named twice if none was.
pub remember_notified_chat-IsRemembered :
    (now : ℕ) (chat_id : String) (st : Storage)
    → truthy chat_id ≡ true
    → IsRemembered now chat_id st
unfolding remember_notified_chat write_entries read_entries
remember_notified_chat-IsRemembered now chat_id st named =
    let rest = filter (λ (e : Entry). not (e.id == chat_id)) (read_entries now st) in
    let this : Entry = record { id = chat_id; at = now } in
    record {
      entries = take 30 (this ∷ rest);
      written = rw named refl;
      few = length-take-le 30 (this ∷ rest);
      others = take 29 rest;
      first = refl;
      kept = λ e i differs room.
          In-take 29 rest e
            (omega (
              arith,
              length-filter-le (λ (e : Entry). not (e.id == chat_id)) (read_entries now st),
            ))
            (In-keep _ (read_entries now st) e i (rw differs refl));
      peeked = λ later. rw named (read_items-entry later (take 30 (this ∷ rest)));
      distinct = λ d.
          Distinct-take 30 (this ∷ rest) (
            others_differ chat_id (read_entries now st),
            Distinct-filter _ (read_entries now st) d,
          );
    }
