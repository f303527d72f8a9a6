-- ===== src/History/Cursor.antt =====
-- The cursor of the catch-up request: `catchUpAfterSequence` of client/src/lib/chat-history-sync.ts.
use coachman.Common.{
  ℕ, ◌≤◌, ◌<◌, true, false, List, [], ◌∷◌, length, All, All-imp, In, All-In, default, ltb,
  Bool-cases, ◌≡◌, inl, inr, arith,
}
use coachman.Message.{StoredMessage}
use coachman.History.{
  keep_min, keep_max, is_decrypt_placeholder, sequences, max_from, max_message_sequence, min_from,
  min_message_sequence, failed_rows, catch_up_after_sequence,
}

-- `r` is the least positive number of the list, if it has one.
abbrev Least : ℕ → List ℕ → Type 0
Least r = All (λ s. 0 < s → (0 < r) × (r ≤ s))

keep_min-le :
    (m s : ℕ)
    → (0 < m → (0 < keep_min m s) × (keep_min m s ≤ m))
      × (0 < s → (0 < keep_min m s) × (keep_min m s ≤ s))
unfolding keep_min
keep_min-le m s = (λ h. ground arith, λ h. ground arith)

keep_max-le : (m s : ℕ) → (m ≤ keep_max m s) × (s ≤ keep_max m s)
unfolding keep_max
keep_max-le m s = ground arith

min_from-Least :
    (m : ℕ) (seqs : List ℕ)
    → (0 < m → (0 < min_from m seqs) × (min_from m seqs ≤ m)) × Least (min_from m seqs) seqs
unfolding min_from
min_from-Least m [] = (λ h. (h, omega arith), tt)
min_from-Least m (s ∷ seqs) =
    let (old, new) = keep_min-le m s in
    let (first, rest) = min_from-Least (keep_min m s) seqs in
    (
      λ h. let (p, q) = old h in let (r, t) = first p in (r, omega arith),
      (λ h. let (p, q) = new h in let (r, t) = first p in (r, omega arith), rest),
    )

max_from-le : (m : ℕ) (seqs : List ℕ) → (m ≤ max_from m seqs) × All (λ s. s ≤ max_from m seqs) seqs
unfolding max_from
max_from-le m [] = (omega arith, tt)
max_from-le m (s ∷ seqs) =
    let (old, new) = keep_max-le m s in
    let (first, rest) = max_from-le (keep_max m s) seqs in (omega arith, (omega arith, rest))

All-sequences :
    (P : ℕ → Type 0) (ms : List StoredMessage)
    → All P (sequences ms)
    → All (λ m. P (default 0 m.sequence)) ms
All-sequences P [] h = tt
All-sequences P (m ∷ ms) h = (h.0, All-sequences P ms h.1)

All-failed :
    (P : StoredMessage → Type 0) (ms : List StoredMessage)
    → All P (failed_rows ms)
    → All (λ m. is_decrypt_placeholder m.text ≡ true → P m) ms
All-failed P [] h = tt
All-failed P (m ∷ ms) h = elim (Bool-cases (is_decrypt_placeholder m.text)) [
  | inl e ↦ let k = rw e at h in (λ _. k.0, All-failed P ms k.1)
  | inr e ↦ (λ f. cc, All-failed P ms (rw e at h))
]

All-of_empty :
    (P : StoredMessage → Type 0) (ms : List StoredMessage) → ltb 0 (length ms) ≡ false → All P ms
All-of_empty P [] h = tt
All-of_empty P (m ∷ ms) h = absurd (ground arith)

catch_up-lt :
    (cached : List StoredMessage) (s : ℕ)
    → ltb 0 (length (failed_rows cached)) ≡ true
    → 0 < min_message_sequence (sequences (failed_rows cached))
    → min_message_sequence (sequences (failed_rows cached)) ≤ s
    → catch_up_after_sequence cached < s
unfolding catch_up_after_sequence
catch_up-lt cached s some_failed positive least = rw some_failed (ground arith)

before_failed :
    (cached : List StoredMessage)
    → All
        (λ m.
          is_decrypt_placeholder m.text ≡ true
          → 0 < default 0 m.sequence
          → catch_up_after_sequence cached < default 0 m.sequence)
        cached
unfolding min_message_sequence
before_failed cached =
    All-failed _ cached (elim (Bool-cases (ltb 0 (length (failed_rows cached)))) [
      | inr h ↦ All-of_empty _ (failed_rows cached) h
      | inl h ↦
          All-imp _ _ (λ m k p. let (q, r) = k p in catch_up-lt cached _ h q r) (failed_rows cached)
            (All-sequences (λ s. 0 < s → (0 < first) × (first ≤ s)) (failed_rows cached)
              (min_from-Least 0 (sequences (failed_rows cached))).1)
    ])
  where
    first : ℕ
    first = min_message_sequence (sequences (failed_rows cached))

-- The catch-up request starts before every failed envelope: the cursor is below the sequence of each
-- cached row that shows a decrypt placeholder and has a sequence, so the row is fetched again.
pub catch_up-before_failed :
    (cached : List StoredMessage) (m : StoredMessage)
    → In m cached
    → is_decrypt_placeholder m.text ≡ true
    → 0 < default 0 m.sequence
    → catch_up_after_sequence cached < default 0 m.sequence
catch_up-before_failed cached m i = All-In _ cached (before_failed cached) i

-- Without failed envelopes the request asks for what is newer than every cached row.
catch_up-after_all :
    (cached : List StoredMessage) (m : StoredMessage)
    → In m cached
    → failed_rows cached ≡ []
    → default 0 m.sequence ≤ catch_up_after_sequence cached
unfolding catch_up_after_sequence max_message_sequence
catch_up-after_all cached m i h = rw h (
    All-In (λ x. default 0 x.sequence ≤ max_from 0 (sequences cached)) cached
      (All-sequences _ cached (max_from-le 0 (sequences cached)).1) i)
