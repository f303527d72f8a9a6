-- ===== src/Calls/Invite/Tomb.antt =====
-- The tombstone of a dismissed call, and what keeps it: client/src/lib/pending-call-invite.ts.
use coachman.Common.{
  ℕ, ◌+◌, ◌≤◌, ◌<◌, String, Bool, true, false, not, Option, none, some, List, [], ◌∷◌, ◌++◌, lookup,
  lookup-remove, truthy, All, All-append, if◌then◌else◌, Bool-cases, ◌==◌, eq_iff, ◌≡◌, refl, sym,
  ap, ◌∙◌, inl, inr, arith,
}
use mathlib.Core.Option.{some-injective}
use coachman.Calls.Invite.{
  dismissed_ttl_ms, PendingCallInvite, CacheOp, put_tombstone, put_invite, delete_invite, Browser,
  set_key, mark_call_dismissed, is_call_dismissed, is_fresh, forget_tombstone,
  is_call_dismissed_async, save_pending_call_invite, clear_pending_call_invite, dismiss_call_invite,
}

lookup-set_key :
    (k j : String) (v : ℕ) (m : List (String × ℕ))
    → lookup j (set_key k v m) ≡ (if k == j then some v else lookup j m)
unfolding lookup
lookup-set_key k j v m = elim (Bool-cases (k == j)) [
  | inl e ↦ rw e refl
  | inr e ↦ rw e (lookup-remove k j m ∙ rw e refl)
]

module _ (id : String) (t : ℕ) where
  -- The time is not before the dismissal, and less than seven days after it.
  abbrev pub InWindow : ℕ → Type 0
  InWindow now = (t ≤ now) × (now < t + dismissed_ttl_ms)

  -- The entry of the call is there, and is not older than the dismissal.
  abbrev pub Marked : List (String × ℕ) → Type 0
  Marked entries = (at : ℕ) × (lookup id entries ≡ some at) × (t ≤ at)

  -- No operation that waits would write an older entry.
  abbrev pub Fits : CacheOp → Type 0
  Fits (put_tombstone k at) = (k == id) ≡ true → t ≤ at
  Fits (put_invite i) = Unit
  Fits (delete_invite k now) = Unit

  -- The cache has a tombstone of the call.
  pub record IsBuried (b : Browser) : Type 0 where
    pub tombstone : Marked b.cache_tombstones
    pub waiting : All Fits b.waiting

  pub set_key-Marked :
      (k : String) (v : ℕ) (m : List (String × ℕ))
      → ((k == id) ≡ true → t ≤ v)
      → Marked m
      → Marked (set_key k v m)
  set_key-Marked k v m new (at, found, later) = elim (Bool-cases (k == id)) [
    | inl e ↦ (v, lookup-set_key k id v m ∙ rw e refl, new e)
    | inr e ↦ (at, lookup-set_key k id v m ∙ rw e found, later)
  ]

  fresh_while :
      (now : ℕ) (m : List (String × ℕ))
      → InWindow now
      → Marked m
      → is_fresh now (lookup id m) ≡ true
  fresh_while now m w (at, found, later) = rw found (ground arith)

  forget-Marked :
      (now : ℕ) (k : String) (o : Option ℕ) (b : Browser)
      → lookup k b.cache_tombstones ≡ o
      → is_fresh now o ≡ false
      → InWindow now
      → Marked b.cache_tombstones
      → Marked (forget_tombstone k o b).cache_tombstones
  forget-Marked now k none b e stale w m = m
  forget-Marked now k (some old) b e stale w (at, found, later) = elim (Bool-cases (k == id)) [
    | inr other ↦ (at, lookup-remove k id b.cache_tombstones ∙ rw other found, later)
    | inl same ↦
        let e' = ap (λ (key : String). lookup key b.cache_tombstones) ((eq_iff k id).0 same) in
        let is_old : old ≡ at = some-injective _ _ (sym e ∙ e' ∙ found) in absurd (ground arith)
  ]

  forget-waiting :
      (k : String) (o : Option ℕ) (b : Browser) → (forget_tombstone k o b).waiting ≡ b.waiting
  forget-waiting k none b = refl
  forget-waiting k (some at) b = refl

  pub async-IsBuried :
      (now : ℕ) (k : String) (b : Browser)
      → InWindow now
      → IsBuried b
      → IsBuried (is_call_dismissed_async now k b).1
  unfolding is_call_dismissed_async
  async-IsBuried now k b w h =
      let o = lookup k b.cache_tombstones in
      elim (Bool-cases (is_call_dismissed now k b)) [
        | inl e ↦ rw e h
        | inr e ↦ rw e (elim (Bool-cases (not (truthy k))) [
          | inl f ↦ rw f h
          | inr f ↦ rw f (elim (Bool-cases (is_fresh now o)) [
            | inl g ↦ rw g h
            | inr g ↦ rw g (record {
              tombstone = forget-Marked now k o b refl g w h.tombstone;
              waiting = rw (forget-waiting k o b) h.waiting;
            })
          ])
        ])
      ]

  pub async_blocks :
      (now : ℕ) (b : Browser)
      → truthy id ≡ true
      → InWindow now
      → IsBuried b
      → (is_call_dismissed_async now id b).0 ≡ true
  unfolding is_call_dismissed_async
  async_blocks now b named w h = elim (Bool-cases (is_call_dismissed now id b)) [
    | inl e ↦ rw e refl
    | inr e ↦ rw (e, named, fresh_while now b.cache_tombstones w h.tombstone) refl
  ]

  -- An operation that waits behind the others.
  then_waits :
      (op : CacheOp) (b r : Browser)
      → r.cache_tombstones ≡ b.cache_tombstones
      → r.waiting ≡ b.waiting ++ (op ∷ [])
      → Fits op
      → IsBuried b
      → IsBuried r
  then_waits op b r e f fits h = record {
    tombstone = rw e h.tombstone;
    waiting = rw f (All-append Fits b.waiting (op ∷ []) h.waiting (fits, tt));
  }

  pub mark-IsBuried :
      (now : ℕ) (k : String) (b : Browser)
      → InWindow now
      → IsBuried b
      → IsBuried (mark_call_dismissed now k b)
  unfolding mark_call_dismissed
  mark-IsBuried now k b w h = elim (Bool-cases (truthy k)) [
    | inl e ↦ rw e (then_waits (put_tombstone k now) b _ refl refl (λ same. w.0) h)
    | inr e ↦ rw e h
  ]

  pub clear-IsBuried :
      (now : ℕ) (o : Option String) (b : Browser)
      → IsBuried b
      → IsBuried (clear_pending_call_invite now o b)
  unfolding clear_pending_call_invite
  clear-IsBuried now o b h = then_waits (delete_invite o now) b _ refl refl tt h

  pub either-IsBuried :
      (c : Bool) (x y : Browser) → IsBuried x → IsBuried y → IsBuried (if c then x else y)
  either-IsBuried true x y h l = h
  either-IsBuried false x y h l = l

  pub dismiss-IsBuried :
      (now : ℕ) (k : String) (b : Browser)
      → InWindow now
      → IsBuried b
      → IsBuried (dismiss_call_invite now k b)
  unfolding dismiss_call_invite
  dismiss-IsBuried now k b w h =
      either-IsBuried (truthy k) _ b (clear-IsBuried now (some k) _ (mark-IsBuried now k b w h)) h

  pub save-IsBuried :
      (now : ℕ) (i : PendingCallInvite) (b : Browser)
      → IsBuried b
      → IsBuried (save_pending_call_invite now i b)
  unfolding save_pending_call_invite
  save-IsBuried now i b h = elim (Bool-cases (is_call_dismissed now i.call_id b)) [
    | inl e ↦ rw e h
    | inr e ↦ rw e (then_waits (put_invite (record i { saved_at = now })) b _ refl refl tt h)
  ]
