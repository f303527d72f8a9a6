-- ===== src/Calls/Invite/Dismissed.antt =====
-- A call that was dismissed does not ring again: client/src/lib/pending-call-invite.ts.
use coachman.Common.{
  ℕ, String, true, false, Option, none, some, List, [], ◌∷◌, truthy, All, Bool-cases, ◌==◌, eq_iff,
  ◌≡◌, refl, sym, ap, ◌∙◌, inl, inr,
}
use coachman.Calls.Invite.{
  PendingCallInvite, Stored, broken, shapeless, invite, CacheOp, put_tombstone, put_invite,
  delete_invite, Browser, parse_invite, is_call_dismissed, is_call_dismissed_async,
  save_pending_call_invite, load_parsed, load_stored, load_pending_call_invite,
  clear_pending_call_invite, dismiss_call_invite, load_cached_parsed, load_cached, load_local,
  load_pending_call_invite_async, clears_cache, run_cache_op,
}
use coachman.Calls.Invite.Tomb.{
  InWindow, Fits, IsBuried, set_key-Marked, async-IsBuried, async_blocks, clear-IsBuried,
  dismiss-IsBuried, save-IsBuried, either-IsBuried,
}

-- What may happen in the browser: the calls of the module, a cold start, which empties
-- sessionStorage, a write of the service worker, and an operation of the cache that runs.
pub data Event : Type 0 where
  saves : PendingCallInvite → Event
  dismisses : String → Event
  clears : Option String → Event
  loads loads_async starts : Event
  pushes : Stored → Event
  caches : Event

abbrev run_first : List CacheOp → Browser → Browser
run_first [] b = b
run_first (op ∷ ops) b = run_cache_op op (record b { waiting = ops })

unfoldable pub happens : ℕ → Event → Browser → Browser
happens now (saves i) b = save_pending_call_invite now i b
happens now (dismisses id) b = dismiss_call_invite now id b
happens now (clears id) b = clear_pending_call_invite now id b
happens now loads b = (load_pending_call_invite now b).1
happens now loads_async b = (load_pending_call_invite_async now b).1
happens now starts b = record b { session_invite = none; session_dismissed = []; waiting = [] }
happens now (pushes stored) b = record b { cache_invite = some stored }
happens now caches b = run_first b.waiting b

unfoldable pub run : List (ℕ × Event) → Browser → Browser
unfolding happens
run [] b = b
run ((now, event) ∷ events) b = run events (happens now event b)

module _ (id : String) (t : ℕ) where
  -- What a load leaves in the cache is what it finds there.
  load_parsed-IsBuried :
      (now : ℕ) (o : Option PendingCallInvite) (b : Browser)
      → IsBuried id t b
      → IsBuried id t (load_parsed now o b).1
  unfolding load_parsed
  load_parsed-IsBuried now none b h = record { tombstone = h.tombstone; waiting = h.waiting }
  load_parsed-IsBuried now (some i) b h = elim (Bool-cases (is_call_dismissed now i.call_id b)) [
    | inl e ↦ rw e (record { tombstone = h.tombstone; waiting = h.waiting })
    | inr e ↦ rw e h
  ]

  load-IsBuried :
      (now : ℕ) (o : Option Stored) (b : Browser)
      → IsBuried id t b
      → IsBuried id t (load_stored now o b).1
  unfolding load_stored
  load-IsBuried now none b h = h
  load-IsBuried now (some broken) b h = h
  load-IsBuried now (some (shapeless k)) b h = load_parsed-IsBuried now none b h
  load-IsBuried now (some (invite i)) b h =
      load_parsed-IsBuried now (parse_invite now (invite i)) b h

  -- An invite that is given is not of the call, and the tombstone stays.
  abbrev pub Silent : Option PendingCallInvite × Browser → Type 0
  Silent (none, b) = IsBuried id t b
  Silent (some i, b) = IsBuried id t b × ((i.call_id == id) ≡ false)

  module _ (named : truthy id ≡ true) where
    other_call :
        (now : ℕ) (i : PendingCallInvite) (b : Browser)
        → InWindow id t now
        → IsBuried id t b
        → (is_call_dismissed_async now i.call_id b).0 ≡ false
        → (i.call_id == id) ≡ false
    other_call now i b w h silent = elim (Bool-cases (i.call_id == id)) [
      | inr e ↦ e
      | inl e ↦
          let same = (eq_iff i.call_id id).0 e in
          let blocked =
            ap (λ (key : String). (is_call_dismissed_async now key b).0) same
            ∙ async_blocks id t now b named w h in
          let clash = sym silent ∙ blocked in cc
    ]

    load_cached_parsed-Silent :
        (now : ℕ) (o : Option PendingCallInvite) (b : Browser)
        → InWindow id t now
        → IsBuried id t b
        → Silent (load_cached_parsed now o b)
    unfolding load_cached_parsed
    load_cached_parsed-Silent now none b w h = record {
      tombstone = h.tombstone;
      waiting = h.waiting;
    }
    load_cached_parsed-Silent now (some i) b w h =
        let h' = async-IsBuried id t now i.call_id b w h in
        elim (Bool-cases (is_call_dismissed_async now i.call_id b).0) [
          | inl e ↦ rw e (record { tombstone = h'.tombstone; waiting = h'.waiting })
          | inr e ↦
              rw e (
                record { tombstone = h'.tombstone; waiting = h'.waiting },
                other_call now i b w h e,
              )
        ]

    load_cached-Silent :
        (now : ℕ) (o : Option Stored) (b : Browser)
        → InWindow id t now
        → IsBuried id t b
        → Silent (load_cached now o b)
    unfolding load_cached
    load_cached-Silent now none b w h = h
    load_cached-Silent now (some broken) b w h = h
    load_cached-Silent now (some (shapeless k)) b w h = load_cached_parsed-Silent now none b w h
    load_cached-Silent now (some (invite i)) b w h =
        load_cached_parsed-Silent now (parse_invite now (invite i)) b w h

    load_local-Silent :
        (now : ℕ) (x : Option PendingCallInvite × Browser)
        → InWindow id t now
        → IsBuried id t x.1
        → Silent (load_local now x)
    unfolding load_local
    load_local-Silent now (none, b) w h = load_cached-Silent now b.cache_invite b w h
    load_local-Silent now (some i, b) w h =
        let h' = async-IsBuried id t now i.call_id b w h in
        elim (Bool-cases (is_call_dismissed_async now i.call_id b).0) [
          | inl e ↦ rw e (clear-IsBuried id t now (some i.call_id) _ h')
          | inr e ↦ rw e (h', other_call now i b w h e)
        ]

    load_async-Silent :
        (now : ℕ) (b : Browser)
        → InWindow id t now
        → IsBuried id t b
        → Silent (load_pending_call_invite_async now b)
    unfolding load_pending_call_invite_async load_pending_call_invite
    load_async-Silent now b w h =
        load_local-Silent now (load_stored now b.session_invite b) w
          (load-IsBuried now b.session_invite b h)

    Silent-IsBuried : (x : Option PendingCallInvite × Browser) → Silent x → IsBuried id t x.1
    Silent-IsBuried (none, b) h = h
    Silent-IsBuried (some i, b) h = h.0

    run_cache_op-IsBuried :
        (op : CacheOp) (b : Browser)
        → Fits id t op
        → IsBuried id t b
        → IsBuried id t (run_cache_op op b)
    unfolding run_cache_op
    run_cache_op-IsBuried (put_tombstone k at) b fits h = record {
      tombstone = set_key-Marked id t k at b.cache_tombstones fits h.tombstone;
      waiting = h.waiting;
    }
    run_cache_op-IsBuried (put_invite i) b fits h = record {
      tombstone = h.tombstone;
      waiting = h.waiting;
    }
    run_cache_op-IsBuried (delete_invite k now) b fits h =
        either-IsBuried id t (clears_cache k now b.cache_invite) _ b
          (record { tombstone = h.tombstone; waiting = h.waiting }) h

    run_first-IsBuried :
        (ops : List CacheOp) (b : Browser)
        → b.waiting ≡ ops
        → IsBuried id t b
        → IsBuried id t (run_first ops b)
    run_first-IsBuried [] b e h = h
    run_first-IsBuried (op ∷ ops) b e h =
        let waiting : All (Fits id t) (op ∷ ops) = rw e at h.waiting in
        run_cache_op-IsBuried op (record b { waiting = ops }) waiting.0
          (record { tombstone = h.tombstone; waiting = waiting.1 })

    happens-IsBuried :
        (now : ℕ) (event : Event) (b : Browser)
        → InWindow id t now
        → IsBuried id t b
        → IsBuried id t (happens now event b)
    unfolding happens load_pending_call_invite
    happens-IsBuried now (saves i) b w h = save-IsBuried id t now i b h
    happens-IsBuried now (dismisses k) b w h = dismiss-IsBuried id t now k b w h
    happens-IsBuried now (clears o) b w h = clear-IsBuried id t now o b h
    happens-IsBuried now loads b w h = load-IsBuried now b.session_invite b h
    happens-IsBuried now loads_async b w h = Silent-IsBuried _ (load_async-Silent now b w h)
    happens-IsBuried now starts b w h = record { tombstone = h.tombstone; waiting = tt }
    happens-IsBuried now (pushes stored) b w h = record {
      tombstone = h.tombstone;
      waiting = h.waiting;
    }
    happens-IsBuried now caches b w h = run_first-IsBuried b.waiting b refl h

    run-IsBuried :
        (events : List (ℕ × Event)) (b : Browser)
        → All (λ (e : ℕ × Event). InWindow id t e.0) events
        → IsBuried id t b
        → IsBuried id t (run events b)
    unfolding run
    run-IsBuried [] b w h = h
    run-IsBuried ((now, event) ∷ events) b (first, rest) h =
        run-IsBuried events (happens now event b) rest (happens-IsBuried now event b first h)

-- For seven days after a call was dismissed and its tombstone was written, no invite of that call is
-- restored, whatever happens in between: other calls, invites that arrive again, cold starts that empty
-- sessionStorage, and late writes of the service worker.
pub dismissed_stays-Silent :
    (id : String) (t now : ℕ) (events : List (ℕ × Event)) (b : Browser)
    → truthy id ≡ true
    → IsBuried id t b
    → All (λ (e : ℕ × Event). InWindow id t e.0) events
    → InWindow id t now
    → Silent id t (load_pending_call_invite_async now (run events b))
dismissed_stays-Silent id t now events b named buried times w =
    load_async-Silent id t named now (run events b) w
      (run-IsBuried id t named events b times buried)
