-- ===== src/Calls/Invite/Lifecycle.antt =====
-- An invite from its arrival to its end, in one session: client/src/lib/pending-call-invite.ts.
use coachman.Common.{
  ℕ, ◌+◌, ◌-◌, ◌≤◌, ◌<◌, String, true, false, none, some, [], ◌∷◌, ◌++◌, ◌∙◌, ltb, truthy,
  Bool-cases, eq_refl, ◌≡◌, refl, inl, inr, arith,
}
use coachman.Calls.Invite.{
  invite_ttl_ms, PendingCallInvite, invite, put_invite, Browser, parse_invite, is_call_dismissed,
  save_pending_call_invite, load_parsed, load_stored, load_pending_call_invite, clears_session,
  cleared, clear_pending_call_invite,
}

abbrev pub saved : ℕ → PendingCallInvite → PendingCallInvite
saved now i = record i { saved_at = now }

-- What is promised of an invite that is saved at `now` and asked for at `later`.
pub record IsRestored (now later : ℕ) (i : PendingCallInvite) (b : Browser) : Type 0 where
  pub ringing :
      is_call_dismissed now i.call_id b ≡ false
      → is_call_dismissed later i.call_id b ≡ false
      → later ≤ now + invite_ttl_ms
      → (load_pending_call_invite later (save_pending_call_invite now i b)).0 ≡ some (saved now i)
  pub expired :
      is_call_dismissed now i.call_id b ≡ false
      → now + invite_ttl_ms < later
      → ((load_pending_call_invite later (save_pending_call_invite now i b)).0 ≡ none)
        × ((load_pending_call_invite later (save_pending_call_invite now i b)).1.session_invite
            ≡ none)
  pub refused : is_call_dismissed now i.call_id b ≡ true → save_pending_call_invite now i b ≡ b
  pub accepted :
      is_call_dismissed now i.call_id b ≡ false
      → ((load_pending_call_invite later
            (clear_pending_call_invite later (some i.call_id) (save_pending_call_invite now i b))).0
          ≡ none)
        × (is_call_dismissed later i.call_id
              (clear_pending_call_invite later (some i.call_id) (save_pending_call_invite now i b))
            ≡ is_call_dismissed later i.call_id b)

clears_itself : (i : PendingCallInvite) → clears_session (some i.call_id) (invite i) ≡ true
clears_itself i = elim (Bool-cases (truthy i.call_id)) [
  | inl e ↦ rw (e, eq_refl i.call_id) refl
  | inr e ↦ rw e refl
]

-- The browser after an invite was saved.
abbrev with_invite : ℕ → PendingCallInvite → Browser → Browser
with_invite now i b = record b {
  session_invite = some (invite (saved now i));
  waiting = b.waiting ++ (put_invite (saved now i) ∷ []);
}

save_lem :
    (now : ℕ) (i : PendingCallInvite) (b : Browser)
    → is_call_dismissed now i.call_id b ≡ false
    → save_pending_call_invite now i b ≡ with_invite now i b
unfolding save_pending_call_invite
save_lem now i b e = rw e refl

-- Whether a call is dismissed depends on the list of dismissed calls alone.
same_dismissed :
    (now : ℕ) (id : String) (b r : Browser)
    → r.session_dismissed ≡ b.session_dismissed
    → is_call_dismissed now id r ≡ is_call_dismissed now id b
unfolding is_call_dismissed
same_dismissed now id b r e = rw e refl

load_saved :
    (now later : ℕ) (i : PendingCallInvite) (b : Browser)
    → is_call_dismissed later i.call_id b ≡ false
    → later ≤ now + invite_ttl_ms
    → (load_pending_call_invite later (with_invite now i b)).0 ≡ some (saved now i)
unfolding load_pending_call_invite load_stored load_parsed parse_invite
load_saved now later i b open_later soon =
    let fresh : ltb invite_ttl_ms (later - now) ≡ false = ground arith in
    let here = same_dismissed later i.call_id b (with_invite now i b) refl ∙ open_later in
    rw (fresh, load_parsed, here) refl

load_late :
    (now later : ℕ) (i : PendingCallInvite) (b : Browser)
    → now + invite_ttl_ms < later
    → ((load_pending_call_invite later (with_invite now i b)).0 ≡ none)
      × ((load_pending_call_invite later (with_invite now i b)).1.session_invite ≡ none)
unfolding load_pending_call_invite load_stored load_parsed parse_invite
load_late now later i b late =
    let stale : ltb invite_ttl_ms (later - now) ≡ true = ground arith in
    rw (stale, load_parsed) (refl, refl)

load_accepted :
    (now later : ℕ) (i : PendingCallInvite) (b : Browser)
    → (load_pending_call_invite later
        (clear_pending_call_invite later (some i.call_id) (with_invite now i b))).0
      ≡ none
unfolding clear_pending_call_invite load_pending_call_invite load_stored
load_accepted now later i b =
    let gone : cleared (some i.call_id) (some (invite (saved now i))) ≡ none =
      rw (clears_itself (saved now i)) refl in
    rw (gone, load_stored) refl

-- An invite that is saved is given back for 45 seconds with the time of its arrival, unless its call is
-- dismissed; later it is not, and the entry is taken away. One of a dismissed call is not saved at all.
-- Accepting the call takes the invite away and does not dismiss the call.
pub save-IsRestored :
    (now later : ℕ) (i : PendingCallInvite) (b : Browser) → IsRestored now later i b
unfolding save_pending_call_invite clear_pending_call_invite
save-IsRestored now later i b = record {
  ringing = λ e open_later soon. rw e (load_saved now later i b open_later soon);
  expired = λ e late. rw e (load_late now later i b late);
  refused = λ e. rw e refl;
  accepted = λ e. rw (save_lem now i b e) (
    load_accepted now later i b,
    same_dismissed later i.call_id b
        (clear_pending_call_invite later (some i.call_id) (with_invite now i b)) refl,
  );
}
