-- ===== src/Calls/Invite.antt =====
-- The invite that a ringing screen is restored from: client/src/lib/pending-call-invite.ts.
-- sessionStorage and the Cache API hold what was written to them. An operation on the cache runs
-- after the call that starts it, so it waits in `waiting`; the operations run in their order, each as
-- one step. `now` is the clock in milliseconds.
pub mod Tomb
pub mod Dismissed
pub mod Lifecycle
use coachman.Common.{
  ℕ, ◌-◌, String, Bool, true, false, ◌&&◌, ◌||◌, not, Option, none, some, List, [], ◌∷◌, ◌++◌,
  lookup, insert, remove, ltb, eqb, truthy, present, default, if◌then◌else◌, ◌==◌,
}

-- `PENDING_CALL_INVITE_TTL_MS`
abbrev pub invite_ttl_ms : ℕ
invite_ttl_ms = 45000

-- `DISMISSED_CALL_TTL_MS`
abbrev pub dismissed_ttl_ms : ℕ
dismissed_ttl_ms = 604800000

pub record PendingCallInvite : Type 0 where
  pub chat_id : String
  pub call_id : String
  pub from_user_id : Option String
  pub saved_at : ℕ

-- A stored text: no JSON, another value with the call id that it has, or an invite.
pub data Stored : Type 0 where
  broken : Stored
  shapeless : Option String → Stored
  invite : PendingCallInvite → Stored

pub data CacheOp : Type 0 where
  put_tombstone : String → ℕ → CacheOp
  put_invite : PendingCallInvite → CacheOp
  delete_invite : Option String → ℕ → CacheOp

pub record Browser : Type 0 where
  -- sessionStorage
  pub session_invite : Option Stored
  pub session_dismissed : List (String × ℕ)
  -- the cache `coachman-pending-call`, which the service worker shares
  pub cache_invite : Option Stored
  pub cache_tombstones : List (String × ℕ)
  pub waiting : List CacheOp

unfoldable pub parse_invite : ℕ → Stored → Option PendingCallInvite
parse_invite now broken = none
parse_invite now (shapeless id) = none
parse_invite now (invite i) = if ltb invite_ttl_ms (now - i.saved_at) then none else some i

-- `object[key] = value`
abbrev pub set_key : String → ℕ → List (String × ℕ) → List (String × ℕ)
set_key key value entries = (key, value) ∷ remove key entries

unfoldable pub read_dismissed : ℕ → List (String × ℕ) → List (String × ℕ)
read_dismissed now [] = []
read_dismissed now ((id, at) ∷ entries) =
    let rest = read_dismissed now entries in
    if ltb (now - at) dismissed_ttl_ms then (id, at) ∷ rest else rest

unfoldable pub mark_call_dismissed : ℕ → String → Browser → Browser
unfolding read_dismissed remove
mark_call_dismissed now call_id b =
    if truthy call_id
    then record b {
      session_dismissed = set_key call_id now (read_dismissed now b.session_dismissed);
      waiting = b.waiting ++ (put_tombstone call_id now ∷ []);
    }
    else b

-- `!!at`
abbrev pub is_time : Option ℕ → Bool
is_time none = false
is_time (some at) = not (eqb at 0)

unfoldable pub is_call_dismissed : ℕ → String → Browser → Bool
unfolding read_dismissed lookup
is_call_dismissed now call_id b =
    truthy call_id && is_time (lookup call_id (read_dismissed now b.session_dismissed))

abbrev pub is_fresh : ℕ → Option ℕ → Bool
is_fresh now none = false
is_fresh now (some at) = ltb (now - at) dismissed_ttl_ms

abbrev pub forget_tombstone : String → Option ℕ → Browser → Browser
forget_tombstone call_id none b = b
forget_tombstone call_id (some at) b = record b {
  cache_tombstones = remove call_id b.cache_tombstones;
}

unfoldable pub is_call_dismissed_async : ℕ → String → Browser → Bool × Browser
unfolding is_call_dismissed lookup remove
is_call_dismissed_async now call_id b =
    if is_call_dismissed now call_id b
    then (true, b)
    else if not (truthy call_id)
    then (false, b)
    else if is_fresh now (lookup call_id b.cache_tombstones)
    then (true, b)
    else (false, forget_tombstone call_id (lookup call_id b.cache_tombstones) b)

unfoldable pub save_pending_call_invite : ℕ → PendingCallInvite → Browser → Browser
unfolding is_call_dismissed
save_pending_call_invite now i b =
    let payload = record i { saved_at = now } in
    if is_call_dismissed now i.call_id b then b else record b {
      session_invite = some (invite payload);
      waiting = b.waiting ++ (put_invite payload ∷ []);
    }

abbrev pub drop_session_invite : Browser → Browser
drop_session_invite b = record b { session_invite = none }

-- What follows the parsing in `loadPendingCallInvite`.
unfoldable pub load_parsed :
    ℕ → Option PendingCallInvite → Browser → Option PendingCallInvite × Browser
unfolding is_call_dismissed
load_parsed now none b = (none, drop_session_invite b)
load_parsed now (some i) b =
    if is_call_dismissed now i.call_id b then (none, drop_session_invite b) else (some i, b)

unfoldable pub load_stored : ℕ → Option Stored → Browser → Option PendingCallInvite × Browser
unfolding load_parsed parse_invite
load_stored now none b = (none, b)
load_stored now (some broken) b = (none, b)
load_stored now (some (shapeless id)) b = load_parsed now none b
load_stored now (some (invite i)) b = load_parsed now (parse_invite now (invite i)) b

unfoldable pub load_pending_call_invite : ℕ → Browser → Option PendingCallInvite × Browser
unfolding load_stored
load_pending_call_invite now b = load_stored now b.session_invite b

-- Whether `clearPendingCallInvite` takes the entry of sessionStorage away.
abbrev pub clears_session : Option String → Stored → Bool
clears_session none stored = true
clears_session (some id) broken = true
clears_session (some id) (shapeless found) =
    not (truthy id) || not (present found) || default "" found == id
clears_session (some id) (invite i) = not (truthy id) || not (truthy i.call_id) || i.call_id == id

abbrev pub cleared : Option String → Option Stored → Option Stored
cleared id none = none
cleared id (some stored) = if clears_session id stored then none else some stored

unfoldable pub clear_pending_call_invite : ℕ → Option String → Browser → Browser
clear_pending_call_invite now id b = record b {
  session_invite = cleared id b.session_invite;
  waiting = b.waiting ++ (delete_invite id now ∷ []);
}

unfoldable pub dismiss_call_invite : ℕ → String → Browser → Browser
unfolding mark_call_dismissed clear_pending_call_invite
dismiss_call_invite now id b =
    if truthy id then clear_pending_call_invite now (some id) (mark_call_dismissed now id b) else b

-- The invite of the cache, when sessionStorage has none.
unfoldable pub load_cached_parsed :
    ℕ → Option PendingCallInvite → Browser → Option PendingCallInvite × Browser
unfolding is_call_dismissed_async
load_cached_parsed now none b = (none, record b { cache_invite = none })
load_cached_parsed now (some i) b =
    let (is_dismissed, b') = is_call_dismissed_async now i.call_id b in
    if is_dismissed
    then (none, record b' { cache_invite = none })
    else (some i, record b' { session_invite = some (invite i) })

unfoldable pub load_cached : ℕ → Option Stored → Browser → Option PendingCallInvite × Browser
unfolding load_cached_parsed parse_invite
load_cached now none b = (none, b)
load_cached now (some broken) b = (none, b)
load_cached now (some (shapeless id)) b = load_cached_parsed now none b
load_cached now (some (invite i)) b = load_cached_parsed now (parse_invite now (invite i)) b

unfoldable pub load_local :
    ℕ → Option PendingCallInvite × Browser → Option PendingCallInvite × Browser
unfolding is_call_dismissed_async clear_pending_call_invite load_cached
load_local now (some i, b) =
    let (is_dismissed, b') = is_call_dismissed_async now i.call_id b in
    if is_dismissed then (none, clear_pending_call_invite now (some i.call_id) b') else (some i, b')
load_local now (none, b) = load_cached now b.cache_invite b

unfoldable pub load_pending_call_invite_async : ℕ → Browser → Option PendingCallInvite × Browser
unfolding load_pending_call_invite load_local
load_pending_call_invite_async now b = load_local now (load_pending_call_invite now b)

-- Whether the deletion finds its invite in the cache.
abbrev pub clears_cache : Option String → ℕ → Option Stored → Bool
clears_cache none now stored = true
clears_cache (some id) now none = false
clears_cache (some id) now (some broken) = not (truthy id)
clears_cache (some id) now (some (shapeless found)) = true
clears_cache (some id) now (some (invite i)) =
    not (truthy id) || ltb invite_ttl_ms (now - i.saved_at) || i.call_id == id

unfoldable pub run_cache_op : CacheOp → Browser → Browser
unfolding remove
run_cache_op (put_tombstone id at) b = record b {
  cache_tombstones = set_key id at b.cache_tombstones;
}
run_cache_op (put_invite i) b = record b { cache_invite = some (invite i) }
run_cache_op (delete_invite id now) b =
    if clears_cache id now b.cache_invite then record b { cache_invite = none } else b

unfoldable pub run_cache_ops : List CacheOp → Browser → Browser
unfolding run_cache_op
run_cache_ops [] b = b
run_cache_ops (op ∷ ops) b = run_cache_ops ops (run_cache_op op b)
