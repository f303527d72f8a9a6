-- ===== src/Tests/Calls.antt =====
-- Invites and reports of a call: client/src/lib/pending-call-invite.ts and call-events.ts.
use Prim.Native.Char.{code}
use coachman.Common.{
  ℕ, zero, suc, ◌+◌, String, Bool, true, Option, none, some, List, [], ◌∷◌, lookup, remove, eqb,
  if◌then◌else◌, ◌≡◌, refl, ap, ◌∙◌, arith,
}
use coachman.Calls.Invite.{
  PendingCallInvite, invite, Browser, read_dismissed, mark_call_dismissed, is_call_dismissed,
  dismiss_call_invite, clear_pending_call_invite, run_cache_op, run_cache_ops,
  save_pending_call_invite, load_pending_call_invite, load_stored, load_parsed, parse_invite,
  load_pending_call_invite_async, load_local, load_cached, load_cached_parsed,
  is_call_dismissed_async,
}
use coachman.Calls.Invite.Tomb.{IsBuried}
use coachman.Calls.Invite.Dismissed.{
  Event, starts, pushes, run, happens, Silent, dismissed_stays-Silent,
}
use coachman.Calls.Invite.Lifecycle.{IsRestored, save-IsRestored}
use coachman.Calls.Report.{
  CallEventKind, CallEventReport, CallEventPayload, JsonFields, fields, CallJson,
  post_call_event_message_once, format_call_duration,
}
use coachman.Calls.Report.Once.{post_call_event_message_once-twice}
use coachman.Outbox.Enqueue.{Sender}
use coachman.Tests.Outbox.{memory, queue}

abbrev empty_browser : Browser
empty_browser = record {
  session_invite = none;
  session_dismissed = [];
  cache_invite = none;
  cache_tombstones = [];
  waiting = [];
}

abbrev ring : PendingCallInvite
ring = record { chat_id = "c"; call_id = "k1"; from_user_id = some "peer"; saved_at = 0 }

unfoldable browsing : Unit {0}
unfolding save_pending_call_invite load_pending_call_invite load_stored load_parsed parse_invite
    is_call_dismissed read_dismissed mark_call_dismissed dismiss_call_invite
    clear_pending_call_invite run_cache_ops run_cache_op load_pending_call_invite_async load_local
    load_cached load_cached_parsed is_call_dismissed_async lookup remove run happens
browsing = tt

rings_again :
    (load_pending_call_invite 1040000 (save_pending_call_invite 1000000 ring empty_browser)).0
    ≡ some (record ring { saved_at = 1000000 })
unfolding browsing
rings_again = refl

save-IsRestored_example : IsRestored 1000000 1040000 ring empty_browser
save-IsRestored_example = save-IsRestored 1000000 1040000 ring empty_browser

-- The call is dismissed, and its tombstone is written.
abbrev after_dismissal : Browser
after_dismissal =
    let b = dismiss_call_invite 1000000 "k1" empty_browser in
    run_cache_ops b.waiting (record b { waiting = [] })

after_dismissal-IsBuried : IsBuried "k1" 1000000 after_dismissal
unfolding browsing
after_dismissal-IsBuried = record { tombstone = (1000000, refl, omega arith); waiting = tt }

-- A cold start, and a late push of the same call.
abbrev stale_push : List (ℕ × Event)
stale_push =
    (1010000, starts) ∷ (1020000, pushes (invite (record ring { saved_at = 1020000 }))) ∷ []

nothing_rings : (load_pending_call_invite_async 1021000 (run stale_push after_dismissal)).0 ≡ none
unfolding browsing
nothing_rings = refl

dismissed_stays-Silent_example :
    Silent "k1" 1000000 (load_pending_call_invite_async 1021000 (run stale_push after_dismissal))
dismissed_stays-Silent_example =
    dismissed_stays-Silent "k1" 1000000 1021000 stale_push after_dismissal refl
      after_dismissal-IsBuried (omega arith) (omega arith)

-- A text form of payloads that can be read back: a letter, the seconds in ones, and the id.
ones : ℕ → String → String
ones zero rest = String.◌∷◌ "." rest
ones (suc n) rest = String.◌∷◌ "1" (ones n rest)

written_seconds : Option ℕ → String → String
unfolding ones
written_seconds none rest = String.◌∷◌ "-" rest
written_seconds (some n) rest = ones n rest

read_ones : ℕ → String → Option (Option ℕ × String)
read_ones n String.[] = none
read_ones n (String.◌∷◌ c rest) =
    let more = read_ones (suc n) rest in
    if eqb (code c) b'1'
    then more
    else if eqb (code c) b'.'
    then some (some n, rest)
    else some (none, rest)

read_ones-ones :
    (k n m : ℕ) (rest : String) → k + n ≡ m → read_ones k (ones n rest) ≡ some (some m, rest)
unfolding read_ones ones
read_ones-ones k zero m rest e = let e' : k ≡ m = omega arith in rw e' refl
read_ones-ones k (suc n) m rest e = read_ones-ones (suc k) n m rest (omega arith)

read_ones-written :
    (sec : Option ℕ) (rest : String) → read_ones 0 (written_seconds sec rest) ≡ some (sec, rest)
unfolding read_ones written_seconds
read_ones-written none rest = refl
read_ones-written (some n) rest = read_ones-ones 0 n n rest (omega arith)

abbrev fields_of : CallEventKind → Option (Option ℕ × String) → Option JsonFields
fields_of kind none = none
fields_of kind (some (sec, id)) =
    some (fields (record { kind = kind; call_id = id; duration_sec = sec }))

kind_letter : CallEventKind → String → String
kind_letter CallEventKind.no_answer rest = String.◌∷◌ "n" rest
kind_letter CallEventKind.rejected rest = String.◌∷◌ "r" rest
kind_letter CallEventKind.ended rest = String.◌∷◌ "e" rest
kind_letter CallEventKind.failed rest = String.◌∷◌ "f" rest

read_payload : String → Option JsonFields
unfolding read_ones
read_payload String.[] = none
read_payload (String.◌∷◌ c rest) =
    if eqb (code c) b'n'
    then fields_of CallEventKind.no_answer (read_ones 0 rest)
    else if eqb (code c) b'r'
    then fields_of CallEventKind.rejected (read_ones 0 rest)
    else if eqb (code c) b'e'
    then fields_of CallEventKind.ended (read_ones 0 rest)
    else fields_of CallEventKind.failed (read_ones 0 rest)

read_payload-letter :
    (kind : CallEventKind) (rest : String)
    → read_payload (kind_letter kind rest) ≡ fields_of kind (read_ones 0 rest)
unfolding read_payload kind_letter
read_payload-letter CallEventKind.no_answer rest = refl
read_payload-letter CallEventKind.rejected rest = refl
read_payload-letter CallEventKind.ended rest = refl
read_payload-letter CallEventKind.failed rest = refl

read_payload-written :
    (p : CallEventPayload)
    → read_payload (kind_letter p.kind (written_seconds p.duration_sec p.call_id)) ≡ some (fields p)
read_payload-written p =
    read_payload-letter p.kind _
    ∙ ap (fields_of p.kind) (read_ones-written p.duration_sec p.call_id)

abbrev toy_json : CallJson
toy_json = record {
  stringify = λ p. kind_letter p.kind (written_seconds p.duration_sec p.call_id);
  parse = read_payload;
  parse-stringify = read_payload-written;
}

abbrev sender : Sender memory
sender = record {
  queue = queue;
  message_state = record { retry_attempt = 0; cooldown_until = 0; retry_timer = none };
  image_state = record { retry_attempt = 0; cooldown_until = 0; retry_timer = none };
}

abbrev hung_up : CallEventReport
hung_up = record {
  chat_id = "c";
  call_id = "k1";
  kind = CallEventKind.ended;
  duration_sec = some 3;
}

abbrev first_report : Bool × Sender memory
first_report =
    post_call_event_message_once toy_json memory "me" "Я" 100 hung_up (some ("cipher", "iv"))
      "звонок" sender

post_call_event_message_once-twice_example :
    post_call_event_message_once toy_json memory "me" "Я" 200
      (record hung_up { kind = CallEventKind.failed; duration_sec = none })
      none
      "сбой"
      first_report.1
    ≡ (true, first_report.1)
unfolding post_call_event_message_once
post_call_event_message_once-twice_example =
    post_call_event_message_once-twice toy_json memory "me" "Я" 100 200 hung_up
      (record hung_up { kind = CallEventKind.failed; duration_sec = none }) (some ("cipher", "iv"))
      none "звонок" "сбой" sender refl refl refl

an_hour : format_call_duration 3725 ≡ record { hours = some 1; minutes = 2; seconds = 5 }
unfolding format_call_duration
an_hour = refl
