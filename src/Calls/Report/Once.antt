-- ===== src/Calls/Report/Once.antt =====
-- A call is reported once: client/src/lib/call-events.ts.
use Prim.Native.String
use coachman.Common.{
  ℕ, String, Bool, true, Option, none, some, List, [], ◌∷◌, any, filter, In, Bool-cases, eq_refl,
  ◌≡◌, refl, sym, ap, ◌∙◌, inl, inr,
}
use coachman.Message.{StoredMessage}
use coachman.Outbox.Enqueue.{Sender}
use coachman.Store.{Database}
use coachman.Store.Messages.{get_messages, stored}
use coachman.Store.Upsert.Rows.{save_message-get}
use coachman.Calls.Report.{
  CallEventKind, no_answer, rejected, ended, failed, CallEventReport, call_event_payload, kind_name,
  kind_of, CallJson, parse_fields, encode_call_event_payload, parse_call_event_payload, includes,
  message_mentions_call_id, pending_report, is_reported, write_report, post_call_event_message_once,
}

kind_of-kind_name : (kind : CallEventKind) → kind_of (kind_name kind) ≡ some kind
kind_of-kind_name no_answer = refl
kind_of-kind_name rejected = refl
kind_of-kind_name ended = refl
kind_of-kind_name failed = refl

any-In : {A : Type 0} (p : A → Bool) (xs : List A) {x : A} → In x xs → p x ≡ true → any p xs ≡ true
any-In p [] i h = absurd i
any-In p (y ∷ ys) (inl e) h = let h' : p y ≡ true = ap p (sym e) ∙ h in rw h' refl
any-In p (y ∷ ys) (inr i) h = elim (Bool-cases (p y)) [
  | inl e ↦ rw e refl
  | inr e ↦ rw e (any-In p ys i h)
]

In-filter_of :
    {A : Type 0} (p : A → Bool) (xs : List A) {x : A} → In x xs → p x ≡ true → In x (filter p xs)
In-filter_of p [] i h = absurd i
In-filter_of p (y ∷ ys) {x} (inl e) h = let h' : p y ≡ true = ap p (sym e) ∙ h in rw h' (inl e)
In-filter_of p (y ∷ ys) (inr i) h = elim (Bool-cases (p y)) [
  | inl e ↦ rw e (inr (In-filter_of p ys i h))
  | inr e ↦ rw e (In-filter_of p ys i h)
]

module _ (json : CallJson) where
  -- The payload of a report is read back.
  parse-encode :
      (ev : CallEventReport)
      → parse_call_event_payload json (encode_call_event_payload json ev)
        ≡ some (call_event_payload ev)
  unfolding parse_call_event_payload parse_fields encode_call_event_payload
  parse-encode ev =
      rw (json.parse-stringify (call_event_payload ev), parse_fields, kind_of-kind_name) refl

  module _ (db : Database) (user_id username : String) where
    -- The row of a report mentions its call, also where the text does not include the id as it is.
    report_mentions :
        (now : ℕ) (ev : CallEventReport)
        → message_mentions_call_id json ev.call_id
            (stored (pending_report json now ev user_id username))
          ≡ true
    unfolding message_mentions_call_id pending_report stored
    report_mentions now ev =
        elim (Bool-cases (includes (json.stringify (call_event_payload ev)) ev.call_id)) [
          | inl e ↦ rw e refl
          | inr e ↦
              rw
                (
                  e,
                  json.parse-stringify (call_event_payload ev),
                  parse_fields,
                  kind_of-kind_name,
                  eq_refl ev.call_id,
                )
                refl
        ]

    report_row : ℕ → CallEventReport → StoredMessage
    unfolding stored
    report_row now ev = stored (pending_report json now ev user_id username)

    -- The row that was written is among the rows of the chat.
    write_report-In :
        (now : ℕ) (ev : CallEventReport) (ciphertext iv label : String) (s : Sender db)
        → In (report_row now ev) (
            get_messages db ev.chat_id
              (write_report json db user_id username now ev ciphertext iv label s).queue.store)
    unfolding write_report report_row pending_report stored
    write_report-In now ev ciphertext iv label s =
        In-filter_of _ (db.messages.all _)
          ((db.messages.all-get _ _).1 (
            save_message-get db _ _ _ ∙ rw (eq_refl (String.◌++◌ "pending-call-" ev.call_id)) refl))
          (eq_refl ev.chat_id)

    reported_by_row :
        (now : ℕ) (ev : CallEventReport) (ciphertext iv label : String) (s : Sender db)
        → is_reported json db user_id username ev
            (write_report json db user_id username now ev ciphertext iv label s)
          ≡ true
    unfolding report_row
    reported_by_row now ev ciphertext iv label s =
        any-In (message_mentions_call_id json ev.call_id) _
          (write_report-In now ev ciphertext iv label s) (report_mentions now ev)

    reported_after :
        (now : ℕ) (ev : CallEventReport) (encrypted : Option (String × String)) (label : String)
        (s : Sender db)
        → (post_call_event_message_once json db user_id username now ev encrypted label s).0 ≡ true
        → is_reported json db user_id username ev
            (post_call_event_message_once json db user_id username now ev encrypted label s).1
          ≡ true
    unfolding post_call_event_message_once
    reported_after now ev none label s h = h
    reported_after now ev (some (ciphertext, iv)) label s h =
        elim (Bool-cases (is_reported json db user_id username ev s)) [
          | inl e ↦ rw e e
          | inr e ↦ rw e (reported_by_row now ev ciphertext iv label s)
        ]

    -- A report of a call that has been reported changes nothing.
    post_reported :
        (now : ℕ) (ev : CallEventReport) (encrypted : Option (String × String)) (label : String)
        (s : Sender db)
        → is_reported json db user_id username ev s ≡ true
        → post_call_event_message_once json db user_id username now ev encrypted label s ≡ (true, s)
    unfolding post_call_event_message_once
    post_reported now ev none label s h = rw h refl
    post_reported now ev (some (ciphertext, iv)) label s h = rw h refl

    -- After a report that did not fail, a later report of the same call in the same chat, of whatever
    -- kind and whether or not its encryption works, succeeds and changes neither the store nor the send
    -- queue.
    pub post_call_event_message_once-twice :
        (now later : ℕ) (ev again : CallEventReport)
        (encrypted reencrypted : Option (String × String)) (label relabel : String) (s : Sender db)
        → again.call_id ≡ ev.call_id
        → again.chat_id ≡ ev.chat_id
        → (post_call_event_message_once json db user_id username now ev encrypted label s).0 ≡ true
        → post_call_event_message_once json db user_id username later again reencrypted relabel
            (post_call_event_message_once json db user_id username now ev encrypted label s).1
          ≡ (
            true,
            (post_call_event_message_once json db user_id username now ev encrypted label s).1,
          )
    post_call_event_message_once-twice now later ev again encrypted reencrypted label relabel s e f
          h =
        post_reported later again reencrypted relabel _
          (rw (e, f) (reported_after now ev encrypted label s h))
