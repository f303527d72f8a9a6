-- ===== src/Outbox/Send/Refused.antt =====
-- A text that the server keeps refusing: client/src/lib/outbox.ts.
use coachman.Common.{
  ℕ, ◌+◌, ◌<◌, String, Bool, true, false, none, some, any, lookup, lookup-insert_self, default, leb,
  Bool-cases, ◌==◌, eq_refl, ◌≡◌, refl, ap, ◌∙◌, inl, inr, arith,
}
use coachman.Outbox.{OutboxItem, is_media, is_active, is_user_content}
use coachman.Outbox.Errors.{Thrown, message_of, is_offline_error, is_auth_error, is_forbidden_error}
use coachman.Outbox.State.{
  Queue, parked, failed_flags, report_key, report_outbox_error, mark_text_failed,
}
use coachman.Outbox.Safe.Failure.{text_kind, mark_bubble-outbox, report-store}
use coachman.Outbox.Send.{
  retryable, dropped, max_send_attempts, count_attempt, counted, fail_text, fail_send,
}
use coachman.Store.{Database}
use coachman.Store.Messages.{add_outbox_item, prepare_outbox_for_write}

-- An error that neither looks offline nor concerns the token or the access to the chat.
pub record IsRefusal (err : Thrown) : Type 0 where
  pub online : is_offline_error err ≡ false
  pub token : is_auth_error err ≡ false
  pub access : is_forbidden_error err ≡ false

module _ (db : Database) (now : ℕ) (item : OutboxItem) (m : is_media item.kind ≡ false)
    (u : is_user_content item ≡ true) where
  fail_send-refusal :
      (err : Thrown) (q : Queue db)
      → IsRefusal err
      → fail_send db now item err q ≡ fail_text db now item (message_of err) q
  unfolding fail_send
  fail_send-refusal err q r = rw (u, r.online, r.token, r.access, m) refl

  -- The failures of the item that are counted.
  abbrev failures : Queue db → ℕ
  failures q = default 0 (lookup item.temp_message_id q.attempts)

  report-attempts :
      (message : String) (b : Bool) (q : Queue db)
      → (report_outbox_error db item message b q).attempts ≡ q.attempts
  unfolding report_outbox_error
  report-attempts message b q =
      elim (Bool-cases (any (λ k. k == report_key item message b) q.reported)) [
        | inl e ↦ rw e
        | inr e ↦ rw e
      ]

  -- The first three refusals leave the item in the queue, and are counted.
  refused_early :
      (err : Thrown) (q : Queue db)
      → IsRefusal err
      → failures q < 3
      → ((fail_send db now item err q).0 ≡ retryable)
        × (failures (fail_send db now item err q).1 ≡ failures q + 1)
  unfolding fail_text
  refused_early err q r h =
      let e : leb max_send_attempts (count_attempt db item q) ≡ false = ground arith in
      rw (fail_send-refusal err q r) (
        rw e (
          refl,
          rw (report-attempts (message_of err) true (counted db item q))
              (rw (lookup-insert_self item.temp_message_id (count_attempt db item q) q.attempts)),
        ))

  -- The item is in the queue, but `flushOutbox` passes it over.
  pub IsParked : Queue db → Type 0
  IsParked q =
      (row : OutboxItem) × (db.outbox.get item.id q.store.outbox ≡ some row)
      × (is_active row ≡ false)

  mark_text_failed-IsParked :
      (message : String) (q : Queue db)
      → 0 < now
      → IsParked (mark_text_failed db now item message q)
  unfolding mark_text_failed is_user_content IsParked add_outbox_item prepare_outbox_for_write
      is_active
  mark_text_failed-IsParked message q positive =
      let p : OutboxItem = parked now message item in
      let written = add_outbox_item db p q.store in
      rw (text_kind item.kind m u) (
        rw report-store (
          prepare_outbox_for_write p,
          ap (db.outbox.get item.id)
                (mark_bubble-outbox db (failed_flags message) item item.temp_message_id written)
              ∙ (db.outbox.get-put item.id (prepare_outbox_for_write p) q.store.outbox
                  ∙ rw (eq_refl item.id)),
          ground arith,
        ))

  refused_late :
      (err : Thrown) (q : Queue db)
      → IsRefusal err
      → failures q ≡ 3
      → 0 < now
      → ((fail_send db now item err q).0 ≡ dropped) × IsParked (fail_send db now item err q).1
  unfolding fail_text
  refused_late err q r h positive =
      let e : leb max_send_attempts (count_attempt db item q) ≡ true = ground arith in
      rw (fail_send-refusal err q r)
        (rw e (refl, mark_text_failed-IsParked (message_of err) (counted db item q) positive))

  -- A text that is not counted as failed yet, and is refused four times by errors that neither look
  -- offline nor concern the token or the access to the chat: after each of the first three attempts
  -- it is to be retried, and the fourth ends with `dropped` and parks it. The time is not 0.
  pub refused_four_times :
      (e1 e2 e3 e4 : Thrown) (q : Queue db)
      → IsRefusal e1
      → IsRefusal e2
      → IsRefusal e3
      → IsRefusal e4
      → lookup item.temp_message_id q.attempts ≡ none
      → 0 < now
      → let first = fail_send db now item e1 q in
        let second = fail_send db now item e2 first.1 in
        let third = fail_send db now item e3 second.1 in
        let fourth = fail_send db now item e4 third.1 in
        (first.0 ≡ retryable)
        × (second.0 ≡ retryable)
        × (third.0 ≡ retryable)
        × (fourth.0 ≡ dropped)
        × IsParked fourth.1
  refused_four_times e1 e2 e3 e4 q r1 r2 r3 r4 new positive =
      let first = fail_send db now item e1 q in
      let second = fail_send db now item e2 first.1 in
      let third = fail_send db now item e3 second.1 in
      let none_yet : failures q ≡ 0 = rw new in
      let (a, n) = refused_early e1 q r1 (omega arith) in
      let (b, k) = refused_early e2 first.1 r2 (omega arith) in
      let (c, l) = refused_early e3 second.1 r3 (omega arith) in
      let (d, p) = refused_late e4 third.1 r4 (omega arith) positive in (a, b, c, d, p)
