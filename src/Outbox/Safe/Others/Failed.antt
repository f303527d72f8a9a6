-- ===== src/Outbox/Safe/Others/Failed.antt =====
-- A failed attempt touches no other row of the send queue: `fail` of client/src/lib/outbox.ts.
use coachman.Common.{
  ℕ, String, Bool, true, false, ◌&&◌, ◌||◌, not, Option, present, leb, if◌then◌else◌, Bool-cases,
  ◌==◌, ◌≡◌, refl, ap, ◌∙◌, inl, inr,
}
use Prim.Native.String
use coachman.Message.Identity.{is_temp, pending_prefix}
use coachman.Outbox.{
  OutboxItem, OutboxKind, text, image, video, call, list, is_media, is_user_content,
}
use coachman.Outbox.Errors.{
  Thrown, message_of, is_offline_error, is_auth_error, is_forbidden_error, is_retryable_error,
  is_disposable_system_error, is_poison_image_error,
}
use coachman.Outbox.State.{
  Queue, is_text, parked, park, failed_flags, tell_failed, report_outbox_error, mark_bubble,
  mark_image_failed, mark_text_failed, hide_progress,
}
use coachman.Outbox.Deliver.{has_bytes}
use coachman.Outbox.Send.{
  max_send_attempts, count_attempt, counted, mark_failed, drop_bubble, drop_poison_item,
  fail_offline, fail_media, fail_text, fail_send, friendly,
}
use coachman.Outbox.Safe.Failure.{mark_bubble-outbox, report-store}
use coachman.Store.{Database, Local}
use coachman.Store.Messages.Deleted.{delete_message_local-outbox}
use coachman.Store.Messages.{
  delete_message_local, prepare_outbox_for_write, add_outbox_item, remove_outbox_item,
}

module _ (db : Database) (id : String) where
  -- The row under `id`.
  abbrev pub row : Queue db → Option OutboxItem
  row q = db.outbox.get id q.store.outbox

  module _ (item : OutboxItem) (other : (item.id == id) ≡ false) where
    pub add_outbox_item-row :
        (after : OutboxItem) (st : Local db)
        → after.id ≡ item.id
        → db.outbox.get id (add_outbox_item db after st).outbox ≡ db.outbox.get id st.outbox
    unfolding add_outbox_item prepare_outbox_for_write
    add_outbox_item-row after st e =
        db.outbox.get-put id (prepare_outbox_for_write after) st.outbox ∙ rw (e, other) refl

    remove_outbox_item-row :
        (st : Local db)
        → db.outbox.get id (remove_outbox_item db item.id st).outbox ≡ db.outbox.get id st.outbox
    unfolding remove_outbox_item
    remove_outbox_item-row st = db.outbox.get-delete id item.id st.outbox ∙ rw other refl

    tell_failed-row :
        (message : String) (q : Queue db) → row (tell_failed db item message q) ≡ row q
    tell_failed-row message q =
        ap (λ st. db.outbox.get id st.outbox) (report-store db item message false q)

    park-row :
        (keeps : Bool) (now : ℕ) (message : String) (st : Local db)
        → db.outbox.get id (park db keeps now message item st).outbox ≡ db.outbox.get id st.outbox
    park-row true now message st =
        ap (db.outbox.get id)
          (mark_bubble-outbox db (failed_flags message) item item.temp_message_id _)
        ∙ add_outbox_item-row (parked now message item) st refl
    park-row false now message st =
        ap (db.outbox.get id)
          (mark_bubble-outbox db (failed_flags message) item item.temp_message_id st)

    mark_image_failed-row :
        (now : ℕ) (message : String) (q : Queue db)
        → row (mark_image_failed db now item message q) ≡ row q
    unfolding mark_image_failed hide_progress
    mark_image_failed-row now message q =
        tell_failed-row message _ ∙ park-row (is_media item.kind) now message q.store

    text_row :
        (b : Bool) (now : ℕ) (message : String) (st : Local db)
        → db.outbox.get id
            (if b
              then park db true now message item st
              else mark_bubble db
                  (failed_flags message)
                  item
                  item.temp_message_id
                  (remove_outbox_item db item.id st)).outbox
          ≡ db.outbox.get id st.outbox
    text_row true now message st = park-row true now message st
    text_row false now message st =
        ap (db.outbox.get id)
          (mark_bubble-outbox db (failed_flags message) item item.temp_message_id _)
        ∙ remove_outbox_item-row st

    mark_text_failed-row :
        (now : ℕ) (message : String) (q : Queue db)
        → row (mark_text_failed db now item message q) ≡ row q
    unfolding mark_text_failed
    mark_text_failed-row now message q =
        tell_failed-row message _ ∙ text_row (is_text item.kind) now message q.store

    mark_failed-row :
        (now : ℕ) (message : String) (q : Queue db)
        → row (mark_failed db now item message q) ≡ row q
    mark_failed-row now message q = elim (Bool-cases (is_media item.kind)) [
      | inl e ↦ rw e (mark_image_failed-row now message q)
      | inr e ↦ rw e (mark_text_failed-row now message q)
    ]

    drop_bubble-row : (st : Local db) → (drop_bubble db item st).outbox ≡ st.outbox
    unfolding drop_bubble
    drop_bubble-row st = of_kind item.kind
      where
        bare_gone : Local db
        bare_gone = delete_message_local db item.temp_message_id item.chat_id st

        of_temp :
            (b : Bool) (more : Local db)
            → more.outbox ≡ st.outbox
            → (if b then bare_gone else more).outbox ≡ st.outbox
        of_temp true more e = delete_message_local-outbox db item.temp_message_id item.chat_id st
        of_temp false more e = e

        both : Local db
        both =
            delete_message_local db (String.◌++◌ pending_prefix item.temp_message_id) item.chat_id
              bare_gone

        gone : (if is_temp item.temp_message_id then bare_gone else both).outbox ≡ st.outbox
        gone = of_temp (is_temp item.temp_message_id) both (
            delete_message_local-outbox db _ item.chat_id bare_gone
            ∙ delete_message_local-outbox db item.temp_message_id item.chat_id st)

        of_kind :
            (k : OutboxKind)
            → (elim k as (λ x. Local db) [
              | text ↦ st
              | _ ↦ if is_temp item.temp_message_id then bare_gone else both
            ]).outbox
              ≡ st.outbox
        of_kind text = refl
        of_kind call = gone
        of_kind list = gone
        of_kind image = gone
        of_kind video = gone

    drop_poison_item-row : (q : Queue db) → row (drop_poison_item db item q) ≡ row q
    unfolding drop_poison_item hide_progress
    drop_poison_item-row q =
        ap (db.outbox.get id) (drop_bubble-row _) ∙ remove_outbox_item-row q.store

    report-row :
        (message : String) (b : Bool) (q : Queue db)
        → row (report_outbox_error db item message b q) ≡ row q
    report-row message b q =
        ap (λ st. db.outbox.get id st.outbox) (report-store db item message b q)

    fail_offline-row :
        (now : ℕ) (message : String) (q : Queue db)
        → row (fail_offline db now item message q).1 ≡ row q
    unfolding fail_offline
    fail_offline-row now message q = elim (Bool-cases (is_media item.kind)) [
      | inr e ↦ rw e refl
      | inl e ↦ elim (Bool-cases (leb max_send_attempts (count_attempt db item q))) [
        | inl f ↦ rw (e, f) (mark_image_failed-row now message (counted db item q))
        | inr f ↦ rw (e, f) (report-row message true (counted db item q))
      ]
    ]

    fail_text-row :
        (now : ℕ) (message : String) (q : Queue db)
        → row (fail_text db now item message q).1 ≡ row q
    unfolding fail_text
    fail_text-row now message q =
        elim (Bool-cases (leb max_send_attempts (count_attempt db item q))) [
          | inl f ↦ rw f (mark_text_failed-row now message (counted db item q))
          | inr f ↦ rw f (report-row message true (counted db item q))
        ]

    fail_media-row :
        (now : ℕ) (err : Thrown) (q : Queue db) → row (fail_media db now item err q).1 ≡ row q
    unfolding fail_media
    fail_media-row now err q =
        elim (Bool-cases (
          is_poison_image_error err
          && (not (present item.uploaded_image_id) && not (has_bytes item)))) [
            | inl f ↦ rw f (drop_poison_item-row _ ∙ report-row (message_of err) false q)
            | inr f ↦ rw f (mark_image_failed-row now (message_of err) q)
          ]

    pub fail_send-row :
        (now : ℕ) (err : Thrown) (q : Queue db) → row (fail_send db now item err q).1 ≡ row q
    unfolding fail_send
    fail_send-row now err q =
        elim (Bool-cases (
          not (is_user_content item)
          && (is_disposable_system_error err || not (is_retryable_error err)))) [
            | inl poison ↦ rw poison (drop_poison_item-row q)
            | inr poison ↦ elim (Bool-cases (is_offline_error err)) [
              | inl off ↦ rw (poison, off) (fail_offline-row now (message_of err) q)
              | inr off ↦ elim (Bool-cases (is_auth_error err)) [
                | inl auth ↦ rw (poison, off, auth) (report-row (message_of err) true q)
                | inr auth ↦ elim (Bool-cases (is_forbidden_error err && is_user_content item)) [
                  | inl barred ↦
                      rw (poison, off, auth, barred) (mark_failed-row now (friendly db err) q)
                  | inr barred ↦ elim (Bool-cases (is_media item.kind)) [
                    | inl e ↦ rw (poison, off, auth, barred, e) (fail_media-row now err q)
                    | inr e ↦
                        rw (poison, off, auth, barred, e) (fail_text-row now (message_of err) q)
                  ]
                ]
              ]
            ]
          ]
