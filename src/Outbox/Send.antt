-- ===== src/Outbox/Send.antt =====
-- One attempt to send an outbox item: `trySendItem` of client/src/lib/outbox.ts.
-- Operations of the store succeed, so the branches for their faults are left out.
pub mod Refused
use Prim.Native.String
use coachman.Common.{
  ℕ, ◌+◌, String, Bool, true, false, ◌&&◌, ◌||◌, not, Option, none, some, [], ◌∷◌, lookup, insert,
  remove, default, present, leb, if◌then◌else◌, ◌⊎◌, inl, inr,
}
use coachman.Message.{RawMessage}
use coachman.Message.Identity.{is_temp, pending_prefix}
use coachman.Outbox.{OutboxItem, text, is_media, is_user_content}
use coachman.Outbox.Errors.{
  Thrown, message_of, has_any, is_offline_error, is_auth_error, is_forbidden_error,
  is_retryable_error, is_disposable_system_error, is_poison_image_error,
}
use coachman.Outbox.State.{
  Queue, report_outbox_error, hide_progress, mark_image_failed, mark_text_failed,
}
use coachman.Outbox.Deliver.{
  Net, has_bytes, deliver_outbox_item, finalize_local_delivery, fail_orphan_pending_messages,
}
use coachman.Store.{Database, Local}
use coachman.Store.Messages.{delete_message_local, remove_outbox_item}

pub data SendAttempt : Type 0 where
  sent retryable dropped : SendAttempt

abbrev pub max_send_attempts : ℕ
max_send_attempts = 4

-- What happens in one attempt: the first delivery; what `onAuthRetry` answers, if it is there; and the
-- delivery after it.
pub record Attempt : Type 0 where
  pub first : Net
  pub auth_retry : Option (Thrown ⊎ Bool)
  pub second : Net

module _ (db : Database) where
  -- The bubble of a system or media item goes with the item.
  unfoldable pub drop_bubble : OutboxItem → Local db → Local db
  drop_bubble item st =
      let bare_gone = delete_message_local db item.temp_message_id item.chat_id st in
      elim item.kind [
        | text ↦ st
        | _ ↦
            if is_temp item.temp_message_id
            then bare_gone
            else delete_message_local db (String.◌++◌ pending_prefix item.temp_message_id)
                item.chat_id bare_gone
      ]

  unfoldable pub drop_poison_item : OutboxItem → Queue db → Queue db
  unfolding drop_bubble hide_progress
  drop_poison_item item q =
      let hidden = hide_progress db item.temp_message_id q in
      record hidden { store = drop_bubble item (remove_outbox_item db item.id hidden.store) }

  -- The attempts of an item so far, and one more.
  abbrev pub count_attempt : OutboxItem → Queue db → ℕ
  count_attempt item q = default 0 (lookup item.temp_message_id q.attempts) + 1

  abbrev pub counted : OutboxItem → Queue db → Queue db
  counted item q = record q {
    attempts = insert item.temp_message_id (count_attempt item q) q.attempts;
  }

  -- `markImageFailed` or `markTextFailed`, by the kind
  abbrev pub mark_failed : ℕ → OutboxItem → String → Queue db → Queue db
  mark_failed now item message q =
      if is_media item.kind
      then mark_image_failed db now item message q
      else mark_text_failed db now item message q

  -- The branch of `fail` for an error that looks offline.
  unfoldable pub fail_offline : ℕ → OutboxItem → String → Queue db → SendAttempt × Queue db
  fail_offline now item message q =
      let q' = counted item q in
      if not (is_media item.kind)
      then (retryable, q)
      else if leb max_send_attempts (count_attempt item q)
      then (dropped, mark_image_failed db now item message q')
      else (retryable, report_outbox_error db item message true q')

  -- The branch for media: without bytes it can never succeed.
  unfoldable pub fail_media : ℕ → OutboxItem → Thrown → Queue db → SendAttempt × Queue db
  fail_media now item err q =
      if is_poison_image_error err && (not (present item.uploaded_image_id) && not (has_bytes item))
      then (dropped, drop_poison_item item (report_outbox_error db item (message_of err) false q))
      else (dropped, mark_image_failed db now item (message_of err) q)

  -- The branch for text: a capped number of attempts.
  unfoldable pub fail_text : ℕ → OutboxItem → String → Queue db → SendAttempt × Queue db
  fail_text now item message q =
      let q' = counted item q in
      if leb max_send_attempts (count_attempt item q)
      then (dropped, mark_text_failed db now item message q')
      else (retryable, report_outbox_error db item message true q')

  abbrev pub friendly : Thrown → String
  friendly err =
      if has_any ("forbidden" ∷ []) (message_of err)
      then "Нет доступа к чату. Обновите список чатов."
      else message_of err

  -- The function `fail`, at the time `now`.
  unfoldable pub fail_send : ℕ → OutboxItem → Thrown → Queue db → SendAttempt × Queue db
  unfolding fail_offline fail_media fail_text
  fail_send now item err q =
      let message = message_of err in
      if not (is_user_content item)
        && (is_disposable_system_error err || not (is_retryable_error err))
      then (dropped, drop_poison_item item q)
      else if is_offline_error err
      then fail_offline now item message q
      else if is_auth_error err
      then (retryable, report_outbox_error db item message true q)
      else if is_forbidden_error err && is_user_content item
      then (dropped, mark_failed now item (friendly err) q)
      else if is_media item.kind
      then fail_media now item err q
      else fail_text now item message q

  -- The local delivery; if it throws, bubbles that nothing will send any more are marked failed.
  unfoldable pub finalized : OutboxItem → RawMessage → Queue db → Queue db
  finalized item msg q = elim (finalize_local_delivery db item msg q.store) [
    | some after ↦ record q { store = after }
    | none ↦ fail_orphan_pending_messages db q
  ]

  -- After the acknowledgement: only now the item leaves the queue.
  unfoldable pub acknowledge : OutboxItem → RawMessage → Queue db → Queue db
  unfolding finalized hide_progress
  acknowledge item msg q =
      let removed : Queue db = record q { store = remove_outbox_item db item.id q.store } in
      let done = hide_progress db item.temp_message_id (finalized item msg removed) in
      record done { attempts = remove item.temp_message_id done.attempts; sent = msg ∷ done.sent }

  -- The end of an attempt, for the answer of its last delivery.
  unfoldable pub finish : ℕ → (Thrown ⊎ RawMessage) × OutboxItem × Queue db → SendAttempt × Queue db
  finish now (inr msg, item, q) = (sent, acknowledge item msg q)
  finish now (inl err, item, q) = fail_send now item err q

  -- The second delivery, if the token could be refreshed.
  unfoldable pub after_refresh :
      ℕ → OutboxItem → Net → Thrown → Thrown ⊎ Bool → Queue db → SendAttempt × Queue db
  unfolding finish
  after_refresh now item net err (inl refresh_err) q = fail_send now item refresh_err q
  after_refresh now item net err (inr false) q = fail_send now item err q
  after_refresh now item net err (inr true) q = finish now (deliver_outbox_item db item net q)

  -- After a first delivery that threw `err`: a refusal of the token is answered by `onAuthRetry`.
  unfoldable pub after_failure :
      ℕ → OutboxItem → Net → Thrown → Option (Thrown ⊎ Bool) → Queue db → SendAttempt × Queue db
  unfolding after_refresh
  after_failure now item net err none q = fail_send now item err q
  after_failure now item net err (some refreshed) q =
      if is_auth_error err
      then after_refresh now item net err refreshed q
      else fail_send now item err q

  unfoldable pub after_first :
      ℕ → Attempt → (Thrown ⊎ RawMessage) × OutboxItem × Queue db → SendAttempt × Queue db
  unfolding after_failure finish
  after_first now attempt (inr msg, item, q) = finish now (inr msg, item, q)
  after_first now attempt (inl err, item, q) =
      after_failure now item attempt.second err attempt.auth_retry q

  unfoldable pub try_send_item : ℕ → Attempt → OutboxItem → Queue db → SendAttempt × Queue db
  unfolding after_first
  try_send_item now attempt item q =
      after_first now attempt (deliver_outbox_item db item attempt.first q)
