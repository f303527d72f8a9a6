-- ===== src/Tests/Lanes.antt =====
-- The lanes of the send queue, and what puts items into it: outbox.ts and storage.ts of
-- client/src/lib.
use Prim.Native.String
use coachman.Common.{ℕ, true, false, none, some, [], ◌∷◌, strip, ◌≡◌, refl, arith}
use coachman.Message.Identity.{pending_prefix}
use coachman.Outbox.{OutboxItem, image, outbox_client_id}
use coachman.Outbox.Send.{Attempt}
use coachman.Outbox.Safe.Failure.{Queued}
use coachman.Outbox.Lanes.Settled.{IsSettled, flush_lane_queue-IsSettled}
use coachman.Outbox.Lanes.{message_lane, flush_lane_queue, Lane}
use coachman.Outbox.Lanes.Backoff.{IsArmed, Reached, Reached-IsArmed}
use coachman.Outbox.Enqueue.{Sender, text_item, enqueue_outbox, retry_found}
use coachman.Outbox.Enqueue.Identity.{enqueue_text_once, IsRetried, retry_found-IsRetried}
use coachman.Store.Messages.{prepare_outbox_for_write, normalize_outbox_item}
use coachman.Store.Messages.Roundtrip.{ReadsBack, normalize_outbox_item-prepare}
use coachman.Tests.Message.{program}
use coachman.Outbox.Lanes.Kept.{flush_lane_queue-Queued}
use coachman.Outbox.Safe.Others.{IsUnanswered}
use coachman.Tests.Outbox.{
  hello, broken, hello-is_user_content, hello-has_bytes, hello-Queued, memory, queue,
}

abbrev idle : Lane
idle = record { retry_attempt = 3; cooldown_until = 50; retry_timer = none }

abbrev new_lane : Lane
new_lane = record { retry_attempt = 0; cooldown_until = 0; retry_timer = none }

-- Every round is at the same time, and the server refuses everything.
abbrev clock : ℕ → ℕ
clock round = 20

abbrev all_broken : ℕ → OutboxItem → Attempt
all_broken round item = broken

flush_lane_queue-IsSettled_example :
    IsSettled memory message_lane 40
      (flush_lane_queue memory clock all_broken message_lane false 100 idle queue)
flush_lane_queue-IsSettled_example =
    flush_lane_queue-IsSettled memory message_lane clock all_broken false 100 idle queue refl

abbrev sender : Sender memory
sender = record { queue = queue; message_state = idle; image_state = idle }

plain_u2 : strip pending_prefix "u2" ≡ none
unfolding program
plain_u2 = refl

enqueue_text_once_example :
    let first = text_item "c" "u2" "x" "iv" "hey" none 20 in
    let second = text_item "c" (String.◌++◌ pending_prefix "u2") "y" "iv2" "hey" none 30 in
    memory.outbox.get "text:u2"
      (enqueue_outbox memory second (enqueue_outbox memory first sender)).queue.store.outbox
    ≡ memory.outbox.get "text:u2" (enqueue_outbox memory second sender).queue.store.outbox
enqueue_text_once_example =
    enqueue_text_once memory "c" "u2" "x" "iv" "y" "iv2" "hey" none 20 30 sender "text:u2" plain_u2

-- The text after it was given up.
abbrev parked_hello : OutboxItem
parked_hello = record hello { failed_at = some 20; fail_reason = some "no" }

plain_hello : strip pending_prefix (outbox_client_id parked_hello.temp_message_id) ≡ none
unfolding program text_item outbox_client_id
plain_hello = refl

retry_found-IsRetried_example :
    IsRetried memory parked_hello (retry_found memory parked_hello queue)
retry_found-IsRetried_example = retry_found-IsRetried memory parked_hello queue plain_hello

Reached-IsArmed_example :
    IsArmed 20 (flush_lane_queue memory clock all_broken message_lane true 20 new_lane queue).1
Reached-IsArmed_example =
    Reached-IsArmed memory message_lane 20
      (flush_lane_queue memory clock all_broken message_lane true 20 new_lane queue).1
      (Reached.flushes clock all_broken true 20 new_lane queue (λ round. omega arith) Reached.fresh)

-- A photo of three bytes, with a preview of two.
abbrev a_photo : OutboxItem
a_photo = record hello { kind = image; image_bytes = 7 ∷ 8 ∷ 9 ∷ []; preview_data = 1 ∷ 2 ∷ [] }

normalize_outbox_item-prepare_example :
    ReadsBack a_photo (normalize_outbox_item (prepare_outbox_for_write a_photo))
normalize_outbox_item-prepare_example = normalize_outbox_item-prepare a_photo

broken-IsUnanswered : IsUnanswered broken
broken-IsUnanswered = record { first = λ msg e. cc; second = λ msg e. cc }

flush_lane_queue-Queued_example :
    Queued memory hello
      (flush_lane_queue memory clock all_broken message_lane false 100 idle queue).2.store
flush_lane_queue-Queued_example =
    flush_lane_queue-Queued memory hello hello-is_user_content hello-has_bytes clock all_broken
      message_lane (λ round item. broken-IsUnanswered) false 100 idle queue hello-Queued
