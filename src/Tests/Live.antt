-- ===== src/Tests/Live.antt =====
-- The coalescer at a concrete sequence of events: client/src/lib/live-message-batch.ts.
use coachman.Common.{List, [], ◌∷◌, ◌≡◌, refl}
use coachman.Live.{Event, enqueued, frame, cleared, create_live_message_coalescer, run}
use coachman.Live.Delivery.{Refines, ideal_run, nothing, messages_of, run-Refines}
use coachman.Tests.Message.{pending_row, echo_row, peer_row}

abbrev events : List Event
events = enqueued peer_row ∷ enqueued echo_row ∷ frame ∷ frame ∷ enqueued pending_row ∷ cleared ∷ []

one_batch :
    messages_of (run events create_live_message_coalescer).flushed ≡ peer_row ∷ echo_row ∷ []
unfolding run
one_batch = refl

run-Refines_example : Refines (run events create_live_message_coalescer) (ideal_run events nothing)
run-Refines_example = run-Refines events
