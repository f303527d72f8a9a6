-- ===== src/Live.antt =====
-- Frame-coalesced delivery of live messages: client/src/lib/live-message-batch.ts.
-- The scheduler is the browser's: what it may do is one event, `frame`, which runs the callback of
-- a scheduled flush; a cancelled one is never run.
pub mod Delivery
use coachman.Common.{
  ℕ, zero, suc, ◌+◌, Bool, true, false, Option, none, some, List, [], ◌∷◌, ◌++◌, length, is_some,
  if◌then◌else◌,
}
use coachman.Message.{StoredMessage}

pub record LiveMessageBatch : Type 0 where
  pub seq : ℕ
  pub messages : List StoredMessage

-- The variables of the closure, and the calls of `onFlush` so far, the latest last. `scheduled` holds
-- whether a handle is held.
pub record Coalescer : Type 0 where
  pub queue : List StoredMessage
  pub seq : ℕ
  pub scheduled : Bool
  pub flushed : List LiveMessageBatch

abbrev pub create_live_message_coalescer : Coalescer
create_live_message_coalescer = record { queue = []; seq = 0; scheduled = false; flushed = [] }

-- The callback `flush`, for a queue `messages`.
pub flush_queue : List StoredMessage → Coalescer → Coalescer
flush_queue [] c = record c { queue = []; scheduled = false }
flush_queue (m ∷ ms) c = record c {
  queue = [];
  scheduled = false;
  seq = c.seq + 1;
  flushed = c.flushed ++ record { seq = c.seq + 1; messages = m ∷ ms } ∷ [];
}

pub flush : Coalescer → Coalescer
unfolding flush_queue
flush c = flush_queue c.queue c

-- A flush is scheduled unless one is.
pub enqueue : StoredMessage → Coalescer → Coalescer
enqueue msg c = record c { queue = c.queue ++ msg ∷ []; scheduled = true }

pub clear : Coalescer → Coalescer
clear c = record c { queue = []; scheduled = false }

pub pending_count : Coalescer → ℕ
pending_count c = length c.queue

pub data Event : Type 0 where
  enqueued : StoredMessage → Event
  frame cleared : Event

-- A frame runs the callback if a handle is held.
pub on_frame : Bool → Coalescer → Coalescer
unfolding flush
on_frame true c = flush c
on_frame false c = c

pub step : Event → Coalescer → Coalescer
unfolding enqueue on_frame clear
step (enqueued msg) c = enqueue msg c
step frame c = on_frame c.scheduled c
step cleared c = clear c

unfoldable pub run : List Event → Coalescer → Coalescer
unfolding step
run [] c = c
run (e ∷ es) c = run es (step e c)
