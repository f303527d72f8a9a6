-- ===== src/Live/Delivery.antt =====
-- Every live message is handed on once and in order: client/src/lib/live-message-batch.ts.
use mathlib.Core.List.{append-nil, append_assoc}
use coachman.Common.{
  ℕ, ◌+◌, ◌<◌, Bool, true, false, List, [], ◌∷◌, ◌++◌, length, ◌≡◌, refl, sym, ap, ◌∙◌, arith,
}
use coachman.Message.{StoredMessage}
use coachman.Live.{
  LiveMessageBatch, Coalescer, create_live_message_coalescer, flush_queue, flush, on_frame, enqueue,
  clear, Event, enqueued, frame, cleared, step, run,
}

-- What was handed on, and what waits: a frame hands on all that waits, `clear` drops it.
pub record Ideal : Type 0 where
  pub delivered : List StoredMessage
  pub waiting : List StoredMessage

abbrev pub ideal_step : Event → Ideal → Ideal
ideal_step (enqueued msg) s = record s { waiting = s.waiting ++ msg ∷ [] }
ideal_step frame s = record { delivered = s.delivered ++ s.waiting; waiting = [] }
ideal_step cleared s = record s { waiting = [] }

abbrev pub ideal_run : List Event → Ideal → Ideal
ideal_run [] s = s
ideal_run (e ∷ es) s = ideal_run es (ideal_step e s)

abbrev pub nothing : Ideal
nothing = record { delivered = []; waiting = [] }

-- The messages of the batches, in the order of delivery.
abbrev pub messages_of : List LiveMessageBatch → List StoredMessage
messages_of [] = []
messages_of (b ∷ bs) = b.messages ++ messages_of bs

-- The batches are numbered in order from `n + 1`, and none is empty.
abbrev pub NumberedFrom : ℕ → List LiveMessageBatch → Type 0
NumberedFrom n [] = Unit
NumberedFrom n (b ∷ bs) = (b.seq ≡ n + 1) × (0 < length b.messages) × NumberedFrom (n + 1) bs

pub record Refines (c : Coalescer) (s : Ideal) : Type 0 where
  pub delivered : messages_of c.flushed ≡ s.delivered
  pub waiting : c.queue ≡ s.waiting
  pub numbered : NumberedFrom 0 c.flushed
  pub counted : c.seq ≡ length c.flushed
  -- what waits has a flush to come
  pub scheduled : c.scheduled ≡ false → c.queue ≡ []

messages_of-append :
    (bs : List LiveMessageBatch) (b : LiveMessageBatch)
    → messages_of (bs ++ b ∷ []) ≡ messages_of bs ++ b.messages
messages_of-append [] b = append-nil b.messages
messages_of-append (x ∷ bs) b =
    ap (λ l. x.messages ++ l) (messages_of-append bs b)
    ∙ sym (append_assoc x.messages (messages_of bs) b.messages)

NumberedFrom-append :
    (n : ℕ) (bs : List LiveMessageBatch) (b : LiveMessageBatch)
    → NumberedFrom n bs
    → b.seq ≡ n + length bs + 1
    → 0 < length b.messages
    → NumberedFrom n (bs ++ b ∷ [])
NumberedFrom-append n [] b h e p = (omega arith, p, tt)
NumberedFrom-append n (x ∷ bs) b h e p =
    (h.0, h.1, NumberedFrom-append (n + 1) bs b h.2 (omega arith) p)

length-append_one :
    (bs : List LiveMessageBatch) (b : LiveMessageBatch) → length (bs ++ b ∷ []) ≡ length bs + 1
length-append_one [] b = omega arith
length-append_one (x ∷ bs) b = omega (arith, length-append_one bs b)

flush_queue-Refines :
    (q : List StoredMessage) (c : Coalescer) (s : Ideal)
    → c.queue ≡ q
    → Refines c s
    → Refines (flush_queue q c) (ideal_step frame s)
unfolding flush_queue
flush_queue-Refines [] c s e r = record {
  delivered =
      r.delivered ∙ (sym (append-nil s.delivered) ∙ ap (λ l. s.delivered ++ l) (sym e ∙ r.waiting));
  waiting = refl;
  numbered = r.numbered;
  counted = r.counted;
  scheduled = λ _. refl;
}
flush_queue-Refines (m ∷ ms) c s e r = record {
  delivered =
      messages_of-append c.flushed _
      ∙ (rw r.delivered (ap (λ l. s.delivered ++ l) (sym e ∙ r.waiting)));
  waiting = refl;
  numbered = NumberedFrom-append 0 c.flushed _ r.numbered (omega (arith, r.counted)) (omega arith);
  counted = omega (
    arith,
    r.counted,
    length-append_one c.flushed (record { seq = c.seq + 1; messages = m ∷ ms }),
  );
  scheduled = λ _. refl;
}

on_frame-Refines :
    (b : Bool) (c : Coalescer) (s : Ideal)
    → c.scheduled ≡ b
    → Refines c s
    → Refines (on_frame b c) (ideal_step frame s)
unfolding on_frame flush
on_frame-Refines true c s h r = flush_queue-Refines c.queue c s refl r
on_frame-Refines false c s h r =
    let none_waits : c.queue ≡ [] = r.scheduled h in
    record {
      delivered =
          r.delivered
          ∙ (sym (append-nil s.delivered)
              ∙ ap (λ l. s.delivered ++ l) (sym none_waits ∙ r.waiting));
      waiting = none_waits;
      numbered = r.numbered;
      counted = r.counted;
      scheduled = r.scheduled;
    }

step-Refines :
    (e : Event) (c : Coalescer) (s : Ideal) → Refines c s → Refines (step e c) (ideal_step e s)
unfolding step enqueue clear
step-Refines (enqueued msg) c s r = record {
  delivered = r.delivered;
  waiting = ap (λ l. l ++ msg ∷ []) r.waiting;
  numbered = r.numbered;
  counted = r.counted;
  scheduled = λ h. cc;
}
step-Refines cleared c s r = record {
  delivered = r.delivered;
  waiting = refl;
  numbered = r.numbered;
  counted = r.counted;
  scheduled = λ _. refl;
}
step-Refines frame c s r = on_frame-Refines c.scheduled c s refl r

run-Refines_from :
    (es : List Event) (c : Coalescer) (s : Ideal)
    → Refines c s
    → Refines (run es c) (ideal_run es s)
unfolding run
run-Refines_from [] c s r = r
run-Refines_from (e ∷ es) c s r =
    run-Refines_from es (step e c) (ideal_step e s) (step-Refines e c s r)

-- For every sequence of calls and frames the batches hold, in order and each once, the messages that
-- an ideal queue hands on; the queue holds those that wait. Batches are numbered 1, 2, 3 and so on,
-- none is empty, and while a message waits a flush is scheduled.
pub run-Refines :
    (es : List Event) → Refines (run es create_live_message_coalescer) (ideal_run es nothing)
run-Refines es = run-Refines_from es create_live_message_coalescer nothing (record {
  delivered = refl;
  waiting = refl;
  numbered = tt;
  counted = refl;
  scheduled = λ _. refl;
})
