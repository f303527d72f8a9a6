-- ===== src/Media/Hydrate.antt =====
-- The queue of background downloads: client/src/lib/media-hydrate.ts.
-- The promises of the source are numbers. A call of `hydrateOne` that has not settled is a job of
-- `running`. When it settles, two callbacks wait: the one that takes the key out of `inFlight`
-- (`to_forget`), and the one that frees the worker and pumps (`to_free`); they may run in any order.
pub mod Keys
pub mod Invariant
pub mod Drain
use Prim.Native.String
use coachman.Common.{
  ℕ, zero, suc, ◌+◌, ◌-◌, String, Bool, true, false, ◌&&◌, ◌||◌, not, Option, none, some, List, [],
  ◌∷◌, ◌++◌, get_elem?, filter, sort, compare, default, present, truthy, is_true, lookup, insert,
  remove, ltb, if◌then◌else◌,
}
use coachman.Message.{StoredMessage, MessageType, image, video}
use coachman.Outbox.State.{
  TransferProgress, TransferKind, queued, download, set_transfer_progress, clear_transfer_progress,
}

-- `CONCURRENCY`
abbrev pub concurrency : ℕ
concurrency = 2

-- A queue item, with the key that its promise is kept under and the number of the promise.
pub record Job : Type 0 where
  pub msg : StoredMessage
  pub key : String
  pub promise : ℕ

pub record Hydrator : Type 0 where
  pub in_flight : List (String × ℕ)
  pub queue : List Job
  pub active : ℕ
  pub running : List Job
  pub to_forget : List Job
  pub to_free : ℕ
  pub promises : ℕ
  pub progress : List (String × TransferProgress)

abbrev pub idle : Hydrator
idle = record {
  in_flight = [];
  queue = [];
  active = 0;
  running = [];
  to_forget = [];
  to_free = 0;
  promises = 0;
  progress = [];
}

unfoldable pub progress_key_for : StoredMessage → String
progress_key_for msg =
    if truthy msg.id
    then msg.id
    else if present msg.image_id
    then String.◌++◌ "img:" (default "" msg.image_id)
    else ""

unfoldable pub dedupe_key : StoredMessage → String
dedupe_key msg = elim msg.type [
  | image ↦ if present msg.image_id then String.◌++◌ "img:" (default "" msg.image_id) else msg.id
  | video ↦ String.◌++◌ "vid:" (if present msg.image_id then default "" msg.image_id else msg.id)
  | _ ↦ msg.id
]

abbrev pub is_image : StoredMessage → Bool
is_image msg = elim msg.type [ image ↦ true | _ ↦ false ]

-- A worker takes a job.
unfoldable pub start_job : Job → Hydrator → Hydrator
unfolding progress_key_for set_transfer_progress
start_job job st = record st {
  active = st.active + 1;
  running = st.running ++ (job ∷ []);
  progress =
      if is_image job.msg
      then set_transfer_progress (progress_key_for job.msg) 0 download st.progress
      else st.progress;
}

-- The loop of `pump` over the jobs that wait.
unfoldable pub pump_jobs : List Job → Hydrator → Hydrator
unfolding start_job
pump_jobs [] st = record st { queue = [] }
pump_jobs (job ∷ jobs) st =
    let started = pump_jobs jobs (start_job job st) in
    if ltb st.active concurrency then started else record st { queue = job ∷ jobs }

unfoldable pub pump : Hydrator → Hydrator
unfolding pump_jobs
pump st = pump_jobs st.queue st

-- What the caller of `enqueueMediaHydrate` gets: a promise that is settled, or one that is not.
pub data Answer : Type 0 where
  settled : Option String → Answer
  promised : ℕ → Answer

-- A job is queued under a key that is not in flight.
unfoldable pub enqueue_job : StoredMessage → Hydrator → Hydrator
unfolding pump dedupe_key progress_key_for set_transfer_progress
enqueue_job msg st =
    let job : Job = record { msg = msg; key = dedupe_key msg; promise = st.promises } in
    let pumped = pump (record st {
      queue = st.queue ++ (job ∷ []);
      promises = st.promises + 1;
      progress =
          if is_image msg
          then set_transfer_progress (progress_key_for msg) 0 queued st.progress
          else st.progress;
    }) in
    record pumped { in_flight = insert job.key job.promise pumped.in_flight }

unfoldable pub enqueue_key : StoredMessage → Hydrator → Option ℕ → Answer × Hydrator
unfolding enqueue_job
enqueue_key msg st (some existing) = (promised existing, st)
enqueue_key msg st none = (promised st.promises, enqueue_job msg st)

-- Whether the row is media without a URL that can be loaded.
abbrev pub is_missing : StoredMessage → Bool
is_missing msg = elim msg.type [
  | image ↦ not (present msg.image_url) && present msg.image_id
  | video ↦ not (present msg.image_url)
  | _ ↦ false
]

abbrev pub known_url : StoredMessage → Option String
known_url msg = elim msg.type [
  | image ↦ if present msg.image_url then msg.image_url else none
  | video ↦ if present msg.image_url then msg.image_url else none
  | _ ↦ none
]

unfoldable pub enqueue_media_hydrate : StoredMessage → Hydrator → Answer × Hydrator
unfolding enqueue_key dedupe_key lookup
enqueue_media_hydrate msg st =
    if is_missing msg
    then enqueue_key msg st (lookup (dedupe_key msg) st.in_flight)
    else (settled (known_url msg), st)

-- The rows that `scheduleMissingMediaHydration` asks for, the newest first.
abbrev pub missing_rows : List StoredMessage → List StoredMessage
missing_rows messages = sort (λ a b. compare b.created_at a.created_at) (filter is_missing messages)

unfoldable pub enqueue_all : List StoredMessage → Hydrator → Hydrator
unfolding enqueue_media_hydrate
enqueue_all [] st = st
enqueue_all (msg ∷ rest) st = enqueue_all rest (enqueue_media_hydrate msg st).1

unfoldable pub schedule_missing_media_hydration : List StoredMessage → Hydrator → Hydrator
unfolding enqueue_all
schedule_missing_media_hydration messages st = enqueue_all (missing_rows messages) st

unfoldable pub is_media_placeholder : StoredMessage → Bool
is_media_placeholder msg = elim msg.type [
  | image ↦ not (present msg.image_url) && not (is_true msg.failed)
  | video ↦ not (present msg.image_url) && not (is_true msg.failed)
  | _ ↦ false
]

-- The list without its element at a place.
unfoldable pub remove_at : ℕ → List Job → List Job
remove_at i [] = []
remove_at zero (job ∷ jobs) = jobs
remove_at (suc i) (job ∷ jobs) = job ∷ remove_at i jobs

-- What happens to the queue: a call, a job of `running` that settles, and the two callbacks.
pub data Event : Type 0 where
  called : StoredMessage → Event
  settles : ℕ → Event
  forgets : ℕ → Event
  frees : Event

settle_job : ℕ → Option Job → Hydrator → Hydrator
unfolding remove_at
settle_job i none st = st
settle_job i (some job) st = record st {
  running = remove_at i st.running;
  to_forget = st.to_forget ++ (job ∷ []);
  to_free = st.to_free + 1;
}

forget_job : ℕ → Option Job → Hydrator → Hydrator
unfolding remove_at progress_key_for clear_transfer_progress remove
forget_job i none st = st
forget_job i (some job) st = record st {
  to_forget = remove_at i st.to_forget;
  in_flight = remove job.key st.in_flight;
  progress =
      if is_image job.msg
      then clear_transfer_progress (progress_key_for job.msg) st.progress
      else st.progress;
}

free_worker : ℕ → Hydrator → Hydrator
unfolding pump
free_worker zero st = st
free_worker (suc n) st = pump (record st { active = st.active - 1; to_free = n })

unfoldable pub step : Event → Hydrator → Hydrator
unfolding enqueue_media_hydrate settle_job forget_job free_worker
step (called msg) st = (enqueue_media_hydrate msg st).1
step (settles i) st = settle_job i (get_elem? st.running i) st
step (forgets i) st = forget_job i (get_elem? st.to_forget i) st
step frees st = free_worker st.to_free st

unfoldable pub run : List Event → Hydrator → Hydrator
unfolding step
run [] st = st
run (event ∷ events) st = run events (step event st)
