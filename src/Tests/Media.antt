-- ===== src/Tests/Media.antt =====
-- The download queue on a few photos: client/src/lib/media-hydrate.ts and media-bytes.ts.
use Prim.Native.String
use coachman.Common.{
  ◌≤◌, String, true, none, some, List, [], ◌∷◌, map, length, lookup, remove, ◌≡◌, refl, arith,
}
use coachman.Message.{StoredMessage, image}
use coachman.Media.Bytes.{begins, looks_like_media_bytes}
use coachman.Media.Hydrate.{
  Event, called, settles, forgets, frees, idle, run, step, enqueue_media_hydrate, enqueue_key,
  enqueue_job, dedupe_key, progress_key_for, pump, pump_jobs, start_job, remove_at,
}
use coachman.Media.Hydrate.Invariant.{IsConsistent, run-IsConsistent}
use coachman.Media.Hydrate.Drain.{IsQuiet, work, run_settles}
use coachman.Outbox.State.{set_transfer_progress, clear_transfer_progress}
use coachman.Tests.Message.{echo_row}

abbrev photo_row : String → StoredMessage
photo_row id = record echo_row {
  id = String.◌++◌ "s" id;
  type = image;
  image_url = none;
  image_id = some id;
}

-- Three photos, one of them asked for twice.
abbrev calls : List Event
calls =
    called (photo_row "1")
    ∷ called (photo_row "2")
    ∷ called (photo_row "3")
    ∷ called (photo_row "2")
    ∷ []

unfoldable hydration : Unit {0}
unfolding run step enqueue_media_hydrate enqueue_key enqueue_job dedupe_key progress_key_for pump
    pump_jobs start_job remove_at lookup remove set_transfer_progress clear_transfer_progress
hydration = tt

two_run_one_waits :
    ((run calls idle).active ≡ 2) × (map (λ job. job.key) (run calls idle).queue ≡ "img:3" ∷ [])
unfolding hydration
two_run_one_waits = (refl, refl)

-- The second photo ends first, and its worker takes the third.
third_runs :
    map (λ job. job.key) (run (settles 1 ∷ forgets 0 ∷ frees ∷ []) (run calls idle)).running
    ≡ "img:1" ∷ "img:3" ∷ []
unfolding hydration
third_runs = refl

jpeg_is_media :
    looks_like_media_bytes (some (0xff ∷ 0xd8 ∷ 0xff ∷ 0 ∷ 0 ∷ 0 ∷ 0 ∷ 0 ∷ 0 ∷ 0 ∷ 0 ∷ 0 ∷ []))
    ≡ true
unfolding looks_like_media_bytes begins
jpeg_is_media = refl

run-IsConsistent_example : IsConsistent (run calls idle)
run-IsConsistent_example = run-IsConsistent calls

abbrev one_call : List Event
one_call = called (photo_row "1") ∷ []

abbrev its_end : List Event
its_end = settles 0 ∷ frees ∷ forgets 0 ∷ []

run_settles_example :
    (length its_end ≤ work (run one_call idle))
    × (IsQuiet (run its_end (run one_call idle))
        → (length (run its_end (run one_call idle)).queue ≡ 0)
          × ((key : String) → lookup key (run its_end (run one_call idle)).in_flight ≡ none))
unfolding hydration
run_settles_example = run_settles one_call its_end (omega arith)
