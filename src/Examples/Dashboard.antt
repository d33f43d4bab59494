-- ===== src/Examples/Dashboard.antt =====
-- The theorems on locks, the watchdog and markers at concrete states.
use bilive.Base.{arith, ℕ, ◌≡◌, ◌≢◌, refl, Bool, true, false, none, some, List, [], ◌∷◌, ◌==◌}
use bilive.UploadLock
use bilive.UploadLock.{
  LockFile, holds, blank, missing, Locks, Process, first, second, run-is_kept_out,
}
use bilive.IdleWatchdog.{
  WorkerState, Event, touch, wake, IsShutDown, watch, watch-IsShutDown, worker_is_busy, check,
  confirm, run_events, Ascends,
}
use bilive.TaskMarkers.{
  Markers, task_status, requeue_task, cancel_pending_task, task_status-requeue_task,
  requeue_task-raised, ready, raised, determine_status,
}
use bilive.TaskMarkers

abbrev alive : ℕ → Bool
alive pid = pid == 10

-- The second process finds the lock file between the first one's open and its write, takes it for one of
-- a dead owner and deletes it once it is closed; this needs no deletion of an open file.
run_example :
    ((UploadLock.run false alive 10 20
        (first ∷ second ∷ second ∷ first ∷ second ∷ second ∷ second ∷ [])
        (UploadLock.unlocked false alive 10 20)).one
      ≡ UploadLock.owner)
    × ((UploadLock.run false alive 10 20
          (first ∷ second ∷ second ∷ first ∷ second ∷ second ∷ second ∷ [])
          (UploadLock.unlocked false alive 10 20)).two
        ≡ UploadLock.owner)
unfolding UploadLock.run UploadLock.step UploadLock.advance
run_example = (refl, refl)

abbrev held : Locks
held = record { file = holds first 10; one = UploadLock.owner; two = UploadLock.outside }

run-is_kept_out_example :
    ((UploadLock.run false alive 10 20 (second ∷ second ∷ second ∷ []) held).file ≡ holds first 10)
    × (UploadLock.is_kept_out false alive 10 20
          (UploadLock.run false alive 10 20 (second ∷ second ∷ second ∷ []) held).two
        ≡ true)
run-is_kept_out_example =
    run-is_kept_out false alive 10 20 (second ∷ second ∷ second ∷ []) held refl refl refl refl

abbrev calm : WorkerState
calm = record {
  watcher_running = false;
  lock_owner_running = false;
  pending_tasks = 0;
  llm_requesting = false;
  upload_active = false;
  queued = 0;
  uploading = 0;
  uploaded = 0;
  publishing = 0;
}

-- A failed reading, a request, and a round in which nothing has happened for long enough.
abbrev events : List Event
events =
    wake record { state = none; now = 5; confirmed = none; later = 5 }
    ∷ touch 6
    ∷ wake record { state = some calm; now = 12; confirmed = some calm; later = 12 }
    ∷ wake record { state = some calm; now = 16; confirmed = some calm; later = 16 }
    ∷ []

watch-IsShutDown_example : IsShutDown 10 0 events
unfolding watch run_events check confirm worker_is_busy Ascends
watch-IsShutDown_example = watch-IsShutDown 10 0 events (omega arith) refl

abbrev done_before : Markers
done_before = record {
  has_xml = true;
  has_pending = false;
  has_processing = false;
  has_failed = false;
  has_done = true;
  history = some TaskMarkers.done;
}

task_status-requeue_task_example :
    (task_status (requeue_task true done_before).0 ≡ TaskMarkers.pending)
    × (task_status (cancel_pending_task (requeue_task true done_before).0).0 ≡ ready)
task_status-requeue_task_example = task_status-requeue_task done_before refl

abbrev pending_before : Markers
pending_before = record done_before { has_done = false; has_pending = true }

requeue_task-raised_example :
    ((requeue_task false pending_before).1 ≡ raised)
    × (task_status (requeue_task false pending_before).0 ≢ TaskMarkers.pending)
unfolding task_status determine_status
requeue_task-raised_example = requeue_task-raised pending_before refl
