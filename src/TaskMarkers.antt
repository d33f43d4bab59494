-- ===== src/TaskMarkers.antt =====
-- src/dashboard/task_state.py: the status of a recording from the marker files beside it, and the
-- three buttons that write them. Paths and the texts of messages are left out.
use bilive.Base.{◌≡◌, ◌≢◌, Bool, true, false, not, ◌&&◌, ◌||◌, Option, some, arith, if◌then◌else◌}

pub data TaskStatus : Type 0 where
  ready pending processing failed done skipped : TaskStatus

-- Which files there are beside a recording, and the status that its history file holds.
pub record Markers : Type 0 where
  pub has_xml : Bool
  pub has_pending : Bool
  pub has_processing : Bool
  pub has_failed : Bool
  pub has_done : Bool
  pub history : Option TaskStatus

-- A request is refused while the recording is processed; it raises where the history cannot be written.
pub data Answer : Type 0 where
  done_so : Answer
  nothing_to_do : Answer
  refused : Answer
  raised : Answer

unfoldable pub determine_status : Markers → TaskStatus
determine_status m =
    if m.has_done
    then done
    else if m.has_processing
    then processing
    else if m.has_pending
    then pending
    else if m.has_failed
    then failed
    else if m.has_xml
    then ready
    else skipped

abbrev is_failed : Option TaskStatus → Bool
is_failed (some failed) = true
is_failed _ = false

-- The status in `_build_task`, where a failed history counts if there is no marker.
unfoldable pub task_status : Markers → TaskStatus
unfolding determine_status
task_status m =
    if is_failed m.history && not (m.has_pending || m.has_processing || m.has_failed || m.has_done)
    then failed
    else determine_status m

-- The flag says whether the history can be written.
unfoldable pub requeue_task : Bool → Markers → Markers × Answer
requeue_task true m = if m.has_processing then (m, refused) else (
  record m { has_pending = true; has_done = false; has_failed = false; history = some pending },
  done_so,
)
requeue_task false m =
    if m.has_processing then (m, refused) else (record m { has_pending = false }, raised)

unfoldable pub cancel_pending_task : Markers → Markers × Answer
cancel_pending_task m =
    if m.has_processing
    then (m, refused)
    else if m.has_pending
    then (record m { has_pending = false }, done_so)
    else (m, nothing_to_do)

unfoldable pub mark_done_task : Bool → Markers → Markers × Answer
mark_done_task writable m =
    let marked = record m { has_done = true; has_pending = false; has_failed = false } in
    let written : Markers × Answer =
      if writable then (record marked { history = some done }, done_so) else (marked, raised) in
    if m.has_processing then (m, refused) else written

-- A requeue that is served leaves the recording pending, and cancelling it then leaves the recording
-- ready, or skipped without comments, whatever it was before the requeue: done or failed as well.
pub task_status-requeue_task :
    (m : Markers)
    → m.has_processing ≡ false
    → (task_status (requeue_task true m).0 ≡ pending)
      × (task_status (cancel_pending_task (requeue_task true m).0).0
          ≡ (if m.has_xml then ready else skipped))
unfolding task_status requeue_task cancel_pending_task
task_status-requeue_task m e = (ground arith, ground arith)

-- When the history cannot be written, a requeue deletes the pending marker also where the recording
-- was pending before, so that a pending recording without other markers is pending no more.
pub requeue_task-raised :
    (m : Markers)
    → task_status m ≡ pending
    → ((requeue_task false m).1 ≡ raised) × (task_status (requeue_task false m).0 ≢ pending)
unfolding task_status requeue_task
requeue_task-raised m e = (ground arith, λ k. ground arith)
