-- ===== src/Lifecycle/Review.antt =====
-- `derive_review_state`, `retention_fields` and `build_lifecycle_view` of
-- src/dashboard/source_lifecycle.py. The active jobs are those of the job files, the uploads those of
-- the upload queue.
use bilive.Base.{
  ℕ, ◌+◌, ◌*◌, String, Bool, true, false, not, ◌&&◌, ◌||◌, Option, none, some, List, [], ◌∷◌, leb,
  if◌then◌else◌, any, str_eq,
}
use bilive.Lifecycle.State.{
  ReviewState, unprocessed, candidate_review, source_review, review_complete, trash_pending,
  TrashStatus, RecordingState, retention_seconds, same_review, same_trash,
}
use bilive.ActionJobs.Files.{Directory}
use bilive.ActionJobs.Submit.{Search, no_active, active, corrupt, segment, recording, find_active}
use bilive.UploadQueue.Table.{Queue, Row, uploading, publishing, same_status, fetch_item}

pub data TaskStatus : Type 0 where
  ready pending processing running done failed skipped stale : TaskStatus

-- `unknown` is the empty text.
pub data HistoryStatus : Type 0 where
  unknown pending processing done failed skipped cancelled : HistoryStatus

pub data JudgeStatus : Type 0 where
  keep manual_keep drop review judge_failed other : JudgeStatus

pub record Segment : Type 0 where
  pub segment_id : String
  pub judge_status : JudgeStatus
  pub paths : List String

-- The database of the upload queue, as a reader finds it.
pub data UploadDatabase : Type 0 where
  no_file : UploadDatabase
  unreadable : UploadDatabase
  readable : Queue → UploadDatabase

abbrev pub is_running : TaskStatus → Bool
is_running TaskStatus.pending = true
is_running TaskStatus.processing = true
is_running running = true
is_running _ = false

abbrev is_history_processing : HistoryStatus → Bool
is_history_processing HistoryStatus.processing = true
is_history_processing _ = false

abbrev is_finished : HistoryStatus → Bool
is_finished HistoryStatus.done = true
is_finished HistoryStatus.skipped = true
is_finished _ = false

abbrev is_blank : HistoryStatus → Bool
is_blank unknown = true
is_blank _ = false

abbrev is_waiting : TaskStatus → Bool
is_waiting ready = true
is_waiting TaskStatus.skipped = true
is_waiting _ = false

abbrev pub is_unresolved : Segment → Bool
is_unresolved s = elim s.judge_status [ review ↦ true | judge_failed ↦ true | _ ↦ false ]

abbrev pub is_empty {ℓ} : {A : Type ℓ} → List A → Bool
is_empty [] = true
is_empty (x ∷ xs) = false

unfoldable pub derive_review_state :
    TaskStatus → HistoryStatus → List Segment → ReviewState → ReviewState
derive_review_state task history segments explicit =
    if same_review explicit trash_pending
    then trash_pending
    else if is_running task || is_history_processing history
    then ReviewState.processing
    else if same_review explicit ReviewState.processing
    then ReviewState.processing
    else if same_review explicit review_complete
    then review_complete
    else if same_review explicit source_review && not (is_empty segments)
    then candidate_review
    else if is_blank history && is_waiting task
    then unprocessed
    else if is_empty segments
    then (if is_finished history then source_review else unprocessed)
    else candidate_review

abbrev pub is_ready : ReviewState → Bool
is_ready review_complete = true
is_ready trash_pending = true
is_ready _ = false

abbrev or_time : Option ℕ → ℕ → ℕ
or_time none otherwise = otherwise
or_time (some t) otherwise = t

pub record RetentionFields : Type 0 where
  pub retention_deadline : ℕ
  pub retention_warning : Bool
  pub retention_expired : Bool
  pub trash_eligible : Bool

-- The deadline is the stored one, or seven days after the stored start, or after now.
unfoldable pub deadline_of : RecordingState → ℕ → ℕ
deadline_of state now =
    or_time state.retention_deadline (or_time state.retention_started_at now + retention_seconds)

-- `is_blocked` is whether the reason is not empty.
unfoldable pub retention_fields : RecordingState → ℕ → Bool → Bool → Bool → RetentionFields
unfolding deadline_of
retention_fields state now is_blocked source_exists review_ready =
    let started = or_time state.retention_started_at now in
    let deadline = deadline_of state now in
    let completed = same_trash state.trash_status TrashStatus.done in
    record {
      retention_deadline = deadline;
      retention_warning = leb (started + 5 * 86400) now && not completed && not review_ready;
      retention_expired = leb deadline now && not completed;
      trash_eligible =
          source_exists && not completed && not is_blocked && (review_ready || leb deadline now);
    }

pub data Blocker : Type 0 where
  source_missing task_running no_done_marker still_processing unresolved_segments trash_failed
        recording_job segment_job uploads_unknown upload_active review_incomplete :
      Blocker

-- What the search for blockers gives: a blocker or none, or the conflict that a damaged job file raises.
pub data Verdict : Type 0 where
  clear : Verdict
  blocked : Blocker → Verdict
  conflict : Verdict

abbrev pub or_next : Verdict → Verdict → Verdict
or_next clear later = later
or_next (blocked b) later = blocked b
or_next conflict later = conflict

abbrev pub when : Bool → Blocker → Verdict
when true b = blocked b
when false b = clear

abbrev pub is_uploading : Row → Bool
is_uploading item = same_status item.status uploading || same_status item.status publishing

-- The loop over the paths of a segment.
unfoldable pub path_blocker : Queue → List String → Verdict
path_blocker q [] = clear
path_blocker q (path ∷ paths) =
    or_next
      (elim (fetch_item q path) [
        | none ↦ clear
        | some item ↦ when (is_uploading item) upload_active
      ])
      (path_blocker q paths)

unfoldable pub paths_blocker : UploadDatabase → List String → Verdict
unfolding path_blocker
paths_blocker database [] = clear
paths_blocker no_file (path ∷ paths) = blocked uploads_unknown
paths_blocker unreadable (path ∷ paths) = blocked uploads_unknown
paths_blocker (readable q) (path ∷ paths) = path_blocker q (path ∷ paths)

abbrev pub job_verdict : Search → Blocker → Verdict
job_verdict no_active b = clear
job_verdict (active job) b = blocked b
job_verdict (corrupt i) b = conflict

module _ (history : ℕ → Option String) (directory : Directory) (database : UploadDatabase) where
  unfoldable pub segment_blocker : Segment → Verdict
  unfolding paths_blocker
  segment_blocker s =
      or_next
        (if str_eq s.segment_id ""
          then clear
          else job_verdict (find_active history segment s.segment_id directory) segment_job)
        (paths_blocker database s.paths)

  unfoldable pub segments_blocker : List Segment → Verdict
  unfolding segment_blocker
  segments_blocker [] = clear
  segments_blocker (s ∷ segments) = or_next (segment_blocker s) (segments_blocker segments)

  abbrev pub is_stopped : TrashStatus → Bool
  is_stopped TrashStatus.failed = true
  is_stopped TrashStatus.blocked = true
  is_stopped _ = false

  -- The chain of conditions in `build_lifecycle_view`.
  unfoldable pub find_blocker :
      String → TaskStatus → Bool → Bool → ReviewState → List Segment → RecordingState → Verdict
  unfolding segments_blocker
  find_blocker task_id task source_exists done_marker review_state segments state =
      or_next (when (not source_exists) source_missing) (
        or_next (when (is_running task) task_running) (
          or_next (when (not done_marker) no_done_marker) (
            or_next (when (same_review review_state ReviewState.processing) still_processing) (
              or_next (when (any is_unresolved segments) unresolved_segments) (
                or_next (when (is_stopped state.trash_status) trash_failed) (
                  or_next
                    (job_verdict (find_active history recording task_id directory) recording_job)
                    (segments_blocker segments)))))))

  pub record LifecycleView : Type 0 where
    pub review_state : ReviewState
    pub fields : RetentionFields
    pub blocker : Verdict
    pub trash_status : TrashStatus

  abbrev is_clear : Verdict → Bool
  is_clear clear = true
  is_clear _ = false

  -- The last condition, and the fields of the view.
  unfoldable pub view_of : ReviewState → RecordingState → ℕ → Bool → Verdict → LifecycleView
  unfolding retention_fields
  view_of review_state state now source_exists verdict =
      let expired =
        (retention_fields state now false source_exists
          (is_ready state.review_state)).retention_expired in
      let blocker =
        or_next verdict (when (not (is_ready review_state) && not expired) review_incomplete) in
      record {
        review_state = review_state;
        fields =
            retention_fields state now (not (is_clear blocker)) source_exists
              (is_ready review_state);
        blocker = blocker;
        trash_status = state.trash_status;
      }

  -- `none` is the exception of a damaged job file.
  unfoldable pub shown : ReviewState → RecordingState → ℕ → Bool → Verdict → Option LifecycleView
  shown review_state state now source_exists conflict = none
  shown review_state state now source_exists verdict =
      some (view_of review_state state now source_exists verdict)

  unfoldable pub build_lifecycle_view :
      String
      → TaskStatus
      → HistoryStatus
      → Bool
      → Bool
      → List Segment
      → RecordingState
      → ℕ
      → Option LifecycleView
  unfolding derive_review_state find_blocker view_of shown
  build_lifecycle_view task_id task task_history source_exists done_marker segments state now =
      let review_state = derive_review_state task task_history segments state.review_state in
      shown review_state state now source_exists
        (find_blocker task_id task source_exists done_marker review_state segments state)
