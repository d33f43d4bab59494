-- ===== src/ActionJobs/Submit.antt =====
-- `enqueue_action_job` of src/server/action_jobs.py, with the searches for an active job. The segment
-- that the histories of the recordings name for a job id is a parameter.
use bilive.Base.{
  strip, ℕ, String, Bool, true, false, not, ◌&&◌, ◌||◌, Option, none, some, List, [], ◌∷◌,
  if◌then◌else◌, filter_by, str_eq,
}
use bilive.ActionJobs.Files.{
  pending, processing, invalid, Phase, Job, json, unreadable, File, Directory, in_state, write_file,
  is_supported, read_pending_job,
}

pub record Target : Type 0 where
  pub segment_id : Option String
  pub recording_id : Option String

pub data Search : Type 0 where
  no_active : Search
  active : Job → Search
  corrupt : ℕ → Search

pub data Submission : Type 0 where
  refused : Submission
  conflict : Submission
  already_pending : Job → Submission
  accepted : Job → Submission

-- What a search looks for: the segment or the recording of a job and of a target.
pub data Kind : Type 0 where
  segment recording : Kind

abbrev pub key_of : Kind → Job → String
key_of segment job = job.segment_id
key_of recording job = job.recording_id

abbrev pub target_key : Kind → Target → Option String
target_key segment target = target.segment_id
target_key recording target = target.recording_id

abbrev from_history : Option String → Option Target
from_history none = none
from_history (some name) = some (record { segment_id = some name; recording_id = none })

module _ (history : ℕ → Option String) where
  unfoldable pub corrupt_job_target : File → Option Target
  corrupt_job_target f = elim f.content [
    | unreadable ↦ from_history (history f.id)
    | json job ↦
        if str_eq job.segment_id "" && str_eq job.recording_id ""
        then from_history (history f.id)
        else some
            (record { segment_id = some job.segment_id; recording_id = some job.recording_id })
  ]

  -- Whether an invalid file is known to be about something else.
  unfoldable pub is_elsewhere : Kind → String → File → Bool
  unfolding corrupt_job_target
  is_elsewhere kind name f = elim (corrupt_job_target f) [
    | none ↦ false
    | some target ↦ elim (target_key kind target) [
      | none ↦ true
      | some other ↦ not (str_eq other name)
    ]
  ]

  abbrev pub or_else : Search → Search → Search
  or_else no_active later = later
  or_else (active job) later = active job
  or_else (corrupt i) later = corrupt i

  -- The body of the loop over the files; `no_active` goes on with the next file.
  unfoldable pub inspect : Kind → String → File → Search
  unfolding is_elsewhere
  inspect kind name f = elim (read_pending_job f) [
    | some job ↦ if str_eq (key_of kind job) name then active job else no_active
    | none ↦ if is_elsewhere kind name f then no_active else corrupt f.id
  ]

  unfoldable pub scan : Kind → String → List File → Search
  unfolding inspect
  scan kind name [] = no_active
  scan kind name (f ∷ fs) = or_else (inspect kind name f) (scan kind name fs)

  -- `find_active_segment_job` and `find_active_recording_job`; `corrupt` is the raised conflict.
  unfoldable pub find_active : Kind → String → Directory → Search
  unfolding scan
  find_active kind name dir = or_else (scan kind name (filter_by (in_state pending) dir)) (
      or_else (scan kind name (filter_by (in_state processing) dir))
        (scan kind name (filter_by (in_state invalid) dir)))

  -- The answer of the search by segment, unless it raises, and then that of the search by recording
  -- where there is one.
  abbrev pub unless_recording : Bool → Search → Search → Search
  unless_recording no_recording (corrupt i) later = corrupt i
  unless_recording true first later = first
  unless_recording false first later = later

  -- Both searches of a submission.
  unfoldable pub find_existing : String → String → Directory → Search
  unfolding find_active
  find_existing segment_id recording_id dir =
      unless_recording (str_eq recording_id "") (find_active segment segment_id dir)
        (find_active recording recording_id dir)

  unfoldable pub new_job : ℕ → String → String → String → String → ℕ → ℕ → Job
  new_job fresh action segment_id recording_id payload now now_ns = record {
    job_id = fresh;
    action = action;
    segment_id = segment_id;
    recording_id = recording_id;
    payload = payload;
    status = pending;
    progress = record {
      phase = Phase.queued;
      percent = 0;
      message = "等待 Windows Worker";
      last_phase = none;
    };
    created_at = now;
    created_ns = some now_ns;
    updated_at = now;
    worker_pid = 0;
  }

  abbrev pub same_request : Job → Job → Bool
  same_request existing job =
      str_eq existing.action job.action && str_eq existing.payload job.payload

  unfoldable pub answer : Job → Directory → Search → Directory × Submission
  answer job dir (corrupt i) = (dir, conflict)
  answer job dir (active existing) =
      (dir, if same_request existing job then already_pending existing else conflict)
  answer job dir no_active = (write_file job.job_id pending (json job) dir, accepted job)

  -- The part of a submission under the lock.
  unfoldable pub submit_job : Job → Directory → Directory × Submission
  unfolding find_existing answer
  submit_job job dir = answer job dir (find_existing job.segment_id job.recording_id dir)

  unfoldable pub enqueue_action_job :
      String → String → String → String → ℕ → ℕ → ℕ → Directory → Directory × Submission
  unfolding submit_job new_job
  enqueue_action_job action segment_id recording_id payload fresh now now_ns dir =
      let segment_text = strip segment_id in
      let recording_text = strip recording_id in
      let no_segment = str_eq segment_text "" in
      let no_recording = str_eq recording_text "" in
      if not (is_supported action)
        || (no_segment && no_recording)
        || (not no_segment && not no_recording)
      then (dir, refused)
      else submit_job (new_job fresh action segment_text recording_text payload now now_ns) dir
