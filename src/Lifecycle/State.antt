-- ===== src/Lifecycle/State.antt =====
-- The state file of a recording in src/dashboard/source_lifecycle.py, and the functions that change it.
-- Times are seconds; `none` is the empty text, or a text that is no time.
use bilive.Base.{
  ℕ, ◌+◌, ◌*◌, String, Bool, ◌&&◌, Option, none, some, List, [], ◌==◌, if◌then◌else◌, Codes, str_eq,
}

pub data ReviewState : Type 0 where
  unprocessed processing candidate_review source_review review_complete trash_pending : ReviewState

pub data TrashStatus : Type 0 where
  untouched pending processing blocked failed done : TrashStatus

pub record TrashPlan : Type 0 where
  pub source_rel_path : Codes
  pub files : List Codes

pub record RecordingState : Type 0 where
  pub source_rel_path : String
  pub room_id : String
  pub review_state : ReviewState
  pub review_state_updated_at : ℕ
  pub review_started_at : Option ℕ
  pub review_completed_at : Option ℕ
  pub review_completion : String
  pub retention_started_at : Option ℕ
  pub retention_deadline : Option ℕ
  pub trash_status : TrashStatus
  pub trash_job_id : String
  pub trash_block_reason : String
  pub trash_files : List Codes
  pub trash_completed_at : Option ℕ
  pub trash_plan : Option TrashPlan
  pub trash_moved : List Codes
  pub experience_ids : List ℕ
  pub updated_at : ℕ

abbrev pub retention_seconds : ℕ
retention_seconds = 7 * 86400

-- `start` is the time in the file's name, if it has one.
unfoldable pub default_recording_state : String → String → Option ℕ → ℕ → RecordingState
default_recording_state source_rel_path room_id start now =
    let started : ℕ = elim start [ none ↦ now | some t ↦ t ] in
    record {
      source_rel_path = source_rel_path;
      room_id = room_id;
      review_state = unprocessed;
      review_state_updated_at = now;
      review_started_at = none;
      review_completed_at = none;
      review_completion = "";
      retention_started_at = some started;
      retention_deadline = some (started + retention_seconds);
      trash_status = untouched;
      trash_job_id = "";
      trash_block_reason = "";
      trash_files = [];
      trash_completed_at = none;
      trash_plan = none;
      trash_moved = [];
      experience_ids = [];
      updated_at = now;
    }

-- `mutate_recording_state`: the stored state, or the default where there is none, under the mutator.
unfoldable pub mutate_recording_state :
    (RecordingState → RecordingState) → RecordingState → ℕ → Option RecordingState → RecordingState
mutate_recording_state mutator default now none = record (mutator default) { updated_at = now }
mutate_recording_state mutator default now (some current) = record (mutator current) {
  updated_at = now;
}

abbrev review_code : ReviewState → ℕ
review_code unprocessed = 0
review_code ReviewState.processing = 1
review_code candidate_review = 2
review_code source_review = 3
review_code review_complete = 4
review_code trash_pending = 5

abbrev pub same_review : ReviewState → ReviewState → Bool
same_review a b = review_code a == review_code b

abbrev trash_code : TrashStatus → ℕ
trash_code untouched = 0
trash_code pending = 1
trash_code TrashStatus.processing = 2
trash_code blocked = 3
trash_code failed = 4
trash_code done = 5

abbrev pub same_trash : TrashStatus → TrashStatus → Bool
same_trash a b = trash_code a == trash_code b

abbrev or_now : Option ℕ → ℕ → Option ℕ
or_now none now = some now
or_now (some t) now = some t

-- The mutator of `set_review_state`.
unfoldable pub set_review_state : ReviewState → String → ℕ → RecordingState → RecordingState
set_review_state review_state completion now state =
    let started =
      if same_review review_state ReviewState.processing
      then or_now state.review_started_at now
      else state.review_started_at in
    let complete = same_review review_state review_complete in
    record state {
      review_state = review_state;
      review_state_updated_at = now;
      review_started_at = started;
      review_completed_at = if complete then some now else state.review_completed_at;
      review_completion = if complete then completion else state.review_completion;
      trash_block_reason =
          if same_review state.review_state review_complete
            && same_review review_state trash_pending
          then ""
          else state.trash_block_reason;
    }

-- The mutator of `set_trash_job_state`; `files` is none where the caller gives none.
unfoldable pub set_trash_job_state :
    TrashStatus → String → String → Option (List Codes) → ℕ → RecordingState → RecordingState
set_trash_job_state status job_id reason files now state = record state {
  trash_status = status;
  trash_job_id = if str_eq job_id "" then state.trash_job_id else job_id;
  trash_block_reason = reason;
  trash_files = elim files [ none ↦ state.trash_files | some fs ↦ fs ];
  trash_completed_at = if same_trash status done then some now else state.trash_completed_at;
}
