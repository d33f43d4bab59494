-- ===== src/Trash/Plan.antt =====
-- `build_trash_plan` of src/dashboard/recording_trash.py, and `trash_recording` with the plan that it makes.
-- The blockers are the texts of the source.
use bilive.Base.{
  ℕ, String, Bool, true, false, not, ◌&&◌, ◌||◌, Option, none, some, List, [], ◌∷◌, ◌++◌, map, ◌==◌,
  leb, if◌then◌else◌, filter_by, any, Codes, str_eq,
}
use bilive.Base.{codes, codes_eq, codes_empty}
use bilive.UploadWorker.Files.{with_suffix}
use bilive.Lifecycle.State.{
  RecordingState, TrashPlan, TrashStatus, ReviewState, same_review, same_trash,
}
use bilive.Lifecycle.Review.{
  UploadDatabase, no_file, unreadable, readable, HistoryStatus, is_uploading, is_ready, is_empty,
}
use bilive.ActionJobs.Files.{Directory, Job}
use bilive.ActionJobs.Submit.{Search, no_active, active, corrupt, segment, recording, find_active}
use bilive.UploadQueue.Table.{Queue, Row, fetch_item}
use bilive.Trash.Run.{Store}
use bilive.Trash.Package.{
  FilePath, within, outside, Filesystem, History, HistorySegment, Package, has_path,
  resolve_package_files, history_path, has_rel_path,
}

pub data TaskSource : Type 0 where
  absent : TaskSource
  invalid : Codes → TaskSource
  found : Codes → TaskSource

-- A segment of the history: its place in the package, and what else is read of it.
pub record TrashSegment : Type 0 where
  pub segment_id : String
  pub artifacts : HistorySegment
  pub is_action_active : Bool
  pub final_rel_path : Codes
  -- The recorded status is one of those that need a row of the upload queue.
  pub requires_row : Bool

pub record Recording : Type 0 where
  pub task_id : String
  pub status : HistoryStatus
  pub segments : List TrashSegment
  pub history : History

pub record Options : Type 0 where
  pub force_expired : Bool
  pub job_id : Option ℕ

pub data Planning : Type 0 where
  already : List Codes → Planning
  ready : TrashPlan → Planning
  refused : List Codes → Planning
  -- A damaged job file.
  conflict : Planning

abbrev blocker : Bool → String → List Codes
blocker b text = if b then codes text ∷ [] else []

abbrev about_segment : String → String → Codes
about_segment text segment_id = codes text ++ codes segment_id

-- dict.fromkeys
unfoldable pub unique_texts : List Codes → List Codes → List Codes
unfolding codes_eq
unique_texts seen [] = []
unique_texts seen (x ∷ xs) =
    let kept = x ∷ unique_texts (x ∷ seen) xs in
    let passed = unique_texts seen xs in if has_path x seen then passed else kept

abbrev is_active_history : HistoryStatus → Bool
is_active_history HistoryStatus.pending = true
is_active_history HistoryStatus.processing = true
is_active_history _ = false

-- `_expired_forced`
unfoldable pub expired_forced : RecordingState → Options → ℕ → Bool
expired_forced state options now =
    options.force_expired && elim state.retention_deadline [ none ↦ false | some t ↦ leb t now ]

-- The job is another one than the job that asks.
abbrev pub is_other_job : Option ℕ → Job → Bool
is_other_job none job = true
is_other_job (some i) job = not (job.job_id == i)

abbrev pub no_database : UploadDatabase → Bool
no_database no_file = true
no_database _ = false

abbrev pub both : Option (List Codes) → Option (List Codes) → Option (List Codes)
both none later = none
both (some xs) none = none
both (some xs) (some ys) = some (xs ++ ys)

abbrev pub unforced : Bool → Option (List Codes) → Option (List Codes)
unforced true texts = some []
unforced false texts = texts

unfoldable pub recording_texts : Option ℕ → Search → Option (List Codes)
recording_texts current (corrupt i) = none
recording_texts current no_active = some []
recording_texts current (active job) =
    some (blocker (is_other_job current job) "trash_action_active")

unfoldable pub package_texts : Package → List Codes
package_texts pkg =
    blocker (any (λ p. has_path p pkg.final_paths) pkg.files) "final_output_in_trash_plan"
    ++ blocker (is_empty pkg.files) "source_package_empty"

unfoldable pub decide : Codes → Option (List Codes) → Option Package → Planning
decide source none pkg = conflict
decide source (some texts) none = refused (codes "path_outside_videos" ∷ [])
decide source (some texts) (some pkg) =
    let blockers = texts ++ package_texts pkg in
    if is_empty blockers
    then ready (record { source_rel_path = source; files = pkg.files })
    else refused (unique_texts [] blockers)

module _ (fs : Filesystem) (job_history : ℕ → Option String) (directory : Directory)
    (database : UploadDatabase) (text_of : FilePath → String) (decode : String → Option Codes) where
  abbrev there : FilePath → TaskSource
  there outside = invalid (codes "Path outside videos root")
  there (within p) = if fs.is_file p then found p else absent

  -- `resolve_task_id` of src/dashboard/task_state.py; `decode` is the base64 of the id, read as UTF-8.
  unfoldable pub resolve_task_id : String → TaskSource
  resolve_task_id task_id = elim (decode task_id) [
    | none ↦ invalid (codes "Invalid task id")
    | some relative ↦ there (fs.resolve relative)
  ]

  -- `_segment_paths`
  unfoldable pub segment_paths : HistorySegment → List FilePath
  unfolding history_path
  segment_paths s =
      map (λ a. fs.resolve a.rel_path) (filter_by (has_rel_path fs []) s.artifacts)
      ++ elim (history_path fs [] s.candidate) [ none ↦ [] | some p ↦ p ∷ [] ]

  abbrev is_path : Codes → FilePath → Bool
  is_path text outside = false
  is_path text (within p) = elim (fs.resolve text) [ outside ↦ false | within q ↦ codes_eq p q ]

  -- The body of the loop over the paths, where the table can be read.
  unfoldable pub upload_texts : TrashSegment → FilePath → Option Row → List Codes
  upload_texts s path (some item) =
      if is_uploading item then about_segment "upload_active:" s.segment_id ∷ [] else []
  upload_texts s path none =
      if not (codes_empty s.final_rel_path) && is_path s.final_rel_path path && s.requires_row
      then about_segment "upload_status_unknown:" s.segment_id ∷ []
      else []

  unfoldable pub queue_texts : Queue → TrashSegment → List FilePath → List Codes
  queue_texts q s [] = []
  queue_texts q s (p ∷ ps) = upload_texts s p (fetch_item q (text_of p)) ++ queue_texts q s ps

  unfoldable pub paths_texts : UploadDatabase → TrashSegment → List FilePath → List Codes
  paths_texts database s [] = []
  paths_texts no_file s (p ∷ ps) = blocker s.requires_row "upload_status_unknown"
  paths_texts unreadable s (p ∷ ps) =
      blocker s.requires_row "upload_status_unknown" ++ paths_texts unreadable s ps
  paths_texts (readable q) s (p ∷ ps) = queue_texts q s (p ∷ ps)

  unfoldable pub idle_texts : TrashSegment → List Codes
  idle_texts s =
      (if s.is_action_active
        then about_segment "segment_action_state_active:" s.segment_id ∷ []
        else [])
      ++ (blocker (s.requires_row && not (codes_empty s.final_rel_path) && no_database database)
            "upload_status_unknown"
          ++ paths_texts database s (segment_paths s.artifacts))

  -- The blockers of a segment that has an id; `none` is the conflict.
  unfoldable pub job_texts : TrashSegment → Search → Option (List Codes)
  job_texts s (corrupt i) = none
  job_texts s no_active = some (idle_texts s)
  job_texts s (active job) =
      some (about_segment "segment_action_active:" s.segment_id ∷ idle_texts s)

  unfoldable pub segment_texts : TrashSegment → Option (List Codes)
  segment_texts s =
      if str_eq s.segment_id ""
      then some (codes "segment_id_missing" ∷ [])
      else job_texts s (find_active job_history segment s.segment_id directory)

  unfoldable pub segments_texts : List TrashSegment → Option (List Codes)
  segments_texts [] = some []
  segments_texts (s ∷ ss) = both (segment_texts s) (segments_texts ss)

  -- The blockers of the recording itself, where its expiry is not forced.
  unfoldable pub source_texts : Codes → HistoryStatus → RecordingState → List Codes
  source_texts source status state =
      blocker
        (fs.is_file (with_suffix (codes ".mp4.pending") source)
          || fs.is_file (with_suffix (codes ".mp4.processing") source))
        "source_task_active"
      ++ (blocker (is_active_history status) "source_task_active"
          ++ (blocker (not (fs.is_file (with_suffix (codes ".mp4.done") source)))
                "source_task_status_unknown"
              ++ (blocker (not (is_ready state.review_state)) "review_incomplete"
                  ++ blocker (same_review state.review_state ReviewState.processing)
                      "source_state_active")))

  unfoldable pub all_texts : Codes → Recording → RecordingState → Options → ℕ → Option (List Codes)
  all_texts source r state options now =
      let forced = expired_forced state options now in
      both (unforced forced (some (source_texts source r.status state))) (
        both
          (recording_texts options.job_id (find_active job_history recording r.task_id directory))
          (unforced forced (segments_texts r.segments)))

  unfoldable pub plan_source : Recording → RecordingState → Options → ℕ → TaskSource → Planning
  plan_source r state options now absent = refused (codes "source_missing" ∷ [])
  plan_source r state options now (invalid text) = refused (text ∷ [])
  plan_source r state options now (found source) =
      decide source (all_texts source r state options now)
        (resolve_package_files fs source r.history)

  unfoldable pub build_trash_plan : Recording → RecordingState → Options → ℕ → Planning
  build_trash_plan r state options now =
      if same_trash state.trash_status TrashStatus.done
      then already state.trash_files
      else plan_source r state options now (resolve_task_id r.task_id)

-- The file system, as the files of a store make it.
abbrev pub on_disk : Filesystem → Store → Filesystem
on_disk fs store = record fs { is_file = λ p. has_path p store.disk }

unfoldable pub ready_plan : Planning → Option TrashPlan
ready_plan (ready plan) = some plan
ready_plan _ = none

-- The call of `build_trash_plan` in `trash_recording`.
unfoldable pub plan_for :
    Filesystem
    → (ℕ → Option String)
    → Directory
    → UploadDatabase
    → (FilePath → String)
    → (String → Option Codes)
    → Recording
    → Options
    → ℕ
    → Store
    → Option TrashPlan
plan_for fs job_history directory database text_of decode r options now store = ready_plan (
    build_trash_plan (on_disk fs store) job_history directory database text_of decode r store.state
      options now)
