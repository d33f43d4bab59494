-- ===== src/Trash/Run.antt =====
-- `trash_recording` and `move_to_recycle_bin` of src/dashboard/recording_trash.py: the resumable run of a
-- plan over the state of the recording and the files below the directory of the videos. The plan for a
-- recording that has none, the call of the shell and `Path.resolve` are parameters.
use bilive.Base.{
  ℕ, String, Bool, not, Option, none, some, List, [], ◌∷◌, ◌++◌, ◌==◌, if◌then◌else◌, length, Codes,
}
use bilive.Lifecycle.State.{
  RecordingState, TrashPlan, TrashStatus, trash_pending, same_trash, set_trash_job_state,
  mutate_recording_state,
}
use bilive.Trash.Package.{FilePath, within, outside, has_path}

pub data Failure : Type 0 where
  not_planned outside_videos not_windows changed shell_failed : Failure
  move_unknown : Codes → Failure

-- The machine: `shell` is what SHFileOperationW answers for a file, with the files that are there
-- afterwards, `describe` the text of an exception.
pub record Host : Type 0 where
  pub is_windows : Bool
  pub shell : Codes → List Codes → Bool × List Codes
  pub resolve : Codes → FilePath
  pub describe : Failure → String

-- The recording's state, the log of the trash and the files.
pub record Store : Type 0 where
  pub state : RecordingState
  pub log : List TrashPlan
  pub disk : List Codes

pub data Ending : Type 0 where
  trashed : List Codes → Ending
  already_trashed : List Codes → Ending
  raised : Failure → Ending

-- The loop goes on with the files moved so far, or an exception stops it.
pub data Progress : Type 0 where
  going : List Codes → Store → Progress
  stopped : Failure → Store → Progress

abbrev pub mutate : (RecordingState → RecordingState) → ℕ → Store → Store
mutate f now store = record store {
  state = mutate_recording_state f store.state now (some store.state);
}

-- A call for one file; the exception, if it raises, and the files afterwards.
unfoldable pub move_to_recycle_bin : Host → Codes → List Codes → Option Failure × List Codes
move_to_recycle_bin host path disk =
    if not host.is_windows
    then (some not_windows, disk)
    else if not (has_path path disk)
    then (some changed, disk)
    else if (host.shell path disk).0
    then (none, (host.shell path disk).1)
    else (some shell_failed, (host.shell path disk).1)

abbrev pub then_go : Progress → (List Codes → Store → Progress) → Progress
then_go (stopped failure store) f = stopped failure store
then_go (going moved store) f = f moved store

-- The saved plan, if it has files.
unfoldable pub saved_plan : Option TrashPlan → Option TrashPlan
saved_plan none = none
saved_plan (some plan) = if length plan.files == 0 then none else some plan

module _ (host : Host) (now : ℕ) where
  unfoldable pub record_move : Codes → List Codes → Store → Option Failure × List Codes → Progress
  unfolding mutate_recording_state
  record_move relative moved store (some failure, disk) =
      stopped failure (record store { disk = disk })
  record_move relative moved store (none, disk) = going (moved ++ relative ∷ []) (
      mutate
        (λ s. record s {
          trash_moved = moved ++ relative ∷ [];
          trash_status = TrashStatus.processing;
        })
        now (record store { disk = disk }))

  unfoldable pub move_one : Codes → List Codes → Store → FilePath → Progress
  move_one relative moved store outside = stopped outside_videos store
  move_one relative moved store (within path) =
      if has_path path store.disk
      then record_move relative moved store (move_to_recycle_bin host path store.disk)
      else stopped (move_unknown relative) store

  -- The loop over the files of the plan.
  unfoldable pub move_files : List Codes → List Codes → Store → Progress
  move_files [] moved store = going moved store
  move_files (r ∷ rs) moved store =
      let skipped = move_files rs moved store in
      let next = then_go (move_one r moved store (host.resolve r)) (move_files rs) in
      if has_path r moved then skipped else next

  unfoldable pub completed : List Codes → RecordingState → RecordingState
  completed files state = record state {
    review_state = trash_pending;
    trash_status = TrashStatus.done;
    trash_block_reason = "";
    trash_files = files;
    trash_completed_at = some now;
  }

  unfoldable pub close : TrashPlan → Progress → Store × Ending
  unfolding completed mutate_recording_state set_trash_job_state
  close plan (stopped failure store) = (
    mutate (set_trash_job_state TrashStatus.failed "" (host.describe failure) none now) now store,
    raised failure,
  )
  close plan (going moved store) = (
    mutate (completed plan.files) now (record store { log = store.log ++ plan ∷ [] }),
    trashed plan.files,
  )

  unfoldable pub with_new_plan : Option TrashPlan → Store → Store × Ending
  with_new_plan none store = (store, raised not_planned)
  with_new_plan (some plan) store = close plan (
      move_files plan.files store.state.trash_moved (
        mutate
          (λ s. record s {
            trash_plan = some plan;
            trash_moved = [];
            trash_status = TrashStatus.processing;
          })
          now store))

  unfoldable pub with_plan : (Store → Option TrashPlan) → Store → Option TrashPlan → Store × Ending
  with_plan build store none = with_new_plan (build store) store
  with_plan build store (some plan) =
      close plan (move_files plan.files store.state.trash_moved store)

  unfoldable pub trash_recording : (Store → Option TrashPlan) → Store → Store × Ending
  trash_recording build store =
      if same_trash store.state.trash_status TrashStatus.done
      then (store, already_trashed store.state.trash_files)
      else with_plan build store (saved_plan store.state.trash_plan)
