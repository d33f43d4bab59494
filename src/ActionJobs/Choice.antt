-- ===== src/ActionJobs/Choice.antt =====
-- What `claim_next_action_job` of src/server/action_jobs.py gives and leaves.
use bilive.Base.{◌⊎◌, ℕ, ◌≡◌, Bool, true, some, filter_by, find, All}
use bilive.ActionJobs.Files.{
  pending, processing, Job, json, File, Directory, in_state, named, read_pending_job,
}
use bilive.ActionJobs.Work.{candidates, started}
use bilive.ActionJobs.Claims.{First}
use bilive.ActionJobs.Counts.{count, waiting_as}

-- A file that waited: it was read, or it could not be renamed, or no file of its id waits any more.
abbrev pub Aside : (ℕ → Bool) → Directory → File → Type 0
Aside stuck after f =
    ((job : Job) × (read_pending_job f ≡ some job))
    ⊎ ((stuck f.id ≡ true) ⊎ (count (waiting_as f.id) after ≡ 0))

-- The file that a claim took, and the directory after it. The file waited and was read as the job, and no
-- readable file that waited comes before it; the directory has the started job as the processing file of
-- that id and no file of the id waits; of the other files that waited, an unreadable one waits no more,
-- unless it could not be renamed.
pub record IsClaim (stuck : ℕ → Bool) (pid now : ℕ) (dir after : Directory) (given : Job)
    : Type 0 where
  pub file : File
  pub job : Job
  pub was_read : read_pending_job file ≡ some job
  pub was_pending : in_state pending file ≡ true
  pub is_first : All (First job) (candidates (filter_by (in_state pending) dir))
  pub is_started : given ≡ started pid now job
  pub stands :
      find (named file.id processing) after
      ≡ some (record { id = file.id; state = processing; content = json given })
  pub taken : count (waiting_as file.id) after ≡ 0
  pub aside : All (Aside stuck after) (filter_by (in_state pending) dir)
