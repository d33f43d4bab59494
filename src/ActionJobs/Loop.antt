-- ===== src/ActionJobs/Loop.antt =====
-- The loop `process_action_jobs` of src/server/action_jobs.py. The work of a job is a parameter: what it
-- reports, whether it raises and with what summary. Of the failure record only the summary is kept, and
-- the notes in the history of the task are left out.
use bilive.Base.{ℕ, zero, suc, String, Bool, List, [], ◌∷◌, if◌then◌else◌, length, filter_by}
use bilive.ActionJobs.Files.{FileState, pending, Phase, Job, Directory, in_state}
use bilive.ActionJobs.Work.{
  Claim, idle, claimed, raised, claim_next_action_job, recover_action_jobs, report,
  mark_failed_progress, finish_job,
}

pub record Execution : Type 0 where
  pub reports : List (Phase × ℕ × String)
  pub is_ok : Bool
  pub summary : String

-- The calls of the progress callback, in their order.
unfoldable pub report_all : List (Phase × ℕ × String) → ℕ → Directory → Job → Directory × Job
report_all [] now dir job = (dir, job)
report_all ((phase, percent, message) ∷ reports) now dir job =
    let (dir', job') = report job phase percent message now dir in report_all reports now dir' job'

unfoldable pub close_job : Execution → ℕ → Directory → Job → Directory
close_job e now dir job =
    if e.is_ok
    then finish_job (report job Phase.complete 100 "处理完成" now dir).1 FileState.done now
        (report job Phase.complete 100 "处理完成" now dir).0
    else finish_job (mark_failed_progress job e.summary now dir).1 FileState.failed now
        (mark_failed_progress job e.summary now dir).0

-- The body of the loop, for a job that was claimed.
unfoldable pub work : (Job → Execution) → ℕ → Job → Directory → Directory
work execute now job dir =
    let e = execute job in
    let (dir', job') = report_all e.reports now dir job in close_job e now dir' job'

abbrev pub pending_count : Directory → ℕ
pending_count dir = length (filter_by (in_state pending) dir)

-- How the loop ends: with the number of completed jobs, with the ValueError of a claim, or, on fuel that
-- does not suffice, not at all.
pub data LoopEnd : Type 0 where
  ended : Directory → ℕ → LoopEnd
  stopped : Directory → LoopEnd
  unfinished : LoopEnd

abbrev pub counted : Bool → LoopEnd → LoopEnd
counted ok (ended dir n) = ended dir (if ok then suc n else n)
counted ok (stopped dir) = stopped dir
counted ok unfinished = unfinished

module _ (execute : Job → Execution) (stuck : ℕ → Bool) (pid now : ℕ) where
  abbrev pub then_work : Directory → Claim → (Directory → LoopEnd) → LoopEnd
  then_work dir idle next = ended dir 0
  then_work dir (claimed job) next = counted (execute job).is_ok (next (work execute now job dir))
  then_work dir raised next = stopped dir

  unfoldable pub process_pending : ℕ → Directory → LoopEnd
  process_pending zero dir = unfinished
  process_pending (suc fuel) dir =
      let (dir', claim) = claim_next_action_job stuck pid now dir in
      then_work dir' claim (process_pending fuel)

  unfoldable pub process_action_jobs : (ℕ → Bool) → Directory → LoopEnd
  process_action_jobs pid_checker dir =
      let recovered = (recover_action_jobs stuck pid_checker now dir).0 in
      process_pending (suc (pending_count recovered)) recovered
