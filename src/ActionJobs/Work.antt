-- ===== src/ActionJobs/Work.antt =====
-- What the worker does with the job files of src/server/action_jobs.py: claim, recover, report
-- progress and finish.
use bilive.Base.{
  false, true, ℕ, ◌+◌, min, String, Bool, ◌&&◌, ◌||◌, none, some, List, [], ◌∷◌, ◌==◌, leb, ltb,
  if◌then◌else◌, filter_by, any, str_eq,
}
use bilive.ActionJobs.Files.{
  FileState, pending, processing, Phase, Progress, Job, json, File, Directory, in_state, named,
  write_file, remove_file, move_file, read_pending_job, quarantine_invalid_pending,
}

-- The loop over the files of a state that moves the invalid ones away.
unfoldable pub quarantine_all : (ℕ → Bool) → List File → Directory → Directory
quarantine_all stuck [] dir = dir
quarantine_all stuck (f ∷ fs) dir =
    let here = quarantine_all stuck fs dir in
    let moved = quarantine_all stuck fs (quarantine_invalid_pending stuck f dir) in
    elim (read_pending_job f) [ some job ↦ here | none ↦ moved ]

unfoldable pub candidates : List File → List (File × Job)
candidates [] = []
candidates (f ∷ fs) = elim (read_pending_job f) [
  | none ↦ candidates fs
  | some job ↦ (f, job) ∷ candidates fs
]

-- Whether `int` raises a ValueError for the file's job.
abbrev pub is_misdated : File → Bool
is_misdated f = elim (read_pending_job f) [
  | none ↦ false
  | some job ↦ elim job.created_ns [ none ↦ true | some ns ↦ false ]
]

-- The files that the loop has passed when it raises.
unfoldable pub passed : List File → List File
passed [] = []
passed (f ∷ fs) = let rest = passed fs in if is_misdated f then [] else f ∷ rest

abbrev nanoseconds : Job → ℕ
nanoseconds job = elim job.created_ns [ none ↦ 0 | some ns ↦ ns ]

-- By created_ns, then created_at, then job_id.
abbrev pub before : Job → Job → Bool
before a b =
    ltb (nanoseconds a) (nanoseconds b)
    || ((nanoseconds a == nanoseconds b)
        && (ltb a.created_at b.created_at
            || ((a.created_at == b.created_at) && leb a.job_id b.job_id)))

unfoldable pub oldest_from : File × Job → List (File × Job) → File × Job
oldest_from best [] = best
oldest_from best (c ∷ cs) =
    let kept = oldest_from best cs in
    let older = oldest_from c cs in if before best.1 c.1 then kept else older

abbrev pub started : ℕ → ℕ → Job → Job
started pid now job = record job { status = processing; worker_pid = pid; updated_at = now }

-- What a claim gives: no job, a job, or a ValueError.
pub data Claim : Type 0 where
  idle : Claim
  claimed : Job → Claim
  raised : Claim

-- `min(candidates, default=None)` and what follows.
unfoldable pub claim_from : ℕ → ℕ → Directory → List (File × Job) → Directory × Claim
claim_from pid now dir [] = (dir, idle)
claim_from pid now dir (c ∷ cs) =
    let selected = oldest_from c cs in
    let job = started pid now selected.1 in
    (move_file selected.0 processing (json job) dir, claimed job)

unfoldable pub claim_next_action_job : (ℕ → Bool) → ℕ → ℕ → Directory → Directory × Claim
unfolding claim_from
claim_next_action_job stuck pid now dir =
    let waiting = filter_by (in_state pending) dir in
    if any is_misdated waiting
    then (quarantine_all stuck (passed waiting) dir, raised)
    else claim_from pid now (quarantine_all stuck waiting dir) (candidates waiting)

abbrev pub is_owned : (ℕ → Bool) → Job → Bool
is_owned pid_checker job = ltb 0 job.worker_pid && pid_checker job.worker_pid

abbrev pub released : ℕ → Job → Job
released now job = record job { status = pending; worker_pid = 0; updated_at = now }

module _ (stuck pid_checker : ℕ → Bool) (now : ℕ) where
  unfoldable pub recover_file : File → Directory → Directory × ℕ
  recover_file f dir = elim (read_pending_job f) [
    | none ↦ (quarantine_invalid_pending stuck f dir, 0)
    | some job ↦ if is_owned pid_checker job then (dir, 0) else (
      remove_file f.id processing (write_file f.id pending (json (released now job)) dir),
      1,
    )
  ]

  unfoldable pub recover_files : List File → Directory → Directory × ℕ
  recover_files [] dir = (dir, 0)
  recover_files (f ∷ fs) dir =
      let (dir', n) = recover_file f dir in let (dir'', m) = recover_files fs dir' in (dir'', n + m)

  unfoldable pub recover_action_jobs : Directory → Directory × ℕ
  recover_action_jobs dir = recover_files (filter_by (in_state processing) dir) dir

abbrev pub progress_payload : Phase → ℕ → String → Progress
progress_payload phase percent message = record {
  phase = phase;
  percent = min 100 percent;
  message = message;
  last_phase = none;
}

-- `_persist_progress`: only while the job is processing.
unfoldable pub persist_progress : Job → Directory → Directory
persist_progress job dir =
    if any (named job.job_id processing) dir
    then write_file job.job_id processing (json job) dir
    else dir

unfoldable pub report : Job → Phase → ℕ → String → ℕ → Directory → Directory × Job
unfolding persist_progress
report job phase percent message now dir =
    let job' = record job { progress = progress_payload phase percent message; updated_at = now } in
    (persist_progress job' dir, job')

abbrev last_phase_of : Phase → Phase
last_phase_of Phase.complete = Phase.queued
last_phase_of Phase.failed = Phase.queued
last_phase_of phase = phase

-- `_mark_failed_progress`: the percentage reached is kept.
unfoldable pub mark_failed_progress : Job → String → ℕ → Directory → Directory × Job
unfolding persist_progress
mark_failed_progress job summary now dir =
    let job' = record job {
      progress =
          record (progress_payload Phase.failed job.progress.percent
            (if str_eq summary "" then "处理失败" else summary)) {
              last_phase = some (last_phase_of job.progress.phase);
            };
      updated_at = now;
    } in
    (persist_progress job' dir, job')

-- `_finish_job`, as done or failed.
unfoldable pub finish_job : Job → FileState → ℕ → Directory → Directory
finish_job job status now dir = remove_file job.job_id processing (
    write_file job.job_id status
      (json (record job { status = status; worker_pid = 0; updated_at = now })) dir)
