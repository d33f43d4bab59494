-- ===== src/Examples/Jobs.antt =====
-- The theorems on job files at a concrete directory.
use bilive.Base.{
  ◌⊎◌, Bool, List, ◌==◌, false, ℕ, String, ◌≡◌, refl, true, Option, none, [], ◌∷◌, strip,
}
use bilive.ActionJobs.Files.{
  Phase, pending, Job, json, unreadable, Directory, has_id, read_pending_job, is_supported,
}
use bilive.ActionJobs.Submit.{
  conflict, new_job, submit_job, find_existing, find_active, scan, answer,
}
use bilive.ActionJobs.Resubmit.{submit_job-submit_job}
use bilive.ActionJobs.Work.{started, claim_next_action_job}
use bilive.ActionJobs.Counts.{count}
use bilive.ActionJobs.Work.{Claim, recover_action_jobs}
use bilive.ActionJobs.Loop.{Execution, pending_count, process_action_jobs}
use bilive.ActionJobs.Drained.{Drained, Stopped, waits_misdated, process_action_jobs-Drained}
use bilive.ActionJobs.Kept.{JobStep, claim, finish, run_steps, has_id-run_steps}

abbrev history : ℕ → Option String
history i = none

abbrev render : Job
render = new_job history 7 "render_segment" "s1" "" "" 5 50

abbrev retry : Job
retry = new_job history 9 "retry_judge" "s1" "" "" 6 60

submit_job-submit_job_example :
    submit_job history retry (submit_job history render []).0
    ≡ ((submit_job history render []).0, conflict)
unfolding new_job submit_job find_existing find_active scan is_supported strip answer
submit_job-submit_job_example =
    submit_job-submit_job history render retry [] refl refl refl refl refl refl

abbrev waiting : Directory
waiting =
    record { id = 3; state = pending; content = unreadable }
    ∷ record { id = 7; state = pending; content = json render }
    ∷ record { id = 9; state = pending; content = json retry }
    ∷ []

-- The file with the id 3 cannot be renamed.
abbrev stuck_3 : ℕ → Bool
stuck_3 i = i == 3

abbrev life : List JobStep
life = claim stuck_3 100 8 ∷ finish (started 100 8 render) true 9 ∷ claim stuck_3 100 9 ∷ []

has_id-run_steps_example : has_id 7 (run_steps history life waiting) ≡ true
has_id-run_steps_example = has_id-run_steps history 7 life waiting refl

-- Jobs that read their files and then fail.
abbrev execute : Job → Execution
execute job = record {
  reports = (Phase.queued, 10, "started") ∷ [];
  is_ok = false;
  summary = "failed";
}

process_action_jobs-Drained_example :
    Drained stuck_3
      (pending_count (recover_action_jobs stuck_3 (λ pid. false) 100 waiting).0)
      (process_action_jobs execute stuck_3 8 100 (λ pid. false) waiting)
    ⊎ Stopped
        (count waits_misdated (recover_action_jobs stuck_3 (λ pid. false) 100 waiting).0)
        (process_action_jobs execute stuck_3 8 100 (λ pid. false) waiting)
process_action_jobs-Drained_example =
    process_action_jobs-Drained execute stuck_3 8 100 (λ pid. false) waiting

-- A job whose time is no number stops every claim.
abbrev misdated : Job
misdated = record retry { created_ns = none }

claim_misdated_example :
    (claim_next_action_job stuck_3 100 8
      (record { id = 9; state = pending; content = json misdated } ∷ [])).1
    ≡ Claim.raised
unfolding claim_next_action_job read_pending_job new_job is_supported strip
claim_misdated_example = refl
