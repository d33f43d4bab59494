-- ===== src/ActionJobs/Kept.antt =====
-- The job files of src/server/action_jobs.py over runs of the queue's steps.
use bilive.Base.{
  strip, Option-ind, ℕ, String, ◌≡◌, Bool, true, false, not, ◌&&◌, ◌||◌, Option, List, [], ◌∷◌, inl,
  inr, arith, ◌==◌, if◌then◌else◌, filter_by, any, Bool-cases, if-ind, str_eq, ◌∙◌,
}
use bilive.ActionJobs.Files.{
  is_supported, FileState, pending, processing, done, failed, invalid, Phase, Job, Content, json,
  File, Directory, in_state, write_file, remove_file, named, read_pending_job,
  quarantine_invalid_pending, has_id, any-insert_file, has_id-write_file, has_id-move_file,
}
use bilive.ActionJobs.Submit.{
  Submission, refused, Search, no_active, active, corrupt, answer, submit_job, find_existing,
  enqueue_action_job, new_job,
}
use bilive.ActionJobs.Work.{
  Claim, is_misdated, passed, quarantine_all, candidates, oldest_from, claim_from,
  claim_next_action_job, recover_file, recover_files, recover_action_jobs, is_owned, report,
  persist_progress, mark_failed_progress, finish_job,
}

any-remove_file :
    (p : File → Bool) (i : ℕ) (st : FileState) (dir : Directory)
    → ((f : File) → p f ≡ true → named i st f ≡ false)
    → any p dir ≡ true
    → any p (remove_file i st dir) ≡ true
unfolding remove_file
any-remove_file p i st [] other h = cc
any-remove_file p i st (f ∷ dir) other h = ground (arith, any-remove_file p i st dir other, other f)

named-write_file :
    (j : ℕ) (st : FileState) (c : Content) (dir : Directory)
    → any (named j st) (write_file j st c dir) ≡ true
unfolding write_file
named-write_file j st c dir =
    any-insert_file (named j st) (record { id = j; state = st; content = c }) (remove_file j st dir)
    ∙ ground arith

has_id-named :
    (i j : ℕ) (st : FileState) (dir : Directory)
    → (j == i) ≡ true
    → any (named j st) dir ≡ true
    → has_id i dir ≡ true
has_id-named i j st [] same h = cc
has_id-named i j st (f ∷ dir) same h = ground (arith, has_id-named i j st dir same)

-- Writing a file and then deleting one of the same id in another state keeps every id.
has_id-replaced :
    (i j : ℕ) (to from : FileState) (c : Content) (dir : Directory)
    → ((f : File) → named j to f ≡ true → named j from f ≡ false)
    → has_id i dir ≡ true
    → has_id i (remove_file j from (write_file j to c dir)) ≡ true
has_id-replaced i j to from c dir apart h = elim (Bool-cases (j == i)) [
  | inr other ↦
      any-remove_file (λ f. f.id == i) j from (write_file j to c dir) (λ f e. ground arith)
        (has_id-write_file i j to c dir h)
  | inl same ↦ has_id-named i j to (remove_file j from (write_file j to c dir)) same (
      any-remove_file (named j to) j from (write_file j to c dir) apart
        (named-write_file j to c dir))
]

pub data JobStep : Type 0 where
  enqueue : String → String → String → String → ℕ → ℕ → ℕ → JobStep
  claim : (ℕ → Bool) → ℕ → ℕ → JobStep
  recover : (ℕ → Bool) → (ℕ → Bool) → ℕ → JobStep
  progress : Job → Phase → ℕ → String → ℕ → JobStep
  give_up : Job → String → ℕ → JobStep
  finish : Job → Bool → ℕ → JobStep

module _ (history : ℕ → Option String) where
  unfoldable pub run_step : JobStep → Directory → Directory
  run_step (enqueue action segment recording payload fresh now now_ns) dir =
      (enqueue_action_job history action segment recording payload fresh now now_ns dir).0
  run_step (claim stuck pid now) dir = (claim_next_action_job stuck pid now dir).0
  run_step (recover stuck pid_checker now) dir = (recover_action_jobs stuck pid_checker now dir).0
  run_step (progress job phase percent message now) dir =
      (report job phase percent message now dir).0
  run_step (give_up job summary now) dir = (mark_failed_progress job summary now dir).0
  run_step (finish job succeeded now) dir =
      finish_job job (if succeeded then done else failed) now dir

  unfoldable pub run_steps : List JobStep → Directory → Directory
  unfolding run_step
  run_steps [] dir = dir
  run_steps (s ∷ steps) dir = run_steps steps (run_step s dir)

has_id-quarantine_invalid_pending :
    (stuck : ℕ → Bool) (i : ℕ) (f : File) (dir : Directory)
    → has_id i dir ≡ true
    → has_id i (quarantine_invalid_pending stuck f dir) ≡ true
unfolding quarantine_invalid_pending
has_id-quarantine_invalid_pending stuck i f dir h =
    if-ind (λ d. has_id i d ≡ true) (stuck f.id) (λ _. h)
      (λ _. has_id-move_file i f invalid f.content dir h)

has_id-quarantine_all :
    (stuck : ℕ → Bool) (i : ℕ) (fs : List File) (dir : Directory)
    → has_id i dir ≡ true
    → has_id i (quarantine_all stuck fs dir) ≡ true
unfolding quarantine_all
has_id-quarantine_all stuck i [] dir h = h
has_id-quarantine_all stuck i (f ∷ fs) dir h =
    Option-ind (λ d. has_id i d ≡ true) (read_pending_job f)
      (λ _. has_id-quarantine_all stuck i fs _ (has_id-quarantine_invalid_pending stuck i f dir h))
      (λ job _. has_id-quarantine_all stuck i fs dir h)

has_id-claim_from :
    (i pid now : ℕ) (dir : Directory) (cs : List (File × Job))
    → has_id i dir ≡ true
    → has_id i (claim_from pid now dir cs).0 ≡ true
unfolding claim_from
has_id-claim_from i pid now dir [] h = h
has_id-claim_from i pid now dir (c ∷ cs) h =
    has_id-move_file i (oldest_from c cs).0 processing _ dir h

has_id-recover_file :
    (stuck pid_checker : ℕ → Bool) (now i : ℕ) (f : File) (dir : Directory)
    → has_id i dir ≡ true
    → has_id i (recover_file stuck pid_checker now f dir).0 ≡ true
unfolding recover_file
has_id-recover_file stuck pid_checker now i f dir h =
    Option-ind (λ (d : Directory × ℕ). has_id i d.0 ≡ true) (read_pending_job f)
      (λ _. has_id-quarantine_invalid_pending stuck i f dir h)
      (λ job _.
        if-ind (λ (d : Directory × ℕ). has_id i d.0 ≡ true) (is_owned pid_checker job) (λ _. h)
          (λ _. has_id-replaced i f.id pending processing _ dir (λ g e. ground arith) h))

has_id-recover_files :
    (stuck pid_checker : ℕ → Bool) (now i : ℕ) (fs : List File) (dir : Directory)
    → has_id i dir ≡ true
    → has_id i (recover_files stuck pid_checker now fs dir).0 ≡ true
unfolding recover_files
has_id-recover_files stuck pid_checker now i [] dir h = h
has_id-recover_files stuck pid_checker now i (f ∷ fs) dir h =
    has_id-recover_files stuck pid_checker now i fs _
      (has_id-recover_file stuck pid_checker now i f dir h)

has_id-answer :
    (history : ℕ → Option String) (i : ℕ) (job : Job) (dir : Directory) (found : Search)
    → has_id i dir ≡ true
    → has_id i (answer history job dir found).0 ≡ true
unfolding answer
has_id-answer history i job dir no_active h =
    has_id-write_file i job.job_id pending (json job) dir h
has_id-answer history i job dir (active existing) h = h
has_id-answer history i job dir (corrupt j) h = h

has_id-persist_progress :
    (i : ℕ) (job : Job) (dir : Directory)
    → has_id i dir ≡ true
    → has_id i (persist_progress job dir) ≡ true
unfolding persist_progress
has_id-persist_progress i job dir h =
    if-ind (λ d. has_id i d ≡ true) (any (named job.job_id processing) dir)
      (λ _. has_id-write_file i job.job_id processing (json job) dir h) (λ _. h)

has_id-finish_job :
    (i : ℕ) (job : Job) (succeeded : Bool) (now : ℕ) (dir : Directory)
    → has_id i dir ≡ true
    → has_id i (finish_job job (if succeeded then done else failed) now dir) ≡ true
unfolding finish_job
has_id-finish_job i job true now dir h =
    has_id-replaced i job.job_id done processing _ dir (λ g e. ground arith) h
has_id-finish_job i job false now dir h =
    has_id-replaced i job.job_id failed processing _ dir (λ g e. ground arith) h

has_id-run_step :
    (history : ℕ → Option String) (i : ℕ) (s : JobStep) (dir : Directory)
    → has_id i dir ≡ true
    → has_id i (run_step history s dir) ≡ true
unfolding run_step enqueue_action_job submit_job claim_next_action_job recover_action_jobs report
    mark_failed_progress
has_id-run_step history i (enqueue action segment recording payload fresh now now_ns) dir h =
    let no_segment = str_eq (strip segment) "" in
    let no_recording = str_eq (strip recording) "" in
    let job = new_job history fresh action (strip segment) (strip recording) payload now now_ns in
    if-ind (λ (d : Directory × Submission). has_id i d.0 ≡ true)
      (not (is_supported action)
        || (no_segment && no_recording)
        || (not no_segment && not no_recording))
      {x = (dir, refused)} {y = submit_job history job dir} (λ _. h)
      (λ _.
        has_id-answer history i job dir (find_existing history job.segment_id job.recording_id dir)
          h)
has_id-run_step history i (claim stuck pid now) dir h =
    let waiting = filter_by (in_state pending) dir in
    if-ind (λ (d : Directory × Claim). has_id i d.0 ≡ true) (any is_misdated waiting)
      (λ _. has_id-quarantine_all stuck i (passed waiting) dir h)
      (λ _.
        has_id-claim_from i pid now (quarantine_all stuck waiting dir) (candidates waiting)
          (has_id-quarantine_all stuck i waiting dir h))
has_id-run_step history i (recover stuck pid_checker now) dir h =
    has_id-recover_files stuck pid_checker now i _ dir h
has_id-run_step history i (progress job phase percent message now) dir h =
    has_id-persist_progress i _ dir h
has_id-run_step history i (give_up job summary now) dir h = has_id-persist_progress i _ dir h
has_id-run_step history i (finish job succeeded now) dir h =
    has_id-finish_job i job succeeded now dir h

-- Whatever the dashboard and the workers do, in whatever order, and however damaged the files are, a
-- job that has a file goes on having one.
pub has_id-run_steps :
    (history : ℕ → Option String) (i : ℕ) (steps : List JobStep) (dir : Directory)
    → has_id i dir ≡ true
    → has_id i (run_steps history steps dir) ≡ true
unfolding run_steps
has_id-run_steps history i [] dir h = h
has_id-run_steps history i (s ∷ steps) dir h =
    has_id-run_steps history i steps (run_step history s dir) (has_id-run_step history i s dir h)
