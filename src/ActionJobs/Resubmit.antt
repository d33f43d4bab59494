-- ===== src/ActionJobs/Resubmit.antt =====
-- Two submissions for one segment to src/server/action_jobs.py.
use bilive.Base.{
  strip, has_text, eq_refl, ℕ, String, ◌≡◌, ◌≢◌, refl, Bool, true, false, not, Option, some, [],
  ◌∷◌, inl, inr, arith, leb, if◌then◌else◌, filter_by, All, Bool-cases, if-ind, ◌∙◌, sym,
}
use bilive.ActionJobs.Files.{
  FileState, pending, Job, json, File, Directory, in_state, write_file, is_supported,
  read_pending_job, insert_file, remove_file, named,
}
use bilive.ActionJobs.Submit.{
  same_request, unless_recording, answer, or_else, inspect, Search, no_active, active, corrupt,
  conflict, already_pending, accepted, Kind, segment, key_of, scan, find_active, find_existing,
  submit_job,
}

module _ (history : ℕ → Option String) (kind : Kind) (name : String) where
  -- Files of a state that a search passes over.
  abbrev Quiet : FileState → File → Type 0
  Quiet st f = in_state st f ≡ true → inspect history kind name f ≡ no_active

  or_else_none :
      (a b : Search) → or_else history a b ≡ no_active → (a ≡ no_active) × (b ≡ no_active)
  or_else_none no_active b e = (refl, e)
  or_else_none (active job) b e = absurd cc
  or_else_none (corrupt i) b e = absurd cc

  Quiet-scan :
      (st : FileState) (dir : Directory)
      → scan history kind name (filter_by (in_state st) dir) ≡ no_active
      → All (Quiet st) dir
  unfolding scan
  Quiet-scan st [] e = tt
  Quiet-scan st (f ∷ dir) e = elim (Bool-cases (in_state st f)) [
    | inl t ↦
        let parts =
          or_else_none (inspect history kind name f)
            (scan history kind name (filter_by (in_state st) dir)) (rw t at e) in
        (λ _. parts.0, Quiet-scan st dir parts.1)
    | inr n ↦ (λ t. absurd cc, Quiet-scan st dir (rw n at e))
  ]

  scan-insert_file :
      (st : FileState) (f : File) (dir : Directory) (job : Job)
      → inspect history kind name f ≡ active job
      → in_state st f ≡ true
      → All (Quiet st) dir
      → scan history kind name (filter_by (in_state st) (insert_file f dir)) ≡ active job
  unfolding scan insert_file
  scan-insert_file st f [] job e t h = rw t (rw (e, scan) refl)
  scan-insert_file st f (g ∷ dir) job e t h =
      let later = scan-insert_file st f dir job e t h.1 in
      if-ind (λ l. scan history kind name (filter_by (in_state st) l) ≡ active job) (leb f.id g.id)
        (λ _. rw t (rw (e, scan) refl))
        (λ _. elim (Bool-cases (in_state st g)) [
          | inl s ↦ rw s (rw (h.0 s, scan) later)
          | inr n ↦ rw n later
        ])

All-filter_by :
    (P : File → Type 0) (p : File → Bool) (dir : Directory) → All P dir → All P (filter_by p dir)
All-filter_by P p [] h = tt
All-filter_by P p (f ∷ dir) h =
    if-ind (All P) (p f) (λ _. (h.0, All-filter_by P p dir h.1)) (λ _. All-filter_by P p dir h.1)

-- Where no job is active for a name, a new pending job for it is the one that is then found.
find_active-write_file :
    (history : ℕ → Option String) (kind : Kind) (name : String) (dir : Directory) (job : Job)
    → find_active history kind name dir ≡ no_active
    → read_pending_job (record { id = job.job_id; state = pending; content = json job }) ≡ some job
    → key_of kind job ≡ name
    → find_active history kind name (write_file job.job_id pending (json job) dir) ≡ active job
unfolding find_active write_file remove_file inspect
find_active-write_file history kind name dir job e read same =
    let f : File = record { id = job.job_id; state = pending; content = json job } in
    let quiet =
      Quiet-scan history kind name pending dir
        (or_else_none history kind name (scan history kind name (filter_by (in_state pending) dir))
          _ e).0 in
    let hit : inspect history kind name f ≡ active job =
      rw (read, inspect) (rw same (rw (eq_refl name) refl)) in
    rw
      (scan-insert_file history kind name pending f (remove_file job.job_id pending dir) job hit
        refl
        (All-filter_by (Quiet history kind name pending) (λ g. not (named job.job_id pending g)) dir
          quiet))
      refl

read_segment_job :
    (job : Job) (st : FileState)
    → is_supported job.action ≡ true
    → has_text job.segment_id ≡ true
    → has_text job.recording_id ≡ false
    → read_pending_job (record { id = job.job_id; state = st; content = json job }) ≡ some job
unfolding read_pending_job
read_segment_job job st supported one other = rw (supported, one, other) (ground arith)

quiet_of_accepted :
    (history : ℕ → Option String) (job : Job) (dir : Directory) (found : Search)
    → (answer history job dir found).1 ≡ accepted job
    → (found ≡ no_active)
      × ((answer history job dir found).0 ≡ write_file job.job_id pending (json job) dir)
unfolding answer
quiet_of_accepted history job dir no_active e = (refl, refl)
quiet_of_accepted history job dir (corrupt i) e = absurd cc
quiet_of_accepted history job dir (active existing) e = absurd (
    if-ind (λ x. x ≢ accepted job) (same_request history existing job) (λ _. λ k. cc) (λ _. λ k. cc)
      e)

without_recording :
    (history : ℕ → Option String) (first later : Search)
    → unless_recording history true first later ≡ first
without_recording history no_active later = refl
without_recording history (active job) later = refl
without_recording history (corrupt i) later = refl

find_existing_lem :
    (history : ℕ → Option String) (name other : String) (dir : Directory)
    → other ≡ ""
    → find_existing history name other dir ≡ find_active history segment name dir
unfolding find_existing
find_existing_lem history name other dir e =
    rw e (without_recording history (find_active history segment name dir) _)

-- When a job of a supported action on a named segment, and on no recording, has been accepted, a
-- second submission for that segment alone writes nothing: it gets the job that is there if it
-- asks for the same action with the same payload, and a conflict otherwise.
pub submit_job-submit_job :
    (history : ℕ → Option String) (job again : Job) (dir : Directory)
    → (submit_job history job dir).1 ≡ accepted job
    → is_supported job.action ≡ true
    → has_text job.segment_id ≡ true
    → job.recording_id ≡ ""
    → again.segment_id ≡ job.segment_id
    → again.recording_id ≡ ""
    → submit_job history again (submit_job history job dir).0 ≡ (
      (submit_job history job dir).0,
      if same_request history job again then already_pending job else conflict,
    )
unfolding submit_job answer strip
submit_job-submit_job history job again dir ok supported one other same other' =
    let was =
      quiet_of_accepted history job dir (find_existing history job.segment_id job.recording_id dir)
        ok in
    let quiet : find_active history segment job.segment_id dir ≡ no_active =
      sym (find_existing_lem history job.segment_id job.recording_id dir other) ∙ was.0 in
    let read = read_segment_job job pending supported one (rw other refl) in
    let hit = find_active-write_file history segment job.segment_id dir job quiet read refl in
    rw was.1 (
      rw (find_existing_lem history again.segment_id again.recording_id _ other')
        (rw same (rw hit refl)))
