-- ===== src/ActionJobs/Drained.antt =====
-- How the loop of src/server/action_jobs.py empties the directory of pending jobs.
use bilive.Base.{
  ◌≢◌, ◌⊎◌, not, ◌&&◌, ==_iff, ℕ, zero, suc, ◌≤◌, ◌<◌, String, ◌≡◌, refl, Bool, true, false, none,
  some, List, [], ◌∷◌, inl, inr, arith, ◌==◌, if◌then◌else◌, filter_by, any, All, Bool-cases,
  Option-cases, ◌∙◌, sym,
}
use bilive.ActionJobs.Files.{
  Content, FileState, pending, processing, invalid, Phase, Job, json, File, Directory, in_state,
  remove_file, move_file, read_pending_job, quarantine_invalid_pending,
}
use bilive.ActionJobs.Work.{
  Claim, idle, claimed, raised, is_misdated, quarantine_all, candidates, claim_from,
  claim_next_action_job, recover_action_jobs, persist_progress, report, mark_failed_progress,
  finish_job,
}
use bilive.ActionJobs.Counts.{
  at_most_0, OnPending, count-quarantine_all, count_after_claim, count, waiting_as, Waits,
  count-remove_file, count-write_file, count-move_file, ≤_chain, All-map, All-Waits,
  count-claim_next_action_job, count-member, count-removed,
}
use bilive.ActionJobs.Loop.{
  LoopEnd, ended, stopped, Execution, report_all, close_job, work, pending_count, counted,
  then_work, process_pending, process_action_jobs,
}

any_counted : (p : File → Bool) (dir : Directory) → 0 < count p dir → any (λ g. p g) dir ≡ true
any_counted p [] h = absurd (omega arith)
any_counted p (f ∷ dir) h = ground (arith, any_counted p dir)

-- A waiting file that can be moved, one that can be read, and one whose time is no number.
abbrev pub is_free : (ℕ → Bool) → File → Bool
is_free stuck f = in_state pending f && not (stuck f.id)

abbrev pub is_readable : File → Bool
is_readable f = in_state pending f && elim (read_pending_job f) [ none ↦ false | some job ↦ true ]

abbrev pub waits_misdated : File → Bool
waits_misdated f = in_state pending f && is_misdated f

none_waiting :
    (stuck : ℕ → Bool) (dir : Directory)
    → ((i : ℕ) → stuck i ≡ false → any (waiting_as i) dir ≡ false)
    → count (is_free stuck) dir ≡ 0
none_waiting stuck [] h = refl
none_waiting stuck (f ∷ dir) h =
    let here = h f.id in
    ground (arith, none_waiting stuck dir (λ i n. let k = h i n in ground arith))

waiting-quarantined :
    (f : File) (fs dir : Directory) (i : ℕ)
    → f.state ≡ pending
    → (any (waiting_as i) dir ≡ true → any (waiting_as i) (f ∷ fs) ≡ true)
    → any (waiting_as i) (move_file f invalid f.content dir) ≡ true
    → any (waiting_as i) fs ≡ true
waiting-quarantined f fs dir i at covered h =
    let left = count-member (waiting_as i) f (move_file f invalid f.content dir) h in
    let moved = count-move_file (waiting_as i) f invalid f.content dir (ground arith) in
    let kept = count-remove_file (waiting_as i) f.id f.state dir in
    elim (Bool-cases (f.id == i)) [
      | inl same ↦
          let this : f.id ≡ i = (==_iff f.id i).0 same in
          let gone : count (waiting_as i) (remove_file f.id f.state dir) ≡ 0 =
            rw (at, this) (count-removed i dir) in
          absurd (omega arith)
      | inr other ↦
          let there = covered (any_counted (waiting_as i) dir (omega arith)) in ground arith
    ]

waiting_past :
    (stuck : ℕ → Bool) (f : File) (fs : Directory) (i : ℕ)
    → stuck f.id ≡ true
    → stuck i ≡ false
    → any (waiting_as i) (f ∷ fs) ≡ true
    → any (waiting_as i) fs ≡ true
waiting_past stuck f fs i t n h = elim (Bool-cases (f.id == i)) [
  | inl same ↦
      let this : f.id ≡ i = (==_iff f.id i).0 same in
      let both : stuck i ≡ true = rw this at t in absurd cc
  | inr other ↦ ground arith
]

candidates_found :
    (f : File) (job : Job) (fs : Directory)
    → read_pending_job f ≡ some job
    → candidates (f ∷ fs) ≡ (f, job) ∷ candidates fs
unfolding candidates
candidates_found f job fs found = rw (found, candidates) refl

candidates_missing :
    (f : File) (fs : Directory) → read_pending_job f ≡ none → candidates (f ∷ fs) ≡ candidates fs
unfolding candidates
candidates_missing f fs missing = rw (missing, candidates) refl

count-quarantined :
    (stuck : ℕ → Bool) (fs dir : Directory)
    → candidates fs ≡ []
    → All (λ (f : File). f.state ≡ pending) fs
    → ((i : ℕ) → stuck i ≡ false → any (waiting_as i) dir ≡ true → any (waiting_as i) fs ≡ true)
    → count (is_free stuck) (quarantine_all stuck fs dir) ≡ 0
unfolding quarantine_all quarantine_invalid_pending
count-quarantined stuck [] dir e at covered = none_waiting stuck dir (λ i n.
    elim (Bool-cases (any (waiting_as i) dir)) [
      | inl t ↦ let bad : false ≡ true = covered i n t in absurd cc
      | inr f ↦ f
    ])
count-quarantined stuck (f ∷ fs) dir e at covered = elim (Option-cases (read_pending_job f)) [
  | inr (job, found) ↦
      let bad : (f, job) ∷ candidates fs ≡ [] = sym (candidates_found f job fs found) ∙ e in
      absurd cc
  | inl missing ↦
      let rest : candidates fs ≡ [] = sym (candidates_missing f fs missing) ∙ e in
      elim (Bool-cases (stuck f.id)) [
        | inl t ↦
            rw (missing, quarantine_all)
              (rw t (
                count-quarantined stuck fs dir rest at.1
                  (λ i n h. waiting_past stuck f fs i t n (covered i n h))))
        | inr free ↦
            rw (missing, quarantine_all)
              (rw free (
                count-quarantined stuck fs (move_file f invalid f.content dir) rest at.1
                  (λ i n. waiting-quarantined f fs dir i at.0 (covered i n))))
      ]
]

any-waiting :
    (i : ℕ) (dir : Directory)
    → any (waiting_as i) dir ≡ true
    → any (waiting_as i) (filter_by (in_state pending) dir) ≡ true
any-waiting i [] h = cc
any-waiting i (f ∷ dir) h = ground (arith, any-waiting i dir)

unread_candidates :
    (dir : Directory)
    → candidates (filter_by (in_state pending) dir) ≡ []
    → count is_readable dir ≡ 0
unread_candidates [] e = refl
unread_candidates (f ∷ dir) e = elim (Bool-cases (in_state pending f)) [
  | inr n ↦ rw n (unread_candidates dir (rw n at e))
  | inl t ↦ elim (Option-cases (read_pending_job f)) [
    | inr (job, found) ↦
        let bad : (f, job) ∷ candidates (filter_by (in_state pending) dir) ≡ [] =
          sym (candidates_found f job _ found) ∙ rw t at e in
        absurd cc
    | inl missing ↦
        rw (t, missing) (unread_candidates dir (sym (candidates_missing f _ missing) ∙ rw t at e))
  ]
]

-- A claim that gives no job: what waits still can be neither read nor moved.
record Exhausted (stuck : ℕ → Bool) (dir : Directory) : Type 0 where
  free : count (is_free stuck) dir ≡ 0
  unread : count is_readable dir ≡ 0

Exhausted-unclaimed :
    (stuck : ℕ → Bool) (pid now : ℕ) (dir : Directory) (cs : List (File × Job))
    → (cs ≡ [] → Exhausted stuck dir)
    → (claim_from pid now dir cs).1 ≡ idle
    → Exhausted stuck (claim_from pid now dir cs).0
unfolding claim_from
Exhausted-unclaimed stuck pid now dir [] empty e = empty refl
Exhausted-unclaimed stuck pid now dir (c ∷ cs) empty e = absurd cc

OnPending-is_readable : OnPending is_readable
OnPending-is_readable f n = rw n refl

OnPending-waits_misdated : OnPending waits_misdated
OnPending-waits_misdated f n = rw n refl

Exhausted-claim_next_action_job :
    (stuck : ℕ → Bool) (pid now : ℕ) (dir : Directory)
    → (claim_next_action_job stuck pid now dir).1 ≡ idle
    → Exhausted stuck (claim_next_action_job stuck pid now dir).0
unfolding claim_next_action_job
Exhausted-claim_next_action_job stuck pid now dir e =
    let waiting = filter_by (in_state pending) dir in
    elim (Bool-cases (any is_misdated waiting)) [
      | inl t ↦ let bad : raised ≡ idle = rw t at e in absurd cc
      | inr f ↦ rw f (
          Exhausted-unclaimed stuck pid now (quarantine_all stuck waiting dir) (candidates waiting)
            (λ empty. record {
              free =
                  count-quarantined stuck waiting dir empty
                    (All-map waiting (Waits dir) (λ (g : File). g.state ≡ pending) (λ g h. h.0)
                      (All-Waits dir))
                    (λ i _ h. any-waiting i dir h);
              unread =
                  at_most_0 _ _
                    (count-quarantine_all is_readable OnPending-is_readable stuck waiting dir)
                    (unread_candidates dir empty);
            })
            (rw f at e))
    ]

any_misdated :
    (dir : Directory)
    → any is_misdated (filter_by (in_state pending) dir) ≡ true
    → 0 < count waits_misdated dir
any_misdated [] h = absurd (ground arith)
any_misdated (f ∷ dir) h = ground (arith, any_misdated dir)

claim_from_ne_raised :
    (pid now : ℕ) (dir : Directory) (cs : List (File × Job))
    → (claim_from pid now dir cs).1 ≢ raised
unfolding claim_from
claim_from_ne_raised pid now dir [] e = cc
claim_from_ne_raised pid now dir (c ∷ cs) e = cc

claim_misdated :
    (stuck : ℕ → Bool) (pid now : ℕ) (dir : Directory)
    → (claim_next_action_job stuck pid now dir).1 ≡ raised
    → 0 < count waits_misdated dir
unfolding claim_next_action_job
claim_misdated stuck pid now dir e =
    let waiting = filter_by (in_state pending) dir in
    elim (Bool-cases (any is_misdated waiting)) [
      | inl t ↦ any_misdated dir t
      | inr f ↦ absurd (
          claim_from_ne_raised pid now (quarantine_all stuck waiting dir) (candidates waiting)
            (rw f at e))
    ]

module _ (p : File → Bool) (on : OnPending p) where
  count-persist_progress :
      (job : Job) (dir : Directory) → count p (persist_progress job dir) ≤ count p dir
  unfolding persist_progress
  count-persist_progress job dir =
      let written = count-write_file p job.job_id processing (json job) dir (on _ refl) in
      ground arith

  count-report_all :
      (reports : List (Phase × ℕ × String)) (now : ℕ) (dir : Directory) (job : Job)
      → count p (report_all reports now dir job).0 ≤ count p dir
  unfolding report_all report
  count-report_all [] now dir job = omega arith
  count-report_all ((phase, percent, message) ∷ reports) now dir job =
      ≤_chain _ _ _ (count-report_all reports now _ _) (count-persist_progress _ dir)

  count-finish_job :
      (job : Job) (st : FileState) (now : ℕ) (dir : Directory)
      → ((c : Content) → p (record { id = job.job_id; state = st; content = c }) ≡ false)
      → count p (finish_job job st now dir) ≤ count p dir
  unfolding finish_job
  count-finish_job job st now dir miss =
      ≤_chain _ _ _ (count-remove_file p job.job_id processing _)
        (count-write_file p job.job_id st _ dir (miss _))

  count-close_job :
      (e : Execution) (now : ℕ) (dir : Directory) (job : Job)
      → count p (close_job e now dir job) ≤ count p dir
  unfolding close_job report mark_failed_progress
  count-close_job e now dir job = elim (Bool-cases e.is_ok) [
    | inl t ↦ rw t (
        ≤_chain _ _ _ (count-finish_job _ FileState.done now _ (λ c. on _ refl))
          (count-persist_progress _ dir))
    | inr f ↦ rw f (
        ≤_chain _ _ _ (count-finish_job _ FileState.failed now _ (λ c. on _ refl))
          (count-persist_progress _ dir))
  ]

  count-work :
      (execute : Job → Execution) (now : ℕ) (job : Job) (dir : Directory)
      → count p (work execute now job dir) ≤ count p dir
  unfolding work
  count-work execute now job dir =
      ≤_chain _ _ _ (count-close_job (execute job) now _ _)
        (count-report_all (execute job).reports now dir job)

-- The loop came to an end: no waiting file is left that can be moved or read, and no more jobs were
-- completed than `n`.
pub record Drained (stuck : ℕ → Bool) (n : ℕ) (ending : LoopEnd) : Type 0 where
  pub dir : Directory
  pub completed : ℕ
  pub is_ended : ending ≡ ended dir completed
  pub none_free : count (is_free stuck) dir ≡ 0
  pub none_readable : count is_readable dir ≡ 0
  pub bounded : completed ≤ n

-- A claim raised; `misdated` is the number of waiting jobs whose time is no number.
pub record Stopped (misdated : ℕ) (ending : LoopEnd) : Type 0 where
  pub dir : Directory
  pub is_stopped : ending ≡ stopped dir
  pub some_misdated : 0 < misdated

abbrev Closed : (ℕ → Bool) → ℕ → ℕ → LoopEnd → Type 0
Closed stuck n m ending = Drained stuck n ending ⊎ Stopped m ending

Closed-counted :
    (stuck : ℕ → Bool) (ok : Bool) (n n' m m' : ℕ) (ending : LoopEnd)
    → n < n'
    → m ≤ m'
    → Closed stuck n m ending
    → Closed stuck n' m' (counted ok ending)
Closed-counted stuck ok n n' m m' ending less fewer (inl d) =
    let bound = d.bounded in
    inl (record {
      dir = d.dir;
      completed = if ok then suc d.completed else d.completed;
      is_ended = rw d.is_ended refl;
      none_free = d.none_free;
      none_readable = d.none_readable;
      bounded = ground arith;
    })
Closed-counted stuck ok n n' m m' ending less fewer (inr s) =
    let some' = s.some_misdated in
    inr (record { dir = s.dir; is_stopped = rw s.is_stopped refl; some_misdated = omega arith })

module _ (execute : Job → Execution) (stuck : ℕ → Bool) (pid now : ℕ) where
  Closed-then_work :
      (n m : ℕ) (dir : Directory) (claim : Claim) (next : Directory → LoopEnd)
      → (claim ≡ idle → Exhausted stuck dir)
      → (claim ≡ raised → 0 < m)
      → ((job : Job) → claim ≡ claimed job → pending_count dir < n)
      → count waits_misdated dir ≤ m
      → ((job : Job)
          → claim ≡ claimed job
          → (d : Directory) → pending_count d ≤ pending_count dir
          → Closed stuck (pending_count d) (count waits_misdated d) (next d))
      → Closed stuck n m (then_work execute stuck pid now dir claim next)
  Closed-then_work n m dir idle next empty bad less most ih =
      let x = empty refl in
      inl (record {
        dir = dir;
        completed = 0;
        is_ended = refl;
        none_free = x.free;
        none_readable = x.unread;
        bounded = omega arith;
      })
  Closed-then_work n m dir raised next empty bad less most ih =
      inr (record { dir = dir; is_stopped = refl; some_misdated = bad refl })
  Closed-then_work n m dir (claimed job) next empty bad less most ih =
      let after = work execute now job dir in
      let fewer = count-work (in_state pending) (λ f h. h) execute now job dir in
      let kept = count-work waits_misdated OnPending-waits_misdated execute now job dir in
      let below = less job refl in
      Closed-counted stuck (execute job).is_ok (pending_count after) n (count waits_misdated after)
        m (next after) (omega arith) (omega arith) (ih job refl after fewer)

  Closed-process_pending :
      (fuel : ℕ) (dir : Directory)
      → pending_count dir < fuel
      → Closed stuck
          (pending_count dir)
          (count waits_misdated dir)
          (process_pending execute stuck pid now fuel dir)
  unfolding process_pending
  Closed-process_pending zero dir h = absurd (omega arith)
  Closed-process_pending (suc fuel) dir h =
      Closed-then_work (pending_count dir) (count waits_misdated dir)
        (claim_next_action_job stuck pid now dir).0 (claim_next_action_job stuck pid now dir).1
        (process_pending execute stuck pid now fuel)
        (λ e. Exhausted-claim_next_action_job stuck pid now dir e)
        (λ e. claim_misdated stuck pid now dir e)
        (λ job e. count-claim_next_action_job stuck pid now dir job e)
        (count_after_claim waits_misdated OnPending-waits_misdated stuck pid now dir)
        (λ job e d k.
          let less = count-claim_next_action_job stuck pid now dir job e in
          Closed-process_pending fuel d (omega arith))

  -- The loop ends, whatever the work of the jobs is, as long as nobody submits another: one turn for each
  -- job that waits after the recovery and one more are enough. Either no waiting file is left but unreadable
  -- ones that cannot be renamed, and no more jobs were completed than waited; or a claim raised, and then a
  -- job waited after the recovery whose time is no number.
  pub process_action_jobs-Drained :
      (pid_checker : ℕ → Bool) (dir : Directory)
      → Drained stuck
          (pending_count (recover_action_jobs stuck pid_checker now dir).0)
          (process_action_jobs execute stuck pid now pid_checker dir)
        ⊎ Stopped
            (count waits_misdated (recover_action_jobs stuck pid_checker now dir).0)
            (process_action_jobs execute stuck pid now pid_checker dir)
  unfolding process_action_jobs
  process_action_jobs-Drained pid_checker dir =
      let recovered = (recover_action_jobs stuck pid_checker now dir).0 in
      Closed-process_pending (suc (pending_count recovered)) recovered (omega arith)
