-- ===== src/ActionJobs/Counts.antt =====
-- The number of files that wait in the directory of src/server/action_jobs.py, under the operations of
-- its worker.
use bilive.Base.{
  ◌≢◌, if-ind, ℕ, ◌+◌, ◌≤◌, ◌<◌, ◌≡◌, refl, Bool, true, false, not, ◌&&◌, List, [], ◌∷◌, inl, inr,
  arith, ◌==◌, length, filter_by, any, All, Bool-cases, Option-cases,
}
use bilive.ActionJobs.Files.{
  FileState, pending, processing, invalid, Job, Content, File, Directory, in_state, named,
  remove_file, insert_file, write_file, move_file, read_pending_job, quarantine_invalid_pending,
}
use bilive.ActionJobs.Work.{
  Claim, claimed, raised, is_misdated, passed, quarantine_all, candidates, oldest_from, claim_from,
  claim_next_action_job,
}
use bilive.ActionJobs.Claims.{All-oldest_from}
use bilive.ActionJobs.Loop.{pending_count}

abbrev pub count : (File → Bool) → Directory → ℕ
count p dir = length (filter_by p dir)

-- A test that only pending files pass.
abbrev pub OnPending : (File → Bool) → Type 0
OnPending p = (f : File) → in_state pending f ≡ false → p f ≡ false

pub count-remove_file :
    (p : File → Bool) (i : ℕ) (st : FileState) (dir : Directory)
    → count p (remove_file i st dir) ≤ count p dir
unfolding remove_file
count-remove_file p i st [] = ground arith
count-remove_file p i st (f ∷ dir) = ground (arith, count-remove_file p i st dir)

count-insert_file :
    (p : File → Bool) (f : File) (dir : Directory)
    → p f ≡ false
    → count p (insert_file f dir) ≡ count p dir
unfolding insert_file
count-insert_file p f [] miss = ground arith
count-insert_file p f (g ∷ dir) miss = ground (arith, count-insert_file p f dir miss)

pub count-write_file :
    (p : File → Bool) (i : ℕ) (st : FileState) (c : Content) (dir : Directory)
    → p (record { id = i; state = st; content = c }) ≡ false
    → count p (write_file i st c dir) ≤ count p dir
unfolding write_file
count-write_file p i st c dir miss =
    let inserted =
      count-insert_file p (record { id = i; state = st; content = c }) (remove_file i st dir)
        miss in
    rw inserted (count-remove_file p i st dir)

pub ≤_chain : (a b c : ℕ) → a ≤ b → b ≤ c → a ≤ c
≤_chain a b c h k = omega arith

pub count-move_file :
    (p : File → Bool) (f : File) (st : FileState) (c : Content) (dir : Directory)
    → p (record { id = f.id; state = st; content = c }) ≡ false
    → count p (move_file f st c dir) ≤ count p (remove_file f.id f.state dir)
unfolding move_file
count-move_file p f st c dir miss = count-write_file p f.id st c (remove_file f.id f.state dir) miss

count-quarantine_invalid_pending :
    (p : File → Bool)
    → OnPending p
    → (stuck : ℕ → Bool) (f : File) (dir : Directory)
    → count p (quarantine_invalid_pending stuck f dir) ≤ count p dir
unfolding quarantine_invalid_pending
count-quarantine_invalid_pending p on stuck f dir =
    if-ind (λ d. count p d ≤ count p dir) (stuck f.id) (λ _. omega arith)
      (λ _.
        ≤_chain _ _ _
          (count-move_file p f invalid f.content dir (on (record f { state = invalid }) refl))
          (count-remove_file p f.id f.state dir))

pub count-quarantine_all :
    (p : File → Bool)
    → OnPending p
    → (stuck : ℕ → Bool) (fs dir : Directory) → count p (quarantine_all stuck fs dir) ≤ count p dir
unfolding quarantine_all
count-quarantine_all p on stuck [] dir = omega arith
count-quarantine_all p on stuck (f ∷ fs) dir = elim (Option-cases (read_pending_job f)) [
  | inr (job, found) ↦ rw (found, quarantine_all) (count-quarantine_all p on stuck fs dir)
  | inl missing ↦
      rw (missing, quarantine_all)
        (≤_chain _ _ _ (count-quarantine_all p on stuck fs _)
          (count-quarantine_invalid_pending p on stuck f dir))
]

-- A file that is waiting: one with its id.
abbrev pub waiting_as : ℕ → File → Bool
waiting_as i f = named i pending f

abbrev waiting_other : ℕ → File → Bool
waiting_other i f = in_state pending f && not (f.id == i)

count_split :
    (i : ℕ) (dir : Directory)
    → count (in_state pending) dir ≡ count (waiting_as i) dir + count (waiting_other i) dir
count_split i [] = refl
count_split i (f ∷ dir) = ground (arith, count_split i dir)

pub count-removed : (i : ℕ) (dir : Directory) → count (waiting_as i) (remove_file i pending dir) ≡ 0
unfolding remove_file
count-removed i [] = refl
count-removed i (f ∷ dir) = ground (arith, count-removed i dir)

pub at_most_0 : (n m : ℕ) → n ≤ m → m ≡ 0 → n ≡ 0
at_most_0 n m h e = omega arith

pub count-member :
    (p : File → Bool) (f : File) (dir : Directory) → any (λ g. p g) dir ≡ true → 0 < count p dir
count-member p f [] h = absurd (ground arith)
count-member p f (g ∷ dir) h = ground (arith, count-member p f dir)

-- Taking a file that was waiting leaves one less, whatever was quarantined before.
count-taken :
    (f : File) (st : FileState) (c : Content) (dir after : Directory)
    → in_state pending (record { id = f.id; state = st; content = c }) ≡ false
    → f.state ≡ pending
    → any (waiting_as f.id) dir ≡ true
    → count (waiting_other f.id) after ≤ count (waiting_other f.id) dir
    → count (in_state pending) (move_file f st c after) < count (in_state pending) dir
count-taken f st c dir after miss at there fewer =
    let other = count-move_file (waiting_other f.id) f st c after (ground arith) in
    let less = count-remove_file (waiting_other f.id) f.id f.state after in
    let named_here = count-move_file (waiting_as f.id) f st c after (ground arith) in
    let gone : count (waiting_as f.id) (remove_file f.id f.state after) ≡ 0 =
      rw at (count-removed f.id after) in
    let before = count-member (waiting_as f.id) f dir there in
    let a = count_split f.id (move_file f st c after) in let b = count_split f.id dir in omega arith

state_pending :
    (i : ℕ) (st : FileState) (c : Content)
    → in_state pending (record { id = i; state = st; content = c }) ≡ true
    → st ≡ pending
state_pending i pending c t = refl
state_pending i processing c t = absurd cc
state_pending i FileState.done c t = absurd cc
state_pending i FileState.failed c t = absurd cc
state_pending i invalid c t = absurd cc

pub All-map :
    (fs : List File) (P Q : File → Type 0) → ((f : File) → P f → Q f) → All P fs → All Q fs
All-map [] P Q g h = tt
All-map (f ∷ fs) P Q g h = (g f h.0, All-map fs P Q g h.1)

All-candidates :
    (P : File → Type 0) (fs : List File)
    → All P fs
    → All (λ (c : File × Job). P c.0) (candidates fs)
unfolding candidates
All-candidates P [] h = tt
All-candidates P (f ∷ fs) h = elim (Option-cases (read_pending_job f)) [
  | inl missing ↦ rw (missing, candidates) (All-candidates P fs h.1)
  | inr (job, found) ↦ rw (found, candidates) (h.0, All-candidates P fs h.1)
]

abbrev pub Waits : Directory → File → Type 0
Waits dir f = (f.state ≡ pending) × (any (waiting_as f.id) dir ≡ true)

pub All-Waits : (dir : Directory) → All (Waits dir) (filter_by (in_state pending) dir)
All-Waits [] = tt
All-Waits (f ∷ dir) =
    let later =
      All-map (filter_by (in_state pending) dir) (Waits dir) (Waits (f ∷ dir))
        (λ g h. (h.0, ground arith)) (All-Waits dir) in
    elim (Bool-cases (in_state pending f)) [
      | inr n ↦ rw n later
      | inl t ↦ rw t ((state_pending f.id f.state f.content t, ground arith), later)
    ]

count-claim_from :
    (pid now : ℕ) (dir after : Directory) (cs : List (File × Job)) (job : Job)
    → ((p : File → Bool) → OnPending p → count p after ≤ count p dir)
    → All (λ (c : File × Job). Waits dir c.0) cs
    → (claim_from pid now after cs).1 ≡ claimed job
    → count (in_state pending) (claim_from pid now after cs).0 < count (in_state pending) dir
unfolding claim_from
count-claim_from pid now dir after [] job fewer waits e = absurd cc
count-claim_from pid now dir after (c ∷ cs) job fewer waits e =
    let f = (oldest_from c cs).0 in
    let w = All-oldest_from (λ (d : File × Job). Waits dir d.0) c cs waits in
    count-taken f processing _ dir after refl w.0 w.1
      (fewer (waiting_other f.id) (λ g n. ground arith))

pub raised_ne_claimed : (job : Job) → raised ≢ claimed job
raised_ne_claimed job e = cc

pub count-claim_next_action_job :
    (stuck : ℕ → Bool) (pid now : ℕ) (dir : Directory) (job : Job)
    → (claim_next_action_job stuck pid now dir).1 ≡ claimed job
    → pending_count (claim_next_action_job stuck pid now dir).0 < pending_count dir
unfolding claim_next_action_job
count-claim_next_action_job stuck pid now dir job e =
    let waiting = filter_by (in_state pending) dir in
    elim (Bool-cases (any is_misdated waiting)) [
      | inl t ↦ absurd (raised_ne_claimed job (rw t at e))
      | inr f ↦ rw f (
          count-claim_from pid now dir (quarantine_all stuck waiting dir) (candidates waiting) job
            (λ p on. count-quarantine_all p on stuck waiting dir)
            (All-candidates (Waits dir) waiting (All-Waits dir)) (rw f at e))
    ]

pub count_claimed :
    (p : File → Bool)
    → OnPending p
    → (pid now : ℕ) (dir : Directory) (cs : List (File × Job))
    → count p (claim_from pid now dir cs).0 ≤ count p dir
unfolding claim_from
count_claimed p on pid now dir [] = omega arith
count_claimed p on pid now dir (c ∷ cs) =
    let f = (oldest_from c cs).0 in
    ≤_chain _ _ _
      (count-move_file p f processing _ dir
        (on (record f { state = processing; content = _ }) refl))
      (count-remove_file p f.id f.state dir)

-- A claim makes no file wait.
pub count_after_claim :
    (p : File → Bool)
    → OnPending p
    → (stuck : ℕ → Bool) (pid now : ℕ) (dir : Directory)
    → count p (claim_next_action_job stuck pid now dir).0 ≤ count p dir
unfolding claim_next_action_job
count_after_claim p on stuck pid now dir =
    let waiting = filter_by (in_state pending) dir in
    if-ind (λ (d : Directory × Claim). count p d.0 ≤ count p dir) (any is_misdated waiting)
      (λ _. count-quarantine_all p on stuck (passed waiting) dir)
      (λ _.
        ≤_chain _ _ _ (count_claimed p on pid now _ (candidates waiting))
          (count-quarantine_all p on stuck waiting dir))
