-- ===== src/ActionJobs/Claims.antt =====
-- The choice of `claim_next_action_job` in src/server/action_jobs.py.
use bilive.Base.{
  ◌≡◌, true, false, some, List, [], ◌∷◌, inl, inr, arith, filter_by, All, Bool-cases, Option-cases,
  if-ind,
}
use bilive.ActionJobs.Files.{FileState, Job, File, Directory, in_state, read_pending_job}
use bilive.ActionJobs.Work.{candidates, oldest_from, before}

abbrev pub First : Job → File × Job → Type 0
First job c = before job c.1 ≡ true

before_total : (a b : Job) → before a b ≡ false → before b a ≡ true
before_total a b e = ground arith

before_trans : (a b c : Job) → before a b ≡ true → before b c ≡ true → before a c ≡ true
before_trans a b c e f = ground arith

before_refl : (a : Job) → before a a ≡ true
before_refl a = ground arith

-- The choice comes before every candidate.
pub oldest_from_lem :
    (best : File × Job) (cs : List (File × Job)) → All (First (oldest_from best cs).1) (best ∷ cs)
unfolding oldest_from
oldest_from_lem best [] = (before_refl best.1, tt)
oldest_from_lem best (c ∷ cs) =
    if-ind (λ (o : File × Job). All (First o.1) (best ∷ c ∷ cs)) (before best.1 c.1)
      (λ t.
        let h = oldest_from_lem best cs in
        (h.0, (before_trans (oldest_from best cs).1 best.1 c.1 h.0 t, h.1)))
      (λ f.
        let h = oldest_from_lem c cs in
        (before_trans (oldest_from c cs).1 c.1 best.1 h.0 (before_total best.1 c.1 f), h))

pub All-oldest_from :
    (P : File × Job → Type 0) (best : File × Job) (cs : List (File × Job))
    → All P (best ∷ cs)
    → P (oldest_from best cs)
unfolding oldest_from
All-oldest_from P best [] h = h.0
All-oldest_from P best (c ∷ cs) h =
    if-ind P (before best.1 c.1) (λ _. All-oldest_from P best cs (h.0, h.1.1))
      (λ _. All-oldest_from P c cs h.1)

-- A file with the job that it is read as, in a state.
abbrev pub Read : FileState → File × Job → Type 0
Read st c = (read_pending_job c.0 ≡ some c.1) × (in_state st c.0 ≡ true)

pub Read-candidates :
    (st : FileState) (dir : Directory) → All (Read st) (candidates (filter_by (in_state st) dir))
unfolding candidates
Read-candidates st [] = tt
Read-candidates st (f ∷ dir) = elim (Bool-cases (in_state st f)) [
  | inr n ↦ rw n (Read-candidates st dir)
  | inl t ↦ rw t (elim (Option-cases (read_pending_job f)) [
    | inl missing ↦ rw (missing, candidates) (Read-candidates st dir)
    | inr (job, found) ↦ rw (found, candidates) ((found, t), Read-candidates st dir)
  ])
]
