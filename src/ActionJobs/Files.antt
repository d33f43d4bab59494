-- ===== src/ActionJobs/Files.antt =====
-- The job files of src/server/action_jobs.py. A directory lists its files in the order of their ids,
-- so `sorted(root.glob("*.state.json"))` is a selection of it. A job id, 32 hexadecimal digits, is the
-- number it writes; a file whose name has no such id is not modelled. A payload is its JSON text.
use bilive.Base.{
  has_text, ℕ, String, ◌≡◌, refl, Bool, true, not, ◌&&◌, ◌||◌, Option, none, some, List, [], ◌∷◌,
  arith, ◌==◌, leb, if◌then◌else◌, filter_by, any, str_eq, ◌∙◌,
}

pub data FileState : Type 0 where
  pending processing done failed invalid : FileState

pub data Phase : Type 0 where
  queued raw_render asr analysis subtitle_burn metadata queue complete failed : Phase

pub record Progress : Type 0 where
  pub phase : Phase
  pub percent : ℕ
  pub message : String
  pub last_phase : Option Phase

-- `worker_pid` is 0 where the job has none, and `created_ns` is `none` where the file has a value that
-- `int` does not take.
pub record Job : Type 0 where
  pub job_id : ℕ
  pub action : String
  pub segment_id : String
  pub recording_id : String
  pub payload : String
  pub status : FileState
  pub progress : Progress
  pub created_at : ℕ
  pub created_ns : Option ℕ
  pub updated_at : ℕ
  pub worker_pid : ℕ

pub data Content : Type 0 where
  json : Job → Content
  unreadable : Content

pub record File : Type 0 where
  pub id : ℕ
  pub state : FileState
  pub content : Content

abbrev pub Directory : Type 0
Directory = List File

abbrev state_code : FileState → ℕ
state_code pending = 0
state_code processing = 1
state_code done = 2
state_code FileState.failed = 3
state_code invalid = 4

abbrev pub in_state : FileState → File → Bool
in_state st f = state_code f.state == state_code st

abbrev pub named : ℕ → FileState → File → Bool
named i st f = (f.id == i) && in_state st f

unfoldable pub remove_file : ℕ → FileState → Directory → Directory
remove_file i st dir = filter_by (λ f. not (named i st f)) dir

unfoldable pub insert_file : File → Directory → Directory
insert_file f [] = f ∷ []
insert_file f (g ∷ dir) =
    let rest = insert_file f dir in if leb f.id g.id then f ∷ g ∷ dir else g ∷ rest

-- `_write_json_atomic`
unfoldable pub write_file : ℕ → FileState → Content → Directory → Directory
write_file i st content dir =
    insert_file (record { id = i; state = st; content = content }) (remove_file i st dir)

-- os.replace to the name of another state
unfoldable pub move_file : File → FileState → Content → Directory → Directory
unfolding write_file remove_file
move_file f st content dir = write_file f.id st content (remove_file f.id f.state dir)

abbrev supported_actions : List String
supported_actions =
    "remux_recording" ∷ "retry_judge" ∷ "render_segment" ∷ "reburn_subtitles" ∷ "finalize_segment"
    ∷ "create_missed_segment" ∷ "trash_recording" ∷ "retry_upload" ∷ "approve_publish" ∷ []

unfoldable pub is_supported : String → Bool
is_supported action = any (λ a. str_eq a action) supported_actions

-- Exactly one of the two targets.
abbrev pub has_one_target : String → String → Bool
has_one_target segment recording =
    (has_text segment || has_text recording) && not (has_text segment && has_text recording)

unfoldable pub read_pending_job : File → Option Job
read_pending_job f = elim f.content [
  | unreadable ↦ none
  | json job ↦
      if (job.job_id == f.id)
        && is_supported job.action
        && has_one_target job.segment_id job.recording_id
      then some job
      else none
]

-- `_quarantine_invalid_pending`, where an OSError keeps the files of some ids from being renamed.
unfoldable pub quarantine_invalid_pending : (ℕ → Bool) → File → Directory → Directory
quarantine_invalid_pending stuck f dir =
    if stuck f.id then dir else move_file f invalid f.content dir

-- Whether there is a file with an id, in whatever state.
abbrev pub has_id : ℕ → Directory → Bool
has_id i dir = any (λ f. f.id == i) dir

pub any-insert_file :
    (p : File → Bool) (f : File) (dir : Directory) → any p (insert_file f dir) ≡ (p f || any p dir)
unfolding insert_file
any-insert_file p f [] = refl
any-insert_file p f (g ∷ dir) = ground (arith, any-insert_file p f dir)

has_id-remove_file :
    (i j : ℕ) (st : FileState) (dir : Directory)
    → has_id i dir ≡ true
    → ((j == i) || has_id i (remove_file j st dir)) ≡ true
unfolding remove_file
has_id-remove_file i j st [] h = cc
has_id-remove_file i j st (f ∷ dir) h = ground (arith, has_id-remove_file i j st dir)

pub has_id-write_file :
    (i j : ℕ) (st : FileState) (c : Content) (dir : Directory)
    → has_id i dir ≡ true
    → has_id i (write_file j st c dir) ≡ true
unfolding write_file
has_id-write_file i j st c dir h =
    any-insert_file (λ f. f.id == i) (record { id = j; state = st; content = c })
      (remove_file j st dir)
    ∙ has_id-remove_file i j st dir h

pub has_id-move_file :
    (i : ℕ) (f : File) (st : FileState) (c : Content) (dir : Directory)
    → has_id i dir ≡ true
    → has_id i (move_file f st c dir) ≡ true
unfolding move_file write_file
has_id-move_file i f st c dir h =
    any-insert_file (λ g. g.id == i) (record { id = f.id; state = st; content = c })
      (remove_file f.id st (remove_file f.id f.state dir))
    ∙ ground (
      arith,
      has_id-remove_file i f.id f.state dir h,
      has_id-remove_file i f.id st (remove_file f.id f.state dir),
    )
