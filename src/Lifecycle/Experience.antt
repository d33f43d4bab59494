-- ===== src/Lifecycle/Experience.antt =====
-- The experience log of src/dashboard/source_lifecycle.py: one line for each conclusion that a review
-- or a technical failure leaves. Ids are numbers in the order of their creation; the texts that only
-- people read (notes, reasons, evidence) are left out.
use bilive.Base.{
  ℕ, suc, String, Bool, true, false, ◌||◌, Option, none, some, List, [], ◌∷◌, ◌++◌, map, ◌==◌,
  if◌then◌else◌, filter_by, find, any, Codes, str_eq,
}
use bilive.Base.{codes, codes_empty, codes_eq}
use bilive.UploadWorker.Texts.{show, pos}
use bilive.Lifecycle.Review.{
  JudgeStatus, keep, manual_keep, drop, review, judge_failed, other, is_empty,
}
use bilive.Lifecycle.State.{RecordingState, mutate_recording_state}

pub data ExperienceType : Type 0 where
  positive negative missed_segment_positive technical_failure unresolved recording_no_content :
      ExperienceType

pub record Experience : Type 0 where
  pub experience_id : ℕ
  pub room_id : String
  pub task_id : String
  pub segment_id : String
  pub experience_type : ExperienceType
  pub reason_type : Codes
  pub dedupe_key : Codes
  pub created_at : ℕ

-- A line of the file: a record, or one that is passed over.
pub data Line : Type 0 where
  entry : Experience → Line
  damaged : Line

-- `next_id` is the id that the next record gets.
pub record ExperienceLog : Type 0 where
  pub lines : List Line
  pub next_id : ℕ

unfoldable pub records_of : List Line → List Experience
records_of [] = []
records_of (damaged ∷ lines) = records_of lines
records_of (entry e ∷ lines) = e ∷ records_of lines

-- `none` is no room asked for.
unfoldable pub read_experiences : Option String → ExperienceLog → List Experience
unfolding records_of
read_experiences none log = records_of log.lines
read_experiences (some room) log = filter_by (λ e. str_eq e.room_id room) (records_of log.lines)

abbrev pub has_key : Codes → Experience → Bool
has_key key e = codes_eq e.dedupe_key key

abbrev pub existing : Codes → ExperienceLog → Option Experience
existing key log = if codes_empty key then none else find (has_key key) (read_experiences none log)

abbrev pub with_id : ℕ → ℕ → Experience → Experience
with_id i now e = record e { experience_id = i; created_at = now }

abbrev pub appended :
    Experience → ℕ → ExperienceLog → Option Experience → ExperienceLog × Experience
appended e now log (some item) = (log, item)
appended e now log none = (
  record { lines = log.lines ++ entry (with_id log.next_id now e) ∷ []; next_id = suc log.next_id },
  with_id log.next_id now e,
)

unfoldable pub append_experience : Experience → ℕ → ExperienceLog → ExperienceLog × Experience
unfolding read_experiences
append_experience e now log = appended e now log (existing e.dedupe_key log)

-- A segment as a review leaves it; `failure` is the stage and the code of a failure, which is a
-- dictionary that is not empty.
pub record ReviewedSegment : Type 0 where
  pub segment_id : String
  pub judge_status : JudgeStatus
  pub marked_technical : Bool
  pub failure : Option (String × String)
  pub from_missed : Bool
  pub missed_reason : String
  pub revision : ℕ

abbrev pub has_failure : ReviewedSegment → Bool
has_failure s = s.marked_technical || elim s.failure [ none ↦ false | some f ↦ true ]

-- `none` is a status that leaves no experience.
abbrev pub classify : JudgeStatus → Bool → Bool → Option ExperienceType
classify judge_failed failed missed = some technical_failure
classify drop failed missed = some (if failed then technical_failure else negative)
classify review failed missed = some unresolved
classify keep failed missed = some (if missed then missed_segment_positive else positive)
classify manual_keep failed missed = some (if missed then missed_segment_positive else positive)
classify other failed missed = none

abbrev type_text : ExperienceType → Codes
type_text positive = codes "positive"
type_text negative = codes "negative"
type_text missed_segment_positive = codes "missed_segment_positive"
type_text technical_failure = codes "technical_failure"
type_text unresolved = codes "unresolved"
type_text recording_no_content = codes "recording_no_content"

abbrev or_text : String → Codes → Codes
or_text s otherwise = if str_eq s "" then otherwise else codes s

abbrev is_technical : ExperienceType → Bool
is_technical technical_failure = true
is_technical _ = false

abbrev content_reason : ReviewedSegment → Codes
content_reason s = or_text s.missed_reason (codes "content_review")

abbrev reason_of : ReviewedSegment → ExperienceType → Codes
reason_of s kind =
    if is_technical kind
    then elim s.failure [
      | none ↦ content_reason s
      | some (stage, code) ↦
          or_text stage (codes "technical") ++ 58 ∷ or_text code (codes "technical_failure")
    ]
    else content_reason s

-- f"{task_id}:{segment_id}:{experience_type}:{revision}"
unfoldable pub segment_key : String → ReviewedSegment → ExperienceType → Codes
segment_key task_id s kind =
    codes task_id
    ++ 58 ∷ (codes s.segment_id ++ 58 ∷ (type_text kind ++ 58 ∷ show (pos s.revision)))

unfoldable pub segment_experience : String → String → ReviewedSegment → ExperienceType → Experience
unfolding segment_key
segment_experience room_id task_id s kind = record {
  experience_id = 0;
  room_id = room_id;
  task_id = task_id;
  segment_id = s.segment_id;
  experience_type = kind;
  reason_type = reason_of s kind;
  dedupe_key = segment_key task_id s kind;
  created_at = 0;
}

-- f"{task_id}:recording_no_content"
unfoldable pub no_content : String → String → Experience
no_content room_id task_id = record {
  experience_id = 0;
  room_id = room_id;
  task_id = task_id;
  segment_id = "";
  experience_type = recording_no_content;
  reason_type = codes "recording_empty";
  dedupe_key = codes task_id ++ 58 ∷ codes "recording_no_content";
  created_at = 0;
}

-- The records that a review asks for, before the log is consulted.
unfoldable pub review_records : String → String → List ReviewedSegment → List Experience
unfolding segment_experience
review_records room_id task_id [] = []
review_records room_id task_id (s ∷ segments) =
    elim (classify s.judge_status (has_failure s) s.from_missed) [
      | none ↦ review_records room_id task_id segments
      | some kind ↦
          segment_experience room_id task_id s kind ∷ review_records room_id task_id segments
    ]

unfoldable pub append_all : List Experience → ℕ → ExperienceLog → ExperienceLog × List Experience
append_all [] now log = (log, [])
append_all (e ∷ es) now log =
    let (log', item) = append_experience e now log in
    let (log'', items) = append_all es now log' in (log'', item ∷ items)

unfoldable pub wanted_records : String → String → List ReviewedSegment → List Experience
unfolding review_records no_content
wanted_records room_id task_id segments =
    if is_empty segments
    then no_content room_id task_id ∷ []
    else review_records room_id task_id segments

-- list(dict.fromkeys(…)): the first of each.
unfoldable pub unique_from : List ℕ → List ℕ → List ℕ
unique_from seen [] = []
unique_from seen (x ∷ xs) =
    let kept = x ∷ unique_from (x ∷ seen) xs in
    let passed = unique_from seen xs in if any (λ y. y == x) seen then passed else kept

-- The mutator `remember`.
unfoldable pub remember : List Experience → RecordingState → RecordingState
unfolding unique_from
remember records state = record state {
  experience_ids = unique_from [] (state.experience_ids ++ map (λ e. e.experience_id) records);
}

-- `record_review_experiences` on the log and the recording's state, before the recommendation.
unfoldable pub record_review_experiences :
    String
    → String
    → List ReviewedSegment
    → ℕ
    → ExperienceLog × RecordingState
    → (ExperienceLog × RecordingState) × List Experience
unfolding append_all wanted_records remember mutate_recording_state
record_review_experiences room_id task_id segments now (log, state) =
    let (log', records) = append_all (wanted_records room_id task_id segments) now log in
    (
      (
        log',
        if is_empty records
            then state
            else mutate_recording_state (remember records) state now (some state),
      ),
      records,
    )
