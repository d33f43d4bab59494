-- ===== src/Lifecycle/Technical.antt =====
-- `record_technical_experience` of src/dashboard/source_lifecycle.py, and what the recommendations make of
-- its records.
use bilive.Base.{
  codes, codes_empty, ℕ, String, ◌≡◌, refl, false, Option, none, some, List, [], ◌∷◌, ◌++◌, arith,
  if◌then◌else◌, filter_by, Codes, str_eq, ◌∙◌, ap,
}
use bilive.Lifecycle.State.{RecordingState, mutate_recording_state}
use bilive.Lifecycle.Experience.{
  Experience, technical_failure, ExperienceLog, Line, entry, damaged, records_of, read_experiences,
  append_experience, with_id, appended, remember,
}
use bilive.Lifecycle.Streamer.{
  StreamerState, is_valid, streamer_evidence_summary, generate_streamer_recommendation,
}

-- What is read of a failure and of its segment; empty texts stand for what is missing.
pub record TechnicalFailure : Type 0 where
  pub segment_id : String
  pub stage : String
  pub code : String
  pub job_id : String
  pub revision : Codes

abbrev or_default : String → String → Codes
or_default s otherwise = if str_eq s "" then codes otherwise else codes s

abbrev revision_of : Codes → Codes
revision_of revision = if codes_empty revision then codes "0" else revision

-- f"{task_id}:{segment_id}:technical_failure:{job_id or revision}"
unfoldable pub technical_key : String → TechnicalFailure → Codes
technical_key task_id f =
    codes task_id
    ++ 58
      ∷ (codes f.segment_id
          ++ 58
            ∷ (codes "technical_failure"
                ++ 58 ∷ (if str_eq f.job_id "" then revision_of f.revision else codes f.job_id)))

unfoldable pub technical_experience : String → String → TechnicalFailure → Experience
technical_experience room_id task_id f = record {
  experience_id = 0;
  room_id = room_id;
  task_id = task_id;
  segment_id = f.segment_id;
  experience_type = technical_failure;
  reason_type = or_default f.stage "technical" ++ 58 ∷ or_default f.code "technical_failure";
  dedupe_key = technical_key task_id f;
  created_at = 0;
}

unfoldable pub record_technical_experience :
    String
    → String
    → TechnicalFailure
    → ℕ
    → ExperienceLog × RecordingState
    → (ExperienceLog × RecordingState) × Experience
record_technical_experience room_id task_id f now (log, state) =
    let (log', item) = append_experience (technical_experience room_id task_id f) now log in
    ((log', mutate_recording_state (remember (item ∷ [])) state now (some state)), item)

valid_in : String → ExperienceLog → List Experience
valid_in room log = filter_by is_valid (read_experiences (some room) log)

records_of-append : (xs ys : List Line) → records_of (xs ++ ys) ≡ records_of xs ++ records_of ys
unfolding records_of
records_of-append [] ys = refl
records_of-append (damaged ∷ xs) ys = records_of-append xs ys
records_of-append (entry e ∷ xs) ys = ap (λ l. e ∷ l) (records_of-append xs ys)

valid_last :
    (room : String) (es : List Experience) (e : Experience)
    → is_valid e ≡ false
    → filter_by is_valid (filter_by (λ x. str_eq x.room_id room) (es ++ e ∷ []))
      ≡ filter_by is_valid (filter_by (λ x. str_eq x.room_id room) es)
valid_last room [] e t = ground arith
valid_last room (x ∷ es) e t = ground (arith, valid_last room es e t)

valid_lines :
    (room : String) (lines : List Line) (e : Experience)
    → is_valid e ≡ false
    → filter_by is_valid
        (filter_by (λ x. str_eq x.room_id room) (records_of (lines ++ entry e ∷ [])))
      ≡ filter_by is_valid (filter_by (λ x. str_eq x.room_id room) (records_of lines))
unfolding records_of
valid_lines room lines e t =
    ap (λ l. filter_by is_valid (filter_by (λ x. str_eq x.room_id room) l))
      (records_of-append lines (entry e ∷ []))
    ∙ valid_last room (records_of lines) e t

valid_in-appended :
    (room : String) (e : Experience) (now : ℕ) (log : ExperienceLog) (found : Option Experience)
    → is_valid e ≡ false
    → valid_in room (appended e now log found).0 ≡ valid_in room log
unfolding valid_in read_experiences
valid_in-appended room e now log (some item) t = refl
valid_in-appended room e now log none t = valid_lines room log.lines (with_id log.next_id now e) t

valid_in-record_technical_experience :
    (room room_id task_id : String) (f : TechnicalFailure) (now : ℕ)
    (start : ExperienceLog × RecordingState)
    → valid_in room (record_technical_experience room_id task_id f now start).0.0
      ≡ valid_in room start.0
unfolding record_technical_experience append_experience technical_experience
valid_in-record_technical_experience room room_id task_id f now (log, state) =
    valid_in-appended room (technical_experience room_id task_id f) now log _ refl

-- A technical failure is not feedback on the content: whatever is recorded, the evidence for a streamer
-- and the recommendation drawn from it are those of the log without it.
pub generate_streamer_recommendation-record_technical_experience :
    (room room_id task_id : String) (f : TechnicalFailure) (now min_samples later : ℕ)
    (start : ExperienceLog × RecordingState) (streamer : StreamerState)
    → (streamer_evidence_summary room min_samples
          (record_technical_experience room_id task_id f now start).0.0
        ≡ streamer_evidence_summary room min_samples start.0)
      × (generate_streamer_recommendation room min_samples later
            (record_technical_experience room_id task_id f now start).0.0
            streamer
          ≡ generate_streamer_recommendation room min_samples later start.0 streamer)
unfolding generate_streamer_recommendation streamer_evidence_summary valid_in
generate_streamer_recommendation-record_technical_experience room room_id task_id f now min_samples
      later start streamer =
    let same = valid_in-record_technical_experience room room_id task_id f now start in
    (rw same refl, rw same refl)
