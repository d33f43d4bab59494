-- ===== src/Examples/Lifecycle.antt =====
-- The theorems on the review lifecycle at a concrete recording.
use bilive.Lifecycle.Technical.{
  TechnicalFailure, record_technical_experience,
  generate_streamer_recommendation-record_technical_experience,
}
use bilive.Lifecycle.Streamer.{mutate_streamer_state, streamer_evidence_summary}
use bilive.ActionJobs.Submit.{scan, find_active}
use bilive.Base.{List, ℕ, String, ◌≡◌, refl, true, false, Option, none, some, [], ◌∷◌, ◌⊎◌}
use bilive.Base.{codes}
use bilive.Lifecycle.State.{
  RecordingState, review_complete, default_recording_state, set_review_state,
}
use bilive.Lifecycle.Review
use bilive.Lifecycle.Review.{
  deadline_of, retention_fields, view_of, shown, paths_blocker, segment_blocker, segments_blocker,
  find_blocker, derive_review_state, Segment, no_file, build_lifecycle_view, LifecycleView,
  manual_keep, drop, keep,
}
use bilive.Lifecycle.Eligible.{IsEligible, build_lifecycle_view-IsEligible}
use bilive.Lifecycle.Experience.{
  Experience, ExperienceLog, ReviewedSegment, record_review_experiences,
}
use bilive.Lifecycle.Streamer.{
  mark_applied, apply_found, StreamerState, HasEvidence, Profile, generate_streamer_recommendation,
  generate_streamer_recommendation_once, apply_streamer_recommendation,
  apply_streamer_recommendation_once,
}

abbrev reviewed : RecordingState
reviewed =
    set_review_state review_complete "all" 50
      (default_recording_state "22384516/a.mp4" "22384516" none 10)

abbrev kept : Segment
kept = record { segment_id = "s1"; judge_status = manual_keep; paths = [] }

abbrev history : ℕ → Option String
history i = none

abbrev view : LifecycleView history [] no_file
view = record {
  review_state = review_complete;
  fields = record {
    retention_deadline = 604810;
    retention_warning = false;
    retention_expired = false;
    trash_eligible = true;
  };
  blocker = Review.clear;
  trash_status = reviewed.trash_status;
}

build_lifecycle_view-IsEligible_example :
    IsEligible history [] no_file "r1" Review.TaskStatus.done true true (kept ∷ []) reviewed 60 view
unfolding build_lifecycle_view derive_review_state find_blocker segments_blocker segment_blocker
    paths_blocker find_active scan shown view_of retention_fields deadline_of
    default_recording_state set_review_state
build_lifecycle_view-IsEligible_example =
    build_lifecycle_view-IsEligible history [] no_file "r1" Review.TaskStatus.done
      Review.HistoryStatus.done true true (kept ∷ []) reviewed 60 view refl refl

abbrev good : ReviewedSegment
good = record {
  segment_id = "s1";
  judge_status = keep;
  marked_technical = false;
  failure = none;
  from_missed = false;
  missed_reason = "";
  revision = 1;
}

abbrev bad : ReviewedSegment
bad = record good { segment_id = "s2"; judge_status = drop }

abbrev start : ExperienceLog × RecordingState
start = (record { lines = []; next_id = 1 }, reviewed)

abbrev first_review : (ExperienceLog × RecordingState) × List Experience
first_review = record_review_experiences "22384516" "r1" (good ∷ bad ∷ []) 80 start

abbrev log : ExperienceLog
log = (record_review_experiences "22384516" "r1" (good ∷ bad ∷ []) 80 start).0.0

abbrev blank : Profile
blank = record {
  display_name = [];
  aliases = [];
  default_tags = [];
  default_description = [];
  approved_guidance = [];
  updated_at = 0;
}

abbrev empty : StreamerState
empty = record { profile = blank; recommendations = []; next_id = 1; updated_at = 0 }

generate_streamer_recommendation_once_example :
    ((generate_streamer_recommendation "22384516" 2 100 log empty ≡ empty)
      × (generate_streamer_recommendation "22384516" 2 110 log empty ≡ empty))
    ⊎ (HasEvidence "22384516" 2 log
        × (generate_streamer_recommendation "22384516" 2 110 log
              (generate_streamer_recommendation "22384516" 2 100 log empty)
            ≡ record (generate_streamer_recommendation "22384516" 2 100 log empty) {
              updated_at = 110;
            }))
generate_streamer_recommendation_once_example =
    generate_streamer_recommendation_once "22384516" 2 100 110 log empty

abbrev proposed : StreamerState
proposed = record empty {
  recommendations =
      record {
        recommendation_id = 1;
        evidence_ids = 1 ∷ 2 ∷ [];
        approved_guidance = codes "x";
        is_applied = false;
      }
      ∷ [];
}

abbrev applied : StreamerState
applied = record {
  profile = record blank { approved_guidance = codes "x"; updated_at = 100 };
  recommendations =
      record {
        recommendation_id = 1;
        evidence_ids = 1 ∷ 2 ∷ [];
        approved_guidance = codes "x";
        is_applied = true;
      }
      ∷ [];
  next_id = 1;
  updated_at = 100;
}

apply_streamer_recommendation_once_example :
    apply_streamer_recommendation 1 200 (record applied { profile = blank })
    ≡ some (record applied { profile = blank; updated_at = 200 })
unfolding apply_streamer_recommendation apply_found mark_applied mutate_streamer_state
apply_streamer_recommendation_once_example =
    apply_streamer_recommendation_once 1 100 200 proposed applied blank refl

abbrev crash : TechnicalFailure
crash = record {
  segment_id = "s1";
  stage = "render";
  code = "ffmpeg";
  job_id = "j7";
  revision = [];
}

generate_streamer_recommendation-record_technical_experience_example :
    (streamer_evidence_summary "22384516" 2
        (record_technical_experience "22384516" "r1" crash 90 (log, reviewed)).0.0
      ≡ streamer_evidence_summary "22384516" 2 log)
    × (generate_streamer_recommendation "22384516" 2 95
          (record_technical_experience "22384516" "r1" crash 90 (log, reviewed)).0.0
          empty
        ≡ generate_streamer_recommendation "22384516" 2 95 log empty)
generate_streamer_recommendation-record_technical_experience_example =
    generate_streamer_recommendation-record_technical_experience "22384516" "22384516" "r1" crash 90
      2 95 (log, reviewed) empty
