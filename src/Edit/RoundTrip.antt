-- ===== src/Edit/RoundTrip.antt =====
-- Writing and reading the edit instructions of src/autoslice/edit_instruction.py.
use bilive.Base.{
  String, ◌≡◌, refl, Bool, true, some, List, [], ◌∷◌, arith, filter_by, all, All, has_text, ap,
}
use bilive.Edit.Json.{get}
use bilive.Edit.Instruction.{
  Conversions, EditSegment, SubtitleEvidence, Decision, keep, review, discard, EditInstruction,
  clamp_score, decision_of, decision_text, objects_of, texts_of, segment_from, subtitle_from,
  segment_to, subtitle_to, object_values, text_values, to_dict, from_dict, text_at, number_at,
  object_at, array_at, trim_from, range_from, danmaku_from, upload_from, tags_from,
}

-- Scores lie between 0 and 1, and every action has a text.
pub record IsNormal (x : EditInstruction) : Type 0 where
  pub confidence : clamp_score x.confidence ≡ x.confidence
  pub scores : All (λ (s : EditSegment). clamp_score s.score ≡ s.score) x.segments
  pub actions : all has_text x.edit_actions ≡ true

filter_by-all : (p : String → Bool) (xs : List String) → all p xs ≡ true → filter_by p xs ≡ xs
filter_by-all p [] h = refl
filter_by-all p (x ∷ xs) h = ground (arith, filter_by-all p xs)

decision_of-decision_text : (d : Decision) → decision_of (decision_text d) ≡ d
decision_of-decision_text keep = refl
decision_of-decision_text review = refl
decision_of-decision_text discard = refl

module _ (py : Conversions) where
  texts_of-text_values : (ss : List String) → texts_of py (text_values ss) ≡ ss
  unfolding texts_of text_values
  texts_of-text_values [] = refl
  texts_of-text_values (s ∷ ss) = ap (λ l. s ∷ l) (texts_of-text_values ss)

  segments_read :
      (xs : List EditSegment)
      → All (λ (s : EditSegment). clamp_score s.score ≡ s.score) xs
      → objects_of py (segment_from py) (object_values segment_to xs) ≡ xs
  unfolding objects_of object_values segment_from text_at number_at get
  segments_read [] h = refl
  segments_read (x ∷ xs) h = rw (h.0, segments_read xs h.1) refl

  subtitles_read :
      (xs : List SubtitleEvidence)
      → objects_of py (subtitle_from py) (object_values subtitle_to xs) ≡ xs
  unfolding objects_of object_values subtitle_from text_at number_at get
  subtitles_read [] = refl
  subtitles_read (x ∷ xs) = ap (λ l. x ∷ l) (subtitles_read xs)

  -- An instruction that is written and read is the same, whatever Python makes of other values, if its
  -- scores lie between 0 and 1 and every action has a text.
  pub from_dict-to_dict : (x : EditInstruction) → IsNormal x → from_dict py (to_dict x) ≡ some x
  unfolding from_dict to_dict text_at number_at object_at array_at trim_from range_from danmaku_from
      upload_from tags_from get
  from_dict-to_dict x h =
      rw
        (
          decision_of-decision_text x.decision,
          h.confidence,
          segments_read x.segments h.scores,
          subtitles_read x.subtitle_evidence,
          texts_of-text_values x.edit_actions,
          filter_by-all has_text x.edit_actions h.actions,
          texts_of-text_values x.upload_suggestion.tags,
        )
        refl
