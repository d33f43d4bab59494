-- ===== src/Edit/Build.antt =====
-- How src/autoslice/edit_instruction_builder.py makes an edit instruction from the analysis of a slice.
-- Times are milliseconds. The start that the name of a slice carries, the wording of an action and the
-- test for a full sentence (a regular expression) are parameters.
use bilive.Base.{
  ℕ, zero, ◌+◌, ◌-◌, ◌*◌, min, String, Bool, true, false, not, ◌&&◌, Option, none, some, List, [],
  ◌∷◌, ◌++◌, map, leb, ltb, if◌then◌else◌, filter_by, has_text, str_eq,
}
use bilive.UploadWorker.Texts.{ℤ, pos, negsuc}
use bilive.Edit.Instruction.{
  TrimInstruction, TimeRange, EditSegment, SubtitleEvidence, keep, discard, EditInstruction,
  clamp_score,
}

pub record Highlight : Type 0 where
  pub start : ℤ
  pub end : ℤ
  pub score : ℤ
  pub desc : String

pub record Analysis : Type 0 where
  pub title : String
  pub description : String
  pub tags : List String
  pub quality_score : ℤ
  pub retain_recommendation : Bool
  pub highlights : List Highlight
  pub emotion_peak_time : ℤ
  pub suggested_trim : Option TrimInstruction
  pub transcript_segments : List SubtitleEvidence

abbrev pub lt_z : ℤ → ℤ → Bool
lt_z (pos a) (pos b) = ltb a b
lt_z (pos a) (negsuc b) = false
lt_z (negsuc a) (pos b) = true
lt_z (negsuc a) (negsuc b) = ltb b a

abbrev pub minus : ℕ → ℕ → ℤ
minus a b = if leb b a then pos (a - b) else negsuc (b - a - 1)

unfoldable pub clamp_time : ℤ → ℕ → ℕ
clamp_time (pos value) duration = min duration value
clamp_time (negsuc n) duration = 0

abbrev or_else : String → String → String
or_else s otherwise = if str_eq s "" then otherwise else s

abbrev pub segment_at : ℕ → ℕ → ℤ → String → EditSegment
segment_at start end score reason = record {
  start = pos start;
  end = pos end;
  type = "highlight";
  score = clamp_score score;
  reason = reason;
}

unfoldable pub highlight_segments : ℕ → List Highlight → List EditSegment
highlight_segments duration [] = []
highlight_segments duration (h ∷ hs) =
    let rest = highlight_segments duration hs in
    let start = clamp_time h.start duration in
    let end = clamp_time h.end duration in
    if leb end start
    then rest
    else segment_at start end h.score (or_else h.desc "highlight from analysis result") ∷ rest

-- The window around the peak; its width is twice `half`.
unfoldable pub fallback_segment : Analysis → ℕ → ℕ → EditSegment
fallback_segment analysis duration half =
    let peak = clamp_time analysis.emotion_peak_time duration in
    let start = clamp_time (minus peak half) duration in
    let end = clamp_time (pos (start + 2 * half)) duration in
    segment_at start (if leb end start then duration else end) analysis.quality_score
      "fallback highlight window around danmaku-selected slice"

abbrev pub or_fallback : List EditSegment → EditSegment → List EditSegment
or_fallback [] s = s ∷ []
or_fallback (x ∷ xs) s = x ∷ xs

unfoldable pub build_segments : Analysis → ℕ → ℕ → List EditSegment
build_segments analysis duration half =
    or_fallback (highlight_segments duration analysis.highlights)
      (fallback_segment analysis duration half)

abbrev pub trim_at : ℕ → ℕ → String → TrimInstruction
trim_at start end reason = record { start = pos start; end = pos end; reason = reason }

unfoldable pub trim_of : ℕ → Option TrimInstruction → TrimInstruction
trim_of duration none = trim_at 0 duration "keep full slice because no trim suggestion was provided"
trim_of duration (some trim) =
    let start = clamp_time trim.start duration in
    let end = clamp_time trim.end duration in
    if leb end start then trim_at 0 duration trim.reason else trim_at start end trim.reason

unfoldable pub build_trim : Analysis → ℕ → TrimInstruction
build_trim analysis duration = trim_of duration analysis.suggested_trim

abbrev is_range : TimeRange → Bool
is_range r = lt_z r.start r.end

-- A range that was given and is not empty, or the default.
unfoldable pub range_or : Option TimeRange → TimeRange → TimeRange
range_or none default = default
range_or (some r) default = if is_range r then r else default

unfoldable pub build_source_time_ranges :
    ℕ → ℕ → Option TimeRange → Option TimeRange → TimeRange × TimeRange
build_source_time_ranges slice_start duration density_core context_window =
    let window =
      range_or context_window
        (record { start = pos slice_start; end = pos (slice_start + duration) }) in
    (range_or density_core window, window)

unfoldable pub insert_by_end : SubtitleEvidence → List SubtitleEvidence → List SubtitleEvidence
insert_by_end x [] = x ∷ []
insert_by_end x (y ∷ ys) =
    let rest = insert_by_end x ys in if lt_z y.end x.end then y ∷ rest else x ∷ y ∷ ys

unfoldable pub sort_by_end : List SubtitleEvidence → List SubtitleEvidence
sort_by_end [] = []
sort_by_end (x ∷ xs) = insert_by_end x (sort_by_end xs)

unfoldable pub last_with_text : List SubtitleEvidence → Option SubtitleEvidence
last_with_text [] = none
last_with_text (x ∷ xs) = elim (last_with_text xs) [
  | some y ↦ some y
  | none ↦ if has_text x.text then some x else none
]

pub data Action : Type 0 where
  keep_range : ℤ → ℤ → Action
  remove_opening : ℤ → Action
  trim_reason : String → Action
  subtitles_missing : Action
  transcript_unfinished : ℕ → Action

module _ (is_sentence : String → Bool) (phrase : Action → String) where
  abbrev tail_of : ℕ → Option SubtitleEvidence → Bool
  tail_of duration none = false
  tail_of duration (some item) =
      not (lt_z item.end (minus duration 3000)) && not (is_sentence item.text)

  unfoldable pub transcript_tail_appears_unfinished : List SubtitleEvidence → ℕ → Bool
  transcript_tail_appears_unfinished evidence duration =
      ltb 0 duration && tail_of duration (last_with_text (sort_by_end evidence))

  abbrev first_action : List EditSegment → List Action
  first_action [] = []
  first_action (s ∷ ss) = keep_range s.start s.end ∷ []

  abbrev subtitle_action : List SubtitleEvidence → ℕ → List Action
  subtitle_action [] duration = subtitles_missing ∷ []
  subtitle_action (e ∷ es) duration =
      if transcript_tail_appears_unfinished (e ∷ es) duration
      then transcript_unfinished duration ∷ []
      else []

  unfoldable pub build_edit_actions :
      List EditSegment → TrimInstruction → List SubtitleEvidence → ℕ → List Action
  build_edit_actions segments trim evidence duration =
      first_action segments
      ++ ((if lt_z (pos 0) trim.start then remove_opening trim.start ∷ [] else [])
          ++ ((if str_eq trim.reason "" then [] else trim_reason trim.reason ∷ [])
              ++ subtitle_action evidence duration))

  abbrev evidence_of : List SubtitleEvidence → Analysis → List SubtitleEvidence
  evidence_of [] analysis = filter_by (λ s. not (str_eq s.text "")) analysis.transcript_segments
  evidence_of (e ∷ es) analysis = e ∷ es

  abbrev peak_or : ℤ → ℤ → ℤ
  peak_or (pos zero) start = start
  peak_or peak start = peak

  unfoldable pub build_edit_instruction :
      Analysis
      → String
      → String
      → ℕ
      → ℕ
      → List SubtitleEvidence
      → ℕ
      → Option TimeRange
      → Option TimeRange
      → EditInstruction
  build_edit_instruction analysis source_video slice_video slice_start duration subtitles half
        density_core context_window =
      let evidence = evidence_of subtitles analysis in
      let ranges = build_source_time_ranges slice_start duration density_core context_window in
      let segments = build_segments analysis duration half in
      let trim = build_trim analysis duration in
      record {
        source_video = source_video;
        slice_video = slice_video;
        decision = if analysis.retain_recommendation then keep else discard;
        confidence = clamp_score analysis.quality_score;
        trim = trim;
        segments = segments;
        subtitle_evidence = evidence;
        density_core = ranges.0;
        context_window = ranges.1;
        danmaku_evidence = record {
          peak_time = peak_or analysis.emotion_peak_time ranges.0.start;
          density_reason = "slice selected by danmaku density";
        };
        edit_actions = map phrase (build_edit_actions segments trim evidence duration);
        upload_suggestion = record {
          title = analysis.title;
          description = analysis.description;
          tags = analysis.tags;
        };
        schema_version = "1.0";
      }
