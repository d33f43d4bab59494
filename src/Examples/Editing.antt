-- ===== src/Examples/Editing.antt =====
-- The theorems on edit instructions at a concrete analysis.
use bilive.Base.{String, ◌≡◌, refl, true, none, some, [], ◌∷◌, map, arith, has_text, strip}
use bilive.UploadWorker.Texts.{ℤ, pos, negsuc}
use bilive.Edit.Instruction.{Conversions, EditInstruction, to_dict, from_dict}
use bilive.Edit.RoundTrip.{from_dict-to_dict}
use bilive.Edit.Build.{
  Analysis, Action, keep_range, remove_opening, trim_reason, subtitles_missing,
  transcript_unfinished, build_edit_instruction, build_segments, highlight_segments,
  fallback_segment, clamp_time,
}
use bilive.Edit.Fits.{IsUsable, build_edit_instruction-IsUsable}

-- A Python that answers nothing of interest.
abbrev python : Conversions
python = record { str = λ v. "?"; float = λ v. none; truth = λ v. true; items = λ v. none }

abbrev words : Action → String
words (keep_range start end) = "Keep a range as the main highlight"
words (remove_opening end) = "Remove opening"
words (trim_reason reason) = "Trim reason"
words subtitles_missing = "Subtitle evidence is missing; review transcript manually"
words (transcript_unfinished duration) = "Transcript near the end appears unfinished"

worded : (a : Action) → has_text (words a) ≡ true
unfolding strip
worded (keep_range start end) = refl
worded (remove_opening end) = refl
worded (trim_reason reason) = refl
worded subtitles_missing = refl
worded (transcript_unfinished duration) = refl

-- One highlight that starts before the slice and one that ends before it starts.
abbrev analysis : Analysis
analysis = record {
  title = "t";
  description = "d";
  tags = "game" ∷ [];
  quality_score = pos 1700;
  retain_recommendation = true;
  highlights =
      record { start = negsuc 500; end = pos 4000; score = pos 900; desc = "" }
      ∷ record { start = pos 9000; end = pos 8000; score = pos 900; desc = "late" }
      ∷ [];
  emotion_peak_time = pos 29000;
  suggested_trim = none;
  transcript_segments = [];
}

abbrev instruction : EditInstruction
instruction =
    build_edit_instruction (λ text. true) words analysis "a.mp4" "120s_a.mp4" 120000 30000 [] 6000
      none none

segments_example :
    map {B = ℤ × ℤ} (λ s. (s.start, s.end)) (build_segments analysis 30000 6000)
    ≡ (pos 0, pos 4000) ∷ []
unfolding build_segments highlight_segments clamp_time
segments_example = refl

fallback_example :
    map {B = ℤ × ℤ}
      (λ s. (s.start, s.end))
      (build_segments (record analysis { highlights = [] }) 30000 6000)
    ≡ (pos 23000, pos 30000) ∷ []
unfolding build_segments highlight_segments fallback_segment clamp_time
fallback_example = refl

build_edit_instruction-IsUsable_example : IsUsable python 30000 instruction
build_edit_instruction-IsUsable_example =
    build_edit_instruction-IsUsable python (λ text. true) words analysis "a.mp4" "120s_a.mp4" 120000
      30000 [] 6000 none none worded (omega arith) (omega arith)

from_dict-to_dict_example : from_dict python (to_dict instruction) ≡ some instruction
from_dict-to_dict_example =
    from_dict-to_dict python instruction build_edit_instruction-IsUsable_example.normal
