-- ===== src/Edit/Fits.antt =====
-- The bounds of what src/autoslice/edit_instruction_builder.py makes.
use bilive.Base.{
  ℕ, ◌+◌, ◌*◌, ◌≤◌, ◌<◌, String, ◌≡◌, refl, Bool, true, false, Option, none, some, List, [], ◌∷◌,
  map, inl, inr, arith, leb, leb→le, if◌then◌else◌, length, all, All, Bool-cases, has_text, ap,
}
use bilive.UploadWorker.Texts.{ℤ, pos, negsuc}
use bilive.Edit.Instruction.{
  Conversions, TrimInstruction, TimeRange, EditSegment, SubtitleEvidence, EditInstruction,
  clamp_score, to_dict, from_dict,
}
use bilive.Edit.RoundTrip.{IsNormal, from_dict-to_dict}
use bilive.Edit.Build.{
  Highlight, Analysis, lt_z, minus, clamp_time, highlight_segments, fallback_segment, or_fallback,
  build_segments, trim_of, build_trim, range_or, build_source_time_ranges, Action,
  build_edit_instruction,
}

-- A stretch of time within a slice.
pub record InSlice (duration : ℕ) (start end : ℤ) : Type 0 where
  pub from : ℕ
  pub to : ℕ
  pub starts : start ≡ pos from
  pub ends : end ≡ pos to
  pub ordered : from < to
  pub within_slice : to ≤ duration

abbrev Fits : ℕ → EditSegment → Type 0
Fits duration s = InSlice duration s.start s.end × (clamp_score s.score ≡ s.score)

clamp_time_bound : (v : ℤ) (duration : ℕ) → clamp_time v duration ≤ duration
unfolding clamp_time
clamp_time_bound (pos n) duration = omega arith
clamp_time_bound (negsuc n) duration = omega arith

clamp_score_again : (v : ℤ) → clamp_score (clamp_score v) ≡ clamp_score v
clamp_score_again (pos n) = ap pos (omega arith)
clamp_score_again (negsuc n) = refl

not_leb : (a b : ℕ) → leb a b ≡ false → b < a
not_leb a b f = ground arith

All-highlight_segments :
    (duration : ℕ) (hs : List Highlight) → All (Fits duration) (highlight_segments duration hs)
unfolding highlight_segments
All-highlight_segments duration [] = tt
All-highlight_segments duration (h ∷ hs) =
    let start = clamp_time h.start duration in
    let end = clamp_time h.end duration in
    elim (Bool-cases (leb end start)) [
      | inl t ↦ rw t (All-highlight_segments duration hs)
      | inr f ↦ rw f (
        (
          record {
            from = start;
            to = end;
            starts = refl;
            ends = refl;
            ordered = not_leb end start f;
            within_slice = clamp_time_bound h.end duration;
          },
          clamp_score_again h.score,
        ),
        All-highlight_segments duration hs,
      )
    ]

clamp_time-minus :
    (p half duration : ℕ)
    → p ≤ duration
    → 0 < duration
    → 0 < half
    → clamp_time (minus p half) duration < duration
unfolding clamp_time
clamp_time-minus p half duration bound some_time some_width = elim (Bool-cases (leb half p)) [
  | inl t ↦ let le = leb→le half p t in rw t (omega arith)
  | inr f ↦ rw f (omega arith)
]

late_end : (s e d : ℕ) → s < d → s < (if leb e s then d else e)
late_end s e d h = ground arith

end_inside : (s e d : ℕ) → e ≤ d → (if leb e s then d else e) ≤ d
end_inside s e d h = ground arith

Fits-fallback_segment :
    (analysis : Analysis) (duration half : ℕ)
    → 0 < duration
    → 0 < half
    → Fits duration (fallback_segment analysis duration half)
unfolding fallback_segment
Fits-fallback_segment analysis duration half some_time some_width =
    let peak = clamp_time analysis.emotion_peak_time duration in
    let bound = clamp_time_bound analysis.emotion_peak_time duration in
    let start = clamp_time (minus peak half) duration in
    let end = clamp_time (pos (start + 2 * half)) duration in
    let early : start < duration = clamp_time-minus peak half duration bound some_time some_width in
    (
      record {
        from = start;
        to = if leb end start then duration else end;
        starts = refl;
        ends = refl;
        ordered = late_end start end duration early;
        within_slice =
            end_inside start end duration (clamp_time_bound (pos (start + 2 * half)) duration);
      },
      clamp_score_again analysis.quality_score,
    )

All-build_segments :
    (analysis : Analysis) (duration half : ℕ)
    → 0 < duration
    → 0 < half
    → (0 < length (build_segments analysis duration half))
      × All (Fits duration) (build_segments analysis duration half)
unfolding build_segments
All-build_segments analysis duration half some_time some_width =
    all_or (highlight_segments duration analysis.highlights)
      (All-highlight_segments duration analysis.highlights)
  where
    all_or :
        (xs : List EditSegment)
        → All (Fits duration) xs
        → (0 < length (or_fallback xs (fallback_segment analysis duration half)))
          × All (Fits duration) (or_fallback xs (fallback_segment analysis duration half))
    all_or [] h =
        (omega arith, (Fits-fallback_segment analysis duration half some_time some_width, tt))
    all_or (x ∷ xs) h = (omega arith, h)

InSlice-whole : (duration : ℕ) → 0 < duration → InSlice duration (pos 0) (pos duration)
InSlice-whole duration some_time = record {
  from = 0;
  to = duration;
  starts = refl;
  ends = refl;
  ordered = some_time;
  within_slice = omega arith;
}

InSlice-trim_of :
    (duration : ℕ) (trim : Option TrimInstruction)
    → 0 < duration
    → InSlice duration (trim_of duration trim).start (trim_of duration trim).end
unfolding trim_of
InSlice-trim_of duration none some_time = InSlice-whole duration some_time
InSlice-trim_of duration (some trim) some_time =
    let start = clamp_time trim.start duration in
    let end = clamp_time trim.end duration in
    elim (Bool-cases (leb end start)) [
      | inl t ↦ rw t (InSlice-whole duration some_time)
      | inr f ↦ rw f (record {
        from = start;
        to = end;
        starts = refl;
        ends = refl;
        ordered = not_leb end start f;
        within_slice = clamp_time_bound trim.end duration;
      })
    ]

abbrev IsRange : TimeRange → Type 0
IsRange r = lt_z r.start r.end ≡ true

IsRange-range_or :
    (given : Option TimeRange) (default : TimeRange)
    → IsRange default
    → IsRange (range_or given default)
unfolding range_or
IsRange-range_or none default h = h
IsRange-range_or (some r) default h = elim (Bool-cases (lt_z r.start r.end)) [
  | inl t ↦ rw t t
  | inr f ↦ rw f h
]

all-map :
    (phrase : Action → String)
    → ((a : Action) → has_text (phrase a) ≡ true)
    → (as' : List Action) → all has_text (map phrase as') ≡ true
all-map phrase h [] = refl
all-map phrase h (a ∷ as') = rw (h a) (all-map phrase h as')

-- What an instruction for a slice of some duration promises.
pub record IsUsable (py : Conversions) (duration : ℕ) (x : EditInstruction) : Type 0 where
  pub some_segment : 0 < length x.segments
  pub segments : All (Fits duration) x.segments
  pub trim : InSlice duration x.trim.start x.trim.end
  pub core : IsRange x.density_core
  pub window : IsRange x.context_window
  pub normal : IsNormal x
  pub read : from_dict py (to_dict x) ≡ some x

All-scores :
    (duration : ℕ) (xs : List EditSegment)
    → All (Fits duration) xs
    → All (λ (s : EditSegment). clamp_score s.score ≡ s.score) xs
All-scores duration [] h = tt
All-scores duration (x ∷ xs) h = (h.0.1, All-scores duration xs h.1)

pub build_edit_instruction-IsUsable :
    (py : Conversions) (is_sentence : String → Bool) (phrase : Action → String)
    (analysis : Analysis) (source_video slice_video : String) (slice_start duration : ℕ)
    (subtitles : List SubtitleEvidence) (half : ℕ) (density_core context_window : Option TimeRange)
    → ((a : Action) → has_text (phrase a) ≡ true)
    → 0 < duration
    → 0 < half
    → IsUsable py duration (
        build_edit_instruction is_sentence phrase analysis source_video slice_video slice_start
          duration subtitles half density_core context_window)
unfolding build_edit_instruction build_trim build_source_time_ranges
build_edit_instruction-IsUsable py is_sentence phrase analysis source_video slice_video slice_start
      duration subtitles half density_core context_window worded some_time some_width =
    let x =
      build_edit_instruction is_sentence phrase analysis source_video slice_video slice_start
        duration subtitles half density_core context_window in
    let segments = All-build_segments analysis duration half some_time some_width in
    let default_range : lt_z (pos slice_start) (pos (slice_start + duration)) ≡ true =
      ground arith in
    let window = IsRange-range_or context_window _ default_range in
    let normal : IsNormal x = record {
      confidence = clamp_score_again analysis.quality_score;
      scores = All-scores duration _ segments.1;
      actions = all-map phrase worded _;
    } in
    record {
      some_segment = segments.0;
      segments = segments.1;
      trim = InSlice-trim_of duration analysis.suggested_trim some_time;
      core = IsRange-range_or density_core _ window;
      window = window;
      normal = normal;
      read = from_dict-to_dict py x normal;
    }
