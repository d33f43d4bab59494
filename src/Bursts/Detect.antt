-- ===== src/Bursts/Detect.antt =====
-- `detect_bursts` of src/autoslice/burst_detector.py as a whole, without its log lines and diagnostics.
use bilive.Base.{
  All-append, length-append, ℕ, suc, ◌+◌, ◌*◌, ◌/◌, ◌≤◌, max, ◌≡◌, refl, false, ◌||◌, List, [], ◌∷◌,
  ◌++◌, map, inl, inr, arith, ◌==◌, leb, if◌then◌else◌, length, All, Bool-cases, if-ind, subst,
}
use bilive.Bursts.Density.{
  burst_flags_from, second, build_density_series, compute_baseline, burst_flags,
  sum-build_density_series,
}
use bilive.Bursts.Segments.{
  Segment, find_segments, merge_segments, Separate, find_segments_lem, Separate-merge_segments,
}
use bilive.Bursts.Events.{
  denser, BurstSettings, BurstEvent, burst_event, insert_event, sort_events, select_from, overlap,
  overlap_too_much, IsSlice, burst_event-IsSlice,
}

unfoldable pub detect_bursts : BurstSettings → List ℕ → ℕ → List BurstEvent
detect_bursts settings timestamps video_duration =
    let density = build_density_series timestamps video_duration in
    let baseline = compute_baseline density 300 300 in
    let flags = burst_flags settings.burst_window settings.burst_ratio baseline density in
    let merged = merge_segments settings.merge_gap (find_segments flags) in
    let events = map (burst_event settings video_duration density baseline) merged in
    if (length timestamps == 0) || (video_duration == 0)
    then []
    else select_from (settings.context * second) settings.top_n [] (sort_events events)

-- Earlier events overlap later ones by at most the context.
abbrev pub Apart : ℕ → List BurstEvent → Type 0
Apart context [] = Unit
Apart context (e ∷ es) = All (λ x. overlap x e ≤ context) es × Apart context es

All-insert_event :
    (P : BurstEvent → Type 0) (e : BurstEvent) (es : List BurstEvent)
    → P e
    → All P es
    → All P (insert_event e es)
unfolding insert_event
All-insert_event P e [] p h = (p, tt)
All-insert_event P e (x ∷ xs) p h =
    if-ind (All P) (denser e x) (λ t. (p, h)) (λ f. (h.0, All-insert_event P e xs p h.1))

All-sort_events :
    (P : BurstEvent → Type 0) (es : List BurstEvent) → All P es → All P (sort_events es)
unfolding sort_events
All-sort_events P [] h = tt
All-sort_events P (e ∷ es) h = All-insert_event P e (sort_events es) h.0 (All-sort_events P es h.1)

All-select_from :
    (P : BurstEvent → Type 0) (context top_n : ℕ) (selected events : List BurstEvent)
    → All P selected
    → All P events
    → All P (select_from context top_n selected events)
unfolding select_from
All-select_from P context top_n selected [] s h = s
All-select_from P context top_n selected (event ∷ events) s h =
    let next =
      if overlap_too_much context event selected then selected else selected ++ event ∷ [] in
    let kept : All P next =
      if-ind (All P) (overlap_too_much context event selected) (λ _. s)
        (λ _. All-append P selected (event ∷ []) s (h.0, tt)) in
    if-ind (All P) (leb top_n (length next)) (λ _. kept)
      (λ _. All-select_from P context top_n next events kept h.1)

Apart-append :
    (context : ℕ) (selected : List BurstEvent) (event : BurstEvent)
    → overlap_too_much context event selected ≡ false
    → Apart context selected
    → Apart context (selected ++ event ∷ [])
Apart-append context [] event e h = (tt, tt)
Apart-append context (x ∷ xs) event e h = (
  All-append (λ y. overlap y x ≤ context) xs (event ∷ []) h.0 (ground arith, tt),
  Apart-append context xs event (ground arith) h.1,
)

-- A selection is apart, and a full selection is not extended.
select_from_lem :
    (context top_n : ℕ) (selected events : List BurstEvent)
    → Apart context selected
    → suc (length selected) ≤ max 1 top_n
    → Apart context (select_from context top_n selected events)
      × (length (select_from context top_n selected events) ≤ max 1 top_n)
unfolding select_from
select_from_lem context top_n selected [] a h = (a, omega arith)
select_from_lem context top_n selected (event ∷ events) a h =
    let next =
      if overlap_too_much context event selected then selected else selected ++ event ∷ [] in
    let kept : Apart context next =
      if-ind (Apart context) (overlap_too_much context event selected) (λ _. a)
        (λ apart. Apart-append context selected event apart a) in
    let short : length next ≤ suc (length selected) =
      elim (Bool-cases (overlap_too_much context event selected)) [
        | inl t ↦ rw t (omega arith)
        | inr f ↦ rw f (omega (arith, length-append selected (event ∷ [])))
      ] in
    if-ind (λ l. Apart context l × (length l ≤ max 1 top_n)) (leb top_n (length next))
      (λ _. (kept, omega arith))
      (λ below. select_from_lem context top_n next events kept (ground arith))

All-burst_event :
    (settings : BurstSettings) (video_duration : ℕ) (density : List ℕ) (baseline gap lo : ℕ)
    (segs : List Segment)
    → length density ≡ suc (video_duration / second)
    → Separate gap (length density) lo segs
    → All
        (IsSlice settings.context video_duration)
        (map (burst_event settings video_duration density baseline) segs)
All-burst_event settings video_duration density baseline gap lo [] long h = tt
All-burst_event settings video_duration density baseline gap lo (seg ∷ segs) long h = (
  burst_event-IsSlice settings video_duration density baseline seg long (omega arith),
  All-burst_event settings video_duration density baseline gap (suc (seg.1 + gap)) segs long h.3,
)

-- At most `top_n` bursts are reported, and at most one where `top_n` is 0; no two of them overlap by
-- more than the context.
pub detect_bursts-Apart :
    (settings : BurstSettings) (timestamps : List ℕ) (video_duration : ℕ)
    → Apart (settings.context * second) (detect_bursts settings timestamps video_duration)
      × (length (detect_bursts settings timestamps video_duration) ≤ max 1 settings.top_n)
unfolding detect_bursts
detect_bursts-Apart settings timestamps video_duration =
    if-ind (λ l. Apart (settings.context * second) l × (length l ≤ max 1 settings.top_n))
      ((length timestamps == 0) || (video_duration == 0)) (λ _. (tt, omega arith))
      (λ _. select_from_lem (settings.context * second) settings.top_n [] _ tt (omega arith))

length-burst_flags_from :
    (half_win : ℕ) (ratio : ℕ × ℕ) (baseline : ℕ) (density : List ℕ) (i : ℕ) (ds : List ℕ)
    → length (burst_flags_from half_win ratio baseline density i ds) ≡ length ds
unfolding burst_flags_from
length-burst_flags_from half_win ratio baseline density i [] = refl
length-burst_flags_from half_win ratio baseline density i (d ∷ ds) =
    omega (arith, length-burst_flags_from half_win ratio baseline density (suc i) ds)

Separate-merged :
    (settings : BurstSettings) (density : List ℕ)
    → let flags =
        burst_flags settings.burst_window settings.burst_ratio
          (compute_baseline density 300 300)
          density in
      Separate settings.merge_gap
        (length density)
        0
        (merge_segments settings.merge_gap (find_segments flags))
unfolding burst_flags
Separate-merged settings density =
    let flags =
      burst_flags settings.burst_window settings.burst_ratio (compute_baseline density 300 300)
        density in
    let long : length flags ≡ length density =
      length-burst_flags_from (settings.burst_window / 2) settings.burst_ratio
        (compute_baseline density 300 300) density 0 density in
    subst
      (λ n.
        Separate settings.merge_gap n 0 (merge_segments settings.merge_gap (find_segments flags)))
      long
      (Separate-merge_segments settings.merge_gap (length flags) (find_segments flags)
        (find_segments_lem flags).0)

-- Every burst reported is a slice that lies inside the video and is exactly as long as twice the
-- context, or as the whole video where that is shorter, also at the edges of the video.
pub detect_bursts-IsSlice :
    (settings : BurstSettings) (timestamps : List ℕ) (video_duration : ℕ)
    → All
        (IsSlice settings.context video_duration)
        (detect_bursts settings timestamps video_duration)
unfolding detect_bursts
detect_bursts-IsSlice settings [] video_duration = tt
detect_bursts-IsSlice settings (t ∷ ts) video_duration =
    let density = build_density_series (t ∷ ts) video_duration in
    let baseline = compute_baseline density 300 300 in
    if-ind (All (IsSlice settings.context video_duration))
      ((length (t ∷ ts) == 0) || (video_duration == 0)) (λ _. tt)
      (λ f.
        All-select_from (IsSlice settings.context video_duration) (settings.context * second)
          settings.top_n [] (sort_events _) tt
          (All-sort_events (IsSlice settings.context video_duration) _ (
            All-burst_event settings video_duration density baseline settings.merge_gap 0 _
              (sum-build_density_series t ts video_duration (ground arith)).0
              (Separate-merged settings density))))
