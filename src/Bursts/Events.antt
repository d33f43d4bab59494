-- ===== src/Bursts/Events.antt =====
-- The slices around the bursts and their selection, in `detect_bursts` of
-- src/autoslice/burst_detector.py.
use bilive.Base.{
  length-take, ℕ, suc, ◌+◌, ◌-◌, ◌*◌, ◌/◌, ◌≤◌, ◌<◌, min, max, ◌≡◌, Bool, List, [], ◌∷◌, ◌++◌,
  arith, leb, ltb, if◌then◌else◌, length, drop, any, if-ind,
}
use bilive.Bursts.Density.{second, slice, sum, local_density}
use bilive.Bursts.Segments.{Segment}

pub record BurstSettings : Type 0 where
  pub burst_ratio : ℕ × ℕ
  pub burst_window : ℕ
  pub context : ℕ
  pub merge_gap : ℕ
  pub top_n : ℕ
  pub lag_seconds : ℕ

-- `density` is the peak density; the ratio of the burst is it over the baseline.
pub record BurstEvent : Type 0 where
  pub peak_time : ℕ
  pub start : ℕ
  pub ending : ℕ
  pub duration : ℕ
  pub density : ℕ × ℕ
  pub baseline : ℕ
  pub danmaku_count : ℕ
  pub burst_start : ℕ
  pub burst_end : ℕ

-- The loop over a segment's densities, with `peak_idx` and `peak_val`.
unfoldable pub peak_from : ℕ → ℕ → ℕ → List ℕ → ℕ
peak_from i peak_idx peak_val [] = peak_idx
peak_from i peak_idx peak_val (d ∷ ds) =
    let higher = peak_from (suc i) i d ds in
    let kept = peak_from (suc i) peak_idx peak_val ds in if ltb peak_val d then higher else kept

-- `slice_start` and `slice_end` by the anchor, the context and the duration of the video.
unfoldable pub slice_window : ℕ → ℕ → ℕ → ℕ × ℕ
slice_window anchor context video_duration =
    let head : ℕ × ℕ =
      if ltb anchor context
      then (0, min video_duration (2 * context))
      else (anchor - context, min video_duration (anchor + context)) in
    if ltb video_duration (anchor + context)
    then (video_duration - 2 * context, video_duration)
    else head

unfoldable pub burst_event : BurstSettings → ℕ → List ℕ → ℕ → Segment → BurstEvent
unfolding peak_from
burst_event settings video_duration density baseline seg =
    let peak_idx = peak_from seg.0 seg.0 0 (slice seg.0 (min seg.1 (length density)) density) in
    let anchor = peak_idx * second - settings.lag_seconds in
    let window = slice_window anchor (settings.context * second) video_duration in
    let burst_start = min (seg.0 * second) video_duration in
    record {
      peak_time = peak_idx * second;
      start = window.0;
      ending = window.1;
      duration = window.1 - window.0;
      density = local_density (settings.burst_window / 2) density peak_idx;
      baseline = baseline;
      danmaku_count = sum (slice (window.0 / second) (suc (window.1 / second)) density);
      burst_start = burst_start;
      burst_end = max burst_start (min (seg.1 * second) video_duration);
    }

-- a.peak_density <= b.peak_density
abbrev pub denser : BurstEvent → BurstEvent → Bool
denser b a = leb (a.density.0 * b.density.1) (b.density.0 * a.density.1)

unfoldable pub insert_event : BurstEvent → List BurstEvent → List BurstEvent
insert_event e [] = e ∷ []
insert_event e (x ∷ xs) =
    let rest = insert_event e xs in if denser e x then e ∷ x ∷ xs else x ∷ rest

-- events.sort(key=peak_density, reverse=True); equal densities keep their order.
unfoldable pub sort_events : List BurstEvent → List BurstEvent
sort_events [] = []
sort_events (e ∷ es) = insert_event e (sort_events es)

abbrev pub overlap : BurstEvent → BurstEvent → ℕ
overlap a b = min a.ending b.ending - max a.start b.start

abbrev pub overlap_too_much : ℕ → BurstEvent → List BurstEvent → Bool
overlap_too_much context event selected = any (λ sel. ltb context (overlap event sel)) selected

unfoldable pub select_from : ℕ → ℕ → List BurstEvent → List BurstEvent → List BurstEvent
select_from context top_n selected [] = selected
select_from context top_n selected (event ∷ events) =
    let next =
      if overlap_too_much context event selected then selected else selected ++ event ∷ [] in
    let rest = select_from context top_n next events in
    if leb top_n (length next) then next else rest

-- A slice around an anchor in the video: as long as twice the context, or as the video where that is
-- shorter.
pub record IsSlice (context video_duration : ℕ) (e : BurstEvent) : Type 0 where
  pub ordered : e.ending ≡ e.start + e.duration
  pub inside : e.ending ≤ video_duration
  pub full : e.duration ≡ min (2 * (context * second)) video_duration

slice_window_lem :
    (anchor context video_duration : ℕ)
    → anchor ≤ video_duration
    → let w = slice_window anchor context video_duration in
      (w.1 ≡ w.0 + min (2 * context) video_duration)
      × (w.0 ≤ anchor)
      × (anchor ≤ w.1)
      × (w.1 ≤ video_duration)
unfolding slice_window
slice_window_lem anchor context video_duration h = ground arith

peak_from-le :
    (i peak_idx peak_val : ℕ) (ds : List ℕ) (bound : ℕ)
    → peak_idx ≤ bound
    → i + length ds ≤ suc bound
    → peak_from i peak_idx peak_val ds ≤ bound
unfolding peak_from
peak_from-le i peak_idx peak_val [] bound h le = h
peak_from-le i peak_idx peak_val (d ∷ ds) bound h le =
    if-ind (λ p. p ≤ bound) (ltb peak_val d)
      (λ t. peak_from-le (suc i) i d ds bound (omega arith) (omega arith))
      (λ f. peak_from-le (suc i) peak_idx peak_val ds bound h (omega arith))

length-slice : (first last : ℕ) (ds : List ℕ) → length (slice first last ds) ≤ last - first
length-slice first last ds = omega (arith, length-take (last - first) (drop first ds))

-- The event of a segment that begins inside the video has a slice.
pub burst_event-IsSlice :
    (settings : BurstSettings) (video_duration : ℕ) (density : List ℕ) (baseline : ℕ)
    (seg : Segment)
    → length density ≡ suc (video_duration / second)
    → seg.0 < length density
    → IsSlice settings.context video_duration
        (burst_event settings video_duration density baseline seg)
unfolding burst_event
burst_event-IsSlice settings video_duration density baseline seg long inside =
    let part = slice seg.0 (min seg.1 (length density)) density in
    let peak_idx = peak_from seg.0 seg.0 0 part in
    let bounded : peak_idx ≤ video_duration / second =
      peak_from-le seg.0 seg.0 0 part (video_duration / second) (omega arith)
        (omega (arith, length-slice seg.0 (min seg.1 (length density)) density)) in
    let anchored : peak_idx * second - settings.lag_seconds ≤ video_duration = omega arith in
    let w =
      slice_window_lem (peak_idx * second - settings.lag_seconds) (settings.context * second)
        video_duration anchored in
    record { ordered = omega (arith, w.0); inside = w.3; full = omega (arith, w.0) }
