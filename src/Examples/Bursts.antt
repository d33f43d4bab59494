-- ===== src/Examples/Bursts.antt =====
-- The theorems on bursts at a concrete series of comments.
use bilive.Base.{
  ℕ, ◌*◌, ◌≤◌, max, ◌≡◌, refl, Bool, true, false, List, [], ◌∷◌, map, arith, length, any, All,
}
use bilive.Bursts.Density.{
  burst_flags, compute_baseline, second, build_density_series, sum, count_before,
  sum-build_density_series,
}
use bilive.Bursts.Segments.{
  Segment, find_segments, merge_segments, Separate, in_segment, flag_at, find_segments_lem,
  merge_segments_lem,
}
use bilive.Bursts.Events.{
  select_from, insert_event, sort_events, slice_window, burst_event, BurstSettings, IsSlice,
}
use bilive.Bursts.Detect.{detect_bursts, Apart, detect_bursts-Apart, detect_bursts-IsSlice}

abbrev settings : BurstSettings
settings = record {
  burst_ratio = (3, 1);
  burst_window = 2;
  context = 3;
  merge_gap = 1;
  top_n = 2;
  lag_seconds = 500;
}

-- One comment in each second, and more around the tenth.
abbrev times : List ℕ
times =
    1000 ∷ 2000 ∷ 3100 ∷ 4000 ∷ 9900 ∷ 10000 ∷ 10100 ∷ 10200 ∷ 10300 ∷ 10400 ∷ 10500 ∷ 10600 ∷ 10700
    ∷ 14000 ∷ 16000 ∷ []

detect_example :
    map {B = ℕ × ℕ × ℕ} (λ e. (e.peak_time, e.start, e.ending)) (detect_bursts settings times 18000)
    ≡ (10000, 6500, 12500) ∷ []
unfolding detect_bursts build_density_series compute_baseline burst_flags find_segments
    merge_segments burst_event slice_window sort_events insert_event select_from
detect_example = refl

detect_bursts-Apart_example :
    Apart (3 * second) (detect_bursts settings times 18000)
    × (length (detect_bursts settings times 18000) ≤ max 1 2)
detect_bursts-Apart_example = detect_bursts-Apart settings times 18000

detect_bursts-IsSlice_example : All (IsSlice 3 18000) (detect_bursts settings times 18000)
detect_bursts-IsSlice_example = detect_bursts-IsSlice settings times 18000

abbrev flags : List Bool
flags = false ∷ true ∷ true ∷ false ∷ true ∷ []

find_segments_lem_example :
    Separate 0 5 0 (find_segments flags)
    × ((j : ℕ) → any (in_segment j) (find_segments flags) ≡ flag_at j flags)
find_segments_lem_example = find_segments_lem flags

abbrev segments : List Segment
segments = (1, 3) ∷ (4, 5) ∷ []

merge_segments_lem_example :
    Separate 1 5 0 (merge_segments 1 segments)
    × (any (in_segment 2) (merge_segments 1 segments) ≡ true)
merge_segments_lem_example =
    merge_segments_lem 1 5 segments 2
      (omega arith, omega arith, omega arith, (omega arith, omega arith, omega arith, tt)) refl

sum-build_density_series_example :
    (length (build_density_series times 18000) ≡ 19)
    × (sum (build_density_series times 18000) ≡ count_before 19 times)
sum-build_density_series_example = sum-build_density_series 1000 _ 18000 (omega arith)
