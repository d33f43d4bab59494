-- ===== src/Bursts/Density.antt =====
-- `build_density_series`, `compute_baseline` and the sliding window of src/autoslice/burst_detector.py.
use bilive.Base.{
  ℕ, zero, suc, ◌+◌, ◌-◌, ◌*◌, ◌/◌, ◌%◌, ◌<◌, min, ◌≡◌, refl, Bool, false, ◌&&◌, none, some, List,
  [], ◌∷◌, arith, ◌==◌, leb, ltb, if◌then◌else◌, length, take, drop, get_elem?, filter_by,
}

abbrev pub second : ℕ
second = 1000

abbrev pub replicate : ℕ → ℕ → List ℕ
replicate zero x = []
replicate (suc n) x = x ∷ replicate n x

abbrev pub sum : List ℕ → ℕ
sum [] = 0
sum (x ∷ xs) = x + sum xs

-- density[i] += 1, where i is in range.
abbrev pub bump : ℕ → List ℕ → List ℕ
bump i [] = []
bump zero (d ∷ ds) = suc d ∷ ds
bump (suc i) (d ∷ ds) = d ∷ bump i ds

unfoldable pub tally : List ℕ → List ℕ → List ℕ
tally [] density = density
tally (t ∷ ts) density = tally ts (bump (t / second) density)

unfoldable pub build_density_series : List ℕ → ℕ → List ℕ
unfolding tally
build_density_series [] video_duration = []
build_density_series (t ∷ ts) video_duration =
    if video_duration == 0 then [] else tally (t ∷ ts) (replicate (suc (video_duration / second)) 0)

-- How many of the times fall before a second.
unfoldable pub count_before : ℕ → List ℕ → ℕ
count_before limit [] = 0
count_before limit (t ∷ ts) = (if ltb (t / second) limit then 1 else 0) + count_before limit ts

abbrev pub slice {ℓ} : {A : Type ℓ} → ℕ → ℕ → List A → List A
slice first last xs = take (last - first) (drop first xs)

insert : ℕ → List ℕ → List ℕ
insert x [] = x ∷ []
insert x (y ∷ ys) = let rest = insert x ys in if leb x y then x ∷ y ∷ ys else y ∷ rest

pub sort : List ℕ → List ℕ
unfolding insert
sort [] = []
sort (x ∷ xs) = insert x (sort xs)

abbrev at_index : ℕ → List ℕ → ℕ
at_index i xs = elim (get_elem? xs i) [ none ↦ 0 | some x ↦ x ]

-- Twice statistics.median: twice the middle element, or the sum of the two in the middle.
unfoldable pub double_median : List ℕ → ℕ
unfolding sort
double_median xs =
    let ys = sort xs in
    let n = length ys in
    if n % 2 == 1 then 2 * at_index (n / 2) ys else at_index (n / 2 - 1) ys + at_index (n / 2) ys

-- Twice the baseline; 1.0 where the middle of the series has no comment.
unfoldable pub compute_baseline : List ℕ → ℕ → ℕ → ℕ
unfolding double_median
compute_baseline density skip_head skip_tail =
    let n = length density in
    let last = if ltb (skip_head + skip_tail) n then n - skip_tail else n in
    let nonzero = filter_by (λ d. ltb 0 d) (slice skip_head last density) in
    if length nonzero == 0 then 2 else double_median nonzero

-- The sum over the window around a second, and the width of the window.
abbrev pub local_density : ℕ → List ℕ → ℕ → ℕ × ℕ
local_density half_win density i =
    let win_start = i - half_win in
    let win_end = min (length density) (i + half_win + 1) in
    (sum (slice win_start win_end density), win_end - win_start)

-- local / baseline >= burst_ratio, for a ratio of two numbers and a doubled baseline.
abbrev pub is_burst : ℕ × ℕ → ℕ → ℕ × ℕ → Bool
is_burst ratio baseline density =
    ltb 0 baseline && leb (ratio.0 * baseline * density.1) (2 * density.0 * ratio.1)

unfoldable pub burst_flags_from : ℕ → ℕ × ℕ → ℕ → List ℕ → ℕ → List ℕ → List Bool
burst_flags_from half_win ratio baseline density i [] = []
burst_flags_from half_win ratio baseline density i (d ∷ ds) =
    is_burst ratio baseline (local_density half_win density i)
    ∷ burst_flags_from half_win ratio baseline density (suc i) ds

unfoldable pub burst_flags : ℕ → ℕ × ℕ → ℕ → List ℕ → List Bool
unfolding burst_flags_from
burst_flags burst_window ratio baseline density =
    burst_flags_from (burst_window / 2) ratio baseline density 0 density

sum-bump : (i : ℕ) (ds : List ℕ) → sum (bump i ds) ≡ (if ltb i (length ds) then 1 else 0) + sum ds
sum-bump i [] = ground arith
sum-bump zero (d ∷ ds) = ground arith
sum-bump (suc i) (d ∷ ds) = ground (arith, sum-bump i ds)

length-bump : (i : ℕ) (ds : List ℕ) → length (bump i ds) ≡ length ds
length-bump i [] = refl
length-bump zero (d ∷ ds) = refl
length-bump (suc i) (d ∷ ds) = omega (arith, length-bump i ds)

length-replicate : (n x : ℕ) → length (replicate n x) ≡ n
length-replicate zero x = refl
length-replicate (suc n) x = omega (arith, length-replicate n x)

sum-replicate : (n : ℕ) → sum (replicate n 0) ≡ 0
sum-replicate zero = refl
sum-replicate (suc n) = omega (arith, sum-replicate n)

sum-tally : (ts ds : List ℕ) → sum (tally ts ds) ≡ count_before (length ds) ts + sum ds
unfolding tally count_before
sum-tally [] ds = omega arith
sum-tally (t ∷ ts) ds = ground (
  arith,
  sum-tally ts (bump (t / second) ds),
  sum-bump (t / second) ds,
  length-bump (t / second) ds,
)

length-tally : (ts ds : List ℕ) → length (tally ts ds) ≡ length ds
unfolding tally
length-tally [] ds = refl
length-tally (t ∷ ts) ds =
    omega (arith, length-tally ts (bump (t / second) ds), length-bump (t / second) ds)

-- For a video that is not empty the series has one entry for each second that the video has begun,
-- and its sum is the number of the comments whose second is among them: each is counted once.
pub sum-build_density_series :
    (t : ℕ) (ts : List ℕ) (video_duration : ℕ)
    → 0 < video_duration
    → (length (build_density_series (t ∷ ts) video_duration) ≡ suc (video_duration / second))
      × (sum (build_density_series (t ∷ ts) video_duration)
          ≡ count_before (suc (video_duration / second)) (t ∷ ts))
unfolding build_density_series
sum-build_density_series t ts video_duration h =
    let n = suc (video_duration / second) in
    let zeros = replicate n 0 in
    let e : (video_duration == 0) ≡ false = ground arith in
    rw e (
      rw (length-tally, length-replicate) refl,
      rw (sum-tally, length-replicate, sum-replicate) (omega arith),
    )
