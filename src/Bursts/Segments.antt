-- ===== src/Bursts/Segments.antt =====
-- The segments of flagged seconds and their merging, in `detect_bursts` of
-- src/autoslice/burst_detector.py.
use bilive.Base.{
  ℕ, suc, ◌+◌, ◌-◌, ◌≤◌, ◌<◌, ◌≡◌, Bool, true, false, ◌&&◌, ◌||◌, Option, none, some, List, [], ◌∷◌,
  inl, inr, arith, ◌==◌, leb, ltb, if◌then◌else◌, length, get_elem?, any, Bool-cases, if-ind, ◌∙◌,
}

-- From a second up to and without another.
abbrev pub Segment : Type 0
Segment = ℕ × ℕ

-- The loop over the flags, with the start of the open segment if one is open.
unfoldable pub segments_from : ℕ → Option ℕ → List Bool → List Segment
segments_from i none [] = []
segments_from i (some seg_start) [] = (seg_start, i) ∷ []
segments_from i none (true ∷ flags) = segments_from (suc i) (some i) flags
segments_from i none (false ∷ flags) = segments_from (suc i) none flags
segments_from i (some seg_start) (true ∷ flags) = segments_from (suc i) (some seg_start) flags
segments_from i (some seg_start) (false ∷ flags) = (seg_start, i) ∷ segments_from (suc i) none flags

unfoldable pub find_segments : List Bool → List Segment
unfolding segments_from
find_segments flags = segments_from 0 none flags

-- The loop with `merged[-1]` as its first argument.
unfoldable pub merge_from : ℕ → Segment → List Segment → List Segment
merge_from merge_gap last [] = last ∷ []
merge_from merge_gap last (seg ∷ segs) =
    let joined = merge_from merge_gap (last.0, seg.1) segs in
    let apart = last ∷ merge_from merge_gap seg segs in
    if leb (seg.0 - last.1) merge_gap then joined else apart

unfoldable pub merge_segments : ℕ → List Segment → List Segment
unfolding merge_from
merge_segments merge_gap [] = []
merge_segments merge_gap (seg ∷ segs) = merge_from merge_gap seg segs

abbrev pub in_segment : ℕ → Segment → Bool
in_segment i seg = leb seg.0 i && ltb i seg.1

-- In order and apart by more than a gap, not empty, and ending by a bound.
abbrev pub Separate : ℕ → ℕ → ℕ → List Segment → Type 0
Separate gap bound lo [] = Unit
Separate gap bound lo (seg ∷ segs) =
    (lo ≤ seg.0) × (seg.0 < seg.1) × (seg.1 ≤ bound) × Separate gap bound (suc (seg.1 + gap)) segs

-- The flag of a second; false outside the series.
abbrev pub flag_at : ℕ → List Bool → Bool
flag_at i flags = elim (get_elem? flags i) [ none ↦ false | some b ↦ b ]

Separate-lower :
    (gap bound lo lo' : ℕ) (segs : List Segment)
    → lo' ≤ lo
    → Separate gap bound lo segs
    → Separate gap bound lo' segs
Separate-lower gap bound lo lo' [] le h = tt
Separate-lower gap bound lo lo' (seg ∷ segs) le h = (omega arith, h.1, h.2, h.3)

abbrev start_of : ℕ → Option ℕ → ℕ
start_of i none = i
start_of i (some seg_start) = seg_start

abbrev Opened : ℕ → Option ℕ → Type 0
Opened i none = Unit
Opened i (some seg_start) = seg_start < i

Separate-segments_from :
    (i : ℕ) (open_at : Option ℕ) (bound : ℕ) (flags : List Bool)
    → Opened i open_at
    → i + length flags ≤ bound
    → Separate 0 bound (start_of i open_at) (segments_from i open_at flags)
unfolding segments_from
Separate-segments_from i none bound [] lt h = tt
Separate-segments_from i none bound (true ∷ flags) lt h =
    Separate-segments_from (suc i) (some i) bound flags (omega arith) (omega arith)
Separate-segments_from i none bound (false ∷ flags) lt h =
    Separate-lower 0 bound (suc i) i (segments_from (suc i) none flags) (omega arith)
      (Separate-segments_from (suc i) none bound flags tt (omega arith))
Separate-segments_from i (some seg_start) bound [] lt h = (omega arith, lt, omega arith, tt)
Separate-segments_from i (some seg_start) bound (true ∷ flags) lt h =
    Separate-segments_from (suc i) (some seg_start) bound flags (omega arith) (omega arith)
Separate-segments_from i (some seg_start) bound (false ∷ flags) lt h = (
  omega arith,
  lt,
  omega arith,
  Separate-lower 0 bound (suc i) (suc (i + 0)) (segments_from (suc i) none flags) (omega arith)
      (Separate-segments_from (suc i) none bound flags tt (omega arith)),
)

-- Whether a second is in the segment that is open, or flagged from `i` on.
abbrev opened_at : ℕ → ℕ → Option ℕ → Bool
opened_at j i none = false
opened_at j i (some seg_start) = leb seg_start j && ltb j i

abbrev flagged_from : ℕ → ℕ → List Bool → Bool
flagged_from j i flags = leb i j && flag_at (j - i) flags

flagged_from-cons :
    (j i : ℕ) (b : Bool) (flags : List Bool)
    → flagged_from j i (b ∷ flags) ≡ (((j == i) && b) || flagged_from j (suc i) flags)
flagged_from-cons j i b flags = elim (Bool-cases (leb (suc i) j)) [
  | inl t ↦ let e : j - i ≡ suc (j - suc i) = ground arith in rw e (ground arith)
  | inr f ↦ elim (Bool-cases (j == i)) [
    | inl same ↦ let e : j - i ≡ 0 = ground arith in rw e (ground arith)
    | inr other ↦ ground arith
  ]
]

any-segments_from :
    (j i : ℕ) (open_at : Option ℕ) (flags : List Bool)
    → Opened i open_at
    → any (in_segment j) (segments_from i open_at flags)
      ≡ (opened_at j i open_at || flagged_from j i flags)
unfolding segments_from
any-segments_from j i none [] lt = ground arith
any-segments_from j i (some seg_start) [] lt = ground arith
any-segments_from j i none (true ∷ flags) lt =
    rw flagged_from-cons (ground (arith, any-segments_from j (suc i) (some i) flags (omega arith)))
any-segments_from j i none (false ∷ flags) lt =
    rw flagged_from-cons (ground (arith, any-segments_from j (suc i) none flags tt))
any-segments_from j i (some seg_start) (true ∷ flags) lt =
    rw flagged_from-cons
      (ground (arith, any-segments_from j (suc i) (some seg_start) flags (omega arith)))
any-segments_from j i (some seg_start) (false ∷ flags) lt =
    rw flagged_from-cons (ground (arith, any-segments_from j (suc i) none flags tt))

flagged_from-zero : (j : ℕ) (flags : List Bool) → flagged_from j 0 flags ≡ flag_at j flags
flagged_from-zero j flags = let e : j - 0 ≡ j = omega arith in rw e (ground arith)

-- The segments are not empty, in order, apart from one another and inside the series, and a second is
-- in one of them exactly when its flag is set.
pub find_segments_lem :
    (flags : List Bool)
    → Separate 0 (length flags) 0 (find_segments flags)
      × ((j : ℕ) → any (in_segment j) (find_segments flags) ≡ flag_at j flags)
unfolding find_segments
find_segments_lem flags = (
  Separate-segments_from 0 none (length flags) flags tt (omega arith),
  λ j. any-segments_from j 0 none flags tt ∙ flagged_from-zero j flags,
)

Separate-merge_from :
    (merge_gap bound lo : ℕ) (last : Segment) (segs : List Segment)
    → Separate 0 bound lo (last ∷ segs)
    → Separate merge_gap bound lo (merge_from merge_gap last segs)
unfolding merge_from
Separate-merge_from merge_gap bound lo last [] h = (h.0, h.1, h.2, tt)
Separate-merge_from merge_gap bound lo last (seg ∷ segs) h =
    if-ind (Separate merge_gap bound lo) (leb (seg.0 - last.1) merge_gap)
      (λ t.
        Separate-merge_from merge_gap bound lo (last.0, seg.1) segs
          (h.0, omega arith, h.3.2, h.3.3))
      (λ f. (
        h.0,
        h.1,
        h.2,
        Separate-merge_from merge_gap bound (suc (last.1 + merge_gap)) seg segs
            (ground arith, h.3.1, h.3.2, h.3.3),
      ))

any-merge_from :
    (merge_gap j : ℕ) (last : Segment) (segs : List Segment) (bound lo : ℕ)
    → Separate 0 bound lo (last ∷ segs)
    → any (in_segment j) (last ∷ segs) ≡ true
    → any (in_segment j) (merge_from merge_gap last segs) ≡ true
unfolding merge_from
any-merge_from merge_gap j last [] bound lo h e = e
any-merge_from merge_gap j last (seg ∷ segs) bound lo h e = ground (
  arith,
  any-merge_from merge_gap j (last.0, seg.1) segs bound lo (h.0, omega arith, h.3.2, h.3.3),
  any-merge_from merge_gap j seg segs bound (suc (last.1 + 0)) h.3,
)

-- Merging segments that are in order leaves them more than the gap apart and inside the series, and
-- keeps every second that was in a segment.
pub merge_segments_lem :
    (merge_gap bound : ℕ) (segs : List Segment) (j : ℕ)
    → Separate 0 bound 0 segs
    → any (in_segment j) segs ≡ true
    → Separate merge_gap bound 0 (merge_segments merge_gap segs)
      × (any (in_segment j) (merge_segments merge_gap segs) ≡ true)
unfolding merge_segments
merge_segments_lem merge_gap bound [] j h e = (tt, e)
merge_segments_lem merge_gap bound (seg ∷ segs) j h e = (
  Separate-merge_from merge_gap bound 0 seg segs h,
  any-merge_from merge_gap j seg segs bound 0 h e,
)

-- Merged segments are apart by more than the gap.
pub Separate-merge_segments :
    (merge_gap bound : ℕ) (segs : List Segment)
    → Separate 0 bound 0 segs
    → Separate merge_gap bound 0 (merge_segments merge_gap segs)
unfolding merge_segments
Separate-merge_segments merge_gap bound [] h = tt
Separate-merge_segments merge_gap bound (seg ∷ segs) h =
    Separate-merge_from merge_gap bound 0 seg segs h
