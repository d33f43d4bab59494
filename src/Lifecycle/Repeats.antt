-- ===== src/Lifecycle/Repeats.antt =====
-- Records of src/dashboard/source_lifecycle.py that are asked for more than once.
use bilive.Base.{
  ℕ, String, ◌≡◌, ◌≢◌, refl, Bool, true, false, Option, none, some, List, [], ◌∷◌, ◌++◌, inl, inr,
  arith, find, All, Bool-cases, Option-cases, if-ind, Option-ind, Codes, ap,
}
use bilive.Base.{codes_empty, codes_eq, codes_eq_iff}
use bilive.Lifecycle.Review.{is_empty}
use bilive.Lifecycle.Experience.{
  Experience, Line, entry, damaged, ExperienceLog, records_of, read_experiences, has_key, existing,
  with_id, append_experience, append_all, ReviewedSegment, segment_experience, review_records,
  no_content, wanted_records, classify, has_failure, segment_key,
}

none_ne : (item : Experience) → ◌≢◌ {A = Option Experience} none (some item)
none_ne item e = cc

codes_eq_refl : (key : Codes) → codes_eq key key ≡ true
codes_eq_refl key = (codes_eq_iff key key).1 refl

records_of-append : (xs ys : List Line) → records_of (xs ++ ys) ≡ records_of xs ++ records_of ys
unfolding records_of
records_of-append [] ys = refl
records_of-append (damaged ∷ xs) ys = records_of-append xs ys
records_of-append (entry e ∷ xs) ys = ap (λ l. e ∷ l) (records_of-append xs ys)

find-append :
    (p : Experience → Bool) (xs ys : List Experience) (x : Experience)
    → find p xs ≡ some x
    → find p (xs ++ ys) ≡ some x
find-append p [] ys x e = cc
find-append p (y ∷ xs) ys x e = ground (arith, find-append p xs ys x)

find-append_none :
    (p : Experience → Bool) (xs : List Experience) (y : Experience)
    → find p xs ≡ none
    → p y ≡ true
    → find p (xs ++ y ∷ []) ≡ some y
find-append_none p [] y e t = rw t refl
find-append_none p (x ∷ xs) y e t = ground (arith, find-append_none p xs y)

-- Whatever one log finds under a key, the other finds too.
abbrev Extends : ExperienceLog → ExperienceLog → Type 0
Extends log later =
    (key : Codes) (item : Experience)
    → existing key log ≡ some item
    → existing key later ≡ some item

Extends-append_experience :
    (e : Experience) (now : ℕ) (log : ExperienceLog) → Extends log (append_experience e now log).0
unfolding append_experience read_experiences
Extends-append_experience e now log key item found =
    elim (Option-cases (existing e.dedupe_key log)) [
      | inr (x, there) ↦ rw there found
      | inl missing ↦ elim (Bool-cases (codes_empty key)) [
        | inl t ↦ absurd (none_ne item (rw t at found))
        | inr f ↦ rw missing (
            rw f (
              rw records_of-append
                (find-append (has_key key) (records_of log.lines) _ item (rw f at found))))
      ]
    ]

-- A record is there under its key once it has been appended.
existing-append_experience :
    (e : Experience) (now : ℕ) (log : ExperienceLog)
    → codes_empty e.dedupe_key ≡ false
    → existing e.dedupe_key (append_experience e now log).0 ≡ some (append_experience e now log).1
unfolding append_experience read_experiences
existing-append_experience e now log f = elim (Option-cases (existing e.dedupe_key log)) [
  | inr (x, there) ↦ rw there there
  | inl missing ↦ rw missing (
      rw f (
        rw records_of-append (
          find-append_none (has_key e.dedupe_key) (records_of log.lines) (with_id log.next_id now e)
            (rw f at missing) (codes_eq_refl e.dedupe_key))))
]

Extends-append_all :
    (es : List Experience) (now : ℕ) (log : ExperienceLog) → Extends log (append_all es now log).0
unfolding append_all
Extends-append_all [] now log key item found = found
Extends-append_all (e ∷ es) now log key item found =
    Extends-append_all es now (append_experience e now log).0 key item
      (Extends-append_experience e now log key item found)

abbrev Keyed : List Experience → Type 0
Keyed = All (λ e. codes_empty e.dedupe_key ≡ false)

append_experience-found :
    (e : Experience) (now : ℕ) (log : ExperienceLog) (item : Experience)
    → existing e.dedupe_key log ≡ some item
    → append_experience e now log ≡ (log, item)
unfolding append_experience
append_experience-found e now log item found = rw found refl

append_all_again :
    (es : List Experience) (now later : ℕ) (log log' : ExperienceLog)
    → Keyed es
    → Extends (append_all es now log).0 log'
    → append_all es later log' ≡ (log', (append_all es now log).1)
unfolding append_all
append_all_again [] now later log log' keyed extends = refl
append_all_again (e ∷ es) now later log log' keyed extends =
    let first = append_experience e now log in
    let there : existing e.dedupe_key log' ≡ some first.1 = extends e.dedupe_key first.1 (
      Extends-append_all es now first.0 e.dedupe_key first.1
        (existing-append_experience e now log keyed.0)) in
    rw (append_experience-found e later log' first.1 there)
      (rw (append_all_again es now later first.0 log' keyed.1 extends) refl)

codes_empty-append : (xs ys : Codes) (c : ℕ) → codes_empty (xs ++ c ∷ ys) ≡ false
codes_empty-append [] ys c = refl
codes_empty-append (x ∷ xs) ys c = refl

Keyed-review_records :
    (room_id task_id : String) (segments : List ReviewedSegment)
    → Keyed (review_records room_id task_id segments)
unfolding review_records segment_experience segment_key
Keyed-review_records room_id task_id [] = tt
Keyed-review_records room_id task_id (s ∷ segments) =
    Option-ind Keyed (classify s.judge_status (has_failure s) s.from_missed)
      (λ _. Keyed-review_records room_id task_id segments)
      (λ kind _. (codes_empty-append _ _ _, Keyed-review_records room_id task_id segments))

pub Keyed-wanted_records :
    (room_id task_id : String) (segments : List ReviewedSegment)
    → Keyed (wanted_records room_id task_id segments)
unfolding wanted_records no_content
Keyed-wanted_records room_id task_id segments =
    if-ind Keyed (is_empty segments) (λ _. (codes_empty-append _ _ _, tt))
      (λ _. Keyed-review_records room_id task_id segments)

pub append_all-append_all :
    (es : List Experience) (now later : ℕ) (log : ExperienceLog)
    → Keyed es
    → append_all es later (append_all es now log).0 ≡ append_all es now log
append_all-append_all es now later log keyed =
    append_all_again es now later log (append_all es now log).0 keyed (λ key item found. found)
