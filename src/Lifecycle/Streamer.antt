-- ===== src/Lifecycle/Streamer.antt =====
-- The recommendations for a streamer and the profile that they change, in
-- src/dashboard/source_lifecycle.py. Ids are numbers in the order of creation.
use bilive.Base.{
  ap, ℕ, suc, ◌≤◌, ◌<◌, max, String, ◌≡◌, refl, Bool, true, false, ◌&&◌, ◌||◌, Option, none, some,
  List, [], ◌∷◌, ◌++◌, map, inl, inr, arith, ◌==◌, leb, ltb, leb→le, ltb→lt, if◌then◌else◌, length,
  take, filter_by, find, any, Bool-cases, Codes, ◌⊎◌, subst,
}
use bilive.Base.{codes, codes_empty, codes_eq}
use bilive.UploadWorker.Files.{join, strip_codes}
use bilive.Lifecycle.Experience.{
  Experience, positive, negative, missed_segment_positive, ExperienceLog, read_experiences,
}

pub record Recommendation : Type 0 where
  pub recommendation_id : ℕ
  pub evidence_ids : List ℕ
  pub approved_guidance : Codes
  pub is_applied : Bool

pub record Profile : Type 0 where
  pub display_name : Codes
  pub aliases : List Codes
  pub default_tags : List Codes
  pub default_description : Codes
  pub approved_guidance : Codes
  pub updated_at : ℕ

pub record StreamerState : Type 0 where
  pub profile : Profile
  pub recommendations : List Recommendation
  pub next_id : ℕ
  pub updated_at : ℕ

abbrev pub is_positive : Experience → Bool
is_positive e = elim e.experience_type [
  | positive ↦ true
  | missed_segment_positive ↦ true
  | _ ↦ false
]

abbrev pub is_negative : Experience → Bool
is_negative e = elim e.experience_type [ negative ↦ true | _ ↦ false ]

-- VALID_CONTENT_EXPERIENCE_TYPES
abbrev pub is_valid : Experience → Bool
is_valid e = is_positive e || is_negative e

abbrev is_missed : Experience → Bool
is_missed e = elim e.experience_type [ missed_segment_positive ↦ true | _ ↦ false ]

pub record Evidence : Type 0 where
  pub is_ready : Bool
  pub sample_size : ℕ
  pub positive_count : ℕ
  pub negative_count : ℕ
  pub minimum_samples : ℕ

unfoldable pub streamer_evidence_summary : String → ℕ → ExperienceLog → Evidence
streamer_evidence_summary room min_samples log =
    let valid = filter_by is_valid (read_experiences (some room) log) in
    let positives = length (filter_by is_positive valid) in
    let negatives = length (filter_by is_negative valid) in
    let required = max 1 min_samples in
    record {
      is_ready = leb required (length valid) && ltb 0 positives && ltb 0 negatives;
      sample_size = length valid;
      positive_count = positives;
      negative_count = negatives;
      minimum_samples = required;
    }

abbrev Tally : Type 0
Tally = List (Codes × ℕ)

count_reason : Codes → Tally → Tally
count_reason reason [] = (reason, 1) ∷ []
count_reason reason ((r, n) ∷ counts) =
    let rest = count_reason reason counts in
    if codes_eq r reason then (r, suc n) ∷ counts else (r, n) ∷ rest

count_reasons : List Codes → Tally → Tally
count_reasons [] counts = counts
count_reasons (r ∷ rs) counts = count_reasons rs (count_reason r counts)

-- Before the entries that are counted less; equal counts keep their order.
insert_count : Codes × ℕ → Tally → Tally
insert_count c [] = c ∷ []
insert_count c (d ∷ counts) =
    let rest = insert_count c counts in if leb d.1 c.1 then c ∷ d ∷ counts else d ∷ rest

sort_counts : Tally → Tally
sort_counts [] = []
sort_counts (c ∷ counts) = insert_count c (sort_counts counts)

-- Counter(…).most_common(3)
unfoldable pub most_common : List Codes → List Codes
unfolding count_reason count_reasons insert_count sort_counts
most_common reasons = map (λ c. c.0) (take 3 (sort_counts (count_reasons reasons [])))

abbrev or_review : Codes → Codes
or_review reason = if codes_empty reason then codes "content_review" else reason

unfoldable pub guidance_of : List Experience → Codes
unfolding most_common
guidance_of valid =
    let weak = filter_by is_negative valid ++ filter_by is_missed valid in
    let reasons = most_common (map (λ e. or_review e.reason_type) weak) in
    let listed = if length reasons == 0 then codes "保留完整主题、发展和落点" else join (codes "；") reasons in
    codes "人工样本提示：重点检查 " ++ (listed ++ codes "。")

unfoldable pub same_ids : List ℕ → List ℕ → Bool
same_ids [] [] = true
same_ids (x ∷ xs) (y ∷ ys) = (x == y) && same_ids xs ys
same_ids _ _ = false

-- The mutator of `generate_streamer_recommendation`.
unfoldable pub add_recommendation : List ℕ → Codes → StreamerState → StreamerState
unfolding same_ids
add_recommendation evidence_ids guidance state =
    if any (λ r. same_ids r.evidence_ids evidence_ids) state.recommendations
    then state
    else record state {
      recommendations =
          state.recommendations
          ++ record {
            recommendation_id = state.next_id;
            evidence_ids = evidence_ids;
            approved_guidance = guidance;
            is_applied = false;
          }
            ∷ [];
      next_id = suc state.next_id;
    }

-- `mutate_streamer_state` of a state that is stored: what the mutator returns is written with the time.
unfoldable pub mutate_streamer_state :
    (StreamerState → StreamerState) → ℕ → StreamerState → StreamerState
mutate_streamer_state mutator now state = record (mutator state) { updated_at = now }

unfoldable pub generate_streamer_recommendation :
    String → ℕ → ℕ → ExperienceLog → StreamerState → StreamerState
unfolding streamer_evidence_summary add_recommendation guidance_of mutate_streamer_state
generate_streamer_recommendation room min_samples now log state =
    let valid = filter_by is_valid (read_experiences (some room) log) in
    if (streamer_evidence_summary room min_samples log).is_ready
    then mutate_streamer_state
        (add_recommendation (map (λ e. e.experience_id) valid) (guidance_of valid)) now state
    else state

abbrev with_guidance : Codes → ℕ → Profile → Profile
with_guidance guidance now profile = record profile {
  approved_guidance = guidance;
  updated_at = now;
}

-- The first recommendation with the id, marked as applied.
unfoldable pub mark_applied : ℕ → List Recommendation → List Recommendation
mark_applied i [] = []
mark_applied i (r ∷ rs) =
    let rest = mark_applied i rs in
    if r.recommendation_id == i then record r { is_applied = true } ∷ rs else r ∷ rest

unfoldable pub apply_found : ℕ → ℕ → StreamerState → Option Recommendation → Option StreamerState
unfolding mark_applied mutate_streamer_state
apply_found i now state none = none
apply_found i now state (some r) = some (
    mutate_streamer_state
      (λ s. if r.is_applied then s else record s {
        profile = with_guidance r.approved_guidance now s.profile;
        recommendations = mark_applied i s.recommendations;
      })
      now state)

-- `none` is FileNotFoundError, which leaves the file as it is.
unfoldable pub apply_streamer_recommendation : ℕ → ℕ → StreamerState → Option StreamerState
unfolding apply_found
apply_streamer_recommendation i now state =
    apply_found i now state (find (λ r. r.recommendation_id == i) state.recommendations)

-- What the prompt gets of the guidance: at most 2000 characters.
unfoldable pub profile_context_for_mimo : StreamerState → Codes
profile_context_for_mimo state = take 2000 (strip_codes state.profile.approved_guidance)

same_ids_refl : (xs : List ℕ) → same_ids xs xs ≡ true
unfolding same_ids
same_ids_refl [] = refl
same_ids_refl (x ∷ xs) = ground (arith, same_ids_refl xs)

any-append_last :
    (p : Recommendation → Bool) (rs : List Recommendation) (r : Recommendation)
    → p r ≡ true
    → any p (rs ++ r ∷ []) ≡ true
any-append_last p [] r t = rw t refl
any-append_last p (x ∷ rs) r t = ground (arith, any-append_last p rs r t)

any-add_recommendation :
    (ids : List ℕ) (guidance : Codes) (state : StreamerState)
    → any (λ r. same_ids r.evidence_ids ids) (add_recommendation ids guidance state).recommendations
      ≡ true
unfolding add_recommendation
any-add_recommendation ids guidance state =
    elim (Bool-cases (any (λ r. same_ids r.evidence_ids ids) state.recommendations)) [
      | inl t ↦ rw t t
      | inr f ↦ rw f (
          any-append_last (λ r. same_ids r.evidence_ids ids) state.recommendations _
            (same_ids_refl ids))
    ]

add_recommendation_there :
    (ids : List ℕ) (guidance : Codes) (state : StreamerState)
    → any (λ r. same_ids r.evidence_ids ids) state.recommendations ≡ true
    → add_recommendation ids guidance state ≡ state
unfolding add_recommendation
add_recommendation_there ids guidance state t = rw t refl

-- The evidence that a new recommendation rests on.
pub record HasEvidence (room : String) (min_samples : ℕ) (log : ExperienceLog) : Type 0 where
  pub enough : max 1 min_samples ≤ length (filter_by is_valid (read_experiences (some room) log))
  pub some_positive :
      0 < length (filter_by is_positive (filter_by is_valid (read_experiences (some room) log)))
  pub some_negative :
      0 < length (filter_by is_negative (filter_by is_valid (read_experiences (some room) log)))

abbrev stamped : ℕ → StreamerState → StreamerState
stamped now state = record state { updated_at = now }

-- With one and the same log, recommendations are made once. Either both calls leave the state as it is;
-- or there are enough valid samples of the room, with both a positive and a negative one, and the second
-- call changes nothing but the time of the last change.
pub generate_streamer_recommendation_once :
    (room : String) (min_samples now later : ℕ) (log : ExperienceLog) (state : StreamerState)
    → ((generate_streamer_recommendation room min_samples now log state ≡ state)
        × (generate_streamer_recommendation room min_samples later log state ≡ state))
      ⊎ (HasEvidence room min_samples log
          × (generate_streamer_recommendation room min_samples later log
                (generate_streamer_recommendation room min_samples now log state)
              ≡ record (generate_streamer_recommendation room min_samples now log state) {
                updated_at = later;
              }))
unfolding generate_streamer_recommendation streamer_evidence_summary mutate_streamer_state
generate_streamer_recommendation_once room min_samples now later log state =
    let valid = filter_by is_valid (read_experiences (some room) log) in
    let ids = map (λ e. e.experience_id) valid in
    let guidance = guidance_of valid in
    let ready =
      leb (max 1 min_samples) (length valid)
      && ltb 0 (length (filter_by is_positive valid))
      && ltb 0 (length (filter_by is_negative valid)) in
    elim (Bool-cases ready) [
      | inr f ↦ inl (rw f (refl, refl))
      | inl t ↦ inr (
        record {
          enough = leb→le _ _ (ground arith);
          some_positive = ltb→lt _ _ (ground arith);
          some_negative = ltb→lt _ _ (ground arith);
        },
        rw t (
            ap (stamped later) (
              add_recommendation_there ids guidance
                (stamped now (add_recommendation ids guidance state))
                (any-add_recommendation ids guidance state))),
      )
    ]

find-mark_applied :
    (i : ℕ) (rs : List Recommendation) (r : Recommendation)
    → find (λ x. x.recommendation_id == i) rs ≡ some r
    → find (λ x. x.recommendation_id == i) (mark_applied i rs)
      ≡ some (record r { is_applied = true })
unfolding mark_applied
find-mark_applied i [] r e = absurd (ground arith)
find-mark_applied i (x ∷ rs) r e = elim (Bool-cases (x.recommendation_id == i)) [
  | inl t ↦ ground arith
  | inr f ↦ ground (arith, find-mark_applied i rs r (rw f at e))
]

abbrev at_recommendation : ℕ → Recommendation → Bool
at_recommendation i r = r.recommendation_id == i

ap_recommendations :
    (i : ℕ) (state applied : StreamerState) (r : Recommendation)
    → some state ≡ some applied
    → find (at_recommendation i) state.recommendations ≡ some r
    → find (at_recommendation i) applied.recommendations ≡ some r
ap_recommendations i state applied r same e =
    let this : state ≡ applied = cc in
    subst (λ s. find (at_recommendation i) s.recommendations ≡ some r) this e

find-apply_found :
    (i now : ℕ) (state applied : StreamerState) (found : Option Recommendation)
    → find (at_recommendation i) state.recommendations ≡ found
    → apply_found i now state found ≡ some applied
    → (r : Recommendation) × (find (at_recommendation i) applied.recommendations ≡ some r)
      × (r.is_applied ≡ true)
unfolding apply_found mutate_streamer_state
find-apply_found i now state applied none there e = absurd cc
find-apply_found i now state applied (some r) there e = elim (Bool-cases r.is_applied) [
  | inl t ↦
      let same : some (stamped now state) ≡ some applied = rw t at e in
      (r, ap_recommendations i (stamped now state) applied r same there, t)
  | inr f ↦
      let next = record state {
        profile = with_guidance r.approved_guidance now state.profile;
        recommendations = mark_applied i state.recommendations;
        updated_at = now;
      } in
      let same : some next ≡ some applied = rw f at e in
      (
        record r { is_applied = true },
        ap_recommendations i next applied (record r { is_applied = true }) same
            (find-mark_applied i state.recommendations r there),
        refl,
      )
]

-- A recommendation that was applied is applied once: applying it again, at whatever time, changes
-- nothing but the time of the last change, also where the profile was edited in between.
pub apply_streamer_recommendation_once :
    (i now later : ℕ) (state applied : StreamerState) (profile : Profile)
    → apply_streamer_recommendation i now state ≡ some applied
    → apply_streamer_recommendation i later (record applied { profile = profile })
      ≡ some (record applied { profile = profile; updated_at = later })
unfolding apply_streamer_recommendation apply_found mutate_streamer_state
apply_streamer_recommendation_once i now later state applied profile e =
    let (r, found, done) =
      find-apply_found i now state applied (find (at_recommendation i) state.recommendations) refl
        e in
    rw (found, apply_found) (rw done refl)
