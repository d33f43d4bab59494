-- ===== src/Trash/Safe.antt =====
-- What `_resolve_package_files` of src/dashboard/recording_trash.py never includes.
use bilive.Base.{
  Option-cases, ◌≡◌, refl, Bool, true, false, not, ◌&&◌, ◌||◌, Option, none, some, List, [], ◌∷◌,
  ◌++◌, map, inl, inr, arith, if◌then◌else◌, filter_by, all, All, Bool-cases, Codes, subst,
  All-append,
}
use bilive.Base.{codes_eq, codes_eq_iff}
use bilive.Trash.Package.{
  history_path, RawPath, path_is_final_from_history, judgment_additions, FilePath, within, outside,
  Filesystem, Artifact, HistorySegment, History, has_path, Package, is_other_recording,
  is_protected_package_path, is_kept_out, add, Addition, file, final_file, candidate, then_add,
  add_files, in_finals, perform, perform_all, source_additions, segment_additions,
  artifact_addition, has_rel_path, concat_map, texts_paths, final_artifacts, additions, finished,
  resolve_package_files, finish_package, discard,
}

all-filter_by :
    (p q : Codes → Bool) (xs : List Codes) → all p xs ≡ true → all p (filter_by q xs) ≡ true
all-filter_by p q [] h = refl
all-filter_by p q (x ∷ xs) h = ground (arith, all-filter_by p q xs)

all-filter_by_both :
    (p q : Codes → Bool) (xs : List Codes)
    → all p xs ≡ true
    → all (λ x. p x && q x) (filter_by q xs) ≡ true
all-filter_by_both p q [] h = refl
all-filter_by_both p q (x ∷ xs) h = ground (arith, all-filter_by_both p q xs)

-- A path that fails the test is not in the list.
has_path-all :
    (p : Codes → Bool) (path : Codes) (xs : List Codes)
    → all p xs ≡ true
    → p path ≡ false
    → has_path path xs ≡ false
has_path-all p path [] h f = refl
has_path-all p path (x ∷ xs) h f = elim (Bool-cases (codes_eq x path)) [
  | inl t ↦
      let same : x ≡ path = (codes_eq_iff x path).0 t in
      let other : p x ≡ false = rw same f in absurd (ground arith)
  | inr n ↦ rw n (has_path-all p path xs (ground arith) f)
]

-- A list that is put in order holds what it held.
abbrev pub KeepsAll : (List Codes → List Codes) → Type 0
KeepsAll f = (p : Codes → Bool) (xs : List Codes) → all p xs ≡ true → all p (f xs) ≡ true

module _ (fs : Filesystem) (source : Codes) where
  abbrev is_there : Codes → Bool
  is_there p = fs.is_file p && not (is_kept_out fs source p)

  abbrev AllThere : Package → Type 0
  AllThere pkg = all is_there pkg.files ≡ true

  abbrev Marked : Package → FilePath → Type 0
  Marked pkg outside = Unit
  Marked pkg (within p) = (is_kept_out fs source p || has_path p pkg.final_paths) ≡ true

  -- Both packages hold only files that are there, and no final path is forgotten.
  record Grows (before after : Package) : Type 0 where
    there : AllThere before → AllThere after
    kept : (p : Codes) → has_path p before.final_paths ≡ true → has_path p after.final_paths ≡ true

  Grows-same : (pkg : Package) → Grows pkg pkg
  Grows-same pkg = record { there = λ h. h; kept = λ p h. h }

  Grows-trans : (a b c : Package) → Grows a b → Grows b c → Grows a c
  Grows-trans a b c g h = record {
    there = λ t. h.there (g.there t);
    kept = λ p t. h.kept p (g.kept p t);
  }

  then_add-some :
      (o : Option Package) (f : Package → Option Package) (c : Package)
      → then_add fs source o f ≡ some c
      → (b : Package) × (o ≡ some b) × (f b ≡ some c)
  then_add-some none f c e = absurd cc
  then_add-some (some b) f c e = (b, refl, e)

  added : Bool → Codes → Package → Package
  added final p pkg =
      if is_kept_out fs source p
      then pkg
      else if final
      then record { files = discard p pkg.files; final_paths = p ∷ pkg.final_paths }
      else if not (has_path p pkg.final_paths) && fs.is_file p
      then record pkg { files = p ∷ discard p pkg.files }
      else pkg

  Grows-added : (final : Bool) (p : Codes) (pkg : Package) → Grows pkg (added final p pkg)
  unfolding added
  Grows-added final p pkg = record {
    there = λ h. ground (arith, all-filter_by is_there (λ q. not (codes_eq q p)) pkg.files h);
    kept = λ q h. ground arith;
  }

  Grows-add :
      (final : Bool) (p : FilePath) (pkg after : Package)
      → add fs source final p pkg ≡ some after
      → Grows pkg after
  unfolding add added
  Grows-add final outside pkg after e = absurd cc
  Grows-add final (within p) pkg after e =
      let same : added final p pkg ≡ after = cc in subst (Grows pkg) same (Grows-added final p pkg)

  Marked-added : (p : Codes) (pkg : Package) → Marked (added true p pkg) (within p)
  unfolding added
  Marked-added p pkg = elim (Bool-cases (is_kept_out fs source p)) [
    | inl t ↦ rw t refl
    | inr f ↦ rw f (rw ((codes_eq_iff p p).1 refl) refl)
  ]

  Marked-add :
      (p : FilePath) (pkg after : Package) → add fs source true p pkg ≡ some after → Marked after p
  unfolding add added
  Marked-add outside pkg after e = absurd cc
  Marked-add (within p) pkg after e =
      let same : added true p pkg ≡ after = cc in
      subst (λ a. Marked a (within p)) same (Marked-added p pkg)

  Grows-add_files :
      (ps : List FilePath) (pkg after : Package)
      → add_files fs source ps pkg ≡ some after
      → Grows pkg after
  unfolding add_files
  Grows-add_files [] pkg after e =
      let same : pkg ≡ after = cc in subst (Grows pkg) same (Grows-same pkg)
  Grows-add_files (p ∷ ps) pkg after e =
      let (middle, first, rest) =
        then_add-some (add fs source false p pkg) (add_files fs source ps) after e in
      Grows-trans pkg middle after (Grows-add false p pkg middle first)
        (Grows-add_files ps middle after rest)

  abbrev MarkedBy : Package → Addition fs source → Type 0
  MarkedBy pkg (final_file p) = Marked pkg p
  MarkedBy pkg _ = Unit

  Grows-perform :
      (a : Addition fs source) (pkg after : Package)
      → perform fs source a pkg ≡ some after
      → Grows pkg after
  unfolding perform
  Grows-perform (file p) pkg after e = Grows-add false p pkg after e
  Grows-perform (final_file p) pkg after e = Grows-add true p pkg after e
  Grows-perform (candidate p known sidecars) pkg after e =
      elim (Bool-cases (in_finals fs source p pkg || known)) [
        | inl t ↦ Grows-add true p pkg after (rw t at e)
        | inr f ↦
            let (middle, first, rest) =
              then_add-some (add fs source false p pkg) (add_files fs source sidecars) after
                (rw f at e) in
            Grows-trans pkg middle after (Grows-add false p pkg middle first)
              (Grows-add_files sidecars middle after rest)
      ]

  MarkedBy-perform :
      (a : Addition fs source) (pkg after : Package)
      → perform fs source a pkg ≡ some after
      → MarkedBy after a
  unfolding perform
  MarkedBy-perform (file p) pkg after e = tt
  MarkedBy-perform (final_file p) pkg after e = Marked-add p pkg after e
  MarkedBy-perform (candidate p known sidecars) pkg after e = tt

  MarkedBy-later :
      (a : Addition fs source) (before after : Package)
      → Grows before after
      → MarkedBy before a
      → MarkedBy after a
  MarkedBy-later (file p) before after g m = tt
  MarkedBy-later (candidate p known sidecars) before after g m = tt
  MarkedBy-later (final_file outside) before after g m = tt
  MarkedBy-later (final_file (within p)) before after g m =
      elim (Bool-cases (is_kept_out fs source p)) [
        | inl t ↦ rw t refl
        | inr f ↦ rw f (g.kept p (rw f at m))
      ]

  perform_all_lem :
      (as' : List (Addition fs source)) (pkg after : Package)
      → perform_all fs source as' pkg ≡ some after
      → Grows pkg after × All (MarkedBy after) as'
  unfolding perform_all
  perform_all_lem [] pkg after e =
      let same : pkg ≡ after = cc in (subst (Grows pkg) same (Grows-same pkg), tt)
  perform_all_lem (a ∷ as') pkg after e =
      let (middle, first, rest) =
        then_add-some (perform fs source a pkg) (perform_all fs source as') after e in
      let later = perform_all_lem as' middle after rest in
      (
        Grows-trans pkg middle after (Grows-perform a pkg middle first) later.0,
        (MarkedBy-later a middle after later.0 (MarkedBy-perform a pkg middle first), later.1),
      )

  abbrev pub NotIn : Package → FilePath → Type 0
  NotIn pkg outside = Unit
  NotIn pkg (within p) = has_path p pkg.files ≡ false

  abbrev judged_final : History → Option FilePath → List FilePath
  judged_final history none = []
  judged_final history (some p) =
      if path_is_final_from_history fs source p history then p ∷ [] else []

  -- The candidates of the judgments that the history knows as final, earlier outputs included.
  unfoldable pub judged_outputs : History → List RawPath → List FilePath
  judged_outputs history =
      concat_map fs source (λ raw. judged_final history (history_path fs source raw))

  -- What the history shows to be a final output: the current one of each segment, the legacy list, and
  -- each judged candidate that is a final output, a current or an earlier one. An earlier output that no
  -- judgment names is not among them.
  unfoldable pub final_outputs : History → List FilePath
  final_outputs history =
      concat_map fs source (final_artifacts fs source) history.segments
      ++ (texts_paths fs source history.output_slices
          ++ judged_outputs history history.candidate_judgments)

  -- Files that are there, of this recording and not protected, none of which is a final output.
  pub record IsSafe (history : History) (pkg : Package) : Type 0 where
    pub there :
        all
          (λ p. fs.is_file p && not (is_protected_package_path p || is_other_recording fs source p))
          pkg.files
        ≡ true
    pub apart : all (λ p. not (has_path p pkg.final_paths)) pkg.files ≡ true
    pub outputs : All (NotIn pkg) (final_outputs history)

  module _ (pkg : Package) where
    All-split_left :
        (P : Addition fs source → Type 0) (xs ys : List (Addition fs source))
        → All P (xs ++ ys)
        → All P xs
    All-split_left P [] ys h = tt
    All-split_left P (x ∷ xs) ys h = (h.0, All-split_left P xs ys h.1)

    All-split_right :
        (P : Addition fs source → Type 0) (xs ys : List (Addition fs source))
        → All P (xs ++ ys)
        → All P ys
    All-split_right P [] ys h = h
    All-split_right P (x ∷ xs) ys h = All-split_right P xs ys h.1

    Marked-artifact :
        (a : Artifact)
        → a.is_final_output ≡ true
        → MarkedBy pkg (artifact_addition fs source a)
        → Marked pkg (fs.resolve a.rel_path)
    Marked-artifact a final m = rw final at m

    Marked-artifacts :
        (artifacts : List Artifact)
        → All
            (MarkedBy pkg)
            (map (artifact_addition fs source) (filter_by (has_rel_path fs source) artifacts))
        → All (Marked pkg) (
            map
              (λ (a : Artifact). fs.resolve a.rel_path)
              (filter_by (λ a. a.is_final_output && has_rel_path fs source a) artifacts))
    Marked-artifacts [] h = tt
    Marked-artifacts (a ∷ artifacts) h = elim (Bool-cases (has_rel_path fs source a)) [
      | inr f ↦
          let neither : (a.is_final_output && has_rel_path fs source a) ≡ false =
            ground (arith, f) in
          rw neither (Marked-artifacts artifacts (rw f at h))
      | inl t ↦ elim (Bool-cases a.is_final_output) [
        | inl final ↦
            let both : (a.is_final_output && has_rel_path fs source a) ≡ true = ground (arith, t) in
            rw both
              (Marked-artifact a final (rw t at h).0, Marked-artifacts artifacts (rw t at h).1)
        | inr plain ↦
            let neither : (a.is_final_output && has_rel_path fs source a) ≡ false =
              ground (arith, plain) in
            rw neither (Marked-artifacts artifacts (rw t at h).1)
      ]
    ]

    Marked-segments :
        (segments : List HistorySegment)
        → All (MarkedBy pkg) (concat_map fs source (segment_additions fs source) segments)
        → All (Marked pkg) (concat_map fs source (final_artifacts fs source) segments)
    unfolding segment_additions
    Marked-segments [] h = tt
    Marked-segments (s ∷ segments) h =
        let mine =
          All-split_left (MarkedBy pkg) _
            (concat_map fs source (segment_additions fs source) segments) h in
        All-append (Marked pkg) (final_artifacts fs source s)
          (concat_map fs source (final_artifacts fs source) segments)
          (Marked-artifacts s.artifacts (All-split_left (MarkedBy pkg) _ _ mine))
          (Marked-segments segments (All-split_right (MarkedBy pkg) _ _ h))

    Marked-finals :
        (ps : List FilePath) → All (MarkedBy pkg) (map final_file ps) → All (Marked pkg) ps
    Marked-finals [] h = tt
    Marked-finals (p ∷ ps) h = (h.0, Marked-finals ps h.1)

    Marked-judged :
        (history : History) (raw : RawPath)
        → All (MarkedBy pkg) (judgment_additions fs source history raw)
        → All (Marked pkg) (judged_final history (history_path fs source raw))
    unfolding judgment_additions
    Marked-judged history raw h = elim (Option-cases (history_path fs source raw)) [
      | inl missing ↦ rw missing tt
      | inr (p, found) ↦ elim (Bool-cases (path_is_final_from_history fs source p history)) [
        | inr f ↦ rw (found, f) tt
        | inl t ↦
            rw (found, t)
              ((rw (found, judgment_additions, path_is_final_from_history, t) at h).0, tt)
      ]
    ]

    Marked-judged_outputs :
        (history : History) (raws : List RawPath)
        → All (MarkedBy pkg) (concat_map fs source (judgment_additions fs source history) raws)
        → All (Marked pkg) (judged_outputs history raws)
    unfolding judged_outputs
    Marked-judged_outputs history [] h = tt
    Marked-judged_outputs history (raw ∷ raws) h =
        All-append (Marked pkg) (judged_final history (history_path fs source raw))
          (judged_outputs history raws)
          (Marked-judged history raw (All-split_left (MarkedBy pkg) _ _ h))
          (Marked-judged_outputs history raws (All-split_right (MarkedBy pkg) _ _ h))

    Marked-final_outputs :
        (history : History)
        → All (MarkedBy pkg) (additions fs source history)
        → All (Marked pkg) (final_outputs history)
    unfolding additions final_outputs
    Marked-final_outputs history h =
        let h1 = All-split_right (MarkedBy pkg) (source_additions fs source) _ h in
        let h2 =
          All-split_right (MarkedBy pkg)
            (concat_map fs source (segment_additions fs source) history.segments) _ h1 in
        let h3 =
          All-split_right (MarkedBy pkg) (map file (texts_paths fs source history.temporary_files))
            _ h2 in
        let finals = map final_file (texts_paths fs source history.output_slices) in
        All-append (Marked pkg) (concat_map fs source (final_artifacts fs source) history.segments)
          (texts_paths fs source history.output_slices
            ++ judged_outputs history history.candidate_judgments)
          (Marked-segments history.segments (All-split_left (MarkedBy pkg) _ _ h1))
          (All-append (Marked pkg) (texts_paths fs source history.output_slices)
            (judged_outputs history history.candidate_judgments)
            (Marked-finals (texts_paths fs source history.output_slices)
              (All-split_left (MarkedBy pkg) finals _ h3))
            (Marked-judged_outputs history history.candidate_judgments
              (All-split_right (MarkedBy pkg) finals _ h3)))

  abbrev kept_test : Package → Codes → Bool
  kept_test pkg p = is_there p && not (has_path p pkg.final_paths)

  NotIn-Marked :
      (pkg : Package) (files : List Codes)
      → all (kept_test pkg) files ≡ true
      → (p : FilePath) → Marked pkg p
      → NotIn (record pkg { files = files }) p
  NotIn-Marked pkg files h outside m = tt
  NotIn-Marked pkg files h (within p) m = has_path-all (kept_test pkg) p files h (ground arith)

  All-NotIn :
      (pkg : Package) (files : List Codes)
      → all (kept_test pkg) files ≡ true
      → (ps : List FilePath) → All (Marked pkg) ps
      → All (NotIn (record pkg { files = files })) ps
  All-NotIn pkg files h [] m = tt
  All-NotIn pkg files h (p ∷ ps) m = (NotIn-Marked pkg files h p m.0, All-NotIn pkg files h ps m.1)

  all_both :
      (p q : Codes → Bool) (xs : List Codes)
      → all (λ x. p x && q x) xs ≡ true
      → (all p xs ≡ true) × (all q xs ≡ true)
  all_both p q [] h = (refl, refl)
  all_both p q (x ∷ xs) h = ground (arith, all_both p q xs)

  IsSafe-finish :
      (history : History) (raw : Package)
      → KeepsAll fs.ordered
      → perform_all fs source
          (additions fs source history)
          (record { files = []; final_paths = [] })
        ≡ some raw
      → IsSafe history (finished fs source raw)
  IsSafe-finish history raw ordered found =
      let facts =
        perform_all_lem (additions fs source history) (record { files = []; final_paths = [] }) raw
          found in
      let files = fs.ordered (filter_by (λ p. not (has_path p raw.final_paths)) raw.files) in
      let there = facts.0.there refl in
      let kept : all (kept_test raw) files ≡ true =
        ordered (kept_test raw) _
          (all-filter_by_both is_there (λ p. not (has_path p raw.final_paths)) raw.files there) in
      let both = all_both is_there (λ p. not (has_path p raw.final_paths)) files kept in
      record {
        there = both.0;
        apart = both.1;
        outputs =
            All-NotIn raw files kept (final_outputs history)
              (Marked-final_outputs raw history facts.1);
      }

  IsSafe-finished :
      (history : History) (pkg : Package)
      → KeepsAll fs.ordered
      → (result : Option Package)
      → perform_all fs source
          (additions fs source history)
          (record { files = []; final_paths = [] })
        ≡ result
      → finish_package fs source result ≡ some pkg
      → IsSafe history pkg
  IsSafe-finished history pkg ordered none found e = absurd cc
  IsSafe-finished history pkg ordered (some raw) found e =
      let same : finished fs source raw ≡ pkg = cc in
      subst (IsSafe history) same (IsSafe-finish history raw ordered found)

  -- Where the package of a recording can be resolved, it consists of files that are there, that belong
  -- to no other recording and are not protected, and no final output is among them: the current one of a
  -- segment, a file of the legacy list, or a judged candidate that the history knows as a final output,
  -- which may be an earlier one. An earlier final output that no judgment names is not covered.
  pub resolve_package_files-IsSafe :
      (history : History) (pkg : Package)
      → KeepsAll fs.ordered
      → resolve_package_files fs source history ≡ some pkg
      → IsSafe history pkg
  unfolding resolve_package_files
  resolve_package_files-IsSafe history pkg ordered e =
      IsSafe-finished history pkg ordered
        (perform_all fs source (additions fs source history)
          (record { files = []; final_paths = [] }))
        refl e
