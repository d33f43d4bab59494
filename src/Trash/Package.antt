-- ===== src/Trash/Package.antt =====
-- `_resolve_package_files` of src/dashboard/recording_trash.py. A path is a text relative to the
-- directory of the videos, or outside of it. What `Path.resolve` makes of a text, which files are
-- there, the recordings that a file name mentions (a regular expression) and the order of `sorted` are
-- parameters.
use bilive.Base.{
  ℕ, ◌+◌, Bool, true, false, not, ◌&&◌, ◌||◌, Option, none, some, List, [], ◌∷◌, ◌++◌, map, ◌==◌,
  leb, if◌then◌else◌, filter_by, any, Codes,
}
use bilive.Base.{codes, codes_eq, codes_empty, split_at}
use mathlib.Core.List.{reverse}
use bilive.UploadWorker.Files.{with_suffix, strip_codes}

pub data FilePath : Type 0 where
  within : Codes → FilePath
  outside : FilePath

pub record Filesystem : Type 0 where
  pub resolve : Codes → FilePath
  pub resolve_absolute : Codes → FilePath
  pub is_file : Codes → Bool
  pub identities : Codes → List Codes
  pub ordered : List Codes → List Codes

pub record Artifact : Type 0 where
  pub is_final_output : Bool
  pub rel_path : Codes

-- A relative text, or else an absolute one.
pub record RawPath : Type 0 where
  pub relative : Codes
  pub absolute : Codes

pub record HistorySegment : Type 0 where
  pub artifacts : List Artifact
  pub candidate : RawPath
  pub is_finalized : Bool
  pub is_awaiting : Bool
  pub from_missed : Bool
  pub final_output_history : List Codes

pub record History : Type 0 where
  pub segments : List HistorySegment
  pub temporary_files : List Codes
  pub output_slices : List Codes
  pub candidate_judgments : List RawPath

abbrev pub has_path : Codes → List Codes → Bool
has_path p ps = any (λ q. codes_eq q p) ps

abbrev lower_code : ℕ → ℕ
lower_code c = if leb 65 c && leb c 90 then c + 32 else c

unfoldable pub starts : Codes → Codes → Bool
starts [] text = true
starts (c ∷ cs) [] = false
starts (c ∷ cs) (d ∷ text) = (c == d) && starts cs text

abbrev ends_with : Codes → Codes → Bool
ends_with suffix text = starts (reverse suffix) (reverse text)

abbrev first_part : Codes → Codes
first_part p = elim (split_at (λ c. c == b'/') p) [ [] ↦ [] | part ∷ parts ↦ part ]

abbrev last_part : Codes → Codes
last_part p = elim (reverse (split_at (λ c. c == b'/') p)) [ [] ↦ [] | part ∷ parts ↦ part ]

unfoldable pub is_protected_package_path : Codes → Bool
unfolding starts split_at codes_eq
is_protected_package_path p =
    codes_eq (first_part p) (codes ".bilive-state")
    || codes_eq (first_part p) (codes ".bilive-jobs")
    || ends_with (codes ".upload.json") (map lower_code (last_part p))

pub record Package : Type 0 where
  pub files : List Codes
  pub final_paths : List Codes

abbrev pub discard : Codes → List Codes → List Codes
discard p = filter_by (λ q. not (codes_eq q p))

module _ (fs : Filesystem) (source : Codes) where
  -- Some recording in the file's name is not in that of the source.
  unfoldable pub is_other_recording : Codes → Bool
  is_other_recording p =
      any (λ i. not (has_path i (fs.identities (last_part source)))) (fs.identities (last_part p))

  abbrev pub is_kept_out : Codes → Bool
  is_kept_out p = is_protected_package_path p || is_other_recording p

  -- The inner `add`; `none` is RecordingTrashBlocked for a path outside.
  unfoldable pub add : Bool → FilePath → Package → Option Package
  add final outside pkg = none
  add final (within p) pkg = some (
      if is_kept_out p
      then pkg
      else if final
      then record { files = discard p pkg.files; final_paths = p ∷ pkg.final_paths }
      else if not (has_path p pkg.final_paths) && fs.is_file p
      then record pkg { files = p ∷ discard p pkg.files }
      else pkg)

  pub data Addition : Type 0 where
    file : FilePath → Addition
    final_file : FilePath → Addition
    -- A candidate, whether it is known to be final, and the sidecars that go with it if it is not.
    candidate : FilePath → Bool → List FilePath → Addition

  abbrev pub then_add {ℓ} : {A : Type ℓ} → Option A → (A → Option A) → Option A
  then_add none f = none
  then_add (some a) f = f a

  unfoldable pub add_files : List FilePath → Package → Option Package
  unfolding add
  add_files [] pkg = some pkg
  add_files (p ∷ ps) pkg = then_add (add false p pkg) (add_files ps)

  abbrev pub in_finals : FilePath → Package → Bool
  in_finals outside pkg = false
  in_finals (within p) pkg = has_path p pkg.final_paths

  unfoldable pub perform : Addition → Package → Option Package
  unfolding add add_files
  perform (file p) pkg = add false p pkg
  perform (final_file p) pkg = add true p pkg
  perform (candidate p known sidecars) pkg =
      if in_finals p pkg || known
      then add true p pkg
      else then_add (add false p pkg) (add_files sidecars)

  unfoldable pub perform_all : List Addition → Package → Option Package
  unfolding perform
  perform_all [] pkg = some pkg
  perform_all (a ∷ as') pkg = then_add (perform a pkg) (perform_all as')

  -- `_history_path`
  unfoldable pub history_path : RawPath → Option FilePath
  history_path raw =
      let relative = strip_codes raw.relative in
      let absolute = strip_codes raw.absolute in
      if not (codes_empty relative)
      then some (fs.resolve relative)
      else if codes_empty absolute
      then none
      else some (fs.resolve_absolute absolute)

  abbrev only_relative : Codes → RawPath
  only_relative text = record { relative = text; absolute = [] }

  -- The path with a suffix in place of its own, or with its stem continued.
  abbrev beside : Codes → FilePath → FilePath
  beside suffix outside = outside
  beside suffix (within p) = fs.resolve (with_suffix suffix p)

  abbrev pub sidecars_of : FilePath → List FilePath
  sidecars_of p =
      beside (codes "_analysis.json") p
      ∷ beside (codes "_asr.srt") p
      ∷ beside (codes ".features.json") p
      ∷ []

  unfoldable pub source_additions : List Addition
  source_additions =
      file (fs.resolve source)
      ∷ map (λ suffix. file (fs.resolve (with_suffix suffix source)))
          (codes ".flv"
            ∷ codes ".xml"
            ∷ codes ".flv.meta"
            ∷ codes ".flv.meta.json"
            ∷ codes ".json"
            ∷ codes ".ass"
            ∷ codes ".mp4.task.json"
            ∷ codes ".mp4.pending"
            ∷ codes ".mp4.processing"
            ∷ codes ".mp4.failed"
            ∷ codes ".mp4.done"
            ∷ [])

  abbrev pub artifact_addition : Artifact → Addition
  artifact_addition a =
      if a.is_final_output then final_file (fs.resolve a.rel_path) else file (fs.resolve a.rel_path)

  abbrev pub has_rel_path : Artifact → Bool
  has_rel_path a = not (codes_empty a.rel_path)

  -- `_candidate_is_final` is an upload status on the way to publication, or a time of finalization.
  unfoldable pub segment_additions : HistorySegment → List Addition
  unfolding history_path
  segment_additions s =
      map artifact_addition (filter_by has_rel_path s.artifacts)
      ++ elim (history_path s.candidate) [
        | none ↦ []
        | some p ↦
            candidate p (s.is_awaiting || s.is_finalized)
              (if s.from_missed then sidecars_of p else [])
            ∷ []
      ]

  abbrev pub concat_map {ℓ κ} : {A : Type ℓ} {B : Type κ} → (A → List B) → List A → List B
  concat_map f [] = []
  concat_map f (x ∷ xs) = f x ++ concat_map f xs

  abbrev option_list {ℓ} : {A : Type ℓ} → Option A → List A
  option_list none = []
  option_list (some a) = a ∷ []

  abbrev pub texts_paths : List Codes → List FilePath
  texts_paths = concat_map (λ text. option_list (history_path (only_relative text)))

  abbrev same_file : FilePath → FilePath → Bool
  same_file (within p) (within q) = codes_eq p q
  same_file _ _ = false

  abbrev pub final_artifacts : HistorySegment → List FilePath
  final_artifacts s =
      map (λ a. fs.resolve a.rel_path)
        (filter_by (λ a. a.is_final_output && has_rel_path a) s.artifacts)

  -- `_path_is_final_from_history`
  unfoldable pub path_is_final_from_history : FilePath → History → Bool
  unfolding history_path codes_eq
  path_is_final_from_history p history =
      any (same_file p) (texts_paths history.output_slices)
      || any
          (λ s.
            any (same_file p) (final_artifacts s)
            || any (same_file p) (texts_paths s.final_output_history))
          history.segments

  unfoldable pub judgment_additions : History → RawPath → List Addition
  unfolding history_path path_is_final_from_history
  judgment_additions history raw = elim (history_path raw) [
    | none ↦ []
    | some p ↦
        if path_is_final_from_history p history
        then final_file p ∷ []
        else file p ∷ map file (sidecars_of p)
  ]

  -- The calls of `add`, in their order.
  unfoldable pub additions : History → List Addition
  unfolding source_additions segment_additions judgment_additions history_path
  additions history =
      source_additions
      ++ (concat_map segment_additions history.segments
          ++ (map file (texts_paths history.temporary_files)
              ++ (map final_file (texts_paths history.output_slices)
                  ++ concat_map (judgment_additions history) history.candidate_judgments)))

  abbrev pub finished : Package → Package
  finished pkg = record pkg {
    files = fs.ordered (filter_by (λ p. not (has_path p pkg.final_paths)) pkg.files);
  }

  abbrev pub finish_package : Option Package → Option Package
  finish_package none = none
  finish_package (some pkg) = some (finished pkg)

  unfoldable pub resolve_package_files : History → Option Package
  unfolding additions perform_all
  resolve_package_files history =
      finish_package (perform_all (additions history) (record { files = []; final_paths = [] }))
