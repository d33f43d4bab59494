-- ===== src/Examples/Trash.antt =====
-- The theorem on the files of a recording at a concrete directory.
use bilive.UploadWorker.Files.{strip_codes, with_suffix}
use bilive.Base.{
  sym, subst, ℕ, All, Option, String, Bool-cases, ◌≡◌, Bool, split_at, refl, true, false, List, [],
  ◌∷◌, if◌then◌else◌, Codes,
}
use bilive.Base.{codes, codes_eq, codes_eq_iff, inl, inr, none, some}
use bilive.Lifecycle.State.{
  RecordingState, TrashPlan, review_complete, default_recording_state, set_review_state,
}
use bilive.Lifecycle.Review.{HistoryStatus, no_file}
use bilive.ActionJobs.Submit.{find_active, scan}
use bilive.UploadWorker.Files.{with_suffix, strip_codes}
use bilive.Trash.Run.{Host, Store, trash_recording, saved_plan}
use bilive.Trash.Untouched.{OnlyMoves, names_any, has_path-trash_recording}
use bilive.Trash.Retry.{IsWilling}
use bilive.Trash.Retried.{IsPlannable, IsTrashed, IsFair, attempts, IsTrashed-attempts}
use bilive.Trash.Plan.{
  TrashSegment, Recording, Options, plan_for, ready_plan, build_trash_plan, plan_source, decide,
  all_texts, source_texts, recording_texts, segments_texts, segment_texts, job_texts, idle_texts,
  paths_texts, segment_paths, queue_texts, upload_texts, package_texts, unique_texts,
  expired_forced, resolve_task_id, on_disk,
}
use bilive.Trash.Outputs.{Stays, Stays-trash_recording}
use bilive.Trash.Safe.{final_outputs}
use bilive.Trash.Package.{
  FilePath, within, Filesystem, History, Package, add, add_files, perform, perform_all, additions,
  source_additions, segment_additions, judgment_additions, history_path, is_other_recording,
  is_protected_package_path, resolve_package_files, starts, has_path, discard,
}
use bilive.Trash.Safe.{IsSafe, KeepsAll, resolve_package_files-IsSafe}

abbrev disk : List Codes
disk = codes "a.mp4" ∷ codes "a.mp4.done" ∷ codes "a.xml" ∷ codes "b.mp4" ∷ codes "out.mp4" ∷ []

abbrev fs : Filesystem
fs = record {
  resolve = λ text. within text;
  resolve_absolute = λ text. within text;
  is_file = λ path. has_path path disk;
  identities = λ name. if codes_eq name (codes "b.mp4") then codes "b" ∷ [] else [];
  ordered = λ paths. paths;
}

abbrev history : History
history = record {
  segments =
      record {
        artifacts = record { is_final_output = true; rel_path = codes "out.mp4" } ∷ [];
        candidate = record { relative = codes "b.mp4"; absolute = [] };
        is_finalized = false;
        is_awaiting = false;
        from_missed = false;
        final_output_history = [];
      }
      ∷ [];
  temporary_files = codes "out.mp4" ∷ [];
  output_slices = [];
  candidate_judgments = [];
}

abbrev resolved : Package
resolved = record {
  files = codes "a.mp4.done" ∷ codes "a.xml" ∷ codes "a.mp4" ∷ [];
  final_paths = codes "out.mp4" ∷ [];
}

KeepsAll-same : KeepsAll (λ paths. paths)
KeepsAll-same p xs h = h

resolve_package_files-IsSafe_example : IsSafe fs (codes "a.mp4") history resolved
unfolding resolve_package_files additions perform_all perform add add_files source_additions
    segment_additions judgment_additions history_path is_other_recording is_protected_package_path
    starts codes_eq with_suffix strip_codes split_at
resolve_package_files-IsSafe_example =
    resolve_package_files-IsSafe fs (codes "a.mp4") history resolved KeepsAll-same refl

-- A shell that moves every file, and one that refuses them.
abbrev moving : Codes → List Codes → Bool × List Codes
moving path files = (true, discard path files)

abbrev refusing : Codes → List Codes → Bool × List Codes
refusing path files = (false, files)

abbrev host_with : (Codes → List Codes → Bool × List Codes) → Host
host_with shell = record {
  is_windows = true;
  shell = shell;
  resolve = λ text. within text;
  describe = λ failure. "failed";
}

has_path-discard :
    (p q : Codes) (files : List Codes)
    → codes_eq p q ≡ false
    → has_path q (discard p files) ≡ has_path q files
has_path-discard p q [] other = refl
has_path-discard p q (x ∷ files) other = elim (Bool-cases (codes_eq x p)) [
  | inl t ↦
      let same : x ≡ p = (codes_eq_iff x p).0 t in
      let out : codes_eq x q ≡ false = subst (λ y. codes_eq y q ≡ false) (sym same) other in
      rw (t, out) (has_path-discard p q files other)
  | inr f ↦ rw f (rw (has_path-discard p q files other) refl)
]

has_path_discarded : (p : Codes) (files : List Codes) → has_path p (discard p files) ≡ false
has_path_discarded p [] = refl
has_path_discarded p (x ∷ files) = elim (Bool-cases (codes_eq x p)) [
  | inl t ↦ rw t (has_path_discarded p files)
  | inr f ↦ rw f (rw f (has_path_discarded p files))
]

OnlyMoves-moving : OnlyMoves moving
OnlyMoves-moving = record {
  apart = λ p q files other. has_path-discard p q files other;
  gone = λ p files t. has_path_discarded p files;
}

OnlyMoves-refusing : OnlyMoves refusing
OnlyMoves-refusing = record { apart = λ p q files other. refl; gone = λ p files t. absurd cc }

abbrev kept : TrashSegment
kept = record {
  segment_id = "s1";
  artifacts = record {
    artifacts = record { is_final_output = true; rel_path = codes "out.mp4" } ∷ [];
    candidate = record { relative = codes "b.mp4"; absolute = [] };
    is_finalized = false;
    is_awaiting = false;
    from_missed = false;
    final_output_history = [];
  };
  is_action_active = false;
  final_rel_path = codes "out.mp4";
  requires_row = false;
}

abbrev listed : Recording
listed = record {
  task_id = "r1";
  status = HistoryStatus.done;
  segments = kept ∷ [];
  history = history;
}

abbrev no_history : ℕ → Option String
no_history i = none

abbrev text_of : FilePath → String
text_of path = "x"

abbrev decode : String → Option Codes
decode task_id = some (codes "a.mp4")

abbrev reviewed : RecordingState
reviewed =
    set_review_state review_complete "all" 50 (default_recording_state "a.mp4" "22384516" none 10)

abbrev start : Store
start = record { state = reviewed; log = []; disk = disk }

abbrev options : Options
options = record { force_expired = false; job_id = none }

abbrev plan : TrashPlan
plan = record { source_rel_path = codes "a.mp4"; files = resolved.files }

abbrev build : Store → Option TrashPlan
build = plan_for fs no_history [] no_file text_of decode listed options 60

build_example : build start ≡ some plan
unfolding plan_for ready_plan build_trash_plan plan_source decide all_texts source_texts
    recording_texts segments_texts segment_texts job_texts idle_texts paths_texts segment_paths
    queue_texts upload_texts package_texts unique_texts expired_forced resolve_task_id find_active
    scan default_recording_state set_review_state resolve_package_files additions perform_all
    perform add add_files source_additions segment_additions judgment_additions history_path
    is_other_recording is_protected_package_path starts codes_eq with_suffix strip_codes split_at
build_example = refl

-- Nothing was moved yet.
fresh : IsPlannable build plan start
unfolding saved_plan default_recording_state set_review_state codes_eq
fresh = record {
  active = refl;
  unsaved = refl;
  built = build_example;
  full = refl;
  unmoved = refl;
  there = (refl, (refl, (refl, tt)));
}

IsFair-moving : IsFair plan (host_with moving)
IsFair-moving = record {
  only = OnlyMoves-moving;
  clean = λ p files f. absurd cc;
  resolves = (refl, (refl, (refl, tt)));
}

IsFair-refusing : IsFair plan (host_with refusing)
IsFair-refusing = record {
  only = OnlyMoves-refusing;
  clean = λ p files f. refl;
  resolves = (refl, (refl, (refl, tt)));
}

IsWilling-moving : IsWilling (host_with moving)
IsWilling-moving = record { windows = refl; moves = λ p files t. refl }

abbrev refusals : List (Host × ℕ)
refusals = (host_with refusing, 70) ∷ (host_with refusing, 80) ∷ []

IsTrashed-attempts_example :
    IsTrashed plan (trash_recording (host_with moving) 90 build (attempts build refusals start)).0
IsTrashed-attempts_example =
    IsTrashed-attempts build plan refusals (host_with moving) 90 start (inl fresh)
      (IsFair-refusing, (IsFair-refusing, tt)) IsFair-moving IsWilling-moving

has_path-trash_recording_example :
    has_path (codes "out.mp4") (trash_recording (host_with moving) 90 build start).0.disk
    ≡ has_path (codes "out.mp4") disk
unfolding saved_plan names_any default_recording_state set_review_state codes_eq
has_path-trash_recording_example =
    has_path-trash_recording (host_with moving) 90 OnlyMoves-moving build start (codes "out.mp4")
      refl (rw build_example refl)

Stays-trash_recording_example :
    All
      (Stays start (trash_recording (host_with moving) 60 build start).0)
      (final_outputs (on_disk fs start) (codes "a.mp4") history)
unfolding saved_plan default_recording_state set_review_state resolve_task_id codes_eq
Stays-trash_recording_example =
    Stays-trash_recording fs no_history [] no_file text_of decode (host_with moving) 60 listed
      options start plan (codes "a.mp4") OnlyMoves-moving KeepsAll-same refl build_example refl
      (refl, (refl, (refl, tt)))
