-- ===== src/Trash/Authorized.antt =====
-- When `build_trash_plan` of src/dashboard/recording_trash.py makes a plan.
use bilive.Base.{
  ℕ, String, ◌≡◌, refl, Bool, true, false, not, ◌||◌, Option, none, some, List, [], ◌∷◌, ◌++◌, inl,
  inr, arith, if◌then◌else◌, any, All, Bool-cases, Codes, str_eq, ◌⊎◌, sym, ap,
}
use bilive.Base.{codes}
use bilive.UploadWorker.Files.{with_suffix}
use bilive.Lifecycle.State.{RecordingState, TrashPlan, TrashStatus, same_trash}
use bilive.Lifecycle.Review.{
  UploadDatabase, no_file, unreadable, readable, is_uploading, is_ready, is_empty,
}
use bilive.Lifecycle.Eligible.{NotUploading}
use bilive.ActionJobs.Files.{Directory}
use bilive.ActionJobs.Submit.{Search, no_active, active, corrupt, segment, recording, find_active}
use bilive.UploadQueue.Table.{Queue, Row, fetch_item}
use bilive.Trash.Package.{FilePath, Filesystem, Package, has_path, resolve_package_files}
use bilive.Trash.Plan.{
  TaskSource, absent, invalid, found, TrashSegment, Recording, Options, Planning, ready,
  is_other_job, both, unforced, expired_forced, segment_paths, upload_texts, queue_texts,
  paths_texts, idle_texts, job_texts, segment_texts, segments_texts, source_texts, recording_texts,
  package_texts, decide, all_texts, plan_source, build_trash_plan, resolve_task_id,
}

append_nil : (xs ys : List Codes) → xs ++ ys ≡ [] → (xs ≡ []) × (ys ≡ [])
append_nil [] ys e = (refl, e)
append_nil (x ∷ xs) ys e = absurd cc

if_nil : (b : Bool) (x : Codes) → (if b then x ∷ [] else []) ≡ [] → b ≡ false
if_nil true x e = absurd cc
if_nil false x e = refl

or_false : (a b : Bool) → (a || b) ≡ false → (a ≡ false) × (b ≡ false)
or_false a b e = (ground arith, ground arith)

not-true : (b : Bool) → not b ≡ false → b ≡ true
not-true true e = refl
not-true false e = cc

is_empty_nil : (xs : List Codes) → is_empty xs ≡ true → xs ≡ []
is_empty_nil [] e = refl
is_empty_nil (x ∷ xs) e = absurd cc

both_nil : (a b : Option (List Codes)) → both a b ≡ some [] → (a ≡ some []) × (b ≡ some [])
both_nil none b e = absurd cc
both_nil (some xs) none e = absurd cc
both_nil (some xs) (some ys) e =
    let same : xs ++ ys ≡ [] = cc in
    let parts = append_nil xs ys same in (ap some parts.0, ap some parts.1)

-- What is known of the uploads of a segment.
abbrev pub KnowsUploads :
    UploadDatabase → (FilePath → String) → TrashSegment → List FilePath → Type 0
KnowsUploads database text_of s [] = Unit
KnowsUploads no_file text_of s (p ∷ ps) = s.requires_row ≡ false
KnowsUploads unreadable text_of s (p ∷ ps) = s.requires_row ≡ false
KnowsUploads (readable q) text_of s (p ∷ ps) =
    All (λ x. NotUploading (fetch_item q (text_of x))) (p ∷ ps)

abbrev pub IsSole : Option ℕ → Search → Type 0
IsSole current no_active = Unit
IsSole current (active job) = is_other_job current job ≡ false
IsSole current (corrupt i) = ⊥

module _ (fs : Filesystem) (job_history : ℕ → Option String) (directory : Directory)
    (database : UploadDatabase) (text_of : FilePath → String) (decode : String → Option Codes) where
  -- A segment that nothing is being done with.
  pub record IsIdle (s : TrashSegment) : Type 0 where
    pub named : str_eq s.segment_id "" ≡ false
    pub unclaimed : find_active job_history segment s.segment_id directory ≡ no_active
    pub inactive : s.is_action_active ≡ false
    pub uploads :
        KnowsUploads database text_of s
          (segment_paths fs job_history directory database text_of decode s.artifacts)

  -- A recording whose review is complete and that nothing is being done with.
  pub record IsReviewed (source : Codes) (r : Recording) (state : RecordingState) : Type 0 where
    pub not_pending : fs.is_file (with_suffix (codes ".mp4.pending") source) ≡ false
    pub not_processing : fs.is_file (with_suffix (codes ".mp4.processing") source) ≡ false
    pub marked_done : fs.is_file (with_suffix (codes ".mp4.done") source) ≡ true
    pub reviewed : is_ready state.review_state ≡ true
    pub segments : All IsIdle r.segments

  pub record IsAuthorized (r : Recording) (state : RecordingState) (options : Options) (now : ℕ)
      (plan : TrashPlan) (source : Codes) (pkg : Package) : Type 0 where
    pub here :
        resolve_task_id fs job_history directory database text_of decode r.task_id ≡ found source
    pub resolved : resolve_package_files fs source r.history ≡ some pkg
    pub whole : plan.files ≡ pkg.files
    pub full : is_empty pkg.files ≡ false
    pub sole : IsSole options.job_id (find_active job_history recording r.task_id directory)
    pub cause : (expired_forced state options now ≡ true) ⊎ IsReviewed source r state

  NotUploading-upload_texts :
      (s : TrashSegment) (p : FilePath) (item : Option Row)
      → upload_texts fs job_history directory database text_of decode s p item ≡ []
      → NotUploading item
  unfolding upload_texts
  NotUploading-upload_texts s p none e = tt
  NotUploading-upload_texts s p (some item) e = if_nil (is_uploading item) _ e

  NotUploading-queue_texts :
      (q : Queue) (s : TrashSegment) (ps : List FilePath)
      → queue_texts fs job_history directory database text_of decode q s ps ≡ []
      → All (λ x. NotUploading (fetch_item q (text_of x))) ps
  unfolding queue_texts
  NotUploading-queue_texts q s [] e = tt
  NotUploading-queue_texts q s (p ∷ ps) e =
      let parts =
        append_nil
          (upload_texts fs job_history directory database text_of decode s p
            (fetch_item q (text_of p)))
          _ e in
      (
        NotUploading-upload_texts s p (fetch_item q (text_of p)) parts.0,
        NotUploading-queue_texts q s ps parts.1,
      )

  KnowsUploads-paths_texts :
      (d : UploadDatabase) (s : TrashSegment) (ps : List FilePath)
      → paths_texts fs job_history directory database text_of decode d s ps ≡ []
      → KnowsUploads d text_of s ps
  unfolding paths_texts
  KnowsUploads-paths_texts no_file s [] e = tt
  KnowsUploads-paths_texts unreadable s [] e = tt
  KnowsUploads-paths_texts (readable q) s [] e = tt
  KnowsUploads-paths_texts no_file s (p ∷ ps) e = if_nil s.requires_row _ e
  KnowsUploads-paths_texts unreadable s (p ∷ ps) e =
      if_nil s.requires_row (codes "upload_status_unknown")
        (append_nil (if s.requires_row then codes "upload_status_unknown" ∷ [] else []) _ e).0
  KnowsUploads-paths_texts (readable q) s (p ∷ ps) e = NotUploading-queue_texts q s (p ∷ ps) e

  IsIdle-job_texts :
      (s : TrashSegment) (search : Search)
      → str_eq s.segment_id "" ≡ false
      → find_active job_history segment s.segment_id directory ≡ search
      → job_texts fs job_history directory database text_of decode s search ≡ some []
      → IsIdle s
  unfolding job_texts idle_texts
  IsIdle-job_texts s (corrupt i) named same e = absurd cc
  IsIdle-job_texts s (active job) named same e = absurd cc
  IsIdle-job_texts s no_active named same e =
      let nil : idle_texts fs job_history directory database text_of decode s ≡ [] = cc in
      let first = append_nil (if s.is_action_active then _ ∷ [] else []) _ nil in
      record {
        named = named;
        unclaimed = same;
        inactive = if_nil s.is_action_active _ first.0;
        uploads = KnowsUploads-paths_texts database s _ (append_nil _ _ first.1).1;
      }

  IsIdle-segment_texts :
      (s : TrashSegment)
      → segment_texts fs job_history directory database text_of decode s ≡ some []
      → IsIdle s
  unfolding segment_texts
  IsIdle-segment_texts s e = elim (Bool-cases (str_eq s.segment_id "")) [
    | inl t ↦ let nil : some (codes "segment_id_missing" ∷ []) ≡ some [] = rw t at e in absurd cc
    | inr f ↦
        IsIdle-job_texts s (find_active job_history segment s.segment_id directory) f refl
          (rw f at e)
  ]

  IsIdle-segments_texts :
      (ss : List TrashSegment)
      → segments_texts fs job_history directory database text_of decode ss ≡ some []
      → All IsIdle ss
  unfolding segments_texts
  IsIdle-segments_texts [] e = tt
  IsIdle-segments_texts (s ∷ ss) e =
      let parts = both_nil (segment_texts fs job_history directory database text_of decode s) _ e in
      (IsIdle-segment_texts s parts.0, IsIdle-segments_texts ss parts.1)

  IsSole-recording_texts :
      (current : Option ℕ) (search : Search)
      → recording_texts current search ≡ some []
      → IsSole current search
  unfolding recording_texts
  IsSole-recording_texts current no_active e = tt
  IsSole-recording_texts current (corrupt i) e = absurd cc
  IsSole-recording_texts current (active job) e =
      let nil : (if is_other_job current job then codes "trash_action_active" ∷ [] else []) ≡ [] =
        cc in
      if_nil (is_other_job current job) _ nil

  IsReviewed-texts :
      (source : Codes) (r : Recording) (state : RecordingState)
      → source_texts fs job_history directory database text_of decode source r.status state ≡ []
      → segments_texts fs job_history directory database text_of decode r.segments ≡ some []
      → IsReviewed source r state
  unfolding source_texts
  IsReviewed-texts source r state e segments =
      let a = append_nil (if _ then codes "source_task_active" ∷ [] else []) _ e in
      let b = append_nil (if _ then codes "source_task_active" ∷ [] else []) _ a.1 in
      let c = append_nil (if _ then codes "source_task_status_unknown" ∷ [] else []) _ b.1 in
      let d = append_nil (if _ then codes "review_incomplete" ∷ [] else []) _ c.1 in
      let markers = or_false _ _ (if_nil _ _ a.0) in
      record {
        not_pending = markers.0;
        not_processing = markers.1;
        marked_done = not-true _ (if_nil _ _ c.0);
        reviewed = not-true _ (if_nil _ _ d.0);
        segments = IsIdle-segments_texts r.segments segments;
      }

  cause-all_texts :
      (source : Codes) (r : Recording) (state : RecordingState) (forced : Bool)
      → unforced forced (
          some
            (source_texts fs job_history directory database text_of decode source r.status state))
        ≡ some []
      → unforced forced (segments_texts fs job_history directory database text_of decode r.segments)
        ≡ some []
      → (forced ≡ true) ⊎ IsReviewed source r state
  cause-all_texts source r state true e k = inl refl
  cause-all_texts source r state false e k =
      let nil : source_texts fs job_history directory database text_of decode source r.status state
          ≡ [] =
        cc in
      inr (IsReviewed-texts source r state nil k)

  -- The facts behind a decision for a plan.
  pub record IsDecided (source : Codes) (texts : Option (List Codes)) (resolved : Option Package)
      (plan : TrashPlan) (pkg : Package) : Type 0 where
    pub silent : texts ≡ some []
    pub resolves : resolved ≡ some pkg
    pub whole : plan.files ≡ pkg.files
    pub full : is_empty pkg.files ≡ false

  IsDecided-decide :
      (source : Codes) (plan : TrashPlan) (texts : Option (List Codes)) (resolved : Option Package)
      → decide source texts resolved ≡ ready plan
      → (pkg : Package) × IsDecided source texts resolved plan pkg
  unfolding decide package_texts
  IsDecided-decide source plan none resolved e = absurd cc
  IsDecided-decide source plan (some texts) none e = absurd cc
  IsDecided-decide source plan (some texts) (some pkg) e =
      elim (Bool-cases (is_empty (texts ++ package_texts pkg))) [
        | inr f ↦ let no : Planning.refused _ ≡ ready plan = rw f at e in absurd cc
        | inl t ↦
            let made : ready (record { source_rel_path = source; files = pkg.files }) ≡ ready plan =
              rw t at e in
            let same : record { source_rel_path = source; files = pkg.files } ≡ plan = cc in
            let parts = append_nil texts _ (is_empty_nil _ t) in
            let last =
              append_nil (if any (λ p. has_path p pkg.final_paths) pkg.files then _ ∷ [] else []) _
                parts.1 in
            (
              pkg,
              record {
                silent = ap some parts.0;
                resolves = refl;
                whole = sym (ap (λ (p : TrashPlan). p.files) same);
                full = if_nil (is_empty pkg.files) _ last.1;
              },
            )
      ]

  IsAuthorized-decided :
      (r : Recording) (state : RecordingState) (options : Options) (now : ℕ) (plan : TrashPlan)
      (source : Codes) (pkg : Package)
      → resolve_task_id fs job_history directory database text_of decode r.task_id ≡ found source
      → IsDecided source
          (all_texts fs job_history directory database text_of decode source r state options now)
          (resolve_package_files fs source r.history)
          plan
          pkg
      → IsAuthorized r state options now plan source pkg
  unfolding all_texts
  IsAuthorized-decided r state options now plan source pkg here d =
      let forced = expired_forced state options now in
      let search = find_active job_history recording r.task_id directory in
      let parts =
        both_nil
          (unforced forced (
            some (
              source_texts fs job_history directory database text_of decode source r.status state)))
          _ d.silent in
      let later = both_nil (recording_texts options.job_id search) _ parts.1 in
      record {
        here = here;
        resolved = d.resolves;
        whole = d.whole;
        full = d.full;
        sole = IsSole-recording_texts options.job_id search later.0;
        cause = cause-all_texts source r state forced parts.0 later.1;
      }

  IsAuthorized-plan_source :
      (r : Recording) (state : RecordingState) (options : Options) (now : ℕ) (plan : TrashPlan)
      (place : TaskSource)
      → resolve_task_id fs job_history directory database text_of decode r.task_id ≡ place
      → plan_source fs job_history directory database text_of decode r state options now place
        ≡ ready plan
      → (source : Codes) × (pkg : Package) × IsAuthorized r state options now plan source pkg
  unfolding plan_source
  IsAuthorized-plan_source r state options now plan absent here e = absurd cc
  IsAuthorized-plan_source r state options now plan (invalid text) here e = absurd cc
  IsAuthorized-plan_source r state options now plan (found source) here e =
      let (pkg, decided) =
        IsDecided-decide source plan
          (all_texts fs job_history directory database text_of decode source r state options now)
          (resolve_package_files fs source r.history) e in
      (source, pkg, IsAuthorized-decided r state options now plan source pkg here decided)

  pub build_trash_plan-IsAuthorized :
      (r : Recording) (state : RecordingState) (options : Options) (now : ℕ) (plan : TrashPlan)
      → build_trash_plan fs job_history directory database text_of decode r state options now
        ≡ ready plan
      → (source : Codes) × (pkg : Package) × IsAuthorized r state options now plan source pkg
  unfolding build_trash_plan
  build_trash_plan-IsAuthorized r state options now plan e =
      elim (Bool-cases (same_trash state.trash_status TrashStatus.done)) [
        | inl t ↦ let no : Planning.already _ ≡ ready plan = rw t at e in absurd cc
        | inr f ↦
            IsAuthorized-plan_source r state options now plan
              (resolve_task_id fs job_history directory database text_of decode r.task_id) refl
              (rw f at e)
      ]
