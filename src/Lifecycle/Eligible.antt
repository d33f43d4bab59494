-- ===== src/Lifecycle/Eligible.antt =====
-- When `build_lifecycle_view` of src/dashboard/source_lifecycle.py offers a recording for the trash.
use bilive.Base.{
  ℕ, ◌≤◌, String, ◌≡◌, ◌≢◌, refl, Bool, true, false, not, Option, none, some, List, [], ◌∷◌, inl,
  inr, arith, leb→le, any, All, Bool-cases, str_eq, ◌⊎◌, ◌∙◌, sym, subst,
}
use bilive.Lifecycle.State.{ReviewState, TrashStatus, RecordingState, same_review, same_trash}
use bilive.Lifecycle.Review.{
  TaskStatus, HistoryStatus, Segment, UploadDatabase, no_file, unreadable, readable, is_running,
  is_unresolved, derive_review_state, is_ready, deadline_of, retention_fields, Blocker, Verdict,
  clear, blocked, conflict, or_next, when, is_uploading, path_blocker, paths_blocker, job_verdict,
  segment_blocker, segments_blocker, is_stopped, find_blocker, LifecycleView, view_of, shown,
  build_lifecycle_view,
}
use bilive.ActionJobs.Files.{Directory}
use bilive.ActionJobs.Submit.{Search, no_active, active, corrupt, segment, recording, find_active}
use bilive.UploadQueue.Table.{Queue, Row, fetch_item}

abbrev pub NotUploading : Option Row → Type 0
NotUploading none = Unit
NotUploading (some item) = is_uploading item ≡ false

-- The upload state of every path is known, and none is being uploaded or published.
abbrev pub AreIdle : UploadDatabase → List String → Type 0
AreIdle database [] = Unit
AreIdle no_file (path ∷ paths) = ⊥
AreIdle unreadable (path ∷ paths) = ⊥
AreIdle (readable q) (path ∷ paths) = All (λ p. NotUploading (fetch_item q p)) (path ∷ paths)

or_next_clear : (a b : Verdict) → or_next a b ≡ clear → (a ≡ clear) × (b ≡ clear)
or_next_clear clear b e = (refl, e)
or_next_clear (blocked x) b e = absurd cc
or_next_clear conflict b e = absurd cc

when_clear : (b : Bool) (x : Blocker) → when b x ≡ clear → b ≡ false
when_clear true x e = absurd cc
when_clear false x e = refl

job_verdict_clear : (found : Search) (x : Blocker) → job_verdict found x ≡ clear → found ≡ no_active
job_verdict_clear no_active x e = refl
job_verdict_clear (active job) x e = absurd cc
job_verdict_clear (corrupt i) x e = absurd cc

not_blocked : {b : Bool} → b ≡ true → b ≢ false
not_blocked t f = cc

not-false : (b : Bool) → not b ≡ false → b ≡ true
not-false true e = refl
not-false false e = cc

item_verdict : Option Row → Verdict
item_verdict none = clear
item_verdict (some item) = when (is_uploading item) Blocker.upload_active

NotUploading-item : (o : Option Row) (v : Verdict) → v ≡ item_verdict o → v ≡ clear → NotUploading o
unfolding item_verdict
NotUploading-item none v same e = tt
NotUploading-item (some item) v same e =
    when_clear (is_uploading item) Blocker.upload_active (sym same ∙ e)

item_verdict_lem :
    (o : Option Row)
    → (elim o as (λ _. Verdict) [
      | none ↦ clear
      | some item ↦ when (is_uploading item) Blocker.upload_active
    ])
      ≡ item_verdict o
unfolding item_verdict
item_verdict_lem none = refl
item_verdict_lem (some item) = refl

All-path_blocker :
    (q : Queue) (paths : List String)
    → path_blocker q paths ≡ clear
    → All (λ p. NotUploading (fetch_item q p)) paths
unfolding path_blocker
All-path_blocker q [] e = tt
All-path_blocker q (path ∷ paths) e =
    let parts = or_next_clear _ (path_blocker q paths) e in
    (
      NotUploading-item (fetch_item q path) _ (item_verdict_lem (fetch_item q path)) parts.0,
      All-path_blocker q paths parts.1,
    )

AreIdle-paths_blocker :
    (database : UploadDatabase) (paths : List String)
    → paths_blocker database paths ≡ clear
    → AreIdle database paths
unfolding paths_blocker
AreIdle-paths_blocker database [] e = tt
AreIdle-paths_blocker no_file (path ∷ paths) e = cc
AreIdle-paths_blocker unreadable (path ∷ paths) e = cc
AreIdle-paths_blocker (readable q) (path ∷ paths) e = All-path_blocker q (path ∷ paths) e

retention_eligible :
    (state : RecordingState) (now : ℕ) (is_blocked source_exists review_ready : Bool)
    → (retention_fields state now is_blocked source_exists review_ready).trash_eligible ≡ true
    → (source_exists ≡ true)
      × (same_trash state.trash_status TrashStatus.done ≡ false)
      × (is_blocked ≡ false)
      × ((review_ready ≡ true) ⊎ (deadline_of state now ≤ now))
unfolding retention_fields
retention_eligible state now is_blocked source_exists true e =
    (ground arith, ground arith, ground arith, inl refl)
retention_eligible state now is_blocked source_exists false e = (
  ground arith,
  ground arith,
  ground arith,
  inr (leb→le (deadline_of state now) now (ground arith)),
)

module _ (history : ℕ → Option String) (directory : Directory) (database : UploadDatabase) where
  -- A segment with no active job, if it has an id at all, and with no upload under way.
  pub record IsFree (s : Segment) : Type 0 where
    pub no_job :
        (str_eq s.segment_id "" ≡ true)
        ⊎ (find_active history segment s.segment_id directory ≡ no_active)
    pub uploads : AreIdle database s.paths

  -- What makes it safe to offer a recording for the trash.
  pub record IsEligible (task_id : String) (task : TaskStatus) (source_exists done_marker : Bool)
      (segments : List Segment) (state : RecordingState) (now : ℕ)
      (view : LifecycleView history directory database) : Type 0 where
    pub exists : source_exists ≡ true
    pub finished : done_marker ≡ true
    pub not_running : is_running task ≡ false
    pub not_processing : same_review view.review_state ReviewState.processing ≡ false
    pub resolved : any is_unresolved segments ≡ false
    pub not_stopped : is_stopped history directory database state.trash_status ≡ false
    pub not_trashed : same_trash state.trash_status TrashStatus.done ≡ false
    pub no_recording_job : find_active history recording task_id directory ≡ no_active
    pub free : All IsFree segments
    pub due : (is_ready view.review_state ≡ true) ⊎ (deadline_of state now ≤ now)

  IsFree-segment_blocker :
      (s : Segment) → segment_blocker history directory database s ≡ clear → IsFree s
  unfolding segment_blocker
  IsFree-segment_blocker s e = elim (Bool-cases (str_eq s.segment_id "")) [
    | inl t ↦ record {
      no_job = inl t;
      uploads = AreIdle-paths_blocker database s.paths (rw t at e);
    }
    | inr f ↦
        let parts =
          or_next_clear
            (job_verdict (find_active history segment s.segment_id directory) Blocker.segment_job)
            (paths_blocker database s.paths) (rw f at e) in
        record {
          no_job = inr (
              job_verdict_clear (find_active history segment s.segment_id directory)
                Blocker.segment_job parts.0);
          uploads = AreIdle-paths_blocker database s.paths parts.1;
        }
  ]

  All-segments_blocker :
      (segments : List Segment)
      → segments_blocker history directory database segments ≡ clear
      → All IsFree segments
  unfolding segments_blocker
  All-segments_blocker [] e = tt
  All-segments_blocker (s ∷ segments) e =
      let parts =
        or_next_clear (segment_blocker history directory database s)
          (segments_blocker history directory database segments) e in
      (IsFree-segment_blocker s parts.0, All-segments_blocker segments parts.1)

  view_of-IsEligible :
      (task_id : String) (task : TaskStatus) (source_exists done_marker : Bool)
      (review_state : ReviewState) (segments : List Segment) (state : RecordingState) (now : ℕ)
      (verdict : Verdict)
      → verdict
        ≡ find_blocker history directory database task_id task source_exists done_marker
            review_state segments state
      → (view_of history directory database review_state state now source_exists
          verdict).fields.trash_eligible
        ≡ true
      → IsEligible task_id task source_exists done_marker segments state now
          (view_of history directory database review_state state now source_exists verdict)
  unfolding find_blocker view_of
  view_of-IsEligible task_id task source_exists done_marker review_state segments state now
        (blocked b) same e =
      absurd (
        not_blocked refl
          (retention_eligible state now true source_exists (is_ready review_state) e).2)
  view_of-IsEligible task_id task source_exists done_marker review_state segments state now conflict
        same e =
      absurd (
        not_blocked refl
          (retention_eligible state now true source_exists (is_ready review_state) e).2)
  view_of-IsEligible task_id task source_exists done_marker review_state segments state now clear
        same e =
      let p0 = or_next_clear _ _ (sym same) in
      let p1 = or_next_clear _ _ p0.1 in
      let p2 = or_next_clear _ _ p1.1 in
      let p3 = or_next_clear _ _ p2.1 in
      let p4 = or_next_clear _ _ p3.1 in
      let p5 = or_next_clear _ _ p4.1 in
      let p6 = or_next_clear _ _ p5.1 in
      let facts = retention_eligible state now _ source_exists (is_ready review_state) e in
      record {
        exists = facts.0;
        finished = not-false done_marker (when_clear _ _ p2.0);
        not_running = when_clear _ _ p1.0;
        not_processing = when_clear _ _ p3.0;
        resolved = when_clear _ _ p4.0;
        not_stopped = when_clear _ _ p5.0;
        not_trashed = facts.1;
        no_recording_job = job_verdict_clear _ _ p6.0;
        free = All-segments_blocker segments p6.1;
        due = facts.3;
      }

  verdict_shown :
      (task_id : String) (task : TaskStatus) (source_exists done_marker : Bool)
      (review_state : ReviewState) (segments : List Segment) (state : RecordingState) (now : ℕ)
      (view : LifecycleView history directory database) (verdict : Verdict)
      → verdict
        ≡ find_blocker history directory database task_id task source_exists done_marker
            review_state segments state
      → shown history directory database review_state state now source_exists verdict ≡ some view
      → view.fields.trash_eligible ≡ true
      → IsEligible task_id task source_exists done_marker segments state now view
  unfolding shown
  verdict_shown task_id task source_exists done_marker review_state segments state now view conflict
        same e eligible =
      absurd cc
  verdict_shown task_id task source_exists done_marker review_state segments state now view
        (blocked b) same e eligible =
      let v = view_of history directory database review_state state now source_exists (blocked b) in
      let this : v ≡ view = cc in
      subst (IsEligible task_id task source_exists done_marker segments state now) this (
        view_of-IsEligible task_id task source_exists done_marker review_state segments state now
          (blocked b) same (rw this eligible))
  verdict_shown task_id task source_exists done_marker review_state segments state now view clear
        same e eligible =
      let v = view_of history directory database review_state state now source_exists clear in
      let this : v ≡ view = cc in
      subst (IsEligible task_id task source_exists done_marker segments state now) this (
        view_of-IsEligible task_id task source_exists done_marker review_state segments state now
          clear same (rw this eligible))

  -- A view that offers a recording for the trash: the recording is there with its completion marker, is
  -- neither running nor processing nor in the trash, no attempt to trash it is stuck, every segment is
  -- resolved, no job of it or of a segment is active, the uploads of all segments are known and not
  -- under way, and its review is complete or its retention has expired.
  pub build_lifecycle_view-IsEligible :
      (task_id : String) (task : TaskStatus) (task_history : HistoryStatus)
      (source_exists done_marker : Bool) (segments : List Segment) (state : RecordingState)
      (now : ℕ) (view : LifecycleView history directory database)
      → build_lifecycle_view history directory database task_id task task_history source_exists
          done_marker segments state now
        ≡ some view
      → view.fields.trash_eligible ≡ true
      → IsEligible task_id task source_exists done_marker segments state now view
  unfolding build_lifecycle_view
  build_lifecycle_view-IsEligible task_id task task_history source_exists done_marker segments state
        now view e eligible =
      let review_state = derive_review_state task task_history segments state.review_state in
      verdict_shown task_id task source_exists done_marker review_state segments state now view
        (find_blocker history directory database task_id task source_exists done_marker review_state
          segments state)
        refl e eligible
