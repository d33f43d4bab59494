-- ===== src/Trash/Outputs.antt =====
-- What `trash_recording` of src/dashboard/recording_trash.py, with the plan that it makes, does to the
-- final outputs of a recording.
use bilive.Base.{
  ℕ, String, ◌≡◌, refl, false, Option, none, some, List, [], ◌∷◌, arith, any, All, Codes, subst, ap,
}
use bilive.Lifecycle.State.{TrashPlan}
use bilive.Lifecycle.Review.{UploadDatabase}
use bilive.ActionJobs.Files.{Directory}
use bilive.Trash.Package.{
  FilePath, within, outside, Filesystem, Package, has_path, resolve_package_files,
}
use bilive.Trash.Safe.{KeepsAll, NotIn, final_outputs, resolve_package_files-IsSafe}
use bilive.Trash.Plan.{
  found, Recording, Options, Planning, ready, refused, already, conflict, build_trash_plan,
  resolve_task_id, on_disk, ready_plan, plan_for,
}
use bilive.Trash.Authorized.{IsAuthorized, build_trash_plan-IsAuthorized}
use bilive.Trash.Run.{Host, Store, saved_plan, trash_recording}
use bilive.Trash.Untouched.{OnlyMoves, names, names_any, has_path-trash_recording}

-- A file that is there in both of two stores, or in none of them.
abbrev pub Stays : Store → Store → FilePath → Type 0
Stays before after outside = Unit
Stays before after (within q) = has_path q after.disk ≡ has_path q before.disk

ready_plan-some : (p : Planning) (plan : TrashPlan) → ready_plan p ≡ some plan → p ≡ ready plan
unfolding ready_plan
ready_plan-some (ready x) plan e = let same : x ≡ plan = cc in ap ready same
ready_plan-some (refused texts) plan e = absurd cc
ready_plan-some (already files) plan e = absurd cc
ready_plan-some conflict plan e = absurd cc

any-names :
    (host : Host) (now : ℕ) (only : OnlyMoves host.shell) (q : Codes) (files : List Codes)
    → All (λ r. host.resolve r ≡ within r) files
    → has_path q files ≡ false
    → any (names host now only q) files ≡ false
any-names host now only q [] resolves out = refl
any-names host now only q (r ∷ rs) resolves out =
    let later = any-names host now only q rs resolves.1 (ground arith) in
    rw resolves.0 (ground arith)

All-Stays :
    (before after : Store) (pkg : Package) (ps : List FilePath)
    → ((q : Codes) → has_path q pkg.files ≡ false → has_path q after.disk ≡ has_path q before.disk)
    → (F : Package → FilePath → Type 0)
    → ((q : Codes) → F pkg (within q) → has_path q pkg.files ≡ false)
    → All (F pkg) ps
    → All (Stays before after) ps
All-Stays before after pkg [] f F g h = tt
All-Stays before after pkg (outside ∷ ps) f F g h = (tt, All-Stays before after pkg ps f F g h.1)
All-Stays before after pkg (within q ∷ ps) f F g h =
    (f q (g q h.0), All-Stays before after pkg ps f F g h.1)

module _ (fs : Filesystem) (job_history : ℕ → Option String) (directory : Directory)
    (database : UploadDatabase) (text_of : FilePath → String) (decode : String → Option Codes) where
  Stays-authorized :
      (host : Host) (now : ℕ) (r : Recording) (options : Options) (store : Store) (plan : TrashPlan)
      (source found_at : Codes) (pkg : Package)
      → OnlyMoves host.shell
      → KeepsAll fs.ordered
      → saved_plan store.state.trash_plan ≡ none
      → plan_for fs job_history directory database text_of decode r options now store ≡ some plan
      → resolve_task_id (on_disk fs store) job_history directory database text_of decode r.task_id
        ≡ found source
      → All (λ x. host.resolve x ≡ within x) plan.files
      → IsAuthorized
          (on_disk fs store)
          job_history
          directory
          database
          text_of
          decode
          r
          store.state
          options
          now
          plan
          found_at
          pkg
      → All
          (Stays store
            (trash_recording host now
              (plan_for fs job_history directory database text_of decode r options now)
              store).0)
          (final_outputs (on_disk fs store) source r.history)
  unfolding names_any
  Stays-authorized host now r options store plan source found_at pkg only ordered unsaved made here
        resolves a =
      let same : found_at ≡ source = let h = a.here in cc in
      let resolved : resolve_package_files (on_disk fs store) source r.history ≡ some pkg =
        subst (λ s. resolve_package_files (on_disk fs store) s r.history ≡ some pkg) same
          a.resolved in
      let safe =
        resolve_package_files-IsSafe (on_disk fs store) source r.history pkg ordered resolved in
      let build = plan_for fs job_history directory database text_of decode r options now in
      All-Stays store (trash_recording host now build store).0 pkg
        (final_outputs (on_disk fs store) source r.history)
        (λ q out.
          has_path-trash_recording host now only build store q (rw unsaved refl)
            (rw made (any-names host now only q plan.files resolves (rw a.whole out))))
        (NotIn (on_disk fs store) source) (λ q h. h) safe.outputs

  -- A run that makes a plan leaves these final outputs as they were: the current one of each segment, the
  -- files of the legacy list, and the judged candidates that the history knows as final outputs, also
  -- earlier ones. An earlier final output that no judgment names is not covered. This holds whatever the
  -- ending of the run, where the shell touches only the file it is asked to move and finds the files of
  -- the plan where the plan names them, and where no plan was saved before.
  pub Stays-trash_recording :
      (host : Host) (now : ℕ) (r : Recording) (options : Options) (store : Store) (plan : TrashPlan)
      (source : Codes)
      → OnlyMoves host.shell
      → KeepsAll fs.ordered
      → saved_plan store.state.trash_plan ≡ none
      → plan_for fs job_history directory database text_of decode r options now store ≡ some plan
      → resolve_task_id (on_disk fs store) job_history directory database text_of decode r.task_id
        ≡ found source
      → All (λ x. host.resolve x ≡ within x) plan.files
      → All
          (Stays store
            (trash_recording host now
              (plan_for fs job_history directory database text_of decode r options now)
              store).0)
          (final_outputs (on_disk fs store) source r.history)
  unfolding plan_for
  Stays-trash_recording host now r options store plan source only ordered unsaved made here
        resolves =
      let planning =
        build_trash_plan (on_disk fs store) job_history directory database text_of decode r
          store.state options now in
      let (found_at, pkg, a) =
        build_trash_plan-IsAuthorized (on_disk fs store) job_history directory database text_of
          decode r store.state options now plan (ready_plan-some planning plan made) in
      Stays-authorized host now r options store plan source found_at pkg only ordered unsaved made
        here resolves a
