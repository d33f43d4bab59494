-- ===== src/Trash/Retried.antt =====
-- Repeated runs of `trash_recording` of src/dashboard/recording_trash.py over one store.
use bilive.Base.{
  ℕ, ◌≡◌, refl, true, false, not, Option, none, some, List, [], ◌∷◌, inl, inr, arith, All, Codes,
  ◌⊎◌, ◌∙◌, subst, ap,
}
use bilive.Lifecycle.State.{
  TrashPlan, TrashStatus, same_trash, set_trash_job_state, mutate_recording_state,
}
use bilive.Trash.Package.{within, has_path}
use bilive.Trash.Run.{
  Failure, Host, Store, Progress, going, stopped, mutate, move_files, completed, close, saved_plan,
  with_new_plan, with_plan, trash_recording,
}
use bilive.Trash.Untouched.{OnlyMoves}
use bilive.Trash.Retry.{Ready, Held, Clean, IsWilling, IsGoing, Held-move_files, IsGoing-move_files}

-- A run that was begun and not completed: every file of the saved plan is recorded as moved, or there.
pub record IsBegun (plan : TrashPlan) (store : Store) : Type 0 where
  pub active : same_trash store.state.trash_status TrashStatus.done ≡ false
  pub saved : saved_plan store.state.trash_plan ≡ some plan
  pub ready : All (Ready store.state.trash_moved store.disk) plan.files

-- No run was begun, and a plan can be made whose files are all there.
pub record IsPlannable (build : Store → Option TrashPlan) (plan : TrashPlan) (store : Store)
    : Type 0 where
  pub active : same_trash store.state.trash_status TrashStatus.done ≡ false
  pub unsaved : saved_plan store.state.trash_plan ≡ none
  pub built : build store ≡ some plan
  pub full : saved_plan (some plan) ≡ some plan
  pub unmoved : store.state.trash_moved ≡ []
  pub there : All (λ r. has_path r store.disk ≡ true) plan.files

-- The recording is in the trash: its state says so and names the files, and all of them are gone.
pub record IsTrashed (plan : TrashPlan) (store : Store) : Type 0 where
  pub done : same_trash store.state.trash_status TrashStatus.done ≡ true
  pub named : store.state.trash_files ≡ plan.files
  pub gone : All (λ r. has_path r store.disk ≡ false) plan.files

-- A machine whose shell moves a file or leaves it, and that finds the files where the plan names them.
pub record IsFair (plan : TrashPlan) (host : Host) : Type 0 where
  pub only : OnlyMoves host.shell
  pub clean : Clean host.shell
  pub resolves : All (λ r. host.resolve r ≡ within r) plan.files

All-map : (rs : List Codes) (P Q : Codes → Type 0) → ((r : Codes) → P r → Q r) → All P rs → All Q rs
All-map [] P Q f h = tt
All-map (r ∷ rs) P Q f h = (f r h.0, All-map rs P Q f h.1)

All_both : (rs : List Codes) (P Q : Codes → Type 0) → All P rs → All Q rs → All (λ r. P r × Q r) rs
All_both [] P Q h k = tt
All_both (r ∷ rs) P Q h k = ((h.0, k.0), All_both rs P Q h.1 k.1)

abbrev Outcome : TrashPlan → Store → Type 0
Outcome plan store = IsBegun plan store ⊎ IsTrashed plan store

module _ (host : Host) (now : ℕ) (plan : TrashPlan) (fair : IsFair plan host) where
  IsBegun-stopped :
      (failure : Failure) (s store : Store) (moved : List Codes)
      → saved_plan store.state.trash_plan ≡ some plan
      → All (Ready moved store.disk) plan.files
      → Held plan.files moved store (stopped failure s)
      → IsBegun plan (close host now plan (stopped failure s)).0
  unfolding close mutate_recording_state set_trash_job_state
  IsBegun-stopped failure s store moved saved ready h = record {
    active = refl;
    saved = ap saved_plan h.plan ∙ saved;
    ready =
        All-map plan.files (Ready moved store.disk) (Ready s.state.trash_moved s.disk) h.ready
          ready;
  }

  IsTrashed-going :
      (m : List Codes) (s store : Store) (moved : List Codes)
      → All (Ready moved store.disk) plan.files
      → Held plan.files moved store (going m s)
      → IsTrashed plan (close host now plan (going m s)).0
  unfolding close mutate_recording_state completed
  IsTrashed-going m s store moved ready h =
      let now_ready =
        All-map plan.files (Ready moved store.disk) (Ready s.state.trash_moved s.disk) h.ready
          ready in
      record {
        done = refl;
        named = refl;
        gone =
            All-map plan.files _ (λ r. has_path r s.disk ≡ false)
              (λ r k.
                let a : has_path r s.state.trash_moved ≡ not (has_path r s.disk) = k.0 in
                let b : has_path r s.state.trash_moved ≡ true =
                  subst (λ l. has_path r l ≡ true) h.synced k.1 in
                ground arith)
              (All_both plan.files (Ready s.state.trash_moved s.disk) (λ r. has_path r m ≡ true)
                now_ready h.finished);
      }

  Outcome-close :
      (store : Store) (moved : List Codes) (p : Progress)
      → saved_plan store.state.trash_plan ≡ some plan
      → All (Ready moved store.disk) plan.files
      → Held plan.files moved store p
      → Outcome plan (close host now plan p).0
  Outcome-close store moved (stopped failure s) saved ready h =
      inl (IsBegun-stopped failure s store moved saved ready h)
  Outcome-close store moved (going m s) saved ready h =
      inr (IsTrashed-going m s store moved ready h)

  IsTrashed-close :
      (store : Store) (moved : List Codes) (p : Progress)
      → All (Ready moved store.disk) plan.files
      → Held plan.files moved store p
      → IsGoing p
      → IsTrashed plan (close host now plan p).0
  IsTrashed-close store moved (stopped failure s) ready h go = absurd go
  IsTrashed-close store moved (going m s) ready h go = IsTrashed-going m s store moved ready h

  abbrev run_plan : Store → Store
  run_plan store =
      (close host now plan (move_files host now plan.files store.state.trash_moved store)).0

  Outcome-run_plan :
      (store : Store)
      → saved_plan store.state.trash_plan ≡ some plan
      → All (Ready store.state.trash_moved store.disk) plan.files
      → Outcome plan (run_plan store)
  Outcome-run_plan store saved ready = Outcome-close store store.state.trash_moved _ saved ready (
      Held-move_files host now fair.only fair.clean plan.files store.state.trash_moved store
        fair.resolves refl)

  IsTrashed-run_plan :
      (store : Store)
      → IsWilling host
      → All (Ready store.state.trash_moved store.disk) plan.files
      → IsTrashed plan (run_plan store)
  IsTrashed-run_plan store willing ready =
      IsTrashed-close store store.state.trash_moved _ ready
        (Held-move_files host now fair.only fair.clean plan.files store.state.trash_moved store
          fair.resolves refl)
        (IsGoing-move_files host now fair.only fair.clean willing plan.files store.state.trash_moved
          store fair.resolves refl ready)

  abbrev planned : Store → Store
  planned store =
      mutate
        (λ s. record s {
          trash_plan = some plan;
          trash_moved = [];
          trash_status = TrashStatus.processing;
        })
        now store

  trash_recording_begun :
      (build : Store → Option TrashPlan) (store : Store)
      → IsBegun plan store
      → (trash_recording host now build store).0 ≡ run_plan store
  unfolding trash_recording with_plan
  trash_recording_begun build store h = rw (h.active, h.saved) refl

  trash_recording-planned :
      (build : Store → Option TrashPlan) (store : Store)
      → IsPlannable build plan store
      → (trash_recording host now build store).0 ≡ run_plan (planned store)
  unfolding trash_recording with_plan with_new_plan mutate_recording_state
  trash_recording-planned build store h =
      rw (h.active, h.unsaved, h.built)
        (ap (λ l. (close host now plan (move_files host now plan.files l (planned store))).0)
          h.unmoved)

  Ready-planned :
      (build : Store → Option TrashPlan) (store : Store)
      → IsPlannable build plan store
      → All (Ready [] store.disk) plan.files
  Ready-planned build store h =
      All-map plan.files (λ r. has_path r store.disk ≡ true) (Ready [] store.disk)
        (λ r k. rw k refl) h.there

  -- One run of a recording that is not in the trash.
  Outcome-trash_recording :
      (build : Store → Option TrashPlan) (store : Store)
      → IsPlannable build plan store ⊎ IsBegun plan store
      → Outcome plan (trash_recording host now build store).0
  unfolding mutate_recording_state
  Outcome-trash_recording build store (inl h) =
      rw (trash_recording-planned build store h)
        (Outcome-run_plan (planned store) h.full (Ready-planned build store h))
  Outcome-trash_recording build store (inr h) =
      rw (trash_recording_begun build store h) (Outcome-run_plan store h.saved h.ready)

  IsTrashed-trash_recording :
      (build : Store → Option TrashPlan) (store : Store)
      → IsWilling host
      → IsPlannable build plan store ⊎ IsBegun plan store
      → IsTrashed plan (trash_recording host now build store).0
  unfolding mutate_recording_state
  IsTrashed-trash_recording build store willing (inl h) =
      rw (trash_recording-planned build store h)
        (IsTrashed-run_plan (planned store) willing (Ready-planned build store h))
  IsTrashed-trash_recording build store willing (inr h) =
      rw (trash_recording_begun build store h) (IsTrashed-run_plan store willing h.ready)

trash_recording_idle :
    (host : Host) (now : ℕ) (build : Store → Option TrashPlan) (plan : TrashPlan) (store : Store)
    → IsTrashed plan store
    → (trash_recording host now build store).0 ≡ store
unfolding trash_recording
trash_recording_idle host now build plan store h = rw h.done refl

-- The attempts that a job makes, each on the machine and at the time of its own.
unfoldable pub attempts : (Store → Option TrashPlan) → List (Host × ℕ) → Store → Store
attempts build [] store = store
attempts build ((host, now) ∷ later) store =
    attempts build later (trash_recording host now build store).0

module _ (build : Store → Option TrashPlan) (plan : TrashPlan) where
  abbrev Pending : Store → Type 0
  Pending store = (IsPlannable build plan store ⊎ IsBegun plan store) ⊎ IsTrashed plan store

  Pending-attempt :
      (host : Host) (now : ℕ) (store : Store)
      → IsFair plan host
      → Pending store
      → Pending (trash_recording host now build store).0
  Pending-attempt host now store fair (inr h) =
      rw (trash_recording_idle host now build plan store h) (inr h)
  Pending-attempt host now store fair (inl h) =
      elim (Outcome-trash_recording host now plan fair build store h) [
        | inl begun ↦ inl (inr begun)
        | inr gone ↦ inr gone
      ]

  Pending-attempts :
      (tries : List (Host × ℕ)) (store : Store)
      → All (λ t. IsFair plan t.0) tries
      → Pending store
      → Pending (attempts build tries store)
  unfolding attempts
  Pending-attempts [] store fair h = h
  Pending-attempts ((host, now) ∷ later) store fair h =
      Pending-attempts later _ fair.1 (Pending-attempt host now store fair.0 h)

  -- However many runs are refused a file on the way, whichever files were moved by then, one more run on
  -- a machine that moves what it is asked to move completes the plan: the recording is in the trash, its
  -- state names the files of the plan, and all of them are gone. The run is begun or can be planned, and
  -- the shell of each machine moves the file it is asked to move or leaves everything as it was.
  pub IsTrashed-attempts :
      (tries : List (Host × ℕ)) (host : Host) (now : ℕ) (store : Store)
      → IsPlannable build plan store ⊎ IsBegun plan store
      → All (λ t. IsFair plan t.0) tries
      → IsFair plan host
      → IsWilling host
      → IsTrashed plan (trash_recording host now build (attempts build tries store)).0
  IsTrashed-attempts tries host now store start fair last willing =
      let result : IsTrashed plan (trash_recording host now build (attempts build tries store)).0 =
        elim (Pending-attempts tries store fair (inl start)) [
          | inl h ↦
              IsTrashed-trash_recording host now plan last build (attempts build tries store)
                willing h
          | inr h ↦ rw (trash_recording_idle host now build plan (attempts build tries store) h) h
        ] in
      result
