-- ===== src/Trash/Untouched.antt =====
-- What the run of src/dashboard/recording_trash.py does to the files of a recording, and to the others.
use bilive.Base.{
  ℕ, ◌≡◌, refl, Bool, true, false, Option, none, some, List, [], ◌∷◌, inl, inr, arith, any,
  Bool-cases, Codes, ◌∙◌, ap,
}
use bilive.Base.{codes_eq}
use bilive.Lifecycle.State.{TrashPlan, TrashStatus, same_trash, mutate_recording_state}
use bilive.Trash.Package.{FilePath, within, outside, has_path}
use bilive.Trash.Run.{
  Failure, Host, Store, Progress, going, stopped, move_to_recycle_bin, record_move, move_one,
  then_go, move_files, close, saved_plan, with_new_plan, with_plan, trash_recording,
}

-- The shell touches the file that it is asked to move and no other, and a file that it has moved is gone.
pub record OnlyMoves (shell : Codes → List Codes → Bool × List Codes) : Type 0 where
  pub apart :
      (p q : Codes) (disk : List Codes)
      → codes_eq p q ≡ false
      → has_path q (shell p disk).1 ≡ has_path q disk
  pub gone :
      (p : Codes) (disk : List Codes)
      → (shell p disk).0 ≡ true
      → has_path p (shell p disk).1 ≡ false

abbrev pub same_path : FilePath → Codes → Bool
same_path outside q = false
same_path (within p) q = codes_eq p q

abbrev pub disk_of : Progress → List Codes
disk_of (going moved store) = store.disk
disk_of (stopped failure store) = store.disk

module _ (host : Host) (now : ℕ) (only : OnlyMoves host.shell) where
  abbrev pub names : Codes → Codes → Bool
  names q r = same_path (host.resolve r) q

  has_path-move_to_recycle_bin :
      (p q : Codes) (disk : List Codes)
      → codes_eq p q ≡ false
      → has_path q (move_to_recycle_bin host p disk).1 ≡ has_path q disk
  unfolding move_to_recycle_bin
  has_path-move_to_recycle_bin p q disk other = let a = only.apart p q disk other in ground arith

  disk_of-record_move :
      (r : Codes) (moved : List Codes) (store : Store) (answer : Option Failure × List Codes)
      → disk_of (record_move host now r moved store answer) ≡ answer.1
  unfolding record_move mutate_recording_state
  disk_of-record_move r moved store (some failure, disk) = refl
  disk_of-record_move r moved store (none, disk) = refl

  has_path-move_one :
      (r q : Codes) (moved : List Codes) (store : Store) (path : FilePath)
      → same_path path q ≡ false
      → has_path q (disk_of (move_one host now r moved store path)) ≡ has_path q store.disk
  unfolding move_one
  has_path-move_one r q moved store outside other = refl
  has_path-move_one r q moved store (within p) other = elim (Bool-cases (has_path p store.disk)) [
    | inr f ↦ rw f refl
    | inl t ↦ rw t (
        ap (has_path q) (disk_of-record_move r moved store (move_to_recycle_bin host p store.disk))
        ∙ has_path-move_to_recycle_bin p q store.disk other)
  ]

  disk_of-then_go :
      (q : Codes) (progress : Progress) (next : List Codes → Store → Progress)
      → ((moved : List Codes) (store : Store)
          → has_path q (disk_of (next moved store)) ≡ has_path q store.disk)
      → has_path q (disk_of (then_go progress next)) ≡ has_path q (disk_of progress)
  disk_of-then_go q (stopped failure store) next ih = refl
  disk_of-then_go q (going moved store) next ih = ih moved store

  has_path-move_files :
      (q : Codes) (rs moved : List Codes) (store : Store)
      → any (names q) rs ≡ false
      → has_path q (disk_of (move_files host now rs moved store)) ≡ has_path q store.disk
  unfolding move_files
  has_path-move_files q [] moved store other = refl
  has_path-move_files q (r ∷ rs) moved store other =
      let later : any (names q) rs ≡ false = ground arith in
      let here : names q r ≡ false = ground arith in
      let rest = has_path-move_one r q moved store (host.resolve r) here in
      elim (Bool-cases (has_path r moved)) [
        | inl t ↦ rw t (has_path-move_files q rs moved store later)
        | inr f ↦ rw f (
            disk_of-then_go q (move_one host now r moved store (host.resolve r))
              (move_files host now rs) (λ m s. has_path-move_files q rs m s later)
            ∙ rest)
      ]

  unfoldable pub names_any : Codes → Option TrashPlan → Bool
  names_any q none = false
  names_any q (some plan) = any (names q) plan.files

  disk-close :
      (plan : TrashPlan) (progress : Progress)
      → (close host now plan progress).0.disk ≡ disk_of progress
  unfolding close mutate_recording_state
  disk-close plan (going moved store) = refl
  disk-close plan (stopped failure store) = refl

  has_path-run_plan :
      (q : Codes) (plan : TrashPlan) (moved : List Codes) (store : Store)
      → any (names q) plan.files ≡ false
      → has_path q (close host now plan (move_files host now plan.files moved store)).0.disk
        ≡ has_path q store.disk
  has_path-run_plan q plan moved store other =
      ap (has_path q) (disk-close plan (move_files host now plan.files moved store))
      ∙ has_path-move_files q plan.files moved store other

  has_path-with_plan :
      (q : Codes) (build : Store → Option TrashPlan) (store : Store) (saved new : Option TrashPlan)
      → build store ≡ new
      → names_any q saved ≡ false
      → names_any q new ≡ false
      → has_path q (with_plan host now build store saved).0.disk ≡ has_path q store.disk
  unfolding with_plan with_new_plan names_any mutate_recording_state
  has_path-with_plan q build store (some plan) new e s n =
      has_path-run_plan q plan store.state.trash_moved store s
  has_path-with_plan q build store none none e s n = rw e refl
  has_path-with_plan q build store none (some plan) e s n =
      rw e (has_path-run_plan q plan store.state.trash_moved _ n)

  -- Whatever the ending of a run, a file that neither the saved plan nor a new plan names stays as it was,
  -- on a machine where the shell touches only the file it is asked to move.
  pub has_path-trash_recording :
      (build : Store → Option TrashPlan) (store : Store) (q : Codes)
      → names_any q (saved_plan store.state.trash_plan) ≡ false
      → names_any q (build store) ≡ false
      → has_path q (trash_recording host now build store).0.disk ≡ has_path q store.disk
  unfolding trash_recording
  has_path-trash_recording build store q s n =
      elim (Bool-cases (same_trash store.state.trash_status TrashStatus.done)) [
        | inl t ↦ rw t refl
        | inr f ↦ rw f (
            has_path-with_plan q build store (saved_plan store.state.trash_plan) (build store) refl
              s n)
      ]
