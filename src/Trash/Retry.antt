-- ===== src/Trash/Retry.antt =====
-- The loop over the files of a plan in `trash_recording` of src/dashboard/recording_trash.py.
use bilive.Base.{
  ℕ, ◌≡◌, refl, Bool, true, false, not, ◌||◌, none, some, List, [], ◌∷◌, ◌++◌, inl, inr, arith, All,
  Bool-cases, Codes, ◌∙◌, sym, subst,
}
use bilive.Base.{codes_eq, codes_eq_iff}
use bilive.Lifecycle.State.{RecordingState, mutate_recording_state}
use bilive.Trash.Package.{within, has_path}
use bilive.Trash.Run.{
  Failure, shell_failed, not_windows, Host, Store, Progress, going, stopped, move_to_recycle_bin,
  record_move, move_one, then_go, move_files,
}
use bilive.Trash.Untouched.{OnlyMoves, disk_of}

-- A file of the plan is recorded as moved, or else still there.
abbrev pub Ready : List Codes → List Codes → Codes → Type 0
Ready moved disk r = has_path r moved ≡ not (has_path r disk)

abbrev pub state_of : Progress → RecordingState
state_of (going moved store) = store.state
state_of (stopped failure store) = store.state

abbrev pub Finished : List Codes → Progress → Type 0
Finished rs (stopped failure store) = Unit
Finished rs (going moved store) = All (λ r. has_path r moved ≡ true) rs

abbrev pub Synced : Progress → Type 0
Synced (stopped failure store) = Unit
Synced (going moved store) = moved ≡ store.state.trash_moved

-- What a part of the loop over the files keeps.
pub record Held (rs moved : List Codes) (store : Store) (p : Progress) : Type 0 where
  pub plan : (state_of p).trash_plan ≡ store.state.trash_plan
  pub ready : (r : Codes) → Ready moved store.disk r → Ready (state_of p).trash_moved (disk_of p) r
  pub more : (r : Codes) → has_path r moved ≡ true → has_path r (state_of p).trash_moved ≡ true
  pub finished : Finished rs p
  pub synced : Synced p

has_path_last :
    (q x : Codes) (xs : List Codes) → has_path q (xs ++ x ∷ []) ≡ (has_path q xs || codes_eq x q)
has_path_last q x [] = ground arith
has_path_last q x (y ∷ xs) = ground (arith, has_path_last q x xs)

-- A shell that refuses a file leaves it where it is.
abbrev pub Clean : (Codes → List Codes → Bool × List Codes) → Type 0
Clean shell = (p : Codes) (disk : List Codes) → (shell p disk).0 ≡ false → (shell p disk).1 ≡ disk

-- A machine that moves every file that it is asked to move.
pub record IsWilling (host : Host) : Type 0 where
  pub windows : host.is_windows ≡ true
  pub moves :
      (p : Codes) (disk : List Codes) → has_path p disk ≡ true → (host.shell p disk).0 ≡ true

module _ (host : Host) (now : ℕ) (only : OnlyMoves host.shell) (clean : Clean host.shell) where
  refused :
      (r : Codes) (failure : Failure) (moved : List Codes) (store : Store)
      → moved ≡ store.state.trash_moved
      → Held (r ∷ []) moved store (stopped failure store)
  refused r failure moved store e = record {
    plan = refl;
    ready = λ q h. rw (sym e) h;
    more = λ q h. rw (sym e) h;
    finished = tt;
    synced = tt;
  }

  moved_one :
      (r : Codes) (moved : List Codes) (store : Store)
      → (host.shell r store.disk).0 ≡ true
      → Held
          (r ∷ [])
          moved
          store
          (record_move host now r moved store (none, (host.shell r store.disk).1))
  unfolding record_move mutate_recording_state
  moved_one r moved store t =
      let gone = only.gone r store.disk t in
      record {
        plan = refl;
        ready = λ q h. elim (Bool-cases (codes_eq r q)) [
          | inl same ↦
              let this : r ≡ q = (codes_eq_iff r q).0 same in
              let away : has_path q (host.shell r store.disk).1 ≡ false =
                subst (λ x. has_path x (host.shell r store.disk).1 ≡ false) this gone in
              ground (arith, has_path_last q r moved)
          | inr other ↦
              let kept = only.apart r q store.disk other in ground (arith, has_path_last q r moved)
        ];
        more = λ q h. ground (arith, has_path_last q r moved);
        finished = (
          let here : codes_eq r r ≡ true = (codes_eq_iff r r).1 refl in
              ground (arith, has_path_last r r moved),
          tt,
        );
        synced = refl;
      }

  not_moved :
      (r : Codes) (failure : Failure) (moved : List Codes) (store : Store) (disk : List Codes)
      → moved ≡ store.state.trash_moved
      → disk ≡ store.disk
      → Held (r ∷ []) moved store (record_move host now r moved store (some failure, disk))
  unfolding record_move
  not_moved r failure moved store disk e same = rw same (refused r failure moved store e)

  Held-move_one :
      (r : Codes) (moved : List Codes) (store : Store)
      → moved ≡ store.state.trash_moved
      → Held (r ∷ []) moved store (move_one host now r moved store (within r))
  unfolding move_one move_to_recycle_bin record_move
  Held-move_one r moved store e = elim (Bool-cases (has_path r store.disk)) [
    | inr f ↦ rw f (refused r _ moved store e)
    | inl t ↦ elim (Bool-cases host.is_windows) [
      | inr f ↦ rw (t, f) (not_moved r not_windows moved store store.disk e refl)
      | inl w ↦ elim (Bool-cases (host.shell r store.disk).0) [
        | inl done ↦ rw (t, w, done) (moved_one r moved store done)
        | inr f ↦ rw (t, w, f) (not_moved r shell_failed moved store _ e (clean r store.disk f))
      ]
    ]
  ]

  Held-skipped :
      (r : Codes) (rs moved : List Codes) (store : Store) (p : Progress)
      → has_path r moved ≡ true
      → Held rs moved store p
      → Held (r ∷ rs) moved store p
  Held-skipped r rs moved store (stopped failure s) t h = record {
    plan = h.plan;
    ready = h.ready;
    more = h.more;
    finished = tt;
    synced = tt;
  }
  Held-skipped r rs moved store (going m s) t h = record {
    plan = h.plan;
    ready = h.ready;
    more = h.more;
    finished = (rw h.synced (h.more r t), h.finished);
    synced = h.synced;
  }

  Held-then_go :
      (r : Codes) (rs moved : List Codes) (store : Store) (p : Progress)
      (next : List Codes → Store → Progress)
      → Held (r ∷ []) moved store p
      → ((m : List Codes) (s : Store) → m ≡ s.state.trash_moved → Held rs m s (next m s))
      → Held (r ∷ rs) moved store (then_go p next)
  Held-then_go r rs moved store (stopped failure s) next h ih = record {
    plan = h.plan;
    ready = h.ready;
    more = h.more;
    finished = tt;
    synced = tt;
  }
  Held-then_go r rs moved store (going m s) next h ih =
      let later = ih m s h.synced in
      let whole = Held-skipped r rs m s (next m s) h.finished.0 later in
      record {
        plan = later.plan ∙ h.plan;
        ready = λ q k. later.ready q (subst (λ l. Ready l s.disk q) (sym h.synced) (h.ready q k));
        more = λ q k. later.more q (subst (λ l. has_path q l ≡ true) (sym h.synced) (h.more q k));
        finished = whole.finished;
        synced = whole.synced;
      }

  pub Held-move_files :
      (rs moved : List Codes) (store : Store)
      → All (λ r. host.resolve r ≡ within r) rs
      → moved ≡ store.state.trash_moved
      → Held rs moved store (move_files host now rs moved store)
  unfolding move_files
  Held-move_files [] moved store resolves e = record {
    plan = refl;
    ready = λ q h. rw (sym e) h;
    more = λ q h. rw (sym e) h;
    finished = tt;
    synced = e;
  }
  Held-move_files (r ∷ rs) moved store resolves e = elim (Bool-cases (has_path r moved)) [
    | inl t ↦ rw t (
        Held-skipped r rs moved store (move_files host now rs moved store) t
          (Held-move_files rs moved store resolves.1 e))
    | inr f ↦
        rw (f, resolves.0)
          (Held-then_go r rs moved store (move_one host now r moved store (within r))
            (move_files host now rs) (Held-move_one r moved store e)
            (λ m s k. Held-move_files rs m s resolves.1 k))
  ]

abbrev pub IsGoing : Progress → Type 0
IsGoing (stopped failure store) = ⊥
IsGoing (going moved store) = Unit

All-Ready :
    (rs a b c d : List Codes)
    → ((r : Codes) → Ready a b r → Ready c d r)
    → All (Ready a b) rs
    → All (Ready c d) rs
All-Ready [] a b c d f h = tt
All-Ready (r ∷ rs) a b c d f h = (f r h.0, All-Ready rs a b c d f h.1)

module _ (host : Host) (now : ℕ) (only : OnlyMoves host.shell) (clean : Clean host.shell)
    (willing : IsWilling host) where
  IsGoing-move_one :
      (r : Codes) (moved : List Codes) (store : Store)
      → has_path r store.disk ≡ true
      → IsGoing (move_one host now r moved store (within r))
  unfolding move_one move_to_recycle_bin record_move
  IsGoing-move_one r moved store t =
      let moves = willing.moves r store.disk t in rw (t, willing.windows, moves) tt

  IsGoing-then_go :
      (rs moved files : List Codes) (store : Store) (p : Progress)
      (next : List Codes → Store → Progress)
      → Held files moved store p
      → IsGoing p
      → All (Ready moved store.disk) rs
      → ((m : List Codes) (s : Store)
          → m ≡ s.state.trash_moved
          → All (Ready m s.disk) rs
          → IsGoing (next m s))
      → IsGoing (then_go p next)
  IsGoing-then_go rs moved files store (stopped failure s) next h go ready ih = absurd go
  IsGoing-then_go rs moved files store (going m s) next h go ready ih = ih m s h.synced (
      All-Ready rs moved store.disk m s.disk
        (λ q k. subst (λ l. Ready l s.disk q) (sym h.synced) (h.ready q k)) ready)

  pub IsGoing-move_files :
      (rs moved : List Codes) (store : Store)
      → All (λ r. host.resolve r ≡ within r) rs
      → moved ≡ store.state.trash_moved
      → All (Ready moved store.disk) rs
      → IsGoing (move_files host now rs moved store)
  unfolding move_files
  IsGoing-move_files [] moved store resolves e ready = tt
  IsGoing-move_files (r ∷ rs) moved store resolves e ready = elim (Bool-cases (has_path r moved)) [
    | inl t ↦ rw t (IsGoing-move_files rs moved store resolves.1 e ready.1)
    | inr f ↦
        let there : has_path r store.disk ≡ true = let k = ready.0 in ground arith in
        rw (f, resolves.0)
          (IsGoing-then_go rs moved (r ∷ []) store (move_one host now r moved store (within r))
            (move_files host now rs) (Held-move_one host now only clean r moved store e)
            (IsGoing-move_one r moved store there) ready.1
            (λ m s k h. IsGoing-move_files rs m s resolves.1 k h))
  ]
