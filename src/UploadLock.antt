-- ===== src/UploadLock.antt =====
-- src/upload/lock.py: the lock file of the upload consumer, with two processes that take and release
-- it. The steps are the calls of the file system; which process makes the next one is a list.
use bilive.Base.{ℕ, ◌≡◌, refl, Bool, true, false, List, [], ◌∷◌, ◌==◌, if◌then◌else◌, all}

pub data Process : Type 0 where
  first second : Process

-- The file under the lock's path, by the process that created it, with the pid written to it if one
-- is. A blank file is still open in its creator. Where an open file can be deleted, its creator then
-- writes to a file with no path; on Windows the deletion raises PermissionError.
pub data LockFile : Type 0 where
  missing : LockFile
  blank : Process → LockFile
  holds : Process → ℕ → LockFile

-- Where a process stands in `__enter__`, `_create_lock` and `__exit__`: before the first open; before
-- the read of an existing file; before its unlink; before the second open; before the write of the
-- pid; inside the with block; refused with
-- UploadAlreadyRunning; and stopped by a PermissionError.
pub data Phase : Type 0 where
  outside reading unlinking reopening writing owner refused stopped : Phase

pub record Locks : Type 0 where
  pub file : LockFile
  pub one : Phase
  pub two : Phase

-- `_existing_owner_is_running`
abbrev pub owner_is_running : (ℕ → Bool) → LockFile → Bool
owner_is_running alive missing = false
owner_is_running alive (blank by) = false
owner_is_running alive (holds by pid) = if pid == 0 then false else alive pid

-- os.open with O_CREAT and O_EXCL
abbrev pub create : Process → LockFile → Phase → LockFile × Phase
create me missing otherwise = (blank me, writing)
create me (blank by) otherwise = (blank by, otherwise)
create me (holds by pid) otherwise = (holds by pid, otherwise)

-- The write to the file that a process created.
abbrev pub write_pid : Process → ℕ → LockFile → LockFile
write_pid first pid (blank first) = holds first pid
write_pid second pid (blank second) = holds second pid
write_pid me pid file = file

-- Path.unlink, of a file that may be missing.
abbrev pub unlink : Bool → LockFile → Phase → LockFile × Phase
unlink deletes_open missing next = (missing, next)
unlink deletes_open (blank by) next = if deletes_open then (missing, next) else (blank by, stopped)
unlink deletes_open (holds by pid) next = (missing, next)

unfoldable pub advance : Bool → (ℕ → Bool) → Process → ℕ → LockFile → Phase → LockFile × Phase
advance deletes_open alive me pid file outside = create me file reading
advance deletes_open alive me pid file reading =
    (file, if owner_is_running alive file then refused else unlinking)
advance deletes_open alive me pid file unlinking = unlink deletes_open file reopening
advance deletes_open alive me pid file reopening = create me file refused
advance deletes_open alive me pid file writing = (write_pid me pid file, owner)
advance deletes_open alive me pid file owner = unlink deletes_open file outside
advance deletes_open alive me pid file refused = (file, refused)
advance deletes_open alive me pid file stopped = (file, stopped)

module _ (deletes_open : Bool) (alive : ℕ → Bool) (pid_one pid_two : ℕ) where
  unfoldable pub step : Process → Locks → Locks
  unfolding advance
  step first s =
      let r = advance deletes_open alive first pid_one s.file s.one in
      record { file = r.0; one = r.1; two = s.two }
  step second s =
      let r = advance deletes_open alive second pid_two s.file s.two in
      record { file = r.0; one = s.one; two = r.1 }

  unfoldable pub run : List Process → Locks → Locks
  unfolding step
  run [] s = s
  run (p ∷ ps) s = run ps (step p s)

  abbrev pub unlocked : Locks
  unlocked = record { file = missing; one = outside; two = outside }

  -- The second process is outside, is about to read the file, or was refused.
  abbrev pub is_kept_out : Phase → Bool
  is_kept_out outside = true
  is_kept_out reading = true
  is_kept_out refused = true
  is_kept_out _ = false

  abbrev pub only_second : Process → Bool
  only_second first = false
  only_second second = true

  kept_out :
      (phase : Phase)
      → owner_is_running alive (holds first pid_one) ≡ true
      → is_kept_out phase ≡ true
      → ((advance deletes_open alive second pid_two (holds first pid_one) phase).0
          ≡ holds first pid_one)
        × (is_kept_out (advance deletes_open alive second pid_two (holds first pid_one) phase).1
            ≡ true)
  unfolding advance
  kept_out outside live e = (refl, refl)
  kept_out reading live e = (refl, rw live refl)
  kept_out refused live e = (refl, refl)
  kept_out unlinking live e = absurd cc
  kept_out reopening live e = absurd cc
  kept_out writing live e = absurd cc
  kept_out owner live e = absurd cc
  kept_out stopped live e = absurd cc

  -- Once the owner, still running, has written its pid, a process that is not yet past its read of the
  -- file stays out for as long as the owner does nothing, and the file stays the owner's.
  pub run-is_kept_out :
      (schedule : List Process) (s : Locks)
      → owner_is_running alive (holds first pid_one) ≡ true
      → s.file ≡ holds first pid_one
      → is_kept_out s.two ≡ true
      → all only_second schedule ≡ true
      → ((run schedule s).file ≡ holds first pid_one) × (is_kept_out (run schedule s).two ≡ true)
  unfolding run
  run-is_kept_out [] s live file out e = (file, out)
  run-is_kept_out (first ∷ schedule) s live file out e = absurd cc
  run-is_kept_out (second ∷ schedule) s live file out e =
      let next = kept_out s.two live out in
      run-is_kept_out schedule (step second s) live (rw file next.0) (rw file next.1) e
