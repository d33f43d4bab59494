-- ===== src/UploadWorker/Reopened.antt =====
-- A failing write of the status file after a publication, in src/upload/worker.py.
use bilive.Performance.{Fields}
use bilive.Base.{
  suc, ℕ, String, ◌≡◌, ◌≢◌, refl, Bool, true, false, Option, some, inl, inr, arith, Bool-cases,
  Codes, find, max, is_nonempty, sym, ◌∙◌,
}
use bilive.UploadQueue.Table.{update_where, Row, Queue, published, at_path}
use bilive.UploadQueue.Supply.{resumed_status}
use bilive.UploadQueue.Consume.{as_published, publish_row}
use bilive.UploadQueue.Retry.{find-update_path, once, AfterFailures}
use bilive.UploadWorker.World.{
  World, Outcome-ind, raised, Client, UploadSettings, UploadResult, Metadata, Database,
}
use bilive.UploadWorker.Files.{cleanup, read_slice_features}
use native.Mathlib.Decide.{dec_lt}
use bilive.UploadWorker.Process
use bilive.UploadWorker.Process.{mark_upload_published, finish}
use bilive.UploadWorker.Keeps.{database-cleanup, database-settle}

queue-mark_upload_published :
    (path bvid : String) (f : Option Fields) (now : ℕ) (db : Database)
    → (mark_upload_published path bvid f now db).queue ≡ (publish_row path bvid now db.queue).0
unfolding mark_upload_published
queue-mark_upload_published path bvid f now db = ground arith

writes-cleanup :
    (path : String) (metadata : Metadata) (w : World)
    → ((cleanup path metadata w).0.writes ≡ w.writes)
      × ((cleanup path metadata w).0.write_error ≡ w.write_error)
unfolding cleanup
writes-cleanup path metadata w = ground arith

finish_raised :
    (r : UploadResult) (w : World) (error : Codes)
    → w.write_error w.writes ≡ some error
    → finish r w ≡ (record w { writes = suc w.writes }, raised error)
unfolding finish
finish_raised r w error e = rw (e, finish)

resumed_ne_published : (b : Bool) → resumed_status b ≢ published
resumed_ne_published true e = cc
resumed_ne_published false e = cc

after_ne_published :
    {path : String} {most base attempts now : ℕ} {before : Row} {q : Queue}
    (a : AfterFailures path most base before attempts now q)
    → a.row.status ≢ published
after_ne_published {most = most} {attempts = attempts} {before = before} a e =
    elim (dec_lt attempts (max 1 most)) [
      | yes below ↦
          resumed_ne_published (is_nonempty before.remote_filename)
            (sym (a.offered_again below).0 ∙ e)
      | no reached ↦ let gone = (a.given_up (omega arith)).0 in cc
    ]

module _ (settings : UploadSettings) (client : Client) (now : ℕ) (path : String) where
  retried_ne_published :
      (error : Codes) (w : World) (row : Row)
      → find (at_path path) w.database.queue.rows ≡ some row
      → (row' : Row) × (find
            (at_path path)
            (Process.retry_upload settings client now path error false w).0.database.queue.rows
          ≡ some row')
        × (row'.status ≢ published)
  unfolding Process.retry_upload
  retried_ne_published error w row found =
      let after =
        once path settings.max_attempts settings.retry_base_seconds
          (Process.sanitize settings client now error) now w.database.queue row found in
      (after.row, rw database-settle after.found, after_ne_published after)

  module _ (features : Option Fields) (metadata : Metadata) (bvid : String) (w : World) where
    abbrev pub world_after : World
    world_after = (Process.recorded settings client now features path metadata bvid w).0

    -- Recording a publication writes no status, and of the queue only the row at the path.
    pub recorded_lem :
        (world_after.writes ≡ w.writes)
        × (world_after.write_error ≡ w.write_error)
        × (world_after.database.queue ≡ (publish_row path bvid now w.database.queue).0)
    unfolding Process.recorded
    recorded_lem = elim (Bool-cases settings.delete_after_success) [
      | inl t ↦
          let w1 = record w {
            database = mark_upload_published path bvid features now w.database;
          } in
          rw t (
            (writes-cleanup path metadata w1).0,
            (writes-cleanup path metadata w1).1,
            rw database-cleanup (queue-mark_upload_published path bvid features now w.database),
          )
      | inr f ↦ rw f (refl, refl, queue-mark_upload_published path bvid features now w.database)
    ]

    pub find-world_after :
        (row : Row)
        → find (at_path path) w.database.queue.rows ≡ some row
        → (row' : Row) × (find (at_path path) world_after.database.queue.rows ≡ some row')
          × (row'.status ≡ published)
          × (row'.bvid ≡ bvid)
    unfolding publish_row update_where
    find-world_after row found = (
      as_published bvid now row,
      rw recorded_lem.2
          (find-update_path path w.database.queue.rows (as_published bvid now) row found refl),
      refl,
      refl,
    )

  -- The row of the path is there, and not published.
  abbrev Unpublished : Process.Step → Type 0
  Unpublished step =
      (row' : Row) × (find (at_path path) step.0.database.queue.rows ≡ some row')
      × (row'.status ≢ published)

  reopened_with :
      (features : Option Fields) (metadata : Metadata) (bvid : String) (w : World) (error : Codes)
      (row : Row)
      → find (at_path path) w.database.queue.rows ≡ some row
      → w.write_error w.writes ≡ some error
      → Unpublished (
          Process.on_exception settings client now path
            (Process.publish_with settings client now features path metadata bvid w))
  unfolding Process.publish_with Process.on_exception
  reopened_with features metadata bvid w error row found fails =
      let w2 = world_after features metadata bvid w in
      let facts = recorded_lem features metadata bvid w in
      let error_there : w2.write_error w2.writes ≡ some error = rw (facts.0, facts.1) fails in
      let (row1, found1, _, _) = find-world_after features metadata bvid w row found in
      rw (finish_raised _ w2 error error_there) (
        retried_ne_published (Process.sanitize settings client now error)
          (record w2 { writes = suc w2.writes }) row1 found1)

  -- When a video whose row is in the table has been published and the status file then cannot be
  -- written, the row is not left as published after the handling of the exception.
  pub publish-reopened :
      (metadata : Metadata) (bvid : String) (w : World) (error : Codes) (row : Row)
      → find (at_path path) w.database.queue.rows ≡ some row
      → w.write_error w.writes ≡ some error
      → (row' : Row) × (find
            (at_path path)
            (Process.on_exception settings client now path
              (Process.publish settings client now path metadata bvid w)).0.database.queue.rows
          ≡ some row')
        × (row'.status ≢ published)
  unfolding Process.publish Process.on_exception
  publish-reopened metadata bvid w error row found fails =
      Outcome-ind (λ step. Unpublished (Process.on_exception settings client now path step))
        (read_slice_features w path)
        (λ features _. reopened_with features metadata bvid w error row found fails)
        (λ e _. retried_ne_published (Process.sanitize settings client now e) w row found)
