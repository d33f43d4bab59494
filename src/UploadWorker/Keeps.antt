-- ===== src/UploadWorker/Keeps.antt =====
-- Steps of the cycle of src/upload/worker.py that leave the database as it is.
use bilive.UploadWorker.Process.{mark_upload_published}
use bilive.Base.{ℕ, String, ◌≡◌, Option, none, some, inl, inr, arith, Bool-cases, Codes}
use bilive.UploadQueue.Table.{failed, same_status, same_status, Row}
use bilive.UploadWorker.World.{World, Client, UploadSettings, UploadResult, Metadata}
use bilive.UploadWorker.Files.{cleanup}
use bilive.UploadWorker.Process

pub database-finish : (r : UploadResult) (w : World) → (Process.finish r w).0.database ≡ w.database
unfolding Process.finish
database-finish r w = ground arith

pub database-cleanup :
    (path : String) (metadata : Metadata) (w : World)
    → (cleanup path metadata w).0.database ≡ w.database
unfolding cleanup
database-cleanup path metadata w = ground arith

module _ (settings : UploadSettings) (client : Client) (now : ℕ) where
  pub database-settle :
      (path : String) (error : Codes) (item : Option Row) (w : World)
      → (Process.settle settings client now path error item w).0.database ≡ w.database
  unfolding Process.settle
  database-settle path error none w = database-finish _ w
  database-settle path error (some row) w = elim (Bool-cases (same_status row.status failed)) [
    | inl t ↦ rw t (database-finish _ w)
    | inr f ↦ rw f (database-finish _ w)
  ]
