-- ===== src/Stages/Queueing.antt =====
-- The stages of src/burn/pipeline_stages.py that put a rendered slice into the upload queue.
use bilive.Base.{
  codes, ℕ, String, Bool, true, false, not, ◌&&◌, Option, none, some, [], if◌then◌else◌, Codes,
}
use bilive.UploadQueue.Table.{Status, staged, queued, failed, Row, Queue, same_status}
use bilive.UploadQueue.Supply.{stage_upload_queue}

pub data StageStatus : Type 0 where
  skipped not_queued : StageStatus
  has_status : Status → StageStatus

pub data StageError : Type 0 where
  no_error : StageError
  queue_failed : Codes → StageError
  staging_failed : Codes → StageError
  invalid_status : StageStatus → StageError

pub record StageResult : Type 0 where
  pub ok : Bool
  pub status : StageStatus
  pub created : Bool
  pub error : StageError

-- A call returns, or raises an exception with a text.
pub data Attempt {ℓ} (A : Type ℓ) : Type ℓ where
  returned : A → Attempt A
  exception : Codes → Attempt A

abbrev pub result : Bool → StageStatus → Bool → StageError → StageResult
result ok status created error = record {
  ok = ok;
  status = status;
  created = created;
  error = error;
}

-- ACTIVE_UPLOAD_STATUSES
abbrev is_active : Status → Bool
is_active s = not (same_status s staged) && not (same_status s failed)

abbrev status_of : Option Row → StageStatus
status_of none = not_queued
status_of (some item) = has_status item.status

abbrev not_inserted : Codes → Option Row → StageResult
not_inserted text none = result false not_queued false (queue_failed text)
not_inserted text (some item) =
    if is_active item.status
    then result true (has_status item.status) false no_error
    else result false (has_status item.status) false (queue_failed text)

abbrev after_insert : (Queue → Option Row) → Queue × Attempt Bool → Queue × StageResult
after_insert lookup (q, returned true) = (q, result true (has_status queued) true no_error)
after_insert lookup (q, returned false) =
    (q, not_inserted (codes "queue insert returned false") (lookup q))
after_insert lookup (q, exception text) = (q, not_inserted text (lookup q))

unfoldable pub enqueue_stage :
    (Queue → Queue × Attempt Bool) → (Queue → Option Row) → Bool → Queue → Queue × StageResult
enqueue_stage insert lookup skip q =
    if skip then (q, result true skipped false no_error) else after_insert lookup (insert q)

-- STAGED_UPLOAD_STATUSES holds all statuses but `failed`.
abbrev pub after_stage : Queue × Attempt (Option (Row × Bool)) → Queue × StageResult
after_stage (q, exception text) = (q, result false not_queued false (staging_failed text))
after_stage (q, returned none) = (q, result false not_queued false (invalid_status not_queued))
after_stage (q, returned (some (item, created))) = (
  q,
  if same_status item.status failed
      then result false (has_status item.status) false (invalid_status (has_status item.status))
      else result true (has_status item.status) created no_error,
)

unfoldable pub stage_upload_stage :
    (Queue → Queue × Attempt (Option (Row × Bool))) → Bool → Queue → Queue × StageResult
stage_upload_stage stage skip q =
    if skip then (q, result true skipped false no_error) else after_stage (stage q)

-- `stage_upload_queue` as the stage calls it; `none` is its failed assertion.
unfoldable pub stage_call : String → ℕ → Queue → Queue × Attempt (Option (Row × Bool))
stage_call path now q = (
  (stage_upload_queue path now q).0,
  elim (stage_upload_queue path now q).1 [ none ↦ exception [] | some item ↦ returned (some item) ],
)
