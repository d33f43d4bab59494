-- ===== src/UploadQueue/Transactions.antt =====
-- The transactions of src/db/conn.py as values, and runs of them.
use bilive.Base.{
  Codes, ℕ, String, ◌≡◌, refl, Bool, true, false, none, List, [], ◌∷◌, inl, inr, arith, find, any,
  ◌+◌, max, leb, if◌then◌else◌, Bool-cases, Option-cases,
}
use bilive.UploadQueue.Table.{
  staged, failed, same_status, Row, Queue, at_path, update_where, fetch_item,
}
use bilive.UploadQueue.Supply.{
  insert_upload_queue, stage_upload_queue, activate_staged_upload, requeue_failed_upload,
  withdraw_staged_upload, delete_upload_queue, update_upload_queue_lock,
}
use bilive.UploadQueue.Consume.{
  due, retry_row, claim_next_upload, mark_upload_complete, publish_row, mark_upload_failed,
  schedule_upload_retry, defer_upload_for_auth, recover_upload_queue,
}
use bilive.UploadQueue.Valid.{
  IsValid, KeepsKey, update_where-IsValid, insert_row-IsValid, delete_where-IsValid, Absent,
  Absent-of_find, Absent-of_any,
}

pub data Transaction : Type 0 where
  insert : String → ℕ → Transaction
  stage : String → ℕ → Transaction
  activate : String → ℕ → Transaction
  requeue : String → ℕ → Transaction
  withdraw : String → Transaction
  delete : String → Transaction
  lock : String → ℕ → ℕ → Transaction
  claim : ℕ → Transaction
  complete : String → String → ℕ → Transaction
  publish : String → String → ℕ → Transaction
  fail : String → Codes → ℕ → Transaction
  retry : String → Codes → ℕ → ℕ → ℕ → Transaction
  defer : String → Codes → ℕ → ℕ → Transaction
  recover : ℕ → Transaction

unfoldable pub run : Transaction → Queue → Queue
run (insert path now) q = (insert_upload_queue path now q).0
run (stage path now) q = (stage_upload_queue path now q).0
run (activate path now) q = (activate_staged_upload path now q).0
run (requeue path now) q = (requeue_failed_upload path now q).0
run (withdraw path) q = (withdraw_staged_upload path q).0
run (delete path) q = delete_upload_queue path q
run (lock path locked now) q = update_upload_queue_lock path locked now q
run (claim now) q = (claim_next_upload now q).0
run (complete path remote now) q = (mark_upload_complete path remote now q).0
run (publish path bvid now) q = (publish_row path bvid now q).0
run (fail path error now) q = (mark_upload_failed path error now q).0
run (retry path error most base now) q = (schedule_upload_retry path error most base now q).0
run (defer path error retry_at now) q = (defer_upload_for_auth path error retry_at now q).0
run (recover now) q = recover_upload_queue now q

unfoldable pub run_all : List Transaction → Queue → Queue
run_all [] q = q
run_all (t ∷ ts) q = run_all ts (run t q)

-- `fetch_item` finds nothing only where no row has the path.
pub Absent-of_fetch : (path : String) (q : Queue) → fetch_item q path ≡ none → Absent path q.rows
unfolding fetch_item
Absent-of_fetch path q e = elim (Option-cases (find (at_path path) q.rows)) [
  | inl missing ↦ Absent-of_find path q.rows missing
  | inr (r, found) ↦ absurd (ground arith)
]

either-IsValid {ℓ} :
    {A : Type ℓ} (b : Bool) (x y : Queue × A)
    → IsValid x.0
    → IsValid y.0
    → IsValid (if b then x else y).0
either-IsValid true x y vx vy = vx
either-IsValid false x y vx vy = vy

module _ {q : Queue} (v : IsValid q) where
  -- An update whose `set` clause names neither key column.
  set-IsValid : (p : Row → Bool) (f : Row → Row) → KeepsKey f → IsValid (update_where p f q)
  set-IsValid p f keeps = update_where-IsValid p f keeps v

  stage-IsValid : (path : String) (now : ℕ) → IsValid (stage_upload_queue path now q).0
  unfolding stage_upload_queue
  stage-IsValid path now = elim (Option-cases (fetch_item q path)) [
    | inl missing ↦
        rw (missing, stage_upload_queue)
          (insert_row-IsValid path _ now v (Absent-of_fetch path q missing))
    | inr (item, found) ↦
        rw (found, stage_upload_queue)
          (either-IsValid (same_status item.status failed) _ _ (set-IsValid _ _ (λ r. (refl, refl)))
            v)
  ]

  activate-IsValid : (path : String) (now : ℕ) → IsValid (activate_staged_upload path now q).0
  unfolding activate_staged_upload
  activate-IsValid path now = elim (Option-cases (fetch_item q path)) [
    | inl missing ↦ rw (missing, activate_staged_upload) v
    | inr (item, found) ↦
        rw (found, activate_staged_upload)
          (either-IsValid (same_status item.status staged) _ _ (set-IsValid _ _ (λ r. (refl, refl)))
            v)
  ]

  requeue-IsValid : (path : String) (now : ℕ) → IsValid (requeue_failed_upload path now q).0
  unfolding requeue_failed_upload
  requeue-IsValid path now = elim (Option-cases (fetch_item q path)) [
    | inl missing ↦ rw (missing, requeue_failed_upload) v
    | inr (item, found) ↦
        rw (found, requeue_failed_upload)
          (either-IsValid (same_status item.status failed) _ _ (set-IsValid _ _ (λ r. (refl, refl)))
            v)
  ]

  withdraw-IsValid : (path : String) → IsValid (withdraw_staged_upload path q).0
  unfolding withdraw_staged_upload
  withdraw-IsValid path = elim (Option-cases (fetch_item q path)) [
    | inl missing ↦ rw (missing, withdraw_staged_upload) v
    | inr (item, found) ↦ rw (found, withdraw_staged_upload) (delete_where-IsValid _ v)
  ]

  insert-IsValid : (path : String) (now : ℕ) → IsValid (insert_upload_queue path now q).0
  unfolding insert_upload_queue
  insert-IsValid path now = elim (Bool-cases (any (at_path path) q.rows)) [
    | inl t ↦ rw t v
    | inr f ↦ rw f (insert_row-IsValid path _ now v (Absent-of_any path q.rows f))
  ]

  claim-IsValid : (now : ℕ) → IsValid (claim_next_upload now q).0
  unfolding claim_next_upload
  claim-IsValid now = elim (Option-cases (find (due now) q.rows)) [
    | inl missing ↦ rw (missing, claim_next_upload) v
    | inr (row, found) ↦ rw (found, claim_next_upload) (set-IsValid _ _ (λ r. (refl, refl)))
  ]

  retry-KeepsKey :
      (most base : ℕ) (item : Row) (error : Codes) (now : ℕ)
      → KeepsKey (retry_row most base item error now)
  retry-KeepsKey most base item error now r =
      elim (Bool-cases (leb (max 1 most) (item.attempts + 1))) [
        | inl t ↦ rw t (refl, refl)
        | inr f ↦ rw f (refl, refl)
      ]

  retry-IsValid :
      (path : String) (error : Codes) (most base now : ℕ)
      → IsValid (schedule_upload_retry path error most base now q).0
  unfolding schedule_upload_retry
  retry-IsValid path error most base now = elim (Option-cases (fetch_item q path)) [
    | inl missing ↦ rw (missing, schedule_upload_retry) v
    | inr (item, found) ↦
        rw (found, schedule_upload_retry)
          (set-IsValid _ _ (retry-KeepsKey most base item error now))
  ]

  -- Every transaction keeps the table valid, whatever its arguments.
  pub run-IsValid : (t : Transaction) → IsValid (run t q)
  unfolding run mark_upload_complete publish_row mark_upload_failed defer_upload_for_auth
      recover_upload_queue delete_upload_queue update_upload_queue_lock
  run-IsValid (insert path now) = insert-IsValid path now
  run-IsValid (stage path now) = stage-IsValid path now
  run-IsValid (activate path now) = activate-IsValid path now
  run-IsValid (requeue path now) = requeue-IsValid path now
  run-IsValid (withdraw path) = withdraw-IsValid path
  run-IsValid (delete path) = delete_where-IsValid _ v
  run-IsValid (lock path locked now) = set-IsValid _ _ (λ r. (refl, refl))
  run-IsValid (claim now) = claim-IsValid now
  run-IsValid (complete path remote now) = set-IsValid _ _ (λ r. (refl, refl))
  run-IsValid (publish path bvid now) = set-IsValid _ _ (λ r. (refl, refl))
  run-IsValid (fail path error now) = set-IsValid _ _ (λ r. (refl, refl))
  run-IsValid (retry path error most base now) = retry-IsValid path error most base now
  run-IsValid (defer path error retry_at now) = set-IsValid _ _ (λ r. (refl, refl))
  run-IsValid (recover now) =
      update_where-IsValid _ _ (λ r. (refl, refl)) (set-IsValid _ _ (λ r. (refl, refl)))

pub empty-IsValid : IsValid (record { rows = []; next_id = 1 })
empty-IsValid = record { ordered = omega arith; distinct = tt }

-- From a valid table every run of transactions leaves a valid one: its ids ascend below the next
-- id, and no two rows have one path.
pub run_all-IsValid : (ts : List Transaction) {q : Queue} → IsValid q → IsValid (run_all ts q)
unfolding run_all
run_all-IsValid [] v = v
run_all-IsValid (t ∷ ts) v = run_all-IsValid ts (run-IsValid v t)
