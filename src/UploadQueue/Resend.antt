-- ===== src/UploadQueue/Resend.antt =====
-- The transactions of src/db/conn.py on rows whose bytes are on the CDN, one by one and in runs.
use bilive.Base.{
  Codes, ℕ, ◌+◌, ◌≡◌, refl, String, Bool, true, false, some, List, [], ◌∷◌, inl, inr, arith, find,
  any, max, leb, All, All-find, find-passes, Bool-cases, Option-cases, has_text,
}
use bilive.UploadQueue.Table.{queued, publishing, Row, Queue, at_path, update_where, fetch_item}
use bilive.UploadQueue.Supply.{insert_upload_queue, withdraw_staged_upload, delete_upload_queue}
use bilive.UploadQueue.Consume.{
  due, claimed_status, hold, peek_next_upload, claim_next_upload, retry_row, mark_upload_complete,
  publish_row, mark_upload_failed, schedule_upload_retry, defer_upload_for_auth,
  recover_upload_queue,
}
use bilive.UploadQueue.Valid.{IsValid, Absent, Absent-of_find}
use bilive.UploadQueue.Transactions.{
  Transaction, insert, stage, activate, requeue, withdraw, delete, lock, claim, complete, publish,
  fail, retry, defer, recover, run, run_all, run-IsValid, run_all-IsValid,
}
use bilive.UploadQueue.Claims.{claim_next_upload-Found}
use bilive.UploadQueue.Retry.{fetch-find}
use bilive.UploadQueue.Unique.{unique_path, unique_id}
use bilive.UploadQueue.Sent.{
  SentRow, IsSent, is_lock, some-IsSent, set-IsSent, by_path, by_id, either-IsSent, resumed_sent,
  insert-IsSent, stage-IsSent, activate-IsSent, requeue-IsSent, delete-IsSent, sends,
}

nobody :
    (path : String) (f : Row → Row) (rs : List Row)
    → Absent path rs
    → All (λ r. at_path path r ≡ true → SentRow r → SentRow (f r)) rs
nobody path f [] none_there = tt
nobody path f (r ∷ rs) none_there = (λ t. cc, nobody path f rs none_there.1)

claimed-sent :
    (now : ℕ) (row : Row)
    → due now row ≡ true
    → sends row.status ≡ false
    → sends (claimed_status row.status) ≡ false
claimed-sent now row t rests = ground arith

claimed_publishing :
    (now : ℕ) (row : Row)
    → due now row ≡ true
    → sends row.status ≡ false
    → claimed_status row.status ≡ publishing
claimed_publishing now row t rests = ground arith

module _ (q : Queue) (v : IsValid q) (h : IsSent q) where
  insert_upload_queue-IsSent : (path : String) (now : ℕ) → IsSent (insert_upload_queue path now q).0
  unfolding insert_upload_queue
  insert_upload_queue-IsSent path now =
      either-IsSent (any (at_path path) q.rows) _ _ h (insert-IsSent q v h path queued now)

  withdraw-IsSent : (path : String) → IsSent (withdraw_staged_upload path q).0
  unfolding withdraw_staged_upload
  withdraw-IsSent path = elim (Option-cases (fetch_item q path)) [
    | inl missing ↦ rw (missing, withdraw_staged_upload) h
    | inr (item, found) ↦ rw (found, withdraw_staged_upload) (delete-IsSent q v h _)
  ]

  retried-sent :
      (most base : ℕ) (item : Row) (error : Codes) (now : ℕ)
      → SentRow item
      → SentRow (retry_row most base item error now item)
  retried-sent most base item error now sent text =
      elim (Bool-cases (leb (max 1 most) (item.attempts + 1))) [
        | inl t ↦ rw t refl
        | inr f ↦ rw f (resumed_sent item.remote_filename (rw f at text))
      ]

  retry-IsSent :
      (path : String) (error : Codes) (most base now : ℕ)
      → IsSent (schedule_upload_retry path error most base now q).0
  unfolding schedule_upload_retry
  retry-IsSent path error most base now = elim (Option-cases (find (at_path path) q.rows)) [
    | inl missing ↦ elim (Option-cases (fetch_item q path)) [
      | inl gone ↦ rw (gone, schedule_upload_retry) h
      | inr (item, found) ↦
          rw (found, schedule_upload_retry)
            (some-IsSent _ _ q
              (nobody path (retry_row most base item error now) q.rows
                (Absent-of_find path q.rows missing))
              h)
    ]
    | inr (item, found) ↦
        rw (fetch-find path q item found, schedule_upload_retry)
          (some-IsSent _ _ q
            (by_path (retry_row most base item error now) item
              (retried-sent most base item error now) path q.rows
              (unique_path path q.rows item v.distinct found))
            h)
  ]

  claim-IsSent : (now : ℕ) → IsSent (claim_next_upload now q).0
  unfolding claim_next_upload
  claim-IsSent now = elim (Option-cases (find (due now) q.rows)) [
    | inl missing ↦ rw (missing, claim_next_upload) h
    | inr (row, found) ↦
        rw (found, claim_next_upload)
          (some-IsSent _ _ q
            (by_id (hold now row) row
              (λ sent text.
                claimed-sent now row (find-passes (due now) q.rows row found) (sent text))
              _ q.rows (λ r t. ground arith)
              (unique_id 0 q.rows q.next_id (due now) row v.ordered found))
            h)
  ]

  recover-IsSent : (now : ℕ) → IsSent (recover_upload_queue now q)
  unfolding recover_upload_queue
  recover-IsSent now =
      set-IsSent _ _ _ (λ r t sent text. resumed_sent r.remote_filename text)
        (set-IsSent _ _ q (λ r t sent text. absurd (ground arith)) h)

  set :
      (p : Row → Bool) (f : Row → Row)
      → ((r : Row) → SentRow r → SentRow (f r))
      → IsSent (update_where p f q)
  set p f keeps = set-IsSent p f q (λ r t. keeps r) h

  -- Every transaction except the manual lock keeps sent bytes from being offered for upload.
  pub run-IsSent : (t : Transaction) → is_lock t ≡ false → IsSent (run t q)
  unfolding run mark_upload_complete publish_row mark_upload_failed defer_upload_for_auth
      delete_upload_queue
  run-IsSent (insert path now) n = insert_upload_queue-IsSent path now
  run-IsSent (stage path now) n = stage-IsSent q v h path now
  run-IsSent (activate path now) n = activate-IsSent q v h path now
  run-IsSent (requeue path now) n = requeue-IsSent q v h path now
  run-IsSent (withdraw path) n = withdraw-IsSent path
  run-IsSent (delete path) n = delete-IsSent q v h _
  run-IsSent (lock path locked now) n = cc
  run-IsSent (claim now) n = claim-IsSent now
  run-IsSent (complete path remote now) n = set _ _ (λ r sent text. refl)
  run-IsSent (publish path bvid now) n = set _ _ (λ r sent text. refl)
  run-IsSent (fail path error now) n = set _ _ (λ r sent text. refl)
  run-IsSent (retry path error most base now) n = retry-IsSent path error most base now
  run-IsSent (defer path error retry_at now) n =
      set _ _ (λ r sent text. resumed_sent r.remote_filename text)
  run-IsSent (recover now) n = recover-IsSent now

pub run_all-IsSent :
    (ts : List Transaction) (q : Queue)
    → IsValid q
    → All (λ t. is_lock t ≡ false) ts
    → IsSent q
    → IsSent (run_all ts q)
unfolding run_all
run_all-IsSent [] q v n h = h
run_all-IsSent (t ∷ ts) q v n h =
    run_all-IsSent ts (run t q) (run-IsValid v t) n.1 (run-IsSent q v h t n.0)

-- From a valid table in which no row with bytes on the CDN waits for an upload or is at one, after
-- any run of transactions without a manual lock, a claim of a row whose bytes are on the CDN
-- claims it for publication, never for another upload.
pub claim-publishing :
    (now : ℕ) (ts : List Transaction) (q : Queue) (c : Row)
    → IsValid q
    → IsSent q
    → All (λ t. is_lock t ≡ false) ts
    → (claim_next_upload now (run_all ts q)).1 ≡ some c
    → has_text c.remote_filename ≡ true
    → c.status ≡ publishing
unfolding peek_next_upload
claim-publishing now ts q c v h n e text =
    let after = run_all ts q in
    let taken_row = claim_next_upload-Found now after c (run_all-IsValid ts v) e in
    let row = taken_row.row in
    let same_text : has_text row.remote_filename ≡ true = rw taken_row.returned at text in
    let rests =
      All-find SentRow (due now) after.rows row (run_all-IsSent ts q v n h) taken_row.found
        same_text in
    rw taken_row.returned (claimed_publishing now row taken_row.was_due rests)
