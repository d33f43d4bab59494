-- ===== src/UploadQueue/Consume.antt =====
-- The transactions of src/db/conn.py by which the upload consumer peeks, claims and settles rows.
use bilive.Base.{
  [], Codes, ℕ, ◌+◌, ◌-◌, ◌*◌, ◌^◌, String, Bool, true, false, ◌&&◌, Option, none, some, max, leb,
  if◌then◌else◌, find, is_nonempty,
}
use bilive.UploadQueue.Table.{
  Status, queued, uploading, uploaded, publishing, published, failed, Row, Queue, same_status,
  at_path, at_id, update_where, fetch_item,
}
use bilive.UploadQueue.Supply.{resumed_status}

abbrev pub claimable : Status → Bool
claimable queued = true
claimable uploaded = true
claimable _ = false

-- status in ('queued', 'uploaded') and coalesce(next_attempt_at, 0) <= ?
abbrev pub due : ℕ → Row → Bool
due now r = claimable r.status && leb r.next_attempt_at now

-- order by id limit 1
unfoldable pub peek_next_upload : ℕ → Queue → Option Row
peek_next_upload now q = find (due now) q.rows

abbrev pub claimed_status : Status → Status
claimed_status queued = uploading
claimed_status _ = publishing

-- The columns that a claim writes.
abbrev pub hold : ℕ → Row → Row → Row
hold now row r = record r { status = claimed_status row.status; locked = 0; updated_at = now }

abbrev pub claim_row : ℕ → Queue → Row → Queue
claim_row now q row = update_where (at_id row.id) (hold now row) q

unfoldable pub claim_next_upload : ℕ → Queue → Queue × Option Row
claim_next_upload now q = elim (find (due now) q.rows) [
  | none ↦ (q, none)
  | some row ↦ (claim_row now q row, find (at_id row.id) (claim_row now q row).rows)
]

unfoldable pub mark_upload_complete : String → String → ℕ → Queue → Queue × Option Row
mark_upload_complete path remote now q =
    let q' =
      update_where (at_path path)
        (λ r. record r {
          status = uploaded;
          locked = 0;
          remote_filename = remote;
          next_attempt_at = 0;
          last_error = [];
          updated_at = now;
        })
        q in
    (q', fetch_item q' path)

-- The columns that a publication writes.
abbrev pub as_published : String → ℕ → Row → Row
as_published bvid now r = record r {
  status = published;
  locked = 0;
  bvid = bvid;
  next_attempt_at = 0;
  last_error = [];
  updated_at = now;
}

-- The part of `mark_upload_published` that writes this table.
unfoldable pub publish_row : String → String → ℕ → Queue → Queue × Option Row
publish_row path bvid now q =
    let q' = update_where (at_path path) (as_published bvid now) q in (q', fetch_item q' path)

unfoldable pub mark_upload_failed : String → Codes → ℕ → Queue → Queue × Option Row
mark_upload_failed path error now q =
    let q' =
      update_where (at_path path)
        (λ r. record r {
          status = failed;
          locked = 1;
          next_attempt_at = 0;
          last_error = error;
          updated_at = now;
        })
        q in
    (q', fetch_item q' path)

-- The columns that a retry writes, from the fetched row.
abbrev pub retry_row : ℕ → ℕ → Row → Codes → ℕ → Row → Row
retry_row max_attempts base item error now r =
    let attempts = item.attempts + 1 in
    if leb (max 1 max_attempts) attempts
    then record r {
      status = failed;
      locked = 1;
      attempts = attempts;
      next_attempt_at = 0;
      last_error = error;
      updated_at = now;
    }
    else record r {
      status = resumed_status (is_nonempty item.remote_filename);
      locked = 0;
      attempts = attempts;
      next_attempt_at = now + base * 2 ^ (attempts - 1);
      last_error = error;
      updated_at = now;
    }

unfoldable pub schedule_upload_retry : String → Codes → ℕ → ℕ → ℕ → Queue → Queue × Option Row
schedule_upload_retry path error max_attempts base now q = elim (fetch_item q path) [
  | none ↦ (q, none)
  | some item ↦
      let q' = update_where (at_path path) (retry_row max_attempts base item error now) q in
      (q', fetch_item q' path)
]

unfoldable pub defer_upload_for_auth : String → Codes → ℕ → ℕ → Queue → Queue × Option Row
defer_upload_for_auth path error retry_at now q =
    let q' =
      update_where (at_path path)
        (λ r. record r {
          status = resumed_status (is_nonempty r.remote_filename);
          locked = 0;
          next_attempt_at = retry_at;
          last_error = error;
          updated_at = now;
        })
        q in
    (q', fetch_item q' path)

unfoldable pub recover_upload_queue : ℕ → Queue → Queue
recover_upload_queue now q =
    update_where (λ r. same_status r.status publishing)
      (λ r. record r {
        status = resumed_status (is_nonempty r.remote_filename);
        locked = 0;
        updated_at = now;
      })
      (update_where (λ r. same_status r.status uploading)
        (λ r. record r { status = queued; locked = 0; updated_at = now }) q)
