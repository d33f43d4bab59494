-- ===== src/UploadQueue/Supply.antt =====
-- The transactions of src/db/conn.py by which the slicing pipeline and the dashboard add rows,
-- offer them to the consumer, take them back and delete them.
use bilive.Base.{
  [], ℕ, String, Bool, true, false, not, ◌&&◌, Option, none, some, str_eq, ◌==◌, if◌then◌else◌,
  filter_by, any, length, has_text,
}
use bilive.UploadQueue.Table.{
  Status, staged, queued, uploaded, failed, Row, Queue, same_status, at_path, at_id, update_where,
  insert_row, fetch_item,
}

-- The unique index on video_path refuses a duplicate.
unfoldable pub insert_upload_queue : String → ℕ → Queue → Queue × Bool
unfolding insert_row
insert_upload_queue path now q =
    if any (at_path path) q.rows then (q, false) else (insert_row path queued now q, true)

-- The status under which a row is offered again: CDN bytes that are there are not sent again.
abbrev pub resumed_status : Bool → Status
resumed_status true = uploaded
resumed_status false = queued

abbrev pub with_flag : Bool → Option Row → Option (Row × Bool)
with_flag created none = none
with_flag created (some r) = some (r, created)

abbrev pub stage_existing : String → ℕ → Queue → Row → Queue × Option (Row × Bool)
stage_existing path now q item =
    let q' =
      update_where (λ r. at_id item.id r && same_status r.status failed)
        (λ r. record r {
          status = staged;
          locked = 0;
          attempts = 0;
          next_attempt_at = 0;
          last_error = [];
          updated_at = now;
        })
        q in
    if same_status item.status failed
    then (q', with_flag false (fetch_item q' path))
    else (q, some (item, false))

-- The flag is `item["created"]`; `none` is a failed `assert item is not None`.
unfoldable pub stage_upload_queue : String → ℕ → Queue → Queue × Option (Row × Bool)
unfolding insert_row
stage_upload_queue path now q = elim (fetch_item q path) [
  | none ↦ (
    insert_row path staged now q,
    with_flag true (fetch_item (insert_row path staged now q) path),
  )
  | some item ↦ stage_existing path now q item
]

abbrev pub activate_item : String → ℕ → Queue → Row → Queue × Option Row
activate_item path now q item =
    let next = resumed_status (has_text item.remote_filename) in
    let q' =
      update_where (λ r. at_id item.id r && same_status r.status staged)
        (λ r. record r { status = next; locked = 0; updated_at = now }) q in
    if same_status item.status staged then (q', fetch_item q' path) else (q, some item)

unfoldable pub activate_staged_upload : String → ℕ → Queue → Queue × Option Row
activate_staged_upload path now q = elim (fetch_item q path) [
  | none ↦ (q, none)
  | some item ↦ activate_item path now q item
]

abbrev pub requeue_item : String → ℕ → Queue → Row → Queue × Option Row
requeue_item path now q item =
    let next = resumed_status (has_text item.remote_filename) in
    let q' =
      update_where (λ r. at_id item.id r && same_status r.status failed)
        (λ r. record r {
          status = next;
          locked = 0;
          attempts = 0;
          next_attempt_at = 0;
          last_error = [];
          updated_at = now;
        })
        q in
    if same_status item.status failed then (q', fetch_item q' path) else (q, some item)

unfoldable pub requeue_failed_upload : String → ℕ → Queue → Queue × Option Row
requeue_failed_upload path now q = elim (fetch_item q path) [
  | none ↦ (q, none)
  | some item ↦ requeue_item path now q item
]

abbrev pub withdrawable : Row → Row → Bool
withdrawable item r = at_id item.id r && same_status r.status staged && str_eq r.remote_filename ""

-- delete … where …, with whether exactly one row went.
unfoldable pub delete_where : (Row → Bool) → Queue → Queue
delete_where p q = record q { rows = filter_by (λ r. not (p r)) q.rows }

unfoldable pub withdraw_staged_upload : String → Queue → Queue × Bool
unfolding delete_where
withdraw_staged_upload path q = elim (fetch_item q path) [
  | none ↦ (q, false)
  | some item ↦
      (delete_where (withdrawable item) q, length (filter_by (withdrawable item) q.rows) == 1)
]

unfoldable pub delete_upload_queue : String → Queue → Queue
unfolding delete_where
delete_upload_queue path = delete_where (at_path path)

unfoldable pub update_upload_queue_lock : String → ℕ → ℕ → Queue → Queue
update_upload_queue_lock path locked now =
    let st = if locked == 0 then queued else failed in
    update_where (at_path path) (λ r. record r { locked = locked; status = st; updated_at = now })
