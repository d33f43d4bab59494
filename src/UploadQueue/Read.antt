-- ===== src/UploadQueue/Read.antt =====
-- The read-only queries of src/db/conn.py: counts by status, pages, and the selections of the older
-- interface.
use bilive.Base.{
  ℕ, ◌+◌, ◌≡◌, refl, Bool, true, not, ◌&&◌, Option, none, some, List, [], ◌∷◌, map, arith, leb,
  ◌==◌, if◌then◌else◌, length, take, drop, filter_by, find, String,
}
use bilive.UploadQueue.Table.{
  Status, staged, queued, uploading, uploaded, publishing, published, failed, Row, Queue,
  same_status,
}
use bilive.UploadQueue.Consume.{claimable}
use mathlib.Core.List.{reverse}

-- select count(*) … group by status
unfoldable pub count_status : Status → List Row → ℕ
count_status st [] = 0
count_status st (r ∷ rs) = (if same_status r.status st then 1 else 0) + count_status st rs

pub record QueueCounts : Type 0 where
  pub count : Status → ℕ
  pub total : ℕ

unfoldable pub get_upload_queue_counts : Queue → QueueCounts
get_upload_queue_counts q =
    let count = λ (st : Status). count_status st q.rows in
    record {
      count = count;
      total =
          count staged
          + count queued
          + count uploading
          + count uploaded
          + count publishing
          + count published
          + count failed;
    }

sum_counts :
    (rs : List Row)
    → count_status staged rs
        + count_status queued rs
        + count_status uploading rs
        + count_status uploaded rs
        + count_status publishing rs
        + count_status published rs
        + count_status failed rs
      ≡ length rs
unfolding count_status
sum_counts [] = refl
sum_counts (r ∷ rs) = ground (arith, sum_counts rs)

-- The total of the counts by status counts every row of the table exactly once.
total-get_upload_queue_counts : (q : Queue) → (get_upload_queue_counts q).total ≡ length q.rows
unfolding get_upload_queue_counts
total-get_upload_queue_counts q = sum_counts q.rows

abbrev of_status : Option Status → Row → Bool
of_status none r = true
of_status (some st) r = same_status r.status st

pub data Page : Type 0 where
  page : List Row → ℕ → Page
  invalid_page : Page

-- A page of the rows, newest first, and the number of rows with the status. An unknown status is no
-- value of the type; `limit` and `offset` are checked as in the source.
unfoldable pub read_upload_page : Option Status → ℕ → ℕ → Queue → Page
read_upload_page status limit offset q =
    let rows = filter_by (of_status status) q.rows in
    if not (leb 1 limit && leb limit 100)
    then invalid_page
    else page (take limit (drop offset (reverse rows))) (length rows)

unfoldable pub get_single_upload_queue : Queue → Option String
get_single_upload_queue q = elim (find (λ r. claimable r.status && (r.locked == 0)) q.rows) [
  | none ↦ none
  | some r ↦ some r.video_path
]

unfoldable pub get_single_lock_queue : Queue → Option String
get_single_lock_queue q = elim (find (λ r. r.locked == 1) q.rows) [
  | none ↦ none
  | some r ↦ some r.video_path
]

unfoldable pub get_all_reserve_for_fixing_queue : Queue → List String
get_all_reserve_for_fixing_queue q = map (λ r. r.video_path) (filter_by (λ r. r.locked == 2) q.rows)
