-- ===== src/UploadQueue/Table.antt =====
-- The table `upload_queue` of src/db/conn.py: its rows in the order of their ids, with the next id
-- of AUTOINCREMENT, and the selections and updates that the transactions share. Times are natural
-- numbers in one unit. No column is null, as `migrate_upload_queue` leaves them.
use bilive.Base.{
  Codes, ℕ, suc, String, Bool, ◌&&◌, Option, none, some, List, [], ◌∷◌, ◌++◌, map, str_eq, ◌==◌,
  if◌then◌else◌, find, filter_by, codes_empty, codes_eq, ◌||◌,
}
use bilive.UploadPath.{upload_path_parts}

pub data Status : Type 0 where
  staged queued uploading uploaded publishing published failed : Status

pub record Row : Type 0 where
  pub id : ℕ
  pub video_path : String
  pub locked : ℕ
  pub status : Status
  pub remote_filename : String
  pub attempts : ℕ
  pub next_attempt_at : ℕ
  pub last_error : Codes
  pub bvid : String
  pub updated_at : ℕ

pub record Queue : Type 0 where
  pub rows : List Row
  pub next_id : ℕ

abbrev status_code : Status → ℕ
status_code staged = 0
status_code queued = 1
status_code uploading = 2
status_code uploaded = 3
status_code publishing = 4
status_code published = 5
status_code failed = 6

abbrev pub same_status : Status → Status → Bool
same_status a b = status_code a == status_code b

-- where video_path = ?, and where id = ?
abbrev pub at_path : String → Row → Bool
at_path path r = str_eq r.video_path path

abbrev pub at_id : ℕ → Row → Bool
at_id i r = r.id == i

abbrev pub update_row : (Row → Bool) → (Row → Row) → Row → Row
update_row p f r = if p r then f r else r

-- update upload_queue set … where …
unfoldable pub update_where : (Row → Bool) → (Row → Row) → Queue → Queue
update_where p f q = record q { rows = map (update_row p f) q.rows }

abbrev pub new_row : ℕ → String → Status → ℕ → Row
new_row i path st now = record {
  id = i;
  video_path = path;
  locked = 0;
  status = st;
  remote_filename = "";
  attempts = 0;
  next_attempt_at = 0;
  last_error = [];
  bvid = "";
  updated_at = now;
}

unfoldable pub insert_row : String → Status → ℕ → Queue → Queue
insert_row path st now q = record {
  rows = q.rows ++ new_row q.next_id path st now ∷ [];
  next_id = suc q.next_id;
}

-- Same room directory and file name as `path`.
abbrev pub same_parts : String → Row → Bool
same_parts path r =
    let mine = upload_path_parts path in
    let theirs = upload_path_parts r.video_path in
    codes_eq theirs.0 mine.0 && codes_eq theirs.1 mine.1

abbrev pub the_only : List Row → Option Row
the_only (r ∷ []) = some r
the_only _ = none

unfoldable pub shared_match : String → List Row → Option Row
shared_match path rows =
    let parts = upload_path_parts path in
    if codes_empty parts.0 || codes_empty parts.1
    then none
    else the_only (filter_by (same_parts path) rows)

unfoldable pub fetch_item : Queue → String → Option Row
fetch_item q path = elim (find (at_path path) q.rows) [
  | some r ↦ some r
  | none ↦ shared_match path q.rows
]
