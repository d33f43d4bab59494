-- ===== src/UploadWorker/Process.antt =====
-- `UploadWorker.process_one` of src/upload/worker.py, with `mark_upload_published` of
-- src/db/conn.py, `_retry`, `_finish` and `write_upload_status`. A handler takes the world to the
-- world after it and to a result or to the exception that leaves it.
use bilive.Base.{
  ◌||◌, ◌==◌, ℕ, suc, ◌+◌, String, Bool, true, false, not, Option, none, some, [], ◌∷◌, ◌++◌, Codes,
  codes, codes_empty, str_eq, if◌then◌else◌, is_nonempty,
}
use bilive.UploadQueue.Table.{Row, Queue, Status, same_status}
use bilive.UploadQueue.Table
use bilive.UploadQueue.Consume.{
  peek_next_upload, claim_next_upload, mark_upload_complete, mark_upload_failed, publish_row,
  schedule_upload_retry, defer_upload_for_auth,
}
use bilive.UploadQueue.Read.{get_upload_queue_counts}
use bilive.Performance.{Fields, text, number, known_fields, upsert_slice_performance}
use bilive.UploadWorker.Texts.{ℤ, pos, negsuc, show, sanitize_error}
use bilive.UploadWorker.World.{
  Database, Metadata, UploadStatus, idle, failed, paused_auth, retry, published, UploadResult,
  UploadSettings, Outcome, done, raised, ResponseCode, absent, code, malformed, Response, Client,
  login, upload, submit, StatusFile, World,
}
use bilive.UploadWorker.Files.{load_metadata, loaded, refused, read_slice_features, cleanup}

abbrev pub Step : Type 0
Step = World × Outcome UploadResult

abbrev pub with_queue : Queue → World → World
with_queue q w = record w { database = record w.database { queue = q } }

abbrev pub result : UploadStatus → Codes → Codes → ℕ → UploadResult
result status path error next = record {
  status = status;
  video_path = path;
  bvid = "";
  error = error;
  next_attempt_at = next;
}

abbrev previous_bvid : Option StatusFile → String
previous_bvid none = ""
previous_bvid (some file) = file.last_successful_bvid

-- `write_upload_status` of a result, and `_finish`.
unfoldable pub finish : UploadResult → World → Step
finish r w =
    let w' = record w { writes = suc w.writes } in
    elim (w.write_error w.writes) [
      | some error ↦ (w', raised error)
      | none ↦ (
        record w' {
          status_file = some (record {
            result = r;
            total = (get_upload_queue_counts w.database.queue).total;
            last_successful_bvid =
                if is_nonempty r.bvid then r.bvid else previous_bvid w.status_file;
          });
        },
        done r,
      )
    ]

-- The snapshot that a publication leaves in slice_performance: known features, then the path and the
-- time.
abbrev snapshot : String → String → ℕ → Fields → Database → Database
snapshot path bvid now features db = record db {
  performance =
      (upsert_slice_performance bvid
        (known_fields features ++ ("video_path", text path) ∷ ("collected_at", number now) ∷ [])
        db.performance).0;
}

unfoldable pub mark_upload_published : String → String → Option Fields → ℕ → Database → Database
mark_upload_published path bvid features now db =
    let db' = record db { queue = (publish_row path bvid now db.queue).0 } in
    elim features [
      | none ↦ db'
      | some [] ↦ db'
      | some (f ∷ fs) ↦ if is_nonempty bvid then snapshot path bvid now (f ∷ fs) db' else db'
    ]

module _ (settings : UploadSettings) (client : Client) (now : ℕ) where
  abbrev pub sanitize : Codes → Codes
  sanitize = sanitize_error settings.sensitive_values

  -- The result of `_retry` by the row that the retry left.
  unfoldable pub settle : String → Codes → Option Row → World → Step
  settle path sanitized none w = finish (result failed (codes path) sanitized 0) w
  settle path sanitized (some row) w =
      if same_status row.status Table.Status.failed
      then finish (result failed (codes path) sanitized 0) w
      else finish (result retry (codes path) sanitized row.next_attempt_at) w

  -- `_retry`; the flag is `paused_auth`.
  unfoldable pub retry_upload : String → Codes → Bool → World → Step
  retry_upload path error true w =
      let sanitized = sanitize error in
      let next = now + settings.auth_retry_seconds in
      finish (result paused_auth (codes path) sanitized next)
        (with_queue (defer_upload_for_auth path sanitized next now w.database.queue).0 w)
  retry_upload path error false w =
      let sanitized = sanitize error in
      let (q, item) =
        schedule_upload_retry path sanitized settings.max_attempts settings.retry_base_seconds now
          w.database.queue in
      settle path sanitized item (with_queue q w)

  -- `except Exception as exc: return self._retry(video_path, self._sanitize_error(exc), …)`
  unfoldable pub on_exception : String → Step → Step
  unfolding retry_upload
  on_exception path (w, done r) = (w, done r)
  on_exception path (w, raised error) = retry_upload path (sanitize error) false w

  abbrev pub api_code : ResponseCode → Outcome ℤ
  api_code absent = done (negsuc 0)
  api_code (code n) = done n
  api_code (malformed error) = raised error

  -- code in {-101, -111}
  abbrev pub is_auth_code : ℤ → Bool
  is_auth_code (pos n) = false
  is_auth_code (negsuc n) = (n == 100) || (n == 110)

  abbrev pub is_zero : ℤ → Bool
  is_zero (pos n) = n == 0
  is_zero (negsuc n) = false

  abbrev pub api_message : ℤ → Codes → Codes
  api_message n message =
      codes "Bilibili API "
      ++ show n
      ++ codes ": "
      ++ (if codes_empty message then codes "Bilibili API code " ++ show n else message)

  -- The world after the publication is recorded and, where the settings say so, the files are deleted.
  unfoldable pub recorded :
      Option Fields → String → Metadata → String → World → World × Option Codes
  recorded features path metadata bvid w =
      let w1 = record w { database = mark_upload_published path bvid features now w.database } in
      if settings.delete_after_success then cleanup path metadata w1 else (w1, none)

  -- After the submission was accepted with a BVID and the features were read.
  unfoldable pub publish_with : Option Fields → String → Metadata → String → World → Step
  unfolding recorded
  publish_with features path metadata bvid w =
      let (w2, error) = recorded features path metadata bvid w in
      let cleanup_error : Codes = elim error [ none ↦ [] | some e ↦ sanitize e ] in
      finish (record (result published (codes path) cleanup_error 0) { bvid = bvid }) w2

  -- After the submission was accepted with a BVID.
  unfoldable pub publish : String → Metadata → String → World → Step
  unfolding publish_with
  publish path metadata bvid w = elim (read_slice_features w path) [
    | done features ↦ publish_with features path metadata bvid w
    | raised error ↦ (w, raised error)
  ]

  unfoldable pub answered : String → Metadata → Response → World → Step
  unfolding retry_upload publish
  answered path metadata response w = elim (api_code response.code) [
    | done n ↦
        if not (is_zero n)
        then retry_upload path (api_message n response.message) (is_auth_code n) w
        else if str_eq response.bvid ""
        then retry_upload path (codes "Bilibili submission succeeded without a BVID") false w
        else publish path metadata response.bvid w
    | raised error ↦ (w, raised error)
  ]

  unfoldable pub submit_row : String → Metadata → Row → World → Step
  unfolding answered
  submit_row path metadata item w =
      let remote = item.remote_filename in
      let w1 = record (with_queue (client.during_submit w.database.queue) w) {
        calls = w.calls ++ submit remote metadata ∷ [];
      } in
      elim (client.submit_uploaded_video remote metadata) [
        | done response ↦ answered path metadata response w1
        | raised error ↦ (w1, raised error)
      ]

  -- The claim after the upload, which must give the same row.
  unfoldable pub reclaim : String → Metadata → String → World → Step
  unfolding submit_row
  reclaim path metadata remote w =
      let q = (mark_upload_complete path remote now w.database.queue).0 in
      let (q', item) = claim_next_upload now q in
      let lost : Step =
        (with_queue q' w, raised (codes "uploaded item could not transition to publishing")) in
      elim item [
        | none ↦ lost
        | some row ↦
            if str_eq row.video_path path
            then submit_row path metadata row (with_queue q' w)
            else lost
      ]

  unfoldable pub send : String → Metadata → Row → World → Step
  unfolding reclaim submit_row
  send path metadata item w =
      let w1 = record (with_queue (client.during_upload w.database.queue) w) {
        calls = w.calls ++ upload path metadata ∷ [];
      } in
      if same_status item.status Table.Status.uploading
      then elim (client.upload_file path metadata) [
        | done remote ↦ reclaim path metadata remote w1
        | raised error ↦ (w1, raised error)
      ]
      else submit_row path metadata item w

  unfoldable pub claim_and_send : Metadata → World → Step
  unfolding send on_exception
  claim_and_send metadata w =
      let (q, item) = claim_next_upload now w.database.queue in
      elim item [
        | none ↦ finish (result idle [] [] 0) (with_queue q w)
        | some row ↦ on_exception row.video_path (send row.video_path metadata row (with_queue q w))
      ]

  abbrev paused : String → Codes → World → Step
  paused path error w =
      finish (result paused_auth (codes path) error (now + settings.auth_retry_seconds)) w

  -- By the answer of `check_login`.
  unfoldable pub after_login : String → Metadata → Outcome Bool → World → Step
  unfolding claim_and_send
  after_login path metadata (raised error) w = paused path (sanitize error) w
  after_login path metadata (done false) w =
      paused path (codes "Bilibili cookie is not logged in") w
  after_login path metadata (done true) w = claim_and_send metadata w

  unfoldable pub with_login : String → Metadata → World → Step
  unfolding after_login
  with_login path metadata w =
      after_login path metadata client.check_login
        (record (with_queue (client.during_login w.database.queue) w) {
          calls = w.calls ++ login ∷ [];
        })

  unfoldable pub process_one : World → Step
  unfolding with_login
  process_one w = elim (peek_next_upload now w.database.queue) [
    | none ↦ finish (result idle [] [] 0) w
    | some pending ↦
        let path = pending.video_path in
        elim (load_metadata settings w path) [
          | loaded metadata ↦ with_login path metadata w
          | refused error ↦
              let sanitized = sanitize error in
              finish (result failed (codes path) sanitized 0)
                (with_queue (mark_upload_failed path sanitized now w.database.queue).0 w)
        ]
  ]
