-- ===== src/Examples/Worker.antt =====
-- The theorems on the upload consumer at a concrete world: a failed video `a.mp4` whose bytes are at
-- Bilibili, and a queued video `b.mp4`.
use bilive.UploadWorker.Delivery.{IsPublished, submit_row-IsPublished}
use bilive.UploadWorker.Files.{strip_codes}
use bilive.UploadQueue.Claims.{taken}
use bilive.UploadQueue.Table
use bilive.UploadQueue.Transactions.{complete}
use bilive.UploadWorker.Files.{
  slice_upload_metadata_path, read_slice_upload_metadata, load_metadata,
}
use bilive.UploadQueue.Supply.{requeue_failed_upload}
use bilive.UploadQueue.Valid.{IsValid}
use bilive.UploadQueue.Consume.{mark_upload_complete, claim_next_upload, peek_next_upload}
use bilive.UploadQueue.Transactions.{run-IsValid, run}
use bilive.Base.{
  ◌++◌, List, codes_eq, ◌⊎◌, strip, ◌≢◌, codes_eq, some, refl, if◌then◌else◌, ◌≡◌, none, [], true,
  arith, false, Option, codes, find, ◌∷◌, Codes, String,
}
use bilive.UploadQueue.Table.{
  at_id, uploading, uploaded, fetch_item, update_where, at_path, queued, new_row, publishing, Queue,
  Row,
}
use bilive.UploadWorker.World.{
  Call, submit, login, sidecar, media, no_tag, ResponseCode, Content, done, World, Sidecar,
  UploadSettings, Metadata, Client,
}
use bilive.UploadWorker.Files.{read_slice_features, slice_features_path}
use bilive.UploadWorker.Process
use bilive.UploadWorker.Texts.{pos}
use bilive.UploadWorker.Protocol.{Protocol, calls-process_one_lem}
use bilive.UploadWorker.Reopened.{publish-reopened}
use bilive.UploadWorker.Races.{calls-process_one, reclaim-orphan}

abbrev video_a : String
video_a = "/v/7.up/a.mp4"

abbrev video_b : String
video_b = "/v/7.up/b.mp4"

abbrev sent_a : Row
sent_a = record (new_row 1 video_a Table.Status.failed 5) { remote_filename = "na"; attempts = 5 }

abbrev queued_b : Row
queued_b = new_row 2 video_b queued 6

abbrev both : Queue
both = record { rows = sent_a ∷ queued_b ∷ []; next_id = 3 }

both-IsValid : IsValid both
both-IsValid = record { ordered = omega arith; distinct = ((refl, tt), (tt, tt)) }

abbrev settings : UploadSettings
settings = record {
  max_attempts = 5;
  retry_base_seconds = 300;
  auth_retry_seconds = 600;
  delete_after_success = false;
  tid = 17;
  sensitive_values = codes "cookie" ∷ [];
}

-- Another process requeues the failed video during the login check.
abbrev requeue : Queue → Queue
requeue q = (requeue_failed_upload video_a 9 q).0

abbrev client : Client
client = record {
  check_login = done true;
  upload_file = λ path metadata. done "nb";
  submit_uploaded_video = λ remote metadata.
      done (record { code = ResponseCode.code (pos 0); message = []; bvid = "BV1" });
  during_login = requeue;
  during_upload = λ q. q;
  during_submit = λ q. q;
}

abbrev fields : Sidecar
fields = record {
  title = codes "b";
  desc = [];
  tag = no_tag;
  source = [];
  cover = [];
  dynamic = [];
}

abbrev files : Codes → Option Content
files path =
    if codes_eq path (codes video_b)
    then some media
    else if codes_eq path (codes "/v/7.up/b.upload.json")
    then some (sidecar fields)
    else none

abbrev world_of : Queue → World
world_of q = record {
  database = record { queue = q; performance = [] };
  files = files;
  unlink_error = λ path. none;
  calls = [];
  status_file = none;
  writes = 0;
  write_error = λ n. some (codes "disk full");
}

abbrev metadata_b : Metadata
metadata_b = record {
  title = codes "b";
  desc = [];
  tid = 17;
  tag = codes "直播切片";
  source = codes "https://live.bilibili.com/";
  cover = [];
  dynamic = [];
  copyright = 2;
}

calls-process_one_lem_example :
    (calls : List Call) × ((Process.process_one settings client 10 (world_of both)).0.calls
      ≡ [] ++ calls)
    × Protocol client.check_login calls
calls-process_one_lem_example = calls-process_one_lem settings client 10 (world_of both)

publish-reopened_example :
    (row : Row) × (find
        (at_path video_b)
        (Process.on_exception settings client 10 video_b (
          Process.publish settings client 10 video_b metadata_b "BV1"
            (world_of both))).0.database.queue.rows
      ≡ some row)
    × (row.status ≢ Table.Status.published)
publish-reopened_example =
    publish-reopened settings client 10 video_b metadata_b "BV1" (world_of both) (codes "disk full")
      queued_b refl refl

abbrev requeued_a : Row
requeued_a = record sent_a {
  status = publishing;
  attempts = 0;
  next_attempt_at = 0;
  updated_at = 10;
}

calls-process_one_example :
    (Process.process_one settings client 10 (world_of both)).0.calls
    ≡ login ∷ submit "na" metadata_b ∷ []
unfolding peek_next_upload load_metadata read_slice_upload_metadata slice_upload_metadata_path
    claim_next_upload update_where requeue_failed_upload fetch_item codes_eq strip_codes strip
calls-process_one_example =
    calls-process_one settings client 10 (world_of both) queued_b _ metadata_b refl refl refl refl
      refl

-- `a.mp4`, already requeued, is claimed where `b.mp4` was expected.
abbrev raced : Queue
raced = record {
  rows =
      record sent_a { status = uploaded; attempts = 0 }
      ∷ record queued_b { status = uploading }
      ∷ [];
  next_id = 3;
}

raced-IsValid : IsValid raced
raced-IsValid = record { ordered = omega arith; distinct = ((refl, tt), (tt, tt)) }

abbrev claimed_a : Row
claimed_a = taken 10 (record sent_a { status = uploaded; attempts = 0 })

reclaim-orphan_example :
    (find
        (at_id 1)
        (Process.on_exception settings client 10 video_b (
          Process.reclaim settings client 10 video_b metadata_b "nb"
            (world_of raced))).0.database.queue.rows
      ≡ some claimed_a)
    × ((claimed_a.status ≡ uploading) ⊎ (claimed_a.status ≡ publishing))
    × ((Process.on_exception settings client 10 video_b
          (Process.reclaim settings client 10 video_b metadata_b "nb" (world_of raced))).0.calls
        ≡ [])
unfolding claim_next_upload update_where mark_upload_complete run
reclaim-orphan_example =
    reclaim-orphan settings client 10 video_b metadata_b "nb" (world_of raced) claimed_a
      (run-IsValid raced-IsValid (complete video_b "nb" 10)) refl refl

abbrev quiet_world : World
quiet_world = record (world_of both) { write_error = λ n. none }

submit_row-IsPublished_example : IsPublished video_b "BV1" (submit "nb" metadata_b ∷ []) (
    Process.submit_row settings client 10 video_b metadata_b
      (record queued_b { remote_filename = "nb" })
      quiet_world)
unfolding read_slice_features slice_features_path codes_eq
submit_row-IsPublished_example =
    submit_row-IsPublished settings client 10 video_b metadata_b
      (record queued_b { remote_filename = "nb" }) queued_b
      (record { code = ResponseCode.code (pos 0); message = []; bvid = "BV1" }) none quiet_world
      refl refl refl refl refl refl
