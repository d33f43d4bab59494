-- ===== src/UploadWorker/World.antt =====
-- What one cycle of the upload consumer reads and writes: the database, the files beside a video,
-- the calls of the Bilibili client, the status file, and the settings of src/upload/models.py.
use bilive.Base.{refl, ◌≡◌, ℕ, String, Codes, Bool, Option, List}
use bilive.UploadQueue.Table.{Queue}
use bilive.Performance.{PerformanceRow, Fields}
use bilive.UploadWorker.Texts.{ℤ}

pub record Database : Type 0 where
  pub queue : Queue
  pub performance : List PerformanceRow

-- The `tag` of a metadata sidecar: absent, a text, or a list.
pub data Tag : Type 0 where
  no_tag : Tag
  one_tag : Codes → Tag
  tags : List Codes → Tag

-- The fields of a metadata sidecar, after `str(… or "")`.
pub record Sidecar : Type 0 where
  pub title : Codes
  pub desc : Codes
  pub tag : Tag
  pub source : Codes
  pub cover : Codes
  pub dynamic : Codes

pub record Metadata : Type 0 where
  pub title : Codes
  pub desc : Codes
  pub tid : ℕ
  pub tag : Codes
  pub source : Codes
  pub cover : Codes
  pub dynamic : Codes
  pub copyright : ℕ

-- What a file holds, as the consumer reads it: a file that is not UTF-8 has the message of its
-- UnicodeDecodeError.
pub data Content : Type 0 where
  media : Content
  sidecar : Sidecar → Content
  features : Fields → Content
  undecodable : Codes → Content
  unreadable : Content

pub data UploadStatus : Type 0 where
  idle failed paused_auth retry published : UploadStatus

pub record UploadResult : Type 0 where
  pub status : UploadStatus
  pub video_path : Codes
  pub bvid : String
  pub error : Codes
  pub next_attempt_at : ℕ

pub record UploadSettings : Type 0 where
  pub max_attempts : ℕ
  pub retry_base_seconds : ℕ
  pub auth_retry_seconds : ℕ
  pub delete_after_success : Bool
  pub tid : ℕ
  pub sensitive_values : List Codes

-- What the call of another component gives: a value, or an exception with its message.
pub data Outcome {ℓ} (A : Type ℓ) : Type ℓ where
  done : A → Outcome A
  raised : Codes → Outcome A

pub Outcome-ind {ℓ κ μ} :
    {A : Type ℓ} {B : Type κ} (P : B → Type μ) (o : Outcome A) {d : A → B} {r : Codes → B}
    → ((a : A) → o ≡ done a → P (d a))
    → ((error : Codes) → o ≡ raised error → P (r error))
    → P (elim o as (λ _. B) [ done a ↦ d a | raised error ↦ r error ])
Outcome-ind P (done a) pd pr = pd a refl
Outcome-ind P (raised error) pd pr = pr error refl

-- `response.get("code", -1)`: absent, an integer, or a value that `int` refuses with a message.
pub data ResponseCode : Type 0 where
  absent : ResponseCode
  code : ℤ → ResponseCode
  malformed : Codes → ResponseCode

-- A response of the submission; `bvid` is empty where `data` is no object or has none.
pub record Response : Type 0 where
  pub code : ResponseCode
  pub message : Codes
  pub bvid : String

-- The client of src/upload/bilibili_runtime.py and the rest of the system during its calls: what
-- each call answers, and what other processes commit to the queue while the call is under way.
pub record Client : Type 0 where
  pub check_login : Outcome Bool
  pub upload_file : String → Metadata → Outcome String
  pub submit_uploaded_video : String → Metadata → Outcome Response
  pub during_login : Queue → Queue
  pub during_upload : Queue → Queue
  pub during_submit : Queue → Queue

pub data Call : Type 0 where
  login : Call
  upload : String → Metadata → Call
  submit : String → Metadata → Call

pub record StatusFile : Type 0 where
  pub result : UploadResult
  pub total : ℕ
  pub last_successful_bvid : String

-- `write_error n` is the message with which the n-th write of the status file fails, if it does;
-- `unlink_error path` that with which a file cannot be deleted.
pub record World : Type 0 where
  pub database : Database
  pub files : Codes → Option Content
  pub unlink_error : Codes → Option Codes
  pub calls : List Call
  pub status_file : Option StatusFile
  pub writes : ℕ
  pub write_error : ℕ → Option Codes
