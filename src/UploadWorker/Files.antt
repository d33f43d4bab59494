-- ===== src/UploadWorker/Files.antt =====
-- The files beside a video: their paths (src/upload/slice_metadata.py), `_load_metadata` and
-- `_cleanup` of src/upload/worker.py.
use bilive.Base.{
  ℕ, suc, String, ◌≡◌, refl, Bool, true, false, not, Option, none, some, List, [], ◌∷◌, ◌++◌, Codes,
  codes, codes_eq, codes_empty, filter_by, if◌then◌else◌, ◌==◌, ◌||◌, is_space,
}
use mathlib.Core.List.{reverse}
use bilive.Performance.{Fields}
use bilive.UploadWorker.World.{
  Sidecar, Tag, Outcome, done, raised, undecodable, no_tag, one_tag, tags, Metadata, sidecar,
  features, UploadSettings, World,
}

is_separator : ℕ → Bool
is_separator c = (c == b'/') || (c == 92)

-- The reversed path up to and without its suffix; `seen` counts the characters after the dot.
reversed_stem : Codes → ℕ → Codes → Codes
reversed_stem whole seen [] = whole
reversed_stem whole seen (c ∷ []) = whole
reversed_stem whole seen (c ∷ d ∷ rest) =
    let later = reversed_stem whole (suc seen) (d ∷ rest) in
    if is_separator c
    then whole
    else if c == b'.'
    then (if (seen == 0) || is_separator d then whole else d ∷ rest)
    else later

-- Path.with_suffix
unfoldable pub with_suffix : Codes → Codes → Codes
unfolding is_separator reversed_stem
with_suffix suffix path = let r = reverse path in reverse (reversed_stem r 0 r) ++ suffix

unfoldable pub slice_upload_metadata_path : String → Codes
unfolding with_suffix
slice_upload_metadata_path video_path = with_suffix (codes ".upload.json") (codes video_path)

unfoldable pub slice_features_path : String → Codes
unfolding with_suffix
slice_features_path video_path = with_suffix (codes ".features.json") (codes video_path)

abbrev pub is_file : World → Codes → Bool
is_file w path = elim (w.files path) [ none ↦ false | some content ↦ true ]

-- Only OSError and JSONDecodeError are caught; a decoding error goes on.
unfoldable pub read_slice_upload_metadata : World → String → Outcome (Option Sidecar)
read_slice_upload_metadata w video_path = elim (w.files (slice_upload_metadata_path video_path)) [
  | some (sidecar fields) ↦ done (some fields)
  | some (undecodable error) ↦ raised error
  | _ ↦ done none
]

unfoldable pub read_slice_features : World → String → Outcome (Option Fields)
read_slice_features w video_path = elim (w.files (slice_features_path video_path)) [
  | some (features fields) ↦ done (some fields)
  | some (undecodable error) ↦ raised error
  | _ ↦ done none
]

lstrip_codes : Codes → Codes
lstrip_codes [] = []
lstrip_codes (c ∷ cs) = let rest = lstrip_codes cs in if is_space c then rest else c ∷ cs

unfoldable pub strip_codes : Codes → Codes
unfolding lstrip_codes is_space
strip_codes cs = reverse (lstrip_codes (reverse (lstrip_codes cs)))

unfoldable pub join : Codes → List Codes → Codes
join sep [] = []
join sep (text ∷ []) = text
join sep (text ∷ more) = text ++ sep ++ join sep more

abbrev or_default : Codes → Codes → Codes
or_default text other = if codes_empty text then other else text

-- `metadata.get("tag") or "直播切片"`, with a list joined by commas.
tag_text : Tag → Codes
tag_text no_tag = codes "直播切片"
tag_text (one_tag text) = or_default text (codes "直播切片")
tag_text (tags []) = codes "直播切片"
tag_text (tags (t ∷ ts)) =
    join (44 ∷ []) (filter_by (λ text. not (codes_empty (strip_codes text))) (t ∷ ts))

pub data Loaded : Type 0 where
  loaded : Metadata → Loaded
  refused : Codes → Loaded

pub Loaded-ind {ℓ κ} :
    {B : Type ℓ} (P : B → Type κ) (o : Loaded) {m : Metadata → B} {r : Codes → B}
    → ((metadata : Metadata) → o ≡ loaded metadata → P (m metadata))
    → ((error : Codes) → o ≡ refused error → P (r error))
    → P (elim o as (λ _. B) [ loaded metadata ↦ m metadata | refused error ↦ r error ])
Loaded-ind P (loaded metadata) pm pr = pm metadata refl
Loaded-ind P (refused error) pm pr = pr error refl

abbrev metadata_of : UploadSettings → Sidecar → Codes → Metadata
metadata_of settings fields title = record {
  title = title;
  desc = fields.desc;
  tid = settings.tid;
  tag = tag_text fields.tag;
  source = or_default fields.source (codes "https://live.bilibili.com/");
  cover = fields.cover;
  dynamic = fields.dynamic;
  copyright = 2;
}

-- The caller takes a decoding error, a ValueError, as it takes the refusals.
unfoldable pub load_metadata : UploadSettings → World → String → Loaded
unfolding tag_text
load_metadata settings w video_path =
    let path = slice_upload_metadata_path video_path in
    if not (is_file w (codes video_path))
    then refused (codes "video file does not exist: " ++ codes video_path)
    else if not (is_file w path)
    then refused (codes "upload metadata does not exist: " ++ path)
    else elim (read_slice_upload_metadata w video_path) [
      | raised error ↦ refused error
      | done none ↦ refused (codes "upload metadata is invalid: " ++ path)
      | done (some fields) ↦
          let title = strip_codes fields.title in
          if codes_empty title
          then refused (codes "upload metadata title is empty: " ++ path)
          else loaded (metadata_of settings fields title)
    ]

abbrev without : Codes → World → World
without path w = record w { files = λ p. if codes_eq p path then none else w.files p }

-- Path.unlink, with the message of its OSError; a file that is not there is passed over.
abbrev unlink : Codes → World → World × Option Codes
unlink path w =
    if is_file w path
    then elim (w.unlink_error path) [ none ↦ (without path w, none) | some error ↦ (w, some error) ]
    else (w, none)

-- `_cleanup`; the two sidecars are deleted with their errors ignored.
unfoldable pub cleanup : String → Metadata → World → World × Option Codes
cleanup video_path metadata w =
    let video = unlink (codes video_path) w in
    elim video.1 [
      | some error ↦ (video.0, some error)
      | none ↦
          let w1 = (unlink (slice_upload_metadata_path video_path) video.0).0 in
          let w2 = (unlink (slice_features_path video_path) w1).0 in
          if codes_empty metadata.cover then (w2, none) else unlink metadata.cover w2
    ]

sidecar_path_example :
    slice_upload_metadata_path "/v/7.up/a.b.mp4" ≡ codes "/v/7.up/a.b.upload.json"
unfolding slice_upload_metadata_path
sidecar_path_example = refl
