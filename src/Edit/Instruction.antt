-- ===== src/Edit/Instruction.antt =====
-- The classes of src/autoslice/edit_instruction.py with their `to_dict` and `from_dict`. What `str` and
-- `float` make of a value that is no text and no number are parameters.
use bilive.Base.{
  min, String, Bool, Option, none, some, List, [], ◌∷◌, if◌then◌else◌, filter_by, has_text, str_eq,
}
use bilive.UploadWorker.Texts.{ℤ, pos, negsuc}
use bilive.Edit.Json.{
  Value, number, text, array, object, Values, no_values, value_then, Fields, no_fields, get,
  fields_of,
}

pub record TrimInstruction : Type 0 where
  pub start : ℤ
  pub end : ℤ
  pub reason : String

pub record TimeRange : Type 0 where
  pub start : ℤ
  pub end : ℤ

pub record EditSegment : Type 0 where
  pub start : ℤ
  pub end : ℤ
  pub type : String
  pub score : ℤ
  pub reason : String

pub record SubtitleEvidence : Type 0 where
  pub start : ℤ
  pub end : ℤ
  pub text : String

pub record DanmakuEvidence : Type 0 where
  pub peak_time : ℤ
  pub density_reason : String

pub record UploadSuggestion : Type 0 where
  pub title : String
  pub description : String
  pub tags : List String

pub data Decision : Type 0 where
  keep review discard : Decision

pub record EditInstruction : Type 0 where
  pub source_video : String
  pub slice_video : String
  pub decision : Decision
  pub confidence : ℤ
  pub trim : TrimInstruction
  pub segments : List EditSegment
  pub subtitle_evidence : List SubtitleEvidence
  pub density_core : TimeRange
  pub context_window : TimeRange
  pub danmaku_evidence : DanmakuEvidence
  pub edit_actions : List String
  pub upload_suggestion : UploadSuggestion
  pub schema_version : String

abbrev pub clamp_score : ℤ → ℤ
clamp_score (pos n) = pos (min 1000 n)
clamp_score (negsuc n) = pos 0

abbrev pub decision_text : Decision → String
decision_text keep = "keep"
decision_text review = "review"
decision_text discard = "drop"

abbrev pub decision_of : String → Decision
decision_of s = if str_eq s "keep" then keep else if str_eq s "drop" then discard else review

-- What Python makes of a value: its `str`, its `float` if there is one, whether it counts as true, and
-- what a loop over it gives. `none` is an exception.
pub record Conversions : Type 0 where
  pub str : Value → String
  pub float : Value → Option ℤ
  pub truth : Value → Bool
  pub items : Value → Option Values

abbrev pub and_then {ℓ κ} : {A : Type ℓ} {B : Type κ} → Option A → (A → Option B) → Option B
and_then none f = none
and_then (some x) f = f x

module _ (py : Conversions) where
  abbrev str_of : Value → String
  str_of (text s) = s
  str_of v = py.str v

  abbrev float_of : ℤ → Value → ℤ
  float_of default (number n) = n
  float_of default v = elim (py.float v) [ none ↦ default | some n ↦ n ]

  -- data.get(key, default), then str or `_as_float`
  unfoldable pub text_at : String → String → Fields → String
  unfolding get
  text_at key default fields = elim (get key fields) [ none ↦ default | some v ↦ str_of v ]

  unfoldable pub number_at : String → ℤ → Fields → ℤ
  unfolding get
  number_at key default fields = elim (get key fields) [
    | none ↦ default
    | some v ↦ float_of default v
  ]

  abbrev fields_in : Value → Option Fields
  fields_in (object fields) = some fields
  fields_in v = if py.truth v then none else some no_fields

  -- data.get(key, {}) or {}, of which the fields are read.
  unfoldable pub object_at : String → Fields → Option Fields
  unfolding get
  object_at key fields = elim (get key fields) [ none ↦ some no_fields | some v ↦ fields_in v ]

  abbrev items_in : Value → Option Values
  items_in (array vs) = some vs
  items_in v = py.items v

  -- The loop over data.get(key, []).
  unfoldable pub array_at : String → Fields → Option Values
  unfolding get
  array_at key fields = elim (get key fields) [ none ↦ some no_values | some v ↦ items_in v ]

  -- The dictionaries of a list, each read by `f`.
  unfoldable pub objects_of {ℓ} : {A : Type ℓ} → (Fields → A) → Values → List A
  objects_of f no_values = []
  objects_of f (value_then (object fields) vs) = f fields ∷ objects_of f vs
  objects_of f (value_then v vs) = objects_of f vs

  unfoldable pub texts_of : Values → List String
  texts_of no_values = []
  texts_of (value_then v vs) = str_of v ∷ texts_of vs

  unfoldable pub trim_from : Fields → TrimInstruction
  unfolding number_at text_at
  trim_from d = record {
    start = number_at "start" (pos 0) d;
    end = number_at "end" (pos 0) d;
    reason = text_at "reason" "" d;
  }

  unfoldable pub range_from : Fields → TimeRange
  unfolding number_at
  range_from d = record { start = number_at "start" (pos 0) d; end = number_at "end" (pos 0) d }

  unfoldable pub segment_from : Fields → EditSegment
  unfolding number_at text_at
  segment_from d = record {
    start = number_at "start" (pos 0) d;
    end = number_at "end" (pos 0) d;
    type = text_at "type" "highlight" d;
    score = clamp_score (number_at "score" (pos 500) d);
    reason = text_at "reason" "" d;
  }

  unfoldable pub subtitle_from : Fields → SubtitleEvidence
  unfolding number_at text_at
  subtitle_from d = record {
    start = number_at "start" (pos 0) d;
    end = number_at "end" (pos 0) d;
    text = text_at "text" "" d;
  }

  unfoldable pub danmaku_from : Fields → DanmakuEvidence
  unfolding number_at text_at
  danmaku_from d = record {
    peak_time = number_at "peak_time" (pos 0) d;
    density_reason = text_at "density_reason" "" d;
  }

  -- Tags that are no list are left out.
  unfoldable pub tags_from : Option Value → List String
  unfolding texts_of
  tags_from (some (array vs)) = texts_of vs
  tags_from _ = []

  unfoldable pub upload_from : Fields → UploadSuggestion
  unfolding text_at tags_from get
  upload_from d = record {
    title = text_at "title" "" d;
    description = text_at "description" "" d;
    tags = tags_from (get "tags" d);
  }

  -- `EditInstruction.from_dict`
  unfoldable pub from_dict : Fields → Option EditInstruction
  unfolding object_at array_at objects_of texts_of trim_from range_from segment_from subtitle_from
      danmaku_from upload_from text_at number_at
  from_dict d = and_then (object_at "trim" d) (λ trim. and_then (array_at "segments" d) (λ segments.
      and_then (array_at "subtitle_evidence" d) (λ subtitles.
        and_then (object_at "density_core" d) (λ core.
          and_then (object_at "context_window" d) (λ window.
            and_then (object_at "danmaku_evidence" d) (λ danmaku.
              and_then (array_at "edit_actions" d) (λ actions.
                and_then (object_at "upload_suggestion" d) (λ upload. some (record {
                  source_video = text_at "source_video" "" d;
                  slice_video = text_at "slice_video" "" d;
                  decision = decision_of (text_at "decision" "review" d);
                  confidence = clamp_score (number_at "confidence" (pos 500) d);
                  trim = trim_from trim;
                  segments = objects_of segment_from segments;
                  subtitle_evidence = objects_of subtitle_from subtitles;
                  density_core = range_from core;
                  context_window = range_from window;
                  danmaku_evidence = danmaku_from danmaku;
                  edit_actions = filter_by has_text (texts_of actions);
                  upload_suggestion = upload_from upload;
                  schema_version = text_at "schema_version" "1.0" d;
                })))))))))

abbrev pub trim_to : TrimInstruction → Fields
trim_to x =
    fields_of (("start", number x.start) ∷ ("end", number x.end) ∷ ("reason", text x.reason) ∷ [])

abbrev pub range_to : TimeRange → Fields
range_to x = fields_of (("start", number x.start) ∷ ("end", number x.end) ∷ [])

abbrev pub segment_to : EditSegment → Fields
segment_to x = fields_of (
    ("start", number x.start)
    ∷ ("end", number x.end)
    ∷ ("type", text x.type)
    ∷ ("score", number x.score)
    ∷ ("reason", text x.reason)
    ∷ [])

abbrev pub subtitle_to : SubtitleEvidence → Fields
subtitle_to x =
    fields_of (("start", number x.start) ∷ ("end", number x.end) ∷ ("text", text x.text) ∷ [])

abbrev pub danmaku_to : DanmakuEvidence → Fields
danmaku_to x =
    fields_of (("peak_time", number x.peak_time) ∷ ("density_reason", text x.density_reason) ∷ [])

unfoldable pub text_values : List String → Values
text_values [] = no_values
text_values (s ∷ ss) = value_then (text s) (text_values ss)

abbrev pub upload_to : UploadSuggestion → Fields
upload_to x = fields_of (
    ("title", text x.title)
    ∷ ("description", text x.description)
    ∷ ("tags", array (text_values x.tags))
    ∷ [])

unfoldable pub object_values {ℓ} : {A : Type ℓ} → (A → Fields) → List A → Values
object_values f [] = no_values
object_values f (x ∷ xs) = value_then (object (f x)) (object_values f xs)

-- `EditInstruction.to_dict`
unfoldable pub to_dict : EditInstruction → Fields
to_dict x = fields_of (
    ("schema_version", text x.schema_version)
    ∷ ("source_video", text x.source_video)
    ∷ ("slice_video", text x.slice_video)
    ∷ ("decision", text (decision_text x.decision))
    ∷ ("confidence", number x.confidence)
    ∷ ("trim", object (trim_to x.trim))
    ∷ ("segments", array (object_values segment_to x.segments))
    ∷ ("subtitle_evidence", array (object_values subtitle_to x.subtitle_evidence))
    ∷ ("density_core", object (range_to x.density_core))
    ∷ ("context_window", object (range_to x.context_window))
    ∷ ("danmaku_evidence", object (danmaku_to x.danmaku_evidence))
    ∷ ("edit_actions", array (text_values x.edit_actions))
    ∷ ("upload_suggestion", object (upload_to x.upload_suggestion))
    ∷ [])
