-- ===== src/Performance.antt =====
-- The table `slice_performance` of src/db/conn.py: one row for each published video, written column
-- by column by the feature snapshot at publication and by the later polls of statistics. A row is
-- its key and its cells by column name.
use bilive.Base.{
  ℕ, String, ◌≡◌, refl, Bool, true, false, Option, none, some, List, [], ◌∷◌, ◌++◌, map, inl, inr,
  arith, str_eq, if◌then◌else◌, find, filter_by, any, All, Bool-cases, strip,
}

pub data SqlValue : Type 0 where
  null : SqlValue
  number : ℕ → SqlValue
  text : String → SqlValue

abbrev pub Fields : Type 0
Fields = List (String × SqlValue)

pub record PerformanceRow : Type 0 where
  pub bvid : String
  pub cell : String → SqlValue

abbrev slice_performance_columns : List String
slice_performance_columns =
    "video_path" ∷ "title" ∷ "quality_score" ∷ "completeness_score" ∷ "confidence" ∷ "burst_ratio"
    ∷ "burst_context" ∷ "lag_seconds" ∷ "danmaku_count" ∷ "trim_duration" ∷ "context_start"
    ∷ "context_end" ∷ "view" ∷ "likes" ∷ "coin" ∷ "favorite" ∷ "share" ∷ "reply" ∷ "danmaku"
    ∷ "collected_at" ∷ []

unfoldable pub is_column : String → Bool
is_column key = any (λ column. str_eq column key) slice_performance_columns

-- The defaults of the table definition.
default_cell : String → SqlValue
default_cell column =
    if str_eq column "video_path"
    then text ""
    else if str_eq column "title"
    then text ""
    else if str_eq column "collected_at"
    then number 0
    else null

abbrev pub set_cell : String → SqlValue → (String → SqlValue) → String → SqlValue
set_cell key value cells column = if str_eq key column then value else cells column

unfoldable pub write_cells : Fields → (String → SqlValue) → String → SqlValue
write_cells [] cells = cells
write_cells ((key, value) ∷ fields) cells = write_cells fields (set_cell key value cells)

-- The entries of a dict whose keys are columns.
abbrev pub known_fields : Fields → Fields
known_fields = filter_by (λ field. is_column field.0)

abbrev pub has_bvid : String → PerformanceRow → Bool
has_bvid bvid row = str_eq row.bvid bvid

-- insert … on conflict(bvid) do update set …; with no known field, do nothing.
unfoldable pub upsert_row : String → Fields → List PerformanceRow → List PerformanceRow
unfolding default_cell
upsert_row bvid fields rows =
    if any (has_bvid bvid) rows
    then map
        (λ row.
          if has_bvid bvid row then record row { cell = write_cells fields row.cell } else row)
        rows
    else rows ++ record { bvid = bvid; cell = write_cells fields default_cell } ∷ []

unfoldable pub upsert_slice_performance :
    String → Fields → List PerformanceRow → List PerformanceRow × Bool
upsert_slice_performance bvid fields rows =
    let key = strip bvid in
    if str_eq key "" then (rows, false) else (upsert_row key (known_fields fields) rows, true)

-- The value of a column for a video, if there is a row for it.
unfoldable pub cell_of : String → String → List PerformanceRow → Option SqlValue
cell_of bvid column rows = elim (find (has_bvid bvid) rows) [
  | none ↦ none
  | some row ↦ some (row.cell column)
]

abbrev pub Unnamed : String → Fields → Type 0
Unnamed column = All (λ field. str_eq field.0 column ≡ false)

write_cells-Unnamed :
    (fields : Fields) (cells : String → SqlValue) (column : String)
    → Unnamed column fields
    → write_cells (known_fields fields) cells column ≡ cells column
unfolding write_cells
write_cells-Unnamed [] cells column h = refl
write_cells-Unnamed ((key, value) ∷ fields) cells column h = elim (Bool-cases (is_column key)) [
  | inl t ↦ rw t (rw (write_cells-Unnamed fields (set_cell key value cells) column h.1, h.0) refl)
  | inr f ↦ rw f (write_cells-Unnamed fields cells column h.1)
]

find-upsert :
    (bvid : String) (f : PerformanceRow → PerformanceRow) (rows : List PerformanceRow)
    (row : PerformanceRow)
    → ((r : PerformanceRow) → (f r).bvid ≡ r.bvid)
    → find (has_bvid bvid) rows ≡ some row
    → find (has_bvid bvid) (map (λ r. if has_bvid bvid r then f r else r) rows) ≡ some (f row)
find-upsert bvid f [] row keeps e = absurd (ground arith)
find-upsert bvid f (r ∷ rows) row keeps e = elim (Bool-cases (has_bvid bvid r)) [
  | inl t ↦ ground (arith, keeps r)
  | inr n ↦ ground (arith, find-upsert bvid f rows row keeps (rw n at e))
]

any-find :
    (bvid : String) (rows : List PerformanceRow) (row : PerformanceRow)
    → find (has_bvid bvid) rows ≡ some row
    → any (has_bvid bvid) rows ≡ true
any-find bvid [] row e = absurd (ground arith)
any-find bvid (r ∷ rows) row e = elim (Bool-cases (has_bvid bvid r)) [
  | inl t ↦ ground arith
  | inr n ↦ ground (arith, any-find bvid rows row (rw n at e))
]

written : Fields → PerformanceRow → PerformanceRow
written fields row = record row { cell = write_cells fields row.cell }

cell_of-upsert_row :
    (bvid column : String) (fields : Fields) (rows : List PerformanceRow) (row : PerformanceRow)
    → find (has_bvid bvid) rows ≡ some row
    → Unnamed column fields
    → cell_of bvid column (upsert_row bvid (known_fields fields) rows) ≡ cell_of bvid column rows
unfolding cell_of upsert_row written
cell_of-upsert_row bvid column fields rows row e h = rw (any-find bvid rows row e) (
    rw (find-upsert bvid (written (known_fields fields)) rows row (λ r. refl) e, e, cell_of)
      (rw (write_cells-Unnamed fields row.cell column h) refl))

-- An upsert for a video that has a row leaves every column that it does not name as it was.
pub cell_of-upsert_slice_performance :
    (bvid column : String) (fields : Fields) (rows : List PerformanceRow) (row : PerformanceRow)
    → find (has_bvid (strip bvid)) rows ≡ some row
    → Unnamed column fields
    → cell_of (strip bvid) column (upsert_slice_performance bvid fields rows).0
      ≡ cell_of (strip bvid) column rows
unfolding upsert_slice_performance
cell_of-upsert_slice_performance bvid column fields rows row e h =
    elim (Bool-cases (str_eq (strip bvid) "")) [
      | inl t ↦ rw t refl
      | inr f ↦ rw f (cell_of-upsert_row (strip bvid) column fields rows row e h)
    ]
