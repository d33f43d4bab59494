-- ===== src/Examples/Statistics.antt =====
-- The theorem on statistics at a concrete table.
use bilive.Base.{refl, some, str_eq, [], if◌then◌else◌, ◌≡◌, ◌∷◌, strip}
use bilive.Performance.{
  null, cell_of-upsert_slice_performance, upsert_slice_performance, cell_of, PerformanceRow, Fields,
  number,
}

abbrev published_row : PerformanceRow
published_row = record {
  bvid = "BV1";
  cell = λ column. if str_eq column "view" then number 7 else null;
}

abbrev snapshot_fields : Fields
snapshot_fields = ("quality_score", number 8) ∷ ("unknown", number 1) ∷ []

cell_of-upsert_slice_performance_example :
    cell_of
      (strip " BV1 ")
      "view"
      (upsert_slice_performance " BV1 " snapshot_fields (published_row ∷ [])).0
    ≡ cell_of (strip " BV1 ") "view" (published_row ∷ [])
unfolding strip
cell_of-upsert_slice_performance_example =
    cell_of-upsert_slice_performance " BV1 " "view" snapshot_fields (published_row ∷ [])
      published_row (λ i. some published_row) (refl, (refl, tt))
