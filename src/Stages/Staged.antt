-- ===== src/Stages/Staged.antt =====
-- The stage of src/burn/pipeline_stages.py that stages an upload, over the table of uploads.
use bilive.Base.{
  eq_refl, codes_eq, codes_empty, ℕ, String, ◌≡◌, refl, Bool, true, false, ◌&&◌, ◌||◌, Option, none,
  some, List, [], ◌∷◌, ◌++◌, map, inl, inr, arith, filter_by, find, Bool-cases, Option-cases,
  str_eq, ◌∙◌, sym, ap,
}
use bilive.UploadQueue.Table.{
  staged, failed, Row, Queue, same_status, at_path, at_id, update_row, update_where, new_row,
  insert_row, same_parts, the_only, shared_match, fetch_item,
}
use bilive.UploadQueue.Supply.{stage_upload_queue}
use bilive.UploadQueue.Retry.{fetch-find}
use bilive.UploadPath.{upload_path_parts}
use bilive.Stages.Queueing.{
  has_status, no_error, StageResult, returned, after_stage, stage_upload_stage, stage_call,
}

abbrev omap : (Row → Row) → Option Row → Option Row
omap u none = none
omap u (some r) = some (u r)

abbrev KeepsPath : (Row → Row) → Type 0
KeepsPath u = (r : Row) → (u r).video_path ≡ r.video_path

find-map :
    (path : String) (u : Row → Row)
    → KeepsPath u
    → (rows : List Row) → find (at_path path) (map u rows) ≡ omap u (find (at_path path) rows)
find-map path u keeps [] = refl
find-map path u keeps (r ∷ rows) =
    let same : at_path path (u r) ≡ at_path path r = ap (λ p. str_eq p path) (keeps r) in
    elim (Bool-cases (at_path path r)) [
      | inl t ↦ let here : at_path path (u r) ≡ true = same ∙ t in rw (here, t) refl
      | inr f ↦
          let here : at_path path (u r) ≡ false = same ∙ f in
          rw (here, f) (find-map path u keeps rows)
    ]

filter_by-map :
    (path : String) (u : Row → Row)
    → KeepsPath u
    → (rows : List Row)
    → filter_by (same_parts path) (map u rows) ≡ map u (filter_by (same_parts path) rows)
filter_by-map path u keeps [] = refl
filter_by-map path u keeps (r ∷ rows) =
    let same : same_parts path (u r) ≡ same_parts path r =
      ap
        (λ p.
          codes_eq (upload_path_parts p).0 (upload_path_parts path).0
          && codes_eq (upload_path_parts p).1 (upload_path_parts path).1)
        (keeps r) in
    elim (Bool-cases (same_parts path r)) [
      | inl t ↦
          let here : same_parts path (u r) ≡ true = same ∙ t in
          rw (here, t) (ap (λ l. u r ∷ l) (filter_by-map path u keeps rows))
      | inr f ↦
          let here : same_parts path (u r) ≡ false = same ∙ f in
          rw (here, f) (filter_by-map path u keeps rows)
    ]

the_only-map : (u : Row → Row) (rows : List Row) → the_only (map u rows) ≡ omap u (the_only rows)
the_only-map u [] = refl
the_only-map u (r ∷ []) = refl
the_only-map u (r ∷ s ∷ rows) = refl

shared_match-map :
    (path : String) (u : Row → Row)
    → KeepsPath u
    → (rows : List Row) → shared_match path (map u rows) ≡ omap u (shared_match path rows)
unfolding shared_match
shared_match-map path u keeps rows =
    elim (Bool-cases
      (codes_empty (upload_path_parts path).0 || codes_empty (upload_path_parts path).1)) [
        | inl t ↦ rw t refl
        | inr f ↦ rw f (
            ap the_only (filter_by-map path u keeps rows)
            ∙ the_only-map u (filter_by (same_parts path) rows))
      ]

fetch_item_missing :
    (path : String) (q : Queue)
    → find (at_path path) q.rows ≡ none
    → fetch_item q path ≡ shared_match path q.rows
unfolding fetch_item
fetch_item_missing path q e = rw (e, fetch_item) refl

fetch_item-update_where :
    (path : String) (p : Row → Bool) (f : Row → Row) (q : Queue)
    → KeepsPath (update_row p f)
    → fetch_item (update_where p f q) path ≡ omap (update_row p f) (fetch_item q path)
unfolding update_where
fetch_item-update_where path p f q keeps =
    let u = update_row p f in
    let moved = find-map path u keeps q.rows in
    elim (Option-cases (find (at_path path) q.rows)) [
      | inr (r, found) ↦
          fetch-find path (update_where p f q) (u r) (moved ∙ ap (omap u) found)
          ∙ sym (ap (omap u) (fetch-find path q r found))
      | inl missing ↦
          fetch_item_missing path (update_where p f q) (moved ∙ ap (omap u) missing)
          ∙ (shared_match-map path u keeps q.rows
              ∙ sym (ap (omap u) (fetch_item_missing path q missing)))
    ]

-- The slice has a row, which is what the stage reports, and staging it again changes nothing.
pub record IsStaged (path : String) (done : Queue × StageResult) : Type 0 where
  pub row : Row
  pub there : fetch_item done.0 path ≡ some row
  pub usable : same_status row.status failed ≡ false
  pub reported : done.1 ≡ record {
    ok = true;
    status = has_status row.status;
    created = done.1.created;
    error = no_error;
  }
  pub once :
      (later : ℕ)
      → stage_upload_stage (stage_call path later) false done.0 ≡ (
        done.0,
        record { ok = true; status = has_status row.status; created = false; error = no_error },
      )

-- Staging where the row is there and did not fail.
stage_call_there :
    (path : String) (now : ℕ) (q : Queue) (row : Row)
    → fetch_item q path ≡ some row
    → same_status row.status failed ≡ false
    → stage_call path now q ≡ (q, returned (some (row, false)))
unfolding stage_call stage_upload_queue
stage_call_there path now q row found usable = rw (found, stage_upload_queue) (rw usable refl)

IsStaged-returned :
    (path : String) (q : Queue) (row : Row) (created : Bool)
    → fetch_item q path ≡ some row
    → same_status row.status failed ≡ false
    → IsStaged path (after_stage (q, returned (some (row, created))))
unfolding stage_upload_stage
IsStaged-returned path q row created found usable = rw usable (record {
  row = row;
  there = found;
  usable = usable;
  reported = refl;
  once = λ later. rw (stage_call_there path later q row found usable) (rw usable refl);
})

str_eq_refl : (s : String) → str_eq s s ≡ true
str_eq_refl s = eq_refl s

find_last :
    (p : Row → Bool) (rows : List Row) (r : Row)
    → find p rows ≡ none
    → p r ≡ true
    → find p (rows ++ r ∷ []) ≡ some r
find_last p [] r e t = rw t refl
find_last p (x ∷ rows) r e t = elim (Bool-cases (p x)) [
  | inl here ↦ let bad : some x ≡ none = rw here at e in absurd cc
  | inr f ↦ rw f (find_last p rows r (rw f at e) t)
]

fetch_item-insert_row :
    (path : String) (now : ℕ) (q : Queue)
    → fetch_item q path ≡ none
    → fetch_item (insert_row path staged now q) path ≡ some (new_row q.next_id path staged now)
unfolding insert_row
fetch_item-insert_row path now q e = elim (Option-cases (find (at_path path) q.rows)) [
  | inr (r, found) ↦ let bad : none ≡ some r = sym e ∙ fetch-find path q r found in absurd cc
  | inl missing ↦
      fetch-find path (insert_row path staged now q) (new_row q.next_id path staged now) (
        find_last (at_path path) q.rows (new_row q.next_id path staged now) missing
          (str_eq_refl path))
]

stage_call_new :
    (path : String) (now : ℕ) (q : Queue)
    → fetch_item q path ≡ none
    → stage_call path now q
      ≡ (insert_row path staged now q, returned (some (new_row q.next_id path staged now, true)))
unfolding stage_call stage_upload_queue
stage_call_new path now q e =
    rw (e, stage_upload_queue) (rw (fetch_item-insert_row path now q e) refl)

-- The row of a failed upload, as staging leaves it.
abbrev restaged : ℕ → Row → Row
restaged now r = record r {
  status = staged;
  locked = 0;
  attempts = 0;
  next_attempt_at = 0;
  last_error = [];
  updated_at = now;
}

abbrev is_failed : Row → Row → Bool
is_failed item r = at_id item.id r && same_status r.status failed

fetch_item-restaged :
    (path : String) (now : ℕ) (q : Queue) (item : Row)
    → fetch_item q path ≡ some item
    → same_status item.status failed ≡ true
    → fetch_item (update_where (is_failed item) (restaged now) q) path ≡ some (restaged now item)
fetch_item-restaged path now q item found t =
    fetch_item-update_where path (is_failed item) (restaged now) q (λ r. ground arith)
    ∙ (ap (omap (update_row (is_failed item) (restaged now))) found ∙ ap some (ground arith))

stage_call_failed :
    (path : String) (now : ℕ) (q : Queue) (item : Row)
    → fetch_item q path ≡ some item
    → same_status item.status failed ≡ true
    → stage_call path now q
      ≡ (update_where (is_failed item) (restaged now) q, returned (some (restaged now item, false)))
unfolding stage_call stage_upload_queue
stage_call_failed path now q item found t =
    rw (found, stage_upload_queue) (rw t (rw (fetch_item-restaged path now q item found t) refl))

-- The stage succeeds whatever the table holds: the slice then has a row that has not failed, the stage
-- reports its status, and staging the slice again leaves the table as it is and creates nothing.
pub stage_upload_stage-IsStaged :
    (path : String) (now : ℕ) (q : Queue)
    → IsStaged path (stage_upload_stage (stage_call path now) false q)
unfolding stage_upload_stage
stage_upload_stage-IsStaged path now q = elim (Option-cases (fetch_item q path)) [
  | inl missing ↦ rw (stage_call_new path now q missing) (
      IsStaged-returned path (insert_row path staged now q) (new_row q.next_id path staged now) true
        (fetch_item-insert_row path now q missing) refl)
  | inr (item, found) ↦ elim (Bool-cases (same_status item.status failed)) [
    | inr f ↦
        rw (stage_call_there path now q item found f) (IsStaged-returned path q item false found f)
    | inl t ↦ rw (stage_call_failed path now q item found t) (
        IsStaged-returned path (update_where (is_failed item) (restaged now) q) (restaged now item)
          false (fetch_item-restaged path now q item found t) refl)
  ]
]
