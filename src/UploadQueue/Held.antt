-- ===== src/UploadQueue/Held.antt =====
-- Claimed rows of src/db/conn.py and the transactions of others.
use bilive.Base.{
  ℕ, suc, ◌≤◌, ◌<◌, String, ◌≡◌, ◌≢◌, refl, sym, ◌∙◌, ◌&&◌, Bool, true, false, some, List, [], ◌∷◌,
  map, inl, inr, arith, if◌then◌else◌, find, filter_by, any, All, All-find, All-append, find-passes,
  Bool-cases, Option-cases,
}
use bilive.UploadQueue.Table.{
  Status, staged, queued, uploading, publishing, failed, Row, Queue, at_path, at_id, update_row,
  update_where, insert_row, new_row, fetch_item, same_status,
}
use bilive.UploadQueue.Supply.{
  insert_upload_queue, stage_upload_queue, activate_staged_upload, requeue_failed_upload,
  withdraw_staged_upload, delete_upload_queue, delete_where,
}
use bilive.UploadQueue.Consume.{
  due, claimed_status, hold, claim_row, peek_next_upload, claim_next_upload,
}
use bilive.UploadQueue.Valid.{Ordered, IsValid}
use bilive.UploadQueue.Transactions.{
  Transaction, insert, stage, activate, requeue, withdraw, delete, claim, run, run_all, run-IsValid,
  run_all-IsValid,
}
use bilive.UploadQueue.Claims.{claim_next_upload-Found}

abbrev in_flight : Status → Bool
in_flight uploading = true
in_flight publishing = true
in_flight _ = false

-- The transactions of the pipeline and of the dashboard, and claims.
abbrev pub is_quiet : Transaction → Bool
is_quiet (insert path now) = true
is_quiet (stage path now) = true
is_quiet (activate path now) = true
is_quiet (requeue path now) = true
is_quiet (withdraw path) = true
is_quiet (delete path) = true
is_quiet (claim now) = true
is_quiet _ = false

same_status-eq : (a b : Status) → same_status a b ≡ true → a ≡ b
same_status-eq a b h = ground arith

in_flight-claimed_status : (st : Status) → in_flight (claimed_status st) ≡ true
in_flight-claimed_status st = ground arith

abbrev pub AllQuiet : List Transaction → Type 0
AllQuiet = All (λ t. is_quiet t ≡ true)

Ordered-le_next : (lo : ℕ) (rs : List Row) (next : ℕ) → Ordered lo rs next → lo ≤ next
Ordered-le_next lo [] next o = o
Ordered-le_next lo (r ∷ rs) next o = omega (arith, Ordered-le_next (suc r.id) rs next o.1)

find-lt :
    (lo : ℕ) (rs : List Row) (next : ℕ) (p : Row → Bool) (row : Row)
    → Ordered lo rs next
    → find p rs ≡ some row
    → row.id < next
find-lt lo [] next p row o e = absurd (ground arith)
find-lt lo (r ∷ rs) next p row o e = elim (Bool-cases (p r)) [
  | inl t ↦
      let same : r.id ≡ row.id = ground arith in
      omega (arith, Ordered-le_next (suc r.id) rs next o.1)
  | inr f ↦ find-lt (suc r.id) rs next p row o.1 (rw f at e)
]

module _ (i : ℕ) where
  abbrev HeldRow : Row → Type 0
  HeldRow r = r.id ≡ i → in_flight r.status ≡ true

  record IsHeld (q : Queue) : Type 0 where
    known : i < q.next_id
    held : All HeldRow q.rows

  held-update :
      (p : Row → Bool) (f : Row → Row) (rs : List Row)
      → ((r : Row) → HeldRow r → HeldRow (update_row p f r))
      → All HeldRow rs
      → All HeldRow (map (update_row p f) rs)
  held-update p f [] keeps h = tt
  held-update p f (r ∷ rs) keeps h = (keeps r h.0, held-update p f rs keeps h.1)

  update-IsHeld :
      (p : Row → Bool) (f : Row → Row) {q : Queue}
      → ((r : Row) → HeldRow r → HeldRow (update_row p f r))
      → IsHeld q
      → IsHeld (update_where p f q)
  unfolding update_where
  update-IsHeld p f {q} keeps h = record {
    known = h.known;
    held = held-update p f q.rows keeps h.held;
  }

  held-filter_by : (p : Row → Bool) (rs : List Row) → All HeldRow rs → All HeldRow (filter_by p rs)
  held-filter_by p [] h = tt
  held-filter_by p (r ∷ rs) h = elim (Bool-cases (p r)) [
    | inl t ↦ rw t (h.0, held-filter_by p rs h.1)
    | inr f ↦ rw f (held-filter_by p rs h.1)
  ]

  delete-IsHeld : (p : Row → Bool) {q : Queue} → IsHeld q → IsHeld (delete_where p q)
  unfolding delete_where
  delete-IsHeld p {q} h = record { known = h.known; held = held-filter_by _ q.rows h.held }

  insert-IsHeld :
      (path : String) (st : Status) (now : ℕ) {q : Queue}
      → IsHeld q
      → IsHeld (insert_row path st now q)
  unfolding insert_row
  insert-IsHeld path st now {q} h = record {
    known = omega (arith, h.known);
    held =
        All-append HeldRow q.rows (new_row q.next_id path st now ∷ []) h.held
          (λ same. absurd (omega (arith, h.known)), tt);
  }

  either-IsHeld {ℓ} :
      {A : Type ℓ} (b : Bool) (x y : Queue × A)
      → IsHeld x.0
      → IsHeld y.0
      → IsHeld (if b then x else y).0
  either-IsHeld true x y hx hy = hx
  either-IsHeld false x y hx hy = hy

  -- A row at rest is not a held row, so what rewrites only rows at rest leaves the held row alone.
  at_rest :
      (id : ℕ) (st : Status) (f : Row → Row)
      → in_flight st ≡ false
      → ((r : Row) → (f r).id ≡ r.id)
      → (r : Row) → HeldRow r
      → HeldRow (update_row (λ x. at_id id x && same_status x.status st) f r)
  at_rest id st f rest keeps r h = elim (Bool-cases (at_id id r && same_status r.status st)) [
    | inl t ↦
        rw t (λ same. absurd (ground (arith, h (sym (keeps r) ∙ same), same_status-eq r.status st)))
    | inr n ↦ rw n h
  ]

  stage-IsHeld :
      (path : String) (now : ℕ) (q : Queue) → IsHeld q → IsHeld (stage_upload_queue path now q).0
  unfolding stage_upload_queue
  stage-IsHeld path now q h = elim (Option-cases (fetch_item q path)) [
    | inl missing ↦ rw (missing, stage_upload_queue) (insert-IsHeld path _ now h)
    | inr (item, found) ↦
        rw (found, stage_upload_queue)
          (either-IsHeld (same_status item.status failed) _ _
            (update-IsHeld _ _ (at_rest item.id failed _ refl (λ r. refl)) h) h)
  ]

  activate-IsHeld :
      (path : String) (now : ℕ) (q : Queue)
      → IsHeld q
      → IsHeld (activate_staged_upload path now q).0
  unfolding activate_staged_upload
  activate-IsHeld path now q h = elim (Option-cases (fetch_item q path)) [
    | inl missing ↦ rw (missing, activate_staged_upload) h
    | inr (item, found) ↦
        rw (found, activate_staged_upload)
          (either-IsHeld (same_status item.status staged) _ _
            (update-IsHeld _ _ (at_rest item.id staged _ refl (λ r. refl)) h) h)
  ]

  requeue-IsHeld :
      (path : String) (now : ℕ) (q : Queue) → IsHeld q → IsHeld (requeue_failed_upload path now q).0
  unfolding requeue_failed_upload
  requeue-IsHeld path now q h = elim (Option-cases (fetch_item q path)) [
    | inl missing ↦ rw (missing, requeue_failed_upload) h
    | inr (item, found) ↦
        rw (found, requeue_failed_upload)
          (either-IsHeld (same_status item.status failed) _ _
            (update-IsHeld _ _ (at_rest item.id failed _ refl (λ r. refl)) h) h)
  ]

  withdraw-IsHeld :
      (path : String) (q : Queue) → IsHeld q → IsHeld (withdraw_staged_upload path q).0
  unfolding withdraw_staged_upload
  withdraw-IsHeld path q h = elim (Option-cases (fetch_item q path)) [
    | inl missing ↦ rw (missing, withdraw_staged_upload) h
    | inr (item, found) ↦ rw (found, withdraw_staged_upload) (delete-IsHeld _ h)
  ]

  insert_upload_queue-IsHeld :
      (path : String) (now : ℕ) (q : Queue) → IsHeld q → IsHeld (insert_upload_queue path now q).0
  unfolding insert_upload_queue
  insert_upload_queue-IsHeld path now q h =
      either-IsHeld (any (at_path path) q.rows) _ _ h (insert-IsHeld path queued now h)

  -- A claim puts rows in flight.
  claimed-HeldRow :
      (now : ℕ) (row r : Row) → HeldRow r → HeldRow (update_row (at_id row.id) (hold now row) r)
  claimed-HeldRow now row r h = elim (Bool-cases (at_id row.id r)) [
    | inl t ↦ rw t (λ same. in_flight-claimed_status row.status)
    | inr n ↦ rw n h
  ]

  claim-IsHeld : (now : ℕ) (q : Queue) → IsHeld q → IsHeld (claim_next_upload now q).0
  unfolding claim_next_upload
  claim-IsHeld now q h = elim (Option-cases (find (due now) q.rows)) [
    | inl missing ↦ rw (missing, claim_next_upload) h
    | inr (row, found) ↦
        rw (found, claim_next_upload) (update-IsHeld _ _ (claimed-HeldRow now row) h)
  ]

  run-IsHeld : (t : Transaction) (q : Queue) → is_quiet t ≡ true → IsHeld q → IsHeld (run t q)
  unfolding run delete_upload_queue
  run-IsHeld (insert path now) q quiet h = insert_upload_queue-IsHeld path now q h
  run-IsHeld (stage path now) q quiet h = stage-IsHeld path now q h
  run-IsHeld (activate path now) q quiet h = activate-IsHeld path now q h
  run-IsHeld (requeue path now) q quiet h = requeue-IsHeld path now q h
  run-IsHeld (withdraw path) q quiet h = withdraw-IsHeld path q h
  run-IsHeld (delete path) q quiet h = delete-IsHeld _ h
  run-IsHeld (claim now) q quiet h = claim-IsHeld now q h
  run-IsHeld _ q quiet h = cc

  run_all-IsHeld :
      (ts : List Transaction) (q : Queue) → AllQuiet ts → IsHeld q → IsHeld (run_all ts q)
  unfolding run_all
  run_all-IsHeld [] q quiet h = h
  run_all-IsHeld (t ∷ ts) q quiet h = run_all-IsHeld ts (run t q) quiet.1 (run-IsHeld t q quiet.0 h)

  -- What a claim takes is not held.
  held_ne_due :
      (now : ℕ) (q : Queue) (row : Row) → IsHeld q → peek_next_upload now q ≡ some row → row.id ≢ i
  unfolding peek_next_upload
  held_ne_due now q row h found same =
      let waits = find-passes (due now) q.rows row found in
      let flies = All-find HeldRow (due now) q.rows row h.held found same in ground arith

module _ (now : ℕ) (row : Row) where
  claim_holds :
      (rs : List Row) → All (HeldRow row.id) (map (update_row (at_id row.id) (hold now row)) rs)
  claim_holds [] = tt
  claim_holds (r ∷ rs) = (
    elim (Bool-cases (at_id row.id r)) [
      | inl t ↦ rw t (λ same. in_flight-claimed_status row.status)
      | inr n ↦ rw n (λ same. absurd (ground arith))
    ],
    claim_holds rs,
  )

  claim_row-IsHeld :
      (q : Queue)
      → IsValid q
      → peek_next_upload now q ≡ some row
      → IsHeld row.id (claim_row now q row)
  unfolding update_where peek_next_upload
  claim_row-IsHeld q v found = record {
    known = find-lt 0 q.rows q.next_id (due now) row v.ordered found;
    held = claim_holds q.rows;
  }

-- After a claim from a valid table, whatever the pipeline, the dashboard and other claimants do,
-- and at whatever time, the next claim does not return the row that the first claim returned.
pub claim-ne-claim :
    (now later : ℕ) (q : Queue) (ts : List Transaction) (c d : Row)
    → IsValid q
    → AllQuiet ts
    → (claim_next_upload now q).1 ≡ some c
    → (claim_next_upload later (run_all ts (claim_next_upload now q).0)).1 ≡ some d
    → d.id ≢ c.id
unfolding run
claim-ne-claim now later q ts c d v quiet first second same =
    let one = claim_next_upload-Found now q c v first in
    let valid = run_all-IsValid ts (run-IsValid v (claim now)) in
    let held : IsHeld one.row.id (run_all ts (claim_next_upload now q).0) =
      run_all-IsHeld one.row.id ts _ quiet
        (rw one.after (claim_row-IsHeld now one.row q v one.found)) in
    let two = claim_next_upload-Found later _ d valid second in
    let same_row : two.row.id ≡ one.row.id = cc (one.returned, two.returned) in
    held_ne_due one.row.id later _ two.row held two.found same_row
