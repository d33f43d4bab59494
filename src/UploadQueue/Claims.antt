-- ===== src/UploadQueue/Claims.antt =====
-- `claim_next_upload` of src/db/conn.py on well-formed tables.
use bilive.Base.{
  ◌⊎◌, not, filter_by, ℕ, suc, ◌≤◌, ◌≡◌, refl, ap, Bool, true, none, some, List, [], ◌∷◌, map, inl,
  inr, arith, find, find-passes, All, Bool-cases, Option-cases,
}
use bilive.UploadQueue.Table.{
  Status, queued, staged, uploading, uploaded, publishing, published, failed, Row, Queue, at_id,
  update_row, update_where,
}
use bilive.UploadQueue.Consume.{
  claimed_status, claimable, due, hold, claim_row, peek_next_upload, claim_next_upload,
}
use bilive.UploadQueue.Valid.{Ordered, Ordered-find, IsValid}

-- The row that a claim returns: the found row with its new status.
abbrev pub taken : ℕ → Row → Row
taken now row = hold now row row

-- What an update by id makes of the first row that passes a test, where ids ascend.
find-update_id :
    (lo : ℕ) (rs : List Row) (next : ℕ) (p : Row → Bool) (f : Row → Row) (row : Row)
    → Ordered lo rs next
    → find p rs ≡ some row
    → (f row).id ≡ row.id
    → find (at_id row.id) (map (update_row (at_id row.id) f) rs) ≡ some (f row)
find-update_id lo [] next p f row o e k = absurd (ground arith)
find-update_id lo (r ∷ rs) next p f row o e k = elim (Bool-cases (p r)) [
  | inl t ↦ ground arith
  | inr n ↦
      let later = Ordered-find (suc r.id) rs next p row o.1 (rw n at e) in
      let rest = find-update_id (suc r.id) rs next p f row o.1 (rw n at e) k in
      ground (arith, later, rest)
]

pub claim_lem :
    (now : ℕ) {q : Queue} (row : Row)
    → IsValid q
    → peek_next_upload now q ≡ some row
    → claim_next_upload now q ≡ (claim_row now q row, some (taken now row))
unfolding claim_next_upload peek_next_upload update_where
claim_lem now {q} row v e =
    rw (e, claim_next_upload)
      (rw (find-update_id 0 q.rows q.next_id (due now) (hold now row) row v.ordered e refl) refl)

pub find-claim_row :
    (now : ℕ) {q : Queue} (row : Row)
    → IsValid q
    → peek_next_upload now q ≡ some row
    → find (at_id row.id) (claim_row now q row).rows ≡ some (taken now row)
unfolding peek_next_upload update_where
find-claim_row now {q} row v e =
    find-update_id 0 q.rows q.next_id (due now) (hold now row) row v.ordered e refl

-- Where nothing is due a claim changes nothing.
pub claim_idle :
    (now : ℕ) (q : Queue) → peek_next_upload now q ≡ none → claim_next_upload now q ≡ (q, none)
unfolding claim_next_upload peek_next_upload
claim_idle now q e = rw (e, claim_next_upload)

Ordered-le :
    (lo bound now : ℕ) (rs : List Row) (next : ℕ)
    → bound ≤ lo
    → Ordered lo rs next
    → All (λ r. due now r ≡ true → bound ≤ r.id) rs
Ordered-le lo bound now [] next h o = tt
Ordered-le lo bound now (r ∷ rs) next h o =
    (λ _. omega arith, Ordered-le (suc r.id) bound now rs next (omega arith) o.1)

-- No row before the first due row is due.
oldest :
    (lo now : ℕ) (rs : List Row) (next : ℕ) (row : Row)
    → Ordered lo rs next
    → find (due now) rs ≡ some row
    → All (λ r. due now r ≡ true → row.id ≤ r.id) rs
oldest lo now [] next row o e = tt
oldest lo now (r ∷ rs) next row o e = elim (Bool-cases (due now r)) [
  | inl t ↦
      let same : r.id ≡ row.id = ground arith in
      (λ _. omega arith, Ordered-le (suc r.id) row.id now rs next (omega arith) o.1)
  | inr n ↦ (λ t. cc, oldest (suc r.id) now rs next row o.1 (rw n at e))
]

-- What the claim found, and the state of the table and the answer in terms of it.
pub record Found (now : ℕ) (q : Queue) (c : Row) : Type 0 where
  pub row : Row
  pub found : peek_next_upload now q ≡ some row
  pub was_due : due now row ≡ true
  pub returned : c ≡ taken now row
  pub least : All (λ r. due now r ≡ true → c.id ≤ r.id) q.rows
  pub after : (claim_next_upload now q).0 ≡ claim_row now q row

pub claim_next_upload-Found :
    (now : ℕ) (q : Queue) (c : Row)
    → IsValid q
    → (claim_next_upload now q).1 ≡ some c
    → Found now q c
unfolding peek_next_upload
claim_next_upload-Found now q c v e = elim (Option-cases (peek_next_upload now q)) [
  | inl missing ↦ absurd (cc (claim_idle now q missing))
  | inr (row, found) ↦
      let same : c ≡ taken now row = cc (claim_lem now row v found) in
      record {
        row = row;
        found = found;
        was_due = find-passes (due now) q.rows row found;
        returned = same;
        least = rw same (oldest 0 now q.rows q.next_id row v.ordered found);
        after = ap (λ x. x.0) (claim_lem now row v found);
      }
]

abbrev besides : ℕ → Queue → List Row
besides i q = filter_by (λ r. not (at_id i r)) q.rows

-- The answer of a claim and the table after it. The row stood in the table under the id and was due, with
-- the least id of the due rows; the answer is the row with the status that holds it, and stands in the table
-- after the claim; all rows with other ids are the same, in the same order.
pub record Claimed (now : ℕ) (q after : Queue) (c : Row) : Type 0 where
  pub row : Row
  pub stood : find (at_id c.id) q.rows ≡ some row
  pub was_due : due now row ≡ true
  pub least : All (λ r. due now r ≡ true → c.id ≤ r.id) q.rows
  pub held :
      ((row.status ≡ queued) × (c.status ≡ uploading))
      ⊎ ((row.status ≡ uploaded) × (c.status ≡ publishing))
  pub same_video : c.video_path ≡ row.video_path
  pub same_file : c.remote_filename ≡ row.remote_filename
  pub same_attempts : c.attempts ≡ row.attempts
  pub stands : find (at_id c.id) after.rows ≡ some c
  pub others : besides c.id after ≡ besides c.id q
  pub same_next : after.next_id ≡ q.next_id

status_due : (st : Status) → claimable st ≡ true → (st ≡ queued) ⊎ (st ≡ uploaded)
status_due queued e = inl refl
status_due uploaded e = inr refl
status_due staged e = absurd cc
status_due uploading e = absurd cc
status_due publishing e = absurd cc
status_due published e = absurd cc
status_due failed e = absurd cc

held_status :
    (now : ℕ) (row : Row)
    → due now row ≡ true
    → ((row.status ≡ queued) × ((taken now row).status ≡ uploading))
      ⊎ ((row.status ≡ uploaded) × ((taken now row).status ≡ publishing))
held_status now row d = elim (status_due row.status (ground arith)) [
  | inl e ↦ inl (e, ap claimed_status e)
  | inr e ↦ inr (e, ap claimed_status e)
]

besides-update_row :
    (i : ℕ) (f : Row → Row) (rs : List Row)
    → ((r : Row) → (f r).id ≡ r.id)
    → filter_by (λ r. not (at_id i r)) (map (update_row (at_id i) f) rs)
      ≡ filter_by (λ r. not (at_id i r)) rs
besides-update_row i f [] keeps = refl
besides-update_row i f (r ∷ rs) keeps =
    let same = keeps r in ground (arith, besides-update_row i f rs keeps)

-- In a table whose ids ascend, the first due row is what its id finds.
stood_found :
    (lo : ℕ) (rs : List Row) (next : ℕ) (p : Row → Bool) (row : Row)
    → Ordered lo rs next
    → find p rs ≡ some row
    → find (at_id row.id) rs ≡ some row
stood_found lo [] next p row o e = absurd (ground arith)
stood_found lo (r ∷ rs) next p row o e = elim (Bool-cases (p r)) [
  | inl t ↦ ground arith
  | inr n ↦
      let later = Ordered-find (suc r.id) rs next p row o.1 (rw n at e) in
      let rest = stood_found (suc r.id) rs next p row o.1 (rw n at e) in ground (arith, later, rest)
]

-- A claim from a valid table that returns a row returns the due row with the least id, as uploading where
-- it was queued and as publishing where it was uploaded; the table has the returned row under its id, and
-- all rows with other ids are unchanged.
pub claim_next_upload-Claimed :
    (now : ℕ) (q : Queue) (c : Row)
    → IsValid q
    → (claim_next_upload now q).1 ≡ some c
    → Claimed now q (claim_next_upload now q).0 c
unfolding peek_next_upload update_where
claim_next_upload-Claimed now q c v e =
    let f = claim_next_upload-Found now q c v e in
    let same = f.returned in
    record {
      row = f.row;
      stood = rw same (stood_found 0 q.rows q.next_id (due now) f.row v.ordered f.found);
      was_due = f.was_due;
      least = f.least;
      held = rw same (held_status now f.row f.was_due);
      same_video = rw same refl;
      same_file = rw same refl;
      same_attempts = rw same refl;
      stands = rw (f.after, same) (find-claim_row now f.row v f.found);
      others = rw (f.after, same) (besides-update_row f.row.id (hold now f.row) q.rows (λ r. refl));
      same_next = rw f.after refl;
    }
