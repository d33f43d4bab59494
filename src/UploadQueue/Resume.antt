-- ===== src/UploadQueue/Resume.antt =====
-- The two claims of src/db/conn.py around an upload to the CDN.
use bilive.Base.{
  ℕ, suc, String, ◌≡◌, refl, ap, true, false, some, List, [], ◌∷◌, map, inl, inr, arith, str_eq,
  eq_iff, find, All-find, Bool-cases,
}
use bilive.UploadQueue.Table.{
  uploaded, publishing, Row, Queue, at_path, at_id, update_row, update_where,
}
use bilive.UploadQueue.Consume.{
  due, hold, peek_next_upload, claim_next_upload, mark_upload_complete,
}
use bilive.UploadQueue.Valid.{Ordered, Ordered-find, Distinct, IsValid}
use bilive.UploadQueue.Transactions.{run, claim, complete, run-IsValid}
use bilive.UploadQueue.Claims.{taken, claim_lem}

-- The first due row after an update by id and an update by path of the first due row.
find-after_updates :
    (lo now : ℕ) (rs : List Row) (next : ℕ) (f g : Row → Row) (row : Row)
    → Ordered lo rs next
    → Distinct rs
    → find (due now) rs ≡ some row
    → (f row).video_path ≡ row.video_path
    → due now (g (f row)) ≡ true
    → find
        (due now)
        (map (update_row (at_path row.video_path) g) (map (update_row (at_id row.id) f) rs))
      ≡ some (g (f row))
find-after_updates lo now [] next f g row o d e k due_after = absurd (ground arith)
find-after_updates lo now (r ∷ rs) next f g row o d e k due_after = elim (Bool-cases (due now r)) [
  | inl t ↦ ground (arith, eq_iff (f row).video_path row.video_path)
  | inr n ↦
      let later = Ordered-find (suc r.id) rs next (due now) row o.1 (rw n at e) in
      let apart =
        All-find (λ x. str_eq x.video_path r.video_path ≡ false) (due now) rs row d.0 (rw n at e) in
      let rest =
        find-after_updates (suc r.id) now rs next f g row o.1 d.1 (rw n at e) k due_after in
      ground (
        arith,
        later,
        apart,
        rest,
        eq_iff r.video_path row.video_path,
        eq_iff row.video_path r.video_path,
      )
]

-- The row as the second claim returns it.
abbrev pub sent : String → ℕ → Row → Row
sent remote now row = record row {
  locked = 0;
  status = publishing;
  remote_filename = remote;
  next_attempt_at = 0;
  last_error = [];
  updated_at = now;
}

-- A completed row, before it is claimed again.
abbrev completed : String → ℕ → Row → Row
completed remote now r = record r {
  status = uploaded;
  locked = 0;
  remote_filename = remote;
  next_attempt_at = 0;
  last_error = [];
  updated_at = now;
}

module _ (now : ℕ) (q : Queue) (remote : String) (row : Row) (v : IsValid q)
    (e : peek_next_upload now q ≡ some row) where
  abbrev after_upload : Queue
  after_upload = (mark_upload_complete row.video_path remote now (claim_next_upload now q).0).0

  after_upload-IsValid : IsValid after_upload
  unfolding run
  after_upload-IsValid =
      run-IsValid (run-IsValid v (claim now)) (complete row.video_path remote now)

  peek-after_upload :
      peek_next_upload now after_upload ≡ some (completed remote now (taken now row))
  unfolding peek_next_upload mark_upload_complete update_where
  peek-after_upload = rw (claim_lem now row v e) (
      find-after_updates 0 now q.rows q.next_id (hold now row) (completed remote now) row v.ordered
        v.distinct e refl (ground arith))

  -- When a claim from a valid table has taken a row and its upload is marked complete with no
  -- transaction in between, the next claim at the same time returns that row for publication, with
  -- the remote name that the upload returned.
  pub claim-mark_upload_complete :
      (claim_next_upload now
        (mark_upload_complete row.video_path remote now (claim_next_upload now q).0).0).1
      ≡ some (sent remote now row)
  claim-mark_upload_complete =
      ap (λ x. x.1)
        (claim_lem now (completed remote now (taken now row)) after_upload-IsValid
          peek-after_upload)
