-- ===== src/UploadQueue/Retry.antt =====
-- Repeated failures of one upload under `schedule_upload_retry` of src/db/conn.py.
use bilive.Base.{
  Codes, ℕ, suc, ◌+◌, ◌-◌, ◌*◌, ◌^◌, ◌≤◌, ◌<◌, String, ◌≡◌, refl, ◌∙◌, some, List, [], ◌∷◌, map,
  inl, inr, arith, max, leb, find, length, is_nonempty, Bool-cases,
}
use bilive.UploadQueue.Table.{failed, Row, Queue, at_path, update_row, update_where, fetch_item}
use bilive.UploadQueue.Supply.{resumed_status}
use bilive.UploadQueue.Consume.{retry_row, schedule_upload_retry}

pub find-update_path :
    (path : String) (rs : List Row) (f : Row → Row) (row : Row)
    → find (at_path path) rs ≡ some row
    → (f row).video_path ≡ row.video_path
    → find (at_path path) (map (update_row (at_path path) f) rs) ≡ some (f row)
find-update_path path [] f row e k = absurd (ground arith)
find-update_path path (r ∷ rs) f row e k = elim (Bool-cases (at_path path r)) [
  | inl t ↦ ground arith
  | inr n ↦ ground (arith, find-update_path path rs f row (rw n at e) k)
]

pub fetch-find :
    (path : String) (q : Queue) (row : Row)
    → find (at_path path) q.rows ≡ some row
    → fetch_item q path ≡ some row
unfolding fetch_item
fetch-find path q row e = rw (e, fetch_item)

module _ (path : String) (most base : ℕ) where
  -- One failure after another, each with its message and its time.
  unfoldable pub fail_times : List (Codes × ℕ) → Queue → Queue
  fail_times [] q = q
  fail_times ((error, now) ∷ es) q =
      fail_times es (schedule_upload_retry path error most base now q).0

  abbrev last_time : ℕ → List (Codes × ℕ) → ℕ
  last_time t [] = t
  last_time t ((error, now) ∷ es) = last_time now es

  -- The row at `path` after failures that bring it to `attempts`, the last one at `now`.
  pub record AfterFailures (before : Row) (attempts now : ℕ) (q : Queue) : Type 0 where
    pub row : Row
    pub found : find (at_path path) q.rows ≡ some row
    pub counted : row.attempts ≡ attempts
    pub same_remote : row.remote_filename ≡ before.remote_filename
    pub same_id : row.id ≡ before.id
    pub offered_again :
        attempts < max 1 most
        → (row.status ≡ resumed_status (is_nonempty before.remote_filename))
          × (row.next_attempt_at ≡ now + base * 2 ^ (attempts - 1))
    pub given_up : max 1 most ≤ attempts → (row.status ≡ failed) × (row.locked ≡ 1)

  pub once :
      (error : Codes) (now : ℕ) (q : Queue) (row : Row)
      → find (at_path path) q.rows ≡ some row
      → AfterFailures row
          (row.attempts + 1)
          now
          (schedule_upload_retry path error most base now q).0
  unfolding schedule_upload_retry update_where
  once error now q row e = elim (Bool-cases (leb (max 1 most) (row.attempts + 1))) [
    | inl t ↦
        rw (fetch-find path q row e, schedule_upload_retry)
          (record {
            row = retry_row most base row error now row;
            found =
                find-update_path path q.rows (retry_row most base row error now) row e (rw t refl);
            counted = rw t refl;
            same_remote = rw t refl;
            same_id = rw t refl;
            offered_again = λ below. absurd (ground arith);
            given_up = λ _. rw t (refl, refl);
          })
    | inr f ↦
        rw (fetch-find path q row e, schedule_upload_retry)
          (record {
            row = retry_row most base row error now row;
            found =
                find-update_path path q.rows (retry_row most base row error now) row e (rw f refl);
            counted = rw f refl;
            same_remote = rw f refl;
            same_id = rw f refl;
            offered_again = λ _. rw f (refl, refl);
            given_up = λ reached. absurd (ground arith);
          })
  ]

  -- After n + 1 failures in a row an upload is offered again, later by the doubled back-off and for
  -- publication if its bytes are on the CDN, as long as its attempts are below the limit, and has
  -- failed for good from the limit on.
  pub fail_times-AfterFailures :
      (error : Codes) (now : ℕ) (es : List (Codes × ℕ)) (q : Queue) (row : Row)
      → find (at_path path) q.rows ≡ some row
      → AfterFailures row
          (row.attempts + suc (length es))
          (last_time now es)
          (fail_times ((error, now) ∷ es) q)
  unfolding fail_times
  fail_times-AfterFailures error now [] q row e = once error now q row e
  fail_times-AfterFailures error now ((error', now') ∷ es) q row e =
      let first = once error now q row e in
      let q1 = (schedule_upload_retry path error most base now q).0 in
      let rest = fail_times-AfterFailures error' now' es q1 first.row first.found in
      let counts : first.row.attempts + suc (length es) ≡ row.attempts + suc (suc (length es)) =
        omega (arith, first.counted) in
      record {
        row = rest.row;
        found = rest.found;
        counted = rest.counted ∙ counts;
        same_remote = rest.same_remote ∙ first.same_remote;
        same_id = rest.same_id ∙ first.same_id;
        offered_again = λ below.
            rw (← first.same_remote, ← counts) (rest.offered_again (omega (arith, counts)));
        given_up = λ reached. rest.given_up (omega (arith, counts));
      }
