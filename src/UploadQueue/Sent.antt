-- ===== src/UploadQueue/Sent.antt =====
-- Rows of src/db/conn.py whose bytes are on the CDN.
use bilive.Base.{
  ℕ, ◌≡◌, refl, sym, subst, ◌&&◌, String, Bool, true, false, some, List, [], ◌∷◌, map, inl, inr,
  arith, str_eq, eq_iff, if◌then◌else◌, filter_by, All, All-append, Bool-cases, Option-cases, strip,
  has_text, is_nonempty,
}
use bilive.UploadQueue.Table.{
  Status, staged, queued, uploading, failed, Row, Queue, at_path, at_id, update_row, update_where,
  insert_row, new_row, fetch_item, same_status,
}
use bilive.UploadQueue.Supply.{
  stage_upload_queue, activate_staged_upload, requeue_failed_upload, delete_where, resumed_status,
}
use bilive.UploadQueue.Valid.{IsValid}
use bilive.UploadQueue.Transactions.{Transaction, lock}
use bilive.UploadQueue.Unique.{fetch_item_unique}

-- The status of a row that waits for an upload of its bytes, or is at it.
abbrev pub sends : Status → Bool
sends queued = true
sends uploading = true
sends _ = false

abbrev pub SentRow : Row → Type 0
SentRow r = has_text r.remote_filename ≡ true → sends r.status ≡ false

abbrev pub IsSent : Queue → Type 0
IsSent q = All SentRow q.rows

abbrev pub is_lock : Transaction → Bool
is_lock (lock path locked now) = true
is_lock _ = false

pub has_text-is_nonempty : (s : String) → has_text s ≡ true → is_nonempty s ≡ true
unfolding strip
has_text-is_nonempty s h = elim (Bool-cases (str_eq s "")) [
  | inl t ↦ let k : has_text "" ≡ true = subst (λ x. has_text x ≡ true) ((eq_iff s "").0 t) h in cc
  | inr f ↦ rw f refl
]

pub resumed_sent : (s : String) → has_text s ≡ true → sends (resumed_status (is_nonempty s)) ≡ false
resumed_sent s h = rw (has_text-is_nonempty s h) refl

pub every {ℓ κ} : {A : Type ℓ} (P : A → Type κ) → ((a : A) → P a) → (xs : List A) → All P xs
every P h [] = tt
every P h (x ∷ xs) = (h x, every P h xs)

sent-filter_by : (p : Row → Bool) (rs : List Row) → All SentRow rs → All SentRow (filter_by p rs)
sent-filter_by p [] h = tt
sent-filter_by p (r ∷ rs) h = elim (Bool-cases (p r)) [
  | inl t ↦ rw t (h.0, sent-filter_by p rs h.1)
  | inr f ↦ rw f (sent-filter_by p rs h.1)
]

module _ (p : Row → Bool) (f : Row → Row) where
  sent-update :
      (rs : List Row)
      → All (λ r. p r ≡ true → SentRow r → SentRow (f r)) rs
      → All SentRow rs
      → All SentRow (map (update_row p f) rs)
  sent-update [] keeps h = tt
  sent-update (r ∷ rs) keeps h = elim (Bool-cases (p r)) [
    | inl t ↦ rw t (keeps.0 t h.0, sent-update rs keeps.1 h.1)
    | inr n ↦ rw n (h.0, sent-update rs keeps.1 h.1)
  ]

  pub some-IsSent :
      (q : Queue)
      → All (λ r. p r ≡ true → SentRow r → SentRow (f r)) q.rows
      → IsSent q
      → IsSent (update_where p f q)
  unfolding update_where
  some-IsSent q keeps h = sent-update q.rows keeps h

  pub set-IsSent :
      (q : Queue)
      → ((r : Row) → p r ≡ true → SentRow r → SentRow (f r))
      → IsSent q
      → IsSent (update_where p f q)
  set-IsSent q keeps h = some-IsSent q (every _ keeps q.rows) h

-- An update by id, or by path, that uses columns of the fetched row.
module _ (f : Row → Row) (item : Row) (keeps : SentRow item → SentRow (f item)) where
  only_item :
      (p : Row → Bool) (rs : List Row)
      → All (λ r. p r ≡ true → r ≡ item) rs
      → All (λ r. p r ≡ true → SentRow r → SentRow (f r)) rs
  only_item p [] only = tt
  only_item p (r ∷ rs) only = (
    λ t sent. subst (λ x. SentRow x → SentRow (f x)) (sym (only.0 t)) keeps sent,
    only_item p rs only.1,
  )

  pub by_path :
      (path : String) (rs : List Row)
      → All (λ r. at_path path r ≡ true → r ≡ item) rs
      → All (λ r. at_path path r ≡ true → SentRow r → SentRow (f r)) rs
  by_path path = only_item (at_path path)

  pub by_id :
      (p : Row → Bool) (rs : List Row)
      → ((r : Row) → p r ≡ true → r.id ≡ item.id)
      → All (λ r. r.id ≡ item.id → r ≡ item) rs
      → All (λ r. p r ≡ true → SentRow r → SentRow (f r)) rs
  by_id p [] named only = tt
  by_id p (r ∷ rs) named only = (
    λ t sent. subst (λ x. SentRow x → SentRow (f x)) (sym (only.0 (named r t))) keeps sent,
    by_id p rs named only.1,
  )

pub either-IsSent {ℓ} :
    {A : Type ℓ} (b : Bool) (x y : Queue × A)
    → IsSent x.0
    → IsSent y.0
    → IsSent (if b then x else y).0
either-IsSent true x y hx hy = hx
either-IsSent false x y hx hy = hy

module _ (q : Queue) (v : IsValid q) (h : IsSent q) where
  pub insert-IsSent : (path : String) (st : Status) (now : ℕ) → IsSent (insert_row path st now q)
  unfolding insert_row strip
  insert-IsSent path st now =
      All-append SentRow q.rows (new_row q.next_id path st now ∷ []) h (λ t. cc, tt)

  pub stage-IsSent : (path : String) (now : ℕ) → IsSent (stage_upload_queue path now q).0
  unfolding stage_upload_queue
  stage-IsSent path now = elim (Option-cases (fetch_item q path)) [
    | inl missing ↦ rw (missing, stage_upload_queue) (insert-IsSent path _ now)
    | inr (item, found) ↦
        rw (found, stage_upload_queue)
          (either-IsSent (same_status item.status failed) _ _
            (set-IsSent _ _ q (λ r t sent text. refl) h) h)
  ]

  resume-IsSent :
      (f : Bool → Row → Row) (path : String) (st : Status) (item : Row)
      → ((b : Bool) (r : Row) → (f b r).status ≡ resumed_status b)
      → ((b : Bool) (r : Row) → (f b r).remote_filename ≡ r.remote_filename)
      → fetch_item q path ≡ some item
      → IsSent (
          update_where
            (λ r. at_id item.id r && same_status r.status st)
            (f (has_text item.remote_filename))
            q)
  resume-IsSent f path st item resumes keeps found =
      some-IsSent _ _ q
        (by_id (f (has_text item.remote_filename)) item
          (λ sent text.
            let yet : has_text item.remote_filename ≡ true = rw keeps at text in
            rw (resumes, yet) refl)
          _ q.rows (λ r t. ground arith) (fetch_item_unique q path item v found))
        h

  pub activate-IsSent : (path : String) (now : ℕ) → IsSent (activate_staged_upload path now q).0
  unfolding activate_staged_upload
  activate-IsSent path now = elim (Option-cases (fetch_item q path)) [
    | inl missing ↦ rw (missing, activate_staged_upload) h
    | inr (item, found) ↦
        rw (found, activate_staged_upload)
          (either-IsSent (same_status item.status staged) _ _
            (resume-IsSent
              (λ b r. record r { status = resumed_status b; locked = 0; updated_at = now }) path
              staged item (λ b r. refl) (λ b r. refl) found)
            h)
  ]

  pub requeue-IsSent : (path : String) (now : ℕ) → IsSent (requeue_failed_upload path now q).0
  unfolding requeue_failed_upload
  requeue-IsSent path now = elim (Option-cases (fetch_item q path)) [
    | inl missing ↦ rw (missing, requeue_failed_upload) h
    | inr (item, found) ↦
        rw (found, requeue_failed_upload)
          (either-IsSent (same_status item.status failed) _ _
            (resume-IsSent
              (λ b r. record r {
                status = resumed_status b;
                locked = 0;
                attempts = 0;
                next_attempt_at = 0;
                last_error = [];
                updated_at = now;
              })
              path failed item (λ b r. refl) (λ b r. refl) found)
            h)
  ]

  pub delete-IsSent : (p : Row → Bool) → IsSent (delete_where p q)
  unfolding delete_where
  delete-IsSent p = sent-filter_by _ q.rows h
