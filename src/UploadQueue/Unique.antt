-- ===== src/UploadQueue/Unique.antt =====
-- Rows of the table of src/db/conn.py by their id and by their path.
use bilive.Base.{
  ℕ, suc, ◌≤◌, String, ◌≡◌, refl, Bool, true, some, List, [], ◌∷◌, inl, inr, arith, eq_iff, ◌||◌,
  find, filter_by, All, Bool-cases, Option-cases, codes_empty,
}
use bilive.UploadPath.{upload_path_parts}
use bilive.UploadQueue.Table.{Row, Queue, at_path, fetch_item, shared_match, the_only, same_parts}
use bilive.UploadQueue.Valid.{Ordered, Ordered-find, Absent, Distinct, IsValid}

above :
    (lo : ℕ) (rs : List Row) (next : ℕ) (item : Row)
    → Ordered lo rs next
    → suc item.id ≤ lo
    → All (λ r. r.id ≡ item.id → r ≡ item) rs
above lo [] next item o h = tt
above lo (r ∷ rs) next item o h =
    (λ same. absurd (omega arith), above (suc r.id) rs next item o.1 (omega arith))

pub unique_id :
    (lo : ℕ) (rs : List Row) (next : ℕ) (p : Row → Bool) (item : Row)
    → Ordered lo rs next
    → find p rs ≡ some item
    → All (λ r. r.id ≡ item.id → r ≡ item) rs
unique_id lo [] next p item o e = tt
unique_id lo (r ∷ rs) next p item o e = elim (Bool-cases (p r)) [
  | inl t ↦
      let same : r ≡ item = ground arith in
      (λ _. same, above (suc r.id) rs next item o.1 (rw (← same) (omega arith)))
  | inr f ↦
      let later = Ordered-find (suc r.id) rs next p item o.1 (rw f at e) in
      (λ same. absurd (omega arith), unique_id (suc r.id) rs next p item o.1 (rw f at e))
]

apart :
    (path : String) (rs : List Row) (item : Row)
    → Absent path rs
    → All (λ r. at_path path r ≡ true → r ≡ item) rs
apart path [] item h = tt
apart path (r ∷ rs) item h = (λ t. absurd (ground arith), apart path rs item h.1)

pub unique_path :
    (path : String) (rs : List Row) (item : Row)
    → Distinct rs
    → find (at_path path) rs ≡ some item
    → All (λ r. at_path path r ≡ true → r ≡ item) rs
unique_path path [] item d e = tt
unique_path path (r ∷ rs) item d e = elim (Bool-cases (at_path path r)) [
  | inl t ↦
      let same : r ≡ item = ground arith in
      (λ _. same, apart path rs item (rw ((eq_iff r.video_path path).0 t) at d.0))
  | inr f ↦ (λ t. cc, unique_path path rs item d.1 (rw f at e))
]

the_only-cons : (r item : Row) (rs : List Row) → the_only (r ∷ rs) ≡ some item → r ≡ item
the_only-cons r item [] e = cc
the_only-cons r item (x ∷ rs) e = cc

the_only-find :
    (p : Row → Bool) (rs : List Row) (item : Row)
    → the_only (filter_by p rs) ≡ some item
    → find p rs ≡ some item
the_only-find p [] item e = ground arith
the_only-find p (r ∷ rs) item e = elim (Bool-cases (p r)) [
  | inl t ↦ rw (t, the_only-cons r item (filter_by p rs) (rw t at e)) refl
  | inr f ↦ rw f (the_only-find p rs item (rw f at e))
]

shared_match-find :
    (path : String) (rs : List Row) (item : Row)
    → shared_match path rs ≡ some item
    → find (same_parts path) rs ≡ some item
unfolding shared_match
shared_match-find path rs item e =
    let parts = upload_path_parts path in
    elim (Bool-cases (codes_empty parts.0 || codes_empty parts.1)) [
      | inl t ↦ absurd (cc (rw t at e))
      | inr f ↦ the_only-find (same_parts path) rs item (rw f at e)
    ]

-- What `fetch_item` returns is the first row that passes some test.
pub fetch_item-find :
    (q : Queue) (path : String) (item : Row)
    → fetch_item q path ≡ some item
    → (p : Row → Bool) × (find p q.rows ≡ some item)
unfolding fetch_item
fetch_item-find q path item e = elim (Option-cases (find (at_path path) q.rows)) [
  | inl missing ↦
      (same_parts path, shared_match-find path q.rows item (rw (missing, fetch_item) at e))
  | inr (r, found) ↦ (at_path path, ground arith)
]

-- The row that `fetch_item` returns is the only one with its id.
pub fetch_item_unique :
    (q : Queue) (path : String) (item : Row)
    → IsValid q
    → fetch_item q path ≡ some item
    → All (λ r. r.id ≡ item.id → r ≡ item) q.rows
fetch_item_unique q path item v e =
    let (p, found) = fetch_item-find q path item e in
    unique_id 0 q.rows q.next_id p item v.ordered found
