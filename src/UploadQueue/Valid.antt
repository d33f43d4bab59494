-- ===== src/UploadQueue/Valid.antt =====
-- The well-formedness of the table of src/db/conn.py: its ids ascend below the next id, and its
-- paths are unique.
use bilive.Base.{
  ℕ, suc, ◌≤◌, String, ◌≡◌, Bool, false, not, none, some, List, [], ◌∷◌, ◌++◌, map, inl, inr, arith,
  str_eq, eq_iff, find, filter_by, any, All, Bool-cases,
}
use bilive.UploadQueue.Table.{
  Status, Row, Queue, at_path, update_row, update_where, new_row, insert_row,
}
use bilive.UploadQueue.Supply.{delete_where}

-- Ids ascend strictly from `lo` on and stay below `next`.
abbrev pub Ordered : ℕ → List Row → ℕ → Type 0
Ordered lo [] next = lo ≤ next
Ordered lo (r ∷ rs) next = (lo ≤ r.id) × Ordered (suc r.id) rs next

abbrev pub Absent : String → List Row → Type 0
Absent path = All (λ r. str_eq r.video_path path ≡ false)

abbrev pub Distinct : List Row → Type 0
Distinct [] = Unit
Distinct (r ∷ rs) = Absent r.video_path rs × Distinct rs

pub record IsValid (q : Queue) : Type 0 where
  pub ordered : Ordered 0 q.rows q.next_id
  pub distinct : Distinct q.rows

-- An update that rewrites neither the id nor the path.
abbrev pub KeepsKey : (Row → Row) → Type 0
KeepsKey f = (r : Row) → ((f r).id ≡ r.id) × ((f r).video_path ≡ r.video_path)

Ordered-weaken :
    (lo lo' : ℕ) (rs : List Row) (next : ℕ) → lo' ≤ lo → Ordered lo rs next → Ordered lo' rs next
Ordered-weaken lo lo' [] next h o = omega arith
Ordered-weaken lo lo' (r ∷ rs) next h o = (omega arith, o.1)

pub Ordered-find :
    (lo : ℕ) (rs : List Row) (next : ℕ) (p : Row → Bool) (row : Row)
    → Ordered lo rs next
    → find p rs ≡ some row
    → lo ≤ row.id
Ordered-find lo [] next p row o e = absurd (ground arith)
Ordered-find lo (r ∷ rs) next p row o e = elim (Bool-cases (p r)) [
  | inl t ↦ ground arith
  | inr f ↦ ground (arith, Ordered-find (suc r.id) rs next p row o.1)
]

module _ (p : Row → Bool) (f : Row → Row) (keeps : KeepsKey f) where
  Ordered-update :
      (lo : ℕ) (rs : List Row) (next : ℕ)
      → Ordered lo rs next
      → Ordered lo (map (update_row p f) rs) next
  Ordered-update lo [] next o = o
  Ordered-update lo (r ∷ rs) next o = elim (Bool-cases (p r)) [
    | inl t ↦ rw (t, (keeps r).0) (o.0, Ordered-update (suc r.id) rs next o.1)
    | inr n ↦ rw n (o.0, Ordered-update (suc r.id) rs next o.1)
  ]

  Absent-update :
      (path : String) (rs : List Row) → Absent path rs → Absent path (map (update_row p f) rs)
  Absent-update path [] h = tt
  Absent-update path (r ∷ rs) h = elim (Bool-cases (p r)) [
    | inl t ↦ rw (t, (keeps r).1) (h.0, Absent-update path rs h.1)
    | inr n ↦ rw n (h.0, Absent-update path rs h.1)
  ]

  Distinct-update : (rs : List Row) → Distinct rs → Distinct (map (update_row p f) rs)
  Distinct-update [] h = tt
  Distinct-update (r ∷ rs) h = elim (Bool-cases (p r)) [
    | inl t ↦ rw (t, (keeps r).1) (Absent-update r.video_path rs h.0, Distinct-update rs h.1)
    | inr n ↦ rw n (Absent-update r.video_path rs h.0, Distinct-update rs h.1)
  ]

  pub update_where-IsValid : {q : Queue} → IsValid q → IsValid (update_where p f q)
  unfolding update_where
  update_where-IsValid {q} v = record {
    ordered = Ordered-update 0 q.rows q.next_id v.ordered;
    distinct = Distinct-update q.rows v.distinct;
  }

Ordered-snoc :
    (lo : ℕ) (rs : List Row) (next : ℕ) (path : String) (st : Status) (now : ℕ)
    → Ordered lo rs next
    → Ordered lo (rs ++ new_row next path st now ∷ []) (suc next)
Ordered-snoc lo [] next path st now o = (o, omega arith)
Ordered-snoc lo (r ∷ rs) next path st now o = (o.0, Ordered-snoc (suc r.id) rs next path st now o.1)

Absent-snoc :
    (path : String) (rs : List Row) (new : Row)
    → Absent path rs
    → str_eq new.video_path path ≡ false
    → Absent path (rs ++ new ∷ [])
Absent-snoc path [] new h e = (e, tt)
Absent-snoc path (r ∷ rs) new h e = (h.0, Absent-snoc path rs new h.1 e)

Distinct-snoc :
    (rs : List Row) (new : Row) → Distinct rs → Absent new.video_path rs → Distinct (rs ++ new ∷ [])
Distinct-snoc [] new h k = (tt, tt)
Distinct-snoc (r ∷ rs) new h k = (
  Absent-snoc r.video_path rs new h.0
      (ground (arith, eq_iff r.video_path new.video_path, eq_iff new.video_path r.video_path, k.0)),
  Distinct-snoc rs new h.1 k.1,
)

pub insert_row-IsValid :
    (path : String) (st : Status) (now : ℕ) {q : Queue}
    → IsValid q
    → Absent path q.rows
    → IsValid (insert_row path st now q)
unfolding insert_row
insert_row-IsValid path st now {q} v absent = record {
  ordered = Ordered-snoc 0 q.rows q.next_id path st now v.ordered;
  distinct = Distinct-snoc q.rows (new_row q.next_id path st now) v.distinct absent;
}

-- A search that finds nothing.
pub Absent-of_find :
    (path : String) (rs : List Row) → find (at_path path) rs ≡ none → Absent path rs
Absent-of_find path [] e = tt
Absent-of_find path (r ∷ rs) e = elim (Bool-cases (at_path path r)) [
  | inl t ↦ absurd (ground arith)
  | inr f ↦ (f, Absent-of_find path rs (rw f at e))
]

pub Absent-of_any : (path : String) (rs : List Row) → any (at_path path) rs ≡ false → Absent path rs
Absent-of_any path [] e = tt
Absent-of_any path (r ∷ rs) e = (ground arith, Absent-of_any path rs (ground arith))

module _ (p : Row → Bool) where
  Ordered-filter_by :
      (lo : ℕ) (rs : List Row) (next : ℕ) → Ordered lo rs next → Ordered lo (filter_by p rs) next
  Ordered-filter_by lo [] next o = o
  Ordered-filter_by lo (r ∷ rs) next o = elim (Bool-cases (p r)) [
    | inl t ↦ rw t (o.0, Ordered-filter_by (suc r.id) rs next o.1)
    | inr f ↦ rw f (
        Ordered-weaken (suc r.id) lo (filter_by p rs) next (omega (arith, o.0))
          (Ordered-filter_by (suc r.id) rs next o.1))
  ]

  Absent-filter_by : (path : String) (rs : List Row) → Absent path rs → Absent path (filter_by p rs)
  Absent-filter_by path [] h = tt
  Absent-filter_by path (r ∷ rs) h = elim (Bool-cases (p r)) [
    | inl t ↦ rw t (h.0, Absent-filter_by path rs h.1)
    | inr f ↦ rw f (Absent-filter_by path rs h.1)
  ]

  Distinct-filter_by : (rs : List Row) → Distinct rs → Distinct (filter_by p rs)
  Distinct-filter_by [] h = tt
  Distinct-filter_by (r ∷ rs) h = elim (Bool-cases (p r)) [
    | inl t ↦ rw t (Absent-filter_by r.video_path rs h.0, Distinct-filter_by rs h.1)
    | inr f ↦ rw f (Distinct-filter_by rs h.1)
  ]

pub delete_where-IsValid : (p : Row → Bool) {q : Queue} → IsValid q → IsValid (delete_where p q)
unfolding delete_where
delete_where-IsValid p {q} v = record {
  ordered = Ordered-filter_by (λ r. not (p r)) 0 q.rows q.next_id v.ordered;
  distinct = Distinct-filter_by (λ r. not (p r)) q.rows v.distinct;
}
