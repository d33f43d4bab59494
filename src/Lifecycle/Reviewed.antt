-- ===== src/Lifecycle/Reviewed.antt =====
-- `dict.fromkeys` over lists of ids, and two reviews of one recording, in
-- src/dashboard/source_lifecycle.py.
use bilive.Base.{ℕ, ◌≡◌, Bool, false, List, [], ◌∷◌, ◌==◌, any}
use bilive.Lifecycle.Experience.{Experience}

abbrev has : ℕ → List ℕ → Bool
has x xs = any (λ y. y == x) xs

-- No element is among those seen or those before it.
abbrev Fresh : List ℕ → List ℕ → Type 0
Fresh seen [] = Unit
Fresh seen (x ∷ xs) = (has x seen ≡ false) × Fresh (x ∷ seen) xs
