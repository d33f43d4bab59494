-- ===== src/UploadWorker/Texts.antt =====
-- Messages of src/upload/worker.py as code points, and `_sanitize_error`, which removes the values of
-- the session cookies from what is stored and shown.
use bilive.Base.{
  ℕ, zero, suc, ◌+◌, ◌-◌, ◌/◌, ◌%◌, ◌≤◌, ◌≡◌, refl, Bool, true, false, List, [], ◌∷◌, ◌++◌, arith,
  ◌==◌, if◌then◌else◌, length, take, length-take, Codes, codes, codes_empty, ltb, ◌&&◌,
}

pub data ℤ : Type 0 where
  pos : ℕ → ℤ
  negsuc : ℕ → ℤ

-- The decimal digits of a number, by as many steps as the number has digits or more.
digits : ℕ → ℕ → Codes → Codes
digits zero n out = out
digits (suc fuel) n out =
    let more = digits fuel (n / 10) ((48 + n % 10) ∷ out) in
    if ltb n 10 then (48 + n) ∷ out else more

unfoldable pub show : ℤ → Codes
unfolding digits
show (pos n) = digits (suc n) n []
show (negsuc n) = 45 ∷ digits (suc (suc n)) (suc n) []

unfoldable pub is_prefix : Codes → Codes → Bool
is_prefix [] text = true
is_prefix (c ∷ cs) [] = false
is_prefix (c ∷ cs) (d ∷ text) = (c == d) && is_prefix cs text

-- str.replace(old, new) for a nonempty `old`; `skip` code points belong to the last occurrence.
unfoldable pub replace_from : Codes → Codes → ℕ → Codes → Codes
unfolding is_prefix
replace_from old new skip [] = []
replace_from old new (suc skip) (c ∷ text) = replace_from old new skip text
replace_from old new zero (c ∷ text) =
    let replaced = new ++ replace_from old new (length old - 1) text in
    let kept = c ∷ replace_from old new 0 text in
    if is_prefix old (c ∷ text) then replaced else kept

abbrev pub redacted : Codes
redacted = codes "[REDACTED]"

unfoldable pub redact_all : List Codes → Codes → Codes
unfolding replace_from
redact_all [] text = text
redact_all (value ∷ values) text =
    redact_all values (if codes_empty value then text else replace_from value redacted 0 text)

unfoldable pub sanitize_error : List Codes → Codes → Codes
unfolding redact_all
sanitize_error sensitive_values error = take 2000 (redact_all sensitive_values error)

-- What is stored of an error is at most 2000 characters long.
length-sanitize_error :
    (values : List Codes) (error : Codes) → length (sanitize_error values error) ≤ 2000
unfolding sanitize_error
length-sanitize_error values error = omega (arith, length-take 2000 (redact_all values error))

show_example : show (negsuc 100) ≡ codes "-101"
unfolding show
show_example = refl

redact_example :
    sanitize_error (codes "tok" ∷ []) (codes "a tok, tok") ≡ codes "a [REDACTED], [REDACTED]"
unfolding sanitize_error
redact_example = refl
