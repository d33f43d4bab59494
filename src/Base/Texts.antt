-- ===== src/Base/Texts.antt =====
-- Texts: code points, Python's `str.strip`, and lists of code points compared and split.
use Prim.Native.Nat.{ℕ}
use Prim.Native.Char.{code}
use Prim.Native.String.{String}
use mathlib.Core.Path.{◌≡◌, refl}
use mathlib.Core.Logic.{◌↔◌}
use mathlib.Core.Bool.{Bool, true, false, not, ◌&&◌, ◌||◌}
use mathlib.Core.List.{List, [], ◌∷◌}
use native.Mathlib.Omega.{arith}
use text.Mathlib.Text.{◌==◌ as str_eq}
use bilive.Base.Tests.{◌==◌, leb, if◌then◌else◌}

abbrev pub Codes : Type 0
Codes = List ℕ

abbrev pub codes : String → Codes
codes String.[] = []
codes (String.◌∷◌ c s) = code c ∷ codes s

-- The code points for which Python's `str.isspace` holds.
unfoldable pub is_space : ℕ → Bool
is_space c =
    (leb 9 c && leb c 13)
    || (leb 28 c && leb c 32)
    || (c == 133)
    || (c == 160)
    || (c == 5760)
    || (leb 8192 c && leb c 8202)
    || (c == 8232)
    || (c == 8233)
    || (c == 8239)
    || (c == 8287)
    || (c == 12288)

pub lstrip : String → String
lstrip String.[] = ""
lstrip (String.◌∷◌ c s) = let rest = lstrip s in if is_space (code c) then rest else String.◌∷◌ c s

pub rstrip : String → String
rstrip String.[] = ""
rstrip (String.◌∷◌ c s) =
    let rest = rstrip s in if is_space (code c) && str_eq rest "" then "" else String.◌∷◌ c rest

unfoldable pub strip : String → String
unfolding is_space lstrip rstrip
strip s = lstrip (rstrip s)

-- `bool(s)` and `bool(s.strip())`.
abbrev pub is_nonempty : String → Bool
is_nonempty s = not (str_eq s "")

abbrev pub has_text : String → Bool
has_text s = is_nonempty (strip s)

unfoldable pub codes_eq : Codes → Codes → Bool
codes_eq [] [] = true
codes_eq (a ∷ as') (b ∷ bs) = (a == b) && codes_eq as' bs
codes_eq _ _ = false

pub codes_eq_iff : (a b : Codes) → (codes_eq a b ≡ true) ↔ (a ≡ b)
unfolding codes_eq
codes_eq_iff [] [] = (λ _. refl, λ _. refl)
codes_eq_iff [] (b ∷ bs) = ground arith
codes_eq_iff (a ∷ as') [] = ground arith
codes_eq_iff (a ∷ as') (b ∷ bs) = ground (arith, codes_eq_iff as' bs)

abbrev pub cons_head : ℕ → List Codes → List Codes
cons_head c [] = (c ∷ []) ∷ []
cons_head c (part ∷ parts) = (c ∷ part) ∷ parts

-- Splitting at every code point that passes a test.
unfoldable pub split_at : (ℕ → Bool) → Codes → List Codes
split_at p [] = [] ∷ []
split_at p (c ∷ cs) = let rest = split_at p cs in if p c then [] ∷ rest else cons_head c rest

abbrev pub codes_empty : Codes → Bool
codes_empty [] = true
codes_empty (c ∷ cs) = false

strip_example : strip "  a b\n" ≡ "a b"
unfolding strip
strip_example = refl
