-- ===== src/UploadPath.antt =====
-- `_upload_path_parts` of src/db/conn.py: the file name and the directory name of a path, in the
-- reading of pathlib. A path with a backslash is read as a Windows path (drive letters and UNC
-- shares are anchors, which have no name), any other as a POSIX path.
use bilive.Base.{
  ℕ, String, ◌≡◌, refl, Bool, not, ◌&&◌, ◌||◌, List, [], ◌∷◌, ◌==◌, if◌then◌else◌, any, filter_by,
  drop, Codes, codes, codes_empty, codes_eq, split_at,
}
use mathlib.Core.List.{reverse}

abbrev slash : ℕ → Bool
slash c = c == b'/'

abbrev backslash : ℕ → Bool
backslash c = c == 92

-- Empty components and "." vanish in a pure path.
components : (ℕ → Bool) → Codes → List Codes
components sep cs =
    filter_by (λ part. not (codes_empty part) && not (codes_eq part (46 ∷ []))) (split_at sep cs)

windows_sep : ℕ → Bool
windows_sep c = slash c || backslash c

-- The components below the anchor of a Windows path.
windows_parts : Codes → List Codes
windows_parts (c ∷ d ∷ cs) =
    if windows_sep c && windows_sep d
    then drop 2 (components windows_sep cs)
    else if d == 58
    then components windows_sep cs
    else components windows_sep (c ∷ d ∷ cs)
windows_parts cs = components windows_sep cs

-- The last component, and the one before it; either may be empty.
name_and_parent : List Codes → Codes × Codes
name_and_parent [] = ([], [])
name_and_parent (name ∷ []) = (name, [])
name_and_parent (name ∷ parent ∷ rest) = (name, parent)

unfoldable pub upload_path_parts : String → Codes × Codes
unfolding components windows_sep windows_parts name_and_parent split_at codes_eq
upload_path_parts value =
    let cs = codes value in
    name_and_parent (reverse (if any backslash cs then windows_parts cs else components slash cs))

windows_and_posix_agree :
    upload_path_parts "C:\\bilive\\Videos\\7 - up\\a.mp4" ≡ upload_path_parts "/mnt/7 - up/a.mp4"
unfolding upload_path_parts
windows_and_posix_agree = refl

anchor_has_no_name : upload_path_parts "C:\\a.mp4" ≡ (codes "a.mp4", [])
unfolding upload_path_parts
anchor_has_no_name = refl
