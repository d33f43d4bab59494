-- ===== src/Edit/Json.antt =====
-- The JSON values that src/autoslice/edit_instruction.py reads and writes. A number is an integer of
-- thousandths, where the source has a float.
use bilive.Base.{String, Bool, Option, none, some, List, [], ◌∷◌, if◌then◌else◌, str_eq}
use bilive.UploadWorker.Texts.{ℤ}

mutual
  pub data Value : Type 0 where
    null : Value
    boolean : Bool → Value
    number : ℤ → Value
    text : String → Value
    array : Values → Value
    object : Fields → Value

  pub data Values : Type 0 where
    no_values : Values
    value_then : Value → Values → Values

  pub data Fields : Type 0 where
    no_fields : Fields
    field_then : String → Value → Fields → Fields

-- data.get(key): the value of the key, if it is there.
unfoldable pub get : String → Fields → Option Value
get key no_fields = none
get key (field_then k v fields) = let rest = get key fields in if str_eq k key then some v else rest

abbrev pub fields_of : List (String × Value) → Fields
fields_of [] = no_fields
fields_of ((k, v) ∷ fields) = field_then k v (fields_of fields)
