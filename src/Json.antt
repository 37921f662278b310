-- ===== src/Json.antt =====
-- JSON values as encoding/json holds them in an `any`, and the typed reads that the source makes.
-- A number is the decimal of its literal, mantissa / 10 ^ scale, without the rounding to float64.
-- In a map, keys are matched exactly, and of two equal keys the later one counts. In the structs of the
-- client's files they are matched by `reads_as`, one field after another; in those of a body that the
-- broker or the upstream API answers, exactly.
pub mod Printing
use ccbroker.Base.{
  eqb, to_lower, same_codes, codes, map, if◌then◌else◌, ℕ, zero, suc, ◌^◌, String, Bool, false,
  Option, none, some, List, [], ◌∷◌, ℤ, pos, quot, Dict, lookup, insert,
}

pub record Decimal : Type 0 where
  pub mantissa : ℤ
  pub scale : ℕ

-- int64(v) of a float64: towards zero
unfoldable pub to_int : Decimal → ℤ
unfolding quot
to_int d = quot d.mantissa (10 ^ d.scale)

-- float64(n)
abbrev pub of_int : ℤ → Decimal
of_int n = record { mantissa = n; scale = 0 }

mutual
  pub data Fields : Type 0 where
    field : String → Value → Fields → Fields
    no_fields : Fields

  pub data Items : Type 0 where
    item : Value → Items → Items
    no_items : Items

  pub data Value : Type 0 where
    object : Fields → Value
    array : Items → Value
    text : String → Value
    number : Decimal → Value
    boolean : Bool → Value
    null : Value

abbrev pub fill : Dict Value → Fields → Dict Value
fill d no_fields = d
fill d (field k v fs) = fill (insert k v d) fs

-- Go's folding of a key: the case of ASCII, the long s and the Kelvin sign
abbrev fold_code : ℕ → ℕ
fold_code c = if eqb c 383 then 115 else if eqb c 8490 then 107 else to_lower c

-- A key of an object fills the field of a struct with this tag.
unfoldable pub reads_as : String → String → Bool
reads_as tag key = same_codes (map fold_code (codes tag)) (map fold_code (codes key))

-- the map[string]any of an object
unfoldable pub to_dict : Fields → Dict Value
to_dict fs = fill [] fs

-- A map as an object, whose lookups are those of the map.
abbrev of_dict_before : Fields → Dict Value → Fields
of_dict_before fs [] = fs
of_dict_before fs ((k, v) ∷ d) = of_dict_before (field k v fs) d

unfoldable pub of_dict : Dict Value → Fields
of_dict d = of_dict_before no_fields d

-- []any of strings
abbrev pub texts : List String → Items
texts [] = no_items
texts (s ∷ ss) = item (text s) (texts ss)

abbrev as_text : Option Value → String
as_text (some (text s)) = s
as_text _ = ""

-- s, _ := m[k].(string)
unfoldable pub text_at : Dict Value → String → String
text_at d k = as_text (lookup k d)

-- A field of a struct: its zero value where it is absent or null, an error where its type differs.
abbrev pub read_text : Option Value → Option String
read_text none = some ""
read_text (some null) = some ""
read_text (some (text s)) = some s
read_text _ = none

abbrev pub read_bool : Option Value → Option Bool
read_bool none = some false
read_bool (some null) = some false
read_bool (some (boolean b)) = some b
read_bool _ = none

abbrev unscaled : ℤ → ℕ → Option ℤ
unscaled m zero = some m
unscaled m (suc s) = none

-- an int64 field: the literal has no fraction
abbrev pub read_int : Option Value → Option ℤ
read_int none = some (pos 0)
read_int (some null) = some (pos 0)
read_int (some (number d)) = unscaled d.mantissa d.scale
read_int _ = none

abbrev pub read_struct : Option Value → Option (Dict Value)
read_struct none = some []
read_struct (some null) = some []
read_struct (some (object fs)) = some (to_dict fs)
read_struct _ = none
