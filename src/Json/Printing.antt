-- ===== src/Json/Printing.antt =====
-- A map that is written as an object is read back with the same lookups.
use ccbroker.Base.{
  String, ◌==◌, ◌≡◌, refl, ◌∙◌, ap, Option, none, some, [], ◌∷◌, Dict, lookup, lookup-insert,
  if◌then◌else◌,
}
use ccbroker.Json.{Value, Fields, field, no_fields, fill, to_dict, of_dict, of_dict_before}

-- the last field with a key, or else `o`
abbrev found : String → Fields → Option Value → Option Value
found k no_fields o = o
found k (field j v fs) o = found k fs (if j == k then some v else o)

lookup-fill :
    (k : String) (fs : Fields) (d : Dict Value) → lookup k (fill d fs) ≡ found k fs (lookup k d)
lookup-fill k no_fields d = refl
lookup-fill k (field j v fs) d = lookup-fill k fs _ ∙ ap (found k fs) (lookup-insert j k v d)

found-of_dict_before :
    (k : String) (d : Dict Value) (fs : Fields)
    → found k (of_dict_before fs d) none ≡ found k fs (lookup k d)
unfolding lookup
found-of_dict_before k [] fs = refl
found-of_dict_before k ((j, v) ∷ d) fs = found-of_dict_before k d (field j v fs)

pub lookup-of_dict : (k : String) (d : Dict Value) → lookup k (to_dict (of_dict d)) ≡ lookup k d
unfolding to_dict of_dict lookup
lookup-of_dict k d =
    lookup-fill k (of_dict_before no_fields d) [] ∙ found-of_dict_before k d no_fields
