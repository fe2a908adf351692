-- ===== src/Output.antt =====
-- The JSON object of a flow: the calls of `cJSON_AddNumberToObject` and `cJSON_AddStringToObject` in
-- their order.
use Prim.Native.String.{String}
use ti_features.Prelude.{List, [], ◌∷◌}

pub data Value (D : Type 0) : Type 0 where
  number : D → Value D
  text : String → Value D

-- The calls, each with its key.
abbrev pub Fields : Type 0 → Type 0
Fields D = List (String × Value D)

-- Numbers under their keys.
abbrev pub label : {D : Type 0} → List String → List D → Fields D
label [] values = []
label (key ∷ keys) [] = []
label (key ∷ keys) (x ∷ values) = (key, number x) ∷ label keys values

abbrev pub keys_of : {D : Type 0} → Fields D → List String
keys_of [] = []
keys_of ((key, value) ∷ fields) = key ∷ keys_of fields
