-- ===== src/Interfaces/Inputs.antt =====
-- What the merge of a schema and of an instance's inputs gives.
use cloudify_common.Prelude.{
  String, ◌≡◌, refl, true, Option, none, some, [], ◌∷◌, string_eq, eq_iff, arith,
}
use cloudify_common.Prelude.Dict.{get, has_key, IsDict}
use cloudify_common.Interfaces.Operation.{
  Schema, Inputs, PropertySchema, flatten_schema, all_present,
}

-- The default of a schema's entry.
abbrev pub default_of : {V : Type 0} → Option (PropertySchema V) → Option V
default_of none = none
default_of (some prop) = prop.default

module _ {V : Type 0} where
  pub get-flatten_schema :
      (k : String) (schema : Schema V)
      → IsDict schema
      → get k (flatten_schema schema) ≡ default_of (get k schema)
  unfolding get flatten_schema
  get-flatten_schema k [] d = refl
  get-flatten_schema k ((j, prop) ∷ schema) d =
      ground (arith, eq_iff j k, get-flatten_schema k schema d.1)

  pub has_key_of_all_present :
      (k : String) (schema : Schema V) (inputs : Inputs V)
      → all_present schema inputs ≡ true
      → has_key k schema ≡ true
      → has_key k inputs ≡ true
  unfolding get all_present
  has_key_of_all_present k [] inputs h m = cc
  has_key_of_all_present k ((j, prop) ∷ schema) inputs h m =
      ground (arith, eq_iff j k, has_key_of_all_present k schema inputs)
