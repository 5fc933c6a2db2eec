-- ===== src/Properties/Fuel.antt =====
-- `parse_value` ends: with fuel above the nesting of the data types it is never too deep.
use cloudify_common.Prelude.{
  ℕ, zero, suc, String, Bool, Option, none, some, [], ◌∷◌, ◌≡◌, inl, inr, string_eq, Result, ok,
  raise, ◌>>=◌, Option-cases, Bool-cases, arith, ◌<◌, ◌≢◌, >>=-eq-raise,
}
use cloudify_common.Prelude.Dict.{Dict, get, update}
use cloudify_common.Interfaces.Operation.{Schema}
use cloudify_common.Properties.{
  Python, PropertyError, primitive_type, check_defined, merge_properties, merge_flattened,
  with_derived, parse_value, too_deep,
}

module _ (python : Python) (raise_on_missing : Bool) where
  open python use {Value}

  -- Every property of the schema has a type of a lower rank; no type has rank 0.
  abbrev pub level : (String → ℕ) → Option String → ℕ
  level rank none = 0
  level rank (some type_name) = rank type_name

  abbrev pub AllBelow : (String → ℕ) → ℕ → Schema Value → Type 0
  AllBelow rank bound [] = Unit
  AllBelow rank bound ((k, p) ∷ schema) =
      (level rank p.type_name < bound) × AllBelow rank bound schema

  check_defined-ne_too_deep :
      (given : Dict String Value) (schema : Schema Value)
      → check_defined python given schema ≢ raise too_deep
  unfolding check_defined
  check_defined-ne_too_deep [] schema h = cc
  check_defined-ne_too_deep ((k, v) ∷ given) schema h =
      ground (arith, check_defined-ne_too_deep given schema)

  module _ (rank : String → ℕ) (bound : ℕ)
      (parse : Value → Option Value → Option String → Result PropertyError Value)
      (ends : (v : Value) (derived : Option Value) (type_name : Option String)
        → level rank type_name < bound
        → parse v derived type_name ≢ raise too_deep)
      (flattened merged : Dict String Value) where
    merge_properties-ne_too_deep :
        (schema : Schema Value)
        → AllBelow rank bound schema
        → merge_properties python parse raise_on_missing flattened merged schema ≢ raise too_deep
    unfolding merge_properties
    merge_properties-ne_too_deep [] below h = cc
    merge_properties-ne_too_deep ((k, p) ∷ schema) below h = elim (Option-cases (get k merged)) [
      | inl missing ↦ ground (arith, merge_properties-ne_too_deep schema below.1)
      | inr (value, present) ↦
          let loop = merge_properties python parse raise_on_missing flattened merged schema in
          let next = λ (v : Value). loop >>= λ (rest : Dict String Value).
          let r : Result PropertyError (Dict String Value) = ok ((k, v) ∷ rest) in r in
          elim (>>=-eq-raise (parse value (get k flattened) p.type_name) next
            (rw (present, merge_properties) at h)) [
              | inl deep ↦ ends value (get k flattened) p.type_name below.0 deep
              | inr (v', parsed, more) ↦ ground (arith, merge_properties-ne_too_deep schema below.1)
            ]
    ]

module _ (python : Python) (data_types : Dict String (Schema (python.Value)))
    (raise_on_missing : Bool) (rank : String → ℕ)
    (nested : (type_name : String) (schema : Schema (python.Value))
      → get type_name data_types ≡ some schema
      → AllBelow python raise_on_missing rank (rank type_name) schema) where
  open python use {Value, items, of_items, is_function}

  -- Where the data types do not hold one another in a circle, that is where a rank falls from each
  -- data type to the types of its properties, fuel above the rank of the type is enough.
  pub parse_value-ne_too_deep :
      (n : ℕ) (value : Value) (derived : Option Value) (type_name : Option String)
      → level python raise_on_missing rank type_name < n
      → parse_value python data_types raise_on_missing n value derived type_name ≢ raise too_deep
  unfolding parse_value merge_flattened
  parse_value-ne_too_deep zero value derived type_name below h = elim below [ ]
  parse_value-ne_too_deep (suc n) value derived none below h = cc
  parse_value-ne_too_deep (suc n) value derived (some type_name) below h =
      elim (Bool-cases (is_function value)) [
        | inl function ↦ ground arith
        | inr plain ↦ elim (Option-cases (primitive_type type_name)) [
          | inr (p, known) ↦ ground arith
          | inl defined ↦ elim (Option-cases (get type_name data_types)) [
            | inl unknown ↦ ground arith
            | inr (schema, found) ↦ elim (Option-cases (items value)) [
              | inl no_dict ↦ ground arith
              | inr (given, is_dict) ↦
                  let parse = parse_value python data_types raise_on_missing n in
                  let defaults = with_derived python schema derived in
                  ground (
                    arith,
                    check_defined-ne_too_deep python raise_on_missing given schema,
                    merge_properties-ne_too_deep python raise_on_missing rank (rank type_name) parse
                        (λ v d t b. parse_value-ne_too_deep n v d t (omega arith)) defaults
                        (update defaults given) schema (nested type_name schema found),
                  )
            ]
          ]
        ]
      ]
