-- ===== src/Properties.antt =====
-- dsl_parser/utils.py: the properties of a node, merged with the schema of its type, and the check of
-- each value against the type that the schema names. What Python decides about values is the
-- parameter `Python`; a data type that holds itself would never end, so the nesting takes fuel.
pub mod Loop
pub mod Typing
pub mod Reparse
pub mod Fuel
pub mod Schemas
mod Examples
use cloudify_common.Prelude.{
  ℕ, zero, suc, String, Bool, true, false, not, ◌&&◌, ◌||◌, Option, none, some, List, [], ◌∷◌, ◌≡◌,
  if◌then◌else◌, ◌==◌, string_eq, Result, ok, raise, guard, ◌>>=◌, ◌>>◌, is_none,
}
use cloudify_common.Prelude.Dict.{Dict, get, put, update, has_key, IsDict}
use cloudify_common.Interfaces.Operation.{PropertySchema, Schema, flatten_schema}

pub record Python : Type 1 where
  pub Value : Type 0
  -- isinstance of numbers.Integral, numbers.Number, bool, a text, and of a list or tuple
  pub is_integral : Value → Bool
  pub is_number : Value → Bool
  pub is_bool : Value → Bool
  pub is_text : Value → Bool
  pub is_sequence : Value → Bool
  -- the items of a dict, and the dict of some items
  pub items : Value → Option (Dict String Value)
  pub of_items : Dict String Value → Value
  pub items-of_items : (d : Dict String Value) → IsDict d → items (of_items d) ≡ some d
  pub items-IsDict : (v : Value) (d : Dict String Value) → items v ≡ some d → IsDict d
  -- `re.compile` succeeds
  pub compiles : Value → Bool
  -- `functions.is_function`
  pub is_function : Value → Bool
  -- `bool(value)`
  pub truthy : Value → Bool

-- The exceptions: the first three by their codes, with the property that they name.
pub data PropertyError : Type 0 where
  undefined_property : String → PropertyError
  missing_property : String → PropertyError
  value_does_not_match_type : PropertyError
  -- RuntimeError
  unknown_type : String → PropertyError
  -- RecursionError
  too_deep : PropertyError

-- The types that need no definition.
pub data PrimitiveType : Type 0 where
  integer_type float_type boolean_type string_type regex_type list_type dict_type : PrimitiveType

unfoldable pub primitive_type : String → Option PrimitiveType
primitive_type type_name =
    if type_name == "integer"
    then some integer_type
    else if type_name == "float"
    then some float_type
    else if type_name == "boolean"
    then some boolean_type
    else if type_name == "string"
    then some string_type
    else if type_name == "regex"
    then some regex_type
    else if type_name == "list"
    then some list_type
    else if type_name == "dict"
    then some dict_type
    else none

module _ (python : Python) where
  open python use {
    Value, is_integral, is_number, is_bool, is_text, is_sequence, items, of_items, compiles,
    is_function, truthy,
  }

  -- The test of the branch for a primitive type.
  unfoldable pub accepts : PrimitiveType → Value → Bool
  accepts integer_type value = is_integral value && not (is_bool value)
  accepts float_type value = is_number value && not (is_bool value)
  accepts boolean_type value = is_bool value
  accepts string_type value = true
  accepts regex_type value = is_text value && compiles value
  accepts list_type value = is_sequence value
  accepts dict_type value = not (is_none (items value))

  -- The first loop: a property that the schema does not have.
  unfoldable pub check_defined : Dict String Value → Schema Value → Result PropertyError (Unit {0})
  check_defined [] schema = ok tt
  check_defined ((key, value) ∷ rest) schema = do
    guard (has_key key schema) (undefined_property key)
    check_defined rest schema

  module _ (parse : Value → Option Value → Option String → Result PropertyError Value)
      (raise_on_missing : Bool) where
    -- The second loop, over the schema; `flattened` are the defaults, `merged` what was given too.
    unfoldable pub merge_properties :
        Dict String Value
        → Dict String Value
        → Schema Value
        → Result PropertyError (Dict String Value)
    merge_properties flattened merged [] = ok []
    merge_properties flattened merged ((key, prop) ∷ schema) = elim (get key merged) [
      | none ↦ do
        guard (not (prop.required && raise_on_missing)) (missing_property key)
        merge_properties flattened merged schema
      | some value ↦ do
        value' ← parse value (get key flattened) prop.type_name
        rest ← merge_properties flattened merged schema
        ok ((key, value') ∷ rest)
    ]

    -- `_merge_flattened_schema_and_instance_properties`
    unfoldable pub merge_flattened :
        Dict String Value
        → Schema Value
        → Dict String Value
        → Result PropertyError (Dict String Value)
    unfolding check_defined merge_properties
    merge_flattened instance_properties schema flattened = do
      check_defined instance_properties schema
      merge_properties flattened (update flattened instance_properties) schema

  -- The defaults of a data type, under what the derived value gives.
  unfoldable pub with_derived : Schema Value → Option Value → Dict String Value
  unfolding flatten_schema
  with_derived schema none = flatten_schema schema
  with_derived schema (some derived) = elim (items derived) [
    | none ↦ flatten_schema schema
    | some d ↦ update (flatten_schema schema) d
  ]

  module _ (data_types : Dict String (Schema Value)) (raise_on_missing : Bool) where
    unfoldable pub parse_value :
        ℕ → Value → Option Value → Option String → Result PropertyError Value
    unfolding accepts merge_flattened with_derived primitive_type
    parse_value zero value derived type_name = raise too_deep
    parse_value (suc fuel) value derived none = ok value
    parse_value (suc fuel) value derived (some type_name) =
        if is_function value then ok value else (elim (primitive_type type_name) [
          | some primitive ↦
              if accepts primitive value then ok value else raise value_does_not_match_type
          | none ↦ elim (get type_name data_types) [
            | none ↦ raise (unknown_type type_name)
            | some schema ↦ elim (items value) [
              | none ↦ raise value_does_not_match_type
              | some given ↦ do
                d ←
                    merge_flattened (parse_value fuel) raise_on_missing given schema
                      (with_derived schema derived)
                ok (of_items d)
            ]
          ]
        ])

    unfoldable pub merge_schema_and_instance_properties :
        ℕ → Dict String Value → Schema Value → Result PropertyError (Dict String Value)
    unfolding parse_value merge_flattened
    merge_schema_and_instance_properties fuel instance_properties schema =
        merge_flattened (parse_value fuel) raise_on_missing instance_properties schema
          (flatten_schema schema)
