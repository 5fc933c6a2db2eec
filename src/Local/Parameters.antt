-- ===== src/Local/Parameters.antt =====
-- `_merge_and_validate_execution_parameters`: the parameters that a workflow declares and those that
-- are given. What Python's classes decide about values is the parameter `Classes`. The conversions
-- are written into the given dict, which the result shows as `execution_parameters`.
pub mod Step
pub mod Loop
pub mod Merged
use cloudify_common.Prelude.{
  String, Bool, true, false, not, ◌&&◌, Option, none, some, List, [], ◌∷◌, ◌++◌, ◌≡◌, is_none,
  is_empty, if◌then◌else◌, ◌==◌, string_eq, get_or, Result, ok, raise, guard, ◌>>=◌, ◌>>◌, ◌||◌,
}
use cloudify_common.Prelude.Dict.{Dict, get, put, update, has_key, or_else}

-- The classes in `allowed_types`.
pub data AllowedType : Type 0 where
  python_int python_float python_text python_bool : AllowedType

pub record Classes : Type 1 where
  pub Value : Type 0
  -- isinstance
  pub is_instance : AllowedType → Value → Bool
  -- `int(text)` and `float(text)`; none is a ValueError
  pub to_int : Value → Option Value
  pub to_float : Value → Option Value
  -- `text.lower() == other`
  pub lower_is : String → Value → Bool
  pub true_value : Value
  pub false_value : Value

pub record WorkflowParameter (V : Type 0) : Type 0 where
  pub type_name : Option String
  pub default : Option V

-- The three ValueErrors, with what they name.
pub data ParameterError : Type 0 where
  missing_mandatory : List String → ParameterError
  wrong_type : Dict String String → ParameterError
  undeclared : List String → ParameterError

unfoldable pub allowed_type : String → Option AllowedType
allowed_type type_name =
    if type_name == "integer"
    then some python_int
    else if type_name == "float"
    then some python_float
    else if type_name == "string"
    then some python_text
    else if type_name == "boolean"
    then some python_bool
    else none

-- What the loop over the declared parameters changes.
pub record Merging (V : Type 0) : Type 0 where
  pub execution_parameters : Dict String V
  pub merged_parameters : Dict String V
  pub missing_mandatory_parameters : List String
  pub wrong_types : Dict String String

module _ (py : Classes) where
  unfoldable pub try_convert_from_str : py.Value → AllowedType → py.Value
  try_convert_from_str string python_text = string
  try_convert_from_str string python_bool =
      if py.lower_is "true" string
      then py.true_value
      else if py.lower_is "false" string
      then py.false_value
      else string
  try_convert_from_str string python_int = get_or (py.to_int string) string
  try_convert_from_str string python_float = get_or (py.to_float string) string

  -- The given value of a parameter with a type, converted when it is a text.
  unfoldable pub convert_given : String → py.Value → py.Value
  unfolding allowed_type try_convert_from_str
  convert_given type_name value = elim (allowed_type type_name) [
    | none ↦ value
    | some target ↦
        if py.is_instance python_text value && not (type_name == "string")
        then try_convert_from_str value target
        else value
  ]

  -- `isinstance(value, allowed_types.get(type_name, object))`
  unfoldable pub has_allowed_type : String → py.Value → Bool
  unfolding allowed_type
  has_allowed_type type_name value = elim (allowed_type type_name) [
    | none ↦ true
    | some target ↦ py.is_instance target value
  ]

  -- The conversion and the check of one declared parameter.
  unfoldable pub check_given :
      String → WorkflowParameter py.Value → Merging py.Value → Merging py.Value
  unfolding convert_given has_allowed_type
  check_given name param m = elim param.type_name [
    | none ↦ m
    | some type_name ↦ elim (get name m.execution_parameters) [
      | none ↦ m
      | some value ↦
          let converted = convert_given type_name value in
          record m {
            execution_parameters = put name converted m.execution_parameters;
            wrong_types =
                if has_allowed_type type_name converted
                then m.wrong_types
                else put name type_name m.wrong_types;
          }
    ]
  ]

  -- The rest of the loop's body.
  unfoldable pub merge_given :
      String → WorkflowParameter py.Value → Merging py.Value → Merging py.Value
  merge_given name param m = elim (or_else (get name m.execution_parameters) param.default) [
    | none ↦ record m { missing_mandatory_parameters = m.missing_mandatory_parameters ++ name ∷ [] }
    | some value ↦ record m { merged_parameters = put name value m.merged_parameters }
  ]

  unfoldable pub merge_each :
      Dict String (WorkflowParameter py.Value) → Merging py.Value → Merging py.Value
  unfolding check_given merge_given
  merge_each [] m = m
  merge_each ((name, param) ∷ rest) m =
      merge_each rest (merge_given name param (check_given name param m))

  unfoldable pub custom_of :
      Dict String (WorkflowParameter py.Value) → Dict String py.Value → Dict String py.Value
  custom_of workflow_parameters [] = []
  custom_of workflow_parameters ((k, v) ∷ given) =
      let rest = custom_of workflow_parameters given in
      if has_key k workflow_parameters then rest else (k, v) ∷ rest

  abbrev names_of : {V : Type 0} → Dict String V → List String
  names_of [] = []
  names_of ((k, v) ∷ d) = k ∷ names_of d

  unfoldable pub merge_and_validate :
      Dict String (WorkflowParameter py.Value)
      → Dict String py.Value
      → Bool
      → Result ParameterError (Dict String py.Value)
  unfolding merge_each custom_of
  merge_and_validate workflow_parameters execution_parameters allow_custom_parameters = do
    let m = merge_each workflow_parameters record {
      execution_parameters = execution_parameters;
      merged_parameters = [];
      missing_mandatory_parameters = [];
      wrong_types = [];
    }
    guard (is_empty m.missing_mandatory_parameters)
        (missing_mandatory m.missing_mandatory_parameters)
    guard (is_empty m.wrong_types) (wrong_type m.wrong_types)
    let custom_parameters = custom_of workflow_parameters m.execution_parameters
    guard (allow_custom_parameters || is_empty custom_parameters)
        (undeclared (names_of custom_parameters))
    ok (update m.merged_parameters custom_parameters)
