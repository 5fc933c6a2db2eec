-- ===== src/Interfaces/Operation.antt =====
-- dsl_parser/interfaces/utils.py: an operation's mapping, and the inputs that a schema completes.
-- Also `flatten_schema` of dsl_parser/utils.py.
use cloudify_common.Prelude.{
  ℕ, String, Bool, true, ◌&&◌, Option, none, some, [], ◌∷◌, is_none, ◌==◌, string_eq, Result, ok,
  ◌>>◌, guard, is_empty,
}
use cloudify_common.Prelude.Dict.{Dict, update, has_key}

-- A `DSLParsingLogicException` by its code.
pub data DslError : Type 0 where
  parsing_logic : ℕ → DslError

abbrev pub error_missing_property : ℕ
error_missing_property = 107

-- One entry of a schema, of an operation's inputs or of properties; `required` is true if its
-- key is missing.
pub record PropertySchema (V : Type 0) : Type 0 where
  pub default : Option V
  pub initial_default : Option V
  pub type_name : Option String
  pub required : Bool

abbrev pub Schema : Type 0 → Type 0
Schema V = Dict String (PropertySchema V)

abbrev pub Inputs : Type 0 → Type 0
Inputs V = Dict String V

-- What `operation_mapping` builds. `I` is the type of the inputs: a schema in a type, values in
-- a template.
pub record Operation (V I : Type 0) : Type 0 where
  pub implementation : String
  pub inputs : I
  pub executor : Option V
  pub max_retries : Option V
  pub retry_interval : Option V
  pub timeout : Option V
  pub timeout_recoverable : Option V

module _ {V I : Type 0} where
  unfoldable pub operation_mapping :
      String → I → Option V → Option V → Option V → Option V → Option V → Operation V I
  operation_mapping implementation inputs executor max_retries retry_interval timeout recoverable =
      record {
        implementation = implementation;
        inputs = inputs;
        executor = executor;
        max_retries = max_retries;
        retry_interval = retry_interval;
        timeout = timeout;
        timeout_recoverable = recoverable;
      }

module _ {V A : Type 0} where
  -- `no_op()`, the value of the constant NO_OP
  unfoldable pub no_op : Operation V (Dict String A)
  unfolding operation_mapping
  no_op = operation_mapping "" [] none none none none none

  -- `op == NO_OP`: the comparison of two mappings, field by field
  unfoldable pub is_no_op : Operation V (Dict String A) → Bool
  is_no_op op =
      op.implementation == ""
      && is_empty op.inputs
      && is_none op.executor
      && is_none op.max_retries
      && is_none op.retry_interval
      && is_none op.timeout
      && is_none op.timeout_recoverable

module _ {V : Type 0} where
  -- The defaults of a schema, under their names.
  unfoldable pub flatten_schema : Schema V → Inputs V
  flatten_schema [] = []
  flatten_schema ((prop_key, prop) ∷ schema) = elim prop.default [
    | none ↦ flatten_schema schema
    | some v ↦ (prop_key, v) ∷ flatten_schema schema
  ]

  -- Whether `set(schema_inputs) - set(inputs)` is empty.
  unfoldable pub all_present : Schema V → Inputs V → Bool
  all_present [] inputs = true
  all_present ((k, prop) ∷ schema) inputs = has_key k inputs && all_present schema inputs

  unfoldable pub validate_missing_inputs : Inputs V → Schema V → Result DslError (Unit {0})
  unfolding all_present
  validate_missing_inputs inputs schema_inputs =
      guard (all_present schema_inputs inputs) (parsing_logic error_missing_property)

  unfoldable pub merge_schema_and_instance_inputs : Schema V → Inputs V → Result DslError (Inputs V)
  unfolding flatten_schema validate_missing_inputs
  merge_schema_and_instance_inputs schema_inputs instance_inputs = do
    let merged_inputs = update (flatten_schema schema_inputs) instance_inputs
    validate_missing_inputs merged_inputs schema_inputs
    ok merged_inputs
