-- ===== src/Interfaces/OperationMerger.antt =====
-- dsl_parser/interfaces/operation_merger.py. `None` in place of an operation is `none`.
use cloudify_common.Prelude.{
  String, not, Option, none, some, [], get_or, is_none, if◌then◌else◌, ◌==◌, string_eq, Result, ok,
  ◌>>=◌,
}
use cloudify_common.Prelude.Dict.{Dict}
use cloudify_common.Interfaces.Operation.{
  DslError, Schema, Inputs, Operation, operation_mapping, no_op, is_no_op,
  merge_schema_and_instance_inputs,
}

-- The dict form of an operation; `none` is a missing key.
pub record RawMapping (V I : Type 0) : Type 0 where
  pub implementation : Option String
  pub inputs : Option I
  pub executor : Option V
  pub max_retries : Option V
  pub retry_interval : Option V
  pub timeout : Option V
  pub timeout_recoverable : Option V

pub data RawOperation (V I : Type 0) : Type 0 where
  null : RawOperation V I
  text : String → RawOperation V I
  mapping : RawMapping V I → RawOperation V I

module _ {V A : Type 0} where
  unfoldable pub create_operation :
      RawOperation V (Dict String A) → Option (Operation V (Dict String A))
  unfolding operation_mapping
  create_operation null = none
  create_operation (text raw) = some (operation_mapping raw [] none none none none none)
  create_operation (mapping raw) = some (
      operation_mapping (get_or raw.implementation "") (get_or raw.inputs []) raw.executor
        raw.max_retries raw.retry_interval raw.timeout raw.timeout_recoverable)

-- NodeTemplateNodeTypeOperationMerger
module _ {V : Type 0} where
  unfoldable pub derive_implementation : Operation V (Inputs V) → Operation V (Schema V) → String
  derive_implementation template type =
      if template.implementation == "" then type.implementation else template.implementation

  unfoldable pub derive_inputs :
      Operation V (Inputs V) → Operation V (Schema V) → String → Result DslError (Inputs V)
  derive_inputs template type merged_implementation =
      if merged_implementation == type.implementation
      then merge_schema_and_instance_inputs type.inputs template.inputs
      else ok template.inputs

  -- `_derive_with_impl` at one field: the type's implementation, the merged one, and the two
  -- values of the field
  unfoldable pub derive_with_impl : String → String → Option V → Option V → Option V
  derive_with_impl type_implementation merged_implementation template_value type_value =
      if not (merged_implementation == type_implementation)
      then template_value
      else if not (is_none template_value)
      then template_value
      else type_value

  derive_operation :
      Operation V (Inputs V) → Operation V (Schema V) → Result DslError (Operation V (Inputs V))
  unfolding derive_implementation derive_inputs derive_with_impl operation_mapping
  derive_operation template type = do
    let merged = derive_implementation template type
    inputs ← derive_inputs template type merged
    ok (
        operation_mapping merged inputs
          (derive_with_impl type.implementation merged template.executor type.executor)
          (derive_with_impl type.implementation merged template.max_retries type.max_retries)
          (derive_with_impl type.implementation merged template.retry_interval type.retry_interval)
          (derive_with_impl type.implementation merged template.timeout type.timeout)
          (derive_with_impl type.implementation merged template.timeout_recoverable
            type.timeout_recoverable))

  -- The operation of a type, for a template that does not mention it.
  inherit_operation : Operation V (Schema V) → Result DslError (Operation V (Inputs V))
  unfolding operation_mapping
  inherit_operation type = do
    inputs ← merge_schema_and_instance_inputs type.inputs []
    ok (
        operation_mapping type.implementation inputs type.executor type.max_retries
          type.retry_interval type.timeout type.timeout_recoverable)

  -- `merge`, by whether the template and the type have the operation
  unfoldable pub merge_template :
      Option (Operation V (Inputs V))
      → Option (Operation V (Schema V))
      → Result DslError (Option (Operation V (Inputs V)))
  unfolding is_no_op no_op derive_operation inherit_operation
  merge_template template none = ok template
  merge_template none (some type) = do op ← inherit_operation type; ok (some op)
  merge_template (some template) (some type) =
      if is_no_op template
      then ok (some no_op)
      else if is_no_op type
      then ok (some template)
      else (do op ← derive_operation template type; ok (some op))

  -- The class: its `__init__` and `merge`.
  unfoldable pub node_template_merger :
      RawOperation V (Inputs V)
      → RawOperation V (Schema V)
      → Result DslError (Option (Operation V (Inputs V)))
  unfolding create_operation merge_template
  node_template_merger overriding overridden =
      merge_template (create_operation overriding) (create_operation overridden)

-- NodeTypeNodeTypeOperationMerger
module _ {V : Type 0} where
  unfoldable pub merge_type :
      Option (Operation V (Schema V))
      → Option (Operation V (Schema V))
      → Option (Operation V (Schema V))
  unfolding is_no_op no_op operation_mapping
  merge_type none overridden = overridden
  merge_type (some op) overridden =
      if is_no_op op
      then some no_op
      else some (
          operation_mapping op.implementation op.inputs op.executor op.max_retries op.retry_interval
            op.timeout op.timeout_recoverable)

  unfoldable pub node_type_merger :
      RawOperation V (Schema V)
      → RawOperation V (Schema V)
      → Result DslError (Option (Operation V (Schema V)))
  unfolding create_operation merge_type
  node_type_merger overriding overridden =
      ok (merge_type (create_operation overriding) (create_operation overridden))
