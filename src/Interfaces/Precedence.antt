-- ===== src/Interfaces/Precedence.antt =====
-- Which of a node template's and a node type's definitions of an operation wins.
use cloudify_common.Prelude.{String, ◌≡◌, ◌≢◌, true, false, some, string_eq, eq_iff, arith, ok}
use cloudify_common.Prelude.Dict.{get, has_key, or_else, IsDict, get-update}
use cloudify_common.Interfaces.Operation.{
  Schema, Inputs, Operation, is_no_op, flatten_schema, merge_schema_and_instance_inputs,
}
use cloudify_common.Interfaces.OperationMerger.{merge_template}
use cloudify_common.Interfaces.Inputs.{default_of, get-flatten_schema, has_key_of_all_present}

module _ {V : Type 0} where
  -- A successful merge of a schema and inputs: a given value, or else the schema's default, and a
  -- value for every input of the schema.
  pub merge_inputs_values :
      (schema : Schema V) (inputs merged : Inputs V)
      → IsDict schema
      → IsDict inputs
      → merge_schema_and_instance_inputs schema inputs ≡ ok merged
      → (k : String)
      → (get k merged ≡ or_else (get k inputs) (default_of (get k schema)))
        × (has_key k schema ≡ true → has_key k merged ≡ true)
  unfolding merge_schema_and_instance_inputs
  merge_inputs_values schema inputs merged d d' h k = ground (
    arith,
    get-update k (flatten_schema schema) inputs d',
    get-flatten_schema k schema d,
    has_key_of_all_present k schema merged,
  )

  module _ (template : Operation V (Inputs V)) (type : Operation V (Schema V))
      (op : Operation V (Inputs V)) (real : is_no_op template ≡ false)
      (typed : is_no_op type ≡ false)
      (merged : merge_template (some template) (some type) ≡ ok (some op)) where
    -- The template's own implementation takes the template's operation as it is.
    merge_template-override : op.implementation ≢ type.implementation → op ≡ template
    unfolding merge_template
    merge_template-override other = ground (
      arith,
      eq_iff op.implementation type.implementation,
      eq_iff template.implementation type.implementation,
      eq_iff type.implementation type.implementation,
    )

    -- An inherited implementation: the inputs complete the type's schema, and a field that the
    -- template leaves out is the type's.
    merge_template-inherit :
        op.implementation ≡ type.implementation
        → (merge_schema_and_instance_inputs type.inputs template.inputs ≡ ok op.inputs)
          × (op.executor ≡ or_else template.executor type.executor)
          × (op.max_retries ≡ or_else template.max_retries type.max_retries)
          × (op.retry_interval ≡ or_else template.retry_interval type.retry_interval)
          × (op.timeout ≡ or_else template.timeout type.timeout)
          × (op.timeout_recoverable ≡ or_else template.timeout_recoverable type.timeout_recoverable)
    unfolding merge_template
    merge_template-inherit same = ground (
      arith,
      eq_iff template.implementation type.implementation,
      eq_iff type.implementation type.implementation,
    )
