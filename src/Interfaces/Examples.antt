-- ===== src/Interfaces/Examples.antt =====
-- Small definitions of operations, and the theorems at them.
use cloudify_common.Prelude.{
  ℕ, String, ◌≡◌, refl, true, Option, none, some, [], ◌∷◌, string_eq, ok, raise,
}
use cloudify_common.Prelude.Dict.{Dict, get, put, update, has_key, or_else}
use cloudify_common.Interfaces.Operation.{
  Operation, Schema, Inputs, parsing_logic, is_no_op, merge_schema_and_instance_inputs,
  PropertySchema,
}
use cloudify_common.Interfaces.OperationMerger.{
  RawOperation, text, merge_template, node_template_merger,
}
use cloudify_common.Interfaces.InterfacesMerger.{
  merge_interfaces, merge_node_type_and_node_template_interfaces,
}
use cloudify_common.Interfaces.Inputs.{default_of}
use cloudify_common.Interfaces.Merged.{InterfaceAt, merge_interfaces-Combined}
use cloudify_common.Interfaces.Precedence.{merge_inputs_values}

abbrev input_of : Option ℕ → PropertySchema ℕ
input_of default = record {
  default = default;
  initial_default = none;
  type_name = none;
  required = true;
}

abbrev create_type : Operation ℕ (Schema ℕ)
create_type = record {
  implementation = "plugin.create";
  inputs = ("size", input_of (some 1)) ∷ ("zone", input_of (none)) ∷ [];
  executor = some 7;
  max_retries = none;
  retry_interval = some 30;
  timeout = none;
  timeout_recoverable = none;
}

abbrev create_template : Operation ℕ (Inputs ℕ)
create_template = record {
  implementation = "";
  inputs = ("zone", 5) ∷ [];
  executor = none;
  max_retries = some 3;
  retry_interval = none;
  timeout = none;
  timeout_recoverable = none;
}

abbrev created : Operation ℕ (Inputs ℕ)
created = record {
  implementation = "plugin.create";
  inputs = ("size", 1) ∷ ("zone", 5) ∷ [];
  executor = some 7;
  max_retries = some 3;
  retry_interval = some 30;
  timeout = none;
  timeout_recoverable = none;
}

program : Unit {0}
unfolding merge_template merge_node_type_and_node_template_interfaces is_no_op
    merge_schema_and_instance_inputs get put update
program = tt

create_merged : merge_template (some create_template) (some create_type) ≡ ok (some created)
unfolding program
create_merged = refl

-- An input with neither a default nor a value.
zone_missing :
    merge_template (some (record create_template { inputs = [] })) (some create_type)
    ≡ raise (parsing_logic 107)
unfolding program
zone_missing = refl

abbrev custom : Operation ℕ (Inputs ℕ)
custom = record create_template { implementation = "scripts/create.sh" }

merge_inputs_values_example :
    (get "size" created.inputs
      ≡ or_else (get "size" create_template.inputs) (default_of (get "size" create_type.inputs)))
    × (has_key "size" create_type.inputs ≡ true → has_key "size" created.inputs ≡ true)
unfolding program
merge_inputs_values_example =
    merge_inputs_values create_type.inputs create_template.inputs created.inputs (refl, (refl, tt))
      (refl, tt) refl "size"

abbrev type_interfaces : Dict String (Dict String (RawOperation ℕ (Schema ℕ)))
type_interfaces =
    ("lifecycle", ("create", text "plugin.create") ∷ ("stop", text "plugin.stop") ∷ []) ∷ []

abbrev template_interfaces : Dict String (Dict String (RawOperation ℕ (Inputs ℕ)))
template_interfaces = ("lifecycle", ("stop", text "") ∷ ("start", text "mine.start") ∷ []) ∷ []

abbrev by_name : String → Operation ℕ (Inputs ℕ)
by_name implementation = record {
  implementation = implementation;
  inputs = [];
  executor = none;
  max_retries = none;
  retry_interval = none;
  timeout = none;
  timeout_recoverable = none;
}

abbrev lifecycle : Dict String (Option (Operation ℕ (Inputs ℕ)))
lifecycle =
    ("create", some (by_name "plugin.create"))
    ∷ ("stop", some (by_name ""))
    ∷ ("start", some (by_name "mine.start"))
    ∷ []

lifecycle_merged :
    merge_interfaces node_template_merger template_interfaces type_interfaces
    ≡ ok (("lifecycle", lifecycle) ∷ [])
unfolding program
lifecycle_merged = refl

merge_interfaces-Combined_example :
    InterfaceAt node_template_merger
      (get "lifecycle" template_interfaces)
      (get "lifecycle" type_interfaces)
      (some lifecycle)
unfolding program
merge_interfaces-Combined_example =
    merge_interfaces-Combined node_template_merger template_interfaces type_interfaces
      (("lifecycle", lifecycle) ∷ []) "lifecycle" (refl, tt) (refl, tt) (refl, (refl, tt))
      (refl, (refl, tt)) lifecycle_merged
