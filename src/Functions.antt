-- ===== src/Functions.antt =====
-- Intrinsic functions of dsl_parser/functions.py: the values that properties, inputs and capabilities
-- hold, and the three loops that follow a path into such a value. An item of a path is a string, or
-- an index, which Python counts from the end if it is negative.
pub mod Paths
pub mod Handler
pub mod Resolution
mod Examples
use cloudify_common.Prelude.{
  ℕ, ◌-◌, suc, String, Bool, true, false, Option, none, some, List, [], ◌∷◌, if◌then◌else◌, ltb,
  nat_beq, ◌==◌, string_eq, Result, ok, raise, ◌>>=◌, ◌&&◌, ◌||◌, not, is_none, get_or,
}

-- `from_end n` is the index `-1 - n`, and so is the number `negative n` below.
pub data Key : Type 0 where
  name : String → Key
  index : ℕ → Key
  from_end : ℕ → Key

abbrev pub same_key : Key → Key → Bool
same_key (name x) (name y) = x == y
same_key (name x) (index j) = false
same_key (name x) (from_end j) = false
same_key (index i) (name y) = false
same_key (index i) (index j) = nat_beq i j
same_key (index i) (from_end j) = false
same_key (from_end i) (name y) = false
same_key (from_end i) (index j) = false
same_key (from_end i) (from_end j) = nat_beq i j

mutual
  pub data Value : Type 0 where
    null : Value
    boolean : Bool → Value
    int : ℕ → Value
    negative : ℕ → Value
    text : String → Value
    list_of : Values → Value
    dict_of : Entries → Value

  pub data Values : Type 0 where
    end : Values
    item : Value → Values → Values

  pub data Entries : Type 0 where
    no_entry : Entries
    entry : Key → Value → Entries → Entries

unfoldable pub size : Values → ℕ
size end = 0
size (item value values) = suc (size values)

unfoldable pub nth : ℕ → Values → Option Value
nth n end = none
nth n (item value values) =
    let rest = nth (n - 1) values in if nat_beq n 0 then some value else rest

-- `value[key]` of a dict
unfoldable pub entry_of : Key → Entries → Option Value
entry_of key no_entry = none
entry_of key (entry other value entries) =
    let rest = entry_of key entries in if same_key other key then some value else rest

-- What stops a turn of a loop.
pub data PathError : Type 0 where
  -- the key is not in the dict
  missing : Key → PathError
  -- TypeError: a list is indexed by a string
  no_index : Key → PathError
  -- IndexError
  out_of_range : Key → PathError
  -- the value is no dict and no list
  no_attribute : Key → PathError

-- `value[key]` of a list
unfoldable pub item_of : Key → Values → Result PathError Value
unfolding size nth
item_of (name x) values = raise (no_index (name x))
item_of (index n) values = elim (nth n values) [
  | none ↦ raise (out_of_range (index n))
  | some value ↦ ok value
]
item_of (from_end n) values =
    if ltb n (size values)
    then (elim (nth (size values - 1 - n) values) [
      | none ↦ raise (out_of_range (from_end n))
      | some value ↦ ok value
    ])
    else raise (out_of_range (from_end n))

-- What one turn of a loop finds.
unfoldable pub step : Value → Key → Result PathError Value
unfolding entry_of item_of
step (dict_of entries) key = elim (entry_of key entries) [
  | none ↦ raise (missing key)
  | some value ↦ ok value
]
step (list_of values) key = item_of key values
step null key = raise (no_attribute key)
step (boolean b) key = raise (no_attribute key)
step (int n) key = raise (no_attribute key)
step (negative n) key = raise (no_attribute key)
step (text x) key = raise (no_attribute key)

pub data FunctionError : Type 0 where
  -- InputEvaluationError
  input_evaluation_error : PathError → FunctionError
  -- FunctionEvaluationError
  function_evaluation_error : PathError → FunctionError

-- What `get_input` raises.
unfoldable pub input_error : PathError → FunctionError
input_error (missing key) = input_evaluation_error (missing key)
input_error (no_index key) = input_evaluation_error (no_index key)
input_error (out_of_range key) = input_evaluation_error (out_of_range key)
input_error (no_attribute key) = function_evaluation_error (no_attribute key)

-- The loop of `GetInput._get_input_attribute`
unfoldable pub get_input_attribute : Value → List Key → Result FunctionError Value
unfolding step input_error
get_input_attribute value [] = ok value
get_input_attribute value (key ∷ path) = elim (step value key) [
  | ok found ↦ get_input_attribute found path
  | raise error ↦ raise (input_error error)
]

-- The loop of `get_nested_attribute_value_of_capability`
unfoldable pub nested_attribute : Value → List Key → Result FunctionError Value
unfolding step
nested_attribute value [] = ok value
nested_attribute value (key ∷ path) = elim (step value key) [
  | ok found ↦ nested_attribute found path
  | raise error ↦ raise (function_evaluation_error error)
]

-- `{'value': value}`
unfoldable pub in_value_dict : Value → Value
in_value_dict value = dict_of (entry (name "value") value no_entry)

-- `get_nested_attribute_value_of_capability`: the path starts with the deployment and the
-- capability.
unfoldable pub capability_value : Value → List Key → Result FunctionError Value
unfolding nested_attribute in_value_dict
capability_value root [] = ok (in_value_dict root)
capability_value root (deployment ∷ []) = ok (in_value_dict root)
capability_value root (deployment ∷ capability ∷ path) = do
  value ← nested_attribute root path
  ok (in_value_dict value)

unfoldable pub key_value : Key → Value
key_value (name x) = text x
key_value (index n) = int n
key_value (from_end n) = negative n

-- Python raises a TypeError whatever the caller wants.
unfoldable pub is_type_error : PathError → Bool
is_type_error (no_index key) = true
is_type_error (missing key) = false
is_type_error (out_of_range key) = false
is_type_error (no_attribute key) = false

abbrev pub is_null : Value → Bool
is_null null = true
is_null (boolean b) = false
is_null (int n) = false
is_null (negative n) = false
is_null (text x) = false
is_null (list_of values) = false
is_null (dict_of entries) = false

abbrev pub is_id_path : List Key → Bool
is_id_path (name x ∷ []) = x == "node_instance_id"
is_id_path (name x ∷ key ∷ path) = false
is_id_path (index n ∷ path) = false
is_id_path (from_end n ∷ path) = false
is_id_path [] = false

module _ (is_registered : String → Bool) where
  -- `is_function`
  unfoldable pub is_function_value : Value → Bool
  is_function_value (dict_of (entry (name x) arguments no_entry)) = is_registered x
  is_function_value (dict_of (entry (index n) arguments no_entry)) = false
  is_function_value (dict_of (entry (from_end n) arguments no_entry)) = false
  is_function_value (dict_of (entry key value (entry key' value' entries))) = false
  is_function_value (dict_of no_entry) = false
  is_function_value (list_of values) = false
  is_function_value null = false
  is_function_value (boolean b) = false
  is_function_value (int n) = false
  is_function_value (negative n) = false
  is_function_value (text x) = false

  -- `_get_property_value`
  unfoldable pub get_property_value :
      (raise_if_not_found : Bool) → Value → List Key → Result PathError Value
  unfolding is_function_value key_value is_type_error step
  get_property_value raise_if_not_found value [] = ok value
  get_property_value raise_if_not_found value (key ∷ path) =
      let deferred =
        get_property_value raise_if_not_found (list_of (item value (item (key_value key) end)))
          path in
      if is_function_value value then deferred else elim (step value key) [
        | ok found ↦ get_property_value raise_if_not_found found path
        | raise error ↦ if is_type_error error || raise_if_not_found then raise error else ok null
      ]

  -- `_get_attribute_from_node_instance`; `runtime_properties` may be None.
  unfoldable pub get_attribute_from_node_instance :
      (id : String) (runtime_properties node_properties : Value) → List Key → Result PathError Value
  unfolding get_property_value
  get_attribute_from_node_instance id runtime_properties node_properties path = do
    found ← get_property_value false runtime_properties path
    let value = if is_null found && is_id_path path then text id else found
    (if is_null value then get_property_value false node_properties path else ok value)
