-- ===== src/Properties/Examples.antt =====
-- The theorems at small values: numbers, texts, and dicts; a port is a data type with a number and a
-- protocol.
use cloudify_common.Prelude.{
  ℕ, String, Bool, true, false, ◌&&◌, Option, none, some, [], ◌∷◌, ◌≡◌, refl, ◌==◌, string_eq, ok,
  raise, is_none, arith, eq_iff, if◌then◌else◌, ◌≢◌, Bool-cases, inl, inr, subst,
}
use cloudify_common.Prelude.Dict.{Dict, get, put, update, IsDict}
use cloudify_common.Interfaces.Operation.{PropertySchema, Schema, flatten_schema}
use cloudify_common.Properties.{
  Python, too_deep, primitive_type, accepts, check_defined, merge_properties, merge_flattened,
  with_derived, parse_value,
}
use cloudify_common.Properties.Typing.{HasType, parse_value-HasType}
use cloudify_common.Properties.Reparse.{parse_value-again}
use cloudify_common.Properties.Fuel.{AllBelow, parse_value-ne_too_deep}
use cloudify_common.Properties.Schemas.{
  merge_schemas, MergedAt, merge_schemas-MergedAt, merge_property, merge_schemas_loop,
  same_data_type, with_default,
}

mutual
  data Item : Type 0 where
    number : ℕ → Item
    text : String → Item
    dict : Fields → Item

  data Fields : Type 0 where
    end : Fields
    field : String → Item → Fields → Fields

abbrev to_dict : Fields → Dict String Item
to_dict end = []
to_dict (field k v fields) = (k, v) ∷ to_dict fields

abbrev to_fields : Dict String Item → Fields
to_fields [] = end
to_fields ((k, v) ∷ d) = field k v (to_fields d)

to_dict-to_fields : (d : Dict String Item) → to_dict (to_fields d) ≡ d
to_dict-to_fields [] = refl
to_dict-to_fields ((k, v) ∷ d) = ground (arith, to_dict-to_fields d)

abbrev distinct : Dict String Item → Bool
distinct [] = true
distinct ((k, v) ∷ d) = is_none (get k d) && distinct d

distinct_of_IsDict : (d : Dict String Item) → IsDict d → distinct d ≡ true
distinct_of_IsDict [] h = refl
distinct_of_IsDict ((k, v) ∷ d) h = ground (arith, distinct_of_IsDict d h.1, h.0)

IsDict-of_distinct : (d : Dict String Item) → distinct d ≡ true → IsDict d
IsDict-of_distinct [] h = tt
IsDict-of_distinct ((k, v) ∷ d) h = (ground arith, IsDict-of_distinct d (ground arith))

abbrev items_of : Item → Option (Dict String Item)
items_of (dict fields) = if distinct (to_dict fields) then some (to_dict fields) else none
items_of _ = none

items_of-of_items : (d : Dict String Item) → IsDict d → items_of (dict (to_fields d)) ≡ some d
items_of-of_items d h = rw (to_dict-to_fields d) (ground (arith, distinct_of_IsDict d h))

items_of-IsDict : (v : Item) (d : Dict String Item) → items_of v ≡ some d → IsDict d
items_of-IsDict (number n) d h = cc
items_of-IsDict (text s) d h = cc
items_of-IsDict (dict fields) d h = IsDict-of_distinct d (ground arith)

abbrev is_number_item : Item → Bool
is_number_item (number n) = true
is_number_item _ = false

abbrev is_text_item : Item → Bool
is_text_item (text s) = true
is_text_item _ = false

abbrev python : Python
python = record {
  Value = Item;
  is_integral = is_number_item;
  is_number = is_number_item;
  is_bool = λ v. false;
  is_text = is_text_item;
  is_sequence = λ v. false;
  items = items_of;
  of_items = λ d. dict (to_fields d);
  items-of_items = items_of-of_items;
  items-IsDict = items_of-IsDict;
  compiles = λ v. true;
  is_function = λ v. false;
  truthy = λ v. true;
}

abbrev property : String → Option Item → PropertySchema Item
property type_name default = record {
  default = default;
  initial_default = none;
  type_name = some type_name;
  required = true;
}

abbrev port_schema : Schema Item
port_schema =
    ("port", property "integer" none) ∷ ("protocol", property "string" (some (text "tcp"))) ∷ []

abbrev types : Dict String (Schema Item)
types = ("endpoint", port_schema) ∷ []

abbrev given : Item
given = dict (field "port" (number 80) end)

abbrev completed : Item
completed = dict (field "port" (number 80) (field "protocol" (text "tcp") end))

program : Unit {0}
unfolding get put update flatten_schema primitive_type accepts check_defined merge_properties
    merge_flattened with_derived parse_value merge_schemas merge_property merge_schemas_loop
    same_data_type with_default
program = tt

given-completed : parse_value python types true 2 given none (some "endpoint") ≡ ok completed
unfolding program
given-completed = refl

types-IsDict : (name : String) (schema : Schema Item) → get name types ≡ some schema → IsDict schema
unfolding get
types-IsDict name schema h = elim (Bool-cases ("endpoint" == name)) [
  | inl own ↦
      let same : port_schema ≡ schema = ground arith in
      subst (λ (s : Schema Item). IsDict s) same (refl, (refl, tt))
  | inr other ↦ ground arith
]

parse_value-HasType_example : HasType python types true 2 completed (some "endpoint")
unfolding program
parse_value-HasType_example =
    parse_value-HasType python types true types-IsDict 2 given none (some "endpoint") completed
      given-completed

parse_value-again_example :
    parse_value python types true 2 completed none (some "endpoint") ≡ ok completed
unfolding program
parse_value-again_example =
    parse_value-again python types true types-IsDict 2 given none (some "endpoint") completed
      given-completed

abbrev rank : String → ℕ
rank name = if name == "endpoint" then 1 else 0

types-nested :
    (name : String) (schema : Schema Item)
    → get name types ≡ some schema
    → AllBelow python true rank (rank name) schema
unfolding get
types-nested name schema h = elim (Bool-cases ("endpoint" == name)) [
  | inl own ↦
      let same : port_schema ≡ schema = ground arith in
      let named : "endpoint" ≡ name = ground (arith, eq_iff "endpoint" name) in
      subst (λ (s : Schema Item). AllBelow python true rank (rank name) s) same
        (subst (λ (x : String). AllBelow python true rank (rank x) port_schema) named
          (omega arith, (omega arith, tt)))
  | inr other ↦ ground arith
]

parse_value-ne_too_deep_example :
    parse_value python types true 2 given none (some "endpoint") ≢ raise too_deep
unfolding program
parse_value-ne_too_deep_example =
    parse_value-ne_too_deep python types true rank types-nested 2 given none (some "endpoint")
      (omega arith)

-- A derived type gives its endpoint a port of its own.
abbrev parent : Schema Item
parent = ("endpoint", property "endpoint" (some given)) ∷ []

abbrev child : Schema Item
child = ("endpoint", property "endpoint" none) ∷ []

abbrev merged_child : Schema Item
merged_child = ("endpoint", property "endpoint" (some completed)) ∷ []

child_merged : merge_schemas python types 2 parent child ≡ ok merged_child
unfolding program
child_merged = refl

merge_schemas-MergedAt_example :
    MergedAt python types 2
      (get "endpoint" parent)
      (get "endpoint" child)
      (get "endpoint" merged_child)
unfolding program
merge_schemas-MergedAt_example =
    merge_schemas-MergedAt python types 2 parent child {merged = merged_child} (refl, tt)
      child_merged "endpoint"
