-- ===== src/Functions/Examples.antt =====
-- The theorems on intrinsic functions: the ports of a node.
use cloudify_common.Prelude.{
  String, ◌≡◌, refl, Bool, true, false, ◌↔◌, none, some, [], ◌∷◌, ok, string_eq, ◌==◌,
}
use cloudify_common.Functions.{
  name, from_end, Value, int, text, list_of, dict_of, end, item, no_entry, entry,
  get_input_attribute, capability_value, get_property_value, step, entry_of, item_of, nth, size,
}
use cloudify_common.Functions.Paths.{Reaches, meets_function, loops-Reaches}
use cloudify_common.Functions.Handler.{labels_cache_entry}

abbrev registered : String → Bool
registered x = x == "get_secret"

abbrev ports : Value
ports = list_of (item (int 80) (item (int 443) end))

abbrev properties : Value
properties = dict_of (entry (name "ports") ports (entry (name "user") (text "admin") no_entry))

loops-Reaches_example :
    ((get_input_attribute properties (name "ports" ∷ from_end 0 ∷ []) ≡ ok (int 443))
      ↔ Reaches properties (name "ports" ∷ from_end 0 ∷ []) (int 443))
    × ((capability_value properties (name "dep" ∷ name "cap" ∷ name "ports" ∷ from_end 0 ∷ [])
          ≡ ok (dict_of (entry (name "value") (int 443) no_entry)))
        ↔ Reaches properties (name "ports" ∷ from_end 0 ∷ []) (int 443))
    × (meets_function registered properties (name "ports" ∷ from_end 0 ∷ []) ≡ false
        → (get_property_value registered true properties (name "ports" ∷ from_end 0 ∷ [])
            ≡ ok (int 443))
          ↔ Reaches properties (name "ports" ∷ from_end 0 ∷ []) (int 443))
loops-Reaches_example =
    loops-Reaches registered properties (int 443) (name "ports" ∷ from_end 0 ∷ []) (name "dep")
      (name "cap")

last_port : get_input_attribute properties (name "ports" ∷ from_end 0 ∷ []) ≡ ok (int 443)
unfolding get_input_attribute step entry_of item_of nth size
last_port = refl

abbrev digit : Value → String
digit value = "0"

-- Two labels that share a key of the cache.
shared_entry : labels_cache_entry digit "env" (some 0) ≡ labels_cache_entry digit "env_0" none
unfolding labels_cache_entry
shared_entry = refl
