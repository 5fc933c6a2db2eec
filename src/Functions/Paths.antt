-- ===== src/Functions/Paths.antt =====
-- What the loops that follow a path find.
use cloudify_common.Prelude.{
  ℕ, zero, eq_iff, ◌≢◌, ap, ◌-◌, ◌+◌, suc, String, Bool, true, false, ◌||◌, some, List, [], ◌∷◌,
  string_eq, ok, raise, Result-cases, subst, ◌≡◌, refl, ◌↔◌, arith, inl, inr, Bool-cases, sym,
}
use cloudify_common.Functions.{
  Key, same_key, name, index, from_end, Value, null, boolean, int, negative, text, list_of, dict_of,
  Values, end, item, Entries, size, nth, entry_of, item_of, step, get_input_attribute,
  nested_attribute, capability_value, in_value_dict, no_entry, entry, is_function_value,
  get_property_value,
}

-- The place of a value in a list.
pub data StandsAt : ℕ → Values → Value → Type 0 where
  at_head : (value : Value) (values : Values) → StandsAt 0 (item value values) value
  later :
      (n : ℕ) (value other : Value) (values : Values)
      → StandsAt n values value
      → StandsAt (suc n) (item other values) value

-- The value under a key of a dict, which is that of its first entry for the key.
pub data StandsUnder : Key → Entries → Value → Type 0 where
  here :
      (key : Key) (value : Value) (entries : Entries)
      → StandsUnder key (entry key value entries) value
  behind :
      (key other : Key) (value unused : Value) (entries : Entries)
      → other ≢ key
      → StandsUnder key entries value
      → StandsUnder key (entry other unused entries) value

nth-StandsAt :
    (n : ℕ) (values : Values) (value : Value) → nth n values ≡ some value → StandsAt n values value
unfolding nth
nth-StandsAt n end value h = cc
nth-StandsAt zero (item w values) value h =
    let same : w ≡ value = ground arith in
    subst (StandsAt 0 (item w values)) same (at_head w values)
nth-StandsAt (suc n) (item w values) value h =
    later n value w values (nth-StandsAt n values value (ground arith))

StandsAt-nth :
    (n : ℕ) (values : Values) (value : Value) → StandsAt n values value → nth n values ≡ some value
unfolding nth
StandsAt-nth _ _ _ (at_head value values) = refl
StandsAt-nth _ _ _ (later n value w values r) = ground (arith, StandsAt-nth n values value r)

same_key-eq : (a b : Key) → same_key a b ≡ true → a ≡ b
same_key-eq (name x) (name y) h = ap name ((eq_iff x y).0 h)
same_key-eq (name x) (index j) h = cc
same_key-eq (name x) (from_end j) h = cc
same_key-eq (index i) (name y) h = cc
same_key-eq (index i) (index j) h = ground arith
same_key-eq (index i) (from_end j) h = cc
same_key-eq (from_end i) (name y) h = cc
same_key-eq (from_end i) (index j) h = cc
same_key-eq (from_end i) (from_end j) h = ground arith

same_key_refl : (a : Key) → same_key a a ≡ true
same_key_refl (name x) = (eq_iff x x).1 refl
same_key_refl (index i) = ground arith
same_key_refl (from_end i) = ground arith

entry_of-StandsUnder :
    (key : Key) (entries : Entries) (value : Value)
    → entry_of key entries ≡ some value
    → StandsUnder key entries value
unfolding entry_of
entry_of-StandsUnder key no_entry value h = cc
entry_of-StandsUnder key (entry other w entries) value h = elim (Bool-cases (same_key other key)) [
  | inl same ↦
      let equal : w ≡ value = ground arith in
      subst (λ (k : Key). StandsUnder key (entry k w entries) value)
        (sym (same_key-eq other key same))
        (subst (StandsUnder key (entry key w entries)) equal (here key w entries))
  | inr apart ↦
      behind key other value w entries
        (λ same.
          let t : same_key other key ≡ true =
            subst (λ (k : Key). same_key other k ≡ true) same (same_key_refl other) in
          cc)
        (entry_of-StandsUnder key entries value (ground arith))
]

StandsUnder-entry_of :
    (key : Key) (entries : Entries) (value : Value)
    → StandsUnder key entries value
    → entry_of key entries ≡ some value
unfolding entry_of
StandsUnder-entry_of _ _ _ (here key value entries) = rw (same_key_refl key, entry_of) refl
StandsUnder-entry_of _ _ _ (behind key other value w entries apart r) =
    elim (Bool-cases (same_key other key)) [
      | inl same ↦ absurd (apart (same_key-eq other key same))
      | inr differ ↦ ground (arith, StandsUnder-entry_of key entries value r)
    ]

-- A path leads from a value to another: by the keys of dicts, and by the places of lists, which an
-- index from the end counts backwards.
pub data Reaches : Value → List Key → Value → Type 0 where
  there : (value : Value) → Reaches value [] value
  in_dict :
      (key : Key) (entries : Entries) (value target : Value) (path : List Key)
      → StandsUnder key entries value
      → Reaches value path target
      → Reaches (dict_of entries) (key ∷ path) target
  in_list :
      (n : ℕ) (values : Values) (value target : Value) (path : List Key)
      → StandsAt n values value
      → Reaches value path target
      → Reaches (list_of values) (index n ∷ path) target
  in_reverse :
      (n place : ℕ) (values : Values) (value target : Value) (path : List Key)
      → suc (place + n) ≡ size values
      → StandsAt place values value
      → Reaches value path target
      → Reaches (list_of values) (from_end n ∷ path) target

step-ok :
    (value : Value) (key : Key) (path : List Key) (target : Value)
    → Reaches value (key ∷ path) target
    → (found : Value) × (step value key ≡ ok found) × Reaches found path target
unfolding step item_of
step-ok _ _ _ _ (in_dict key entries value target path found rest) =
    (value, rw (StandsUnder-entry_of key entries value found, step, item_of) refl, rest)
step-ok _ _ _ _ (in_list n values value target path found rest) =
    (value, rw (StandsAt-nth n values value found, step, item_of) refl, rest)
step-ok _ _ _ _ (in_reverse n place values value target path at found rest) =
    let same : place ≡ size values - 1 - n = omega arith in
    (value, ground (arith, StandsAt-nth place values value found), rest)

Reaches-step :
    (value found target : Value) (key : Key) (path : List Key)
    → step value key ≡ ok found
    → Reaches found path target
    → Reaches value (key ∷ path) target
unfolding step item_of
Reaches-step (dict_of entries) found target key path one rest =
    in_dict key entries found target path (entry_of-StandsUnder key entries found (ground arith))
      rest
Reaches-step (list_of values) found target (index n) path one rest =
    in_list n values found target path (nth-StandsAt n values found (ground arith)) rest
Reaches-step (list_of values) found target (from_end n) path one rest =
    in_reverse n (size values - 1 - n) values found target path (ground arith)
      (nth-StandsAt (size values - 1 - n) values found (ground arith)) rest
Reaches-step (list_of values) found target (name x) path one rest = cc
Reaches-step null found target key path one rest = cc
Reaches-step (boolean b) found target key path one rest = cc
Reaches-step (int n) found target key path one rest = cc
Reaches-step (negative n) found target key path one rest = cc
Reaches-step (text x) found target key path one rest = cc

Reaches-here : (value target : Value) → Reaches value [] target → value ≡ target
Reaches-here value _ (there value') = refl

get_input_attribute-Reaches :
    (path : List Key) (value target : Value)
    → Reaches value path target
    → get_input_attribute value path ≡ ok target
unfolding get_input_attribute
get_input_attribute-Reaches [] value target r = ap ok (Reaches-here value target r)
get_input_attribute-Reaches (key ∷ path) value target r =
    let (found, one, rest) = step-ok value key path target r in
    rw (one, get_input_attribute) (get_input_attribute-Reaches path found target rest)

Reaches-get_input_attribute :
    (path : List Key) (value target : Value)
    → get_input_attribute value path ≡ ok target
    → Reaches value path target
unfolding get_input_attribute
Reaches-get_input_attribute [] value target h =
    subst (Reaches value []) (ground (arith, h)) (there value)
Reaches-get_input_attribute (key ∷ path) value target h = elim (Result-cases (step value key)) [
  | inl (error, one) ↦ ground arith
  | inr (found, one) ↦
      Reaches-step value found target key path one
        (Reaches-get_input_attribute path found target (ground arith))
]

nested_attribute-Reaches :
    (path : List Key) (value target : Value)
    → Reaches value path target
    → nested_attribute value path ≡ ok target
unfolding nested_attribute
nested_attribute-Reaches [] value target r = ap ok (Reaches-here value target r)
nested_attribute-Reaches (key ∷ path) value target r =
    let (found, one, rest) = step-ok value key path target r in
    rw (one, nested_attribute) (nested_attribute-Reaches path found target rest)

Reaches-nested_attribute :
    (path : List Key) (value target : Value)
    → nested_attribute value path ≡ ok target
    → Reaches value path target
unfolding nested_attribute
Reaches-nested_attribute [] value target h =
    subst (Reaches value []) (ground (arith, h)) (there value)
Reaches-nested_attribute (key ∷ path) value target h = elim (Result-cases (step value key)) [
  | inl (error, one) ↦ ground arith
  | inr (found, one) ↦
      Reaches-step value found target key path one
        (Reaches-nested_attribute path found target (ground arith))
]

module _ (is_registered : String → Bool) where
  -- The path meets a function that is to be evaluated later.
  abbrev pub meets_function : Value → List Key → Bool
  meets_function value [] = false
  meets_function value (key ∷ path) =
      is_function_value is_registered value
      || (elim (step value key) [ ok found ↦ meets_function found path | raise error ↦ false ])

  get_property_value-Reaches :
      (path : List Key) (value target : Value)
      → meets_function value path ≡ false
      → Reaches value path target
      → get_property_value is_registered true value path ≡ ok target
  unfolding get_property_value
  get_property_value-Reaches [] value target plain r = ap ok (Reaches-here value target r)
  get_property_value-Reaches (key ∷ path) value target plain r =
      let here : is_function_value is_registered value ≡ false = ground arith in
      let (found, one, rest) = step-ok value key path target r in
      let later = get_property_value-Reaches path found target (ground arith) rest in
      rw (here, one) later

  Reaches-get_property_value :
      (path : List Key) (value target : Value)
      → meets_function value path ≡ false
      → get_property_value is_registered true value path ≡ ok target
      → Reaches value path target
  unfolding get_property_value
  Reaches-get_property_value [] value target plain h =
      subst (Reaches value []) (ground (arith, h)) (there value)
  Reaches-get_property_value (key ∷ path) value target plain h =
      let here : is_function_value is_registered value ≡ false = ground arith in
      elim (Result-cases (step value key)) [
        | inl (error, one) ↦ ground arith
        | inr (found, one) ↦
            Reaches-step value found target key path one
              (Reaches-get_property_value path found target (ground arith) (ground arith))
      ]

-- A path of keys and places, those from the end included, is followed to the value that it leads to,
-- and nothing else is found: by get_input, by get_capability, which returns a dict with the value
-- under `value`, and by get_property where the path meets no function.
pub loops-Reaches :
    (is_registered : String → Bool) (root target : Value) (path : List Key)
    (deployment capability : Key)
    → ((get_input_attribute root path ≡ ok target) ↔ Reaches root path target)
      × ((capability_value root (deployment ∷ capability ∷ path)
            ≡ ok (dict_of (entry (name "value") target no_entry)))
          ↔ Reaches root path target)
      × (meets_function is_registered root path ≡ false
          → (get_property_value is_registered true root path ≡ ok target)
            ↔ Reaches root path target)
unfolding capability_value in_value_dict
loops-Reaches is_registered root target path deployment capability = (
  (Reaches-get_input_attribute path root target, get_input_attribute-Reaches path root target),
  (
    λ h. elim (Result-cases (nested_attribute root path)) [
      | inl (error, stopped) ↦ ground arith
      | inr (value, found) ↦ Reaches-nested_attribute path root target (ground arith)
    ],
    λ r. rw (nested_attribute-Reaches path root target r) refl,
  ),
  λ plain. (
    Reaches-get_property_value is_registered path root target plain,
    get_property_value-Reaches is_registered path root target plain,
  ),
)
