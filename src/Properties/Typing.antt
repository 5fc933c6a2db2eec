-- ===== src/Properties/Typing.antt =====
-- A value that `parse_value` returns has the type that was asked for.
use cloudify_common.Properties.Loop.{
  merge_properties-cons, parse_value-cases, merge_properties-IsDict, merge_properties-none,
}
use cloudify_common.Prelude.{
  ℕ, zero, suc, String, Bool, true, false, ◌&&◌, Option, none, some, [], ◌∷◌, ◌≡◌, ◌⊎◌, inl, inr,
  ◌==◌, string_eq, Result, ok, Option-cases, Bool-cases, arith, eq_iff, subst,
}
use cloudify_common.Prelude.Dict.{Dict, get, update, has_key, IsDict}
use cloudify_common.Interfaces.Operation.{PropertySchema, Schema}
use cloudify_common.Properties.{
  integer_type, float_type, boolean_type, string_type, regex_type, list_type, dict_type, Python,
  PropertyError, PrimitiveType, primitive_type, accepts, merge_properties, with_derived,
  parse_value,
}

abbrev name_of : PrimitiveType → String
name_of integer_type = "integer"
name_of float_type = "float"
name_of boolean_type = "boolean"
name_of string_type = "string"
name_of regex_type = "regex"
name_of list_type = "list"
name_of dict_type = "dict"

module _ (python : Python) (data_types : Dict String (Schema (python.Value)))
    (raise_on_missing : Bool) where
  open python use {
    Value, items, of_items, items-of_items, is_function, is_integral, is_number, is_bool, is_text,
    is_sequence, compiles,
  }

  -- Each property that is there has the type that the schema gives it, one that is not there may be
  -- left out, and there is no other.
  abbrev pub EachTyped :
      (Value → Option String → Type 0) → Schema Value → Dict String Value → Type 0
  EachTyped typed schema d =
      ((key : String) → has_key key d ≡ true → has_key key schema ≡ true)
      × ((key : String) (prop : PropertySchema Value)
          → get key schema ≡ some prop
          → ((v : Value) × (get key d ≡ some v) × typed v prop.type_name)
            ⊎ ((get key d ≡ none) × ((prop.required && raise_on_missing) ≡ false)))

  -- A value of a primitive type, by the name of the type.
  abbrev pub IsPrimitive : String → Value → Type 0
  IsPrimitive type_name v =
      ((type_name ≡ "integer") × (is_integral v ≡ true) × (is_bool v ≡ false))
      ⊎ (((type_name ≡ "float") × (is_number v ≡ true) × (is_bool v ≡ false))
          ⊎ (((type_name ≡ "boolean") × (is_bool v ≡ true))
              ⊎ ((type_name ≡ "string")
                  ⊎ (((type_name ≡ "regex") × (is_text v ≡ true) × (compiles v ≡ true))
                      ⊎ (((type_name ≡ "list") × (is_sequence v ≡ true))
                          ⊎ ((type_name ≡ "dict")
                              × (d : Dict String Value) × (items v ≡ some d)))))))

  primitive-name :
      (type_name : String) (p : PrimitiveType)
      → primitive_type type_name ≡ some p
      → type_name ≡ name_of p
  unfolding primitive_type
  primitive-name type_name integer_type known = ground (arith, eq_iff type_name "integer")
  primitive-name type_name float_type known = ground (arith, eq_iff type_name "float")
  primitive-name type_name boolean_type known = ground (arith, eq_iff type_name "boolean")
  primitive-name type_name string_type known = ground (arith, eq_iff type_name "string")
  primitive-name type_name regex_type known = ground (arith, eq_iff type_name "regex")
  primitive-name type_name list_type known = ground (arith, eq_iff type_name "list")
  primitive-name type_name dict_type known = ground (arith, eq_iff type_name "dict")

  accepts-IsPrimitive :
      (type_name : String) (p : PrimitiveType) (v : Value)
      → type_name ≡ name_of p
      → accepts python p v ≡ true
      → IsPrimitive type_name v
  unfolding accepts
  accepts-IsPrimitive type_name integer_type v same accepted =
      inl (same, ground arith, ground arith)
  accepts-IsPrimitive type_name float_type v same accepted =
      inr (inl (same, ground arith, ground arith))
  accepts-IsPrimitive type_name boolean_type v same accepted = inr (inr (inl (same, accepted)))
  accepts-IsPrimitive type_name string_type v same accepted = inr (inr (inr (inl (same))))
  accepts-IsPrimitive type_name regex_type v same accepted =
      inr (inr (inr (inr (inl (same, ground arith, ground arith)))))
  accepts-IsPrimitive type_name list_type v same accepted =
      inr (inr (inr (inr (inr (inl (same, accepted))))))
  accepts-IsPrimitive type_name dict_type v same accepted = elim (Option-cases (items v)) [
    | inl nothing ↦ ground arith
    | inr (d, found) ↦ inr (inr (inr (inr (inr (inr (same, d, found))))))
  ]

  -- A value of a type: anything where there is no type, an intrinsic function, what a primitive type
  -- asks for, and for a data type a dict whose properties have their types. `n` bounds the nesting.
  pub HasType : ℕ → Value → Option String → Type 0
  HasType zero v type_name = ⊥
  HasType (suc n) v none = Unit
  HasType (suc n) v (some type_name) =
      (is_function v ≡ true)
      ⊎ (IsPrimitive type_name v
          ⊎ ((schema : Schema Value) × (d : Dict String Value) × (primitive_type type_name ≡ none)
              × (get type_name data_types ≡ some schema)
              × (items v ≡ some d)
              × EachTyped (HasType n) schema d))

  module _ (parse : Value → Option Value → Option String → Result PropertyError Value)
      (typed : Value → Option String → Type 0)
      (sound : (v : Value) (derived : Option Value) (type_name : Option String) (v' : Value)
        → parse v derived type_name ≡ ok v'
        → typed v' type_name)
      (flattened merged : Dict String Value) where
    abbrev Found : String → PropertySchema Value → Dict String Value → Type 0
    Found key prop d =
        ((v : Value) × (get key d ≡ some v) × typed v prop.type_name)
        ⊎ ((get key d ≡ none) × ((prop.required && raise_on_missing) ≡ false))

    merge_properties-typed :
        (schema : Schema Value) {d : Dict String Value}
        → IsDict schema
        → merge_properties python parse raise_on_missing flattened merged schema ≡ ok d
        → (key : String) (prop : PropertySchema Value) → get key schema ≡ some prop
        → Found key prop d
    unfolding get
    merge_properties-typed [] distinct h key prop m = cc
    merge_properties-typed ((k, p) ∷ schema) {d} distinct h key prop m =
        elim (merge_properties-cons python raise_on_missing parse flattened merged k p schema d h) [
          | inl (missing, free, more) ↦ elim (Bool-cases (k == key)) [
            | inl own ↦
                let same_prop : p ≡ prop = ground arith in
                let gone : get key schema ≡ none = ground (arith, eq_iff k key) in
                inr (
                  merge_properties-none python raise_on_missing parse flattened merged schema more
                      key gone,
                  rw (← same_prop) free,
                )
            | inr other ↦ merge_properties-typed schema distinct.1 more key prop (ground arith)
          ]
          | inr (value, v', rest, present, parsed, more, same) ↦
              subst (Found key prop) same (elim (Bool-cases (k == key)) [
                | inl own ↦
                    let same_prop : p ≡ prop = ground arith in
                    inl (
                      v',
                      ground arith,
                      subst (λ (x : PropertySchema Value). typed v' x.type_name) same_prop
                          (sound value (get k flattened) p.type_name v' parsed),
                    )
                | inr other ↦
                    let later =
                      merge_properties-typed schema distinct.1 more key prop (ground arith) in
                    elim later [
                      | inl (v, found, ty) ↦ inl (v, ground arith, ty)
                      | inr (none_found, free) ↦ inr (ground arith, free)
                    ]
              ])
        ]

    merge_flattened-EachTyped :
        (given : Dict String Value) (schema : Schema Value) {d : Dict String Value}
        → IsDict schema
        → merge_properties python parse raise_on_missing flattened merged schema ≡ ok d
        → EachTyped typed schema d
    merge_flattened-EachTyped given schema distinct h = (
      λ key m. elim (Option-cases (get key schema)) [
        | inl gone ↦ ground (
          arith,
          merge_properties-none python raise_on_missing parse flattened merged schema h key,
        )
        | inr (p, found) ↦ ground (arith, found)
      ],
      merge_properties-typed schema distinct h,
    )

  -- The schemas of all data types are dicts: no property stands twice.
  abbrev pub AreDicts : Type 0
  AreDicts =
      (name : String) (schema : Schema Value) → get name data_types ≡ some schema → IsDict schema

  pub parse_value-HasType :
      AreDicts
      → (n : ℕ) (value : Value) (derived : Option Value) (type_name : Option String) (v' : Value)
      → parse_value python data_types raise_on_missing n value derived type_name ≡ ok v'
      → HasType n v' type_name
  unfolding parse_value HasType
  parse_value-HasType dicts zero value derived type_name v' h = cc
  parse_value-HasType dicts (suc n) value derived none v' h = tt
  parse_value-HasType dicts (suc n) value derived (some type_name) v' h =
      elim (parse_value-cases python data_types raise_on_missing n value derived type_name v' h) [
        | inl (function, same) ↦ inl (rw (← same) function)
        | inr (inl (p, known, accepted, same)) ↦ inr (
            inl (
              accepts-IsPrimitive type_name p v' (primitive-name type_name p known)
                (rw (← same) accepted)))
        | inr (inr (schema, given, d, defined, found, is_dict, checked, looped, same)) ↦ inr (
            inr (
              schema,
              d,
              defined,
              found,
              rw (← same) (
                  items-of_items d (
                    merge_properties-IsDict python raise_on_missing
                      (parse_value python data_types raise_on_missing n)
                      (with_derived python schema derived)
                      (update (with_derived python schema derived) given) schema
                      (dicts type_name schema found) looped)),
              merge_flattened-EachTyped (parse_value python data_types raise_on_missing n)
                  (HasType n) (parse_value-HasType dicts n) (with_derived python schema derived)
                  (update (with_derived python schema derived) given) given schema
                  (dicts type_name schema found) looped,
            ))
      ]
