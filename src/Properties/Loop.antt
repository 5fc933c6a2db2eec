-- ===== src/Properties/Loop.antt =====
-- What a successful call did: one round of the loop over a schema, and one level of `parse_value`.
use cloudify_common.Prelude.{
  ℕ, suc, String, Bool, true, false, ◌&&◌, Option, none, some, [], ◌∷◌, ◌≡◌, ◌⊎◌, inl, inr,
  string_eq, Result, ok, raise, ◌>>=◌, >>=-eq-ok, Option-cases, Bool-cases, arith, subst, ap,
}
use cloudify_common.Prelude.Dict.{Dict, get, update, IsDict}
use cloudify_common.Interfaces.Operation.{PropertySchema, Schema}
use cloudify_common.Properties.{
  Python, PropertyError, PrimitiveType, primitive_type, accepts, check_defined, merge_properties,
  merge_flattened, with_derived, parse_value,
}

ne_of_raise :
    {A : Type 0} {e : PropertyError} {a : A} → ◌≡◌ {A = Result PropertyError A} (raise e) (ok a) → ⊥
ne_of_raise h = cc

module _ (python : Python) (raise_on_missing : Bool) where
  open python use {Value}

  module _ (parse : Value → Option Value → Option String → Result PropertyError Value)
      (flattened merged : Dict String Value) where
    -- A property with no value that may be left out.
    abbrev pub LeftOut : String → PropertySchema Value → Schema Value → Dict String Value → Type 0
    LeftOut k p schema d =
        (get k merged ≡ none)
        × ((p.required && raise_on_missing) ≡ false)
        × (merge_properties python parse raise_on_missing flattened merged schema ≡ ok d)

    -- A property with a value, which is parsed.
    abbrev pub PutIn : String → PropertySchema Value → Schema Value → Dict String Value → Type 0
    PutIn k p schema d =
        (value : Value) × (v' : Value) × (rest : Dict String Value) × (get k merged ≡ some value)
        × (parse value (get k flattened) p.type_name ≡ ok v')
        × (merge_properties python parse raise_on_missing flattened merged schema ≡ ok rest)
        × ((k, v') ∷ rest ≡ d)

    put_in :
        (k : String) (p : PropertySchema Value) (schema : Schema Value) (d : Dict String Value)
        → (value : Value) → get k merged ≡ some value
        → (parse value (get k flattened) p.type_name >>= λ v.
            merge_properties python parse raise_on_missing flattened merged schema >>= λ rest.
            ok ((k, v) ∷ rest))
          ≡ ok d
        → PutIn k p schema d
    put_in k p schema d value present h =
        let (v', parsed, more) =
          >>=-eq-ok (parse value (get k flattened) p.type_name)
            (λ v. merge_properties python parse raise_on_missing flattened merged schema >>= λ rest.
              ok ((k, v) ∷ rest))
            h in
        let (rest, merged_rest, same) =
          >>=-eq-ok (merge_properties python parse raise_on_missing flattened merged schema)
            (λ r. ok ((k, v') ∷ r)) more in
        (value, v', rest, present, parsed, merged_rest, ground arith)

    pub merge_properties-cons :
        (k : String) (p : PropertySchema Value) (schema : Schema Value) (d : Dict String Value)
        → merge_properties python parse raise_on_missing flattened merged ((k, p) ∷ schema) ≡ ok d
        → LeftOut k p schema d ⊎ PutIn k p schema d
    unfolding merge_properties
    merge_properties-cons k p schema d h = elim (Option-cases (get k merged)) [
      | inl missing ↦ inl (missing, ground arith, ground arith)
      | inr (value, present) ↦
          inr (put_in k p schema d value present (rw (present, merge_properties) at h))
    ]

    pub merge_properties-LeftOut :
        (k : String) (p : PropertySchema Value) (schema : Schema Value) {d : Dict String Value}
        → LeftOut k p schema d
        → merge_properties python parse raise_on_missing flattened merged ((k, p) ∷ schema) ≡ ok d
    unfolding merge_properties
    merge_properties-LeftOut k p schema (missing, free, rest) =
        rw (missing, merge_properties) (rw free rest)

    pub merge_properties-PutIn :
        (k : String) (p : PropertySchema Value) (schema : Schema Value) {d : Dict String Value}
        → PutIn k p schema d
        → merge_properties python parse raise_on_missing flattened merged ((k, p) ∷ schema) ≡ ok d
    unfolding merge_properties
    merge_properties-PutIn k p schema (value, v', rest, present, parsed, more, same) =
        rw (present, merge_properties) (rw parsed (rw more (ap ok same)))

    pub merge_properties-none :
        (schema : Schema Value) {d : Dict String Value}
        → merge_properties python parse raise_on_missing flattened merged schema ≡ ok d
        → (key : String) → get key schema ≡ none
        → get key d ≡ none
    unfolding merge_properties get
    merge_properties-none [] h key m = ground arith
    merge_properties-none ((k, p) ∷ schema) {d} h key m =
        elim (merge_properties-cons k p schema d h) [
          | inl (missing, _, more) ↦ merge_properties-none schema more key (ground arith)
          | inr (value, v', rest, _, _, more, same) ↦
              ground (arith, same, merge_properties-none schema more key)
        ]

    pub merge_properties-IsDict :
        (schema : Schema Value) {d : Dict String Value}
        → IsDict schema
        → merge_properties python parse raise_on_missing flattened merged schema ≡ ok d
        → IsDict d
    unfolding merge_properties
    merge_properties-IsDict [] {d} distinct h =
        subst (λ (x : Dict String Value). IsDict x) (let p : [] ≡ d = ground arith in p) tt
    merge_properties-IsDict ((k, p) ∷ schema) {d} distinct h =
        elim (merge_properties-cons k p schema d h) [
          | inl (missing, _, more) ↦ merge_properties-IsDict schema distinct.1 more
          | inr (value, v', rest, _, _, more, same) ↦
              subst (λ (x : Dict String Value). IsDict x) same
                (
                  merge_properties-none schema more k distinct.0,
                  merge_properties-IsDict schema distinct.1 more,
                )
        ]

module _ (python : Python) (data_types : Dict String (Schema (python.Value)))
    (raise_on_missing : Bool) where
  open python use {Value, items, of_items, is_function}

  -- The value of a data type, at one level.
  abbrev pub OfDataType : ℕ → Value → Option Value → String → Value → Type 0
  OfDataType n value derived type_name v' =
      (schema : Schema Value) × (given : Dict String Value) × (d : Dict String Value)
      × (primitive_type type_name ≡ none)
      × (get type_name data_types ≡ some schema)
      × (items value ≡ some given)
      × (check_defined python given schema ≡ ok tt)
      × (merge_properties python (parse_value python data_types raise_on_missing n) raise_on_missing
            (with_derived python schema derived) (update (with_derived python schema derived) given)
            schema
          ≡ ok d)
      × (of_items d ≡ v')

  abbrev pub OfPrimitive : Value → String → Value → Type 0
  OfPrimitive value type_name v' =
      (p : PrimitiveType) × (primitive_type type_name ≡ some p)
      × (accepts python p value ≡ true)
      × (value ≡ v')

  of_data_type :
      (n : ℕ) (value : Value) (derived : Option Value) (type_name : String) (v' : Value)
      → is_function value ≡ false
      → primitive_type type_name ≡ none
      → (schema : Schema Value) → get type_name data_types ≡ some schema
      → parse_value python data_types raise_on_missing (suc n) value derived (some type_name)
        ≡ ok v'
      → OfDataType n value derived type_name v'
  unfolding parse_value merge_flattened
  of_data_type n value derived type_name v' plain defined schema found h =
      elim (Option-cases (items value)) [
        | inl no_dict ↦ absurd (ne_of_raise (rw (plain, defined, found, no_dict, parse_value) at h))
        | inr (given, is_dict) ↦
            let parse = parse_value python data_types raise_on_missing n in
            let defaults = with_derived python schema derived in
            let rest = λ (u : Unit {0}).
              merge_properties python parse raise_on_missing defaults (update defaults given)
                schema in
            let finish = λ (x : Dict String Value).
              let r : Result PropertyError Value = ok (of_items x) in r in
            let (d, merged, same) =
              >>=-eq-ok (merge_flattened python parse raise_on_missing given schema defaults) finish
                (rw (plain, defined, found, is_dict, parse_value) at h) in
            let (u, checked, looped) = >>=-eq-ok (check_defined python given schema) rest merged in
            (schema, given, d, defined, found, is_dict, checked, looped, ground arith)
      ]

  pub parse_value-cases :
      (n : ℕ) (value : Value) (derived : Option Value) (type_name : String) (v' : Value)
      → parse_value python data_types raise_on_missing (suc n) value derived (some type_name)
        ≡ ok v'
      → ((is_function value ≡ true) × (value ≡ v'))
        ⊎ (OfPrimitive value type_name v' ⊎ OfDataType n value derived type_name v')
  unfolding parse_value
  parse_value-cases n value derived type_name v' h = elim (Bool-cases (is_function value)) [
    | inl function ↦ inl (function, ground arith)
    | inr plain ↦ inr (elim (Option-cases (primitive_type type_name)) [
      | inr (p, known) ↦ inl (p, known, ground arith, ground arith)
      | inl defined ↦ elim (Option-cases (get type_name data_types)) [
        | inl unknown ↦ ground arith
        | inr (schema, found) ↦
            inr (of_data_type n value derived type_name v' plain defined schema found h)
      ]
    ])
  ]
