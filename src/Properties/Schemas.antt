-- ===== src/Properties/Schemas.antt =====
-- `merge_schemas` of dsl_parser/utils.py, the schema of a type over that of its parent, and
-- `cast_to_type`. A property of the merged schema is the overriding schema's own object, which is
-- changed with it.
use cloudify_common.Prelude.{
  ℕ, String, Bool, true, false, not, ◌&&◌, Option, none, some, [], ◌∷◌, ◌≡◌, inl, inr, refl, ◌==◌,
  string_eq, Result, ok, ◌>>=◌, >>=-eq-ok, Option-cases, Bool-cases, arith, eq_iff, if◌then◌else◌,
  is_none, subst, sym, get_or, ◌∙◌, ap,
}
use cloudify_common.Prelude.Dict.{Dict, get, put, has_key, IsDict, get-put}
use cloudify_common.Interfaces.Operation.{PropertySchema, Schema}
use cloudify_common.Properties.{Python, PropertyError, primitive_type, parse_value}

is_none-eq : {A : Type 0} {o : Option A} → is_none o ≡ true → o ≡ none
is_none-eq {A} {o} h = elim (Option-cases o) [
  | inl nothing ↦ nothing
  | inr (a, found) ↦ ground arith
]

module _ (python : Python) (data_types : Dict String (Schema (python.Value))) where
  open python use {Value, is_text, of_items, truthy}

  -- The test whether two definitions of a property have the same data type.
  unfoldable pub same_data_type : Option String → Option String → Bool
  unfolding primitive_type
  same_data_type (some t) (some t') = t == t' && has_key t data_types && is_none (primitive_type t)
  same_data_type _ _ = false

  -- `if default_value: merged[key]['default'] = default_value`
  unfoldable pub with_default : Value → PropertySchema Value → PropertySchema Value
  with_default value prop = if truthy value then record prop { default = some value } else prop

  -- A property that both schemas have.
  unfoldable pub merge_property :
      ℕ → PropertySchema Value → PropertySchema Value → Result PropertyError (PropertySchema Value)
  unfolding same_data_type with_default
  merge_property fuel overriding overridden =
      if same_data_type overriding.type_name overridden.type_name
        && not (is_none overridden.default)
      then (do
        default_value ←
            parse_value python data_types false fuel
              (get_or overriding.initial_default (of_items [])) overridden.default
              overridden.type_name
        ok (with_default default_value overriding))
      else ok overriding

  -- The loop over the overridden schema.
  unfoldable pub merge_schemas_loop :
      ℕ → Schema Value → Schema Value → Schema Value → Result PropertyError (Schema Value)
  unfolding merge_property
  merge_schemas_loop fuel [] overriding merged = ok merged
  merge_schemas_loop fuel ((key, old) ∷ overridden) overriding merged = elim (get key overriding) [
    | none ↦ merge_schemas_loop fuel overridden overriding (put key old merged)
    | some prop ↦ do
      merged_prop ← merge_property fuel prop old
      merge_schemas_loop fuel overridden overriding (put key merged_prop merged)
  ]

  unfoldable pub merge_schemas :
      ℕ → Schema Value → Schema Value → Result PropertyError (Schema Value)
  unfolding merge_schemas_loop
  merge_schemas fuel overridden overriding =
      merge_schemas_loop fuel overridden overriding overriding

  -- `cast_to_type`, where the arguments are `int`, `float` and the booleans that a text spells
  unfoldable pub cast_to_type :
      (Value → Option Value)
      → (Value → Option Value)
      → (Value → Option Value)
      → Value
      → Option String
      → Value
  cast_to_type to_int to_float to_bool value none = value
  cast_to_type to_int to_float to_bool value (some type_name) =
      if not (is_text value)
      then value
      else if type_name == "integer"
      then get_or (to_int value) value
      else if type_name == "float"
      then get_or (to_float value) value
      else if type_name == "boolean"
      then get_or (to_bool value) value
      else value

  -- What the loop leaves under a key, from what the two schemas and the merged one have there.
  abbrev AtEnd :
      ℕ
      → Option (PropertySchema Value)
      → Option (PropertySchema Value)
      → Option (PropertySchema Value)
      → Option (PropertySchema Value)
      → Type 0
  AtEnd fuel none prop middle result = result ≡ middle
  AtEnd fuel (some old) none middle result = result ≡ some old
  AtEnd fuel (some old) (some prop) middle result =
      (p : PropertySchema Value) × (merge_property fuel prop old ≡ ok p) × (result ≡ some p)

  -- A property that both schemas have, or that is the overridden one's.
  abbrev Kept :
      ℕ → Option (PropertySchema Value) → PropertySchema Value → PropertySchema Value → Type 0
  Kept fuel none old p = p ≡ old
  Kept fuel (some prop) old p = merge_property fuel prop old ≡ ok p

  AtEnd-Kept :
      (fuel : ℕ) (prop : Option (PropertySchema Value)) (old p : PropertySchema Value)
      → (middle result : Option (PropertySchema Value)) → Kept fuel prop old p
      → result ≡ some p
      → AtEnd fuel (some old) prop middle result
  AtEnd-Kept fuel none old p middle result kept e = e ∙ ap some kept
  AtEnd-Kept fuel (some prop) old p middle result kept e = (p, kept, e)

  round :
      (fuel : ℕ) (k key : String) (o p : PropertySchema Value)
      → (overridden overriding merged final : Schema Value) → get k overridden ≡ none
      → Kept fuel (get k overriding) o p
      → AtEnd fuel
          (get key overridden)
          (get key overriding)
          (get key (put k p merged))
          (get key final)
      → AtEnd fuel
          (get key ((k, o) ∷ overridden))
          (get key overriding)
          (get key merged)
          (get key final)
  unfolding get
  round fuel k key o p overridden overriding merged final distinct kept ih =
      elim (Bool-cases (k == key)) [
        | inl own ↦
            let same : k ≡ key = ground (arith, eq_iff k key) in
            let gone : get key overridden ≡ none = rw (← same) distinct in
            let middle : get key (put k p merged) ≡ some p =
              ground (arith, get-put k key p merged) in
            let at_end =
              subst
                (λ x. AtEnd fuel x (get key overriding) (get key (put k p merged)) (get key final))
                gone ih in
            rw own (
              AtEnd-Kept fuel (get key overriding) o p (get key merged) (get key final)
                (subst (λ x. Kept fuel (get x overriding) o p) same kept) (at_end ∙ middle))
        | inr other ↦
            let middle : get key (put k p merged) ≡ get key merged =
              ground (arith, get-put k key p merged) in
            rw other (
              subst (λ x. AtEnd fuel (get key overridden) (get key overriding) x (get key final))
                middle ih)
      ]

  loop-at :
      (fuel : ℕ) (overridden overriding merged : Schema Value) {final : Schema Value}
      → IsDict overridden
      → merge_schemas_loop fuel overridden overriding merged ≡ ok final
      → (key : String)
      → AtEnd fuel (get key overridden) (get key overriding) (get key merged) (get key final)
  unfolding get merge_schemas_loop
  loop-at fuel [] overriding merged distinct h key = ground arith
  loop-at fuel ((k, o) ∷ overridden) overriding merged {final} distinct h key =
      elim (Option-cases (get k overriding)) [
        | inl new ↦
            round fuel k key o o overridden overriding merged final distinct.0
              (subst (λ x. Kept fuel x o o) (sym new) refl)
              (loop-at fuel overridden overriding (put k o merged) distinct.1
                (rw (new, merge_schemas_loop) at h) key)
        | inr (prop, both) ↦
            let next = λ (p : PropertySchema Value).
              merge_schemas_loop fuel overridden overriding (put k p merged) in
            let (p, one, more) =
              >>=-eq-ok (merge_property fuel prop o) next (rw (both, merge_schemas_loop) at h) in
            round fuel k key o p overridden overriding merged final distinct.0
              (subst (λ x. Kept fuel x o p) (sym both) one)
              (loop-at fuel overridden overriding (put k p merged) distinct.1 more key)
      ]

  -- The two definitions have one data type, and the overridden one has a default.
  abbrev pub IsShared : PropertySchema Value → PropertySchema Value → String → Value → Type 0
  IsShared prop old type_name default =
      (prop.type_name ≡ some type_name)
      × (old.type_name ≡ some type_name)
      × (has_key type_name data_types ≡ true)
      × (primitive_type type_name ≡ none)
      × (old.default ≡ some default)

  -- The property that stands for two definitions: the overriding one, where only the default may
  -- change. For a common data type it is what the overridden default is completed to by the
  -- overriding one, unless that is empty.
  abbrev pub IsMerged :
      ℕ → PropertySchema Value → PropertySchema Value → PropertySchema Value → Type 0
  IsMerged fuel prop old p =
      (p.type_name ≡ prop.type_name)
      × (p.required ≡ prop.required)
      × (((type_name : String) (default : Value) → IsShared prop old type_name default → ⊥)
          → p ≡ prop)
      × ((type_name : String) (default : Value)
          → IsShared prop old type_name default
          → (v : Value) × (parse_value python data_types false fuel
                (get_or prop.initial_default (of_items [])) (some default) (some type_name)
              ≡ ok v)
            × (truthy v ≡ true → p.default ≡ some v)
            × (truthy v ≡ false → p ≡ prop))

  merge_property-shared :
      (fuel : ℕ) (prop old p : PropertySchema Value) (type_name : String) (default : Value)
      → IsShared prop old type_name default
      → merge_property fuel prop old ≡ ok p
      → (v : Value) × (parse_value python data_types false fuel
            (get_or prop.initial_default (of_items []))
            (some default)
            (some type_name)
          ≡ ok v)
        × (p ≡ with_default v prop)
  unfolding merge_property same_data_type
  merge_property-shared fuel prop old p type_name default (a, b, c, d, e) h =
      let both : (same_data_type prop.type_name old.type_name && not (is_none old.default)) ≡ true =
        ground (arith, a, b, c, d, e, eq_iff type_name type_name) in
      let (v, parsed, same) =
        >>=-eq-ok
          (parse_value python data_types false fuel (get_or prop.initial_default (of_items []))
            old.default old.type_name)
          (λ (v : Value). ok (with_default v prop)) (rw (both, merge_property) at h) in
      (
        v,
        subst
            (λ (x : Option Value × Option String).
              parse_value python data_types false fuel (get_or prop.initial_default (of_items []))
                (x.0) (x.1)
              ≡ ok v)
            (ground (arith, b, e)) parsed,
        ground arith,
      )

  merge_property-apart :
      (fuel : ℕ) (prop old p : PropertySchema Value)
      → ((type_name : String) (default : Value) → IsShared prop old type_name default → ⊥)
      → merge_property fuel prop old ≡ ok p
      → p ≡ prop
  unfolding merge_property same_data_type
  merge_property-apart fuel prop old p apart h =
      elim (Bool-cases (same_data_type prop.type_name old.type_name && not (is_none old.default))) [
        | inr other ↦ ground arith
        | inl both ↦ elim (Option-cases prop.type_name) [
          | inl none_given ↦ ground (arith, none_given)
          | inr (t, a) ↦ elim (Option-cases old.type_name) [
            | inl none_given ↦ ground (arith, a, none_given)
            | inr (t', b) ↦ elim (Option-cases old.default) [
              | inl none_given ↦ ground (arith, none_given)
              | inr (d, c) ↦
                  let same : t ≡ t' = ground (arith, a, b, eq_iff t t') in
                  absurd (
                    apart t d (
                      a,
                      b ∙ ap some (sym same),
                      ground (arith, a, b),
                      is_none-eq (ground (arith, a, b)),
                      c,
                    ))
            ]
          ]
        ]
      ]

  merge_property-IsMerged :
      (fuel : ℕ) (prop old p : PropertySchema Value)
      → merge_property fuel prop old ≡ ok p
      → IsMerged fuel prop old p
  unfolding merge_property with_default
  merge_property-IsMerged fuel prop old p h = (
    ground arith,
    ground arith,
    λ apart. merge_property-apart fuel prop old p apart h,
    λ type_name default shared.
        let (v, parsed, same) = merge_property-shared fuel prop old p type_name default shared h in
        (v, parsed, λ t. ground (arith, same), λ f. ground (arith, same)),
  )

  -- What stands under a key of the merged schema: the overridden property if only that is there, the
  -- overriding one if only that is there, and one that stands for the two if both are.
  abbrev pub MergedAt :
      ℕ
      → Option (PropertySchema Value)
      → Option (PropertySchema Value)
      → Option (PropertySchema Value)
      → Type 0
  MergedAt fuel none prop result = result ≡ prop
  MergedAt fuel (some old) none result = result ≡ some old
  MergedAt fuel (some old) (some prop) result =
      (p : PropertySchema Value) × IsMerged fuel prop old p × (result ≡ some p)

  MergedAt-of_AtEnd :
      (fuel : ℕ) (old prop result : Option (PropertySchema Value))
      → AtEnd fuel old prop prop result
      → MergedAt fuel old prop result
  MergedAt-of_AtEnd fuel none prop result e = e
  MergedAt-of_AtEnd fuel (some old) none result e = e
  MergedAt-of_AtEnd fuel (some old) (some prop) result (p, merged, e) =
      (p, merge_property-IsMerged fuel prop old p merged, e)

  pub merge_schemas-MergedAt :
      (fuel : ℕ) (overridden overriding : Schema Value) {merged : Schema Value}
      → IsDict overridden
      → merge_schemas fuel overridden overriding ≡ ok merged
      → (key : String) → MergedAt fuel (get key overridden) (get key overriding) (get key merged)
  unfolding merge_schemas
  merge_schemas-MergedAt fuel overridden overriding {merged} distinct h key =
      MergedAt-of_AtEnd fuel (get key overridden) (get key overriding) (get key merged)
        (loop-at fuel overridden overriding overriding distinct h key)
