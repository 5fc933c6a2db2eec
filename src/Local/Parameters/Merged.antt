-- ===== src/Local/Parameters/Merged.antt =====
-- The merged parameters of an execution: what they are, and when they are refused.
use cloudify_common.Prelude.{
  ◌≢◌, subst, sym, get_or, String, Bool, true, false, ◌||◌, Option, none, some, [], ◌∷◌, ◌≡◌, refl,
  is_empty, if◌then◌else◌, string_eq, ok, arith, eq_iff, Bool-cases, List-cases, inl, inr, ◌↔◌, ◌⊎◌,
}
use cloudify_common.Prelude.Dict.{Dict, get, update, has_key, IsDict, get-update}
use cloudify_common.Local.Parameters.{
  python_int, python_float, python_text, python_bool, allowed_type, try_convert_from_str,
  convert_given, has_allowed_type, Classes, WorkflowParameter, Merging, merge_each, custom_of,
  merge_and_validate,
}
use cloudify_common.Local.Parameters.Step.{
  value_of, NothingNoted, is_fine, has_type_if, has_type, converted, converted_if,
}
use cloudify_common.Local.Parameters.Loop.{
  AllFine, merge_each-execution_parameters, merge_each-merged_parameters, merge_each-NothingNoted,
  merge_each-IsDict,
}

-- The type that a name stands for, and how a text becomes a value of it.
module _ (py : Classes) where
  -- An instance of the class that the type names; any other type asks for nothing.
  abbrev pub IsOfType : String → py.Value → Type 0
  IsOfType type_name v =
      (type_name ≡ "integer" → py.is_instance python_int v ≡ true)
      × (type_name ≡ "float" → py.is_instance python_float v ≡ true)
      × (type_name ≡ "string" → py.is_instance python_text v ≡ true)
      × (type_name ≡ "boolean" → py.is_instance python_bool v ≡ true)

  -- A text is read as a number or a boolean where the type asks for one and it spells one; any other
  -- value stays.
  abbrev pub Becomes : String → py.Value → py.Value → Type 0
  Becomes type_name v v' =
      (py.is_instance python_text v ≡ false → v' ≡ v)
      × (type_name ≢ "integer" → type_name ≢ "float" → type_name ≢ "boolean" → v' ≡ v)
      × (type_name ≡ "integer" → py.is_instance python_text v ≡ true → v' ≡ get_or (py.to_int v) v)
      × (type_name ≡ "float" → py.is_instance python_text v ≡ true → v' ≡ get_or (py.to_float v) v)
      × (type_name ≡ "boolean"
          → py.is_instance python_text v ≡ true
          → v' ≡ (
              if py.lower_is "true" v
              then py.true_value
              else if py.lower_is "false" v
              then py.false_value
              else v))

  has_allowed_type-IsOfType :
      (type_name : String) (v : py.Value)
      → has_allowed_type py type_name v ≡ true
      → IsOfType type_name v
  unfolding has_allowed_type allowed_type
  has_allowed_type-IsOfType type_name v h = (
    λ same. (rw same at h),
    λ same. (rw same at h),
    λ same. (rw same at h),
    λ same. (rw same at h),
  )

  convert_given-Becomes :
      (type_name : String) (v : py.Value) → Becomes type_name v (convert_given py type_name v)
  unfolding convert_given allowed_type try_convert_from_str
  convert_given-Becomes type_name v = (
    λ other. ground arith,
    λ a b c. ground (
      arith,
      a,
      b,
      c,
      eq_iff type_name "integer",
      eq_iff type_name "float",
      eq_iff type_name "boolean",
    ),
    λ same is_text.
        subst (λ (t : String). convert_given py t v ≡ get_or (py.to_int v) v) (sym same)
          (rw (is_text, convert_given) refl),
    λ same is_text.
        subst (λ (t : String). convert_given py t v ≡ get_or (py.to_float v) v) (sym same)
          (rw (is_text, convert_given) refl),
    λ same is_text.
        subst
          (λ (t : String). convert_given py t v ≡ (
            if py.lower_is "true" v
            then py.true_value
            else if py.lower_is "false" v
            then py.false_value
            else v))
          (sym same) (rw (is_text, convert_given) refl),
  )

module _ (py : Classes) (workflow_parameters : Dict String (WorkflowParameter py.Value)) where
  get-custom_of :
      (other : String) (given : Dict String py.Value)
      → get other (custom_of py workflow_parameters given)
        ≡ (if has_key other workflow_parameters then none else get other given)
  unfolding custom_of get
  get-custom_of other [] = ground arith
  get-custom_of other ((k, v) ∷ given) = ground (arith, eq_iff k other, get-custom_of other given)

  custom_of-IsDict :
      (given : Dict String py.Value)
      → IsDict given
      → IsDict (custom_of py workflow_parameters given)
  unfolding custom_of
  custom_of-IsDict [] d = tt
  custom_of-IsDict ((k, v) ∷ given) (apart, d) =
      let rest = custom_of-IsDict given d in
      elim (Bool-cases (has_key k workflow_parameters)) [
        | inl declared ↦ rw declared rest
        | inr custom ↦ rw custom (ground (arith, get-custom_of k given), rest)
      ]

  -- `merge_each` at the start
  abbrev start : Dict String py.Value → Merging py.Value
  start given = record {
    execution_parameters = given;
    merged_parameters = [];
    missing_mandatory_parameters = [];
    wrong_types = [];
  }

  -- Every given name is declared.
  abbrev pub OnlyDeclared : Dict String py.Value → Type 0
  OnlyDeclared given =
      (name : String) → has_key name given ≡ true → has_key name workflow_parameters ≡ true

  -- The merged parameter of a name.
  abbrev pub merged_at : Dict String py.Value → String → Option py.Value
  merged_at given name = elim (get name workflow_parameters) [
    | none ↦ get name given
    | some param ↦ value_of py param (get name given)
  ]

  module _ (given : Dict String py.Value) (allow : Bool) (wd : IsDict workflow_parameters)
      (gd : IsDict given) where
    abbrev done : Merging py.Value
    done = merge_each py workflow_parameters (start given)

    abbrev custom : Dict String py.Value
    custom = custom_of py workflow_parameters done.execution_parameters

    get-merged :
        (name : String) → get name (update done.merged_parameters custom) ≡ merged_at given name
    unfolding get
    get-merged name =
        let is_dict =
          custom_of-IsDict done.execution_parameters
            (merge_each-IsDict py workflow_parameters (start given) gd) in
        ground (
          arith,
          get-update name done.merged_parameters custom is_dict,
          get-custom_of name done.execution_parameters,
          merge_each-execution_parameters py workflow_parameters (start given) name wd,
          merge_each-merged_parameters py workflow_parameters (start given) name wd,
        )

    merge_and_validate-ok :
        (merged : Dict String py.Value)
        → merge_and_validate py workflow_parameters given allow ≡ ok merged
        → NothingNoted py done
          × (allow || is_empty custom ≡ true)
          × (merged ≡ update done.merged_parameters custom)
    unfolding merge_and_validate
    merge_and_validate-ok merged h = elim (List-cases done.missing_mandatory_parameters) [
      | inr (x, r, some_missing) ↦ ground arith
      | inl none_missing ↦ elim (List-cases done.wrong_types) [
        | inr (x, r, some_wrong) ↦ ground arith
        | inl none_wrong ↦ elim (Bool-cases (allow || is_empty custom)) [
          | inl allowed ↦ ((none_missing, none_wrong), allowed, ground arith)
          | inr refused ↦ ground arith
        ]
      ]
    ]

    custom_at :
        (name : String)
        → get name custom ≡ (if has_key name workflow_parameters then none else get name given)
    custom_at name = ground (
      arith,
      get-custom_of name done.execution_parameters,
      merge_each-execution_parameters py workflow_parameters (start given) name wd,
    )

    custom-empty : (is_empty custom ≡ true) ↔ OnlyDeclared given
    unfolding get
    custom-empty = (
      λ empty name known. elim (List-cases custom) [
        | inl nothing ↦ ground (arith, custom_at name)
        | inr (x, r, something) ↦ ground arith
      ],
      λ only. elim (List-cases custom) [
        | inl nothing ↦ ground arith
        | inr ((k, v), r, something) ↦ ground (arith, custom_at k, only k, eq_iff k k)
      ],
    )

    given-merged :
        (merged : Dict String py.Value)
        → ((name : String) → get name merged ≡ merged_at given name)
        → AllFine py workflow_parameters given
        → (name type_name : String) (param : WorkflowParameter py.Value) (v : py.Value)
        → get name workflow_parameters ≡ some param
        → param.type_name ≡ some type_name
        → get name given ≡ some v
        → (v' : py.Value) × (get name merged ≡ some v')
          × Becomes py type_name v v'
          × IsOfType py type_name v'
    unfolding is_fine has_type_if has_type converted value_of converted_if
    given-merged merged at fine name type_name param v declared typed there = (
      convert_given py type_name v,
      ground (arith, at name, declared, typed, there),
      convert_given-Becomes py type_name v,
      has_allowed_type-IsOfType py type_name (convert_given py type_name v)
          (ground (arith, fine name param declared, typed, there)),
    )

    -- Merged parameters are right: a given value of a parameter with a type is merged as the value of
    -- that type that it becomes, a parameter that is not given gets its default and has one, and an
    -- undeclared name keeps its given value, which none has unless custom parameters are allowed. No
    -- name is declared or given twice.
    pub merge_and_validate-MergedAt :
        (merged : Dict String py.Value)
        → merge_and_validate py workflow_parameters given allow ≡ ok merged
        → ((name : String) → get name merged ≡ merged_at given name)
          × AllFine py workflow_parameters given
          × (allow ≡ false → OnlyDeclared given)
          × ((name type_name : String) (param : WorkflowParameter py.Value) (v : py.Value)
              → get name workflow_parameters ≡ some param
              → param.type_name ≡ some type_name
              → get name given ≡ some v
              → (v' : py.Value) × (get name merged ≡ some v')
                × Becomes py type_name v v'
                × IsOfType py type_name v')
    merge_and_validate-MergedAt merged h =
        let (clean, allowed, same) = merge_and_validate-ok merged h in
        let (_, fine) = (merge_each-NothingNoted py workflow_parameters (start given) wd).0 clean in
        let at : (name : String) → get name merged ≡ merged_at given name =
          λ name. rw same (get-merged name) in
        (at, fine, λ refused. custom-empty.0 (ground arith), given-merged merged at fine)

    -- Parameters are refused for a reason: when every declared parameter is fine, and every given
    -- name is declared or custom parameters are allowed, there are merged parameters. No name is
    -- declared or given twice.
    pub merge_and_validate-accepts :
        AllFine py workflow_parameters given
        → (allow ≡ true) ⊎ OnlyDeclared given
        → (merged : Dict String py.Value) × (merge_and_validate py workflow_parameters given allow
            ≡ ok merged)
    unfolding merge_and_validate
    merge_and_validate-accepts fine permitted =
        let (none_missing, none_wrong) =
          (merge_each-NothingNoted py workflow_parameters (start given) wd).1
            ((refl, refl), fine) in
        let allowed : (allow || is_empty custom) ≡ true = elim permitted [
          | inl all ↦ ground arith
          | inr only ↦ ground (arith, custom-empty.1 only)
        ] in
        (update done.merged_parameters custom, ground arith)
