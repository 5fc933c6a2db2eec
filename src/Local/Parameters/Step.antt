-- ===== src/Local/Parameters/Step.antt =====
-- One declared parameter: what its step leaves under each name, and when it notes nothing.
use cloudify_common.Prelude.{
  String, Bool, true, false, not, ◌&&◌, Option, none, some, List, [], ◌∷◌, ◌++◌, ◌≡◌, ◌≢◌, refl,
  is_none, if◌then◌else◌, ◌==◌, string_eq, arith, eq_iff, Option-cases, Bool-cases, inl, inr, ◌↔◌,
  ◌⊎◌,
}
use cloudify_common.Prelude.Dict.{Dict, get, put, IsDict, or_else, get-put}
use cloudify_common.Local.Parameters.{
  Classes, WorkflowParameter, Merging, convert_given, has_allowed_type, check_given, merge_given,
}

put-ne_nil : {V : Type 0} (k : String) (v : V) (d : Dict String V) → put k v d ≢ []
unfolding put
put-ne_nil k v [] = cc
put-ne_nil k v ((j, w) ∷ d) = ground arith

pub put-IsDict :
    {V : Type 0} (k : String) (v : V) (d : Dict String V) → IsDict d → IsDict (put k v d)
unfolding put get
put-IsDict k v [] is_dict = (refl, tt)
put-IsDict k v ((j, w) ∷ d) (apart, is_dict) = elim (Bool-cases (j == k)) [
  | inl own ↦ rw own (ground (arith, eq_iff j k), is_dict)
  | inr other ↦
      rw other (ground (arith, get-put k j v d, eq_iff k j, eq_iff j k), put-IsDict k v d is_dict)
]

append-ne_nil : (k : String) (l : List String) → l ++ k ∷ [] ≢ []
append-ne_nil k [] = cc
append-ne_nil k (j ∷ l) = cc

module _ (py : Classes) where
  -- A given value as the loop leaves it.
  unfoldable pub converted : WorkflowParameter py.Value → py.Value → py.Value
  converted param value = elim param.type_name [
    | none ↦ value
    | some type_name ↦ convert_given py type_name value
  ]

  unfoldable pub converted_if : WorkflowParameter py.Value → Option py.Value → Option py.Value
  unfolding converted
  converted_if param none = none
  converted_if param (some value) = some (converted param value)

  unfoldable pub has_type : WorkflowParameter py.Value → py.Value → Bool
  has_type param value = elim param.type_name [
    | none ↦ true
    | some type_name ↦ has_allowed_type py type_name value
  ]

  unfoldable pub has_type_if : WorkflowParameter py.Value → Option py.Value → Bool
  unfolding converted has_type
  has_type_if param none = true
  has_type_if param (some value) = has_type param (converted param value)

  -- A parameter is fine: a given value is of its type once converted, and it is given or has a
  -- default.
  unfoldable pub is_fine : WorkflowParameter py.Value → Option py.Value → Bool
  unfolding has_type_if
  is_fine param given = has_type_if param given && not (is_none (or_else given param.default))

  abbrev pub NothingNoted : Merging py.Value → Type 0
  NothingNoted m = (m.missing_mandatory_parameters ≡ []) × (m.wrong_types ≡ [])

  module _ (name : String) (param : WorkflowParameter py.Value) (m : Merging py.Value) where
    check_given-execution_parameters :
        (other : String)
        → get other (check_given py name param m).execution_parameters ≡ (
            if name == other
            then converted_if param (get other m.execution_parameters)
            else get other m.execution_parameters)
    unfolding check_given converted_if converted
    check_given-execution_parameters other = elim (Option-cases param.type_name) [
      | inl untyped ↦ elim (Option-cases (get name m.execution_parameters)) [
        | inl missing ↦ ground (arith, eq_iff name other)
        | inr (value, given) ↦ ground (arith, eq_iff name other)
      ]
      | inr (type_name, typed) ↦ elim (Option-cases (get name m.execution_parameters)) [
        | inl missing ↦ ground (arith, eq_iff name other)
        | inr (value, given) ↦ ground (
          arith,
          eq_iff name other,
          get-put name other (convert_given py type_name value) m.execution_parameters,
        )
      ]
    ]

    check_given-wrote :
        ((check_given py name param m).execution_parameters ≡ m.execution_parameters)
        ⊎ ((value : py.Value) × ((check_given py name param m).execution_parameters
              ≡ put name value m.execution_parameters))
    unfolding check_given
    check_given-wrote = elim (Option-cases param.type_name) [
      | inl untyped ↦ inl (ground arith)
      | inr (type_name, typed) ↦ elim (Option-cases (get name m.execution_parameters)) [
        | inl missing ↦ inl (ground arith)
        | inr (value, given) ↦ inr (convert_given py type_name value, ground arith)
      ]
    ]

    pub check_given-IsDict :
        IsDict m.execution_parameters → IsDict (check_given py name param m).execution_parameters
    check_given-IsDict is_dict = elim check_given-wrote [
      | inl same ↦ rw same is_dict
      | inr (value, written) ↦ rw written (put-IsDict name value m.execution_parameters is_dict)
    ]

    check_given-rest :
        ((check_given py name param m).merged_parameters ≡ m.merged_parameters)
        × ((check_given py name param m).missing_mandatory_parameters
            ≡ m.missing_mandatory_parameters)
    unfolding check_given
    check_given-rest = (ground arith, ground arith)

    check_given-wrong_types :
        ((check_given py name param m).wrong_types ≡ [])
        ↔ ((m.wrong_types ≡ []) × (has_type_if param (get name m.execution_parameters) ≡ true))
    unfolding check_given has_type_if has_type converted
    check_given-wrong_types = elim (Option-cases param.type_name) [
      | inl untyped ↦ elim (Option-cases (get name m.execution_parameters)) [
        | inl missing ↦ ground arith
        | inr (value, given) ↦ ground arith
      ]
      | inr (type_name, typed) ↦ elim (Option-cases (get name m.execution_parameters)) [
        | inl missing ↦ ground arith
        | inr (value, given) ↦ ground (arith, put-ne_nil name type_name m.wrong_types)
      ]
    ]

    pub merge_given-fields :
        ((merge_given py name param m).execution_parameters ≡ m.execution_parameters)
        × ((merge_given py name param m).wrong_types ≡ m.wrong_types)
        × (((merge_given py name param m).missing_mandatory_parameters ≡ []) ↔ (
            (m.missing_mandatory_parameters ≡ [])
            × (is_none (or_else (get name m.execution_parameters) param.default) ≡ false)))
    unfolding merge_given
    merge_given-fields = (
      ground arith,
      ground arith,
      ground (arith, append-ne_nil name m.missing_mandatory_parameters),
    )

    merge_given-merged_parameters :
        (other : String)
        → get other (merge_given py name param m).merged_parameters ≡ (
            if name == other
            then or_else
                (or_else (get name m.execution_parameters) param.default)
                (get other m.merged_parameters)
            else get other m.merged_parameters)
    unfolding merge_given
    merge_given-merged_parameters other =
        elim (Option-cases (or_else (get name m.execution_parameters) param.default)) [
          | inl nothing ↦ ground arith
          | inr (value, there) ↦ ground (arith, get-put name other value m.merged_parameters)
        ]

  -- The value that a declared parameter gets.
  unfoldable pub value_of : WorkflowParameter py.Value → Option py.Value → Option py.Value
  unfolding converted_if
  value_of param given = or_else (converted_if param given) param.default

  module _ (name : String) (param : WorkflowParameter py.Value) (m : Merging py.Value) where
    abbrev pub step : Merging py.Value
    step = merge_given py name param (check_given py name param m)

    pub step-execution_parameters :
        (other : String)
        → get other step.execution_parameters ≡ (
            if name == other
            then converted_if param (get other m.execution_parameters)
            else get other m.execution_parameters)
    step-execution_parameters other =
        rw (merge_given-fields name param (check_given py name param m)).0
          (check_given-execution_parameters name param m other)

    pub step-merged_parameters :
        (other : String)
        → get other step.merged_parameters ≡ (
            if name == other
            then or_else
                (value_of param (get other m.execution_parameters))
                (get other m.merged_parameters)
            else get other m.merged_parameters)
    unfolding value_of
    step-merged_parameters other =
        let here = check_given-execution_parameters name param m name in
        let (merged, _) = check_given-rest name param m in
        let result = merge_given-merged_parameters name param (check_given py name param m) other in
        ground (arith, eq_iff name other, eq_iff name name)

    pub step-NothingNoted :
        NothingNoted step
        ↔ (NothingNoted m × (is_fine param (get name m.execution_parameters) ≡ true))
    unfolding is_fine converted_if
    step-NothingNoted =
        let here = check_given-execution_parameters name param m name in
        let (_, missing) = check_given-rest name param m in
        let wrong = check_given-wrong_types name param m in
        let (_, wrong', missing') = merge_given-fields name param (check_given py name param m) in
        ground (arith, eq_iff name name)
