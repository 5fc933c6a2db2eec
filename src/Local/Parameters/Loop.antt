-- ===== src/Local/Parameters/Loop.antt =====
-- The loop over the declared parameters: what it leaves under each name, and when it notes nothing.
use cloudify_common.Local.Parameters.Step.{
  value_of, is_fine, step-execution_parameters, NothingNoted, step, converted_if,
  merge_given-fields, step-merged_parameters, step-NothingNoted, check_given-IsDict,
}
use cloudify_common.Prelude.{
  String, true, Option, none, some, [], ◌∷◌, ◌≡◌, refl, string_eq, arith, eq_iff, ◌↔◌,
}
use cloudify_common.Prelude.Dict.{Dict, get, IsDict, or_else}
use cloudify_common.Local.Parameters.{Classes, WorkflowParameter, Merging, check_given, merge_each}

module _ (py : Classes) where
  pub merge_each-IsDict :
      (workflow_parameters : Dict String (WorkflowParameter py.Value)) (m : Merging py.Value)
      → IsDict m.execution_parameters
      → IsDict (merge_each py workflow_parameters m).execution_parameters
  unfolding merge_each
  merge_each-IsDict [] m is_dict = is_dict
  merge_each-IsDict ((name, param) ∷ rest) m is_dict =
      merge_each-IsDict rest (step py name param m) (
        rw (merge_given-fields py name param (check_given py name param m)).0
          (check_given-IsDict py name param m is_dict))

  -- What a declared parameter, or an undeclared name, becomes.
  abbrev pub expected :
      Option (WorkflowParameter py.Value) → Option py.Value → Option py.Value → Option py.Value
  expected none given merged = merged
  expected (some param) given merged = or_else (value_of py param given) merged

  abbrev pub given_after : Option (WorkflowParameter py.Value) → Option py.Value → Option py.Value
  given_after none given = given
  given_after (some param) given = converted_if py param given

  pub merge_each-execution_parameters :
      (workflow_parameters : Dict String (WorkflowParameter py.Value)) (m : Merging py.Value)
      → (other : String) → IsDict workflow_parameters
      → get other (merge_each py workflow_parameters m).execution_parameters
        ≡ given_after (get other workflow_parameters) (get other m.execution_parameters)
  unfolding merge_each get
  merge_each-execution_parameters [] m other d = refl
  merge_each-execution_parameters ((name, param) ∷ rest) m other d = ground (
    arith,
    eq_iff name other,
    step-execution_parameters py name param m other,
    merge_each-execution_parameters rest (step py name param m) other d.1,
  )

  pub merge_each-merged_parameters :
      (workflow_parameters : Dict String (WorkflowParameter py.Value)) (m : Merging py.Value)
      → (other : String) → IsDict workflow_parameters
      → get other (merge_each py workflow_parameters m).merged_parameters
        ≡ expected
            (get other workflow_parameters)
            (get other m.execution_parameters)
            (get other m.merged_parameters)
  unfolding merge_each get
  merge_each-merged_parameters [] m other d = refl
  merge_each-merged_parameters ((name, param) ∷ rest) m other d = ground (
    arith,
    eq_iff name other,
    step-execution_parameters py name param m other,
    step-merged_parameters py name param m other,
    merge_each-merged_parameters rest (step py name param m) other d.1,
  )

  abbrev pub AllFine : Dict String (WorkflowParameter py.Value) → Dict String py.Value → Type 0
  AllFine workflow_parameters given =
      (name : String) (param : WorkflowParameter py.Value)
      → get name workflow_parameters ≡ some param
      → is_fine py param (get name given) ≡ true

  AllFine-cons :
      (name : String) (param : WorkflowParameter py.Value)
      → (rest : Dict String (WorkflowParameter py.Value)) (m : Merging py.Value)
      → get name rest ≡ none
      → ((is_fine py param (get name m.execution_parameters) ≡ true)
          × AllFine rest (step py name param m).execution_parameters)
        ↔ AllFine ((name, param) ∷ rest) m.execution_parameters
  unfolding get
  AllFine-cons name param rest m apart = (
    λ (fine, all) other p found.
        ground
          (arith, eq_iff name other, all other p, step-execution_parameters py name param m other),
    λ all. (
      ground (arith, eq_iff name name, all name param),
      λ other p found.
          ground (
            arith,
            eq_iff name other,
            all other p,
            step-execution_parameters py name param m other,
          ),
    ),
  )

  pub merge_each-NothingNoted :
      (workflow_parameters : Dict String (WorkflowParameter py.Value)) (m : Merging py.Value)
      → IsDict workflow_parameters
      → NothingNoted py (merge_each py workflow_parameters m)
        ↔ (NothingNoted py m × AllFine workflow_parameters m.execution_parameters)
  unfolding merge_each get
  merge_each-NothingNoted [] m d =
      (λ clean. (clean, λ name param found. ground arith), λ both. both.0)
  merge_each-NothingNoted ((name, param) ∷ rest) m (apart, d) =
      let (down, up) = merge_each-NothingNoted rest (step py name param m) d in
      let (down1, up1) = step-NothingNoted py name param m in
      let (down2, up2) = AllFine-cons name param rest m apart in
      (
        λ clean.
            let (clean1, all) = down clean in
            let (clean0, fine) = down1 clean1 in (clean0, down2 (fine, all)),
        λ (clean0, all). let (fine, rest_fine) = up2 all in up (up1 (clean0, fine), rest_fine),
      )
