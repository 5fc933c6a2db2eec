-- ===== src/Local/Examples.antt =====
-- The theorems at a workflow with a number and a switch; values are numbers, texts and truth values.
use cloudify_common.Prelude.{
  ℕ, String, Bool, true, false, Option, none, some, [], ◌∷◌, ◌≡◌, refl, ◌==◌, string_eq,
  if◌then◌else◌, Result, ok, raise, arith, eq_iff, inl, inr, Bool-cases, subst,
}
use cloudify_common.Prelude.Dict.{Dict, get, put, update}
use cloudify_common.Local.Storage.{Storage, WorkflowContext, init, find_execution, get_execution}
use cloudify_common.Local.Parameters.{
  Classes, AllowedType, python_int, python_float, python_text, python_bool, WorkflowParameter,
  allowed_type, try_convert_from_str, convert_given, has_allowed_type, check_given, merge_given,
  merge_each, custom_of, merge_and_validate,
}
use cloudify_common.Local.Parameters.Step.{converted, has_type, has_type_if, is_fine}
use cloudify_common.Local.Parameters.Loop.{AllFine}
use cloudify_common.Local.Parameters.Merged.{
  Becomes, IsOfType, merged_at, OnlyDeclared, merge_and_validate-MergedAt,
  merge_and_validate-accepts,
}
use cloudify_common.Local.Execute.{
  ExecutionRun, ExecuteError, execute, Recorded, OthersKept, execute-Recorded,
}

data Item : Type 0 where
  number : ℕ → Item
  text : String → Item
  truth : Bool → Item

abbrev instance_of : AllowedType → Item → Bool
instance_of python_int (number n) = true
instance_of python_int (truth b) = true
instance_of python_int (text t) = false
instance_of python_text (text t) = true
instance_of python_text (number n) = false
instance_of python_text (truth b) = false
instance_of python_bool (truth b) = true
instance_of python_bool (number n) = false
instance_of python_bool (text t) = false
instance_of python_float item = false

abbrev read_number : Item → Option Item
read_number (text t) = if t == "5" then some (number 5) else none
read_number (number n) = some (number n)
read_number (truth b) = none

abbrev is_lower : String → Item → Bool
is_lower other (text t) = t == other
is_lower other (number n) = false
is_lower other (truth b) = false

abbrev classes : Classes
classes = record {
  Value = Item;
  is_instance = instance_of;
  to_int = read_number;
  to_float = λ item. none;
  lower_is = is_lower;
  true_value = truth true;
  false_value = truth false;
}

abbrev declared : Dict String (WorkflowParameter Item)
declared =
    ("count", record { type_name = some "integer"; default = none })
    ∷ ("force", record { type_name = some "boolean"; default = some (truth false) })
    ∷ []

abbrev given : Dict String Item
given = ("count", text "5") ∷ ("note", text "x") ∷ []

abbrev result : Dict String Item
result = ("count", number 5) ∷ ("force", truth false) ∷ ("note", text "x") ∷ []

merged : merge_and_validate classes declared given true ≡ ok result
unfolding merge_and_validate merge_each check_given convert_given allowed_type try_convert_from_str
    has_allowed_type merge_given custom_of update put get
merged = refl

merge_and_validate-MergedAt_example :
    ((name : String) → get name result ≡ merged_at classes declared given name)
    × AllFine classes declared given
    × (true ≡ false → OnlyDeclared classes declared given)
    × ((name type_name : String) (param : WorkflowParameter Item) (v : Item)
        → get name declared ≡ some param
        → param.type_name ≡ some type_name
        → get name given ≡ some v
        → (v' : Item) × (get name result ≡ some v')
          × Becomes classes type_name v v'
          × IsOfType classes type_name v')
unfolding get
merge_and_validate-MergedAt_example =
    merge_and_validate-MergedAt classes declared given true (refl, (refl, tt)) (refl, (refl, tt))
      result merged

fine : AllFine classes declared given
unfolding get is_fine has_type_if has_type converted convert_given allowed_type try_convert_from_str
    has_allowed_type
fine name param found = elim (Bool-cases ("count" == name)) [
  | inl first ↦ ground (arith, eq_iff "count" name)
  | inr other ↦ elim (Bool-cases ("force" == name)) [
    | inl second ↦
        subst (λ n. get n declared ≡ some param → is_fine classes param (get n given) ≡ true)
          ((eq_iff "force" name).0 second) (λ at_force. ground arith) found
    | inr none_left ↦ ground arith
  ]
]

merge_and_validate-accepts_example :
    (merged : Dict String Item) × (merge_and_validate classes declared given true ≡ ok merged)
unfolding get
merge_and_validate-accepts_example =
    merge_and_validate-accepts classes declared given true (refl, (refl, tt)) (refl, (refl, tt))
      fine (inl refl)

abbrev run : ExecutionRun
run = record { execution_id = "e1"; start_time = 3; end_time = 4 }

abbrev dispatch :
    WorkflowContext → Dict String Item → Storage ℕ ℕ Item → Result String ℕ × Storage ℕ ℕ Item
dispatch ctx parameters s = if ctx.workflow_id == "install" then (ok 1, s) else (raise "broken", s)

keeps :
    (ctx : WorkflowContext) (parameters : Dict String Item) (s : Storage ℕ ℕ Item) (id : String)
    → get_execution id (dispatch ctx parameters s).1 ≡ get_execution id s
keeps ctx parameters s id = ground arith

abbrev storage : Storage ℕ ℕ Item
storage = init [] [] []

abbrev outcome : Result (ExecuteError String) ℕ × Storage ℕ ℕ Item
outcome =
    execute classes (λ error. error) dispatch (("install", declared) ∷ []) "local" run "install"
      given true storage

execute-Recorded_example :
    Recorded classes (λ error. error) dispatch run outcome.0 storage outcome.1
    × OthersKept classes (λ error. error) dispatch run storage outcome.1
unfolding get_execution init find_execution
execute-Recorded_example =
    execute-Recorded classes (λ error. error) dispatch (("install", declared) ∷ []) "local" run
      "install" given true storage keeps refl
