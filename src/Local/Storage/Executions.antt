-- ===== src/Local/Storage/Executions.antt =====
-- The executions of a storage, from their start to their end.
use cloudify_common.Prelude.{
  ℕ, String, Bool, Option, none, some, List, [], ◌∷◌, ◌++◌, ◌≡◌, refl, ◌==◌, string_eq,
  if◌then◌else◌, arith, eq_iff,
}
use cloudify_common.Prelude.Dict.{Dict, or_else}
use cloudify_common.Local.Storage.{
  Storage, Execution, WorkflowContext, find_execution, started, ended, end_each, get_execution,
  store_execution, execution_ended,
}

module _ {I : Type 0} where
  abbrev pub end_if : Bool → ℕ → Option String → Option (Execution I) → Option (Execution I)
  end_if own time error none = none
  end_if own time error (some execution) =
      some (if own then ended time error execution else execution)

  find_execution-end_each :
      (time : ℕ) (execution_id other : String) (error : Option String)
      → (executions : List (Execution I))
      → find_execution other (end_each time execution_id error executions)
        ≡ end_if (other == execution_id) time error (find_execution other executions)
  unfolding find_execution end_each ended
  find_execution-end_each time execution_id other error [] = refl
  find_execution-end_each time execution_id other error (execution ∷ rest) = ground (
    arith,
    eq_iff execution.id execution_id,
    eq_iff execution.id other,
    eq_iff other execution_id,
    find_execution-end_each time execution_id other error rest,
  )

  find_execution-append :
      (other : String) (executions : List (Execution I)) (execution : Execution I)
      → find_execution other (executions ++ execution ∷ [])
        ≡ or_else
            (find_execution other executions)
            (if execution.id == other then some execution else none)
  unfolding find_execution
  find_execution-append other [] execution = refl
  find_execution-append other (first ∷ rest) execution =
      ground (arith, find_execution-append other rest execution)

module _ {N P I : Type 0} where
  -- The end of an execution is written into that execution, and the others stay as they are.
  pub get_execution-execution_ended :
      (time : ℕ) (execution_id other : String) (error : Option String) (s : Storage N P I)
      → get_execution other (execution_ended time execution_id error s)
        ≡ end_if (other == execution_id) time error (get_execution other s)
  unfolding get_execution execution_ended
  get_execution-execution_ended time execution_id other error s =
      find_execution-end_each time execution_id other error s.executions

  -- A stored execution is found under its id, unless an earlier one has the id; the others stay as
  -- they are.
  pub get_execution-store_execution :
      (time : ℕ) (execution_id other : String) (ctx : WorkflowContext)
      → (parameters : Dict String I) (status : String) (s : Storage N P I)
      → get_execution other (store_execution time execution_id ctx parameters status s)
        ≡ or_else (get_execution other s) (
            if execution_id == other
            then some (started time execution_id ctx parameters status)
            else none)
  unfolding get_execution store_execution started
  get_execution-store_execution time execution_id other ctx parameters status s =
      find_execution-append other s.executions (started time execution_id ctx parameters status)
