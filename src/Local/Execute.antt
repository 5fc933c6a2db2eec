-- ===== src/Local/Execute.antt =====
-- `_Environment.execute`: a workflow of the plan is run, and its execution is kept in the storage.
-- The function that dispatch runs is a parameter: it takes the merged parameters and the storage,
-- which it may change, and returns a value or raises an exception.
use cloudify_common.Prelude.{
  Result-cases, ℕ, String, Bool, Option, none, some, ◌≡◌, ◌≢◌, refl, string_eq, Result, ok, raise,
  arith, eq_iff, ◌⊎◌, inl, inr, Option-cases,
}
use cloudify_common.Prelude.Dict.{Dict, get}
use cloudify_common.Local.Storage.{
  Storage, Execution, WorkflowContext, started, ended, get_execution, store_execution,
  execution_ended, status_display,
}
use cloudify_common.Local.Storage.Executions.{
  get_execution-execution_ended, get_execution-store_execution,
}
use cloudify_common.Local.Parameters.{
  Classes, WorkflowParameter, ParameterError, merge_and_validate,
}

pub data ExecuteError (E : Type 0) : Type 0 where
  no_workflow : String → ExecuteError E
  refused : ParameterError → ExecuteError E
  failed : E → ExecuteError E

-- What an execution needs from outside: its id and the times of its start and end.
pub record ExecutionRun : Type 0 where
  pub execution_id : String
  pub start_time : ℕ
  pub end_time : ℕ

module _ {N P R E : Type 0} (py : Classes) (text_of : E → String)
    (dispatch : WorkflowContext
      → Dict String py.Value
      → Storage N P py.Value
      → Result E R × Storage N P py.Value) where
  -- The `try` statement.
  unfoldable pub finish :
      ExecutionRun
      → Result E R × Storage N P py.Value
      → Result (ExecuteError E) R × Storage N P py.Value
  finish run (ok value, s) = (ok value, execution_ended run.end_time run.execution_id none s)
  finish run (raise error, s) =
      (raise (failed error), execution_ended run.end_time run.execution_id (some (text_of error)) s)

  unfoldable pub execute :
      Dict String (Dict String (WorkflowParameter py.Value))
      → String
      → ExecutionRun
      → String
      → Dict String py.Value
      → Bool
      → Storage N P py.Value
      → Result (ExecuteError E) R × Storage N P py.Value
  unfolding finish
  execute workflows name run workflow parameters allow s = elim (get workflow workflows) [
    | none ↦ (raise (no_workflow workflow), s)
    | some workflow_parameters ↦ elim (merge_and_validate py workflow_parameters parameters allow) [
      | raise error ↦ (raise (refused error), s)
      | ok merged ↦
          let ctx : WorkflowContext = record {
            workflow_id = workflow;
            deployment_id = name;
            blueprint_id = name;
          } in
          finish run (
            dispatch ctx merged
              (store_execution run.start_time run.execution_id ctx merged "pending" s))
    ]
  ]

  -- An execution that ended with the run, in a status.
  abbrev pub Ended :
      ExecutionRun → String → String → Option String → Option (Execution py.Value) → Type 0
  Ended run status status_display error found =
      (execution : Execution py.Value) × (found ≡ some execution)
      × (execution.status ≡ status)
      × (execution.status_display ≡ status_display)
      × (execution.ended_at ≡ some run.end_time)
      × (execution.error ≡ error)

  -- What is promised of the storage after a run with a result.
  abbrev pub Recorded :
      ExecutionRun
      → Result (ExecuteError E) R
      → Storage N P py.Value
      → Storage N P py.Value
      → Type 0
  Recorded run (ok value) s s' =
      Ended run "terminated" "completed" none (get_execution run.execution_id s')
  Recorded run (raise (failed error)) s s' =
      Ended run "failed" "failed" (some (text_of error)) (get_execution run.execution_id s')
  Recorded run (raise (no_workflow workflow)) s s' = s' ≡ s
  Recorded run (raise (refused error)) s s' = s' ≡ s

  -- The executions of a storage are the same, but for the run's.
  abbrev pub OthersKept : ExecutionRun → Storage N P py.Value → Storage N P py.Value → Type 0
  OthersKept run s s' =
      (other : String) → other ≢ run.execution_id → get_execution other s' ≡ get_execution other s

  -- Workflows leave the executions alone.
  abbrev pub KeepsExecutions : Type 0
  KeepsExecutions =
      (ctx : WorkflowContext) (merged : Dict String py.Value) (s : Storage N P py.Value)
      (id : String)
      → get_execution id (dispatch ctx merged s).1 ≡ get_execution id s

  module _ (run : ExecutionRun) (s0 : Storage N P py.Value) (execution : Execution py.Value) where
    finish-Recorded :
        (outcome : Result E R × Storage N P py.Value)
        → get_execution run.execution_id outcome.1 ≡ some execution
        → Recorded run (finish run outcome).0 s0 (finish run outcome).1
    unfolding finish ended status_display
    finish-Recorded (ok value, s1) found = (
      ended run.end_time none execution,
      ground (
        arith,
        eq_iff run.execution_id run.execution_id,
        get_execution-execution_ended run.end_time run.execution_id run.execution_id none s1,
      ),
      refl,
      refl,
      refl,
      refl,
    )
    finish-Recorded (raise error, s1) found = (
      ended run.end_time (some (text_of error)) execution,
      ground (
        arith,
        eq_iff run.execution_id run.execution_id,
        get_execution-execution_ended run.end_time run.execution_id run.execution_id
            (some (text_of error)) s1,
      ),
      refl,
      refl,
      refl,
      refl,
    )

  finish-OthersKept :
      (run : ExecutionRun) (outcome : Result E R × Storage N P py.Value)
      → OthersKept run outcome.1 (finish run outcome).1
  unfolding finish
  finish-OthersKept run (ok value, s1) other apart = ground (
    arith,
    eq_iff other run.execution_id,
    get_execution-execution_ended run.end_time run.execution_id other none s1,
  )
  finish-OthersKept run (raise error, s1) other apart = ground (
    arith,
    eq_iff other run.execution_id,
    get_execution-execution_ended run.end_time run.execution_id other (some (text_of error)) s1,
  )

  abbrev context_of : String → String → WorkflowContext
  context_of name workflow = record {
    workflow_id = workflow;
    deployment_id = name;
    blueprint_id = name;
  }

  -- The storage at the start of a workflow.
  abbrev begun :
      ExecutionRun
      → String
      → String
      → Dict String py.Value
      → Storage N P py.Value
      → Storage N P py.Value
  begun run name workflow merged s =
      store_execution run.start_time run.execution_id (context_of name workflow) merged "pending" s

  module _ (workflows : Dict String (Dict String (WorkflowParameter py.Value))) (name : String)
      (run : ExecutionRun) (workflow : String) (parameters : Dict String py.Value) (allow : Bool)
      (s : Storage N P py.Value) where
    abbrev outcome : Result (ExecuteError E) R × Storage N P py.Value
    outcome = execute workflows name run workflow parameters allow s

    execute-cases :
        (outcome ≡ (raise (no_workflow workflow), s))
        ⊎ ((error : ParameterError) × (outcome ≡ (raise (refused error), s)))
        ⊎ ((merged : Dict String py.Value) × (outcome
              ≡ finish run
                  (dispatch (context_of name workflow) merged (begun run name workflow merged s))))
    unfolding execute
    execute-cases = elim (Option-cases (get workflow workflows)) [
      | inl missing ↦ inl (ground arith)
      | inr (declared, found) ↦
          elim (Result-cases (merge_and_validate py declared parameters allow)) [
            | inl (error, bad) ↦ inr (inl (error, ground arith))
            | inr (merged, good) ↦ inr (inr (merged, ground arith))
          ]
    ]

    -- An execution is recorded: a workflow that returned has an execution that is terminated, one
    -- that raised has an execution that failed with the exception's text, and one that was refused
    -- leaves the storage as it was; other executions are not touched. The run's id is new, and
    -- workflows leave the executions alone.
    pub execute-Recorded :
        KeepsExecutions
        → get_execution run.execution_id s ≡ none
        → Recorded run outcome.0 s outcome.1 × OthersKept run s outcome.1
    unfolding finish
    execute-Recorded keeps new = elim execute-cases [
      | inl missing ↦ rw missing (refl, λ other apart. refl)
      | inr (inl (error, bad)) ↦ rw bad (refl, λ other apart. refl)
      | inr (inr (merged, done)) ↦
          let ctx = context_of name workflow in
          let s1 = begun run name workflow merged s in
          let execution = started run.start_time run.execution_id ctx merged "pending" in
          let stored = λ (other : String).
            get_execution-store_execution run.start_time run.execution_id other ctx merged "pending"
              s in
          rw done (
            finish-Recorded run s execution (dispatch ctx merged s1) (
                ground (
                  arith,
                  stored run.execution_id,
                  eq_iff run.execution_id run.execution_id,
                  keeps ctx merged s1 run.execution_id,
                )),
            λ other apart. ground (
              arith,
              stored other,
              eq_iff run.execution_id other,
              keeps ctx merged s1 other,
              finish-OthersKept run (dispatch ctx merged s1) other apart,
            ),
          )
    ]
