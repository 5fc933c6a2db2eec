-- ===== src/Workflow/Task.antt =====
-- WorkflowTask and HandlerResult of cloudify/workflows/tasks.py, and the states of
-- cloudify/constants.py. Task objects live in a store and are named by their ids. `H` is the type
-- of the handlers `on_success` and `on_failure`, which are code of the workflows; a handler is
-- called as `call h task` and answers with a HandlerResult.
pub mod State
pub mod Handling
pub mod StateLaws
pub mod Retries
pub mod Containment
mod Examples
use cloudify_common.Prelude.{
  ℕ, String, Bool, true, false, Option, none, some, List, [], ◌∷◌, nat_beq, if◌then◌else◌,
}

pub data TaskState : Type 0 where
  pending sending sent started rescheduled response_sent succeeded failed : TaskState
  other_state : String → TaskState

-- TERMINATED_STATES
abbrev pub is_terminated_state : TaskState → Bool
is_terminated_state rescheduled = true
is_terminated_state succeeded = true
is_terminated_state failed = true
is_terminated_state _ = false

-- The list that `set_state` checks.
abbrev pub is_legal_state : TaskState → Bool
is_legal_state pending = true
is_legal_state sending = true
is_legal_state sent = true
is_legal_state started = true
is_legal_state rescheduled = true
is_legal_state succeeded = true
is_legal_state failed = true
is_legal_state _ = false

-- `total_retries`: -1, which is INFINITE_TOTAL_RETRIES, or a number.
pub data TotalRetries : Type 0 where
  infinite : TotalRetries
  at_most : ℕ → TotalRetries

-- What a task ended with, as far as the engine looks: the exceptions by their class, with the
-- attribute `retry_after` where the class has it.
pub data TaskResult : Type 0 where
  value : ℕ → TaskResult
  no_value : TaskResult
  operation_retry : Option ℕ → TaskResult
  recoverable : Option ℕ → TaskResult
  non_recoverable : TaskResult
  other_error : TaskResult

pub data Kind : Type 0 where
  remote local nop dry_run builtin subgraph : Kind

abbrev pub is_subgraph : Kind → Bool
is_subgraph subgraph = true
is_subgraph _ = false

pub data Action : Type 0 where
  handler_retry handler_fail handler_ignore handler_continue : Action

pub record HandlerResult : Type 0 where
  pub action : Action
  pub ignore_total_retries : Bool
  pub retry_after : Option ℕ
  pub retried_task : Option ℕ

abbrev handler_result : Action → Bool → Option ℕ → HandlerResult
handler_result action ignore_total_retries retry_after = record {
  action = action;
  ignore_total_retries = ignore_total_retries;
  retry_after = retry_after;
  retried_task = none;
}

-- The class methods of HandlerResult.
abbrev pub retry : Bool → Option ℕ → HandlerResult
retry ignore_total_retries retry_after =
    handler_result handler_retry ignore_total_retries retry_after

abbrev pub fail : HandlerResult
fail = handler_result handler_fail false none

abbrev pub cont : HandlerResult
cont = handler_result handler_continue false none

abbrev pub ignore : HandlerResult
ignore = handler_result handler_ignore false none

pub record Task {ℓ} (H : Type ℓ) : Type ℓ where
  pub kind : Kind
  pub state : TaskState
  pub is_terminated : Bool
  pub stored : Bool
  pub on_success : Option H
  pub on_failure : Option H
  pub total_retries : TotalRetries
  pub retry_interval : ℕ
  pub current_retries : ℕ
  pub execute_after : Option ℕ
  pub retried_task : Option ℕ
  pub containing_subgraph : Option ℕ
  -- `async_result`: its result, and whether the graph's `_task_finished` is among its callbacks
  pub result : Option TaskResult
  pub watched : Bool
  -- SubgraphTask: the tasks that it holds, and the first of them that failed
  pub tasks : List ℕ
  pub failed_task : Option ℕ

-- What the engine tells the manager of a change of state.
pub data Notice : Type 0 where
  update_operation send_task_event : ℕ → TaskState → Notice

pub data TaskError : Type 0 where
  illegal_state result_already_set result_not_set not_implemented key_error : TaskError

-- The task objects by id, the finished tasks that the loop has not looked at, and the notices
-- sent, the last first.
pub record Store {ℓ} (H : Type ℓ) : Type ℓ where
  pub objects : ℕ → Task H
  pub finished : List (ℕ × TaskResult)
  pub notices : List Notice

abbrev pub set_object {ℓ} : {H : Type ℓ} → ℕ → Task H → Store H → Store H
set_object t task s = record s { objects = λ n. if nat_beq t n then task else s.objects n }
