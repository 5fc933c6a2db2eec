-- ===== src/Workflow/Execute.antt =====
-- The loop of `TaskDependencyGraph.execute` of cloudify/workflows/tasks_graph.py, with
-- `_is_finished`, `_run_task` and `_handle_terminated_task`, and `apply_async` of the task classes.
-- The loop is a step function over what the environment decides: the clock, whether a cancel was
-- requested, and the results that arrive.
pub mod Starting
pub mod Reaction
pub mod Steps
pub mod Loop
mod Examples
use cloudify_common.Prelude.{
  ℕ, zero, suc, ◌+◌, Bool, true, false, not, ◌&&◌, Option, none, some, List, [], ◌∷◌, ltb, get_or,
  is_none, if◌then◌else◌, Result, ok, raise, ◌>>=◌, is_empty,
}
use cloudify_common.Workflow.Task.{
  Task, TaskState, pending, sending, sent, started, rescheduled, response_sent, succeeded, failed,
  other_state, TotalRetries, infinite, at_most, TaskResult, value, no_value, operation_retry,
  recoverable, non_recoverable, other_error, Kind, remote, local, nop, dry_run, builtin, subgraph,
  Action, handler_retry, handler_fail, handler_ignore, handler_continue, HandlerResult, retry, fail,
  cont, ignore, Notice, update_operation, send_task_event, TaskError, illegal_state,
  result_already_set, result_not_set, not_implemented, key_error, Store, set_object,
  is_terminated_state, is_legal_state, is_subgraph,
}
use cloudify_common.Workflow.Graph.{Graph, GraphError}

pub data WorkflowError : Type 0 where
  execution_cancelled : WorkflowError
  -- the task that the message names
  workflow_failed : ℕ → WorkflowError

pub record Engine (H : Type 0) : Type 0 where
  pub graph : Graph
  pub store : Store H
  pub waiting_for : List ℕ
  pub error : Option WorkflowError
  pub error_time : ℕ
  -- whether the graph is stored, that is `self.id is not None`
  pub graph_id : Option ℕ
  -- the ids of the tasks that `store_operation` was called for, with their dependencies
  pub stored_operations : List (ℕ × List ℕ)

-- One look at the outside: `time.time()`, `api.has_cancel_request()`, `ctx.wait_after_fail` and
-- `ctx.local`.
pub record Now : Type 0 where
  pub time : ℕ
  pub cancelled : Bool
  pub wait_after_fail : ℕ
  pub is_local : Bool

module _ {H : Type 0} where
  -- `_is_finished`: the answer, with the error that it may set. The timer that it may start only
  -- wakes the loop, which also wakes by itself every second.
  unfoldable pub is_finished : Now → Engine H → Bool × Engine H
  is_finished now e =
      if now.cancelled
      then (true, record e { error = some execution_cancelled })
      else if is_empty e.graph.tasks
      then (true, e)
      else if is_none e.error
      then (false, e)
      else if is_empty e.waiting_for
      then (true, e)
      else (ltb now.time (e.error_time + now.wait_after_fail), e)

pub data EngineError : Type 0 where
  in_graph : GraphError → EngineError
  in_task : TaskError → EngineError

abbrev pub from_graph : {A : Type 0} → Result GraphError A → Result EngineError A
from_graph (ok a) = ok a
from_graph (raise e) = raise (in_graph e)

abbrev pub from_task : {A : Type 0} → Result TaskError A → Result EngineError A
from_task (ok a) = ok a
from_task (raise e) = raise (in_task e)
