-- ===== src/Workflow/Execute/Reaction.antt =====
-- `_handle_terminated_task` of the graph.
use cloudify_common.Prelude.{
  ℕ, suc, true, none, some, List, [], ◌∷◌, get_or, is_none, if◌then◌else◌, Result, ok, raise, ◌>>=◌,
}
use cloudify_common.Workflow.Task.{
  Task, handler_retry, handler_fail, HandlerResult, key_error, Store, set_object, is_subgraph,
}
use cloudify_common.Workflow.Task.Handling.{handle_task_terminated}
use cloudify_common.Workflow.Graph.{Graph, GraphError, add_task, add_dependency, remove_task}
use cloudify_common.Workflow.Execute.{
  Engine, Now, EngineError, in_task, workflow_failed, from_graph, from_task,
}
use cloudify_common.Prelude.Set.{discard}

-- The two loops that give the retry the dependencies and the dependents of the task.
unfoldable pub link_all : (ℕ → ℕ × ℕ) → List ℕ → Graph → Result GraphError Graph
link_all ends [] g = ok g
link_all ends (x ∷ xs) g = do g' ← add_dependency (ends x).0 (ends x).1 g; link_all ends xs g'

unfoldable pub take_place : ℕ → ℕ → Graph → Result GraphError Graph
unfolding link_all
take_place t new_task g = do
  let added = add_task new_task g
  g' ← link_all (λ dependency. (new_task, dependency)) (added.dependencies t) added
  link_all (λ dependent. (dependent, new_task)) (g'.dependents t) g'

module _ {H : Type 0} where
  -- The task that a failure is reported for.
  unfoldable pub failing_task : ℕ → Store H → ℕ
  failing_task t s =
      let task = s.objects t in if is_subgraph task.kind then get_or task.failed_task t else t

  unfoldable pub record_failure : Now → ℕ → Engine H → Engine H
  unfolding failing_task
  record_failure now t e =
      if is_none e.error
      then record e {
        error = some (workflow_failed (failing_task t e.store));
        error_time = now.time;
      }
      else e

  -- `store_operation` for a retry, in a graph that is stored.
  unfoldable pub store_retry : ℕ → ℕ → Engine H → Engine H
  store_retry t new_task e = elim e.graph_id [
    | none ↦ e
    | some _ ↦ record e {
      stored_operations = (new_task, e.graph.dependencies t) ∷ e.stored_operations;
      store = set_object new_task (record (e.store.objects new_task) { stored = true }) e.store;
    }
  ]

  -- The tasks that `remove_task` removes with a task.
  unfoldable pub held_tasks : Store H → ℕ → List ℕ
  held_tasks s t = let task = s.objects t in if is_subgraph task.kind then task.tasks else []

  -- `remove_task`, for subgraphs that are nested at most `nesting` deep.
  unfoldable pub drop : ℕ → ℕ → Engine H → Engine H
  drop nesting t e = record e { graph = remove_task (suc nesting) (held_tasks e.store) t e.graph }

  -- The task that is removed at the end. On a failure the variable `task` was assigned the task
  -- that the failure is reported for.
  unfoldable pub removed_task : HandlerResult → ℕ → Store H → ℕ
  unfolding failing_task
  removed_task answer t s = elim answer.action [ handler_fail ↦ failing_task t s | _ ↦ t ]

  -- The branches of `_handle_terminated_task` on the handler's action.
  unfoldable pub react : Now → ℕ → HandlerResult → Engine H → Result EngineError (Engine H)
  react now t answer e = elim answer.action [
    | handler_fail ↦ ok (record_failure now t e)
    | handler_retry ↦ elim answer.retried_task [
      | none ↦ raise (in_task key_error)
      | some new_task ↦ do
        let e' = store_retry t new_task e
        g ← from_graph (take_place t new_task e'.graph)
        ok (record e' { graph = g })
    ]
    | _ ↦ ok e
  ]

  -- `_handle_terminated_task`
  unfoldable pub handle_terminated_task :
      (H → Task H → HandlerResult) → Now → ℕ → ℕ → ℕ → Engine H → Result EngineError (Engine H)
  handle_terminated_task call now uuid nesting t e = do
    let waiting = discard t e.waiting_for
    (answer, s) ← from_task (handle_task_terminated call now.is_local now.time uuid t e.store)
    e' ← react now t answer (record e { store = s; waiting_for = waiting })
    ok (drop nesting (removed_task answer t e'.store) e')
