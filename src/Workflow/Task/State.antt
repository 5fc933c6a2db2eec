-- ===== src/Workflow/Task/State.antt =====
-- The changes of a task's state and result: `set_state` with `_update_stored_state`, the setter of
-- `WorkflowTaskResult.result` and `on_result` for the callback of the graph, and
-- `SubgraphTask.set_state` and `task_terminated`.
use cloudify_common.Prelude.{
  nat_eq, ℕ, Bool, true, false, not, ◌||◌, Option, none, some, [], ◌∷◌, is_none, if◌then◌else◌,
  Result, ok, raise, ◌>>=◌,
}
use cloudify_common.Prelude.Set.{mem, add, discard}
use cloudify_common.Prelude.Dict.{put}
use cloudify_common.Workflow.Task.{
  TaskState, sent, started, succeeded, failed, TaskResult, no_value, Kind, local, nop, dry_run,
  update_operation, send_task_event, TaskError, illegal_state, result_already_set, key_error, Store,
  set_object, is_terminated_state, is_legal_state,
}

-- Whether `_update_stored_state` of the task's class sends the state on. `is_local` is
-- `workflow_context.local`.
unfoldable pub updates_state : Bool → Kind → TaskState → Bool
updates_state is_local nop state = false
updates_state is_local local sent = is_local
updates_state is_local local started = is_local
updates_state is_local dry_run sent = is_local
updates_state is_local dry_run started = is_local
updates_state is_local kind state = true

module _ {ℓ} {H : Type ℓ} (is_local : Bool) where
  -- The notice of a change of state: an update of the stored operation, or an event.
  unfoldable pub notify : ℕ → TaskState → Store H → Store H
  unfolding updates_state
  notify t state s =
      let task = s.objects t in
      if task.stored
      then (if updates_state is_local task.kind state
          then record s { notices = update_operation t state ∷ s.notices }
          else s)
      else record s { notices = send_task_event t state ∷ s.notices }

  -- WorkflowTask.set_state
  unfoldable pub set_state : ℕ → TaskState → Store H → Result TaskError (Store H)
  unfolding notify
  set_state t state s =
      let task = s.objects t in
      let changed = record task {
        state = state;
        is_terminated = task.is_terminated || is_terminated_state state;
      } in
      if not (is_legal_state state)
      then raise illegal_state
      else if is_terminated_state task.state
      then ok s
      else ok (notify t state (set_object t changed s))

-- TaskDependencyGraph._task_finished
unfoldable pub task_finished {ℓ} : {H : Type ℓ} → ℕ → TaskResult → Store H → Store H
task_finished t result s = record s { finished = put t result s.finished }

module _ {ℓ} {H : Type ℓ} where
  -- `async_result.result = result`
  unfoldable pub set_result : ℕ → TaskResult → Store H → Result TaskError (Store H)
  unfolding task_finished
  set_result t result s =
      let task = s.objects t in
      let s' = set_object t (record task { result = some result }) s in
      if not (is_none task.result)
      then raise result_already_set
      else ok (if task.watched then task_finished t result s' else s')

  -- `async_result.on_result(graph._task_finished, task)`
  unfoldable pub on_result : ℕ → Store H → Store H
  unfolding task_finished
  on_result t s =
      let task = s.objects t in
      let s' = set_object t (record task { watched = true }) s in
      elim task.result [ none ↦ s' | some result ↦ task_finished t result s' ]

module _ {ℓ} {H : Type ℓ} (is_local : Bool) where
  -- SubgraphTask.set_state
  unfoldable pub set_subgraph_state : ℕ → TaskState → Store H → Result TaskError (Store H)
  set_subgraph_state t state s = do
    s' ← set_state is_local t state s
    if is_terminated_state state then set_result t no_value s' else ok s'

  -- The tasks of the subgraph without the terminated one, and with the one that retries it.
  unfoldable pub replace_task : ℕ → ℕ → Option ℕ → Store H → Store H
  replace_task g task none s =
      let subgraph = s.objects g in
      set_object g (record subgraph { tasks = discard task subgraph.tasks }) s
  replace_task g task (some new_task) s =
      let subgraph = s.objects g in
      let s' =
        set_object g (record subgraph { tasks = add new_task (discard task subgraph.tasks) }) s in
      let new = s'.objects new_task in
      set_object new_task (record new { containing_subgraph = some g }) s'

  -- SubgraphTask.task_terminated: `g` is the subgraph.
  unfoldable pub task_terminated : ℕ → ℕ → Option ℕ → Store H → Result TaskError (Store H)
  task_terminated g task new_task s =
      let s' = replace_task g task new_task s in
      let subgraph = s'.objects g in
      if not (mem task (s.objects g).tasks)
      then raise key_error
      else if is_terminated_state subgraph.state
      then ok s'
      else if not (is_none subgraph.failed_task)
      then set_subgraph_state g failed s'
      else elim subgraph.tasks [ [] ↦ set_subgraph_state g succeeded s' | _ ∷ _ ↦ ok s' ]
