-- ===== src/Workflow/Execute/Starting.antt =====
-- `_run_task` of the graph, and `apply_async` of the task classes.
use cloudify_common.Prelude.{
  ℕ, Bool, true, false, not, ◌&&◌, List, [], ◌∷◌, ltb, get_or, if◌then◌else◌, Result, ok, ◌>>=◌,
}
use cloudify_common.Workflow.Task.{
  Task, TaskState, pending, sending, sent, started, rescheduled, succeeded, failed, TaskResult,
  value, no_value, operation_retry, remote, local, nop, dry_run, builtin, subgraph, TaskError,
  Store,
}
use cloudify_common.Workflow.Task.State.{set_state, set_result, on_result, set_subgraph_state}
use cloudify_common.Workflow.Graph.{Graph, GraphError, remove_dependency}
use cloudify_common.Workflow.Execute.{Engine, Now, EngineError, from_graph, from_task}
use cloudify_common.Prelude.Set.{add, discard}

-- What sending a remote task comes to: it is sent, or one of the two errors that `apply_async`
-- catches is raised before or after the state SENT is set.
pub data Sending : Type 0 where
  delivered : Sending
  no_queue not_sent : TaskResult → Sending

-- The loop of `SubgraphTask.apply_async`: the tasks no longer wait for their subgraph.
unfoldable pub unlink_all : ℕ → List ℕ → Graph → Result GraphError Graph
unlink_all t [] g = ok g
unlink_all t (task ∷ tasks) g = do g' ← remove_dependency task t g; unlink_all t tasks g'

abbrev is_pending : TaskState → Bool
is_pending pending = true
is_pending _ = false

-- `self._state in (TASK_PENDING, TASK_SENDING)`
abbrev is_unsent : TaskState → Bool
is_unsent pending = true
is_unsent sending = true
is_unsent _ = false

-- `self._ready.pop()` of the task `t`
unfoldable pub pop_ready : ℕ → Graph → Graph
pop_ready t g = record g { ready = discard t g.ready }

module _ {H : Type 0} where
  -- The decorator `with_execute_after`: whether the body runs now. A delayed task starts when its
  -- timer calls the decorated function again.
  unfoldable pub runs_now : Now → Task H → Bool
  runs_now now task = not now.cancelled && not (ltb now.time (get_or task.execute_after 0))

  -- RemoteWorkflowTask.apply_async
  unfoldable pub apply_remote : Bool → Sending → ℕ → Store H → Result TaskError (Store H)
  apply_remote is_local sending_result t s = do
    let should_send = is_unsent (s.objects t).state
    s1 ← if is_pending (s.objects t).state then set_state is_local t sending s else ok s
    elim sending_result [
      | no_queue e ↦ do s2 ← set_state is_local t failed s1; set_result t e s2
      | not_sent e ↦
          if should_send
          then (do
            s2 ← set_state is_local t sent s1
            s3 ← set_state is_local t failed s2
            set_result t e s3)
          else ok s1
      | delivered ↦ if should_send then set_state is_local t sent s1 else ok s1
    ]

  -- NOPLocalWorkflowTask.apply_async and DryRunLocalWorkflowTask.apply_async
  unfoldable pub apply_nop : Bool → ℕ → Store H → Result TaskError (Store H)
  apply_nop is_local t s = do s' ← set_state is_local t succeeded s; set_result t no_value s'

  -- The wrapper that a local task's thread runs, given what the callable returned or raised.
  unfoldable pub run_local : Bool → TaskResult → ℕ → Store H → Result TaskError (Store H)
  run_local is_local outcome t s = do
    s1 ← set_state is_local t started s
    s2 ←
        set_state is_local t
          (elim outcome [
            | value _ ↦ succeeded
            | no_value ↦ succeeded
            | operation_retry _ ↦ rescheduled
            | _ ↦ failed
          ])
          s1
    set_result t outcome s2

  -- _BuiltinTaskBase._run_task, given what `local` or `remote` returned or raised.
  unfoldable pub run_builtin : Bool → TaskResult → ℕ → Store H → Result TaskError (Store H)
  run_builtin is_local outcome t s = do
    s' ←
        set_state is_local t
          (elim outcome [ value _ ↦ succeeded | no_value ↦ succeeded | _ ↦ failed ]) s
    set_result t outcome s'

  -- SubgraphTask.apply_async
  unfoldable pub apply_subgraph : Bool → ℕ → Engine H → Result EngineError (Engine H)
  apply_subgraph is_local t e = elim (e.store.objects t).tasks [
    | [] ↦ do
      s ← from_task (set_subgraph_state is_local t succeeded e.store)
      ok (record e { store = s })
    | task ∷ tasks ↦ do
      g ← from_graph (unlink_all t (task ∷ tasks) e.graph)
      s ← from_task (set_subgraph_state is_local t started e.store)
      ok (record e { graph = g; store = s })
  ]

  -- `apply_async` by class. Local and builtin tasks only join the queue of the thread pool.
  unfoldable pub apply_async : Now → Sending → ℕ → Engine H → Result EngineError (Engine H)
  apply_async now sending_result t e =
      let task = e.store.objects t in
      let with_store = λ (s : Store H). record e { store = s } in
      let started_task : Result EngineError (Engine H) = elim task.kind [
        | remote ↦ do
          s ← from_task (apply_remote now.is_local sending_result t e.store)
          ok (with_store s)
        | local ↦ do s ← from_task (set_state now.is_local t sent e.store); ok (with_store s)
        | nop ↦ do s ← from_task (apply_nop now.is_local t e.store); ok (with_store s)
        | dry_run ↦ do s ← from_task (apply_nop now.is_local t e.store); ok (with_store s)
        | builtin ↦ ok e
        | subgraph ↦ apply_subgraph now.is_local t e
      ] in
      elim task.kind [
        | remote ↦ if runs_now now task then started_task else ok e
        | local ↦ if runs_now now task then started_task else ok e
        | nop ↦ if runs_now now task then started_task else ok e
        | _ ↦ started_task
      ]

  -- `_run_task`
  unfoldable pub run_task : Now → Sending → ℕ → Engine H → Result EngineError (Engine H)
  run_task now sending_result t e = do
    e' ← apply_async now sending_result t e
    ok (record e' { waiting_for = add t e'.waiting_for; store = on_result t e'.store })
