-- ===== src/Workflow/Task/Handling.antt =====
-- What a terminated task leads to: `handle_task_terminated` of WorkflowTask with the methods that
-- it calls. `uuid` is the id that `uuid.uuid4()` gives a duplicate, `now` is `time.time()`.
use cloudify_common.Prelude.{
  ℕ, ◌+◌, Bool, true, false, ◌||◌, Option, none, some, [], ltb, get_or, is_none, if◌then◌else◌,
  Result, ok, raise, ◌>>=◌,
}
use cloudify_common.Workflow.Task.{
  Task, pending, rescheduled, failed, TotalRetries, infinite, at_most, TaskResult, operation_retry,
  recoverable, non_recoverable, Kind, remote, local, nop, dry_run, builtin, subgraph, handler_retry,
  handler_fail, handler_ignore, HandlerResult, retry, fail, cont, TaskError, result_not_set,
  not_implemented, Store, set_object,
}
use cloudify_common.Workflow.Task.State.{task_terminated}

-- DEFAULT_RETRY_INTERVAL
abbrev default_retry_interval : ℕ
default_retry_interval = 30

module _ {ℓ} {H : Type ℓ} where
  -- `_duplicate`, by class. The new object has the constructor's defaults.
  duplicated : Kind → TotalRetries → ℕ → Task H
  duplicated kind total_retries retry_interval = record {
    kind = kind;
    state = pending;
    is_terminated = false;
    stored = false;
    on_success = none;
    on_failure = none;
    total_retries = total_retries;
    retry_interval = retry_interval;
    current_retries = 0;
    execute_after = none;
    retried_task = none;
    containing_subgraph = none;
    result = none;
    watched = false;
    tasks = [];
    failed_task = none;
  }

  unfoldable pub duplicate : Task H → Result TaskError (Task H)
  unfolding duplicated
  duplicate task = elim task.kind [
    | remote ↦ ok (duplicated remote task.total_retries task.retry_interval)
    | local ↦ ok (duplicated local task.total_retries task.retry_interval)
    | dry_run ↦ ok (duplicated local task.total_retries task.retry_interval)
    | builtin ↦ ok (duplicated builtin (at_most 0) default_retry_interval)
    | nop ↦ raise not_implemented
    | subgraph ↦ raise not_implemented
  ]

  -- `duplicate_for_retry` of the task `t`
  unfoldable pub duplicate_for_retry : ℕ → Task H → ℕ → Result TaskError (Task H)
  unfolding duplicate
  duplicate_for_retry t task execute_after = do
    dup ← duplicate task
    ok (record dup {
      execute_after = some execute_after;
      current_retries = task.current_retries + 1;
      retried_task = some t;
      on_success = task.on_success;
      on_failure = task.on_failure;
    })

-- The answer to a failure, without and with a handler.
unfoldable pub default_failure : TaskResult → HandlerResult
default_failure (recoverable retry_after) = retry false retry_after
default_failure (operation_retry retry_after) = retry false retry_after
default_failure non_recoverable = fail
default_failure _ = retry false none

module _ {ℓ} {H : Type ℓ} (call : H → Task H → HandlerResult) where
  unfoldable pub handle_task_succeeded : Task H → HandlerResult
  handle_task_succeeded task = elim task.on_success [
    | none ↦ cont
    | some handler ↦ call handler task
  ]

  unfoldable pub handle_task_not_succeeded : Task H → Result TaskError HandlerResult
  unfolding default_failure
  handle_task_not_succeeded task = elim task.result [
    | none ↦ raise result_not_set
    | some result ↦ ok (elim result [
      | operation_retry retry_after ↦ retry false retry_after
      | other ↦ elim task.on_failure [
        | some handler ↦ call handler task
        | none ↦ default_failure other
      ]
    ])
  ]

  unfoldable pub ask_handler : Task H → Result TaskError HandlerResult
  unfolding handle_task_succeeded handle_task_not_succeeded
  ask_handler task = elim task.state [
    | failed ↦ handle_task_not_succeeded task
    | rescheduled ↦ handle_task_not_succeeded task
    | _ ↦ ok (handle_task_succeeded task)
  ]

module _ {ℓ} {H : Type ℓ} where
  -- The comparison of the retries made with the retries allowed.
  unfoldable pub may_retry : Task H → HandlerResult → Bool
  may_retry task answer = elim task.total_retries [
    | infinite ↦ true
    | at_most n ↦ ltb task.current_retries n || answer.ignore_total_retries
  ]

  -- The block under `if handler_result.action == HandlerResult.HANDLER_RETRY`.
  unfoldable pub prepare_retry :
      ℕ → ℕ → ℕ → HandlerResult → Store H → Result TaskError (HandlerResult × Store H)
  unfolding may_retry
  prepare_retry now uuid t answer s =
      let task = s.objects t in
      let after = get_or answer.retry_after task.retry_interval in
      if may_retry task answer
      then elim answer.retried_task [
        | some _ ↦ ok (record answer { retry_after = some after }, s)
        | none ↦ do
          dup ← duplicate_for_retry t task (now + after)
          ok (
            record answer { retry_after = some after; retried_task = some uuid },
            set_object uuid dup s,
          )
      ]
      else ok (record answer { action = handler_fail }, s)

  -- A failure inside of a subgraph: the first one is kept in `failed_task`.
  unfoldable pub note_failure : ℕ → ℕ → Store H → Store H
  note_failure g t s =
      let group = s.objects g in
      if is_none group.failed_task
      then set_object g (record group { failed_task = some t }) s
      else s

  -- What the containing subgraph `g` is told, by the action.
  unfoldable pub tell_subgraph :
      Bool → ℕ → ℕ → HandlerResult → Store H → Result TaskError (HandlerResult × Store H)
  tell_subgraph is_local g t answer s = elim answer.action [
    | handler_fail ↦ do
      s' ← task_terminated is_local g t none (note_failure g t s)
      ok (record answer { action = handler_ignore }, s')
    | handler_retry ↦ do s' ← task_terminated is_local g t answer.retried_task s; ok (answer, s')
    | _ ↦ do s' ← task_terminated is_local g t none s; ok (answer, s')
  ]

  unfoldable pub retry_or_not :
      ℕ → ℕ → ℕ → HandlerResult → Store H → Result TaskError (HandlerResult × Store H)
  unfolding prepare_retry
  retry_or_not now uuid t answer s = elim answer.action [
    | handler_retry ↦ prepare_retry now uuid t answer s
    | _ ↦ ok (answer, s)
  ]

  -- The block under `if self.containing_subgraph`.
  unfoldable pub tell_containing :
      Bool → ℕ → Option ℕ → HandlerResult × Store H → Result TaskError (HandlerResult × Store H)
  tell_containing is_local t none decided = ok decided
  tell_containing is_local t (some g) (answer, s) = tell_subgraph is_local g t answer s

module _ {ℓ} {H : Type ℓ} (call : H → Task H → HandlerResult) where
  unfoldable pub handle_task_terminated :
      Bool → ℕ → ℕ → ℕ → Store H → Result TaskError (HandlerResult × Store H)
  handle_task_terminated is_local now uuid t s = do
    answer ← ask_handler call (s.objects t)
    decided ← retry_or_not now uuid t answer s
    tell_containing is_local t (s.objects t).containing_subgraph decided
