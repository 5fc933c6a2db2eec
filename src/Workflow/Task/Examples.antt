-- ===== src/Workflow/Task/Examples.antt =====
-- The theorems on tasks: task 5 has failed inside of the subgraph 7, task 4 has failed outside of
-- any subgraph, and all others are pending.
use cloudify_common.Prelude.{
  ℕ, ◌≤◌, ◌≡◌, ◌≢◌, ◌⊎◌, refl, true, false, none, some, [], ◌∷◌, Result, ok, raise, arith,
}
use cloudify_common.Prelude.Set.{mem, add, discard}
use cloudify_common.Prelude.Set.{mem, add, discard}
use cloudify_common.Prelude.{
  false, arith, Result, ℕ, ◌≢◌, ◌≤◌, none, ok, [], some, ◌≡◌, true, ◌⊎◌, raise,
}
use cloudify_common.Workflow.Task.{
  Task, pending, failed, at_most, recoverable, non_recoverable, remote, subgraph, handler_fail,
  handler_ignore, HandlerResult, cont, ignore, TaskError, Store, set_object,
}
use cloudify_common.Workflow.Task.State.{
  notify, set_state, set_result, set_subgraph_state, replace_task, task_terminated, task_finished,
  updates_state,
}
use cloudify_common.Workflow.Task.Handling.{
  ask_handler, retry_or_not, prepare_retry, tell_subgraph, note_failure, handle_task_terminated,
  duplicate_for_retry, duplicate, may_retry, handle_task_succeeded, handle_task_not_succeeded,
  tell_containing, default_failure,
}
use cloudify_common.Workflow.Task.StateLaws.{IsSound, set_states}
use cloudify_common.Workflow.Task.Containment.{contained-ne_fail}
use cloudify_common.Workflow.Task.Retries.{IsPlain, RetryChain, retries_bounded}
use cloudify_common.Workflow.Task.Retries

program : Unit {0}
unfolding notify set_state set_result set_subgraph_state replace_task task_terminated task_finished
    updates_state ask_handler retry_or_not prepare_retry tell_subgraph note_failure
    handle_task_terminated duplicate_for_retry duplicate may_retry handle_task_succeeded
    handle_task_not_succeeded tell_containing default_failure set_states mem add discard
program = tt

abbrev waiting_task : Task ℕ
waiting_task = record {
  kind = remote;
  state = pending;
  is_terminated = false;
  stored = false;
  on_success = none;
  on_failure = none;
  total_retries = at_most 2;
  retry_interval = 30;
  current_retries = 0;
  execute_after = none;
  retried_task = none;
  containing_subgraph = none;
  result = none;
  watched = true;
  tasks = [];
  failed_task = none;
}

abbrev failed_outside : Task ℕ
failed_outside = record waiting_task {
  state = failed;
  is_terminated = true;
  result = some (recoverable none);
}

abbrev failed_inside : Task ℕ
failed_inside = record failed_outside {
  result = some non_recoverable;
  containing_subgraph = some 7;
}

abbrev subgraph_task : Task ℕ
subgraph_task = record waiting_task { kind = subgraph; tasks = 5 ∷ 6 ∷ [] }

abbrev world : Store ℕ
world = set_object 7 subgraph_task (
    set_object 5 failed_inside (
      set_object 4 failed_outside
        (record { objects = λ n. waiting_task; finished = []; notices = [] })))

abbrev from_ok : {A : Type 0} → A → Result TaskError A → A
from_ok a (ok s) = s
from_ok a (raise e) = a

world-IsSound : IsSound world
world-IsSound a = ground arith

abbrev call : ℕ → Task ℕ → HandlerResult
call h task = cont

contained-ne_fail_example : handler_ignore ≢ handler_fail
unfolding program
contained-ne_fail_example =
    contained-ne_fail call false 100 9 5 7 world {answer = ignore}
      {s' = (from_ok (cont, world) (handle_task_terminated call false 100 9 5 world)).1} refl refl

abbrev retried : HandlerResult × Store ℕ
retried = from_ok (cont, world) (handle_task_terminated call false 100 9 4 world)

once_retried : RetryChain call (λ h task. (refl, refl)) false failed_outside 1 (retried.1.objects 9)
unfolding program
once_retried = Retries.again 100 9 4 world retried.1 retried.0 Retries.start refl refl refl refl

retries_bounded_example :
    (1 ≤ 2)
    × ((retried.1.objects 9).current_retries ≡ 1)
    × (((retried.1.objects 9).total_retries ≡ at_most 2)
        ⊎ ((retried.1.objects 9).total_retries ≡ at_most 0))
unfolding program
retries_bounded_example =
    retries_bounded call (λ h task. (refl, refl)) false failed_outside 2 refl refl once_retried
