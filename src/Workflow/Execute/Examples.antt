-- ===== src/Workflow/Execute/Examples.antt =====
-- The theorems on the loop: a graph with the one task 5, before it starts and after it failed.
use cloudify_common.Prelude.{
  ℕ, ◌+◌, ◌<◌, ◌≡◌, refl, true, false, none, some, [], ◌∷◌, Result, ok, raise, List, arith,
}
use cloudify_common.Prelude.Set.{mem, add, discard}
use cloudify_common.Workflow.Task.{
  Task, pending, failed, at_most, recoverable, remote, HandlerResult, cont, Store, set_object,
}
use cloudify_common.Workflow.Task.State.{
  notify, set_state, set_result, set_subgraph_state, replace_task, task_terminated, task_finished,
  updates_state, on_result,
}
use cloudify_common.Workflow.Task.Handling.{
  ask_handler, retry_or_not, prepare_retry, tell_subgraph, note_failure, handle_task_terminated,
  duplicate_for_retry, duplicate, may_retry, handle_task_succeeded, handle_task_not_succeeded,
  tell_containing, default_failure,
}
use cloudify_common.Workflow.Graph.{
  empty_graph, add_task, remove_task, remove_tasks, remove_one, detach, release, forget, drop_task,
  clear_dependencies,
}
use cloudify_common.Workflow.Graph.Invariant.{empty_graph-IsGraph, add_task-IsGraph}
use cloudify_common.Workflow.Execute.{Engine, Now, EngineError, is_finished, workflow_failed}
use cloudify_common.Workflow.Execute.Starting.{
  unlink_all, pop_ready, runs_now, apply_remote, apply_nop, apply_subgraph, apply_async, run_task,
  delivered,
}
use cloudify_common.Workflow.Execute.Reaction.{
  link_all, take_place, failing_task, record_failure, store_retry, held_tasks, removed_task, drop,
  react, handle_terminated_task,
}
use cloudify_common.Workflow.Execute.Loop.{start_ready, handle_finished, turn, turn-IsRunning}
use cloudify_common.Workflow.Graph.{Graph}
use cloudify_common.Workflow.Execute.Steps.{
  IsRunning, run_task-IsRunning, handle_terminated_task-IsRunning,
}

program : Unit {0}
unfolding turn start_ready handle_finished notify set_state set_result set_subgraph_state
    replace_task task_terminated task_finished updates_state on_result ask_handler retry_or_not
    prepare_retry tell_subgraph note_failure handle_task_terminated duplicate_for_retry duplicate
    may_retry handle_task_succeeded handle_task_not_succeeded tell_containing default_failure
    empty_graph add_task remove_task remove_tasks remove_one detach release forget drop_task
    clear_dependencies is_finished unlink_all pop_ready runs_now apply_remote apply_nop
    apply_subgraph apply_async run_task link_all take_place failing_task record_failure store_retry
    held_tasks removed_task drop react handle_terminated_task mem add discard
program = tt

abbrev waiting_task : Task ℕ
waiting_task = record {
  kind = remote;
  state = pending;
  is_terminated = false;
  stored = false;
  on_success = none;
  on_failure = none;
  total_retries = at_most 2;
  retry_interval = 30;
  current_retries = 0;
  execute_after = none;
  retried_task = none;
  containing_subgraph = none;
  result = none;
  watched = true;
  tasks = [];
  failed_task = none;
}

abbrev new_store : Store ℕ
new_store = record { objects = λ n. waiting_task; finished = []; notices = [] }

abbrev before : Engine ℕ
before = record {
  graph = add_task 5 empty_graph;
  store = new_store;
  waiting_for = [];
  error = none;
  error_time = 0;
  graph_id = none;
  stored_operations = [];
}

abbrev now : Now
now = record { time = 100; cancelled = false; wait_after_fail = 60; is_local = false }

abbrev from_ok : Engine ℕ → Result EngineError (Engine ℕ) → Engine ℕ
from_ok a (ok s) = s
from_ok a (raise e) = a

before-IsRunning : IsRunning before
unfolding program
before-IsRunning = add_task-IsGraph [] empty_graph (empty_graph-IsGraph []) 5 refl

abbrev running : Engine ℕ
running =
    from_ok before (run_task now delivered 5 (record before { graph = pop_ready 5 before.graph }))

run_task-IsRunning_example : IsRunning running × (running.waiting_for ≡ 5 ∷ [])
unfolding program
run_task-IsRunning_example = run_task-IsRunning now delivered 5 before before-IsRunning refl

running-IsRunning : IsRunning running
unfolding program
running-IsRunning = (run_task-IsRunning now delivered 5 before before-IsRunning refl).0

-- Task 5 has failed, and is to be retried as task 9.
abbrev failing : Engine ℕ
failing = record running {
  store =
      set_object 5
        (record waiting_task {
          state = failed;
          is_terminated = true;
          result = some (recoverable none);
        })
        running.store;
}

abbrev call : ℕ → Task ℕ → HandlerResult
call h task = cont

abbrev handled : Engine ℕ
handled = from_ok failing (handle_terminated_task call now 9 0 5 failing)

handle_terminated_task-IsRunning_example :
    (handled.error ≡ none → IsRunning handled) × (handled.waiting_for ≡ [])
unfolding program
handle_terminated_task-IsRunning_example =
    handle_terminated_task-IsRunning call (λ h task. (refl, refl)) now 9 0 5 failing
      running-IsRunning refl refl

-- A failure at time 70, while another task is waited for.
abbrev after_failure : Engine ℕ
after_failure = record running { error = some (workflow_failed 4); error_time = 70 }

abbrev total : List ℕ → ℕ
total [] = 0
total (x ∷ s) = x + total s

above-total : (n : ℕ) (s : List ℕ) → total s < n → mem n s ≡ false
unfolding mem
above-total n [] h = refl
above-total n (x ∷ s) h = ground (arith, above-total n s (omega arith))

abbrev new_id : Graph → ℕ
new_id g = total g.tasks + 1

new_id-fresh : (g : Graph) → mem (new_id g) g.tasks ≡ false
new_id-fresh g = above-total (new_id g) g.tasks (omega arith)

-- While the loop waits, task 5 fails.
abbrev arrive : Store ℕ → Store ℕ
arrive s =
    record (set_object 5
      (record waiting_task {
        state = failed;
        is_terminated = true;
        result = some (recoverable none);
      })
      s) { finished = (5, recoverable none) ∷ [] }

abbrev turned : Engine ℕ
turned = from_ok before (turn call new_id 0 now 3 (λ t. delivered) arrive before)

turned_retries : turned.graph.tasks ≡ 6 ∷ []
unfolding program
turned_retries = refl

turn-IsRunning_example : IsRunning turned
unfolding program
turn-IsRunning_example =
    turn-IsRunning call (λ h task. (refl, refl)) new_id new_id-fresh 0 now 3 (λ t. delivered) arrive
      before before-IsRunning refl refl
