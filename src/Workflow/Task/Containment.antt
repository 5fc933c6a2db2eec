-- ===== src/Workflow/Task/Containment.antt =====
-- What becomes of a failure inside of a subgraph.
use cloudify_common.Workflow.Task.Handling.{
  handle_task_terminated, tell_subgraph, tell_containing, ask_handler, retry_or_not,
}
use cloudify_common.Prelude.{ℕ, ◌≡◌, ◌≢◌, Bool, some, ok, ◌>>=◌, >>=-eq-ok, arith}
use cloudify_common.Workflow.Task.{Task, handler_fail, HandlerResult, Store}

module _ {ℓ} {H : Type ℓ} where
  tell_subgraph-ne_fail :
      (is_local : Bool) (g t : ℕ) (answer : HandlerResult) (s : Store H)
      → {answer' : HandlerResult} {s' : Store H}
      → tell_subgraph is_local g t answer s ≡ ok (answer', s')
      → answer'.action ≢ handler_fail
  unfolding tell_subgraph
  tell_subgraph-ne_fail is_local g t answer s h = ground arith

  -- A task inside of a subgraph never makes the engine fail: whatever its handlers answer, its own
  -- failure is turned into an answer to go on.
  pub contained-ne_fail :
      (call : H → Task H → HandlerResult) (is_local : Bool) (now uuid t g : ℕ) (s : Store H)
      → {answer : HandlerResult} {s' : Store H} → (s.objects t).containing_subgraph ≡ some g
      → handle_task_terminated call is_local now uuid t s ≡ ok (answer, s')
      → answer.action ≢ handler_fail
  unfolding handle_task_terminated tell_containing
  contained-ne_fail call is_local now uuid t g s inside h =
      let next = tell_containing is_local t (s.objects t).containing_subgraph in
      let (first, asked, rest) =
        >>=-eq-ok (ask_handler call (s.objects t)) (λ r. retry_or_not now uuid t r s >>= next) h in
      let (decided, done, told) = >>=-eq-ok (retry_or_not now uuid t first s) next rest in
      tell_subgraph-ne_fail is_local g t decided.0 decided.1 (rw inside at told)
