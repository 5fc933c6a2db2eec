-- ===== src/Workflow/Task/Retries.antt =====
-- How often a task is retried.
use cloudify_common.Prelude.{
  ℕ, zero, suc, ◌+◌, ◌≤◌, ◌<◌, ◌≡◌, ap, Bool, true, false, Option, none, some, if◌then◌else◌, ok,
  ◌>>=◌, >>=-eq-ok, inl, inr, arith, ◌⊎◌, get_or, Option-cases,
}
use cloudify_common.Workflow.Task.{
  Task, TaskState, succeeded, failed, at_most, TaskResult, no_value, handler_retry, HandlerResult,
  Store, set_object, is_terminated_state,
}
use cloudify_common.Workflow.Task.State.{
  replace_task, task_terminated, set_subgraph_state, set_state, set_result,
}
use cloudify_common.Workflow.Task.Handling.{
  ask_handler, retry_or_not, prepare_retry, tell_subgraph, note_failure, handle_task_terminated,
  duplicate_for_retry, duplicate, may_retry, handle_task_succeeded, handle_task_not_succeeded,
  tell_containing,
}

module _ {ℓ} {H : Type ℓ} where
  -- Two stores agree on how often each task was retried, and may be.
  abbrev pub KeepsRetries : Store H → Store H → Type 0
  KeepsRetries s s' =
      (a : ℕ)
      → ((s'.objects a).current_retries ≡ (s.objects a).current_retries)
        × ((s'.objects a).total_retries ≡ (s.objects a).total_retries)

  module _ (is_local : Bool) where
    set_state-retries :
        (t : ℕ) (state : TaskState) (s : Store H) {s' : Store H}
        → set_state is_local t state s ≡ ok s'
        → KeepsRetries s s'
    unfolding set_state
    set_state-retries t state s h a = ground arith

    set_result-retries :
        (t : ℕ) (r : TaskResult) (s : Store H) {s' : Store H}
        → set_result t r s ≡ ok s'
        → KeepsRetries s s'
    unfolding set_result
    set_result-retries t r s h a = ground arith

    set_subgraph_state-retries :
        (t : ℕ) (state : TaskState) (s : Store H) {s' : Store H}
        → set_subgraph_state is_local t state s ≡ ok s'
        → KeepsRetries s s'
    unfolding set_subgraph_state
    set_subgraph_state-retries t state s {s'} h a =
        let (middle, one, two) =
          >>=-eq-ok (set_state is_local t state s)
            (λ m. if is_terminated_state state then set_result t no_value m else ok m) h in
        ground (
          arith,
          set_state-retries t state s one a,
          λ (p : set_result t no_value middle ≡ ok s'). set_result-retries t no_value middle p a,
        )

    replace_task-retries :
        (g t : ℕ) (new_task : Option ℕ) (s : Store H)
        → KeepsRetries s (replace_task is_local g t new_task s)
    unfolding replace_task
    replace_task-retries g t none s a = ground arith
    replace_task-retries g t (some n) s a = ground arith

    task_terminated-retries :
        (g t : ℕ) (new_task : Option ℕ) (s : Store H) {s' : Store H}
        → task_terminated is_local g t new_task s ≡ ok s'
        → KeepsRetries s s'
    unfolding task_terminated
    task_terminated-retries g t new_task s {s'} h a =
        let told = replace_task is_local g t new_task s in
        ground (
          arith,
          replace_task-retries g t new_task s a,
          λ (p : set_subgraph_state is_local g failed told ≡ ok s').
              set_subgraph_state-retries g failed told p a,
          λ (p : set_subgraph_state is_local g succeeded told ≡ ok s').
              set_subgraph_state-retries g succeeded told p a,
        )

    tell_subgraph-retries :
        (g t : ℕ) (answer : HandlerResult) (s : Store H) {answer' : HandlerResult} {s' : Store H}
        → tell_subgraph is_local g t answer s ≡ ok (answer', s')
        → (answer'.retried_task ≡ answer.retried_task) × KeepsRetries s s'
    unfolding tell_subgraph note_failure
    tell_subgraph-retries g t answer s {s' = s'} h =
        let noted = note_failure g t s in
        (
          ground arith,
          λ a. ground (
            arith,
            λ (p : task_terminated is_local g t none noted ≡ ok s').
                task_terminated-retries g t none noted p a,
            λ (p : task_terminated is_local g t none s ≡ ok s').
                task_terminated-retries g t none s p a,
            λ (p : task_terminated is_local g t answer.retried_task s ≡ ok s').
                task_terminated-retries g t answer.retried_task s p a,
          ),
        )

  -- A duplicate counts one retry more, and may be retried as often (a builtin task never).
  duplicate_counts :
      (t : ℕ) (task : Task H) (after : ℕ) {dup : Task H}
      → duplicate_for_retry t task after ≡ ok dup
      → (dup.current_retries ≡ task.current_retries + 1)
        × ((dup.total_retries ≡ task.total_retries) ⊎ (dup.total_retries ≡ at_most 0))
        × (dup.retried_task ≡ some t)
        × (dup.execute_after ≡ some after)
  unfolding duplicate_for_retry duplicate
  duplicate_counts t task after h = ground arith

-- A handler that leaves the retry to the engine: it sets neither `ignore_total_retries` nor
-- `retried_task`.
abbrev pub IsPlain : HandlerResult → Type 0
IsPlain answer = (answer.ignore_total_retries ≡ false) × (answer.retried_task ≡ none)

module _ {ℓ} {H : Type ℓ} (call : H → Task H → HandlerResult)
    (plain : (h : H) (task : Task H) → IsPlain (call h task)) where
  ask_handler-IsPlain :
      (task : Task H) {answer : HandlerResult} → ask_handler call task ≡ ok answer → IsPlain answer
  unfolding ask_handler handle_task_succeeded handle_task_not_succeeded
  ask_handler-IsPlain task e = elim (Option-cases task.on_success) [
    | inl a ↦ elim (Option-cases task.on_failure) [
      | inl b ↦ ground arith
      | inr (f, b) ↦ ground (arith, plain f task)
    ]
    | inr (h, a) ↦ elim (Option-cases task.on_failure) [
      | inl b ↦ ground (arith, plain h task)
      | inr (f, b) ↦ ground (arith, plain h task, plain f task)
    ]
  ]

module _ {ℓ} {H : Type ℓ} where
  retry_prepared :
      (now uuid t : ℕ) (answer : HandlerResult) (s : Store H) {answer' : HandlerResult}
      → {s' : Store H} → IsPlain answer
      → retry_or_not now uuid t answer s ≡ ok (answer', s')
      → answer'.action ≡ handler_retry
      → (may_retry (s.objects t) answer ≡ true)
        × (answer'.retried_task ≡ some uuid)
        × ((dup : Task H) × (duplicate_for_retry t
                (s.objects t)
                (now + get_or answer.retry_after (s.objects t).retry_interval)
              ≡ ok dup)
            × (s' ≡ set_object uuid dup s))
  unfolding retry_or_not prepare_retry
  retry_prepared now uuid t answer s plain h a = ground arith

  tell_containing-retries :
      (is_local : Bool) (t : ℕ) (g : Option ℕ) (answer : HandlerResult) (s : Store H)
      → {answer' : HandlerResult} {s' : Store H}
      → tell_containing is_local t g (answer, s) ≡ ok (answer', s')
      → (answer'.retried_task ≡ answer.retried_task)
        × (answer'.action ≡ handler_retry → answer.action ≡ handler_retry)
        × KeepsRetries s s'
  unfolding tell_containing tell_subgraph
  tell_containing-retries is_local t none answer s h =
      (ground arith, λ e. ground arith, λ a. ground arith)
  tell_containing-retries is_local t (some g) answer s h =
      let (same, kept) = tell_subgraph-retries is_local g t answer s h in
      (same, λ e. ground arith, kept)

  retry_counts :
      (is_local : Bool) (now uuid t : ℕ) (s : Store H) (answer : HandlerResult)
      → (decided : HandlerResult × Store H) {answer' : HandlerResult} {s' : Store H}
      → IsPlain answer
      → retry_or_not now uuid t answer s ≡ ok decided
      → tell_containing is_local t (s.objects t).containing_subgraph decided ≡ ok (answer', s')
      → answer'.action ≡ handler_retry
      → (answer'.retried_task ≡ some uuid)
        × ((s'.objects uuid).current_retries ≡ (s.objects t).current_retries + 1)
        × (((s'.objects uuid).total_retries ≡ (s.objects t).total_retries)
            ⊎ ((s'.objects uuid).total_retries ≡ at_most 0))
        × ((n : ℕ) → (s.objects t).total_retries ≡ at_most n → (s.objects t).current_retries < n)
  unfolding may_retry
  retry_counts is_local now uuid t s answer (middle, s1) plain decided told a =
      let (named, retried, kept) =
        tell_containing-retries is_local t (s.objects t).containing_subgraph middle s1 told in
      let (may, own, dup_made) = retry_prepared now uuid t answer s plain decided (retried a) in
      let (dup, made, stored) = dup_made in
      let counts = duplicate_counts t (s.objects t) _ made in
      let now_stored = ap (λ (r : Store H). r.objects uuid) stored in
      (ground arith, ground (arith, kept uuid), ground (arith, kept uuid), λ n e. ground arith)

module _ {ℓ} {H : Type ℓ} (call : H → Task H → HandlerResult)
    (plain : (h : H) (task : Task H) → IsPlain (call h task)) (is_local : Bool) where
  pub handle_retry_counts :
      (now uuid t : ℕ) (s : Store H) {answer : HandlerResult} {s' : Store H}
      → handle_task_terminated call is_local now uuid t s ≡ ok (answer, s')
      → answer.action ≡ handler_retry
      → (answer.retried_task ≡ some uuid)
        × ((s'.objects uuid).current_retries ≡ (s.objects t).current_retries + 1)
        × (((s'.objects uuid).total_retries ≡ (s.objects t).total_retries)
            ⊎ ((s'.objects uuid).total_retries ≡ at_most 0))
        × ((n : ℕ) → (s.objects t).total_retries ≡ at_most n → (s.objects t).current_retries < n)
  unfolding handle_task_terminated
  handle_retry_counts now uuid t s h a =
      let next = tell_containing is_local t (s.objects t).containing_subgraph in
      let (first, asked, rest) =
        >>=-eq-ok (ask_handler call (s.objects t)) (λ r. retry_or_not now uuid t r s >>= next) h in
      let (decided, done, told) = >>=-eq-ok (retry_or_not now uuid t first s) next rest in
      retry_counts is_local now uuid t s first decided
        (ask_handler-IsPlain call plain (s.objects t) asked) done told a

  -- `k` retries of a task, one after the other: each retry is of the task that the one before
  -- made. Between its making and its end a task keeps its two counts of retries.
  pub data RetryChain (first : Task H) : ℕ → Task H → Type ℓ where
    start : RetryChain first zero first
    again :
        {k : ℕ} {task : Task H} (now uuid t : ℕ) (s s' : Store H) (answer : HandlerResult)
        → RetryChain first k task
        → (s.objects t).current_retries ≡ task.current_retries
        → (s.objects t).total_retries ≡ task.total_retries
        → handle_task_terminated call is_local now uuid t s ≡ ok (answer, s')
        → answer.action ≡ handler_retry
        → RetryChain first (suc k) (s'.objects uuid)

  -- With handlers that leave the retry to the engine, a task with `total_retries` other than -1
  -- is retried at most `total_retries` times; `current_retries` counts the retries.
  pub retries_bounded :
      (first : Task H) (n : ℕ)
      → first.current_retries ≡ 0
      → first.total_retries ≡ at_most n
      → {k : ℕ} {last : Task H} → RetryChain first k last
      → (k ≤ n)
        × (last.current_retries ≡ k)
        × ((last.total_retries ≡ at_most n) ⊎ (last.total_retries ≡ at_most 0))
  retries_bounded first n zero_now total start = (omega arith, zero_now, inl total)
  retries_bounded first n zero_now total (again now uuid t s s' answer chain same same' h a) =
      let before = retries_bounded first n zero_now total chain in
      let (named, count, limit, below) = handle_retry_counts now uuid t s h a in
      let at_n = below n in let at_zero = below 0 in ground (arith, at_n, at_zero)
