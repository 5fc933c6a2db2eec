-- ===== src/Workflow/Execute/Loop.antt =====
-- The body of the loop of `TaskDependencyGraph.execute`. What arrives while the loop waits is a
-- change of the store, and a new id for a retry is a function of the graph. The inner loops take
-- fuel: with less of it a turn is cut short, and the next turn takes up the rest.
use cloudify_common.Prelude.{
  ℕ, zero, suc, ◌≡◌, false, none, [], ◌∷◌, if◌then◌else◌, is_none, Result, ok, ◌>>=◌, arith,
  >>=-eq-ok, List-cases, Bool-cases, inl, inr, subst,
}
use cloudify_common.Prelude.Set.{mem, discard}
use cloudify_common.Workflow.Task.{Task, HandlerResult, Store}
use cloudify_common.Workflow.Task.Handling.{handle_task_terminated}
use cloudify_common.Workflow.Task.Retries.{IsPlain}
use cloudify_common.Workflow.Graph.{Graph}
use cloudify_common.Workflow.Execute.{Engine, Now, EngineError, from_task}
use cloudify_common.Workflow.Execute.Starting.{Sending, pop_ready, run_task}
use cloudify_common.Workflow.Execute.Reaction.{
  react, record_failure, store_retry, drop, removed_task, handle_terminated_task,
}
use cloudify_common.Workflow.Execute.Steps.{
  IsRunning, run_task-IsRunning, handle_terminated_task-IsRunning,
}

module _ {H : Type 0} where
  -- `while self._ready and not self._error`; `pop` may take any task, here the first.
  unfoldable pub start_ready : ℕ → Now → (ℕ → Sending) → Engine H → Result EngineError (Engine H)
  start_ready zero now outcome e = ok e
  start_ready (suc fuel) now outcome e = elim e.graph.ready [
    | [] ↦ ok e
    | task ∷ rest ↦
        let next = run_task now (outcome task) task (record e { graph = pop_ready task e.graph }) in
        let started_rest = next >>= start_ready fuel now outcome in
        if is_none e.error then started_rest else ok e
  ]

  module _ (call : H → Task H → HandlerResult) (new_id : Graph → ℕ) (nesting : ℕ) (now : Now) where
    -- `while self._finished_tasks`; `popitem` may take any task, here the first.
    unfoldable pub handle_finished : ℕ → Engine H → Result EngineError (Engine H)
    handle_finished zero e = ok e
    handle_finished (suc fuel) e = elim e.store.finished [
      | [] ↦ ok e
      | (task, result) ∷ rest ↦ do
        e' ←
            handle_terminated_task call now (new_id e.graph) nesting task
              (record e { store = record e.store { finished = rest } })
        handle_finished fuel e'
    ]

    unfoldable pub turn :
        ℕ → (ℕ → Sending) → (Store H → Store H) → Engine H → Result EngineError (Engine H)
    unfolding start_ready handle_finished
    turn fuel outcome arrive e = do
      e' ← start_ready fuel now outcome e
      handle_finished fuel (record e' { store = arrive e'.store })

  start_ready-IsRunning :
      (fuel : ℕ) (now : Now) (outcome : ℕ → Sending) (e : Engine H) {e' : Engine H}
      → IsRunning e
      → start_ready fuel now outcome e ≡ ok e'
      → IsRunning e'
  unfolding start_ready
  start_ready-IsRunning zero now outcome e {e'} inv h =
      subst IsRunning (let p : e ≡ e' = ground arith in p) inv
  start_ready-IsRunning (suc fuel) now outcome e {e'} inv h = elim (List-cases e.graph.ready) [
    | inl empty ↦ subst IsRunning (let p : e ≡ e' = ground arith in p) inv
    | inr (task, rest, some_ready) ↦ elim (Bool-cases (is_none e.error)) [
      | inr failing ↦ subst IsRunning (let p : e ≡ e' = ground arith in p) inv
      | inl going ↦
          let popped : Engine H = record e { graph = pop_ready task e.graph } in
          let whole : (run_task now (outcome task) task popped >>= start_ready fuel now outcome)
              ≡ ok e' =
            ground arith in
          let (middle, one, more) =
            >>=-eq-ok (run_task now (outcome task) task popped) (start_ready fuel now outcome)
              whole in
          start_ready-IsRunning fuel now outcome middle
            (run_task-IsRunning now (outcome task) task e inv one).0 more
    ]
  ]

  -- An error that was recorded stays.
  react-error :
      (now : Now) (t : ℕ) (answer : HandlerResult) (e : Engine H) {e' : Engine H}
      → react now t answer e ≡ ok e'
      → e'.error ≡ none
      → e.error ≡ none
  unfolding react record_failure store_retry
  react-error now t answer e h none_now = ground arith

  module _ (call : H → Task H → HandlerResult)
      (plain : (h : H) (task : Task H) → IsPlain (call h task)) (new_id : Graph → ℕ)
      (fresh : (g : Graph) → mem (new_id g) g.tasks ≡ false) (nesting : ℕ) (now : Now) where
    handle_terminated_task-error :
        (uuid t : ℕ) (e : Engine H) {e' : Engine H}
        → handle_terminated_task call now uuid nesting t e ≡ ok e'
        → e'.error ≡ none
        → e.error ≡ none
    unfolding handle_terminated_task drop
    handle_terminated_task-error uuid t e {e'} h none_now =
        let waiting = discard t e.waiting_for in
        let with_store = λ (s : Store H). record e { store = s; waiting_for = waiting } in
        let finish = λ (answer : HandlerResult) (m : Engine H).
          let r : Result EngineError (Engine H) =
            ok (drop nesting (removed_task answer t m.store) m) in
          r in
        let next =
          λ (r : HandlerResult × Store H). react now t r.0 (with_store r.1) >>= finish r.0 in
        let (both, handled_ok, rest) =
          >>=-eq-ok (from_task (handle_task_terminated call now.is_local now.time uuid t e.store))
            next h in
        let (middle, reacted, dropped) =
          >>=-eq-ok (react now t both.0 (with_store both.1)) (finish both.0) rest in
        react-error now t both.0 (with_store both.1) reacted (ground (arith, dropped))

    handle_finished-error :
        (fuel : ℕ) (e : Engine H) {e' : Engine H}
        → handle_finished call new_id nesting now fuel e ≡ ok e'
        → e'.error ≡ none
        → e.error ≡ none
    unfolding handle_finished
    handle_finished-error zero e h none_now = ground arith
    handle_finished-error (suc fuel) e {e'} h none_now = elim (List-cases e.store.finished) [
      | inl empty ↦ ground arith
      | inr ((task, result), rest, some_finished) ↦
          let left : Engine H = record e { store = record e.store { finished = rest } } in
          let (middle, one, more) =
            >>=-eq-ok (handle_terminated_task call now (new_id e.graph) nesting task left)
              (handle_finished call new_id nesting now fuel) (rw some_finished at h) in
          handle_terminated_task-error (new_id e.graph) task left one
            (handle_finished-error fuel middle more none_now)
    ]

    handle_finished-IsRunning :
        (fuel : ℕ) (e : Engine H) {e' : Engine H}
        → IsRunning e
        → handle_finished call new_id nesting now fuel e ≡ ok e'
        → e'.error ≡ none
        → IsRunning e'
    unfolding handle_finished
    handle_finished-IsRunning zero e {e'} inv h none_now =
        subst IsRunning (let p : e ≡ e' = ground arith in p) inv
    handle_finished-IsRunning (suc fuel) e {e'} inv h none_now =
        elim (List-cases e.store.finished) [
          | inl empty ↦ subst IsRunning (let p : e ≡ e' = ground arith in p) inv
          | inr ((task, result), rest, some_finished) ↦
              let left : Engine H = record e { store = record e.store { finished = rest } } in
              let (middle, one, more) =
                >>=-eq-ok (handle_terminated_task call now (new_id e.graph) nesting task left)
                  (handle_finished call new_id nesting now fuel) (rw some_finished at h) in
              let no_error = handle_finished-error fuel middle more none_now in
              let good =
                (handle_terminated_task-IsRunning call plain now (new_id e.graph) nesting task left
                    inv (fresh e.graph) one).0
                  no_error in
              handle_finished-IsRunning fuel middle good more none_now
        ]

    -- A turn of the loop of `execute` that records no failure keeps the graph well formed, whatever
    -- tasks it starts and whatever results arrive, if new ids are not in the graph and the handlers
    -- leave the retry to the engine: they give no `retried_task` and no `ignore_total_retries`.
    pub turn-IsRunning :
        (fuel : ℕ) (outcome : ℕ → Sending) (arrive : Store H → Store H) (e : Engine H)
        → {e' : Engine H} → IsRunning e
        → turn call new_id nesting now fuel outcome arrive e ≡ ok e'
        → e'.error ≡ none
        → IsRunning e'
    unfolding turn
    turn-IsRunning fuel outcome arrive e inv h none_now =
        let after = λ (m : Engine H).
          handle_finished call new_id nesting now fuel (record m { store = arrive m.store }) in
        let (middle, one, more) = >>=-eq-ok (start_ready fuel now outcome e) after h in
        handle_finished-IsRunning fuel (record middle { store = arrive middle.store })
          (start_ready-IsRunning fuel now outcome e inv one) more none_now
