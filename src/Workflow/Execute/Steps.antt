-- ===== src/Workflow/Execute/Steps.antt =====
-- The loop of `execute` keeps the graph well formed.
use cloudify_common.Workflow.Task.Handling.{handle_task_terminated}
use cloudify_common.Workflow.Graph.Removal.{remove_task-IsGraph}
use cloudify_common.Workflow.Task.Retries.{IsPlain, handle_retry_counts}
use cloudify_common.Prelude.Set.{mem, add, mem-discard, mem-add, discard}
use cloudify_common.Workflow.Graph.Invariant.{
  IsGraph, add_dependency-IsGraph, remove_dependency-IsGraph, add_task-IsGraph,
}
use cloudify_common.Workflow.Execute.{Engine, Now, EngineError, from_task}
use cloudify_common.Workflow.Execute.Reaction.{
  link_all, take_place, react, record_failure, drop, handle_terminated_task, store_retry,
  held_tasks, removed_task,
}
use cloudify_common.Workflow.Execute.Starting.{
  unlink_all, pop_ready, apply_subgraph, apply_async, run_task, Sending,
}
use cloudify_common.Prelude.{
  ℕ, ◌≡◌, sym, subst, Bool, false, none, some, List, [], ◌∷◌, Result, ok, raise, ◌>>=◌, >>=-eq-ok,
  inl, inr, arith, ◌⊎◌,
}
use cloudify_common.Workflow.Task.State.{on_result}
use cloudify_common.Workflow.Task.{Task, handler_retry, HandlerResult, TaskError, Store}
use cloudify_common.Workflow.Graph.{Graph, add_dependency, remove_dependency, add_task}

link_all-IsGraph :
    (waiting : List ℕ) (ends : ℕ → ℕ × ℕ) (xs : List ℕ) (g : Graph) {g' : Graph}
    → IsGraph waiting g
    → link_all ends xs g ≡ ok g'
    → IsGraph waiting g'
unfolding link_all
link_all-IsGraph waiting ends [] g {g'} inv h =
    subst (IsGraph waiting) (let p : g ≡ g' = ground arith in p) inv
link_all-IsGraph waiting ends (x ∷ xs) g inv h =
    let (middle, one, rest) =
      >>=-eq-ok (add_dependency (ends x).0 (ends x).1 g) (λ m. link_all ends xs m) h in
    link_all-IsGraph waiting ends xs middle
      (add_dependency-IsGraph waiting g inv (ends x).0 (ends x).1 one) rest

take_place-IsGraph :
    (waiting : List ℕ) (t new_task : ℕ) (g : Graph) {g' : Graph}
    → IsGraph waiting g
    → mem new_task g.tasks ≡ false
    → take_place t new_task g ≡ ok g'
    → IsGraph waiting g'
unfolding take_place
take_place-IsGraph waiting t new_task g inv fresh h =
    let added = add_task new_task g in
    let first = λ (dependency : ℕ). let p : ℕ × ℕ = (new_task, dependency) in p in
    let second = λ (dependent : ℕ). let p : ℕ × ℕ = (dependent, new_task) in p in
    let (middle, one, rest) =
      >>=-eq-ok (link_all first (added.dependencies t) added)
        (λ m. link_all second (m.dependents t) m) h in
    link_all-IsGraph waiting second (middle.dependents t) middle
      (link_all-IsGraph waiting first (added.dependencies t) added
        (add_task-IsGraph waiting g inv new_task fresh) one)
      rest

unlink_all-IsGraph :
    (waiting : List ℕ) (t : ℕ) (xs : List ℕ) (g : Graph) {g' : Graph}
    → IsGraph waiting g
    → unlink_all t xs g ≡ ok g'
    → IsGraph waiting g'
unfolding unlink_all
unlink_all-IsGraph waiting t [] g {g'} inv h =
    subst (IsGraph waiting) (let p : g ≡ g' = ground arith in p) inv
unlink_all-IsGraph waiting t (x ∷ xs) g inv h =
    let (middle, one, rest) = >>=-eq-ok (remove_dependency x t g) (λ m. unlink_all t xs m) h in
    unlink_all-IsGraph waiting t xs middle (remove_dependency-IsGraph waiting g inv x t one) rest

pop_ready-IsGraph :
    (waiting : List ℕ) (t : ℕ) (g : Graph)
    → IsGraph waiting g
    → IsGraph (add t waiting) (pop_ready t g)
unfolding pop_ready
pop_ready-IsGraph waiting t g inv = record {
  mirror = inv.mirror;
  source = inv.source;
  target = inv.target;
  irreflexive = inv.irreflexive;
  ready_in = λ a h. ground (arith, mem-discard t a g.ready, inv.ready_in a);
  ready_free = λ a h. ground (arith, mem-discard t a g.ready, inv.ready_free a);
  scheduled =
      λ a h k. ground (arith, mem-discard t a g.ready, mem-add t a waiting, inv.scheduled a);
}

from_task-ok : {A : Type 0} (r : Result TaskError A) {a : A} → from_task r ≡ ok a → r ≡ ok a
from_task-ok (ok b) h = ground arith
from_task-ok (raise e) h = cc

module _ {H : Type 0} where
  -- The graph of an engine is well formed for the tasks that it waits for.
  abbrev pub IsRunning : Engine H → Type 0
  IsRunning e = IsGraph e.waiting_for e.graph

  -- After a reaction the graph is the same, or has a retry in the place of the task; a reaction to
  -- a failure leaves an error.
  react_cases :
      (now : Now) (t : ℕ) (answer : HandlerResult) (e : Engine H) {e' : Engine H}
      → react now t answer e ≡ ok e'
      → ((e'.graph ≡ e.graph)
          ⊎ ((answer.action ≡ handler_retry)
              × ((n : ℕ) × (answer.retried_task ≡ some n)
                  × (take_place t n e.graph ≡ ok e'.graph))))
        × (e'.waiting_for ≡ e.waiting_for)
        × (e'.error ≡ none → removed_task answer t e'.store ≡ t)
  unfolding react record_failure store_retry removed_task
  react_cases now t answer e h = (ground arith, ground arith, λ p. ground arith)

  react-IsGraph :
      (now : Now) (t : ℕ) (answer : HandlerResult) (waiting : List ℕ) (e : Engine H) {e' : Engine H}
      → IsGraph waiting e.graph
      → (answer.action ≡ handler_retry
          → (n : ℕ) → answer.retried_task ≡ some n
          → mem n e.graph.tasks ≡ false)
      → react now t answer e ≡ ok e'
      → IsGraph waiting e'.graph
  react-IsGraph now t answer waiting e {e'} inv fresh h = elim (react_cases now t answer e h).0 [
    | inl same ↦ subst (IsGraph waiting) (sym same) inv
    | inr (a, new) ↦
        let (n, named, placed) = new in
        take_place-IsGraph waiting t n e.graph inv (fresh a n named) placed
  ]

  drop-IsRunning :
      (nesting t : ℕ) (e : Engine H) (waiting : List ℕ)
      → IsGraph waiting e.graph
      → e.waiting_for ≡ discard t waiting
      → IsRunning (drop nesting t e)
  unfolding drop
  drop-IsRunning nesting t e waiting inv gone =
      remove_task-IsGraph waiting nesting (held_tasks e.store) t e.graph e.waiting_for
        (λ a ne m. ground (arith, gone, mem-discard t a waiting)) inv

  module _ (call : H → Task H → HandlerResult)
      (plain : (h : H) (task : Task H) → IsPlain (call h task)) where
    handled :
        (now : Now) (uuid nesting t : ℕ) (e middle : Engine H) (answer : HandlerResult)
        → (s : Store H) → IsRunning e
        → mem uuid e.graph.tasks ≡ false
        → handle_task_terminated call now.is_local now.time uuid t e.store ≡ ok (answer, s)
        → react now t answer (record e { store = s; waiting_for = discard t e.waiting_for })
          ≡ ok middle
        → let e' = drop nesting (removed_task answer t middle.store) middle in
          (e'.error ≡ none → IsRunning e') × (e'.waiting_for ≡ discard t e.waiting_for)
    unfolding drop
    handled now uuid nesting t e middle answer s inv fresh done reacted =
        let before : Engine H = record e { store = s; waiting_for = discard t e.waiting_for } in
        let (graph_cases, same, removed) = react_cases now t answer before reacted in
        let after =
          react-IsGraph now t answer e.waiting_for before inv
            (λ a n named.
              ground
                (arith, handle_retry_counts call plain now.is_local now.time uuid t e.store done a))
            reacted in
        (
          λ no_error.
              subst (λ x. IsRunning (drop nesting x middle)) (sym (removed no_error))
                (drop-IsRunning nesting t middle e.waiting_for after same),
          same,
        )

    -- As long as no failure is recorded, handling a terminated task, with a new id for its retry,
    -- keeps the graph well formed: each task that depends on nothing is ready or is waited for. The
    -- terminated task is waited for no more, and all others as before, also after a failure. The
    -- handlers leave the retry to the engine: they give no `retried_task` and no
    -- `ignore_total_retries`.
    pub handle_terminated_task-IsRunning :
        (now : Now) (uuid nesting t : ℕ) (e : Engine H) {e' : Engine H}
        → IsRunning e
        → mem uuid e.graph.tasks ≡ false
        → handle_terminated_task call now uuid nesting t e ≡ ok e'
        → (e'.error ≡ none → IsRunning e') × (e'.waiting_for ≡ discard t e.waiting_for)
    unfolding handle_terminated_task
    handle_terminated_task-IsRunning now uuid nesting t e {e'} inv fresh h =
        let waiting = discard t e.waiting_for in
        let with_store = λ (s : Store H). record e { store = s; waiting_for = waiting } in
        let dropped_from = λ (answer : HandlerResult) (m : Engine H).
          drop nesting (removed_task answer t m.store) m in
        let finish = λ (answer : HandlerResult) (m : Engine H).
          let r : Result EngineError (Engine H) = ok (dropped_from answer m) in r in
        let next =
          λ (r : HandlerResult × Store H). react now t r.0 (with_store r.1) >>= finish r.0 in
        let (both, handled_ok, rest) =
          >>=-eq-ok (from_task (handle_task_terminated call now.is_local now.time uuid t e.store))
            next h in
        let (middle, reacted, dropped) =
          >>=-eq-ok (react now t both.0 (with_store both.1)) (finish both.0) rest in
        let same : dropped_from both.0 middle ≡ e' = ground (arith, dropped) in
        subst
          (λ (x : Engine H).
            (x.error ≡ none → IsRunning x) × (x.waiting_for ≡ discard t e.waiting_for))
          same
          (handled now uuid nesting t e middle both.0 both.1 inv fresh (from_task-ok _ handled_ok)
            reacted)

  apply_subgraph_cases :
      (is_local : Bool) (t : ℕ) (e : Engine H) {e' : Engine H}
      → apply_subgraph is_local t e ≡ ok e'
      → (e'.waiting_for ≡ e.waiting_for)
        × ((e'.graph ≡ e.graph) ⊎ (unlink_all t (e.store.objects t).tasks e.graph ≡ ok e'.graph))
  unfolding apply_subgraph
  apply_subgraph_cases is_local t e h = (ground arith, ground arith)

  apply_async_cases :
      (now : Now) (outcome : Sending) (t : ℕ) (e : Engine H) {e' : Engine H}
      → apply_async now outcome t e ≡ ok e'
      → (e'.waiting_for ≡ e.waiting_for)
        × ((e'.graph ≡ e.graph) ⊎ (unlink_all t (e.store.objects t).tasks e.graph ≡ ok e'.graph))
  unfolding apply_async
  apply_async_cases now outcome t e {e'} h = ground (
    arith,
    λ (p : apply_subgraph now.is_local t e ≡ ok e'). apply_subgraph_cases now.is_local t e p,
  )

  -- Taking a ready task out of the set and starting it keeps the graph well formed. The task is
  -- waited for, besides those that were before.
  pub run_task-IsRunning :
      (now : Now) (outcome : Sending) (t : ℕ) (e : Engine H) {e' : Engine H}
      → IsRunning e
      → run_task now outcome t (record e { graph = pop_ready t e.graph }) ≡ ok e'
      → IsRunning e' × (e'.waiting_for ≡ add t e.waiting_for)
  unfolding run_task
  run_task-IsRunning now outcome t e {e'} inv h =
      let popped : Engine H = record e { graph = pop_ready t e.graph } in
      let inv' = pop_ready-IsGraph e.waiting_for t e.graph inv in
      let finish = λ (m : Engine H).
        let r : Result EngineError (Engine H) =
          ok (record m { waiting_for = add t m.waiting_for; store = on_result t m.store }) in
        r in
      let (middle, started_ok, done) = >>=-eq-ok (apply_async now outcome t popped) finish h in
      let (same, cases) = apply_async_cases now outcome t popped started_ok in
      let graph_ok : IsGraph (add t e.waiting_for) middle.graph = elim cases [
        | inl kept ↦ subst (IsGraph (add t e.waiting_for)) (sym kept) inv'
        | inr unlinked ↦
            unlink_all-IsGraph (add t e.waiting_for) t (e.store.objects t).tasks popped.graph inv'
              unlinked
      ] in
      let graph_same : middle.graph ≡ e'.graph = ground (arith, done) in
      let waits : e'.waiting_for ≡ add t e.waiting_for = ground (arith, done, same) in
      (
        subst (λ w. IsGraph w e'.graph) (sym waits)
            (subst (IsGraph (add t e.waiting_for)) graph_same graph_ok),
        waits,
      )
