-- ===== src/Workflow/Graph/Restore.antt =====
-- Stored graphs, in cloudify/workflows/tasks_graph.py: what `store` writes of the dependencies, and
-- `_restore_dependencies`, which sets them between the tasks that were restored. A dependency on a
-- task that was retried becomes one on its last retry. A circle of retries would never end, so the
-- search takes fuel.
pub mod Chain
pub mod Edges
pub mod RoundTrip
mod Examples
use cloudify_common.Prelude.{
  ℕ, zero, suc, Option, none, some, List, [], ◌∷◌, Result, ok, raise, ◌>>=◌, nat_eq,
}
use cloudify_common.Prelude.Dict.{Dict, get, put}
use cloudify_common.Workflow.Graph.{Graph, GraphError, get_task, add_dependency}

-- What is read of a stored operation; `retried_task` is among its parameters.
pub record StoredOperation : Type 0 where
  pub id : ℕ
  pub dependencies : List ℕ
  pub retried_task : Option ℕ

pub data RestoreError : Type 0 where
  graph_error : GraphError → RestoreError
  endless : RestoreError

-- `dict((x.parameters['retried_task'], x.id) ...)`, into a dict
unfoldable pub retries_into : Dict ℕ ℕ → List StoredOperation → Dict ℕ ℕ
retries_into retries [] = retries
retries_into retries (op ∷ ops) = elim op.retried_task [
  | none ↦ retries_into retries ops
  | some retried_task ↦ retries_into (put retried_task op.id retries) ops
]

unfoldable pub retries_of : List StoredOperation → Dict ℕ ℕ
unfolding retries_into
retries_of ops = retries_into [] ops

-- The loop of `_retrieve_active_target`.
unfoldable pub last_retry : ℕ → Dict ℕ ℕ → ℕ → Result RestoreError ℕ
last_retry zero retries last_target = raise endless
last_retry (suc fuel) retries last_target = elim (get last_target retries) [
  | none ↦ ok last_target
  | some next_target ↦ last_retry fuel retries next_target
]

unfoldable pub retrieve_active_target : ℕ → ℕ → Dict ℕ ℕ → Graph → Result RestoreError (Option ℕ)
unfolding last_retry get_task
retrieve_active_target fuel target_id retries g = do
  last_target ← last_retry fuel retries target_id
  ok (get_task last_target g)

abbrev depend : ℕ → ℕ → Graph → Result RestoreError Graph
depend op target g = elim (add_dependency op target g) [
  | ok g' ↦ ok g'
  | raise error ↦ raise (graph_error error)
]

module _ (fuel : ℕ) (retries : Dict ℕ ℕ) where
  -- The body of the inner loop.
  unfoldable pub restore_dependency : ℕ → ℕ → Graph → Result RestoreError Graph
  unfolding get_task retrieve_active_target add_dependency
  restore_dependency op target_id g = elim (get_task target_id g) [
    | some target ↦ depend op target g
    | none ↦ do
      found ← retrieve_active_target fuel target_id retries g
      elim found [ none ↦ ok g | some new_target ↦ depend op new_target g ]
  ]

  unfoldable pub restore_all : ℕ → List ℕ → Graph → Result RestoreError Graph
  unfolding restore_dependency
  restore_all op [] g = ok g
  restore_all op (target_id ∷ rest) g = do
    g' ← restore_dependency op target_id g
    restore_all op rest g'

  unfoldable pub restore_each : List StoredOperation → Graph → Result RestoreError Graph
  unfolding restore_all get_task
  restore_each [] g = ok g
  restore_each (op_descr ∷ ops) g = elim (get_task op_descr.id g) [
    | none ↦ restore_each ops g
    | some op ↦ do g' ← restore_all op op_descr.dependencies g; restore_each ops g'
  ]

unfoldable pub restore_dependencies : ℕ → List StoredOperation → Graph → Result RestoreError Graph
unfolding restore_each retries_of
restore_dependencies fuel ops g = restore_each fuel (retries_of ops) ops g

-- The dependencies that `store` writes of each task, from the `retried_task` of the tasks.
unfoldable pub serialize_tasks : (ℕ → Option ℕ) → Graph → List ℕ → List StoredOperation
serialize_tasks retried_task g [] = []
serialize_tasks retried_task g (task ∷ tasks) =
    (record { id = task; dependencies = g.dependencies task; retried_task = retried_task task })
    ∷ serialize_tasks retried_task g tasks

unfoldable pub serialized_tasks : (ℕ → Option ℕ) → Graph → List StoredOperation
unfolding serialize_tasks
serialized_tasks retried_task g = serialize_tasks retried_task g g.tasks
