-- ===== src/Workflow/Graph/Operations.antt =====
-- `_restore_operations` of cloudify/workflows/tasks_graph.py: the operations that have not
-- terminated become tasks again, with the subgraphs that they are in. What a task keeps besides
-- its state and its place is left to `restore` of its class. A circle of subgraphs would never
-- end, so the way up takes fuel.
pub mod Contained
pub mod Restored
mod Examples
use cloudify_common.Prelude.{
  ℕ, zero, suc, Bool, Option, none, some, List, [], ◌∷◌, Result, ok, raise, ◌>>=◌, nat_eq,
  if◌then◌else◌,
}
use cloudify_common.Prelude.Dict.{Dict, get, put, has_key}
use cloudify_common.Prelude.Set.{mem, add}
use cloudify_common.Workflow.Graph.{
  Graph, GraphError, empty_graph, assign, add_task, add_dependency,
}
use cloudify_common.Workflow.Task.{TaskState, started, is_terminated_state}

-- What is read of a stored operation here.
pub record OperationDescr : Type 0 where
  pub id : ℕ
  pub state : TaskState
  pub containing_subgraph : Option ℕ

pub data OperationsError : Type 0 where
  -- KeyError of `ops_by_id`
  no_operation : ℕ → OperationsError
  graph_error : GraphError → OperationsError
  endless : OperationsError

-- The graph, the restored tasks with the states that they were restored in, and the attributes
-- `containing_subgraph` and `tasks` of the tasks.
pub record Restoring : Type 0 where
  pub graph : Graph
  pub restored_ops : Dict ℕ TaskState
  pub containing_subgraph : ℕ → Option ℕ
  pub subgraph_tasks : ℕ → List ℕ

unfoldable pub by_id_into : Dict ℕ OperationDescr → List OperationDescr → Dict ℕ OperationDescr
by_id_into ops_by_id [] = ops_by_id
by_id_into ops_by_id (op_descr ∷ ops) = by_id_into (put op_descr.id op_descr ops_by_id) ops

-- `_restore_operation`, which gives back a task that was restored before.
unfoldable pub restore_operation : ℕ → TaskState → Restoring → Restoring
restore_operation id state r = record r {
  restored_ops = if mem id r.graph.tasks then r.restored_ops else put id state r.restored_ops;
}

-- `op.containing_subgraph = subgraph` and `SubgraphTask.add_task`, whose check this makes true.
unfoldable pub put_in_subgraph : ℕ → ℕ → Restoring → Result OperationsError Restoring
unfolding add_task add_dependency
put_in_subgraph op subgraph r = elim (add_dependency op subgraph (add_task op r.graph)) [
  | raise error ↦ raise (graph_error error)
  | ok g ↦ ok record {
    graph = g;
    restored_ops = r.restored_ops;
    containing_subgraph = assign r.containing_subgraph op (some subgraph);
    subgraph_tasks = assign r.subgraph_tasks subgraph (add op (r.subgraph_tasks subgraph));
  }
]

-- The inner loop, and the `add_task` behind it.
unfoldable pub follow_up :
    ℕ → Dict ℕ OperationDescr → ℕ → OperationDescr → Restoring → Result OperationsError Restoring
unfolding restore_operation put_in_subgraph
follow_up zero ops_by_id op op_descr r = raise endless
follow_up (suc fuel) ops_by_id op op_descr r = elim op_descr.containing_subgraph [
  | none ↦ ok (record r { graph = add_task op r.graph })
  | some subgraph_id ↦ elim (get subgraph_id ops_by_id) [
    | none ↦ raise (no_operation subgraph_id)
    | some subgraph_descr ↦ do
      let restored = restore_operation subgraph_id started r
      r' ←
          put_in_subgraph op subgraph_id
            (record restored { graph = add_task subgraph_id restored.graph })
      follow_up fuel ops_by_id subgraph_id subgraph_descr r'
  ]
]

unfoldable pub restore_each_operation :
    ℕ → Dict ℕ OperationDescr → List OperationDescr → Restoring → Result OperationsError Restoring
unfolding restore_operation follow_up
restore_each_operation fuel ops_by_id [] r = ok r
restore_each_operation fuel ops_by_id (op_descr ∷ ops) r =
    if has_key op_descr.id r.restored_ops
    then restore_each_operation fuel ops_by_id ops r
    else if is_terminated_state op_descr.state
    then restore_each_operation fuel ops_by_id ops r
    else (do
      r' ←
          follow_up fuel ops_by_id op_descr.id op_descr
            (restore_operation op_descr.id op_descr.state r)
      restore_each_operation fuel ops_by_id ops r')

unfoldable pub nothing_restored : Restoring
unfolding empty_graph
nothing_restored = record {
  graph = empty_graph;
  restored_ops = [];
  containing_subgraph = λ _. none;
  subgraph_tasks = λ _. [];
}

unfoldable pub restore_operations : ℕ → List OperationDescr → Result OperationsError Restoring
unfolding restore_each_operation by_id_into nothing_restored
restore_operations fuel ops = restore_each_operation fuel (by_id_into [] ops) ops nothing_restored
