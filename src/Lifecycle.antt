-- ===== src/Lifecycle.antt =====
-- LifecycleProcessor of cloudify/plugins/lifecycle.py: the subgraphs of node instances and the
-- dependencies between them, for install and for uninstall. A node instance is its id, and the
-- subgraphs and tasks are those of the task graph. What a task knows of its operation comes with
-- `operation_of`, as what the tasks of a relationship's operation are with `operations_of`.
pub mod Relationships
pub mod Extension
pub mod Dependencies
pub mod Sequence
pub mod Finish
pub mod Order
pub mod Install
pub mod Uninstall
pub mod States
mod Examples
use cloudify_common.Prelude.{
  ℕ, String, Bool, true, false, not, ◌&&◌, ◌||◌, Option, none, some, List, [], ◌∷◌, ◌++◌, is_none,
  is_empty, if◌then◌else◌, ◌==◌, string_eq, Result, ok, raise, ◌>>=◌,
}
use mathlib.Core.List.{reverse}
use cloudify_common.Prelude.Dict.{Dict, get, put}
use cloudify_common.Prelude.Set.{add}
use cloudify_common.Workflow.Graph.{Graph, GraphError, assign, add_task, get_task, add_dependency}

-- What `cloudify_context` says of an operation task; its name is split at the last dot.
pub record TaskOperation : Type 0 where
  pub operation_path : String
  pub operation_name : String
  pub node_id : String

-- `cloudify_context` of a task: not implemented for a NOP, and empty for a task of no operation.
pub data TaskContext : Type 0 where
  not_implemented : TaskContext
  no_context : TaskContext
  of_operation : TaskOperation → TaskContext

-- A relationship of an instance; `operation` is among the properties of its type.
pub record Relationship : Type 0 where
  pub target_id : String
  pub target_node_id : String
  pub operation : Option String

pub record NodeInstance : Type 0 where
  pub id : String
  pub node_id : String
  pub relationships : List Relationship

pub data LifecycleError : Type 0 where
  graph_error : GraphError → LifecycleError
  -- KeyError of `subgraphs`, and AttributeError of a task that is not in the graph
  no_subgraph : String → LifecycleError
  no_task : ℕ → LifecycleError
  -- NotImplementedError of a task without `cloudify_context`
  no_cloudify_context : ℕ → LifecycleError

unfoldable pub depend : ℕ → ℕ → Graph → Result LifecycleError Graph
unfolding add_dependency
depend source target g = elim (add_dependency source target g) [
  | ok g' ↦ ok g'
  | raise error ↦ raise (graph_error error)
]

-- `rel.target_node_instance in instances`
unfoldable pub has_instance : String → List NodeInstance → Bool
has_instance id [] = false
has_instance id (node_instance ∷ instances) = node_instance.id == id || has_instance id instances

unfoldable pub find_subgraph : String → Dict String ℕ → Result LifecycleError ℕ
find_subgraph id subgraphs = elim (get id subgraphs) [
  | none ↦ raise (no_subgraph id)
  | some subgraph ↦ ok subgraph
]

-- The loop over the tasks that depend on the chosen operation.
unfoldable pub depend_on_each : ℕ → List ℕ → Graph → Result LifecycleError Graph
unfolding get_task depend
depend_on_each source [] g = ok g
depend_on_each source (task_id ∷ rest) g = elim (get_task task_id g) [
  | none ↦ raise (no_task task_id)
  | some task ↦ do g' ← depend source task g; depend_on_each source rest g'
]

module _ (operation_of : ℕ → TaskContext) where
  -- The tests for the operation that a relationship waits for.
  unfoldable pub is_chosen : String → String → ℕ → Result LifecycleError Bool
  is_chosen operation target_id task = elim (operation_of task) [
    | not_implemented ↦ raise (no_cloudify_context task)
    | no_context ↦ ok false
    | of_operation o ↦ ok (
        o.operation_path == "cloudify.interfaces.lifecycle"
        && o.operation_name == operation
        && target_id == o.node_id)
  ]

  -- The loop over the tasks of the graph, which ends at the first that is chosen.
  unfoldable pub depend_on_operation :
      ℕ → String → String → List ℕ → Graph → Result LifecycleError Graph
  unfolding is_chosen depend_on_each
  depend_on_operation source operation target_id [] g = ok g
  depend_on_operation source operation target_id (task ∷ tasks) g = do
    let rest = depend_on_operation source operation target_id tasks g
    chosen ← is_chosen operation target_id task
    if chosen then depend_on_each source (g.dependents task) g else rest

  -- `_handle_dependency_creation`
  unfoldable pub handle_dependency_creation :
      ℕ → ℕ → Option String → String → Graph → Result LifecycleError Graph
  unfolding depend_on_operation depend
  handle_dependency_creation source target none target_id g = depend source target g
  handle_dependency_creation source target (some operation) target_id g =
      if operation == ""
      then depend source target g
      else depend_on_operation source operation target_id g.tasks g

  -- The dependency of one relationship: on install the source waits for the target, and on
  -- uninstall the target for the source.
  unfoldable pub relate :
      Bool → Dict String ℕ → NodeInstance → Relationship → Graph → Result LifecycleError Graph
  unfolding find_subgraph handle_dependency_creation
  relate install subgraphs node_instance rel g = do
    source ← find_subgraph node_instance.id subgraphs
    target ← find_subgraph rel.target_id subgraphs
    (if install
        then handle_dependency_creation source target rel.operation rel.target_id g
        else handle_dependency_creation target source rel.operation node_instance.id g)

-- What is built: the graph, the tasks of each subgraph, the last tasks of the sequence of each
-- instance, and the tasks whose failures are handled by an event of the node.
pub record Building : Type 0 where
  pub graph : Graph
  pub subgraph_tasks : ℕ → List ℕ
  pub last_tasks : Dict String (List ℕ)
  pub with_handler : List ℕ

unfoldable pub last_of : String → Dict String (List ℕ) → List ℕ
last_of id last_tasks = elim (get id last_tasks) [ none ↦ [] | some tasks ↦ tasks ]

unfoldable pub depend_on_all : ℕ → List ℕ → Graph → Result LifecycleError Graph
unfolding depend
depend_on_all task [] g = ok g
depend_on_all task (last_task ∷ rest) g = do
  g' ← depend task last_task g
  depend_on_all task rest g'

-- `source_task_sequence.add(intact_task)`, where the sequence adds to a subgraph.
unfoldable pub add_to_sequence : ℕ → String → ℕ → Building → Result LifecycleError Building
unfolding depend depend_on_all last_of add_task
add_to_sequence subgraph id task b = do
  g ← depend task subgraph (add_task task b.graph)
  g' ← depend_on_all task (last_of id b.last_tasks) g
  ok record {
    graph = g';
    subgraph_tasks = assign b.subgraph_tasks subgraph (add task (b.subgraph_tasks subgraph));
    last_tasks = put id (task ∷ []) b.last_tasks;
    with_handler = b.with_handler;
  }

unfoldable pub add_intact_tasks :
    Bool → ℕ → String → List ℕ → Building → Result LifecycleError Building
unfolding add_to_sequence
add_intact_tasks install subgraph id [] b = ok b
add_intact_tasks install subgraph id (task ∷ tasks) b = do
  b' ←
      add_to_sequence subgraph id task
        (record b { with_handler = if install then b.with_handler else add task b.with_handler })
  add_intact_tasks install subgraph id tasks b'

-- The processor: `modified` are the node ids of `modified_relationship_ids`, and `operations_of`
-- the tasks that `_relationship_operations` makes for an instance and a relationship.
pub record Processor : Type 0 where
  pub node_instances : List NodeInstance
  pub intact_nodes : List NodeInstance
  pub modified : Dict String (List String)
  pub operation_of : ℕ → TaskContext
  pub operations_of : String → Relationship → List ℕ

unfoldable pub is_modified : String → List String → Bool
is_modified node_id [] = false
is_modified node_id (other ∷ rest) = other == node_id || is_modified node_id rest

module _ (p : Processor) (subgraphs : Dict String ℕ) where
  -- `rel.target_node_instance` is one of the processor's.
  unfoldable pub is_related : Relationship → Bool
  unfolding has_instance
  is_related rel =
      has_instance rel.target_id p.node_instances || has_instance rel.target_id p.intact_nodes

  -- The test of `intact_on_dependency_added`.
  unfoldable pub is_touched : NodeInstance → Relationship → Bool
  unfolding has_instance is_modified
  is_touched node_instance rel =
      has_instance rel.target_id p.node_instances || (elim (get node_instance.node_id p.modified) [
        | none ↦ false
        | some ids ↦ is_modified rel.target_node_id ids
      ])

  -- `intact_on_dependency_added`
  unfoldable pub on_dependency_added :
      Bool → NodeInstance → Relationship → Building → Result LifecycleError Building
  unfolding is_touched find_subgraph add_intact_tasks
  on_dependency_added install node_instance rel b =
      if is_touched node_instance rel
      then (do
        subgraph ← find_subgraph node_instance.id subgraphs
        add_intact_tasks install subgraph node_instance.id (p.operations_of node_instance.id rel) b)
      else ok b

  -- The loop over the relationships of one instance; `intact` says that the callback is given.
  unfoldable pub relate_each :
      Bool → Bool → NodeInstance → List Relationship → Building → Result LifecycleError Building
  unfolding is_related relate on_dependency_added
  relate_each install intact node_instance [] b = ok b
  relate_each install intact node_instance (rel ∷ rels) b = do
    b' ←
        (if is_related rel
          then (do
            g ← relate p.operation_of install subgraphs node_instance rel b.graph
            let b1 : Building = record b { graph = g }
            if intact then on_dependency_added install node_instance rel b1 else ok b1)
          else ok b)
    relate_each install intact node_instance rels b'

  -- `_add_dependencies`
  unfoldable pub add_dependencies :
      Bool → Bool → List NodeInstance → Building → Result LifecycleError Building
  unfolding relate_each
  add_dependencies install intact [] b = ok b
  add_dependencies install intact (node_instance ∷ instances) b = do
    b' ←
        relate_each install intact node_instance
          (if install then node_instance.relationships else reverse node_instance.relationships) b
    add_dependencies install intact instances b'

  -- `_finish_subgraphs`, with the new sequences of each of the two calls
  unfoldable pub finish_subgraphs : Bool → Building → Result LifecycleError Building
  unfolding add_dependencies
  finish_subgraphs install b = do
    b' ← add_dependencies install false p.node_instances (record b { last_tasks = [] })
    add_dependencies install true p.intact_nodes (record b' { last_tasks = [] })
