-- ===== src/Lifecycle/Examples.antt =====
-- The theorems on the lifecycle, on a deployment of a `vm` and a `db` that runs on it and an `lb`
-- that stays and points at the `db`. Their subgraphs are 1, 2 and 3; the task of the `lb` is 7.
use cloudify_common.Prelude.{
  ℕ, String, ◌≡◌, refl, true, false, List, [], ◌∷◌, none, ok, string_eq, ◌==◌,
}
use cloudify_common.Prelude.Dict.{Dict, get}
use cloudify_common.Prelude.Set.{mem, add}
use cloudify_common.Workflow.Graph.{empty_graph, add_task}
use cloudify_common.Workflow.Graph.Invariant.{IsGraph, empty_graph-IsGraph, add_task-IsGraph}
use cloudify_common.Workflow.Graph.Sequence.{with_tasks}
use cloudify_common.Lifecycle.{
  no_context, NodeInstance, Relationship, Building, Processor, is_related, is_touched, has_instance,
  add_dependencies, finish_subgraphs,
}
use cloudify_common.Lifecycle.Extension.{Extends}
use cloudify_common.Lifecycle.Order.{
  instances_ask, add_dependencies-Extends, uninstall-reverses-install,
}
use cloudify_common.Lifecycle.Finish.{finish_subgraphs-IsGraph}
use cloudify_common.Lifecycle.Relationships.{NodeRelationship}
use cloudify_common.Lifecycle.Install.{InstanceView, install_tasks}
use cloudify_common.Lifecycle.Install.Operations.{
  operations_of, remaining_operations, operations_of-install_tasks,
}
use cloudify_common.Lifecycle.Uninstall.{uninstall_tasks}
use cloudify_common.Lifecycle.Uninstall.Operations.{
  uninstall_operations, operations_of-uninstall_tasks,
}
use cloudify_common.Lifecycle.States.{final_state, final_state-lifecycle}

abbrev vm : NodeInstance
vm = record { id = "vm_1"; node_id = "vm"; relationships = [] }

abbrev hosted : Relationship
hosted = record { target_id = "vm_1"; target_node_id = "vm"; operation = none }

abbrev db : NodeInstance
db = record { id = "db_1"; node_id = "db"; relationships = hosted ∷ [] }

abbrev points : Relationship
points = record { target_id = "db_1"; target_node_id = "db"; operation = none }

abbrev lb : NodeInstance
lb = record { id = "lb_1"; node_id = "lb"; relationships = points ∷ [] }

abbrev processor : Processor
processor = record {
  node_instances = vm ∷ db ∷ [];
  intact_nodes = lb ∷ [];
  modified = [];
  operation_of = λ task. no_context;
  operations_of = λ id rel. 7 ∷ [];
}

abbrev subgraphs : Dict String ℕ
subgraphs = ("vm_1", 1) ∷ ("db_1", 2) ∷ ("lb_1", 3) ∷ []

abbrev building : Building
building = record {
  graph = add_task 3 (add_task 2 (add_task 1 empty_graph));
  subgraph_tasks = λ subgraph. [];
  last_tasks = [];
  with_handler = [];
}

building-IsGraph : IsGraph [] building.graph
unfolding empty_graph add_task mem add
building-IsGraph =
    add_task-IsGraph [] (add_task 2 (add_task 1 empty_graph))
      (add_task-IsGraph [] (add_task 1 empty_graph)
        (add_task-IsGraph [] empty_graph (empty_graph-IsGraph []) 1 refl) 2 refl)
      3 refl

add_dependencies-Extends_example :
    (b' : Building) × (add_dependencies processor subgraphs true false (vm ∷ db ∷ []) building
      ≡ ok b')
    × Extends [] building.graph (instances_ask processor subgraphs true (vm ∷ db ∷ [])) b'.graph
unfolding empty_graph add_task mem add get
add_dependencies-Extends_example =
    add_dependencies-Extends processor subgraphs [] (3 ∷ 2 ∷ 1 ∷ []) true
      ((1, refl, refl), tt, ((2, refl, refl), (refl, tt), tt)) ((3, refl, refl), (refl, tt), tt)
      (vm ∷ db ∷ []) building refl building-IsGraph
      ((1, refl, refl), tt, ((2, refl, refl), (refl, tt), tt))

uninstall-reverses-install_example :
    (installed uninstalled : Building) × (add_dependencies processor subgraphs true false
        (vm ∷ db ∷ [])
        building
      ≡ ok installed)
    × (add_dependencies processor subgraphs false false (vm ∷ db ∷ []) building ≡ ok uninstalled)
    × ((x y : ℕ)
        → mem y (building.graph.dependencies x) ≡ false
        → mem x (building.graph.dependencies y) ≡ false
        → mem x (uninstalled.graph.dependencies y) ≡ mem y (installed.graph.dependencies x))
unfolding empty_graph add_task mem add get
uninstall-reverses-install_example =
    uninstall-reverses-install processor subgraphs [] building building-IsGraph
      ((1, refl, refl), tt, ((2, refl, refl), (refl, tt), tt)) ((3, refl, refl), (refl, tt), tt)

finish_subgraphs-IsGraph_example :
    (b' : Building) × (finish_subgraphs processor subgraphs false building ≡ ok b')
    × IsGraph [] b'.graph
    × (b'.graph.tasks ≡ with_tasks (7 ∷ []) building.graph.tasks)
unfolding empty_graph add_task mem add get is_related is_touched has_instance
finish_subgraphs-IsGraph_example =
    finish_subgraphs-IsGraph [] processor subgraphs (λ task same. cc) false building
      building-IsGraph (((1, refl, refl), ((2, refl, refl), tt)), ((3, refl, refl), tt)) (refl, tt)

abbrev links : List NodeRelationship
links =
    record { target_id = "vm_1"; source_is_nop = λ o. false; target_is_nop = λ o. true }
    ∷ record { target_id = "net_1"; source_is_nop = λ o. false; target_is_nop = λ o. false }
    ∷ []

-- A host that was being configured.
abbrev view : InstanceView
view = record {
  state = "configuring";
  has_operation = λ operation. false;
  is_nop = λ operation. operation == "cloudify.interfaces.monitoring.start";
  relationships = links;
  is_host = true;
  install_method = "none";
}

operations_of-install_tasks_example : operations_of (install_tasks view) ≡ remaining_operations view
operations_of-install_tasks_example = operations_of-install_tasks view

operations_of-uninstall_tasks_example :
    operations_of (uninstall_tasks view) ≡ uninstall_operations view
operations_of-uninstall_tasks_example = operations_of-uninstall_tasks view

final_state-lifecycle_example :
    (final_state "configuring" (install_tasks view) ≡ "started")
    × (final_state "configuring" (uninstall_tasks view) ≡ "deleted")
final_state-lifecycle_example = final_state-lifecycle view
