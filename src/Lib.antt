-- ===== src/Lib.antt =====
-- Cloudify-common: the task graph of the workflow engine, the exceptions that pass between its
-- processes, parts of the blueprint parser (the constraints of inputs, the merging of interfaces,
-- the properties of nodes), the storage and execution of local workflows, and the graphs that
-- install and uninstall node instances, with parts of the intrinsic functions.
--
-- A workflow builds a graph of tasks and runs it: `execute` starts the tasks that are ready, takes
-- the results that arrive, asks the handlers of each task that ended, retries it or removes it,
-- and so makes other tasks ready.
--
-- Prelude       Boolean tests on numbers, dicts as association lists in the order of insertion,
--               sets of numbers, equality as an instance argument, results with exceptions.
-- Workflow.Graph        TaskDependencyGraph of cloudify/workflows/tasks_graph.py. A task object is
--               its id. `_dependencies` and `_dependents` are functions, `_tasks` and `_ready`
--               sets; `_tasks_wait` only wakes the loop and has no field.
--               Graph.Linearize is `linearize`, whose copy of the dependencies is a function;
--               Graph.Sequence is TaskSequence; Graph.Operations is `_restore_operations`, and
--               Graph.Restore `_restore_dependencies` with what `store` writes of dependencies.
-- Workflow.Task         WorkflowTask and HandlerResult of cloudify/workflows/tasks.py, with the task
--               objects in a store by id. Task.State is `set_state` by class, the results, and
--               `SubgraphTask.task_terminated`; Task.Handling is `handle_task_terminated` and
--               `duplicate_for_retry`. The handlers on_success and on_failure are parameters.
-- Workflow.AsyncResult  WorkflowTaskResult with any callbacks. In a Task the same object has the one
--               callback `_task_finished` of the graph.
-- Workflow.Execute      `_is_finished`, `_run_task`, `_handle_terminated_task`, and `apply_async` by
--               class. The clock, a cancel request and what sending comes to are arguments; new
--               ids, which uuid4 gives, are arguments that a theorem may assume to be fresh.
--               Execute.Loop is the body of the loop of `execute`.
-- ErrorHandling         cloudify/error_handling.py, with the constructors of cloudify/exceptions.py.
--               The texts are a parameter.
-- Constraints           dsl_parser/constraints.py. What Python and `re` decide about values is a
--               parameter.
-- Interfaces            dsl_parser/interfaces: the mergers of operations and interfaces, with
--               flatten_schema of dsl_parser/utils.py.
-- Properties            The merging of schemas and properties of dsl_parser/utils.py and the check of
--               values against types. What Python decides about values is a parameter.
-- Local                 cloudify/workflows/local.py. Local.Storage is InMemoryStorage with _Storage,
--               Local.Parameters the check of an execution's parameters, and Local.Execute
--               `execute`, where the function that dispatch runs is a parameter.
--
-- Lifecycle             cloudify/plugins/lifecycle.py. Lifecycle itself is how LifecycleProcessor
--               makes the subgraphs of node instances depend on each other; Lifecycle.Install,
--               Lifecycle.Uninstall and Lifecycle.Relationships are the tasks of one instance, by
--               its state. What the operations of a node are, and which of them do nothing, is part
--               of the view of an instance that these functions take.
-- Functions             dsl_parser/functions.py: the values that a path leads into, as a data type, and
--               the loops that follow it; Functions.Handler is `_RuntimeEvaluationHandler`, and
--               Functions.Resolution how GetAttribute finds an instance of a node. The storage
--               that they ask, and Python's `str`, are parameters.
--
-- Fuel: `remove_task` recurs into the tasks of subgraphs and takes fuel, which has to exceed their
-- nesting; `linearize` takes a round for each task of the graph; `parse_value` recurs into the
-- properties of data types, and `merge_schemas` into those of two schemas; `last_retry` follows a
-- chain of retries, `follow_up` a chain of subgraphs, `containing_groups` and `group_instance`
-- the instances that one is contained in. A turn of the loop takes fuel for its inner
-- loops and leaves to the next turn what it did not come to. Retries, times and codes are natural
-- numbers, which do not overflow in Python.
--
-- Not modelled: rollback and reinstallation of instances, the dump of single tasks and what their
-- classes restore, the elements of the parser, the other classes of intrinsic functions and the loop
-- that evaluates them, scaling, the storage of local workflows in files, and all that talks to the
-- manager, to queues, to processes or to files.
pub mod Prelude
pub mod Interfaces
pub mod Workflow
pub mod ErrorHandling
pub mod Constraints
pub mod Properties
pub mod Local
pub mod Lifecycle
pub mod Functions
