-- ===== src/Workflow.antt =====
-- The workflow engine: tasks, the graph of their dependencies, subgraphs, and the loop that runs
-- them (cloudify/workflows/tasks.py, tasks_graph.py and workflow_api.py).
pub mod Graph
pub mod Task
pub mod AsyncResult
pub mod Execute
