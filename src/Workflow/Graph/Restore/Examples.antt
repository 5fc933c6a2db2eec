-- ===== src/Workflow/Graph/Restore/Examples.antt =====
-- The theorems at a graph whose task 2 failed and was retried as task 3, on which task 4 depends.
use cloudify_common.Prelude.{
  ℕ, ◌<◌, ◌≡◌, refl, false, Option, none, some, List, [], ◌∷◌, nat_beq, if◌then◌else◌, ok, nat_eq,
  arith,
}
use cloudify_common.Prelude.Dict.{get, put}
use cloudify_common.Prelude.Set.{mem, add}
use cloudify_common.Workflow.Graph.{Graph, empty_graph, add_task, link}
use cloudify_common.Workflow.Graph.Invariant.{
  IsGraph, empty_graph-IsGraph, add_task-IsGraph, link-IsGraph,
}
use cloudify_common.Workflow.Graph.Restore.{
  StoredOperation, retries_into, retries_of, last_retry, restore_dependencies, serialize_tasks,
  serialized_tasks,
}
use cloudify_common.Workflow.Graph.Restore.Chain.{IsRetriedBy, last_retry-IsRetriedBy}
use cloudify_common.Workflow.Graph.Restore.Edges.{
  newest_retry, asks, Ends, Extends, restore_dependencies-Extends,
}
use cloudify_common.Workflow.Graph.Restore.RoundTrip.{restore_dependencies-serialized_tasks}

abbrev operations : List StoredOperation
operations =
    record { id = 3; dependencies = []; retried_task = some 2 }
    ∷ record { id = 4; dependencies = 2 ∷ 1 ∷ []; retried_task = none }
    ∷ []

abbrev rank : ℕ → ℕ
rank task = if nat_beq task 2 then 1 else 0

falls : (task next : ℕ) → get task (retries_of operations) ≡ some next → rank next < rank task
unfolding get put retries_of retries_into
falls task next retried = ground arith

rank-below : (task : ℕ) → rank task < 2
rank-below task = ground arith

last_retry-IsRetriedBy_example :
    (last : ℕ) × (last_retry 2 (retries_of operations) 2 ≡ ok last)
    × IsRetriedBy (retries_of operations) 2 last
    × (get last (retries_of operations) ≡ none)
last_retry-IsRetriedBy_example =
    last_retry-IsRetriedBy (retries_of operations) rank falls 2 2 (rank-below 2)

ends : Ends 2 (retries_of operations)
ends target =
    let (last, found, chain, end) =
      last_retry-IsRetriedBy (retries_of operations) rank falls 2 target (rank-below target) in
    (last, found)

abbrev restored : Graph
restored = add_task 4 (add_task 3 empty_graph)

restored-IsGraph : IsGraph [] restored
unfolding empty_graph add_task mem add
restored-IsGraph =
    add_task-IsGraph [] (add_task 3 empty_graph)
      (add_task-IsGraph [] empty_graph (empty_graph-IsGraph []) 3 refl) 4 refl

restore_dependencies-Extends_example :
    (g' : Graph) × (restore_dependencies 2 operations restored ≡ ok g')
    × Extends 2
        (retries_of operations)
        []
        restored
        (asks 2 (retries_of operations) restored.tasks operations)
        g'
    × ((task : ℕ) → get task (retries_of operations) ≡ newest_retry operations task)
restore_dependencies-Extends_example =
    restore_dependencies-Extends 2 operations [] restored ends restored-IsGraph

abbrev linked : Graph
linked = link 4 3 restored

linked-IsGraph : IsGraph [] linked
unfolding empty_graph add_task mem add
linked-IsGraph = link-IsGraph [] restored restored-IsGraph 4 3 (ground arith) refl refl

abbrev retried : ℕ → Option ℕ
retried task = if nat_beq task 3 then some 2 else none

linked-ends : Ends 2 (retries_of (serialized_tasks retried linked))
unfolding serialized_tasks serialize_tasks retries_of retries_into link empty_graph add_task mem add
linked-ends = ends

bare : (a b : ℕ) → mem b (restored.dependencies a) ≡ false
unfolding empty_graph add_task mem
bare a b = refl

same : restored.tasks ≡ linked.tasks
unfolding link
same = refl

restore_dependencies-serialized_tasks_example :
    (g' : Graph) × (restore_dependencies 2 (serialized_tasks retried linked) restored ≡ ok g')
    × IsGraph [] g'
    × (g'.tasks ≡ linked.tasks)
    × ((a b : ℕ) → mem b (g'.dependencies a) ≡ mem b (linked.dependencies a))
restore_dependencies-serialized_tasks_example =
    restore_dependencies-serialized_tasks 2 retried [] [] linked restored linked-IsGraph
      restored-IsGraph same bare linked-ends
