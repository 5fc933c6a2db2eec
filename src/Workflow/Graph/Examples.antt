-- ===== src/Workflow/Graph/Examples.antt =====
-- The theorems on graphs, on a graph of three tasks in which 1 depends on 2.
use cloudify_common.Prelude.{
  ℕ, ◌≡◌, refl, true, false, List, [], ◌∷◌, nat_beq, zero, suc, arith, if◌then◌else◌, ◌<◌, Result,
  ok, raise,
}
use cloudify_common.Prelude.Set.{mem, add, discard}
use cloudify_common.Workflow.Graph.{
  GraphError, Graph, empty_graph, release, forget, drop_task, clear_dependencies, detach,
  remove_tasks, add_task, link, add_dependency, remove_dependency, remove_one, remove_task, unlink,
}
use cloudify_common.Workflow.Graph.Invariant.{
  IsGraph, empty_graph-IsGraph, add_task-IsGraph, add_dependency-IsGraph,
}
use cloudify_common.Workflow.Graph.Removal.{
  remove_one-IsGraph, remove_one-edges, remove_task-IsGraph,
}
use cloudify_common.Workflow.Graph.Linearize.{
  linearize, rounds, starting, visit_round, visit_dependents,
}
use cloudify_common.Workflow.Graph.Sequence.{
  follow, add_fork_join, add_sequence, add_sequence-IsGraph,
}
use cloudify_common.Workflow.Graph.Order.{linearize-IsOrdered}

program : Unit {0}
unfolding add_sequence add_fork_join follow empty_graph add_task link add_dependency
    remove_dependency unlink release forget drop_task clear_dependencies detach remove_one
    remove_tasks remove_task linearize rounds starting visit_round visit_dependents mem add discard
program = tt

abbrev three : Graph
three = add_task 3 (add_task 2 (add_task 1 empty_graph))

three-IsGraph : IsGraph [] three
unfolding program
three-IsGraph =
    add_task-IsGraph [] (add_task 2 (add_task 1 empty_graph))
      (add_task-IsGraph [] (add_task 1 empty_graph)
        (add_task-IsGraph [] empty_graph (empty_graph-IsGraph []) 1 refl) 2 refl)
      3 refl

abbrev edge : Graph
edge = link 1 2 three

edge-IsGraph : IsGraph [] edge
unfolding program
edge-IsGraph = add_dependency-IsGraph [] three three-IsGraph 1 2 refl

remove_one-IsGraph_example : IsGraph [] (remove_one 2 edge)
unfolding program
remove_one-IsGraph_example = remove_one-IsGraph 2 edge [] [] (λ a ne m. m) edge-IsGraph

remove_one-edges_example : mem 2 ((remove_one 2 edge).dependencies 1) ≡ false
unfolding program
remove_one-edges_example = remove_one-edges 2 edge [] [] (λ a ne m. m) edge-IsGraph refl 1 2

-- Task 1 holds 2 and 3.
abbrev held : ℕ → List ℕ
held zero = []
held (suc zero) = 2 ∷ 3 ∷ []
held (suc (suc n)) = []

abbrev nesting : ℕ → ℕ
nesting zero = 0
nesting (suc zero) = 1
nesting (suc (suc n)) = 0

remove_task-IsGraph_example : IsGraph [] (remove_task 2 held 1 edge)
unfolding program
remove_task-IsGraph_example = remove_task-IsGraph [] 1 held 1 edge [] (λ a ne m. m) edge-IsGraph

held-nested : (a b : ℕ) → mem b (held a) ≡ true → nesting b < nesting a
unfolding program
held-nested zero b h = ground arith
held-nested (suc zero) b h = ground arith
held-nested (suc (suc n)) b h = ground arith

abbrev rank : ℕ → ℕ
rank a = if nat_beq a 1 then 1 else 0

edge-ranked : (a b : ℕ) → mem b (edge.dependencies a) ≡ true → rank b < rank a
unfolding program
edge-ranked a b h = ground arith

linearize-IsOrdered_example : mem 2 (3 ∷ 2 ∷ []) ≡ true
unfolding program
linearize-IsOrdered_example = linearize-IsOrdered [] edge (3 ∷ 2 ∷ []) [] 1 2 edge-IsGraph refl refl

-- The fork-join of 4 and 5, and then 6, which depends on both.
abbrev added : Result GraphError (Graph × List ℕ)
added = add_sequence [] ((4 ∷ 5 ∷ []) ∷ (6 ∷ []) ∷ []) three

abbrev graph_of : Result GraphError (Graph × List ℕ) → Graph
graph_of (ok r) = r.0
graph_of (raise e) = empty_graph

added_last : (graph_of added).dependencies 6 ≡ 5 ∷ 4 ∷ []
unfolding program
added_last = refl

add_sequence-IsGraph_example :
    IsGraph [] (graph_of added) × ((graph_of added).tasks ≡ 6 ∷ 5 ∷ 4 ∷ 3 ∷ 2 ∷ 1 ∷ [])
unfolding program
add_sequence-IsGraph_example =
    add_sequence-IsGraph [] [] ((4 ∷ 5 ∷ []) ∷ (6 ∷ []) ∷ []) three three-IsGraph
      ((refl, (refl, tt)), ((refl, tt), tt)) refl
