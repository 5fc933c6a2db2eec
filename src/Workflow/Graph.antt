-- ===== src/Workflow/Graph.antt =====
-- TaskDependencyGraph of cloudify/workflows/tasks_graph.py: the tasks of a graph by their ids,
-- their dependencies both ways, and the set of tasks that are ready to run. A task object is
-- named by its id, by which Python compares and hashes it. `defaultdict(set)` is a function.
pub mod Edges
pub mod Invariant
pub mod Removal
pub mod Linearize
pub mod Order
pub mod Sequence
pub mod Restore
pub mod Operations
mod Examples
use cloudify_common.Prelude.{
  ℕ, zero, suc, Bool, true, false, not, ◌||◌, Option, none, some, List, [], ◌∷◌, nat_beq,
  if◌then◌else◌, Result, ok, raise, ◌>>=◌, is_empty,
}
use cloudify_common.Prelude.Set.{mem, add, discard}

pub data GraphError : Type 0 where
  src_not_in_graph dst_not_in_graph : GraphError

-- `f[k] = v` on a total map.
abbrev pub assign {ℓ} : {A : Type ℓ} → (ℕ → A) → ℕ → A → ℕ → A
assign f k v n = if nat_beq k n then v else f n

pub record Graph : Type 0 where
  pub tasks : List ℕ
  pub dependencies : ℕ → List ℕ
  pub dependents : ℕ → List ℕ
  pub ready : List ℕ

unfoldable pub empty_graph : Graph
empty_graph = record { tasks = []; dependencies = λ _. []; dependents = λ _. []; ready = [] }

unfoldable pub add_task : ℕ → Graph → Graph
add_task task g = record g { tasks = add task g.tasks; ready = add task g.ready }

unfoldable pub get_task : ℕ → Graph → Option ℕ
get_task task_id g = if mem task_id g.tasks then some task_id else none

-- The part of `add_dependency` behind its three guards.
unfoldable pub link : ℕ → ℕ → Graph → Graph
link src dst g = record g {
  dependencies = assign g.dependencies src (add dst (g.dependencies src));
  dependents = assign g.dependents dst (add src (g.dependents dst));
  ready = discard src g.ready;
}

unfoldable pub add_dependency : ℕ → ℕ → Graph → Result GraphError Graph
unfolding link
add_dependency src dst g =
    if nat_beq src dst
    then ok g
    else if not (mem src g.tasks)
    then raise src_not_in_graph
    else if not (mem dst g.tasks)
    then raise dst_not_in_graph
    else ok (link src dst g)

unfoldable pub unlink : ℕ → ℕ → Graph → Graph
unlink src dst g =
    let left = discard dst (g.dependencies src) in
    record g {
      dependencies = assign g.dependencies src left;
      dependents = assign g.dependents dst (discard src (g.dependents dst));
      ready = if is_empty left then add src g.ready else g.ready;
    }

unfoldable pub remove_dependency : ℕ → ℕ → Graph → Result GraphError Graph
unfolding unlink
remove_dependency src dst g =
    if not (mem src g.tasks)
    then raise src_not_in_graph
    else if not (mem dst g.tasks)
    then raise dst_not_in_graph
    else ok (unlink src dst g)

-- The loop of `remove_task` over the dependents of the task.
unfoldable pub release : ℕ → List ℕ → Graph → Graph
release task [] g = g
release task (dependent ∷ rest) g =
    let left = discard task (g.dependencies dependent) in
    release task rest (record g {
      dependencies = assign g.dependencies dependent left;
      ready = if is_empty left then add dependent g.ready else g.ready;
    })

-- The loop of `remove_task` over the dependencies of the task.
unfoldable pub forget : ℕ → List ℕ → Graph → Graph
forget task [] g = g
forget task (dependency ∷ rest) g = forget task rest (record g {
  dependents = assign g.dependents dependency (discard task (g.dependents dependency));
})

-- `remove_task` after `if task.id in self._tasks`. Each `pop` empties an entry.
unfoldable pub drop_task : ℕ → Graph → Graph
drop_task task g = record g {
  tasks = discard task g.tasks;
  ready = discard task g.ready;
  dependents = assign g.dependents task [];
}

unfoldable pub clear_dependencies : ℕ → Graph → Graph
clear_dependencies task g = record g { dependencies = assign g.dependencies task [] }

unfoldable pub detach : ℕ → Graph → Graph
unfolding release forget drop_task clear_dependencies
detach task g =
    let released = release task (g.dependents task) (drop_task task g) in
    forget task (released.dependencies task) (clear_dependencies task released)

unfoldable pub remove_one : ℕ → Graph → Graph
unfolding detach
remove_one task g = if mem task g.tasks then detach task g else g

unfoldable pub remove_tasks : (ℕ → Graph → Graph) → List ℕ → Graph → Graph
remove_tasks remove [] g = g
remove_tasks remove (task ∷ tasks) g = remove_tasks remove tasks (remove task g)

unfoldable pub remove_task : ℕ → (ℕ → List ℕ) → ℕ → Graph → Graph
unfolding remove_tasks remove_one
remove_task zero children task g = g
remove_task (suc fuel) children task g =
    remove_one task (remove_tasks (remove_task fuel children) (children task) g)
