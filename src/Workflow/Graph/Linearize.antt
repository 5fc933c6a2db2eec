-- ===== src/Workflow/Graph/Linearize.antt =====
-- `linearize`: the tasks of a graph in rounds, each task after its dependencies. The working copy
-- of the dependencies is a function; the `while` loop takes fuel, a round for each task at most.
use cloudify_common.Prelude.{ℕ, zero, suc, List, [], ◌∷◌, ◌++◌, if◌then◌else◌, length, is_empty}
use cloudify_common.Prelude.Set.{discard}
use cloudify_common.Workflow.Graph.{Graph, assign}

-- The copy of the dependencies, what was ordered so far, and the next round.
pub record Sweep : Type 0 where
  pub copy : ℕ → List ℕ
  pub ordered : List ℕ
  pub new_ready : List ℕ

-- The inner loop, over the dependents of a task that was just ordered.
unfoldable pub visit_dependents : ℕ → List ℕ → Sweep → Sweep
visit_dependents task [] s = s
visit_dependents task (dependent ∷ rest) s =
    let left = discard task (s.copy dependent) in
    visit_dependents task rest (record s {
      copy = assign s.copy dependent left;
      new_ready = if is_empty left then s.new_ready ++ dependent ∷ [] else s.new_ready;
    })

-- The body of the `while` loop, over the tasks of a round.
unfoldable pub visit_round : Graph → List ℕ → Sweep → Sweep
visit_round g [] s = s
visit_round g (task ∷ ready) s =
    visit_round g ready
      (visit_dependents task (g.dependents task) (record s { ordered = s.ordered ++ task ∷ [] }))

unfoldable pub rounds : Graph → ℕ → List ℕ → Sweep → List ℕ
rounds g zero ready s = s.ordered
rounds g (suc fuel) ready s =
    let s' = visit_round g ready (record s { new_ready = [] }) in
    let rest = rounds g fuel s'.new_ready s' in if is_empty ready then s.ordered else rest

-- The tasks with no dependency.
unfoldable pub starting : Graph → List ℕ → List ℕ
starting g [] = []
starting g (task ∷ tasks) =
    let rest = starting g tasks in if is_empty (g.dependencies task) then task ∷ rest else rest

unfoldable pub linearize : Graph → List ℕ
unfolding visit_dependents visit_round rounds starting
linearize g =
    rounds g (suc (length g.tasks)) (starting g g.tasks)
      (record { copy = g.dependencies; ordered = []; new_ready = [] })
