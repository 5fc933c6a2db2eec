-- ===== src/Workflow/Graph/Sequence.antt =====
-- TaskSequence and forkjoin of cloudify/workflows/tasks_graph.py, and `SubgraphTask.add_task`: how
-- a workflow builds its graph. A task alone is a fork-join of one task.
use cloudify_common.Prelude.{
  ℕ, ◌≡◌, false, List, [], ◌∷◌, if◌then◌else◌, is_empty, Result, ok, ◌>>=◌, arith, >>=-eq-ok, ◌∙◌,
  subst, refl, sym, ap,
}
use cloudify_common.Prelude.Set.{mem, add}
use cloudify_common.Workflow.Graph.{Graph, GraphError, add_task, add_dependency, link}
use cloudify_common.Workflow.Graph.Invariant.{IsGraph, add_task-IsGraph, add_dependency-IsGraph}

-- The dependencies of a task on the last fork-join of the sequence.
unfoldable pub follow : ℕ → List ℕ → Graph → Result GraphError Graph
follow task [] g = ok g
follow task (last_task ∷ rest) g = do g' ← add_dependency task last_task g; follow task rest g'

-- The loop over the tasks of a fork-join; `last_tasks` is empty where it is None.
unfoldable pub add_fork_join : List ℕ → List ℕ → Graph → Result GraphError Graph
unfolding follow
add_fork_join last_tasks [] g = ok g
add_fork_join last_tasks (task ∷ tasks) g = do
  g' ← follow task last_tasks (add_task task g)
  add_fork_join last_tasks tasks g'

-- `TaskSequence.add`, with the attribute `last_fork_join_tasks`
unfoldable pub add_sequence : List ℕ → List (List ℕ) → Graph → Result GraphError (Graph × List ℕ)
unfolding add_fork_join
add_sequence last_tasks [] g = ok (g, last_tasks)
add_sequence last_tasks (fork_join ∷ rest) g = do
  g' ← add_fork_join last_tasks fork_join g
  add_sequence (if is_empty fork_join then last_tasks else fork_join) rest g'

-- The tasks of the graph after those of a fork-join were added.
abbrev pub with_tasks : List ℕ → List ℕ → List ℕ
with_tasks [] old = old
with_tasks (task ∷ tasks) old = with_tasks tasks (add task old)

-- Each task is new when it is added.
abbrev pub AreNew : List ℕ → List ℕ → Type 0
AreNew [] old = Unit
AreNew (task ∷ tasks) old = (mem task old ≡ false) × AreNew tasks (add task old)

abbrev pub AllNew : List (List ℕ) → List ℕ → Type 0
AllNew [] old = Unit
AllNew (fork_join ∷ rest) old = AreNew fork_join old × AllNew rest (with_tasks fork_join old)

abbrev pub all_tasks : List (List ℕ) → List ℕ → List ℕ
all_tasks [] old = old
all_tasks (fork_join ∷ rest) old = all_tasks rest (with_tasks fork_join old)

add_dependency-tasks :
    (src dst : ℕ) (g : Graph) {g' : Graph} → add_dependency src dst g ≡ ok g' → g'.tasks ≡ g.tasks
unfolding add_dependency link
add_dependency-tasks src dst g h = ground arith

module _ (waiting : List ℕ) where
  follow-IsGraph :
      (task : ℕ) (last_tasks : List ℕ) (g : Graph) {g' : Graph}
      → IsGraph waiting g
      → follow task last_tasks g ≡ ok g'
      → IsGraph waiting g' × (g'.tasks ≡ g.tasks)
  unfolding follow
  follow-IsGraph task [] g {g'} inv h =
      let same : g ≡ g' = ground arith in
      subst (λ (x : Graph). IsGraph waiting x × (x.tasks ≡ g.tasks)) same (inv, refl)
  follow-IsGraph task (last_task ∷ rest) g inv h =
      let (middle, one, more) =
        >>=-eq-ok (add_dependency task last_task g) (λ m. follow task rest m) h in
      let (done, same) =
        follow-IsGraph task rest middle (add_dependency-IsGraph waiting g inv task last_task one)
          more in
      (done, same ∙ add_dependency-tasks task last_task g one)

  add_fork_join-IsGraph :
      (last_tasks tasks : List ℕ) (g : Graph) {g' : Graph}
      → IsGraph waiting g
      → AreNew tasks g.tasks
      → add_fork_join last_tasks tasks g ≡ ok g'
      → IsGraph waiting g' × (g'.tasks ≡ with_tasks tasks g.tasks)
  unfolding add_fork_join add_task
  add_fork_join-IsGraph last_tasks [] g {g'} inv new h =
      let same : g ≡ g' = ground arith in
      subst (λ (x : Graph). IsGraph waiting x × (x.tasks ≡ g.tasks)) same (inv, refl)
  add_fork_join-IsGraph last_tasks (task ∷ tasks) g inv new h =
      let (middle, one, more) =
        >>=-eq-ok (follow task last_tasks (add_task task g)) (λ m. add_fork_join last_tasks tasks m)
          h in
      let (good, same) =
        follow-IsGraph task last_tasks (add_task task g) (add_task-IsGraph waiting g inv task new.0)
          one in
      let (done, all) =
        add_fork_join-IsGraph last_tasks tasks middle good (subst (AreNew tasks) (sym same) new.1)
          more in
      (done, all ∙ ap (with_tasks tasks) same)

  -- A sequence of new tasks and fork-joins of new tasks, whenever it can be added, leaves the graph
  -- well formed, and the graph has exactly the tasks that it had and the added ones.
  pub add_sequence-IsGraph :
      (last_tasks : List ℕ) (sequence : List (List ℕ)) (g : Graph) {g' : Graph} {last' : List ℕ}
      → IsGraph waiting g
      → AllNew sequence g.tasks
      → add_sequence last_tasks sequence g ≡ ok (g', last')
      → IsGraph waiting g' × (g'.tasks ≡ all_tasks sequence g.tasks)
  unfolding add_sequence
  add_sequence-IsGraph last_tasks [] g {g'} inv new h =
      let same : g ≡ g' = ground arith in
      subst (λ (x : Graph). IsGraph waiting x × (x.tasks ≡ g.tasks)) same (inv, refl)
  add_sequence-IsGraph last_tasks (fork_join ∷ rest) g inv new h =
      let next = if is_empty fork_join then last_tasks else fork_join in
      let (middle, one, more) =
        >>=-eq-ok (add_fork_join last_tasks fork_join g) (λ m. add_sequence next rest m) h in
      let (good, same) = add_fork_join-IsGraph last_tasks fork_join g inv new.0 one in
      let (done, all) =
        add_sequence-IsGraph next rest middle good (subst (AllNew rest) (sym same) new.1) more in
      (done, all ∙ ap (all_tasks rest) same)
