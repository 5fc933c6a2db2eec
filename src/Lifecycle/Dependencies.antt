-- ===== src/Lifecycle/Dependencies.antt =====
-- Whatever the relationships wait for, the dependencies of a deployment can be added, and the graph
-- stays well formed.
use cloudify_common.Prelude.{
  ◌≢◌, Bool, ℕ, String, ◌≡◌, refl, true, false, ◌&&◌, Option, none, some, List, [], ◌∷◌, ◌==◌,
  string_eq, ok, arith, Bool-cases, inl, inr, ◌∙◌,
}
use cloudify_common.Prelude.Set.{mem}
use cloudify_common.Workflow.Graph.{Graph, get_task}
use cloudify_common.Workflow.Graph.Invariant.{IsGraph}
use cloudify_common.Lifecycle.{
  TaskContext, not_implemented, no_context, of_operation, depend_on_each, depend_on_operation,
  depend_on_all, handle_dependency_creation, is_chosen,
}
use cloudify_common.Lifecycle.Extension.{depend-Extends}

abbrev pub AllIn : List ℕ → List ℕ → Type 0
AllIn tasks list = (x : ℕ) → mem x list ≡ true → mem x tasks ≡ true

-- A well formed graph with the tasks of `g`.
abbrev pub Keeps : List ℕ → Graph → Graph → Type 0
Keeps waiting g g' = IsGraph waiting g' × (g'.tasks ≡ g.tasks)

module _ (waiting : List ℕ) where
  depend_on_each-Keeps :
      (source : ℕ) (list : List ℕ) (g : Graph)
      → IsGraph waiting g
      → mem source g.tasks ≡ true
      → AllIn g.tasks list
      → (g' : Graph) × (depend_on_each source list g ≡ ok g') × Keeps waiting g g'
  unfolding depend_on_each get_task mem
  depend_on_each-Keeps source [] g inv known all = (g, refl, (inv, refl))
  depend_on_each-Keeps source (task ∷ list) g inv known all =
      let there = all task (ground arith) in
      let (g1, one, (inv1, same1, edges)) = depend-Extends waiting source task g inv known there in
      let (g2, two, (inv2, same2)) =
        depend_on_each-Keeps source list g1 inv1 (ground arith)
          (λ x m. rw same1 (all x (ground arith))) in
      (g2, ground arith, (inv2, same2 ∙ same1))

  pub depend_on_all-Keeps :
      (task : ℕ) (list : List ℕ) (g : Graph)
      → IsGraph waiting g
      → mem task g.tasks ≡ true
      → AllIn g.tasks list
      → (g' : Graph) × (depend_on_all task list g ≡ ok g') × Keeps waiting g g'
  unfolding depend_on_all mem
  depend_on_all-Keeps task [] g inv known all = (g, refl, (inv, refl))
  depend_on_all-Keeps task (last ∷ list) g inv known all =
      let there = all last (ground arith) in
      let (g1, one, (inv1, same1, edges)) = depend-Extends waiting task last g inv known there in
      let (g2, two, (inv2, same2)) =
        depend_on_all-Keeps task list g1 inv1 (ground arith)
          (λ x m. rw same1 (all x (ground arith))) in
      (g2, ground arith, (inv2, same2 ∙ same1))

  module _ (operation_of : ℕ → TaskContext)
      (implemented : (task : ℕ) → operation_of task ≢ not_implemented) where
    chosen-cases :
        (operation target_id : String) (task : ℕ)
        → (b : Bool) × (is_chosen operation_of operation target_id task ≡ ok b)
    unfolding is_chosen
    chosen-cases operation target_id task = of_context (operation_of task) (implemented task) refl
      where
        of_context :
            (context : TaskContext)
            → context ≢ not_implemented
            → operation_of task ≡ context
            → (b : Bool) × (is_chosen operation_of operation target_id task ≡ ok b)
        of_context not_implemented there same = absurd (there refl)
        of_context no_context there same = (false, rw (same, is_chosen) refl)
        of_context (of_operation o) there same = (
          o.operation_path == "cloudify.interfaces.lifecycle"
              && o.operation_name == operation
              && target_id == o.node_id,
          rw (same, is_chosen) refl,
        )

    depend_on_operation-Keeps :
        (source : ℕ) (operation target_id : String) (tasks : List ℕ) (g : Graph)
        → IsGraph waiting g
        → mem source g.tasks ≡ true
        → (g' : Graph) × (depend_on_operation operation_of source operation target_id tasks g
            ≡ ok g')
          × Keeps waiting g g'
    unfolding depend_on_operation
    depend_on_operation-Keeps source operation target_id [] g inv known = (g, refl, (inv, refl))
    depend_on_operation-Keeps source operation target_id (task ∷ tasks) g inv known =
        let (chosen, tested) = chosen-cases operation target_id task in
        elim (Bool-cases chosen) [
          | inl this ↦
              let (g', done, kept) =
                depend_on_each-Keeps source (g.dependents task) g inv known
                  (λ x m. inv.source x task (inv.mirror x task ∙ m)) in
              (g', ground (arith, tested), kept)
          | inr other ↦
              let (g', done, kept) =
                depend_on_operation-Keeps source operation target_id tasks g inv known in
              (g', ground (arith, tested), kept)
        ]

    pub handle_dependency_creation-Keeps :
        (source target : ℕ) (operation : Option String) (target_id : String) (g : Graph)
        → IsGraph waiting g
        → mem source g.tasks ≡ true
        → mem target g.tasks ≡ true
        → (g' : Graph) × (handle_dependency_creation operation_of source target operation target_id
              g
            ≡ ok g')
          × Keeps waiting g g'
    unfolding handle_dependency_creation
    handle_dependency_creation-Keeps source target none target_id g inv known there =
        let (g', done, (inv', same, edges)) =
          depend-Extends waiting source target g inv known there in
        (g', done, (inv', same))
    handle_dependency_creation-Keeps source target (some operation) target_id g inv known there =
        elim (Bool-cases (operation == "")) [
          | inl empty ↦
              let (g', done, (inv', same, edges)) =
                depend-Extends waiting source target g inv known there in
              (g', ground arith, (inv', same))
          | inr given ↦
              let (g', done, kept) =
                depend_on_operation-Keeps source operation target_id g.tasks g inv known in
              (g', ground arith, kept)
        ]
