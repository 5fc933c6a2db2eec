-- ===== src/Workflow/Graph/Restore/RoundTrip.antt =====
-- A graph that was stored, and then restored with the tasks that it had.
use cloudify_common.Prelude.{
  ℕ, ◌≡◌, refl, true, false, not, ◌&&◌, Option, List, [], ◌∷◌, nat_beq, ok, arith, subst, sym,
  nat_eq,
}
use cloudify_common.Prelude.Dict.{Dict}
use cloudify_common.Prelude.Set.{mem}
use cloudify_common.Workflow.Graph.{Graph}
use cloudify_common.Workflow.Graph.Invariant.{IsGraph}
use cloudify_common.Workflow.Graph.Restore.{
  retries_of, restore_dependencies, serialize_tasks, serialized_tasks,
}
use cloudify_common.Workflow.Graph.Restore.Edges.{
  any_stands_for, asks, Ends, restore_dependencies-Extends,
}

module _ (fuel : ℕ) (retries : Dict ℕ ℕ) (tasks : List ℕ) where
  any_stands_for-mem :
      (targets : List ℕ) (b : ℕ)
      → ((target : ℕ) → mem target targets ≡ true → mem target tasks ≡ true)
      → any_stands_for fuel retries tasks targets b ≡ mem b targets
  unfolding mem
  any_stands_for-mem [] b there = refl
  any_stands_for-mem (target ∷ rest) b there =
      ground (arith, there target, any_stands_for-mem rest b (λ t known. there t (ground arith)))

  asks-serialize_tasks :
      (retried_task : ℕ → Option ℕ) (g : Graph) (stored : List ℕ) (a b : ℕ)
      → ((target : ℕ) → mem target (g.dependencies a) ≡ true → mem target tasks ≡ true)
      → asks fuel retries tasks (serialize_tasks retried_task g stored) a b
        ≡ (mem a stored && mem a tasks && mem b (g.dependencies a) && not (nat_beq a b))
  unfolding serialize_tasks mem
  asks-serialize_tasks retried_task g [] a b there = refl
  asks-serialize_tasks retried_task g (task ∷ stored) a b there = ground (
    arith,
    any_stands_for-mem (g.dependencies a) b there,
    asks-serialize_tasks retried_task g stored a b there,
  )

-- A stored graph is restored: on a well formed graph that has the same tasks and no dependencies
-- yet, the stored operations of a well formed graph set the dependencies that it had, whatever was
-- retried, where every chain of retries ends.
pub restore_dependencies-serialized_tasks :
    (fuel : ℕ) (retried_task : ℕ → Option ℕ) (waiting waiting0 : List ℕ) (g g0 : Graph)
    → IsGraph waiting g
    → IsGraph waiting0 g0
    → g0.tasks ≡ g.tasks
    → ((a b : ℕ) → mem b (g0.dependencies a) ≡ false)
    → Ends fuel (retries_of (serialized_tasks retried_task g))
    → (g' : Graph) × (restore_dependencies fuel (serialized_tasks retried_task g) g0 ≡ ok g')
      × IsGraph waiting0 g'
      × (g'.tasks ≡ g.tasks)
      × ((a b : ℕ) → mem b (g'.dependencies a) ≡ mem b (g.dependencies a))
unfolding serialized_tasks
restore_dependencies-serialized_tasks fuel retried_task waiting waiting0 g g0 inv inv0 same bare
      ends =
    let ops = serialized_tasks retried_task g in
    let (g', done, (good, same', edges), _) =
      restore_dependencies-Extends fuel ops waiting0 g0 ends inv0 in
    (
      g',
      done,
      good,
      ground arith,
      λ a b.
          let asked =
            subst
              (λ (tasks : List ℕ).
                asks fuel (retries_of ops) tasks ops a b
                ≡ (mem a g.tasks && mem a g.tasks && mem b (g.dependencies a) && not (nat_beq a b)))
              (sym same)
              (asks-serialize_tasks fuel (retries_of ops) g.tasks retried_task g g.tasks a b
                (λ target m. inv.target a target m)) in
          ground (arith, edges a b, bare a b, inv.source a b, inv.irreflexive a),
    )
