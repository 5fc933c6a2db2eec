-- ===== src/Workflow/Graph/Operations/Restored.antt =====
-- The restored graph: the operations that are in it, and that it is well formed.
use cloudify_common.Workflow.Graph.Operations.Contained.{
  container, IsRestored, IsOpen, IsOpen-restore_operation, Keeps, finish-IsRestored, add_task-Keeps,
  put_in_subgraph-IsOpen,
}
use cloudify_common.Prelude.{
  ℕ, zero, suc, ◌<◌, ◌≡◌, ◌≢◌, refl, true, false, some, List, [], ◌∷◌, ok, arith, nat_eq,
  Option-cases, Bool-cases, inl, inr,
}
use cloudify_common.Prelude.Dict.{Dict, get, has_key}
use cloudify_common.Prelude.Set.{mem}
use cloudify_common.Workflow.Graph.{empty_graph, add_task}
use cloudify_common.Workflow.Graph.Invariant.{IsGraph, is_empty_of_no_mem, mem-is_empty}
use cloudify_common.Workflow.Task.{started, is_terminated_state}
use cloudify_common.Workflow.Graph.Operations.{
  OperationDescr, Restoring, by_id_into, restore_operation, follow_up, restore_each_operation,
  nothing_restored, restore_operations,
}

module _ (ops_by_id : Dict ℕ OperationDescr) where
  -- Each operation is the one that is stored under its id, and its rank is below the fuel.
  abbrev pub AllStored : (ℕ → ℕ) → ℕ → List OperationDescr → Type 0
  AllStored rank fuel [] = Unit
  AllStored rank fuel (op ∷ ops) =
      (get op.id ops_by_id ≡ some op) × (rank op.id < fuel) × AllStored rank fuel ops

  -- Each operation that has not terminated is a task.
  abbrev pub AllRestored : List OperationDescr → Restoring → Type 0
  AllRestored [] r = Unit
  AllRestored (op ∷ ops) r =
      (is_terminated_state op.state ≡ false → mem op.id r.graph.tasks ≡ true) × AllRestored ops r

  module _ (rank : ℕ → ℕ)
      (nested : (a s : ℕ)
        → container ops_by_id a ≡ some s
        → (rank s < rank a) × ((d : OperationDescr) × (get s ops_by_id ≡ some d))) where
    follow_up-IsRestored :
        (fuel x : ℕ) (d : OperationDescr) (r : Restoring)
        → rank x < fuel
        → get x ops_by_id ≡ some d
        → IsOpen ops_by_id x r
        → (r' : Restoring) × (follow_up fuel ops_by_id x d r ≡ ok r')
          × IsRestored ops_by_id r'
          × Keeps ops_by_id x r r'
    unfolding follow_up
    follow_up-IsRestored zero x d r enough found inv = elim enough [ ]
    follow_up-IsRestored (suc fuel) x d r enough found inv =
        elim (Option-cases d.containing_subgraph) [
          | inl top ↦ (
            record r { graph = add_task x r.graph },
            ground arith,
            finish-IsRestored ops_by_id x r inv (ground arith),
            add_task-Keeps ops_by_id x r,
          )
          | inr (s, inside) ↦
              let (less, (d', stored)) = nested x s (ground arith) in
              let (r1, one, inv1, (own, keeps)) =
                put_in_subgraph-IsOpen ops_by_id x s started r inv (ground arith) (ground arith) in
              let (r2, two, inv2, (own2, keeps2)) =
                follow_up-IsRestored fuel s d' r1 (omega arith) stored inv1 in
              (r2, ground arith, inv2, (keeps2 x own, λ a there. keeps2 a (keeps a there)))
        ]

    still_there :
        (op : OperationDescr) (r : Restoring) (a : ℕ)
        → mem a r.graph.tasks ≡ true
        → mem a (restore_operation op.id op.state r).graph.tasks ≡ true
    unfolding restore_operation
    still_there op r a there = there

    pub restore_each_operation-IsRestored :
        (fuel : ℕ) (ops : List OperationDescr) (r : Restoring)
        → AllStored rank fuel ops
        → IsRestored ops_by_id r
        → (r' : Restoring) × (restore_each_operation fuel ops_by_id ops r ≡ ok r')
          × IsRestored ops_by_id r'
          × AllRestored ops r'
          × ((a : ℕ) → mem a r.graph.tasks ≡ true → mem a r'.graph.tasks ≡ true)
    unfolding restore_each_operation
    restore_each_operation-IsRestored fuel [] r all inv = (r, refl, inv, tt, λ a there. there)
    restore_each_operation-IsRestored fuel (op ∷ ops) r (stored, enough, all) inv =
        elim (Bool-cases (has_key op.id r.restored_ops)) [
          | inl again ↦
              let (r', done, inv', rest, keeps) =
                restore_each_operation-IsRestored fuel ops r all inv in
              (r', ground arith, inv', (λ runs. keeps op.id (inv.known op.id again), rest), keeps)
          | inr new ↦ elim (Bool-cases (is_terminated_state op.state)) [
            | inl over ↦
                let (r', done, inv', rest, keeps) =
                  restore_each_operation-IsRestored fuel ops r all inv in
                (r', ground arith, inv', (λ runs. ground arith, rest), keeps)
            | inr runs ↦
                let (r1, one, inv1, (own, keeps1)) =
                  follow_up-IsRestored fuel op.id op (restore_operation op.id op.state r) enough
                    stored (IsOpen-restore_operation ops_by_id op.id op.state r inv) in
                let (r2, two, inv2, rest, keeps2) =
                  restore_each_operation-IsRestored fuel ops r1 all inv1 in
                (
                  r2,
                  ground arith,
                  inv2,
                  (λ runs. keeps2 op.id own, rest),
                  λ a there. keeps2 a (keeps1 a (still_there op r a there)),
                )
          ]
        ]

  -- A restored graph is well formed, where no operation is stored as its own subgraph.
  pub IsRestored-IsGraph :
      (r : Restoring)
      → ((a : ℕ) → container ops_by_id a ≢ some a)
      → IsRestored ops_by_id r
      → IsGraph [] r.graph
  IsRestored-IsGraph r proper inv = record {
    mirror = inv.mirror;
    source = λ a b m. ground (arith, inv.edges a b);
    target = inv.target;
    irreflexive = λ a. elim (Option-cases (container ops_by_id a)) [
      | inl top ↦ ground (arith, inv.edges a a)
      | inr (s, inside) ↦ ground (arith, inv.edges a a, proper a)
    ];
    ready_in = λ a m. ground (arith, inv.ready a);
    ready_free = λ a m.
        is_empty_of_no_mem (r.graph.dependencies a)
          (λ x h. ground (arith, inv.ready a, inv.edges a x));
    scheduled = λ a known empty. elim (Option-cases (container ops_by_id a)) [
      | inl top ↦ ground (arith, inv.ready a)
      | inr (s, inside) ↦
          ground (arith, inv.edges a s, mem-is_empty s (r.graph.dependencies a) empty)
    ];
  }

nothing_restored-IsRestored :
    (ops_by_id : Dict ℕ OperationDescr) → IsRestored ops_by_id nothing_restored
unfolding nothing_restored empty_graph mem get
nothing_restored-IsRestored ops_by_id = record {
  mirror = λ a b. refl;
  edges = λ a b. refl;
  target = λ a b m. ground arith;
  ready = λ a. refl;
  known = λ a m. ground arith;
}

-- Operations are restored: where each operation stands under its id, and subgraphs are stored too
-- and are in no circle, so that a rank falls from each operation to its subgraph, fuel above the
-- ranks is enough; every operation that has not terminated is a task again, each task depends on
-- its subgraph and on nothing else, the tasks outside of subgraphs are ready, and the graph is well
-- formed.
pub restore_operations-IsRestored :
    (fuel : ℕ) (ops : List OperationDescr) (rank : ℕ → ℕ)
    → ((a s : ℕ)
        → container (by_id_into [] ops) a ≡ some s
        → (rank s < rank a) × ((d : OperationDescr) × (get s (by_id_into [] ops) ≡ some d)))
    → AllStored (by_id_into [] ops) rank fuel ops
    → (r : Restoring) × (restore_operations fuel ops ≡ ok r)
      × IsRestored (by_id_into [] ops) r
      × AllRestored (by_id_into [] ops) ops r
      × IsGraph [] r.graph
unfolding restore_operations
restore_operations-IsRestored fuel ops rank nested stored =
    let ops_by_id = by_id_into [] ops in
    let (r, done, inv, all, keeps) =
      restore_each_operation-IsRestored ops_by_id rank nested fuel ops nothing_restored stored
        (nothing_restored-IsRestored ops_by_id) in
    let proper : (a : ℕ) → container ops_by_id a ≢ some a =
      λ a own. let (less, _) = nested a a own in omega arith in
    (r, done, inv, all, IsRestored-IsGraph ops_by_id r proper inv)
