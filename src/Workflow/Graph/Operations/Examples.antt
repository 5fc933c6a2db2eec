-- ===== src/Workflow/Graph/Operations/Examples.antt =====
-- The theorem at operations 1 to 3: the subgraph 1 succeeded, but not its operation 2.
use cloudify_common.Prelude.{
  ℕ, ◌<◌, ◌≡◌, refl, none, some, List, [], ◌∷◌, nat_beq, if◌then◌else◌, ok, arith, nat_eq,
}
use cloudify_common.Prelude.Dict.{get, put}
use cloudify_common.Workflow.Task.{pending, succeeded}
use cloudify_common.Workflow.Graph.Invariant.{IsGraph}
use cloudify_common.Workflow.Graph.Operations.{
  OperationDescr, Restoring, by_id_into, restore_operations,
}
use cloudify_common.Workflow.Graph.Operations.Contained.{container, IsRestored}
use cloudify_common.Workflow.Graph.Operations.Restored.{
  AllStored, AllRestored, restore_operations-IsRestored,
}

abbrev operations : List OperationDescr
operations =
    record { id = 1; state = succeeded; containing_subgraph = none }
    ∷ record { id = 2; state = pending; containing_subgraph = some 1 }
    ∷ record { id = 3; state = succeeded; containing_subgraph = none }
    ∷ []

abbrev rank : ℕ → ℕ
rank task = if nat_beq task 2 then 1 else 0

nested :
    (a s : ℕ)
    → container (by_id_into [] operations) a ≡ some s
    → (rank s < rank a) × ((d : OperationDescr) × (get s (by_id_into [] operations) ≡ some d))
unfolding by_id_into put get
nested a s inside =
    (ground arith, (record { id = 1; state = succeeded; containing_subgraph = none }, ground arith))

stored : AllStored (by_id_into [] operations) rank 2 operations
unfolding by_id_into put get
stored = (refl, ground arith, (refl, ground arith, (refl, ground arith, tt)))

restore_operations-IsRestored_example :
    (r : Restoring) × (restore_operations 2 operations ≡ ok r)
    × IsRestored (by_id_into [] operations) r
    × AllRestored (by_id_into [] operations) operations r
    × IsGraph [] r.graph
restore_operations-IsRestored_example =
    restore_operations-IsRestored 2 operations rank nested stored
