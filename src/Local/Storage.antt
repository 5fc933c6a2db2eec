-- ===== src/Local/Storage.antt =====
-- `_Storage` and `InMemoryStorage`. Instances are copied on their way out and in, so they are
-- values here. `P` is the type of runtime properties. A lock is held while an instance changes, so
-- that a change is one step.
pub mod Versions
pub mod Runs
pub mod Executions
mod Examples
use cloudify_common.Prelude.{
  ℕ, suc, String, Bool, true, false, not, ◌&&◌, ◌||◌, Option, none, some, List, [], ◌∷◌, ◌++◌,
  is_none, if◌then◌else◌, ◌==◌, string_eq, nat_beq, get_or, Result, ok, raise, guard, ◌>>=◌, ◌>>◌,
  ◌+◌,
}
use cloudify_common.Prelude.Dict.{Dict, get, put}

pub record NodeInstance (P : Type 0) : Type 0 where
  pub id : String
  pub node_id : String
  pub version : ℕ
  pub runtime_properties : P
  pub state : Option String

pub data StorageError : Type 0 where
  storage_conflict : StorageError
  no_instance no_node no_input : String → StorageError

-- The names in the context of a workflow.
pub record WorkflowContext : Type 0 where
  pub workflow_id : String
  pub deployment_id : String
  pub blueprint_id : String

-- An execution has no `ended_at` until it ends; `error` is the text of its exception.
pub record Execution (I : Type 0) : Type 0 where
  pub id : String
  pub workflow_id : String
  pub deployment_id : String
  pub blueprint_id : String
  pub is_dry_run : Bool
  pub status : String
  pub status_display : String
  pub parameters : Dict String I
  pub created_at : ℕ
  pub started_at : ℕ
  pub ended_at : Option ℕ
  pub error : Option String

pub record Storage (N P I : Type 0) : Type 0 where
  pub nodes : Dict String N
  pub node_instances : Dict String (NodeInstance P)
  pub executions : List (Execution I)
  pub inputs : Dict String I

-- The loop over the instances of `_prepare_nodes_and_instances`: the name is the node's.
unfoldable pub prepare_instance : {P : Type 0} → P → String → String → NodeInstance P
prepare_instance empty id name = record {
  id = id;
  node_id = name;
  version = 0;
  runtime_properties = empty;
  state = none;
}

module _ {P : Type 0} where
  -- `dict((instance.id, instance) for instance in node_instances)`
  unfoldable pub index_from :
      Dict String (NodeInstance P) → List (NodeInstance P) → Dict String (NodeInstance P)
  index_from m [] = m
  index_from m (node_instance ∷ rest) = index_from (put node_instance.id node_instance m) rest

  -- The instance after the assignments of `update_node_instance`.
  unfoldable pub changed : Option P → Option String → NodeInstance P → NodeInstance P
  changed runtime_properties state node_instance = record node_instance {
    version = node_instance.version + 1;
    runtime_properties = get_or runtime_properties node_instance.runtime_properties;
    state = elim state [ none ↦ node_instance.state | some new ↦ some new ];
  }

  abbrev values : Dict String (NodeInstance P) → List (NodeInstance P)
  values [] = []
  values ((id, node_instance) ∷ rest) = node_instance ∷ values rest

  unfoldable pub of_node : Option String → NodeInstance P → Bool
  of_node none node_instance = true
  of_node (some node_id) node_instance = node_id == "" || node_instance.node_id == node_id

  unfoldable pub select : Option String → List (NodeInstance P) → List (NodeInstance P)
  unfolding of_node
  select node_id [] = []
  select node_id (node_instance ∷ rest) =
      let others = select node_id rest in
      if of_node node_id node_instance then node_instance ∷ others else others

module _ {N P I : Type 0} where
  -- `InMemoryStorage.init`, for nodes with their ids
  unfoldable pub init : Dict String N → Dict String I → List (NodeInstance P) → Storage N P I
  unfolding index_from
  init nodes inputs node_instances = record {
    nodes = nodes;
    node_instances = index_from [] node_instances;
    executions = [];
    inputs = inputs;
  }

  unfoldable pub load_instance : String → Storage N P I → Option (NodeInstance P)
  load_instance id s = get id s.node_instances

  unfoldable pub store_instance : NodeInstance P → Storage N P I → Storage N P I
  store_instance node_instance s = record s {
    node_instances = put node_instance.id node_instance s.node_instances;
  }

  unfoldable pub get_node_instance : String → Storage N P I → Result StorageError (NodeInstance P)
  unfolding load_instance
  get_node_instance id s = elim (load_instance id s) [
    | none ↦ raise (no_instance id)
    | some node_instance ↦ ok node_instance
  ]

  unfoldable pub update_node_instance :
      String → ℕ → Option P → Option String → Storage N P I → Result StorageError (Storage N P I)
  unfolding get_node_instance changed store_instance
  update_node_instance id version runtime_properties state s = do
    node_instance ← get_node_instance id s
    guard (not (is_none state && not (nat_beq version node_instance.version))) storage_conflict
    ok (store_instance (changed runtime_properties state node_instance) s)

  unfoldable pub get_node_instances : Option String → Storage N P I → List (NodeInstance P)
  unfolding select
  get_node_instances node_id s = select node_id (values s.node_instances)

  unfoldable pub get_node : String → Storage N P I → Result StorageError N
  get_node id s = elim (get id s.nodes) [ none ↦ raise (no_node id) | some node ↦ ok node ]

  unfoldable pub get_input : String → Storage N P I → Result StorageError I
  get_input name s = elim (get name s.inputs) [ none ↦ raise (no_input name) | some v ↦ ok v ]

-- `_get_status_display`
unfoldable pub status_display : String → String
status_display status = if status == "terminated" then "completed" else status

module _ {I : Type 0} where
  unfoldable pub find_execution : String → List (Execution I) → Option (Execution I)
  find_execution execution_id [] = none
  find_execution execution_id (execution ∷ rest) =
      if execution.id == execution_id then some execution else find_execution execution_id rest

  -- The dict that `store_execution` appends.
  unfoldable pub started : ℕ → String → WorkflowContext → Dict String I → String → Execution I
  unfolding status_display
  started time execution_id ctx parameters status = record {
    id = execution_id;
    workflow_id = ctx.workflow_id;
    deployment_id = ctx.deployment_id;
    blueprint_id = ctx.blueprint_id;
    is_dry_run = false;
    status = status;
    status_display = status_display status;
    parameters = parameters;
    created_at = time;
    started_at = time;
    ended_at = none;
    error = none;
  }

  -- What `execution_ended` writes into an execution; `error` is its text.
  unfoldable pub ended : ℕ → Option String → Execution I → Execution I
  unfolding status_display
  ended time error execution =
      let status : String = if is_none error then "terminated" else "failed" in
      record execution {
        status = status;
        status_display = status_display status;
        ended_at = some time;
        error = error;
      }

  unfoldable pub end_each : ℕ → String → Option String → List (Execution I) → List (Execution I)
  unfolding ended
  end_each time execution_id error [] = []
  end_each time execution_id error (execution ∷ rest) =
      (if execution.id == execution_id then ended time error execution else execution)
      ∷ end_each time execution_id error rest

module _ {N P I : Type 0} where
  unfoldable pub get_execution : String → Storage N P I → Option (Execution I)
  unfolding find_execution
  get_execution execution_id s = find_execution execution_id s.executions

  unfoldable pub store_execution :
      ℕ → String → WorkflowContext → Dict String I → String → Storage N P I → Storage N P I
  unfolding started
  store_execution time execution_id ctx parameters status s = record s {
    executions = s.executions ++ started time execution_id ctx parameters status ∷ [];
  }

  unfoldable pub execution_ended : ℕ → String → Option String → Storage N P I → Storage N P I
  unfolding end_each
  execution_ended time execution_id error s = record s {
    executions = end_each time execution_id error s.executions;
  }
