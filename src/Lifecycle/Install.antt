-- ===== src/Lifecycle/Install.antt =====
-- The tasks that install or uninstall one node instance, by its state: `install_node_instance_subgraph`
-- and `uninstall_node_instance_subgraph` of cloudify/plugins/lifecycle.py. A task is named by what
-- it does, and a fork-join is a list of tasks. A subgraph of relationship operations is one task.
pub mod Operations
use cloudify_common.Lifecycle.Relationships.{
  NodeRelationship, RelationshipTask, relationships_operations,
}
use cloudify_common.Prelude.{
  String, Bool, true, false, not, ◌&&◌, ◌||◌, Option, none, some, List, [], ◌∷◌, ◌++◌, is_empty,
  if◌then◌else◌, ◌==◌, string_eq,
}

pub data Action : Type 0 where
  send_event : String → Action
  set_state : String → Action
  execute_operation : String → Action
  relationships_subgraph : String → List (List RelationshipTask) → Action

abbrev pub Tasks : Type 0
Tasks = List (List Action)

-- What the lifecycle reads of an instance: its state, the operations of its node, which of its
-- operations do nothing, its relationships, and what belongs to a host.
pub record InstanceView : Type 0 where
  pub state : String
  pub has_operation : String → Bool
  pub is_nop : String → Bool
  pub relationships : List NodeRelationship
  pub is_host : Bool
  pub install_method : String

-- `x in [...]`
unfoldable pub one_of : String → List String → Bool
one_of x [] = false
one_of x (y ∷ ys) = x == y || one_of x ys

abbrev pub single : Action → Tasks
single a = (a ∷ []) ∷ []

abbrev pub fork_join : Action → Action → Tasks
fork_join a b = (a ∷ b ∷ []) ∷ []

-- `a or b`, for lists
abbrev pub or_tasks : Tasks → Tasks → Tasks
or_tasks [] b = b
or_tasks (x ∷ a) b = x ∷ a

-- `any([...])`, for lists
unfoldable pub any_tasks : List Tasks → Bool
any_tasks [] = false
any_tasks (tasks ∷ rest) = not (is_empty tasks) || any_tasks rest

-- How `install_node_instance_subgraph` puts its phases together.
unfoldable pub install_sequence :
    (creation_validation precreate create preconf configure postconf start host_start poststart
      monitoring_start establish : Tasks)
    → Tasks
unfolding any_tasks
install_sequence creation_validation precreate create preconf configure postconf start host_start
      poststart monitoring_start establish =
    if any_tasks (
      creation_validation ∷ precreate ∷ create ∷ preconf ∷ configure ∷ postconf ∷ start ∷ host_start
      ∷ poststart ∷ monitoring_start ∷ establish ∷ [])
    then single (set_state "initializing")
      ++ or_tasks creation_validation
          (single (send_event "Validating node instance before creation: nothing to do"))
      ++ or_tasks precreate (single (send_event "Precreating node instance: nothing to do"))
      ++ or_tasks create (single (send_event "Creating node instance: nothing to do"))
      ++ preconf
      ++ or_tasks configure (single (send_event "Configuring node instance: nothing to do"))
      ++ postconf
      ++ or_tasks start (single (send_event "Starting node instance: nothing to do"))
      ++ host_start
      ++ or_tasks poststart (single (send_event "Poststarting node instance: nothing to do"))
      ++ monitoring_start
      ++ establish
      ++ fork_join (set_state "started") (send_event "Node instance started")
    else fork_join (set_state "started") (send_event "Node instance started (nothing to do)")

unfoldable pub around_subgraph :
    Tasks → String → Tasks → Option (List (List RelationshipTask)) → Tasks
around_subgraph pre operation post none = []
around_subgraph pre operation post (some groups) =
    pre ++ single (relationships_subgraph operation groups) ++ post

module _ (v : InstanceView) where
  -- `_skip_nop_operations`, for an operation of the instance
  unfoldable pub skip_nop_operation : Tasks → String → Tasks → Tasks
  skip_nop_operation pre operation post =
      if v.is_nop operation then [] else pre ++ single (execute_operation operation) ++ post

  -- `_skip_nop_operations`, for the result of `_relationships_operations`
  unfoldable pub skip_nop_relationships : (is_reverse : Bool) → Tasks → String → Tasks → Tasks
  unfolding around_subgraph
  skip_nop_relationships is_reverse pre operation post =
      around_subgraph pre operation post
        (relationships_operations v.relationships operation is_reverse)

  -- An operation that only exists in later versions.
  unfoldable pub if_present : Tasks → String → Tasks → Tasks
  unfolding skip_nop_operation
  if_present pre operation post =
      if v.has_operation operation then skip_nop_operation pre operation post else []

  unfoldable pub host_post_start : Tasks
  unfolding one_of
  host_post_start =
      single (execute_operation "cloudify.interfaces.host.get_state")
      ++ (if v.install_method == "none"
          then []
          else if v.has_operation "cloudify.interfaces.worker_installer.install"
          then single (send_event "Installing agent")
            ++ single (execute_operation "cloudify.interfaces.worker_installer.install")
            ++ single (send_event "Agent installed")
            ++ single (send_event "Starting agent")
            ++ single (execute_operation "cloudify.interfaces.worker_installer.start")
            ++ single (send_event "Agent started")
          else single (send_event "Creating agent")
            ++ single (execute_operation "cloudify.interfaces.cloudify_agent.create")
            ++ single (send_event "Agent created")
            ++ (if one_of v.install_method ("plugin" ∷ "init_script" ∷ [])
                then single (send_event "Waiting for agent to start")
                  ++ single (execute_operation "cloudify.interfaces.cloudify_agent.start")
                  ++ single (send_event "Agent started")
                else []))
      ++ single (execute_operation "cloudify.interfaces.monitoring_agent.install")
      ++ single (execute_operation "cloudify.interfaces.monitoring_agent.start")

  unfoldable pub creation_validation : Tasks
  unfolding one_of if_present
  creation_validation =
      if one_of v.state
        ("started" ∷ "starting" ∷ "created" ∷ "creating" ∷ "configured" ∷ "configuring" ∷ [])
      then []
      else if_present (single (send_event "Validating node instance before creation"))
          "cloudify.interfaces.validation.create"
          (single (send_event "Node instance validated before creation"))

  unfoldable pub precreate : Tasks
  unfolding one_of if_present
  precreate =
      if one_of v.state
        ("started" ∷ "starting" ∷ "created" ∷ "creating" ∷ "configured" ∷ "configuring" ∷ [])
      then []
      else if_present (single (send_event "Precreating node instance"))
          "cloudify.interfaces.lifecycle.precreate" (single (send_event "Node instance precreated"))

  unfoldable pub create : Tasks
  unfolding one_of skip_nop_operation
  create =
      if one_of v.state ("started" ∷ "starting" ∷ "created" ∷ "configuring" ∷ "configured" ∷ [])
      then []
      else skip_nop_operation
          (fork_join (send_event "Creating node instance") (set_state "creating"))
          "cloudify.interfaces.lifecycle.create"
          (fork_join (send_event "Node instance created") (set_state "created"))

  unfoldable pub preconf : Tasks
  unfolding one_of skip_nop_relationships
  preconf =
      if one_of v.state ("started" ∷ "starting" ∷ "configured" ∷ [])
      then []
      else skip_nop_relationships false (single (send_event "Pre-configuring relationships"))
          "cloudify.interfaces.relationship_lifecycle.preconfigure"
          (single (send_event "Relationships pre-configured"))

  unfoldable pub configure : Tasks
  unfolding one_of skip_nop_operation
  configure =
      if one_of v.state ("started" ∷ "starting" ∷ "configured" ∷ [])
      then []
      else skip_nop_operation
          (fork_join (set_state "configuring") (send_event "Configuring node instance"))
          "cloudify.interfaces.lifecycle.configure"
          (fork_join (set_state "configured") (send_event "Node instance configured"))

  unfoldable pub postconf : Tasks
  unfolding skip_nop_relationships
  postconf =
      if v.state == "started"
      then []
      else skip_nop_relationships false (single (send_event "Post-configuring relationships"))
          "cloudify.interfaces.relationship_lifecycle.postconfigure"
          (single (send_event "Relationships post-configured"))

  unfoldable pub start : Tasks
  unfolding skip_nop_operation
  start =
      if v.state == "started"
      then []
      else skip_nop_operation
          (fork_join (set_state "starting") (send_event "Starting node instance"))
          "cloudify.interfaces.lifecycle.start" []

  unfoldable pub host_start : Tasks
  unfolding host_post_start
  host_start = if v.state == "started" then [] else if v.is_host then host_post_start else []

  unfoldable pub poststart : Tasks
  unfolding if_present
  poststart =
      if v.state == "started"
      then []
      else if_present (single (send_event "Poststarting node instance"))
          "cloudify.interfaces.lifecycle.poststart"
          (single (send_event "Node instance poststarted"))

  unfoldable pub monitoring_start : Tasks
  unfolding skip_nop_operation
  monitoring_start =
      if v.state == "started"
      then []
      else skip_nop_operation [] "cloudify.interfaces.monitoring.start" []

  unfoldable pub establish : Tasks
  unfolding skip_nop_relationships
  establish =
      if v.state == "started"
      then []
      else skip_nop_relationships false (single (send_event "Establishing relationships"))
          "cloudify.interfaces.relationship_lifecycle.establish"
          (single (send_event "Relationships established"))

  -- The tasks of `install_node_instance_subgraph`, in their sequence.
  unfoldable pub install_tasks : Tasks
  unfolding install_sequence
  install_tasks =
      install_sequence creation_validation precreate create preconf configure postconf start
        host_start poststart monitoring_start establish
