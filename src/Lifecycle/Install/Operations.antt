-- ===== src/Lifecycle/Install/Operations.antt =====
-- Which operations the installation of an instance runs, and in which order.
use cloudify_common.Lifecycle.Relationships.{
  relationships_operations, group_tasks, is_none-relationships_operations, RelationshipTask,
}
use cloudify_common.Prelude.{
  ℕ, String, ◌≡◌, refl, Bool, false, not, ◌&&◌, ◌||◌, Option, none, some, List, [], ◌∷◌, ◌++◌,
  is_empty, ltb, if◌then◌else◌, ◌==◌, string_eq, arith, Bool-cases, inl, inr, ◌∙◌, sym, is_none, ap,
}
use mathlib.Core.List.{append_assoc, append-nil}
use cloudify_common.Lifecycle.Install.{
  Action, send_event, set_state, execute_operation, relationships_subgraph, Tasks, InstanceView,
  single, or_tasks, skip_nop_relationships, around_subgraph, host_post_start, creation_validation,
  precreate, create, preconf, configure, postconf, start, host_start, poststart, monitoring_start,
  establish, any_tasks, install_tasks, install_sequence, one_of,
}

-- The operations of the instance and of its relationships among tasks, in their order.
abbrev pub operations_in : List Action → List String
operations_in [] = []
operations_in (execute_operation operation ∷ rest) = operation ∷ operations_in rest
operations_in (relationships_subgraph operation groups ∷ rest) = operation ∷ operations_in rest
operations_in (send_event text ∷ rest) = operations_in rest
operations_in (set_state state ∷ rest) = operations_in rest

abbrev pub operations_of : Tasks → List String
operations_of [] = []
operations_of (actions ∷ tasks) = operations_in actions ++ operations_of tasks

pub operations_of-append :
    (first second : Tasks)
    → operations_of (first ++ second) ≡ operations_of first ++ operations_of second
operations_of-append [] second = refl
operations_of-append (actions ∷ first) second = rw (operations_of-append first second, append_assoc)

pub operations_of-or_tasks :
    (tasks : Tasks) (text : String)
    → operations_of (or_tasks tasks (single (send_event text))) ≡ operations_of tasks
operations_of-or_tasks [] text = refl
operations_of-or_tasks (actions ∷ tasks) text = refl

abbrev concat : List Tasks → Tasks
concat [] = []
concat (tasks ∷ rest) = tasks ++ concat rest

operations_of-concat : (l : List Tasks) → any_tasks l ≡ false → operations_of (concat l) ≡ []
unfolding any_tasks
operations_of-concat [] h = refl
operations_of-concat ([] ∷ rest) h = operations_of-concat rest (ground arith)
operations_of-concat ((x ∷ tasks) ∷ rest) h = cc

operations_of-install_sequence :
    (a b c d e f g h i j k : Tasks)
    → operations_of (install_sequence a b c d e f g h i j k)
      ≡ operations_of (concat (a ∷ b ∷ c ∷ d ∷ e ∷ f ∷ g ∷ h ∷ i ∷ j ∷ k ∷ []))
unfolding install_sequence
operations_of-install_sequence a b c d e f g h i j k =
    elim (Bool-cases (any_tasks (a ∷ b ∷ c ∷ d ∷ e ∷ f ∷ g ∷ h ∷ i ∷ j ∷ k ∷ []))) [
      | inl some_tasks ↦
          rw some_tasks
            (simp (operations_of-append, operations_of-or_tasks, append_assoc, append-nil))
      | inr no_tasks ↦
          rw no_tasks
            (sym (operations_of-concat (a ∷ b ∷ c ∷ d ∷ e ∷ f ∷ g ∷ h ∷ i ∷ j ∷ k ∷ []) no_tasks))
    ]

operations_of-around_subgraph :
    (before after operation : String) (found : Option (List (List RelationshipTask)))
    → operations_of
        (around_subgraph (single (send_event before)) operation (single (send_event after)) found)
      ≡ (if not (is_none found) then operation ∷ [] else [])
unfolding around_subgraph
operations_of-around_subgraph before after operation none = refl
operations_of-around_subgraph before after operation (some groups) = refl

-- How far an instance has come: the number of its state on the way to `started`.
abbrev pub progress : String → ℕ
progress state =
    if state == "started"
    then 6
    else if state == "starting"
    then 5
    else if state == "configured"
    then 4
    else if state == "configuring"
    then 3
    else if state == "created"
    then 2
    else if state == "creating"
    then 1
    else 0

-- The phases of an installation: the progress that ends a phase, an operation, and whether there is
-- something to do for it.
module _ (v : InstanceView) where
  abbrev pub runs : String → Bool
  runs operation = not (v.is_nop operation)

  abbrev pub runs_if_present : String → Bool
  runs_if_present operation = v.has_operation operation && runs operation

  -- Some end of some relationship has something to do.
  abbrev pub has_relationship_tasks : String → Bool
  has_relationship_tasks operation = not (is_empty (group_tasks operation v.relationships))

  pub operations_of-skip_nop_relationships :
      (is_reverse : Bool) (before after operation : String)
      → operations_of (
          skip_nop_relationships v is_reverse
            (single (send_event before))
            operation
            (single (send_event after)))
        ≡ (if has_relationship_tasks operation then operation ∷ [] else [])
  unfolding skip_nop_relationships
  operations_of-skip_nop_relationships is_reverse before after operation =
      operations_of-around_subgraph before after operation
        (relationships_operations v.relationships operation is_reverse)
      ∙ ap (λ (b : Bool). if not b then operation ∷ [] else [])
          (is_none-relationships_operations v.relationships operation is_reverse)

  -- What is run on a host once it is started: its state is asked for, an agent is installed by its
  -- method, and its monitoring is set up.
  abbrev pub agent_operations : List String
  agent_operations =
      if v.install_method == "none"
      then []
      else if v.has_operation "cloudify.interfaces.worker_installer.install"
      then "cloudify.interfaces.worker_installer.install"
        ∷ "cloudify.interfaces.worker_installer.start" ∷ []
      else if v.install_method == "plugin" || v.install_method == "init_script"
      then "cloudify.interfaces.cloudify_agent.create" ∷ "cloudify.interfaces.cloudify_agent.start"
        ∷ []
      else "cloudify.interfaces.cloudify_agent.create" ∷ []

  abbrev pub host_operations : List String
  host_operations =
      "cloudify.interfaces.host.get_state"
      ∷ (agent_operations
          ++ ("cloudify.interfaces.monitoring_agent.install"
              ∷ "cloudify.interfaces.monitoring_agent.start" ∷ []))

  host_post_start_lem : operations_of (host_post_start v) ≡ host_operations
  unfolding host_post_start one_of
  host_post_start_lem = ground arith

  -- The operations of a phase, unless the instance has come as far as its end.
  abbrev until : ℕ → Bool → List String → List String
  until end there operations = if ltb (progress v.state) end && there then operations else []

  creation_validation_lem :
      operations_of (creation_validation v)
      ≡ until 1
          (runs_if_present "cloudify.interfaces.validation.create")
          ("cloudify.interfaces.validation.create" ∷ [])
  unfolding creation_validation
  creation_validation_lem = ground arith

  precreate_lem :
      operations_of (precreate v)
      ≡ until 1
          (runs_if_present "cloudify.interfaces.lifecycle.precreate")
          ("cloudify.interfaces.lifecycle.precreate" ∷ [])
  unfolding precreate
  precreate_lem = ground arith

  create_lem :
      operations_of (create v)
      ≡ until 2
          (runs "cloudify.interfaces.lifecycle.create")
          ("cloudify.interfaces.lifecycle.create" ∷ [])
  unfolding create
  create_lem = ground arith

  preconf_lem :
      operations_of (preconf v)
      ≡ until 4
          (has_relationship_tasks "cloudify.interfaces.relationship_lifecycle.preconfigure")
          ("cloudify.interfaces.relationship_lifecycle.preconfigure" ∷ [])
  unfolding preconf
  preconf_lem =
      let tasks =
        operations_of-skip_nop_relationships false "Pre-configuring relationships"
          "Relationships pre-configured"
          "cloudify.interfaces.relationship_lifecycle.preconfigure" in
      ground (arith, tasks)

  configure_lem :
      operations_of (configure v)
      ≡ until 4
          (runs "cloudify.interfaces.lifecycle.configure")
          ("cloudify.interfaces.lifecycle.configure" ∷ [])
  unfolding configure
  configure_lem = ground arith

  postconf_lem :
      operations_of (postconf v)
      ≡ until 6
          (has_relationship_tasks "cloudify.interfaces.relationship_lifecycle.postconfigure")
          ("cloudify.interfaces.relationship_lifecycle.postconfigure" ∷ [])
  unfolding postconf
  postconf_lem =
      let tasks =
        operations_of-skip_nop_relationships false "Post-configuring relationships"
          "Relationships post-configured"
          "cloudify.interfaces.relationship_lifecycle.postconfigure" in
      ground (arith, tasks)

  start_lem :
      operations_of (start v)
      ≡ until 6
          (runs "cloudify.interfaces.lifecycle.start")
          ("cloudify.interfaces.lifecycle.start" ∷ [])
  unfolding start
  start_lem = ground arith

  host_start_lem : operations_of (host_start v) ≡ until 6 (v.is_host) host_operations
  unfolding host_start
  host_start_lem = let host = host_post_start_lem in ground arith

  poststart_lem :
      operations_of (poststart v)
      ≡ until 6
          (runs_if_present "cloudify.interfaces.lifecycle.poststart")
          ("cloudify.interfaces.lifecycle.poststart" ∷ [])
  unfolding poststart
  poststart_lem = ground arith

  monitoring_start_lem :
      operations_of (monitoring_start v)
      ≡ until 6
          (runs "cloudify.interfaces.monitoring.start")
          ("cloudify.interfaces.monitoring.start" ∷ [])
  unfolding monitoring_start
  monitoring_start_lem = ground arith

  establish_lem :
      operations_of (establish v)
      ≡ until 6
          (has_relationship_tasks "cloudify.interfaces.relationship_lifecycle.establish")
          ("cloudify.interfaces.relationship_lifecycle.establish" ∷ [])
  unfolding establish
  establish_lem =
      let tasks =
        operations_of-skip_nop_relationships false "Establishing relationships"
          "Relationships established" "cloudify.interfaces.relationship_lifecycle.establish" in
      ground (arith, tasks)

  -- What is left to be run: the operations of each phase whose mark the instance has not reached.
  abbrev pub remaining_operations : List String
  remaining_operations =
      until 1 (runs_if_present "cloudify.interfaces.validation.create")
        ("cloudify.interfaces.validation.create" ∷ [])
      ++ (until 1 (runs_if_present "cloudify.interfaces.lifecycle.precreate")
            ("cloudify.interfaces.lifecycle.precreate" ∷ [])
          ++ (until 2 (runs "cloudify.interfaces.lifecycle.create")
                ("cloudify.interfaces.lifecycle.create" ∷ [])
              ++ (until 4
                    (has_relationship_tasks
                      "cloudify.interfaces.relationship_lifecycle.preconfigure")
                    ("cloudify.interfaces.relationship_lifecycle.preconfigure" ∷ [])
                  ++ (until 4 (runs "cloudify.interfaces.lifecycle.configure")
                        ("cloudify.interfaces.lifecycle.configure" ∷ [])
                      ++ (until 6
                            (has_relationship_tasks
                              "cloudify.interfaces.relationship_lifecycle.postconfigure")
                            ("cloudify.interfaces.relationship_lifecycle.postconfigure" ∷ [])
                          ++ (until 6 (runs "cloudify.interfaces.lifecycle.start")
                                ("cloudify.interfaces.lifecycle.start" ∷ [])
                              ++ (until 6 (v.is_host) host_operations
                                  ++ (until 6
                                        (runs_if_present "cloudify.interfaces.lifecycle.poststart")
                                        ("cloudify.interfaces.lifecycle.poststart" ∷ [])
                                      ++ (until 6 (runs "cloudify.interfaces.monitoring.start")
                                            ("cloudify.interfaces.monitoring.start" ∷ [])
                                          ++ (until 6
                                              (has_relationship_tasks
                                                "cloudify.interfaces.relationship_lifecycle.establish")
                                              ("cloudify.interfaces.relationship_lifecycle.establish"
                                                ∷ [])))))))))))

  abbrev phases : List Tasks
  phases =
      creation_validation v
      ∷ precreate v
      ∷ create v
      ∷ preconf v
      ∷ configure v
      ∷ postconf v
      ∷ start v
      ∷ host_start v
      ∷ poststart v
      ∷ monitoring_start v
      ∷ establish v
      ∷ []

  operations_of-phases : operations_of (concat phases) ≡ remaining_operations
  operations_of-phases = simp (
    operations_of-append, append-nil, creation_validation_lem, precreate_lem, create_lem,
    preconf_lem, configure_lem, postconf_lem, start_lem, host_start_lem, poststart_lem,
    monitoring_start_lem, establish_lem,
  )

  pub operations_of-install_tasks : operations_of (install_tasks v) ≡ remaining_operations
  unfolding install_tasks
  operations_of-install_tasks =
      operations_of-install_sequence (creation_validation v) (precreate v) (create v) (preconf v)
        (configure v) (postconf v) (start v) (host_start v) (poststart v) (monitoring_start v)
        (establish v)
      ∙ operations_of-phases
