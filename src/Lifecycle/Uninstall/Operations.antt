-- ===== src/Lifecycle/Uninstall/Operations.antt =====
-- Which operations the uninstallation of an instance runs, and in which order.
use cloudify_common.Prelude.{
  ◌||◌, ◌==◌, string_eq, String, ◌≡◌, Bool, not, ◌&&◌, List, [], ◌∷◌, ◌++◌, if◌then◌else◌, arith,
  true,
}
use mathlib.Core.List.{append-nil}
use cloudify_common.Lifecycle.Install.{one_of, InstanceView}
use cloudify_common.Lifecycle.Install.Operations.{
  operations_of, operations_of-append, operations_of-or_tasks, operations_of-skip_nop_relationships,
  has_relationship_tasks, runs, runs_if_present,
}
use cloudify_common.Lifecycle.Uninstall.{
  host_pre_stop, is_stopped, stop_message, deletion_validation, monitoring_stop, prestop, host_stop,
  stop, stopped_set_state, is_deleted, unlink, delete, postdelete, finish_message, uninstall_tasks,
}

module _ (v : InstanceView) where
  -- In these states there is nothing to stop.
  abbrev pub needs_no_stop : Bool
  needs_no_stop =
      v.state == "uninitialized"
      || v.state == "configured"
      || v.state == "stopped"
      || v.state == "deleting"
      || v.state == "deleted"

  -- In these states there is nothing to delete.
  abbrev pub needs_no_deletion : Bool
  needs_no_deletion = v.state == "uninitialized" || v.state == "deleted"

  is_stopped_lem : is_stopped v ≡ needs_no_stop
  unfolding is_stopped one_of
  is_stopped_lem = ground arith

  is_deleted_lem : is_deleted v ≡ needs_no_deletion
  unfolding is_deleted one_of
  is_deleted_lem = ground arith

  -- What is run on a host before it is stopped: the monitoring is taken down, and the agent by its
  -- method.
  abbrev pub agent_removal : List String
  agent_removal =
      if v.install_method == "none"
      then []
      else if v.install_method == "init_script"
          || v.install_method == "provided"
          || v.install_method == "plugin"
      then "cloudify.interfaces.cloudify_agent.stop_amqp"
        ∷ "cloudify.interfaces.cloudify_agent.delete" ∷ []
      else if v.has_operation "cloudify.interfaces.worker_installer.stop"
      then "cloudify.interfaces.worker_installer.stop"
        ∷ "cloudify.interfaces.worker_installer.uninstall" ∷ []
      else "cloudify.interfaces.cloudify_agent.stop" ∷ "cloudify.interfaces.cloudify_agent.delete"
        ∷ []

  abbrev pub host_removal : List String
  host_removal =
      "cloudify.interfaces.monitoring_agent.stop" ∷ "cloudify.interfaces.monitoring_agent.uninstall"
      ∷ agent_removal

  host_pre_stop_lem : operations_of (host_pre_stop v) ≡ host_removal
  unfolding host_pre_stop one_of
  host_pre_stop_lem = ground arith

  -- The operations of a phase, unless the instance is past it.
  abbrev pub unless : Bool → Bool → List String → List String
  unless past there operations = if not past && there then operations else []

  stop_message_lem : operations_of (stop_message v) ≡ []
  unfolding stop_message
  stop_message_lem = ground arith

  deletion_validation_lem :
      operations_of (deletion_validation v)
      ≡ unless needs_no_stop
          (runs_if_present v "cloudify.interfaces.validation.delete")
          ("cloudify.interfaces.validation.delete" ∷ [])
  unfolding deletion_validation
  deletion_validation_lem = let past = is_stopped_lem in ground arith

  monitoring_stop_lem :
      operations_of (monitoring_stop v)
      ≡ unless needs_no_stop
          (runs v "cloudify.interfaces.monitoring.stop")
          ("cloudify.interfaces.monitoring.stop" ∷ [])
  unfolding monitoring_stop
  monitoring_stop_lem = let past = is_stopped_lem in ground arith

  prestop_lem :
      operations_of (prestop v)
      ≡ unless needs_no_stop
          (runs_if_present v "cloudify.interfaces.lifecycle.prestop")
          ("cloudify.interfaces.lifecycle.prestop" ∷ [])
  unfolding prestop
  prestop_lem = let past = is_stopped_lem in ground arith

  host_stop_lem : operations_of (host_stop v) ≡ unless needs_no_stop v.is_host host_removal
  unfolding host_stop
  host_stop_lem = let past = is_stopped_lem in let host = host_pre_stop_lem in ground arith

  stop_lem :
      operations_of (stop v)
      ≡ unless needs_no_stop
          (runs v "cloudify.interfaces.lifecycle.stop")
          ("cloudify.interfaces.lifecycle.stop" ∷ [])
  unfolding stop
  stop_lem = let past = is_stopped_lem in ground arith

  stopped_set_state_lem : operations_of (stopped_set_state v) ≡ []
  unfolding stopped_set_state
  stopped_set_state_lem = ground arith

  unlink_lem :
      operations_of (unlink v)
      ≡ unless needs_no_deletion
          (has_relationship_tasks v "cloudify.interfaces.relationship_lifecycle.unlink")
          ("cloudify.interfaces.relationship_lifecycle.unlink" ∷ [])
  unfolding unlink
  unlink_lem =
      let tasks =
        operations_of-skip_nop_relationships v true "Unlinking relationships"
          "Relationships unlinked" "cloudify.interfaces.relationship_lifecycle.unlink" in
      let past = is_deleted_lem in ground (arith, tasks)

  delete_lem :
      operations_of (delete v)
      ≡ unless needs_no_deletion
          (runs v "cloudify.interfaces.lifecycle.delete")
          ("cloudify.interfaces.lifecycle.delete" ∷ [])
  unfolding delete
  delete_lem = let past = is_deleted_lem in ground arith

  postdelete_lem :
      operations_of (postdelete v)
      ≡ unless needs_no_deletion
          (runs_if_present v "cloudify.interfaces.lifecycle.postdelete")
          ("cloudify.interfaces.lifecycle.postdelete" ∷ [])
  unfolding postdelete
  postdelete_lem = let past = is_deleted_lem in ground arith

  finish_message_lem : operations_of (finish_message v) ≡ []
  unfolding finish_message
  finish_message_lem = ground arith

  -- What is left to be run: the operations that stop the instance, unless it is past that, and the
  -- operations that delete it, unless it is past that, each where it is there and does something.
  abbrev pub uninstall_operations : List String
  uninstall_operations =
      unless needs_no_stop (runs_if_present v "cloudify.interfaces.validation.delete")
        ("cloudify.interfaces.validation.delete" ∷ [])
      ++ (unless needs_no_stop (runs v "cloudify.interfaces.monitoring.stop")
            ("cloudify.interfaces.monitoring.stop" ∷ [])
          ++ (unless needs_no_stop (runs_if_present v "cloudify.interfaces.lifecycle.prestop")
                ("cloudify.interfaces.lifecycle.prestop" ∷ [])
              ++ (unless needs_no_stop v.is_host host_removal
                  ++ (unless needs_no_stop (runs v "cloudify.interfaces.lifecycle.stop")
                        ("cloudify.interfaces.lifecycle.stop" ∷ [])
                      ++ (unless needs_no_deletion
                            (has_relationship_tasks v
                              "cloudify.interfaces.relationship_lifecycle.unlink")
                            ("cloudify.interfaces.relationship_lifecycle.unlink" ∷ [])
                          ++ (unless needs_no_deletion
                                (runs v "cloudify.interfaces.lifecycle.delete")
                                ("cloudify.interfaces.lifecycle.delete" ∷ [])
                              ++ unless needs_no_deletion
                                  (runs_if_present v "cloudify.interfaces.lifecycle.postdelete")
                                  ("cloudify.interfaces.lifecycle.postdelete" ∷ [])))))))

  pub operations_of-uninstall_tasks : operations_of (uninstall_tasks v) ≡ uninstall_operations
  unfolding uninstall_tasks
  operations_of-uninstall_tasks = simp (
    operations_of-append, operations_of-or_tasks, append-nil, stop_message_lem,
    deletion_validation_lem, monitoring_stop_lem, prestop_lem, host_stop_lem, stop_lem,
    stopped_set_state_lem, unlink_lem, delete_lem, postdelete_lem, finish_message_lem,
  )
