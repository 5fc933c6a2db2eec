-- ===== src/Lifecycle/Uninstall.antt =====
-- `uninstall_node_instance_subgraph` of cloudify/plugins/lifecycle.py: the tasks that stop and
-- delete one node instance, by its state.
pub mod Operations
use Prim.Native.String.{◌++◌ as append}
use cloudify_common.Prelude.{
  String, ◌≡◌, ◌≢◌, refl, Bool, true, false, not, ◌&&◌, ◌||◌, List, [], ◌∷◌, ◌++◌, is_empty,
  if◌then◌else◌, ◌==◌, string_eq, arith, eq_iff, Bool-cases, inl, inr, ◌∙◌, sym, ap,
}
use mathlib.Core.List.{append_assoc, append-nil}
use cloudify_common.Lifecycle.Install.{
  Action, send_event, set_state, execute_operation, relationships_subgraph, Tasks, InstanceView,
  one_of, single, fork_join, or_tasks, skip_nop_operation, skip_nop_relationships, if_present,
}

module _ (v : InstanceView) where
  -- `_host_pre_stop`
  unfoldable pub host_pre_stop : Tasks
  unfolding one_of
  host_pre_stop =
      single (execute_operation "cloudify.interfaces.monitoring_agent.stop")
      ++ single (execute_operation "cloudify.interfaces.monitoring_agent.uninstall")
      ++ (if v.install_method == "none"
          then []
          else single (send_event "Stopping agent")
            ++ (if one_of v.install_method ("init_script" ∷ "provided" ∷ "plugin" ∷ [])
                then single (execute_operation "cloudify.interfaces.cloudify_agent.stop_amqp")
                  ++ single (send_event "Deleting agent")
                  ++ single (execute_operation "cloudify.interfaces.cloudify_agent.delete")
                else if v.has_operation "cloudify.interfaces.worker_installer.stop"
                then single (execute_operation "cloudify.interfaces.worker_installer.stop")
                  ++ single (send_event "Deleting agent")
                  ++ single (execute_operation "cloudify.interfaces.worker_installer.uninstall")
                else single (execute_operation "cloudify.interfaces.cloudify_agent.stop")
                  ++ single (send_event "Deleting agent")
                  ++ single (execute_operation "cloudify.interfaces.cloudify_agent.delete"))
            ++ single (send_event "Agent deleted"))

  -- The first test of the state.
  unfoldable pub is_stopped : Bool
  unfolding one_of
  is_stopped =
      one_of v.state ("stopped" ∷ "deleting" ∷ "deleted" ∷ "uninitialized" ∷ "configured" ∷ [])

  unfoldable pub stop_message : Tasks
  unfolding is_stopped
  stop_message =
      if is_stopped
      then []
      else fork_join (set_state "stopping") (send_event "Stopping node instance")

  unfoldable pub deletion_validation : Tasks
  unfolding is_stopped if_present
  deletion_validation =
      if is_stopped
      then []
      else if_present v (single (send_event "Validating node instance before deletion"))
          "cloudify.interfaces.validation.delete"
          (single (send_event "Node instance validated before deletion"))

  unfoldable pub monitoring_stop : Tasks
  unfolding is_stopped skip_nop_operation
  monitoring_stop =
      if is_stopped then [] else skip_nop_operation v [] "cloudify.interfaces.monitoring.stop" []

  unfoldable pub prestop : Tasks
  unfolding is_stopped if_present
  prestop =
      if is_stopped
      then []
      else if_present v (single (send_event "Prestopping node instance"))
          "cloudify.interfaces.lifecycle.prestop" (single (send_event "Node instance prestopped"))

  unfoldable pub host_stop : Tasks
  unfolding is_stopped host_pre_stop
  host_stop = if is_stopped then [] else if v.is_host then host_pre_stop else []

  unfoldable pub stop : Tasks
  unfolding is_stopped skip_nop_operation
  stop =
      if is_stopped
      then single (send_event (append "Stop: instance already " v.state))
      else skip_nop_operation v [] "cloudify.interfaces.lifecycle.stop"
          (single (send_event "Stopped node instance"))

  unfoldable pub stopped_set_state : Tasks
  unfolding one_of
  stopped_set_state =
      if one_of v.state ("stopped" ∷ "deleting" ∷ "deleted" ∷ [])
      then []
      else single (set_state "stopped")

  unfoldable pub is_deleted : Bool
  unfolding one_of
  is_deleted = one_of v.state ("deleted" ∷ "uninitialized" ∷ [])

  unfoldable pub unlink : Tasks
  unfolding is_deleted skip_nop_relationships
  unlink =
      if is_deleted
      then []
      else skip_nop_relationships v true (single (send_event "Unlinking relationships"))
          "cloudify.interfaces.relationship_lifecycle.unlink"
          (single (send_event "Relationships unlinked"))

  unfoldable pub delete : Tasks
  unfolding is_deleted skip_nop_operation
  delete =
      if is_deleted
      then single (send_event (append "Delete: instance already " v.state))
      else skip_nop_operation v
          (fork_join (set_state "deleting") (send_event "Deleting node instance"))
          "cloudify.interfaces.lifecycle.delete" []

  unfoldable pub postdelete : Tasks
  unfolding is_deleted if_present
  postdelete =
      if is_deleted
      then []
      else if_present v (single (send_event "Postdeleting node instance"))
          "cloudify.interfaces.lifecycle.postdelete"
          (single (send_event "Node instance postdeleted"))

  unfoldable pub finish_message : Tasks
  finish_message =
      if v.state == "deleted"
      then []
      else fork_join (set_state "deleted") (send_event "Deleted node instance")

  -- The tasks, in their sequence.
  unfoldable pub uninstall_tasks : Tasks
  uninstall_tasks =
      stop_message
      ++ (or_tasks deletion_validation
            (single (send_event "Validating node instance after deletion: nothing to do"))
          ++ (monitoring_stop
              ++ (prestop
                  ++ (host_stop
                      ++ (or_tasks stop (single (send_event "Stopped node instance: nothing to do"))
                          ++ (stopped_set_state
                              ++ (unlink
                                  ++ (or_tasks delete (
                                        single (send_event "Deleting node instance: nothing to do"))
                                      ++ (postdelete ++ finish_message)))))))))
