-- ===== src/Lifecycle/States.antt =====
-- The state of an instance when the tasks of cloudify/plugins/lifecycle.py that install or uninstall
-- it have all run.
use cloudify_common.Prelude.{
  string_eq, ◌==◌, String, ◌≡◌, refl, List, [], ◌∷◌, ◌++◌, inl, inr, Bool-cases, eq_iff, ◌==◌,
  false,
}
use cloudify_common.Lifecycle.Install.{
  creation_validation, precreate, create, preconf, configure, postconf, start, host_start,
  poststart, monitoring_start, establish, Action, Tasks, send_event, set_state, execute_operation,
  relationships_subgraph, InstanceView, one_of, single, install_tasks, install_sequence, any_tasks,
  or_tasks,
}
use cloudify_common.Lifecycle.Uninstall.{
  is_stopped, stop_message, deletion_validation, monitoring_stop, prestop, host_stop, stop,
  stopped_set_state, is_deleted, unlink, delete, postdelete, finish_message, uninstall_tasks,
}

-- The state that actions leave, from a state.
abbrev pub state_after : String → List Action → String
state_after state [] = state
state_after state (set_state new_state ∷ rest) = state_after new_state rest
state_after state (send_event text ∷ rest) = state_after state rest
state_after state (execute_operation operation ∷ rest) = state_after state rest
state_after state (relationships_subgraph operation groups ∷ rest) = state_after state rest

abbrev pub final_state : String → Tasks → String
final_state state [] = state
final_state state (actions ∷ tasks) = final_state (state_after state actions) tasks

final_state-append :
    (state : String) (first second : Tasks)
    → final_state state (first ++ second) ≡ final_state (final_state state first) second
final_state-append state [] second = refl
final_state-append state (actions ∷ first) second =
    final_state-append (state_after state actions) first second

final_state-or_tasks :
    (state : String) (tasks : Tasks) (text : String)
    → final_state state (or_tasks tasks (single (send_event text))) ≡ final_state state tasks
final_state-or_tasks state [] text = refl
final_state-or_tasks state (actions ∷ tasks) text = refl

final_state-install_sequence :
    (state : String) (a b c d e f g h i j k : Tasks)
    → final_state state (install_sequence a b c d e f g h i j k) ≡ "started"
unfolding install_sequence
final_state-install_sequence state a b c d e f g h i j k =
    elim (Bool-cases (any_tasks (a ∷ b ∷ c ∷ d ∷ e ∷ f ∷ g ∷ h ∷ i ∷ j ∷ k ∷ []))) [
      | inl some_tasks ↦ rw some_tasks (simp (final_state-append))
      | inr no_tasks ↦ rw no_tasks refl
    ]

module _ (v : InstanceView) (deleted : v.state ≡ "deleted") where
  stop_message_lem : stop_message v ≡ []
  unfolding stop_message is_stopped one_of
  stop_message_lem = rw deleted refl

  deletion_validation_lem : deletion_validation v ≡ []
  unfolding deletion_validation is_stopped one_of
  deletion_validation_lem = rw deleted refl

  monitoring_stop_lem : monitoring_stop v ≡ []
  unfolding monitoring_stop is_stopped one_of
  monitoring_stop_lem = rw deleted refl

  prestop_lem : prestop v ≡ []
  unfolding prestop is_stopped one_of
  prestop_lem = rw deleted refl

  host_stop_lem : host_stop v ≡ []
  unfolding host_stop is_stopped one_of
  host_stop_lem = rw deleted refl

  stop_lem : (state : String) → final_state state (stop v) ≡ state
  unfolding stop is_stopped one_of
  stop_lem state = rw deleted refl

  stopped_set_state_lem : stopped_set_state v ≡ []
  unfolding stopped_set_state one_of
  stopped_set_state_lem = rw deleted refl

  unlink_lem : unlink v ≡ []
  unfolding unlink is_deleted one_of
  unlink_lem = rw deleted refl

  delete_lem : (state : String) → final_state state (delete v) ≡ state
  unfolding delete is_deleted one_of
  delete_lem state = rw deleted refl

  postdelete_lem : postdelete v ≡ []
  unfolding postdelete is_deleted one_of
  postdelete_lem = rw deleted refl

  finish_message_lem : finish_message v ≡ []
  unfolding finish_message
  finish_message_lem = rw deleted refl

  final_state-deleted : final_state v.state (uninstall_tasks v) ≡ "deleted"
  unfolding uninstall_tasks
  final_state-deleted = simp (
    final_state-append, final_state-or_tasks, stop_message_lem, deletion_validation_lem,
    monitoring_stop_lem, prestop_lem, host_stop_lem, stop_lem, stopped_set_state_lem, unlink_lem,
    delete_lem, postdelete_lem, finish_message_lem, deleted,
  )

finish_message-final_state :
    (v : InstanceView) (state : String)
    → (v.state == "deleted") ≡ false
    → final_state state (finish_message v) ≡ "deleted"
unfolding finish_message
finish_message-final_state v state h = rw h refl

-- Whatever the state of an instance, its installation ends in `started` and its uninstallation in
-- `deleted`.
pub final_state-lifecycle :
    (v : InstanceView)
    → (final_state v.state (install_tasks v) ≡ "started")
      × (final_state v.state (uninstall_tasks v) ≡ "deleted")
unfolding install_tasks uninstall_tasks
final_state-lifecycle v = (
  final_state-install_sequence v.state (creation_validation v) (precreate v) (create v) (preconf v)
      (configure v) (postconf v) (start v) (host_start v) (poststart v) (monitoring_start v)
      (establish v),
  elim (Bool-cases (v.state == "deleted")) [
    | inl gone ↦ final_state-deleted v ((eq_iff v.state "deleted").0 gone)
    | inr is_left ↦ simp (final_state-append, finish_message-final_state, is_left)
  ],
)
