-- ===== src/Functions/Resolution.antt =====
-- How `get_attribute` of dsl_parser/functions.py finds the instance of a node that it is about:
-- by a relationship of the asking instance, or by the smallest scaling group that they share. What
-- the handler answers is a parameter, also what it answers to an instance id that is None. Fuel bounds how deep instances are contained in one another.
pub mod Unique
mod Examples
use cloudify_common.Prelude.{
  ℕ, zero, suc, String, Bool, true, false, ◌&&◌, ◌||◌, Option, none, some, List, [], ◌∷◌, ◌++◌, map,
  if◌then◌else◌, ◌==◌, string_eq, Result, ok, raise, ◌>>=◌,
}

pub record InstanceRelationship : Type 0 where
  pub target_name : String
  pub target_id : String

pub record ScalingGroup : Type 0 where
  pub name : String
  pub id : String

pub record StoredInstance : Type 0 where
  pub id : String
  pub node_id : String
  pub relationships : List InstanceRelationship
  pub scaling_groups : List ScalingGroup

pub record NodeTemplateRelationship : Type 0 where
  pub target_id : String
  pub type_hierarchy : List String

pub record StoredNode : Type 0 where
  pub relationships : List NodeTemplateRelationship

-- The request context: who asks.
pub record RequestContext : Type 0 where
  pub self : Option String
  pub source : Option String
  pub target : Option String

pub data ResolutionError (StorageError : Type 0) : Type 0 where
  storage_error : StorageError → ResolutionError StorageError
  -- FunctionEvaluationError
  no_instances : String → ResolutionError StorageError
  ambiguous : String → ResolutionError StorageError
  -- IndexError, and the RuntimeError of an illegal state
  no_target : String → ResolutionError StorageError
  illegal_state : ResolutionError StorageError
  too_deep : ResolutionError StorageError

-- `x in [...]`, for strings
unfoldable pub is_among : String → List String → Bool
is_among x [] = false
is_among x (y ∷ ys) = y == x || is_among x ys

unfoldable pub group_names : List ScalingGroup → List String
group_names [] = []
group_names (group ∷ groups) = group.name ∷ group_names groups

unfoldable pub group_id : String → List ScalingGroup → Option String
group_id group_name [] = none
group_id group_name (group ∷ groups) =
    if group.name == group_name then some group.id else group_id group_name groups

unfoldable pub first_target : String → List InstanceRelationship → Option String
first_target target_name [] = none
first_target target_name (r ∷ rs) =
    if r.target_name == target_name then some r.target_id else first_target target_name rs

-- The first of `a` that is in `b`.
unfoldable pub first_shared : List String → List String → Option String
unfolding is_among
first_shared [] b = none
first_shared (group ∷ a) b = if is_among group b then some group else first_shared a b

-- The name that the first relationship of containment points at.
unfoldable pub container_name : List NodeTemplateRelationship → Option String
unfolding is_among
container_name [] = none
container_name (r ∷ rs) =
    if is_among "cloudify.relationships.contained_in" r.type_hierarchy
    then some r.target_id
    else container_name rs

-- The set of the targets by a name.
unfoldable pub target_ids : String → List InstanceRelationship → List String
unfolding is_among
target_ids node_name [] = []
target_ids node_name (r ∷ rs) =
    let rest = target_ids node_name rs in
    if (r.target_name == node_name)
    then (if is_among r.target_id rest then rest else r.target_id ∷ rest)
    else rest

unfoldable pub instance_by_id : String → List StoredInstance → Option StoredInstance
instance_by_id id [] = none
instance_by_id id (node_instance ∷ rest) =
    if node_instance.id == id then some node_instance else instance_by_id id rest

unfoldable pub only_one : List StoredInstance → Option StoredInstance
only_one [] = none
only_one (node_instance ∷ []) = some node_instance
only_one (node_instance ∷ other ∷ rest) = none

module _ {StorageError : Type 0} (get_node : String → Result StorageError StoredNode)
    (get_node_instance : Option String → Result StorageError StoredInstance)
    (get_node_instances : String → Result StorageError (List StoredInstance)) where
  abbrev Resolved : Type 0 → Type 0
  Resolved A = Result (ResolutionError StorageError) A

  abbrev pub from_storage : (A : Type 0) → Result StorageError A → Resolved A
  from_storage A (ok a) = ok a
  from_storage A (raise error) = raise (storage_error error)

  unfoldable pub parent_instance : StoredInstance → Resolved (Option StoredInstance)
  unfolding container_name first_target
  parent_instance node_instance = do
    node ← from_storage StoredNode (get_node node_instance.node_id)
    (elim (container_name node.relationships) [
      | none ↦ ok none
      | some target_name ↦ elim (first_target target_name node_instance.relationships) [
        | none ↦ raise (no_target target_name)
        | some target_id ↦ do
          parent ← from_storage StoredInstance (get_node_instance (some target_id))
          ok (some parent)
      ]
    ])

  unfoldable pub containing_groups : ℕ → StoredInstance → Resolved (List String)
  unfolding parent_instance group_names
  containing_groups zero node_instance = raise too_deep
  containing_groups (suc fuel) node_instance = do
    parent ← parent_instance node_instance
    (elim parent [
      | none ↦ ok (group_names node_instance.scaling_groups)
      | some container ↦ do
        groups ← containing_groups fuel container
        ok (group_names node_instance.scaling_groups ++ groups)
    ])

  unfoldable pub minimal_shared_group :
      ℕ → StoredInstance → StoredInstance → Resolved (Option String)
  unfolding containing_groups first_shared
  minimal_shared_group fuel a b = do
    a_groups ← containing_groups fuel a
    b_groups ← containing_groups fuel b
    ok (first_shared a_groups b_groups)

  unfoldable pub group_instance : ℕ → StoredInstance → String → Resolved String
  unfolding parent_instance group_id
  group_instance zero node_instance group_name = raise too_deep
  group_instance (suc fuel) node_instance group_name =
      elim (group_id group_name node_instance.scaling_groups) [
        | some id ↦ ok id
        | none ↦ do
          parent ← parent_instance node_instance
          (elim parent [
            | none ↦ raise illegal_state
            | some container ↦ group_instance fuel container group_name
          ])
      ]

  -- The instances that are in one instance of the group.
  unfoldable pub instances_in :
      ℕ → String → String → List StoredInstance → Resolved (List StoredInstance)
  unfolding group_instance
  instances_in fuel group_name id [] = ok []
  instances_in fuel group_name id (node_instance ∷ rest) = do
    own ← group_instance fuel node_instance group_name
    found ← instances_in fuel group_name id rest
    ok (if own == id then node_instance ∷ found else found)

  unfoldable pub resolve_in_group :
      ℕ → StoredInstance → List StoredInstance → Option String → Resolved (Option StoredInstance)
  unfolding group_instance instances_in only_one
  resolve_in_group fuel context_instance node_instances none = ok none
  resolve_in_group fuel context_instance node_instances (some group) = do
    id ← group_instance fuel context_instance group
    found ← instances_in fuel group id node_instances
    ok (only_one found)

  -- `_resolve_node_instance`, for the instances of a node, which are `first ∷ rest`
  unfoldable pub resolve_node_instance :
      ℕ → StoredInstance → List StoredInstance → Option String → Resolved (Option StoredInstance)
  unfolding minimal_shared_group resolve_in_group
  resolve_node_instance fuel first rest context_id = do
    context_instance ← from_storage StoredInstance (get_node_instance context_id)
    shared ← minimal_shared_group fuel context_instance first
    resolve_in_group fuel context_instance (first ∷ rest) shared

  unfoldable pub or_by_target :
      ℕ
      → Option String
      → StoredInstance
      → List StoredInstance
      → Option StoredInstance
      → Resolved (Option StoredInstance)
  unfolding resolve_node_instance
  or_by_target fuel target first rest (some node_instance) = ok (some node_instance)
  or_by_target fuel target first rest none = resolve_node_instance fuel first rest target

  unfoldable pub by_self_or_source :
      ℕ
      → (self source target : Option String) → StoredInstance
      → List StoredInstance
      → Resolved (Option StoredInstance)
  unfolding resolve_node_instance or_by_target
  by_self_or_source fuel (some self) source target first rest =
      resolve_node_instance fuel first rest (some self)
  by_self_or_source fuel none none target first rest = ok none
  by_self_or_source fuel none (some source) target first rest = do
    found ← resolve_node_instance fuel first rest (some source)
    or_by_target fuel target first rest found

  -- `_try_resolve_node_instance_by_scaling_group`
  unfoldable pub resolve_by_scaling_group :
      ℕ → RequestContext → StoredInstance → List StoredInstance → Resolved (Option StoredInstance)
  unfolding by_self_or_source
  resolve_by_scaling_group fuel context first rest =
      by_self_or_source fuel context.self context.source context.target first rest

  unfoldable pub instance_of_targets :
      List String → List StoredInstance → Resolved (Option StoredInstance)
  unfolding instance_by_id
  instance_of_targets [] node_instances = ok none
  instance_of_targets (target_id ∷ []) node_instances =
      elim (instance_by_id target_id node_instances) [
        | none ↦ raise illegal_state
        | some node_instance ↦ ok (some node_instance)
      ]
  instance_of_targets (target_id ∷ other ∷ rest) node_instances = ok none

  unfoldable pub related_instance :
      Option String → String → List StoredInstance → Resolved (Option StoredInstance)
  unfolding target_ids instance_of_targets
  related_instance none node_name node_instances = ok none
  related_instance (some self) node_name node_instances = do
    self_instance ← from_storage StoredInstance (get_node_instance (some self))
    instance_of_targets (target_ids node_name self_instance.relationships) node_instances

  -- `_try_resolve_node_instance_by_relationship`
  unfoldable pub resolve_by_relationship :
      RequestContext → String → List StoredInstance → Resolved (Option StoredInstance)
  unfolding related_instance
  resolve_by_relationship context node_name node_instances =
      related_instance context.self node_name node_instances

  unfoldable pub or_ambiguous : String → Option StoredInstance → Resolved StoredInstance
  or_ambiguous node_name none = raise (ambiguous node_name)
  or_ambiguous node_name (some node_instance) = ok node_instance

  unfoldable pub or_grouped :
      ℕ
      → RequestContext
      → String
      → StoredInstance
      → List StoredInstance
      → Option StoredInstance
      → Resolved StoredInstance
  unfolding resolve_by_scaling_group or_ambiguous
  or_grouped fuel context node_name first rest (some node_instance) = ok node_instance
  or_grouped fuel context node_name first rest none = do
    grouped ← resolve_by_scaling_group fuel context first rest
    or_ambiguous node_name grouped

  -- `_resolve_node_instance_by_name`, with the instances of the node
  unfoldable pub choose_instance :
      ℕ → RequestContext → String → List StoredInstance → Resolved StoredInstance
  unfolding resolve_by_relationship or_grouped
  choose_instance fuel context node_name [] = raise (no_instances node_name)
  choose_instance fuel context node_name (only ∷ []) = ok only
  choose_instance fuel context node_name (first ∷ second ∷ rest) = do
    related ← resolve_by_relationship context node_name (first ∷ second ∷ rest)
    or_grouped fuel context node_name first (second ∷ rest) related

  unfoldable pub resolve_by_name : ℕ → RequestContext → String → Resolved StoredInstance
  unfolding choose_instance
  resolve_by_name fuel context node_name = do
    node_instances ← from_storage (List StoredInstance) (get_node_instances node_name)
    choose_instance fuel context node_name node_instances
