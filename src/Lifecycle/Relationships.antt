-- ===== src/Lifecycle/Relationships.antt =====
-- `_relationships_operations` and `_relationship_operations` of cloudify/plugins/lifecycle.py: the
-- tasks that run an operation of all the relationships of an instance, in groups.
use cloudify_common.Prelude.{
  String, ◌≡◌, refl, Bool, true, false, Option, none, some, List, [], ◌∷◌, ◌++◌, is_empty,
  if◌then◌else◌, ◌==◌, string_eq, arith, inl, inr, ◌∙◌, sym, ap, List-cases, is_none,
}
use mathlib.Core.List.{append_assoc, reverse, reverse-cons}

-- A relationship of an instance: its target, and which operations do nothing at its two ends.
pub record NodeRelationship : Type 0 where
  pub target_id : String
  pub source_is_nop : String → Bool
  pub target_is_nop : String → Bool

pub data RelationshipTask : Type 0 where
  execute_source_operation : NodeRelationship → String → RelationshipTask
  execute_target_operation : NodeRelationship → String → RelationshipTask

unfoldable pub is_nop : RelationshipTask → Bool
is_nop (execute_source_operation r operation) = r.source_is_nop operation
is_nop (execute_target_operation r operation) = r.target_is_nop operation

unfoldable pub relationship_operations : NodeRelationship → String → List RelationshipTask
relationship_operations r operation =
    execute_source_operation r operation ∷ execute_target_operation r operation ∷ []

unfoldable pub skip_nops : List RelationshipTask → List RelationshipTask
skip_nops [] = []
skip_nops (task ∷ tasks) = let rest = skip_nops tasks in if is_nop task then rest else task ∷ rest

unfoldable pub group_tasks : String → List NodeRelationship → List RelationshipTask
group_tasks operation [] = []
group_tasks operation (r ∷ rs) =
    skip_nops (relationship_operations r operation) ++ group_tasks operation rs

-- `itertools.groupby`, by the target
unfoldable pub join_group :
    NodeRelationship → List (List NodeRelationship) → List (List NodeRelationship)
join_group r [] = (r ∷ []) ∷ []
join_group r ([] ∷ groups) = (r ∷ []) ∷ groups
join_group r ((s ∷ group) ∷ groups) =
    if r.target_id == s.target_id then (r ∷ s ∷ group) ∷ groups else (r ∷ []) ∷ (s ∷ group) ∷ groups

unfoldable pub group_by_target : List NodeRelationship → List (List NodeRelationship)
group_by_target [] = []
group_by_target (r ∷ rs) = join_group r (group_by_target rs)

unfoldable pub groups_tasks : String → List (List NodeRelationship) → List (List RelationshipTask)
groups_tasks operation [] = []
groups_tasks operation (group ∷ groups) =
    let rest = groups_tasks operation groups in
    if is_empty (group_tasks operation group) then rest else group_tasks operation group ∷ rest

unfoldable pub or_none : List (List RelationshipTask) → Option (List (List RelationshipTask))
or_none [] = none
or_none (tasks ∷ rest) = some (tasks ∷ rest)

-- The sequence of the subgraph, each group a fork-join; nothing when there is nothing to do.
unfoldable pub relationships_operations :
    List NodeRelationship → String → (is_reverse : Bool) → Option (List (List RelationshipTask))
unfolding or_none
relationships_operations rs operation is_reverse =
    let tasks = groups_tasks operation (group_by_target rs) in
    or_none (if is_reverse then reverse tasks else tasks)

abbrev all_tasks : List (List RelationshipTask) → List RelationshipTask
all_tasks [] = []
all_tasks (tasks ∷ rest) = tasks ++ all_tasks rest

abbrev all_relationships : List (List NodeRelationship) → List NodeRelationship
all_relationships [] = []
all_relationships (group ∷ groups) = group ++ all_relationships groups

all_relationships-join_group :
    (r : NodeRelationship) (groups : List (List NodeRelationship))
    → all_relationships (join_group r groups) ≡ r ∷ all_relationships groups
unfolding join_group
all_relationships-join_group r [] = refl
all_relationships-join_group r ([] ∷ groups) = refl
all_relationships-join_group r ((s ∷ group) ∷ groups) = ground arith

all_relationships-group_by_target :
    (rs : List NodeRelationship) → all_relationships (group_by_target rs) ≡ rs
unfolding group_by_target
all_relationships-group_by_target [] = refl
all_relationships-group_by_target (r ∷ rs) =
    rw (all_relationships-join_group r (group_by_target rs), all_relationships-group_by_target rs)

group_tasks-append :
    (operation : String) (first second : List NodeRelationship)
    → group_tasks operation (first ++ second)
      ≡ group_tasks operation first ++ group_tasks operation second
unfolding group_tasks
group_tasks-append operation [] second = refl
group_tasks-append operation (r ∷ first) second =
    rw (group_tasks-append operation first second, append_assoc)

all_tasks-groups_tasks :
    (operation : String) (groups : List (List NodeRelationship))
    → all_tasks (groups_tasks operation groups) ≡ group_tasks operation (all_relationships groups)
unfolding groups_tasks group_tasks
all_tasks-groups_tasks operation [] = refl
all_tasks-groups_tasks operation (group ∷ groups) =
    let rest = all_tasks-groups_tasks operation groups in
    rw (group_tasks-append operation group (all_relationships groups), sym rest)
      (elim (List-cases (group_tasks operation group)) [
        | inl none_left ↦ rw none_left refl
        | inr (x, xs, some_left) ↦ rw some_left refl
      ])

-- Nothing is lost by the grouping.
all_tasks-group_by_target :
    (operation : String) (rs : List NodeRelationship)
    → all_tasks (groups_tasks operation (group_by_target rs)) ≡ group_tasks operation rs
all_tasks-group_by_target operation rs =
    all_tasks-groups_tasks operation (group_by_target rs)
    ∙ ap (group_tasks operation) (all_relationships-group_by_target rs)

-- The tasks of the subgraph in the order of its sequence.
abbrev tasks_run : Option (List (List RelationshipTask)) → List RelationshipTask
tasks_run none = []
tasks_run (some groups) = all_tasks groups

abbrev reversed : Option (List (List RelationshipTask)) → Option (List (List RelationshipTask))
reversed none = none
reversed (some groups) = some (reverse groups)

tasks_run-or_none :
    (groups : List (List RelationshipTask)) → tasks_run (or_none groups) ≡ all_tasks groups
unfolding or_none
tasks_run-or_none [] = refl
tasks_run-or_none (tasks ∷ rest) = refl

or_none-snoc :
    (groups : List (List RelationshipTask)) (tasks : List RelationshipTask)
    → or_none (groups ++ (tasks ∷ [])) ≡ some (groups ++ (tasks ∷ []))
unfolding or_none
or_none-snoc [] tasks = refl
or_none-snoc (first ∷ groups) tasks = refl

or_none-reverse :
    (groups : List (List RelationshipTask)) → or_none (reverse groups) ≡ reversed (or_none groups)
unfolding or_none
or_none-reverse [] = refl
or_none-reverse (tasks ∷ rest) = rw (reverse-cons tasks rest) (or_none-snoc (reverse rest) tasks)

is_empty-groups_tasks :
    (operation : String) (groups : List (List NodeRelationship))
    → is_empty (all_tasks (groups_tasks operation groups))
      ≡ is_none (or_none (groups_tasks operation groups))
unfolding groups_tasks or_none
is_empty-groups_tasks operation [] = refl
is_empty-groups_tasks operation (group ∷ groups) =
    let rest = is_empty-groups_tasks operation groups in
    elim (List-cases (group_tasks operation group)) [
      | inl none_left ↦ rw none_left rest
      | inr (x, xs, some_left) ↦ rw some_left refl
    ]

is_none-reversed :
    (found : Option (List (List RelationshipTask))) → is_none (reversed found) ≡ is_none found
is_none-reversed none = refl
is_none-reversed (some groups) = refl

is_none-forward :
    (rs : List NodeRelationship) (operation : String)
    → is_none (relationships_operations rs operation false) ≡ is_empty (group_tasks operation rs)
unfolding relationships_operations
is_none-forward rs operation =
    sym (is_empty-groups_tasks operation (group_by_target rs))
    ∙ ap is_empty (all_tasks-group_by_target operation rs)

pub is_none-relationships_operations :
    (rs : List NodeRelationship) (operation : String) (is_reverse : Bool)
    → is_none (relationships_operations rs operation is_reverse)
      ≡ is_empty (group_tasks operation rs)
unfolding relationships_operations
is_none-relationships_operations rs operation false = is_none-forward rs operation
is_none-relationships_operations rs operation true =
    ap is_none (or_none-reverse (groups_tasks operation (group_by_target rs)))
    ∙ is_none-reversed (relationships_operations rs operation false)
    ∙ is_none-forward rs operation

-- The subgraph of the relationships runs the operation at both ends of each relationship where it
-- does something, in the order of the relationships, none left out; uninstalling takes its groups
-- in the opposite order; and there is no subgraph exactly when there is nothing to do.
relationships_operations-tasks :
    (rs : List NodeRelationship) (operation : String)
    → (tasks_run (relationships_operations rs operation false) ≡ group_tasks operation rs)
      × (relationships_operations rs operation true
          ≡ reversed (relationships_operations rs operation false))
      × ((is_reverse : Bool)
          → is_none (relationships_operations rs operation is_reverse)
            ≡ is_empty (group_tasks operation rs))
unfolding relationships_operations
relationships_operations-tasks rs operation = (
  tasks_run-or_none (groups_tasks operation (group_by_target rs))
      ∙ all_tasks-group_by_target operation rs,
  or_none-reverse (groups_tasks operation (group_by_target rs)),
  is_none-relationships_operations rs operation,
)
