-- ===== src/Functions/Resolution/Examples.antt =====
-- A node `vm` with two instances in a scaling group `tier`, and a `db` that runs on the second one.
use cloudify_common.Prelude.{
  String, ◌≡◌, refl, none, some, Option, List, [], ◌∷◌, ◌⊎◌, Result, ok, raise, ◌==◌, string_eq,
  if◌then◌else◌,
}
use cloudify_common.Functions.Resolution.{
  StoredInstance, StoredNode, RequestContext, choose_instance, resolve_by_relationship,
  related_instance, target_ids, instance_of_targets, or_grouped, resolve_by_scaling_group,
  by_self_or_source, resolve_node_instance, minimal_shared_group, containing_groups,
  parent_instance, container_name, first_target, group_names, first_shared, is_among,
  resolve_in_group, group_instance, group_id, instances_in, only_one, or_ambiguous,
}
use cloudify_common.Functions.Resolution.Unique.{
  IsIn, IsRelated, IsGrouped, choose_instance-IsMeant,
}

abbrev vm_1 : StoredInstance
vm_1 = record {
  id = "vm_1";
  node_id = "vm";
  relationships = [];
  scaling_groups = record { name = "tier"; id = "tier_1" } ∷ [];
}

abbrev vm_2 : StoredInstance
vm_2 = record {
  id = "vm_2";
  node_id = "vm";
  relationships = [];
  scaling_groups = record { name = "tier"; id = "tier_2" } ∷ [];
}

abbrev db_2 : StoredInstance
db_2 = record {
  id = "db_2";
  node_id = "db";
  relationships = record { target_name = "vm"; target_id = "vm_2" } ∷ [];
  scaling_groups = [];
}

abbrev client : StoredInstance
client = record {
  id = "client_2";
  node_id = "client";
  relationships = [];
  scaling_groups = record { name = "tier"; id = "tier_2" } ∷ [];
}

abbrev get_node : String → Result String StoredNode
get_node id =
    if id == "db"
    then ok record {
      relationships =
          record { target_id = "vm"; type_hierarchy = "cloudify.relationships.contained_in" ∷ [] }
          ∷ [];
    }
    else ok record { relationships = [] }

abbrev get_node_instance : Option String → Result String StoredInstance
get_node_instance none = raise "None is not found"
get_node_instance (some id) =
    if id == "vm_1"
    then ok vm_1
    else if id == "vm_2"
    then ok vm_2
    else if id == "db_2"
    then ok db_2
    else ok client

abbrev get_node_instances : String → Result String (List StoredInstance)
get_node_instances node = ok (vm_1 ∷ vm_2 ∷ [])

-- The client asks, which is in the group of the second instance.
abbrev asked_by_client : RequestContext
asked_by_client = record { self = some "client_2"; source = none; target = none }

choose_instance-IsMeant_example :
    IsIn vm_2 (vm_1 ∷ vm_2 ∷ [])
    × (((vm_1 ∷ vm_2 ∷ []) ≡ vm_2 ∷ [])
        ⊎ (IsRelated get_node get_node_instance get_node_instances (some "client_2") "vm" vm_2
            ⊎ IsGrouped get_node get_node_instance get_node_instances 5
                (some "client_2")
                none
                none
                (vm_1 ∷ vm_2 ∷ [])
                vm_2))
unfolding choose_instance resolve_by_relationship related_instance target_ids instance_of_targets
    or_grouped resolve_by_scaling_group by_self_or_source resolve_node_instance minimal_shared_group
    containing_groups parent_instance container_name first_target group_names first_shared is_among
    resolve_in_group group_instance group_id instances_in only_one or_ambiguous
choose_instance-IsMeant_example =
    choose_instance-IsMeant get_node get_node_instance get_node_instances 5 asked_by_client "vm"
      (vm_1 ∷ vm_2 ∷ []) vm_2 refl

-- The database asks, which runs on the second instance.
chosen_by_relationship :
    choose_instance get_node get_node_instance get_node_instances 0
      (record { self = some "db_2"; source = none; target = none })
      "vm"
      (vm_1 ∷ vm_2 ∷ [])
    ≡ ok vm_2
unfolding choose_instance
chosen_by_relationship = refl
