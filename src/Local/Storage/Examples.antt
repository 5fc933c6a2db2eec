-- ===== src/Local/Storage/Examples.antt =====
-- The theorems at a storage of two instances, whose runtime properties are a number.
use cloudify_common.Prelude.{ℕ, none, some, List, [], ◌∷◌, ◌≡◌, refl, ok, raise}
use cloudify_common.Prelude.Dict.{get, put}
use cloudify_common.Local.Storage.{
  NodeInstance, Storage, storage_conflict, init, prepare_instance, index_from, changed,
  load_instance, store_instance, get_node_instance, update_node_instance, get_node_instances,
  select, of_node,
}
use cloudify_common.Local.Storage.Versions.{
  table_of, tables, update_table, update_node_instance-table, init-IsKeyed,
}
use cloudify_common.Local.Storage.Runs.{here, second_update_refused}

abbrev two_instances : List (NodeInstance ℕ)
two_instances = prepare_instance 0 "vm_1" "vm" ∷ prepare_instance 0 "db_1" "db" ∷ []

abbrev storage : Storage ℕ ℕ ℕ
storage = init (("vm", 1) ∷ ("db", 2) ∷ []) [] two_instances

abbrev vm_at : ℕ → ℕ → NodeInstance ℕ
vm_at version properties = record {
  id = "vm_1";
  node_id = "vm";
  version = version;
  runtime_properties = properties;
  state = none;
}

vm_instances : get_node_instances (some "vm") storage ≡ vm_at 0 0 ∷ []
unfolding get_node_instances select of_node init index_from prepare_instance put
vm_instances = refl

updated :
    update_node_instance "vm_1" 0 (some 7) none storage ≡ ok (store_instance (vm_at 1 7) storage)
unfolding update_node_instance get_node_instance load_instance init index_from prepare_instance put
    get changed
updated = refl

update_node_instance-table_example :
    tables (update_node_instance "vm_1" 0 (some 7) none storage)
    ≡ update_table "vm_1" 0 (some 7) none (table_of storage)
update_node_instance-table_example =
    update_node_instance-table "vm_1" 0 (some 7) none storage
      (init-IsKeyed (("vm", 1) ∷ ("db", 2) ∷ []) [] two_instances)

second_update_refused_example :
    update_node_instance "vm_1" 0 (some 9) none (store_instance (vm_at 1 7) storage)
    ≡ raise storage_conflict
second_update_refused_example =
    second_update_refused "vm_1" 0 (some 7) (some 9) storage (store_instance (vm_at 1 7) storage)
      (store_instance (vm_at 1 7) storage)
      (init-IsKeyed (("vm", 1) ∷ ("db", 2) ∷ []) [] two_instances) updated here
