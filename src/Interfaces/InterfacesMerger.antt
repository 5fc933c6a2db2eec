-- ===== src/Interfaces/InterfacesMerger.antt =====
-- dsl_parser/interfaces/interfaces_merger.py and interfaces_parser.py. A merger of operations is
-- a function that may raise; the two classes differ in what stands for a missing entry.
use cloudify_common.Prelude.{String, Option, [], ◌∷◌, get_or, string_eq, Result, ok, ◌>>=◌}
use cloudify_common.Prelude.Dict.{Dict, get, put}
use cloudify_common.Interfaces.Operation.{DslError, Schema, Inputs, Operation}
use cloudify_common.Interfaces.OperationMerger.{
  RawOperation, null, node_template_merger, node_type_merger,
}

-- One of the loops of `merge`: `entry` is the loop's body up to the assignment.
unfoldable pub merge_loop :
    {A M : Type 0}
    → (String → A → Result DslError M)
    → Dict String A
    → Dict String M
    → Result DslError (Dict String M)
merge_loop entry [] merged = ok merged
merge_loop entry ((name, a) ∷ items) merged = do
  m ← entry name a
  merge_loop entry items (put name m merged)

module _ {A B M : Type 0} (no_a : A) (no_b : B) (merger : A → B → Result DslError M) where
  -- Both loops, the overridden entries first.
  unfoldable pub merge_entries : Dict String A → Dict String B → Result DslError (Dict String M)
  merge_entries overriding overridden = do
    merged ← merge_loop (λ name b. merger (get_or (get name overriding) no_a) b) overridden []
    merge_loop (λ name a. merger a (get_or (get name overridden) no_b)) overriding merged

module _ {V I J : Type 0} {M : Type 0}
    (operation_merger : RawOperation V I → RawOperation V J → Result DslError M) where
  -- InterfaceMerger.merge
  unfoldable pub merge_interface :
      Dict String (RawOperation V I)
      → Dict String (RawOperation V J)
      → Result DslError (Dict String M)
  unfolding merge_entries merge_loop
  merge_interface overriding overridden =
      merge_entries null null operation_merger overriding overridden

  -- InterfacesMerger.merge
  unfoldable pub merge_interfaces :
      Dict String (Dict String (RawOperation V I))
      → Dict String (Dict String (RawOperation V J))
      → Result DslError (Dict String (Dict String M))
  unfolding merge_interface
  merge_interfaces overriding overridden = merge_entries [] [] merge_interface overriding overridden

module _ {V : Type 0} where
  unfoldable pub merge_node_type_interfaces :
      Dict String (Dict String (RawOperation V (Schema V)))
      → Dict String (Dict String (RawOperation V (Schema V)))
      → Result DslError (Dict String (Dict String (Option (Operation V (Schema V)))))
  unfolding merge_interfaces node_type_merger
  merge_node_type_interfaces overriding overridden =
      merge_interfaces node_type_merger overriding overridden

  unfoldable pub merge_node_type_and_node_template_interfaces :
      Dict String (Dict String (RawOperation V (Schema V)))
      → Dict String (Dict String (RawOperation V (Inputs V)))
      → Result DslError (Dict String (Dict String (Option (Operation V (Inputs V)))))
  unfolding merge_interfaces node_template_merger
  merge_node_type_and_node_template_interfaces node_type_interfaces node_template_interfaces =
      merge_interfaces node_template_merger node_template_interfaces node_type_interfaces

  -- The mergers of relationships are those of nodes.
  unfoldable pub merge_relationship_type_interfaces :
      Dict String (Dict String (RawOperation V (Schema V)))
      → Dict String (Dict String (RawOperation V (Schema V)))
      → Result DslError (Dict String (Dict String (Option (Operation V (Schema V)))))
  unfolding merge_interfaces node_type_merger
  merge_relationship_type_interfaces overriding overridden =
      merge_interfaces node_type_merger overriding overridden

  unfoldable pub merge_relationship_type_and_instance_interfaces :
      Dict String (Dict String (RawOperation V (Schema V)))
      → Dict String (Dict String (RawOperation V (Inputs V)))
      → Result DslError (Dict String (Dict String (Option (Operation V (Inputs V)))))
  unfolding merge_interfaces node_template_merger
  merge_relationship_type_and_instance_interfaces relationship_type relationship_instance =
      merge_interfaces node_template_merger relationship_instance relationship_type
