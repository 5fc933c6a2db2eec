-- ===== src/Interfaces/Merged.antt =====
-- What `InterfaceMerger.merge` and `InterfacesMerger.merge` compute, name by name.
use cloudify_common.Prelude.{
  String, ◌≡◌, Option, none, some, [], ◌∷◌, ◌==◌, string_eq, eq_iff, Result, ok, >>=-eq-ok, get_or,
  Bool-cases, inl, ◌∙◌, inr,
}
use cloudify_common.Prelude.Dict.{Dict, get, put, IsDict, get-put, get-nil}
use cloudify_common.Interfaces.Operation.{DslError}
use cloudify_common.Interfaces.InterfacesMerger.{merge_loop, merge_entries}
use cloudify_common.Interfaces.OperationMerger.{RawOperation, null}
use cloudify_common.Interfaces.InterfacesMerger.{merge_interface, merge_interfaces}

-- What a loop leaves under one name: the loop's value where the name is among its items, and the
-- value from before elsewhere.
abbrev pub AfterLoop :
    {A M : Type 0} → (A → Result DslError M) → Option A → Option M → Option M → Type 0
AfterLoop entry none old new = new ≡ old
AfterLoop {M = M} entry (some a) old new = (m : M) × (entry a ≡ ok m) × (new ≡ some m)

module _ {A M : Type 0} (entry : String → A → Result DslError M) (n : String) where
  merge_loop-AfterLoop :
      (items : Dict String A) (merged final : Dict String M)
      → IsDict items
      → merge_loop entry items merged ≡ ok final
      → AfterLoop (entry n) (get n items) (get n merged) (get n final)
  unfolding merge_loop get
  merge_loop-AfterLoop [] merged final d h = cc
  merge_loop-AfterLoop ((j, a) ∷ items) merged final d h =
      let (m, done, rest) =
        >>=-eq-ok (entry j a) (λ m. merge_loop entry items (put j m merged)) h in
      let ih = merge_loop-AfterLoop items (put j m merged) final d.1 rest in
      elim (Bool-cases (j == n)) [
        | inl e ↦
            let p : j ≡ n = (eq_iff j n).0 e in
            let absent : get n items ≡ none = rw p at d.0 in
            let after = rw absent at ih in
            rw e (m, rw p at done, after ∙ get-put j n m merged ∙ (rw e))
        | inr e ↦ rw e (rw (get-put, e) at ih)
      ]

-- The merger's result for what the two dicts hold under one name, and nothing where neither has it.
abbrev pub Combined :
    {A B M : Type 0} (no_a : A) (no_b : B) (merger : A → B → Result DslError M)
    → Option A
    → Option B
    → Option M
    → Type 0
Combined no_a no_b merger none none new = new ≡ none
Combined {M = M} no_a no_b merger a b new =
    (m : M) × (merger (get_or a no_a) (get_or b no_b) ≡ ok m) × (new ≡ some m)

module _ {A B M : Type 0} (no_a : A) (no_b : B) (merger : A → B → Result DslError M) where
  combine :
      (a : Option A) (b : Option B) (middle final : Option M)
      → AfterLoop (λ b. merger (get_or a no_a) b) b none middle
      → AfterLoop (λ a. merger a (get_or b no_b)) a middle final
      → Combined no_a no_b merger a b final
  combine none none middle final first second = second ∙ first
  combine none (some b) middle final (m, done, new) second = (m, done, second ∙ new)
  combine (some a) none middle final first second = second
  combine (some a) (some b) middle final first second = second

  -- If the merge of two dicts returns, each name of either holds the merger's result for what the
  -- two dicts have under it, and no other name is there.
  pub merge_entries-Combined :
      (overriding : Dict String A) (overridden : Dict String B) (final : Dict String M)
      → IsDict overriding
      → IsDict overridden
      → merge_entries no_a no_b merger overriding overridden ≡ ok final
      → (n : String) → Combined no_a no_b merger (get n overriding) (get n overridden) (get n final)
  unfolding merge_entries
  merge_entries-Combined overriding overridden final d d' h n =
      let first = λ (name : String) (b : B). merger (get_or (get name overriding) no_a) b in
      let second = λ (name : String) (a : A). merger a (get_or (get name overridden) no_b) in
      let (merged, one, two) =
        >>=-eq-ok (merge_loop first overridden []) (λ m. merge_loop second overriding m) h in
      combine (get n overriding) (get n overridden) (get n merged) (get n final)
        (rw get-nil at (merge_loop-AfterLoop first n overridden [] merged d' one))
        (merge_loop-AfterLoop second n overriding merged final d two)

-- An interface of the two definitions: each of its operations is what the merger makes of the two
-- definitions of that operation, where a missing interface is empty and a missing operation is None;
-- there is none where neither definition has it.
abbrev pub InterfaceAt :
    {V I J M : Type 0} (operation_merger : RawOperation V I → RawOperation V J → Result DslError M)
    → Option (Dict String (RawOperation V I))
    → Option (Dict String (RawOperation V J))
    → Option (Dict String M)
    → Type 0
InterfaceAt operation_merger none none final = final ≡ none
InterfaceAt {M = M} operation_merger a b final =
    (interface : Dict String M) × (final ≡ some interface)
    × ((n : String)
        → Combined null null operation_merger (get n (get_or a [])) (get n (get_or b []))
            (get n interface))

module _ {V I J M : Type 0}
    (operation_merger : RawOperation V I → RawOperation V J → Result DslError M) where
  InterfaceAt-of_Combined :
      (a : Option (Dict String (RawOperation V I))) (b : Option (Dict String (RawOperation V J)))
      (final : Option (Dict String M))
      → IsDict (get_or a [])
      → IsDict (get_or b [])
      → Combined [] [] (merge_interface operation_merger) a b final
      → InterfaceAt operation_merger a b final
  unfolding merge_interface
  InterfaceAt-of_Combined none none final d d' same = same
  InterfaceAt-of_Combined none (some b) final d d' (interface, done, same) =
      (interface, same, merge_entries-Combined null null operation_merger [] b interface d d' done)
  InterfaceAt-of_Combined (some a) none final d d' (interface, done, same) =
      (interface, same, merge_entries-Combined null null operation_merger a [] interface d d' done)
  InterfaceAt-of_Combined (some a) (some b) final d d' (interface, done, same) =
      (interface, same, merge_entries-Combined null null operation_merger a b interface d d' done)

  -- If the merge of the interfaces of two definitions returns, then each interface of either is
  -- there and no other, and each operation of either definition of an interface is there and no
  -- other: it is the merger's result for the two definitions of that operation, where a missing
  -- interface is empty and a missing operation is None. No name stands twice in a definition.
  pub merge_interfaces-Combined :
      (overriding : Dict String (Dict String (RawOperation V I)))
      → (overridden : Dict String (Dict String (RawOperation V J)))
      → (final : Dict String (Dict String M)) (i : String) → IsDict overriding
      → IsDict overridden
      → IsDict (get_or (get i overriding) [])
      → IsDict (get_or (get i overridden) [])
      → merge_interfaces operation_merger overriding overridden ≡ ok final
      → InterfaceAt operation_merger (get i overriding) (get i overridden) (get i final)
  unfolding merge_interfaces
  merge_interfaces-Combined overriding overridden final i d d' k k' h =
      InterfaceAt-of_Combined (get i overriding) (get i overridden) (get i final) k k' (
        merge_entries-Combined [] [] (merge_interface operation_merger) overriding overridden final
          d d' h i)
