-- ===== src/Lifecycle/Sequence.antt =====
-- Tasks that are added to the sequence of an instance, one after the other.
use cloudify_common.Prelude.{
  ℕ, String, ◌≡◌, refl, Bool, true, false, List, [], ◌∷◌, ◌++◌, if◌then◌else◌, ◌==◌, string_eq, ok,
  arith, Bool-cases, inl, inr, ◌∙◌, subst, sym, ap,
}
use cloudify_common.Prelude.Dict.{Dict, put, get-put}
use cloudify_common.Prelude.Set.{mem, add, mem-add}
use cloudify_common.Workflow.Graph.{add_task, assign}
use cloudify_common.Workflow.Graph.Invariant.{IsGraph, add_task-IsGraph}
use cloudify_common.Workflow.Graph.Sequence.{AreNew, with_tasks}
use cloudify_common.Lifecycle.{Building, last_of, add_to_sequence, add_intact_tasks}
use cloudify_common.Lifecycle.Extension.{depend-Extends}
use cloudify_common.Lifecycle.Dependencies.{AllIn, depend_on_all-Keeps}

pub mem-nil : (x : ℕ) → mem x [] ≡ false
unfolding mem
mem-nil x = refl

pub with_tasks-append :
    (xs ys old : List ℕ) → with_tasks (xs ++ ys) old ≡ with_tasks ys (with_tasks xs old)
with_tasks-append [] ys old = refl
with_tasks-append (x ∷ xs) ys old = with_tasks-append xs ys (add x old)

pub mem-with_tasks : (x : ℕ) (ts old : List ℕ) → mem x old ≡ true → mem x (with_tasks ts old) ≡ true
mem-with_tasks x [] old m = m
mem-with_tasks x (t ∷ ts) old m = mem-with_tasks x ts (add t old) (ground (arith, mem-add t x old))

pub AreNew-append :
    (xs ys old : List ℕ) → AreNew (xs ++ ys) old → AreNew xs old × AreNew ys (with_tasks xs old)
AreNew-append [] ys old new = (tt, new)
AreNew-append (x ∷ xs) ys old (one, new) =
    let (first, second) = AreNew-append xs ys (add x old) new in ((one, first), second)

-- The last tasks of each sequence are in the graph.
abbrev pub LastIn : Building → Type 0
LastIn b = (id : String) → AllIn b.graph.tasks (last_of id b.last_tasks)

mem-last_of-put :
    (id other : String) (task x : ℕ) (last_tasks : Dict String (List ℕ)) (tasks : List ℕ)
    → mem task tasks ≡ true
    → (mem x (last_of other last_tasks) ≡ true → mem x tasks ≡ true)
    → mem x (last_of other (put id (task ∷ []) last_tasks)) ≡ true
    → mem x tasks ≡ true
unfolding last_of mem
mem-last_of-put id other task x last_tasks tasks there before m = elim (Bool-cases (id == other)) [
  | inl own ↦
      subst (λ (y : ℕ). mem y tasks ≡ true)
        (ground (arith, get-put id other (task ∷ []) last_tasks)) there
  | inr apart ↦ before (ground (arith, get-put id other (task ∷ []) last_tasks))
]

module _ (waiting : List ℕ) where
  abbrev pub IsGood : List ℕ → Building → Type 0
  IsGood tasks b = IsGraph waiting b.graph × (b.graph.tasks ≡ tasks) × LastIn b

  add_to_sequence-IsGood :
      (subgraph : ℕ) (id : String) (task : ℕ) (b : Building)
      → IsGood b.graph.tasks b
      → mem subgraph b.graph.tasks ≡ true
      → mem task b.graph.tasks ≡ false
      → (b' : Building) × (add_to_sequence subgraph id task b ≡ ok b')
        × IsGood (add task b.graph.tasks) b'
  unfolding add_to_sequence add_task last_of
  add_to_sequence-IsGood subgraph id task b (inv, _, last) there new =
      let g0 = add_task task b.graph in
      let inv0 = add_task-IsGraph waiting b.graph inv task new in
      let (g1, one, (inv1, same1, edges)) =
        depend-Extends waiting task subgraph g0 inv0
          (ground (arith, mem-add task task b.graph.tasks))
          (ground (arith, mem-add task subgraph b.graph.tasks)) in
      let (g2, two, (inv2, same2)) =
        depend_on_all-Keeps waiting task (last_of id b.last_tasks) g1 inv1
          (rw same1 (ground (arith, mem-add task task b.graph.tasks)))
          (λ x m. rw same1 (ground (arith, mem-add task x b.graph.tasks, last id x m))) in
      let b' : Building = record {
        graph = g2;
        subgraph_tasks = assign b.subgraph_tasks subgraph (add task (b.subgraph_tasks subgraph));
        last_tasks = put id (task ∷ []) b.last_tasks;
        with_handler = b.with_handler;
      } in
      (
        b',
        ground arith,
        (
          inv2,
          same2 ∙ same1,
          λ other x m. rw (same2 ∙ same1) (
              mem-last_of-put id other task x b.last_tasks g0.tasks
                (ground (arith, mem-add task task b.graph.tasks))
                (λ k. ground (arith, mem-add task x b.graph.tasks, last other x k)) m),
        ),
      )

  pub add_intact_tasks-IsGood :
      (install : Bool) (subgraph : ℕ) (id : String) (new : List ℕ) (b : Building)
      → IsGood b.graph.tasks b
      → mem subgraph b.graph.tasks ≡ true
      → AreNew new b.graph.tasks
      → (b' : Building) × (add_intact_tasks install subgraph id new b ≡ ok b')
        × IsGood (with_tasks new b.graph.tasks) b'
  unfolding add_intact_tasks
  add_intact_tasks-IsGood install subgraph id [] b good there new = (b, refl, good)
  add_intact_tasks-IsGood install subgraph id (task ∷ tasks) b good there (fresh, new) =
      let b0 : Building = record b {
        with_handler = if install then b.with_handler else add task b.with_handler;
      } in
      let (b1, one, (inv1, same1, last1)) =
        add_to_sequence-IsGood subgraph id task b0 good there fresh in
      let (b2, two, (inv2, same2, last2)) =
        add_intact_tasks-IsGood install subgraph id tasks b1 (inv1, refl, last1)
          (rw same1 (ground (arith, mem-add task subgraph b.graph.tasks)))
          (subst (AreNew tasks) (sym same1) new) in
      (b2, ground arith, (inv2, same2 ∙ ap (with_tasks tasks) same1, last2))
