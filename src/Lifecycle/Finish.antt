-- ===== src/Lifecycle/Finish.antt =====
-- The dependencies of a whole deployment, with the tasks of intact nodes: they can be added without
-- an exception.
use cloudify_common.Prelude.{
  ◌≢◌, ℕ, String, ◌≡◌, refl, Bool, true, false, ◌&&◌, some, List, [], ◌∷◌, ◌++◌, if◌then◌else◌,
  ◌==◌, string_eq, Result, ok, ◌>>=◌, arith, eq_iff, Bool-cases, inl, inr, ◌∙◌, subst, sym, ap,
}
use mathlib.Core.List.{reverse}
use cloudify_common.Prelude.Dict.{Dict, get}
use cloudify_common.Prelude.Set.{mem}
use cloudify_common.Workflow.Graph.{Graph}
use cloudify_common.Workflow.Graph.Invariant.{IsGraph}
use cloudify_common.Workflow.Graph.Sequence.{AreNew, with_tasks}
use cloudify_common.Lifecycle.{
  not_implemented, NodeInstance, Relationship, LifecycleError, Building, Processor, last_of, relate,
  find_subgraph, is_related, is_touched, on_dependency_added, relate_each, add_dependencies,
  finish_subgraphs, has_instance,
}
use cloudify_common.Lifecycle.Dependencies.{Keeps, handle_dependency_creation-Keeps}
use cloudify_common.Lifecycle.Sequence.{
  mem-nil, with_tasks-append, mem-with_tasks, AreNew-append, LastIn, IsGood,
  add_intact_tasks-IsGood,
}

module _ (waiting : List ℕ) (p : Processor) (subgraphs : Dict String ℕ)
    (implemented : (task : ℕ) → p.operation_of task ≢ not_implemented) where
  abbrev HasSubgraph : List ℕ → String → Type 0
  HasSubgraph tasks id = (s : ℕ) × (get id subgraphs ≡ some s) × (mem s tasks ≡ true)

  -- The instances have subgraphs among the tasks.
  abbrev pub AllHave : List ℕ → List NodeInstance → Type 0
  AllHave tasks [] = Unit
  AllHave tasks (node_instance ∷ instances) =
      HasSubgraph tasks node_instance.id × AllHave tasks instances

  AllHave-with_tasks :
      (new tasks : List ℕ) (instances : List NodeInstance)
      → AllHave tasks instances
      → AllHave (with_tasks new tasks) instances
  AllHave-with_tasks new tasks [] all = tt
  AllHave-with_tasks new tasks (node_instance ∷ instances) ((s, found, there), all) =
      ((s, found, mem-with_tasks s new tasks there), AllHave-with_tasks new tasks instances all)

  has_instance-HasSubgraph :
      (tasks : List ℕ) (id : String) (instances : List NodeInstance)
      → AllHave tasks instances
      → has_instance id instances ≡ true
      → HasSubgraph tasks id
  unfolding has_instance
  has_instance-HasSubgraph tasks id [] all h = cc
  has_instance-HasSubgraph tasks id (node_instance ∷ instances) (one, all) h =
      elim (Bool-cases (node_instance.id == id)) [
        | inl same ↦ subst (HasSubgraph tasks) ((eq_iff node_instance.id id).0 same) one
        | inr other ↦ has_instance-HasSubgraph tasks id instances all (ground arith)
      ]

  -- All of the processor's instances have.
  abbrev pub HaveSubgraphs : List ℕ → Type 0
  HaveSubgraphs tasks = AllHave tasks p.node_instances × AllHave tasks p.intact_nodes

  target-HasSubgraph :
      (tasks : List ℕ) (rel : Relationship)
      → HaveSubgraphs tasks
      → is_related p subgraphs rel ≡ true
      → HasSubgraph tasks rel.target_id
  unfolding is_related
  target-HasSubgraph tasks rel (nodes, intact) related =
      elim (Bool-cases (has_instance rel.target_id p.node_instances)) [
        | inl node ↦ has_instance-HasSubgraph tasks rel.target_id p.node_instances nodes node
        | inr other ↦
            has_instance-HasSubgraph tasks rel.target_id p.intact_nodes intact (ground arith)
      ]

  relate-Keeps :
      (install : Bool) (node_instance : NodeInstance) (rel : Relationship) (g : Graph)
      → IsGraph waiting g
      → HasSubgraph g.tasks node_instance.id
      → HasSubgraph g.tasks rel.target_id
      → (g' : Graph) × (relate p.operation_of install subgraphs node_instance rel g ≡ ok g')
        × Keeps waiting g g'
  unfolding relate find_subgraph
  relate-Keeps true node_instance rel g inv (s, own, in1) (t, other, in2) =
      let (g', done, kept) =
        handle_dependency_creation-Keeps waiting p.operation_of implemented s t rel.operation
          rel.target_id g inv in1 in2 in
      (g', rw (own, other, find_subgraph) done, kept)
  relate-Keeps false node_instance rel g inv (s, own, in1) (t, other, in2) =
      let (g', done, kept) =
        handle_dependency_creation-Keeps waiting p.operation_of implemented t s rel.operation
          node_instance.id g inv in2 in1 in
      (g', rw (own, other, find_subgraph) done, kept)

  -- The tasks that one relationship of an intact node adds.
  abbrev added : Bool → NodeInstance → Relationship → List ℕ
  added intact node_instance rel =
      if intact && is_related p subgraphs rel && is_touched p subgraphs node_instance rel
      then p.operations_of node_instance.id rel
      else []

  abbrev added_each : Bool → NodeInstance → List Relationship → List ℕ
  added_each intact node_instance [] = []
  added_each intact node_instance (rel ∷ rels) =
      added intact node_instance rel ++ added_each intact node_instance rels

  abbrev added_all : Bool → Bool → List NodeInstance → List ℕ
  added_all install intact [] = []
  added_all install intact (node_instance ∷ instances) =
      added_each intact node_instance
        (if install then node_instance.relationships else reverse node_instance.relationships)
      ++ added_all install intact instances

  -- What one relationship does.
  abbrev body :
      Bool → Bool → NodeInstance → Relationship → Building → Result LifecycleError Building
  body install intact node_instance rel b =
      if is_related p subgraphs rel
      then (do
        g ← relate p.operation_of install subgraphs node_instance rel b.graph
        let b1 : Building = record b { graph = g }
        (if intact then on_dependency_added p subgraphs install node_instance rel b1 else ok b1))
      else ok b

  on_dependency_added-IsGood :
      (install : Bool) (node_instance : NodeInstance) (rel : Relationship) (b : Building)
      → IsGood waiting b.graph.tasks b
      → HasSubgraph b.graph.tasks node_instance.id
      → is_related p subgraphs rel ≡ true
      → AreNew (added true node_instance rel) b.graph.tasks
      → (b' : Building) × (on_dependency_added p subgraphs install node_instance rel b ≡ ok b')
        × IsGood waiting (with_tasks (added true node_instance rel) b.graph.tasks) b'
  unfolding on_dependency_added find_subgraph
  on_dependency_added-IsGood install node_instance rel b good (s, own, there) related new =
      elim (Bool-cases (is_touched p subgraphs node_instance rel)) [
        | inl touched ↦
            let all : added true node_instance rel ≡ p.operations_of node_instance.id rel =
              ground arith in
            let (b', done, good') =
              add_intact_tasks-IsGood waiting install s node_instance.id
                (p.operations_of node_instance.id rel) b good there
                (subst (λ (l : List ℕ). AreNew l b.graph.tasks) all new) in
            (
              b',
              ground arith,
              subst (λ (l : List ℕ). IsGood waiting (with_tasks l b.graph.tasks) b') (sym all)
                  good',
            )
        | inr untouched ↦
            let none_added : added true node_instance rel ≡ [] = ground arith in
            (
              b,
              ground arith,
              subst (λ (l : List ℕ). IsGood waiting (with_tasks l b.graph.tasks) b) (sym none_added)
                  good,
            )
      ]

  body-IsGood :
      (install intact : Bool) (node_instance : NodeInstance) (rel : Relationship) (b : Building)
      → IsGood waiting b.graph.tasks b
      → HaveSubgraphs b.graph.tasks
      → HasSubgraph b.graph.tasks node_instance.id
      → AreNew (added intact node_instance rel) b.graph.tasks
      → (b' : Building) × (body install intact node_instance rel b ≡ ok b')
        × IsGood waiting (with_tasks (added intact node_instance rel) b.graph.tasks) b'
  body-IsGood install intact node_instance rel b (inv, same, last) have own new =
      elim (Bool-cases (is_related p subgraphs rel)) [
        | inr apart ↦
            let none_added : added intact node_instance rel ≡ [] = ground arith in
            (
              b,
              ground arith,
              subst (λ (l : List ℕ). IsGood waiting (with_tasks l b.graph.tasks) b) (sym none_added)
                  (inv, same, last),
            )
        | inl related ↦
            let (g1, one, (inv1, same1)) =
              relate-Keeps install node_instance rel b.graph inv own
                (target-HasSubgraph b.graph.tasks rel have related) in
            let b1 : Building = record b { graph = g1 } in
            let last1 : LastIn b1 = λ id x m. rw same1 (last id x m) in
            elim (Bool-cases intact) [
              | inr plain ↦
                  let none_added : added intact node_instance rel ≡ [] = ground arith in
                  (
                    b1,
                    ground arith,
                    subst (λ (l : List ℕ). IsGood waiting (with_tasks l b.graph.tasks) b1)
                        (sym none_added) (inv1, same1, last1),
                  )
              | inl called ↦
                  let all : added intact node_instance rel ≡ added true node_instance rel =
                    rw called refl in
                  let new1 : AreNew (added true node_instance rel) g1.tasks =
                    rw same1 (subst (λ (l : List ℕ). AreNew l b.graph.tasks) all new) in
                  let (b2, two, (inv2, same2, last2)) =
                    on_dependency_added-IsGood install node_instance rel b1 (inv1, refl, last1)
                      (subst (λ (t : List ℕ). HasSubgraph t node_instance.id) (sym same1) own)
                      related new1 in
                  (
                    b2,
                    ground arith,
                    (
                      inv2,
                      same2
                          ∙ ap (with_tasks (added true node_instance rel)) same1
                          ∙ ap (λ (l : List ℕ). with_tasks l b.graph.tasks) (sym all),
                      last2,
                    ),
                  )
            ]
      ]

  have-with_tasks :
      (new tasks : List ℕ) → HaveSubgraphs tasks → HaveSubgraphs (with_tasks new tasks)
  have-with_tasks new tasks (nodes, intact) = (
    AllHave-with_tasks new tasks p.node_instances nodes,
    AllHave-with_tasks new tasks p.intact_nodes intact,
  )

  relate_each-IsGood :
      (install intact : Bool) (node_instance : NodeInstance) (rels : List Relationship)
      → (b : Building) → IsGood waiting b.graph.tasks b
      → HaveSubgraphs b.graph.tasks
      → HasSubgraph b.graph.tasks node_instance.id
      → AreNew (added_each intact node_instance rels) b.graph.tasks
      → (b' : Building) × (relate_each p subgraphs install intact node_instance rels b ≡ ok b')
        × IsGood waiting (with_tasks (added_each intact node_instance rels) b.graph.tasks) b'
  unfolding relate_each
  relate_each-IsGood install intact node_instance [] b good have own new = (b, refl, good)
  relate_each-IsGood install intact node_instance (rel ∷ rels) b good have (s, own, there) new =
      let first = added intact node_instance rel in
      let rest = added_each intact node_instance rels in
      let (new1, new2) = AreNew-append first rest b.graph.tasks new in
      let (b1, one, (inv1, same1, last1)) =
        body-IsGood install intact node_instance rel b good have (s, own, there) new1 in
      let (b2, two, (inv2, same2, last2)) =
        relate_each-IsGood install intact node_instance rels b1 (inv1, refl, last1)
          (subst HaveSubgraphs (sym same1) (have-with_tasks first b.graph.tasks have))
          (s, own, rw same1 (mem-with_tasks s first b.graph.tasks there))
          (subst (AreNew rest) (sym same1) new2) in
      (
        b2,
        rw (one, ◌>>=◌) two,
        (
          inv2,
          same2 ∙ ap (with_tasks rest) same1 ∙ sym (with_tasks-append first rest b.graph.tasks),
          last2,
        ),
      )

  add_dependencies-IsGood :
      (install intact : Bool) (instances : List NodeInstance) (b : Building)
      → IsGood waiting b.graph.tasks b
      → HaveSubgraphs b.graph.tasks
      → AllHave b.graph.tasks instances
      → AreNew (added_all install intact instances) b.graph.tasks
      → (b' : Building) × (add_dependencies p subgraphs install intact instances b ≡ ok b')
        × IsGood waiting (with_tasks (added_all install intact instances) b.graph.tasks) b'
  unfolding add_dependencies
  add_dependencies-IsGood install intact [] b good have all new = (b, refl, good)
  add_dependencies-IsGood install intact (node_instance ∷ instances) b good have (own, all) new =
      let rels =
        if install then node_instance.relationships else reverse node_instance.relationships in
      let first = added_each intact node_instance rels in
      let rest = added_all install intact instances in
      let (new1, new2) = AreNew-append first rest b.graph.tasks new in
      let (b1, one, (inv1, same1, last1)) =
        relate_each-IsGood install intact node_instance rels b good have own new1 in
      let (b2, two, (inv2, same2, last2)) =
        add_dependencies-IsGood install intact instances b1 (inv1, refl, last1)
          (subst HaveSubgraphs (sym same1) (have-with_tasks first b.graph.tasks have))
          (subst (λ (t : List ℕ). AllHave t instances) (sym same1)
            (AllHave-with_tasks first b.graph.tasks instances all))
          (subst (AreNew rest) (sym same1) new2) in
      (
        b2,
        rw (one, ◌>>=◌) two,
        (
          inv2,
          same2 ∙ ap (with_tasks rest) same1 ∙ sym (with_tasks-append first rest b.graph.tasks),
          last2,
        ),
      )

  added_each-plain :
      (node_instance : NodeInstance) (rels : List Relationship)
      → added_each false node_instance rels ≡ []
  added_each-plain node_instance [] = refl
  added_each-plain node_instance (rel ∷ rels) = added_each-plain node_instance rels

  added_all-plain :
      (install : Bool) (instances : List NodeInstance) → added_all install false instances ≡ []
  added_all-plain install [] = refl
  added_all-plain install (node_instance ∷ instances) =
      rw
        (added_each-plain node_instance
          (if install then node_instance.relationships else reverse node_instance.relationships))
        (added_all-plain install instances)

  pub finish_subgraphs-IsGraph :
      (install : Bool) (b : Building)
      → IsGraph waiting b.graph
      → HaveSubgraphs b.graph.tasks
      → AreNew (added_all install true p.intact_nodes) b.graph.tasks
      → (b' : Building) × (finish_subgraphs p subgraphs install b ≡ ok b')
        × IsGraph waiting b'.graph
        × (b'.graph.tasks ≡ with_tasks (added_all install true p.intact_nodes) b.graph.tasks)
  unfolding finish_subgraphs last_of get
  finish_subgraphs-IsGraph install b inv have new =
      let none_added = added_all-plain install p.node_instances in
      let b0 : Building = record b { last_tasks = [] } in
      let last0 : LastIn b0 = λ id x m. ground (arith, mem-nil x) in
      let (b1, one, (inv1, same1, last1)) =
        add_dependencies-IsGood install false p.node_instances b0 (inv, refl, last0) have have.0
          (rw none_added tt) in
      let same : b1.graph.tasks ≡ b.graph.tasks =
        same1 ∙ ap (λ (l : List ℕ). with_tasks l b.graph.tasks) none_added in
      let b1' : Building = record b1 { last_tasks = [] } in
      let (b2, two, (inv2, same2, last2)) =
        add_dependencies-IsGood install true p.intact_nodes b1'
          (inv1, refl, λ id x m. ground (arith, mem-nil x)) (subst HaveSubgraphs (sym same) have)
          (subst HaveSubgraphs (sym same) have).1
          (subst (AreNew (added_all install true p.intact_nodes)) (sym same) new) in
      (
        b2,
        rw (one, ◌>>=◌) two,
        inv2,
        same2 ∙ ap (with_tasks (added_all install true p.intact_nodes)) same,
      )
