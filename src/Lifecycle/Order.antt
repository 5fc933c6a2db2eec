-- ===== src/Lifecycle/Order.antt =====
-- In which order the subgraphs of the node instances run, where relationships wait for no single
-- operation.
use cloudify_common.Prelude.{
  ℕ, String, ◌≡◌, refl, Bool, true, false, not, ◌&&◌, ◌||◌, none, some, List, [], ◌∷◌, ◌++◌,
  nat_beq, if◌then◌else◌, ◌==◌, string_eq, ok, arith, eq_iff, Bool-cases, inl, inr, ◌∙◌, subst, sym,
}
use mathlib.Core.List.{reverse, reverse-cons}
use cloudify_common.Prelude.Dict.{Dict, get}
use cloudify_common.Prelude.Set.{mem}
use cloudify_common.Workflow.Graph.{Graph}
use cloudify_common.Workflow.Graph.Invariant.{IsGraph}
use cloudify_common.Lifecycle.{
  NodeInstance, Relationship, Building, Processor, has_instance, find_subgraph,
  handle_dependency_creation, relate, is_related, relate_each, add_dependencies,
}
use cloudify_common.Lifecycle.Extension.{Extends, Extends-step, depend-Extends}

module _ (p : Processor) (subgraphs : Dict String ℕ) where
  abbrev is_subgraph_of : ℕ → String → Bool
  is_subgraph_of a id = elim (get id subgraphs) [ none ↦ false | some s ↦ nat_beq s a ]

  -- The ids of the instances of the processor, those that stay included.
  abbrev ids_of : List NodeInstance → List String
  ids_of [] = []
  ids_of (node_instance ∷ instances) = node_instance.id ∷ ids_of instances

  abbrev is_id : String → List String → Bool
  is_id id [] = false
  is_id id (other ∷ rest) = other == id || is_id id rest

  abbrev leads_inside : Relationship → Bool
  leads_inside rel = is_id rel.target_id (ids_of p.node_instances ++ ids_of p.intact_nodes)

  is_id-append :
      (id : String) (first second : List String)
      → is_id id (first ++ second) ≡ (is_id id first || is_id id second)
  is_id-append id [] second = refl
  is_id-append id (other ∷ first) second = ground (arith, is_id-append id first second)

  is_id-has_instance :
      (id : String) (instances : List NodeInstance)
      → is_id id (ids_of instances) ≡ has_instance id instances
  unfolding has_instance
  is_id-has_instance id [] = refl
  is_id-has_instance id (node_instance ∷ instances) =
      ground (arith, is_id-has_instance id instances)

  is_related-leads_inside : (rel : Relationship) → is_related p subgraphs rel ≡ leads_inside rel
  unfolding is_related
  is_related-leads_inside rel = ground (
    arith,
    is_id-append rel.target_id (ids_of p.node_instances) (ids_of p.intact_nodes),
    is_id-has_instance rel.target_id p.node_instances,
    is_id-has_instance rel.target_id p.intact_nodes,
  )

  -- A relationship of an instance to one of the processor's lets `a` wait for `b` on install, both of them subgraphs, and `b`
  -- for `a` on uninstall.
  abbrev rel_asks : Bool → NodeInstance → Relationship → ℕ → ℕ → Bool
  rel_asks install node_instance rel a b =
      leads_inside rel
      && (if install
          then is_subgraph_of a node_instance.id && is_subgraph_of b rel.target_id
          else is_subgraph_of b node_instance.id && is_subgraph_of a rel.target_id)
      && not (nat_beq a b)

  abbrev rels_ask : Bool → NodeInstance → List Relationship → ℕ → ℕ → Bool
  rels_ask install node_instance [] a b = false
  rels_ask install node_instance (rel ∷ rels) a b =
      rel_asks install node_instance rel a b || rels_ask install node_instance rels a b

  abbrev pub instances_ask : Bool → List NodeInstance → ℕ → ℕ → Bool
  instances_ask install [] a b = false
  instances_ask install (node_instance ∷ instances) a b =
      rels_ask install node_instance node_instance.relationships a b
      || instances_ask install instances a b

  -- No relationship waits for a single operation.
  abbrev AllPlain : List Relationship → Type 0
  AllPlain [] = Unit
  AllPlain (rel ∷ rels) = (rel.operation ≡ none) × AllPlain rels

  abbrev HasSubgraph : List ℕ → String → Type 0
  HasSubgraph tasks id = (s : ℕ) × (get id subgraphs ≡ some s) × (mem s tasks ≡ true)

  -- The instances have subgraphs among the tasks, and plain relationships.
  abbrev pub AreReady : List ℕ → List NodeInstance → Type 0
  AreReady tasks [] = Unit
  AreReady tasks (node_instance ∷ instances) =
      HasSubgraph tasks node_instance.id
      × AllPlain node_instance.relationships
      × AreReady tasks instances

  has_instance-HasSubgraph :
      (tasks : List ℕ) (id : String) (instances : List NodeInstance)
      → AreReady tasks instances
      → has_instance id instances ≡ true
      → HasSubgraph tasks id
  unfolding has_instance
  has_instance-HasSubgraph tasks id [] ready h = cc
  has_instance-HasSubgraph tasks id (node_instance ∷ instances) (one, plain, ready) h =
      elim (Bool-cases (node_instance.id == id)) [
        | inl same ↦ subst (HasSubgraph tasks) ((eq_iff node_instance.id id).0 same) one
        | inr other ↦ has_instance-HasSubgraph tasks id instances ready (ground arith)
      ]

  relate-Extends :
      (waiting : List ℕ) (install : Bool) (node_instance : NodeInstance) (rel : Relationship)
      → (g : Graph) → IsGraph waiting g
      → rel.operation ≡ none
      → HasSubgraph g.tasks node_instance.id
      → HasSubgraph g.tasks rel.target_id
      → is_related p subgraphs rel ≡ true
      → (g' : Graph) × (relate p.operation_of install subgraphs node_instance rel g ≡ ok g')
        × Extends waiting g (rel_asks install node_instance rel) g'
  unfolding relate find_subgraph handle_dependency_creation
  relate-Extends waiting true node_instance rel g inv plain (s, own, in1) (t, other, in2) related =
      let (g', done, (good, same, edges)) = depend-Extends waiting s t g inv in1 in2 in
      (
        g',
        rw (own, other, find_subgraph, plain, handle_dependency_creation) done,
        (good, same, λ a b. ground (arith, edges a b, is_related-leads_inside rel)),
      )
  relate-Extends waiting false node_instance rel g inv plain (s, own, in1) (t, other, in2) related =
      let (g', done, (good, same, edges)) = depend-Extends waiting t s g inv in2 in1 in
      (
        g',
        rw (own, other, find_subgraph, plain, handle_dependency_creation) done,
        (good, same, λ a b. ground (arith, edges a b, is_related-leads_inside rel)),
      )

  module _ (waiting tasks : List ℕ) (install : Bool) (nodes : AreReady tasks p.node_instances)
      (intact : AreReady tasks p.intact_nodes) where
    target-HasSubgraph :
        (rel : Relationship) → is_related p subgraphs rel ≡ true → HasSubgraph tasks rel.target_id
    unfolding is_related
    target-HasSubgraph rel related =
        elim (Bool-cases (has_instance rel.target_id p.node_instances)) [
          | inl node ↦ has_instance-HasSubgraph tasks rel.target_id p.node_instances nodes node
          | inr other ↦
              has_instance-HasSubgraph tasks rel.target_id p.intact_nodes intact (ground arith)
        ]

    relate_each-Extends :
        (node_instance : NodeInstance) (rels : List Relationship) (b : Building)
        → b.graph.tasks ≡ tasks
        → IsGraph waiting b.graph
        → HasSubgraph tasks node_instance.id
        → AllPlain rels
        → (b' : Building) × (relate_each p subgraphs install false node_instance rels b ≡ ok b')
          × Extends waiting b.graph (rels_ask install node_instance rels) b'.graph
    unfolding relate_each
    relate_each-Extends node_instance [] b same inv own plain =
        (b, refl, (inv, refl, λ a b. ground arith))
    relate_each-Extends node_instance (rel ∷ rels) b same inv own (one, plain) =
        elim (Bool-cases (is_related p subgraphs rel)) [
          | inl related ↦
              let (g1, done1, ext1) =
                relate-Extends waiting install node_instance rel b.graph inv one
                  (subst (λ (t : List ℕ). HasSubgraph t node_instance.id) (sym same) own)
                  (subst (λ (t : List ℕ). HasSubgraph t rel.target_id) (sym same)
                    (target-HasSubgraph rel related))
                  related in
              let b1 : Building = record b { graph = g1 } in
              let (b2, done2, ext2) =
                relate_each-Extends node_instance rels b1 (ext1.1 ∙ same) ext1.0 own plain in
              (
                b2,
                ground arith,
                Extends-step waiting b.graph g1 b2.graph
                    (rels_ask install node_instance (rel ∷ rels))
                    (rel_asks install node_instance rel) (rels_ask install node_instance rels)
                    (λ x y. refl) ext1 ext2,
              )
          | inr apart ↦
              let (b2, done2, (good, same2, edges)) =
                relate_each-Extends node_instance rels b same inv own plain in
              (
                b2,
                ground arith,
                (good, same2, λ x y. ground (arith, edges x y, is_related-leads_inside rel)),
              )
        ]

  rels_ask-append :
      (install : Bool) (node_instance : NodeInstance) (first second : List Relationship) (a b : ℕ)
      → rels_ask install node_instance (first ++ second) a b
        ≡ (rels_ask install node_instance first a b || rels_ask install node_instance second a b)
  rels_ask-append install node_instance [] second a b = ground arith
  rels_ask-append install node_instance (rel ∷ first) second a b =
      ground (arith, rels_ask-append install node_instance first second a b)

  rels_ask-reverse :
      (install : Bool) (node_instance : NodeInstance) (rels : List Relationship) (a b : ℕ)
      → rels_ask install node_instance (reverse rels) a b ≡ rels_ask install node_instance rels a b
  rels_ask-reverse install node_instance [] a b = refl
  rels_ask-reverse install node_instance (rel ∷ rels) a b = rw (reverse-cons rel rels) (
      ground (
        arith,
        rels_ask-append install node_instance (reverse rels) (rel ∷ []) a b,
        rels_ask-reverse install node_instance rels a b,
      ))

  AllPlain-append :
      (first second : List Relationship)
      → AllPlain first
      → AllPlain second
      → AllPlain (first ++ second)
  AllPlain-append [] second plain plain' = plain'
  AllPlain-append (rel ∷ first) second (one, plain) plain' =
      (one, AllPlain-append first second plain plain')

  AllPlain-reverse : (rels : List Relationship) → AllPlain rels → AllPlain (reverse rels)
  AllPlain-reverse [] plain = tt
  AllPlain-reverse (rel ∷ rels) (one, plain) =
      rw (reverse-cons rel rels)
        (AllPlain-append (reverse rels) (rel ∷ []) (AllPlain-reverse rels plain) (one, tt))

  rels_ask-converse :
      (node_instance : NodeInstance) (rels : List Relationship) (a b : ℕ)
      → rels_ask false node_instance rels a b ≡ rels_ask true node_instance rels b a
  rels_ask-converse node_instance [] a b = refl
  rels_ask-converse node_instance (rel ∷ rels) a b =
      ground (arith, rels_ask-converse node_instance rels a b)

  -- What waits for what on uninstall is the converse of what does on install.
  instances_ask-converse :
      (instances : List NodeInstance) (a b : ℕ)
      → instances_ask false instances a b ≡ instances_ask true instances b a
  instances_ask-converse [] a b = refl
  instances_ask-converse (node_instance ∷ instances) a b = ground (
    arith,
    rels_ask-converse node_instance node_instance.relationships a b,
    instances_ask-converse instances a b,
  )

  module _ (waiting tasks : List ℕ) (install : Bool) (nodes : AreReady tasks p.node_instances)
      (intact : AreReady tasks p.intact_nodes) where
    ordered : NodeInstance → List Relationship
    ordered node_instance =
        if install then node_instance.relationships else reverse node_instance.relationships

    ordered-AllPlain :
        (node_instance : NodeInstance)
        → AllPlain node_instance.relationships
        → AllPlain (ordered node_instance)
    unfolding ordered
    ordered-AllPlain node_instance plain = elim (Bool-cases install) [
      | inl yes_install ↦ rw yes_install plain
      | inr uninstall ↦ rw uninstall (AllPlain-reverse node_instance.relationships plain)
    ]

    -- Where the instances have subgraphs and their relationships wait for no single operation, the
    -- dependencies are added without an exception, and each subgraph gets exactly the dependencies
    -- that the relationships between instances of the processor ask for, no subgraph one on itself.
    pub add_dependencies-Extends :
        (instances : List NodeInstance) (b : Building)
        → b.graph.tasks ≡ tasks
        → IsGraph waiting b.graph
        → AreReady tasks instances
        → (b' : Building) × (add_dependencies p subgraphs install false instances b ≡ ok b')
          × Extends waiting b.graph (instances_ask install instances) b'.graph
    unfolding add_dependencies ordered
    add_dependencies-Extends [] b same inv ready = (b, refl, (inv, refl, λ x y. ground arith))
    add_dependencies-Extends (node_instance ∷ instances) b same inv (own, plain, ready) =
        let plain' : AllPlain (ordered node_instance) = ordered-AllPlain node_instance plain in
        let (b1, done1, ext1) =
          relate_each-Extends waiting tasks install nodes intact node_instance
            (ordered node_instance) b same inv own plain' in
        let (b2, done2, ext2) =
          add_dependencies-Extends instances b1 (ext1.1 ∙ same) ext1.0 ready in
        (
          b2,
          ground arith,
          Extends-step waiting b.graph b1.graph b2.graph
              (instances_ask install (node_instance ∷ instances))
              (rels_ask install node_instance (ordered node_instance))
              (instances_ask install instances)
              (λ x y.
                ground
                  (arith, rels_ask-reverse install node_instance node_instance.relationships x y))
              ext1 ext2,
        )

  -- Uninstall runs in the reverse order of install: from one graph, `b` depends on `a` after the
  -- dependencies of uninstall exactly when `a` depends on `b` after those of install, where neither
  -- depended on the other before, the instances have subgraphs, and their relationships wait for no
  -- single operation.
  pub uninstall-reverses-install :
      (waiting : List ℕ) (b : Building)
      → IsGraph waiting b.graph
      → AreReady b.graph.tasks p.node_instances
      → AreReady b.graph.tasks p.intact_nodes
      → (installed uninstalled : Building) × (add_dependencies p subgraphs true false
            p.node_instances b
          ≡ ok installed)
        × (add_dependencies p subgraphs false false p.node_instances b ≡ ok uninstalled)
        × ((x y : ℕ)
            → mem y (b.graph.dependencies x) ≡ false
            → mem x (b.graph.dependencies y) ≡ false
            → mem x (uninstalled.graph.dependencies y) ≡ mem y (installed.graph.dependencies x))
  uninstall-reverses-install waiting b inv nodes intact =
      let (i, done1, (_, _, edges1)) =
        add_dependencies-Extends waiting b.graph.tasks true nodes intact p.node_instances b refl inv
          nodes in
      let (u, done2, (_, _, edges2)) =
        add_dependencies-Extends waiting b.graph.tasks false nodes intact p.node_instances b refl
          inv nodes in
      (
        i,
        u,
        done1,
        done2,
        λ x y apart apart'.
            ground (arith, edges1 x y, edges2 y x, instances_ask-converse p.node_instances y x),
      )
