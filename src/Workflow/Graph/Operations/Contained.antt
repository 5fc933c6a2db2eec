-- ===== src/Workflow/Graph/Operations/Contained.antt =====
-- One operation is restored: each task depends on its subgraph, but for one that is open.
use cloudify_common.Prelude.{
  ℕ, ◌≡◌, ◌≢◌, Bool, true, false, ◌&&◌, ◌||◌, Option, none, some, is_none, nat_beq, ok, arith,
  nat_eq,
}
use cloudify_common.Prelude.Dict.{Dict, get, has_key, get-put}
use cloudify_common.Prelude.Set.{mem, add, mem-add, mem-discard}
use cloudify_common.Workflow.Graph.{assign, add_task, link, add_dependency}
use cloudify_common.Workflow.Task.{TaskState}
use cloudify_common.Workflow.Graph.Operations.{
  OperationDescr, Restoring, restore_operation, put_in_subgraph,
}

module _ (ops_by_id : Dict ℕ OperationDescr) where
  abbrev pub container : ℕ → Option ℕ
  container a = elim (get a ops_by_id) [ none ↦ none | some d ↦ d.containing_subgraph ]

  -- The operation `a` is stored as one of the subgraph `b`.
  abbrev pub contained : ℕ → ℕ → Bool
  contained a b = elim (container a) [ none ↦ false | some subgraph ↦ nat_beq subgraph b ]

  -- A graph whose dependencies are those of tasks on their subgraphs, where the other tasks are
  -- ready, and which has the tasks that were restored.
  pub record IsRestored (r : Restoring) : Type 0 where
    pub mirror : (a b : ℕ) → mem b (r.graph.dependencies a) ≡ mem a (r.graph.dependents b)
    pub edges : (a b : ℕ) → mem b (r.graph.dependencies a) ≡ (mem a r.graph.tasks && contained a b)
    pub target : (a b : ℕ) → mem b (r.graph.dependencies a) ≡ true → mem b r.graph.tasks ≡ true
    pub ready : (a : ℕ) → mem a r.graph.ready ≡ (mem a r.graph.tasks && is_none (container a))
    pub known : (a : ℕ) → has_key a r.restored_ops ≡ true → mem a r.graph.tasks ≡ true

  -- The same, but for a task `x` that is still to be put into its subgraph.
  pub record IsOpen (x : ℕ) (r : Restoring) : Type 0 where
    pub mirror : (a b : ℕ) → mem b (r.graph.dependencies a) ≡ mem a (r.graph.dependents b)
    pub edges :
        (a b : ℕ) → a ≢ x → mem b (r.graph.dependencies a) ≡ (mem a r.graph.tasks && contained a b)
    pub own_edges :
        (b : ℕ)
        → mem b (r.graph.dependencies x) ≡ true
        → (mem x r.graph.tasks && contained x b) ≡ true
    pub target : (a b : ℕ) → mem b (r.graph.dependencies a) ≡ true → mem b r.graph.tasks ≡ true
    pub ready :
        (a : ℕ) → a ≢ x → mem a r.graph.ready ≡ (mem a r.graph.tasks && is_none (container a))
    pub known : (a : ℕ) → a ≢ x → has_key a r.restored_ops ≡ true → mem a r.graph.tasks ≡ true

  pub IsOpen-restore_operation :
      (x : ℕ) (state : TaskState) (r : Restoring)
      → IsRestored r
      → IsOpen x (restore_operation x state r)
  unfolding restore_operation
  IsOpen-restore_operation x state r inv = record {
    mirror = inv.mirror;
    edges = λ a b apart. inv.edges a b;
    own_edges = λ b m. ground (arith, inv.edges x b);
    target = inv.target;
    ready = λ a apart. inv.ready a;
    known = λ a apart m. ground (arith, inv.known a, get-put x a state r.restored_ops);
  }

  pub finish-IsRestored :
      (x : ℕ) (r : Restoring)
      → IsOpen x r
      → container x ≡ none
      → IsRestored (record r { graph = add_task x r.graph })
  unfolding add_task
  finish-IsRestored x r inv top = record {
    mirror = inv.mirror;
    edges = λ a b. ground (arith, mem-add x a r.graph.tasks, inv.edges a b, inv.own_edges b);
    target = λ a b m. ground (arith, mem-add x b r.graph.tasks, inv.target a b);
    ready = λ a. ground (arith, mem-add x a r.graph.tasks, mem-add x a r.graph.ready, inv.ready a);
    known = λ a m. ground (arith, mem-add x a r.graph.tasks, inv.known a);
  }

  -- The tasks are still there, and `x` too.
  abbrev pub Keeps : ℕ → Restoring → Restoring → Type 0
  Keeps x r r' =
      (mem x r'.graph.tasks ≡ true)
      × ((a : ℕ) → mem a r.graph.tasks ≡ true → mem a r'.graph.tasks ≡ true)

  pub add_task-Keeps : (x : ℕ) (r : Restoring) → Keeps x r (record r { graph = add_task x r.graph })
  unfolding add_task
  add_task-Keeps x r = (
    ground (arith, mem-add x x r.graph.tasks),
    λ a there. ground (arith, mem-add x a r.graph.tasks),
  )

  module _ (x s : ℕ) (state : TaskState) (r : Restoring) (inv : IsOpen x r)
      (inside : container x ≡ some s) (apart : s ≢ x) where
    abbrev pub with_subgraph : Restoring
    with_subgraph =
        let restored = restore_operation s state r in
        record restored { graph = add_task s restored.graph }

    abbrev in_subgraph : Restoring
    in_subgraph = record {
      graph = link x s (add_task x with_subgraph.graph);
      restored_ops = with_subgraph.restored_ops;
      containing_subgraph = assign with_subgraph.containing_subgraph x (some s);
      subgraph_tasks =
          assign with_subgraph.subgraph_tasks s (add x (with_subgraph.subgraph_tasks s));
    }

    mem-tasks :
        (a : ℕ)
        → mem a in_subgraph.graph.tasks ≡ (nat_beq x a || nat_beq s a || mem a r.graph.tasks)
    unfolding link add_task restore_operation
    mem-tasks a = ground (arith, mem-add x a (add s r.graph.tasks), mem-add s a r.graph.tasks)

    put_in_subgraph-in_subgraph : put_in_subgraph x s with_subgraph ≡ ok in_subgraph
    unfolding put_in_subgraph add_dependency add_task link
    put_in_subgraph-in_subgraph = let own = mem-tasks x in let above = mem-tasks s in ground arith

    in_subgraph-IsOpen : IsOpen s in_subgraph
    unfolding link add_task restore_operation
    in_subgraph-IsOpen = record {
      mirror = λ a b. ground (
        arith,
        mem-add s b (r.graph.dependencies x),
        mem-add x a (r.graph.dependents s),
        inv.mirror a b,
        inv.mirror x b,
        inv.mirror a s,
      );
      edges = λ a b other. ground (
        arith,
        mem-tasks a,
        mem-add s b (r.graph.dependencies x),
        inv.edges a b,
        inv.own_edges b,
      );
      own_edges = λ b m. ground (arith, mem-tasks s, inv.edges s b);
      target = λ a b m.
          ground (arith, mem-tasks b, mem-add s b (r.graph.dependencies x), inv.target a b);
      ready = λ a other. ground (
        arith,
        mem-tasks a,
        mem-add x a (add s r.graph.ready),
        mem-add s a r.graph.ready,
        mem-discard x a (add x (add s r.graph.ready)),
        inv.ready a,
      );
      known =
          λ a other m. ground (arith, mem-tasks a, inv.known a, get-put s a state r.restored_ops);
    }

    pub put_in_subgraph-IsOpen :
        (r' : Restoring) × (put_in_subgraph x s with_subgraph ≡ ok r') × IsOpen s r' × Keeps x r r'
    put_in_subgraph-IsOpen = (
      in_subgraph,
      put_in_subgraph-in_subgraph,
      in_subgraph-IsOpen,
      (ground (arith, mem-tasks x), λ a there. ground (arith, mem-tasks a)),
    )
