-- ===== src/Workflow/Graph/Invariant.antt =====
-- The invariant of a graph, and the operations that add to it.
use cloudify_common.Prelude.{
  ℕ, ◌≡◌, ◌≢◌, refl, true, false, ◌||◌, List, [], ◌∷◌, nat_beq, arith, ok, Bool-cases, inl, subst,
  inr, is_empty,
}
use cloudify_common.Prelude.Set.{mem, add, discard, mem-add, mem-discard}
use cloudify_common.Workflow.Graph.{
  Graph, empty_graph, add_task, link, add_dependency, unlink, remove_dependency,
}

-- `waiting` are the tasks that were started and have not terminated.
pub record IsGraph (waiting : List ℕ) (g : Graph) : Type 0 where
  -- The two directions of the dependencies agree.
  pub mirror : (a b : ℕ) → mem b (g.dependencies a) ≡ mem a (g.dependents b)
  -- Only tasks of the graph depend on something, or are depended on.
  pub source : (a b : ℕ) → mem b (g.dependencies a) ≡ true → mem a g.tasks ≡ true
  pub target : (a b : ℕ) → mem b (g.dependencies a) ≡ true → mem b g.tasks ≡ true
  pub irreflexive : (a : ℕ) → mem a (g.dependencies a) ≡ false
  -- A ready task is in the graph and depends on nothing.
  pub ready_in : (a : ℕ) → mem a g.ready ≡ true → mem a g.tasks ≡ true
  pub ready_free : (a : ℕ) → mem a g.ready ≡ true → is_empty (g.dependencies a) ≡ true
  -- A task that depends on nothing is ready to start, or was started.
  pub scheduled :
      (a : ℕ)
      → mem a g.tasks ≡ true
      → is_empty (g.dependencies a) ≡ true
      → (mem a g.ready || mem a waiting) ≡ true

pub not-is_empty-add : (x : ℕ) (s : List ℕ) → is_empty (add x s) ≡ false
unfolding add mem
not-is_empty-add x [] = refl
not-is_empty-add x (y ∷ s) = ground arith

pub mem-is_empty : (x : ℕ) (s : List ℕ) → is_empty s ≡ true → mem x s ≡ false
unfolding mem
mem-is_empty x [] h = refl
mem-is_empty x (y ∷ s) h = cc

pub is_empty-discard : (x : ℕ) (s : List ℕ) → is_empty s ≡ true → is_empty (discard x s) ≡ true
unfolding discard
is_empty-discard x [] h = refl
is_empty-discard x (y ∷ s) h = cc

pub is_empty_of_no_mem : (s : List ℕ) → ((x : ℕ) → ¬ (mem x s ≡ true)) → is_empty s ≡ true
unfolding mem
is_empty_of_no_mem [] h = refl
is_empty_of_no_mem (y ∷ s) h = absurd (h y (ground arith))

pub empty_graph-IsGraph : (waiting : List ℕ) → IsGraph waiting empty_graph
unfolding empty_graph mem
empty_graph-IsGraph waiting = ground arith

module _ (waiting : List ℕ) (g : Graph) (inv : IsGraph waiting g) where
  -- Adding a task that the graph does not have.
  pub add_task-IsGraph : (t : ℕ) → mem t g.tasks ≡ false → IsGraph waiting (add_task t g)
  unfolding add_task
  add_task-IsGraph t new = record {
    mirror = inv.mirror;
    source = λ a b h. ground (arith, mem-add t a g.tasks, inv.source a b h);
    target = λ a b h. ground (arith, mem-add t b g.tasks, inv.target a b h);
    irreflexive = inv.irreflexive;
    ready_in = λ a h. ground (arith, mem-add t a g.tasks, mem-add t a g.ready, inv.ready_in a);
    ready_free = λ a h. ground (
      arith,
      mem-add t a g.ready,
      inv.ready_free a,
      is_empty_of_no_mem (g.dependencies t) (λ x m. cc (inv.source t x m)),
    );
    scheduled = λ a h k. ground (arith, mem-add t a g.tasks, mem-add t a g.ready, inv.scheduled a);
  }

  pub link-IsGraph :
      (src dst : ℕ)
      → src ≢ dst
      → mem src g.tasks ≡ true
      → mem dst g.tasks ≡ true
      → IsGraph waiting (link src dst g)
  unfolding link
  link-IsGraph src dst ne hs hd = record {
    mirror = λ a b. ground (
      arith,
      mem-add dst b (g.dependencies src),
      mem-add src a (g.dependents dst),
      inv.mirror a b,
      inv.mirror src b,
      inv.mirror a dst,
      inv.mirror src dst,
    );
    source = λ a b h. ground (arith, mem-add dst b (g.dependencies src), inv.source a b);
    target = λ a b h. ground (arith, mem-add dst b (g.dependencies src), inv.target a b);
    irreflexive = λ a. ground (arith, mem-add dst a (g.dependencies src), inv.irreflexive a);
    ready_in = λ a h. ground (arith, mem-discard src a g.ready, inv.ready_in a);
    ready_free = λ a h. ground (arith, mem-discard src a g.ready, inv.ready_free a);
    scheduled = λ a h k. ground (
      arith,
      mem-discard src a g.ready,
      not-is_empty-add dst (g.dependencies src),
      inv.scheduled a,
    );
  }

  pub unlink-IsGraph : (src dst : ℕ) → mem src g.tasks ≡ true → IsGraph waiting (unlink src dst g)
  unfolding unlink
  unlink-IsGraph src dst hs = record {
    mirror = λ a b. ground (
      arith,
      mem-discard dst b (g.dependencies src),
      mem-discard src a (g.dependents dst),
      inv.mirror a b,
      inv.mirror src b,
      inv.mirror a dst,
      inv.mirror src dst,
    );
    source = λ a b h. ground (arith, mem-discard dst b (g.dependencies src), inv.source a b);
    target = λ a b h. ground (arith, mem-discard dst b (g.dependencies src), inv.target a b);
    irreflexive = λ a. ground (arith, mem-discard dst a (g.dependencies src), inv.irreflexive a);
    ready_in = λ a h. ground (arith, mem-add src a g.ready, inv.ready_in a);
    ready_free = λ a h.
        ground (
          arith,
          mem-add src a g.ready,
          inv.ready_free a,
          is_empty-discard dst (g.dependencies src),
        );
    scheduled = λ a h k. ground (arith, mem-add src a g.ready, inv.scheduled a);
  }

  -- Whenever `add_dependency` returns, the graph is well formed again.
  pub add_dependency-IsGraph :
      (src dst : ℕ) {g' : Graph} → add_dependency src dst g ≡ ok g' → IsGraph waiting g'
  unfolding add_dependency
  add_dependency-IsGraph src dst {g'} h = elim (Bool-cases (nat_beq src dst)) [
    | inl e ↦ subst (IsGraph waiting) (let p : g ≡ g' = ground arith in p) inv
    | inr e ↦
        subst (IsGraph waiting) (let p : link src dst g ≡ g' = ground arith in p)
          (link-IsGraph src dst (ground arith) (ground arith) (ground arith))
  ]

  -- Whenever `remove_dependency` returns, the graph is well formed again.
  pub remove_dependency-IsGraph :
      (src dst : ℕ) {g' : Graph} → remove_dependency src dst g ≡ ok g' → IsGraph waiting g'
  unfolding remove_dependency
  remove_dependency-IsGraph src dst {g'} h =
      subst (IsGraph waiting) (let p : unlink src dst g ≡ g' = ground arith in p)
        (unlink-IsGraph src dst (ground arith))
