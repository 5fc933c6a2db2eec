-- ===== src/Workflow/Graph/Removal.antt =====
-- `remove_task` keeps the invariant of a graph, and removes the task with all of its edges.
use cloudify_common.Workflow.Graph.Invariant.{IsGraph, is_empty-discard}
use cloudify_common.Prelude.{
  refl, ap, zero, suc, ◌<◌, ℕ, ◌≡◌, false, not, ◌&&◌, ◌||◌, List, [], nat_beq, if◌then◌else◌, arith,
  ◌∙◌, ap, true, ◌∷◌, suc, Bool-cases, inl, inr, is_empty,
}
use cloudify_common.Prelude.Set.{mem, discard, mem-discard}
use cloudify_common.Workflow.Graph.{
  Graph, release, detach, drop_task, clear_dependencies, remove_tasks, remove_task, remove_one,
}
use cloudify_common.Workflow.Graph.Edges.{
  release-dependencies, release-ready, release_frame, forget-dependents, forget_frame,
}

-- The fields of the graph after the removal of a task that it has.
pub record Removed (t : ℕ) (g g' : Graph) : Type 0 where
  pub tasks : g'.tasks ≡ discard t g.tasks
  pub dependencies :
      (a : ℕ)
      → g'.dependencies a ≡ (
          if nat_beq t a
          then []
          else if mem a (g.dependents t)
          then discard t (g.dependencies a)
          else g.dependencies a)
  pub dependents :
      (a : ℕ)
      → g'.dependents a ≡ (
          if nat_beq t a
          then []
          else if mem a (g.dependencies t)
          then discard t (g.dependents a)
          else g.dependents a)
  pub ready :
      (a : ℕ)
      → mem a g'.ready ≡ (
          not (nat_beq t a) && mem a g.ready
          || mem a (g.dependents t) && is_empty (discard t (g.dependencies a)))

module _ (t : ℕ) (g : Graph) (loop : mem t (g.dependents t) ≡ false) where
  abbrev released : Graph
  released = release t (g.dependents t) (drop_task t g)

  released_own : released.dependencies t ≡ g.dependencies t
  unfolding drop_task
  released_own = ground (arith, release-dependencies t (g.dependents t) (drop_task t g) t)

  abbrev cleared : Graph
  cleared = clear_dependencies t released

  detach-Removed : Removed t g (detach t g)
  unfolding detach drop_task clear_dependencies discard mem
  detach-Removed =
      let frame = forget_frame t (released.dependencies t) cleared in
      let frame' = release_frame t (g.dependents t) (drop_task t g) in
      record {
        tasks = frame.0 ∙ frame'.0;
        dependencies = λ a. ground (
          arith,
          ap (λ (f : ℕ → List ℕ). f a) frame.1,
          release-dependencies t (g.dependents t) (drop_task t g) a,
        );
        dependents = λ a. ground (
          arith,
          released_own,
          ap (λ (f : ℕ → List ℕ). f a) frame'.1,
          forget-dependents t (released.dependencies t) cleared a,
        );
        ready = λ a. ground (
          arith,
          frame.2,
          mem-discard t a g.ready,
          release-ready t (g.dependents t) (drop_task t g) a,
        );
      }

module _ (t : ℕ) (g g' : Graph) (waiting waiting' : List ℕ)
    (kept : (a : ℕ) → nat_beq t a ≡ false → mem a waiting ≡ true → mem a waiting' ≡ true)
    (inv : IsGraph waiting g) (removed : Removed t g g') where
  Removed-IsGraph : IsGraph waiting' g'
  unfolding mem
  Removed-IsGraph = record {
    mirror = λ a b. ground (
      arith,
      removed.dependencies a,
      removed.dependents b,
      inv.mirror a b,
      inv.mirror t b,
      inv.mirror a t,
      mem-discard t b (g.dependencies a),
      mem-discard t a (g.dependents b),
    );
    source = λ a b h. ground (
      arith,
      removed.tasks,
      removed.dependencies a,
      inv.source a b,
      mem-discard t b (g.dependencies a),
      mem-discard t a g.tasks,
    );
    target = λ a b h. ground (
      arith,
      removed.tasks,
      removed.dependencies a,
      inv.target a b,
      inv.mirror a t,
      mem-discard t b (g.dependencies a),
      mem-discard t b g.tasks,
    );
    irreflexive = λ a.
        ground
          (arith, removed.dependencies a, inv.irreflexive a, mem-discard t a (g.dependencies a));
    ready_in = λ a h. ground (
      arith,
      removed.tasks,
      removed.ready a,
      inv.ready_in a,
      mem-discard t a g.tasks,
      inv.mirror a t,
      inv.source a t,
      inv.irreflexive t,
    );
    ready_free = λ a h. ground (
      arith,
      removed.ready a,
      removed.dependencies a,
      inv.ready_free a,
      inv.mirror a t,
      inv.irreflexive t,
      is_empty-discard t (g.dependencies a),
    );
    scheduled = λ a h k. ground (
      arith,
      removed.tasks,
      removed.ready a,
      removed.dependencies a,
      inv.scheduled a,
      mem-discard t a g.tasks,
      kept a,
    );
  }

module _ (t : ℕ) (g : Graph) (waiting waiting' : List ℕ)
    (kept : (a : ℕ) → nat_beq t a ≡ false → mem a waiting ≡ true → mem a waiting' ≡ true)
    (inv : IsGraph waiting g) where
  -- Removing one task keeps the invariant, also when the task is no longer waited for.
  pub remove_one-IsGraph : IsGraph waiting' (remove_one t g)
  unfolding remove_one
  remove_one-IsGraph = elim (Bool-cases (mem t g.tasks)) [
    | inl e ↦ rw e (
        Removed-IsGraph t g (detach t g) waiting waiting' kept inv
          (detach-Removed t g (ground (arith, inv.mirror t t, inv.irreflexive t))))
    | inr e ↦ rw e (record {
      mirror = inv.mirror;
      source = inv.source;
      target = inv.target;
      irreflexive = inv.irreflexive;
      ready_in = inv.ready_in;
      ready_free = inv.ready_free;
      scheduled = λ a h k. ground (arith, inv.scheduled a, kept a);
    })
  ]

  -- No edge of the removed task is left, and no other edge is lost.
  pub remove_one-edges :
      mem t g.tasks ≡ true
      → (a b : ℕ)
      → mem b ((remove_one t g).dependencies a)
        ≡ (not (nat_beq t a) && not (nat_beq t b) && mem b (g.dependencies a))
  unfolding remove_one mem
  remove_one-edges e a b =
      let removed = detach-Removed t g (ground (arith, inv.mirror t t, inv.irreflexive t)) in
      rw e
        (ground (arith, removed.dependencies a, inv.mirror a t, mem-discard t b (g.dependencies a)))

module _ (waiting : List ℕ) where
  remove_tasks-IsGraph :
      (remove : ℕ → Graph → Graph)
      → ((t : ℕ) (g : Graph) → IsGraph waiting g → IsGraph waiting (remove t g))
      → (ts : List ℕ) (g : Graph) → IsGraph waiting g
      → IsGraph waiting (remove_tasks remove ts g)
  unfolding remove_tasks
  remove_tasks-IsGraph remove keep [] g inv = inv
  remove_tasks-IsGraph remove keep (t ∷ ts) g inv =
      remove_tasks-IsGraph remove keep ts (remove t g) (keep t g inv)

  -- Removing a task with all that it holds keeps the invariant.
  pub remove_task-IsGraph :
      (fuel : ℕ) (children : ℕ → List ℕ) (t : ℕ) (g : Graph) (waiting' : List ℕ)
      → ((a : ℕ) → nat_beq t a ≡ false → mem a waiting ≡ true → mem a waiting' ≡ true)
      → IsGraph waiting g
      → IsGraph waiting' (remove_task (suc fuel) children t g)
  unfolding remove_task
  remove_task-IsGraph fuel children t g waiting' kept inv =
      remove_one-IsGraph t _ waiting waiting' kept
        (remove_tasks-IsGraph (remove_task fuel children) (inner fuel) (children t) g inv)
    where
      inner :
          (fuel : ℕ) (t : ℕ) (g : Graph)
          → IsGraph waiting g
          → IsGraph waiting (remove_task fuel children t g)
      inner zero t g inv = inv
      inner (suc fuel) t g inv =
          remove_one-IsGraph t _ waiting waiting (λ a ne h. h)
            (remove_tasks-IsGraph (remove_task fuel children) (inner fuel) (children t) g inv)

module _ (children : ℕ → List ℕ) (depth : ℕ → ℕ)
    (nested : (a b : ℕ) → mem b (children a) ≡ true → depth b < depth a) where
  remove_tasks-fuel :
      (f f' bound : ℕ)
      → ((t : ℕ) (g : Graph)
          → depth t < bound
          → remove_task f children t g ≡ remove_task f' children t g)
      → (ts : List ℕ) → ((b : ℕ) → mem b ts ≡ true → depth b < bound)
      → (g : Graph)
      → remove_tasks (remove_task f children) ts g ≡ remove_tasks (remove_task f' children) ts g
  unfolding remove_tasks mem
  remove_tasks-fuel f f' bound same [] below g = refl
  remove_tasks-fuel f f' bound same (t ∷ ts) below g =
      rw (same t g (below t (ground arith)))
        (remove_tasks-fuel f f' bound same ts (λ b m. below b (ground arith)) _)

  -- Fuel above the nesting of the subgraphs is enough: more of it changes nothing.
  remove_task-fuel :
      (f f' t : ℕ) (g : Graph)
      → depth t < f
      → depth t < f'
      → remove_task f children t g ≡ remove_task f' children t g
  unfolding remove_task
  remove_task-fuel zero f' t g h h' = elim h [ ]
  remove_task-fuel (suc f) zero t g h h' = elim h' [ ]
  remove_task-fuel (suc f) (suc f') t g h h' = ap (remove_one t) (
      remove_tasks-fuel f f' (depth t)
        (λ b g' below. remove_task-fuel f f' b g' (omega arith) (omega arith)) (children t)
        (λ b m. nested t b m) g)
