-- ===== src/Workflow/Graph/Edges.antt =====
-- What the loops of `remove_task` do to the edges and to the set of ready tasks.
use cloudify_common.Prelude.{
  ℕ, ◌≡◌, refl, ◌&&◌, ◌||◌, List, [], ◌∷◌, if◌then◌else◌, arith, is_empty,
}
use cloudify_common.Prelude.Set.{mem, add, discard, mem-add}
use cloudify_common.Workflow.Graph.{Graph, assign, release, forget}

pub discard-discard : (x : ℕ) (s : List ℕ) → discard x (discard x s) ≡ discard x s
unfolding discard
discard-discard x [] = refl
discard-discard x (y ∷ s) = ground (arith, discard-discard x s)

pub release-dependencies :
    (t : ℕ) (ds : List ℕ) (g : Graph) (a : ℕ)
    → (release t ds g).dependencies a
      ≡ (if mem a ds then discard t (g.dependencies a) else g.dependencies a)
unfolding release mem
release-dependencies t [] g a = refl
release-dependencies t (d ∷ ds) g a =
    let left = discard t (g.dependencies d) in
    ground (
      arith,
      discard-discard t (g.dependencies a),
      release-dependencies t ds
          (record g {
            dependencies = assign g.dependencies d left;
            ready = if is_empty left then add d g.ready else g.ready;
          })
          a,
    )

pub release-ready :
    (t : ℕ) (ds : List ℕ) (g : Graph) (a : ℕ)
    → mem a (release t ds g).ready
      ≡ (mem a g.ready || mem a ds && is_empty (discard t (g.dependencies a)))
unfolding release mem
release-ready t [] g a = ground arith
release-ready t (d ∷ ds) g a =
    let left = discard t (g.dependencies d) in
    ground (
      arith,
      discard-discard t (g.dependencies a),
      mem-add d a g.ready,
      release-ready t ds
          (record g {
            dependencies = assign g.dependencies d left;
            ready = if is_empty left then add d g.ready else g.ready;
          })
          a,
    )

pub release_frame :
    (t : ℕ) (ds : List ℕ) (g : Graph)
    → ((release t ds g).tasks ≡ g.tasks) × ((release t ds g).dependents ≡ g.dependents)
unfolding release
release_frame t [] g = (refl, refl)
release_frame t (d ∷ ds) g =
    let left = discard t (g.dependencies d) in
    release_frame t ds (record g {
      dependencies = assign g.dependencies d left;
      ready = if is_empty left then add d g.ready else g.ready;
    })

pub forget-dependents :
    (t : ℕ) (ds : List ℕ) (g : Graph) (a : ℕ)
    → (forget t ds g).dependents a
      ≡ (if mem a ds then discard t (g.dependents a) else g.dependents a)
unfolding forget mem
forget-dependents t [] g a = refl
forget-dependents t (d ∷ ds) g a = ground (
  arith,
  discard-discard t (g.dependents a),
  forget-dependents t ds
      (record g { dependents = assign g.dependents d (discard t (g.dependents d)) }) a,
)

pub forget_frame :
    (t : ℕ) (ds : List ℕ) (g : Graph)
    → ((forget t ds g).tasks ≡ g.tasks)
      × ((forget t ds g).dependencies ≡ g.dependencies)
      × ((forget t ds g).ready ≡ g.ready)
unfolding forget
forget_frame t [] g = (refl, refl, refl)
forget_frame t (d ∷ ds) g =
    forget_frame t ds (record g { dependents = assign g.dependents d (discard t (g.dependents d)) })
