-- ===== src/Workflow/Graph/Restore/Edges.antt =====
-- The dependencies of a restored graph.
use cloudify_common.Prelude.{
  ℕ, Option, none, some, Option-cases, ◌≡◌, refl, Bool, true, false, not, ◌&&◌, ◌||◌, List, [], ◌∷◌,
  if◌then◌else◌, nat_beq, Result, ok, raise, arith, Bool-cases, inl, inr, subst, sym, ◌∙◌, nat_eq,
}
use cloudify_common.Prelude.Dict.{Dict, get, put, get-put, or_else}
use cloudify_common.Prelude.Set.{mem, mem-add}
use cloudify_common.Workflow.Graph.{Graph, get_task, link, add_dependency}
use cloudify_common.Workflow.Graph.Invariant.{IsGraph, link-IsGraph}
use cloudify_common.Workflow.Graph.Restore.{
  StoredOperation, RestoreError, last_retry, retrieve_active_target, depend, restore_dependency,
  restore_all, restore_each, retries_into, retries_of, restore_dependencies,
}

module _ (fuel : ℕ) (retries : Dict ℕ ℕ) where
  -- The end of a chain of retries, if the graph has it.
  abbrev end_in : List ℕ → Result RestoreError ℕ → ℕ → Bool
  end_in tasks (ok last) b = mem last tasks && nat_beq last b
  end_in tasks (raise error) b = false

  -- The task `b` stands for a stored dependency on `target`: it is the task itself, or if that is
  -- not in the graph, its last retry.
  abbrev pub stands_for : List ℕ → ℕ → ℕ → Bool
  stands_for tasks target b =
      if mem target tasks then nat_beq target b else end_in tasks (last_retry fuel retries target) b

  abbrev pub any_stands_for : List ℕ → List ℕ → ℕ → Bool
  any_stands_for tasks [] b = false
  any_stands_for tasks (target ∷ rest) b = stands_for tasks target b || any_stands_for tasks rest b

  -- The stored operations let `a` depend on `b`.
  abbrev pub asks : List ℕ → List StoredOperation → ℕ → ℕ → Bool
  asks tasks [] a b = false
  asks tasks (op ∷ ops) a b =
      nat_beq op.id a && mem a tasks && any_stands_for tasks op.dependencies b && not (nat_beq a b)
      || asks tasks ops a b

  -- Every chain of retries ends.
  abbrev pub Ends : Type 0
  Ends = (target : ℕ) → (last : ℕ) × (last_retry fuel retries target ≡ ok last)

  -- A graph with the same tasks and the dependencies of `g` and `more`.
  abbrev pub Extends : List ℕ → Graph → (ℕ → ℕ → Bool) → Graph → Type 0
  Extends waiting g more g' =
      IsGraph waiting g'
      × (g'.tasks ≡ g.tasks)
      × ((a b : ℕ) → mem b (g'.dependencies a) ≡ (mem b (g.dependencies a) || more a b))

  module _ (waiting : List ℕ) where
    depend-Extends :
        (op target : ℕ) (g : Graph)
        → IsGraph waiting g
        → mem op g.tasks ≡ true
        → mem target g.tasks ≡ true
        → (g' : Graph) × (depend op target g ≡ ok g')
          × Extends waiting g (λ a b. nat_beq op a && nat_beq target b && not (nat_beq a b)) g'
    unfolding add_dependency link
    depend-Extends op target g inv known there = elim (Bool-cases (nat_beq op target)) [
      | inl same ↦ (g, ground arith, (inv, refl, λ a b. ground arith))
      | inr apart ↦ (
        link op target g,
        ground arith,
        (
          link-IsGraph waiting g inv op target (ground arith) known there,
          refl,
          λ a b. ground (arith, mem-add target b (g.dependencies op)),
        ),
      )
    ]

    restore_dependency-Extends :
        Ends
        → (op target : ℕ) (g : Graph) → IsGraph waiting g
        → mem op g.tasks ≡ true
        → (g' : Graph) × (restore_dependency fuel retries op target g ≡ ok g')
          × Extends waiting g
              (λ a b. nat_beq op a && stands_for g.tasks target b && not (nat_beq a b))
              g'
    unfolding restore_dependency get_task retrieve_active_target
    restore_dependency-Extends ends op target g inv known = elim (Bool-cases (mem target g.tasks)) [
      | inl there ↦
          let (g', done, (good, same, edges)) = depend-Extends op target g inv known there in
          (g', ground arith, (good, same, λ a b. ground (arith, edges a b)))
      | inr gone ↦
          let (last, found) = ends target in
          elim (Bool-cases (mem last g.tasks)) [
            | inl there ↦
                let (g', done, (good, same, edges)) = depend-Extends op last g inv known there in
                (g', ground arith, (good, same, λ a b. ground (arith, edges a b)))
            | inr nothing ↦ (g, ground arith, (inv, refl, λ a b. ground arith))
          ]
    ]

    restore_all-Extends :
        Ends
        → (op : ℕ) (targets : List ℕ) (g : Graph) → IsGraph waiting g
        → mem op g.tasks ≡ true
        → (g' : Graph) × (restore_all fuel retries op targets g ≡ ok g')
          × Extends waiting g
              (λ a b. nat_beq op a && any_stands_for g.tasks targets b && not (nat_beq a b))
              g'
    unfolding restore_all
    restore_all-Extends ends op [] g inv known = (g, refl, (inv, refl, λ a b. ground arith))
    restore_all-Extends ends op (target ∷ rest) g inv known =
        let (g1, one, (inv1, same1, edges1)) =
          restore_dependency-Extends ends op target g inv known in
        let (g2, two, (inv2, same2, edges2)) =
          restore_all-Extends ends op rest g1 inv1 (ground arith) in
        (
          g2,
          ground arith,
          (
            inv2,
            same2 ∙ same1,
            λ a b.
                let more =
                  subst
                    (λ (tasks : List ℕ).
                      any_stands_for tasks rest b ≡ any_stands_for g.tasks rest b)
                    (sym same1) refl in
                ground (arith, edges1 a b, edges2 a b),
          ),
        )

    restore_each-Extends :
        Ends
        → (ops : List StoredOperation) (g : Graph) → IsGraph waiting g
        → (g' : Graph) × (restore_each fuel retries ops g ≡ ok g')
          × Extends waiting g (asks g.tasks ops) g'
    unfolding restore_each get_task
    restore_each-Extends ends [] g inv = (g, refl, (inv, refl, λ a b. ground arith))
    restore_each-Extends ends (op ∷ ops) g inv = elim (Bool-cases (mem op.id g.tasks)) [
      | inr gone ↦
          let (g', done, (good, same, edges)) = restore_each-Extends ends ops g inv in
          (g', ground arith, (good, same, λ a b. ground (arith, edges a b)))
      | inl known ↦
          let (g1, one, (inv1, same1, edges1)) =
            restore_all-Extends ends op.id op.dependencies g inv known in
          let (g2, two, (inv2, same2, edges2)) = restore_each-Extends ends ops g1 inv1 in
          (
            g2,
            ground arith,
            (
              inv2,
              same2 ∙ same1,
              λ a b.
                  let more =
                    subst (λ (tasks : List ℕ). asks tasks ops a b ≡ asks g.tasks ops a b)
                      (sym same1) refl in
                  ground (arith, edges1 a b, edges2 a b),
            ),
          )
    ]

-- The last of the stored operations that is a retry of the task.
abbrev pub newest_retry : List StoredOperation → ℕ → Option ℕ
newest_retry [] task = none
newest_retry (op ∷ ops) task =
    let own : Option ℕ = elim op.retried_task [
      | none ↦ none
      | some retried ↦ if nat_beq retried task then some op.id else none
    ] in
    or_else (newest_retry ops task) own

get-retries_into :
    (ops : List StoredOperation) (retries : Dict ℕ ℕ) (task : ℕ)
    → get task (retries_into retries ops) ≡ or_else (newest_retry ops task) (get task retries)
unfolding retries_into
get-retries_into [] retries task = refl
get-retries_into (op ∷ ops) retries task = elim (Option-cases op.retried_task) [
  | inl none_given ↦ ground (arith, get-retries_into ops retries task)
  | inr (retried, given) ↦
      let rest = get-retries_into ops (put retried op.id retries) task in
      ground (arith, rest, get-put retried task op.id retries)
]

get-retries_of :
    (ops : List StoredOperation) (task : ℕ) → get task (retries_of ops) ≡ newest_retry ops task
unfolding retries_of get
get-retries_of ops task = ground (arith, get-retries_into ops [] task)

pub restore_dependencies-Extends :
    (fuel : ℕ) (ops : List StoredOperation) (waiting : List ℕ) (g : Graph)
    → Ends fuel (retries_of ops)
    → IsGraph waiting g
    → (g' : Graph) × (restore_dependencies fuel ops g ≡ ok g')
      × Extends fuel (retries_of ops) waiting g (asks fuel (retries_of ops) g.tasks ops) g'
      × ((task : ℕ) → get task (retries_of ops) ≡ newest_retry ops task)
unfolding restore_dependencies
restore_dependencies-Extends fuel ops waiting g ends inv =
    let (g', done, extends) = restore_each-Extends fuel (retries_of ops) waiting ends ops g inv in
    (g', done, extends, get-retries_of ops)
