-- ===== src/Lifecycle/Extension.antt =====
-- Graphs that get more dependencies.
use cloudify_common.Prelude.{
  ℕ, ◌≡◌, refl, Bool, true, not, ◌&&◌, ◌||◌, List, nat_beq, ok, arith, Bool-cases, inl, inr, ◌∙◌,
}
use cloudify_common.Prelude.Set.{mem, mem-add}
use cloudify_common.Workflow.Graph.{Graph, link, add_dependency}
use cloudify_common.Workflow.Graph.Invariant.{IsGraph, link-IsGraph}
use cloudify_common.Lifecycle.{depend}

module _ (waiting : List ℕ) where
  -- A well formed graph with the tasks of `g`, and the dependencies of `g` and those of `more`.
  abbrev pub Extends : Graph → (ℕ → ℕ → Bool) → Graph → Type 0
  Extends g more g' =
      IsGraph waiting g'
      × (g'.tasks ≡ g.tasks)
      × ((a b : ℕ) → mem b (g'.dependencies a) ≡ (mem b (g.dependencies a) || more a b))

  pub Extends-step :
      (g g1 g2 : Graph) (more more1 more2 : ℕ → ℕ → Bool)
      → ((a b : ℕ) → more a b ≡ (more1 a b || more2 a b))
      → Extends g more1 g1
      → Extends g1 more2 g2
      → Extends g more g2
  Extends-step g g1 g2 more more1 more2 both (inv1, same1, edges1) (inv2, same2, edges2) =
      (inv2, same2 ∙ same1, λ a b. ground (arith, both a b, edges1 a b, edges2 a b))

  pub depend-Extends :
      (source target : ℕ) (g : Graph)
      → IsGraph waiting g
      → mem source g.tasks ≡ true
      → mem target g.tasks ≡ true
      → (g' : Graph) × (depend source target g ≡ ok g')
        × Extends g (λ a b. nat_beq source a && nat_beq target b && not (nat_beq a b)) g'
  unfolding depend add_dependency link
  depend-Extends source target g inv known there = elim (Bool-cases (nat_beq source target)) [
    | inl same ↦ (g, ground arith, (inv, refl, λ a b. ground arith))
    | inr apart ↦ (
      link source target g,
      ground arith,
      (
        link-IsGraph waiting g inv source target (ground arith) known there,
        refl,
        λ a b. ground (arith, mem-add target b (g.dependencies source)),
      ),
    )
  ]
